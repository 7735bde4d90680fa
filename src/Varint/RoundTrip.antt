-- ===== src/Varint/RoundTrip.antt =====
-- What is written as a varint is read back, through any source of bytes.
use mathlib.Core.Path.{ap₂}
use native.Mathlib.Nat.{div-add-mod', mod-eq_of_lt}
use tstorage.Base.{ℕ, zero, suc, ◌+◌, ◌-◌, ◌*◌, ◌/◌, ◌%◌, ◌^◌, ◌≤◌, ◌<◌, ◌≡◌, refl, ap, ◌∙◌}
use tstorage.Base.{bit_or, List, [], ◌∷◌, some, arith, ltb, All}
use tstorage.Base.{lt→ltb, ge→ltb, ltb→lt, ltb→ge, Bool-cases, inl, inr}
use tstorage.Base.Bitwise.{or_disjoint_left, or_top_digit, and_mask}
use tstorage.Base.Bits.{pow-add}
use tstorage.Words.{IsU64, IsByte, shl64}
use tstorage.Varint.{ByteReader, ok, put_groups, put_uvarint, put_varint, zigzag, unzigzag}
use tstorage.Varint.{read_groups, read_uvarint, read_varint}

-- From `s` the source gives out `bytes`, one at a time, and comes to `t`.
pub data Serves {S : Type 0} (read : ByteReader S) (t : S) : S → List ℕ → Type 0 where
  done : Serves read t t []
  next :
      (s s' : S) (b : ℕ) (bytes : List ℕ)
      → read s ≡ (some b, s')
      → Serves read t s' bytes
      → Serves read t s (b ∷ bytes)

-- What a single byte does in `ReadUvarint`.
module _ {S : Type 0} (read : ByteReader S) {s' : S} where
  last_byte :
      (s : S) (k x shift b : ℕ)
      → read s ≡ (some b, s')
      → b < 128
      → (k ≡ 0 → b ≤ 1)
      → read_groups read (suc k) x shift s ≡ (ok (bit_or x (shl64 b shift)), s')
  unfolding read_groups
  last_byte s k x shift b e lt fits = rw (e, read_groups) (ground arith)

  pub inner_byte :
      (s : S) (k x shift g : ℕ)
      → read s ≡ (some (g + 128), s')
      → g < 128
      → read_groups read (suc k) x shift s
        ≡ read_groups read k (bit_or x (shl64 g shift)) (shift + 7) s'
  unfolding read_groups
  inner_byte s k x shift g e lt = ground (arith, e, and_mask 7 (g + 128))

-- A group above the bits that were read before.
add_group :
    (x g shift : ℕ)
    → x < 2 ^ shift
    → shift < 64
    → IsU64 (g * 2 ^ shift)
    → bit_or x (shl64 g shift) ≡ g * 2 ^ shift + x
add_group x g shift below lt fits =
    ap (bit_or x) (rw (lt→ltb shift 64 lt) (mod-eq_of_lt fits)) ∙ or_disjoint_left shift g x below

-- What PutUvarint writes, byte by byte.
pub put_last : (k w : ℕ) → w < 128 → put_groups k w ≡ w ∷ []
unfolding put_groups
put_last zero w h = ap (λ b. b ∷ []) (omega arith)
put_last (suc k) w h = rw (lt→ltb w 0x80 h) (ap (λ b. b ∷ []) (omega arith))

pub put_inner :
    (k w : ℕ) → 128 ≤ w → put_groups (suc k) w ≡ (w % 128 + 128) ∷ put_groups k (w / 128)
unfolding put_groups
put_inner k w h =
    rw (ge→ltb w 0x80 h)
      (ap (λ b. b ∷ put_groups k (w / 128)) (or_top_digit (w % 256) (omega arith) ∙ omega arith))

pub Serves-byte :
    {S : Type 0} {read : ByteReader S} {t s : S} {b : ℕ} {bytes : List ℕ}
    → Serves read t s (b ∷ bytes)
    → (s' : S) × (read s ≡ (some b, s')) × Serves read t s' bytes
Serves-byte (next s s' b bytes e rest) = (s', e, rest)

pub Serves-end : {S : Type 0} {read : ByteReader S} {t s : S} → Serves read t s [] → s ≡ t
Serves-end done = refl

module _ {S : Type 0} (read : ByteReader S) {t : S} where
  -- The byte is the last one.
  read_last :
      (j w x shift : ℕ) (s : S)
      → w < 128
      → (j ≡ 0 → w ≤ 1)
      → shift < 64
      → x < 2 ^ shift
      → IsU64 (w * 2 ^ shift + x)
      → Serves read t s (put_groups j w)
      → read_groups read (suc j) x shift s ≡ (ok (w * 2 ^ shift + x), t)
  read_last j w x shift s lt first width below fits serves =
      let (s', gives, rest) = Serves-byte (rw (put_last j w lt) at serves) in
      last_byte read s j x shift w gives lt first
      ∙ ap₂ (λ y z. (ok y, z)) (add_group x w shift below width (omega arith)) (Serves-end rest)

  -- `w` is what is still to come, from bit `shift` on.
  read_groups-put_groups :
      (j w x shift : ℕ) (s : S)
      → shift ≡ 7 * (9 - j)
      → j ≤ 9
      → x < 2 ^ shift
      → IsU64 (w * 2 ^ shift + x)
      → Serves read t s (put_groups j w)
      → read_groups read (suc j) x shift s ≡ (ok (w * 2 ^ shift + x), t)
  read_groups-put_groups zero w x shift s es le below fits serves =
      let one_bit : w ≤ 1 = omega (arith, ap (λ (k : ℕ). w * 2 ^ k) es) in
      read_last zero w x shift s (omega arith) (λ _. one_bit) (omega arith) below fits serves
  read_groups-put_groups (suc j) w x shift s es le below fits serves =
      elim (Bool-cases (ltb w 0x80)) [
        | inl e ↦
            read_last (suc j) w x shift s (ltb→lt w 0x80 e) (λ z. absurd (omega arith))
              (omega arith) below fits serves
        | inr e ↦
            let (s', gives, rest) = Serves-byte (rw (put_inner j w (ltb→ge w 0x80 e)) at serves) in
            inner_byte read s (suc j) x shift (w % 128) gives (omega arith)
            ∙ ap (λ y. read_groups read (suc j) y (shift + 7) s')
                (add_group x (w % 128) shift below (omega arith) (omega (arith, whole)))
            ∙ read_groups-put_groups j (w / 128) (w % 128 * 2 ^ shift + x) (shift + 7) s'
                (omega arith) (omega arith) (above below) (rw regroup fits) rest
            ∙ ap (λ y. (ok y, t)) regroup
      ]
    where
      whole : w * 2 ^ shift ≡ w / 128 * (128 * 2 ^ shift) + w % 128 * 2 ^ shift
      whole = omega (arith, ap (λ (y : ℕ). y * 2 ^ shift) (div-add-mod' w 128))

      regroup : w / 128 * 2 ^ (shift + 7) + (w % 128 * 2 ^ shift + x) ≡ w * 2 ^ shift + x
      regroup = omega (arith, whole, ap (λ (y : ℕ). w / 128 * y) (pow-add shift 7))

      above : x < 2 ^ shift → w % 128 * 2 ^ shift + x < 2 ^ (shift + 7)
      above below = grind (arith, pow-add shift 7)

-- ReadUvarint gives back the uint64 that PutUvarint wrote, and takes its bytes and no others.
pub read_uvarint-put_uvarint :
    {S : Type 0} (read : ByteReader S) {s t : S} (x : ℕ)
    → IsU64 x
    → Serves read t s (put_uvarint x)
    → read_uvarint read s ≡ (ok x, t)
unfolding read_uvarint put_uvarint
read_uvarint-put_uvarint read {s} {t} x h serves =
    read_groups-put_groups read 9 x 0 0 s (omega arith) (omega arith) (omega arith) (omega arith)
      serves
    ∙ ap (λ y. (ok y, t)) (omega arith)

zigzag-lt : (x : ℕ) → IsU64 x → IsU64 (zigzag x)
unfolding zigzag
zigzag-lt x h = ground arith

unzigzag-zigzag : (x : ℕ) → IsU64 x → unzigzag (zigzag x) ≡ x
unfolding zigzag unzigzag
unzigzag-zigzag x h = ground arith

-- The same of int64 values, negative ones included.
pub read_varint-put_varint :
    {S : Type 0} (read : ByteReader S) {s t : S} (x : ℕ)
    → IsU64 x
    → Serves read t s (put_varint x)
    → read_varint read s ≡ (ok x, t)
unfolding read_varint put_varint
read_varint-put_varint read x h serves =
    rw (read_uvarint-put_uvarint read (zigzag x) (zigzag-lt x h) serves, unzigzag-zigzag x h)

put_groups-IsByte : (k x : ℕ) → All IsByte (put_groups k x)
unfolding put_groups
put_groups-IsByte zero x = (omega arith, tt)
put_groups-IsByte (suc k) x = ground (arith, or_top_digit (x % 256), put_groups-IsByte k (x / 128))

pub put_uvarint-IsByte : (x : ℕ) → All IsByte (put_uvarint x)
unfolding put_uvarint
put_uvarint-IsByte x = put_groups-IsByte 9 x

pub put_varint-IsByte : (x : ℕ) → All IsByte (put_varint x)
unfolding put_varint
put_varint-IsByte x = put_uvarint-IsByte (zigzag x)
