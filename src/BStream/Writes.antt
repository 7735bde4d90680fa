-- ===== src/BStream/Writes.antt =====
-- What the writer's stream holds, and `writeBit`.
use native.Mathlib.Nat.{mod-eq_of_lt, one-le-pow, pow-suc, pow-le-pow_right}
use tstorage.Base.{ℕ, zero, suc, ◌+◌, ◌-◌, ◌*◌, ◌%◌, ◌^◌, ◌<◌, ◌≡◌, refl, sym, ap, ◌∙◌, inl, inr}
use tstorage.Base.{bit_or, Bool, true, false, List, [], ◌∷◌, ◌++◌, append-nil, append_assoc, arith}
use tstorage.Base.{modify_last-append, All, All-append, ◌==◌, Bool-cases, ==_iff}
use tstorage.Base.Bitwise.{or_disjoint}
use tstorage.Base.Bits.{bits, bytes_bits, bytes_bits-append, bits-join, pow-add}
use tstorage.Words.{IsByte, sub8}
use tstorage.BStream.{BStream, open_byte, set_bit, write_bit}

-- The bits of `out` are in the stream, and the last byte has `count` bits to spare.
pub record IsOpen (b : BStream) (out : List ℕ) : Type 0 where
  pub front : List ℕ
  pub last : ℕ
  pub used : ℕ
  pub widths : used + b.count ≡ 8
  pub spare : 0 < b.count
  pub shape : b.stream ≡ front ++ last * 2 ^ b.count ∷ []
  pub fits : last < 2 ^ used
  pub bytes : All IsByte front
  pub holds : out ≡ bytes_bits front ++ bits used last

pub record IsAligned (b : BStream) (out : List ℕ) : Type 0 where
  pub full : b.count ≡ 0
  pub bytes : All IsByte b.stream
  pub holds : out ≡ bytes_bits b.stream

pub data Holds (b : BStream) (out : List ℕ) : Type 0 where
  aligned : IsAligned b out → Holds b out
  opened : IsOpen b out → Holds b out

abbrev pub digit : Bool → ℕ
digit true = 1
digit false = 0

pub open_byte-IsOpen : {b : BStream} {out : List ℕ} → Holds b out → IsOpen (open_byte b) out
unfolding open_byte
open_byte-IsOpen {b} {out} (aligned h) = rw ((==_iff b.count 0).1 h.full) (record {
  front = b.stream;
  last = 0;
  used = 0;
  widths = refl;
  spare = omega arith;
  shape = refl;
  fits = omega arith;
  bytes = h.bytes;
  holds = h.holds ∙ sym (append-nil (bytes_bits b.stream));
})
open_byte-IsOpen {b} {out} (opened h) = elim (Bool-cases (b.count == 0)) [
  | inl e ↦ absurd (omega (arith, h.spare, (==_iff b.count 0).0 e))
  | inr e ↦ rw e h
]

-- Setting the highest spare bit, or leaving it clear, puts one more bit behind `last`.
set_bit_lem :
    (d : ℕ) (bit : Bool) (front : List ℕ) (last : ℕ)
    → d < 8
    → set_bit d bit (front ++ last * 2 ^ suc d ∷ []) ≡ front ++ (last * 2 + digit bit) * 2 ^ d ∷ []
unfolding set_bit
set_bit_lem d true front last h =
    modify_last-append _ front (last * 2 ^ suc d)
    ∙ ap (λ x. front ++ x ∷ [])
        (ap (bit_or (last * 2 ^ suc d)) small ∙ or_disjoint (suc d) last (2 ^ d) below ∙ merge)
  where
    small : 2 ^ d % 256 ≡ 2 ^ d
    small =
        mod-eq_of_lt
          (omega (arith, pow-le-pow_right {n = 2} (omega arith) {i = d} {j = 7} (omega arith)))

    below : 2 ^ d < 2 ^ suc d
    below = omega (arith, pow-suc 2 d, one-le-pow d 2 (omega arith))

    merge : last * 2 ^ suc d + 2 ^ d ≡ (last * 2 + 1) * 2 ^ d
    merge = omega (arith, ap (λ (t : ℕ). last * t) (pow-suc 2 d))
set_bit_lem d false front last h =
    ap (λ x. front ++ x ∷ []) (omega (arith, ap (λ (t : ℕ). last * t) (pow-suc 2 d)))

digit-lt : (bit : Bool) → digit bit < 2
digit-lt true = omega arith
digit-lt false = omega arith

-- The bits after one more.
bits-digit :
    (used last : ℕ) (bit : Bool)
    → bits (used + 1) (last * 2 + digit bit) ≡ bits used last ++ digit bit ∷ []
bits-digit used last true = bits-join used 1 last 1 (omega arith)
bits-digit used last false = bits-join used 1 last 0 (omega arith)

-- The byte's last spare bit was taken: it is a whole byte now.
closed :
    {b : BStream} (front : List ℕ) (x : ℕ) {out : List ℕ}
    → b.count ≡ 0
    → b.stream ≡ front ++ x ∷ []
    → x < 256
    → All IsByte front
    → out ≡ bytes_bits front ++ bits 8 x
    → IsAligned b out
closed {b} front x {out} e s lt bytes holds = record {
  full = e;
  bytes = rw s (All-append IsByte front (x ∷ []) bytes (lt, tt));
  holds =
      holds
      ∙ ap (λ t. bytes_bits front ++ t) (sym (append-nil (bits 8 x)))
      ∙ sym (ap bytes_bits s ∙ bytes_bits-append front (x ∷ []));
}

module _ {o : BStream} {out : List ℕ} (bit : Bool) (h : IsOpen o out) where
  abbrev with_bit : BStream
  with_bit = record o { stream = set_bit (sub8 o.count 1) bit o.stream; count = sub8 o.count 1 }

  with_bit-count : (d : ℕ) → o.count ≡ suc d → sub8 o.count 1 ≡ d
  with_bit-count d e = omega (arith, h.widths)

  with_bit-stream :
      (d : ℕ) → o.count ≡ suc d → with_bit.stream ≡ h.front ++ (h.last * 2 + digit bit) * 2 ^ d ∷ []
  with_bit-stream d e =
      ap (λ k. set_bit k bit o.stream) (with_bit-count d e)
      ∙ ap (set_bit d bit) (h.shape ∙ ap (λ k. h.front ++ h.last * 2 ^ k ∷ []) e)
      ∙ set_bit_lem d bit h.front h.last (omega (arith, h.widths))

  with_bit-holds :
      out ++ digit bit ∷ [] ≡ bytes_bits h.front ++ bits (h.used + 1) (h.last * 2 + digit bit)
  with_bit-holds =
      ap (λ t. t ++ digit bit ∷ []) h.holds
      ∙ append_assoc (bytes_bits h.front) (bits h.used h.last) (digit bit ∷ [])
      ∙ ap (λ t. bytes_bits h.front ++ t) (sym (bits-digit h.used h.last bit))

  with_bit-fits : h.last * 2 + digit bit < 2 ^ (h.used + 1)
  with_bit-fits = omega (arith, h.fits, digit-lt bit, pow-add h.used 1)

  with_bit-Holds : (d : ℕ) → o.count ≡ suc d → Holds with_bit (out ++ digit bit ∷ [])
  with_bit-Holds zero e =
      let whole : h.used + 1 ≡ 8 = omega (arith, h.widths) in
      aligned (
        closed h.front (h.last * 2 + digit bit) (with_bit-count 0 e)
          (with_bit-stream 0 e ∙ ap (λ x. h.front ++ x ∷ []) (omega arith))
          (rw whole at with_bit-fits) h.bytes
          (with_bit-holds ∙ ap (λ k. bytes_bits h.front ++ bits k (h.last * 2 + digit bit)) whole))
  with_bit-Holds (suc d) e = opened (record {
    front = h.front;
    last = h.last * 2 + digit bit;
    used = h.used + 1;
    widths = omega (arith, h.widths, with_bit-count (suc d) e);
    spare = omega (arith, with_bit-count (suc d) e);
    shape =
        with_bit-stream (suc d) e
        ∙ ap (λ k. h.front ++ (h.last * 2 + digit bit) * 2 ^ k ∷ [])
            (sym (with_bit-count (suc d) e));
    fits = with_bit-fits;
    bytes = h.bytes;
    holds = with_bit-holds;
  })

-- writeBit appends one bit to the bits in the stream.
pub write_bit-Holds :
    {b : BStream} {out : List ℕ} (bit : Bool)
    → Holds b out
    → Holds (write_bit b bit) (out ++ digit bit ∷ [])
unfolding write_bit
write_bit-Holds {b} bit h =
    let o = open_byte-IsOpen h in
    with_bit-Holds bit o ((open_byte b).count - 1) (omega (arith, o.spare))
