-- ===== src/BStream/Reads.antt =====
-- The reads of a bit and of bits in the buffer.
use native.Mathlib.Nat.{mod-eq_of_lt, pow-le-pow_right, one-le-pow}
use tstorage.Base.{ℕ, ◌+◌, ◌-◌, ◌/◌, ◌%◌, ◌^◌, ◌≤◌, ◌<◌, ◌≡◌, refl, sym, ap, ◌∙◌, ◌⊎◌}
use tstorage.Base.{bit_and, Bool, true, false, not, List, ◌++◌, append_assoc, arith}
use tstorage.Base.{none, some, length, length-append, append_inj, drop, ltb, ◌==◌}
use tstorage.Base.{Bool-cases, ==_iff, ==_false, ltb→ge, ge→ltb, le→leb, inl, inr}
use tstorage.Base.Bitwise.{and_mask, and_digit}
use tstorage.Base.Bits.{bits, bytes_bits, length-bits, bits-split, bits_inj}
use tstorage.Words.{shl64, mask64}
use tstorage.BStream.{BReader, Read, read_bit_fast, read_bit, read_bits_fast}
use tstorage.BStream.{load_next_buffer, after_load, read_loaded}
use tstorage.BStream.Writes.{digit}
use tstorage.BStream.Loads.{unread, Remains, load_lem}

-- The read returns `a` and leaves `more` to read.
abbrev pub Reads : {A : Type 0} → Read A → BReader → A → List ℕ → Type 0
Reads m r a more = (r' : BReader) × (m r ≡ (some a, r')) × Remains r' more

pub small_power : (n : ℕ) → n < 64 → 2 ^ n < 2 ^ 64
small_power n h =
    omega (arith, pow-le-pow_right {n = 2} (omega arith) {i = n} {j = 63} (omega arith))

shl64-one : (n : ℕ) → n < 64 → shl64 1 n ≡ 2 ^ n
shl64-one n h = ground (arith, small_power n h)

pub mask64_lem : (n : ℕ) → n ≤ 64 → mask64 n ≡ 2 ^ n - 1
mask64_lem n h = elim (Bool-cases (ltb n 64)) [
  | inl below ↦ ground (arith, small_power n, one-le-pow n 2 (omega arith))
  | inr top ↦
      let e : n ≡ 64 = ground arith in ap mask64 e ∙ ap (λ k. 2 ^ k - 1) {x = 64} {y = n} (sym e)
]

-- The next `n` bits are in the buffer.
module _ (r : BReader) (n v : ℕ) (more : List ℕ) (le : n ≤ r.valid)
    (h : Remains r (bits n v ++ more)) where
  next_bits :
      (bits n (r.buffer / 2 ^ (r.valid - n)) ≡ bits n v)
      × (unread (record r { valid = r.valid - n }) ≡ more)
  next_bits = append_inj _ _ _ _ (length-bits n _ ∙ sym (length-bits n v)) (
      sym (append_assoc (bits n (r.buffer / 2 ^ (r.valid - n))) _ _)
      ∙ ap (λ t. t ++ bytes_bits (drop r.stream_offset r.stream))
          (sym (bits-split n (r.valid - n) r.buffer)
            ∙ ap (λ k. bits k r.buffer) {x = n + (r.valid - n)} {y = r.valid} (omega arith))
      ∙ h.rest)

  pub Remains-next : Remains (record r { valid = r.valid - n }) more
  Remains-next = record { bytes = h.bytes; width = omega (arith, h.width); rest = next_bits.1 }

  pub next_value : v < 2 ^ n → bit_and (r.buffer / 2 ^ (r.valid - n)) (mask64 n) ≡ v
  next_value lt =
      ap (bit_and (r.buffer / 2 ^ (r.valid - n))) (mask64_lem n (omega (arith, h.width)))
      ∙ and_mask n (r.buffer / 2 ^ (r.valid - n))
      ∙ bits_inj n _ v (next_bits.0)
      ∙ mod-eq_of_lt lt

  read_bits_fast_lem : v < 2 ^ n → Reads (read_bits_fast n) r v more
  unfolding read_bits_fast
  read_bits_fast_lem lt = (
    record r { valid = r.valid - n },
    rw (ge→ltb r.valid n le) (ap (λ x. (some x, record r { valid = r.valid - n })) (next_value lt)),
    Remains-next,
  )

  pub read_loaded_near : v < 2 ^ n → Reads (read_loaded n) r v more
  unfolding read_loaded
  read_loaded_near lt = rw (le→leb n r.valid le) (read_bits_fast_lem lt)

length-bits-append : (n v : ℕ) (more : List ℕ) → n ≤ length (bits n v ++ more)
length-bits-append n v more = omega (arith, length-append (bits n v) more, length-bits n v)

-- A load before a read of `n` bits.
pub after_load_lem :
    {A : Type 0} (n v : ℕ) (more : List ℕ) (m k : Read A) {a : A} {rest : List ℕ} {r : BReader}
    → 0 < n
    → n ≤ 64
    → Remains r (bits n v ++ more)
    → r.valid ≡ 0
    → m r ≡ after_load (load_next_buffer r n) r k
    → ((r' : BReader) → n ≤ r'.valid → Remains r' (bits n v ++ more) → Reads k r' a rest)
    → Reads m r a rest
unfolding after_load
after_load_lem n v more m k {r} pos le h empty e next =
    let (r', loads, remains, ready) = load_lem n h empty pos le (length-bits-append n v more) in
    let (r'', reads, done) = next r' ready remains in (r'', e ∙ rw loads reads, done)

read_bit_value :
    (b : Bool) (k buffer : ℕ)
    → k < 64
    → digit b ≡ buffer / 2 ^ k % 2
    → not (bit_and buffer (shl64 1 k) == 0) ≡ b
read_bit_value b k buffer h e =
    ap (λ t. not (bit_and buffer t == 0)) (shl64-one k h)
    ∙ ground (arith, and_digit k buffer, one-le-pow k 2 (omega arith), e)

digit_mod : (b : Bool) → digit b / 1 % 2 ≡ digit b
digit_mod true = refl
digit_mod false = refl

module _ (r : BReader) (b : Bool) (more : List ℕ) (h : Remains r (bits 1 (digit b) ++ more)) where
  read_bit_fast_lem : 1 ≤ r.valid → Reads read_bit_fast r b more
  unfolding read_bit_fast
  read_bit_fast_lem ready =
      let cut = (next_bits r 1 (digit b) more ready h).0 in
      let same : r.buffer / 2 ^ (r.valid - 1) % 2 ≡ digit b =
        omega (arith, bits_inj 1 (r.buffer / 2 ^ (r.valid - 1)) (digit b) cut, digit_mod b) in
      (
        record r { valid = r.valid - 1 },
        rw (not_empty ready) (
            ap (λ x. (some x, record r { valid = r.valid - 1 }))
              (read_bit_value b (r.valid - 1) r.buffer (omega (arith, h.width, ready)) (sym same))),
        Remains-next r 1 (digit b) more ready h,
      )
    where
      not_empty : 1 ≤ r.valid → (r.valid == 0) ≡ false
      not_empty ready = ground arith

-- Where a bit comes next in a reader, in the buffer or in the stream, readBit returns it and leaves
-- the bits after it.
pub read_bit_lem :
    (r : BReader) (b : Bool) (more : List ℕ)
    → Remains r (bits 1 (digit b) ++ more)
    → Reads read_bit r b more
unfolding read_bit
read_bit_lem r b more h = elim (Bool-cases (r.valid == 0)) [
  | inl e ↦
      after_load_lem 1 (digit b) more read_bit read_bit_fast (omega arith) (omega arith) h
        ((==_iff r.valid 0).0 e) (rw e) (λ r' ready h'. read_bit_fast_lem r' b more h' ready)
  | inr e ↦ rw e (read_bit_fast_lem r b more h (omega (arith, ==_false r.valid 0 e)))
]

-- The quick read of a bit ends with io.EOF only where the buffer is empty, and changes nothing then.
pub read_bit_fast_cases :
    (r : BReader) (b : Bool) (more : List ℕ)
    → Remains r (bits 1 (digit b) ++ more)
    → Reads read_bit_fast r b more ⊎ (read_bit_fast r ≡ (none, r))
read_bit_fast_cases r b more h = elim (Bool-cases (r.valid == 0)) [
  | inl e ↦ inr (unfold read_bit_fast in rw e)
  | inr e ↦ inl (read_bit_fast_lem r b more h (omega (arith, ==_false r.valid 0 e)))
]

-- The same of the quick read of some bits.
pub read_bits_fast_cases :
    (r : BReader) (n v : ℕ) (more : List ℕ)
    → v < 2 ^ n
    → Remains r (bits n v ++ more)
    → Reads (read_bits_fast n) r v more ⊎ (read_bits_fast n r ≡ (none, r))
read_bits_fast_cases r n v more lt h = elim (Bool-cases (ltb r.valid n)) [
  | inl e ↦ inr (unfold read_bits_fast in rw e)
  | inr e ↦ inl (read_bits_fast_lem r n v more (ltb→ge r.valid n e) h lt)
]
