-- ===== src/BStream/WriteWords.antt =====
-- `writeBits` appends the lowest bits of a word, highest first.
use mathlib.Core.Path.{ap₂, subst}
use native.Mathlib.Nat.{one-le-pow, pow-suc, mul-div-mul_right}
use tstorage.Base.{ℕ, zero, suc, ◌+◌, ◌-◌, ◌*◌, ◌/◌, ◌%◌, ◌^◌, ◌≤◌, ◌<◌, ◌≡◌, refl, sym, ap, ◌∙◌}
use tstorage.Base.{List, [], ◌∷◌, ◌++◌, append-nil, append_assoc, arith, ◌==◌, lt→ltb}
use tstorage.Base.Bits.{bits, pow-add}
use tstorage.Words.{IsU64, shl64}
use tstorage.BStream.{BStream, write_byte, write_bits, write_whole_bytes, write_single_bits}
use tstorage.BStream.Writes.{Holds, digit, write_bit-Holds}
use tstorage.BStream.WriteBits.{write_byte-Holds}

-- The highest bits of a 64-bit word.
top : ℕ → ℕ → List ℕ
top zero x = []
top (suc k) x = (x / 2 ^ 63 % 2) ∷ top k (x * 2 % 2 ^ 64)

top_byte : (k x : ℕ) → IsU64 x → top (8 + k) x ≡ bits 8 (x / 2 ^ 56) ++ top k (x * 2 ^ 8 % 2 ^ 64)
unfolding top
top_byte k x h =
    ap (λ n. top n x) {x = 8 + k} {y = suc (suc (suc (suc (suc (suc (suc (suc k)))))))}
      (omega arith)
    ∙ ap₂ ◌∷◌ (omega arith) (
        ap₂ ◌∷◌ (omega arith) (
          ap₂ ◌∷◌ (omega arith) (
            ap₂ ◌∷◌ (omega arith) (
              ap₂ ◌∷◌ (omega arith) (
                ap₂ ◌∷◌ (omega arith)
                  (ap₂ ◌∷◌ (omega arith) (ap₂ ◌∷◌ (omega arith) (ap (top k) (omega arith)))))))))

digit_top : (x : ℕ) → IsU64 x → digit (x / 2 ^ 63 == 1) ≡ x / 2 ^ 63 % 2
digit_top x h = ground arith

single_bits-Holds :
    (k x : ℕ) {b : BStream} (out : List ℕ)
    → IsU64 x
    → Holds b out
    → Holds (write_single_bits k x b) (out ++ top k x)
unfolding write_single_bits top
single_bits-Holds zero x out lt h = rw append-nil h
single_bits-Holds (suc k) x {b} out lt h =
    let first = write_bit-Holds (x / 2 ^ 63 == 1) h in
    rw (← append_assoc out (x / 2 ^ 63 % 2 ∷ []) (top k (x * 2 % 2 ^ 64)), ← digit_top x lt)
      (single_bits-Holds k (x * 2 % 2 ^ 64) (out ++ digit (x / 2 ^ 63 == 1) ∷ []) (omega arith)
        first)

abbrev finish : ℕ → ℕ × BStream → BStream
finish r (u, b) = write_single_bits r u b

whole_bytes-Holds :
    (k r x : ℕ) {b : BStream} (out : List ℕ)
    → IsU64 x
    → Holds b out
    → Holds (finish r (write_whole_bytes k x b)) (out ++ top (k * 8 + r) x)
unfolding write_whole_bytes
whole_bytes-Holds zero r x out lt h =
    rw (ap (λ n. top n x) {x = zero * 8 + r} {y = r} (omega arith)) (single_bits-Holds r x out lt h)
whole_bytes-Holds (suc k) r x {b} out lt h =
    rw
      (bytes_first, ← append_assoc out (bits 8 (x / 2 ^ 56)) (top (k * 8 + r) (x * 2 ^ 8 % 2 ^ 64)))
      (whole_bytes-Holds k r (x * 2 ^ 8 % 2 ^ 64) (out ++ bits 8 (x / 2 ^ 56)) (omega arith) first)
  where
    bytes_first :
        top (suc k * 8 + r) x ≡ bits 8 (x / 2 ^ 56) ++ top (k * 8 + r) (x * 2 ^ 8 % 2 ^ 64)
    bytes_first =
        ap (λ n. top n x) {x = suc k * 8 + r} {y = 8 + (k * 8 + r)} (omega arith)
        ∙ top_byte (k * 8 + r) x lt

    byte_fits : x / 2 ^ 56 % 256 ≡ x / 2 ^ 56
    byte_fits = omega arith

    first : Holds (write_byte b (x / 2 ^ 56 % 256)) (out ++ bits 8 (x / 2 ^ 56))
    first =
        subst (λ y. Holds (write_byte b (x / 2 ^ 56 % 256)) (out ++ bits 8 y)) byte_fits
          (write_byte-Holds (x / 2 ^ 56 % 256) (omega arith) h)

-- The digit that comes out first.
top_digit : (u p q : ℕ) → 0 < p → q * p ≡ 2 ^ 63 → u * p % 2 ^ 64 / 2 ^ 63 % 2 ≡ u / q % 2
top_digit u p q pos e =
    omega (arith, ap (λ (t : ℕ). u * p / t) e, mul-div-mul_right {m = p} u q pos)

power_split : (n : ℕ) → n ≤ 63 → 2 ^ n * 2 ^ (63 - n) ≡ 2 ^ 63
power_split n h =
    sym (pow-add n (63 - n)) ∙ ap (λ k. 2 ^ k) {x = n + (63 - n)} {y = 63} (omega arith)

-- Shifted to the top of a word, the lowest bits come out first.
top-bits : (n u : ℕ) → n ≤ 64 → top n (u * 2 ^ (64 - n) % 2 ^ 64) ≡ bits n u
unfolding top
top-bits zero u h = refl
top-bits (suc n) u h =
    ap₂ ◌∷◌
      (ap (λ k. u * 2 ^ k % 2 ^ 64 / 2 ^ 63 % 2) {x = 64 - suc n} {y = 63 - n} (omega arith)
        ∙ top_digit u (2 ^ (63 - n)) (2 ^ n) (one-le-pow (63 - n) 2 (omega arith))
            (power_split n (omega arith)))
      (ap (top n) doubled ∙ top-bits n u (omega arith))
  where
    power : 2 ^ (64 - n) ≡ 2 ^ (64 - suc n) * 2
    power =
        ap (λ k. 2 ^ k) {x = 64 - n} {y = suc (64 - suc n)} (omega arith) ∙ pow-suc 2 (64 - suc n)

    doubled : u * 2 ^ (64 - suc n) % 2 ^ 64 * 2 % 2 ^ 64 ≡ u * 2 ^ (64 - n) % 2 ^ 64
    doubled = omega (arith, ap (λ (t : ℕ). u * t) power)

shifted_out : (n u : ℕ) → n ≤ 64 → top n (shl64 u ((64 + 2 ^ 64 - n) % 2 ^ 64)) ≡ bits n u
shifted_out zero u h = unfold top in refl
shifted_out (suc n) u h =
    ap (top (suc n)) (
      ap (shl64 u) {x = (64 + 2 ^ 64 - suc n) % 2 ^ 64} {y = 64 - suc n} (omega arith)
      ∙ rw (lt→ltb (64 - suc n) 64 (omega arith)))
    ∙ top-bits (suc n) u h

shl64-lt : (u n : ℕ) → IsU64 (shl64 u n)
shl64-lt u n = ground arith

-- writeBits appends the lowest nbits bits of its number to the bits in the stream, the highest of
-- them first, wherever in a byte the stream ends and for every nbits up to 64.
pub write_bits-Holds :
    {b : BStream} {out : List ℕ} (u nbits : ℕ)
    → nbits ≤ 64
    → Holds b out
    → Holds (write_bits b u nbits) (out ++ bits nbits u)
unfolding write_bits
write_bits-Holds {b} {out} u nbits le h =
    let x = shl64 u ((64 + 2 ^ 64 - nbits) % 2 ^ 64) in
    rw
      (
        ← shifted_out nbits u le,
        ap (λ n. top n x) {x = nbits} {y = nbits / 8 * 8 + nbits % 8} (omega arith),
      )
      (whole_bytes-Holds (nbits / 8) (nbits % 8) x out (shl64-lt u _) h)
