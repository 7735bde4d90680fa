-- ===== src/Base/Bits.antt =====
-- A number as its lowest binary digits, highest first.
use mathlib.Core.Path.{ap₂}
use native.Mathlib.Nat.{pow-suc, one-le-pow, div-div-eq-div-mul}
use native.Mathlib.Nat.{mul-add-div_right, mul-add-mod_self_right, mod-eq_of_lt, div-add-mod'}
use Prim.Native.Nat.{ℕ, zero, suc, ◌+◌, ◌*◌, ◌/◌, ◌%◌, ◌^◌, ◌<◌}
use mathlib.Core.Path.{◌≡◌, refl, sym, ap, ◌∙◌}
use mathlib.Core.List.{List, [], ◌∷◌, ◌++◌}
use native.Mathlib.Omega.{arith}
use tstorage.Base.Lists.{length}

abbrev pub bits : ℕ → ℕ → List ℕ
bits zero v = []
bits (suc k) v = (v / 2 ^ k % 2) ∷ bits k v

abbrev pub bytes_bits : List ℕ → List ℕ
bytes_bits [] = []
bytes_bits (b ∷ bs) = bits 8 b ++ bytes_bits bs

pub pow-add : (a b : ℕ) → 2 ^ (a + b) ≡ 2 ^ a * 2 ^ b
pow-add zero b = ap (λ n. 2 ^ n) {x = zero + b} {y = b} (omega arith) ∙ omega arith
pow-add (suc a) b =
    ap (λ n. 2 ^ n) {x = suc a + b} {y = suc (a + b)} (omega arith)
    ∙ omega (arith, pow-suc 2 (a + b), pow-add a b, ap (λ (t : ℕ). t * 2 ^ b) (pow-suc 2 a))

pub length-bits : (k v : ℕ) → length (bits k v) ≡ k
length-bits zero v = refl
length-bits (suc k) v = ap suc (length-bits k v)

pub length-bytes_bits : (bs : List ℕ) → length (bytes_bits bs) ≡ 8 * length bs
length-bytes_bits [] = refl
length-bytes_bits (b ∷ bs) = omega (arith, length-bytes_bits bs)

pub bytes_bits-append : (xs ys : List ℕ) → bytes_bits (xs ++ ys) ≡ bytes_bits xs ++ bytes_bits ys
bytes_bits-append [] ys = refl
bytes_bits-append (x ∷ xs) ys = ap (λ t. bits 8 x ++ t) (bytes_bits-append xs ys)

-- The digits of a number, cut in two.
pub bits-split : (j k v : ℕ) → bits (j + k) v ≡ bits j (v / 2 ^ k) ++ bits k v
bits-split zero k v = ap (λ n. bits n v) {x = zero + k} (omega arith)
bits-split (suc j) k v =
    ap (λ n. bits n v) {x = suc j + k} {y = suc (j + k)} (omega arith)
    ∙ ap₂ ◌∷◌ (digit ∙ refl) (bits-split j k v)
  where
    digit : v / 2 ^ (j + k) % 2 ≡ v / 2 ^ k / 2 ^ j % 2
    digit = ground (arith, div-div-eq-div-mul v (2 ^ k) (2 ^ j), pow-add j k)

-- Digits above the lowest `k` do not show.
pub bits-skip : (k q r : ℕ) → bits k (q * 2 ^ k + r) ≡ bits k r
bits-skip zero q r = refl
bits-skip (suc k) q r = ap₂ ◌∷◌ digit (ap (bits k) regroup ∙ bits-skip k (q * 2) r)
  where
    regroup : q * 2 ^ suc k + r ≡ q * 2 * 2 ^ k + r
    regroup = omega (arith, ap (λ (t : ℕ). q * t) (pow-suc 2 k))

    digit : (q * 2 ^ suc k + r) / 2 ^ k % 2 ≡ r / 2 ^ k % 2
    digit =
        ground
          (arith, regroup, mul-add-div_right {m = 2 ^ k} (one-le-pow k 2 (omega arith)) (q * 2) r)

-- Two fields side by side.
pub bits-join : (j k q r : ℕ) → r < 2 ^ k → bits (j + k) (q * 2 ^ k + r) ≡ bits j q ++ bits k r
bits-join j k q r h = bits-split j k (q * 2 ^ k + r) ∙ ap₂ ◌++◌ (ap (bits j) high) (bits-skip k q r)
  where
    high : (q * 2 ^ k + r) / 2 ^ k ≡ q
    high = grind arith

-- The highest of `k + 1` digits.
mod_high : (k a : ℕ) → a % 2 ^ suc k ≡ a / 2 ^ k % 2 * 2 ^ k + a % 2 ^ k
mod_high k a =
    rw (pow-suc 2 k)
      (ap (λ (t : ℕ). t % (p * 2)) whole ∙ mul-add-mod_self_right q (p * 2) c ∙ mod-eq_of_lt below)
  where
    p : ℕ
    p = 2 ^ k

    q : ℕ
    q = a / p / 2

    c : ℕ
    c = a / p % 2 * p + a % p

    whole : a ≡ q * (p * 2) + c
    whole = omega (arith, div-add-mod' a p, ap (λ (t : ℕ). t * p) (div-add-mod' (a / p) 2))

    below : c < p * 2
    below = grind (arith, one-le-pow k 2 (omega arith))

-- Only the lowest `k` digits show.
pub bits-mod : (k v : ℕ) → bits k (v % 2 ^ k) ≡ bits k v
bits-mod k v = sym (bits-skip k (v / 2 ^ k) (v % 2 ^ k)) ∙ ap (bits k) (div-add-mod' v (2 ^ k))

-- Numbers with the same `k` digits agree below `2 ^ k`.
pub bits_inj : (k a b : ℕ) → bits k a ≡ bits k b → a % 2 ^ k ≡ b % 2 ^ k
bits_inj zero a b e = omega arith
bits_inj (suc k) a b e =
    let heads : a / 2 ^ k % 2 ≡ b / 2 ^ k % 2 = cc in
    let tails : bits k a ≡ bits k b = cc in
    mod_high k a
    ∙ ap₂ (λ (d r : ℕ). d * 2 ^ k + r) heads (bits_inj k a b tails)
    ∙ omega (arith, mod_high k b)
