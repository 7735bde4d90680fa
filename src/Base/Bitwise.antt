-- ===== src/Base/Bitwise.antt =====
-- Laws of the bitwise operations at every width, from their recursion on binary digits.
use Prim.Native.Nat.{ℕ, zero, suc, ◌+◌, ◌-◌, ◌*◌, ◌/◌, ◌%◌, ◌^◌, ◌≤◌, ◌<◌, min, max}
use Prim.Native.Nat.{digits, bitwise, differ, bit_and, bit_or, bit_xor}
use Prim.Native.Nat.{bit_and-bitwise, bit_or-bitwise, bit_xor-bitwise}
use mathlib.Core.Path.{◌≡◌, refl, ap, ◌∙◌}
use native.Mathlib.Nat.{pow-suc, one-le-pow, div-div-eq-div-mul}
use native.Mathlib.Omega.{arith}

-- The count of digits to go does not matter once it is large enough.
module _ (z : ℕ → ℕ) (op : ℕ → ℕ → ℕ) where
  digits_enough : (k l a b : ℕ) → a ≤ k → a ≤ l → digits z op k a b ≡ digits z op l a b
  digits_enough zero zero a b h h' = refl
  digits_enough zero (suc l) zero b h h' = refl
  digits_enough (suc k) zero zero b h h' = refl
  digits_enough (suc k) (suc l) zero b h h' = refl
  digits_enough zero (suc l) (suc a) b h h' = absurd (omega arith)
  digits_enough (suc k) zero (suc a) b h h' = absurd (omega arith)
  digits_enough (suc k) (suc l) (suc a) b h h' =
      omega (arith, digits_enough k l (suc a / 2) (b / 2) (omega arith) (omega arith))

  lowest_digit :
      (a b : ℕ)
      → bitwise z op (suc a) b ≡ bitwise z op (suc a / 2) (b / 2) * 2 + op (suc a % 2) (b % 2)
  lowest_digit a b =
      omega (arith, digits_enough a (suc a / 2) (suc a / 2) (b / 2) (omega arith) (omega arith))

differ-mod : (x y : ℕ) → x < 2 → y < 2 → differ x y ≡ (x + y) % 2
differ-mod zero y h k = omega arith
differ-mod (suc zero) zero h k = refl
differ-mod (suc zero) (suc zero) h k = refl
differ-mod (suc zero) (suc (suc y)) h k = absurd (omega arith)
differ-mod (suc (suc x)) y h k = absurd (omega arith)

pub or_step : (a b : ℕ) → bit_or a b ≡ bit_or (a / 2) (b / 2) * 2 + max (a % 2) (b % 2)
or_step zero b = simp bit_or-bitwise (omega arith)
or_step (suc a) b = simp bit_or-bitwise (lowest_digit (λ y. y) max a b)

pub and_step : (a b : ℕ) → bit_and a b ≡ bit_and (a / 2) (b / 2) * 2 + min (a % 2) (b % 2)
and_step zero b = simp bit_and-bitwise (omega arith)
and_step (suc a) b = simp bit_and-bitwise (lowest_digit (λ y. 0) min a b)

pub xor_step : (a b : ℕ) → bit_xor a b ≡ bit_xor (a / 2) (b / 2) * 2 + (a % 2 + b % 2) % 2
xor_step zero b = simp bit_xor-bitwise (omega arith)
xor_step (suc a) b = simp bit_xor-bitwise (
    omega (
      arith,
      lowest_digit (λ y. y) differ a b,
      differ-mod (suc a % 2) (b % 2) (omega arith) (omega arith),
    ))

or_zero_below : (k a : ℕ) → a ≤ k → bit_or a 0 ≡ a
or_zero_below k zero h = refl
or_zero_below zero (suc a) h = absurd (omega arith)
or_zero_below (suc k) (suc a) h =
    omega (arith, or_step (suc a) 0, or_zero_below k (suc a / 2) (omega arith))

pub or-zero : (a : ℕ) → bit_or a 0 ≡ a
or-zero a = or_zero_below a a (omega arith)

and_zero_below : (k a : ℕ) → a ≤ k → bit_and a 0 ≡ 0
and_zero_below k zero h = refl
and_zero_below zero (suc a) h = absurd (omega arith)
and_zero_below (suc k) (suc a) h =
    omega (arith, and_step (suc a) 0, and_zero_below k (suc a / 2) (omega arith))

double_pow : (q k : ℕ) → q * 2 ^ suc k ≡ 2 * (q * 2 ^ k)
double_pow q k = omega (arith, ap (λ (t : ℕ). q * t) (pow-suc 2 k))

-- An `or` with what fits under `k` cleared bits is a sum.
pub or_disjoint : (k q r : ℕ) → r < 2 ^ k → bit_or (q * 2 ^ k) r ≡ q * 2 ^ k + r
or_disjoint zero q r h = ground (arith, or-zero q)
or_disjoint (suc k) q r h =
    ground (arith, or_step (q * 2 ^ suc k) r, double_pow q k, or_disjoint k q (r / 2) (omega arith))

or_zero_left : (b : ℕ) → bit_or 0 b ≡ b
or_zero_left b = simp bit_or-bitwise

-- The same with the two parts exchanged.
pub or_disjoint_left : (k q r : ℕ) → r < 2 ^ k → bit_or r (q * 2 ^ k) ≡ q * 2 ^ k + r
or_disjoint_left zero q zero h = or_zero_left (q * 1) ∙ omega arith
or_disjoint_left zero q (suc r) h = absurd (omega arith)
or_disjoint_left (suc k) q r h =
    ground
      (arith, or_step r (q * 2 ^ suc k), double_pow q k, or_disjoint_left k q (r / 2) (omega arith))

or_step_even : (a m : ℕ) → bit_or a (2 * m) ≡ bit_or (a / 2) m * 2 + a % 2
or_step_even a m = ground (arith, or_step a (2 * m))

or_one : (a : ℕ) → bit_or a 1 ≡ a / 2 * 2 + 1
or_one a = omega (arith, or_step a 1, or-zero (a / 2))

-- Setting the eighth digit of a byte.
pub or_top_digit : (a : ℕ) → a < 256 → bit_or a 0x80 ≡ a % 128 + 128
or_top_digit a h = omega (
  arith,
  or_step_even a 0x40,
  or_step_even (a / 2) 0x20,
  or_step_even (a / 2 / 2) 0x10,
  or_step_even (a / 2 / 2 / 2) 0x08,
  or_step_even (a / 2 / 2 / 2 / 2) 0x04,
  or_step_even (a / 2 / 2 / 2 / 2 / 2) 0x02,
  or_step_even (a / 2 / 2 / 2 / 2 / 2 / 2) 0x01,
  or_one (a / 2 / 2 / 2 / 2 / 2 / 2 / 2),
)

and_low : (k q r : ℕ) → r < 2 ^ k → bit_and (q * 2 ^ k + r) (2 ^ k - 1) ≡ r
and_low zero q r h = omega (arith, and_zero_below (q * 1 + r) (q * 1 + r) (omega arith))
and_low (suc k) q r h = ground (
  arith,
  and_step (q * 2 ^ suc k + r) (2 ^ suc k - 1),
  double_pow q k,
  pow-suc 2 k,
  one-le-pow k 2,
  and_low k q (r / 2) (omega arith),
)

-- A mask of `k` ones takes the remainder by `2 ^ k`.
pub and_mask : (k a : ℕ) → bit_and a (2 ^ k - 1) ≡ a % 2 ^ k
and_mask k a = ground (arith, one-le-pow k 2, and_low k (a / 2 ^ k) (a % 2 ^ k))

-- One digit alone.
pub and_digit : (k a : ℕ) → bit_and a (2 ^ k) ≡ a / 2 ^ k % 2 * 2 ^ k
and_digit zero a = omega (arith, and_step a 1, and_zero_below (a / 2) (a / 2) (omega arith))
and_digit (suc k) a = ground (
  arith,
  and_step a (2 ^ suc k),
  pow-suc 2 k,
  and_digit k (a / 2),
  div-div-eq-div-mul a 2 (2 ^ k),
  double_pow (a / 2 ^ suc k % 2) k,
)

-- Exclusive or twice by the same number changes nothing.
xor_cancel_below : (k a b : ℕ) → a ≤ k → b ≤ k → bit_xor b (bit_xor a b) ≡ a
xor_cancel_below zero zero zero h h' = refl
xor_cancel_below zero (suc a) b h h' = absurd (omega arith)
xor_cancel_below zero zero (suc b) h h' = absurd (omega arith)
xor_cancel_below (suc k) a b h h' = ground (
  arith,
  xor_step a b,
  xor_step b (bit_xor a b),
  xor_cancel_below k (a / 2) (b / 2) (omega arith) (omega arith),
)

pub xor_cancel : (a b : ℕ) → bit_xor b (bit_xor a b) ≡ a
xor_cancel a b = xor_cancel_below (a + b) a b (omega arith) (omega arith)

xor_zero_below : (k a : ℕ) → a ≤ k → bit_xor a 0 ≡ a
xor_zero_below k zero h = refl
xor_zero_below zero (suc a) h = absurd (omega arith)
xor_zero_below (suc k) (suc a) h =
    omega (arith, xor_step (suc a) 0, xor_zero_below k (suc a / 2) (omega arith))

pub xor-zero : (a : ℕ) → bit_xor a 0 ≡ a
xor-zero a = xor_zero_below a a (omega arith)

-- Only equal numbers have no digit in which they differ.
pub xor_zero-eq : (a b : ℕ) → bit_xor a b ≡ 0 → a ≡ b
xor_zero-eq a b h = ground (arith, xor_cancel a b, xor_zero_below b b)

pub xor-lt : (k a b : ℕ) → a < 2 ^ k → b < 2 ^ k → bit_xor a b < 2 ^ k
xor-lt zero zero zero h h' = omega arith
xor-lt zero (suc a) b h h' = absurd (omega arith)
xor-lt zero zero (suc b) h h' = absurd (omega arith)
xor-lt (suc k) a b h h' = omega (
  arith,
  pow-suc 2 k,
  xor_step a b,
  xor-lt k (a / 2) (b / 2) (omega (arith, pow-suc 2 k)) (omega (arith, pow-suc 2 k)),
)
