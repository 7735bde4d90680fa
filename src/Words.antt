-- ===== src/Words.antt =====
-- Go's fixed-width integers as bit patterns. A `byte` is a number below 2 ^ 8; `uint64`, `int64`
-- and `float64` are numbers below 2 ^ 64. The program copies floats and turns them to bits and
-- back (math.Float64bits, math.Float64frombits), so a float is its pattern throughout.
use tstorage.Base.{ℕ, ◌+◌, ◌-◌, ◌*◌, ◌%◌, ◌^◌, ◌<◌, ◌≡◌, arith, Bool, ltb, leb}
use tstorage.Base.{if◌then◌else◌}

abbrev pub IsByte : ℕ → Type 0
IsByte b = b < 256

abbrev pub IsU64 : ℕ → Type 0
IsU64 x = x < 2 ^ 64

-- Sum and difference of 64-bit words wrap around.
abbrev pub add64 : ℕ → ℕ → ℕ
add64 a b = (a + b) % 2 ^ 64

abbrev pub sub64 : ℕ → ℕ → ℕ
sub64 a b = (a + 2 ^ 64 - b) % 2 ^ 64

-- x << s: a shift by the width or more clears the word.
abbrev pub shl64 : ℕ → ℕ → ℕ
shl64 x s = if ltb s 64 then x * 2 ^ s % 2 ^ 64 else 0

-- uint8 difference.
abbrev pub sub8 : ℕ → ℕ → ℕ
sub8 a b = (a + 256 - b) % 256

-- (uint64(1) << n) - 1
abbrev pub mask64 : ℕ → ℕ
mask64 n = sub64 (shl64 1 n) 1

-- The order of int64: adding 2 ^ 63 turns it into the order of the patterns.
unfoldable pub biased : ℕ → ℕ
biased x = (x + 2 ^ 63) % 2 ^ 64

abbrev pub slt : ℕ → ℕ → Bool
slt a b = ltb (biased a) (biased b)

abbrev pub sle : ℕ → ℕ → Bool
sle a b = leb (biased a) (biased b)

-- A word is known by its place in the signed order.
pub biased_inj : (a b : ℕ) → IsU64 a → IsU64 b → biased a ≡ biased b → a ≡ b
unfolding biased
biased_inj a b ha hb e = omega arith
