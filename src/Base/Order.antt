-- ===== src/Base/Order.antt =====
-- `<` on the native numbers is well founded.
use Prim.Native.Nat.{ℕ, zero, suc, ◌<◌}
use mathlib.Core.WellFounded.{Acc, WellFounded}
use native.Mathlib.Omega.{arith}

below_acc : (k n : ℕ) → n < k → Acc ◌<◌ n
below_acc zero n h = absurd (omega arith)
below_acc (suc k) n h = Acc.intro n (λ m lt. below_acc k m (omega arith))

unfoldable pub lt_wf : WellFounded ◌<◌
unfolding below_acc
lt_wf = record { apply = λ n. below_acc (suc n) n (omega arith) }
