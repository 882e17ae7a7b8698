-- ===== src/Common/Table.antt =====
-- A test of all numbers below a bound, which a proof evaluates once and uses at each of them.
use Prim.Native.Nat.{ℕ, zero, suc, ◌<◌}
use mathlib.Core.Path.{◌≡◌}
use mathlib.Core.Logic.{inl, inr}
use mathlib.Core.Bool.{Bool, true, ◌&&◌}
use native.Mathlib.Omega.{arith}
use voodoo_ps2_focal_tech.Common.Tests.{◌==◌, Bool-cases}

unfoldable pub all_below : (ℕ → Bool) → ℕ → Bool
all_below test zero = true
all_below test (suc n) = test n && all_below test n

pub all_below-lt : (test : ℕ → Bool) (n k : ℕ) → all_below test n ≡ true → k < n → test k ≡ true
unfolding all_below
all_below-lt test zero k h lt = absurd (omega arith)
all_below-lt test (suc n) k h lt = elim (Bool-cases (k == n)) [
  | inl last ↦ (let here : k ≡ n = ground arith in rw here (ground arith))
  | inr below ↦ all_below-lt test n k (ground arith) (ground arith)
]
