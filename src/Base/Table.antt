-- ===== src/Base/Table.antt =====
-- Tests that a computation runs on every number under a bound.
use Prim.Native.Nat.{ℕ, zero, suc, ◌<◌}
use mathlib.Core.Path.{◌≡◌}
use mathlib.Core.Bool.{Bool, true, ◌&&◌}
use native.Mathlib.Omega.{arith}

-- From the highest number down to 0.
unfoldable pub check_all : ℕ → (ℕ → Bool) → Bool
check_all zero test = true
check_all (suc k) test = check_all k test && test k

pub check_all-holds :
    (bound : ℕ) (test : ℕ → Bool) (i : ℕ) → check_all bound test ≡ true → i < bound → test i ≡ true
unfolding check_all
check_all-holds zero test i passed below = absurd (omega arith)
check_all-holds (suc k) test i passed below = ground (arith, check_all-holds k test i)
