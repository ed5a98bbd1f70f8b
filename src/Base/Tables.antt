-- ===== src/Base/Tables.antt =====
-- Facts about all numbers below a bound, by evaluation.
use Prim.Native.Nat.{ℕ, zero, suc, ◌<◌}
use mathlib.Core.Path.{◌≡◌}
use mathlib.Core.Bool.{Bool, true, ◌&&◌}
use native.Mathlib.Omega.{arith}

-- Whether a test passes at each number under the bound.
unfoldable pub holds_under : (test : ℕ → Bool) (bound : ℕ) → Bool
holds_under test zero = true
holds_under test (suc last) = holds_under test last && test last

pub read_table :
    (test : ℕ → Bool) {bound at : ℕ} → at < bound → holds_under test bound ≡ true → test at ≡ true
unfolding holds_under
read_table test {bound = zero} inside full = absurd (omega arith)
read_table test {bound = suc last} {at} inside full =
    ground (arith, read_table test {bound = last} {at = at})
