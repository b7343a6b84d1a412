-- ===== src/Prelude/Tables.antt =====
-- Facts about small numbers, by evaluation of every case.
use Prim.Native.Nat.{ℕ, zero, suc, ◌<◌}
use mathlib.Core.Path.{◌≡◌}
use mathlib.Core.Bool.{Bool, true, false}
use native.Mathlib.Omega.{arith}
use drgb_server.Prelude.Tests.{if◌then◌else◌}

-- Does the test pass at every number under the bound?
unfoldable pub each_under : (ℕ → Bool) → ℕ → Bool
each_under test zero = true
each_under test (suc bound) =
    let others = each_under test bound in if test bound then others else false

pub each_under_at :
    (test : ℕ → Bool) (bound k : ℕ) → k < bound → each_under test bound ≡ true → test k ≡ true
unfolding each_under
each_under_at test zero k small passed = elim small [ ]
each_under_at test (suc bound) k small passed = ground (arith, each_under_at test bound k)

pub each_under_at₂ :
    (test : ℕ → ℕ → Bool) (rows columns i j : ℕ)
    → i < rows
    → j < columns
    → each_under (λ r. each_under (test r) columns) rows ≡ true
    → test i j ≡ true
each_under_at₂ test rows columns i j h k passed =
    each_under_at (test i) columns j k
      (each_under_at (λ r. each_under (test r) columns) rows i h passed)
