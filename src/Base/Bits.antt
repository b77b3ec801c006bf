-- ===== src/Base/Bits.antt =====
-- Facts checked for each number of a small range.
use Prim.Native.Nat.{ℕ, zero, suc, ◌+◌, ◌≤◌, ◌<◌}
use mathlib.Core.Path.{◌≡◌}
use mathlib.Core.Bool.{Bool, true, false}
use mathlib.Core.Logic.{inl, inr}
use native.Mathlib.Omega.{arith}
use ps2_side_dumper.Base.Tests.{◌==◌, ==_iff, if◌then◌else◌, Bool-cases}

module _ (test : ℕ → Bool) where
  -- The test holds of the numbers from `first` on, as many as `rounds` says.
  unfoldable pub holds_from : ℕ → ℕ → Bool
  holds_from first zero = true
  holds_from first (suc rounds) =
      let others = holds_from (first + 1) rounds in if test first then others else false

  pub holds_from_lem :
      (first rounds v : ℕ)
      → holds_from first rounds ≡ true
      → first ≤ v
      → v < first + rounds
      → test v ≡ true
  unfolding holds_from
  holds_from_lem first zero v checked low high = absurd (omega arith)
  holds_from_lem first (suc rounds) v checked low high = elim (Bool-cases (first == v)) [
    | inl same ↦ rw (← (==_iff first v).0 same) (ground (arith, checked))
    | inr other ↦ ground (arith, checked, other, holds_from_lem (first + 1) rounds v)
  ]
