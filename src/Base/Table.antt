-- ===== src/Base/Table.antt =====
-- A Boolean fact about every byte, by evaluation.
use Prim.Native.Nat.{ℕ, zero, suc, ◌<◌}
use mathlib.Core.Path.{◌≡◌, ap, ◌∙◌}
use mathlib.Core.Logic.{inl, inr}
use mathlib.Core.Bool.{Bool, true, ◌&&◌}
use xbox360_tls.Base.Tests.{◌==◌, ==_iff, Bool-cases}
use native.Mathlib.Omega.{arith}

-- `test` holds of all numbers below a bound.
unfoldable pub each_below : (ℕ → Bool) → ℕ → Bool
each_below test zero = true
each_below test (suc bound) = test bound && each_below test bound

pub each_below_lem :
    (test : ℕ → Bool) (bound : ℕ)
    → each_below test bound ≡ true
    → (x : ℕ) → x < bound
    → test x ≡ true
unfolding each_below
each_below_lem test zero all x below = absurd (omega arith)
each_below_lem test (suc bound) all x below =
    let here : test bound ≡ true = ground arith in
    let rest : each_below test bound ≡ true = ground arith in
    elim (Bool-cases (x == bound)) [
      | inl same ↦ ap test ((==_iff x bound).0 same) ∙ here
      | inr other ↦ each_below_lem test bound rest x (ground (arith, other))
    ]
