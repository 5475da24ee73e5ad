-- ===== src/Prelude/Maps.antt =====
-- Arrays and memories as functions of an index, with an update at one index.
use Prim.Native.Nat.{ℕ}
use mathlib.Core.Path.{◌≡◌, fun_ext}
use mathlib.Core.Logic.{◌≢◌}
use native.Mathlib.Omega.{arith}
use csc369_assignments.Prelude.Tests.{◌==◌, if◌then◌else◌}

module _ {ℓ} {A : Type ℓ} where
  abbrev pub update : (ℕ → A) → ℕ → A → ℕ → A
  update f i v j = if i == j then v else f j

module _ {ℓ} {A : Type ℓ} where
  pub update_self : (f : ℕ → A) (i : ℕ) (v : A) → update f i v i ≡ v
  update_self f i v = ground arith

  pub update_ne : (f : ℕ → A) (i : ℕ) (v : A) (j : ℕ) → i ≢ j → update f i v j ≡ f j
  update_ne f i v j h = ground arith

  pub update_twice : (f : ℕ → A) (i : ℕ) (v w : A) → update (update f i v) i w ≡ update f i w
  update_twice f i v w = fun_ext (λ j. ground arith)

  pub update_same : (f : ℕ → A) (i : ℕ) → update f i (f i) ≡ f
  update_same f i = fun_ext (λ j. ground arith)
