-- ===== src/Traffic/Order.antt =====
-- A2/cars.c: the order in which quadrants are locked rules out a deadlock.
use csc369_assignments.Prelude.{
  ℕ, zero, suc, ◌<◌, ◌≡◌, refl, ◌⊎◌, inl, inr, true, some, List, [], ◌∷◌, has, ◌==◌, if◌then◌else◌,
  arith,
}
use csc369_assignments.Prelude.Int.{ℤ}
use csc369_assignments.Traffic.Path.{insert_quads, compute_path, quads}

-- Each quadrant comes before the larger ones.
abbrev pub Ascending : List ℕ → Type 0
Ascending [] = Unit {0}
Ascending (q ∷ path) = ((r : ℕ) → has r path ≡ true → q < r) × Ascending path

-- The quadrant by which a car leaves.
abbrev pub exit_quad : ℕ → ℕ
exit_quad out_dir =
    if out_dir == 0 then 0 else if out_dir == 1 then 1 else if out_dir == 2 then 2 else 3

-- What is asked of a path: the quadrants are those of the intersection, come in ascending order,
-- and the last of the way is the one that the out lane begins at.
pub record IsPath (out_dir : ℕ) (path : List ℤ) : Type 0 where
  pub ascending : Ascending (quads path)
  pub inside : (q : ℕ) → has q (quads path) ≡ true → q < 4
  pub leaves : has (exit_quad out_dir) (quads path) ≡ true

module _ (out_dir : ℕ) where
  IsPath-1 : (a : ℕ) → a < 4 → a ≡ exit_quad out_dir → IsPath out_dir (insert_quads (suc a) 0 0 0)
  unfolding quads insert_quads
  IsPath-1 a lt e = record {
    ascending = (λ r h. cc, tt);
    inside = λ q h. ground arith;
    leaves = ground arith;
  }

  IsPath-2 :
      (a b : ℕ)
      → a < b
      → b < 4
      → (a ≡ exit_quad out_dir) ⊎ (b ≡ exit_quad out_dir)
      → IsPath out_dir (insert_quads (suc a) (suc b) 0 0)
  unfolding quads insert_quads
  IsPath-2 a b ab lt e = record {
    ascending = (λ r h. ground arith, (λ r h. cc, tt));
    inside = λ q h. ground arith;
    leaves = ground arith;
  }

  IsPath-3 :
      (a b c : ℕ)
      → a < b
      → b < c
      → c < 4
      → (a ≡ exit_quad out_dir) ⊎ ((b ≡ exit_quad out_dir) ⊎ (c ≡ exit_quad out_dir))
      → IsPath out_dir (insert_quads (suc a) (suc b) (suc c) 0)
  unfolding quads insert_quads
  IsPath-3 a b c ab bc lt e = record {
    ascending = (λ r h. ground arith, (λ r h. ground arith, (λ r h. cc, tt)));
    inside = λ q h. ground arith;
    leaves = ground arith;
  }

  IsPath-4 : out_dir < 4 → IsPath out_dir (insert_quads 1 2 3 4)
  unfolding quads insert_quads
  IsPath-4 lt = record {
    ascending =
        (λ r h. ground arith, (λ r h. ground arith, (λ r h. ground arith, (λ r h. cc, tt))));
    inside = λ q h. ground arith;
    leaves = ground arith;
  }

-- For directions of the intersection `compute_path` returns a path: its quadrants come in ascending
-- order, none twice, and the way leads through the quadrant by which the car leaves.
pub compute_path-IsPath :
    (in_dir out_dir : ℕ)
    → in_dir < 4
    → out_dir < 4
    → (path : List ℤ) × (compute_path in_dir out_dir ≡ some path) × IsPath out_dir path
unfolding compute_path
compute_path-IsPath zero zero hi ho = (insert_quads 1 2 3 4, refl, IsPath-4 0 ho)
compute_path-IsPath zero (suc zero) hi ho = (_, refl, IsPath-1 1 1 (omega arith) refl)
compute_path-IsPath zero (suc (suc zero)) hi ho =
    (_, refl, IsPath-2 2 1 2 (omega arith) (omega arith) (inr refl))
compute_path-IsPath zero (suc (suc (suc zero))) hi ho =
    (_, refl, IsPath-3 3 1 2 3 (omega arith) (omega arith) (omega arith) (inr (inr refl)))
compute_path-IsPath (suc zero) zero hi ho =
    (_, refl, IsPath-3 0 0 2 3 (omega arith) (omega arith) (omega arith) (inl refl))
compute_path-IsPath (suc zero) (suc zero) hi ho = (_, refl, IsPath-4 1 ho)
compute_path-IsPath (suc zero) (suc (suc zero)) hi ho = (_, refl, IsPath-1 2 2 (omega arith) refl)
compute_path-IsPath (suc zero) (suc (suc (suc zero))) hi ho =
    (_, refl, IsPath-2 3 2 3 (omega arith) (omega arith) (inr refl))
compute_path-IsPath (suc (suc zero)) zero hi ho =
    (_, refl, IsPath-2 0 0 3 (omega arith) (omega arith) (inl refl))
compute_path-IsPath (suc (suc zero)) (suc zero) hi ho =
    (_, refl, IsPath-3 1 0 1 3 (omega arith) (omega arith) (omega arith) (inr (inl refl)))
compute_path-IsPath (suc (suc zero)) (suc (suc zero)) hi ho = (_, refl, IsPath-4 2 ho)
compute_path-IsPath (suc (suc zero)) (suc (suc (suc zero))) hi ho =
    (_, refl, IsPath-1 3 3 (omega arith) refl)
compute_path-IsPath (suc (suc (suc zero))) zero hi ho = (_, refl, IsPath-1 0 0 (omega arith) refl)
compute_path-IsPath (suc (suc (suc zero))) (suc zero) hi ho =
    (_, refl, IsPath-2 1 0 1 (omega arith) (omega arith) (inr refl))
compute_path-IsPath (suc (suc (suc zero))) (suc (suc zero)) hi ho =
    (_, refl, IsPath-3 2 0 1 2 (omega arith) (omega arith) (omega arith) (inr (inr refl)))
compute_path-IsPath (suc (suc (suc zero))) (suc (suc (suc zero))) hi ho = (_, refl, IsPath-4 3 ho)
compute_path-IsPath (suc (suc (suc (suc i)))) out_dir hi ho = absurd (omega arith)
compute_path-IsPath in_dir (suc (suc (suc (suc o)))) hi ho = absurd (omega arith)
