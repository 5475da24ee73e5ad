-- ===== src/Paging/Optimal/Foresight.antt =====
-- A3/opt.c: what the frames and the list have to do with each other between two references.
use csc369_assignments.Prelude.{
  ℕ, ◌^◌, ◌≤◌, length, ◌<◌, ◌≡◌, sym, ap, ◌∙◌, false, List, ◌∷◌, ◌==◌, arith, update, Bool-cases,
  inl, inr,
}
use csc369_assignments.Paging.Machine.{Machine, Frame}
use csc369_assignments.Paging.Policy.{nearer}
use csc369_assignments.Paging.Optimal.Distances.{IsForeseen, IsForeseen-retake, IsForeseen-nearer}
use csc369_assignments.Paging.Optimal.Keep.{View}

module _ {File : Type 0} where
  -- The list has the pages `nodes` in it, the distances that are kept are true, and a frame that is
  -- not in use has none.
  pub record IsForesight (nodes : List ℕ) (m : Machine File) : Type 0 where
    pub some_memory : 0 < m.memsize
    pub to_come : m.curr_node ≡ nodes
    pub short : length nodes ≤ 2 ^ 31
    pub foreseen : IsForeseen m
    pub unused : (j : ℕ) → j < m.memsize → (m.coremap j).in_use ≡ false → (m.coremap j).fst_occ ≡ 0

  -- A frame that can be given to a page.
  abbrev pub IsOpen : List ℕ → ℕ → Machine File → Type 0
  IsOpen nodes f m = IsForesight nodes m × (f < m.memsize) × ((m.coremap f).fst_occ ≡ 0)

module _ {File : Type 0} {nodes : List ℕ} where
  pub IsForesight-View :
      (m m' : Machine File) → View m m' → IsForesight nodes m → IsForesight nodes m'
  IsForesight-View m m' (memsize, frames, kept) fs = record {
    some_memory = omega (arith, fs.some_memory);
    to_come = kept ∙ fs.to_come;
    short = fs.short;
    foreseen = λ j lt held. rw (frames, kept) (fs.foreseen j (omega arith) (rw frames at held));
    unused = λ j lt none_yet. rw frames (fs.unused j (omega arith) (rw frames at none_yet));
  }

  pub IsForesight-retake :
      (m : Machine File) (i : ℕ) (c : Frame)
      → IsForesight nodes m
      → c.fst_occ ≡ 0
      → IsForesight nodes (record m { coremap = update m.coremap i c })
  IsForesight-retake m i c fs forgotten = record {
    some_memory = fs.some_memory;
    to_come = fs.to_come;
    short = fs.short;
    foreseen = IsForeseen-retake m i c fs.foreseen forgotten;
    unused = λ j lt none_yet. elim (Bool-cases (i == j)) [
      | inl here ↦ ground arith
      | inr elsewhere ↦ ground (arith, fs.unused j)
    ];
  }

  pub IsOpen-View : (f : ℕ) (m m' : Machine File) → View m m' → IsOpen nodes f m → IsOpen nodes f m'
  IsOpen-View f m m' v (fs, lt, forgotten) =
      (IsForesight-View m m' v fs, omega (arith, v.0), ap (λ c. (c f).fst_occ) v.1 ∙ forgotten)

module _ {File : Type 0} where
  -- One reference on.
  pub IsForesight-nearer :
      (m : Machine File) (a b : ℕ) (rest nodes : List ℕ)
      → m.curr_node ≡ a ∷ rest
      → IsForesight (b ∷ nodes) m
      → IsForesight nodes (record m { curr_node = rest; coremap = nearer m })
  IsForesight-nearer m a b rest nodes e fs = record {
    some_memory = fs.some_memory;
    to_come = let same : a ∷ rest ≡ b ∷ nodes = sym e ∙ fs.to_come in cc;
    short = omega (arith, fs.short);
    foreseen = IsForeseen-nearer m a rest e fs.foreseen;
    unused = λ j lt none_yet. ground (arith, fs.unused j);
  }
