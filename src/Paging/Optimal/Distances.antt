-- ===== src/Paging/Optimal/Distances.antt =====
-- A3/opt.c: the distances that are kept with the frames, and the true ones.
use csc369_assignments.Prelude.{
  ℕ, suc, ◌-◌, ◌/◌, ◌≤◌, ◌<◌, ◌≡◌, refl, ap, ◌∙◌, ◌⊎◌, inl, inr, false, Option, none, some, List,
  [], ◌∷◌, length, ◌==◌, arith, Bool-cases, Option-cases, update,
}
use csc369_assignments.Paging.Machine.{Machine, Frame, page_size}
use csc369_assignments.Paging.Policies.{distance}
use csc369_assignments.Paging.Policy.{nearer}
use csc369_assignments.Paging.Optimal.{occurs_in}

-- One reference on, the distance is one less.
distance-tail :
    (page a : ℕ) (rest : List ℕ) (d : ℕ)
    → distance page (a ∷ rest) ≡ some (suc d)
    → distance page rest ≡ some d
unfolding distance
distance-tail page a rest d e = elim (Bool-cases (a == page)) [
  | inl here ↦ absurd (ground arith)
  | inr elsewhere ↦ elim (Option-cases (distance page rest)) [
    | inl never ↦ absurd (ground arith)
    | inr (k, far) ↦ ground arith
  ]
]

-- A distance is less than the number of the references.
pub distance-lt :
    (page : ℕ) (nodes : List ℕ) (d : ℕ) → distance page nodes ≡ some d → d < length nodes
unfolding distance
distance-lt page [] d e = absurd (cc)
distance-lt page (a ∷ rest) d e = elim (Bool-cases (a == page)) [
  | inl here ↦ ground arith
  | inr elsewhere ↦ elim (Option-cases (distance page rest)) [
    | inl never ↦ absurd (ground arith)
    | inr (k, far) ↦ ground (arith, distance-lt page rest k far)
  ]
]

module _ {File : Type 0} where
  -- After how many references the page in a frame is used again; `none` where it is not.
  abbrev pub next_use : Machine File → ℕ → Option ℕ
  next_use m i = distance ((m.coremap i).vaddr / page_size) m.curr_node

  -- A distance that is kept, that is not 0, is the true one.
  abbrev pub IsForeseen : Machine File → Type 0
  IsForeseen m =
      (j : ℕ)
      → j < m.memsize
      → ((m.coremap j).fst_occ == 0) ≡ false
      → next_use m j ≡ some (m.coremap j).fst_occ

  -- The page of this frame is not used again, or all are and no page is used later.
  abbrev pub IsFarthest : Machine File → ℕ → Type 0
  IsFarthest m i =
      (next_use m i ≡ none)
      ⊎ ((j : ℕ)
          → j < m.memsize
          → (d d' : ℕ) × (next_use m j ≡ some d) × (next_use m i ≡ some d') × (d ≤ d'))

  -- What the loops leave alone.
  abbrev pub Same : Machine File → Machine File → Type 0
  Same m m' =
      (m'.memsize ≡ m.memsize)
      × ((j : ℕ) → next_use m' j ≡ next_use m j)
      × ((j : ℕ) → (m'.coremap j).in_use ≡ (m.coremap j).in_use)
      × (m'.curr_node ≡ m.curr_node)

  pub Same-occurs_in : (m : Machine File) (i d : ℕ) → Same m (occurs_in m i d)
  Same-occurs_in m i d = (refl, λ j. ground arith, λ j. ground arith, refl)

  -- Writing down what is true of a page keeps the distances true.
  pub IsForeseen-occurs_in :
      (m : Machine File) (i d : ℕ)
      → IsForeseen m
      → (next_use m i ≡ some d) ⊎ (d ≡ 0)
      → IsForeseen (occurs_in m i d)
  IsForeseen-occurs_in m i d fs right j lt held = elim (Bool-cases (i == j)) [
    | inl here ↦ ground arith
    | inr elsewhere ↦ ground (arith, fs j)
  ]

  -- Giving the frame to another page keeps the distances true.
  pub IsForeseen-retake :
      (m : Machine File) (i : ℕ) (c : Frame)
      → IsForeseen m
      → c.fst_occ ≡ 0
      → IsForeseen (record m { coremap = update m.coremap i c })
  IsForeseen-retake m i c fs forgotten j lt held = elim (Bool-cases (i == j)) [
    | inl here ↦ absurd (ground arith)
    | inr elsewhere ↦ ground (arith, fs j)
  ]

  -- `opt_ref` takes one reference off the list and keeps the distances true.
  pub IsForeseen-nearer :
      (m : Machine File) (a : ℕ) (rest : List ℕ)
      → m.curr_node ≡ a ∷ rest
      → IsForeseen m
      → IsForeseen (record m { curr_node = rest; coremap = nearer m })
  IsForeseen-nearer m a rest e fs j lt held = elim (Bool-cases ((m.coremap j).fst_occ == 0)) [
    | inl none_kept ↦ absurd (ground arith)
    | inr kept ↦
        let d = (m.coremap j).fst_occ - 1 in
        let more : (m.coremap j).fst_occ ≡ suc d = ground arith in
        let page = (m.coremap j).vaddr / page_size in
        let far : distance page (a ∷ rest) ≡ some (suc d) =
          rw (← e) (fs j lt kept ∙ ap some more) in
        let near = distance-tail page a rest d far in ground arith
  ]
