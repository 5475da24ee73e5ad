-- ===== src/Paging/Optimal/Farthest.antt =====
-- A3/opt.c: which page `opt_evict` picks, and the distances that it keeps from one call to the next.
use csc369_assignments.Prelude.{
  ℕ, zero, suc, ◌+◌, ◌^◌, ◌/◌, ◌≤◌, ◌<◌, ◌≡◌, refl, sym, ◌∙◌, inl, inr, true, Option, none, some,
  length, ◌==◌, ltb, arith, Bool-cases, Option-cases,
}
use csc369_assignments.Prelude.State.{Returns, returns, bind, mono, and_then}
use csc369_assignments.Paging.Machine.{Machine, Frame, page_size, core, put_core}
use csc369_assignments.Paging.Policies.{distance, opt_distances, as_int, opt_farthest, opt_evict}
use csc369_assignments.Paging.Policy.{nearer}
use csc369_assignments.Paging.Optimal.{
  opt_farthest-lt, occurs_in, opt_distances_known, opt_distances-none, opt_distances-some,
}
use csc369_assignments.Paging.Optimal.Distances.{
  distance-lt, next_use, IsForeseen, IsFarthest, Same, Same-occurs_in, IsForeseen-occurs_in,
}

as_int-small : (d : ℕ) → d < 2 ^ 31 → as_int d ≡ d
unfolding as_int
as_int-small d small = ground arith

-- The second loop keeps a frame with a distance that is no less than those it has seen.
opt_farthest_most :
    (rounds i : ℕ) (coremap : ℕ → Frame) (highest victim : ℕ)
    → highest ≤ (coremap victim).fst_occ
    → ((j : ℕ) → j < i → (coremap j).fst_occ ≤ highest)
    → ((j : ℕ) → j < i + rounds → (coremap j).fst_occ < 2 ^ 31)
    → (j : ℕ) → j < i + rounds
    → (coremap j).fst_occ ≤ (coremap (opt_farthest rounds i coremap highest victim)).fst_occ
unfolding opt_farthest
opt_farthest_most zero i coremap highest victim high seen small j lt =
    omega (arith, seen j (omega arith))
opt_farthest_most (suc rounds) i coremap highest victim high seen small j lt =
    elim (Bool-cases (ltb highest (coremap i).fst_occ)) [
      | inl farther ↦
          rw (farther, as_int-small (coremap i).fst_occ (small i (omega arith)))
            (opt_farthest_most rounds (suc i) coremap (coremap i).fst_occ i (omega arith)
              (λ k below. elim (Bool-cases (k == i)) [
                | inl same ↦ ground arith
                | inr other ↦ ground (arith, seen k)
              ])
              (λ k below. small k (omega arith)) j (omega arith))
      | inr nearer ↦ rw nearer (
          opt_farthest_most rounds (suc i) coremap highest victim high
            (λ k below. elim (Bool-cases (k == i)) [
              | inl same ↦ ground arith
              | inr other ↦ ground (arith, seen k)
            ])
            (λ k below. small k (omega arith)) j (omega arith))
    ]

module _ {File : Type 0} where
  abbrev Found : Machine File → Option ℕ → Machine File → Type 0
  Found m found m' =
      Same m m'
      × IsForeseen m'
      × ((k : ℕ)
          → found ≡ some k
          → (k < m.memsize) × (next_use m k ≡ none) × ((m'.coremap k).fst_occ ≡ 0))
      × (found ≡ none → (j : ℕ) → j < m.memsize → next_use m j ≡ some (m'.coremap j).fst_occ)

  Found-Same :
      (m m1 : Machine File) (found : Option ℕ) (m' : Machine File)
      → Same m m1
      → Found m1 found m'
      → Found m found m'
  Found-Same m m1 found m' (memsize, same, used, nodes)
        ((memsize', same', used', nodes'), fs, never, all) =
      (
        (memsize' ∙ memsize, λ j. same' j ∙ same j, λ j. used' j ∙ used j, nodes' ∙ nodes),
        fs,
        λ k e.
            let (lt, none_left, forgotten) = never k e in
            (rw (← memsize) lt, sym (same k) ∙ none_left, forgotten),
        λ e j lt. sym (same j) ∙ all e j (rw memsize lt),
      )

  -- The first loop.
  opt_distances-Found :
      (rounds i : ℕ) (m : Machine File)
      → i + rounds ≡ m.memsize
      → 0 < length m.curr_node
      → IsForeseen m
      → ((j : ℕ) → j < i → next_use m j ≡ some (m.coremap j).fst_occ)
      → Returns (Found m) (opt_distances rounds i m)
  unfolding opt_distances
  opt_distances-Found zero i m q left fs known =
      returns ((refl, λ j. refl, λ j. refl, refl), fs, λ k e. cc, λ e j lt. known j (omega arith))
  opt_distances-Found (suc rounds) i m q left fs known =
      elim (Bool-cases ((m.coremap i).fst_occ == 0)) [
        | inr held ↦ rw (opt_distances_known rounds i m held) (
            opt_distances-Found rounds (suc i) m (omega arith) left fs (λ j lt.
              elim (Bool-cases (j == i)) [
                | inl here ↦ ground (arith, fs i)
                | inr elsewhere ↦ ground (arith, known j)
              ]))
        | inl unknown ↦
            elim (Option-cases (distance ((m.coremap i).vaddr / page_size) m.curr_node)) [
              | inl never ↦ rw (opt_distances-none rounds i m left unknown never) (
                  returns (
                    Same-occurs_in m i 0,
                    IsForeseen-occurs_in m i 0 fs (inr refl),
                    λ k e. ground arith,
                    λ e. absurd (cc),
                  ))
              | inr (d, far) ↦
                  let m1 = occurs_in m i d in
                  rw (opt_distances-some rounds i m left unknown d far) (
                    mono
                      (opt_distances-Found rounds (suc i) m1 (omega arith) left
                        (IsForeseen-occurs_in m i d fs (inl far))
                        (λ j lt. elim (Bool-cases (i == j)) [
                          | inl here ↦ ground arith
                          | inr elsewhere ↦ ground (arith, known j)
                        ]))
                      (λ found m'. Found-Same m m1 found m' (Same-occurs_in m i d)))
            ]
      ]

  -- The end of `opt_evict`.
  opt_choice-IsFarthest :
      (m m1 : Machine File) (found : Option ℕ)
      → 0 < m.memsize
      → length m.curr_node ≤ 2 ^ 31
      → Found m found m1
      → Returns
          (λ i m'.
            (i < m.memsize)
            × IsFarthest m i
            × Same m m'
            × IsForeseen m'
            × ((m'.coremap i).fst_occ ≡ 0))
          (elim found [
            | some i ↦ some (i, m1)
            | none ↦
                let victim = opt_farthest m1.memsize 0 m1.coremap 0 0 in
                and_then (core victim m1) λ c m2.
                  and_then (put_core victim (record c { fst_occ = 0 }) m2) λ _ m3. some (victim, m3)
          ])
  opt_choice-IsFarthest m m1 (some i) h short (same, fs, never, all) =
      let (lt, gone, forgotten) = never i refl in returns (lt, inl gone, same, fs, forgotten)
  opt_choice-IsFarthest m m1 none h short (same, fs, never, all) =
      let victim = opt_farthest m1.memsize 0 m1.coremap 0 0 in
      let small : victim < m1.memsize =
        opt_farthest-lt m1.memsize m1.memsize 0 m1.coremap 0 0 (omega arith)
          (omega (arith, same.0)) in
      let inside : ltb victim m1.memsize ≡ true = ground arith in
      let lt : victim < m.memsize = omega (arith, same.0) in
      let after = occurs_in m1 victim 0 in
      rw (inside, inside)
        (returns (
          lt,
          inr (λ j below. (
            (m1.coremap j).fst_occ,
            (m1.coremap victim).fst_occ,
            all refl j below,
            all refl victim lt,
            opt_farthest_most m1.memsize 0 m1.coremap 0 0 (omega arith)
                (λ k none_below. absurd (omega arith))
                (λ k low. omega (
                  arith,
                  short,
                  distance-lt ((m.coremap k).vaddr / page_size) m.curr_node (m1.coremap k).fst_occ
                      (all refl k (omega (arith, same.0))),
                ))
                j (omega (arith, same.0)),
          )),
          (
            same.0,
            λ j. (Same-occurs_in m1 victim 0).1 j ∙ same.1 j,
            λ j. (Same-occurs_in m1 victim 0).2 j ∙ same.2 j,
            same.3,
          ),
          IsForeseen-occurs_in m1 victim 0 fs (inr refl),
          ground arith,
        ))

  -- After `opt_evict`, the frame it returns holds the page that is used again last (or not at all)
  -- of those in memory, and its kept distance is forgotten; the frames keep their pages, and every
  -- kept distance is still the true one. The condition is that the distances kept before were
  -- true, that there is memory, and that the list of references has not run out and is no longer than an
  -- `int` can count.
  pub opt_evict_lem :
      (m : Machine File)
      → 0 < m.memsize
      → 0 < length m.curr_node
      → length m.curr_node ≤ 2 ^ 31
      → IsForeseen m
      → Returns
          (λ i m'.
            (i < m.memsize)
            × IsFarthest m i
            × Same m m'
            × IsForeseen m'
            × ((m'.coremap i).fst_occ ≡ 0))
          (opt_evict m)
  unfolding opt_evict
  opt_evict_lem m h left short fs =
      bind (opt_distances-Found m.memsize 0 m (omega arith) left fs (λ j lt. absurd (omega arith)))
        (λ found m1 f. opt_choice-IsFarthest m m1 found h short f)
