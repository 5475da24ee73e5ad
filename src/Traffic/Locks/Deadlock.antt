-- ===== src/Traffic/Locks/Deadlock.antt =====
-- A2/cars.c: the crossing threads of the lanes do not block one another for ever.
use csc369_assignments.Prelude.{
  ℕ, ◌<◌, ◌≡◌, ◌≢◌, refl, sym, ◌∙◌, inl, inr, true, false, ◌||◌, List, [], ◌∷◌, ◌++◌, has, ◌==◌,
  arith, Bool-cases, eq_of_test, ne_of_test, update,
}
use mathlib.Core.Path.{subst}
use csc369_assignments.Traffic.Path.{quads}
use csc369_assignments.Traffic.Order.{Ascending, compute_path-IsPath}
use csc369_assignments.Traffic.Locks.{
  Crossing, parked, Moves, locks, unlocks, Reached, begins, enters, moves, IsUpward, Exclusive,
  CanMove, moves_on,
}

has-append : (q : ℕ) (xs ys : List ℕ) → has q (xs ++ ys) ≡ has q xs || has q ys
has-append q [] ys = refl
has-append q (x ∷ xs) ys = ground (arith, has-append q xs ys)

-- What holds in all states.
record IsOrderly (threads : ℕ → Crossing) : Type 0 where
  upward : (k : ℕ) → k < 4 → IsUpward (threads k)
  alone : Exclusive threads

module _ (threads : ℕ → Crossing) (ok : IsOrderly threads) (j : ℕ) (lt : j < 4) where
  -- A thread that changes as it may.
  IsOrderly-update :
      (c : Crossing)
      → IsUpward c
      → ((q k : ℕ) → k < 4 → j ≢ k → has q c.taken ≡ true → has q (threads k).taken ≡ false)
      → IsOrderly (update threads j c)
  IsOrderly-update c up apart = record {
    upward = λ k low. elim (Bool-cases (j == k)) [
      | inl same ↦ rw same up
      | inr other ↦ rw other (ok.upward k low)
    ];
    alone = λ q a b la lb ha hb. elim (Bool-cases (j == a)) [
      | inl same_a ↦ elim (Bool-cases (j == b)) [
        | inl same_b ↦ sym (eq_of_test j a same_a) ∙ eq_of_test j b same_b
        | inr other_b ↦
            let mine = rw same_a at ha in
            let theirs = rw other_b at hb in
            let free = apart q b lb (ne_of_test j b other_b) mine in absurd (cc)
      ]
      | inr other_a ↦ elim (Bool-cases (j == b)) [
        | inl same_b ↦
            let mine = rw same_b at hb in
            let theirs = rw other_a at ha in
            let free = apart q a la (ne_of_test j a other_a) mine in absurd (cc)
        | inr other_b ↦ ok.alone q a b la lb (rw other_a at ha) (rw other_b at hb)
      ]
    ];
  }

  others_free :
      (q k : ℕ) → k < 4 → j ≢ k → has q (threads j).taken ≡ true → has q (threads k).taken ≡ false
  others_free q k low ne mine = elim (Bool-cases (has q (threads k).taken)) [
    | inr free ↦ free
    | inl held ↦ absurd (ne (ok.alone q j k lt low mine held))
  ]

  IsOrderly-Moves : (threads' : ℕ → Crossing) → Moves j threads threads' → IsOrderly threads'
  IsOrderly-Moves _ (locks q rest e free) =
      let (before, up) = ok.upward j lt in
      let (first, up') : Ascending (q ∷ rest) = rw e at up in
      IsOrderly-update (record { taken = (threads j).taken ++ q ∷ []; wanted = rest })
        (
          λ p r hp hr. elim (Bool-cases (p == q)) [
            | inl same ↦ ground (arith, first r hr)
            | inr other ↦
                before p r (ground (arith, has-append p (threads j).taken (q ∷ [])))
                  (rw e (ground arith))
          ],
          up',
        )
        (λ p k low ne mine. elim (Bool-cases (p == q)) [
          | inl same ↦ rw (eq_of_test p q same) (free k low)
          | inr other ↦
              others_free p k low ne (ground (arith, has-append p (threads j).taken (q ∷ [])))
        ])
  IsOrderly-Moves _ (unlocks q rest done e) =
      IsOrderly-update (record { taken = rest; wanted = [] }) (λ p r hp hr. cc, tt)
        (λ p k low ne mine. others_free p k low ne (rw e (ground arith)))

Reached-IsOrderly : (threads : ℕ → Crossing) → Reached threads → IsOrderly threads
Reached-IsOrderly _ begins = record {
  upward = λ k lt. (λ q r h. cc, tt);
  alone = λ q j k lj lk h. cc;
}
Reached-IsOrderly _ (enters threads j in_dir out_dir path before lt at hi ho found) =
    let (path', found', is_path) = compute_path-IsPath in_dir out_dir hi ho in
    let same : path' ≡ path = cc in
    IsOrderly-update threads (Reached-IsOrderly threads before) j lt
      (record { taken = []; wanted = quads path })
      (λ q r h. cc, subst (λ p. Ascending (quads p)) same is_path.ascending) (λ q k low ne h. cc)
Reached-IsOrderly threads' (moves threads _ j before lt move) =
    IsOrderly-Moves threads (Reached-IsOrderly threads before) j lt threads' move

-- However the steps of the four crossing threads follow one another, each of which locks the
-- quadrants of the path that `compute_path` gives for its car: no quadrant is ever locked by two of
-- them, and as long as one has a car under way, some thread can go on, by locking a
-- quadrant that is free or by unlocking one.
pub Reached-never_stuck :
    (threads : ℕ → Crossing)
    → Reached threads
    → (i : ℕ) → i < 4
    → threads i ≢ parked
    → Exclusive threads × CanMove threads
Reached-never_stuck threads reached i lt busy =
    let ok = Reached-IsOrderly threads reached in (ok.alone, moves_on threads ok.upward i lt busy)
