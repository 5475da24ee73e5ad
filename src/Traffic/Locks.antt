-- ===== src/Traffic/Locks.antt =====
-- A2/cars.c: the crossing threads of the lanes lock quadrants without a deadlock.
pub mod Deadlock
use csc369_assignments.Prelude.{
  ℕ, zero, suc, ◌≤◌, ◌<◌, ◌≡◌, ◌≢◌, refl, sym, ◌∙◌, ◌⊎◌, inl, inr, true, false, ◌||◌, some, List,
  [], ◌∷◌, ◌++◌, has, ltb, ◌==◌, arith, Bool-cases, List-cases, eq_of_test, ne_of_test, update,
}
use mathlib.Core.Path.{subst}
use csc369_assignments.Prelude.Int.{ℤ}
use csc369_assignments.Traffic.Path.{compute_path, quads}
use csc369_assignments.Traffic.Order.{Ascending, IsPath, compute_path-IsPath}

-- Where the crossing thread of a lane stands in `car_cross`: the quadrants that it has locked and not
-- yet unlocked, in their order, and those of the path that it has still to lock.
pub record Crossing : Type 0 where
  pub taken : List ℕ
  pub wanted : List ℕ

-- The thread has no car under way.
abbrev pub parked : Crossing
parked = record { taken = []; wanted = [] }

-- A thread of the intersection that has a car under way goes on: it locks its next quadrant, which
-- no thread holds, or, once it has the whole path and its car has crossed, it unlocks the first.
pub data Moves (j : ℕ) (threads : ℕ → Crossing) : (ℕ → Crossing) → Type 0 where
  locks :
      (q : ℕ) (rest : List ℕ)
      → (threads j).wanted ≡ q ∷ rest
      → ((k : ℕ) → k < 4 → has q (threads k).taken ≡ false)
      → Moves j threads
          (update threads j (record { taken = (threads j).taken ++ q ∷ []; wanted = rest }))
  unlocks :
      (q : ℕ) (rest : List ℕ)
      → (threads j).wanted ≡ []
      → (threads j).taken ≡ q ∷ rest
      → Moves j threads (update threads j (record { taken = rest; wanted = [] }))

-- The states that the four threads come to, in any order of their steps: a thread without a car takes
-- one and computes its path, or a thread with one goes on.
pub data Reached : (ℕ → Crossing) → Type 0 where
  begins : Reached (λ k. parked)
  enters :
      (threads : ℕ → Crossing) (j in_dir out_dir : ℕ) (path : List ℤ)
      → Reached threads
      → j < 4
      → threads j ≡ parked
      → in_dir < 4
      → out_dir < 4
      → compute_path in_dir out_dir ≡ some path
      → Reached (update threads j (record { taken = []; wanted = quads path }))
  moves :
      (threads threads' : ℕ → Crossing) (j : ℕ)
      → Reached threads
      → j < 4
      → Moves j threads threads'
      → Reached threads'

-- What is locked comes before what is wanted.
abbrev Before : List ℕ → List ℕ → Type 0
Before taken wanted = (q r : ℕ) → has q taken ≡ true → has r wanted ≡ true → q < r

abbrev pub IsUpward : Crossing → Type 0
IsUpward c = Before c.taken c.wanted × Ascending c.wanted

no_head : (r : ℕ) (more : List ℕ) → r ∷ more ≢ []
no_head r more e = cc

same_head : (p r : ℕ) (more rest : List ℕ) → p ∷ more ≡ r ∷ rest → r ≤ p
same_head p r more rest e = let same : p ≡ r = cc in omega arith

upto : {P : ℕ → Type 0} (n : ℕ) → P n → ((k : ℕ) → k < n → P k) → (k : ℕ) → k < suc n → P k
upto {P} n last before k lt = elim (Bool-cases (k == n)) [
  | inl same ↦ subst P (sym (eq_of_test k n same)) last
  | inr other ↦ before k (ground arith)
]

at_rest : (c : Crossing) → c.taken ≡ [] → c.wanted ≡ [] → c ≡ parked
at_rest c a b = cc

module _ (threads : ℕ → Crossing) where
  -- The waiting thread `j` wants a quadrant that no waiting thread below `n` exceeds.
  abbrev IsLast : ℕ → ℕ → ℕ → List ℕ → Type 0
  IsLast n j q rest =
      (j < n)
      × ((threads j).wanted ≡ q ∷ rest)
      × ((k : ℕ) → k < n → (r : ℕ) (more : List ℕ) → (threads k).wanted ≡ r ∷ more → r ≤ q)

  -- Among the threads that wait there is one that wants the largest quadrant.
  find-IsLast :
      (n : ℕ)
      → ((k : ℕ) → k < n → (threads k).wanted ≡ [])
        ⊎ ((j : ℕ) × (q : ℕ) × (rest : List ℕ) × IsLast n j q rest)
  find-IsLast zero = inl (λ k lt. absurd (omega arith))
  find-IsLast (suc n) = elim (List-cases (threads n).wanted) [
    | inl done ↦ elim (find-IsLast n) [
      | inl all ↦ inl (upto n done all)
      | inr (j, q, rest, (lt, e, top)) ↦
          inr (
            j,
            q,
            rest,
            (omega arith, e, upto n (λ r m v. absurd (no_head r m (sym v ∙ done))) top),
          )
    ]
    | inr (p, more, w) ↦ elim (find-IsLast n) [
      | inl all ↦ inr (
        n,
        p,
        more,
        (
          omega arith,
          w,
          upto n (λ r m v. same_head p r more m (sym w ∙ v))
              (λ k lt r m v. absurd (no_head r m (sym v ∙ all k lt))),
        ),
      )
      | inr (j, q, rest, (lt, e, top)) ↦ elim (Bool-cases (ltb q p)) [
        | inl larger ↦ inr (
          n,
          p,
          more,
          (
            omega arith,
            w,
            upto n (λ r m v. same_head p r more m (sym w ∙ v))
                (λ k lt' r m v. ground (arith, top k lt' r m v)),
          ),
        )
        | inr smaller ↦ inr (
          j,
          q,
          rest,
          (omega arith, e, upto n (λ r m v. ground (arith, same_head p r more m (sym w ∙ v))) top),
        )
      ]
    ]
  ]

  -- While some thread waits for a quadrant, one of them waits for a quadrant that is free, or that
  -- is held by threads which wait for nothing.
  waits_for_free :
      (n : ℕ)
      → ((k : ℕ) → k < n → IsUpward (threads k))
      → (i : ℕ) → i < n
      → (threads i).wanted ≢ []
      → (j : ℕ) × (q : ℕ) × (rest : List ℕ) × (j < n)
        × ((threads j).wanted ≡ q ∷ rest)
        × ((k : ℕ) → k < n → has q (threads k).taken ≡ true → (threads k).wanted ≡ [])
  waits_for_free n upward i lt waits = elim (find-IsLast n) [
    | inl all ↦ absurd (waits (all i lt))
    | inr (j, q, rest, (below, e, top)) ↦ (
      j,
      q,
      rest,
      below,
      e,
      λ k kn held. elim (List-cases (threads k).wanted) [
        | inl nothing ↦ nothing
        | inr (r, more, w) ↦
            let (before, _) = upward k kn in
            let le = top k kn r more w in
            let lt' : q < r = before q r held (rw w (ground arith)) in absurd (omega arith)
      ],
    )
  ]

  -- No quadrant is locked by two threads.
  abbrev pub Exclusive : Type 0
  Exclusive =
      (q j k : ℕ)
      → j < 4
      → k < 4
      → has q (threads j).taken ≡ true
      → has q (threads k).taken ≡ true
      → j ≡ k

  holder :
      (q n : ℕ)
      → ((k : ℕ) × (k < n) × (has q (threads k).taken ≡ true))
        ⊎ ((k : ℕ) → k < n → has q (threads k).taken ≡ false)
  holder q zero = inr (λ k lt. absurd (omega arith))
  holder q (suc n) = elim (Bool-cases (has q (threads n).taken)) [
    | inl held ↦ inl (n, omega arith, held)
    | inr free ↦ elim (holder q n) [
      | inl (k, lt, held) ↦ inl (k, omega arith, held)
      | inr none_holds ↦ inr (upto n free none_holds)
    ]
  ]

  abbrev pub CanMove : Type 0
  CanMove = (j : ℕ) × (threads' : ℕ → Crossing) × (j < 4) × Moves j threads threads'

  -- A thread that waits for nothing unlocks what it holds.
  unlock_first : (j : ℕ) → j < 4 → (threads j).wanted ≡ [] → (threads j).taken ≢ [] → CanMove
  unlock_first j lt done holds = elim (List-cases (threads j).taken) [
    | inl nothing ↦ absurd (holds nothing)
    | inr (q, rest, e) ↦ (j, _, lt, unlocks q rest done e)
  ]

  pub moves_on :
      ((k : ℕ) → k < 4 → IsUpward (threads k)) → (i : ℕ) → i < 4 → threads i ≢ parked → CanMove
  moves_on upward i lt busy = elim (List-cases (threads i).wanted) [
    | inl done ↦ unlock_first i lt done (λ e. busy (at_rest (threads i) e done))
    | inr (p, more, w) ↦
        let (j, q, rest, below, e, holders) =
          waits_for_free 4 upward i lt (λ none_left. no_head p more (sym w ∙ none_left)) in
        elim (holder q 4) [
          | inr free ↦ (j, _, below, locks q rest e free)
          | inl (k, kn, held) ↦
              unlock_first k kn (holders k kn held) (λ e. absurd (let bad = rw e at held in cc))
        ]
  ]
