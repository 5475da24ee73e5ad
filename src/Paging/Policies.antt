-- ===== src/Paging/Policies.antt =====
-- A3/fifo.c, A3/clock.c, A3/lru.c, A3/rand.c, A3/opt.c: the replacement algorithms.
use csc369_assignments.Prelude.{
  ℕ, zero, suc, ◌+◌, ◌-◌, ◌/◌, ◌%◌, ◌^◌, true, false, not, ◌&&◌, Option, none, some, List, [], ◌∷◌,
  ltb, ◌==◌, if◌then◌else◌, update,
}
use csc369_assignments.Prelude.State.{Cmd, pure, deref, and_then, ◌>>=◌, ◌>>◌}
use csc369_assignments.Prelude.Word.{test_bit, clear_bit, set_bit}
use csc369_assignments.Paging.Machine.{
  Os, Machine, Frame, core, put_core, pte_at, put_pte, pg_ref, page_size, frame_number,
}

-- The rows of `algs`.
pub data Algorithm : Type 0 where
  rand lru fifo clock opt : Algorithm

-- The `while` loop of `lru_evict`, from frame `i` on.
unfoldable pub lru_scan : ℕ → ℕ → (ℕ → Frame) → ℕ → ℕ → ℕ
lru_scan zero i coremap min_timestamp victim = victim
lru_scan (suc rounds) i coremap min_timestamp victim =
    let older = ltb (coremap i).time min_timestamp in
    lru_scan rounds (suc i) coremap (if older then (coremap i).time else min_timestamp)
      (if older then i else victim)

-- How far the next occurrence of a page is; `none` where it does not occur.
unfoldable pub distance : ℕ → List ℕ → Option ℕ
distance page [] = none
distance page (a ∷ rest) =
    let next = distance page rest in
    if a == page then some 0 else elim next [ none ↦ none | some d ↦ some (suc d) ]

-- A distance, an `unsigned long`, that has been put into `highest_dist`, an `int`, as the comparison
-- reads it: as an `unsigned long` again.
unfoldable pub as_int : ℕ → ℕ
as_int d = if ltb (d % 2 ^ 32) (2 ^ 31) then d % 2 ^ 32 else d % 2 ^ 32 + (2 ^ 64 - 2 ^ 32)

-- The second loop of `opt_evict`.
unfoldable pub opt_farthest : ℕ → ℕ → (ℕ → Frame) → ℕ → ℕ → ℕ
opt_farthest zero i coremap highest victim = victim
opt_farthest (suc rounds) i coremap highest victim =
    let farther = ltb highest (coremap i).fst_occ in
    opt_farthest rounds (suc i) coremap (if farther then as_int (coremap i).fst_occ else highest)
      (if farther then i else victim)

module _ {File : Type 0} where
  -- `% memsize`, a division by zero on a machine without memory.
  abbrev pub mod_memsize : ℕ → Cmd (Machine File) ℕ
  mod_memsize n m = if m.memsize == 0 then none else some (n % m.memsize, m)

  -- `cur_page - 1 < 0` says that the new index is 0.
  unfoldable pub fifo_evict : Cmd (Machine File) ℕ
  fifo_evict = do
    next ← (λ m. mod_memsize (m.cur_page + 1) m)
    λ m. some (if ltb next 1 then m.memsize - 1 else next - 1, record m { cur_page = next })

  -- The entry that the clock hand points to.
  abbrev pub under_hand : Cmd (Machine File) ℕ
  under_hand = do c ← (λ m. core m.clock_hand m); deref c.pte

  abbrev pub advance_hand : Cmd (Machine File) (Unit {0})
  advance_hand = do
    next ← (λ m. mod_memsize (m.clock_hand + 1) m)
    λ m. some (tt, record m { clock_hand = next })

  -- The `while` loop of `clock_evict`, on fuel.
  unfoldable pub clock_loop : ℕ → Cmd (Machine File) ℕ
  clock_loop zero m = none
  clock_loop (suc fuel) m = and_then (under_hand m) (λ v m1.
      elim (test_bit (m1.ptes v).frame pg_ref) [
        | true ↦
            and_then
              (advance_hand (record m1 {
                ptes =
                    update m1.ptes v
                      (record (m1.ptes v) { frame = clear_bit (m1.ptes v).frame pg_ref });
              }))
              (λ _. clock_loop fuel)
        | false ↦ and_then (advance_hand m1) (λ _ m2. some (frame_number (m2.ptes v).frame, m2))
      ])

  unfoldable pub clock_evict : Cmd (Machine File) ℕ
  clock_evict m = clock_loop (m.memsize + 1) m

  unfoldable pub lru_evict : Cmd (Machine File) ℕ
  lru_evict m = some (lru_scan m.memsize 0 m.coremap m.timestamp 0, m)

  -- The first loop of `opt_evict`: a frame whose page does not occur again ends it.
  unfoldable pub opt_distances : ℕ → ℕ → Cmd (Machine File) (Option ℕ)
  opt_distances zero i m = some (none, m)
  opt_distances (suc rounds) i m =
      let c = m.coremap i in
      let rest = opt_distances rounds (suc i) in
      if c.fst_occ == 0
      then elim m.curr_node [
        | [] ↦ none
        | _ ∷ _ ↦ elim (distance (c.vaddr / page_size) m.curr_node) [
          | none ↦
              some (some i, record m { coremap = update m.coremap i (record c { fst_occ = 0 }) })
          | some d ↦ rest (record m { coremap = update m.coremap i (record c { fst_occ = d }) })
        ]
      ]
      else rest m

  unfoldable pub opt_evict : Cmd (Machine File) ℕ
  opt_evict m = and_then (opt_distances m.memsize 0 m) λ found m1. elim found [
    | some i ↦ some (i, m1)
    | none ↦
        let victim = opt_farthest m1.memsize 0 m1.coremap 0 0 in
        and_then (core victim m1)
          λ c m2. and_then (put_core victim (record c { fst_occ = 0 }) m2) λ _ m3. some (victim, m3)
  ]

  -- `clock_ref`
  unfoldable pub clock_ref : ℕ → Cmd (Machine File) (Unit {0})
  clock_ref v = do e ← pte_at v; put_pte v (record e { frame = set_bit e.frame pg_ref })

  -- `lru_ref`
  unfoldable pub lru_ref : ℕ → Cmd (Machine File) (Unit {0})
  lru_ref v = do
    e ← pte_at v
    c ← core (frame_number e.frame)
    now ← (λ m. some (m.timestamp, m))
    put_core (frame_number e.frame) (record c { time = now })
    λ m. some (tt, record m { timestamp = m.timestamp + 1 })

  -- `opt_ref`
  unfoldable pub opt_ref : ℕ → Cmd (Machine File) (Unit {0})
  opt_ref v m = elim m.curr_node [
    | [] ↦ none
    | _ ∷ rest ↦ some (
      tt,
      record m {
        curr_node = rest;
        coremap = λ i.
            let c = m.coremap i in
            if ltb i m.memsize && not (c.fst_occ == 0)
            then record c { fst_occ = c.fst_occ - 1 }
            else c;
      },
    )
  ]

  -- `ref_fcn`
  unfoldable pub ref_fcn : Algorithm → ℕ → Cmd (Machine File) (Unit {0})
  ref_fcn rand v = pure tt
  ref_fcn lru v = lru_ref v
  ref_fcn fifo v = pure tt
  ref_fcn clock v = clock_ref v
  ref_fcn opt v = opt_ref v

module _ (os : Os) where
  unfoldable pub rand_evict : Cmd (Machine os.File) ℕ
  rand_evict = do
    idx ← (λ m. mod_memsize (os.random m.draws) m)
    λ m. some (idx, record m { draws = m.draws + 1 })

  -- `evict_fcn`
  unfoldable pub evict_fcn : Algorithm → Cmd (Machine os.File) ℕ
  evict_fcn rand = rand_evict
  evict_fcn lru = lru_evict
  evict_fcn fifo = fifo_evict
  evict_fcn clock = clock_evict
  evict_fcn opt = opt_evict
