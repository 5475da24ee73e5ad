-- ===== src/Paging/Start.antt =====
-- A3/sim.c, A3/swap.c, A3/pagetable.c and the algorithms: how a simulation starts.
use csc369_assignments.Prelude.{ℕ, ◌/◌, Bool, false, none, some, List, [], ◌∷◌, ltb, if◌then◌else◌}
use csc369_assignments.Prelude.State.{Cmd, pure, ◌>>◌}
use csc369_assignments.Swap.Bitmap.{bitmap_create}
use csc369_assignments.Paging.Machine.{Os, Machine, Page, Frame, page_size}
use csc369_assignments.Paging.Policies.{Algorithm, rand, lru, fifo, clock, opt}
use csc369_assignments.Paging.Table.{blank_pte, ptrs_per_pgdir}
use csc369_assignments.Paging.Sim.{Line, replay_trace}

-- A frame from `calloc`.
abbrev pub blank_frame : Frame
blank_frame = record { in_use = false; pte = none; time = 0; fst_occ = 0; vaddr = 0 }

-- The global variables as `main` finds them, once it has allocated the frames: what `malloc` gives
-- as `physmem` is anything. No table is there, so that the entries in them stand for nothing.
abbrev pub globals : {File : Type 0} → ℕ → (ℕ → Page) → File → Machine File
globals memsize physmem swapfile = record {
  memsize = memsize;
  coremap = λ i. blank_frame;
  physmem = physmem;
  present = λ i. false;
  ptes = λ v. blank_pte;
  hit_count = 0;
  miss_count = 0;
  ref_count = 0;
  evict_clean_count = 0;
  evict_dirty_count = 0;
  swapmap = record { nbits = 0; v = [] };
  swapfile = swapfile;
  clock_hand = 0;
  cur_page = 0;
  timestamp = 0;
  curr_node = [];
  draws = 0;
}

-- The list that `opt_init` makes: the page of every line, where a line without an address repeats
-- the address before it.
unfoldable pub trace_pages : ℕ → List Line → List ℕ
trace_pages addr [] = []
trace_pages addr (l ∷ ls) =
    let addr' : ℕ = elim l.addr [ none ↦ addr | some a ↦ a ] in
    addr' / page_size ∷ trace_pages addr' ls

module _ {File : Type 0} where
  -- `swap_init`, with a temporary file; without memory for the bitmap it ends the program.
  unfoldable pub swap_init : Bool → Bool → ℕ → Cmd (Machine File) (Unit {0})
  swap_init has_struct has_words swapsize m = elim (bitmap_create has_struct has_words swapsize) [
    | none ↦ none
    | some none ↦ none
    | some (some b) ↦ some (tt, record m { swapmap = b })
  ]

  -- `init_pagetable`
  unfoldable pub init_pagetable : Cmd (Machine File) (Unit {0})
  init_pagetable m =
      some (tt, record m { present = λ i. if ltb i ptrs_per_pgdir then false else m.present i })

  abbrev pub fifo_init : Cmd (Machine File) (Unit {0})
  fifo_init m = some (tt, record m { cur_page = 0 })

  abbrev pub clock_init : Cmd (Machine File) (Unit {0})
  clock_init m = some (tt, record m { clock_hand = 0 })

  unfoldable pub lru_init : Cmd (Machine File) (Unit {0})
  lru_init m = some (
    tt,
    record m {
      timestamp = 0;
      coremap = λ i. if ltb i m.memsize then record (m.coremap i) { time = 0 } else m.coremap i;
    },
  )

  -- `opt_init`, where `named` says whether the trace has a file name: without one the program reads
  -- through a pointer that it never set. `addr` is what its local variable holds at first.
  unfoldable pub opt_init : Bool → ℕ → List Line → Cmd (Machine File) (Unit {0})
  opt_init named addr ls m =
      if named
      then some (
        tt,
        record m {
          coremap =
              λ i. if ltb i m.memsize then record (m.coremap i) { fst_occ = 0 } else m.coremap i;
          curr_node = trace_pages addr ls;
        },
      )
      else none

  -- `init_fcn`
  unfoldable pub init_fcn : Algorithm → Bool → ℕ → List Line → Cmd (Machine File) (Unit {0})
  init_fcn rand named addr ls = pure tt
  init_fcn lru named addr ls = lru_init
  init_fcn fifo named addr ls = fifo_init
  init_fcn clock named addr ls = clock_init
  init_fcn opt named addr ls = opt_init named addr ls

module _ (os : Os) where
  -- `main` from `swap_init` to the end of `replay_trace`.
  unfoldable pub simulate :
      Algorithm → Bool → ℕ → Bool → Bool → ℕ → List Line → Cmd (Machine os.File) (List Bool)
  simulate alg named addr has_struct has_words swapsize ls = do
    swap_init has_struct has_words swapsize
    init_pagetable
    init_fcn alg named addr ls
    replay_trace os alg ls
