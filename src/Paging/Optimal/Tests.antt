-- ===== src/Paging/Optimal/Tests.antt =====
-- A3/opt.c: two frames, and the references to come.
use csc369_assignments.Prelude.{
  ℕ, ◌+◌, ◌*◌, ltb, if◌then◌else◌, ◌<◌, ◌≡◌, refl, true, Option, none, some, List, [], ◌∷◌, arith,
}
use csc369_assignments.Prelude.State.{Returns}
use csc369_assignments.Paging.Machine.{Page, Machine}
use csc369_assignments.Paging.Policies.{opt_evict, opt_distances, opt_farthest, distance, as_int}
use csc369_assignments.Paging.Start.{globals, opt_init, trace_pages}
use csc369_assignments.Paging.Samples.{disk, zero_page}
use csc369_assignments.Paging.Optimal.Keep.{View-refl}
use csc369_assignments.Paging.Optimal.Trace.{
  Access, lines, begins, IsUsedLast, opt_evict-IsUsedLast,
}

abbrev load : ℕ → Access
load a = record { type = b'L'; vaddr = a }

-- Pages 1 and 2 are in memory.
abbrev two_pages : Machine (ℕ → Page)
two_pages = record (globals 2 (λ i. zero_page) (λ p. zero_page)) {
  coremap = λ i. record {
    in_use = true;
    pte = some (i + 1);
    time = 0;
    fst_occ = 7;
    vaddr = (i + 1) * 4096;
  };
}

-- Page 3 comes next, then page 1, then page 2.
abbrev coming : List Access
coming = load 12288 ∷ load 4096 ∷ load 8192 ∷ []

abbrev begun : Machine (ℕ → Page)
begun = record two_pages {
  coremap =
      λ i. if ltb i 2 then record (two_pages.coremap i) { fst_occ = 0 } else two_pages.coremap i;
  curr_node = 3 ∷ 1 ∷ 2 ∷ [];
}

opt_init_run : opt_init true 0 (lines coming) two_pages ≡ some (tt, begun)
unfolding opt_init trace_pages
opt_init_run = refl

abbrev frame_of : {S : Type 0} → Option (ℕ × S) → Option ℕ
frame_of none = none
frame_of (some r) = some r.0

-- The page of frame 1 is used last.
chosen : frame_of (opt_evict begun) ≡ some 1
unfolding opt_evict opt_distances opt_farthest distance as_int
chosen = refl

opt_evict-IsUsedLast_example :
    Returns (λ i m'. (i < 2) × IsUsedLast disk coming begun i) (opt_evict begun)
opt_evict-IsUsedLast_example =
    opt_evict-IsUsedLast disk (load 12288) (load 4096 ∷ load 8192 ∷ []) begun begun
      (begins 0 coming two_pages begun (omega arith) (refl, (refl, (refl, tt))) (omega arith)
        opt_init_run)
      (View-refl begun)
