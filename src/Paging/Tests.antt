-- ===== src/Paging/Tests.antt =====
-- A3: the theorems about the paging simulator at concrete machines.
use csc369_assignments.Prelude.{
  ℕ, zero, suc, ◌+◌, ◌-◌, ◌/◌, ◌%◌, inl, inr, Bool-cases, ◌*◌, ◌≤◌, ◌<◌, ◌≡◌, refl, true, false,
  none, some, List, [], ◌∷◌, replicate, ◌==◌, if◌then◌else◌, ◌⊎◌, get_or, sym, ◌∙◌, arith,
}
use csc369_assignments.Prelude.Int.{pos, negsuc}
use csc369_assignments.Prelude.State.{Returns}
use csc369_assignments.Paging.Machine.{pg_valid, Page, Pte, Machine}
use csc369_assignments.Paging.Policies.{clock}
use csc369_assignments.Paging.Sim.{Line}
use csc369_assignments.Paging.Invariant.{is_valid, on_swap, IsSound, IsSoundBut}
use csc369_assignments.Paging.Replay.{AllPages, accesses}
use csc369_assignments.Paging.Start.{globals, simulate}
use csc369_assignments.Prelude.Word.{test_bit, test_bit-zero}
use csc369_assignments.Swap.Bitmap.{bitmap_isset}
use csc369_assignments.Swap.Bitmap.Valid.{IsValid}
use csc369_assignments.Paging.Policies.{clock_evict, lru_evict}
use csc369_assignments.Paging.Table.{blank_pte, expel, find_physpage}
use csc369_assignments.Paging.Slotting.{pos-ne}
use csc369_assignments.Paging.Expel.{Gave}
use csc369_assignments.Paging.Victim.{expel_lem}
use csc369_assignments.Paging.Evict.{lru_evict_lem}
use csc369_assignments.Paging.Clock.{AllOwned, IsSecond}
use csc369_assignments.Paging.Clock.Loop.{clock_evict-IsSecond}
use csc369_assignments.Paging.Find.{IsFound}
use csc369_assignments.Paging.Reference.{find_physpage_lem}
use csc369_assignments.Paging.Samples.{zero_page, disk, disk-IsReliable}
use csc369_assignments.Paging.Whole.{IsSound-start, simulate_lem}

-- A trace with a comment, two writes and a read that comes back to the first page.
abbrev short_trace : List Line
short_trace =
    record { first = b'='; addr = none }
    ∷ record { first = b'S'; addr = some 4096 }
    ∷ record { first = b'M'; addr = some 8192 }
    ∷ record { first = b'L'; addr = some 4096 }
    ∷ []

page_1 : (a : ℕ) → some 4096 ≡ some a → (p : ℕ) × (p < 8) × (a ≡ p * 4096)
page_1 a e = (1, omega arith, cc)

page_2 : (a : ℕ) → some 8192 ≡ some a → (p : ℕ) × (p < 8) × (a ≡ p * 4096)
page_2 a e = (2, omega arith, cc)

short_trace-AllPages : AllPages 8 short_trace
short_trace-AllPages = (λ a e. cc, (page_1, (page_2, (page_1, tt))))

-- One frame, so that every reference evicts the page before it.
simulate_lem_example :
    Returns
      (λ good m.
        (good ≡ replicate (accesses short_trace) true)
        × (m.hit_count + m.miss_count ≡ accesses short_trace)
        × (m.ref_count ≡ accesses short_trace)
        × IsSound disk 8 m)
      (simulate disk clock true 0 true true 8 short_trace
        (globals 1 (λ i. zero_page) (λ p. zero_page)))
simulate_lem_example =
    simulate_lem disk 8 1 disk-IsReliable (omega arith) (omega arith) (omega arith) (omega arith)
      clock true 0 8 short_trace (λ e. refl) (omega arith) (omega arith) short_trace-AllPages
      (λ i. zero_page) (λ p. zero_page)

-- Before the first reference, with one frame and 32 slots.
abbrev start : Machine (ℕ → Page)
start = record (globals 1 (λ i. zero_page) (λ p. zero_page)) {
  swapmap = record { nbits = 32; v = 0 ∷ [] };
}

all_zero : (i : ℕ) → get_or {A = ℕ} (0 ∷ []) i 0 ≡ 0
all_zero zero = refl
all_zero (suc i) = refl

empty-IsValid : IsValid (record { nbits = 32; v = 0 ∷ [] })
empty-IsValid = record {
  small = omega arith;
  size = refl;
  words = λ i. rw (all_zero i) (omega arith);
  rest = λ i lo hi. absurd (omega arith);
}

empty-free : (j : ℕ) → bitmap_isset (record { nbits = 32; v = 0 ∷ [] }) j ≡ false
unfolding bitmap_isset
empty-free j = rw (all_zero (j / 32)) (test_bit-zero (j % 32))

start-IsSound : IsSound disk 8 start
start-IsSound = IsSound-start disk 8 1 start (omega arith) (omega arith) (record {
  size = refl;
  hand = refl;
  next = refl;
  unused = λ i. refl;
  blank = λ v. refl;
  map = empty-IsValid;
  free = λ j lt. empty-free j;
  enough = omega arith;
  small = omega arith;
  hits = refl;
  misses = refl;
  refs = refl;
})

find_physpage_lem_example :
    Returns (IsFound disk 8 clock 0 1 start) (find_physpage disk clock 4096 b'S' start)
find_physpage_lem_example =
    find_physpage_lem disk 8 disk-IsReliable (omega arith) clock 0 1 b'S' start (omega arith)
      start-IsSound tt

-- Page 0 lies in the only frame, and has been written to.
abbrev dirty_entry : Pte
dirty_entry = record { frame = 7; swap_off = negsuc 0 }

abbrev resident : Machine (ℕ → Page)
resident = record start {
  coremap = λ i. record { in_use = true; pte = some 0; time = 0; fst_occ = 0; vaddr = 0 };
  present = λ i. i == 0;
  ptes = λ v. if v == 0 then dirty_entry else blank_pte;
}

only_page : (v : ℕ) → (v ≡ 0) ⊎ (resident.ptes v ≡ blank_pte)
only_page v = elim (Bool-cases (v == 0)) [
  | inl same ↦ inl (ground arith)
  | inr other ↦ inr (ground arith)
]

no_offset : (v k : ℕ) → ¬ ((resident.ptes v).swap_off ≡ pos k)
no_offset v k at = elim (Bool-cases (v == 0)) [
  | inl same ↦ pos-ne k 0 (sym at ∙ ground arith)
  | inr other ↦ pos-ne k 0 (sym at ∙ ground arith)
]

resident_valid : (v : ℕ) → is_valid (resident.ptes v) ≡ true → v ≡ 0
resident_valid v good = elim (only_page v) [
  | inl e ↦ e
  | inr blank ↦ let off = test_bit-zero pg_valid in absurd (ground (arith, blank))
]

resident_on_swap : (v : ℕ) → on_swap (resident.ptes v) ≡ false
unfolding test_bit
resident_on_swap v = ground arith

resident-IsSound : IsSound disk 8 resident
unfolding test_bit
resident-IsSound = record {
  some_memory = omega arith;
  memory = omega arith;
  hand = omega arith;
  next = omega arith;
  frames = record {
    owner = λ i lt ne used. (0, omega arith, refl, refl, omega arith);
    placed = λ v good. rw (resident_valid v good) (omega arith, λ e. omega arith, refl, refl);
  };
  slots = record {
    map = empty-IsValid;
    enough = omega arith;
    small = omega arith;
    slot = λ v. inl (ground arith);
    own = λ u v k at _. absurd (no_offset u k at);
    used = λ k lt taken. let off = empty-free k in cc;
  };
  contents = record {
    swapped = λ v on. let off = resident_on_swap v in cc;
    resident = λ v good. rw (resident_valid v good) refl;
  };
  tables = record {
    absent = λ v h. elim (only_page v) [
      | inl e ↦ absurd (ground arith)
      | inr blank ↦ rw blank (refl, refl, refl)
    ];
  };
}

expel_lem_example :
    Returns (λ _ m'. IsSoundBut disk 8 0 m' × Gave disk resident m') (expel disk 0 resident)
unfolding test_bit
expel_lem_example =
    expel_lem disk disk-IsReliable 8 0 resident resident-IsSound (omega arith) refl (omega arith)
      refl

-- Two pages in two frames, both referenced.
abbrev two_pages : Machine (ℕ → Page)
two_pages = record start {
  memsize = 2;
  coremap = λ i. record { in_use = true; pte = some i; time = 5 - i; fst_occ = 0; vaddr = 0 };
  ptes = λ v. record { frame = v * 4096 + 5; swap_off = negsuc 0 };
  timestamp = 6;
}

two_pages-AllOwned : AllOwned two_pages
unfolding test_bit
two_pages-AllOwned i lt = (i, refl, ground arith, omega arith)

clock_evict-IsSecond_example : Returns (IsSecond two_pages) (clock_evict two_pages)
clock_evict-IsSecond_example = clock_evict-IsSecond two_pages (omega arith) two_pages-AllOwned

lru_evict_lem_example :
    Returns
      (λ i m'. (i < 2) × (m' ≡ two_pages) × ((j : ℕ) → j < 2 → 5 - i ≤ 5 - j))
      (lru_evict two_pages)
lru_evict_lem_example = lru_evict_lem two_pages (omega arith) (omega arith)
