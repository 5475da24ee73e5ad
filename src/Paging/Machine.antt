-- ===== src/Paging/Machine.antt =====
-- A3/pagetable.h, A3/sim.c: the data of the paging simulator, and what it asks of the system.
use csc369_assignments.Prelude.{
  ℕ, ◌*◌, ◌/◌, ◌%◌, ◌^◌, Bool, Option, none, some, List, ltb, if◌then◌else◌, update,
}
use csc369_assignments.Prelude.Int.{ℤ}
use csc369_assignments.Prelude.State.{Cmd}
use csc369_assignments.Swap.Bitmap.{Bitmap}

-- The simulated contents of a frame (`SIMPAGESIZE` bytes): the version counter, and the address
-- that is kept behind it for checking.
pub record Page : Type 0 where
  pub version : ℕ
  pub vaddr : ℕ

-- `pgtbl_entry_t`: the low bits of `frame` are flags, the rest is the number of the frame.
pub record Pte : Type 0 where
  pub frame : ℕ
  pub swap_off : ℤ

-- `struct frame`. A pointer to a page table entry is the number of its page.
pub record Frame : Type 0 where
  pub in_use : Bool
  pub pte : Option ℕ
  pub time : ℕ
  pub fst_occ : ℕ
  pub vaddr : ℕ

-- The system calls on the swap file, over a file of any type: the position that `lseek` reaches and
-- its error number less one, the bytes that `read` and `write` report with the buffer or the file
-- that they leave, and the numbers that `random` returns. `posix_memalign` gives what the call for the
-- page table of a directory slot returns; 0 is success.
pub record Os : Type 1 where
  pub File : Type 0
  pub lseek : File → ℤ → ℤ
  pub lseek_errno : ℕ
  pub read : File → ℤ → Page → ℤ × Page
  pub write : File → ℤ → Page → ℤ × File
  pub random : ℕ → ℕ
  pub posix_memalign : ℕ → ℕ

-- The global variables. The page table of a directory slot, once made, lies at the entries of its
-- pages; `present` says whether the slot of `pgdir` is not 0.
pub record Machine (File : Type 0) : Type 0 where
  pub memsize : ℕ
  pub coremap : ℕ → Frame
  pub physmem : ℕ → Page
  pub present : ℕ → Bool
  pub ptes : ℕ → Pte
  pub hit_count : ℕ
  pub miss_count : ℕ
  pub ref_count : ℕ
  pub evict_clean_count : ℕ
  pub evict_dirty_count : ℕ
  pub swapmap : Bitmap
  pub swapfile : File
  pub clock_hand : ℕ
  pub cur_page : ℕ
  pub timestamp : ℕ
  pub curr_node : List ℕ
  pub draws : ℕ

-- `coremap[i]`
abbrev pub core : {File : Type 0} → ℕ → Cmd (Machine File) Frame
core i m = if ltb i m.memsize then some (m.coremap i, m) else none

abbrev pub put_core : {File : Type 0} → ℕ → Frame → Cmd (Machine File) (Unit {0})
put_core i f m =
    if ltb i m.memsize then some (tt, record m { coremap = update m.coremap i f }) else none

-- `*p` and `*p = e`, for a pointer to a page table entry.
abbrev pub pte_at : {File : Type 0} → ℕ → Cmd (Machine File) Pte
pte_at v m = some (m.ptes v, m)

abbrev pub put_pte : {File : Type 0} → ℕ → Pte → Cmd (Machine File) (Unit {0})
put_pte v e m = some (tt, record m { ptes = update m.ptes v e })

-- The flags PG_VALID, PG_DIRTY, PG_REF and PG_ONSWAP are the bits 0 to 3.
abbrev pub pg_valid : ℕ
pg_valid = 0

abbrev pub pg_dirty : ℕ
pg_dirty = 1

abbrev pub pg_ref : ℕ
pg_ref = 2

abbrev pub pg_onswap : ℕ
pg_onswap = 3

-- `frame >> PAGE_SHIFT` and `frame << PAGE_SHIFT`
abbrev pub page_size : ℕ
page_size = 4096

abbrev pub frame_number : ℕ → ℕ
frame_number w = w / page_size

abbrev pub frame_bits : ℕ → ℕ
frame_bits f = f * page_size % 2 ^ 32

abbrev pub invalid_swap : ℤ
invalid_swap = ℤ.negsuc 0
