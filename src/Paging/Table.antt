-- ===== src/Paging/Table.antt =====
-- A3/pagetable.c: the page table, and the frames behind it.
use csc369_assignments.Prelude.{
  ℕ, zero, suc, ◌+◌, ◌*◌, ◌/◌, ◌%◌, ◌^◌, Bool, true, not, ◌||◌, Option, none, some, ltb, ◌==◌,
  if◌then◌else◌, update,
}
use csc369_assignments.Prelude.State.{Cmd, pure, deref, and_then, ◌>>=◌, ◌>>◌}
use csc369_assignments.Prelude.Word.{test_bit, clear_bit, set_bit}
use csc369_assignments.Paging.Machine.{
  Pte, Frame, Os, Machine, core, put_core, pte_at, put_pte, pg_valid, pg_dirty, pg_ref, pg_onswap,
  frame_number, frame_bits, invalid_swap, page_size,
}
use csc369_assignments.Paging.Swapping.{swap_pageout, swap_pagein}
use csc369_assignments.Paging.Policies.{Algorithm, ref_fcn, evict_fcn}

abbrev pub ptrs_per_pgdir : ℕ
ptrs_per_pgdir = 4096

abbrev pub ptrs_per_pgtbl : ℕ
ptrs_per_pgtbl = 4096

-- `PGDIR_INDEX`, as an `unsigned`, and `PGTBL_INDEX`.
abbrev pub pgdir_index : ℕ → ℕ
pgdir_index vaddr = vaddr / 2 ^ 24 % 2 ^ 32

abbrev pub pgtbl_index : ℕ → ℕ
pgtbl_index vaddr = vaddr / page_size % ptrs_per_pgtbl

-- The page table entry that an address is mapped by.
abbrev pub page_of : ℕ → ℕ
page_of vaddr = pgdir_index vaddr * ptrs_per_pgtbl + pgtbl_index vaddr

-- The first loop of `allocate_frame`: a frame that is not in use.
unfoldable pub find_free : ℕ → ℕ → (ℕ → Frame) → Option ℕ
find_free zero i coremap = none
find_free (suc rounds) i coremap =
    let rest = find_free rounds (suc i) coremap in if not (coremap i).in_use then some i else rest

abbrev pub blank_pte : Pte
blank_pte = record { frame = 0; swap_off = invalid_swap }

-- `init_frame`
unfoldable pub init_frame : {File : Type 0} → ℕ → ℕ → Cmd (Machine File) (Unit {0})
init_frame frame vaddr m =
    some (tt, record m { physmem = update m.physmem frame (record { version = 0; vaddr = vaddr }) })

-- The marks that `find_physpage` leaves on the entry.
abbrev pub touched : Bool → ℕ → ℕ
touched writes w = set_bit (set_bit (if writes then set_bit w pg_dirty else w) pg_valid) pg_ref

-- `type == 'M' || type == 'S'`
abbrev pub is_write : ℕ → Bool
is_write type = (type == b'M') || (type == b'S')

module _ (os : Os) where
  -- The part of `allocate_frame` that gives the victim up.
  unfoldable pub expel : ℕ → Cmd (Machine os.File) (Unit {0})
  expel frame = do
    c ← core frame
    victim ← deref c.pte
    e ← pte_at victim
    if test_bit e.frame pg_dirty
        then (do
          off ← swap_pageout os frame e.swap_off
          put_pte victim
              (record { frame = set_bit (clear_bit e.frame pg_valid) pg_onswap; swap_off = off })
          λ m. some (tt, record m { evict_dirty_count = m.evict_dirty_count + 1 }))
        else (do
          put_pte victim (record e { frame = clear_bit e.frame pg_valid })
          λ m. some (tt, record m { evict_clean_count = m.evict_clean_count + 1 }))

  -- A frame for `p`: a free one, or that of a victim.
  unfoldable pub choose_frame : Algorithm → Cmd (Machine os.File) ℕ
  choose_frame alg m = elim (find_free m.memsize 0 m.coremap) [
    | some i ↦ some (i, m)
    | none ↦ and_then (evict_fcn os alg m) (λ frame. expel frame >> pure frame)
  ]

  unfoldable pub allocate_frame : Algorithm → ℕ → Cmd (Machine os.File) ℕ
  allocate_frame alg p = do
    frame ← choose_frame alg
    c ← core frame
    put_core frame (record c { in_use = true; pte = some p })
    pure frame

  abbrev pub put_vaddr : ℕ → ℕ → Cmd (Machine os.File) (Unit {0})
  put_vaddr frame vaddr = do c ← core frame; put_core frame (record c { vaddr = vaddr })

  -- `find_physpage` on a miss: the page gets a frame, zero-filled or read from swap.
  unfoldable pub load_page : Algorithm → ℕ → ℕ → Cmd (Machine os.File) (Unit {0})
  load_page alg p vaddr = do
    frame ← allocate_frame alg p
    e ← pte_at p
    if not (test_bit e.frame pg_onswap)
        then (do
          init_frame frame vaddr
          put_pte p (record e { frame = set_bit (frame_bits frame) pg_dirty })
          put_vaddr frame vaddr)
        else (do
          swap_pagein os frame e.swap_off
          put_pte p
              (record e { frame = clear_bit (clear_bit (frame_bits frame) pg_dirty) pg_onswap })
          put_vaddr frame vaddr)

  -- `find_physpage` up to the end of the test for a hit.
  unfoldable pub locate : Algorithm → ℕ → ℕ → Cmd (Machine os.File) (Unit {0})
  locate alg p vaddr = do
    e ← pte_at p
    if test_bit e.frame pg_valid
        then (λ m. some (tt, record m { hit_count = m.hit_count + 1 }))
        else (do λ m. some (tt, record m { miss_count = m.miss_count + 1 }); load_page alg p vaddr)

  -- `init_second_level`, and its result put into slot `idx` of the directory; without memory the
  -- program ends.
  unfoldable pub init_second_level : ℕ → Cmd (Machine os.File) (Unit {0})
  init_second_level idx m =
      if not (os.posix_memalign idx == 0)
      then none
      else some (
        tt,
        record m {
          present = update m.present idx true;
          ptes = λ v. if v / ptrs_per_pgtbl == idx then blank_pte else m.ptes v;
        },
      )

  -- The rest of `find_physpage`; the result is the number of the frame that it points to.
  unfoldable pub touch : Algorithm → ℕ → ℕ → Cmd (Machine os.File) ℕ
  touch alg p type = do
    e ← pte_at p
    put_pte p (record e { frame = touched (is_write type) e.frame })
    λ m. some (tt, record m { ref_count = m.ref_count + 1 })
    ref_fcn alg p
    e' ← pte_at p
    pure (frame_number e'.frame)

  unfoldable pub find_physpage : Algorithm → ℕ → ℕ → Cmd (Machine os.File) ℕ
  find_physpage alg vaddr type m =
      let idx = pgdir_index vaddr in
      let p = page_of vaddr in
      if not (ltb idx ptrs_per_pgdir)
      then none
      else and_then ((if m.present idx then pure tt else init_second_level idx) m)
          (λ _. locate alg p vaddr >> touch alg p type)
