-- ===== src/Paging/Swapping.antt =====
-- A3/swap.c: moving pages between physical memory and the swap file.
use csc369_assignments.Prelude.{ℕ, ◌*◌, ◌%◌, ◌^◌, not, none, some, if◌then◌else◌, update}
use csc369_assignments.Prelude.Int.{ℤ, pos, negsuc, signed32, eqb_ℤ}
use csc369_assignments.Prelude.State.{Cmd}
use csc369_assignments.Swap.Bitmap.{bitmap_alloc}
use csc369_assignments.Paging.Machine.{Os, Machine, invalid_swap}

abbrev pub simpagesize : ℕ
simpagesize = 16

module _ (os : Os) where
  -- The part of `swap_pageout` behind the choice of an offset.
  unfoldable pub write_page : ℕ → ℤ → Cmd (Machine os.File) ℤ
  write_page frame off m =
      let at = os.lseek m.swapfile off in
      let out = os.write m.swapfile off (m.physmem frame) in
      let m' = record m { swapfile = out.1 } in
      if eqb_ℤ off invalid_swap
      then none
      else if not (eqb_ℤ at off)
      then (if eqb_ℤ at (negsuc 0) then some (invalid_swap, m) else none)
      else some (if eqb_ℤ out.0 (pos simpagesize) then off else invalid_swap, m')

  -- `swap_pageout`: the result is the offset, or `INVALID_SWAP`.
  unfoldable pub swap_pageout : ℕ → ℤ → Cmd (Machine os.File) ℤ
  swap_pageout frame off m =
      if eqb_ℤ off invalid_swap
      then elim (bitmap_alloc m.swapmap) [
        | none ↦ none
        | some none ↦ some (invalid_swap, m)
        | some (some (idx, b)) ↦
            write_page frame (signed32 (idx * simpagesize % 2 ^ 32)) (record m { swapmap = b })
      ]
      else write_page frame off m

  -- `swap_pagein`: 0, a negated error number, or the bytes of a partial read.
  unfoldable pub swap_pagein : ℕ → ℤ → Cmd (Machine os.File) ℤ
  swap_pagein frame off m =
      let at = os.lseek m.swapfile off in
      let got = os.read m.swapfile off (m.physmem frame) in
      let m' = record m { physmem = update m.physmem frame got.1 } in
      if eqb_ℤ off invalid_swap
      then none
      else if not (eqb_ℤ at off)
      then (if eqb_ℤ at (negsuc 0) then some (negsuc os.lseek_errno, m) else none)
      else some (if eqb_ℤ got.0 (pos simpagesize) then pos 0 else got.0, m')
