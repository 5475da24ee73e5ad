-- ===== src/Ext2/Restore/Retake.antt =====
-- A4/ext2_rm.c, A4/ext2_restore.c: the blocks of a file, freed one after another and taken back.
use csc369_assignments.Prelude.{
  ℕ, zero, suc, ◌+◌, ◌-◌, ◌%◌, ◌^◌, ◌≤◌, ◌<◌, ◌≡◌, refl, ap, sym, ◌∙◌, some, Bool, true, false,
  ◌||◌, ◌==◌, if◌then◌else◌, update, arith, Bool-cases, inl, inr, eq_of_test,
}
use csc369_assignments.Ext2.Disk.{Disk}
use native.Mathlib.Nat.{mod-eq_of_lt, mod-eq-sub-mod}
use csc369_assignments.Ext2.Bitmaps.{update_bitmap, deall_bitmap, bit_at}
use csc369_assignments.Ext2.Marks.{bit_at-update_bitmap, bit_at-deall_bitmap}
use csc369_assignments.Ext2.Image.{Image, count_block}
use csc369_assignments.Ext2.Remove.{free_block, free_until_zero, free_blocks}
use csc369_assignments.Ext2.Restore.{
  ended, check_table, check_availability, retake_block, retake_table, reallocate_blocks,
}

-- The counters on 32 and on 16 bits, up and down, `n` times.
abbrev pub ups : ℕ → ℕ → ℕ → ℕ
ups w zero c = c
ups w (suc n) c = ups w n ((c + 1) % w)

abbrev pub downs : ℕ → ℕ → ℕ → ℕ
downs w zero c = c
downs w (suc n) c = downs w n ((c + w - 1) % w)

up_lt : (w c : ℕ) → c < w → (c + 1) % w < w
up_lt w c lt = grind arith

down_up : (w c : ℕ) → c < w → ((c + 1) % w + w - 1) % w ≡ c
down_up w c lt = elim (Bool-cases (c + 1 == w)) [
  | inl last ↦
      let e : (c + 1) % w ≡ 0 =
        mod-eq-sub-mod (ground arith) ∙ mod-eq_of_lt (ground arith) ∙ ground arith in
      rw e (mod-eq_of_lt (ground arith) ∙ ground arith)
  | inr inner ↦
      let e : (c + 1) % w ≡ c + 1 = mod-eq_of_lt {n = c + 1} {m = w} (ground arith) in
      rw e (mod-eq-sub-mod (ground arith) ∙ mod-eq_of_lt (ground arith) ∙ ground arith)
]

up_down : (w c : ℕ) → c < w → ((c + w - 1) % w + 1) % w ≡ c
up_down w c lt = elim (Bool-cases (c == 0)) [
  | inl low ↦
      let e : (c + w - 1) % w ≡ w - 1 = mod-eq_of_lt (ground arith) ∙ ground arith in
      rw e (mod-eq-sub-mod (ground arith) ∙ mod-eq_of_lt (ground arith) ∙ ground arith)
  | inr high ↦
      let e : (c + w - 1) % w ≡ c - 1 =
        mod-eq-sub-mod (ground arith) ∙ mod-eq_of_lt (ground arith) ∙ ground arith in
      rw e (mod-eq_of_lt (ground arith) ∙ ground arith)
]

down-ups : (w n c : ℕ) → c < w → (ups w n c + w - 1) % w ≡ ups w n ((c + w - 1) % w)
down-ups w zero c lt = refl
down-ups w (suc n) c lt =
    down-ups w n ((c + 1) % w) (up_lt w c lt) ∙ ap (ups w n) (down_up w c lt ∙ sym (up_down w c lt))

-- As often down as up gives the counter back.
pub downs-ups : (w n c : ℕ) → c < w → downs w n (ups w n c) ≡ c
downs-ups w zero c lt = refl
downs-ups w (suc n) c lt =
    ap (downs w n) (down-ups w n ((c + 1) % w) (up_lt w c lt) ∙ ap (ups w n) (down_up w c lt))
    ∙ downs-ups w n c lt

-- The places of a table from `ind` on, in both bitmaps.
abbrev pub set_all : ℕ → ℕ → (ℕ → ℕ) → ℕ → (ℕ → ℕ) → ℕ → ℕ
set_all v zero table ind bitmap = bitmap
set_all v (suc n) table ind bitmap = set_all v n table (ind + 1) (update bitmap (table ind - 1) v)

abbrev pub clear_bits : ℕ → (ℕ → ℕ) → ℕ → (ℕ → ℕ) → ℕ → ℕ
clear_bits zero table ind bits = bits
clear_bits (suc n) table ind bits = clear_bits n table (ind + 1) (deall_bitmap bits (table ind - 1))

abbrev pub mark_bits : ℕ → (ℕ → ℕ) → ℕ → (ℕ → ℕ) → ℕ → ℕ
mark_bits zero table ind bits = bits
mark_bits (suc n) table ind bits = mark_bits n table (ind + 1) (update_bitmap bits (table ind - 1))

-- Whether a block, less 1, is one of the table.
abbrev listed : ℕ → (ℕ → ℕ) → ℕ → ℕ → Bool
listed zero table ind j = false
listed (suc n) table ind j = (table ind - 1 == j) || listed n table (ind + 1) j

set_all_lem :
    (v n : ℕ) (table : ℕ → ℕ) (ind : ℕ) (bitmap : ℕ → ℕ) (j : ℕ)
    → set_all v n table ind bitmap j ≡ (if listed n table ind j then v else bitmap j)
set_all_lem v zero table ind bitmap j = refl
set_all_lem v (suc n) table ind bitmap j =
    set_all_lem v n table (ind + 1) (update bitmap (table ind - 1) v) j ∙ ground arith

clear_bits_lem :
    (n : ℕ) (table : ℕ → ℕ) (ind : ℕ) (bits : ℕ → ℕ) (j : ℕ)
    → bit_at (clear_bits n table ind bits) j
      ≡ (if listed n table ind j then false else bit_at bits j)
clear_bits_lem zero table ind bits j = refl
clear_bits_lem (suc n) table ind bits j =
    clear_bits_lem n table (ind + 1) (deall_bitmap bits (table ind - 1)) j
    ∙ ground (arith, bit_at-deall_bitmap bits (table ind - 1) j)

mark_bits_lem :
    (n : ℕ) (table : ℕ → ℕ) (ind : ℕ) (bits : ℕ → ℕ) (j : ℕ)
    → bit_at (mark_bits n table ind bits) j ≡ (if listed n table ind j then true else bit_at bits j)
mark_bits_lem zero table ind bits j = refl
mark_bits_lem (suc n) table ind bits j =
    mark_bits_lem n table (ind + 1) (update_bitmap bits (table ind - 1)) j
    ∙ ground (arith, bit_at-update_bitmap bits (table ind - 1) j)

-- The entries of a table from `ind` on are in use, `n` of them, and the next one is not.
pub record HasBlocks (table : ℕ → ℕ) (ind n : ℕ) : Type 0 where
  pub in_use : (k : ℕ) → ind ≤ k → k < ind + n → (table k == 0) ≡ false
  pub end : (table (ind + n) == 0) ≡ true

HasBlocks-next :
    (table : ℕ → ℕ) (ind n : ℕ) → HasBlocks table ind (suc n) → HasBlocks table (ind + 1) n
HasBlocks-next table ind n h = record {
  in_use = λ k lo hi. h.in_use k (omega arith) (omega arith);
  end = let e : ind + 1 + n ≡ ind + suc n = omega arith in rw e h.end;
}

-- The image after `n` blocks of a table have been freed, and after they have been taken back.
abbrev pub freed : ℕ → (ℕ → ℕ) → ℕ → Image → Image
freed n table ind m = record m {
  block_bits = clear_bits n table ind m.block_bits;
  s_free_blocks_count = ups (2 ^ 32) n m.s_free_blocks_count;
  bg_free_blocks_count = ups (2 ^ 16) n m.bg_free_blocks_count;
  block_bitmap = set_all 0 n table ind m.block_bitmap;
}

abbrev pub retaken : ℕ → (ℕ → ℕ) → ℕ → Image → Image
retaken n table ind m = record m {
  block_bits = mark_bits n table ind m.block_bits;
  s_free_blocks_count = downs (2 ^ 32) n m.s_free_blocks_count;
  bg_free_blocks_count = downs (2 ^ 16) n m.bg_free_blocks_count;
  block_bitmap = set_all 1 n table ind m.block_bitmap;
}

free_block-run :
    (b : ℕ) (m : Image)
    → (b == 0) ≡ false
    → free_block b m
      ≡ some (record m {
        block_bits = deall_bitmap m.block_bits (b - 1);
        s_free_blocks_count = (m.s_free_blocks_count + 1) % 2 ^ 32;
        bg_free_blocks_count = (m.bg_free_blocks_count + 1) % 2 ^ 16;
        block_bitmap = update m.block_bitmap (b - 1) 0;
      })
unfolding free_block
free_block-run zero m used = absurd (ground arith)
free_block-run (suc n) m used = let e : suc n - 1 ≡ n = omega arith in rw e refl

free_until_zero-run :
    (n fuel : ℕ) (table : ℕ → ℕ) (ind : ℕ) (m : Image)
    → n < fuel
    → HasBlocks table ind n
    → free_until_zero fuel table ind m ≡ some (freed n table ind m)
unfolding free_until_zero
free_until_zero-run n zero table ind m enough h = absurd (omega arith)
free_until_zero-run zero (suc fuel) table ind m enough h =
    let e : ind + 0 ≡ ind = omega arith in rw (rw e at h.end, free_until_zero) refl
free_until_zero-run (suc n) (suc fuel) table ind m enough h =
    let used = h.in_use ind (omega arith) (omega arith) in
    rw (used, free_until_zero, free_block-run (table ind) m used)
      (free_until_zero-run n fuel table (ind + 1) (freed 1 table ind m) (omega arith)
        (HasBlocks-next table ind n h))

retake_table-run :
    (n rounds : ℕ) (table : ℕ → ℕ) (ind : ℕ) (m : Image)
    → n ≤ rounds
    → HasBlocks table ind n
    → retake_table rounds table ind m ≡ (false, retaken n table ind m)
unfolding retake_table retake_block count_block
retake_table-run zero zero table ind m le h =
    let e : ind + 0 ≡ ind = omega arith in rw (rw e at h.end, retake_table) refl
retake_table-run zero (suc rounds) table ind m le h =
    let e : ind + 0 ≡ ind = omega arith in rw (rw e at h.end, retake_table) refl
retake_table-run (suc n) zero table ind m le h = absurd (omega arith)
retake_table-run (suc n) (suc rounds) table ind m le h =
    let used = h.in_use ind (omega arith) (omega arith) in
    rw (used, retake_table)
      (retake_table-run n rounds table (ind + 1) (retaken 1 table ind m) (omega arith)
        (HasBlocks-next table ind n h))

-- None of the blocks is in use.
check_table-run :
    (n rounds : ℕ) (table : ℕ → ℕ) (ind : ℕ) (bitmap : ℕ → ℕ)
    → n ≤ rounds
    → HasBlocks table ind n
    → ((k : ℕ) → ind ≤ k → k < ind + n → bitmap (table k - 1) ≡ 0)
    → check_table rounds table ind bitmap ≡ ended
unfolding check_table
check_table-run zero zero table ind bitmap le h free =
    let e : ind + 0 ≡ ind = omega arith in rw (rw e at h.end, check_table) refl
check_table-run zero (suc rounds) table ind bitmap le h free =
    let e : ind + 0 ≡ ind = omega arith in rw (rw e at h.end, check_table) refl
check_table-run (suc n) zero table ind bitmap le h free = absurd (omega arith)
check_table-run (suc n) (suc rounds) table ind bitmap le h free =
    let used = h.in_use ind (omega arith) (omega arith) in
    let zero_bit : (bitmap (table ind - 1) == 0) ≡ true =
      rw (free ind (omega arith) (omega arith)) refl in
    rw (used, check_table, zero_bit)
      (check_table-run n rounds table (ind + 1) bitmap (omega arith) (HasBlocks-next table ind n h)
        (λ k lo hi. free k (omega arith) (omega arith)))

-- The blocks are all marked, in the array and on the disk.
pub record IsMarked (table : ℕ → ℕ) (n : ℕ) (m : Image) : Type 0 where
  pub in_array : (k : ℕ) → k < n → m.block_bitmap (table k - 1) ≡ 1
  pub on_disk : (k : ℕ) → k < n → bit_at m.block_bits (table k - 1) ≡ true

listed_at :
    (n : ℕ) (table : ℕ → ℕ) (ind k : ℕ)
    → ind ≤ k
    → k < ind + n
    → listed n table ind (table k - 1) ≡ true
listed_at zero table ind k lo hi = absurd (omega arith)
listed_at (suc n) table ind k lo hi = elim (Bool-cases (ind == k)) [
  | inl same ↦ let e = eq_of_test ind k same in rw e (ground arith)
  | inr other ↦ ground (arith, listed_at n table (ind + 1) k)
]

-- A listed block is that of a place.
place_of :
    (n : ℕ) (table : ℕ → ℕ) (ind j : ℕ)
    → listed n table ind j ≡ true
    → (k : ℕ) × (ind ≤ k) × (k < ind + n) × (table k - 1 ≡ j)
place_of zero table ind j on = cc
place_of (suc n) table ind j on = elim (Bool-cases (table ind - 1 == j)) [
  | inl here ↦ (ind, omega arith, omega arith, eq_of_test (table ind - 1) j here)
  | inr there ↦
      let (k, lo, hi, e) = place_of n table (ind + 1) j (ground arith) in
      (k, omega arith, omega arith, e)
]

module _ (n : ℕ) (table : ℕ → ℕ) (m : Image) (marked : IsMarked table n m) where
  pub set_all-back :
      (j : ℕ) → set_all 1 n table 0 (set_all 0 n table 0 m.block_bitmap) j ≡ m.block_bitmap j
  set_all-back j = elim (Bool-cases (listed n table 0 j)) [
    | inl on ↦
        let (k, lo, hi, e) = place_of n table 0 j on in
        set_all_lem 1 n table 0 (set_all 0 n table 0 m.block_bitmap) j
        ∙ rw on (sym (ap m.block_bitmap (sym e) ∙ marked.in_array k (omega arith)))
    | inr off ↦
        set_all_lem 1 n table 0 (set_all 0 n table 0 m.block_bitmap) j
        ∙ rw off (set_all_lem 0 n table 0 m.block_bitmap j ∙ rw off refl)
  ]

  pub mark_bits-back :
      (j : ℕ)
      → bit_at (mark_bits n table 0 (clear_bits n table 0 m.block_bits)) j ≡ bit_at m.block_bits j
  mark_bits-back j = elim (Bool-cases (listed n table 0 j)) [
    | inl on ↦
        let (k, lo, hi, e) = place_of n table 0 j on in
        mark_bits_lem n table 0 (clear_bits n table 0 m.block_bits) j
        ∙ rw on (sym (ap (bit_at m.block_bits) (sym e) ∙ marked.on_disk k (omega arith)))
    | inr off ↦
        mark_bits_lem n table 0 (clear_bits n table 0 m.block_bits) j
        ∙ rw off (clear_bits_lem n table 0 m.block_bits j ∙ rw off refl)
  ]

pub free_blocks-run :
    (n : ℕ) (table : ℕ → ℕ) (m : Image)
    → n ≤ 12
    → HasBlocks table 0 n
    → table 12 ≡ 0
    → free_blocks table m ≡ some (freed n table 0 m)
unfolding free_blocks
free_blocks-run n table m le h direct =
    rw (direct, free_blocks) (free_until_zero-run n 16 table 0 m (omega arith) h)

pub check_availability-run :
    (n : ℕ) (table bitmap : ℕ → ℕ) (disk : Disk)
    → n ≤ 12
    → HasBlocks table 0 n
    → check_availability disk table (set_all 0 n table 0 bitmap) ≡ false
unfolding check_availability
check_availability-run n table bitmap disk le h =
    let free = λ (k : ℕ) (lo : 0 ≤ k) (hi : k < 0 + n).
      set_all_lem 0 n table 0 bitmap (table k - 1) ∙ rw (listed_at n table 0 k lo hi) refl in
    rw (check_table-run n 12 table 0 (set_all 0 n table 0 bitmap) le h free, check_availability)
      refl

pub reallocate_blocks-run :
    (n : ℕ) (table : ℕ → ℕ) (m : Image)
    → n ≤ 12
    → HasBlocks table 0 n
    → reallocate_blocks table m ≡ retaken n table 0 m
unfolding reallocate_blocks
reallocate_blocks-run n table m le h =
    let e = retake_table-run n 12 table 0 m le h in rw (e, reallocate_blocks, e) refl
