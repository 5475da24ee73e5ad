-- ===== src/Ext2/Blocks.antt =====
-- A4/ext2_checker.c: `file_block_check` marks the blocks of a file.
use csc369_assignments.Prelude.{
  ℕ, zero, suc, ◌+◌, ◌-◌, ◌%◌, ◌^◌, ◌≤◌, ◌≡◌, refl, Bool, true, false, not, ◌==◌, if◌then◌else◌,
  update, arith, Bool-cases, inl, inr, eq_of_test,
}
use csc369_assignments.Ext2.Bitmaps.{update_b_bitmap, bit_at}
use csc369_assignments.Ext2.Marks.{bit_at-update_bitmap}

-- The block bitmap as an array and on the disk, the two counters, and the number of repairs.
pub record BlockState : Type 0 where
  pub block_bitmap : ℕ → ℕ
  pub block_bits : ℕ → ℕ
  pub s_free_blocks_count : ℕ
  pub bg_free_blocks_count : ℕ
  pub total : ℕ

-- The block `b` of a file is marked where it is not.
unfoldable pub mark_block : ℕ → BlockState → BlockState
mark_block b m =
    if m.block_bitmap (b - 1) == 0
    then record {
      block_bitmap = update m.block_bitmap (b - 1) 1;
      block_bits = update_b_bitmap m.block_bits (b - 1);
      s_free_blocks_count = (m.s_free_blocks_count + 2 ^ 32 - 1) % 2 ^ 32;
      bg_free_blocks_count = (m.bg_free_blocks_count + 2 ^ 16 - 1) % 2 ^ 16;
      total = m.total + 1;
    }
    else m

-- The entries of a table of blocks from `ind` to its limit, which is `rounds` further on; whether
-- the limit was reached.
unfoldable pub check_blocks : ℕ → (ℕ → ℕ) → ℕ → BlockState → Bool × BlockState
check_blocks zero i_block ind m =
    if i_block ind == 0 then (false, m) else (true, mark_block (i_block ind) m)
check_blocks (suc rounds) i_block ind m =
    let rest = check_blocks rounds i_block (ind + 1) in
    if i_block ind == 0 then (false, m) else rest (mark_block (i_block ind) m)

-- `file_block_check`, with the table that lies in the block of entry 12.
unfoldable pub file_block_check : (ℕ → ℕ) → (ℕ → ℕ) → BlockState → BlockState
file_block_check i_block indirect m =
    let r = check_blocks 12 i_block 0 m in if r.0 then (check_blocks 200 indirect 0 r.1).1 else r.1

-- The array agrees with the disk.
abbrev pub Agrees : BlockState → Type 0
Agrees m = (k : ℕ) → bit_at m.block_bits k ≡ not (m.block_bitmap k == 0)

-- A later state has the marks of an earlier one, and agrees with the disk where that did.
pub record Later (m m' : BlockState) : Type 0 where
  pub kept : (k : ℕ) → (m.block_bitmap k == 0) ≡ false → (m'.block_bitmap k == 0) ≡ false
  pub agrees : Agrees m → Agrees m'

Later-refl : (m : BlockState) → Later m m
Later-refl m = record { kept = λ k h. h; agrees = λ a. a }

Later-trans : (m m1 m2 : BlockState) → Later m m1 → Later m1 m2 → Later m m2
Later-trans m m1 m2 a b = record {
  kept = λ k h. b.kept k (a.kept k h);
  agrees = λ h. b.agrees (a.agrees h);
}

Later-mark_block : (b : ℕ) (m : BlockState) → Later m (mark_block b m)
unfolding mark_block
Later-mark_block b m = elim (Bool-cases (m.block_bitmap (b - 1) == 0)) [
  | inr used ↦ rw used (Later-refl m)
  | inl free ↦ rw free (record {
    kept = λ k h. ground arith;
    agrees = λ a k. rw (bit_at-update_bitmap m.block_bits (b - 1) k) (ground (arith, a k));
  })
]

marked : (b : ℕ) (m : BlockState) → ((mark_block b m).block_bitmap (b - 1) == 0) ≡ false
unfolding mark_block
marked b m = ground arith

-- The entries from `ind` to `k` are all in use.
abbrev pub Used : (ℕ → ℕ) → ℕ → ℕ → Type 0
Used i_block ind k = (j : ℕ) → ind ≤ j → j ≤ k → (i_block j == 0) ≡ false

check_blocks-Later :
    (rounds : ℕ) (i_block : ℕ → ℕ) (ind : ℕ) (m : BlockState)
    → Later m (check_blocks rounds i_block ind m).1
unfolding check_blocks
check_blocks-Later zero i_block ind m = elim (Bool-cases (i_block ind == 0)) [
  | inl end ↦ rw end (Later-refl m)
  | inr more ↦ rw more (Later-mark_block (i_block ind) m)
]
check_blocks-Later (suc rounds) i_block ind m = elim (Bool-cases (i_block ind == 0)) [
  | inl end ↦ rw end (Later-refl m)
  | inr more ↦
      let m1 = mark_block (i_block ind) m in
      rw more (
        Later-trans m m1 (check_blocks rounds i_block (ind + 1) m1).1
          (Later-mark_block (i_block ind) m) (check_blocks-Later rounds i_block (ind + 1) m1))
]

check_blocks_lem :
    (rounds : ℕ) (i_block : ℕ → ℕ) (ind k : ℕ) (m : BlockState)
    → ind ≤ k
    → k ≤ ind + rounds
    → Used i_block ind k
    → ((check_blocks rounds i_block ind m).1.block_bitmap (i_block k - 1) == 0) ≡ false
unfolding check_blocks
check_blocks_lem zero i_block ind k m lo hi used =
    let same : ind ≡ k = omega arith in
    rw (used ind (omega arith) lo, ← same) (marked (i_block ind) m)
check_blocks_lem (suc rounds) i_block ind k m lo hi used =
    let m1 = mark_block (i_block ind) m in
    elim (Bool-cases (ind == k)) [
      | inl same ↦
          let e = eq_of_test ind k same in
          rw (used ind (omega arith) lo, ← e)
            ((check_blocks-Later rounds i_block (ind + 1) m1).kept (i_block ind - 1)
              (marked (i_block ind) m))
      | inr other ↦ rw (used ind (omega arith) lo) (
          check_blocks_lem rounds i_block (ind + 1) k m1 (ground arith) (omega arith)
            (λ j lo' hi'. used j (omega arith) hi'))
    ]

check_blocks-full :
    (rounds : ℕ) (i_block : ℕ → ℕ) (ind : ℕ) (m : BlockState)
    → Used i_block ind (ind + rounds)
    → (check_blocks rounds i_block ind m).0 ≡ true
unfolding check_blocks
check_blocks-full zero i_block ind m used = rw (used ind (omega arith) (omega arith)) refl
check_blocks-full (suc rounds) i_block ind m used = rw (used ind (omega arith) (omega arith)) (
    check_blocks-full rounds i_block (ind + 1) (mark_block (i_block ind) m)
      (λ j lo hi. used j (omega arith) (omega arith)))

-- After `file_block_check` every block of the file is marked, be it one of the first 13 entries of
-- its table up to the first that is not in use, or one of the first 201 of the indirect table, if
-- those 13 are all in use; no mark is lost, and if the array agreed with the disk it still does.
pub file_block_check_lem :
    (i_block indirect : ℕ → ℕ) (m : BlockState)
    → ((k : ℕ)
        → k ≤ 12
        → Used i_block 0 k
        → ((file_block_check i_block indirect m).block_bitmap (i_block k - 1) == 0) ≡ false)
      × ((k : ℕ)
          → k ≤ 200
          → Used i_block 0 12
          → Used indirect 0 k
          → ((file_block_check i_block indirect m).block_bitmap (indirect k - 1) == 0) ≡ false)
      × Later m (file_block_check i_block indirect m)
unfolding file_block_check
file_block_check_lem i_block indirect m =
    let r = check_blocks 12 i_block 0 m in
    let first = check_blocks-Later 12 i_block 0 m in
    let second = check_blocks-Later 200 indirect 0 r.1 in
    let direct = λ (k : ℕ) (hi : k ≤ 12) (used : Used i_block 0 k).
      check_blocks_lem 12 i_block 0 k m (omega arith) (omega arith) used in
    elim (Bool-cases r.0) [
      | inl full ↦ rw full (
        λ k hi used. second.kept (i_block k - 1) (direct k hi used),
        λ k hi all used. check_blocks_lem 200 indirect 0 k r.1 (omega arith) (omega arith) used,
        Later-trans m r.1 (check_blocks 200 indirect 0 r.1).1 first second,
      )
      | inr end ↦ rw end (
        direct,
        λ k hi all used.
            let full = check_blocks-full 12 i_block 0 m (λ j lo hi'. all j lo (omega arith)) in
            absurd (ground (arith, full, end)),
        first,
      )
    ]
