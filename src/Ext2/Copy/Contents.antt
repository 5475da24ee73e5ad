-- ===== src/Ext2/Copy/Contents.antt =====
-- A4/ext2_cp.c: what `write_file_to_blocks` stores.
use csc369_assignments.Prelude.{
  ℕ, suc, ◌+◌, ◌*◌, ◌-◌, ◌/◌, ◌%◌, ◌≤◌, ◌<◌, ◌≡◌, ◌≢◌, refl, ap, sym, ◌∙◌, inl, inr, some, true,
  false, ltb, if◌then◌else◌, arith, Bool-cases,
}
use csc369_assignments.Ext2.Disk.{Disk, read32-keep}
use csc369_assignments.Ext2.Entries.{table_at}
use csc369_assignments.Ext2.Copy.{write_file_to_blocks, blocks_for}
use csc369_assignments.Ext2.Copy.Stored.{stored, stored_ne, stored_at, apart}
use csc369_assignments.Ext2.Copy.Rounds.{direct_run, full_run}

-- The block of the `k`-th part of a file: the first 12 are in the table of the inode, the others in
-- the indirect table.
abbrev pub block_of : Disk → (ℕ → ℕ) → ℕ → ℕ
block_of disk blocks k = if ltb k 12 then blocks k else table_at disk (blocks 12) (k - 12)

-- The blocks of a file of `n` parts are different, also from that of the indirect table.
pub record IsSeparate (disk : Disk) (blocks : ℕ → ℕ) (n : ℕ) : Type 0 where
  pub distinct : (i k : ℕ) → i < k → k < n → block_of disk blocks i ≢ block_of disk blocks k
  pub not_table : (k : ℕ) → k < n → block_of disk blocks k ≢ blocks 12

module _ (content : ℕ → ℕ) (size : ℕ) (blocks : ℕ → ℕ) (disk : Disk) where
  abbrev parts : ℕ
  parts = (size + 1023) / 1024

  abbrev Stores : Disk → Type 0
  Stores disk' =
      (j : ℕ) → j < size → disk' (1024 * block_of disk blocks (j / 1024) + j % 1024) ≡ content j

  direct_file :
      size ≤ 12288
      → IsSeparate disk blocks parts
      → (disk' : Disk) × (write_file_to_blocks content size (blocks_for size) blocks disk
          ≡ some disk')
        × Stores disk'
  unfolding write_file_to_blocks
  direct_file le separate =
      let c = size / 1024 in
      let r = size % 1024 in
      (
        stored content c r 0 blocks 0 disk,
        direct_run content (blocks_for size) c r (size / 1024 + 3) 0 size blocks 0 12 disk
            (omega arith) (omega arith) (omega arith) (omega arith),
        λ j lt.
            let low : ltb (j / 1024) 12 ≡ true = ground arith in
            let e : 0 + j / 1024 ≡ j / 1024 = omega arith in
            let at =
              stored_at content c r 0 blocks 0 j disk (omega arith)
                (λ i k lo lt' hi.
                  let bi : ltb i 12 ≡ true = ground arith in
                  let bk : ltb k 12 ≡ true = ground arith in
                  rw (bi, bk) at (separate.distinct i k lt' (omega arith)))
                (omega arith) in
            rw low (rw e at at ∙ ap content (omega arith)),
      )

blocks_for_run : (size : ℕ) → 12288 < size → blocks_for size ≡ (size + 1023) / 1024 + 1
unfolding blocks_for
blocks_for_run size more = ground arith

module _ (content : ℕ → ℕ) (size : ℕ) (blocks : ℕ → ℕ) (disk : Disk) (more : 12288 < size)
    (le : size ≤ 274432) (separate : IsSeparate disk blocks ((size + 1023) / 1024)) where
  -- The disk after the first 12 blocks.
  abbrev half : Disk
  half = stored content 11 1024 0 blocks 0 disk

  of_table : (k : ℕ) → k < 12 → block_of disk blocks k ≡ blocks k
  of_table k lt = let low : ltb k 12 ≡ true = ground arith in rw low refl

  of_indirect : (k : ℕ) → block_of disk blocks (k + 12) ≡ table_at disk (blocks 12) k
  of_indirect k =
      let high : ltb (k + 12) 12 ≡ false = ground arith in
      let e : k + 12 - 12 ≡ k = omega arith in rw (high, e) refl

  table_stays : (k : ℕ) → k < 256 → table_at half (blocks 12) k ≡ table_at disk (blocks 12) k
  unfolding table_at
  table_stays k lt = read32-keep disk half (1024 * blocks 12 + 4 * k) λ x lo hi.
      stored_ne content 11 1024 0 blocks 0 x disk (omega arith) λ i lo' hi'.
        let ne : blocks i ≢ blocks 12 =
          rw (of_table i (omega arith)) at (separate.not_table i (omega arith)) in
        let out =
          apart content (blocks 12) (blocks i) (x - 1024 * blocks 12) (omega arith)
            (λ e. ne (sym e)) in
        let e : 1024 * blocks 12 + (x - 1024 * blocks 12) ≡ x = omega arith in rw e at out

  half_at : (j : ℕ) → j < 12288 → half (1024 * blocks (j / 1024) + j % 1024) ≡ content j
  half_at j lt =
      let e : 0 + j / 1024 ≡ j / 1024 = omega arith in
      rw e at (
        stored_at content 11 1024 0 blocks 0 j disk (omega arith)
          (λ i k lo lt' hi.
            rw (of_table i (omega arith), of_table k (omega arith)) at
              (separate.distinct i k lt' (omega arith)))
          (omega arith))
      ∙ ap content (omega arith)

  abbrev rest : ℕ
  rest = size - 12288

  abbrev whole : Disk
  whole = stored content (rest / 1024) (rest % 1024) 12288 (table_at half (blocks 12)) 0 half

  -- A place of the indirect table that is used.
  used_place :
      (k : ℕ) → 1024 * k < rest → table_at half (blocks 12) k ≡ block_of disk blocks (k + 12)
  used_place k lt = table_stays k (omega arith) ∙ sym (of_indirect k)

  indirect_file :
      (write_file_to_blocks content size (blocks_for size) blocks disk ≡ some whole)
      × ((j : ℕ) → j < size → whole (1024 * block_of disk blocks (j / 1024) + j % 1024) ≡ content j)
  unfolding write_file_to_blocks
  indirect_file = (
    (let fuel : size / 1024 + 3 ≡ 11 + suc (suc (size / 1024 - 10)) = omega arith in
        let bn : blocks_for size - 12 ≡ (size + 1023) / 1024 + 1 - 12 =
          omega (arith, blocks_for_run size more) in
        rw fuel (
          full_run content (blocks_for size) 11 (size / 1024 - 10) 0 size blocks 0 disk more
            (omega arith)
          ∙ direct_run content (blocks_for size) (rest / 1024) (rest % 1024) (size / 1024 - 10)
              12288 rest (table_at half (blocks 12)) 0 (blocks_for size - 12) half (omega arith)
              (omega arith) (omega (arith, bn)) (omega arith))),
    λ j lt. elim (Bool-cases (ltb j 12288)) [
      | inl low ↦
          let k = j / 1024 in
          let inner : k < 12 = ground arith in
          rw (of_table k inner) (
            stored_ne content (rest / 1024) (rest % 1024) 12288 (table_at half (blocks 12)) 0
              (1024 * blocks k + j % 1024) half (omega arith)
              (λ i lo hi.
                let small : 1024 * i < rest = omega arith in
                let other : blocks k ≢ block_of disk blocks (i + 12) =
                  rw (of_table k inner) at
                    (separate.distinct k (i + 12) (omega arith) (omega arith)) in
                rw (used_place i small) (
                  apart content (blocks k) (block_of disk blocks (i + 12)) (j % 1024) (omega arith)
                    other))
            ∙ half_at j (ground arith))
      | inr high ↦
          let i = j - 12288 in
          let past : 12288 ≤ j = ground arith in
          let small : 1024 * (i / 1024) < rest = omega arith in
          let k : i / 1024 + 12 ≡ j / 1024 = omega arith in
          let m : i % 1024 ≡ j % 1024 = omega arith in
          let e : 0 + i / 1024 ≡ i / 1024 = omega arith in
          let p : 12288 + i ≡ j = omega arith in
          let at =
            stored_at content (rest / 1024) (rest % 1024) 12288 (table_at half (blocks 12)) 0 i half
              (omega arith)
              (λ x y lo lt' hi.
                let sx : 1024 * x < rest = omega arith in
                let sy : 1024 * y < rest = omega arith in
                rw (used_place x sx, used_place y sy)
                  (separate.distinct (x + 12) (y + 12) (omega arith) (omega arith)))
              (omega arith) in
          rw (e, used_place (i / 1024) small, k, m, p) at at
    ],
  )

-- The blocks of a file that is copied hold its bytes in order: `write_file_to_blocks` ends, and byte
-- `j` of the file is at place `j % 1024` of the block of its part `j / 1024`, in the table of the inode
-- or in the indirect table. The file has at most 12 and 256 blocks, and these and the block of the
-- indirect table are different.
pub write_file_to_blocks_lem :
    (content : ℕ → ℕ) (size : ℕ) (blocks : ℕ → ℕ) (disk : Disk)
    → size ≤ 274432
    → IsSeparate disk blocks ((size + 1023) / 1024)
    → (disk' : Disk) × (write_file_to_blocks content size (blocks_for size) blocks disk
        ≡ some disk')
      × ((j : ℕ) → j < size → disk' (1024 * block_of disk blocks (j / 1024) + j % 1024) ≡ content j)
write_file_to_blocks_lem content size blocks disk le separate = elim (Bool-cases (ltb 12288 size)) [
  | inl more ↦
      let long : 12288 < size = ground arith in
      let (run, at) = indirect_file content size blocks disk long le separate in
      (whole content size blocks disk long le separate, run, at)
  | inr few ↦ direct_file content size blocks disk (ground arith) separate
]
