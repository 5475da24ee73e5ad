-- ===== src/Ext2/Copy/Rounds.antt =====
-- A4/ext2_cp.c: the rounds of `write_file_to_blocks`.
use csc369_assignments.Prelude.{
  ℕ, zero, suc, ◌+◌, ◌*◌, ◌-◌, ◌/◌, ◌≤◌, ◌<◌, ◌≡◌, refl, ap, sym, ◌∙◌, inl, inr, some, true, false,
  ltb, leb, ◌==◌, arith, Bool-cases,
}
use csc369_assignments.Ext2.Disk.{Disk}
use csc369_assignments.Ext2.Entries.{table_at}
use csc369_assignments.Ext2.Copy.{copy_bytes, write_file}
use csc369_assignments.Ext2.Copy.Stored.{stored, copy_bytes_zero}

module _ (content : ℕ → ℕ) (blocks_needed : ℕ) where
  -- The rounds that end inside the table.
  pub direct_run :
      (c r fuel position size : ℕ) (blocks : ℕ → ℕ) (ind limit : ℕ) (disk : Disk)
      → size ≡ 1024 * c + r
      → r < 1024
      → ind + (size + 1023) / 1024 ≤ limit
      → c + 1 < fuel
      → write_file fuel content position size blocks_needed blocks ind limit disk
        ≡ some (stored content c r position blocks ind disk)
  unfolding write_file stored
  direct_run c r zero position size blocks ind limit disk e small fits enough = absurd (omega arith)
  direct_run zero r (suc fuel) position size blocks ind limit disk e small fits enough =
      let same : size ≡ r = omega arith in
      elim (Bool-cases (size == 0)) [
        | inl end ↦
            let none_left : r ≡ 0 = ground arith in
            rw (end, write_file, none_left)
              (ap some (sym (copy_bytes_zero content position (1024 * blocks ind) disk)))
        | inr more ↦
            let inner : ltb ind limit ≡ true = ground arith in
            let part : leb 1024 size ≡ false = ground arith in
            rw (more, write_file, inner, part, same) refl
      ]
  direct_run (suc c) r (suc fuel) position size blocks ind limit disk e small fits enough =
      let more : (size == 0) ≡ false = ground arith in
      let inner : ltb ind limit ≡ true = ground arith in
      let whole : leb 1024 size ≡ true = ground arith in
      rw (more, write_file, inner, whole)
        (direct_run c r fuel (position + 1024) (size - 1024) blocks (ind + 1) limit
          (copy_bytes content position 1024 (1024 * blocks ind) disk) (omega arith) small
          (omega arith) (omega arith))

  whole_step :
      (fuel position size : ℕ) (blocks : ℕ → ℕ) (ind limit : ℕ) (disk : Disk)
      → 1024 ≤ size
      → ind < limit
      → write_file (suc fuel) content position size blocks_needed blocks ind limit disk
        ≡ write_file fuel content
            (position + 1024)
            (size - 1024)
            blocks_needed
            blocks
            (ind + 1)
            limit
            (copy_bytes content position 1024 (1024 * blocks ind) disk)
  unfolding write_file
  whole_step fuel position size blocks ind limit disk le lt =
      let more : (size == 0) ≡ false = ground arith in
      let inner : ltb ind limit ≡ true = ground arith in
      let whole : leb 1024 size ≡ true = ground arith in rw (more, write_file, inner, whole) refl

  table_step :
      (fuel position size : ℕ) (blocks : ℕ → ℕ) (disk : Disk)
      → 0 < size
      → write_file (suc fuel) content position size blocks_needed blocks 12 12 disk
        ≡ write_file fuel content position size blocks_needed
            (table_at disk (blocks 12))
            0
            (blocks_needed - 12)
            disk
  unfolding write_file
  table_step fuel position size blocks disk positive =
      let more : (size == 0) ≡ false = ground arith in rw (more, write_file) refl

  -- The rounds that fill the table, up to the indirect one.
  pub full_run :
      (c f position size : ℕ) (blocks : ℕ → ℕ) (ind : ℕ) (disk : Disk)
      → 1024 * (c + 1) < size
      → ind + c ≡ 11
      → write_file (c + suc (suc f)) content position size blocks_needed blocks ind 12 disk
        ≡ write_file f content
            (position + 1024 * (c + 1))
            (size - 1024 * (c + 1))
            blocks_needed
            (table_at (stored content c 1024 position blocks ind disk) (blocks 12))
            0
            (blocks_needed - 12)
            (stored content c 1024 position blocks ind disk)
  unfolding stored
  full_run zero f position size blocks ind disk more last =
      let first = copy_bytes content position 1024 (1024 * blocks ind) disk in
      let e : 0 + suc (suc f) ≡ suc (suc f) = omega arith in
      let next : ind + 1 ≡ 12 = omega arith in
      rw e (
        whole_step (suc f) position size blocks ind 12 disk (omega arith) (omega arith)
        ∙ ap
            (λ k.
              write_file (suc f) content (position + 1024) (size - 1024) blocks_needed blocks k 12
                first)
            next
        ∙ table_step f (position + 1024) (size - 1024) blocks first (omega arith))
  full_run (suc c) f position size blocks ind disk more last =
      let first = copy_bytes content position 1024 (1024 * blocks ind) disk in
      let e : suc c + suc (suc f) ≡ suc (c + suc (suc f)) = omega arith in
      let p : position + 1024 + 1024 * (c + 1) ≡ position + 1024 * (suc c + 1) = omega arith in
      let s : size - 1024 - 1024 * (c + 1) ≡ size - 1024 * (suc c + 1) = omega arith in
      rw (e, ← p, ← s)
        (whole_step (c + suc (suc f)) position size blocks ind 12 disk (omega arith) (omega arith)
          ∙ full_run c f (position + 1024) (size - 1024) blocks (ind + 1) first (omega arith)
              (omega arith))
