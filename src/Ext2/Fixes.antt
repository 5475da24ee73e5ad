-- ===== src/Ext2/Fixes.antt =====
-- A4/ext2_checker.c: which counters `inode_check` and `block_check` repair.
use csc369_assignments.Prelude.{
  ℕ, ◌+◌, ◌*◌, ◌-◌, ◌%◌, ◌^◌, ◌≤◌, ◌<◌, ◌≡◌, refl, ap, ◌∙◌, ◌==◌, arith, true, false, ltb,
}
use csc369_assignments.Prelude.Int.{pos, negsuc}
use csc369_assignments.Prelude.Count.{count, count-le_self}
use csc369_assignments.Ext2.Counters.{
  Counts, difference, inode_check, block_check, inode_check_sb, inode_check_gd,
}

-- The difference of a counter that is too small, and of one that is too large.
difference-small : (n c : ℕ) → n ≤ 128 → c ≤ n → difference n c ≡ pos (n - c)
difference-small n c small le =
    let e : (n + 2 ^ 32 - c) % 2 ^ 32 ≡ n - c = omega arith in
    let low : ltb (n - c) (2 ^ 31) ≡ true = ground arith in rw (e, low) refl

difference-large : (n c : ℕ) → n < c → c < 2 ^ 31 → difference n c ≡ negsuc (c - n - 1)
difference-large n c lt small =
    let e : (n + 2 ^ 32 - c) % 2 ^ 32 ≡ n + 2 ^ 32 - c = omega arith in
    let high : ltb (n + 2 ^ 32 - c) (2 ^ 31) ≡ false = ground arith in
    let q : 2 ^ 32 - (n + 2 ^ 32 - c) - 1 ≡ c - n - 1 = omega arith in rw (e, high, q) refl

module _ (n : ℕ) (small : n ≤ 128) (m : Counts) where
  sb_run :
      m.s_free_inodes_count ≤ n
      → inode_check_sb n m
        ≡ record m { s_free_inodes_count = n; total = m.total + (n - m.s_free_inodes_count) }
  sb_run le =
      let e : (m.s_free_inodes_count + (n - m.s_free_inodes_count)) % 2 ^ 32 ≡ n = omega arith in
      rw (difference-small n m.s_free_inodes_count small le) (ground (arith, e))

  gd_run :
      m.bg_free_inodes_count ≤ n
      → inode_check_gd n m
        ≡ record m { bg_free_inodes_count = n; total = m.total + (n - m.bg_free_inodes_count) }
  gd_run le =
      let e : (m.bg_free_inodes_count + (n - m.bg_free_inodes_count)) % 2 ^ 16 ≡ n = omega arith in
      rw (difference-small n m.bg_free_inodes_count small le) (ground (arith, e))

  -- A counter that is too large is off by twice as much afterwards.
  sb_doubles :
      n < m.s_free_inodes_count
      → m.s_free_inodes_count < 2 ^ 31
      → (inode_check_sb n m).s_free_inodes_count
        ≡ m.s_free_inodes_count + (m.s_free_inodes_count - n)
  sb_doubles lt fits = rw (difference-large n m.s_free_inodes_count lt fits) (ground arith)

gd_keeps : (n : ℕ) (m : Counts) → (inode_check_gd n m).s_free_inodes_count ≡ m.s_free_inodes_count
gd_keeps n m = ground arith

-- Counters of free inodes that are not above the number of free inodes in the bitmap are set to
-- that number by `inode_check`, and what they were short by is added to the number of repairs;
-- the counters of blocks stay.
pub inode_check_lem :
    (bitmap : ℕ → ℕ) (m : Counts)
    → m.s_free_inodes_count ≤ count 32 (λ i. bitmap i == 0)
    → m.bg_free_inodes_count ≤ count 32 (λ i. bitmap i == 0)
    → inode_check bitmap m ≡ record m {
      s_free_inodes_count = count 32 (λ i. bitmap i == 0);
      bg_free_inodes_count = count 32 (λ i. bitmap i == 0);
      total =
          m.total
          + (count 32 (λ i. bitmap i == 0) - m.s_free_inodes_count)
          + (count 32 (λ i. bitmap i == 0) - m.bg_free_inodes_count);
    }
unfolding inode_check
inode_check_lem bitmap m low low' =
    let n = count 32 (λ i. bitmap i == 0) in
    let small : n ≤ 128 = omega (arith, count-le_self 32 (λ i. bitmap i == 0)) in
    let m1 : Counts = record m {
      s_free_inodes_count = n;
      total = m.total + (n - m.s_free_inodes_count);
    } in
    ap (inode_check_gd n) (sb_run n small m low) ∙ gd_run n small m1 low'

-- `inode_check` does not repair a counter of the superblock that is above the number of free
-- inodes: it leaves it off by twice as much.
inode_check-doubles :
    (bitmap : ℕ → ℕ) (m : Counts)
    → count 32 (λ i. bitmap i == 0) < m.s_free_inodes_count
    → m.s_free_inodes_count < 2 ^ 31
    → (inode_check bitmap m).s_free_inodes_count + count 32 (λ i. bitmap i == 0)
      ≡ 2 * m.s_free_inodes_count
unfolding inode_check
inode_check-doubles bitmap m lt fits =
    let n = count 32 (λ i. bitmap i == 0) in
    let small : n ≤ 128 = omega (arith, count-le_self 32 (λ i. bitmap i == 0)) in
    omega (arith, gd_keeps n (inode_check_sb n m), sb_doubles n small m lt fits)

-- `block_check` never changes a counter of free blocks, be it right or wrong.
block_check-misses :
    (bitmap : ℕ → ℕ) (m : Counts)
    → ((block_check bitmap m).s_free_blocks_count ≡ m.s_free_blocks_count)
      × ((block_check bitmap m).bg_free_blocks_count ≡ m.bg_free_blocks_count)
unfolding block_check
block_check-misses bitmap m = let n = count 128 (λ i. bitmap i == 0) in (ground arith, ground arith)
