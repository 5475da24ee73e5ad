-- ===== src/Paging/Expel.antt =====
-- A3/pagetable.c, A3/swap.c: `allocate_frame` gives up its victim.
use csc369_assignments.Prelude.{
  ℕ, ◌+◌, ◌*◌, ◌%◌, ◌^◌, ◌<◌, ◌≡◌, refl, true, false, some, ltb, update, arith, test_of_eq,
}
use csc369_assignments.Prelude.Int.{ℤ, pos}
use csc369_assignments.Prelude.Word.{
  test_bit, set_bit, clear_bit, test_bit-set_bit, test_bit-clear_bit,
}
use csc369_assignments.Swap.Bitmap.{Bitmap, bitmap_alloc}
use csc369_assignments.Paging.Machine.{
  Pte, Os, Machine, pg_valid, pg_dirty, pg_onswap, invalid_swap,
}
use csc369_assignments.Paging.Swapping.{write_page, swap_pageout}
use csc369_assignments.Paging.Table.{expel}
use csc369_assignments.Paging.Invariant.{IsReliable, is_valid, on_swap}

-- The entry of a victim that has been written to `off`.
abbrev pub swapped_out : Pte → ℤ → Pte
swapped_out e off = record {
  frame = set_bit (clear_bit e.frame pg_valid) pg_onswap;
  swap_off = off;
}

abbrev pub dropped : Pte → Pte
dropped e = record e { frame = clear_bit e.frame pg_valid }

pub bad-swapped_out : (e : Pte) (off : ℤ) → is_valid (swapped_out e off) ≡ false
bad-swapped_out e off =
    rw
      (
        test_bit-set_bit (clear_bit e.frame pg_valid) pg_onswap pg_valid,
        test_bit-clear_bit e.frame pg_valid pg_valid,
      )
      refl

pub bad-dropped : (e : Pte) → is_valid (dropped e) ≡ false
bad-dropped e = rw (test_bit-clear_bit e.frame pg_valid pg_valid) refl

pub on_swap-dropped : (e : Pte) → on_swap (dropped e) ≡ on_swap e
on_swap-dropped e = rw (test_bit-clear_bit e.frame pg_valid pg_onswap) refl

module _ (os : Os) where
  -- What giving up a frame leaves alone.
  pub record Gave (m m' : Machine os.File) : Type 0 where
    pub memsize : m'.memsize ≡ m.memsize
    pub coremap : m'.coremap ≡ m.coremap
    pub present : m'.present ≡ m.present
    pub curr_node : m'.curr_node ≡ m.curr_node
    pub others : (p : ℕ) → is_valid (m.ptes p) ≡ false → m'.ptes p ≡ m.ptes p
    pub hits : m'.hit_count ≡ m.hit_count
    pub misses : m'.miss_count ≡ m.miss_count
    pub refs : m'.ref_count ≡ m.ref_count

  module _ (reliable : IsReliable os) where
    pub write_page_run :
        (frame k : ℕ) (m : Machine os.File)
        → write_page os frame (pos k) m
          ≡ some (pos k, record m { swapfile = (os.write m.swapfile (pos k) (m.physmem frame)).1 })
    unfolding write_page
    write_page_run frame k m =
        rw
          (
            reliable.seeks m.swapfile k,
            reliable.stores m.swapfile k (m.physmem frame),
            test_of_eq k k refl,
          )
          refl

    -- The offset of a slot is not negative.
    pub swap_pageout_first :
        (frame i : ℕ) (b' : Bitmap) (m : Machine os.File)
        → bitmap_alloc m.swapmap ≡ some (some (i, b'))
        → i < 2 ^ 27
        → swap_pageout os frame invalid_swap m
          ≡ some (
            pos (i * 16),
            record m {
              swapmap = b';
              swapfile = (os.write m.swapfile (pos (i * 16)) (m.physmem frame)).1;
            },
          )
    unfolding swap_pageout
    swap_pageout_first frame i b' m found small =
        let e : i * 16 % 2 ^ 32 ≡ i * 16 = omega arith in
        let below : ltb (i * 16) (2 ^ 31) ≡ true = ground arith in
        rw (found, e, below, write_page_run frame (i * 16) (record m { swapmap = b' })) refl

    pub swap_pageout_again :
        (frame k : ℕ) (m : Machine os.File)
        → swap_pageout os frame (pos k) m
          ≡ some (pos k, record m { swapfile = (os.write m.swapfile (pos k) (m.physmem frame)).1 })
    unfolding swap_pageout
    swap_pageout_again frame k m = write_page_run frame k m

  module _ (frame v : ℕ) (m : Machine os.File) (room : frame < m.memsize)
      (owns : (m.coremap frame).pte ≡ some v) where
    inside : ltb frame m.memsize ≡ true
    inside = ground arith

    pub expel_clean :
        test_bit (m.ptes v).frame pg_dirty ≡ false
        → expel os frame m
          ≡ some (
            tt,
            record m {
              ptes = update m.ptes v (dropped (m.ptes v));
              evict_clean_count = m.evict_clean_count + 1;
            },
          )
    unfolding expel
    expel_clean clean = rw (inside, owns, clean) refl

    pub expel_dirty :
        (off : ℤ) (m' : Machine os.File)
        → test_bit (m.ptes v).frame pg_dirty ≡ true
        → swap_pageout os frame (m.ptes v).swap_off m ≡ some (off, m')
        → expel os frame m
          ≡ some (
            tt,
            record m' {
              ptes = update m'.ptes v (swapped_out (m.ptes v) off);
              evict_dirty_count = m'.evict_dirty_count + 1;
            },
          )
    unfolding expel
    expel_dirty off m' dirty out = rw (inside, owns, dirty, out) refl
