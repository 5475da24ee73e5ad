-- ===== src/Paging/Victim.antt =====
-- A3/pagetable.c: a sound simulator is sound, but for the frame, when it has given up a victim.
use csc369_assignments.Prelude.{
  ℕ, ◌+◌, ◌*◌, ◌/◌, ◌<◌, ◌≡◌, refl, ◌∙◌, true, false, some, update, arith, Bool-cases, inl, inr,
  update_ne,
}
use csc369_assignments.Prelude.Int.{pos}
use csc369_assignments.Prelude.State.{Returns, returns}
use csc369_assignments.Prelude.Word.{test_bit}
use csc369_assignments.Swap.Bitmap.{Bitmap, bitmap_alloc}
use csc369_assignments.Swap.Bitmap.Alloc.{IsAlloc, bitmap_alloc_lem}
use csc369_assignments.Paging.Machine.{Pte, Os, Machine, pg_dirty, invalid_swap}
use csc369_assignments.Paging.Swapping.{swap_pageout}
use csc369_assignments.Paging.Table.{expel}
use csc369_assignments.Paging.Invariant.{
  IsReliable, IsSound, IsSoundBut, Slots, Contents, is_valid, on_swap, home,
}
use csc369_assignments.Paging.Keep.{Slots-offsets, Absent-put}
use csc369_assignments.Paging.Place.{Frames-drop, Contents-drop}
use csc369_assignments.Paging.Slotting.{never_full, Slots-alloc, unowned, Contents-swap_out}
use csc369_assignments.Paging.Expel.{
  Gave, swapped_out, dropped, bad-swapped_out, bad-dropped, on_swap-dropped, swap_pageout_first,
  swap_pageout_again, expel_clean, expel_dirty,
}

module _ (os : Os) (reliable : IsReliable os) (pages v : ℕ) (m : Machine os.File)
    (ok : IsSound os pages m) (low : v < pages) (good : is_valid (m.ptes v) ≡ true) where
  there : m.present (v / 4096) ≡ true
  there = elim (Bool-cases (m.present (v / 4096))) [
    | inl on ↦ on
    | inr off ↦ let (bad, _, _) = ok.tables.absent v off in cc
  ]

  on_no_swap : on_swap (m.ptes v) ≡ false
  on_no_swap = elim (Bool-cases (on_swap (m.ptes v))) [
    | inr off ↦ off
    | inl on ↦ let (bad, _, _, _) = ok.contents.swapped v on in cc
  ]

  untouched : (e : Pte) (p : ℕ) → is_valid (m.ptes p) ≡ false → update m.ptes v e p ≡ m.ptes p
  untouched e p bad = update_ne m.ptes v e p (λ q. cc)

  -- The parts that do not depend on the way in which the victim goes.
  gone :
      (e : Pte) (b : Bitmap) (f : os.File) (c d : ℕ)
      → is_valid e ≡ false
      → Slots pages b (update m.ptes v e)
      → Contents os f m.physmem (update m.ptes v e)
      → IsSoundBut os pages (home (m.ptes v)) (record m {
        ptes = update m.ptes v e;
        swapmap = b;
        swapfile = f;
        evict_clean_count = c;
        evict_dirty_count = d;
      })
        × Gave os m (record m {
          ptes = update m.ptes v e;
          swapmap = b;
          swapfile = f;
          evict_clean_count = c;
          evict_dirty_count = d;
        })
  gone e b f c d bad slots contents = (
    record {
      some_memory = ok.some_memory;
      memory = ok.memory;
      hand = ok.hand;
      next = ok.next;
      frames = Frames-drop v e good bad ok.frames;
      slots = slots;
      contents = contents;
      tables = Absent-put v e there ok.tables;
    },
    record {
      memsize = refl;
      coremap = refl;
      present = refl;
      curr_node = refl;
      others = untouched e;
      hits = refl;
      misses = refl;
      refs = refl;
    },
  )

  -- The swap never runs out of slots.
  a_slot :
      (m.ptes v).swap_off ≡ invalid_swap
      → (i : ℕ) × (b' : Bitmap) × (bitmap_alloc m.swapmap ≡ some (some (i, b')))
        × IsAlloc m.swapmap i b'
  a_slot none_yet = elim (bitmap_alloc_lem m.swapmap ok.slots.map) [
    | inl (_, full) ↦ absurd (never_full ok.slots v low none_yet full)
    | inr found ↦ found
  ]

  -- The swap file with the page in slot `k`.
  abbrev written : ℕ → os.File
  written k = (os.write m.swapfile (pos (k * 16)) (m.physmem (home (m.ptes v)))).1

  abbrev After : Machine os.File → Type 0
  After m' = IsSoundBut os pages (home (m.ptes v)) m' × Gave os m m'

  -- In a sound simulator, giving up the frame of a resident page returns, whether the page is clean,
  -- is written to swap for the first time, or has a slot already: a slot is always found, and the
  -- simulator stays sound but for that frame. Only the victim's entry changes, no other frame does.
  pub expel_lem :
      home (m.ptes v) < m.memsize
      → (m.coremap (home (m.ptes v))).pte ≡ some v
      → Returns (λ _ m'. After m') (expel os (home (m.ptes v)) m)
  expel_lem room owns =
      let right = ok.contents.resident v good in
      elim (Bool-cases (test_bit (m.ptes v).frame pg_dirty)) [
        | inr clean ↦
            let e = dropped (m.ptes v) in
            rw (expel_clean os (home (m.ptes v)) v m room owns clean) (
              returns (
                gone e m.swapmap m.swapfile (m.evict_clean_count + 1) m.evict_dirty_count
                  (bad-dropped (m.ptes v))
                  (Slots-offsets m.ptes (update m.ptes v e) (λ u. ground arith) ok.slots)
                  (Contents-drop v e (bad-dropped (m.ptes v))
                    (on_swap-dropped (m.ptes v) ∙ on_no_swap) ok.contents)))
        | inl dirty ↦ elim (ok.slots.slot v) [
          | inl none_yet ↦
              let (i, b', found, al) = a_slot none_yet in
              let e = swapped_out (m.ptes v) (pos (i * 16)) in
              let m' : Machine os.File = record m { swapmap = b'; swapfile = written i } in
              let out : swap_pageout os (home (m.ptes v)) (m.ptes v).swap_off m
                  ≡ some (pos (i * 16), m') =
                rw none_yet (
                  swap_pageout_first os reliable (home (m.ptes v)) i b' m found
                    (omega (arith, al.inside, ok.slots.small))) in
              rw (expel_dirty os (home (m.ptes v)) v m room owns (pos (i * 16)) m' dirty out) (
                returns (
                  gone e b' (written i) m.evict_clean_count (m.evict_dirty_count + 1)
                    (bad-swapped_out (m.ptes v) (pos (i * 16)))
                    (Slots-alloc ok.slots v i b' e low none_yet al refl)
                    (Contents-swap_out reliable v i e (m.physmem (home (m.ptes v)))
                      (bad-swapped_out (m.ptes v) (pos (i * 16))) refl right
                      (λ u ne. unowned ok.slots i u al.was_free) ok.contents)))
          | inr (k, lt, taken, off) ↦
              let e = swapped_out (m.ptes v) (pos (k * 16)) in
              let m' : Machine os.File = record m { swapfile = written k } in
              let out : swap_pageout os (home (m.ptes v)) (m.ptes v).swap_off m
                  ≡ some (pos (k * 16), m') =
                rw off (swap_pageout_again os reliable (home (m.ptes v)) (k * 16) m) in
              rw (expel_dirty os (home (m.ptes v)) v m room owns (pos (k * 16)) m' dirty out) (
                returns (
                  gone e m.swapmap (written k) m.evict_clean_count (m.evict_dirty_count + 1)
                    (bad-swapped_out (m.ptes v) (pos (k * 16)))
                    (Slots-offsets m.ptes (update m.ptes v e) (λ u. ground arith) ok.slots)
                    (Contents-swap_out reliable v k e (m.physmem (home (m.ptes v)))
                      (bad-swapped_out (m.ptes v) (pos (k * 16))) refl right
                      (λ u ne q. ne (ok.slots.own v u (k * 16) off q)) ok.contents)))
        ]
      ]
