-- ===== src/Paging/Optimal/Keep.antt =====
-- A3/pagetable.c, A3/swap.c: `find_physpage` touches the frames only where it takes one.
use csc369_assignments.Prelude.{
  ℕ, ◌<◌, ◌≡◌, refl, ◌∙◌, true, Option, none, some, not, ltb, ◌%◌, ◌*◌, ◌^◌, arith, Bool-cases,
  Option-cases, inl, inr,
}
use csc369_assignments.Prelude.Int.{ℤ, negsuc, signed32, eqb_ℤ}
use csc369_assignments.Prelude.Word.{test_bit}
use csc369_assignments.Prelude.State.{
  Cmd, deref, and_then, Sure, crashes, gives, sure_bind, sure_mono, sure_if,
}
use csc369_assignments.Swap.Bitmap.{Bitmap, bitmap_alloc}
use csc369_assignments.Paging.Machine.{Os, Machine, core, invalid_swap, pg_dirty}
use csc369_assignments.Paging.Swapping.{simpagesize, write_page, swap_pageout, swap_pagein}
use csc369_assignments.Paging.Expel.{expel_clean, expel_dirty}
use csc369_assignments.Paging.Table.{expel}

module _ {File : Type 0} where
  -- The frames, their number and the references to come are the same.
  abbrev pub View : Machine File → Machine File → Type 0
  View m m' = (m'.memsize ≡ m.memsize) × (m'.coremap ≡ m.coremap) × (m'.curr_node ≡ m.curr_node)

  pub View-refl : (m : Machine File) → View m m
  View-refl m = (refl, refl, refl)

  pub View-trans : (m m1 m2 : Machine File) → View m m1 → View m1 m2 → View m m2
  View-trans m m1 m2 (a, b, c) (a', b', c') = (a' ∙ a, b' ∙ b, c' ∙ c)

  -- A command that leaves the frames, and one behind it.
  pub then-View :
      {A B : Type 0} {r : Option (A × Machine File)} {k : A → Cmd (Machine File) B}
      (m : Machine File)
      → Sure (λ _ m'. View m m') r
      → ((a : A) (m1 : Machine File) → Sure (λ _ m'. View m1 m') (k a m1))
      → Sure (λ _ m'. View m m') (and_then r k)
  then-View m first next =
      sure_bind first (λ a m1 v. sure_mono (next a m1) (λ b m2 v'. View-trans m m1 m2 v v'))

  core-View : (i : ℕ) (m : Machine File) → Sure (λ _ m'. View m m') (core i m)
  core-View i m = sure_if (ltb i m.memsize) (gives (View-refl m)) crashes

  deref-View : {A : Type 0} (p : Option A) (m : Machine File) → Sure (λ _ m'. View m m') (deref p m)
  deref-View none m = crashes
  deref-View (some a) m = gives (View-refl m)

module _ (os : Os) where
  write_page-View :
      (frame : ℕ) (off : ℤ) (m : Machine os.File)
      → Sure (λ _ m'. View m m') (write_page os frame off m)
  unfolding write_page
  write_page-View frame off m =
      let at = os.lseek m.swapfile off in
      sure_if (eqb_ℤ off invalid_swap) crashes (
        sure_if (not (eqb_ℤ at off)) (sure_if (eqb_ℤ at (negsuc 0)) (gives (View-refl m)) crashes)
          (gives (refl, refl, refl)))

  pub swap_pagein-View :
      (frame : ℕ) (off : ℤ) (m : Machine os.File)
      → Sure (λ _ m'. View m m') (swap_pagein os frame off m)
  unfolding swap_pagein
  swap_pagein-View frame off m =
      let at = os.lseek m.swapfile off in
      sure_if (eqb_ℤ off invalid_swap) crashes (
        sure_if (not (eqb_ℤ at off)) (sure_if (eqb_ℤ at (negsuc 0)) (gives (View-refl m)) crashes)
          (gives (refl, refl, refl)))

  slot_then_write :
      (frame : ℕ) (m : Machine os.File) (found : Option (Option (ℕ × Bitmap)))
      → Sure
          (λ _ m'. View m m')
          (elim found [
            | none ↦ none
            | some none ↦ some (invalid_swap, m)
            | some (some (idx, b)) ↦
                write_page os frame
                  (signed32 (idx * simpagesize % 2 ^ 32))
                  (record m { swapmap = b })
          ])
  slot_then_write frame m none = crashes
  slot_then_write frame m (some none) = gives (View-refl m)
  slot_then_write frame m (some (some (idx, b))) =
      write_page-View frame (signed32 (idx * simpagesize % 2 ^ 32)) (record m { swapmap = b })

  swap_pageout-View :
      (frame : ℕ) (off : ℤ) (m : Machine os.File)
      → Sure (λ _ m'. View m m') (swap_pageout os frame off m)
  unfolding swap_pageout
  swap_pageout-View frame off m =
      sure_if (eqb_ℤ off invalid_swap) (slot_then_write frame m (bitmap_alloc m.swapmap))
        (write_page-View frame off m)

  written_out :
      (frame v : ℕ) (m : Machine os.File) (r : Option (ℤ × Machine os.File))
      → frame < m.memsize
      → (m.coremap frame).pte ≡ some v
      → test_bit (m.ptes v).frame pg_dirty ≡ true
      → swap_pageout os frame (m.ptes v).swap_off m ≡ r
      → Sure (λ _ m'. View m m') r
      → Sure (λ _ m'. View m m') (expel os frame m)
  unfolding expel
  written_out frame v m none room owns dirty out view =
      let inside : ltb frame m.memsize ≡ true = ground arith in
      rw (inside, owns, dirty, out) crashes
  written_out frame v m (some (off, m')) room owns dirty out (gives view) =
      rw (expel_dirty os frame v m room owns off m' dirty out) (gives view)

  pub expel-View : (frame : ℕ) (m : Machine os.File) → Sure (λ _ m'. View m m') (expel os frame m)
  unfolding expel
  expel-View frame m = elim (Bool-cases (ltb frame m.memsize)) [
    | inr outside ↦ rw outside crashes
    | inl inside ↦
        let room : frame < m.memsize = ground arith in
        elim (Option-cases (m.coremap frame).pte) [
          | inl unowned ↦ rw (inside, unowned) crashes
          | inr (v, owns) ↦ elim (Bool-cases (test_bit (m.ptes v).frame pg_dirty)) [
            | inr clean ↦ rw (expel_clean os frame v m room owns clean) (gives (refl, refl, refl))
            | inl dirty ↦
                written_out frame v m _ room owns dirty refl
                  (swap_pageout-View frame (m.ptes v).swap_off m)
          ]
        ]
  ]
