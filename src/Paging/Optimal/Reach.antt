-- ===== src/Paging/Optimal/Reach.antt =====
-- A3/pagetable.c, A3/opt.c: an access takes one reference off the list and keeps the distances true.
use csc369_assignments.Prelude.{
  ℕ, ◌∷◌, ◌+◌, ◌/◌, if◌then◌else◌, ◌<◌, ◌≡◌, refl, ap, ◌∙◌, true, Option, none, some, List, length,
  ltb, ◌==◌, arith, update, Bool-cases, Option-cases, List-cases, inl, inr,
}
use csc369_assignments.Prelude.Int.{ℤ}
use csc369_assignments.Prelude.State.{
  Returns, Sure, crashes, gives, mono, sure_bind, surely, and_then, ◌>>◌,
}
use csc369_assignments.Prelude.Word.{test_bit}
use csc369_assignments.Paging.Machine.{Os, Machine, Frame, Page, put_pte, pg_onswap, pg_valid}
use csc369_assignments.Paging.Policies.{opt, evict_fcn, opt_evict, opt_ref, ref_fcn}
use csc369_assignments.Paging.Swapping.{swap_pagein}
use csc369_assignments.Paging.Table.{
  find_free, choose_frame, allocate_frame, load_page, locate, touch, find_physpage, init_frame,
  init_second_level, pgdir_index, ptrs_per_pgdir, ptrs_per_pgtbl, blank_pte, page_of, put_vaddr,
  touched, is_write,
}
use csc369_assignments.Paging.Sim.{access_mem}
use csc369_assignments.Paging.Policy.{opt_ref_run}
use csc369_assignments.Paging.Load.{filled, read_in}
use csc369_assignments.Paging.Allocate.{find_free-some, find_free-none}
use csc369_assignments.Paging.Optimal.Farthest.{opt_evict_lem}
use csc369_assignments.Paging.Optimal.Keep.{View, expel-View, swap_pagein-View}
use csc369_assignments.Paging.Optimal.Foresight.{
  IsForesight, IsForesight-View, IsForesight-retake, IsForesight-nearer, IsOpen, IsOpen-View,
}

module _ (os : Os) {nodes : List ℕ} where
  evicted :
      (m : Machine os.File)
      → ((j : ℕ) → j < m.memsize → (m.coremap j).in_use ≡ true)
      → 0 < length m.curr_node
      → IsForesight nodes m
      → Returns (IsOpen nodes) (opt_evict m)
  evicted m used left fs =
      mono
        (opt_evict_lem m fs.some_memory left (omega (arith, ap length fs.to_come, fs.short))
          fs.foreseen)
        (λ f m' (lt, _, (memsize, _, same, kept), fs', forgotten). (
          record {
            some_memory = omega (arith, fs.some_memory);
            to_come = kept ∙ fs.to_come;
            short = fs.short;
            foreseen = fs';
            unused = λ j below none_yet. let on = same j ∙ used j (omega arith) in absurd (cc);
          },
          omega arith,
          forgotten,
        ))

  choose_frame-IsOpen :
      (m : Machine os.File)
      → 0 < length m.curr_node
      → IsForesight nodes m
      → Sure (IsOpen nodes) (choose_frame os opt m)
  unfolding choose_frame evict_fcn
  choose_frame-IsOpen m left fs = elim (Option-cases (find_free m.memsize 0 m.coremap)) [
    | inr (i, found) ↦
        let (_, lt, free) = find_free-some m.memsize 0 i m.coremap found in
        rw (found, choose_frame) (gives (fs, omega arith, fs.unused i (omega arith) free))
    | inl full ↦
        let used = λ (j : ℕ) (lt : j < m.memsize).
          find_free-none m.memsize 0 m.coremap full j (omega arith) (omega arith) in
        rw (full, choose_frame)
          (sure_bind (surely (evicted m used left fs)) (λ f m1 room.
            sure_bind (expel-View os f m1) (λ _ m2 v. gives (IsOpen-View f m1 m2 v room))))
  ]

  allocate_frame-IsOpen :
      (p : ℕ) (m : Machine os.File)
      → 0 < length m.curr_node
      → IsForesight nodes m
      → Sure (IsOpen nodes) (allocate_frame os opt p m)
  unfolding allocate_frame
  allocate_frame-IsOpen p m left fs =
      sure_bind (choose_frame-IsOpen m left fs) (λ f m1 (fs1, lt, forgotten).
        let inside : ltb f m1.memsize ≡ true = ground arith in
        let c : Frame = record (m1.coremap f) { in_use = true; pte = some p } in
        rw (inside, inside) (gives (IsForesight-retake m1 f c fs1 forgotten, lt, ground arith)))

  -- A page gets its address into its frame.
  IsForesight-named :
      (f a : ℕ) (m : Machine os.File)
      → IsOpen nodes f m
      → IsForesight nodes
          (record m { coremap = update m.coremap f (record (m.coremap f) { vaddr = a }) })
  IsForesight-named f a m (fs, lt, forgotten) =
      IsForesight-retake m f (record (m.coremap f) { vaddr = a }) fs forgotten

  read_then :
      (p f a : ℕ) (m : Machine os.File) (r : Option (ℤ × Machine os.File))
      → IsOpen nodes f m
      → Sure (λ _ m'. View m m') r
      → Sure
          (λ _ m'. IsForesight nodes m')
          (and_then r (λ _. put_pte p (read_in (m.ptes p) f) >> put_vaddr os f a))
  read_then p f a m none room v = crashes
  read_then p f a m (some (x, m')) room (gives v) =
      let (fs, lt, forgotten) = IsOpen-View f m m' v room in
      let inside : ltb f m'.memsize ≡ true = ground arith in
      let m2 : Machine os.File = record m' { ptes = update m'.ptes p (read_in (m.ptes p) f) } in
      rw (inside, inside)
        (gives
          (IsForesight-named f a m2 (IsForesight-View m' m2 (refl, refl, refl) fs, lt, forgotten)))

  load_page-IsForesight :
      (p a : ℕ) (m : Machine os.File)
      → 0 < length m.curr_node
      → IsForesight nodes m
      → Sure (λ _ m'. IsForesight nodes m') (load_page os opt p a m)
  unfolding load_page init_frame
  load_page-IsForesight p a m left fs =
      sure_bind (allocate_frame-IsOpen p m left fs) (λ f m1 (fs1, lt, forgotten).
        let inside : ltb f m1.memsize ≡ true = ground arith in
        elim (Bool-cases (test_bit (m1.ptes p).frame pg_onswap)) [
          | inr off ↦
              let g : Page = record { version = 0; vaddr = a } in
              let m2 : Machine os.File = record m1 {
                physmem = update m1.physmem f g;
                ptes = update m1.ptes p (filled (m1.ptes p) f);
              } in
              rw (off, inside, inside)
                (gives (
                  IsForesight-named f a m2
                    (IsForesight-View m1 m2 (refl, refl, refl) fs1, lt, forgotten)))
          | inl on ↦ rw on (
              read_then p f a m1 (swap_pagein os f (m1.ptes p).swap_off m1) (fs1, lt, forgotten)
                (swap_pagein-View os f (m1.ptes p).swap_off m1))
        ])

  locate-IsForesight :
      (p a : ℕ) (m : Machine os.File)
      → 0 < length m.curr_node
      → IsForesight nodes m
      → Sure (λ _ m'. IsForesight nodes m') (locate os opt p a m)
  unfolding locate
  locate-IsForesight p a m left fs = elim (Bool-cases (test_bit (m.ptes p).frame pg_valid)) [
    | inl good ↦ rw good (
        gives (IsForesight-View m (record m { hit_count = m.hit_count + 1 }) (refl, refl, refl) fs))
    | inr bad ↦
        let m0 : Machine os.File = record m { miss_count = m.miss_count + 1 } in
        rw bad (load_page-IsForesight p a m0 left (IsForesight-View m m0 (refl, refl, refl) fs))
  ]

module _ (os : Os) (b : ℕ) (nodes : List ℕ) where
  touch-IsForesight :
      (p type : ℕ) (m : Machine os.File)
      → IsForesight (b ∷ nodes) m
      → Sure (λ _ m'. IsForesight nodes m') (touch os opt p type m)
  unfolding touch ref_fcn opt_ref
  touch-IsForesight p type m fs = elim (List-cases m.curr_node) [
    | inl e ↦ rw (e, opt_ref) crashes
    | inr (a, rest, e) ↦
        let m2 : Machine os.File = record m {
          ptes =
              update m.ptes p
                (record (m.ptes p) { frame = touched (is_write type) (m.ptes p).frame });
          ref_count = m.ref_count + 1;
        } in
        let fs2 = IsForesight-View m m2 (refl, refl, refl) fs in
        rw (opt_ref_run p a rest m2 e) (gives (IsForesight-nearer m2 a b rest nodes e fs2))
  ]

  find_physpage-IsForesight :
      (vaddr type : ℕ) (m : Machine os.File)
      → IsForesight (b ∷ nodes) m
      → Sure (λ _ m'. IsForesight nodes m') (find_physpage os opt vaddr type m)
  unfolding find_physpage init_second_level
  find_physpage-IsForesight vaddr type m fs =
      let left : 0 < length m.curr_node = omega (arith, ap length fs.to_come) in
      let idx = pgdir_index vaddr in
      elim (Bool-cases (ltb idx ptrs_per_pgdir)) [
        | inr outside ↦ rw outside crashes
        | inl inside ↦ elim (Bool-cases (m.present idx)) [
          | inl there ↦
              rw (inside, there)
                (sure_bind (locate-IsForesight os (page_of vaddr) vaddr m left fs)
                  (λ _ m1 fs1. touch-IsForesight (page_of vaddr) type m1 fs1))
          | inr none_yet ↦ elim (Bool-cases (os.posix_memalign idx == 0)) [
            | inr full ↦ rw (inside, none_yet, full) crashes
            | inl memory ↦
                let m0 : Machine os.File = record m {
                  present = update m.present idx true;
                  ptes = λ v. if v / ptrs_per_pgtbl == idx then blank_pte else m.ptes v;
                } in
                rw (inside, none_yet, memory)
                  (sure_bind
                    (locate-IsForesight os (page_of vaddr) vaddr m0 left
                      (IsForesight-View m m0 (refl, refl, refl) fs))
                    (λ _ m1 fs1. touch-IsForesight (page_of vaddr) type m1 fs1))
          ]
        ]
      ]

  pub accessed :
      (type vaddr : ℕ) (m : Machine os.File)
      → IsForesight (b ∷ nodes) m
      → Sure (λ _ m'. IsForesight nodes m') (access_mem os opt type vaddr m)
  unfolding access_mem
  accessed type vaddr m fs =
      sure_bind (find_physpage-IsForesight vaddr type m fs)
        (λ f m1 fs1. gives (IsForesight-View m1 _ (refl, refl, refl) fs1))
