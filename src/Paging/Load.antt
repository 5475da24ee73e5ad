-- ===== src/Paging/Load.antt =====
-- A3/pagetable.c: `find_physpage` on a miss loads the page into a frame.
use csc369_assignments.Prelude.{
  ℕ, ◌*◌, ◌^◌, ◌<◌, ◌≡◌, refl, sym, ap, ◌∙◌, true, false, some, ltb, arith, Bool-cases, inl, inr,
  update, update_self, test_of_eq,
}
use csc369_assignments.Prelude.Int.{pos}
use csc369_assignments.Prelude.State.{Returns, returns, bind}
use csc369_assignments.Prelude.Word.{
  test_bit, set_bit, clear_bit, test_bit-set_bit, test_bit-clear_bit,
}
use csc369_assignments.Paging.Machine.{
  Page, Pte, Os, Machine, Frame, pg_valid, pg_dirty, pg_onswap, frame_bits, page_size,
}
use csc369_assignments.Paging.Words.{
  number-set_bit, number-clear_bit, number-frame_bits, test_bit-frame_bits,
}
use csc369_assignments.Paging.Swapping.{swap_pagein}
use csc369_assignments.Paging.Policies.{Algorithm}
use csc369_assignments.Paging.Table.{load_page, init_frame}
use csc369_assignments.Paging.Invariant.{
  IsReliable, IsSound, IsSoundBut, is_valid, on_swap, home, Alike,
}
use csc369_assignments.Paging.Keep.{
  Alike-update, Slots-alike, Absent-alike, Contents-alike, Frames-alike,
}
use csc369_assignments.Paging.Place.{Frames-put_core, Contents-put_page}
use csc369_assignments.Paging.Policy.{Foresees}
use csc369_assignments.Paging.Allocate.{Kept, IsTaken, allocate_frame_lem}

-- The entry of a page that has been filled with zeroes, or read from swap.
abbrev pub filled : Pte → ℕ → Pte
filled e f = record e { frame = set_bit (frame_bits f) pg_dirty }

abbrev pub read_in : Pte → ℕ → Pte
read_in e f = record e { frame = clear_bit (clear_bit (frame_bits f) pg_dirty) pg_onswap }

module _ (e : Pte) (f : ℕ) (small : f < 2 ^ 20) where
  flag : (k : ℕ) → k < 4 → test_bit (frame_bits f) k ≡ false
  flag k lt = test_bit-frame_bits f k small lt

  bad-filled : is_valid (filled e f) ≡ false
  bad-filled = rw (test_bit-set_bit (frame_bits f) pg_dirty pg_valid) (flag pg_valid (omega arith))

  off-filled : on_swap (filled e f) ≡ false
  off-filled =
      rw (test_bit-set_bit (frame_bits f) pg_dirty pg_onswap) (flag pg_onswap (omega arith))

  home-filled : home (filled e f) ≡ f
  home-filled = number-set_bit (frame_bits f) pg_dirty (omega arith) ∙ number-frame_bits f small

  bad-read_in : is_valid (read_in e f) ≡ false
  bad-read_in =
      rw
        (
          test_bit-clear_bit (clear_bit (frame_bits f) pg_dirty) pg_onswap pg_valid,
          test_bit-clear_bit (frame_bits f) pg_dirty pg_valid,
        )
        (flag pg_valid (omega arith))

  off-read_in : on_swap (read_in e f) ≡ false
  off-read_in = rw (test_bit-clear_bit (clear_bit (frame_bits f) pg_dirty) pg_onswap pg_onswap) refl

  home-read_in : home (read_in e f) ≡ f
  home-read_in =
      number-clear_bit (clear_bit (frame_bits f) pg_dirty) pg_onswap (omega arith)
      ∙ (number-clear_bit (frame_bits f) pg_dirty (omega arith) ∙ number-frame_bits f small)

module _ (os : Os) (pages : ℕ) where
  -- The page `p` lies in frame `f`, but its entry is not valid yet.
  pub record IsLoaded (p : ℕ) (m : Machine os.File) (f : ℕ) (m' : Machine os.File) : Type 0 where
    pub room : f < m'.memsize
    pub but : IsSoundBut os pages f m'
    pub in_use : (m'.coremap f).in_use ≡ true
    pub page : (m'.coremap f).pte ≡ some p
    pub number : home (m'.ptes p) ≡ f
    pub bad : is_valid (m'.ptes p) ≡ false
    pub off : on_swap (m'.ptes p) ≡ false
    pub right : (m'.physmem f).vaddr ≡ p * page_size
    pub kept : Kept os m m'

  module _ (p f : ℕ) (m m' : Machine os.File) (e : Pte) (g : Page)
      (taken : IsTaken os pages p m f m') (bad : is_valid (m'.ptes p) ≡ false) where
    abbrev loaded : Machine os.File
    loaded = record m' {
      physmem = update m'.physmem f g;
      ptes = update m'.ptes p e;
      coremap = update m'.coremap f (record (m'.coremap f) { vaddr = p * page_size });
    }

    IsLoaded-loaded :
        is_valid e ≡ false
        → on_swap e ≡ false
        → e.swap_off ≡ (m'.ptes p).swap_off
        → home e ≡ f
        → g.vaddr ≡ p * page_size
        → IsLoaded p m f loaded
    IsLoaded-loaded no_frame no_swap same number right =
        let c : Frame = record (m'.coremap f) { vaddr = p * page_size } in
        let alike : Alike m'.ptes (update m'.ptes p e) =
          Alike-update m'.ptes p e (no_frame ∙ sym bad) (λ h. cc) same (λ h. cc) in
        let frames = taken.but.frames in
        record {
          room = taken.room;
          but = record {
            some_memory = taken.but.some_memory;
            memory = taken.but.memory;
            hand = taken.but.hand;
            next = taken.but.next;
            frames = Frames-put_core c (
                Frames-alike m'.ptes (update m'.ptes p e) alike m'.coremap m'.coremap (λ i. refl)
                  (λ i. refl) frames);
            slots = Slots-alike m'.ptes (update m'.ptes p e) alike taken.but.slots;
            contents = Contents-alike m'.ptes (update m'.ptes p e) alike (
                Contents-put_page f g (λ v h. let (_, ne, _, _) = frames.placed v h in ne)
                  taken.but.contents);
            tables = Absent-alike m'.ptes (update m'.ptes p e) alike taken.but.tables;
          };
          in_use = ap (λ x. x.in_use) (update_self m'.coremap f c) ∙ taken.in_use;
          page = ap (λ x. x.pte) (update_self m'.coremap f c) ∙ taken.page;
          number = ap home (update_self m'.ptes p e) ∙ number;
          bad = ap is_valid (update_self m'.ptes p e) ∙ no_frame;
          off = ap on_swap (update_self m'.ptes p e) ∙ no_swap;
          right = ap (λ x. x.vaddr) (update_self m'.physmem f g) ∙ right;
          kept = record {
            memsize = taken.kept.memsize;
            present = taken.kept.present;
            nodes = taken.kept.nodes;
            out = λ q h. alike.valid q ∙ taken.kept.out q h;
            hits = taken.kept.hits;
            misses = taken.kept.misses;
            refs = taken.kept.refs;
          };
        }

  swap_pagein_run :
      IsReliable os
      → (f k : ℕ) (m : Machine os.File) → (os.read m.swapfile (pos k) (m.physmem f)).0 ≡ pos 16
      → swap_pagein os f (pos k) m
        ≡ some (
          pos 0,
          record m { physmem = update m.physmem f (os.read m.swapfile (pos k) (m.physmem f)).1 },
        )
  unfolding swap_pagein
  swap_pagein_run reliable f k m all =
      rw (reliable.seeks m.swapfile k, all, test_of_eq k k refl) refl

  module _ (reliable : IsReliable os) (alg : Algorithm) (p : ℕ) (m : Machine os.File) where
    pub load_page_lem :
        IsSound os pages m
        → Foresees alg 1 m
        → is_valid (m.ptes p) ≡ false
        → Returns (λ _ m'. (f : ℕ) × IsLoaded p m f m') (load_page os alg p (p * page_size) m)
    unfolding load_page init_frame
    load_page_lem ok h bad = bind (allocate_frame_lem os reliable pages alg p m ok h) (λ f m' taken.
        let out = taken.kept.out p bad in
        let e = m'.ptes p in
        let small : f < 2 ^ 20 = omega (arith, taken.room, taken.but.memory) in
        let inside : ltb f m'.memsize ≡ true = ground (arith, taken.room) in
        elim (Bool-cases (on_swap e)) [
          | inr off ↦
              let g : Page = record { version = 0; vaddr = p * page_size } in
              rw (off, inside, inside)
                (returns (
                  f,
                  IsLoaded-loaded p f m m' (filled e f) g taken out (bad-filled e f small)
                      (off-filled e f small) refl (home-filled e f small) refl,
                ))
          | inl on ↦
              let (_, k, at, back) = taken.but.contents.swapped p on in
              let (all, right) = back (m'.physmem f) in
              let g = (os.read m'.swapfile (pos (k * 16)) (m'.physmem f)).1 in
              let run : swap_pagein os f e.swap_off m'
                  ≡ some (pos 0, record m' { physmem = update m'.physmem f g }) =
                rw at (swap_pagein_run reliable f (k * 16) m' all) in
              rw (on, run, inside, inside)
                (returns (
                  f,
                  IsLoaded-loaded p f m m' (read_in e f) g taken out (bad-read_in e f small)
                      (off-read_in e f small) refl (home-read_in e f small) right,
                ))
        ])
