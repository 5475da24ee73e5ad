-- ===== src/Paging/Allocate.antt =====
-- A3/pagetable.c: `allocate_frame` finds a frame, and the page that had it is gone.
use csc369_assignments.Prelude.{
  ℕ, zero, suc, ◌+◌, ◌≤◌, ◌<◌, ◌≡◌, refl, ap, ◌∙◌, true, false, none, some, length, ltb, ◌==◌,
  arith, Bool-cases, Option-cases, inl, inr, update, update_self,
}
use csc369_assignments.Prelude.State.{Returns, returns, bind, pure, ◌>>◌}
use csc369_assignments.Paging.Machine.{Os, Machine, Frame}
use csc369_assignments.Paging.Policies.{Algorithm}
use csc369_assignments.Paging.Table.{find_free, expel, choose_frame, allocate_frame}
use csc369_assignments.Paging.Invariant.{IsReliable, IsSound, IsSoundBut, is_valid}
use csc369_assignments.Paging.Place.{Frames-free, Frames-put_core}
use csc369_assignments.Paging.Expel.{Gave}
use csc369_assignments.Paging.Victim.{expel_lem}
use csc369_assignments.Paging.Steady.{Steady, IsSound-Steady}
use csc369_assignments.Paging.Policy.{Foresees, evict_lem}

pub find_free-some :
    (rounds i j : ℕ) (coremap : ℕ → Frame)
    → find_free rounds i coremap ≡ some j
    → (i ≤ j) × (j < i + rounds) × ((coremap j).in_use ≡ false)
unfolding find_free
find_free-some zero i j coremap e = cc
find_free-some (suc rounds) i j coremap e = elim (Bool-cases (coremap i).in_use) [
  | inl used ↦
      let (lo, hi, free) = find_free-some rounds (suc i) j coremap (rw used at e) in
      (omega arith, omega arith, free)
  | inr free ↦ ground arith
]

pub find_free-none :
    (rounds i : ℕ) (coremap : ℕ → Frame)
    → find_free rounds i coremap ≡ none
    → (j : ℕ) → i ≤ j
    → j < i + rounds
    → (coremap j).in_use ≡ true
unfolding find_free
find_free-none zero i coremap e j lo hi = absurd (omega arith)
find_free-none (suc rounds) i coremap e j lo hi = elim (Bool-cases (coremap i).in_use) [
  | inr free ↦ absurd (ground arith)
  | inl used ↦ elim (Bool-cases (i == j)) [
    | inl same ↦ ground arith
    | inr other ↦
        find_free-none rounds (suc i) coremap (rw used at e) j (ground arith) (omega arith)
  ]
]

module _ (os : Os) where
  -- What finding a frame leaves alone.
  pub record Kept (m m' : Machine os.File) : Type 0 where
    pub memsize : m'.memsize ≡ m.memsize
    pub present : m'.present ≡ m.present
    pub nodes : length m.curr_node ≤ length m'.curr_node
    pub out : (p : ℕ) → is_valid (m.ptes p) ≡ false → is_valid (m'.ptes p) ≡ false
    pub hits : m'.hit_count ≡ m.hit_count
    pub misses : m'.miss_count ≡ m.miss_count
    pub refs : m'.ref_count ≡ m.ref_count

  Kept-refl : (m : Machine os.File) → Kept m m
  Kept-refl m = record {
    memsize = refl;
    present = refl;
    nodes = omega arith;
    out = λ p h. h;
    hits = refl;
    misses = refl;
    refs = refl;
  }

  Kept-Gave : (m m1 m2 : Machine os.File) → Steady 0 m m1 → Gave os m1 m2 → Kept m m2
  Kept-Gave m m1 m2 s g = record {
    memsize = g.memsize ∙ s.memsize;
    present = g.present ∙ s.present;
    nodes = omega (arith, s.nodes, ap length g.curr_node);
    out = λ p h.
        let bad : is_valid (m1.ptes p) ≡ false = s.alike.valid p ∙ h in
        ap is_valid (g.others p bad) ∙ bad;
    hits = g.hits ∙ s.hits;
    misses = g.misses ∙ s.misses;
    refs = g.refs ∙ s.refs;
  }

  -- The frame is taken for page `p`.
  pub record IsTaken (pages p : ℕ) (m : Machine os.File) (f : ℕ) (m' : Machine os.File)
      : Type 0 where
    pub room : f < m'.memsize
    pub but : IsSoundBut os pages f m'
    pub in_use : (m'.coremap f).in_use ≡ true
    pub page : (m'.coremap f).pte ≡ some p
    pub kept : Kept m m'

  module _ (reliable : IsReliable os) (pages : ℕ) (alg : Algorithm) where
    abbrev Chosen : Machine os.File → ℕ → Machine os.File → Type 0
    Chosen m f m' = (f < m'.memsize) × IsSoundBut os pages f m' × Kept m m'

    -- A free frame is set aside.
    set_aside :
        (m : Machine os.File) (i : ℕ)
        → IsSound os pages m
        → (m.coremap i).in_use ≡ false
        → IsSoundBut os pages i m
    set_aside m i ok free = record {
      some_memory = ok.some_memory;
      memory = ok.memory;
      hand = ok.hand;
      next = ok.next;
      frames = Frames-free i free ok.frames;
      slots = ok.slots;
      contents = ok.contents;
      tables = ok.tables;
    }

    -- The victim goes, on whichever of its ways.
    given_up :
        (m m1 : Machine os.File) (f : ℕ)
        → IsSound os pages m1
        → ((i : ℕ) → i < m1.memsize → (m1.coremap i).in_use ≡ true)
        → Steady 0 m m1
        → f < m1.memsize
        → Returns (Chosen m) ((expel os f >> pure f) m1)
    given_up m m1 f ok used s lt =
        let (v, low, owns, good, at) = ok.frames.owner f lt (λ q. omega arith) (used f lt) in
        let run = expel_lem os reliable pages v m1 ok low good (rw at lt) (rw at owns) in
        bind (rw at at run) (λ _ m2 (but, g). returns (rw g.memsize lt, but, Kept-Gave m m1 m2 s g))

    choose_frame_lem :
        (m : Machine os.File)
        → IsSound os pages m
        → Foresees alg 1 m
        → Returns (Chosen m) (choose_frame os alg m)
    unfolding choose_frame
    choose_frame_lem m ok h = elim (Option-cases (find_free m.memsize 0 m.coremap)) [
      | inr (i, found) ↦
          let (_, lt, free) = find_free-some m.memsize 0 i m.coremap found in
          rw (found, choose_frame) (returns (omega arith, set_aside m i ok free, Kept-refl m))
      | inl full ↦
          let used : (i : ℕ) → i < m.memsize → (m.coremap i).in_use ≡ true =
            λ i lt. find_free-none m.memsize 0 m.coremap full i (omega arith) (omega arith) in
          rw (full, choose_frame)
            (bind (evict_lem os pages alg m ok used h) (λ f m1 (lt, s).
              given_up m m1 f (IsSound-Steady os pages 0 m m1 s ok)
                (λ i below. s.used i ∙ used i (omega (arith, s.memsize))) s
                (omega (arith, s.memsize))))
    ]

    take :
        (p f : ℕ) (m m' : Machine os.File) (c : Frame)
        → c.in_use ≡ true
        → c.pte ≡ some p
        → Chosen m f m'
        → IsTaken pages p m f (record m' { coremap = update m'.coremap f c })
    take p f m m' c used page (lt, but, kept) = record {
      room = lt;
      but = record {
        some_memory = but.some_memory;
        memory = but.memory;
        hand = but.hand;
        next = but.next;
        frames = Frames-put_core c but.frames;
        slots = but.slots;
        contents = but.contents;
        tables = but.tables;
      };
      in_use = ap (λ x. x.in_use) (update_self m'.coremap f c) ∙ used;
      page = ap (λ x. x.pte) (update_self m'.coremap f c) ∙ page;
      kept = record {
        memsize = kept.memsize;
        present = kept.present;
        nodes = kept.nodes;
        out = kept.out;
        hits = kept.hits;
        misses = kept.misses;
        refs = kept.refs;
      };
    }

    pub allocate_frame_lem :
        (p : ℕ) (m : Machine os.File)
        → IsSound os pages m
        → Foresees alg 1 m
        → Returns (IsTaken pages p m) (allocate_frame os alg p m)
    unfolding allocate_frame
    allocate_frame_lem p m ok h = bind (choose_frame_lem m ok h) (λ f m' (lt, but, kept).
        let inside : ltb f m'.memsize ≡ true = ground arith in
        let c : Frame = record (m'.coremap f) { in_use = true; pte = some p } in
        rw (inside, inside) (returns (take p f m m' c refl refl (lt, but, kept))))
