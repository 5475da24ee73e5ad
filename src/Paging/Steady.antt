-- ===== src/Paging/Steady.antt =====
-- A3: what a replacement algorithm may change.
use csc369_assignments.Prelude.{ℕ, ◌+◌, ◌≤◌, ◌<◌, ◌≡◌, refl, sym, ◌∙◌, length, List, arith, update}
use csc369_assignments.Prelude.Word.{set_bit, clear_bit, test_bit-set_bit, test_bit-clear_bit}
use csc369_assignments.Paging.Machine.{Os, Machine, Frame, Pte, pg_ref, pg_valid, pg_onswap}
use csc369_assignments.Paging.Words.{number-set_bit, number-clear_bit}
use csc369_assignments.Paging.Invariant.{IsSound, IsSoundBut, Alike}
use csc369_assignments.Paging.Keep.{
  Alike-refl, Alike-update, Frames-alike, Slots-alike, Contents-alike, Absent-alike,
}

pub Alike-trans : (p q r : ℕ → Pte) → Alike p q → Alike q r → Alike p r
Alike-trans p q r a b = record {
  valid = λ v. b.valid v ∙ a.valid v;
  onswap = λ v h. a.onswap v (b.onswap v h);
  offset = λ v. b.offset v ∙ a.offset v;
  number = λ v h. b.number v (a.valid v ∙ h) ∙ a.number v h;
}

-- The reference bit is nothing that the invariant looks at.
pub Alike-clear_ref :
    (ptes : ℕ → Pte) (v : ℕ)
    → Alike ptes (update ptes v (record (ptes v) { frame = clear_bit (ptes v).frame pg_ref }))
Alike-clear_ref ptes v =
    let w = (ptes v).frame in
    Alike-update ptes v (record (ptes v) { frame = clear_bit w pg_ref })
      (rw (test_bit-clear_bit w pg_ref pg_valid) refl)
      (λ h. rw (test_bit-clear_bit w pg_ref pg_onswap) at h) refl
      (λ h. number-clear_bit w pg_ref (omega arith))

pub Alike-set_ref :
    (ptes : ℕ → Pte) (v : ℕ)
    → Alike ptes (update ptes v (record (ptes v) { frame = set_bit (ptes v).frame pg_ref }))
Alike-set_ref ptes v =
    let w = (ptes v).frame in
    Alike-update ptes v (record (ptes v) { frame = set_bit w pg_ref })
      (rw (test_bit-set_bit w pg_ref pg_valid) refl)
      (λ h. rw (test_bit-set_bit w pg_ref pg_onswap) at h) refl
      (λ h. number-set_bit w pg_ref (omega arith))

module _ {File : Type 0} where
  -- The state has changed by the books of the algorithms only; `n` entries of the list of references
  -- may be gone.
  pub record Steady (n : ℕ) (m m' : Machine File) : Type 0 where
    pub memsize : m'.memsize ≡ m.memsize
    pub physmem : m'.physmem ≡ m.physmem
    pub present : m'.present ≡ m.present
    pub swapmap : m'.swapmap ≡ m.swapmap
    pub swapfile : m'.swapfile ≡ m.swapfile
    pub hits : m'.hit_count ≡ m.hit_count
    pub misses : m'.miss_count ≡ m.miss_count
    pub refs : m'.ref_count ≡ m.ref_count
    pub used : (i : ℕ) → (m'.coremap i).in_use ≡ (m.coremap i).in_use
    pub owned : (i : ℕ) → (m'.coremap i).pte ≡ (m.coremap i).pte
    pub alike : Alike m.ptes m'.ptes
    pub hand : m.clock_hand < m.memsize → m'.clock_hand < m.memsize
    pub next : m.cur_page < m.memsize → m'.cur_page < m.memsize
    pub nodes : length m.curr_node ≤ length m'.curr_node + n

  pub Steady-refl : (n : ℕ) (m : Machine File) → Steady n m m
  Steady-refl n m = record {
    memsize = refl;
    physmem = refl;
    present = refl;
    swapmap = refl;
    swapfile = refl;
    hits = refl;
    misses = refl;
    refs = refl;
    used = λ i. refl;
    owned = λ i. refl;
    alike = Alike-refl m.ptes;
    hand = λ h. h;
    next = λ h. h;
    nodes = omega arith;
  }

  -- The books are written.
  pub Steady-books :
      (n : ℕ) (m : Machine File) (coremap : ℕ → Frame) (hand next time draws : ℕ) (nodes : List ℕ)
      → ((i : ℕ) → (coremap i).in_use ≡ (m.coremap i).in_use)
      → ((i : ℕ) → (coremap i).pte ≡ (m.coremap i).pte)
      → (m.clock_hand < m.memsize → hand < m.memsize)
      → (m.cur_page < m.memsize → next < m.memsize)
      → length m.curr_node ≤ length nodes + n
      → Steady n m (record m {
        coremap = coremap;
        clock_hand = hand;
        cur_page = next;
        timestamp = time;
        draws = draws;
        curr_node = nodes;
      })
  Steady-books n m coremap hand next time draws nodes hu ho hh hn le = record {
    memsize = refl;
    physmem = refl;
    present = refl;
    swapmap = refl;
    swapfile = refl;
    hits = refl;
    misses = refl;
    refs = refl;
    used = hu;
    owned = ho;
    alike = Alike-refl m.ptes;
    hand = hh;
    next = hn;
    nodes = le;
  }

  pub Steady-trans : (m m1 m2 : Machine File) → Steady 0 m m1 → Steady 0 m1 m2 → Steady 0 m m2
  Steady-trans m m1 m2 a b = record {
    memsize = b.memsize ∙ a.memsize;
    physmem = b.physmem ∙ a.physmem;
    present = b.present ∙ a.present;
    swapmap = b.swapmap ∙ a.swapmap;
    swapfile = b.swapfile ∙ a.swapfile;
    hits = b.hits ∙ a.hits;
    misses = b.misses ∙ a.misses;
    refs = b.refs ∙ a.refs;
    used = λ i. b.used i ∙ a.used i;
    owned = λ i. b.owned i ∙ a.owned i;
    alike = Alike-trans m.ptes m1.ptes m2.ptes a.alike b.alike;
    hand = λ h. omega (arith, b.hand (omega (arith, a.hand h, a.memsize)), a.memsize);
    next = λ h. omega (arith, b.next (omega (arith, a.next h, a.memsize)), a.memsize);
    nodes = omega (arith, a.nodes, b.nodes);
  }

-- Those books are nothing that the invariant looks at.
module _ (os : Os) where
  pub IsSoundBut-Steady :
      (pages f n : ℕ) (m m' : Machine os.File)
      → Steady n m m'
      → IsSoundBut os pages f m
      → IsSoundBut os pages f m'
  IsSoundBut-Steady pages f n m m' s ok = record {
    some_memory = rw s.memsize ok.some_memory;
    memory = rw s.memsize ok.memory;
    hand = rw s.memsize (s.hand ok.hand);
    next = rw s.memsize (s.next ok.next);
    frames =
        rw s.memsize
          (Frames-alike m.ptes m'.ptes s.alike m.coremap m'.coremap s.used s.owned ok.frames);
    slots = rw s.swapmap (Slots-alike m.ptes m'.ptes s.alike ok.slots);
    contents = rw (s.swapfile, s.physmem) (Contents-alike m.ptes m'.ptes s.alike ok.contents);
    tables = rw s.present (Absent-alike m.ptes m'.ptes s.alike ok.tables);
  }

  -- The same of the counters.
  pub IsSoundBut-counts :
      (pages f : ℕ) (m : Machine os.File) (hits misses refs : ℕ)
      → IsSoundBut os pages f m
      → IsSoundBut os pages f (record m { hit_count = hits; miss_count = misses; ref_count = refs })
  IsSoundBut-counts pages f m hits misses refs ok = record {
    some_memory = ok.some_memory;
    memory = ok.memory;
    hand = ok.hand;
    next = ok.next;
    frames = ok.frames;
    slots = ok.slots;
    contents = ok.contents;
    tables = ok.tables;
  }

  pub IsSoundBut-at :
      (pages f g : ℕ) (m : Machine os.File)
      → f ≡ g
      → IsSoundBut os pages f m
      → IsSoundBut os pages g m
  IsSoundBut-at pages f g m e ok = rw (← e) ok

  pub IsSound-Steady :
      (pages n : ℕ) (m m' : Machine os.File)
      → Steady n m m'
      → IsSound os pages m
      → IsSound os pages m'
  IsSound-Steady pages n m m' s ok =
      IsSoundBut-at pages m.memsize m'.memsize m' (sym s.memsize)
        (IsSoundBut-Steady pages m.memsize n m m' s ok)
