-- ===== src/Paging/Find.antt =====
-- A3/pagetable.c: `find_physpage` finds the page of an address, whatever it takes.
use csc369_assignments.Prelude.{
  ℕ, ◌+◌, ◌*◌, ◌/◌, ◌<◌, ◌≡◌, refl, sym, ap, ◌∙◌, Bool, true, arith, Bool-cases, inl, inr, update,
  update_self,
}
use csc369_assignments.Prelude.State.{Returns, returns, bind, mono}
use csc369_assignments.Paging.Machine.{Pte, Os, Machine, page_size}
use csc369_assignments.Paging.Words.{number-touched, valid-touched, onswap-touched}
use csc369_assignments.Paging.Policies.{Algorithm}
use csc369_assignments.Paging.Table.{touched, is_write, locate, touch}
use csc369_assignments.Paging.Invariant.{IsReliable, IsSound, is_valid, home, Alike}
use csc369_assignments.Paging.Keep.{
  Alike-update, Absent-put, Slots-offsets, Slots-alike, Contents-alike, Frames-alike, Absent-alike,
}
use csc369_assignments.Paging.Place.{Frames-place, Contents-place}
use csc369_assignments.Paging.Steady.{IsSound-Steady, IsSoundBut-counts}
use csc369_assignments.Paging.Policy.{
  Foresees, Foresees-Steady, Foresees-le, Foresees-nodes, ref_lem,
}
use csc369_assignments.Paging.Load.{IsLoaded, load_page_lem}

module _ (os : Os) (pages : ℕ) where
  -- Page `p` is at hand: its entry is valid, or it is loaded and will be.
  pub data IsAtHand (p : ℕ) (m : Machine os.File) : Type 0 where
    valid : IsSound os pages m → is_valid (m.ptes p) ≡ true → IsAtHand p m
    loaded : (m0 : Machine os.File) (f : ℕ) → IsLoaded os pages p m0 f m → IsAtHand p m

  -- The entry of page `p` once it has been touched.
  abbrev stamped : Bool → Pte → Pte
  stamped writes e = record e { frame = touched writes e.frame }

  abbrev stamp : ℕ → Bool → Machine os.File → Machine os.File
  stamp p writes m = record m {
    ptes = update m.ptes p (stamped writes (m.ptes p));
    ref_count = m.ref_count + 1;
  }

  stamp-IsSound :
      (p : ℕ) (writes : Bool) (m : Machine os.File)
      → p < pages
      → m.present (p / 4096) ≡ true
      → IsAtHand p m
      → IsSound os pages (stamp p writes m) × (is_valid ((stamp p writes m).ptes p) ≡ true)
  stamp-IsSound p writes m low there (valid ok good) =
      let w = (m.ptes p).frame in
      let e = stamped writes (m.ptes p) in
      let alike : Alike m.ptes (update m.ptes p e) =
        Alike-update m.ptes p e (valid-touched writes w ∙ sym good)
          (λ h. sym (onswap-touched writes w) ∙ h) refl (λ h. number-touched writes w) in
      (
        record {
          some_memory = ok.some_memory;
          memory = ok.memory;
          hand = ok.hand;
          next = ok.next;
          frames =
              Frames-alike m.ptes (update m.ptes p e) alike m.coremap m.coremap (λ i. refl)
                (λ i. refl) ok.frames;
          slots = Slots-alike m.ptes (update m.ptes p e) alike ok.slots;
          contents = Contents-alike m.ptes (update m.ptes p e) alike ok.contents;
          tables = Absent-alike m.ptes (update m.ptes p e) alike ok.tables;
        },
        ap is_valid (update_self m.ptes p e) ∙ valid-touched writes w,
      )
  stamp-IsSound p writes m low there (loaded m0 f l) =
      let w = (m.ptes p).frame in
      let e = stamped writes (m.ptes p) in
      let at : home e ≡ f = number-touched writes w ∙ l.number in
      (
        record {
          some_memory = l.but.some_memory;
          memory = l.but.memory;
          hand = l.but.hand;
          next = l.but.next;
          frames =
              Frames-place p e low l.room l.bad (valid-touched writes w) at l.in_use l.page
                l.but.frames;
          slots = Slots-offsets m.ptes (update m.ptes p e) (λ u. ground arith) l.but.slots;
          contents =
              Contents-place p e (onswap-touched writes w ∙ l.off)
                (ap (λ i. (m.physmem i).vaddr) at ∙ l.right) l.but.contents;
          tables = Absent-put p e there l.but.tables;
        },
        ap is_valid (update_self m.ptes p e) ∙ valid-touched writes w,
      )

  -- `locate` brings the page to hand, and counts a hit or a miss.
  pub record IsLocated (alg : Algorithm) (n p : ℕ) (m m' : Machine os.File) : Type 0 where
    at_hand : IsAtHand p m'
    memsize : m'.memsize ≡ m.memsize
    pub present : m'.present ≡ m.present
    counted : m'.hit_count + m'.miss_count ≡ m.hit_count + m.miss_count + 1
    refs : m'.ref_count ≡ m.ref_count
    foresees : Foresees alg n m'

  module _ (reliable : IsReliable os) (alg : Algorithm) (n p : ℕ) where
    pub locate_lem :
        (m : Machine os.File)
        → IsSound os pages m
        → Foresees alg (n + 1) m
        → Returns (λ _ m'. IsLocated alg (n + 1) p m m') (locate os alg p (p * page_size) m)
    unfolding locate
    locate_lem m ok h = elim (Bool-cases (is_valid (m.ptes p))) [
      | inl good ↦
          let m' : Machine os.File = record m { hit_count = m.hit_count + 1 } in
          rw good (
            returns {a = tt} {s = m'} (record {
              at_hand =
                  valid
                    (IsSoundBut-counts os pages m.memsize m (m.hit_count + 1) m.miss_count
                      m.ref_count ok)
                    good;
              memsize = refl;
              present = refl;
              counted = omega arith;
              refs = refl;
              foresees = Foresees-nodes alg (n + 1) m m' (omega arith) h;
            }))
      | inr bad ↦
          let m0 : Machine os.File = record m { miss_count = m.miss_count + 1 } in
          let ok0 : IsSound os pages m0 =
            IsSoundBut-counts os pages m.memsize m m.hit_count (m.miss_count + 1) m.ref_count ok in
          let h0 = Foresees-nodes alg (n + 1) m m0 (omega arith) h in
          rw bad (
            mono
              (load_page_lem os pages reliable alg p m0 ok0
                (Foresees-le alg (n + 1) 1 m0 (omega arith) h0) bad)
              (λ _ m' (f, l). record {
                at_hand = loaded m0 f l;
                memsize = l.kept.memsize;
                present = l.kept.present;
                counted = omega (arith, l.kept.hits, l.kept.misses);
                refs = l.kept.refs;
                foresees = Foresees-nodes alg (n + 1) m0 m' l.kept.nodes h0;
              }))
    ]

  -- `find_physpage` has found page `p` in frame `f`.
  pub record IsFound (alg : Algorithm) (n p : ℕ) (m : Machine os.File) (f : ℕ)
      (m' : Machine os.File) : Type 0 where
    pub sound : IsSound os pages m'
    pub memsize : m'.memsize ≡ m.memsize
    pub frame : home (m'.ptes p) ≡ f
    pub valid : is_valid (m'.ptes p) ≡ true
    pub counted : m'.hit_count + m'.miss_count ≡ m.hit_count + m.miss_count + 1
    pub refs : m'.ref_count ≡ m.ref_count + 1
    pub foresees : Foresees alg n m'

  module _ (alg : Algorithm) (n p : ℕ) where
    pub touch_lem :
        (m m1 : Machine os.File) (type : ℕ)
        → p < pages
        → m1.present (p / 4096) ≡ true
        → IsLocated alg (n + 1) p m m1
        → Returns (IsFound alg n p m) (touch os alg p type m1)
    unfolding touch
    touch_lem m m1 type low there l =
        let m2 = stamp p (is_write type) m1 in
        let (ok, good) = stamp-IsSound p (is_write type) m1 low there l.at_hand in
        let (room, _, _, _) = ok.frames.placed p good in
        let h2 : Foresees alg (n + 1) m2 =
          Foresees-nodes alg (n + 1) m1 m2 (omega arith) l.foresees in
        bind (ref_lem alg p m2 room (Foresees-le alg (n + 1) 1 m2 (omega arith) h2)) (λ _ m' s.
          returns (record {
            sound = IsSound-Steady os pages 1 m2 m' s ok;
            memsize = s.memsize ∙ l.memsize;
            frame = refl;
            valid = s.alike.valid p ∙ good;
            counted = omega (arith, s.hits, s.misses, l.counted);
            refs = omega (arith, s.refs, l.refs);
            foresees = Foresees-Steady alg n 1 m2 m' s h2;
          }))
