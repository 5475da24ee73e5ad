-- ===== src/Paging/Reference.antt =====
-- A3/pagetable.c: `find_physpage` as a whole.
use csc369_assignments.Prelude.{
  ℕ, ◌+◌, ◌*◌, ◌/◌, ◌^◌, ◌≤◌, ◌<◌, ◌≡◌, refl, sym, ap, ◌∙◌, true, false, ltb, ◌==◌, if◌then◌else◌,
  arith, Bool-cases, inl, inr, update, update_self, eq_of_test,
}
use csc369_assignments.Prelude.State.{Returns, bind, mono, ◌>>◌}
use csc369_assignments.Prelude.Word.{test_bit, test_bit-zero}
use csc369_assignments.Paging.Machine.{Os, Machine, page_size, pg_valid, pg_onswap}
use csc369_assignments.Paging.Policies.{Algorithm}
use csc369_assignments.Paging.Table.{
  init_second_level, locate, touch, find_physpage, blank_pte, page_of, pgdir_index,
}
use csc369_assignments.Paging.Invariant.{IsReliable, IsSound, Alike}
use csc369_assignments.Paging.Keep.{Slots-alike, Contents-alike, Frames-alike, Absent-alike}
use csc369_assignments.Paging.Policy.{Foresees, Foresees-nodes}
use csc369_assignments.Paging.Find.{IsFound, locate_lem, touch_lem}

zero_flag : ¬ (test_bit 0 pg_onswap ≡ true)
zero_flag on = let off = test_bit-zero pg_onswap in cc

module _ (os : Os) (pages : ℕ) where
  abbrev with_table : ℕ → Machine os.File → Machine os.File
  with_table idx m = record m {
    present = update m.present idx true;
    ptes = λ v. if v / 4096 == idx then blank_pte else m.ptes v;
  }

  -- A new table has blank entries, which changes nothing that counts.
  IsSound-with_table :
      (idx : ℕ) (m : Machine os.File)
      → m.present idx ≡ false
      → IsSound os pages m
      → IsSound os pages (with_table idx m)
  IsSound-with_table idx m none_yet ok =
      let gone = λ (v : ℕ) (same : (v / 4096 == idx) ≡ true).
        ok.tables.absent v (ap m.present (eq_of_test (v / 4096) idx same) ∙ none_yet) in
      let alike : Alike m.ptes (with_table idx m).ptes = record {
        valid = λ v. elim (Bool-cases (v / 4096 == idx)) [
          | inr other ↦ rw other refl
          | inl same ↦ let (bad, _, _) = gone v same in rw same (test_bit-zero pg_valid ∙ sym bad)
        ];
        onswap = λ v. elim (Bool-cases (v / 4096 == idx)) [
          | inr other ↦ λ h. rw other at h
          | inl same ↦ λ h. absurd (zero_flag (rw same at h))
        ];
        offset = λ v. elim (Bool-cases (v / 4096 == idx)) [
          | inr other ↦ rw other refl
          | inl same ↦ let (_, _, off) = gone v same in rw same (sym off)
        ];
        number = λ v good. elim (Bool-cases (v / 4096 == idx)) [
          | inr other ↦ rw other refl
          | inl same ↦ let (bad, _, _) = gone v same in cc
        ];
      } in
      record {
        some_memory = ok.some_memory;
        memory = ok.memory;
        hand = ok.hand;
        next = ok.next;
        frames =
            Frames-alike m.ptes (with_table idx m).ptes alike m.coremap m.coremap (λ i. refl)
              (λ i. refl) ok.frames;
        slots = Slots-alike m.ptes (with_table idx m).ptes alike ok.slots;
        contents = Contents-alike m.ptes (with_table idx m).ptes alike ok.contents;
        tables =
            Absent-alike m.ptes (with_table idx m).ptes alike
              (record { absent = λ v h. ok.tables.absent v (ground arith) });
      }

  module _ (reliable : IsReliable os) (small : pages ≤ 2 ^ 24) (alg : Algorithm) where
    -- The table of the page is there.
    find_in :
        (n p type : ℕ) (m : Machine os.File)
        → p < pages
        → IsSound os pages m
        → Foresees alg (n + 1) m
        → m.present (p / 4096) ≡ true
        → Returns
            (IsFound os pages alg n p m)
            ((locate os alg p (p * page_size) >> touch os alg p type) m)
    find_in n p type m low ok h there =
        bind (locate_lem os pages reliable alg n p m ok h) (λ _ m1 l.
          touch_lem os pages alg n p m m1 type low (ap (λ f. f (p / 4096)) l.present ∙ there) l)

    -- In a sound simulator with a swap file that works and memory for the page tables, a reference to the start of one of its pages
    -- returns, be it a hit, a first reference or one to a page on swap, with any of the algorithms
    -- (the optimal one as long as its list has a node for this reference). The frame returned is that
    -- of the page, whose entry is valid; the simulator stays sound; one reference is counted, and one
    -- hit or miss.
    pub find_physpage_lem :
        (n p type : ℕ) (m : Machine os.File)
        → p < pages
        → IsSound os pages m
        → Foresees alg (n + 1) m
        → Returns (IsFound os pages alg n p m) (find_physpage os alg (p * page_size) type m)
    unfolding find_physpage init_second_level
    find_physpage_lem n p type m low ok h =
        let idx : pgdir_index (p * page_size) ≡ p / 4096 = omega arith in
        let page : page_of (p * page_size) ≡ p = omega arith in
        let inside : ltb (p / 4096) 4096 ≡ true = ground arith in
        rw (page, idx, inside)
          (elim (Bool-cases (m.present (p / 4096))) [
            | inl there ↦ rw there (find_in n p type m low ok h there)
            | inr none_yet ↦
                let m1 = with_table (p / 4096) m in
                let run =
                  find_in n p type m1 low (IsSound-with_table (p / 4096) m none_yet ok)
                    (Foresees-nodes alg (n + 1) m m1 (omega arith) h)
                    (update_self m.present (p / 4096) true) in
                rw (none_yet, reliable.allocates (p / 4096))
                  (mono run (λ f m' r. record {
                    sound = r.sound;
                    memsize = r.memsize;
                    frame = r.frame;
                    valid = r.valid;
                    counted = r.counted;
                    refs = r.refs;
                    foresees = r.foresees;
                  }))
          ])
