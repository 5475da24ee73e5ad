-- ===== src/Paging/Place.antt =====
-- A3/pagetable.c: a frame that a page leaves or enters, in the invariant.
use csc369_assignments.Prelude.{
  ℕ, ◌*◌, ◌<◌, ◌≡◌, ◌≢◌, sym, ap, ◌∙◌, true, false, Option, some, ◌==◌, update, arith, Bool-cases,
  inl, inr, eq_of_test, ne_of_test, update_self, update_ne,
}
use csc369_assignments.Paging.Machine.{Page, Pte, Frame, Os, page_size}
use csc369_assignments.Paging.Invariant.{Frames, Contents, is_valid, on_swap, home}

some_inj : (a b : ℕ) (o : Option ℕ) → o ≡ some a → o ≡ some b → a ≡ b
some_inj a b o p q = cc

module _ {pages memsize : ℕ} {coremap : ℕ → Frame} {ptes : ℕ → Pte} where
  -- A frame that is not in use is nobody's.
  pub Frames-free :
      (i : ℕ)
      → (coremap i).in_use ≡ false
      → Frames pages memsize memsize coremap ptes
      → Frames pages i memsize coremap ptes
  Frames-free i free fr = record {
    owner = λ j lt ne used. fr.owner j lt (λ e. omega arith) used;
    placed = λ v good.
        let (lt, ne, used, owns) = fr.placed v good in (lt, λ e. ground arith, used, owns);
  }

  -- The page in a frame loses it.
  pub Frames-drop :
      (v : ℕ) (e : Pte)
      → is_valid (ptes v) ≡ true
      → is_valid e ≡ false
      → Frames pages memsize memsize coremap ptes
      → Frames pages (home (ptes v)) memsize coremap (update ptes v e)
  Frames-drop v e good bad fr = record {
    owner = λ i lt ne used.
        let (u, low, owns, valid, at) = fr.owner i lt (λ q. omega arith) used in
        let apart : v ≢ u = λ q. ne (sym at ∙ ap (λ w. home (ptes w)) (sym q)) in
        (u, low, owns, rw (update_ne ptes v e u apart) valid, rw (update_ne ptes v e u apart) at);
    placed = λ u valid. elim (Bool-cases (v == u)) [
      | inl same ↦ absurd (ground arith)
      | inr other ↦
          let apart = ne_of_test v u other in
          let old : is_valid (ptes u) ≡ true = rw (update_ne ptes v e u apart) at valid in
          let (lt, ne, used, owns) = fr.placed u old in
          let (lt', ne', used', owns') = fr.placed v good in
          rw (update_ne ptes v e u apart) (
            lt,
            λ q. apart (some_inj v u (coremap (home (ptes u))).pte (rw q owns') owns),
            used,
            owns,
          )
    ];
  }

module _ {pages f memsize : ℕ} {coremap : ℕ → Frame} {ptes : ℕ → Pte} where
  -- A write to the frame that the invariant leaves out.
  pub Frames-put_core :
      (c : Frame)
      → Frames pages f memsize coremap ptes
      → Frames pages f memsize (update coremap f c) ptes
  Frames-put_core c fr = record {
    owner = λ i lt ne used.
        let apart : f ≢ i = λ q. ne (sym q) in
        let (v, low, owns, good, at) =
          fr.owner i lt ne (rw (update_ne coremap f c i apart) at used) in
        (v, low, rw (update_ne coremap f c i apart) owns, good, at);
    placed = λ v good.
        let (lt, ne, used, owns) = fr.placed v good in
        let apart : f ≢ home (ptes v) = λ q. ne (sym q) in
        (
          lt,
          ne,
          rw (update_ne coremap f c (home (ptes v)) apart) used,
          rw (update_ne coremap f c (home (ptes v)) apart) owns,
        );
  }

  -- The page that the frame was given to becomes valid.
  pub Frames-place :
      (p : ℕ) (e : Pte)
      → p < pages
      → f < memsize
      → is_valid (ptes p) ≡ false
      → is_valid e ≡ true
      → home e ≡ f
      → (coremap f).in_use ≡ true
      → (coremap f).pte ≡ some p
      → Frames pages f memsize coremap ptes
      → Frames pages memsize memsize coremap (update ptes p e)
  Frames-place p e low room bad good at used owns fr = record {
    owner = λ i lt ne on. elim (Bool-cases (i == f)) [
      | inl same ↦
          let q : i ≡ f = eq_of_test i f same in
          (p, low, rw q owns, rw (update_self ptes p e) good, rw (update_self ptes p e, q) at)
      | inr other ↦
          let (v, below, owns', valid, at') = fr.owner i lt (ne_of_test i f other) on in
          let apart : p ≢ v = λ q. cc in
          (
            v,
            below,
            owns',
            rw (update_ne ptes p e v apart) valid,
            rw (update_ne ptes p e v apart) at',
          )
    ];
    placed = λ v valid. elim (Bool-cases (p == v)) [
      | inl same ↦
          let q : p ≡ v = eq_of_test p v same in
          rw (← q, update_self ptes p e, at) (room, λ r. omega arith, used, owns)
      | inr other ↦
          let apart = ne_of_test p v other in
          let old : is_valid (ptes v) ≡ true = rw (update_ne ptes p e v apart) at valid in
          let (lt, ne, used', owns') = fr.placed v old in
          rw (update_ne ptes p e v apart) (lt, λ r. omega arith, used', owns')
    ];
  }

module _ {os : Os} {swapfile : os.File} {physmem : ℕ → Page} {ptes : ℕ → Pte} where
  -- A page is given up that is not marked as swapped out.
  pub Contents-drop :
      (v : ℕ) (e : Pte)
      → is_valid e ≡ false
      → on_swap e ≡ false
      → Contents os swapfile physmem ptes
      → Contents os swapfile physmem (update ptes v e)
  Contents-drop v e bad off co = record {
    swapped = λ u h. elim (Bool-cases (v == u)) [
      | inl same ↦ absurd (ground arith)
      | inr other ↦
          let apart = ne_of_test v u other in
          rw (update_ne ptes v e u apart) (co.swapped u (rw (update_ne ptes v e u apart) at h))
    ];
    resident = λ u h. elim (Bool-cases (v == u)) [
      | inl same ↦ absurd (ground arith)
      | inr other ↦
          let apart = ne_of_test v u other in
          rw (update_ne ptes v e u apart) (co.resident u (rw (update_ne ptes v e u apart) at h))
    ];
  }

  -- A page is entered in a frame that has its contents.
  pub Contents-place :
      (p : ℕ) (e : Pte)
      → on_swap e ≡ false
      → (physmem (home e)).vaddr ≡ p * page_size
      → Contents os swapfile physmem ptes
      → Contents os swapfile physmem (update ptes p e)
  Contents-place p e off has_it co = record {
    swapped = λ u h. elim (Bool-cases (p == u)) [
      | inl same ↦ absurd (ground arith)
      | inr other ↦
          let apart = ne_of_test p u other in
          rw (update_ne ptes p e u apart) (co.swapped u (rw (update_ne ptes p e u apart) at h))
    ];
    resident = λ u h. elim (Bool-cases (p == u)) [
      | inl same ↦ let q : p ≡ u = eq_of_test p u same in rw (← q, update_self ptes p e) has_it
      | inr other ↦
          let apart = ne_of_test p u other in
          rw (update_ne ptes p e u apart) (co.resident u (rw (update_ne ptes p e u apart) at h))
    ];
  }

  -- A frame that no valid page lies in may be written.
  pub Contents-put_page :
      (f : ℕ) (g : Page)
      → ((v : ℕ) → is_valid (ptes v) ≡ true → home (ptes v) ≢ f)
      → Contents os swapfile physmem ptes
      → Contents os swapfile (update physmem f g) ptes
  Contents-put_page f g nobody co = record {
    swapped = co.swapped;
    resident = λ v h.
        let apart : f ≢ home (ptes v) = λ q. nobody v h (sym q) in
        rw (update_ne physmem f g (home (ptes v)) apart) (co.resident v h);
  }
