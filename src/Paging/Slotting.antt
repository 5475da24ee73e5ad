-- ===== src/Paging/Slotting.antt =====
-- A3/swap.c: the swap slot that a page gets, and the write to it, in the invariant.
use csc369_assignments.Prelude.{
  ℕ, ◌+◌, ◌*◌, ◌≤◌, ◌<◌, ◌≡◌, ◌≢◌, refl, sym, ap, ◌∙◌, ◌⊎◌, true, false, ◌==◌, ltb, update, arith,
  Bool-cases, inl, inr, eq_of_test, ne_of_test, test_of_eq, update_self, update_ne,
}
use csc369_assignments.Prelude.Int.{pos, negsuc}
use csc369_assignments.Prelude.Pigeonhole.{pigeonhole}
use csc369_assignments.Swap.Bitmap.{Bitmap, bitmap_isset}
use csc369_assignments.Swap.Bitmap.Alloc.{IsAlloc}
use csc369_assignments.Paging.Machine.{Page, Pte, Os, page_size, invalid_swap}
use csc369_assignments.Paging.Invariant.{Slots, Contents, IsReliable, is_valid}

pub pos_inj : (a b : ℕ) → pos a ≡ pos b → a ≡ b
pos_inj a b e = cc

pub pos-ne : (a b : ℕ) → pos a ≢ negsuc b
pos-ne a b e = cc

module _ {pages : ℕ} {b : Bitmap} {ptes : ℕ → Pte} (sl : Slots pages b ptes) where
  -- Slot `k` is that of page `u`; one slot more than there are is that of page `v`.
  Holds : ℕ → ℕ → ℕ → Type 0
  Holds v k u = (((ptes u).swap_off ≡ pos (k * 16)) × (k < b.nbits)) ⊎ ((k ≡ b.nbits) × (u ≡ v))

  once :
      (v : ℕ) → (ptes v).swap_off ≡ invalid_swap → (k j u : ℕ) → Holds v k u → Holds v j u → k ≡ j
  unfolding Holds
  once v none_yet k j u (inl (p, _)) (inl (q, _)) =
      let e = pos_inj (k * 16) (j * 16) (sym p ∙ q) in omega arith
  once v none_yet k j u (inl (p, _)) (inr (_, q)) =
      absurd (pos-ne (k * 16) 0 (sym p ∙ (ap (λ w. (ptes w).swap_off) q ∙ none_yet)))
  once v none_yet k j u (inr (_, q)) (inl (p, _)) =
      absurd (pos-ne (j * 16) 0 (sym p ∙ (ap (λ w. (ptes w).swap_off) q ∙ none_yet)))
  once v none_yet k j u (inr (p, _)) (inr (q, _)) = p ∙ sym q

  -- While a page has no slot, some slot is free.
  pub never_full :
      (v : ℕ)
      → v < pages
      → (ptes v).swap_off ≡ invalid_swap
      → ¬ ((k : ℕ) → k < b.nbits → bitmap_isset b k ≡ true)
  unfolding Holds
  never_full v low none_yet full =
      let le : b.nbits + 1 ≤ pages =
        pigeonhole (Holds v) pages (once v none_yet) (b.nbits + 1) (λ k lt.
          elim (Bool-cases (ltb k b.nbits)) [
            | inl inside ↦
                let l : k < b.nbits = ground arith in
                let (u, below, at) = sl.used k l (full k l) in (u, below, inl (at, l))
            | inr outside ↦ (v, low, inr (ground arith, refl))
          ]) in
      absurd (omega (arith, sl.enough))

  -- No page has a slot that is free.
  pub unowned : (i u : ℕ) → bitmap_isset b i ≡ false → (ptes u).swap_off ≢ pos (i * 16)
  unowned i u free q = elim (sl.slot u) [
    | inl off ↦ pos-ne (i * 16) 0 (sym q ∙ off)
    | inr (k, lt, taken, off) ↦
        let e = pos_inj (i * 16) (k * 16) (sym q ∙ off) in let same : i ≡ k = omega arith in cc
  ]

  -- The page gets a free slot.
  pub Slots-alloc :
      (v i : ℕ) (b' : Bitmap) (e : Pte)
      → v < pages
      → (ptes v).swap_off ≡ invalid_swap
      → IsAlloc b i b'
      → e.swap_off ≡ pos (i * 16)
      → Slots pages b' (update ptes v e)
  Slots-alloc v i b' e low none_yet al at = record {
    map = al.valid;
    enough = rw al.size sl.enough;
    small = rw al.size sl.small;
    slot = λ u. elim (Bool-cases (v == u)) [
      | inl same ↦ inr (
        i,
        rw al.size al.inside,
        rw (al.now i, test_of_eq i i refl) refl,
        rw (← eq_of_test v u same, update_self ptes v e) at,
      )
      | inr other ↦ elim (sl.slot u) [
        | inl off ↦ inl (rw (update_ne ptes v e u (ne_of_test v u other)) off)
        | inr (k, lt, taken, off) ↦ inr (
          k,
          rw al.size lt,
          ground (arith, al.now k),
          rw (update_ne ptes v e u (ne_of_test v u other)) off,
        )
      ]
    ];
    own = λ u w k p q. elim (Bool-cases (v == u)) [
      | inl mine ↦ elim (Bool-cases (v == w)) [
        | inl too ↦ sym (eq_of_test v u mine) ∙ eq_of_test v w too
        | inr other ↦
            let at' : (update ptes v e u).swap_off ≡ pos (i * 16) =
              rw (← eq_of_test v u mine, update_self ptes v e) at in
            absurd (
              unowned i w al.was_free (
                sym (ap (λ x. x.swap_off) (update_ne ptes v e w (ne_of_test v w other)))
                ∙ (q ∙ (sym p ∙ at'))))
      ]
      | inr other ↦ elim (Bool-cases (v == w)) [
        | inl mine ↦
            let at' : (update ptes v e w).swap_off ≡ pos (i * 16) =
              rw (← eq_of_test v w mine, update_self ptes v e) at in
            absurd (
              unowned i u al.was_free (
                sym (ap (λ x. x.swap_off) (update_ne ptes v e u (ne_of_test v u other)))
                ∙ (p ∙ (sym q ∙ at'))))
        | inr too ↦
            sl.own u w k (rw (update_ne ptes v e u (ne_of_test v u other)) at p)
              (rw (update_ne ptes v e w (ne_of_test v w too)) at q)
      ]
    ];
    used = λ k lt taken. elim (Bool-cases (i == k)) [
      | inl same ↦ (v, low, rw (← eq_of_test i k same, update_self ptes v e) at)
      | inr other ↦
          let (u, below, off) = sl.used k (rw al.size at lt) (ground (arith, al.now k)) in
          let apart : v ≢ u =
            λ q. pos-ne (k * 16) 0 (sym off ∙ (ap (λ w. (ptes w).swap_off) (sym q) ∙ none_yet)) in
          (u, below, rw (update_ne ptes v e u apart) off)
    ];
  }

module _ {os : Os} (reliable : IsReliable os) {swapfile : os.File} {physmem : ℕ → Page}
    {ptes : ℕ → Pte} where
  -- A page that leaves its frame for slot `i`, which no other page has.
  pub Contents-swap_out :
      (v i : ℕ) (e : Pte) (g : Page)
      → is_valid e ≡ false
      → e.swap_off ≡ pos (i * 16)
      → g.vaddr ≡ v * page_size
      → ((u : ℕ) → v ≢ u → (ptes u).swap_off ≢ pos (i * 16))
      → Contents os swapfile physmem ptes
      → Contents os (os.write swapfile (pos (i * 16)) g).1 physmem (update ptes v e)
  Contents-swap_out v i e g bad at right sole co = record {
    swapped = λ u h. elim (Bool-cases (v == u)) [
      | inl same ↦
          let q = eq_of_test v u same in
          rw (← q, update_self ptes v e)
            (bad, i, at, λ x. rw (reliable.reads_back swapfile (i * 16) g x) (refl, right))
      | inr other ↦
          let apart = ne_of_test v u other in
          let (no_frame, k, off, back) = co.swapped u (rw (update_ne ptes v e u apart) at h) in
          let differ : i ≢ k = λ q. sole u apart (rw q off) in
          rw (update_ne ptes v e u apart)
            (no_frame, k, off, λ x. rw (reliable.apart swapfile i k g x differ) (back x))
    ];
    resident = λ u h. elim (Bool-cases (v == u)) [
      | inl same ↦ absurd (ground arith)
      | inr other ↦
          let apart = ne_of_test v u other in
          rw (update_ne ptes v e u apart) (co.resident u (rw (update_ne ptes v e u apart) at h))
    ];
  }
