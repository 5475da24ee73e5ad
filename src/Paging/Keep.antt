-- ===== src/Paging/Keep.antt =====
-- A3: the single writes that keep the parts of the invariant.
use csc369_assignments.Prelude.{ℕ, ◌/◌, ◌≡◌, ◌≢◌, refl, Bool, true, update, arith, update_ne}
use csc369_assignments.Paging.Machine.{Page, Pte, Frame, Os}
use csc369_assignments.Swap.Bitmap.{Bitmap}
use csc369_assignments.Paging.Invariant.{
  Frames, Slots, Contents, Absent, Alike, is_valid, on_swap, home,
}

pub Alike-refl : (ptes : ℕ → Pte) → Alike ptes ptes
Alike-refl ptes = record {
  valid = λ v. refl;
  onswap = λ v h. h;
  offset = λ v. refl;
  number = λ v h. refl;
}

-- One entry is changed within those limits.
pub Alike-update :
    (ptes : ℕ → Pte) (p : ℕ) (e : Pte)
    → is_valid e ≡ is_valid (ptes p)
    → (on_swap e ≡ true → on_swap (ptes p) ≡ true)
    → e.swap_off ≡ (ptes p).swap_off
    → (is_valid (ptes p) ≡ true → home e ≡ home (ptes p))
    → Alike ptes (update ptes p e)
Alike-update ptes p e hv hs ho hn = record {
  valid = λ v. ground arith;
  onswap = λ v h. ground arith;
  offset = λ v. ground arith;
  number = λ v h. ground arith;
}

pub Slots-offsets :
    (ptes ptes' : ℕ → Pte)
    → ((v : ℕ) → (ptes' v).swap_off ≡ (ptes v).swap_off)
    → {pages : ℕ} {b : Bitmap} → Slots pages b ptes
    → Slots pages b ptes'
Slots-offsets ptes ptes' same sl = record {
  map = sl.map;
  enough = sl.enough;
  small = sl.small;
  slot = λ v. rw (same v) (sl.slot v);
  own = λ u v k a b. sl.own u v k (rw (same u) at a) (rw (same v) at b);
  used = λ k lt taken. let (v, low, at) = sl.used k lt taken in (v, low, rw (same v) at);
}

-- An entry of a table that is there may be anything.
pub Absent-put :
    {present : ℕ → Bool} {ptes : ℕ → Pte} (p : ℕ) (e : Pte)
    → present (p / 4096) ≡ true
    → Absent present ptes
    → Absent present (update ptes p e)
Absent-put {ptes} p e there ab = record {
  absent = λ v h. let apart : p ≢ v = λ q. cc in rw (update_ne ptes p e v apart) (ab.absent v h);
}

module _ (ptes ptes' : ℕ → Pte) (alike : Alike ptes ptes') where
  pub Frames-alike :
      {pages f memsize : ℕ} (coremap coremap' : ℕ → Frame)
      → ((i : ℕ) → (coremap' i).in_use ≡ (coremap i).in_use)
      → ((i : ℕ) → (coremap' i).pte ≡ (coremap i).pte)
      → Frames pages f memsize coremap ptes
      → Frames pages f memsize coremap' ptes'
  Frames-alike coremap coremap' hu hp fr = record {
    owner = λ i lt ne used.
        let (v, low, owns, good, at) = fr.owner i lt ne (rw (hu i) at used) in
        (v, low, rw (hp i) owns, rw (alike.valid v) good, rw (alike.number v good) at);
    placed = λ v good.
        let old : is_valid (ptes v) ≡ true = rw (alike.valid v) at good in
        let (lt, ne, used, owns) = fr.placed v old in
        rw (alike.number v old)
          (lt, ne, rw (hu (home (ptes v))) used, rw (hp (home (ptes v))) owns);
  }

  pub Slots-alike : {pages : ℕ} {b : Bitmap} → Slots pages b ptes → Slots pages b ptes'
  Slots-alike sl = Slots-offsets ptes ptes' alike.offset sl

  pub Absent-alike : {present : ℕ → Bool} → Absent present ptes → Absent present ptes'
  Absent-alike ab = record {
    absent = λ v h.
        let (a, b, c) = ab.absent v h in
        (rw (alike.valid v) a, ground (arith, alike.onswap v), rw (alike.offset v) c);
  }

  pub Contents-alike :
      {os : Os} {swapfile : os.File} {physmem : ℕ → Page}
      → Contents os swapfile physmem ptes
      → Contents os swapfile physmem ptes'
  Contents-alike co = record {
    swapped = λ v h.
        let (bad, k, at, same) = co.swapped v (alike.onswap v h) in
        (rw (alike.valid v) bad, k, rw (alike.offset v) at, same);
    resident = λ v h.
        let old : is_valid (ptes v) ≡ true = rw (alike.valid v) at h in
        rw (alike.number v old) (co.resident v old);
  }
