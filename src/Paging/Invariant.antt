-- ===== src/Paging/Invariant.antt =====
-- A3: what holds of the simulator between two references, of the frames, the swap slots and the
-- contents.
use csc369_assignments.Prelude.{ℕ, ◌*◌, ◌/◌, ◌^◌, ◌≤◌, ◌<◌, ◌≡◌, ◌≢◌, ◌⊎◌, Bool, true, false, some}
use csc369_assignments.Prelude.Int.{pos}
use csc369_assignments.Prelude.Word.{test_bit}
use csc369_assignments.Swap.Bitmap.{Bitmap, bitmap_isset}
use csc369_assignments.Swap.Bitmap.Valid.{IsValid}
use csc369_assignments.Paging.Machine.{
  Page, Pte, Frame, Os, Machine, pg_valid, pg_onswap, frame_number, invalid_swap, page_size,
}

abbrev pub is_valid : Pte → Bool
is_valid e = test_bit e.frame pg_valid

abbrev pub on_swap : Pte → Bool
on_swap e = test_bit e.frame pg_onswap

abbrev pub home : Pte → ℕ
home e = frame_number e.frame

-- There is memory for the page tables, and a swap file that works: a seek gets to where it is told, a write stores all bytes, a read gives
-- back what was written last at its offset, and other slots keep what they have.
pub record IsReliable (os : Os) : Type 0 where
  pub allocates : (idx : ℕ) → os.posix_memalign idx ≡ 0
  pub seeks : (f : os.File) (p : ℕ) → os.lseek f (pos p) ≡ pos p
  pub stores : (f : os.File) (p : ℕ) (g : Page) → (os.write f (pos p) g).0 ≡ pos 16
  pub reads_back :
      (f : os.File) (p : ℕ) (g h : Page) → os.read (os.write f (pos p) g).1 (pos p) h ≡ (pos 16, g)
  pub apart :
      (f : os.File) (i j : ℕ) (g h : Page)
      → i ≢ j
      → os.read (os.write f (pos (i * 16)) g).1 (pos (j * 16)) h ≡ os.read f (pos (j * 16)) h

-- The frames in use, but for frame `f`, and the valid entries belong to one another, one to one.
-- The pages are those below `pages`.
pub record Frames (pages f memsize : ℕ) (coremap : ℕ → Frame) (ptes : ℕ → Pte) : Type 0 where
  pub owner :
      (i : ℕ)
      → i < memsize
      → i ≢ f
      → (coremap i).in_use ≡ true
      → (v : ℕ) × (v < pages)
        × ((coremap i).pte ≡ some v)
        × (is_valid (ptes v) ≡ true)
        × (home (ptes v) ≡ i)
  pub placed :
      (v : ℕ)
      → is_valid (ptes v) ≡ true
      → (home (ptes v) < memsize)
        × (home (ptes v) ≢ f)
        × ((coremap (home (ptes v))).in_use ≡ true)
        × ((coremap (home (ptes v))).pte ≡ some v)

-- The swap slots in use and the entries with a slot belong to one another, one to one.
pub record Slots (pages : ℕ) (swapmap : Bitmap) (ptes : ℕ → Pte) : Type 0 where
  pub map : IsValid swapmap
  pub enough : pages ≤ swapmap.nbits
  pub small : swapmap.nbits < 2 ^ 27
  pub slot :
      (v : ℕ)
      → ((ptes v).swap_off ≡ invalid_swap)
        ⊎ ((k : ℕ) × (k < swapmap.nbits)
            × (bitmap_isset swapmap k ≡ true)
            × ((ptes v).swap_off ≡ pos (k * 16)))
  pub own : (u v k : ℕ) → (ptes u).swap_off ≡ pos k → (ptes v).swap_off ≡ pos k → u ≡ v
  pub used :
      (k : ℕ)
      → k < swapmap.nbits
      → bitmap_isset swapmap k ≡ true
      → (v : ℕ) × (v < pages) × ((ptes v).swap_off ≡ pos (k * 16))

-- The contents of a page, in its frame or in its slot, carry its address.
pub record Contents (os : Os) (swapfile : os.File) (physmem : ℕ → Page) (ptes : ℕ → Pte)
    : Type 0 where
  pub swapped :
      (v : ℕ)
      → on_swap (ptes v) ≡ true
      → (is_valid (ptes v) ≡ false)
        × (k : ℕ) × ((ptes v).swap_off ≡ pos (k * 16))
        × ((g : Page)
            → ((os.read swapfile (pos (k * 16)) g).0 ≡ pos 16)
              × ((os.read swapfile (pos (k * 16)) g).1.vaddr ≡ v * page_size))
  pub resident :
      (v : ℕ) → is_valid (ptes v) ≡ true → (physmem (home (ptes v))).vaddr ≡ v * page_size

-- The entries of a table that is not there yet are of no use.
pub record Absent (present : ℕ → Bool) (ptes : ℕ → Pte) : Type 0 where
  pub absent :
      (v : ℕ)
      → present (v / 4096) ≡ false
      → (is_valid (ptes v) ≡ false)
        × (on_swap (ptes v) ≡ false)
        × ((ptes v).swap_off ≡ invalid_swap)

-- The invariant, but for frame `f`.
pub record IsSoundBut (os : Os) (pages f : ℕ) (m : Machine os.File) : Type 0 where
  pub some_memory : 0 < m.memsize
  pub memory : m.memsize < 2 ^ 20
  pub hand : m.clock_hand < m.memsize
  pub next : m.cur_page < m.memsize
  pub frames : Frames pages f m.memsize m.coremap m.ptes
  pub slots : Slots pages m.swapmap m.ptes
  pub contents : Contents os m.swapfile m.physmem m.ptes
  pub tables : Absent m.present m.ptes

abbrev pub IsSound : (os : Os) → ℕ → Machine os.File → Type 0
IsSound os pages m = IsSoundBut os pages m.memsize m

-- The entries differ in marks that the invariant does not look at, and at most lose PG_ONSWAP.
pub record Alike (ptes ptes' : ℕ → Pte) : Type 0 where
  pub valid : (v : ℕ) → is_valid (ptes' v) ≡ is_valid (ptes v)
  pub onswap : (v : ℕ) → on_swap (ptes' v) ≡ true → on_swap (ptes v) ≡ true
  pub offset : (v : ℕ) → (ptes' v).swap_off ≡ (ptes v).swap_off
  pub number : (v : ℕ) → is_valid (ptes v) ≡ true → home (ptes' v) ≡ home (ptes v)
