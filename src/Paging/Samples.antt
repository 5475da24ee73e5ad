-- ===== src/Paging/Samples.antt =====
-- A3/swap.c: a swap file that works, for the tests.
use csc369_assignments.Prelude.{ℕ, ◌*◌, refl, update, update_self, update_ne, arith}
use csc369_assignments.Prelude.Int.{ℤ, pos, negsuc}
use csc369_assignments.Paging.Machine.{Page, Os}
use csc369_assignments.Paging.Invariant.{IsReliable}

abbrev pub zero_page : Page
zero_page = record { version = 0; vaddr = 0 }

-- A file that keeps one page for each position.
abbrev pub stored : (ℕ → Page) → ℤ → Page
stored f (pos p) = f p
stored f (negsuc n) = zero_page

abbrev pub rewritten : (ℕ → Page) → ℤ → Page → ℕ → Page
rewritten f (pos p) g = update f p g
rewritten f (negsuc n) g = f

abbrev pub disk : Os
disk = record {
  File = ℕ → Page;
  lseek = λ f at. at;
  lseek_errno = 21;
  read = λ f at g. (pos 16, stored f at);
  write = λ f at g. (pos 16, rewritten f at g);
  random = λ n. n;
  posix_memalign = λ idx. 0;
}

pub disk-IsReliable : IsReliable disk
disk-IsReliable = record {
  allocates = λ idx. refl;
  seeks = λ f p. refl;
  stores = λ f p g. refl;
  reads_back = λ f p g h. rw (update_self f p g) refl;
  apart = λ f i j g h ne. rw (update_ne f (i * 16) g (j * 16) (λ e. ne (omega arith))) refl;
}
