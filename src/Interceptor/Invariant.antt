-- ===== src/Interceptor/Invariant.antt =====
-- A1/interceptor.c: what holds between two calls of the module, and how a critical section runs.
use csc369_assignments.Prelude.{
  ℕ, ◌≤◌, ◌<◌, ◌≡◌, ◌≢◌, true, false, Option, some, [], ◌==◌, if◌then◌else◌, update, arith, length,
  has, Distinct, Bool-cases, inl, inr, update_self, update_twice, eq_of_test,
}
use csc369_assignments.Prelude.Int.{pos}
use csc369_assignments.Interceptor.Kernel.{Handler, Entry, Kernel}
use csc369_assignments.Interceptor.Syscall.{patch, release_entry}
use csc369_assignments.Interceptor.Module.{patch_both}

-- Both locks are free, and the call table is read-only.
pub record IsQuiet (m : Kernel) : Type 0 where
  pub table_free : m.my_table_lock ≡ false
  pub calls_free : m.sys_call_table_lock ≡ false
  pub read_only : m.pte.rw_bit ≡ false
  pub mapped : m.pte.others ≢ 0

-- The list of a hooked system call, its counter, and the `monitored` flag agree.
pub record IsTidy (e : Entry) : Type 0 where
  pub counted : e.listcount ≡ pos (length e.my_list)
  pub distinct : Distinct e.my_list
  pub level : e.monitored ≤ 2
  pub idle : e.monitored ≡ 0 → e.my_list ≡ []
  pub watched : e.my_list ≡ [] → e.monitored ≡ 0
  pub everyone : e.monitored ≡ 2 → has 0 e.my_list ≡ true

-- An entry of `table` and the slot of the call table beside it, where the kernel had `orig`.
pub data IsSound (orig : Handler) (e : Entry) (h : Handler) : Type 0 where
  free :
      e.intercepted ≡ 0
      → e.my_list ≡ []
      → e.monitored ≡ 0
      → e.listcount ≡ pos 0
      → h ≡ orig
      → IsSound orig e h
  hooked : e.intercepted ≡ 1 → e.f ≡ orig → h ≡ Handler.interceptor → IsTidy e → IsSound orig e h

-- What the module counts as the original routine of a slot: it hooks `exit_group` first.
abbrev pub original : (ℕ → Handler) → ℕ → ℕ → Handler
original boot nr_exit_group s = if s == nr_exit_group then Handler.my_exit_group else boot s

-- The invariant of the loaded module, over the call table `boot` that it found.
pub record IsLoaded (nr_syscalls nr_exit_group : ℕ) (boot : ℕ → Handler) (m : Kernel) : Type 0 where
  pub quiet : IsQuiet m
  pub custom : m.orig_custom_syscall ≡ boot 0
  pub exit_group : m.orig_exit_group ≡ boot nr_exit_group
  pub entry_point : m.sys_call_table 0 ≡ Handler.my_syscall
  pub unhooked : (m.table 0).intercepted ≡ 0
  pub slots :
      (s : ℕ)
      → 0 < s
      → s < nr_syscalls
      → IsSound (original boot nr_exit_group s) (m.table s) (m.sys_call_table s)
  pub beyond : (s : ℕ) → nr_syscalls ≤ s → m.sys_call_table s ≡ boot s

-- A run that ends, without a panic, in a result and a state with the property.
pub data Returns {A : Type 0} (P : A → Kernel → Type 0) : Option (A × Kernel) → Type 0 where
  returns : {a : A} {m : Kernel} → P a m → Returns P (some (a, m))

pub patch_run :
    (s : ℕ) (h : Handler) (m : Kernel)
    → IsQuiet m
    → patch s h m ≡ some (tt, record m { sys_call_table = update m.sys_call_table s h })
unfolding patch
patch_run s h m q = ground arith

pub patch_both_run :
    (s : ℕ) (h h' : Handler) (m : Kernel)
    → m.sys_call_table_lock ≡ false
    → m.pte.others ≢ 0
    → patch_both s h h' m
      ≡ some (
        tt,
        record m {
          sys_call_table = update (update m.sys_call_table 0 h) s h';
          pte = record { rw_bit = false; others = m.pte.others };
        },
      )
unfolding patch_both
patch_both_run s h h' m unlocked mapped = ground arith

-- An entry after `destroy_list` and the reset of `intercepted`.
abbrev pub released : Entry → Entry
released e = record e { my_list = []; listcount = pos 0; monitored = 0; intercepted = 0 }

pub release_entry_run :
    (s : ℕ) (m : Kernel)
    → IsQuiet m
    → release_entry s m ≡ some (tt, record m { table = update m.table s (released (m.table s)) })
unfolding release_entry
release_entry_run s m q =
    let e = m.table s in
    let cleared = record e { my_list = []; listcount = pos 0; monitored = 0 } in
    ground (arith, update_self m.table s cleared, update_twice m.table s cleared (released e))

-- A change of one entry and one slot that keeps them sound keeps all of them sound.
pub slots-update :
    (orig : ℕ → Handler) (nr : ℕ) (t : ℕ → Entry) (c : ℕ → Handler) (s : ℕ) (e : Entry)
    (h : Handler)
    → ((j : ℕ) → 0 < j → j < nr → IsSound (orig j) (t j) (c j))
    → IsSound (orig s) e h
    → (j : ℕ) → 0 < j
    → j < nr
    → IsSound (orig j) (update t s e j) (update c s h j)
slots-update orig nr t c s e h all new j lo hi = elim (Bool-cases (s == j)) [
  | inl same ↦ rw (same, ← eq_of_test s j same) new
  | inr other ↦ rw other (all j lo hi)
]
