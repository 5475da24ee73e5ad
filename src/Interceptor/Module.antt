-- ===== src/Interceptor/Module.antt =====
-- A1/interceptor.c: loading and unloading the module.
use csc369_assignments.Prelude.{ℕ, some, [], ◌==◌, if◌then◌else◌}
use csc369_assignments.Prelude.Int.{pos}
use csc369_assignments.Interceptor.Kernel.{
  Handler, Entry, Cmd, pure, ◌>>=◌, ◌>>◌, loop_from, entry, put_entry, set_addr_rw, set_addr_ro,
  store_handler, lock_calls, unlock_calls, unlock_table,
}
use csc369_assignments.Interceptor.Syscall.{patch, release_entry}

abbrev pub blank : Entry
blank = record { f = Handler.null; intercepted = 0; monitored = 0; listcount = pos 0; my_list = [] }

-- Two stores in one critical section.
unfoldable pub patch_both : ℕ → Handler → Handler → Cmd (Unit {0})
unfolding lock_calls set_addr_rw store_handler set_addr_ro unlock_calls
patch_both nr_exit_group h h' = do
  lock_calls
  set_addr_rw
  store_handler 0 h
  store_handler nr_exit_group h'
  set_addr_ro
  unlock_calls

-- `spin_lock_init` leaves a lock free, as an unlock does.
unfoldable pub init_function : ℕ → ℕ → Cmd (Unit {0})
unfolding unlock_table unlock_calls
init_function nr_syscalls nr_exit_group = do
  λ m. some (
    tt,
    record m {
      orig_custom_syscall = m.sys_call_table 0;
      orig_exit_group = m.sys_call_table nr_exit_group;
    },
  )
  unlock_table
  unlock_calls
  patch_both nr_exit_group Handler.my_syscall Handler.my_exit_group
  loop_from nr_syscalls 0 (λ ind _. put_entry ind blank) tt

-- The body of the loop of `exit_function`.
unfoldable pub release_step : ℕ → Unit {0} → Cmd (Unit {0})
release_step ind _ = do
  e ← entry ind
  if e.intercepted == 1 then (do release_entry ind; e' ← entry ind; patch ind e'.f) else pure tt

unfoldable pub exit_function : ℕ → ℕ → Cmd (Unit {0})
exit_function nr_syscalls nr_exit_group = do
  loop_from nr_syscalls 0 release_step tt
  λ m. patch_both nr_exit_group m.orig_custom_syscall m.orig_exit_group m
