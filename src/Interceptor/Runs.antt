-- ===== src/Interceptor/Runs.antt =====
-- A1/interceptor.c: what the monitoring commands do when their checks pass.
use csc369_assignments.Prelude.{
  ℕ, ◌≡◌, ◌≢◌, Bool, true, false, Option, some, ◌∷◌, ◌==◌, if◌then◌else◌, update, arith, has,
  update_self, update_twice, ◌&&◌, ◌||◌, not, none,
}
use csc369_assignments.Prelude.Int.{inc}
use csc369_assignments.Interceptor.Kernel.{Kernel, Caller}
use csc369_assignments.Interceptor.Pids.{drop_count}
use csc369_assignments.Interceptor.Syscall.{
  done, enomem, is_valid_pid, may_monitor, start_monitoring, stop_monitoring,
}
use csc369_assignments.Interceptor.Invariant.{IsQuiet}
use csc369_assignments.Interceptor.Entries.{watching, dropping, cleared}

-- Who may start and stop the monitoring of a pid: root, and for a process its owner.
abbrev pub same_owner : Option ℕ → Option ℕ → Bool
same_owner (some a) (some b) = a == b
same_owner (some a) none = false
same_owner none b = false

abbrev pub has_right : Caller → ℕ → Bool
has_right c pid = (c.uid == 0) || (not (pid == 0) && same_owner (c.pid_task c.pid) (c.pid_task pid))

pub may_monitor_run :
    (c : Caller) (pid : ℕ) (m : Kernel)
    → c.pid_task c.pid ≢ none
    → is_valid_pid c pid ≡ true
    → may_monitor c pid m ≡ some (has_right c pid, m)
unfolding is_valid_pid may_monitor
may_monitor_run c pid m alive good = ground arith

module _ (c : Caller) (s pid : ℕ) (m : Kernel) (alive : c.pid_task c.pid ≢ none) (q : IsQuiet m)
    (good : is_valid_pid c pid ≡ true) (right : has_right c pid ≡ true) where
  pub start_run :
      ((m.table s).intercepted == 1) ≡ true
      → has pid (m.table s).my_list ≡ false
      → c.has_memory ≡ true
      → start_monitoring c s pid m
        ≡ some (done, record m { table = update m.table s (watching pid (m.table s)) })
  unfolding start_monitoring
  start_run taken new memory =
      let e = m.table s in
      let e' = record e { my_list = pid ∷ e.my_list; listcount = inc e.listcount } in
      rw (good, may_monitor_run c pid m alive good, right, taken, new, q.table_free, memory)
        (ground (
          arith,
          q.table_free,
          update_self m.table s e',
          update_twice m.table s e' (watching pid e),
        ))

  pub stop_run :
      has pid (m.table s).my_list ≡ true
      → stop_monitoring c s pid m
        ≡ some (
          done,
          record m {
            table =
                update m.table s
                  (if pid == 0 then cleared (m.table s) else dropping pid (m.table s));
          },
        )
  unfolding stop_monitoring drop_count
  stop_run on =
      let e = m.table s in
      let e' = dropping pid e in
      rw (good, may_monitor_run c pid m alive good, right, on, q.table_free, on)
        (ground
          (arith, q.table_free, update_self m.table s e', update_twice m.table s e' (cleared e)))

  pub start_fails :
      ((m.table s).intercepted == 1) ≡ true
      → has pid (m.table s).my_list ≡ false
      → c.has_memory ≡ false
      → start_monitoring c s pid m ≡ some (enomem, m)
  unfolding start_monitoring
  start_fails taken new memory =
      rw (good, may_monitor_run c pid m alive good, right, taken, new, q.table_free, memory)
        (ground (arith, q.table_free))
