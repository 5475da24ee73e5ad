-- ===== src/Interceptor/Monitor.antt =====
-- A1/interceptor.c: which calls are logged.
use csc369_assignments.Prelude.{
  ℕ, ◌<◌, ◌≡◌, refl, sym, ap, ◌∙◌, ◌≢◌, true, false, ◌||◌, ◌&&◌, some, none, ◌∷◌, if◌then◌else◌,
  update, arith, has, erase, Bool-cases, inl, inr, ◌==◌, List, [], update_self, update_twice,
  update_same, length,
}
use csc369_assignments.Prelude.Int.{pos, is_zero}
use csc369_assignments.Interceptor.Pids.{drop_count}
use csc369_assignments.Interceptor.Kernel.{Handler, Entry, Kernel, Caller, Regs}
use csc369_assignments.Interceptor.Syscall.{
  done, interceptor, start_monitoring, stop_monitoring, is_valid_pid,
}
use csc369_assignments.Interceptor.Invariant.{
  IsSound, IsTidy, free, hooked, original, IsLoaded, IsQuiet, Returns, returns,
}
use csc369_assignments.Interceptor.Entries.{watching, dropping, cleared}
use csc369_assignments.Interceptor.Runs.{has_right, start_run, stop_run}

-- `interceptor` on a hooked entry.
pub log_run :
    (c : Caller) (reg : Regs) (m : Kernel)
    → interceptor c reg m
      ≡ some (
        (m.table reg.ax).f,
        record m {
          log =
              if ((m.table reg.ax).monitored == 1 && has c.pid (m.table reg.ax).my_list)
                || ((m.table reg.ax).monitored == 2)
              then (c.pid, reg) ∷ m.log
              else m.log;
        },
      )
unfolding interceptor
log_run c reg m = ground arith

not-nil : (a : ℕ) (l : List ℕ) → has a l ≡ true → l ≢ []
not-nil a [] h = λ e. cc
not-nil a (x ∷ l) h = λ e. cc

-- The test of `interceptor` says no more than this of a tidy entry.
logs_iff :
    (pid : ℕ) (e : Entry)
    → IsTidy e
    → ((e.monitored == 1 && has pid e.my_list) || (e.monitored == 2))
      ≡ (has pid e.my_list || (e.monitored == 2))
logs_iff pid e t = elim (Bool-cases (has pid e.my_list)) [
  | inr off ↦ rw off (ground arith)
  | inl on ↦ rw on (ground (arith, not-nil pid e.my_list on, t.idle, t.level))
]

module _ (nr ex : ℕ) (boot : ℕ → Handler) where
  -- A hooked system call goes on to the routine that the kernel had for it (for `exit_group`, to
  -- the module's own), and is logged, with its registers, exactly if the process is on the list of
  -- the call or the call is monitored for all processes; nothing else of the state changes.
  pub interceptor_logs :
      (c : Caller) (reg : Regs) (m : Kernel)
      → IsLoaded nr ex boot m
      → 0 < reg.ax
      → reg.ax < nr
      → m.sys_call_table reg.ax ≡ Handler.interceptor
      → original boot ex reg.ax ≢ Handler.interceptor
      → interceptor c reg m
        ≡ some (
          original boot ex reg.ax,
          record m {
            log =
                if has c.pid (m.table reg.ax).my_list || ((m.table reg.ax).monitored == 2)
                then (c.pid, reg) ∷ m.log
                else m.log;
          },
        )
  interceptor_logs c reg m l lo hi slot ne = go (l.slots reg.ax lo hi)
    where
      go :
          IsSound (original boot ex reg.ax) (m.table reg.ax) (m.sys_call_table reg.ax)
          → interceptor c reg m
            ≡ some (
              original boot ex reg.ax,
              record m {
                log =
                    if has c.pid (m.table reg.ax).my_list || ((m.table reg.ax).monitored == 2)
                    then (c.pid, reg) ∷ m.log
                    else m.log;
              },
            )
      go (free i l' z n o) = absurd (ne (sym o ∙ slot))
      go (hooked i f o t) = rw (log_run c reg m, logs_iff c.pid (m.table reg.ax) t, f) refl

-- To start monitoring one process while a system call is monitored for all ends that for all other
-- processes that are not on its list: a process whose calls were logged before is not logged after.
pub start_monitoring-narrows :
    (c d : Caller) (pid : ℕ) (reg : Regs) (m : Kernel)
    → c.pid_task c.pid ≢ none
    → IsQuiet m
    → is_valid_pid c pid ≡ true
    → has_right c pid ≡ true
    → c.has_memory ≡ true
    → pid ≢ 0
    → (m.table reg.ax).intercepted ≡ 1
    → (m.table reg.ax).monitored ≡ 2
    → has pid (m.table reg.ax).my_list ≡ false
    → has d.pid (m.table reg.ax).my_list ≡ false
    → d.pid ≢ pid
    → Returns (λ h m'. m'.log ≡ (d.pid, reg) ∷ m.log) (interceptor d reg m)
      × Returns
          (λ r m'. (r ≡ done) × Returns (λ h m''. m''.log ≡ m'.log) (interceptor d reg m'))
          (start_monitoring c reg.ax pid m)
start_monitoring-narrows c d pid reg m alive q good right memory ne taken all new off other = (
  rw (log_run d reg m) (returns (rw all refl)),
  rw (start_run c reg.ax pid m alive q good right (ground arith) new memory)
      (returns (refl, rw (log_run d reg _) (returns (ground arith)))),
)

is_zero-length : (l : List ℕ) → is_zero (pos (length l)) ≡ true → l ≡ []
is_zero-length [] h = refl
is_zero-length (x ∷ l) h = cc

-- An entry that a pid was put on, and taken off again.
dropping-watching :
    (pid : ℕ) (e : Entry) → IsTidy e → pid ≢ 0 → e.monitored ≢ 2 → dropping pid (watching pid e) ≡ e
unfolding drop_count erase
dropping-watching pid e t ne few =
    ground (arith, t.counted, t.level, t.idle, t.watched, is_zero-length e.my_list)

undo :
    (f : ℕ → Entry) (s pid : ℕ) (e : Entry)
    → (pid == 0) ≡ false
    → dropping pid e ≡ f s
    → update
        (update f s e)
        s
        (if pid == 0 then cleared (update f s e s) else dropping pid (update f s e s))
      ≡ f
undo f s pid e one back =
    rw (one, update_twice f s e (dropping pid (update f s e s)), update_self f s e, back)
      (update_same f s)

-- To start and then to stop monitoring a process for a system call that is intercepted, and not
-- monitored for all processes or for this one, succeeds twice and gives back the very same state.
pub stop_monitoring-start_monitoring :
    (c : Caller) (s pid : ℕ) (m : Kernel)
    → c.pid_task c.pid ≢ none
    → IsQuiet m
    → is_valid_pid c pid ≡ true
    → has_right c pid ≡ true
    → c.has_memory ≡ true
    → pid ≢ 0
    → (m.table s).intercepted ≡ 1
    → IsTidy (m.table s)
    → (m.table s).monitored ≢ 2
    → has pid (m.table s).my_list ≡ false
    → Returns
        (λ r m'. (r ≡ done) × (stop_monitoring c s pid m' ≡ some (done, m)))
        (start_monitoring c s pid m)
stop_monitoring-start_monitoring c s pid m alive q good right memory ne taken t few new =
    let e = watching pid (m.table s) in
    let m' = record m { table = update m.table s e } in
    let one : (pid == 0) ≡ false = ground arith in
    let on : has pid (m'.table s).my_list ≡ true = ground arith in
    rw (start_run c s pid m alive q good right (ground arith) new memory) (
      returns (
        refl,
        stop_run c s pid m' alive (ground (arith, q)) good right on
            ∙ ap (λ f. some (done, record m { table = f }))
                (undo m.table s pid e one (dropping-watching pid (m.table s) t ne few)),
      ))
