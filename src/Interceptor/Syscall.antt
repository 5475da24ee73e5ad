-- ===== src/Interceptor/Syscall.antt =====
-- A1/interceptor.c: the system calls that the module installs.
use csc369_assignments.Prelude.{
  ℕ, Bool, true, false, not, ◌&&◌, ◌||◌, none, some, ◌∷◌, ltb, ◌==◌, if◌then◌else◌,
}
use csc369_assignments.Prelude.Int.{ℤ, pos, negsuc}
use csc369_assignments.Interceptor.Kernel.{
  Handler, Caller, Regs, Cmd, pure, ◌>>=◌, ◌>>◌, entry, put_entry, set_addr_rw, set_addr_ro,
  store_handler, lock_calls, unlock_calls, lock_table, unlock_table,
}
use csc369_assignments.Interceptor.Pids.{
  add_pid_sysc, del_pid_sysc, del_pid, destroy_list, check_pids_same_owner, check_pid_monitored,
}

-- What `my_syscall` returns: 0, or a negated error number.
pub data Reply : Type 0 where
  done eperm einval ebusy enomem : Reply

-- A store to the call table, in its critical section and with the page writable.
unfoldable pub patch : ℕ → Handler → Cmd (Unit {0})
unfolding lock_calls set_addr_rw store_handler set_addr_ro unlock_calls
patch s h = do lock_calls; set_addr_rw; store_handler s h; set_addr_ro; unlock_calls

-- `case REQUEST_SYSCALL_INTERCEPT`
unfoldable pub intercept : Caller → ℕ → Cmd Reply
intercept c s = if not (c.uid == 0) then pure eperm else do
  e ← entry s
  if e.intercepted == 0
      then (do
        h ← (λ m. some (m.sys_call_table s, m))
        put_entry s (record e { f = h; intercepted = 1 })
        patch s Handler.interceptor
        pure done)
      else pure ebusy

-- The critical section of `case REQUEST_SYSCALL_RELEASE`, and of the loop of `exit_function`.
unfoldable pub release_entry : ℕ → Cmd (Unit {0})
unfolding lock_table destroy_list unlock_table
release_entry s = do
  lock_table
  destroy_list s
  e ← entry s
  put_entry s (record e { intercepted = 0 })
  unlock_table

-- `case REQUEST_SYSCALL_RELEASE`
unfoldable pub release : Caller → ℕ → Cmd Reply
release c s = if not (c.uid == 0) then pure eperm else do
  e ← entry s
  if e.intercepted == 1
      then (do release_entry s; e' ← entry s; patch s e'.f; pure done)
      else pure einval

-- `(pid > 0 && pid_task(find_vpid(pid), PIDTYPE_PID) != NULL) || pid == 0`
unfoldable pub is_valid_pid : Caller → ℕ → Bool
is_valid_pid c pid =
    (ltb 0 pid && elim (c.pid_task pid) [ none ↦ false | some _ ↦ true ]) || (pid == 0)

-- The checks of the two monitoring commands on the rights of the caller.
unfoldable pub may_monitor : Caller → ℕ → Cmd Bool
unfolding check_pids_same_owner
may_monitor c pid =
    if c.uid == 0
    then pure true
    else if pid == 0
    then pure false
    else check_pids_same_owner c c.pid pid

-- `case REQUEST_START_MONITORING`
unfoldable pub start_monitoring : Caller → ℕ → ℕ → Cmd Reply
unfolding check_pid_monitored lock_table add_pid_sysc unlock_table
start_monitoring c s pid = if not (is_valid_pid c pid) then pure einval else do
  allowed ← may_monitor c pid
  if not allowed then pure eperm else do
    e ← entry s
    if not (e.intercepted == 1) then pure einval else do
      busy ← check_pid_monitored s pid
      if busy then pure ebusy else do
        lock_table
        added ← add_pid_sysc c pid s
        if not added then (do unlock_table; pure enomem) else do
          e' ← entry s
          put_entry s (record e' { monitored = if pid == 0 then 2 else 1 })
          unlock_table
          pure done

-- `case REQUEST_STOP_MONITORING`
unfoldable pub stop_monitoring : Caller → ℕ → ℕ → Cmd Reply
unfolding check_pid_monitored lock_table del_pid_sysc destroy_list unlock_table
stop_monitoring c s pid = if not (is_valid_pid c pid) then pure einval else do
  allowed ← may_monitor c pid
  if not allowed then pure eperm else do
    watched ← check_pid_monitored s pid
    if not watched then pure einval else do
      lock_table
      del_pid_sysc pid s
      if pid == 0 then destroy_list s else pure tt
      unlock_table
      pure done

-- A negative pid passes no test.
abbrev pub with_pid : (ℕ → Cmd Reply) → ℤ → Cmd Reply
with_pid k (pos pid) = k pid
with_pid k (negsuc _) = pure einval

-- The switch on the command, for a system call in range.
unfoldable pub dispatch : Caller → ℤ → ℕ → ℤ → Cmd Reply
dispatch c (negsuc _) s pid = pure einval
dispatch c (pos cmd) s pid =
    if cmd == 1
    then intercept c s
    else if cmd == 2
    then release c s
    else if cmd == 3
    then with_pid (start_monitoring c s) pid
    else if cmd == 4
    then with_pid (stop_monitoring c s) pid
    else pure einval

-- `my_syscall(cmd, syscall, pid)`; the arguments are of type `int`.
unfoldable pub my_syscall : ℕ → Caller → ℤ → ℤ → ℤ → Cmd Reply
unfolding dispatch
my_syscall nr_syscalls c cmd (negsuc _) pid = pure einval
my_syscall nr_syscalls c cmd (pos s) pid =
    if ltb s nr_syscalls && ltb 0 s then dispatch c cmd s pid else pure einval

-- `interceptor`: a line of the log where the process is monitored. The result is the routine that
-- it calls in the end.
unfoldable pub interceptor : Caller → Regs → Cmd Handler
unfolding check_pid_monitored
interceptor c reg = do
  e ← entry reg.ax
  listed ← check_pid_monitored reg.ax c.pid
  if (e.monitored == 1 && listed) || (e.monitored == 2)
      then (λ m. some (tt, record m { log = (c.pid, reg) ∷ m.log }))
      else pure tt
  e' ← entry reg.ax
  pure e'.f

-- `my_exit_group`: the result is the routine that it calls in the end.
unfoldable pub my_exit_group : ℕ → Caller → Cmd Handler
unfolding lock_table unlock_table
my_exit_group nr_syscalls c = do
  lock_table
  del_pid nr_syscalls c.pid
  unlock_table
  λ m. some (m.orig_exit_group, m)
