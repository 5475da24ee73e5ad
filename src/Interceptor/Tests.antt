-- ===== src/Interceptor/Tests.antt =====
-- A1/interceptor.c: runs at concrete inputs, and the theorems at inputs that meet their hypotheses.
use csc369_assignments.Prelude.{
  ℕ, ◌<◌, ◌≡◌, ◌≢◌, refl, true, false, Option, none, some, [], ◌∷◌, update, has, ◌==◌, arith,
  Bool-cases, inl, inr, eq_of_test,
}
use csc369_assignments.Prelude.Int.{pos, negsuc}
use csc369_assignments.Interceptor.Kernel.{Handler, Kernel, Caller, Regs, loop_from}
use csc369_assignments.Interceptor.Syscall.{
  Reply, done, eperm, einval, ebusy, my_syscall, dispatch, intercept, release, patch, release_entry,
  start_monitoring, stop_monitoring, is_valid_pid, may_monitor, interceptor, my_exit_group,
}
use csc369_assignments.Interceptor.Module.{init_function, patch_both, exit_function, blank}
use csc369_assignments.Interceptor.Invariant.{IsLoaded, IsQuiet, IsTidy, free, hooked, Returns}
use csc369_assignments.Interceptor.Calls.{Safe, my_syscall-Safe}
use csc369_assignments.Interceptor.Lifecycle.{
  init_function-IsLoaded, exit_function-restores, my_exit_group-forgets,
}
use csc369_assignments.Interceptor.Monitor.{
  interceptor_logs, start_monitoring-narrows, stop_monitoring-start_monitoring,
}
use csc369_assignments.Interceptor.Reach.{loaded, unload_restores}

-- A kernel with five system calls, of which number 2 is `exit_group`.
abbrev boot : ℕ → Handler
boot s = Handler.native s

abbrev kernel : Kernel
kernel = record {
  sys_call_table = boot;
  pte = record { rw_bit = false; others = 1 };
  table = λ _. blank;
  my_table_lock = false;
  sys_call_table_lock = false;
  orig_custom_syscall = Handler.null;
  orig_exit_group = Handler.null;
  log = [];
}

-- The kernel after the module was loaded.
abbrev running : Kernel
running = record kernel {
  sys_call_table = update (update boot 0 Handler.my_syscall) 2 Handler.my_exit_group;
  orig_custom_syscall = boot 0;
  orig_exit_group = boot 2;
}

running-IsLoaded : IsLoaded 5 2 boot running
running-IsLoaded = record {
  quiet = record { table_free = refl; calls_free = refl; read_only = refl; mapped = omega arith };
  custom = refl;
  exit_group = refl;
  entry_point = refl;
  unhooked = refl;
  slots = λ s lo hi. free refl refl refl refl (ground arith);
  beyond = λ s far. ground arith;
}

-- Processes 7 and 8 of user 100, process 9 of user 200, and root's process 1.
abbrev tasks : ℕ → Option ℕ
tasks =
    update (update (update (update (λ _. none) 7 (some 100)) 8 (some 100)) 9 (some 200)) 1 (some 0)

abbrev root : Caller
root = record { pid = 1; uid = 0; pid_task = tasks; has_memory = true }

abbrev user : ℕ → Caller
user p = record { pid = p; uid = 100; pid_task = tasks; has_memory = true }

-- System call 3 is hooked, and monitored for all processes.
abbrev watched : Kernel
watched = record running {
  sys_call_table = update running.sys_call_table 3 Handler.interceptor;
  table = update running.table 3 (record {
    f = Handler.native 3;
    intercepted = 1;
    monitored = 2;
    listcount = pos 1;
    my_list = 0 ∷ [];
  });
}

-- System call 3 is hooked, and monitored for no process.
abbrev tapped : Kernel
tapped = record watched {
  table = update running.table 3 (record {
    f = Handler.native 3;
    intercepted = 1;
    monitored = 0;
    listcount = pos 0;
    my_list = [];
  });
}

abbrev regs : Regs
regs = record { ax = 3; bx = 0; cx = 0; dx = 0; si = 0; di = 0; bp = 0 }

reply_to : Caller → ℕ → ℕ → ℕ → Option Reply
unfolding my_syscall dispatch intercept release start_monitoring stop_monitoring is_valid_pid
    may_monitor patch release_entry
reply_to c cmd s p = elim (my_syscall 5 c (pos cmd) (pos s) (pos p) tapped) [
  | none ↦ none
  | some (r, _) ↦ some r
]

replies :
    (reply_to (user 7) 1 4 0 ≡ some eperm)
    × (reply_to root 1 3 0 ≡ some ebusy)
    × (reply_to root 1 5 0 ≡ some einval)
    × (reply_to root 2 4 0 ≡ some einval)
    × (reply_to (user 7) 3 3 8 ≡ some done)
    × (reply_to (user 7) 3 3 9 ≡ some eperm)
    × (reply_to (user 7) 3 3 0 ≡ some eperm)
    × (reply_to (user 7) 4 3 7 ≡ some einval)
    × (reply_to root 3 4 7 ≡ some einval)
unfolding reply_to
replies = (refl, refl, refl, refl, refl, refl, refl, refl, refl)

my_syscall-Safe_example :
    Returns (Safe 5 2 boot running) (my_syscall 5 root (pos 1) (pos 3) (negsuc 0) running)
my_syscall-Safe_example =
    my_syscall-Safe 5 2 boot root (pos 1) (pos 3) (negsuc 0) running (λ e. cc) running-IsLoaded

init_function-IsLoaded_example : Returns (λ _ m'. IsLoaded 5 2 boot m') (init_function 5 2 kernel)
init_function-IsLoaded_example =
    init_function-IsLoaded 5 2 (omega arith) (omega arith) kernel (omega arith)

exit_function-restores_example :
    Returns
      (λ _ m'. IsQuiet m' × ((s : ℕ) → m'.sys_call_table s ≡ boot s))
      (exit_function 5 2 running)
exit_function-restores_example =
    exit_function-restores 5 2 (omega arith) (omega arith) boot running running-IsLoaded

watched-IsLoaded : IsLoaded 5 2 boot watched
watched-IsLoaded = record {
  quiet = record { table_free = refl; calls_free = refl; read_only = refl; mapped = omega arith };
  custom = refl;
  exit_group = refl;
  entry_point = refl;
  unhooked = refl;
  slots = λ s lo hi. elim (Bool-cases (3 == s)) [
    | inl same ↦
        rw (same, ← eq_of_test 3 s same)
          (hooked refl refl refl (record {
            counted = refl;
            distinct = (refl, tt);
            level = omega arith;
            idle = λ z. absurd (omega arith);
            watched = λ z. cc;
            everyone = λ z. refl;
          }))
    | inr other ↦ rw other (free refl refl refl refl (ground arith))
  ];
  beyond = λ s far. ground arith;
}

tapped-IsTidy : IsTidy (tapped.table 3)
tapped-IsTidy = record {
  counted = refl;
  distinct = tt;
  level = omega arith;
  idle = λ z. refl;
  watched = λ z. refl;
  everyone = λ z. absurd (omega arith);
}

running-IsQuiet : IsQuiet running
running-IsQuiet = running-IsLoaded.quiet

my_exit_group-forgets_example :
    Returns
      (λ h m'.
        (h ≡ boot 2)
        × IsLoaded 5 2 boot m'
        × ((s : ℕ)
            → 0 < s
            → s < 5
            → (has 7 (m'.table s).my_list ≡ false)
              × ((q : ℕ) → q ≢ 7 → has q (m'.table s).my_list ≡ has q (watched.table s).my_list)))
      (my_exit_group 5 (user 7) watched)
my_exit_group-forgets_example =
    my_exit_group-forgets 5 2 (omega arith) (omega arith) boot (user 7) watched (omega arith)
      watched-IsLoaded

interceptor_logs_example :
    interceptor (user 7) regs watched ≡ some (boot 3, record watched { log = (7, regs) ∷ [] })
interceptor_logs_example =
    interceptor_logs 5 2 boot (user 7) regs watched watched-IsLoaded (omega arith) (omega arith)
      refl (λ e. cc)

start_monitoring-narrows_example :
    Returns (λ h m'. m'.log ≡ (9, regs) ∷ []) (interceptor (record root { pid = 9 }) regs watched)
    × Returns
        (λ r m'.
          (r ≡ done)
          × Returns (λ h m''. m''.log ≡ m'.log) (interceptor (record root { pid = 9 }) regs m'))
        (start_monitoring root 3 7 watched)
unfolding is_valid_pid
start_monitoring-narrows_example =
    start_monitoring-narrows root (record root { pid = 9 }) 7 regs watched (λ e. cc)
      watched-IsLoaded.quiet refl refl refl (omega arith) refl refl refl refl (omega arith)

stop_monitoring-start_monitoring_example :
    Returns
      (λ r m'. (r ≡ done) × (stop_monitoring (user 7) 3 8 m' ≡ some (done, tapped)))
      (start_monitoring (user 7) 3 8 tapped)
unfolding is_valid_pid
stop_monitoring-start_monitoring_example =
    stop_monitoring-start_monitoring (user 7) 3 8 tapped (λ e. cc)
      (record { table_free = refl; calls_free = refl; read_only = refl; mapped = omega arith }) refl
      refl refl (omega arith) refl tapped-IsTidy (omega arith) refl

-- The state that `init_function` leaves.
loaded_kernel : (m : Kernel) × (init_function 5 2 kernel ≡ some (tt, m))
unfolding init_function patch_both loop_from
loaded_kernel = (_, refl)

unload_restores_example :
    Returns
      (λ _ m'. IsQuiet m' × ((s : ℕ) → m'.sys_call_table s ≡ boot s))
      (exit_function 5 2 loaded_kernel.0)
unload_restores_example =
    unload_restores 5 2 kernel (omega arith) (omega arith) (omega arith) (loaded loaded_kernel.1)
