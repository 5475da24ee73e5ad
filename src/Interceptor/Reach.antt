-- ===== src/Interceptor/Reach.antt =====
-- A1/interceptor.c: the states that a loaded module can be in.
use mathlib.Core.Path.{subst}
use csc369_assignments.Interceptor.Monitor.{log_run}
use csc369_assignments.Prelude.{ℕ, ◌<◌, ◌≡◌, ◌≢◌, Option, none, some}
use csc369_assignments.Prelude.Int.{ℤ}
use csc369_assignments.Interceptor.Kernel.{Handler, Kernel, Caller, Regs}
use csc369_assignments.Interceptor.Syscall.{Reply, my_syscall, interceptor, my_exit_group}
use csc369_assignments.Interceptor.Module.{init_function, exit_function}
use csc369_assignments.Interceptor.Invariant.{IsQuiet, IsLoaded, Returns, returns}
use csc369_assignments.Interceptor.Calls.{my_syscall-Safe}
use csc369_assignments.Interceptor.Lifecycle.{
  init_function-IsLoaded, exit_function-restores, my_exit_group-forgets,
}

-- The module is loaded into the kernel `m0`; then processes call `my_syscall`, exit, and run into
-- `interceptor`, in any order.
pub data Reach (nr ex : ℕ) (m0 : Kernel) : Kernel → Type 0 where
  loaded : {m : Kernel} → init_function nr ex m0 ≡ some (tt, m) → Reach nr ex m0 m
  called :
      {m m' : Kernel} (c : Caller) (cmd syscall pid : ℤ) (r : Reply)
      → c.pid_task c.pid ≢ none
      → Reach nr ex m0 m
      → my_syscall nr c cmd syscall pid m ≡ some (r, m')
      → Reach nr ex m0 m'
  exited :
      {m m' : Kernel} (c : Caller) (h : Handler)
      → c.pid ≢ 0
      → Reach nr ex m0 m
      → my_exit_group nr c m ≡ some (h, m')
      → Reach nr ex m0 m'
  trapped :
      {m m' : Kernel} (c : Caller) (reg : Regs) (h : Handler)
      → Reach nr ex m0 m
      → interceptor c reg m ≡ some (h, m')
      → Reach nr ex m0 m'

abbrev Ensures : {A : Type 0} → (A → Kernel → Type 0) → Option (A × Kernel) → Type 0
Ensures P none = ⊥
Ensures P (some r) = P r.0 r.1

ensures :
    {A : Type 0} {P : A → Kernel → Type 0} {r : Option (A × Kernel)} → Returns P r → Ensures P r
ensures (returns p) = p

-- What a run that returns is known to give.
pub outcome :
    {A : Type 0} {P : A → Kernel → Type 0} {r : Option (A × Kernel)} {a : A} {m : Kernel}
    → Returns P r
    → r ≡ some (a, m)
    → P a m
outcome {P} run e = subst (Ensures P) e (ensures run)

trap-IsLoaded :
    (nr ex : ℕ) (boot : ℕ → Handler) (c : Caller) (reg : Regs) (m : Kernel)
    → IsLoaded nr ex boot m
    → Returns (λ h m'. IsLoaded nr ex boot m') (interceptor c reg m)
trap-IsLoaded nr ex boot c reg m l = rw (log_run c reg m) (
    returns (record {
      quiet = record {
        table_free = l.quiet.table_free;
        calls_free = l.quiet.calls_free;
        read_only = l.quiet.read_only;
        mapped = l.quiet.mapped;
      };
      custom = l.custom;
      exit_group = l.exit_group;
      entry_point = l.entry_point;
      unhooked = l.unhooked;
      slots = l.slots;
      beyond = l.beyond;
    }))

module _ (nr ex : ℕ) (m0 : Kernel) (lo : 0 < ex) (hi : ex < nr) (mapped : m0.pte.others ≢ 0) where
  pub Reach-IsLoaded : {m : Kernel} → Reach nr ex m0 m → IsLoaded nr ex m0.sys_call_table m
  Reach-IsLoaded (loaded e) = outcome (init_function-IsLoaded nr ex lo hi m0 mapped) e
  Reach-IsLoaded (called {m} c cmd s p r alive before e) =
      (outcome (my_syscall-Safe nr ex m0.sys_call_table c cmd s p m alive (Reach-IsLoaded before))
        e).0
  Reach-IsLoaded (exited {m} c h ne before e) =
      (outcome (my_exit_group-forgets nr ex lo hi m0.sys_call_table c m ne (Reach-IsLoaded before))
        e).1
  Reach-IsLoaded (trapped {m} c reg h before e) =
      outcome (trap-IsLoaded nr ex m0.sys_call_table c reg m (Reach-IsLoaded before)) e

  -- Whatever processes did to a loaded module, by calls of `my_syscall`, by exits and by intercepted
  -- calls in any order, unloading it returns, gives every slot of the call table back the routine
  -- that it had before the module was loaded, frees both locks and leaves the table read-only.
  pub unload_restores :
      {m : Kernel}
      → Reach nr ex m0 m
      → Returns
          (λ _ m'. IsQuiet m' × ((s : ℕ) → m'.sys_call_table s ≡ m0.sys_call_table s))
          (exit_function nr ex m)
  unload_restores {m} r = exit_function-restores nr ex lo hi m0.sys_call_table m (Reach-IsLoaded r)
