-- ===== src/Interceptor/Kernel.antt =====
-- A1/interceptor.c: its global state, the page protection of the call table, and the spin locks.
-- A step that the kernel does not survive (a lock taken twice, a write to a read-only page, a null
-- pointer) is `none`.
use csc369_assignments.Prelude.{
  ℕ, zero, suc, Bool, true, false, Option, none, some, List, ◌==◌, if◌then◌else◌, update,
}
use csc369_assignments.Prelude.Int.{ℤ}

-- What a slot of `sys_call_table` points to: a routine of the kernel's own, named by a number, or
-- one of this module's.
pub data Handler : Type 0 where
  null : Handler
  native : ℕ → Handler
  interceptor my_syscall my_exit_group : Handler

-- `mytable`; the list of `struct pid_list` nodes is the list of their pids.
pub record Entry : Type 0 where
  pub f : Handler
  pub intercepted : ℕ
  pub monitored : ℕ
  pub listcount : ℤ
  pub my_list : List ℕ

-- The page table entry of the page that holds `sys_call_table`: its `_PAGE_RW` bit, and the rest.
pub record Pte : Type 0 where
  pub rw_bit : Bool
  pub others : ℕ

-- `struct pt_regs`, as far as the module reads it.
pub record Regs : Type 0 where
  pub ax : ℕ
  pub bx : ℕ
  pub cx : ℕ
  pub dx : ℕ
  pub si : ℕ
  pub di : ℕ
  pub bp : ℕ

-- A line of `log_message`: the pid, and the registers that it prints.
abbrev pub LogLine : Type 0
LogLine = ℕ × Regs

pub record Kernel : Type 0 where
  pub sys_call_table : ℕ → Handler
  pub pte : Pte
  pub table : ℕ → Entry
  pub my_table_lock : Bool
  pub sys_call_table_lock : Bool
  pub orig_custom_syscall : Handler
  pub orig_exit_group : Handler
  pub log : List LogLine

-- What the kernel tells about a call: `current->pid`, `current_uid()`, the owner of the task that
-- `pid_task(find_vpid(pid), PIDTYPE_PID)` finds, and whether `kmalloc` finds memory.
pub record Caller : Type 0 where
  pub pid : ℕ
  pub uid : ℕ
  pub pid_task : ℕ → Option ℕ
  pub has_memory : Bool

abbrev pub Cmd : Type 0 → Type 0
Cmd A = Kernel → Option (A × Kernel)

abbrev pub pure : {A : Type 0} → A → Cmd A
pure a m = some (a, m)

abbrev pub panic : {A : Type 0} → Cmd A
panic m = none

module _ {A B : Type 0} where
  abbrev pub and_then : Option (A × Kernel) → (A → Cmd B) → Option (B × Kernel)
  and_then none k = none
  and_then (some r) k = k r.0 r.1

  infixl 5 ◌>>=◌ ◌>>◌
  abbrev pub ◌>>=◌ : Cmd A → (A → Cmd B) → Cmd B
  m >>= k = λ s. and_then (m s) k

  abbrev pub ◌>>◌ : Cmd A → Cmd B → Cmd B
  m >> n = m >>= λ _. n

-- `for (; s < s + rounds; s++)` over a body that carries a value.
unfoldable pub loop_from : {A : Type 0} → ℕ → ℕ → (ℕ → A → Cmd A) → A → Cmd A
loop_from zero s body a = pure a
loop_from (suc k) s body a = λ m. and_then (body s a m) (loop_from k (suc s) body)

unfoldable pub set_addr_rw : Cmd (Unit {0})
set_addr_rw m = some (
  tt,
  if m.pte.others == 0
      then m
      else record m { pte = record { rw_bit = true; others = m.pte.others } },
)

unfoldable pub set_addr_ro : Cmd (Unit {0})
set_addr_ro m = some (tt, record m { pte = record { rw_bit = false; others = m.pte.others } })

-- A store to a slot of the call table.
unfoldable pub store_handler : ℕ → Handler → Cmd (Unit {0})
store_handler s h m =
    if m.pte.rw_bit
    then some (tt, record m { sys_call_table = update m.sys_call_table s h })
    else none

unfoldable pub lock_calls : Cmd (Unit {0})
lock_calls m =
    if m.sys_call_table_lock then none else some (tt, record m { sys_call_table_lock = true })

unfoldable pub unlock_calls : Cmd (Unit {0})
unlock_calls m = some (tt, record m { sys_call_table_lock = false })

unfoldable pub lock_table : Cmd (Unit {0})
lock_table m = if m.my_table_lock then none else some (tt, record m { my_table_lock = true })

unfoldable pub unlock_table : Cmd (Unit {0})
unlock_table m = some (tt, record m { my_table_lock = false })

abbrev pub entry : ℕ → Cmd Entry
entry s m = some (m.table s, m)

abbrev pub put_entry : ℕ → Entry → Cmd (Unit {0})
put_entry s e m = some (tt, record m { table = update m.table s e })
