-- ===== src/Interceptor/Pids.antt =====
-- A1/interceptor.c: the operations on the lists of monitored pids.
use csc369_assignments.Prelude.{
  ℕ, ◌-◌, Bool, true, false, ◌&&◌, ◌||◌, none, some, List, [], ◌∷◌, ◌==◌, if◌then◌else◌, has, erase,
}
use csc369_assignments.Prelude.Int.{pos, inc, dec, is_zero}
use csc369_assignments.Interceptor.Kernel.{
  Entry, Caller, Cmd, pure, panic, ◌>>=◌, ◌>>◌, loop_from, entry, put_entry,
}

-- `list_add` puts the new node first. The result says whether `kmalloc` found memory.
unfoldable pub add_pid_sysc : Caller → ℕ → ℕ → Cmd Bool
add_pid_sysc c pid sysc =
    if c.has_memory
    then (do
      e ← entry sysc
      put_entry sysc (record e { my_list = pid ∷ e.my_list; listcount = inc e.listcount })
      pure true)
    else pure false

-- `listcount--`, and the end of monitoring when no pid is left, unless it is for all pids.
unfoldable pub drop_count : Entry → Entry
drop_count e =
    let left = dec e.listcount in
    record e {
      listcount = left;
      monitored = if is_zero left && (e.monitored == 1) then 0 else e.monitored;
    }

-- The first node with the pid goes. The result says whether there was one.
unfoldable pub del_pid_sysc : ℕ → ℕ → Cmd Bool
unfolding drop_count
del_pid_sysc pid sysc = do
  e ← entry sysc
  if has pid e.my_list
      then (do put_entry sysc (drop_count (record e { my_list = erase pid e.my_list })); pure true)
      else pure false

-- One list of `del_pid`: every node with the pid goes. The first argument is the rest of the list,
-- and the result holds the nodes of it that stay.
unfoldable pub scrub : ℕ → List ℕ → Entry → Bool × Entry
unfolding drop_count
scrub pid [] e = (false, record e { my_list = [] })
scrub pid (q ∷ r) e =
    let hit = q == pid in
    let (found, e') = scrub pid r (if hit then drop_count e else e) in
    (hit || found, if hit then e' else record e' { my_list = q ∷ e'.my_list })

-- The body of the loop of `del_pid`, with its flag `ispid`.
unfoldable pub del_pid_step : ℕ → ℕ → Bool → Cmd Bool
del_pid_step pid s ispid = do
  e ← entry s
  let r = scrub pid e.my_list e
  put_entry s r.1
  pure (ispid || r.0)

-- `del_pid`, over the lists 1 to `nr_syscalls - 1`.
unfoldable pub del_pid : ℕ → ℕ → Cmd Bool
del_pid nr_syscalls pid = loop_from (nr_syscalls - 1) 1 (del_pid_step pid) false

unfoldable pub destroy_list : ℕ → Cmd (Unit {0})
destroy_list sysc = do
  e ← entry sysc
  put_entry sysc (record e { my_list = []; listcount = pos 0; monitored = 0 })

-- Whether the owners agree; a pid without a task is a null pointer.
unfoldable pub check_pids_same_owner : Caller → ℕ → ℕ → Cmd Bool
check_pids_same_owner c pid1 pid2 = elim (c.pid_task pid1) [
  | none ↦ panic
  | some uid1 ↦ elim (c.pid_task pid2) [ none ↦ panic | some uid2 ↦ pure (uid1 == uid2) ]
]

unfoldable pub check_pid_monitored : ℕ → ℕ → Cmd Bool
check_pid_monitored sysc pid = do e ← entry sysc; pure (has pid e.my_list)
