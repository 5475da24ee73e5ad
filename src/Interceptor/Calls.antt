-- ===== src/Interceptor/Calls.antt =====
-- A1/interceptor.c: every command of `my_syscall` keeps the invariant, and an error changes nothing.
use csc369_assignments.Prelude.{
  ℕ, ◌<◌, ◌≡◌, refl, ◌≢◌, some, ◌==◌, update, arith, has, Bool-cases, inl, inr, update_self,
  update_same, ltb, ◌&&◌, none,
}
use csc369_assignments.Prelude.Int.{ℤ, pos, negsuc}
use csc369_assignments.Interceptor.Kernel.{Handler, Entry, Kernel, Caller}
use csc369_assignments.Interceptor.Syscall.{
  Reply, done, einval, intercept, release, is_valid_pid, start_monitoring, stop_monitoring,
  dispatch, with_pid, my_syscall,
}
use csc369_assignments.Interceptor.Invariant.{
  IsSound, original, IsLoaded, Returns, returns, patch_run, released, release_entry_run,
  slots-update,
}
use csc369_assignments.Interceptor.Runs.{
  may_monitor_run, start_run, start_fails, stop_run, has_right,
}
use csc369_assignments.Interceptor.Entries.{
  intercepted-IsSound, released-IsSound, watching-IsSound, stopping-IsSound,
}

module _ (nr ex : ℕ) (boot : ℕ → Handler) where
  -- A call that ends in the invariant, and that changes nothing when it reports an error.
  abbrev pub Safe : Kernel → Reply → Kernel → Type 0
  Safe m r m' = IsLoaded nr ex boot m' × (r ≢ done → m' ≡ m)

  -- A change of one entry and its slot.
  pub IsLoaded-update :
      (m : Kernel) (s : ℕ) (e : Entry) (h : Handler)
      → IsLoaded nr ex boot m
      → 0 < s
      → s < nr
      → IsSound (original boot ex s) e h
      → IsLoaded nr ex boot
          (record m { table = update m.table s e; sys_call_table = update m.sys_call_table s h })
  IsLoaded-update m s e h l lo hi new = record {
    quiet = record {
      table_free = l.quiet.table_free;
      calls_free = l.quiet.calls_free;
      read_only = l.quiet.read_only;
      mapped = l.quiet.mapped;
    };
    custom = l.custom;
    exit_group = l.exit_group;
    entry_point = ground (arith, l.entry_point);
    unhooked = ground (arith, l.unhooked);
    slots = slots-update (original boot ex) nr m.table m.sys_call_table s e h l.slots new;
    beyond = λ j far. ground (arith, l.beyond j far);
  }

  -- A change of one entry alone.
  pub IsLoaded-entry :
      (m : Kernel) (s : ℕ) (e : Entry)
      → IsLoaded nr ex boot m
      → 0 < s
      → s < nr
      → IsSound (original boot ex s) e (m.sys_call_table s)
      → IsLoaded nr ex boot (record m { table = update m.table s e })
  IsLoaded-entry m s e l lo hi new =
      rw (update_same m.sys_call_table s) at
        (IsLoaded-update m s e (m.sys_call_table s) l lo hi new)

  pub intercept-Safe :
      (c : Caller) (s : ℕ) (m : Kernel)
      → IsLoaded nr ex boot m
      → 0 < s
      → s < nr
      → Returns (Safe m) (intercept c s m)
  unfolding intercept
  intercept-Safe c s m l lo hi = elim (Bool-cases (c.uid == 0)) [
    | inr user ↦ rw user (returns (l, λ _. refl))
    | inl root ↦ elim (Bool-cases ((m.table s).intercepted == 0)) [
      | inr taken ↦ rw (root, taken) (returns (l, λ _. refl))
      | inl idle ↦
          let e = record (m.table s) { f = m.sys_call_table s; intercepted = 1 } in
          rw
            (
              root,
              idle,
              patch_run s Handler.interceptor (record m { table = update m.table s e })
                  (ground (arith, l.quiet)),
            )
            (returns (
              IsLoaded-update m s e Handler.interceptor l lo hi (
                  intercepted-IsSound (original boot ex s) (m.sys_call_table s) (m.table s)
                    (l.slots s lo hi) idle),
              λ ne. absurd (ne refl),
            ))
    ]
  ]

  pub release-Safe :
      (c : Caller) (s : ℕ) (m : Kernel)
      → IsLoaded nr ex boot m
      → 0 < s
      → s < nr
      → Returns (Safe m) (release c s m)
  unfolding release
  release-Safe c s m l lo hi = elim (Bool-cases (c.uid == 0)) [
    | inr user ↦ rw user (returns (l, λ _. refl))
    | inl root ↦ elim (Bool-cases ((m.table s).intercepted == 1)) [
      | inr idle ↦ rw (root, idle) (returns (l, λ _. refl))
      | inl taken ↦
          let e = released (m.table s) in
          let same = update_self m.table s e in
          rw (root, taken, release_entry_run s m l.quiet)
            (rw (patch_run s _ (record m { table = update m.table s e }) (ground (arith, l.quiet)))
              (returns (
                IsLoaded-update m s e _ l lo hi (
                    rw same (
                      released-IsSound (original boot ex s) (m.sys_call_table s) (m.table s)
                        (l.slots s lo hi) taken)),
                λ ne. absurd (ne refl),
              )))
    ]
  ]

  pub start_monitoring-Safe :
      (c : Caller) (s pid : ℕ) (m : Kernel)
      → c.pid_task c.pid ≢ none
      → IsLoaded nr ex boot m
      → 0 < s
      → s < nr
      → Returns (Safe m) (start_monitoring c s pid m)
  unfolding start_monitoring
  start_monitoring-Safe c s pid m alive l lo hi = elim (Bool-cases (is_valid_pid c pid)) [
    | inr bad ↦ rw bad (returns (l, λ _. refl))
    | inl good ↦ elim (Bool-cases (has_right c pid)) [
      | inr bad ↦ rw (good, may_monitor_run c pid m alive good, bad) (returns (l, λ _. refl))
      | inl right ↦ elim (Bool-cases ((m.table s).intercepted == 1)) [
        | inr bad ↦
            rw (good, may_monitor_run c pid m alive good, right, bad) (returns (l, λ _. refl))
        | inl taken ↦ elim (Bool-cases (has pid (m.table s).my_list)) [
          | inl bad ↦
              rw (good, may_monitor_run c pid m alive good, right, taken, bad)
                (returns (l, λ _. refl))
          | inr new ↦ elim (Bool-cases c.has_memory) [
            | inr bad ↦
                rw (start_fails c s pid m alive l.quiet good right taken new bad)
                  (returns (l, λ _. refl))
            | inl memory ↦ rw (start_run c s pid m alive l.quiet good right taken new memory) (
                returns (
                  IsLoaded-entry m s _ l lo hi (
                      watching-IsSound (original boot ex s) (m.sys_call_table s) (m.table s) pid
                        (l.slots s lo hi) taken new),
                  λ ne. absurd (ne refl),
                ))
          ]
        ]
      ]
    ]
  ]

  pub stop_monitoring-Safe :
      (c : Caller) (s pid : ℕ) (m : Kernel)
      → c.pid_task c.pid ≢ none
      → IsLoaded nr ex boot m
      → 0 < s
      → s < nr
      → Returns (Safe m) (stop_monitoring c s pid m)
  unfolding stop_monitoring
  stop_monitoring-Safe c s pid m alive l lo hi = elim (Bool-cases (is_valid_pid c pid)) [
    | inr bad ↦ rw bad (returns (l, λ _. refl))
    | inl good ↦ elim (Bool-cases (has_right c pid)) [
      | inr bad ↦ rw (good, may_monitor_run c pid m alive good, bad) (returns (l, λ _. refl))
      | inl right ↦ elim (Bool-cases (has pid (m.table s).my_list)) [
        | inr bad ↦
            rw (good, may_monitor_run c pid m alive good, right, bad) (returns (l, λ _. refl))
        | inl on ↦ rw (stop_run c s pid m alive l.quiet good right on) (
            returns (
              IsLoaded-entry m s _ l lo hi (
                  stopping-IsSound (original boot ex s) (m.sys_call_table s) (m.table s) pid
                    (l.slots s lo hi) on),
              λ ne. absurd (ne refl),
            ))
      ]
    ]
  ]

  -- The state after a command that is out of range, or unknown.
  refused : (r : Reply) (m : Kernel) → IsLoaded nr ex boot m → Returns (Safe m) (some (r, m))
  refused r m l = returns (l, λ _. refl)

  pub dispatch-Safe :
      (c : Caller) (cmd : ℤ) (s : ℕ) (pid : ℤ) (m : Kernel)
      → c.pid_task c.pid ≢ none
      → IsLoaded nr ex boot m
      → 0 < s
      → s < nr
      → Returns (Safe m) (dispatch c cmd s pid m)
  unfolding dispatch
  dispatch-Safe c (negsuc n) s pid m alive l lo hi = refused einval m l
  dispatch-Safe c (pos n) s pid m alive l lo hi = elim (Bool-cases (n == 1)) [
    | inl one ↦ rw one (intercept-Safe c s m l lo hi)
    | inr not_one ↦ elim (Bool-cases (n == 2)) [
      | inl two ↦ rw (not_one, two) (release-Safe c s m l lo hi)
      | inr not_two ↦ elim (Bool-cases (n == 3)) [
        | inl three ↦ rw (not_one, not_two, three) (start pid)
        | inr not_three ↦ elim (Bool-cases (n == 4)) [
          | inl four ↦ rw (not_one, not_two, not_three, four) (stop pid)
          | inr other ↦ rw (not_one, not_two, not_three, other) (refused einval m l)
        ]
      ]
    ]
  ]
    where
      start : (p : ℤ) → Returns (Safe m) (with_pid (start_monitoring c s) p m)
      start (pos p) = start_monitoring-Safe c s p m alive l lo hi
      start (negsuc p) = refused einval m l

      stop : (p : ℤ) → Returns (Safe m) (with_pid (stop_monitoring c s) p m)
      stop (pos p) = stop_monitoring-Safe c s p m alive l lo hi
      stop (negsuc p) = refused einval m l

  -- Every call of `my_syscall` by a live process on the loaded module returns (it neither takes a
  -- lock twice, nor writes to the call table while that is read-only, nor follows a null pointer),
  -- leaves both locks free and the call table read-only, and keeps the invariant; a call that
  -- reports an error leaves the whole state as it was.
  pub my_syscall-Safe :
      (c : Caller) (cmd syscall pid : ℤ) (m : Kernel)
      → c.pid_task c.pid ≢ none
      → IsLoaded nr ex boot m
      → Returns (Safe m) (my_syscall nr c cmd syscall pid m)
  unfolding my_syscall
  my_syscall-Safe c cmd (negsuc s) pid m alive l = refused einval m l
  my_syscall-Safe c cmd (pos s) pid m alive l = elim (Bool-cases (ltb s nr && ltb 0 s)) [
    | inr out ↦ rw out (refused einval m l)
    | inl within ↦ rw within (dispatch-Safe c cmd s pid m alive l (ground arith) (ground arith))
  ]
