-- ===== src/Interceptor/Lifecycle.antt =====
-- A1/interceptor.c: loading, running and unloading the module.
use csc369_assignments.Prelude.{
  ℕ, ◌<◌, ◌≡◌, refl, ◌≢◌, true, false, ltb, leb, ◌&&◌, update, arith, has, Bool-cases, inl, inr,
}
use csc369_assignments.Interceptor.Kernel.{Handler, Entry, Kernel, Caller}
use csc369_assignments.Interceptor.Syscall.{my_exit_group}
use csc369_assignments.Interceptor.Module.{init_function, exit_function}
use csc369_assignments.Interceptor.Invariant.{
  IsSound, IsQuiet, free, hooked, IsLoaded, Returns, returns, patch_both_run,
}
use csc369_assignments.Interceptor.Entries.{scrub-IsSound, scrub_list}
use csc369_assignments.Interceptor.Loops.{bind, mono, init_loop, del_pid_run, exit_loop, Unhooked}

module _ (nr ex : ℕ) (lo : 0 < ex) (hi : ex < nr) where
  -- Loading the module into a kernel whose call table is mapped returns, with the call table hooked
  -- at `MY_CUSTOM_SYSCALL` and at `__NR_exit_group` alone, and establishes the invariant.
  pub init_function-IsLoaded :
      (m : Kernel)
      → m.pte.others ≢ 0
      → Returns (λ _ m'. IsLoaded nr ex m.sys_call_table m') (init_function nr ex m)
  unfolding init_function
  init_function-IsLoaded m mapped =
      let m1 = record m {
        my_table_lock = false;
        sys_call_table_lock = false;
        orig_custom_syscall = m.sys_call_table 0;
        orig_exit_group = m.sys_call_table ex;
      } in
      let m2 = record m1 {
        sys_call_table =
            update (update m.sys_call_table 0 Handler.my_syscall) ex Handler.my_exit_group;
        pte = record { rw_bit = false; others = m.pte.others };
      } in
      rw (patch_both_run ex Handler.my_syscall Handler.my_exit_group m1 refl mapped) (
        mono (init_loop nr m2) λ u n p. rw p.0 (record {
          quiet = record {
            table_free = refl;
            calls_free = refl;
            read_only = refl;
            mapped = mapped;
          };
          custom = refl;
          exit_group = refl;
          entry_point = ground arith;
          unhooked = rw (p.1 0 (omega arith)) refl;
          slots = λ s above below. rw (p.1 s below) (free refl refl refl refl (ground arith));
          beyond = λ s far. ground arith;
        }))

  sound-free : (orig h : Handler) (e : Entry) → IsSound orig e h → e.intercepted ≡ 0 → h ≡ orig
  sound-free orig h e (free i l m c o) z = o
  sound-free orig h e (hooked i f o t) z = absurd (omega arith)

  restored :
      (boot : ℕ → Handler) (n : Kernel)
      → Unhooked nr ex boot nr tt n
      → (s : ℕ)
      → update (update n.sys_call_table 0 n.orig_custom_syscall) ex n.orig_exit_group s ≡ boot s
  restored boot n (l, idle) s = elim (Bool-cases (ltb s nr)) [
    | inr far ↦ ground (arith, l.beyond s)
    | inl near ↦ elim (Bool-cases (ltb 0 s)) [
      | inr zero_slot ↦ ground (arith, l.custom)
      | inl above ↦ ground (
        arith,
        l.exit_group,
        sound-free _ _ _ (l.slots s (ground arith) (ground arith)) (idle s (ground arith)),
      )
    ]
  ]

  -- Unloading the module returns, with every slot of the call table as it was before the module was
  -- loaded, both locks free and the call table read-only, whatever was hooked or monitored.
  pub exit_function-restores :
      (boot : ℕ → Handler) (m : Kernel)
      → IsLoaded nr ex boot m
      → Returns
          (λ _ m'. IsQuiet m' × ((s : ℕ) → m'.sys_call_table s ≡ boot s))
          (exit_function nr ex m)
  unfolding exit_function
  exit_function-restores boot m l = bind (exit_loop nr ex boot m l) λ u n p.
      rw
        (patch_both_run ex n.orig_custom_syscall n.orig_exit_group n p.0.quiet.calls_free
          p.0.quiet.mapped)
        (returns (
          record {
            table_free = p.0.quiet.table_free;
            calls_free = p.0.quiet.calls_free;
            read_only = refl;
            mapped = p.0.quiet.mapped;
          },
          λ s. restored boot n p s,
        ))

  in_range : (s : ℕ) → 0 < s → s < nr → (leb 1 s && ltb s nr) ≡ true
  in_range s above below = ground arith

  -- The exit of a process, other than the idle process 0, from the loaded module returns, calls the
  -- kernel's own `exit_group` in the end, keeps the invariant, takes the process off the list of
  -- every system call, and leaves the other pids on their lists.
  pub my_exit_group-forgets :
      (boot : ℕ → Handler) (c : Caller) (m : Kernel)
      → c.pid ≢ 0
      → IsLoaded nr ex boot m
      → Returns
          (λ h m'.
            (h ≡ boot ex)
            × IsLoaded nr ex boot m'
            × ((s : ℕ)
                → 0 < s
                → s < nr
                → (has c.pid (m'.table s).my_list ≡ false)
                  × ((q : ℕ) → q ≢ c.pid → has q (m'.table s).my_list ≡ has q (m.table s).my_list)))
          (my_exit_group nr c m)
  unfolding my_exit_group
  my_exit_group-forgets boot c m ne l = rw l.quiet.table_free (
      bind (del_pid_run nr c.pid (record m { my_table_lock = true }) (omega arith)) λ u n p.
        returns (
          rw p.0 (
            l.exit_group,
            record {
              quiet = record {
                table_free = refl;
                calls_free = l.quiet.calls_free;
                read_only = l.quiet.read_only;
                mapped = l.quiet.mapped;
              };
              custom = l.custom;
              exit_group = l.exit_group;
              entry_point = l.entry_point;
              unhooked = rw (p.1 0) l.unhooked;
              slots = λ s above below.
                  rw (p.1 s, in_range s above below)
                    (scrub-IsSound c.pid _ (m.sys_call_table s) (m.table s) ne
                      (l.slots s above below));
              beyond = l.beyond;
            },
            λ s above below.
                rw (p.1 s, in_range s above below)
                  (scrub_list c.pid _ (m.sys_call_table s) (m.table s) (l.slots s above below)),
          )))
