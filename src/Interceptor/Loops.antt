-- ===== src/Interceptor/Loops.antt =====
-- A1/interceptor.c: the loops over the system calls.
use csc369_assignments.Prelude.{
  ℕ, zero, suc, ◌+◌, ◌-◌, ◌≤◌, ◌<◌, ◌≡◌, refl, Bool, false, Option, ltb, leb, ◌&&◌, if◌then◌else◌,
  update, arith, Bool-cases, inl, inr, ◌==◌, eq_of_test, ne_of_test, update_self,
}
use csc369_assignments.Interceptor.Kernel.{
  Handler, Entry, Kernel, Cmd, loop_from, put_entry, and_then,
}
use csc369_assignments.Interceptor.Pids.{scrub, del_pid_step, del_pid}
use csc369_assignments.Interceptor.Module.{blank, release_step}
use csc369_assignments.Interceptor.Invariant.{
  IsSound, free, hooked, original, IsLoaded, Returns, returns, patch_run, released,
  release_entry_run,
}
use csc369_assignments.Interceptor.Entries.{released-IsSound}
use csc369_assignments.Interceptor.Calls.{IsLoaded-update}

pub bind :
    {A B : Type 0} {P : A → Kernel → Type 0} {Q : B → Kernel → Type 0} {r : Option (A × Kernel)}
    {k : A → Cmd B}
    → Returns P r
    → ((a : A) (m : Kernel) → P a m → Returns Q (k a m))
    → Returns Q (and_then r k)
bind (returns p) next = next _ _ p

pub mono :
    {A : Type 0} {P Q : A → Kernel → Type 0} {r : Option (A × Kernel)}
    → Returns P r
    → ((a : A) (m : Kernel) → P a m → Q a m)
    → Returns Q r
mono (returns p) weaken = returns (weaken _ _ p)

-- An invariant that each round from `s` to `hi - 1` keeps holds at the end.
pub loop_rule :
    {A : Type 0} (P : ℕ → A → Kernel → Type 0) (body : ℕ → A → Cmd A) (hi k s : ℕ) (a : A)
    (m : Kernel)
    → s + k ≡ hi
    → ((j : ℕ) (b : A) (n : Kernel) → s ≤ j → j < hi → P j b n → Returns (P (suc j)) (body j b n))
    → P s a m
    → Returns (P hi) (loop_from k s body a m)
unfolding loop_from
loop_rule P body hi zero s a m e keep p =
    let at_end : s ≡ hi = omega arith in returns (rw at_end at p)
loop_rule P body hi (suc k) s a m e keep p =
    bind (keep s a m (omega arith) (omega arith) p) λ b n q.
      loop_rule P body hi k (suc s) b n (omega arith) (λ j b n lo lt. keep j b n (omega arith) lt) q

-- The loop of `init_function`.
pub init_loop :
    (nr : ℕ) (m : Kernel)
    → Returns
        (λ _ m'. (m' ≡ record m { table = m'.table }) × ((s : ℕ) → s < nr → m'.table s ≡ blank))
        (loop_from nr 0 (λ ind _. put_entry ind blank) tt m)
init_loop nr m =
    loop_rule
      (λ j _ m'. (m' ≡ record m { table = m'.table }) × ((s : ℕ) → s < j → m'.table s ≡ blank))
      (λ ind _. put_entry ind blank) nr nr 0 tt m (omega arith)
      (λ j _ n lo hi p. returns (ground (arith, p.0), λ s lt. ground (arith, p.1 s)))
      (refl, λ s lt. absurd (omega arith))

-- The entry of one system call after `del_pid`.
abbrev pub scrubbed : ℕ → Entry → Entry
scrubbed pid e = (scrub pid e.my_list e).1

-- A round of `del_pid`.
del_step :
    (pid : ℕ) (m : Kernel) (j : ℕ) (b : Bool) (n : Kernel)
    → 1 ≤ j
    → (n ≡ record m { table = n.table })
      × ((s : ℕ) → n.table s ≡ (if leb 1 s && ltb s j then scrubbed pid (m.table s) else m.table s))
    → Returns
        (λ _ m'.
          (m' ≡ record m { table = m'.table })
          × ((s : ℕ)
              → m'.table s
                ≡ (if leb 1 s && ltb s (suc j) then scrubbed pid (m.table s) else m.table s)))
        (del_pid_step pid j b n)
unfolding del_pid_step
del_step pid m j b n lo p =
    let old : n.table j ≡ m.table j = ground (arith, p.1 j) in
    returns (
      ground (arith, p.0),
      λ s. elim (Bool-cases (j == s)) [
        | inl same ↦ rw (same, old) (ground (arith, eq_of_test j s same))
        | inr other ↦ rw other (ground (arith, p.1 s, ne_of_test j s other))
      ],
    )

pub del_pid_run :
    (nr pid : ℕ) (m : Kernel)
    → 0 < nr
    → Returns
        (λ _ m'.
          (m' ≡ record m { table = m'.table })
          × ((s : ℕ)
              → m'.table s ≡ (if leb 1 s && ltb s nr then scrubbed pid (m.table s) else m.table s)))
        (del_pid nr pid m)
unfolding del_pid
del_pid_run nr pid m pos_nr =
    loop_rule
      (λ j _ m'.
        (m' ≡ record m { table = m'.table })
        × ((s : ℕ)
            → m'.table s ≡ (if leb 1 s && ltb s j then scrubbed pid (m.table s) else m.table s)))
      (del_pid_step pid) nr (nr - 1) 1 false m (omega arith)
      (λ j b n lo hi p. del_step pid m j b n lo p) (refl, λ s. ground arith)

flag_of_sound :
    (orig h : Handler) (e : Entry)
    → IsSound orig e h
    → (e.intercepted == 1) ≡ false
    → e.intercepted ≡ 0
flag_of_sound orig h e (free i l m c o) idle = i
flag_of_sound orig h e (hooked i f o t) idle = ground arith

module _ (nr ex : ℕ) (boot : ℕ → Handler) where
  -- What the loop of `exit_function` has done before its round `j`.
  abbrev pub Unhooked : ℕ → Unit {0} → Kernel → Type 0
  Unhooked j _ m = IsLoaded nr ex boot m × ((s : ℕ) → s < j → (m.table s).intercepted ≡ 0)

  idle_flag :
      (j : ℕ) (m : Kernel)
      → IsLoaded nr ex boot m
      → j < nr
      → ((m.table j).intercepted == 1) ≡ false
      → (m.table j).intercepted ≡ 0
  idle_flag zero m l hi idle = l.unhooked
  idle_flag (suc j) m l hi idle = flag_of_sound _ _ _ (l.slots (suc j) (omega arith) hi) idle

  release_step-Unhooked :
      (j : ℕ) (u : Unit {0}) (m : Kernel)
      → j < nr
      → Unhooked j u m
      → Returns (Unhooked (suc j)) (release_step j u m)
  unfolding release_step
  release_step-Unhooked j u m hi (l, below) = elim (Bool-cases ((m.table j).intercepted == 1)) [
    | inl taken ↦
        let e = released (m.table j) in
        let lo : 0 < j = ground (arith, l.unhooked) in
        let free_again =
          released-IsSound (original boot ex j) (m.sys_call_table j) (m.table j) (l.slots j lo hi)
            taken in
        rw (taken, release_entry_run j m l.quiet)
          (rw (patch_run j _ (record m { table = update m.table j e }) (ground (arith, l.quiet))) (
            returns (
              IsLoaded-update nr ex boot m j e _ l lo hi (rw (update_self m.table j e) free_again),
              λ s lt. ground (arith, below s),
            )))
    | inr idle ↦ rw idle (returns (l, λ s lt. ground (arith, below s, idle_flag j m l hi idle)))
  ]

  pub exit_loop :
      (m : Kernel)
      → IsLoaded nr ex boot m
      → Returns (Unhooked nr) (loop_from nr 0 release_step tt m)
  exit_loop m l =
      loop_rule Unhooked release_step nr nr 0 tt m (omega arith)
        (λ j u n lo hi p. release_step-Unhooked j u n hi p) (l, λ s lt. absurd (omega arith))
