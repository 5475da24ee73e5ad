-- ===== src/Paging/Sim.antt =====
-- A3/sim.c: the simulation of a trace.
use csc369_assignments.Prelude.{
  ℕ, ◌+◌, ◌%◌, ◌^◌, Bool, Option, none, some, List, [], ◌∷◌, ◌==◌, if◌then◌else◌, update,
}
use csc369_assignments.Prelude.State.{Cmd, pure, ◌>>=◌}
use csc369_assignments.Paging.Machine.{Os, Machine}
use csc369_assignments.Paging.Policies.{Algorithm}
use csc369_assignments.Paging.Table.{find_physpage, is_write}

-- A line of the trace file: its first character, and the address behind it where there is one.
pub record Line : Type 0 where
  pub first : ℕ
  pub addr : Option ℕ

module _ (os : Os) where
  -- `access_mem`: the result says whether the page that was found has the address expected of it
  -- (if not, the program reports an error and goes on). The version is an `int`.
  unfoldable pub access_mem : Algorithm → ℕ → ℕ → Cmd (Machine os.File) Bool
  access_mem alg type vaddr = do
    f ← find_physpage os alg vaddr type
    λ m.
        let page = m.physmem f in
        let page' =
          if is_write type then record page { version = (page.version + 1) % 2 ^ 32 } else page in
        some (page.vaddr == vaddr, record m { physmem = update m.physmem f page' })

  -- `replay_trace`, with the values of `type` and `vaddr` that `sscanf` overwrites as far as it
  -- gets. The result holds the outcome of each access.
  unfoldable pub replay_from : Algorithm → ℕ → List Line → Cmd (Machine os.File) (List Bool)
  replay_from alg vaddr [] = pure []
  replay_from alg vaddr (l ∷ ls) =
      let vaddr' : ℕ = elim l.addr [ none ↦ vaddr | some a ↦ a ] in
      let skip = replay_from alg vaddr ls in
      let next = replay_from alg vaddr' ls in
      if l.first == b'='
      then skip
      else (do good ← access_mem alg l.first vaddr'; rest ← next; pure (good ∷ rest))

  unfoldable pub replay_trace : Algorithm → List Line → Cmd (Machine os.File) (List Bool)
  replay_trace alg ls = replay_from alg 0 ls
