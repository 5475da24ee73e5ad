-- ===== src/Paging/Replay.antt =====
-- A3/sim.c: a trace is replayed to its end, and every access finds its page.
use csc369_assignments.Prelude.{
  ℕ, suc, ◌+◌, ◌*◌, ◌^◌, ◌≤◌, ◌<◌, ◌≡◌, refl, sym, ap, ◌∙◌, true, some, List, [], ◌∷◌, replicate,
  ◌==◌, if◌then◌else◌, arith, Bool-cases, Option-cases, inl, inr, test_of_eq,
}
use csc369_assignments.Prelude.State.{Returns, returns, bind, pure, ◌>>=◌}
use csc369_assignments.Paging.Machine.{Page, Pte, Os, Machine, page_size}
use csc369_assignments.Paging.Policies.{Algorithm}
use csc369_assignments.Paging.Sim.{Line, access_mem, replay_from}
use csc369_assignments.Paging.Invariant.{IsReliable, IsSound, home, Contents}
use csc369_assignments.Paging.Policy.{Foresees, Foresees-nodes, Foresees-le}
use csc369_assignments.Paging.Reference.{find_physpage_lem}

-- An address of the trace is the start of one of the pages.
abbrev pub IsPage : ℕ → ℕ → Type 0
IsPage pages vaddr = (p : ℕ) × (p < pages) × (vaddr ≡ p * page_size)

abbrev pub AllPages : ℕ → List Line → Type 0
AllPages pages [] = Unit {0}
AllPages pages (l ∷ ls) = ((a : ℕ) → l.addr ≡ some a → IsPage pages a) × AllPages pages ls

-- The lines that are no comments.
unfoldable pub accesses : List Line → ℕ
accesses [] = 0
accesses (l ∷ ls) = if l.first == b'=' then accesses ls else suc (accesses ls)

module _ (os : Os) (pages : ℕ) where
  -- A write to a page that leaves its address.
  Contents-same :
      {f : os.File} {physmem physmem' : ℕ → Page} {ptes : ℕ → Pte}
      → ((i : ℕ) → (physmem' i).vaddr ≡ (physmem i).vaddr)
      → Contents os f physmem ptes
      → Contents os f physmem' ptes
  Contents-same {ptes} same co = record {
    swapped = co.swapped;
    resident = λ v h. same (home (ptes v)) ∙ co.resident v h;
  }

  module _ (reliable : IsReliable os) (small : pages ≤ 2 ^ 24) (alg : Algorithm) where
    -- What an access, or a whole trace of `k` accesses, leaves behind.
    pub record IsAfter (n k : ℕ) (m m' : Machine os.File) : Type 0 where
      pub sound : IsSound os pages m'
      pub memsize : m'.memsize ≡ m.memsize
      pub counted : m'.hit_count + m'.miss_count ≡ m.hit_count + m.miss_count + k
      pub refs : m'.ref_count ≡ m.ref_count + k
      pub foresees : Foresees alg n m'

    access_mem_lem :
        (n p type : ℕ) (m : Machine os.File)
        → p < pages
        → IsSound os pages m
        → Foresees alg (n + 1) m
        → Returns
            (λ good m'. (good ≡ true) × IsAfter n 1 m m')
            (access_mem os alg type (p * page_size) m)
    unfolding access_mem
    access_mem_lem n p type m low ok h =
        bind (find_physpage_lem os pages reliable small alg n p type m low ok h) (λ f m1 r.
          let right : (m1.physmem f).vaddr ≡ p * page_size =
            ap (λ i. (m1.physmem i).vaddr) (sym r.frame) ∙ r.sound.contents.resident p r.valid in
          returns (
            test_of_eq (m1.physmem f).vaddr (p * page_size) right,
            record {
              sound = record {
                some_memory = r.sound.some_memory;
                memory = r.sound.memory;
                hand = r.sound.hand;
                next = r.sound.next;
                frames = r.sound.frames;
                slots = r.sound.slots;
                contents = Contents-same (λ i. ground arith) r.sound.contents;
                tables = r.sound.tables;
              };
              memsize = r.memsize;
              counted = r.counted;
              refs = r.refs;
              foresees = Foresees-nodes alg n m1 _ (omega arith) r.foresees;
            },
          ))

    -- One access, and the rest of the trace.
    access_then :
        (n vaddr type : ℕ) (ls : List Line) (m : Machine os.File)
        → IsPage pages vaddr
        → IsSound os pages m
        → Foresees alg (n + 1) m
        → ((m' : Machine os.File)
            → IsSound os pages m'
            → Foresees alg n m'
            → Returns
                (λ good m''. (good ≡ replicate n true) × IsAfter 0 n m' m'')
                (replay_from os alg vaddr ls m'))
        → Returns
            (λ good m''. (good ≡ true ∷ replicate n true) × IsAfter 0 (suc n) m m'')
            ((do
              good ← access_mem os alg type vaddr
              rest ← replay_from os alg vaddr ls
              pure (good ∷ rest))
              m)
    access_then n vaddr type ls m (p, low, e) ok h next =
        let run : Returns (λ good m'. (good ≡ true) × IsAfter n 1 m m')
            (access_mem os alg type vaddr m) =
          rw e (access_mem_lem n p type m low ok h) in
        bind run (λ good m1 (right, a). bind (next m1 a.sound a.foresees) (λ rest m2 (all, b).
          returns (
            rw (right, all) refl,
            record {
              sound = b.sound;
              memsize = b.memsize ∙ a.memsize;
              counted = omega (arith, a.counted, b.counted);
              refs = omega (arith, a.refs, b.refs);
              foresees = b.foresees;
            },
          )))

    pub replay_from_lem :
        (vaddr : ℕ) (ls : List Line) (m : Machine os.File)
        → IsPage pages vaddr
        → AllPages pages ls
        → IsSound os pages m
        → Foresees alg (accesses ls) m
        → Returns
            (λ good m'. (good ≡ replicate (accesses ls) true) × IsAfter 0 (accesses ls) m m')
            (replay_from os alg vaddr ls m)
    unfolding replay_from accesses
    replay_from_lem vaddr [] m at all ok h = returns (
      refl,
      record {
        sound = ok;
        memsize = refl;
        counted = omega arith;
        refs = omega arith;
        foresees = h;
      },
    )
    replay_from_lem vaddr (l ∷ ls) m at (here, all) ok h = elim (Bool-cases (l.first == b'=')) [
      | inl comment ↦ rw comment (replay_from_lem vaddr ls m at all ok (rw comment at h))
      | inr access ↦
          let more : Foresees alg (accesses ls + 1) m =
            Foresees-le alg (accesses (l ∷ ls)) (accesses ls + 1) m (ground arith) h in
          elim (Option-cases l.addr) [
            | inl same ↦
                rw (access, same)
                  (access_then (accesses ls) vaddr l.first ls m at ok more
                    (λ m' ok' h'. replay_from_lem vaddr ls m' at all ok' h'))
            | inr (a, e) ↦
                rw (access, e)
                  (access_then (accesses ls) a l.first ls m (here a e) ok more
                    (λ m' ok' h'. replay_from_lem a ls m' (here a e) all ok' h'))
          ]
    ]
