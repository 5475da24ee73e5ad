-- ===== src/Prelude/State.antt =====
-- Commands over a state `S`. A command that the program does not survive (a failed assertion, an
-- access out of bounds, a null pointer) is `none`.
use mathlib.Core.Path.{◌≡◌, subst}
use mathlib.Core.Option.{Option, none, some}
use csc369_assignments.Prelude.{Bool, true, false, if◌then◌else◌}

abbrev pub Cmd : Type 0 → Type 0 → Type 0
Cmd S A = S → Option (A × S)

abbrev pub pure : {S A : Type 0} → A → Cmd S A
pure a s = some (a, s)

abbrev pub crash : {S A : Type 0} → Cmd S A
crash s = none

module _ {S A B : Type 0} where
  abbrev pub and_then : Option (A × S) → (A → Cmd S B) → Option (B × S)
  and_then none k = none
  and_then (some r) k = k r.0 r.1

  infixl 5 ◌>>=◌ ◌>>◌
  abbrev pub ◌>>=◌ : Cmd S A → (A → Cmd S B) → Cmd S B
  m >>= k = λ s. and_then (m s) k

  abbrev pub ◌>>◌ : Cmd S A → Cmd S B → Cmd S B
  m >> n = m >>= λ _. n

-- The value of an option, where there is one.
abbrev pub deref : {S A : Type 0} → Option A → Cmd S A
deref none s = none
deref (some a) s = some (a, s)

-- A run that ends in a result and a state with the property.
pub data Returns {S A : Type 0} (P : A → S → Type 0) : Option (A × S) → Type 0 where
  returns : {a : A} {s : S} → P a s → Returns P (some (a, s))

module _ {S A : Type 0} {P : A → S → Type 0} where
  pub bind :
      {B : Type 0} {Q : B → S → Type 0} {r : Option (A × S)} {k : A → Cmd S B}
      → Returns P r
      → ((a : A) (s : S) → P a s → Returns Q (k a s))
      → Returns Q (and_then r k)
  bind (returns p) next = next _ _ p

  pub mono :
      {Q : A → S → Type 0} {r : Option (A × S)}
      → Returns P r
      → ((a : A) (s : S) → P a s → Q a s)
      → Returns Q r
  mono (returns p) weaken = returns (weaken _ _ p)

abbrev Ensures : {S A : Type 0} → (A → S → Type 0) → Option (A × S) → Type 0
Ensures P none = ⊥
Ensures P (some r) = P r.0 r.1

module _ {S A : Type 0} {P : A → S → Type 0} where
  ensures : {r : Option (A × S)} → Returns P r → Ensures P r
  ensures (returns p) = p

  -- What a run that returns is known to give.
  pub outcome : {r : Option (A × S)} {a : A} {s : S} → Returns P r → r ≡ some (a, s) → P a s
  outcome run e = subst (Ensures P) e (ensures run)

-- A run that ends with the property, or crashes.
pub data Sure {S A : Type 0} (P : A → S → Type 0) : Option (A × S) → Type 0 where
  crashes : Sure P none
  gives : {a : A} {s : S} → P a s → Sure P (some (a, s))

abbrev Allows : {S A : Type 0} → (A → S → Type 0) → Option (A × S) → Type 0
Allows P none = Unit {0}
Allows P (some r) = P r.0 r.1

module _ {S A : Type 0} {P : A → S → Type 0} where
  pub sure_bind :
      {B : Type 0} {Q : B → S → Type 0} {r : Option (A × S)} {k : A → Cmd S B}
      → Sure P r
      → ((a : A) (s : S) → P a s → Sure Q (k a s))
      → Sure Q (and_then r k)
  sure_bind crashes next = crashes
  sure_bind (gives p) next = next _ _ p

  pub sure_mono :
      {Q : A → S → Type 0} {r : Option (A × S)}
      → Sure P r
      → ((a : A) (s : S) → P a s → Q a s)
      → Sure Q r
  sure_mono crashes weaken = crashes
  sure_mono (gives p) weaken = gives (weaken _ _ p)

  pub sure_if :
      {r r' : Option (A × S)} (b : Bool) → Sure P r → Sure P r' → Sure P (if b then r else r')
  sure_if true p q = p
  sure_if false p q = q

  allowed : {r : Option (A × S)} → Sure P r → Allows P r
  allowed crashes = tt
  allowed (gives p) = p

  pub sure_outcome : {r : Option (A × S)} {a : A} {s : S} → Sure P r → r ≡ some (a, s) → P a s
  sure_outcome p e = subst (Allows P) e (allowed p)

  pub surely : {r : Option (A × S)} → Returns P r → Sure P r
  surely (returns p) = gives p
