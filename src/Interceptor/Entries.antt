-- ===== src/Interceptor/Entries.antt =====
-- A1/interceptor.c: how the list operations change an entry of `table`, and that they keep it tidy.
use csc369_assignments.Prelude.{
  ℕ, suc, ◌≡◌, refl, ◌≢◌, true, false, List, [], ◌∷◌, ◌==◌, if◌then◌else◌, arith, length, has,
  erase, Distinct, Bool-cases, inl, inr, erase_absent, eq_of_test, ne_of_test, length-erase,
  has-erase_ne, has-erase_self, Distinct-erase,
}
use csc369_assignments.Prelude.Int.{pos, inc, dec}
use csc369_assignments.Interceptor.Kernel.{Handler, Entry}
use csc369_assignments.Interceptor.Pids.{drop_count, scrub}
use csc369_assignments.Interceptor.Invariant.{IsTidy, IsSound, free, hooked, released}

-- An entry after `add_pid_sysc` and the write of `monitored`.
abbrev pub watching : ℕ → Entry → Entry
watching pid e = record e {
  my_list = pid ∷ e.my_list;
  listcount = inc e.listcount;
  monitored = if pid == 0 then 2 else 1;
}

pub watching-IsTidy :
    (pid : ℕ) (e : Entry) → IsTidy e → has pid e.my_list ≡ false → IsTidy (watching pid e)
watching-IsTidy pid e t new = record {
  counted = ground (arith, t.counted);
  distinct = (new, t.distinct);
  level = ground arith;
  idle = λ h. ground arith;
  watched = λ h. ground arith;
  everyone = λ h. ground arith;
}

-- An entry after `del_pid_sysc` of a pid on its list.
abbrev pub dropping : ℕ → Entry → Entry
dropping pid e = drop_count (record e { my_list = erase pid e.my_list })

has-nil : (a : ℕ) (xs : List ℕ) → has a xs ≡ true → xs ≢ []
has-nil a [] h = λ e. ground arith
has-nil a (x ∷ xs) h = λ e. cc

nil_of_length : (xs : List ℕ) → length xs ≡ 0 → xs ≡ []
nil_of_length [] h = refl
nil_of_length (x ∷ xs) h = absurd (omega arith)

pub dropping-IsTidy :
    (pid : ℕ) (e : Entry) → pid ≢ 0 → IsTidy e → has pid e.my_list ≡ true → IsTidy (dropping pid e)
unfolding drop_count
dropping-IsTidy pid e ne t h =
    let l = erase pid e.my_list in
    let size : suc (length l) ≡ length e.my_list = length-erase pid e.my_list h in
    let keeps = has-erase_ne pid 0 e.my_list (ground arith) in
    let empty = nil_of_length l in
    let left : dec e.listcount ≡ pos (length l) = ground (arith, t.counted) in
    let full = has-nil pid e.my_list h in
    record {
      counted = ground (arith, t.counted);
      distinct = Distinct-erase pid e.my_list t.distinct;
      level = ground (arith, t.level);
      idle = λ z. ground (arith, left);
      watched = λ z. ground (arith, left);
      everyone = λ z. ground (arith, left);
    }

-- On a list without repetition `del_pid` does what `del_pid_sysc` does.
pub scrub_lem :
    (pid : ℕ) (l : List ℕ) (e : Entry)
    → Distinct l
    → scrub pid l e
      ≡ (has pid l, record (if has pid l then drop_count e else e) { my_list = erase pid l })
unfolding scrub erase
scrub_lem pid [] e d = refl
scrub_lem pid (q ∷ r) e d = elim (Bool-cases (q == pid)) [
  | inl hit ↦
      let same : (pid == q) ≡ true = ground arith in
      let gone : has pid r ≡ false = rw (eq_of_test pid q same) d.0 in
      rw (hit, scrub_lem pid r (drop_count e) d.1, same, gone, erase_absent pid r gone)
        (rw (same, erase))
  | inr miss ↦
      let other : (pid == q) ≡ false = ground arith in
      rw (miss, scrub_lem pid r e d.1, other) (rw (other, erase))
]

-- A step of `del_pid` keeps an entry sound, for a pid other than the 0 of "all pids".
pub scrub-IsSound :
    (pid : ℕ) (orig h : Handler) (e : Entry)
    → pid ≢ 0
    → IsSound orig e h
    → IsSound orig (scrub pid e.my_list e).1 h
unfolding scrub
scrub-IsSound pid orig h e ne (free i l m c o) =
    let run : (scrub pid e.my_list e).1 ≡ e = rw l (ground arith) in rw run (free i l m c o)
scrub-IsSound pid orig h e ne (hooked i f o t) =
    rw (scrub_lem pid e.my_list e t.distinct) (elim (Bool-cases (has pid e.my_list)) [
      | inl on ↦ rw on (hooked i f o (dropping-IsTidy pid e ne t on))
      | inr off ↦ rw (off, erase_absent pid e.my_list off) (hooked i f o t)
    ])

-- What `del_pid` does to the list of a sound entry.
pub scrub_list :
    (pid : ℕ) (orig h : Handler) (e : Entry)
    → IsSound orig e h
    → let l = (scrub pid e.my_list e).1.my_list in
      (has pid l ≡ false) × ((q : ℕ) → q ≢ pid → has q l ≡ has q e.my_list)
unfolding scrub
scrub_list pid orig h e (free i l m c o) = rw l (refl, λ q ne. refl)
scrub_list pid orig h e (hooked i f o t) =
    rw (scrub_lem pid e.my_list e t.distinct)
      (has-erase_self pid e.my_list t.distinct, λ q ne. has-erase_ne pid q e.my_list (ground arith))

-- An entry after `destroy_list`.
abbrev pub cleared : Entry → Entry
cleared e = record e { my_list = []; listcount = pos 0; monitored = 0 }

cleared-IsTidy : (e : Entry) → IsTidy (cleared e)
cleared-IsTidy e = record {
  counted = refl;
  distinct = tt;
  level = omega arith;
  idle = λ _. refl;
  watched = λ _. refl;
  everyone = λ z. absurd (omega arith);
}

module _ (orig h : Handler) (e : Entry) where
  pub intercepted-IsSound :
      IsSound orig e h
      → (e.intercepted == 0) ≡ true
      → IsSound orig (record e { f = h; intercepted = 1 }) Handler.interceptor
  intercepted-IsSound (free i l m c o) z = hooked refl o refl (record {
    counted = ground arith;
    distinct = rw l tt;
    level = omega arith;
    idle = λ _. l;
    watched = λ _. m;
    everyone = λ two. absurd (omega arith);
  })
  intercepted-IsSound (hooked i f o t) z = ground arith

  pub released-IsSound :
      IsSound orig e h → (e.intercepted == 1) ≡ true → IsSound orig (released e) e.f
  released-IsSound (free i l m c o) z = ground arith
  released-IsSound (hooked i f o t) z = free refl refl refl refl f

  pub watching-IsSound :
      (pid : ℕ)
      → IsSound orig e h
      → (e.intercepted == 1) ≡ true
      → has pid e.my_list ≡ false
      → IsSound orig (watching pid e) h
  watching-IsSound pid (free i l m c o) z new = ground arith
  watching-IsSound pid (hooked i f o t) z new = hooked i f o (watching-IsTidy pid e t new)

  pub dropping-IsSound :
      (pid : ℕ)
      → pid ≢ 0
      → IsSound orig e h
      → has pid e.my_list ≡ true
      → IsSound orig (dropping pid e) h
  unfolding drop_count
  dropping-IsSound pid ne (free i l m c o) on = absurd (has-nil pid e.my_list on l)
  dropping-IsSound pid ne (hooked i f o t) on = hooked i f o (dropping-IsTidy pid e ne t on)

  pub cleared-IsSound : IsSound orig e h → IsSound orig (cleared e) h
  cleared-IsSound (free i l m c o) = free i refl refl refl o
  cleared-IsSound (hooked i f o t) = hooked i f o (cleared-IsTidy e)

  -- What `REQUEST_STOP_MONITORING` leaves.
  pub stopping-IsSound :
      (pid : ℕ)
      → IsSound orig e h
      → has pid e.my_list ≡ true
      → IsSound orig (if pid == 0 then cleared e else dropping pid e) h
  stopping-IsSound pid ok on = elim (Bool-cases (pid == 0)) [
    | inl all ↦ rw all (cleared-IsSound ok)
    | inr one ↦ rw one (dropping-IsSound pid (ne_of_test pid 0 one) ok on)
  ]
