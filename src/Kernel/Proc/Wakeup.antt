-- ===== src/Kernel/Proc/Wakeup.antt =====
-- wakeup and kill: which processes become runnable.
use mathlib.Core.Option
use mit_61810_labs.Prelude.{
  ℕ, zero, suc, ◌+◌, ◌<◌, ◌≡◌, ◌≢◌, refl, ap, ◌∙◌, arith, inl, inr, true, false, ◌&&◌, Option, none,
  some, List, [], ◌∷◌, ◌==◌, if◌then◌else◌, get_elem?, set, Bool-cases,
}
use mit_61810_labs.Kernel.Proc.{Proc, runnable, is_sleeping, wake_entry, wakeup_from, wakeup, kill}

-- What wakeup does to the entry `i`.
abbrev pub woken : Option ℕ → ℕ → ℕ → Proc → Proc
woken none chan i p = wake_entry chan p
woken (some me) chan i p = if i == me then p else wake_entry chan p

wakeup_from_lem :
    (self : Option ℕ) (chan i : ℕ) (ps : List Proc) (j : ℕ)
    → get_elem? (wakeup_from self chan i ps) j
      ≡ Option.map (woken self chan (i + j)) (get_elem? ps j)
unfolding wakeup_from
wakeup_from_lem self chan i [] j = refl
wakeup_from_lem none chan i (p ∷ ps) zero = refl
wakeup_from_lem (some me) chan i (p ∷ ps) zero =
    let e : i ≡ i + 0 = omega arith in ap (λ k. some (if k == me then p else wake_entry chan p)) e
wakeup_from_lem self chan i (p ∷ ps) (suc j) =
    let e : suc i + j ≡ i + suc j = omega arith in
    wakeup_from_lem self chan (suc i) ps j
    ∙ ap (λ k. Option.map (woken self chan k) (get_elem? ps j)) e

pub wakeup-map :
    (self : Option ℕ) (chan : ℕ) (ps : List Proc) (j : ℕ)
    → get_elem? (wakeup self chan ps) j ≡ Option.map (woken self chan j) (get_elem? ps j)
unfolding wakeup
wakeup-map self chan ps j =
    let e : 0 + j ≡ j = omega arith in
    wakeup_from_lem self chan 0 ps j ∙ ap (λ k. Option.map (woken self chan k) (get_elem? ps j)) e

-- An entry of the table before and after a wakeup of the channel.
pub record IsWoken (self : Option ℕ) (chan j : ℕ) (p q : Proc) : Type 0 where
  pub ready :
      self ≢ some j → p.chan ≡ chan → is_sleeping p.state ≡ true → q ≡ record p { state = runnable }
  pub mine : self ≡ some j → q ≡ p
  pub awake : is_sleeping p.state ≡ false → q ≡ p
  pub other : p.chan ≢ chan → q ≡ p

abbrev pub IsWokenEntry : Option ℕ → ℕ → ℕ → Option Proc → Option Proc → Type 0
IsWokenEntry self chan j none none = Unit {0}
IsWokenEntry self chan j (some p) (some q) = IsWoken self chan j p q
IsWokenEntry self chan j none (some q) = ⊥
IsWokenEntry self chan j (some p) none = ⊥

wake_entry_lem :
    (self : Option ℕ) (chan j : ℕ) (p : Proc)
    → self ≢ some j
    → IsWoken self chan j p (wake_entry chan p)
unfolding wake_entry
wake_entry_lem self chan j p ne = record {
  ready = λ _ c s. ground arith;
  mine = λ e. absurd (ne e);
  awake = λ s. ground arith;
  other = λ c. ground arith;
}

woken_lem : (self : Option ℕ) (chan j : ℕ) (p : Proc) → IsWoken self chan j p (woken self chan j p)
woken_lem none chan j p = wake_entry_lem none chan j p (λ e. ground arith)
woken_lem (some me) chan j p = elim (Bool-cases (j == me)) [
  | inl same ↦
      let q : me ≡ j = ground arith in
      rw same (record {
        ready = λ ne c s. absurd (ne (ap some q));
        mine = λ e. refl;
        awake = λ s. refl;
        other = λ c. refl;
      })
  | inr apart ↦ rw apart (wake_entry_lem (some me) chan j p (λ e. ground arith))
]

-- wakeup makes each process that sleeps on the channel runnable, the caller excepted, and keeps its other
-- fields; it keeps every process that does not sleep, that has another channel or that is the caller,
-- and adds and drops no entry.
pub wakeup_lem :
    (self : Option ℕ) (chan : ℕ) (ps : List Proc) (j : ℕ)
    → IsWokenEntry self chan j (get_elem? ps j) (get_elem? (wakeup self chan ps) j)
wakeup_lem self chan ps j = rw (wakeup-map self chan ps j) (go (get_elem? ps j))
  where
    go : (o : Option Proc) → IsWokenEntry self chan j o (Option.map (woken self chan j) o)
    go none = tt
    go (some p) = woken_lem self chan j p

woken_awake :
    (self : Option ℕ) (chan j : ℕ) (p : Proc)
    → self ≢ some j
    → (is_sleeping (woken self chan j p).state && ((woken self chan j p).chan == chan)) ≡ false
unfolding wake_entry
woken_awake none chan j p h = ground arith
woken_awake (some me) chan j p h =
    let ne : j ≢ me = λ e. h (ap some (omega (arith, e))) in ground arith

-- No wakeup is lost: behind it no process but the caller sleeps on the channel.
pub wakeup_none_left :
    (self : Option ℕ) (chan : ℕ) (ps : List Proc) (j : ℕ) {q : Proc}
    → self ≢ some j
    → get_elem? (wakeup self chan ps) j ≡ some q
    → (is_sleeping q.state && (q.chan == chan)) ≡ false
wakeup_none_left self chan ps j {q} h e = go (get_elem? ps j) (wakeup-map self chan ps j)
  where
    go :
        (o : Option Proc)
        → get_elem? (wakeup self chan ps) j ≡ Option.map (woken self chan j) o
        → (is_sleeping q.state && (q.chan == chan)) ≡ false
    go none f = ground arith
    go (some p) f = let same : q ≡ woken self chan j p = cc in rw same (woken_awake self chan j p h)

-- kill: the first entry with the process id is marked, and is not asleep any more; the others keep.
pub record Kills (pid : ℕ) (ps : List Proc) (ps' : List Proc) : Type 0 where
  pub index : ℕ
  pub victim : Proc
  pub found : get_elem? ps index ≡ some victim
  pub named : victim.pid ≡ pid
  pub first : (j : ℕ) → j < index → (q : Proc) × (get_elem? ps j ≡ some q) × (q.pid ≢ pid)
  pub stored :
      ps'
      ≡ set ps index (record victim {
        killed = true;
        state = if is_sleeping victim.state then runnable else victim.state;
      })

abbrev pub KillResult : ℕ → List Proc → Option (List Proc) → Type 0
KillResult pid ps none = (j : ℕ) (q : Proc) → get_elem? ps j ≡ some q → q.pid ≢ pid
KillResult pid ps (some ps') = Kills pid ps ps'

kill_step :
    (pid : ℕ) (p : Proc) (ps : List Proc) (o : Option (List Proc))
    → p.pid ≢ pid
    → KillResult pid ps o
    → KillResult pid (p ∷ ps) (elim o [ none ↦ none | some ps' ↦ some (p ∷ ps') ])
kill_step pid p ps none ne r = absent
  where
    absent : (j : ℕ) (q : Proc) → get_elem? (p ∷ ps) j ≡ some q → q.pid ≢ pid
    absent zero q e f = ne (cc)
    absent (suc j) q e f = r j q e f
kill_step pid p ps (some ps') ne r = record {
  index = suc r.index;
  victim = r.victim;
  found = r.found;
  named = r.named;
  first = before;
  stored = ap (λ l. p ∷ l) r.stored;
}
  where
    before :
        (j : ℕ) → j < suc r.index → (q : Proc) × (get_elem? (p ∷ ps) j ≡ some q) × (q.pid ≢ pid)
    before zero h = (p, refl, ne)
    before (suc j) h = r.first j (omega arith)

kill_here :
    (pid : ℕ) (p : Proc) (ps : List Proc)
    → p.pid ≡ pid
    → Kills pid (p ∷ ps) (
        (if is_sleeping p.state
          then record p { killed = true; state = runnable }
          else record p { killed = true })
        ∷ ps)
kill_here pid p ps e = record {
  index = 0;
  victim = p;
  found = refl;
  named = e;
  first = λ j h. absurd (omega arith);
  stored = ground arith;
}

-- kill fails only if no entry has the process id.
pub kill_lem : (pid : ℕ) (ps : List Proc) → KillResult pid ps (kill pid ps)
unfolding kill
kill_lem pid [] = λ j q e. ground arith
kill_lem pid (p ∷ ps) = elim (Bool-cases (p.pid == pid)) [
  | inl same ↦ rw same (kill_here pid p ps (ground arith))
  | inr other ↦ rw other (kill_step pid p ps (kill pid ps) (ground arith) (kill_lem pid ps))
]
