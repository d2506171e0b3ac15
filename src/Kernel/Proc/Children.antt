-- ===== src/Kernel/Proc/Children.antt =====
-- reparent and the scan of wait: a process's children.
use mathlib.Core.Option
use mit_61810_labs.Prelude.{
  ℕ, zero, suc, ◌+◌, ◌≤◌, ◌<◌, ◌≡◌, ◌≢◌, refl, sym, ap, ◌∙◌, arith, inl, inr, Bool, true, false,
  ◌&&◌, ◌||◌, Option, none, some, List, [], ◌∷◌, ◌==◌, if◌then◌else◌, get_elem?, set, Bool-cases,
  and_true, length, get_elem?-set_self, get_elem?-set_ne, get_elem?-lt,
}
use mit_61810_labs.Kernel.Proc.{
  Proc, Family, is_child_of, is_zombie, wakeup, wake_entry, reparent, reparent_at, reparent_loop,
  Scan, found, none_found, scan,
}
use mit_61810_labs.Kernel.Proc.Wakeup.{woken, wakeup-map}

-- What the scan of wait reports: the first zombie child, or whether there is a child at all.
abbrev pub ScanResult : ℕ → ℕ → Bool → List Proc → Scan → Type 0
ScanResult p i seen ps (found k) =
    (j : ℕ) × (q : Proc) × (k ≡ i + j)
    × (get_elem? ps j ≡ some q)
    × (is_child_of p q ≡ true)
    × (is_zombie q.state ≡ true)
ScanResult p i seen ps (none_found kids) =
    ((j : ℕ) (q : Proc)
      → get_elem? ps j ≡ some q
      → is_child_of p q ≡ true
      → is_zombie q.state ≡ false)
    × (kids ≡ false
        → (seen ≡ false) × ((j : ℕ) (q : Proc) → get_elem? ps j ≡ some q → is_child_of p q ≡ false))

scan_step :
    (p i : ℕ) (seen : Bool) (x : Proc) (ps : List Proc) (r : Scan)
    → (is_child_of p x && is_zombie x.state) ≡ false
    → ScanResult p (suc i) (seen || is_child_of p x) ps r
    → ScanResult p i seen (x ∷ ps) r
scan_step p i seen x ps (found k) h (j, q, e, a, b, c) = (suc j, q, omega arith, a, b, c)
scan_step p i seen x ps (none_found kids) h (z, k) =
    (no_zombie, λ e. (ground (arith, k e), childless e))
  where
    no_zombie :
        (j : ℕ) (q : Proc)
        → get_elem? (x ∷ ps) j ≡ some q
        → is_child_of p q ≡ true
        → is_zombie q.state ≡ false
    no_zombie zero q e c =
        let same : x ≡ q = cc in rw (← same) (ground (arith, ap (is_child_of p) same))
    no_zombie (suc j) q e c = z j q e c

    childless :
        kids ≡ false → (j : ℕ) (q : Proc) → get_elem? (x ∷ ps) j ≡ some q → is_child_of p q ≡ false
    childless e zero q f = let same : x ≡ q = cc in rw (← same) (ground (arith, (k e).0))
    childless e (suc j) q f = (k e).1 j q f

first_found :
    (p i : ℕ) (seen : Bool) (x : Proc) (ps : List Proc)
    → (is_child_of p x ≡ true) × (is_zombie x.state ≡ true)
    → ScanResult p i seen (x ∷ ps) (found i)
first_found p i seen x ps h = (0, x, omega arith, refl, h.0, h.1)

-- The scan of wait finds the first zombie child; if there is none it says whether the process has a
-- child at all.
pub scan_lem : (p i : ℕ) (seen : Bool) (ps : List Proc) → ScanResult p i seen ps (scan p i seen ps)
unfolding scan
scan_lem p i seen [] = (λ j q e c. ground arith, λ e. (e, λ j q f. ground arith))
scan_lem p i seen (x ∷ ps) = elim (Bool-cases (is_child_of p x && is_zombie x.state)) [
  | inl here ↦ rw here (first_found p i seen x ps (and_true _ _ here))
  | inr other ↦
      rw other (scan_step p i seen x ps _ other (scan_lem p (suc i) (seen || is_child_of p x) ps))
]

abbrev pub parent_of : Option Proc → Option (Option ℕ)
parent_of none = none
parent_of (some p) = some p.parent

parent-woken :
    (self : Option ℕ) (chan j : ℕ) (o : Option Proc)
    → parent_of (Option.map (woken self chan j) o) ≡ parent_of o
unfolding wake_entry
parent-woken self chan j none = refl
parent-woken none chan j (some p) = ground arith
parent-woken (some me) chan j (some p) = ground arith

parent-wakeup :
    (self : Option ℕ) (chan : ℕ) (ps : List Proc) (j : ℕ)
    → parent_of (get_elem? (wakeup self chan ps) j) ≡ parent_of (get_elem? ps j)
parent-wakeup self chan ps j =
    ap parent_of (wakeup-map self chan ps j) ∙ parent-woken self chan j (get_elem? ps j)

-- A parent, with the children of `p` given to `init`.
abbrev pub adopted : ℕ → ℕ → Option (Option ℕ) → Option (Option ℕ)
adopted p init none = none
adopted p init (some none) = some none
adopted p init (some (some q)) = if q == p then some (some init) else some (some q)

adopted-child :
    (p init : ℕ) (pp : Proc)
    → is_child_of p pp ≡ true
    → adopted p init (some pp.parent) ≡ some (some init)
adopted-child p init pp h = go pp.parent h
  where
    go :
        (o : Option ℕ)
        → elim o as (λ x. Bool) [ none ↦ false | some q ↦ q == p ] ≡ true
        → adopted p init (some o) ≡ some (some init)
    go none e = ground arith
    go (some q) e = rw e

adopted-other :
    (p init : ℕ) (pp : Proc)
    → is_child_of p pp ≡ false
    → adopted p init (some pp.parent) ≡ some pp.parent
adopted-other p init pp h = go pp.parent h
  where
    go :
        (o : Option ℕ)
        → elim o as (λ x. Bool) [ none ↦ false | some q ↦ q == p ] ≡ false
        → adopted p init (some o) ≡ some o
    go none e = refl
    go (some q) e = rw e

-- A round of the loop at another entry keeps a parent.
reparent_at-ne :
    (o : Option Proc) (i p : ℕ) (self : Option ℕ) (f : Family) (j : ℕ)
    → i ≢ j
    → parent_of (get_elem? (reparent_at o i p self f).procs j) ≡ parent_of (get_elem? f.procs j)
unfolding reparent_at
reparent_at-ne none i p self f j ne = refl
reparent_at-ne (some pp) i p self f j ne = elim (Bool-cases (is_child_of p pp)) [
  | inl child ↦ rw child (
      parent-wakeup self (f.address f.init) (set f.procs i (record pp { parent = some f.init })) j
      ∙ ap parent_of (get_elem?-set_ne f.procs (record pp { parent = some f.init }) ne))
  | inr other ↦ rw other refl
]

reparent_at_self :
    (o : Option Proc) (i p : ℕ) (self : Option ℕ) (f : Family)
    → get_elem? f.procs i ≡ o
    → parent_of (get_elem? (reparent_at o i p self f).procs i)
      ≡ adopted p f.init (parent_of (get_elem? f.procs i))
unfolding reparent_at
reparent_at_self none i p self f e =
    let same : parent_of (get_elem? f.procs i) ≡ none = ap parent_of e in
    same ∙ ap (adopted p f.init) (sym same)
reparent_at_self (some pp) i p self f e = elim (Bool-cases (is_child_of p pp)) [
  | inl child ↦ rw child (
      parent-wakeup self (f.address f.init) (set f.procs i (record pp { parent = some f.init })) i
      ∙ ap parent_of (
          get_elem?-set_self f.procs i (record pp { parent = some f.init })
            (get_elem?-lt f.procs i e))
      ∙ sym (adopted-child p f.init pp child)
      ∙ ap (adopted p f.init) (sym (ap parent_of e)))
  | inr other ↦ rw other (
      ap parent_of e
      ∙ sym (adopted-other p f.init pp other)
      ∙ ap (adopted p f.init) (sym (ap parent_of e)))
]

init-reparent_at :
    (o : Option Proc) (i p : ℕ) (self : Option ℕ) (f : Family)
    → (reparent_at o i p self f).init ≡ f.init
unfolding reparent_at
init-reparent_at none i p self f = refl
init-reparent_at (some pp) i p self f = ground arith

loop-below :
    (k i p : ℕ) (self : Option ℕ) (f : Family) (j : ℕ)
    → j < i
    → parent_of (get_elem? (reparent_loop k i p self f).procs j) ≡ parent_of (get_elem? f.procs j)
unfolding reparent_loop
loop-below zero i p self f j h = refl
loop-below (suc k) i p self f j h =
    loop-below k (suc i) p self _ j (omega arith)
    ∙ reparent_at-ne (get_elem? f.procs i) i p self f j (omega arith)

loop-at :
    (k i p : ℕ) (self : Option ℕ) (f : Family) (j : ℕ)
    → i ≤ j
    → j < i + k
    → parent_of (get_elem? (reparent_loop k i p self f).procs j)
      ≡ adopted p f.init (parent_of (get_elem? f.procs j))
unfolding reparent_loop
loop-at zero i p self f j lo hi = absurd (omega arith)
loop-at (suc k) i p self f j lo hi = elim (Bool-cases (i == j)) [
  | inl here ↦
      let e : i ≡ j = ground arith in
      loop-below k (suc i) p self _ j (omega arith)
      ∙ rw (← e) (reparent_at_self (get_elem? f.procs i) i p self f refl)
  | inr later ↦
      let ne : i ≢ j = ground arith in
      loop-at k (suc i) p self _ j (omega (arith, ne)) (omega arith)
      ∙ ap
          (λ n.
            adopted p n
              (parent_of (get_elem? (reparent_at (get_elem? f.procs i) i p self f).procs j)))
          (init-reparent_at (get_elem? f.procs i) i p self f)
      ∙ ap (adopted p f.init) (reparent_at-ne (get_elem? f.procs i) i p self f j ne)
]

-- reparent gives every child of `p` to the init process and leaves every other parent alone.
pub reparent_lem :
    (p : ℕ) (self : Option ℕ) (f : Family) (j : ℕ)
    → j < length f.procs
    → parent_of (get_elem? (reparent p self f).procs j)
      ≡ adopted p f.init (parent_of (get_elem? f.procs j))
unfolding reparent
reparent_lem p self f j h = loop-at (length f.procs) 0 p self f j (omega arith) (omega arith)
