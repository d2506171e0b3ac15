-- ===== src/User/Grep/Meaning.antt =====
-- The matcher decides the meaning of a pattern.
use mit_61810_labs.Prelude.{
  ℕ, ◌≡◌, ◌≢◌, ◌⊎◌, refl, sym, ap, subst, arith, inl, inr, Bool, true, false, ◌||◌, List, [], ◌∷◌,
  ◌++◌, ◌==◌, Bool-cases,
}
use mit_61810_labs.User.Grep.{
  dot, star, dollar, matchstar, match_last, match_one, matchhere, match_from,
}

-- A character of the text that the pattern's character `c` stands for.
abbrev pub Fits : ℕ → ℕ → Type 0
Fits c t = (t ≡ c) ⊎ (c ≡ dot)

abbrev pub AllFit : ℕ → List ℕ → Type 0
AllFit c [] = Unit {0}
AllFit c (t ∷ ts) = Fits c t × AllFit c ts

-- The text is some characters that fit `c`, and a rest with the property.
abbrev pub Skips : ℕ → (List ℕ → Type 0) → List ℕ → Type 0
Skips c P text = (pre : List ℕ) × (suf : List ℕ) × (text ≡ pre ++ suf) × AllFit c pre × P suf

abbrev pub Last : ℕ → List ℕ → Type 0
Last c [] = c ≡ dollar
Last c (t ∷ ts) = (c ≢ dollar) × Fits c t

abbrev pub One : ℕ → (List ℕ → Type 0) → List ℕ → Type 0
One c P [] = ⊥
One c P (t ∷ ts) = Fits c t × P ts

-- The pattern matches at the beginning of the text.
abbrev pub Here : List ℕ → List ℕ → Type 0
Here [] text = Unit {0}
Here (c ∷ []) text = Last c text
Here (c ∷ d ∷ re) text =
    ((d ≡ star) × Skips c (Here re) text) ⊎ ((d ≢ star) × One c (Here (d ∷ re)) text)

-- A test that decides a property.
abbrev Decides : (List ℕ → Bool) → (List ℕ → Type 0) → Type 0
Decides here P = (text : List ℕ) → ((here text ≡ true) → P text) × (P text → here text ≡ true)

Skips-cons :
    (c : ℕ) (P : List ℕ → Type 0) (t : ℕ) (ts : List ℕ)
    → Skips c P (t ∷ ts)
    → P (t ∷ ts) ⊎ (Fits c t × Skips c P ts)
Skips-cons c P t ts ([], suf, e, a, p) = inl (subst P (sym e) p)
Skips-cons c P t ts (x ∷ pre, suf, e, a, p) =
    let head : t ≡ x = cc in
    let tail : ts ≡ pre ++ suf = cc in inr (subst (Fits c) (sym head) a.0, (pre, suf, tail, a.1, p))

matchstar-Decides :
    (c : ℕ) (here : List ℕ → Bool) (P : List ℕ → Type 0)
    → Decides here P
    → Decides (matchstar c here) (Skips c P)
unfolding matchstar
matchstar-Decides c here P h [] = (λ e. ([], [], refl, tt, (h []).0 e), empty)
  where
    empty : Skips c P [] → here [] ≡ true
    empty ([], suf, e, a, p) = (h []).1 (subst P (sym e) p)
    empty (x ∷ pre, suf, e, a, p) = ground arith
matchstar-Decides c here P h (t ∷ ts) = elim (Bool-cases (here (t ∷ ts))) [
  | inl now ↦ rw now (λ e. ([], t ∷ ts, refl, tt, (h (t ∷ ts)).0 now), λ s. refl)
  | inr later ↦ elim (Bool-cases ((t == c) || (c == dot))) [
    | inl fits ↦
        rw (later, fits)
          (
            λ e. more (ground arith) ((matchstar-Decides c here P h ts).0 e),
            λ s. go_on (Skips-cons c P t ts s) later (matchstar-Decides c here P h ts).1,
          )
    | inr stop ↦ rw (later, stop) (λ e. ground arith, λ s. stuck (Skips-cons c P t ts s) later stop)
  ]
]
  where
    more : Fits c t → Skips c P ts → Skips c P (t ∷ ts)
    more f (pre, suf, e, a, p) = (t ∷ pre, suf, ap (λ l. t ∷ l) e, (f, a), p)

    go_on :
        P (t ∷ ts) ⊎ (Fits c t × Skips c P ts)
        → here (t ∷ ts) ≡ false
        → (Skips c P ts → matchstar c here ts ≡ true)
        → matchstar c here ts ≡ true
    go_on (inl p) later r = let now = (h (t ∷ ts)).1 p in absurd (ground arith)
    go_on (inr (f, s)) later r = r s

    stuck :
        P (t ∷ ts) ⊎ (Fits c t × Skips c P ts)
        → here (t ∷ ts) ≡ false
        → ((t == c) || (c == dot)) ≡ false
        → false ≡ true
    stuck (inl p) later stop = let now = (h (t ∷ ts)).1 p in absurd (ground arith)
    stuck (inr (f, s)) later stop = absurd (ground (arith, f))

match_last-Decides : (c : ℕ) → Decides (match_last c) (Last c)
match_last-Decides c [] = (λ e. ground arith, λ e. ground arith)
match_last-Decides c (t ∷ ts) = (λ e. ground arith, λ p. ground (arith, p))

match_one-Decides :
    (c : ℕ) (here : List ℕ → Bool) (P : List ℕ → Type 0)
    → Decides here P
    → Decides (match_one c here) (One c P)
match_one-Decides c here P h [] = (λ e. absurd (ground arith), λ p. elim p [ ])
match_one-Decides c here P h (t ∷ ts) = elim (Bool-cases ((c == dot) || (c == t))) [
  | inl fits ↦ rw fits (λ e. (ground arith, (h ts).0 e), λ p. (h ts).1 p.1)
  | inr other ↦ rw other (λ e. absurd (ground arith), λ p. absurd (ground (arith, p.0)))
]

-- matchhere is true if and only if the pattern matches at the beginning of the text.
pub matchhere_lem :
    (re text : List ℕ)
    → ((matchhere re text ≡ true) → Here re text) × (Here re text → matchhere re text ≡ true)
unfolding matchhere
matchhere_lem [] text = (λ e. tt, λ h. refl)
matchhere_lem (c ∷ []) text = match_last-Decides c text
matchhere_lem (c ∷ d ∷ re) text = elim (Bool-cases (d == star)) [
  | inl starred ↦
      let s = matchstar-Decides c (matchhere re) (Here re) (matchhere_lem re) text in
      rw starred (
        λ e. inl (ground arith, s.0 e),
        λ h. elim h [ inl (p, k) ↦ s.1 k | inr (n, o) ↦ absurd (n (ground arith)) ],
      )
  | inr single ↦
      let o =
        match_one-Decides c (matchhere (d ∷ re)) (Here (d ∷ re)) (matchhere_lem (d ∷ re)) text in
      rw single (
        λ e. inr (ground arith, o.0 e),
        λ h. elim h [ inl (p, k) ↦ absurd (ground arith) | inr (n, k) ↦ o.1 k ],
      )
]

-- The pattern matches somewhere in the text.
abbrev pub Somewhere : List ℕ → List ℕ → Type 0
Somewhere re text = (pre : List ℕ) × (suf : List ℕ) × (text ≡ pre ++ suf) × Here re suf

-- The loop of match finds a match if and only if there is one somewhere in the text.
pub match_from_lem :
    (re text : List ℕ)
    → ((match_from re text ≡ true) → Somewhere re text)
      × (Somewhere re text → match_from re text ≡ true)
unfolding match_from
match_from_lem re [] = (λ e. ([], [], refl, (matchhere_lem re []).0 e), empty)
  where
    empty : Somewhere re [] → matchhere re [] ≡ true
    empty ([], suf, e, p) = (matchhere_lem re []).1 (subst (Here re) (sym e) p)
    empty (x ∷ pre, suf, e, p) = ground arith
match_from_lem re (t ∷ ts) = elim (Bool-cases (matchhere re (t ∷ ts))) [
  | inl now ↦ rw now (λ e. ([], t ∷ ts, refl, (matchhere_lem re (t ∷ ts)).0 now), λ s. refl)
  | inr later ↦
      rw later
        (λ e. behind ((match_from_lem re ts).0 e), λ s. go_on s later (match_from_lem re ts).1)
]
  where
    behind : Somewhere re ts → Somewhere re (t ∷ ts)
    behind (pre, suf, e, p) = (t ∷ pre, suf, ap (λ l. t ∷ l) e, p)

    go_on :
        Somewhere re (t ∷ ts)
        → matchhere re (t ∷ ts) ≡ false
        → (Somewhere re ts → match_from re ts ≡ true)
        → match_from re ts ≡ true
    go_on ([], suf, e, p) later r =
        let now = (matchhere_lem re (t ∷ ts)).1 (subst (Here re) (sym e) p) in absurd (ground arith)
    go_on (x ∷ pre, suf, e, p) later r = let tail : ts ≡ pre ++ suf = cc in r (pre, suf, tail, p)
