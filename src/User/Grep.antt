-- ===== src/User/Grep.antt =====
-- user/grep.c: the matcher. A string is the list of its bytes up to the zero byte.
pub mod Meaning
mod Tests
use mit_61810_labs.Prelude.{
  ℕ, zero, suc, Bool, true, false, ◌&&◌, ◌||◌, List, [], ◌∷◌, ◌==◌, if◌then◌else◌,
}

-- The characters of the pattern language: . * ^ $
abbrev pub dot : ℕ
dot = 46

abbrev pub star : ℕ
star = 42

abbrev pub caret : ℕ
caret = 94

abbrev pub dollar : ℕ
dollar = 36

-- The loop of matchstar, with `here` for matchhere at the rest of the pattern.
pub matchstar : ℕ → (List ℕ → Bool) → List ℕ → Bool
matchstar c here [] = here []
matchstar c here (t ∷ ts) =
    let rest = matchstar c here ts in
    if here (t ∷ ts) then true else if (t == c) || (c == dot) then rest else false

-- The last character of a pattern.
abbrev pub match_last : ℕ → List ℕ → Bool
match_last c [] = c == dollar
match_last c (t ∷ ts) = if c == dollar then false else (c == dot) || (c == t)

-- A character that no star follows, with `here` for the rest of the pattern.
abbrev pub match_one : ℕ → (List ℕ → Bool) → List ℕ → Bool
match_one c here [] = false
match_one c here (t ∷ ts) = if (c == dot) || (c == t) then here ts else false

pub matchhere : List ℕ → List ℕ → Bool
matchhere [] text = true
matchhere (c ∷ []) text = match_last c text
matchhere (c ∷ d ∷ re) text =
    let starred = matchstar c (matchhere re) text in
    let single = match_one c (matchhere (d ∷ re)) text in if d == star then starred else single

-- The loop of match.
pub match_from : List ℕ → List ℕ → Bool
match_from re [] = matchhere re []
match_from re (t ∷ ts) = let rest = match_from re ts in if matchhere re (t ∷ ts) then true else rest

pub match_ : List ℕ → List ℕ → Bool
match_ [] text = match_from [] text
match_ (c ∷ re) text = if c == caret then matchhere re text else match_from (c ∷ re) text
