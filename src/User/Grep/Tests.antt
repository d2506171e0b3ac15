-- ===== src/User/Grep/Tests.antt =====
-- Runs of the matcher, and instances of its theorems.
use mit_61810_labs.Prelude.{◌≡◌, refl, true, [], ◌∷◌}
use mit_61810_labs.User.Grep.{matchstar, matchhere, match_from}
use mit_61810_labs.User.Grep.Meaning.{Here, Somewhere, matchhere_lem, match_from_lem}

-- `a*b$` in "aab"
starred : matchhere (97 ∷ 42 ∷ 98 ∷ 36 ∷ []) (97 ∷ 97 ∷ 98 ∷ []) ≡ true
unfolding matchhere matchstar
starred = refl

matchhere_lem_example :
    ((matchhere (97 ∷ 42 ∷ 98 ∷ []) (97 ∷ 98 ∷ []) ≡ true)
      → Here (97 ∷ 42 ∷ 98 ∷ []) (97 ∷ 98 ∷ []))
    × (Here (97 ∷ 42 ∷ 98 ∷ []) (97 ∷ 98 ∷ [])
        → matchhere (97 ∷ 42 ∷ 98 ∷ []) (97 ∷ 98 ∷ []) ≡ true)
matchhere_lem_example = matchhere_lem (97 ∷ 42 ∷ 98 ∷ []) (97 ∷ 98 ∷ [])

match_from_lem_example :
    ((match_from (98 ∷ 36 ∷ []) (97 ∷ 98 ∷ []) ≡ true) → Somewhere (98 ∷ 36 ∷ []) (97 ∷ 98 ∷ []))
    × (Somewhere (98 ∷ 36 ∷ []) (97 ∷ 98 ∷ []) → match_from (98 ∷ 36 ∷ []) (97 ∷ 98 ∷ []) ≡ true)
match_from_lem_example = match_from_lem (98 ∷ 36 ∷ []) (97 ∷ 98 ∷ [])
