-- ===== src/User/Sh/Tests.antt =====
-- An instance of the theorem on the parser, for the line `a|b&`.
use mit_61810_labs.Prelude.{ℕ, refl, arith, [], ◌∷◌, get_or}
use mit_61810_labs.User.Sh.{parsecmd}
use mit_61810_labs.User.Sh.Cut.{IsParse, parsecmd_lem}

abbrev line : ℕ → ℕ
line p = get_or (97 ∷ 124 ∷ 98 ∷ 38 ∷ []) p 0

parsecmd_lem_example : IsParse line 4 (parsecmd line 4 5)
parsecmd_lem_example = parsecmd_lem line 4 5 refl (omega arith)
