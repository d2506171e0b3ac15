-- ===== src/User/Sh/Parser.antt =====
-- The parser ends, and its words lie in the line.
use mit_61810_labs.Prelude.{
  ℕ, zero, suc, ◌-◌, ◌≤◌, ◌<◌, ◌≡◌, inl, inr, arith, List, [], ◌∷◌, ◌++◌, leb, ◌==◌, Bool-cases,
  ==_iff, length,
}
use mit_61810_labs.User.Sh.{
  Cmd, exec, redir, pipe, list, back, Parsed, parsed, failed, out_of_rounds, bind, set_argv,
  redirect, gettoken, peek, word_token, max_args, parseredirs, parse_args, parseblock, parseexec,
  parsepipe, parse_backs, parseline, parse,
}
use mit_61810_labs.User.Sh.Tokens.{IsWord, gettoken_lem, peek_lem}

module _ (buf : ℕ → ℕ) (es : ℕ) where
  abbrev pub AreWords : List (ℕ × ℕ) → Type 0
  AreWords [] = Unit {0}
  AreWords ((q, eq) ∷ ws) = IsWord buf es q eq × AreWords ws

  -- The words of a command are words of the line.
  abbrev pub HasWords : Cmd → Type 0
  HasWords (exec args) = AreWords args
  HasWords (redir c q eq mode fd) = HasWords c × IsWord buf es q eq
  HasWords (pipe l r) = HasWords l × HasWords r
  HasWords (list l r) = HasWords l × HasWords r
  HasWords (back c) = HasWords c

  -- The parser started at `s` comes to a command of words of the line, read up to an index of the line
  -- that is not before `s`, or it panics.
  abbrev pub Ends : ℕ → Parsed Cmd → Type 0
  Ends s (parsed cmd s') = HasWords cmd × (s ≤ s') × (s' ≤ es)
  Ends s (failed m) = Unit {0}
  Ends s out_of_rounds = ⊥

  Ends-later : (s t : ℕ) (r : Parsed Cmd) → s ≤ t → Ends t r → Ends s r
  Ends-later s t (parsed cmd s') le (h, a, b) = (h, omega arith, b)
  Ends-later s t (failed m) le h = h
  Ends-later s t out_of_rounds le h = h

  Ends-bind :
      (s : ℕ) (r : Parsed Cmd) (f : Cmd → ℕ → Parsed Cmd)
      → Ends s r
      → ((cmd : Cmd) (t : ℕ) → HasWords cmd → s ≤ t → t ≤ es → Ends t (f cmd t))
      → Ends s (bind r f)
  Ends-bind s (parsed cmd t) f (h, a, b) k = Ends-later s t (f cmd t) a (k cmd t h a b)
  Ends-bind s (failed m) f h k = h
  Ends-bind s out_of_rounds f h k = h

  AreWords-append :
      (ws : List (ℕ × ℕ)) (q eq : ℕ)
      → AreWords ws
      → IsWord buf es q eq
      → AreWords (ws ++ (q, eq) ∷ [])
  AreWords-append [] q eq h w = (w, tt)
  AreWords-append ((q', eq') ∷ ws) q eq (a, h) w = (a, AreWords-append ws q eq h w)

  HasWords-set_argv :
      (args : List (ℕ × ℕ)) (c : Cmd) → AreWords args → HasWords c → HasWords (set_argv args c)
  unfolding set_argv
  HasWords-set_argv args (exec _) a h = a
  HasWords-set_argv args (redir c q eq mode fd) a (h, w) = (HasWords-set_argv args c a h, w)
  HasWords-set_argv args (pipe l r) a h = h
  HasWords-set_argv args (list l r) a h = h
  HasWords-set_argv args (back c) a h = h

  HasWords-redirect :
      (tok : ℕ) (c : Cmd) (q eq : ℕ)
      → HasWords c
      → IsWord buf es q eq
      → HasWords (redirect buf es tok c q eq)
  HasWords-redirect tok c q eq h w = elim (Bool-cases (tok == 60)) [
    | inl e ↦ rw e (h, w)
    | inr n ↦ elim (Bool-cases (tok == 62)) [
      | inl e ↦ rw (n, e) (h, w)
      | inr m ↦ elim (Bool-cases (tok == 43)) [
        | inl e ↦ rw (n, m, e) (h, w)
        | inr e ↦ rw (n, m, e) h
      ]
    ]
  ]

  module _ (ends : buf es ≡ 0) where
    parseredirs_lem :
        (k : ℕ) (cmd : Cmd) (s : ℕ)
        → s ≤ es
        → es - s < k
        → HasWords cmd
        → Ends s (parseredirs buf es k cmd s)
    unfolding parseredirs
    parseredirs_lem zero cmd s le fuel h = absurd (omega arith)
    parseredirs_lem (suc k) cmd s le fuel h =
        let p = peek buf es (60 ∷ 62 ∷ []) s in
        let pl = peek_lem buf es ends (60 ∷ 62 ∷ []) s le in
        let t = gettoken buf es p.1 in
        let tl = gettoken_lem buf es ends p.1 pl.1 in
        let f = gettoken buf es t.next in
        let fl = gettoken_lem buf es ends t.next tl.le in
        elim (Bool-cases p.0) [
          | inl more ↦ elim (Bool-cases (f.tok == word_token)) [
            | inl named ↦
                rw (more, named)
                  (Ends-later s f.next _ (omega (arith, pl.0, tl.ge, fl.ge)) (
                    parseredirs_lem k _ f.next fl.le (omega (arith, pl.0, pl.2 more, fl.ge, fl.le))
                      (HasWords-redirect t.tok cmd f.q f.eq h
                        (fl.spells ((==_iff f.tok word_token).0 named)))))
            | inr bare ↦ rw (more, bare) tt
          ]
          | inr over ↦ rw over (h, pl.0, pl.1)
        ]

    parse_args_lem :
        (k : ℕ) (args : List (ℕ × ℕ)) (ret : Cmd) (s : ℕ)
        → s ≤ es
        → es - s < k
        → AreWords args
        → HasWords ret
        → Ends s (parse_args buf es k args ret s)
    unfolding parse_args
    parse_args_lem zero args ret s le fuel a h = absurd (omega arith)
    parse_args_lem (suc k) args ret s le fuel a h =
        let toks = 124 ∷ 41 ∷ 38 ∷ 59 ∷ [] in
        let p = peek buf es toks s in
        let pl = peek_lem buf es ends toks s le in
        let t = gettoken buf es p.1 in
        let tl = gettoken_lem buf es ends p.1 pl.1 in
        elim (Bool-cases p.0) [
          | inl over ↦ rw over (HasWords-set_argv args ret a h, pl.0, pl.1)
          | inr more ↦ elim (Bool-cases (t.tok == 0)) [
            | inl end ↦
                rw (more, end) (HasWords-set_argv args ret a h, omega (arith, pl.0, tl.ge), tl.le)
            | inr token ↦ elim (Bool-cases (t.tok == word_token)) [
              | inl word_ ↦
                  let a' =
                    AreWords-append args t.q t.eq a
                      (tl.spells ((==_iff t.tok word_token).0 word_)) in
                  let args' = args ++ (t.q, t.eq) ∷ [] in
                  elim (Bool-cases (leb max_args (length args'))) [
                    | inl full ↦ rw (more, token, word_, full) tt
                    | inr room ↦
                        rw (more, token, word_, room)
                          (Ends-later s t.next _ (omega (arith, pl.0, tl.ge)) (
                            Ends-bind t.next _ _
                              (parseredirs_lem (suc es) ret t.next tl.le (omega arith) h)
                              (λ ret' s' h' b c.
                                parse_args_lem k args' ret' s' c
                                  (omega (arith, pl.0, tl.moves (λ z. ground arith), b)) a' h')))
                  ]
              | inr other ↦ rw (more, token, other) tt
            ]
          ]
        ]

    -- The parser of a block in parentheses, which is called behind `s` only.
    module _ (line : ℕ → Parsed Cmd) (s : ℕ)
        (inner : (u : ℕ) → s < u → u ≤ es → Ends u (line u)) where
      parseblock_lem : (t : ℕ) → s ≤ t → t ≤ es → Ends t (parseblock buf es line t)
      unfolding parseblock
      parseblock_lem t ge le =
          let p = peek buf es (40 ∷ []) t in
          let pl = peek_lem buf es ends (40 ∷ []) t le in
          let g = gettoken buf es p.1 in
          let gl = gettoken_lem buf es ends p.1 pl.1 in
          elim (Bool-cases p.0) [
            | inl opened ↦ rw opened (
                Ends-later t g.next _ (omega (arith, pl.0, gl.ge)) (
                  Ends-bind g.next _ _ (inner g.next (omega (arith, pl.0, pl.2 opened)) gl.le)
                    (λ cmd s' h b c.
                      let p' = peek buf es (41 ∷ []) s' in
                      let pl' = peek_lem buf es ends (41 ∷ []) s' c in
                      let g' = gettoken buf es p'.1 in
                      let gl' = gettoken_lem buf es ends p'.1 pl'.1 in
                      elim (Bool-cases p'.0) [
                        | inl closed ↦ rw closed (
                            Ends-later s' g'.next _ (omega (arith, pl'.0, gl'.ge))
                              (parseredirs_lem (suc es) cmd g'.next gl'.le (omega arith) h))
                        | inr missing ↦ rw missing tt
                      ])))
            | inr none_ ↦ rw none_ tt
          ]

      parseexec_lem : (t : ℕ) → s ≤ t → t ≤ es → Ends t (parseexec buf es line t)
      unfolding parseexec
      parseexec_lem t ge le =
          let p = peek buf es (40 ∷ []) t in
          let pl = peek_lem buf es ends (40 ∷ []) t le in
          elim (Bool-cases p.0) [
            | inl opened ↦
                rw opened (Ends-later t p.1 _ pl.0 (parseblock_lem p.1 (omega (arith, pl.0)) pl.1))
            | inr plain ↦ rw plain (
                Ends-later t p.1 _ pl.0 (
                  Ends-bind p.1 _ _ (parseredirs_lem (suc es) (exec []) p.1 pl.1 (omega arith) tt)
                    (λ ret s' h b c. parse_args_lem (suc es) [] ret s' c (omega arith) tt h)))
          ]

      parsepipe_lem : (k t : ℕ) → s ≤ t → t ≤ es → es - t < k → Ends t (parsepipe buf es line k t)
      unfolding parsepipe
      parsepipe_lem zero t ge le fuel = absurd (omega arith)
      parsepipe_lem (suc k) t ge le fuel = Ends-bind t _ _ (parseexec_lem t ge le) (λ cmd s' h b c.
          let p = peek buf es (124 ∷ []) s' in
          let pl = peek_lem buf es ends (124 ∷ []) s' c in
          let g = gettoken buf es p.1 in
          let gl = gettoken_lem buf es ends p.1 pl.1 in
          elim (Bool-cases p.0) [
            | inl more ↦ rw more (
                Ends-later s' g.next _ (omega (arith, pl.0, gl.ge)) (
                  Ends-bind g.next _ _
                    (parsepipe_lem k g.next (omega (arith, pl.0, gl.ge, b)) gl.le
                      (omega (arith, pl.0, pl.2 more, gl.le, b)))
                    (λ right s'' h' b' c'. ((h, h'), omega arith, c'))))
            | inr over ↦ rw over (h, pl.0, pl.1)
          ])

    parse_backs_lem :
        (k : ℕ) (cmd : Cmd) (s : ℕ)
        → s ≤ es
        → es - s < k
        → HasWords cmd
        → Ends s (parse_backs buf es k cmd s)
    unfolding parse_backs
    parse_backs_lem zero cmd s le fuel h = absurd (omega arith)
    parse_backs_lem (suc k) cmd s le fuel h =
        let p = peek buf es (38 ∷ []) s in
        let pl = peek_lem buf es ends (38 ∷ []) s le in
        let t = gettoken buf es p.1 in
        let tl = gettoken_lem buf es ends p.1 pl.1 in
        elim (Bool-cases p.0) [
          | inl more ↦ rw more (
              Ends-later s t.next _ (omega (arith, pl.0, tl.ge)) (
                parse_backs_lem k (back cmd) t.next tl.le (omega (arith, pl.0, pl.2 more, tl.le))
                  h))
          | inr over ↦ rw over (h, pl.0, pl.1)
        ]

    parseline_lem : (k s : ℕ) → s ≤ es → es - s < k → Ends s (parseline buf es k s)
    unfolding parseline
    parseline_lem zero s le fuel = absurd (omega arith)
    parseline_lem (suc k) s le fuel =
        Ends-bind s _ _
          (parsepipe_lem (parseline buf es k) s (λ u lt lu. parseline_lem k u lu (omega arith))
            (suc es) s (omega arith) le (omega arith))
          (λ cmd s' h b c.
            Ends-bind s' _ _ (parse_backs_lem (suc es) cmd s' c (omega arith) h)
              (λ cmd' s'' h' b' c'.
                let p = peek buf es (59 ∷ []) s'' in
                let pl = peek_lem buf es ends (59 ∷ []) s'' c' in
                let g = gettoken buf es p.1 in
                let gl = gettoken_lem buf es ends p.1 pl.1 in
                elim (Bool-cases p.0) [
                  | inl more ↦ rw more (
                      Ends-later s'' g.next _ (omega (arith, pl.0, gl.ge)) (
                        Ends-bind g.next _ _
                          (parseline_lem k g.next gl.le
                            (omega (arith, pl.0, pl.2 more, gl.le, b, b')))
                          (λ right e he be ce. ((h', he), omega arith, ce))))
                  | inr over ↦ rw over (h', pl.0, pl.1)
                ]))

    -- parse
    pub parse_lem : (k : ℕ) → es < k → Ends 0 (parse buf es k)
    unfolding parse
    parse_lem k fuel =
        Ends-bind 0 _ _ (parseline_lem k 0 (omega arith) (omega arith)) (λ cmd s h b c.
          let pl = peek_lem buf es ends [] s c in
          elim (Bool-cases ((peek buf es [] s).1 == es)) [
            | inl all ↦ rw all (h, pl.0, pl.1)
            | inr left ↦ rw left tt
          ])
