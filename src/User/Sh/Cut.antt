-- ===== src/User/Sh/Cut.antt =====
-- parsecmd as a whole: the words of the command are strings in the line that it leaves.
use mit_61810_labs.Prelude.{
  ℕ, ◌≤◌, ◌<◌, ◌≡◌, ◌⊎◌, inl, inr, refl, sym, ap, ◌∙◌, arith, true, List, [], ◌∷◌, ◌==◌, Bool-cases,
  update, update_self,
}
use mit_61810_labs.User.Sh.{
  Cmd, exec, redir, pipe, list, back, Parsed, parsed, failed, out_of_rounds, bind, parse, cut_words,
  nulterminate, parsecmd,
}
use mit_61810_labs.User.Sh.Tokens.{IsWord, is_delimiter}
use mit_61810_labs.User.Sh.Parser.{AreWords, HasWords, Ends, parse_lem}

module _ (buf : ℕ → ℕ) (es : ℕ) where
  -- The word is the string at `q` of the line `line`: its letters are there and a zero byte is behind.
  pub record IsString (line : ℕ → ℕ) (q eq : ℕ) : Type 0 where
    pub word : IsWord buf es q eq
    pub letters : (p : ℕ) → q ≤ p → p < eq → line p ≡ buf p
    pub ends : line eq ≡ 0

  abbrev pub AreStrings : (ℕ → ℕ) → List (ℕ × ℕ) → Type 0
  AreStrings line [] = Unit {0}
  AreStrings line ((q, eq) ∷ ws) = IsString line q eq × AreStrings line ws

  abbrev pub HasStrings : (ℕ → ℕ) → Cmd → Type 0
  HasStrings line (exec args) = AreStrings line args
  HasStrings line (redir c q eq mode fd) = HasStrings line c × IsString line q eq
  HasStrings line (pipe l r) = HasStrings line l × HasStrings line r
  HasStrings line (list l r) = HasStrings line l × HasStrings line r
  HasStrings line (back c) = HasStrings line c

  -- Only ends of words were cut.
  IsTrimmed : (ℕ → ℕ) → Type 0
  IsTrimmed line =
      (p : ℕ) → (line p ≡ buf p) ⊎ ((line p ≡ 0) × ((es ≤ p) ⊎ (is_delimiter (buf p) ≡ true)))

  -- A later line has the zero bytes of an earlier one.
  IsLater : (ℕ → ℕ) → (ℕ → ℕ) → Type 0
  IsLater line line' = (p : ℕ) → line p ≡ 0 → line' p ≡ 0

  cut-IsLater : (line : ℕ → ℕ) (eq : ℕ) → IsLater line (update line eq 0)
  unfolding IsLater
  cut-IsLater line eq p z = ground arith

  cut-IsTrimmed :
      (line : ℕ → ℕ) (q eq : ℕ) → IsWord buf es q eq → IsTrimmed line → IsTrimmed (update line eq 0)
  unfolding IsTrimmed
  cut-IsTrimmed line q eq w h p = elim (Bool-cases (eq == p)) [
    | inl here ↦
        let e : eq ≡ p = ground arith in
        rw here (
          inr (
            refl,
            elim w.stop [
              | inl end ↦ inl (omega arith)
              | inr d ↦ inr (ap (λ p. is_delimiter (buf p)) (sym e) ∙ d)
            ],
          ))
    | inr away ↦ rw away (h p)
  ]

  string_lem :
      (line : ℕ → ℕ) (q eq : ℕ)
      → IsWord buf es q eq
      → IsTrimmed line
      → line eq ≡ 0
      → IsString line q eq
  unfolding IsTrimmed
  string_lem line q eq w h z = record {
    word = w;
    letters = λ p le lt. elim (h p) [
      | inl same ↦ same
      | inr (_, inl past) ↦ absurd (omega (arith, w.inside))
      | inr (_, inr d) ↦ absurd (ground (arith, w.letters p le lt))
    ];
    ends = z;
  }

  -- Cutting the words of a part of the command turned `line` into `line'`; `strings` says that they are
  -- strings, in any line that is cut even more.
  abbrev IsCut : ((ℕ → ℕ) → Type 0) → (ℕ → ℕ) → (ℕ → ℕ) → Type 0
  IsCut strings line line' =
      IsTrimmed line'
      × IsLater line line'
      × ((final : ℕ → ℕ) → IsTrimmed final → IsLater line' final → strings final)

  both :
      (left right : (ℕ → ℕ) → Type 0) (line m n : ℕ → ℕ)
      → IsCut left line m
      → IsCut right m n
      → IsCut (λ final. left final × right final) line n
  unfolding IsLater
  both left right line m n (t, l, s) (t', l', s') =
      (t', (λ p z. l' p (l p z)), λ final a b. (s final a (λ p z. b p (l' p z)), s' final a b))

  cut_words_lem :
      (ws : List (ℕ × ℕ)) (line : ℕ → ℕ)
      → AreWords buf es ws
      → IsTrimmed line
      → IsCut (λ final. AreStrings final ws) line (cut_words ws line)
  unfolding cut_words IsLater
  cut_words_lem [] line h t = (t, (λ p z. z), λ final a b. tt)
  cut_words_lem ((q, eq) ∷ ws) line (w, h) t =
      let (t', l', s') = cut_words_lem ws (update line eq 0) h (cut-IsTrimmed line q eq w t) in
      (
        t',
        (λ p z. l' p (cut-IsLater line eq p z)),
        λ final a b.
            (string_lem final q eq w a (b eq (l' eq (update_self line eq 0))), s' final a b),
      )

  nulterminate_lem :
      (c : Cmd) (line : ℕ → ℕ)
      → HasWords buf es c
      → IsTrimmed line
      → IsCut (λ final. HasStrings final c) line (nulterminate c line)
  unfolding nulterminate IsLater
  nulterminate_lem (exec args) line h t = cut_words_lem args line h t
  nulterminate_lem (redir c q eq mode fd) line (h, w) t =
      let (t', l', s') = nulterminate_lem c line h t in
      (
        cut-IsTrimmed (nulterminate c line) q eq w t',
        (λ p z. cut-IsLater (nulterminate c line) eq p (l' p z)),
        λ final a b. (
          s' final a (λ p z. b p (cut-IsLater (nulterminate c line) eq p z)),
          string_lem final q eq w a (b eq (update_self (nulterminate c line) eq 0)),
        ),
      )
  nulterminate_lem (pipe l r) line (h, h') t =
      let a = nulterminate_lem l line h t in
      both (λ f. HasStrings f l) (λ f. HasStrings f r) line (nulterminate l line) _ a
        (nulterminate_lem r (nulterminate l line) h' a.0)
  nulterminate_lem (list l r) line (h, h') t =
      let a = nulterminate_lem l line h t in
      both (λ f. HasStrings f l) (λ f. HasStrings f r) line (nulterminate l line) _ a
        (nulterminate_lem r (nulterminate l line) h' a.0)
  nulterminate_lem (back c) line h t = nulterminate_lem c line h t

  -- What parsecmd comes to.
  abbrev pub IsParse : Parsed (Cmd × (ℕ → ℕ)) → Type 0
  IsParse (parsed (cmd, line) s) = HasStrings line cmd × (s ≤ es)
  IsParse (failed m) = Unit {0}
  IsParse out_of_rounds = ⊥

  finish_lem :
      (r : Parsed Cmd)
      → Ends buf es 0 r
      → IsParse (bind r (λ cmd s. parsed (cmd, nulterminate cmd buf) s))
  unfolding IsTrimmed IsLater
  finish_lem (parsed cmd s) (h, a, b) =
      let n = nulterminate_lem cmd buf h (λ p. inl refl) in
      (n.2 (nulterminate cmd buf) n.0 (λ p z. z), b)
  finish_lem (failed m) h = h
  finish_lem out_of_rounds h = h

  -- For a line with a zero byte at es, es + 1 rounds are enough for parsecmd to end: it calls panic, or it
  -- has a command whose words all lie in the line, not empty and without a space or a symbol in them,
  -- and each is a string of the line that nulterminate leaves: its letters are those of the line, and
  -- a zero byte is behind them.
  pub parsecmd_lem : (k : ℕ) → buf es ≡ 0 → es < k → IsParse (parsecmd buf es k)
  unfolding parsecmd
  parsecmd_lem k ends fuel = finish_lem (parse buf es k) (parse_lem buf es ends k fuel)
