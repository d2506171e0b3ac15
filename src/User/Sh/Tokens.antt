-- ===== src/User/Sh/Tokens.antt =====
-- gettoken and peek: where they stop, and what a word is.
use mit_61810_labs.Prelude.{
  ℕ, zero, suc, ◌+◌, ◌-◌, ◌≤◌, ◌<◌, ◌≡◌, ◌≢◌, ◌⊎◌, inl, inr, refl, sym, ap, ◌∙◌, arith, Bool, true,
  false, ◌||◌, List, [], ◌∷◌, ◌==◌, Bool-cases,
}
use mit_61810_labs.User.Sh.{
  strchr, is_space, is_symbol, Token, skip, word_end, lex, gettoken, peek, word_token,
}

-- A character that ends a word.
abbrev pub is_delimiter : ℕ → Bool
is_delimiter c = is_space c || is_symbol c

module _ (buf : ℕ → ℕ) (es : ℕ) where
  -- A word of the line: a stretch without delimiters that is not empty, up to a delimiter or the end.
  pub record IsWord (q eq : ℕ) : Type 0 where
    pub filled : q < eq
    pub inside : eq ≤ es
    pub letters : (p : ℕ) → q ≤ p → p < eq → is_delimiter (buf p) ≡ false
    pub stop : (eq ≡ es) ⊎ (is_delimiter (buf eq) ≡ true)

  skip_ge : (k s : ℕ) → s ≤ skip buf es k s
  unfolding skip
  skip_ge zero s = omega arith
  skip_ge (suc k) s = ground (arith, skip_ge k (suc s))

  skip_le : (k s : ℕ) → skip buf es k s ≤ s + k
  unfolding skip
  skip_le zero s = omega arith
  skip_le (suc k) s = ground (arith, skip_le k (suc s))

  skip_stop : (k s : ℕ) → (skip buf es k s ≡ s + k) ⊎ (is_space (buf (skip buf es k s)) ≡ false)
  unfolding skip
  skip_stop zero s = inl (omega arith)
  skip_stop (suc k) s = elim (Bool-cases (is_space (buf s))) [
    | inl space ↦ elim (skip_stop k (suc s)) [
      | inl e ↦ inl (rw space (omega (arith, e)))
      | inr e ↦ inr (rw space e)
    ]
    | inr other ↦ inr (rw other other)
  ]

  skip_stays : (k s : ℕ) → is_space (buf s) ≡ false → skip buf es k s ≡ s
  unfolding skip
  skip_stays zero s e = refl
  skip_stays (suc k) s e = rw e refl

  word_ge : (k s : ℕ) → s ≤ word_end buf es k s
  unfolding word_end
  word_ge zero s = omega arith
  word_ge (suc k) s = ground (arith, word_ge k (suc s))

  word_le : (k s : ℕ) → word_end buf es k s ≤ s + k
  unfolding word_end
  word_le zero s = omega arith
  word_le (suc k) s = ground (arith, word_le k (suc s))

  word_letters : (k s p : ℕ) → s ≤ p → p < word_end buf es k s → is_delimiter (buf p) ≡ false
  unfolding word_end
  word_letters zero s p le lt = absurd (omega arith)
  word_letters (suc k) s p le lt = elim (Bool-cases (is_delimiter (buf s))) [
    | inl stop ↦ absurd (ground arith)
    | inr letter ↦ elim (Bool-cases (s == p)) [
      | inl here ↦ let e : s ≡ p = ground arith in ap (λ p. is_delimiter (buf p)) (sym e) ∙ letter
      | inr later ↦ word_letters k (suc s) p (ground arith) (ground arith)
    ]
  ]

  word_stop :
      (k s : ℕ) → (word_end buf es k s ≡ s + k) ⊎ (is_delimiter (buf (word_end buf es k s)) ≡ true)
  unfolding word_end
  word_stop zero s = inl (omega arith)
  word_stop (suc k) s = elim (Bool-cases (is_delimiter (buf s))) [
    | inl stop ↦ inr (rw stop stop)
    | inr letter ↦ elim (word_stop k (suc s)) [
      | inl e ↦ inl (rw letter (omega (arith, e)))
      | inr e ↦ inr (rw letter e)
    ]
  ]

  word_moves : (k s : ℕ) → 0 < k → is_delimiter (buf s) ≡ false → s < word_end buf es k s
  unfolding word_end
  word_moves zero s pos letter = absurd (omega arith)
  word_moves (suc k) s pos letter = rw letter (word_ge k (suc s))

  -- The line ends with a zero byte, at `es`.
  module _ (ends : buf es ≡ 0) where
    below : (q : ℕ) → q ≤ es → buf q ≢ 0 → q < es
    below q le nz = elim (Bool-cases (q == es)) [
      | inl end ↦ let e : q ≡ es = ground arith in absurd (nz (ap buf e ∙ ends))
      | inr inside ↦ ground arith
    ]

    word_lem :
        (q : ℕ)
        → q ≤ es
        → is_delimiter (buf q) ≡ false
        → buf q ≢ 0
        → IsWord q (word_end buf es (es - q) q)
    unfolding word_end
    word_lem q le letter nz =
        let lt : q < es = below q le nz in
        record {
          filled = word_moves (es - q) q (omega arith) letter;
          inside = omega (arith, word_le (es - q) q);
          letters = word_letters (es - q) q;
          stop = elim (word_stop (es - q) q) [ inl e ↦ inl (omega (arith, e)) | inr e ↦ inr e ];
        }

    pub record IsToken (q : ℕ) (t : ℕ × ℕ) : Type 0 where
      pub ge : q ≤ t.1
      pub le : t.1 ≤ es
      pub moves : buf q ≢ 0 → (t.0 ≢ 0) × (q < t.1)
      pub stands : buf q ≡ 0 → t.0 ≡ 0
      pub spells : t.0 ≡ word_token → IsWord q t.1

    lex_lem : (q : ℕ) → q ≤ es → is_space (buf q) ≡ false → IsToken q (lex buf es q)
    unfolding lex
    lex_lem q le space = elim (Bool-cases (buf q == 0)) [
      | inl end ↦
          let e : buf q ≡ 0 = ground arith in
          rw end record {
            ge = omega arith;
            le = le;
            moves = λ nz. absurd (nz e);
            stands = λ z. refl;
            spells = λ w. ground arith;
          }
      | inr some_ ↦
          let nz : buf q ≢ 0 = ground arith in
          let lt = below q le nz in
          elim (Bool-cases (strchr (124 ∷ 40 ∷ 41 ∷ 59 ∷ 38 ∷ 60 ∷ []) (buf q))) [
            | inl symbol ↦
                rw (some_, symbol)
                  record {
                    ge = omega arith;
                    le = omega arith;
                    moves = λ _. (nz, omega arith);
                    stands = λ z. z;
                    spells = λ w. ground arith;
                  }
            | inr plain ↦ elim (Bool-cases (buf q == 62)) [
              | inl more ↦ elim (Bool-cases (buf (suc q) == 62)) [
                | inl twice ↦
                    let lt' = below (suc q) lt (λ z. ground arith) in
                    rw (some_, plain, more, twice)
                      record {
                        ge = omega arith;
                        le = omega arith;
                        moves = λ _. ((λ z. ground arith), omega arith);
                        stands = λ z. absurd (nz z);
                        spells = λ w. ground arith;
                      }
                | inr once ↦
                    rw (some_, plain, more, once)
                      record {
                        ge = omega arith;
                        le = omega arith;
                        moves = λ _. ((λ z. ground arith), omega arith);
                        stands = λ z. absurd (nz z);
                        spells = λ w. ground arith;
                      }
              ]
              | inr letter ↦
                  let w = word_lem q le (ground arith) nz in
                  rw (some_, plain, letter)
                    record {
                      ge = omega (arith, w.filled);
                      le = w.inside;
                      moves = λ _. ((λ z. ground arith), w.filled);
                      stands = λ z. absurd (nz z);
                      spells = λ _. w;
                    }
            ]
          ]
    ]

    skip_lem : (s : ℕ) → s ≤ es → is_space (buf (skip buf es (es - s) s)) ≡ false
    skip_lem s le = elim (skip_stop (es - s) s) [
      | inl e ↦
          let e' : skip buf es (es - s) s ≡ es = omega (arith, e) in
          ap (λ p. is_space (buf p)) e' ∙ ap is_space ends
      | inr e ↦ e
    ]

    pub skip_range : (s : ℕ) → s ≤ es → (s ≤ skip buf es (es - s) s) × (skip buf es (es - s) s ≤ es)
    skip_range s le = (skip_ge (es - s) s, omega (arith, skip_le (es - s) s))

    -- A token that is read from `s` on: it lies in the line and is not empty before the end.
    pub record IsRead (s : ℕ) (t : Token) : Type 0 where
      pub ge : s ≤ t.next
      pub le : t.next ≤ es
      pub moves : t.tok ≢ 0 → s < t.next
      pub spells : t.tok ≡ word_token → IsWord t.q t.eq

    pub gettoken_lem : (s : ℕ) → s ≤ es → IsRead s (gettoken buf es s)
    unfolding gettoken
    gettoken_lem s le =
        let q = skip buf es (es - s) s in
        let r = skip_range s le in
        let t = lex_lem q r.1 (skip_lem s le) in
        let r' = skip_range (lex buf es q).1 t.le in
        record {
          ge = omega (arith, r.0, t.ge, r'.0);
          le = r'.1;
          moves = λ nz. omega (arith, r.0, (t.moves (λ z. nz (t.stands z))).1, r'.0);
          spells = t.spells;
        }

    -- peek goes on to a character that is no space; if it is one of `toks`, the next token is not empty.
    pub peek_lem :
        (toks : List ℕ) (s : ℕ)
        → s ≤ es
        → (s ≤ (peek buf es toks s).1)
          × ((peek buf es toks s).1 ≤ es)
          × ((peek buf es toks s).0 ≡ true
              → (peek buf es toks s).1 < (gettoken buf es (peek buf es toks s).1).next)
    unfolding peek gettoken
    peek_lem toks s le =
        let q = skip buf es (es - s) s in
        let r = skip_range s le in
        let stays : skip buf es (es - q) q ≡ q = skip_stays (es - q) q (skip_lem s le) in
        let t = lex_lem q r.1 (skip_lem s le) in
        (
          r.0,
          r.1,
          λ yes_. rw stays (
              omega (arith, (t.moves (λ z. ground arith)).1, (skip_range (lex buf es q).1 t.le).0)),
        )
