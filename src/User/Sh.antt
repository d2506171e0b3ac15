-- ===== src/User/Sh.antt =====
-- user/sh.c: the tokens and the parser of the shell, and nulterminate. malloc is taken to succeed.
mod Tests
pub mod Tokens
pub mod Parser
pub mod Cut
use mit_61810_labs.Prelude.{
  ℕ, zero, suc, ◌+◌, ◌-◌, Bool, true, false, not, ◌&&◌, ◌||◌, List, [], ◌∷◌, ◌++◌, ltb, leb, ◌==◌,
  if◌then◌else◌, length, update, String,
}

-- `strchr(toks, c)` for the characters of `toks`.
abbrev pub strchr : List ℕ → ℕ → Bool
strchr [] c = false
strchr (t ∷ ts) c = if t == c then true else strchr ts c

-- `whitespace` and `symbols`
abbrev pub is_space : ℕ → Bool
is_space = strchr (32 ∷ 9 ∷ 13 ∷ 10 ∷ 11 ∷ [])

abbrev pub is_symbol : ℕ → Bool
is_symbol = strchr (60 ∷ 124 ∷ 62 ∷ 38 ∷ 59 ∷ 40 ∷ 41 ∷ [])

-- `struct cmd` and the structs that it is cast to. A word of the line is its first index and the index
-- behind it, `q` and `eq`.
pub data Cmd : Type 0 where
  exec : List (ℕ × ℕ) → Cmd
  redir : Cmd → ℕ → ℕ → ℕ → ℕ → Cmd
  pipe : Cmd → Cmd → Cmd
  list : Cmd → Cmd → Cmd
  back : Cmd → Cmd

-- What a function of the parser comes to: a result and the new `*ps`, a call of panic, or more rounds
-- than it was given.
pub data Parsed (A : Type 0) : Type 0 where
  parsed : A → ℕ → Parsed A
  failed : String → Parsed A
  out_of_rounds : Parsed A

abbrev pub bind : {A B : Type 0} → Parsed A → (A → ℕ → Parsed B) → Parsed B
bind (parsed a s) f = f a s
bind (failed m) f = failed m
bind out_of_rounds f = out_of_rounds

-- The result of gettoken, with `next` the new `*ps`.
pub record Token : Type 0 where
  pub tok : ℕ
  pub q : ℕ
  pub eq : ℕ
  pub next : ℕ

-- The command that execcmd made is filled in while redirections are wrapped around it.
pub set_argv : List (ℕ × ℕ) → Cmd → Cmd
set_argv args (exec _) = exec args
set_argv args (redir c q eq mode fd) = redir (set_argv args c) q eq mode fd
set_argv args (pipe l r) = pipe l r
set_argv args (list l r) = list l r
set_argv args (back c) = back c

-- `'a'`, the token of a word.
abbrev pub word_token : ℕ
word_token = 97

-- MAXARGS
abbrev pub max_args : ℕ
max_args = 10

module _ (buf : ℕ → ℕ) (es : ℕ) where
  -- `while(s < es && strchr(whitespace, *s)) s++`, with `k` the characters up to `es`.
  pub skip : ℕ → ℕ → ℕ
  skip zero s = s
  skip (suc k) s = let rest = skip k (suc s) in if is_space (buf s) then rest else s

  -- The loop over a word.
  pub word_end : ℕ → ℕ → ℕ
  word_end zero s = s
  word_end (suc k) s =
      let rest = word_end k (suc s) in if is_space (buf s) || is_symbol (buf s) then s else rest

  -- The switch of gettoken: the token and the index behind it.
  pub lex : ℕ → ℕ × ℕ
  unfolding word_end
  lex s =
      let c = buf s in
      if c == 0
      then (0, s)
      else (if strchr (124 ∷ 40 ∷ 41 ∷ 59 ∷ 38 ∷ 60 ∷ []) c
          then (c, suc s)
          else (if c == 62
              then (if buf (suc s) == 62 then (43, suc (suc s)) else (62, suc s))
              else (word_token, word_end (es - s) s)))

  pub gettoken : ℕ → Token
  unfolding skip lex
  gettoken s =
      let q = skip (es - s) s in
      let t = lex q in record { tok = t.0; q = q; eq = t.1; next = skip (es - t.1) t.1 }

  -- Whether the next character is one of `toks`, and the new `*ps`.
  pub peek : List ℕ → ℕ → Bool × ℕ
  unfolding skip
  peek toks s = let p = skip (es - s) s in (not (buf p == 0) && strchr toks (buf p), p)

  -- O_RDONLY on descriptor 0; O_WRONLY | O_CREATE | O_TRUNC and O_WRONLY | O_CREATE on descriptor 1.
  abbrev pub redirect : ℕ → Cmd → ℕ → ℕ → Cmd
  redirect tok cmd q eq =
      if tok == 60
      then redir cmd q eq 0 0
      else (if tok == 62
          then redir cmd q eq 0x601 1
          else (if tok == 43 then redir cmd q eq 0x201 1 else cmd))

  pub parseredirs : ℕ → Cmd → ℕ → Parsed Cmd
  unfolding peek gettoken
  parseredirs zero cmd s = out_of_rounds
  parseredirs (suc k) cmd s =
      let p = peek (60 ∷ 62 ∷ []) s in
      let t = gettoken p.1 in
      let file = gettoken t.next in
      let rest = parseredirs k (redirect t.tok cmd file.q file.eq) file.next in
      if p.0
      then (if file.tok == word_token then rest else failed "missing file for redirection")
      else parsed cmd p.1

  -- The loop of parseexec over the words and redirections.
  pub parse_args : ℕ → List (ℕ × ℕ) → Cmd → ℕ → Parsed Cmd
  unfolding parseredirs set_argv
  parse_args zero args ret s = out_of_rounds
  parse_args (suc k) args ret s =
      let p = peek (124 ∷ 41 ∷ 38 ∷ 59 ∷ []) s in
      let t = gettoken p.1 in
      let args' = args ++ (t.q, t.eq) ∷ [] in
      let rest = bind (parseredirs (suc es) ret t.next) (λ ret s. parse_args k args' ret s) in
      if p.0
      then parsed (set_argv args ret) p.1
      else (if t.tok == 0
          then parsed (set_argv args ret) t.next
          else (if not (t.tok == word_token)
              then failed "syntax"
              else (if leb max_args (length args') then failed "too many args" else rest)))

  -- parseblock and parseexec, with parseline as it is called for a block in parentheses.
  module _ (line : ℕ → Parsed Cmd) where
    pub parseblock : ℕ → Parsed Cmd
    unfolding parseredirs
    parseblock s =
        let p = peek (40 ∷ []) s in
        if not p.0
        then failed "parseblock"
        else bind (line (gettoken p.1).next) (λ cmd s'.
          let p' = peek (41 ∷ []) s' in
          if not p'.0
          then failed "syntax - missing )"
          else parseredirs (suc es) cmd (gettoken p'.1).next)

    pub parseexec : ℕ → Parsed Cmd
    unfolding parseblock parse_args
    parseexec s =
        let p = peek (40 ∷ []) s in
        if p.0
        then parseblock p.1
        else bind (parseredirs (suc es) (exec []) p.1) (λ ret s'. parse_args (suc es) [] ret s')

    pub parsepipe : ℕ → ℕ → Parsed Cmd
    unfolding parseexec
    parsepipe zero s = out_of_rounds
    parsepipe (suc k) s = bind (parseexec s) (λ cmd s'.
        let p = peek (124 ∷ []) s' in
        let rest =
          bind (parsepipe k (gettoken p.1).next) (λ right s''. parsed (pipe cmd right) s'') in
        if p.0 then rest else parsed cmd p.1)

  -- `while(peek(ps, es, "&"))`
  pub parse_backs : ℕ → Cmd → ℕ → Parsed Cmd
  unfolding peek gettoken
  parse_backs zero cmd s = out_of_rounds
  parse_backs (suc k) cmd s =
      let p = peek (38 ∷ []) s in
      let rest = parse_backs k (back cmd) (gettoken p.1).next in
      if p.0 then rest else parsed cmd p.1

  pub parseline : ℕ → ℕ → Parsed Cmd
  unfolding parsepipe parse_backs
  parseline zero s = out_of_rounds
  parseline (suc k) s = bind (parsepipe (parseline k) (suc es) s) (λ cmd s'.
      bind (parse_backs (suc es) cmd s') (λ cmd s''.
        let p = peek (59 ∷ []) s'' in
        let rest = bind (parseline k (gettoken p.1).next) (λ right e. parsed (list cmd right) e) in
        if p.0 then rest else parsed cmd p.1))

  -- parsecmd up to the call of nulterminate.
  pub parse : ℕ → Parsed Cmd
  unfolding parseline
  parse k =
      bind (parseline k 0)
        (λ cmd s. let p = peek [] s in if p.1 == es then parsed cmd p.1 else failed "syntax")

-- nulterminate on the line.
pub cut_words : List (ℕ × ℕ) → (ℕ → ℕ) → ℕ → ℕ
cut_words [] buf = buf
cut_words ((q, eq) ∷ ws) buf = cut_words ws (update buf eq 0)

pub nulterminate : Cmd → (ℕ → ℕ) → ℕ → ℕ
unfolding cut_words
nulterminate (exec args) buf = cut_words args buf
nulterminate (redir c q eq mode fd) buf = update (nulterminate c buf) eq 0
nulterminate (pipe l r) buf = nulterminate r (nulterminate l buf)
nulterminate (list l r) buf = nulterminate r (nulterminate l buf)
nulterminate (back c) buf = nulterminate c buf

-- The command, the line with its words cut, and the index behind the command.
pub parsecmd : (ℕ → ℕ) → ℕ → ℕ → Parsed (Cmd × (ℕ → ℕ))
unfolding parse nulterminate
parsecmd buf es k = bind (parse buf es k) (λ cmd s. parsed (cmd, nulterminate cmd buf) s)
