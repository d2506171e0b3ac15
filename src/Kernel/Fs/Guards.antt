-- ===== src/Kernel/Fs/Guards.antt =====
-- What the tests of log_write come to, for the calls of a routine.
use mit_61810_labs.Prelude.{
  ◌≢◌, ◌<◌, panic, suc, ℕ, zero, suc, ◌+◌, ◌-◌, ◌≤◌, ◌≡◌, ◌⊎◌, inl, inr, arith, List, [], ◌∷◌, leb,
  ◌==◌, Bool-cases, Outcome, done, panic, ◌>>=◌,
}
use mit_61810_labs.Kernel.Fs.{Transaction, is_logged, entries, log_guard, log_guards}

pub entries-cons :
    (b : ℕ) (bs : List ℕ) → (entries bs ≤ entries (b ∷ bs)) × (entries (b ∷ bs) ≤ entries bs + 1)
unfolding entries
entries-cons b bs = elim (Bool-cases (is_logged b bs)) [
  | inl old ↦ rw old (omega arith, omega arith)
  | inr new ↦ rw new (omega arith, omega arith)
]

-- Why a call of log_write panics when at most `n` blocks are logged before it: the log is full, or the
-- call is in no transaction.
abbrev pub LogPanics : Transaction → ℕ → Type 0
LogPanics t n = (t.outstanding ≡ 0) ⊎ (30 ≤ n) ⊎ (t.size ≤ n + 1)

pub LogPanics-mono : (t : Transaction) (m n : ℕ) → m ≤ n → LogPanics t m → LogPanics t n
LogPanics-mono t m n le (inl e) = inl e
LogPanics-mono t m n le (inr (inl e)) = inr (inl (omega arith))
LogPanics-mono t m n le (inr (inr e)) = inr (inr (omega arith))

-- The call is in a transaction, and the block that it adds fits the log.
abbrev pub HasRoom : Transaction → ℕ → Type 0
HasRoom t n = (t.outstanding ≢ 0) × (n < 30) × (n + 1 < t.size)

-- It passes, and then `P` holds, or it panics behind at most `n` logged blocks.
abbrev pub Ends : {A : Type 0} → Transaction → ℕ → (A → Type 0) → Outcome A → Type 0
Ends t n P (done a) = P a
Ends t n P (panic m) = LogPanics t n

pub Ends-bind :
    {A B : Type 0} {P : A → Type 0} (t : Transaction) (m n : ℕ) (Q : B → Type 0) (f : A → Outcome B)
    (o : Outcome A)
    → m ≤ n
    → Ends t m P o
    → ((a : A) → P a → Ends t n Q (f a))
    → Ends t n Q (o >>= f)
Ends-bind t m n Q f (done a) le p k = k a p
Ends-bind t m n Q f (panic x) le p k = LogPanics-mono t m n le p

pub log_guard_lem :
    (t : Transaction) (bs : List ℕ)
    → Ends t (entries bs) (λ _. HasRoom t (entries bs)) (log_guard t bs)
unfolding log_guard
log_guard_lem t bs = elim (Bool-cases (leb 30 (entries bs))) [
  | inl long ↦ rw long (inr (inl (ground arith)))
  | inr short ↦ elim (Bool-cases (leb (t.size - 1) (entries bs))) [
    | inl full ↦ rw (short, full) (inr (inr (ground arith)))
    | inr room ↦ elim (Bool-cases (t.outstanding == 0)) [
      | inl outside ↦ rw (short, room, outside) (inl (ground arith))
      | inr inside ↦ rw (short, room, inside) ((λ z. ground arith), ground arith, ground arith)
    ]
  ]
]

-- The last calls pass, or the log was too full behind all of them already.
pub log_guards_lem :
    (t : Transaction) (k : ℕ) (bs : List ℕ)
    → Ends t (entries bs) (λ _. Unit {0}) (log_guards t k bs)
unfolding log_guards
log_guards_lem t zero bs = tt
log_guards_lem t (suc k) [] = tt
log_guards_lem t (suc k) (b ∷ bs) =
    Ends-bind t (entries bs) (entries (b ∷ bs)) (λ _. Unit {0}) (λ _. log_guard t bs)
      (log_guards t k bs) (entries-cons b bs).0 (log_guards_lem t k bs)
      (λ _ _. passed (log_guard t bs) (log_guard_lem t bs))
  where
    passed :
        (o : Outcome (Unit {0}))
        → Ends t (entries bs) (λ _. HasRoom t (entries bs)) o
        → Ends t (entries (b ∷ bs)) (λ _. Unit {0}) o
    passed (done a) p = tt
    passed (panic m) p = LogPanics-mono t (entries bs) (entries (b ∷ bs)) (entries-cons b bs).0 p
