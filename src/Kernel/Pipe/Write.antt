-- ===== src/Kernel/Pipe/Write.antt =====
-- pipewrite against the queue of the bytes in the pipe.
use mit_61810_labs.Prelude.{
  ℕ, zero, suc, ◌+◌, ◌-◌, ◌%◌, ◌^◌, ◌≤◌, ◌<◌, ◌≡◌, refl, ◌∙◌, ap, arith, inl, inr, Bool, true,
  false, not, ◌||◌, Option, none, some, List, [], ◌∷◌, ◌++◌, append-nil, append_assoc, ◌⊎◌,
  Bool-cases, Option-cases, lt→ltb, sym,
}
use mit_61810_labs.Kernel.Pipe.{
  Pipe, Progress, failed, asleep, returned, readers, pipe_size, put, wake, is_full, write_loop,
  pipewrite,
}
use mit_61810_labs.Kernel.Pipe.Buffer.{IsValid, contents, used, put_lem}

module _ (copyin : ℕ → Option ℕ) (killed : Bool) (addr : ℕ) where
  -- `m` bytes of user memory from index `i` on.
  pub user_bytes : ℕ → ℕ → List ℕ
  user_bytes i zero = []
  user_bytes i (suc m) = elim (copyin ((addr + i) % 2 ^ 64)) [
    | none ↦ []
    | some ch ↦ ch ∷ user_bytes (suc i) m
  ]

  -- What a run of the write loop from index `i` comes to, with `k` bytes left: it stops at `index`
  -- asleep on a full pipe, at the end, or where user memory cannot be read; the bytes up to there
  -- are behind those that were in the pipe, and the readers are woken.
  pub record Wrote (k i : ℕ) (p : Pipe) (out : Progress × Pipe) : Type 0 where
    pub index : ℕ
    pub shape :
        ((out.0 ≡ asleep index) × (used out.1 ≡ pipe_size))
        ⊎ ((out.0 ≡ returned index) × ((index ≡ i + k) ⊎ (copyin ((addr + index) % 2 ^ 64) ≡ none)))
    pub valid : IsValid out.1
    pub lower : i ≤ index
    pub upper : index ≤ i + k
    pub bytes : contents out.1 ≡ contents p ++ user_bytes i (index - i)
    pub woken : out.1.wakes ≡ readers ∷ p.wakes

  still : (i : ℕ) (p : Pipe) → contents p ≡ contents p ++ user_bytes i (i - i)
  unfolding user_bytes
  still i p =
      let none_left : i - i ≡ 0 = omega arith in
      sym (ap (λ m. contents p ++ user_bytes i m) none_left ∙ append-nil (contents p))

  user_bytes-more :
      (i j : ℕ) {ch : ℕ}
      → copyin ((addr + i) % 2 ^ 64) ≡ some ch
      → suc i ≤ j
      → user_bytes i (j - i) ≡ ch ∷ user_bytes (suc i) (j - suc i)
  unfolding user_bytes
  user_bytes-more i j e h = let m : j - i ≡ suc (j - suc i) = omega arith in rw (m, user_bytes, e)

  more-Wrote :
      (k i ch : ℕ) (p : Pipe) (out : Progress × Pipe)
      → copyin ((addr + i) % 2 ^ 64) ≡ some ch
      → contents (put ch p) ≡ contents p ++ (ch ∷ [])
      → Wrote k (suc i) (put ch p) out
      → Wrote (suc k) i p out
  unfolding put
  more-Wrote k i ch p out e c w = record {
    index = w.index;
    shape = ground (arith, w.shape);
    valid = w.valid;
    lower = omega (arith, w.lower);
    upper = omega (arith, w.upper);
    bytes =
        w.bytes
        ∙ ap (λ x. x ++ user_bytes (suc i) (w.index - suc i)) c
        ∙ append_assoc (contents p) (ch ∷ []) _
        ∙ ap (λ x. contents p ++ x) (sym (user_bytes-more i w.index e w.lower));
    woken = w.woken;
  }

  open_still :
      (ch : ℕ) (p : Pipe)
      → (not p.readopen || killed) ≡ false
      → (not (put ch p).readopen || killed) ≡ false
  unfolding put
  open_still ch p h = h

  none_left-Wrote : (i : ℕ) (p : Pipe) → IsValid p → Wrote 0 i p (returned i, wake readers p)
  none_left-Wrote i p v = record {
    index = i;
    shape = inr (refl, inl (omega arith));
    valid = ground arith;
    lower = omega arith;
    upper = omega arith;
    bytes = still i p;
    woken = refl;
  }

  pub write_loop-Wrote :
      (k i : ℕ) (p : Pipe)
      → IsValid p
      → (not p.readopen || killed) ≡ false
      → Wrote k i p (write_loop copyin killed addr k i p)
  unfolding write_loop
  write_loop-Wrote zero i p v here = none_left-Wrote i p v
  write_loop-Wrote (suc k) i p v here = elim (Bool-cases (is_full p)) [
    | inl full ↦
        rw (here, full)
          (record {
            index = i;
            shape = inl (refl, ground arith);
            valid = ground arith;
            lower = omega arith;
            upper = omega arith;
            bytes = still i p;
            woken = refl;
          })
    | inr room ↦ elim (Option-cases (copyin ((addr + i) % 2 ^ 64))) [
      | inl bad ↦
          rw (here, room, bad)
            (record {
              index = i;
              shape = inr (refl, inr bad);
              valid = ground arith;
              lower = omega arith;
              upper = omega arith;
              bytes = still i p;
              woken = refl;
            })
      | inr (ch, e) ↦
          let (v', c) = put_lem ch p v room in
          rw (here, room, e)
            (more-Wrote k i ch p _ e c
              (write_loop-Wrote k (suc i) (put ch p) v' (open_still ch p here)))
    ]
  ]

  -- A run of pipewrite that a reader could answer, in a process that is not killed, stores a part of
  -- the bytes as Wrote says.
  pub pipewrite-Wrote :
      (n i : ℕ) (p : Pipe)
      → IsValid p
      → n < 2 ^ 31
      → p.readopen ≡ true
      → killed ≡ false
      → Wrote (n - i) i p (pipewrite copyin killed addr n i p)
  unfolding pipewrite
  pipewrite-Wrote n i p v h r k =
      rw (lt→ltb n (2 ^ 31) h) (write_loop-Wrote (n - i) i p v (ground arith))

  -- With bytes left and no reader, or in a killed process, it fails and changes nothing.
  pub pipewrite-failed :
      (n i : ℕ) (p : Pipe)
      → i < n
      → n < 2 ^ 31
      → (p.readopen ≡ false) ⊎ (killed ≡ true)
      → pipewrite copyin killed addr n i p ≡ (failed, p)
  unfolding pipewrite write_loop
  pipewrite-failed n i p l h gone =
      let m : n - i ≡ suc (n - i - 1) = omega arith in rw (lt→ltb n (2 ^ 31) h, m) (ground arith)

  -- With no bytes left it only wakes the readers.
  pub pipewrite-none_left :
      (n i : ℕ) (p : Pipe)
      → IsValid p
      → n ≤ i
      → n < 2 ^ 31
      → Wrote 0 i p (pipewrite copyin killed addr n i p)
  unfolding pipewrite write_loop
  pipewrite-none_left n i p v l h =
      let m : n - i ≡ 0 = omega arith in rw (lt→ltb n (2 ^ 31) h, m) (none_left-Wrote i p v)
