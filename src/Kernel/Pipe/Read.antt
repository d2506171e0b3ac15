-- ===== src/Kernel/Pipe/Read.antt =====
-- piperead against the queue of the bytes in the pipe.
use mit_61810_labs.Prelude.{
  ℕ, zero, suc, ◌+◌, ◌%◌, ◌^◌, ◌<◌, ◌≡◌, refl, ◌∙◌, ap, arith, inl, inr, Bool, true, false, ◌&&◌,
  ◌⊎◌, List, [], ◌∷◌, ◌++◌, length, Bool-cases, ◌==◌, lt→ltb, min, if◌then◌else◌,
}
use mit_61810_labs.Kernel.Pipe.{Pipe, failed, asleep, returned, writers, get, read_loop, piperead}
use mit_61810_labs.Kernel.Pipe.Buffer.{IsValid, contents, used, window, get_lem}

-- What the copy loop comes to where every byte can be stored: the first bytes of the queue have gone
-- to the user, as many as there are and as are asked for.
pub record Delivers (k i : ℕ) (p : Pipe) (out : ℕ × List ℕ × Pipe) : Type 0 where
  pub valid : IsValid out.2
  pub count : out.0 ≡ i + min k (used p)
  pub taken : length out.1 ≡ min k (used p)
  pub queue : contents p ≡ out.1 ++ contents out.2
  pub quiet : out.2.wakes ≡ p.wakes

used-get : (p : Pipe) → IsValid p → (p.nread == p.nwrite) ≡ false → used p ≡ suc (used (get p).1)
unfolding get
used-get p v e = ground arith

wakes-get : (p : Pipe) → (get p).1.wakes ≡ p.wakes
unfolding get
wakes-get p = refl

more-Delivers :
    (k i : ℕ) (p : Pipe) (out : ℕ × List ℕ × Pipe)
    → IsValid p
    → (p.nread == p.nwrite) ≡ false
    → Delivers k (suc i) (get p).1 out
    → Delivers (suc k) i p (out.0, (get p).0 ∷ out.1, out.2)
more-Delivers k i p out v e w = record {
  valid = w.valid;
  count = omega (arith, w.count, used-get p v e);
  taken = omega (arith, w.taken, used-get p v e);
  queue = (get_lem p v e).1 ∙ ap (λ x. (get p).0 ∷ x) w.queue;
  quiet = w.quiet ∙ wakes-get p;
}

module _ (copyout : ℕ → Bool) (killed : Bool) (addr : ℕ) where
  pub read_loop-Delivers :
      ((a : ℕ) → copyout a ≡ true)
      → (k i : ℕ) (p : Pipe) → IsValid p
      → Delivers k i p (read_loop copyout killed addr k i p)
  unfolding read_loop
  read_loop-Delivers all zero i p v = record {
    valid = v;
    count = omega arith;
    taken = omega arith;
    queue = refl;
    quiet = refl;
  }
  read_loop-Delivers all (suc k) i p v = elim (Bool-cases (p.nread == p.nwrite)) [
    | inl empty ↦
        let no_byte : used p ≡ 0 = ground arith in
        rw empty (record {
          valid = v;
          count = omega arith;
          taken = omega arith;
          queue = refl;
          quiet = refl;
        })
    | inr more ↦
        rw (more, all ((addr + i) % 2 ^ 64))
          (more-Delivers k i p _ v more
            (read_loop-Delivers all k (suc i) (get p).1 (get_lem p v more).0))
  ]

  -- piperead of at most `n` bytes. While the pipe is empty and a writer has it open it takes nothing,
  -- and sleeps, or fails in a killed process. Otherwise, where user memory can be written, it takes
  -- the first min(n, number of bytes) bytes off the queue in order, returns their number (0 at the
  -- end of the data), and wakes the writers.
  pub piperead_lem :
      ((a : ℕ) → copyout a ≡ true)
      → (n : ℕ) (p : Pipe) → IsValid p
      → n < 2 ^ 31
      → let (r, out, q) = piperead copyout killed addr n p in
        ((contents p ≡ [])
          × (p.writeopen ≡ true)
          × (r ≡ (if killed then failed else asleep 0))
          × (out ≡ [])
          × (q ≡ p))
        ⊎ ((r ≡ returned (min n (used p)))
            × (length out ≡ min n (used p))
            × (contents p ≡ out ++ contents q)
            × IsValid q
            × (q.wakes ≡ writers ∷ p.wakes))
  unfolding piperead
  piperead_lem all n p v h = elim (Bool-cases (p.nread == p.nwrite && p.writeopen)) [
    | inl wait ↦
        let no_byte : used p ≡ 0 = ground arith in
        rw (lt→ltb n (2 ^ 31) h, wait)
          (inl (
            ap (window p.buf p.nread) no_byte,
            ground arith,
            ground arith,
            ground arith,
            ground arith,
          ))
    | inr go ↦
        let w = read_loop-Delivers all n 0 p v in
        rw (lt→ltb n (2 ^ 31) h, go)
          (inr (
            ap returned (omega (arith, w.count)),
            w.taken,
            w.queue,
            ground (arith, w.valid),
            ap (λ x. writers ∷ x) w.quiet,
          ))
  ]
