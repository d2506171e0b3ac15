-- ===== src/Kernel/Fs/Inode/Calls.antt =====
-- How many calls of log_write the parts of writei make, and what their tests come to.
use mit_61810_labs.Prelude.{
  length, ℕ, zero, suc, ◌+◌, ◌-◌, ◌*◌, ◌/◌, ◌%◌, ◌≤◌, ◌<◌, ◌≡◌, refl, inl, inr, arith, Option, none,
  some, ltb, leb, ◌==◌, if◌then◌else◌, Bool-cases, Outcome, done, panic, ◌>>=◌, min,
}
use mit_61810_labs.Kernel.Fs.{
  Superblock, Disk, Transaction, block_size, entries, log_guard, log_guards, bzero, mark, take_free,
  balloc,
}
use mit_61810_labs.Kernel.Fs.Inode.{
  Held, bmap, ensure_addr, set_addr, ensure_indirect, ensure_entry, set_entry, put_bytes,
  next_round, writei_loop, end_write, iupdate, grow_size, load32,
}
use mit_61810_labs.Kernel.Fs.Guards.{
  entries-cons, HasRoom, Ends, Ends-bind, log_guard_lem, log_guards_lem,
}

-- A property of the result, if there is one.
abbrev pub IfDone {ℓ} : {A : Type ℓ} → (A → Type 0) → Outcome A → Type 0
IfDone P (done a) = P a
IfDone P (panic m) = Unit {0}

IfDone-bind :
    {A B : Type 0} {P : A → Type 0} (Q : B → Type 0) (f : A → Outcome B) (m : Outcome A)
    → IfDone P m
    → ((a : A) → P a → IfDone Q (f a))
    → IfDone Q (m >>= f)
IfDone-bind Q f (done a) p k = k a p
IfDone-bind Q f (panic m) p k = tt

-- The blocks of a file that `n` bytes from `off` on touch.
abbrev pub touched : ℕ → ℕ → ℕ
touched off n = if n == 0 then 0 else (off % block_size + n + 1023) / block_size

module _ (sb : Superblock) where
  abbrev calls : Disk → ℕ
  calls d = entries d.logged

  calls-take_free : (o : Option ℕ) (d : Disk) → calls (take_free sb o d).1 ≤ calls d + 2
  unfolding take_free bzero mark
  calls-take_free none d = omega arith
  calls-take_free (some b) d =
      let m = (mark sb (λ x y. x) b d).logged in
      omega (arith, (entries-cons b m).1, (entries-cons _ d.logged).1)

  calls-balloc : (d : Disk) → calls (balloc sb d).1 ≤ calls d + 2
  unfolding balloc
  calls-balloc d = calls-take_free _ d

  calls-set_addr : (k : ℕ) (r : ℕ × Disk) (s : Held) → calls (set_addr sb k r s).1.disk ≡ calls r.1
  unfolding set_addr
  calls-set_addr k (b, d) s = elim (Bool-cases (b == 0)) [ inl z ↦ rw z refl | inr p ↦ rw p refl ]

  calls-ensure_addr : (k : ℕ) (s : Held) → calls (ensure_addr sb k s).1.disk ≤ calls s.disk + 2
  unfolding ensure_addr
  calls-ensure_addr k s = elim (Bool-cases (s.ino.addrs k == 0)) [
    | inl z ↦ rw z (omega (arith, calls-set_addr k (balloc sb s.disk) s, calls-balloc s.disk))
    | inr p ↦ rw p (omega arith)
  ]

  calls-set_entry :
      (j addr : ℕ) (r : ℕ × Disk) (s : Held)
      → calls (set_entry sb j addr r s).1.disk ≤ calls r.1 + 1
  unfolding set_entry
  calls-set_entry j addr (b, d) s = elim (Bool-cases (b == 0)) [
    | inl z ↦ rw z (omega arith)
    | inr p ↦ rw p (entries-cons addr d.logged).1
  ]

  calls-ensure_entry :
      (j addr : ℕ) (s : Held) → calls (ensure_entry sb j addr s).1.disk ≤ calls s.disk + 3
  unfolding ensure_entry
  calls-ensure_entry j addr s = elim (Bool-cases (load32 (s.disk.block addr) (4 * j) == 0)) [
    | inl z ↦ rw z (omega (arith, calls-set_entry j addr (balloc sb s.disk) s, calls-balloc s.disk))
    | inr p ↦ rw p (omega arith)
  ]

  calls-ensure_indirect :
      (j : ℕ) (s : Held) → calls (ensure_indirect sb j s).1.disk ≤ calls s.disk + 5
  unfolding ensure_indirect
  calls-ensure_indirect j s =
      let r = ensure_addr sb 12 s in
      elim (Bool-cases (r.0 == 0)) [
        | inl z ↦ rw z (omega (arith, calls-ensure_addr 12 s))
        | inr p ↦ rw p (omega (arith, calls-ensure_entry j r.0 r.1, calls-ensure_addr 12 s))
      ]

  bmap-calls : (bn : ℕ) (s : Held) → IfDone (λ r. calls r.1.disk ≤ calls s.disk + 5) (bmap sb bn s)
  unfolding bmap
  bmap-calls bn s = elim (Bool-cases (ltb bn 12)) [
    | inl direct ↦ rw direct (omega (arith, calls-ensure_addr bn s))
    | inr far ↦ elim (Bool-cases (ltb (bn - 12) 256)) [
      | inl indirect ↦ rw (far, indirect) (calls-ensure_indirect (bn - 12) s)
      | inr out ↦ rw (far, out) tt
    ]
  ]

  module _ (room : ℕ → ℕ) where
    -- A round logs the data block at most, and ends the loop or fills the block.
    abbrev Round : ℕ → ℕ → ℕ → Option ℕ × Held → Type 0
    Round off rest c (none, s) = calls s.disk ≤ c + 1
    Round off rest c (some m, s) =
        (calls s.disk ≤ c + 1) × (m ≡ min rest (block_size - off % block_size))

    put_bytes-calls :
        (memory : ℕ → ℕ) (src off rest : ℕ) (r : ℕ × Held)
        → Round off rest (calls r.1.disk) (put_bytes room memory src off rest r)
    unfolding put_bytes
    put_bytes-calls memory src off rest (addr, s) = elim (Bool-cases (addr == 0)) [
      | inl z ↦ rw z (omega arith)
      | inr p ↦ elim (Bool-cases (leb (min rest (block_size - off % block_size)) (room src))) [
        | inl fits ↦ rw (p, fits) ((entries-cons addr s.disk.logged).1, refl)
        | inr short ↦ rw (p, short) (omega arith)
      ]
    ]

    -- The bound for the end of a loop.
    abbrev Bounded : ℕ → ℕ → ℕ × Held → Type 0
    Bounded c rounds r = calls r.1.disk ≤ c + 6 * rounds

    Bounded-mono :
        (c c' j j' : ℕ) (w : Outcome (ℕ × Held))
        → c + 6 * j ≤ c' + 6 * j'
        → IfDone (Bounded c j) w
        → IfDone (Bounded c' j') w
    Bounded-mono c c' j j' (done r) le q = omega (arith, q, le)
    Bounded-mono c c' j j' (panic x) le q = tt

    fewer_touched :
        (off n tot m : ℕ)
        → tot < n
        → m ≡ min (n - tot) (block_size - off % block_size)
        → touched (off + m) (n - (tot + m)) + 1 ≤ touched off (n - tot)
    fewer_touched off n tot m lt e = ground (arith, e)

    next_round-calls :
        (go : ℕ → Held → Outcome (ℕ × Held)) (off n tot c start : ℕ)
        → ((m : ℕ) (u : Held)
            → IfDone (Bounded (calls u.disk) (touched (off + m) (n - (tot + m)))) (go m u))
        → tot < n
        → c ≤ start + 5
        → (o : Option ℕ × Held) → Round off (n - tot) c o
        → IfDone (Bounded start (touched off (n - tot))) (next_round go tot o)
    next_round-calls go off n tot c start next lt le (none, u) p = ground arith
    next_round-calls go off n tot c start next lt le (some m, u) p =
        let fewer = fewer_touched off n tot m lt p.1 in
        Bounded-mono (calls u.disk) start (touched (off + m) (n - (tot + m)))
          (touched off (n - tot)) (go m u) (omega (arith, fewer, p.0, le)) (next m u)

    pub writei_loop-calls :
        (k : ℕ) (memory : ℕ → ℕ) (src off n tot : ℕ) (s : Held)
        → IfDone
            (Bounded (calls s.disk) (touched off (n - tot)))
            (writei_loop sb room k memory src off n tot s)
    unfolding writei_loop
    writei_loop-calls zero memory src off n tot s = omega arith
    writei_loop-calls (suc k) memory src off n tot s = elim (Bool-cases (ltb tot n)) [
      | inl more ↦ rw more (
          IfDone-bind (Bounded (calls s.disk) (touched off (n - tot))) _
            (bmap sb (off / block_size) s) (bmap-calls (off / block_size) s)
            (λ r c.
              next_round-calls
                (λ m u. writei_loop sb room k memory (src + m) (off + m) n (tot + m) u) off n tot
                (calls r.1.disk) (calls s.disk)
                (λ m u. writei_loop-calls k memory (src + m) (off + m) n (tot + m) u) (ground arith)
                c (put_bytes room memory src off (n - tot) r)
                (put_bytes-calls memory src off (n - tot) r)))
      | inr over ↦ rw over (omega arith)
    ]

  -- The end of writei, where the calls of the loop logged at most `n` blocks.
  pub end_write_lem :
      (t : Transaction) (P : Option ℕ × Held → Type 0) (d : Disk) (off tot n : ℕ) (u : Held)
      → entries u.disk.logged ≤ n
      → (HasRoom t (entries u.disk.logged) → P (some tot, grow_size sb off tot u))
      → Ends t n P (end_write sb t d off (tot, u))
  unfolding end_write
  end_write_lem t P d off tot n u le p =
      let calls_made = length u.disk.logged - length d.logged in
      Ends-bind {A = Unit {0}} {P = λ _. Unit {0}} t (entries u.disk.logged) n P
        (λ _. log_guard t u.disk.logged >>= λ _. done (some tot, grow_size sb off tot u))
        (log_guards t calls_made u.disk.logged) le (log_guards_lem t calls_made u.disk.logged)
        (λ _ _.
          Ends-bind t (entries u.disk.logged) n P (λ _. done (some tot, grow_size sb off tot u))
            (log_guard t u.disk.logged) le (log_guard_lem t u.disk.logged) (λ _ room. p room))

  -- iupdate logs a block more at most.
  pub calls-grow_size :
      (off tot : ℕ) (u : Held)
      → entries (grow_size sb off tot u).disk.logged ≤ entries u.disk.logged + 1
  unfolding grow_size iupdate
  calls-grow_size off tot u = (entries-cons _ u.disk.logged).1
