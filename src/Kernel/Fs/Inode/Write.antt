-- ===== src/Kernel/Fs/Inode/Write.antt =====
-- writei: the bytes of the caller stand in the file, and the rest of the file is what it was.
use mit_61810_labs.Prelude.{
  ℕ, zero, suc, ◌+◌, ◌-◌, ◌*◌, ◌/◌, ◌%◌, ◌≤◌, ◌<◌, ◌≡◌, ◌≢◌, ◌⊎◌, refl, sym, ap, ◌∙◌, subst, arith,
  inl, inr, false, Option, none, some, List, ltb, leb, ◌==◌, Bool-cases, min, Outcome, Returns,
  Returns-mono, Returns-bind,
}
use mit_61810_labs.Kernel.Fs.{block_size, Superblock}
use mit_61810_labs.Kernel.Fs.Inode.{Held, blit, bmap, put_bytes, next_round, writei_loop, max_file}
use mit_61810_labs.Kernel.Fs.Inode.Slots.{slot, slot_of, IsFile}
use mit_61810_labs.Kernel.Fs.Inode.Bmap.{Keeps, IsFull, IsFound, bmap_lem}
use mit_61810_labs.Kernel.Fs.Inode.Data.{stored, stored-slot, stored-IsFile, content-stored}
use mit_61810_labs.Kernel.Fs.Inode.Text.{Writes, Keeps-Writes, Writes-none, Writes-join, blit_block}

module _ (sb : Superblock) (room memory : ℕ → ℕ) (low : (q : ℕ) → memory q < 256) where
  -- The end of a loop that was to put `rest` bytes and counts `got` of them: all of them, or the disk
  -- is full, or the caller's memory ends, and then what could be read of the last block is in the
  -- file as well.
  pub record IsPut (src off rest got : ℕ) (s s' : Held) : Type 0 where
    pub moved : ℕ
    pub counted : got ≤ moved
    pub within : moved ≤ rest
    pub writes : Writes sb memory src off moved s s'
    pub reason :
        ((got ≡ rest) × (moved ≡ got))
        ⊎ ((IsFull sb s'.disk × (moved ≡ got)) ⊎ (moved ≡ got + room (src + got)))

  -- A round of the loop: `m` bytes are put, or the loop ends.
  IsRound : ℕ → ℕ → ℕ → Held → Option ℕ × Held → Type 0
  IsRound src off rest s (some m, s') = (0 < m) × (m ≤ rest) × Writes sb memory src off m s s'
  IsRound src off rest s (none, s') = IsPut src off rest 0 s s'

  blit_low : (f : ℕ → ℕ) (at src n q : ℕ) → ((q : ℕ) → f q < 256) → blit f at memory src n q < 256
  blit_low f at src n q h = ground (arith, h q, low (src + (q - at)))

  stored-Writes :
      (src off m v : ℕ) (log : List ℕ) (s : Held)
      → IsFile sb s
      → off / block_size < 268
      → m ≤ block_size - off % block_size
      → v ≢ 0
      → v ≡ slot (slot_of (off / block_size)) s
      → Writes sb memory src off m s
          (stored s v (blit (s.disk.block v) (off % block_size) memory src m) log)
  stored-Writes src off m v log s h lt le there at =
      let k = slot_of (off / block_size) in
      let bytes = blit (s.disk.block v) (off % block_size) memory src m in
      let bytes_low : (q : ℕ) → bytes q < 256 =
        λ q. blit_low (s.disk.block v) (off % block_size) src m q (h.disk.bytes v) in
      let same_slot =
        stored-slot sb s k v bytes log h (ground arith) (λ e. ground arith) at there bytes_low in
      record {
        file =
            stored-IsFile sb s k v bytes log h (ground arith) (λ e. ground arith) at there
              bytes_low;
        text = λ p lp.
            content-stored sb s k v bytes log h (ground arith) (λ e. ground arith) at there
              bytes_low p lp
            ∙ blit_block sb memory v off src m p s le there at;
        size = refl;
        inum = refl;
        stays = λ l ll ne. same_slot l;
        filled = λ p a b lp.
            let e : p / block_size ≡ off / block_size = ground arith in
            λ z. there (
              at
              ∙ ap (λ n. slot (slot_of n) s) (sym e)
              ∙ sym (same_slot (slot_of (p / block_size)))
              ∙ z);
      }

  put_bytes_lem :
      (src off rest v : ℕ) (s : Held)
      → IsFile sb s
      → off / block_size < 268
      → 0 < rest
      → IsFound sb (slot_of (off / block_size)) (v, s)
      → IsRound src off rest s (put_bytes room memory src off rest (v, s))
  unfolding put_bytes IsRound
  put_bytes_lem src off rest v s h lt pos (inl (z, full, _)) = rw z record {
    moved = 0;
    counted = omega arith;
    within = omega arith;
    writes = Writes-none sb memory src off s h;
    reason = inr (inl (full, refl));
  }
  put_bytes_lem src off rest v s h lt pos (inr (nz, at)) =
      let m = min rest (block_size - off % block_size) in
      let z : (v == 0) ≡ false = ground arith in
      elim (Bool-cases (leb m (room src))) [
        | inl all ↦
            rw (z, all)
              (omega arith, omega arith, stored-Writes src off m v _ s h lt (omega arith) nz at)
        | inr part ↦
            let few : room src < m = ground arith in
            rw (z, part)
              record {
                moved = room src;
                counted = omega arith;
                within = omega arith;
                writes = stored-Writes src off (room src) v _ s h lt (omega arith) nz at;
                reason =
                    inr (inr (let q : src ≡ src + 0 = omega arith in omega (arith, ap room q)));
              }
      ]

  IsPut-after :
      (src off rest m got : ℕ) (s t u : Held)
      → m ≤ rest
      → Writes sb memory src off m s t
      → IsPut (src + m) (off + m) (rest - m) got t u
      → IsPut src off rest (m + got) s u
  IsPut-after src off rest m got s t u le w p = record {
    moved = m + p.moved;
    counted = omega (arith, p.counted);
    within = omega (arith, p.within);
    writes = Writes-join sb memory src off m p.moved s t u w p.writes;
    reason = elim p.reason [
      | inl (a, b) ↦ inl (omega arith, omega arith)
      | inr (inl (a, b)) ↦ inr (inl (a, omega arith))
      | inr (inr e) ↦
          let q : src + m + got ≡ src + (m + got) = omega arith in
          inr (inr (omega (arith, e, ap room q)))
    ];
  }

  IsPut-cover :
      (src off got : ℕ) (rest : ℕ) (s t u : Held)
      → Keeps sb s t
      → IsPut src off rest got t u
      → IsPut src off rest got s u
  IsPut-cover src off got rest s t u k p = record {
    moved = p.moved;
    counted = p.counted;
    within = p.within;
    writes = Keeps-Writes sb memory src off p.moved s t u k p.writes;
    reason = p.reason;
  }

  -- The loop counts `got` bytes more.
  abbrev pub IsLoop : ℕ → ℕ → ℕ → ℕ → Held → ℕ × Held → Type 0
  IsLoop src off n tot s r = (got : ℕ) × (r.0 ≡ tot + got) × IsPut src off (n - tot) got s r.1

  next_lem :
      (src off n tot : ℕ) (s t : Held) (go : ℕ → Held → Outcome (ℕ × Held)) (o : Option ℕ × Held)
      → tot < n
      → Keeps sb s t
      → IsRound src off (n - tot) t o
      → ((m : ℕ) (u : Held)
          → 0 < m
          → m ≤ n - tot
          → IsFile sb u
          → Returns (IsLoop (src + m) (off + m) n (tot + m) u) (go m u))
      → Returns (IsLoop src off n tot s) (next_round go tot o)
  unfolding IsRound
  next_lem src off n tot s t go (none, u) lt k round all =
      (0, omega arith, IsPut-cover src off 0 (n - tot) s t u k round)
  next_lem src off n tot s t go (some m, u) lt k (pos, le, w) all =
      Returns-mono _ (go m u) (all m u pos le w.file) (λ r (got, e, p). (
        m + got,
        omega arith,
        IsPut-cover src off (m + got) (n - tot) s t r.1 k (
            IsPut-after src off (n - tot) m got t u r.1 le w
              (subst (λ rest. IsPut (src + m) (off + m) rest got u r.1) (omega arith) p)),
      ))

  IsPut-done :
      (src off n tot : ℕ) (s : Held) → IsFile sb s → n ≤ tot → IsPut src off (n - tot) 0 s s
  IsPut-done src off n tot s h le = record {
    moved = 0;
    counted = omega arith;
    within = omega arith;
    writes = Writes-none sb memory src off s h;
    reason = inl (omega arith, refl);
  }

  pub writei_loop_lem :
      (k src off n tot : ℕ) (s : Held)
      → IsFile sb s
      → tot ≤ n
      → n - tot ≤ k
      → off + (n - tot) ≤ max_file * block_size
      → Returns (IsLoop src off n tot s) (writei_loop sb room k memory src off n tot s)
  unfolding writei_loop
  writei_loop_lem zero src off n tot s h le fuel fits =
      (0, omega arith, IsPut-done src off n tot s h (omega arith))
  writei_loop_lem (suc k) src off n tot s h le fuel fits = elim (Bool-cases (ltb tot n)) [
    | inl more ↦ rw more (
        Returns-bind (IsLoop src off n tot s) _ (bmap sb (off / block_size) s)
          (bmap_lem sb (off / block_size) s h (ground arith))
          (λ r (keeps, found).
            next_lem src off n tot s r.1 _ (put_bytes room memory src off (n - tot) r)
              (ground arith) keeps
              (put_bytes_lem src off (n - tot) r.0 r.1 keeps.file (ground arith) (ground arith)
                found)
              (λ m u pos lm hu.
                writei_loop_lem k (src + m) (off + m) n (tot + m) u hu (omega arith) (omega arith)
                  (omega arith))))
    | inr enough ↦ rw enough (0, omega arith, IsPut-done src off n tot s h (ground arith))
  ]
