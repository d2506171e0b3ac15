-- ===== src/Kernel/Fs/Inode/Readi.antt =====
-- readi: the memory of the caller gets the content of the file.
use mit_61810_labs.Prelude.{
  ℕ, zero, suc, ◌+◌, ◌-◌, ◌*◌, ◌/◌, ◌%◌, ◌^◌, ◌≤◌, ◌<◌, ◌≡◌, ◌≢◌, ◌⊎◌, refl, sym, ap, ◌∙◌, subst,
  arith, inl, inr, false, ◌&&◌, ◌||◌, Option, none, some, ltb, leb, ◌==◌, if◌then◌else◌, Bool-cases,
  min, Outcome, Returns, Returns-mono, Returns-bind,
}
use mit_61810_labs.Kernel.Fs.{block_size, Superblock}
use mit_61810_labs.Kernel.Fs.Inode.{Held, blit, bmap, max_file}
use mit_61810_labs.Kernel.Fs.Inode.Slots.{slot, slot_of, content, IsFile}
use mit_61810_labs.Kernel.Fs.Inode.Bmap.{Keeps, IsFull, IsFound, bmap_lem}
use mit_61810_labs.Kernel.Fs.Inode.{get_bytes, next_read, readi_loop, readi}
use mit_61810_labs.Kernel.Fs.Inode.Bmap.{Keeps-refl, Keeps-trans}
use mit_61810_labs.Kernel.Fs.Inode.Text.{blit_join, blit_none}

-- The bytes of one block are those of the file.
get_block :
    (memory : ℕ → ℕ) (dst off m v : ℕ) (s : Held) (q : ℕ)
    → m ≤ block_size - off % block_size
    → v ≢ 0
    → v ≡ slot (slot_of (off / block_size)) s
    → blit memory dst (s.disk.block v) (off % block_size) m q ≡ blit memory dst (content s) off m q
unfolding content
get_block memory dst off m v s q le there at = elim (Bool-cases (leb dst q && ltb q (dst + m))) [
  | inl inside ↦
      let high : (off + (q - dst)) / 1024 ≡ off / 1024 = ground arith in
      let rest : (off + (q - dst)) % 1024 ≡ off % 1024 + (q - dst) = ground arith in
      let nz : (v == 0) ≡ false = ground arith in rw (inside, high, rest, sym at, nz) refl
  | inr outside ↦ rw outside refl
]

blit_same :
    (memory f g : ℕ → ℕ) (dst off m q : ℕ)
    → ((p : ℕ) → p < off + m → f p ≡ g p)
    → blit memory dst f off m q ≡ blit memory dst g off m q
blit_same memory f g dst off m q h = elim (Bool-cases (leb dst q && ltb q (dst + m))) [
  | inl inside ↦ rw inside (h (off + (q - dst)) (ground arith))
  | inr outside ↦ rw outside refl
]

-- A reading loop in a file with the content `c`: `rest` bytes were asked for and `got` were counted.
module _ (sb : Superblock) (room c : ℕ → ℕ) where
  pub record IsRead (dst off tot rest : ℕ) (memory : ℕ → ℕ) (s : Held)
      (r : Option ℕ × (ℕ → ℕ) × Held) : Type 0 where
    pub got : ℕ
    pub moved : ℕ
    pub within : moved ≤ rest
    pub copied : (q : ℕ) → r.1 q ≡ blit memory dst c off moved q
    pub keeps : Keeps sb s r.2
    pub result :
        ((r.0 ≡ some (tot + got))
          × (moved ≡ got)
          × ((got ≡ rest)
              ⊎ (IsFull sb (r.2.disk) × (slot (slot_of ((off + got) / block_size)) r.2 ≡ 0))))
        ⊎ ((r.0 ≡ none) × (moved ≡ got + room (dst + got)) × (moved < rest))

  -- A step of `m` bytes before the rest of the loop.
  IsRead-after :
      (dst off tot rest m : ℕ) (memory memory' : ℕ → ℕ) (s t : Held) (r : Option ℕ × (ℕ → ℕ) × Held)
      → m ≤ rest
      → Keeps sb s t
      → ((q : ℕ) → memory' q ≡ blit memory dst c off m q)
      → IsRead (dst + m) (off + m) (tot + m) (rest - m) memory' t r
      → IsRead dst off tot rest memory s r
  IsRead-after dst off tot rest m memory memory' s t r le k e p = record {
    got = m + p.got;
    moved = m + p.moved;
    within = omega (arith, p.within);
    copied = λ q.
        p.copied q
        ∙ ap
            (λ x.
              if leb (dst + m) q && ltb q (dst + m + p.moved)
              then c (off + m + (q - (dst + m)))
              else x)
            (e q)
        ∙ blit_join sb c memory dst off m p.moved q;
    keeps = Keeps-trans sb s t r.2 k p.keeps;
    result = elim p.result [
      | inl (a, b, inl d) ↦ inl (a ∙ ap some (omega arith), omega arith, inl (omega arith))
      | inl (a, b, inr (d, z)) ↦
          let e' : off + m + p.got ≡ off + (m + p.got) = omega arith in
          inl (
            a ∙ ap some (omega arith),
            omega arith,
            inr (d, ap (λ x. slot (slot_of (x / block_size)) r.2) (sym e') ∙ z),
          )
      | inr (a, b, d) ↦
          let e' : dst + m + p.got ≡ dst + (m + p.got) = omega arith in
          inr (a, omega (arith, b, ap room e'), omega arith)
    ];
  }

  -- The loop ends with what it has.
  IsRead-done :
      (dst off tot rest : ℕ) (memory : ℕ → ℕ) (s t : Held)
      → Keeps sb s t
      → (rest ≡ 0) ⊎ (IsFull sb t.disk × (slot (slot_of (off / block_size)) t ≡ 0))
      → IsRead dst off tot rest memory s (some tot, memory, t)
  IsRead-done dst off tot rest memory s t k why = record {
    got = 0;
    moved = 0;
    within = omega arith;
    copied = λ q. sym (blit_none sb c memory dst off q);
    keeps = k;
    result = inl (
      ap some (omega arith),
      refl,
      elim why [
        | inl z ↦ inl (sym z)
        | inr (full, z) ↦
            let e' : off + 0 ≡ off = omega arith in
            inr (full, ap (λ x. slot (slot_of (x / block_size)) t) e' ∙ z)
      ],
    );
  }

  round_lem :
      (dst off tot n v : ℕ) (memory : ℕ → ℕ) (s t : Held)
      (go : ℕ → (ℕ → ℕ) → Held → Outcome (Option ℕ × (ℕ → ℕ) × Held))
      → tot < n
      → Keeps sb s t
      → ((p : ℕ) → p < max_file * block_size → content t p ≡ c p)
      → off + (n - tot) ≤ max_file * block_size
      → IsFound sb (slot_of (off / block_size)) (v, t)
      → ((m : ℕ) (memory' : ℕ → ℕ)
          → 0 < m
          → m ≤ n - tot
          → Returns
              (IsRead (dst + m) (off + m) (tot + m) (n - (tot + m)) memory' t)
              (go m memory' t))
      → Returns
          (IsRead dst off tot (n - tot) memory s)
          (next_read go tot t (get_bytes room memory dst off (n - tot) (v, t)))
  unfolding get_bytes
  round_lem dst off tot n v memory s t go lt k same fits (inl (z, full, hole)) all =
      rw z (IsRead-done dst off tot (n - tot) memory s t k (inr (full, hole)))
  round_lem dst off tot n v memory s t go lt k same fits (inr (nz, at)) all =
      let m = min (n - tot) (block_size - off % block_size) in
      let z : (v == 0) ≡ false = ground arith in
      let mz : (m == 0) ≡ false = ground arith in
      let copy : ℕ → ℕ → ℕ = λ i. blit memory dst (t.disk.block v) (off % block_size) i in
      let right : (i : ℕ) → i ≤ m → (q : ℕ) → copy i q ≡ blit memory dst c off i q = λ i li q.
        get_block memory dst off i v t q (omega arith) nz at
        ∙ blit_same memory (content t) c dst off i q (λ p lp. same p (omega arith)) in
      elim (Bool-cases (leb m (room dst))) [
        | inl fine ↦
            rw (z, fine, mz)
              (Returns-mono _ (go m (copy m) t) (all m (copy m) (omega arith) (omega arith)) (λ r p.
                IsRead-after dst off tot (n - tot) m memory (copy m) s t r (omega arith) k
                  (right m (omega arith))
                  (subst (λ rest. IsRead (dst + m) (off + m) (tot + m) rest (copy m) t r)
                    (omega arith) p)))
        | inr short ↦
            let few : room dst < m = ground arith in
            rw (z, short)
              record {
                got = 0;
                moved = room dst;
                within = omega arith;
                copied = right (room dst) (omega arith);
                keeps = k;
                result = inr (
                  refl,
                  (let q : dst ≡ dst + 0 = omega arith in omega (arith, ap room q)),
                  omega arith,
                );
              }
      ]

  readi_loop_lem :
      (k dst off n tot : ℕ) (memory : ℕ → ℕ) (s : Held)
      → IsFile sb s
      → ((p : ℕ) → p < max_file * block_size → content s p ≡ c p)
      → n - tot ≤ k
      → off + (n - tot) ≤ max_file * block_size
      → Returns
          (IsRead dst off tot (n - tot) memory s)
          (readi_loop sb room k memory dst off n tot s)
  unfolding readi_loop
  readi_loop_lem zero dst off n tot memory s h same fuel fits =
      IsRead-done dst off tot (n - tot) memory s s (Keeps-refl sb s h) (inl (omega arith))
  readi_loop_lem (suc k) dst off n tot memory s h same fuel fits = elim (Bool-cases (ltb tot n)) [
    | inl more ↦ rw more (
        Returns-bind (IsRead dst off tot (n - tot) memory s) _ (bmap sb (off / block_size) s)
          (bmap_lem sb (off / block_size) s h (ground arith))
          (λ r (keeps, found).
            let same' : (p : ℕ) → p < max_file * block_size → content r.1 p ≡ c p =
              λ p lp. keeps.same p (omega arith) ∙ same p lp in
            round_lem dst off tot n r.0 memory s r.1
              (λ m memory' s'. readi_loop sb room k memory' (dst + m) (off + m) n (tot + m) s')
              (ground arith) keeps same' fits found
              (λ m memory' pos lm.
                readi_loop_lem k (dst + m) (off + m) n (tot + m) memory' r.1 keeps.file same'
                  (omega arith) (omega arith))))
    | inr enough ↦
        rw enough
          (IsRead-done dst off tot (n - tot) memory s s (Keeps-refl sb s h) (inl (ground arith)))
  ]

-- The number of bytes that the file has from `off` on, `n` at most; none where off + n overflows.
abbrev pub available : ℕ → ℕ → ℕ → ℕ
available size off n = if leb (2 ^ 32) (off + n) then 0 else min n (size - off)

module _ (sb : Superblock) (room : ℕ → ℕ) where
  -- For a file in order of MAXFILE blocks at most, and an offset off and a count n of 32 bits, readi does
  -- not panic, and the file stays in order with
  -- the same bytes: the memory of the caller gets the bytes of the file from off on, as many as the
  -- result counts, and is the same elsewhere. The count is n or what the file has left, 0 where off + n overflows; it is less only
  -- in a hole of the file when no block is free, and the result is -1 where the memory ends.
  pub readi_lem :
      (dst off n : ℕ) (memory : ℕ → ℕ) (s : Held)
      → IsFile sb s
      → s.ino.size ≤ max_file * block_size
      → off < 2 ^ 32
      → n < 2 ^ 32
      → Returns
          (IsRead sb room (content s) dst off 0 (available s.ino.size off n) memory s)
          (readi sb room memory dst off n s)
  unfolding readi
  readi_lem dst off n memory s h cap lo ln =
      elim (Bool-cases (ltb s.ino.size off || ltb ((off + n) % 2 ^ 32) off)) [
        | inl past ↦ rw past (
            IsRead-done sb room (content s) dst off 0 _ memory s s (Keeps-refl sb s h)
              (inl (ground arith)))
        | inr fine ↦
            let m = if ltb s.ino.size ((off + n) % 2 ^ 32) then s.ino.size - off else n in
            let e : m ≡ available s.ino.size off n = ground arith in
            rw fine (
              subst
                (λ a.
                  Returns (IsRead sb room (content s) dst off 0 a memory s)
                    (readi_loop sb room m memory dst off m 0 s))
                (omega (arith, e))
                (readi_loop_lem sb room (content s) m dst off m 0 memory s h (λ p lp. refl)
                  (omega arith) (ground arith)))
      ]
