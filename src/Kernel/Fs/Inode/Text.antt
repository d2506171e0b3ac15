-- ===== src/Kernel/Fs/Inode/Text.antt =====
-- Bytes of the caller put into a file: one block of it, and one range after another.
use mit_61810_labs.Prelude.{
  ℕ, ◌+◌, ◌-◌, ◌/◌, ◌%◌, ◌≤◌, ◌<◌, ◌≡◌, ◌≢◌, refl, sym, ap, ◌∙◌, arith, inl, inr, true, false, ◌&&◌,
  ltb, leb, ◌==◌, if◌then◌else◌, Bool-cases,
}
use mit_61810_labs.Kernel.Fs.{block_size, Superblock}
use mit_61810_labs.Kernel.Fs.Inode.{Held, blit}
use mit_61810_labs.Kernel.Fs.Inode.Slots.{slot, slot_of, content, IsFile}
use mit_61810_labs.Kernel.Fs.Inode.Bmap.{Keeps}

module _ (sb : Superblock) (memory : ℕ → ℕ) where
  -- The bytes from `src` on stand at `off` of the file, `moved` of them.
  pub record Writes (src off moved : ℕ) (s s' : Held) : Type 0 where
    pub file : IsFile sb s'
    pub text :
        (p : ℕ) → p / block_size < 268 → content s' p ≡ blit (content s) off memory src moved p
    pub size : s'.ino.size ≡ s.ino.size
    pub inum : s'.ino.inum ≡ s.ino.inum
    pub stays : (l : ℕ) → l < 269 → slot l s ≢ 0 → slot l s' ≡ slot l s
    pub filled :
        (p : ℕ)
        → off ≤ p
        → p < off + moved
        → p / block_size < 268
        → slot (slot_of (p / block_size)) s' ≢ 0

  pub blit_none : (f : ℕ → ℕ) (at src p : ℕ) → blit f at memory src 0 p ≡ f p
  blit_none f at src p = elim (Bool-cases (leb at p)) [
    | inl after ↦ let no_ : ltb p (at + 0) ≡ false = ground arith in rw (after, no_) refl
    | inr before ↦ rw before refl
  ]

  pub blit_join :
      (f : ℕ → ℕ) (at src m n p : ℕ)
      → blit (blit f at memory src m) (at + m) memory (src + m) n p ≡ blit f at memory src (m + n) p
  blit_join f at src m n p = elim (Bool-cases (leb at p)) [
    | inl after ↦ elim (Bool-cases (ltb p (at + m))) [
      | inl first ↦
          let a : leb (at + m) p ≡ false = ground arith in
          let b : ltb p (at + (m + n)) ≡ true = ground arith in rw (after, first, a, b) refl
      | inr second ↦
          let a : leb (at + m) p ≡ true = ground arith in
          let b : ltb p (at + m + n) ≡ ltb p (at + (m + n)) = ap (ltb p) (omega arith) in
          let c : src + m + (p - (at + m)) ≡ src + (p - at) = ground arith in
          rw (after, second, a, b, c) refl
    ]
    | inr before ↦ let a : leb (at + m) p ≡ false = ground arith in rw (before, a) refl
  ]

  pub Keeps-Writes :
      (src off m : ℕ) (s t u : Held) → Keeps sb s t → Writes src off m t u → Writes src off m s u
  Keeps-Writes src off m s t u k w = record {
    file = w.file;
    text = λ p lp.
        w.text p lp
        ∙ ap (λ c. if leb off p && ltb p (off + m) then memory (src + (p - off)) else c)
            (k.same p lp);
    size = w.size ∙ k.size;
    inum = w.inum ∙ k.inum;
    stays = λ l ll ne. let e = k.stays l ll ne in w.stays l ll (λ z. ne (sym e ∙ z)) ∙ e;
    filled = w.filled;
  }

  pub Writes-none : (src off : ℕ) (s : Held) → IsFile sb s → Writes src off 0 s s
  Writes-none src off s h = record {
    file = h;
    text = λ p lp. sym (blit_none (content s) off src p);
    size = refl;
    inum = refl;
    stays = λ l ll ne. refl;
    filled = λ p a b lp. absurd (omega arith);
  }

  pub Writes-join :
      (src off m n : ℕ) (s t u : Held)
      → Writes src off m s t
      → Writes (src + m) (off + m) n t u
      → Writes src off (m + n) s u
  Writes-join src off m n s t u a b = record {
    file = b.file;
    text = λ p lp.
        b.text p lp
        ∙ ap
            (λ c.
              if leb (off + m) p && ltb p (off + m + n)
              then memory (src + m + (p - (off + m)))
              else c)
            (a.text p lp)
        ∙ blit_join (content s) off src m n p;
    size = b.size ∙ a.size;
    inum = b.inum ∙ a.inum;
    stays = λ l ll ne. let e = a.stays l ll ne in b.stays l ll (λ z. ne (sym e ∙ z)) ∙ e;
    filled = λ p l g lp. elim (Bool-cases (ltb p (off + m))) [
      | inl first ↦
          let ne = a.filled p l (ground arith) lp in
          λ z. ne (sym (b.stays (slot_of (p / block_size)) (ground arith) ne) ∙ z)
      | inr second ↦ b.filled p (ground arith) (omega (arith, g)) lp
    ];
  }

  -- Within one block of the file.
  pub blit_block :
      (v off src m p : ℕ) (s : Held)
      → m ≤ block_size - off % block_size
      → v ≢ 0
      → v ≡ slot (slot_of (off / block_size)) s
      → (if slot_of (p / block_size) == slot_of (off / block_size)
          then blit (s.disk.block v) (off % block_size) memory src m (p % block_size)
          else content s p)
        ≡ blit (content s) off memory src m p
  unfolding content
  blit_block v off src m p s le there at =
      elim (Bool-cases (slot_of (p / block_size) == slot_of (off / block_size))) [
        | inl same ↦
            let e : p / 1024 ≡ off / 1024 = ground arith in
            let a : leb (off % 1024) (p % 1024) ≡ leb off p = ground arith in
            let b : ltb (p % 1024) (off % 1024 + m) ≡ ltb p (off + m) = ground arith in
            let c : leb off p ≡ true → p % 1024 - off % 1024 ≡ p - off = λ l. ground arith in
            let d : slot (slot_of (p / 1024)) s ≡ v = ap (λ n. slot (slot_of n) s) e ∙ sym at in
            let nz : (v == 0) ≡ false = ground arith in
            elim (Bool-cases (leb off p)) [
              | inl after ↦ rw (same, a, b, c after, d, nz) refl
              | inr before ↦ rw (same, a, before, d, nz) refl
            ]
        | inr differ ↦ elim (Bool-cases (leb off p)) [
          | inl after ↦ let f : ltb p (off + m) ≡ false = ground arith in rw (differ, after, f) refl
          | inr before ↦ rw (differ, before) refl
        ]
      ]
