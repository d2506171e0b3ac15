-- ===== src/Kernel/Fs/Inode/Bmap.antt =====
-- bmap: the file keeps its content, and gets the block that is asked for if there is one.
use mit_61810_labs.Prelude.{
  ℕ, suc, ◌+◌, ◌-◌, ◌*◌, ◌/◌, ◌<◌, ◌≡◌, ◌≢◌, ◌⊎◌, refl, sym, ap, ◌∙◌, subst, arith, inl, inr, true,
  false, ltb, ◌==◌, ==_ne, ==_refl, if◌then◌else◌, Bool-cases, Returns,
}
use mit_61810_labs.Kernel.Fs.{block_size, Superblock, Disk, is_free, balloc}
use mit_61810_labs.Kernel.Fs.Inode.{
  Held, load32, set_addr, ensure_addr, set_entry, ensure_entry, ensure_indirect, bmap,
}
use mit_61810_labs.Kernel.Fs.Blocks.{Allocates, balloc_lem, free_data}
use mit_61810_labs.Kernel.Fs.Inode.Slots.{
  slot, slot_of, content, IsFile, Grows, Grows-content, Grows-IsFile,
}
use mit_61810_labs.Kernel.Fs.Inode.Grow.{slot_entry, direct-Grows, entry-Grows}

module _ (sb : Superblock) where
  -- The file is in order after the step, and its content and size are what they were.
  pub record Keeps (s s' : Held) : Type 0 where
    pub file : IsFile sb s'
    pub same : (p : ℕ) → p / block_size < 268 → content s' p ≡ content s p
    pub size : s'.ino.size ≡ s.ino.size
    pub inum : s'.ino.inum ≡ s.ino.inum
    pub stays : (l : ℕ) → l < 269 → slot l s ≢ 0 → slot l s' ≡ slot l s

  pub Keeps-refl : (s : Held) → IsFile sb s → Keeps s s
  Keeps-refl s h = record {
    file = h;
    same = λ p lt. refl;
    size = refl;
    inum = refl;
    stays = λ l ll ne. refl;
  }

  pub Keeps-trans : (s t u : Held) → Keeps s t → Keeps t u → Keeps s u
  Keeps-trans s t u a b = record {
    file = b.file;
    same = λ p lt. b.same p lt ∙ a.same p lt;
    size = b.size ∙ a.size;
    inum = b.inum ∙ a.inum;
    stays = λ l ll ne. let e = a.stays l ll ne in b.stays l ll (λ z. ne (sym e ∙ z)) ∙ e;
  }

  other : (k l b : ℕ) {v : ℕ} → k ≢ l → (if k == l then b else v) ≡ v
  other k l b ne = rw (==_ne k l ne) refl

  Grows-Keeps : (k b : ℕ) (s s' : Held) → IsFile sb s → Grows sb k b s s' → Keeps s s'
  Grows-Keeps k b s s' h g = record {
    file = Grows-IsFile sb k b s s' h g;
    same = Grows-content sb k b s s' h g;
    size = g.size;
    inum = g.inum;
    stays = λ l ll ne. g.slots l ll ∙ other k l b (λ e. ne (ap (λ l. slot l s) (sym e) ∙ g.empty));
  }

  -- No block is free.
  abbrev pub IsFull : Disk → Type 0
  IsFull d = (x : ℕ) → x < sb.size → is_free sb x d ≡ false

  -- The address of the block in the slot `k`, or 0 if there was none and no block is free.
  abbrev pub IsFound : ℕ → ℕ × Held → Type 0
  IsFound k (v, s) = ((v ≡ 0) × IsFull s.disk × (slot k s ≡ 0)) ⊎ ((v ≢ 0) × (v ≡ slot k s))

  alloc_nonzero :
      (b : ℕ) (s : Held) (d : Disk) → IsFile sb s → Allocates sb b s.disk d → (b == 0) ≡ false
  alloc_nonzero b s d h a = ground (arith, free_data sb b s.disk h.disk a.fresh)

  ensure_addr_lem :
      (k : ℕ) (s : Held)
      → IsFile sb s
      → k < 13
      → Keeps s (ensure_addr sb k s).1 × IsFound k (ensure_addr sb k s)
  unfolding ensure_addr set_addr slot
  ensure_addr_lem k s h lt =
      let low : ltb k 13 ≡ true = ground arith in
      elim (Bool-cases (s.ino.addrs k == 0)) [
        | inl empty ↦
            let e : s.ino.addrs k ≡ 0 = ground arith in
            elim (balloc_lem sb s.disk h.disk) [
              | inl a ↦
                  let b = (balloc sb s.disk).0 in
                  let nz = alloc_nonzero b s (balloc sb s.disk).1 h a in
                  let g = direct-Grows sb k b s (balloc sb s.disk).1 h lt e a in
                  rw (empty, nz)
                    (
                      Grows-Keeps k b s _ h g,
                      inr (λ z. ground arith, sym (g.slots k (omega arith) ∙ rw (==_refl k) refl)),
                    )
              | inr (q, full) ↦ rw (empty, q) (Keeps-refl s h, inl (refl, full, rw (low, e) refl))
            ]
        | inr there ↦ rw there (Keeps-refl s h, inr (λ z. ground arith, rw low refl))
      ]

  ensure_entry_lem :
      (j v : ℕ) (s : Held)
      → IsFile sb s
      → j < 256
      → s.ino.addrs 12 ≡ v
      → v ≢ 0
      → Keeps s (ensure_entry sb j v s).1 × IsFound (j + 13) (ensure_entry sb j v s)
  unfolding ensure_entry set_entry
  ensure_entry_lem j v s h lt at there = elim (Bool-cases (load32 (s.disk.block v) (4 * j) == 0)) [
    | inl empty ↦
        let e : load32 (s.disk.block v) (4 * j) ≡ 0 = ground arith in
        elim (balloc_lem sb s.disk h.disk) [
          | inl a ↦
              let b = (balloc sb s.disk).0 in
              let nz = alloc_nonzero b s (balloc sb s.disk).1 h a in
              let g = entry-Grows sb j v b s (balloc sb s.disk).1 h lt at there e a in
              rw (empty, nz)
                (
                  Grows-Keeps (j + 13) b s _ h g,
                  inr (
                    λ z. ground arith,
                    sym (g.slots (j + 13) (omega arith) ∙ rw (==_refl (j + 13)) refl),
                  ),
                )
          | inr (q, full) ↦
              rw (empty, q) (Keeps-refl s h, inl (refl, full, slot_entry j v s at there ∙ e))
        ]
    | inr filled ↦
        rw filled (Keeps-refl s h, inr (λ z. ground arith, sym (slot_entry j v s at there)))
  ]

  ensure_indirect_lem :
      (j : ℕ) (s : Held)
      → IsFile sb s
      → j < 256
      → Keeps s (ensure_indirect sb j s).1 × IsFound (j + 13) (ensure_indirect sb j s)
  unfolding ensure_indirect slot
  ensure_indirect_lem j s h lt =
      let r = ensure_addr sb 12 s in
      let first = ensure_addr_lem 12 s h (omega arith) in
      elim first.1 [
        | inl (z, full, e) ↦
            let hi : ltb (j + 13) 13 ≡ false = ground arith in
            rw z (first.0, inl (refl, full, rw (hi, e) refl))
        | inr (nz, e) ↦
            let t : (r.0 == 0) ≡ false = ground arith in
            let second = ensure_entry_lem j r.0 r.1 first.0.file lt (sym e) nz in
            rw t (Keeps-trans s r.1 _ first.0 second.0, second.1)
      ]

  -- For a file in order and a block number below MAXFILE, bmap does not panic; the file stays in order
  -- with the same bytes, size and blocks, and the address returned is the one that the file now has for
  -- the block, or 0, where the block is not there and no block of the disk is free.
  pub bmap_lem :
      (bn : ℕ) (s : Held)
      → IsFile sb s
      → bn < 268
      → Returns (λ r. Keeps s r.1 × IsFound (slot_of bn) r) (bmap sb bn s)
  unfolding bmap
  bmap_lem bn s h lt = elim (Bool-cases (ltb bn 12)) [
    | inl direct ↦ rw direct (ensure_addr_lem bn s h (ground arith))
    | inr far ↦
        let near : ltb (bn - 12) 256 ≡ true = ground arith in
        let e : bn - 12 + 13 ≡ suc bn = ground arith in
        rw (far, near)
          (subst
            (λ k.
              Keeps s (ensure_indirect sb (bn - 12) s).1
              × IsFound k (ensure_indirect sb (bn - 12) s))
            e (ensure_indirect_lem (bn - 12) s h (omega arith)))
  ]
