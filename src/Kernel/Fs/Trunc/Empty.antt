-- ===== src/Kernel/Fs/Trunc/Empty.antt =====
-- itrunc frees the blocks of the file, and only them.
use mit_61810_labs.Prelude.{
  ℕ, zero, suc, ◌+◌, ◌*◌, ◌≤◌, ◌<◌, ◌≡◌, ◌≢◌, refl, sym, ap, ◌∙◌, subst, fun_ext, arith, inl, inr,
  Bool, true, false, ◌&&◌, ◌||◌, ltb, leb, ◌==◌, if◌then◌else◌, Bool-cases, update, Returns,
  Returns-map, Returns-bind,
}
use mit_61810_labs.Kernel.Fs.{Superblock, Disk, is_free, bfree}
use mit_61810_labs.Kernel.Fs.Inode.{Held, load32}
use mit_61810_labs.Kernel.Fs.Bitmap.{first_data}
use mit_61810_labs.Kernel.Fs.Trunc.{
  trunc_addr, trunc_addrs, free_entry, free_entries, trunc_indirect, itrunc,
}
use mit_61810_labs.Kernel.Fs.Trunc.Freed.{IsFreed, IsFreed-none, IsFreed-skip, IsFreed-step}
use mit_61810_labs.Kernel.Fs.Inode.Slots.{slot, IsFile}
use mit_61810_labs.Kernel.Fs.Inode.Grow.{slot_entry}
use mit_61810_labs.Kernel.Fs.Inode.Update.{updated-slot, updated-IsFile, updated_free}

module _ (sb : Superblock) (s : Held) (h : IsFile sb s) where
  -- The first `i` addresses are done.
  record IsDirect (i : ℕ) (t : Held) : Type 0 where
    pub freed : IsFreed sb s h (λ k. ltb k i) t.disk
    pub addrs : (l : ℕ) → t.ino.addrs l ≡ (if ltb l i then 0 else s.ino.addrs l)
    pub inum : t.ino.inum ≡ s.ino.inum

  slot_direct : (k : ℕ) → k < 13 → slot k s ≡ s.ino.addrs k
  unfolding slot
  slot_direct k lt = let low : ltb k 13 ≡ true = ground arith in rw low refl

  next_addr :
      (l i : ℕ) (v : ℕ)
      → (if i == l then 0 else (if ltb l i then 0 else v)) ≡ (if ltb l (suc i) then 0 else v)
  next_addr l i v = ground arith

  trunc_addr_lem :
      (i : ℕ) (t : Held) → i < 12 → IsDirect i t → Returns (IsDirect (suc i)) (trunc_addr sb i t)
  unfolding trunc_addr
  trunc_addr_lem i t lt p =
      let at : t.ino.addrs i ≡ slot i s =
        p.addrs i ∙ ground arith ∙ sym (slot_direct i (omega arith)) in
      let law : (l : ℕ) → ltb l (suc i) ≡ (if i == l then true else ltb l i) = λ l. ground arith in
      elim (Bool-cases (t.ino.addrs i == 0)) [
        | inl none_ ↦
            let z : t.ino.addrs i ≡ 0 = ground arith in
            rw none_ record {
              freed =
                  IsFreed-skip sb s h (λ k. ltb k i) (λ k. ltb k (suc i)) i t.disk (omega arith) law
                    p.freed (sym at ∙ z);
              addrs = λ l. elim (Bool-cases (i == l)) [
                | inl same ↦
                    let q : i ≡ l = ground arith in ap t.ino.addrs (sym q) ∙ z ∙ ground arith
                | inr other ↦ p.addrs l ∙ ground arith
              ];
              inum = p.inum;
            }
        | inr some_ ↦
            let ne : slot i s ≢ 0 = λ z. ground arith in
            rw some_ (
              Returns-map (IsDirect (suc i)) _ (bfree sb (t.ino.addrs i) t.disk)
                (subst (λ v. Returns (IsFreed sb s h (λ k. ltb k (suc i))) (bfree sb v t.disk))
                  (sym at)
                  (IsFreed-step sb s h (λ k. ltb k i) (λ k. ltb k (suc i)) i t.disk (omega arith)
                    law p.freed (ground arith) ne))
                (λ d q. record {
                  freed = q;
                  addrs = λ l.
                      ap (λ a. if i == l then 0 else a) (p.addrs l) ∙ next_addr l i (s.ino.addrs l);
                  inum = p.inum;
                }))
      ]

  trunc_addrs_lem :
      (k i : ℕ) (t : Held)
      → i + k ≡ 12
      → IsDirect i t
      → Returns (IsDirect 12) (trunc_addrs sb k i t)
  unfolding trunc_addrs
  trunc_addrs_lem zero i t e p = subst (λ i. IsDirect i t) (omega (arith, e)) p
  trunc_addrs_lem (suc k) i t e p =
      Returns-bind (IsDirect 12) _ (trunc_addr sb i t) (trunc_addr_lem i t (omega arith) p)
        (λ u q. trunc_addrs_lem k (suc i) u (omega arith) q)

  -- The direct blocks and the first `j` entries of the indirect block are done.
  stage : ℕ → ℕ → Bool
  stage j k = ltb k 12 || (leb 13 k && ltb k (13 + j))

  stage_0 : (k : ℕ) → ltb k 12 ≡ stage 0 k
  unfolding stage
  stage_0 k = ground arith

  stage_12 : stage 256 12 ≡ false
  unfolding stage
  stage_12 = refl

  stage_rest : (l : ℕ) → l < 269 → (if 12 == l then true else stage 256 l) ≡ false → ⊥
  unfolding stage
  stage_rest l ll off = ground arith

  module _ (a : ℕ) (at : s.ino.addrs 12 ≡ a) (there : a ≢ 0) where
    slot12 : slot 12 s ≡ a
    slot12 = slot_direct 12 (omega arith) ∙ at

    behind : first_data sb ≤ a
    behind =
        subst (λ v. first_data sb ≤ v) slot12
          (h.owned 12 (omega arith) (λ z. there (sym slot12 ∙ z))).behind

    free_entry_lem :
        (j : ℕ) (d : Disk)
        → j < 256
        → IsFreed sb s h (stage j) d
        → Returns (IsFreed sb s h (stage (suc j))) (free_entry sb j a d)
    unfolding free_entry stage
    free_entry_lem j d lt p =
        let e : load32 (d.block a) (4 * j) ≡ slot (j + 13) s =
          ap (λ f. load32 f (4 * j)) (p.blocks a behind) ∙ sym (slot_entry j a s at there) in
        let law : (l : ℕ) → stage (suc j) l ≡ (if j + 13 == l then true else stage j l) =
          λ l. ground arith in
        elim (Bool-cases (load32 (d.block a) (4 * j) == 0)) [
          | inl none_ ↦
              let z : load32 (d.block a) (4 * j) ≡ 0 = ground arith in
              rw none_ (
                IsFreed-skip sb s h (stage j) (stage (suc j)) (j + 13) d (omega arith) law p
                  (sym e ∙ z))
          | inr some_ ↦
              let ne : slot (j + 13) s ≢ 0 = λ z. ground arith in
              rw some_ (
                subst (λ v. Returns (IsFreed sb s h (stage (suc j))) (bfree sb v d)) (sym e)
                  (IsFreed-step sb s h (stage j) (stage (suc j)) (j + 13) d (omega arith) law p
                    (ground arith) ne))
        ]

    free_entries_lem :
        (k j : ℕ) (d : Disk)
        → j + k ≡ 256
        → IsFreed sb s h (stage j) d
        → Returns (IsFreed sb s h (stage 256)) (free_entries sb k j a d)
    unfolding free_entries
    free_entries_lem zero j d e p = subst (λ j. IsFreed sb s h (stage j) d) (omega (arith, e)) p
    free_entries_lem (suc k) j d e p =
        Returns-bind (IsFreed sb s h (stage 256)) _ (free_entry sb j a d)
          (free_entry_lem j d (omega arith) p)
          (λ d' q. free_entries_lem k (suc j) d' (omega arith) q)

  -- The slots that are left hold nothing.
  IsFreed-all :
      (f : ℕ → Bool) (d : Disk)
      → ((l : ℕ) → l < 269 → f l ≡ false → slot l s ≡ 0)
      → IsFreed sb s h f d
      → IsFreed sb s h (λ k. true) d
  IsFreed-all f d rest p = record {
    disk = p.disk;
    blocks = p.blocks;
    gone = λ l ll _ ne. elim (Bool-cases (f l)) [
      | inl on ↦ p.gone l ll on ne
      | inr off ↦ absurd (ne (rest l ll off))
    ];
    kept = λ x away. p.kept x (λ l ll _. away l ll refl);
  }

  record IsEmptied (u : Held) : Type 0 where
    pub freed : IsFreed sb s h (λ k. true) u.disk
    pub addrs : (l : ℕ) → l < 13 → u.ino.addrs l ≡ 0
    pub inum : u.ino.inum ≡ s.ino.inum

  no_entries : (l : ℕ) → 12 ≤ l → s.ino.addrs 12 ≡ 0 → slot l s ≡ 0
  unfolding slot
  no_entries l le z = elim (Bool-cases (ltb l 13)) [
    | inl low ↦ let e : l ≡ 12 = ground arith in rw low (ap s.ino.addrs e ∙ z)
    | inr high ↦ rw (high, z) refl
  ]

  last_addr : (t : Held) → IsDirect 12 t → (l : ℕ) → l < 13 → update t.ino.addrs 12 0 l ≡ 0
  last_addr t p l lt = elim (Bool-cases (12 == l)) [
    | inl last ↦ rw last refl
    | inr other ↦ rw other (p.addrs l ∙ ground arith)
  ]

  trunc_indirect_lem : (t : Held) → IsDirect 12 t → Returns IsEmptied (trunc_indirect sb t)
  unfolding trunc_indirect
  trunc_indirect_lem t p =
      let at : t.ino.addrs 12 ≡ s.ino.addrs 12 = p.addrs 12 in
      elim (Bool-cases (t.ino.addrs 12 == 0)) [
        | inl none_ ↦
            let z : s.ino.addrs 12 ≡ 0 = ground arith in
            rw none_ record {
              freed =
                  IsFreed-all (λ k. ltb k 12) t.disk (λ l ll off. no_entries l (ground arith) z)
                    p.freed;
              addrs = λ l lt. elim (Bool-cases (12 == l)) [
                | inl last ↦ let e : l ≡ 12 = ground arith in ap t.ino.addrs e ∙ at ∙ z
                | inr other ↦ p.addrs l ∙ ground arith
              ];
              inum = p.inum;
            }
        | inr some_ ↦
            let a = t.ino.addrs 12 in
            let there : a ≢ 0 = λ z. ground arith in
            let first : IsFreed sb s h (stage 0) t.disk =
              subst (λ f. IsFreed sb s h f t.disk) (fun_ext stage_0) p.freed in
            rw some_ (
              Returns-bind IsEmptied _ (free_entries sb 256 0 a t.disk)
                (free_entries_lem a (sym at) there 256 0 t.disk refl first)
                (λ d q.
                  Returns-map IsEmptied _ (bfree sb a d)
                    (subst
                      (λ v.
                        Returns (IsFreed sb s h (λ l. if 12 == l then true else stage 256 l))
                          (bfree sb v d))
                      (slot12 a (sym at) there)
                      (IsFreed-step sb s h (stage 256) (λ l. if 12 == l then true else stage 256 l)
                        12 d (omega arith) (λ l. refl) q stage_12
                        (λ z. there (sym (slot12 a (sym at) there) ∙ z))))
                    (λ d' r. record {
                      freed =
                          IsFreed-all (λ l. if 12 == l then true else stage 256 l) d'
                            (λ l ll off. absurd (stage_rest l ll off)) r;
                      addrs = last_addr t p;
                      inum = p.inum;
                    })))
      ]

  -- What itrunc leaves: an empty file in order; every block of the old file is free, and the blocks
  -- that were none of its stay as they were.
  pub record IsTruncated (s' : Held) : Type 0 where
    pub file : IsFile sb s'
    pub empty : (k : ℕ) → k < 269 → slot k s' ≡ 0
    pub size : s'.ino.size ≡ 0
    pub inum : s'.ino.inum ≡ s.ino.inum
    pub gone : (k : ℕ) → k < 269 → slot k s ≢ 0 → is_free sb (slot k s) s'.disk ≡ true
    pub kept :
        (x : ℕ)
        → x < sb.size
        → ((k : ℕ) → k < 269 → slot k s ≢ 0 → x ≢ slot k s)
        → is_free sb x s'.disk ≡ is_free sb x s.disk

  emptied-slot : (u : Held) → IsEmptied u → (k : ℕ) → k < 269 → slot k u ≡ 0
  unfolding slot
  emptied-slot u p k lt = elim (Bool-cases (ltb k 13)) [
    | inl low ↦ rw low (p.addrs k (ground arith))
    | inr high ↦ rw (high, p.addrs 12 (omega arith)) refl
  ]

  emptied-IsFile : (u : Held) → IsEmptied u → IsFile sb u
  emptied-IsFile u p = record {
    disk = p.freed.disk;
    short = h.short;
    listed = omega (arith, p.inum, h.listed);
    owned = λ k lt ne. absurd (ne (emptied-slot u p k lt));
    apart = λ k l lk ll ne e. absurd (ne (emptied-slot u p k lk));
  }

  -- For a file in order, itrunc does not panic, so it frees no block that is free: it leaves an empty file
  -- in order; every block that the file had is free, and no other block of the disk changes hands.
  pub itrunc_lem : Returns IsTruncated (itrunc sb s)
  unfolding itrunc
  itrunc_lem =
      Returns-bind IsTruncated _ (trunc_addrs sb 12 0 s)
        (trunc_addrs_lem 12 0 s refl (record {
          freed =
              subst (λ f. IsFreed sb s h f s.disk) (fun_ext (λ k. ground arith))
                (IsFreed-none sb s h);
          addrs = λ l. ground arith;
          inum = refl;
        }))
        (λ t p. Returns-map IsTruncated _ (trunc_indirect sb t) (trunc_indirect_lem t p) (λ u q.
          let f = emptied-IsFile u q in
          record {
            file = updated-IsFile sb u 0 f;
            empty = λ k lt. updated-slot sb u 0 f k ∙ emptied-slot u q k lt;
            size = refl;
            inum = q.inum;
            gone = λ k lt ne.
                updated_free sb u 0 f (slot k s) (h.owned k lt ne).within
                ∙ q.freed.gone k lt refl ne;
            kept = λ x lx away. updated_free sb u 0 f x lx ∙ q.freed.kept x (λ k lt _. away k lt);
          }))
