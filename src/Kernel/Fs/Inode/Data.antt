-- ===== src/Kernel/Fs/Inode/Data.antt =====
-- A data block of a file is written: the content changes there and nowhere else.
use mit_61810_labs.Prelude.{
  ℕ, ◌/◌, ◌%◌, ◌<◌, ◌≡◌, ◌≢◌, refl, sym, ap, ◌∙◌, subst, arith, inl, inr, false, List, ◌==◌, ==_ne,
  ==_refl, if◌then◌else◌, Bool-cases, update,
}
use mit_61810_labs.Kernel.Fs.{block_size, Superblock, bitmap_block}
use mit_61810_labs.Kernel.Fs.Inode.{Held}
use mit_61810_labs.Kernel.Fs.Blocks.{apart_bitmap, written_free, written_IsDisk}
use mit_61810_labs.Kernel.Fs.Inode.Slots.{slot, slot_of, content, IsFile, IsOwned}

-- The block `v` with new bytes.
abbrev pub stored : Held → ℕ → (ℕ → ℕ) → List ℕ → Held
stored s v bytes log = record {
  ino = s.ino;
  disk = record { block = update s.disk.block v bytes; logged = log };
}

module _ (sb : Superblock) (s : Held) (k v : ℕ) (bytes : ℕ → ℕ) (log : List ℕ) (h : IsFile sb s)
    (lt : k < 269) (k12 : k ≢ 12) (at : v ≡ slot k s) (there : v ≢ 0)
    (low : (q : ℕ) → bytes q < 256) where
  owned : IsOwned sb v s.disk
  owned = subst (λ v. IsOwned sb v s.disk) (sym at) (h.owned k lt (λ z. there (at ∙ z)))

  other : (l : ℕ) → l < 269 → l ≢ k → (v == slot l s) ≡ false
  other l ll ne =
      ==_ne v (slot l s) (λ e. ne (sym (h.apart k l lt ll (λ z. there (at ∙ z)) (sym at ∙ e))))

  pub stored-slot : (l : ℕ) → slot l (stored s v bytes log) ≡ slot l s
  unfolding slot
  stored-slot l =
      let ne : (v == s.ino.addrs 12) ≡ false = other 12 (omega arith) (λ e. k12 (sym e)) in
      rw ne refl

  off_bitmap : (x : ℕ) → x < sb.size → (v == bitmap_block sb x) ≡ false
  off_bitmap x lx = apart_bitmap sb v x owned.behind lx

  pub stored-IsFile : IsFile sb (stored s v bytes log)
  stored-IsFile = record {
    disk = written_IsDisk sb v bytes s.disk log off_bitmap h.disk low;
    short = h.short;
    listed = h.listed;
    owned = λ l ll ne.
        let o = h.owned l ll (λ z. ne (stored-slot l ∙ z)) in
        subst (λ w. IsOwned sb w ((stored s v bytes log).disk)) (sym (stored-slot l))
          record {
            behind = o.behind;
            within = o.within;
            used = written_free sb v bytes s.disk log off_bitmap (slot l s) o.within ∙ o.used;
          };
    apart = λ l m ll lm ne e.
        h.apart l m ll lm (λ z. ne (stored-slot l ∙ z)) (sym (stored-slot l) ∙ e ∙ stored-slot m);
  }

  pub content-stored :
      (p : ℕ)
      → p / block_size < 268
      → content (stored s v bytes log) p
        ≡ (if slot_of (p / block_size) == k then bytes (p % block_size) else content s p)
  unfolding content
  content-stored p lp =
      let l = slot_of (p / block_size) in
      elim (Bool-cases (l == k)) [
        | inl here ↦
            let e : slot l (stored s v bytes log) ≡ v =
              stored-slot l ∙ ap (λ l. slot l s) (ground arith) ∙ sym at in
            let nz : (v == 0) ≡ false = ground arith in rw (here, e, nz, ==_refl v) refl
        | inr away ↦
            let ne : (v == slot l s) ≡ false = other l (ground arith) (λ e. ground arith) in
            rw (away, stored-slot l, ne) refl
      ]
