-- ===== src/Kernel/Fs/Inode/Update.antt =====
-- iupdate: what the inode's block holds, and that the file stays.
use mit_61810_labs.Prelude.{
  ℕ, ◌/◌, ◌≤◌, ◌<◌, ◌≡◌, ◌≢◌, refl, sym, ◌∙◌, subst, arith, inl, inr, false, ◌==◌, Bool-cases,
}
use mit_61810_labs.Kernel.Fs.{block_size, Superblock, is_free, bitmap_block}
use mit_61810_labs.Kernel.Fs.Inode.{Inode, Held, iupdate}
use mit_61810_labs.Kernel.Fs.Inode.Slots.{slot, slot_of, content, IsFile}
use mit_61810_labs.Kernel.Fs.Inode.Bmap.{IsFull}
use mit_61810_labs.Kernel.Fs.Bitmap.{first_data}
use mit_61810_labs.Kernel.Fs.Blocks.{written_free, written_IsDisk}
use mit_61810_labs.Kernel.Fs.Inode.Slots.{IsOwned}
use mit_61810_labs.Kernel.Fs.Inode.{dinode_byte, inode_block}

-- iupdate writes a block before the bitmap, which no file owns.
module _ (sb : Superblock) (s : Held) (size : ℕ) (h : IsFile sb s) where
  abbrev pub resized : Inode
  resized = record (s.ino) { size = size }

  abbrev pub updated : Held
  updated = record { ino = resized; disk = iupdate sb (record { ino = resized; disk = s.disk }) }

  abbrev at : ℕ
  at = inode_block sb s.ino.inum

  at_lt : at < sb.bmapstart
  unfolding inode_block
  at_lt = omega (arith, h.disk.order, h.listed)

  off_data : (v : ℕ) → first_data sb ≤ v → (at == v) ≡ false
  off_data v le = ground (arith, at_lt)

  off_bitmap : (x : ℕ) → x < sb.size → (at == bitmap_block sb x) ≡ false
  unfolding bitmap_block
  off_bitmap x lx = ground (arith, at_lt)

  off_slot : (l : ℕ) → l < 269 → slot l s ≢ 0 → (at == slot l s) ≡ false
  off_slot l ll ne = off_data (slot l s) (h.owned l ll ne).behind

  pub updated-slot : (l : ℕ) → slot l updated ≡ slot l s
  unfolding slot iupdate
  updated-slot l = elim (Bool-cases (s.ino.addrs 12 == 0)) [
    | inl none_ ↦ rw none_ refl
    | inr some_ ↦
        let ne : (at == s.ino.addrs 12) ≡ false = off_slot 12 (omega arith) (λ z. ground arith) in
        rw (some_, ne) refl
  ]

  dinode_low : (ip : Inode) (q : ℕ) → dinode_byte ip q < 256
  unfolding dinode_byte
  dinode_low ip q = ground arith

  pub updated-IsFile : IsFile sb updated
  unfolding iupdate
  updated-IsFile = record {
    disk =
        written_IsDisk sb at _ s.disk _ off_bitmap h.disk
          (λ q. ground (arith, dinode_low resized q, h.disk.bytes at q));
    short = h.short;
    listed = h.listed;
    owned = λ l ll ne.
        let o = h.owned l ll (λ z. ne (updated-slot l ∙ z)) in
        subst (λ w. IsOwned sb w updated.disk) (sym (updated-slot l))
          record {
            behind = o.behind;
            within = o.within;
            used = written_free sb at _ s.disk _ off_bitmap (slot l s) o.within ∙ o.used;
          };
    apart = λ l m ll lm ne e.
        h.apart l m ll lm (λ z. ne (updated-slot l ∙ z))
          (sym (updated-slot l) ∙ e ∙ updated-slot m);
  }

  pub content-updated : (p : ℕ) → p / block_size < 268 → content updated p ≡ content s p
  unfolding content iupdate
  content-updated p lp =
      let l = slot_of (p / block_size) in
      elim (Bool-cases (slot l s == 0)) [
        | inl none_ ↦ rw (updated-slot l, none_) refl
        | inr some_ ↦
            let ne : (at == slot l s) ≡ false = off_slot l (ground arith) (λ z. ground arith) in
            rw (updated-slot l, some_, ne) refl
      ]

  pub updated_free : (x : ℕ) → x < sb.size → is_free sb x updated.disk ≡ is_free sb x s.disk
  unfolding iupdate
  updated_free x lx = written_free sb at _ s.disk _ off_bitmap x lx

  pub updated-IsFull : IsFull sb s.disk → IsFull sb updated.disk
  updated-IsFull full x lx = updated_free x lx ∙ full x lx
