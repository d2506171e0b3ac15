-- ===== src/Kernel/Fs/Inode/Grow.antt =====
-- The two places where bmap stores a new block: each is a step that fills one empty slot.
use mit_61810_labs.Prelude.{
  ℕ, ◌+◌, ◌-◌, ◌*◌, ◌^◌, ◌<◌, ◌≡◌, ◌≢◌, refl, sym, ap, ◌∙◌, subst, arith, inl, inr, false, ltb,
  ◌==◌, ==_refl, if◌then◌else◌, Bool-cases, update, update-ne,
}
use mit_61810_labs.Kernel.Fs.{Superblock, Disk, write_block, bitmap_block}
use mit_61810_labs.Kernel.Fs.Inode.{Held, load32, store32, direct_blocks}
use mit_61810_labs.Kernel.Fs.Bitmap.{bitmap_block-lt}
use mit_61810_labs.Kernel.Fs.Blocks.{Allocates, apart_bitmap, written_free, written_IsDisk}
use mit_61810_labs.Kernel.Fs.Inode.Slots.{slot, slot-fresh, IsFile, IsOwned, Grows}

load_store : (bytes : ℕ → ℕ) (q v : ℕ) → v < 2 ^ 32 → load32 (store32 bytes q v) q ≡ v
unfolding load32 store32
load_store bytes q v h = ground arith

load-store_apart :
    (bytes : ℕ → ℕ) (i j v : ℕ)
    → (i == j) ≡ false
    → load32 (store32 bytes (4 * j) v) (4 * i) ≡ load32 bytes (4 * i)
unfolding load32 store32
load-store_apart bytes i j v ne = ground arith

-- The slots behind `addrs[]` are the entries of the indirect block.
pub slot_entry :
    (j v : ℕ) (s : Held)
    → s.ino.addrs 12 ≡ v
    → v ≢ 0
    → slot (j + 13) s ≡ load32 (s.disk.block v) (4 * j)
unfolding slot
slot_entry j v s at there =
    let nz : (v == 0) ≡ false = ground arith in
    let lt : ltb (j + 13) 13 ≡ false = ground arith in
    let q : 4 * (j + 13 - 13) ≡ 4 * j = omega arith in rw (lt, at, nz, q) refl

module _ (sb : Superblock) where
  alloc-kept :
      (s : Held) (b : ℕ) (d : Disk)
      → IsFile sb s
      → Allocates sb b s.disk d
      → (l : ℕ) → l < 269
      → slot l s ≢ 0
      → d.block (slot l s) ≡ s.disk.block (slot l s)
  alloc-kept s b d h a l lt ne =
      let o = h.owned l lt ne in
      a.others (slot l s) (λ e. slot-fresh sb s h b l lt a.fresh (sym e))
        (λ e. ground (arith, bitmap_block-lt sb b a.within, o.behind))

  -- The slots when `addrs[k]` gets the new block `b`.
  direct_slots :
      (k b : ℕ) (s : Held) (d : Disk)
      → IsFile sb s
      → k < 13
      → s.ino.addrs k ≡ 0
      → Allocates sb b s.disk d
      → (l : ℕ) → l < 269
      → slot l (record { ino = record (s.ino) { addrs = update s.ino.addrs k b }; disk = d })
        ≡ (if k == l then b else slot l s)
  unfolding slot load32
  direct_slots k b s d h lt e a l ll = elim (Bool-cases (ltb l 13)) [
    | inl low ↦ rw low refl
    | inr high ↦
        let kl : (k == l) ≡ false = ground arith in
        elim (Bool-cases (k == direct_blocks)) [
          | inl last ↦
              let e12 : s.ino.addrs 12 ≡ 0 = ap s.ino.addrs (ground arith) ∙ e in
              rw (high, kl, last, e12)
                (ground (
                  arith,
                  a.zeroed (4 * (l - 13)),
                  a.zeroed (4 * (l - 13) + 1),
                  a.zeroed (4 * (l - 13) + 2),
                  a.zeroed (4 * (l - 13) + 3),
                ))
          | inr other ↦ elim (Bool-cases (s.ino.addrs 12 == 0)) [
            | inl none_ ↦ rw (high, kl, other, none_) refl
            | inr some_ ↦
                rw (high, kl, other, some_)
                  (ap (λ f. load32 f (4 * (l - 13)))
                    (alloc-kept s b d h a 12 (omega arith) (λ z. ground arith)))
          ]
        ]
  ]

  pub direct-Grows :
      (k b : ℕ) (s : Held) (d : Disk)
      → IsFile sb s
      → k < 13
      → s.ino.addrs k ≡ 0
      → Allocates sb b s.disk d
      → Grows sb k b s
          (record { ino = record (s.ino) { addrs = update s.ino.addrs k b }; disk = d })
  unfolding slot
  direct-Grows k b s d h lt e a = record {
    place_lt = omega arith;
    empty = ground arith;
    slots = direct_slots k b s d h lt e a;
    fresh = a.fresh;
    within = a.within;
    taken = a.taken;
    kept = λ l ll _ ne. alloc-kept s b d h a l ll ne;
    zeroed = a.zeroed;
    disk = a.disk;
    inum = refl;
    size = refl;
  }

  -- What the entry `j` of the indirect block `v` gets the new block `b`, with `d` the disk that
  -- balloc left.
  module _ (j v b : ℕ) (s : Held) (d : Disk) (h : IsFile sb s) (lj : j < 256)
      (at : s.ino.addrs 12 ≡ v) (there : v ≢ 0) (empty : load32 (s.disk.block v) (4 * j) ≡ 0)
      (a : Allocates sb b s.disk d) where
    abbrev entry_disk : Disk
    entry_disk = write_block v (store32 (d.block v) (4 * j) b) d

    slot12 : slot 12 s ≡ v
    unfolding slot
    slot12 = at

    owned12 : IsOwned sb v s.disk
    owned12 =
        subst (λ v. IsOwned sb v s.disk) slot12
          (h.owned 12 (omega arith) (λ z. there (sym slot12 ∙ z)))

    kept12 : d.block v ≡ s.disk.block v
    kept12 =
        subst (λ v. d.block v ≡ s.disk.block v) slot12
          (alloc-kept s b d h a 12 (omega arith) (λ z. there (sym slot12 ∙ z)))

    off_bitmap : (x : ℕ) → x < sb.size → (v == bitmap_block sb x) ≡ false
    off_bitmap x lx = apart_bitmap sb v x owned12.behind lx

    entry_slots :
        (l : ℕ)
        → l < 269
        → slot l (record { ino = s.ino; disk = entry_disk }) ≡ (if j + 13 == l then b else slot l s)
    unfolding slot
    entry_slots l ll = elim (Bool-cases (ltb l 13)) [
      | inl low ↦ let ne : (j + 13 == l) ≡ false = ground arith in rw (low, ne) refl
      | inr high ↦
          let nz : (v == 0) ≡ false = ground arith in
          elim (Bool-cases (j + 13 == l)) [
            | inl here ↦
                let q : 4 * (l - 13) ≡ 4 * j = ground arith in
                rw (high, here, at, nz, ==_refl v, q)
                  (load_store (d.block v) (4 * j) b (omega (arith, a.within, h.short)))
            | inr away ↦
                rw (high, away, at, nz, ==_refl v)
                  (load-store_apart (d.block v) (l - 13) j b (ground arith)
                    ∙ ap (λ f. load32 f (4 * (l - 13))) kept12)
          ]
    ]

    entry_kept :
        (l : ℕ)
        → l < 269
        → l ≢ 12
        → slot l s ≢ 0
        → entry_disk.block (slot l s) ≡ s.disk.block (slot l s)
    entry_kept l ll l12 ne =
        update-ne d.block v _ (slot l s)
          (λ e. l12 (h.apart l 12 ll (omega arith) ne (sym e ∙ sym slot12)))
        ∙ alloc-kept s b d h a l ll ne

    store_low : (q : ℕ) → store32 (d.block v) (4 * j) b q < 256
    unfolding store32
    store_low q = ground (arith, a.disk.bytes v q)

    pub entry-Grows : Grows sb (j + 13) b s (record { ino = s.ino; disk = entry_disk })
    entry-Grows = record {
      place_lt = omega arith;
      empty = slot_entry j v s at there ∙ empty;
      slots = entry_slots;
      fresh = a.fresh;
      within = a.within;
      taken = λ x lx. written_free sb v _ d _ off_bitmap x lx ∙ a.taken x lx;
      kept = entry_kept;
      zeroed = λ q.
          ap (λ f. f q)
            (update-ne d.block v _ b
              (λ e. slot-fresh sb s h b 12 (omega arith) a.fresh (sym e ∙ sym slot12)))
          ∙ a.zeroed q;
      disk = written_IsDisk sb v _ d _ off_bitmap a.disk store_low;
      inum = refl;
      size = refl;
    }
