-- ===== src/Kernel/Fs/Bitmap.antt =====
-- The bitmap: a disk that is laid out, and the change of one bit.
use mit_61810_labs.Prelude.{
  ℕ, suc, ◌+◌, ◌/◌, ◌%◌, ◌≤◌, ◌<◌, ◌≡◌, ◌≢◌, refl, sym, ap, ap₂, ◌∙◌, arith, inl, inr, Bool, false,
  ◌==◌, if◌then◌else◌, Bool-cases, update-ne,
}
use mit_61810_labs.Kernel.Fs.{
  bits_per_block, Superblock, Disk, is_clear, bitmap_block, is_free, mark,
}

-- The first block behind the bitmap: mkfs lays out the boot block, the superblock, the log, the
-- inodes, the bitmap and then the data.
abbrev pub first_data : Superblock → ℕ
first_data sb = suc (sb.bmapstart + sb.size / bits_per_block)

-- A disk whose blocks hold bytes, and whose blocks before the data are marked as in use.
pub record IsDisk (sb : Superblock) (d : Disk) : Type 0 where
  pub bytes : (b q : ℕ) → d.block b q < 256
  pub order : sb.inodestart + sb.ninodes / 16 < sb.bmapstart
  pub fits : first_data sb ≤ sb.size
  pub meta : (x : ℕ) → x < first_data sb → is_free sb x d ≡ false

-- The bits of the disk's blocks stand before the data.
pub bitmap_block-lt : (sb : Superblock) (x : ℕ) → x < sb.size → bitmap_block sb x < first_data sb
unfolding bitmap_block
bitmap_block-lt sb x h = omega arith

-- A change of the bit of `b` that gives it the value `new`, and of no other bit or block.
module _ (sb : Superblock) (change : ℕ → ℕ → ℕ) (new : Bool)
    (law : (bi j v : ℕ)
      → v < 256
      → (change v bi < 256)
        × (is_clear (change v bi) j ≡ (if bi % 8 == j % 8 then new else is_clear v j))) where
  pub mark_same :
      (b x : ℕ) (d : Disk) → x ≢ bitmap_block sb b → (mark sb change b d).block x ≡ d.block x
  unfolding mark
  mark_same b x d ne = update-ne d.block (bitmap_block sb b) _ x (λ e. ne (sym e))

  pub mark_bytes :
      (b : ℕ) (d : Disk)
      → ((x q : ℕ) → d.block x q < 256)
      → (x q : ℕ) → (mark sb change b d).block x q < 256
  unfolding mark
  mark_bytes b d h x q =
      let bi = b % bits_per_block in
      let byte = d.block (bitmap_block sb b) (bi / 8) in
      let low : change byte bi < 256 = (law bi 0 byte (h (bitmap_block sb b) (bi / 8))).0 in
      elim (Bool-cases (bitmap_block sb b == x)) [
        | inl here ↦ elim (Bool-cases (bi / 8 == q)) [
          | inl byte_ ↦ rw (here, byte_) low
          | inr other ↦ rw (here, other) (h (bitmap_block sb b) q)
        ]
        | inr away ↦ rw away (h x q)
      ]

  same_block :
      (b x : ℕ) → bitmap_block sb b ≡ bitmap_block sb x → b / bits_per_block ≡ x / bits_per_block
  unfolding bitmap_block
  same_block b x e = omega arith

  apart_block : (b x : ℕ) → (bitmap_block sb b == bitmap_block sb x) ≡ false → (b == x) ≡ false
  unfolding bitmap_block
  apart_block b x e = ground arith

  same_bit :
      (b x : ℕ)
      → b / bits_per_block ≡ x / bits_per_block
      → b % bits_per_block / 8 ≡ x % bits_per_block / 8
      → (b % bits_per_block % 8 == x % bits_per_block % 8) ≡ (b == x)
  same_bit b x e e' = ground arith

  pub mark_free :
      (b x : ℕ) (d : Disk)
      → ((x q : ℕ) → d.block x q < 256)
      → is_free sb x (mark sb change b d) ≡ (if b == x then new else is_free sb x d)
  unfolding mark is_free
  mark_free b x d h =
      let bi = b % bits_per_block in
      let xi = x % bits_per_block in
      let byte = d.block (bitmap_block sb b) (bi / 8) in
      elim (Bool-cases (bitmap_block sb b == bitmap_block sb x)) [
        | inl here ↦
            let e : bitmap_block sb b ≡ bitmap_block sb x = ground arith in
            let high : b / bits_per_block ≡ x / bits_per_block = same_block b x e in
            elim (Bool-cases (bi / 8 == xi / 8)) [
              | inl byte_ ↦
                  let e' : bi / 8 ≡ xi / 8 = ground arith in
                  rw (here, byte_)
                    ((law bi xi byte (h (bitmap_block sb b) (bi / 8))).1
                      ∙ ap₂ (λ (c : Bool) (o : Bool). if c then new else o) (same_bit b x high e')
                          (ap₂ (λ w q. is_clear (d.block w q) xi) e e'))
              | inr other ↦
                  let ne : (b == x) ≡ false = ground arith in
                  rw (here, other, ne) (ap (λ w. is_clear (d.block w (xi / 8)) xi) e)
            ]
        | inr away ↦ let ne : (b == x) ≡ false = apart_block b x away in rw (away, ne) refl
      ]
