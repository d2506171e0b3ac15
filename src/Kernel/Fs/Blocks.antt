-- ===== src/Kernel/Fs/Blocks.antt =====
-- balloc and bfree: what they do to the blocks.
use mit_61810_labs.Prelude.{
  ℕ, ◌+◌, ◌/◌, ◌≤◌, ◌<◌, ◌≡◌, ◌≢◌, ◌⊎◌, refl, sym, ap, ◌∙◌, subst, arith, inl, inr, Bool, true,
  false, some, List, ltb, ◌==◌, ==_ne, ==_refl, if◌then◌else◌, Bool-cases, Option-cases, update,
  update-ne, Returns, Returns-mono,
}
use mit_61810_labs.Kernel.Fs.{
  bits_per_block, Superblock, Disk, bzero, set_bit, clear_bit, bitmap_block, is_free, mark,
  find_free, take_free, balloc, bfree,
}
use mit_61810_labs.Kernel.Fs.Bits.{set_bit_lem, clear_bit_lem}
use mit_61810_labs.Kernel.Fs.Bitmap.{
  IsDisk, first_data, bitmap_block-lt, mark_same, mark_bytes, mark_free,
}
use mit_61810_labs.Kernel.Fs.Search.{IsScan, find_free_lem}

module _ (sb : Superblock) where
  -- From `d` to `d'` the block `b` was allocated: it was the first free one, no other block changes
  -- hands, its bytes are 0, and no other block is written but that of its bit.
  pub record Allocates (b : ℕ) (d d' : Disk) : Type 0 where
    pub within : b < sb.size
    pub fresh : is_free sb b d ≡ true
    pub first : (y : ℕ) → y < b → is_free sb y d ≡ false
    pub taken : (x : ℕ) → x < sb.size → is_free sb x d' ≡ (if b == x then false else is_free sb x d)
    pub zeroed : (q : ℕ) → d'.block b q ≡ 0
    pub others : (x : ℕ) → x ≢ b → x ≢ bitmap_block sb b → d'.block x ≡ d.block x
    pub disk : IsDisk sb d'

  -- From `d` to `d'` the block `b` was given back.
  pub record Frees (b : ℕ) (d d' : Disk) : Type 0 where
    pub given : (x : ℕ) → is_free sb x d' ≡ (if b == x then true else is_free sb x d)
    pub others : (x : ℕ) → x ≢ bitmap_block sb b → d'.block x ≡ d.block x
    pub disk : IsDisk sb d'

  -- A free block lies behind the bitmap.
  pub free_data : (b : ℕ) (d : Disk) → IsDisk sb d → is_free sb b d ≡ true → first_data sb ≤ b
  free_data b d h fr = elim (Bool-cases (ltb b (first_data sb))) [
    | inl before ↦ absurd (ground (arith, h.meta b (ground arith), fr))
    | inr after ↦ ground arith
  ]

  pub apart_bitmap : (b x : ℕ) → first_data sb ≤ b → x < sb.size → (b == bitmap_block sb x) ≡ false
  apart_bitmap b x h lt = ground (arith, bitmap_block-lt sb x lt)

  bzero_free :
      (b x : ℕ) (d : Disk)
      → (b == bitmap_block sb x) ≡ false
      → is_free sb x (bzero b d) ≡ is_free sb x d
  unfolding bzero is_free
  bzero_free b x d ne = rw ne refl

  bzero_same : (b x : ℕ) (d : Disk) → x ≢ b → (bzero b d).block x ≡ d.block x
  unfolding bzero
  bzero_same b x d ne = update-ne d.block b _ x (λ e. ne (sym e))

  zeroed_lem : (b : ℕ) (d : Disk) (q : ℕ) → (bzero b d).block b q ≡ 0
  unfolding bzero
  zeroed_lem b d q = ground arith

  bzero_bytes :
      (b : ℕ) (d : Disk) → ((x q : ℕ) → d.block x q < 256) → (x q : ℕ) → (bzero b d).block x q < 256
  unfolding bzero
  bzero_bytes b d h x q = ground (arith, h x q)

  stay : (c : Bool) {u : Bool} → u ≡ false → (if c then false else u) ≡ false
  stay true e = refl
  stay false e = e

  taken_lem :
      (b : ℕ) (d : Disk)
      → IsDisk sb d
      → b < sb.size
      → is_free sb b d ≡ true
      → (x : ℕ) → x < sb.size
      → is_free sb x (bzero b (mark sb set_bit b d)) ≡ (if b == x then false else is_free sb x d)
  taken_lem b d h lt fr x lx =
      bzero_free b x (mark sb set_bit b d) (apart_bitmap b x (free_data b d h fr) lx)
      ∙ mark_free sb set_bit false set_bit_lem b x d h.bytes

  take_lem :
      (b : ℕ) (d : Disk)
      → IsDisk sb d
      → b < sb.size
      → is_free sb b d ≡ true
      → ((y : ℕ) → y < b → is_free sb y d ≡ false)
      → Allocates b d (bzero b (mark sb set_bit b d))
  take_lem b d h lt fr low =
      let all = taken_lem b d h lt fr in
      record {
        within = lt;
        fresh = fr;
        first = low;
        taken = all;
        zeroed = zeroed_lem b (mark sb set_bit b d);
        others = λ x ne ne'.
            bzero_same b x (mark sb set_bit b d) ne
            ∙ mark_same sb set_bit false set_bit_lem b x d ne';
        disk = record {
          bytes = bzero_bytes b _ (mark_bytes sb set_bit false set_bit_lem b d h.bytes);
          order = h.order;
          fits = h.fits;
          meta = λ x lx. all x (omega (arith, h.fits, lx)) ∙ stay (b == x) (h.meta x lx);
        };
      }

  -- On a disk that is laid out, balloc returns the first free block, which is in use then and holds zeroes,
  -- while no other block changes hands and none but the block of its bit is written; or every block is
  -- in use, the result is 0 and the disk does not change.
  pub balloc_lem :
      (d : Disk)
      → IsDisk sb d
      → Allocates (balloc sb d).0 d (balloc sb d).1
        ⊎ ((balloc sb d ≡ (0, d)) × ((x : ℕ) → x < sb.size → is_free sb x d ≡ false))
  unfolding balloc take_free
  balloc_lem d h =
      let n = (sb.size + 8191) / bits_per_block in
      let scan = find_free_lem sb d n 0 refl (omega arith) in
      elim (Option-cases (find_free sb n 0 d)) [
        | inl nothing ↦
            rw nothing
              (inr (refl, λ x. (subst (IsScan sb d 0 sb.size) nothing scan) x (omega arith)))
        | inr (b, found) ↦
            let at : IsScan sb d 0 sb.size (some b) = subst (IsScan sb d 0 sb.size) found scan in
            rw (found, take_free) (inl (take_lem b d h at.1 at.2 (λ y. at.3 y (omega arith))))
      ]

  away : {c u : Bool} → c ≡ false → u ≡ false → (if c then true else u) ≡ false
  away e e' = rw (e, e') refl

  -- bfree
  pub bfree_lem :
      (b : ℕ) (d : Disk)
      → IsDisk sb d
      → is_free sb b d ≡ false
      → first_data sb ≤ b
      → Returns (Frees b d) (bfree sb b d)
  unfolding bfree
  bfree_lem b d h used after =
      let given : (x : ℕ)
          → is_free sb x (mark sb clear_bit b d) ≡ (if b == x then true else is_free sb x d) =
        λ x. mark_free sb clear_bit true clear_bit_lem b x d h.bytes in
      rw used record {
        given = given;
        others = λ x e. mark_same sb clear_bit true clear_bit_lem b x d e;
        disk = record {
          bytes = mark_bytes sb clear_bit true clear_bit_lem b d h.bytes;
          order = h.order;
          fits = h.fits;
          meta = λ x lx. given x ∙ away (==_ne b x (omega (arith, after, lx))) (h.meta x lx);
        };
      }

  own : (b : ℕ) (u : Bool) → (if b == b then false else u) ≡ false
  own b u = rw (==_refl b) refl

  back :
      (b x : ℕ) (d d' : Disk)
      → Allocates b d d'
      → x < sb.size
      → (if b == x then true else is_free sb x d') ≡ is_free sb x d
  back b x d d' a lx = elim (Bool-cases (b == x)) [
    | inl same ↦ let e : b ≡ x = ground arith in rw same (sym a.fresh ∙ ap (λ y. is_free sb y d) e)
    | inr other ↦ rw other (a.taken x lx ∙ rw other refl)
  ]

  -- On a disk that is laid out, when balloc returns a block, bfree of this block does not panic, and
  -- afterwards the same blocks are free as before.
  pub bfree-balloc :
      (d : Disk)
      → IsDisk sb d
      → (balloc sb d).0 ≢ 0
      → Returns
          (λ d'. (x : ℕ) → x < sb.size → is_free sb x d' ≡ is_free sb x d)
          (bfree sb (balloc sb d).0 (balloc sb d).1)
  bfree-balloc d h ne = elim (balloc_lem d h) [
    | inl a ↦
        Returns-mono _ (bfree sb (balloc sb d).0 (balloc sb d).1)
          (bfree_lem (balloc sb d).0 (balloc sb d).1 a.disk
            (a.taken (balloc sb d).0 a.within ∙ own (balloc sb d).0 (is_free sb (balloc sb d).0 d))
            (free_data (balloc sb d).0 d h a.fresh))
          (λ d' f x lx. f.given x ∙ back (balloc sb d).0 x d (balloc sb d).1 a lx)
    | inr (e, all) ↦ absurd (ne (ap (λ r. r.0) e))
  ]

  -- A block that holds no bit of the bitmap is written: the bitmap stays.
  module _ (v : ℕ) (bytes : ℕ → ℕ) (d : Disk) (log : List ℕ)
      (apart : (x : ℕ) → x < sb.size → (v == bitmap_block sb x) ≡ false) where
    pub written_free :
        (x : ℕ)
        → x < sb.size
        → is_free sb x (record { block = update d.block v bytes; logged = log }) ≡ is_free sb x d
    unfolding is_free
    written_free x lx = rw (apart x lx) refl

    pub written_IsDisk :
        IsDisk sb d
        → ((q : ℕ) → bytes q < 256)
        → IsDisk sb (record { block = update d.block v bytes; logged = log })
    written_IsDisk h low = record {
      bytes = λ x q. ground (arith, h.bytes x q, low q);
      order = h.order;
      fits = h.fits;
      meta = λ x lx. written_free x (omega (arith, h.fits, lx)) ∙ h.meta x lx;
    }
