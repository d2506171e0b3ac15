-- ===== src/Kernel/Fs/Trunc/Freed.antt =====
-- The blocks of a file given back one after the other.
use mit_61810_labs.Prelude.{
  ℕ, ◌≤◌, ◌<◌, ◌≡◌, ◌≢◌, refl, sym, ap, ◌∙◌, arith, inl, inr, Bool, true, false, ◌==◌, ==_ne,
  ==_refl, if◌then◌else◌, Bool-cases, Returns, Returns-mono,
}
use mit_61810_labs.Kernel.Fs.{Superblock, Disk, is_free, bfree}
use mit_61810_labs.Kernel.Fs.Inode.{Held}
use mit_61810_labs.Kernel.Fs.Bitmap.{IsDisk, first_data, bitmap_block-lt}
use mit_61810_labs.Kernel.Fs.Blocks.{bfree_lem}
use mit_61810_labs.Kernel.Fs.Inode.Slots.{slot, IsFile}

module _ (sb : Superblock) (s : Held) (h : IsFile sb s) where
  -- The blocks in the slots that `f` says are free, and no other block changed hands.
  pub record IsFreed (f : ℕ → Bool) (d : Disk) : Type 0 where
    pub disk : IsDisk sb d
    pub blocks : (v : ℕ) → first_data sb ≤ v → d.block v ≡ s.disk.block v
    pub gone : (k : ℕ) → k < 269 → f k ≡ true → slot k s ≢ 0 → is_free sb (slot k s) d ≡ true
    pub kept :
        (x : ℕ)
        → ((k : ℕ) → k < 269 → f k ≡ true → slot k s ≢ 0 → x ≢ slot k s)
        → is_free sb x d ≡ is_free sb x s.disk

  pub IsFreed-none : IsFreed (λ k. false) s.disk
  IsFreed-none = record {
    disk = h.disk;
    blocks = λ v le. refl;
    gone = λ k lt e ne. absurd (ground arith);
    kept = λ x away. refl;
  }

  -- The slot `k` is next.
  module _ (f f' : ℕ → Bool) (k : ℕ) (d : Disk) (lt : k < 269)
      (law : (l : ℕ) → f' l ≡ (if k == l then true else f l)) (p : IsFreed f d) where
    more : (l : ℕ) → f l ≡ true → f' l ≡ true
    more l e = ground (arith, law l)

    own : f' k ≡ true
    own = law k ∙ rw (==_refl k) refl

    pub IsFreed-skip : slot k s ≡ 0 → IsFreed f' d
    IsFreed-skip z = record {
      disk = p.disk;
      blocks = p.blocks;
      gone = λ l ll e ne. elim (Bool-cases (k == l)) [
        | inl same ↦ let q : k ≡ l = ground arith in absurd (ne (ap (λ l. slot l s) (sym q) ∙ z))
        | inr other ↦ p.gone l ll (ground (arith, law l)) ne
      ];
      kept = λ x away. p.kept x (λ l ll e. away l ll (more l e));
    }

    still_used : f k ≡ false → slot k s ≢ 0 → is_free sb (slot k s) d ≡ false
    still_used off ne =
        p.kept (slot k s)
          (λ l ll e _ q. let kl : k ≡ l = h.apart k l lt ll ne q in ground (arith, ap f kl, off, e))
        ∙ (h.owned k lt ne).used

    raise : (c u : Bool) → u ≡ true → (if c then true else u) ≡ true
    raise true u e = refl
    raise false u e = e

    pub IsFreed-step : f k ≡ false → slot k s ≢ 0 → Returns (IsFreed f') (bfree sb (slot k s) d)
    IsFreed-step off ne =
        Returns-mono _ (bfree sb (slot k s) d)
          (bfree_lem sb (slot k s) d p.disk (still_used off ne) (h.owned k lt ne).behind)
          (λ d' g. record {
            disk = g.disk;
            blocks = λ v le.
                g.others v (λ e.
                  ground (arith, bitmap_block-lt sb (slot k s) (h.owned k lt ne).within, e, le))
                ∙ p.blocks v le;
            gone = λ l ll e ne'. elim (Bool-cases (k == l)) [
              | inl same ↦
                  let q : k ≡ l = ground arith in
                  ap (λ l. is_free sb (slot l s) d') (sym q)
                  ∙ g.given (slot k s)
                  ∙ rw (==_refl (slot k s)) refl
              | inr other ↦
                  g.given (slot l s)
                  ∙ raise (slot k s == slot l s) _ (p.gone l ll (ground (arith, law l)) ne')
            ];
            kept = λ x away.
                let apart : (slot k s == x) ≡ false =
                  ==_ne (slot k s) x (λ e. away k lt own ne (sym e)) in
                g.given x ∙ rw apart (p.kept x (λ l ll e. away l ll (more l e)));
          })
