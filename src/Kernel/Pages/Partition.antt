-- ===== src/Kernel/Pages/Partition.antt =====
-- Every page of memory is free once, or given out once.
use mit_61810_labs.Prelude.{
  ℕ, zero, suc, ◌+◌, ◌-◌, ◌*◌, ◌/◌, ◌%◌, ◌≤◌, ◌<◌, ◌≡◌, refl, arith, inl, inr, false, not, ◌&&◌,
  ◌||◌, Option, none, some, List, [], ◌∷◌, ltb, leb, ◌==◌, if◌then◌else◌, Bool-cases, Returns,
  Returns-mono,
}
use mit_61810_labs.Kernel.Pages.{
  phys_stop, page_size, kfree, freerange_loop, freerange, kinit, kalloc,
}

-- How often a page stands in a list.
abbrev pub count : ℕ → List ℕ → ℕ
count x [] = 0
count x (y ∷ ys) = (if y == x then 1 else 0) + count x ys

-- 1 for the pages that kinit hands to the allocator: page-aligned, from `end_` up to PHYSTOP.
abbrev pub in_memory : ℕ → ℕ → ℕ
in_memory end_ x = if (x % page_size == 0) && leb end_ x && ltb x phys_stop then 1 else 0

-- The pages of memory are the free ones and those in use, each once.
abbrev pub IsPartition : ℕ → List ℕ → List ℕ → Type 0
IsPartition end_ free used = (x : ℕ) → count x free + count x used ≡ in_memory end_ x

-- 1 for the page-aligned addresses from `p` to `p + k * PGSIZE`.
abbrev in_range : ℕ → ℕ → ℕ → ℕ
in_range k p x = if (x % page_size == 0) && leb p x && ltb x (p + k * page_size) then 1 else 0

module _ (end_ : ℕ) where
  in_range-step :
      (k p x : ℕ)
      → p % page_size ≡ 0
      → (if p == x then 1 else 0) + in_range k (p + page_size) x ≡ in_range (suc k) p x
  in_range-step k p x h = ground arith

  freerange_loop_lem :
      (k p : ℕ) (free : List ℕ)
      → p % page_size ≡ 0
      → end_ ≤ p
      → p + k * page_size ≤ phys_stop
      → Returns
          (λ free'. (x : ℕ) → count x free' ≡ in_range k p x + count x free)
          (freerange_loop end_ k p free)
  unfolding freerange_loop kfree
  freerange_loop_lem zero p free al lo hi = λ x. ground arith
  freerange_loop_lem (suc k) p free al lo hi =
      let good : (not (p % page_size == 0) || ltb p end_ || leb phys_stop p) ≡ false =
        ground arith in
      rw good (
        Returns-mono
          (λ (free' : List ℕ). (x : ℕ) → count x free' ≡ in_range (suc k) p x + count x free)
          (freerange_loop end_ k (p + page_size) (p ∷ free))
          (freerange_loop_lem k (p + page_size) (p ∷ free) (omega arith) (omega arith)
            (omega arith))
          (λ free' r x. omega (arith, r x, in_range-step k p x al)))

  in_range_all :
      end_ + page_size ≤ phys_stop
      → (x : ℕ)
      → in_range
          ((phys_stop - (end_ + 4095) / 4096 * 4096) / page_size)
          ((end_ + 4095) / 4096 * 4096)
          x
        ≡ in_memory end_ x
  in_range_all h x = elim (Bool-cases (x % page_size == 0)) [
    | inl page ↦ let al : x % page_size ≡ 0 = ground arith in rw page (ground arith)
    | inr odd ↦ rw odd refl
  ]

  -- For a kernel that ends a page below PHYSTOP at least, kinit does not panic, and frees each page of memory
  -- once.
  pub kinit-IsPartition :
      end_ + page_size ≤ phys_stop → Returns (λ free. IsPartition end_ free []) (kinit end_)
  unfolding kinit freerange
  kinit-IsPartition h =
      let p = (end_ + 4095) / 4096 * 4096 in
      let k = (phys_stop - p) / page_size in
      Returns-mono (λ (free : List ℕ). IsPartition end_ free []) (freerange_loop end_ k p [])
        (freerange_loop_lem k p [] (omega arith) (omega arith) (omega arith))
        (λ free r x. omega (arith, r x, in_range_all h x))

  -- kfree of a page in use does not panic, and makes it a free one.
  pub kfree-IsPartition :
      (pa : ℕ) (free used : List ℕ)
      → IsPartition end_ free (pa ∷ used)
      → Returns (λ free'. IsPartition end_ free' used) (kfree end_ pa free)
  unfolding kfree
  kfree-IsPartition pa free used h =
      let one : 0 < in_memory end_ pa = ground (arith, h pa) in
      let good : (not (pa % page_size == 0) || ltb pa end_ || leb phys_stop pa) ≡ false =
        ground arith in
      rw good (λ x. omega (arith, h x))

-- kalloc fails only with no page free; else the page is in use, and no other list changes.
abbrev pub Gives : ℕ → List ℕ → List ℕ → Option ℕ × List ℕ → Type 0
Gives end_ free used (none, free') = (free ≡ []) × (free' ≡ [])
Gives end_ free used (some pa, free') =
    IsPartition end_ free' (pa ∷ used) × (count pa used ≡ 0) × (in_memory end_ pa ≡ 1)

-- kalloc gives a page of memory that is not in use, and it is not free any more; it fails only with
-- no page free.
pub kalloc-Gives :
    (end_ : ℕ) (free used : List ℕ)
    → IsPartition end_ free used
    → Gives end_ free used (kalloc free)
unfolding kalloc
kalloc-Gives end_ [] used h = (refl, refl)
kalloc-Gives end_ (pa ∷ free) used h =
    (λ x. omega (arith, h x), ground (arith, h pa), ground (arith, h pa))
