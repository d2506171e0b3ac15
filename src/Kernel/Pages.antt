-- ===== src/Kernel/Pages.antt =====
-- kernel/kalloc.c: the free list of physical pages. A page is its address; the junk that the pages
-- are filled with is not in this state, nor are the links, which lie in the free pages.
pub mod Partition
mod Tests
use mit_61810_labs.Prelude.{
  ℕ, zero, suc, ◌+◌, ◌-◌, ◌*◌, ◌/◌, ◌%◌, ◌^◌, Bool, true, false, not, ◌||◌, Option, none, some,
  List, [], ◌∷◌, ltb, leb, ◌==◌, if◌then◌else◌, Outcome, done, panic, ◌>>=◌,
}

-- KERNBASE and PHYSTOP
abbrev pub kern_base : ℕ
kern_base = 0x80000000

abbrev pub phys_stop : ℕ
phys_stop = kern_base + 128 * 1024 * 1024

-- PGSIZE
abbrev pub page_size : ℕ
page_size = 4096

-- `end_` is the first address behind the kernel, which the linker sets.
module _ (end_ : ℕ) where
  pub kfree : ℕ → List ℕ → Outcome (List ℕ)
  kfree pa free =
      if not (pa % page_size == 0) || ltb pa end_ || leb phys_stop pa
      then panic "kfree"
      else done (pa ∷ free)

  -- The loop of freerange from `p` on, with `k` rounds left.
  pub freerange_loop : ℕ → ℕ → List ℕ → Outcome (List ℕ)
  freerange_loop zero p free = done free
  freerange_loop (suc k) p free = kfree p free >>= λ free'. freerange_loop k (p + page_size) free'

  -- `for(; p + PGSIZE <= pa_end; p += PGSIZE)` from the first page behind `pa_start`.
  pub freerange : ℕ → ℕ → List ℕ → Outcome (List ℕ)
  freerange pa_start pa_end free =
      let p = (pa_start + 4095) / 4096 * 4096 in freerange_loop ((pa_end - p) / page_size) p free

  pub kinit : Outcome (List ℕ)
  kinit = freerange end_ phys_stop []

-- The page, `none` for 0, and the list that is left.
pub kalloc : List ℕ → Option ℕ × List ℕ
kalloc [] = (none, [])
kalloc (pa ∷ free) = (some pa, free)
