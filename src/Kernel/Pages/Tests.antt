-- ===== src/Kernel/Pages/Tests.antt =====
-- Instances of the theorems on the allocator, for a memory of two pages.
use mit_61810_labs.Prelude.{ℕ, ◌≡◌, arith, List, [], ◌∷◌, Returns, Bool-cases, inl, inr, ◌==◌, ◌%◌}
use mit_61810_labs.Kernel.Pages.{kinit, page_size}
use mit_61810_labs.Kernel.Pages.Partition.{IsPartition, kinit-IsPartition}

-- A kernel that ends two pages below PHYSTOP.
abbrev kernel_end : ℕ
kernel_end = 0x87ffe000

abbrev all_pages : List ℕ
all_pages = 0x87fff000 ∷ 0x87ffe000 ∷ []

all_pages-IsPartition : IsPartition kernel_end all_pages []
all_pages-IsPartition x = elim (Bool-cases (x % page_size == 0)) [
  | inl page ↦ let al : x % page_size ≡ 0 = ground arith in ground arith
  | inr odd ↦ ground arith
]

kinit-IsPartition_example : Returns (λ free. IsPartition kernel_end free []) (kinit kernel_end)
kinit-IsPartition_example = kinit-IsPartition kernel_end (omega arith)
