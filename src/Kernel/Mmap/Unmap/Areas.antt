-- ===== src/Kernel/Mmap/Unmap/Areas.antt =====
-- sys_munmap as a whole: the pages, the areas and the files.
use mit_61810_labs.Prelude.{
  ℕ, ◌+◌, ◌*◌, ◌/◌, ◌%◌, ◌^◌, ◌≤◌, ◌<◌, ◌≡◌, ◌≢◌, ◌⊎◌, Option, none, some, get_elem?, set,
}
use mit_61810_labs.Kernel.Vma.{VmArea, no_area}
use mit_61810_labs.Kernel.File.Counts.{ref_of, holds}
use mit_61810_labs.Kernel.Mmap.{page_size, Space}
use mit_61810_labs.Kernel.Mmap.Unmap.{Inodes, walkaddr}
use mit_61810_labs.Kernel.Mmap.Unmap.Ranges.{IsShrunk}
use mit_61810_labs.Kernel.Mmap.Unmap.Released.{Released}
use mit_61810_labs.Kernel.Mmap.Unmap.Owned.{NoRange, AreInOrder, AreOwned}

-- What a successful munmap of [addr, addr + len) does: an area in use had the range in its valid
-- range; no user page of the range is mapped any more, and no other page changes; the area has a valid
-- range left, which is the old one without the range, or its slot is free and its file has a
-- reference less; and no other slot changes.
pub record IsUnmapped (addr len : ℕ) (s s' : Space) : Type 0 where
  pub slot : ℕ
  pub area : VmArea
  pub stored : get_elem? s.areas slot ≡ some area
  pub used : area.length_ ≢ 0
  pub inside : (area.valid_start ≤ addr) × (addr + len ≤ area.valid_end)
  pub gone : (j : ℕ) → j * page_size < len → walkaddr s'.pages (addr + j * page_size) ≡ none
  pub kept : (q : ℕ) → (q < addr) ⊎ (addr + len ≤ q) → s'.pages q ≡ s.pages q
  pub rest : VmArea
  pub shrunk : IsShrunk addr len area rest
  pub now :
      ((rest.valid_start < rest.valid_end)
        × (get_elem? s'.areas slot ≡ some rest)
        × (rest.fptr ≡ area.fptr)
        × (s'.table ≡ s.table))
      ⊎ ((rest.valid_end ≤ rest.valid_start)
          × (get_elem? s'.areas slot ≡ some no_area)
          × ((f : ℕ)
              → ref_of (get_elem? s'.table f) + holds f area.fptr ≡ ref_of (get_elem? s.table f)))
  pub others : (j : ℕ) → slot ≢ j → get_elem? s'.areas j ≡ get_elem? s.areas j

-- The areas are in order and own their files.
abbrev pub IsSafe : ℕ → Space → Type 0
IsSafe bound s = AreInOrder s.areas bound × AreOwned s.areas s.table

-- Why sys_munmap returns -1: a part of a page, no area, or a hole in the middle of a valid range.
pub data Refused (addr len : ℕ) (s : Space) : Type 0 where
  odd_address : addr % page_size ≢ 0 → Refused addr len s
  odd_length : len % page_size ≢ 0 → Refused addr len s
  no_range : NoRange addr len s.areas → Refused addr len s
  in_middle :
      (i : ℕ) (a : VmArea)
      → get_elem? s.areas i ≡ some a
      → a.length_ ≢ 0
      → a.valid_start < addr
      → addr + len < a.valid_end
      → Refused addr len s

abbrev pub Unmapped : ℕ → ℕ → ℕ → Space → Option ℕ × Space → Type 0
Unmapped bound addr len s (none, s') = (s' ≡ s) × Refused addr len s
Unmapped bound addr len s (some r, s') = (r ≡ 0) × IsUnmapped addr len s s' × IsSafe bound s'

module _ (io : Inodes) (bound addr len : ℕ) (s : Space) (safe : IsSafe bound s)
    (al : addr % page_size ≡ 0) (ll : len % page_size ≡ 0) (word : addr + len < 2 ^ 64) where
  module _ (i : ℕ) (a b : VmArea) (at : get_elem? s.areas i ≡ some a) (used : a.length_ ≢ 0)
      (inside : (a.valid_start ≤ addr) × (addr + len ≤ a.valid_end)) (sh : IsShrunk addr len a b)
      (file : b.fptr ≡ a.fptr) where
    abbrev started : Space
    started = record s { areas = set s.areas i b }

    module _ (t : Space) (r : Released (len / page_size) addr started t) where
      -- What is left once the file is closed.
      abbrev IsClosed : ℕ → Space → Type 0
      IsClosed g u =
          (u.areas ≡ t.areas)
          × (u.pages ≡ t.pages)
          × ((f : ℕ)
              → ref_of (get_elem? u.table f) + holds f (some g) ≡ ref_of (get_elem? t.table f))
