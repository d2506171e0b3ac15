-- ===== src/Kernel/Mmap/Tests.antt =====
-- Runs of sys_mmap and sys_munmap on one process, and instances of their theorems.
use mit_61810_labs.Prelude.{
  ℕ, zero, suc, ◌+◌, ◌-◌, ◌*◌, ◌^◌, ◌<◌, ◌≡◌, ◌≢◌, refl, inl, arith, true, ◌==◌, if◌then◌else◌, [],
  ◌∷◌, Option, some, none, get_elem?, done, Returns,
}
use mit_61810_labs.Kernel.Vma.{VmArea, no_area}
use mit_61810_labs.Kernel.File.{File, fd_inode, argfd}
use mit_61810_labs.Kernel.File.Counts.{ref_of}
use mit_61810_labs.Kernel.Mmap.{Space, Request, Pte, sys_mmap, page_size}
use mit_61810_labs.Kernel.Mmap.Map.{CanMap, Mapped, sys_mmap-Mapped}
use mit_61810_labs.Kernel.Mmap.Fault.{Exception, mmap_load_instr}
use mit_61810_labs.Kernel.Mmap.Fault.Loads.{Faulted, mmap_load_instr-Faulted}
use mit_61810_labs.Kernel.Mmap.Unmap.{
  Inodes, sys_munmap, put_back, write_back, shrink, walkaddr, unmap_page,
}
use mit_61810_labs.Kernel.Mmap.Unmap.Pages.{put_back_lem, write_back_misplaced}
use mit_61810_labs.Kernel.Mmap.Unmap.Ranges.{IsRange, Shrunk, shrink_lem}
use mit_61810_labs.Kernel.Mmap.Unmap.Wrap.{sys_munmap_wraps}

abbrev file : File
file = record {
  type_ = fd_inode;
  ref = 1;
  readable = true;
  writable = true;
  pipe = 0;
  ip = 5;
  off = 0;
  major = 0;
}

abbrev page : Pte
page = record { pa = 90000; r = true; w = true; u = true; d = true }

-- Only the second page, at 8192, is loaded.
abbrev pages : ℕ → Option Pte
pages va = if va == 8192 then some page else none

abbrev space : Space
space = record {
  sz = 4000;
  next_start = 0;
  areas = no_area ∷ no_area ∷ [];
  ofile = some 0 ∷ [];
  table = file ∷ [];
  pages = pages;
  free = [];
  freed = [];
  writes = [];
  released = [];
}

abbrev request : Request
request = record { len = 8192; prot = 3; flags = 1 }

-- The file's two pages at 4096.
abbrev area : VmArea
area = record {
  start_addr = 4096;
  length_ = 8192;
  prot = 3;
  flags = 1;
  fptr = some 0;
  valid_start = 4096;
  valid_end = 12288;
}

unused_areas : (i : ℕ) (a : VmArea) → get_elem? (no_area ∷ no_area ∷ []) i ≡ some a → a.length_ ≡ 0
unused_areas zero a e = ground (arith, e)
unused_areas (suc zero) a e = ground (arith, e)
unused_areas (suc (suc i)) a e = ground arith

used_files : (fd f : ℕ) → argfd fd (some 0 ∷ []) ≡ some f → 0 < ref_of (get_elem? (file ∷ []) f)
unfolding argfd
used_files zero f e = let same : f ≡ 0 = ground (arith, e) in rw same (omega arith)
used_files (suc fd) f e = ground (arith, e)

space-CanMap : CanMap space
space-CanMap = record {
  layout = record {
    bounded = λ i a e u. absurd (u (unused_areas i a e));
    apart = λ i j a b e f n u w. absurd (u (unused_areas i a e));
  };
  small = omega arith;
  aligned = refl;
  size = omega arith;
  ahead = inl refl;
  files = used_files;
}

sys_mmap-Mapped_example : Returns (Mapped request 0 space) (sys_mmap request 0 space)
sys_mmap-Mapped_example = sys_mmap-Mapped request 0 space space-CanMap (omega arith)

put_back_lem_example :
    ((j : ℕ) → j < 2 → walkaddr (put_back 4096 8192 space).pages (4096 + j * page_size) ≡ none)
    × ((q : ℕ)
        → ((j : ℕ) → j < 2 → 4096 + j * page_size ≢ q)
        → (put_back 4096 8192 space).pages q ≡ pages q)
put_back_lem_example = put_back_lem 4096 2 space (omega arith)

write_back_misplaced_example :
    write_back (λ c. c.n) 5 6000 4096 8192 0 space
    ≡ done (
        unmap_page 8192 page
          (record space { writes = record { ip = 5; pa = 90000; off = 0; n = 6000 } ∷ [] }))
unfolding walkaddr
write_back_misplaced_example =
    write_back_misplaced (λ c. c.n) 5 6000 4096 0 space page (omega arith) refl (omega arith) refl
      refl refl (λ c. refl)

area-IsRange : IsRange area
area-IsRange = record {
  lower = omega arith;
  order = omega arith;
  upper = omega arith;
  word = omega arith;
  start = refl;
  aligned = (refl, refl);
}

shrink_lem_example : Shrunk 8192 4096 area (shrink 8192 4096 area)
shrink_lem_example = shrink_lem 8192 4096 area area-IsRange refl refl (omega arith) (omega arith)

abbrev inodes : Inodes
inodes = record { size = λ ip. 6000; writei = λ c. c.n }

-- The space with the area in its first slot, and one free page.
abbrev mapped_space : Space
mapped_space = record space { areas = area ∷ no_area ∷ []; next_start = 12288; free = 40960 ∷ [] }

-- A fault at an address of the page `va / 4096`.
abbrev exception : ℕ → Exception
exception va = record { scause = 13; va = va; tables = true; size = λ ip. 6000; readi = λ c. 4096 }

sys_munmap_wraps_example :
    sys_munmap inodes 4096 (2 ^ 64 - 4096) mapped_space
    ≡ done (some 0, record mapped_space { areas = record area { valid_start = 0 } ∷ no_area ∷ [] })
sys_munmap_wraps_example =
    sys_munmap_wraps inodes area (no_area ∷ []) mapped_space refl (λ e. ground arith) area-IsRange
      (omega arith) refl

mmap_load_instr-Faulted_example :
    Returns (Faulted (exception 5000) mapped_space) (mmap_load_instr (exception 5000) mapped_space)
mmap_load_instr-Faulted_example =
    mmap_load_instr-Faulted (exception 5000) mapped_space refl (omega arith)
