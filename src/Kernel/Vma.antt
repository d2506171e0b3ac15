-- ===== src/Kernel/Vma.antt =====
-- `struct vm_area` of kernel/proc.h: a slot of the table of mapped files of a process.
use mit_61810_labs.Prelude.{
  ℕ, Option, none, List, [], ◌∷◌, ◌==◌, if◌then◌else◌, Bool, false, not, ◌||◌,
}

-- `fptr` is an index into the file table, `none` for NULL.
pub record VmArea : Type 0 where
  pub start_addr : ℕ
  pub length_ : ℕ
  pub prot : ℕ
  pub flags : ℕ
  pub fptr : Option ℕ
  pub valid_start : ℕ
  pub valid_end : ℕ

-- `memset(area, 0, sizeof(struct vm_area))`
abbrev pub no_area : VmArea
no_area = record {
  start_addr = 0;
  length_ = 0;
  prot = 0;
  flags = 0;
  fptr = none;
  valid_start = 0;
  valid_end = 0;
}

-- NVMA
abbrev pub nvma : ℕ
nvma = 16

abbrev pub in_use : VmArea → Bool
in_use a = not (a.length_ == 0)

abbrev pub any_in_use : List VmArea → Bool
any_in_use [] = false
any_in_use (a ∷ as') = in_use a || any_in_use as'

-- Every slot in use is zeroed.
abbrev pub wipe : List VmArea → List VmArea
wipe [] = []
wipe (a ∷ as') = (if in_use a then no_area else a) ∷ wipe as'
