-- ===== src/Kernel/Mmap.antt =====
-- The mmap lab on one process: the table of areas and sys_mmap of kernel/sysfile.c. Addresses and
-- lengths are 64-bit words.
pub mod Layout
pub mod Map
pub mod Unmap
pub mod Fault
mod Tests
use mit_61810_labs.Prelude.{
  ℕ, zero, suc, ◌+◌, ◌-◌, ◌*◌, ◌/◌, ◌%◌, ◌^◌, Bool, true, false, not, ◌&&◌, ◌||◌, Option, none,
  some, List, [], ◌∷◌, ltb, leb, ◌==◌, if◌then◌else◌, get_elem?, set, update, Outcome, done, panic,
  ◌>>=◌,
}
use mit_61810_labs.Kernel.Vma.{VmArea, no_area, in_use}
use mit_61810_labs.Kernel.File.{
  File, FileType, fd_none, fd_pipe, fd_inode, fd_device, Release, OpenFiles, argfd, filedup,
  fileclose,
}

-- PGSIZE, MAXVA, PGROUNDUP and PGROUNDDOWN
abbrev pub page_size : ℕ
page_size = 4096

abbrev pub max_va : ℕ
max_va = 2 ^ 38

abbrev pub u64 : ℕ → ℕ
u64 n = n % 2 ^ 64

abbrev pub page_round_up : ℕ → ℕ
page_round_up n = u64 (n + 4095) / 4096 * 4096

abbrev pub page_round_down : ℕ → ℕ
page_round_down n = n / 4096 * 4096

-- A flag of an `int`, by its bit: PROT_READ and MAP_SHARED are bit 0, PROT_WRITE is bit 1.
abbrev pub bit : ℕ → ℕ → Bool
bit k n = n / 2 ^ k % 2 == 1

-- A valid leaf entry of the user page table: the page, and the flags R, W, U and D.
pub record Pte : Type 0 where
  pub pa : ℕ
  pub r : Bool
  pub w : Bool
  pub u : Bool
  pub d : Bool

-- A call `writei(ip, 0, pa, off, n)`.
pub record WriteCall : Type 0 where
  pub ip : ℕ
  pub pa : ℕ
  pub off : ℕ
  pub n : ℕ

-- The process's mappings and what they use. `pages` is its user page table, by page address. `writes`
-- lists the calls of writei, `freed` the pages given to kfree, `released` what fileclose released,
-- each with the last one first. `free` is the list of pages that kalloc hands out.
pub record Space : Type 0 where
  pub sz : ℕ
  pub next_start : ℕ
  pub areas : List VmArea
  pub ofile : OpenFiles
  pub table : List File
  pub pages : ℕ → Option Pte
  pub free : List ℕ
  pub freed : List ℕ
  pub writes : List WriteCall
  pub released : List Release

pub is_inode : FileType → Bool
is_inode fd_none = false
is_inode fd_pipe = false
is_inode fd_inode = true
is_inode fd_device = false

-- The first slot that is not in use.
pub free_slot : List VmArea → Option ℕ
free_slot [] = none
free_slot (a ∷ as') =
    if in_use a then elim (free_slot as') [ none ↦ none | some i ↦ some (suc i) ] else some 0

-- The arguments of sys_mmap behind the address, which it does not read.
pub record Request : Type 0 where
  pub len : ℕ
  pub prot : ℕ
  pub flags : ℕ

-- `area->fptr = f` in the slot `i`.
abbrev pub with_file : ℕ → Option ℕ → List VmArea → List VmArea
with_file i f areas = elim (get_elem? areas i) [
  | none ↦ areas
  | some a ↦ set areas i (record a { fptr = f })
]

abbrev pub new_area : Request → ℕ → ℕ → VmArea
new_area q f start = record {
  start_addr = start;
  length_ = q.len;
  prot = q.prot;
  flags = q.flags;
  fptr = some f;
  valid_start = start;
  valid_end = u64 (start + q.len);
}

-- From the choice of the addresses on, with file `f` and slot `i`.
pub place : Request → ℕ → ℕ → Space → Outcome (Option ℕ × Space)
place q f i s =
    let start = if s.next_start == 0 then page_round_up s.sz else s.next_start in
    let end_ = u64 (start + q.len) in
    filedup f s.table >>= λ t.
    (if ltb start s.sz
      then panic "sys_mmap: memory crash"
      else if leb end_ start
      then (fileclose f t >>= λ (r, t'). done (
        none,
        record s {
          next_start = start;
          areas = with_file i none s.areas;
          table = t';
          released = r ∷ s.released;
        },
      ))
      else done (
        some start,
        record s { next_start = end_; areas = set s.areas i (new_area q f start); table = t },
      ))

pub map_in : Option ℕ → Request → ℕ → Space → Outcome (Option ℕ × Space)
map_in none q f s = done (none, s)
map_in (some i) q f s = place q f i s

pub map_entry : Option File → Request → ℕ → Space → Outcome (Option ℕ × Space)
map_entry none q f s = done (none, s)
map_entry (some x) q f s =
    if not (is_inode x.type_)
    then done (none, s)
    else if bit 1 q.prot && bit 0 q.flags && not x.writable
    then done (none, s)
    else map_in (free_slot s.areas) q f s

pub map_file : Option ℕ → Request → Space → Outcome (Option ℕ × Space)
map_file none q s = done (none, s)
map_file (some f) q s = map_entry (get_elem? s.table f) q f s

-- The result is the start of the mapping, `none` for -1.
pub sys_mmap : Request → ℕ → Space → Outcome (Option ℕ × Space)
unfolding map_file map_entry map_in is_inode
sys_mmap q fd s =
    if q.len == 0 || not (q.len % page_size == 0)
    then done (none, s)
    else map_file (argfd fd s.ofile) q s
