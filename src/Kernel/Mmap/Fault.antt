-- ===== src/Kernel/Mmap/Fault.antt =====
-- The mmap lab: mmap_load_instr of kernel/sysfile.c, which usertrap calls on an exception.
pub mod Found
pub mod Loads
use mit_61810_labs.Prelude.{
  ℕ, zero, suc, ◌+◌, ◌-◌, ◌*◌, ◌/◌, ◌%◌, ◌^◌, Bool, true, false, not, ◌&&◌, ◌||◌, Option, none,
  some, List, [], ◌∷◌, ltb, leb, ◌==◌, if◌then◌else◌, update, Outcome, done, panic, ◌>>=◌,
}
use mit_61810_labs.Kernel.Vma.{VmArea, in_use}
use mit_61810_labs.Kernel.Mmap.{page_size, max_va, u64, bit, page_round_down, Pte, Space}
use mit_61810_labs.Kernel.Mmap.Unmap.{inode_of}

-- `readi(ip, 0, pa, off, PGSIZE)`
pub record ReadCall : Type 0 where
  pub ip : ℕ
  pub pa : ℕ
  pub off : ℕ

-- How mmap_load_instr ends: -1, exit(-1), or 0 with the call of readi if there was one.
pub data Handled : Type 0 where
  refused exited : Handled
  loaded : Option ReadCall → Handled

-- The exception: scause and stval, and the file system. `tables` says whether walk gets the pages
-- that it needs for the page table, `size` gives the size of an inode, and `readi` is what readi
-- returns.
pub record Exception : Type 0 where
  pub scause : ℕ
  pub va : ℕ
  pub tables : Bool
  pub size : ℕ → ℕ
  pub readi : ReadCall → ℕ

-- The first slot in use whose mapping holds the address.
unfoldable pub find_area : ℕ → List VmArea → Option VmArea
find_area pgaddr [] = none
find_area pgaddr (a ∷ as') =
    if in_use a && leb a.start_addr pgaddr && ltb pgaddr (u64 (a.start_addr + a.length_))
    then some a
    else find_area pgaddr as'

-- The entry of a page of the area.
abbrev pub area_pte : VmArea → ℕ → Pte
area_pte a pa = record { pa = pa; r = bit 0 a.prot; w = bit 1 a.prot; u = true; d = false }

-- The end of mmap_load_instr: the file's part is read in, where there is one.
pub read_page : Exception → VmArea → ℕ → ℕ → Space → Outcome (Handled × Space)
read_page x a pgaddr pa s =
    let ip = inode_of a.fptr s.table in
    let c : ReadCall = record { ip = ip; pa = pa; off = pgaddr - a.start_addr } in
    if ltb (pgaddr - a.start_addr) (x.size ip)
    then (if x.readi c == 0
        then done (refused, record s { pages = update s.pages pgaddr none; freed = pa ∷ s.freed })
        else done (loaded (some c), s))
    else done (loaded none, s)

-- `mappages(pagetable, pgaddr, PGSIZE, newpage, perm)` and what follows. The kalloc'd page `pa` is
-- not in the free list any more.
pub map_page : Option Pte → Exception → VmArea → ℕ → ℕ → Space → Outcome (Handled × Space)
map_page (some e) x a pgaddr pa s = panic "mappages: remap"
map_page none x a pgaddr pa s =
    if not x.tables
    then done (refused, record s { freed = pa ∷ s.freed })
    else read_page x a pgaddr pa (record s { pages = update s.pages pgaddr (some (area_pte a pa)) })

pub load_page : List ℕ → Exception → VmArea → Space → Outcome (Handled × Space)
load_page [] x a s = done (refused, s)
load_page (pa ∷ free) x a s =
    let pgaddr = page_round_down x.va in
    if leb max_va pgaddr
    then panic "walk"
    else map_page (s.pages pgaddr) x a pgaddr pa (record s { free = free })

pub fault_in : Option VmArea → Exception → Space → Outcome (Handled × Space)
fault_in none x s = done (refused, s)
fault_in (some a) x s =
    if ltb x.va a.valid_start || leb a.valid_end x.va
    then done (exited, s)
    else if not (bit 1 a.prot) && (x.scause == 15)
    then done (exited, s)
    else load_page s.free x a s

pub mmap_load_instr : Exception → Space → Outcome (Handled × Space)
unfolding fault_in load_page map_page read_page
mmap_load_instr x s =
    if not (x.scause == 13) && not (x.scause == 15)
    then done (refused, s)
    else fault_in (find_area (page_round_down x.va) s.areas) x s
