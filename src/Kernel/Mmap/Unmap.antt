-- ===== src/Kernel/Mmap/Unmap.antt =====
-- The mmap lab: sys_munmap, clear_vm_area, write_back and put_back of kernel/sysfile.c.
pub mod Pages
pub mod Ranges
pub mod Released
pub mod Owned
pub mod Areas
pub mod Wrap
use mit_61810_labs.Prelude.{
  ℕ, zero, suc, ◌+◌, ◌-◌, ◌*◌, ◌/◌, ◌%◌, ◌^◌, Bool, true, false, not, ◌&&◌, ◌||◌, Option, none,
  some, List, [], ◌∷◌, ltb, leb, ◌==◌, if◌then◌else◌, get_elem?, set, update, Outcome, done, panic,
  ◌>>=◌,
}
use mit_61810_labs.Kernel.Vma.{VmArea, no_area, in_use}
use mit_61810_labs.Kernel.File.{
  File, FileType, fd_none, fd_pipe, fd_inode, fd_device, Release, OpenFiles, argfd, filedup,
  fileclose,
}
use mit_61810_labs.Kernel.Mmap.{page_size, max_va, u64, bit, Pte, WriteCall, Space}

-- walkaddr: the entry of a user page; the address of a page is never 0.
unfoldable pub walkaddr : (ℕ → Option Pte) → ℕ → Option Pte
walkaddr pages va =
    if leb max_va va
    then none
    else elim (pages va) [ none ↦ none | some e ↦ if e.u then some e else none ]

-- `uvmunmap(pagetable, va, 1, 1)` at a user page that walkaddr found.
pub unmap_page : ℕ → Pte → Space → Space
unmap_page va e s = record s { pages = update s.pages va none; freed = e.pa ∷ s.freed }

-- The loop of put_back, with `k` pages left.
pub put_back_at : Option Pte → ℕ → Space → Space
put_back_at none va s = s
put_back_at (some e) va s = unmap_page va e s

pub put_back_loop : ℕ → ℕ → Space → Space
put_back_loop zero va s = s
put_back_loop (suc k) va s =
    put_back_loop k (va + page_size) (put_back_at (walkaddr s.pages va) va s)

-- How often `for (pgaddr = addr; pgaddr < addr+len; pgaddr += PGSIZE)` goes round.
abbrev pub page_rounds : ℕ → ℕ → ℕ
page_rounds addr len = (u64 (addr + len) - addr + 4095) / 4096

pub put_back : ℕ → ℕ → Space → Space
put_back addr len s = put_back_loop (page_rounds addr len) addr s

-- The loop of write_back: `size` is the size of the inode `ip`, and `writei` what writei returns.
module _ (writei : WriteCall → ℕ) (ip size : ℕ) where
  -- The entry of a page that is loaded, its dirty flag and its part of the file.
  pub write_page : Pte → ℕ → ℕ → Space → Outcome Space
  write_page e va offset s =
      let c : WriteCall = record {
        ip = ip;
        pa = e.pa;
        off = offset;
        n = (size - offset) % 2 ^ 32;
      } in
      if e.d && ltb offset size
      then (if writei c == c.n
          then done (unmap_page va e (record s { writes = c ∷ s.writes }))
          else panic "write_back: writei fail")
      else done (unmap_page va e s)

  -- A round: only a loaded page moves the offset.
  pub write_back_at : Option Pte → ℕ → ℕ → Space → Outcome (ℕ × Space)
  write_back_at none va offset s = done (offset, s)
  write_back_at (some e) va offset s =
      write_page e va offset s >>= λ s'. done (u64 (offset + page_size), s')

  pub write_back_loop : ℕ → ℕ → ℕ → Space → Outcome Space
  write_back_loop zero va offset s = done s
  write_back_loop (suc k) va offset s =
      write_back_at (walkaddr s.pages va) va offset s >>= λ (o, s').
      write_back_loop k (va + page_size) o s'

  pub write_back : ℕ → ℕ → ℕ → Space → Outcome Space
  write_back addr len offset s =
      if not (offset % page_size == 0)
      then panic "write_back: pagsize not aligned"
      else write_back_loop (page_rounds addr len) addr offset s

-- The inode layer: `ip` and `size` of a file's inode, and what writei returns.
pub record Inodes : Type 0 where
  pub size : ℕ → ℕ
  pub writei : WriteCall → ℕ

abbrev pub inode_of : Option ℕ → List File → ℕ
inode_of none t = 0
inode_of (some f) t = elim (get_elem? t f) [ none ↦ 0 | some x ↦ x.ip ]

-- The range of an area given back, to its file or not.
pub release_range : Inodes → VmArea → ℕ → ℕ → Space → Outcome Space
release_range io a addr len s =
    let ip = inode_of a.fptr s.table in
    if bit 0 a.flags
    then write_back io.writei ip (io.size ip) addr len (u64 (addr + 2 ^ 64 - a.start_addr)) s
    else done (put_back addr len s)

pub close_area : Option ℕ → Space → Outcome Space
close_area none s = panic "fileclose"
close_area (some f) s =
    fileclose f s.table >>= λ (r, t). done (record s { table = t; released = r ∷ s.released })

-- clear_vm_area on the slot `i`, which holds `a`.
pub clear_vm_area : Inodes → VmArea → ℕ → Space → Outcome Space
unfolding close_area
clear_vm_area io a i s =
    (if ltb a.valid_start a.valid_end
      then release_range io a a.valid_start (a.valid_end - a.valid_start) s
      else done s)
    >>= λ s1. close_area a.fptr s1 >>= λ s2. done (record s2 { areas = set s2.areas i no_area })

-- The first slot in use whose valid range holds [addr, addr + len).
pub find_range : ℕ → ℕ → List VmArea → Option (ℕ × VmArea)
find_range addr len [] = none
find_range addr len (a ∷ as') =
    if in_use a && leb a.valid_start addr && leb (u64 (addr + len)) a.valid_end
    then some (0, a)
    else elim (find_range addr len as') [ none ↦ none | some (i, b) ↦ some (suc i, b) ]

-- The area without the range, `none` where the range lies inside.
pub shrink : ℕ → ℕ → VmArea → Option VmArea
shrink addr len a =
    if a.valid_start == addr
    then some (record a { valid_start = u64 (addr + len) })
    else if u64 (addr + len) == a.valid_end
    then some (record a { valid_end = u64 (a.valid_end + 2 ^ 64 - len) })
    else none

finish_munmap : Inodes → VmArea → ℕ → Space → Outcome (Option ℕ × Space)
finish_munmap io a i s =
    if leb a.valid_end a.valid_start
    then (clear_vm_area io a i s >>= λ s'. done (some 0, s'))
    else done (some 0, s)

munmap_shrunk : Inodes → Option VmArea → ℕ → ℕ → ℕ → Space → Outcome (Option ℕ × Space)
munmap_shrunk io none i addr len s = done (none, s)
munmap_shrunk io (some a) i addr len s =
    release_range io a addr len (record s { areas = set s.areas i a }) >>= λ s'.
    finish_munmap io a i s'

munmap_area : Inodes → Option (ℕ × VmArea) → ℕ → ℕ → Space → Outcome (Option ℕ × Space)
munmap_area io none addr len s = done (none, s)
munmap_area io (some (i, a)) addr len s = munmap_shrunk io (shrink addr len a) i addr len s

pub sys_munmap : Inodes → ℕ → ℕ → Space → Outcome (Option ℕ × Space)
unfolding munmap_area munmap_shrunk finish_munmap
sys_munmap io addr len s =
    if not (addr % page_size == 0) || not (len % page_size == 0)
    then done (none, s)
    else munmap_area io (find_range addr len s.areas) addr len s
