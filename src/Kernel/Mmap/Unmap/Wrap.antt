-- ===== src/Kernel/Mmap/Unmap/Wrap.antt =====
-- sys_munmap of a range that goes round the end of the 64-bit addresses.
use mit_61810_labs.Prelude.{
  ℕ, ◌+◌, ◌-◌, ◌%◌, ◌^◌, ◌≤◌, ◌<◌, ◌≡◌, ◌≢◌, refl, arith, inl, inr, true, false, not, ◌&&◌, ◌||◌,
  some, List, ◌∷◌, leb, ◌==◌, Bool-cases, done,
}
use mit_61810_labs.Kernel.Vma.{VmArea, in_use}
use mit_61810_labs.Kernel.Mmap.{page_size, u64, bit, Space}
use mit_61810_labs.Kernel.Mmap.Unmap.{
  Inodes, release_range, write_back, write_back_loop, put_back, put_back_loop, page_rounds,
  finish_munmap, munmap_shrunk, munmap_area, find_range, shrink, sys_munmap,
}
use mit_61810_labs.Kernel.Mmap.Unmap.Ranges.{IsRange}

-- No page lies in a range that ends below its start.
release_range_none :
    (io : Inodes) (a : VmArea) (addr len : ℕ) (s : Space)
    → u64 (addr + len) < addr
    → addr % page_size ≡ 0
    → a.start_addr % page_size ≡ 0
    → a.start_addr ≤ addr
    → addr < 2 ^ 64
    → release_range io a addr len s ≡ done s
unfolding release_range write_back put_back write_back_loop put_back_loop
release_range_none io a addr len s wraps p q le w =
    let aligned : (not (u64 (addr + 2 ^ 64 - a.start_addr) % page_size == 0)) ≡ false =
      ground arith in
    let none_ : page_rounds addr len ≡ 0 = omega (arith, wraps) in
    elim (Bool-cases (bit 0 a.flags)) [
      | inl shared ↦ rw (shared, aligned, none_) refl
      | inr private ↦ rw (private, none_) refl
    ]

-- sys_munmap does not test that addr + len stays below 2^64. For a process whose first area is in use and
-- whose whole mapping is valid and does not start at address 0, munmap from the mapping's start with the
-- length 2^64 - 4096 returns 0: no page is unmapped, and the start of the area's valid range moves one
-- page below the mapping.
pub sys_munmap_wraps :
    (io : Inodes) (a : VmArea) (areas : List VmArea) (s : Space)
    → s.areas ≡ a ∷ areas
    → a.length_ ≢ 0
    → IsRange a
    → page_size ≤ a.start_addr
    → a.start_addr ≡ a.valid_start
    → sys_munmap io a.start_addr (2 ^ 64 - page_size) s
      ≡ done
          (some 0, record s { areas = record a { valid_start = a.start_addr - page_size } ∷ areas })
unfolding sys_munmap munmap_area munmap_shrunk finish_munmap find_range shrink
sys_munmap_wraps io a areas s e used v low whole =
    let len = 2 ^ 64 - page_size in
    let sum : u64 (a.start_addr + len) ≡ a.start_addr - page_size =
      omega (arith, low, v.lower, v.order, v.upper, v.word) in
    let b : VmArea = record a { valid_start = a.start_addr - page_size } in
    let good : (not (a.start_addr % page_size == 0) || not (len % page_size == 0)) ≡ false =
      ground (arith, v.start) in
    let found : (in_use a
          && leb a.valid_start a.start_addr
          && leb (a.start_addr - page_size) a.valid_end)
        ≡ true =
      ground (arith, v.order, whole) in
    let here : (a.valid_start == a.start_addr) ≡ true = ground (arith, whole) in
    let left : leb a.valid_end (a.start_addr - page_size) ≡ false =
      ground (arith, v.order, whole, low) in
    rw
      (
        good,
        e,
        sum,
        found,
        here,
        sum,
        release_range_none io b a.start_addr len (record s { areas = b ∷ areas })
            (omega (arith, sum, low)) v.start v.start (omega arith)
            (omega (arith, v.lower, v.order, v.upper, v.word)),
        left,
      )
      refl
