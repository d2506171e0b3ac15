-- ===== src/Kernel/Fs/Inode/Dinode.antt =====
-- The inode on the disk: what ilock reads is what iupdate wrote.
use mit_61810_labs.Prelude.{
  ℕ, ◌+◌, ◌-◌, ◌*◌, ◌/◌, ◌%◌, ◌^◌, ◌<◌, ◌≡◌, refl, ◌∙◌, arith, true, false, ltb, leb, ==_refl,
}
use mit_61810_labs.Kernel.Fs.{Superblock}
use mit_61810_labs.Kernel.Fs.Inode.{
  Inode, Held, load32, dinode_byte, inode_block, iupdate, load_inode,
}

-- The fields fit their widths on the disk.
pub record IsSmall (ip : Inode) : Type 0 where
  pub type : ip.type < 2 ^ 16
  pub major : ip.major < 2 ^ 16
  pub minor : ip.minor < 2 ^ 16
  pub nlink : ip.nlink < 2 ^ 16
  pub size : ip.size < 2 ^ 32
  pub addrs : (k : ℕ) → k < 13 → ip.addrs k < 2 ^ 32

-- Two inodes that are the same on the disk.
pub record IsSame (ip ip' : Inode) : Type 0 where
  pub inum : ip.inum ≡ ip'.inum
  pub type : ip.type ≡ ip'.type
  pub major : ip.major ≡ ip'.major
  pub minor : ip.minor ≡ ip'.minor
  pub nlink : ip.nlink ≡ ip'.nlink
  pub size : ip.size ≡ ip'.size
  pub addrs : (k : ℕ) → k < 13 → ip.addrs k ≡ ip'.addrs k

addr_byte :
    (ip : Inode) (k i : ℕ) → i < 4 → dinode_byte ip (12 + 4 * k + i) ≡ ip.addrs k / 256 ^ i % 256
unfolding dinode_byte
addr_byte ip k i lt =
    let q = 12 + 4 * k + i in
    let a : ltb q 2 ≡ false = ground arith in
    let b : ltb q 4 ≡ false = ground arith in
    let c : ltb q 6 ≡ false = ground arith in
    let d : ltb q 8 ≡ false = ground arith in
    let e : ltb q 12 ≡ false = ground arith in
    let f : q % 4 ≡ i = omega arith in
    let g : q / 4 - 3 ≡ k = omega arith in rw (a, b, c, d, e, f, g) refl

two_bytes :
    (b : ℕ → ℕ) (p v : ℕ)
    → v < 2 ^ 16
    → b p ≡ v / 1 % 256
    → b (p + 1) ≡ v / 256 % 256
    → b p + 256 * b (p + 1) ≡ v
two_bytes b p v h e0 e1 = omega arith

four_bytes :
    (b : ℕ → ℕ) (p v : ℕ)
    → v < 2 ^ 32
    → b p ≡ v / 1 % 256
    → b (p + 1) ≡ v / 256 % 256
    → b (p + 2) ≡ v / 65536 % 256
    → b (p + 3) ≡ v / 16777216 % 256
    → load32 b p ≡ v
unfolding load32
four_bytes b p v h e0 e1 e2 e3 = omega arith

module _ (sb : Superblock) (s : Held) where
  abbrev at : ℕ
  at = s.ino.inum % 16 * 64

  byte_lem :
      (p q : ℕ)
      → p ≡ at + q
      → q < 64
      → (iupdate sb s).block (inode_block sb s.ino.inum) p ≡ dinode_byte s.ino q
  unfolding iupdate
  byte_lem p q e lt =
      let a : leb at p ≡ true = ground arith in
      let b : ltb p (at + 64) ≡ true = ground arith in
      let c : 0 + (p - at) ≡ q = omega (arith, e) in
      rw (==_refl (inode_block sb s.ino.inum), a, b, c) refl

  -- An inode that iupdate wrote with type 0 is free on the disk.
  pub free_type_lem : s.ino.type ≡ 0 → (load_inode sb s.ino.inum (iupdate sb s)).type ≡ 0
  unfolding load_inode dinode_byte
  free_type_lem z =
      let b = (iupdate sb s).block (inode_block sb s.ino.inum) in
      two_bytes b (at + 0) 0 (omega arith)
        (byte_lem (at + 0) 0 refl (omega arith) ∙ ground (arith, z))
        (byte_lem (at + 0 + 1) 1 (omega arith) (omega arith) ∙ ground (arith, z))

  addr_lem :
      IsSmall s.ino
      → (k : ℕ) → k < 13
      → load32 ((iupdate sb s).block (inode_block sb s.ino.inum)) (at + 12 + 4 * k) ≡ s.ino.addrs k
  addr_lem h k lt =
      let p = at + 12 + 4 * k in
      four_bytes ((iupdate sb s).block (inode_block sb s.ino.inum)) p (s.ino.addrs k) (h.addrs k lt)
        (byte_lem p (12 + 4 * k + 0) (omega arith) (omega arith)
          ∙ addr_byte s.ino k 0 (omega arith))
        (byte_lem (p + 1) (12 + 4 * k + 1) (omega arith) (omega arith)
          ∙ addr_byte s.ino k 1 (omega arith))
        (byte_lem (p + 2) (12 + 4 * k + 2) (omega arith) (omega arith)
          ∙ addr_byte s.ino k 2 (omega arith))
        (byte_lem (p + 3) (12 + 4 * k + 3) (omega arith) (omega arith)
          ∙ addr_byte s.ino k 3 (omega arith))

  -- For an inode whose fields fit the widths of `struct dinode`, what ilock reads from the disk after
  -- iupdate is the inode: its type, device numbers, links, size and the thirteen addresses.
  pub load_inode-iupdate : IsSmall s.ino → IsSame (load_inode sb s.ino.inum (iupdate sb s)) s.ino
  unfolding load_inode dinode_byte
  load_inode-iupdate h =
      let b = (iupdate sb s).block (inode_block sb s.ino.inum) in
      let half : (q : ℕ)
          → q < 63
          → (b (at + q) ≡ dinode_byte s.ino q) × (b (at + q + 1) ≡ dinode_byte s.ino (q + 1)) =
        λ q lt. (
          byte_lem (at + q) q refl (omega arith),
          byte_lem (at + q + 1) (q + 1) (omega arith) (omega arith),
        ) in
      record {
        inum = refl;
        type =
            two_bytes b (at + 0) s.ino.type h.type (half 0 (omega arith)).0
              (half 0 (omega arith)).1;
        major =
            two_bytes b (at + 2) s.ino.major h.major (half 2 (omega arith)).0
              (half 2 (omega arith)).1;
        minor =
            two_bytes b (at + 4) s.ino.minor h.minor (half 4 (omega arith)).0
              (half 4 (omega arith)).1;
        nlink =
            two_bytes b (at + 6) s.ino.nlink h.nlink (half 6 (omega arith)).0
              (half 6 (omega arith)).1;
        size =
            four_bytes b (at + 8) s.ino.size h.size (byte_lem (at + 8) 8 refl (omega arith))
              (byte_lem (at + 8 + 1) 9 (omega arith) (omega arith))
              (byte_lem (at + 8 + 2) 10 (omega arith) (omega arith))
              (byte_lem (at + 8 + 3) 11 (omega arith) (omega arith));
        addrs = addr_lem h;
      }
