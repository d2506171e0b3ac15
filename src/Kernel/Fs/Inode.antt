-- ===== src/Kernel/Fs/Inode.antt =====
-- kernel/fs.c: the content of a locked inode: bmap, readi, writei, itrunc and iupdate.
mod Tests
pub mod Slots
pub mod Grow
pub mod Bmap
pub mod Data
pub mod Text
pub mod Write
pub mod Update
pub mod Dinode
pub mod Calls
pub mod Writei
pub mod Readi
pub mod RoundTrip
use mit_61810_labs.Prelude.{
  ℕ, zero, suc, ◌+◌, ◌-◌, ◌*◌, ◌/◌, ◌%◌, ◌^◌, Bool, true, false, not, ◌&&◌, ◌||◌, Option, none,
  some, List, [], ◌∷◌, ltb, leb, ◌==◌, if◌then◌else◌, update, Outcome, done, panic, ◌>>=◌, min,
  length,
}
use mit_61810_labs.Kernel.Fs.{
  block_size, Superblock, Disk, Transaction, log_guard, log_guards, write_block, balloc, bfree,
}

-- NDIRECT, NINDIRECT and MAXFILE
abbrev pub direct_blocks : ℕ
direct_blocks = 12

abbrev pub indirect_blocks : ℕ
indirect_blocks = 256

abbrev pub max_file : ℕ
max_file = 268

-- `struct inode`: the copy of the inode in memory, less what the table of inodes keeps; `addrs k` is
-- `addrs[k]`.
pub record Inode : Type 0 where
  pub inum : ℕ
  pub type : ℕ
  pub major : ℕ
  pub minor : ℕ
  pub nlink : ℕ
  pub size : ℕ
  pub addrs : ℕ → ℕ

-- A locked inode and the disk.
pub record Held : Type 0 where
  pub ino : Inode
  pub disk : Disk

-- A `uint` of a block, its first byte at `q`.
pub load32 : (ℕ → ℕ) → ℕ → ℕ
load32 bytes q = bytes q + 256 * bytes (q + 1) + 65536 * bytes (q + 2) + 16777216 * bytes (q + 3)

pub store32 : (ℕ → ℕ) → ℕ → ℕ → ℕ → ℕ
store32 bytes q v =
    update
      (update (update (update bytes q (v % 256)) (q + 1) (v / 256 % 256)) (q + 2) (v / 65536 % 256))
      (q + 3) (v / 16777216 % 256)

-- `memmove(dst + at, src + from, n)`
abbrev pub blit : (ℕ → ℕ) → ℕ → (ℕ → ℕ) → ℕ → ℕ → ℕ → ℕ
blit dst at src from n q = if leb at q && ltb q (at + n) then src (from + (q - at)) else dst q

-- The byte `q` of a `struct dinode`.
pub dinode_byte : Inode → ℕ → ℕ
dinode_byte ip q =
    let half : ℕ → ℕ = λ v. v / 256 ^ (q % 2) % 256 in
    let word : ℕ → ℕ = λ v. v / 256 ^ (q % 4) % 256 in
    if ltb q 2
    then half ip.type
    else (if ltb q 4
        then half ip.major
        else (if ltb q 6
            then half ip.minor
            else (if ltb q 8
                then half ip.nlink
                else (if ltb q 12 then word ip.size else word (ip.addrs (q / 4 - 3))))))

-- The rounds of readi and writei. `room a` is the number of bytes that can be read or written from the
-- address `a` on, as either_copyin and either_copyout find it.
module _ (room : ℕ → ℕ) where
  -- A round of the loop in writei, with `tot` bytes written: the number of bytes `m`, or none at a
  -- `break`.
  pub put_bytes : (ℕ → ℕ) → ℕ → ℕ → ℕ → ℕ × Held → Option ℕ × Held
  put_bytes memory src off rest (addr, s) =
      let m = min rest (block_size - off % block_size) in
      let bytes : ℕ → ℕ → ℕ = λ n. blit (s.disk.block addr) (off % block_size) memory src n in
      if addr == 0
      then (none, s)
      else (if leb m (room src)
          then (some m, record { ino = s.ino; disk = write_block addr (bytes m) s.disk })
          else (
            none,
            record {
              ino = s.ino;
              disk = record {
                block = update s.disk.block addr (bytes (room src));
                logged = s.disk.logged;
              };
            },
          ))

  -- A round of the loop in readi, with the memory of the caller: the number of bytes `m`, and
  -- whether either_copyout failed; 0 bytes where bmap gave no block.
  pub get_bytes : (ℕ → ℕ) → ℕ → ℕ → ℕ → ℕ × Held → ℕ × Bool × (ℕ → ℕ)
  get_bytes memory dst off rest (addr, s) =
      let m = min rest (block_size - off % block_size) in
      let copied : ℕ → ℕ → ℕ = λ n. blit memory dst (s.disk.block addr) (off % block_size) n in
      if addr == 0
      then (0, false, memory)
      else (if leb m (room dst) then (m, false, copied m) else (0, true, copied (room dst)))

-- The rest of the loop, unless the round ended it.
abbrev pub next_round : (ℕ → Held → Outcome (ℕ × Held)) → ℕ → Option ℕ × Held → Outcome (ℕ × Held)
next_round go tot (none, s) = done (tot, s)
next_round go tot (some m, s) = go m s

-- The count, or none for -1; the memory; the inode.
abbrev pub next_read :
    (ℕ → (ℕ → ℕ) → Held → Outcome (Option ℕ × (ℕ → ℕ) × Held))
    → ℕ
    → Held
    → ℕ × Bool × (ℕ → ℕ)
    → Outcome (Option ℕ × (ℕ → ℕ) × Held)
next_read go tot s (m, failed, memory) =
    if failed
    then done (none, memory, s)
    else (if m == 0 then done (some tot, memory, s) else go m memory s)

module _ (sb : Superblock) where
  -- The case of bmap in which `addrs[k]` is to hold the block, with what balloc returned.
  pub set_addr : ℕ → ℕ × Disk → Held → ℕ × Held
  set_addr k (b, d) s =
      if b == 0
      then (0, record { ino = s.ino; disk = d })
      else (b, record { ino = record (s.ino) { addrs = update s.ino.addrs k b }; disk = d })

  pub ensure_addr : ℕ → Held → ℕ × Held
  unfolding set_addr
  ensure_addr k s =
      if s.ino.addrs k == 0 then set_addr k (balloc sb s.disk) s else (s.ino.addrs k, s)

  -- The entry `a[j]` of the indirect block `addr`.
  pub set_entry : ℕ → ℕ → ℕ × Disk → Held → ℕ × Held
  unfolding store32
  set_entry j addr (b, d) s =
      if b == 0
      then (0, record { ino = s.ino; disk = d })
      else (b, record { ino = s.ino; disk = write_block addr (store32 (d.block addr) (4 * j) b) d })

  pub ensure_entry : ℕ → ℕ → Held → ℕ × Held
  unfolding set_entry load32
  ensure_entry j addr s =
      let w = load32 (s.disk.block addr) (4 * j) in
      if w == 0 then set_entry j addr (balloc sb s.disk) s else (w, s)

  pub ensure_indirect : ℕ → Held → ℕ × Held
  unfolding ensure_addr ensure_entry
  ensure_indirect j s =
      let r = ensure_addr direct_blocks s in if r.0 == 0 then (0, r.1) else ensure_entry j r.0 r.1

  pub bmap : ℕ → Held → Outcome (ℕ × Held)
  unfolding ensure_addr ensure_indirect
  bmap bn s =
      if ltb bn direct_blocks
      then done (ensure_addr bn s)
      else (if ltb (bn - direct_blocks) indirect_blocks
          then done (ensure_indirect (bn - direct_blocks) s)
          else panic "bmap: out of range")

  -- IBLOCK
  pub inode_block : ℕ → ℕ
  inode_block i = i / 16 + sb.inodestart

  pub iupdate : Held → Disk
  unfolding inode_block dinode_byte
  iupdate s =
      let b = inode_block s.ino.inum in
      let at = s.ino.inum % 16 * 64 in
      write_block b (blit (s.disk.block b) at (dinode_byte s.ino) 0 64) s.disk

  -- What ilock reads from the disk: `struct dinode` at the place of the inode `i`.
  pub load_inode : ℕ → Disk → Inode
  unfolding load32 inode_block
  load_inode i d =
      let bytes = d.block (inode_block i) in
      let at = i % 16 * 64 in
      let half : ℕ → ℕ = λ q. bytes (at + q) + 256 * bytes (at + q + 1) in
      record {
        inum = i;
        type = half 0;
        major = half 2;
        minor = half 4;
        nlink = half 6;
        size = load32 bytes (at + 8);
        addrs = λ k. load32 bytes (at + 12 + 4 * k);
      }

  -- `if(off > ip->size) ip->size = off` and the end of writei.
  pub grow_size : ℕ → ℕ → Held → Held
  unfolding iupdate
  grow_size off tot s =
      let ip = record (s.ino) {
        size = if ltb s.ino.size (off + tot) then off + tot else s.ino.size;
      } in
      record { ino = ip; disk = iupdate (record { ino = ip; disk = s.disk }) }

  -- The end of writei, with the tests of log_write: those of the calls that the loop made behind the
  -- calls of the disk `d`, and that of iupdate.
  pub end_write : Transaction → Disk → ℕ → ℕ × Held → Outcome (Option ℕ × Held)
  unfolding grow_size
  end_write t d off (tot, s) =
      log_guards t (length s.disk.logged - length d.logged) s.disk.logged >>= λ _.
      log_guard t s.disk.logged >>= λ _. done (some tot, grow_size off tot s)

  -- readi and writei.
  module _ (room : ℕ → ℕ) where
    pub writei_loop : ℕ → (ℕ → ℕ) → ℕ → ℕ → ℕ → ℕ → Held → Outcome (ℕ × Held)
    unfolding put_bytes bmap
    writei_loop zero memory src off n tot s = done (tot, s)
    writei_loop (suc k) memory src off n tot s =
        if ltb tot n
        then (bmap (off / block_size) s >>= λ r.
            next_round (λ m s. writei_loop k memory (src + m) (off + m) n (tot + m) s) tot
              (put_bytes room memory src off (n - tot) r))
        else done (tot, s)

    -- The count, or none for -1. The calls of log_write are tested when all are known.
    pub writei : Transaction → (ℕ → ℕ) → ℕ → ℕ → ℕ → Held → Outcome (Option ℕ × Held)
    unfolding writei_loop end_write
    writei t memory src off n s =
        if ltb s.ino.size off || ltb ((off + n) % 2 ^ 32) off
        then done (none, s)
        else (if ltb (max_file * block_size) ((off + n) % 2 ^ 32)
            then done (none, s)
            else writei_loop n memory src off n 0 s >>= λ r. end_write t s.disk off r)

    pub readi_loop : ℕ → (ℕ → ℕ) → ℕ → ℕ → ℕ → ℕ → Held → Outcome (Option ℕ × (ℕ → ℕ) × Held)
    unfolding get_bytes bmap
    readi_loop zero memory dst off n tot s = done (some tot, memory, s)
    readi_loop (suc k) memory dst off n tot s =
        if ltb tot n
        then (bmap (off / block_size) s >>= λ r.
            next_read (λ m memory s. readi_loop k memory (dst + m) (off + m) n (tot + m) s) tot r.1
              (get_bytes room memory dst off (n - tot) r))
        else done (some tot, memory, s)

    pub readi : (ℕ → ℕ) → ℕ → ℕ → ℕ → Held → Outcome (Option ℕ × (ℕ → ℕ) × Held)
    unfolding readi_loop
    readi memory dst off n s =
        let size = s.ino.size in
        let m = if ltb size ((off + n) % 2 ^ 32) then size - off else n in
        if ltb size off || ltb ((off + n) % 2 ^ 32) off
        then done (some 0, memory, s)
        else readi_loop m memory dst off m 0 s
