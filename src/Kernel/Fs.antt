-- ===== src/Kernel/Fs.antt =====
-- kernel/fs.c and kernel/fs.h: the blocks of the disk and their allocation. A buffer of the cache is
-- the block that it holds; what runs between bread and brelse is one step.
pub mod Bits
pub mod Bitmap
pub mod Search
pub mod Blocks
pub mod Guards
pub mod Inode
pub mod Trunc
pub mod Table
use mit_61810_labs.Prelude.{
  ℕ, zero, suc, ◌+◌, ◌-◌, ◌*◌, ◌/◌, ◌%◌, ◌^◌, Bool, true, false, not, ◌&&◌, ◌||◌, Option, none,
  some, List, [], ◌∷◌, ltb, leb, ◌==◌, if◌then◌else◌, update, Outcome, done, panic, ◌>>=◌, min,
}
use Prim.Native.Nat.{bit_and, bit_or}

-- BSIZE and BPB
abbrev pub block_size : ℕ
block_size = 1024

abbrev pub bits_per_block : ℕ
bits_per_block = 8192

-- `struct superblock`: where the parts of the disk lie.
pub record Superblock : Type 0 where
  pub size : ℕ
  pub ninodes : ℕ
  pub inodestart : ℕ
  pub bmapstart : ℕ

-- `block b q` is the byte `q` of the block `b`; `logged` lists the calls of log_write, the last one
-- first.
pub record Disk : Type 0 where
  pub block : ℕ → ℕ → ℕ
  pub logged : List ℕ

-- What log_write looks at besides: `log.size` and `log.outstanding`.
pub record Transaction : Type 0 where
  pub size : ℕ
  pub outstanding : ℕ

-- `log.lh.n` behind the calls of log_write for the blocks of the list: a block that is logged already
-- is absorbed.
abbrev pub is_logged : ℕ → List ℕ → Bool
is_logged b [] = false
is_logged b (c ∷ cs) = c == b || is_logged b cs

pub entries : List ℕ → ℕ
entries [] = 0
entries (b ∷ bs) = let rest = entries bs in if is_logged b bs then rest else suc rest

-- The tests of log_write at a call behind those of the list.
pub log_guard : Transaction → List ℕ → Outcome (Unit {0})
unfolding entries
log_guard t logged =
    if leb 30 (entries logged) || leb (t.size - 1) (entries logged)
    then panic "too big a transaction"
    else (if t.outstanding == 0 then panic "log_write outside of trans" else done tt)

-- Those of the last `k` calls, in the order of the calls.
pub log_guards : Transaction → ℕ → List ℕ → Outcome (Unit {0})
unfolding log_guard
log_guards t zero logged = done tt
log_guards t (suc k) [] = done tt
log_guards t (suc k) (b ∷ bs) = log_guards t k bs >>= λ _. log_guard t bs

-- `block b` with new bytes, and the record of the call `log_write(bp)`, whose tests `log_guards` makes
-- up for at the end of the routine: a panic that it finds ends the machine, so nothing sees what was
-- written in between.
abbrev pub write_block : ℕ → (ℕ → ℕ) → Disk → Disk
write_block b bytes d = record { block = update d.block b bytes; logged = b ∷ d.logged }

pub bzero : ℕ → Disk → Disk
bzero b d = write_block b (λ q. 0) d

-- `bp->data[bi/8] & m`, `|= m` and `&= ~m` on a byte, with `m = 1 << (bi % 8)`.
pub mask : ℕ → ℕ
mask bi = 2 ^ (bi % 8)

pub is_clear : ℕ → ℕ → Bool
unfolding mask
is_clear byte bi = bit_and byte (mask bi) == 0

pub set_bit : ℕ → ℕ → ℕ
unfolding mask
set_bit byte bi = bit_or byte (mask bi)

pub clear_bit : ℕ → ℕ → ℕ
unfolding mask
clear_bit byte bi = bit_and byte (255 - mask bi)

abbrev pub or_else : Option ℕ → Option ℕ → Option ℕ
or_else (some x) o = some x
or_else none o = o

module _ (sb : Superblock) where
  -- BBLOCK
  pub bitmap_block : ℕ → ℕ
  bitmap_block b = b / bits_per_block + sb.bmapstart

  -- Whether the bit of the block `b` is clear.
  pub is_free : ℕ → Disk → Bool
  is_free b d = is_clear (d.block (bitmap_block b) (b % bits_per_block / 8)) (b % bits_per_block)

  -- The bit of `b` set or cleared.
  pub mark : (ℕ → ℕ → ℕ) → ℕ → Disk → Disk
  mark change b d =
      let bi = b % bits_per_block in
      let byte = d.block (bitmap_block b) (bi / 8) in
      write_block (bitmap_block b) (update (d.block (bitmap_block b)) (bi / 8) (change byte bi)) d

  -- The inner loop of balloc, with `k` rounds left at the bit `bi` of the bitmap block of `b`.
  pub find_clear : ℕ → ℕ → ℕ → Disk → Option ℕ
  find_clear zero b bi d = none
  find_clear (suc k) b bi d =
      let rest = find_clear k b (suc bi) d in
      if is_clear (d.block (bitmap_block b) (bi / 8)) bi then some (b + bi) else rest

  -- The outer loop, with `k` bitmap blocks left.
  pub find_free : ℕ → ℕ → Disk → Option ℕ
  find_free zero b d = none
  find_free (suc k) b d =
      let rest = find_free k (b + bits_per_block) d in
      or_else (find_clear (min bits_per_block (sb.size - b)) b 0 d) rest

  pub take_free : Option ℕ → Disk → ℕ × Disk
  take_free none d = (0, d)
  take_free (some b) d = (b, bzero b (mark set_bit b d))

  -- The block, 0 if there is none.
  pub balloc : Disk → ℕ × Disk
  unfolding find_clear find_free take_free bzero mark
  balloc d = take_free (find_free ((sb.size + 8191) / bits_per_block) 0 d) d

  pub bfree : ℕ → Disk → Outcome Disk
  unfolding is_free mark
  bfree b d = if is_free b d then panic "freeing free block" else done (mark clear_bit b d)
