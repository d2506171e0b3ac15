-- ===== src/Kernel/Fs/Inode/Tests.antt =====
-- Instances of the theorems on the file system: a disk of six blocks with a file of five bytes.
use mit_61810_labs.Prelude.{
  ◌+◌, ◌*◌, ℕ, zero, suc, ◌<◌, ◌≡◌, ◌≢◌, ◌⊎◌, inl, inr, refl, sym, ap, ◌∙◌, arith, true, false,
  ◌&&◌, Option, none, some, [], ◌∷◌, ltb, ◌==◌, ◌/◌, if◌then◌else◌, Bool-cases, Outcome, done,
  panic, Returns,
}
use mit_61810_labs.Kernel.Fs.{
  Transaction, entries, log_guard, log_guards, Superblock, Disk, is_clear, mask, is_free,
  bitmap_block, balloc, bfree, find_free, find_clear, take_free,
}
use mit_61810_labs.Kernel.Fs.Bitmap.{IsDisk}
use mit_61810_labs.Kernel.Fs.Blocks.{Allocates, balloc_lem, bfree-balloc}
use mit_61810_labs.Kernel.Fs.Inode.{
  Inode, Held, ensure_addr, put_bytes, writei_loop, grow_size, bmap, readi, writei, end_write,
  iupdate, load_inode, blit,
}
use mit_61810_labs.Kernel.Fs.Inode.Slots.{slot, slot_of, content, IsFile, IsWhole}
use mit_61810_labs.Kernel.Fs.Inode.Bmap.{Keeps, IsFound, bmap_lem}
use mit_61810_labs.Kernel.Fs.Inode.Calls.{touched}
use mit_61810_labs.Kernel.Fs.Guards.{Ends}
use mit_61810_labs.Kernel.Fs.Inode.Writei.{IsWritei, writei_lem}
use mit_61810_labs.Kernel.Fs.Inode.Readi.{IsRead, available, readi_lem}
use mit_61810_labs.Kernel.Fs.Inode.RoundTrip.{readi-writei}
use mit_61810_labs.Kernel.Fs.Inode.Dinode.{IsSame, load_inode-iupdate}
use mit_61810_labs.Kernel.Fs.Trunc.{itrunc}
use mit_61810_labs.Kernel.Fs.Trunc.Empty.{IsTruncated, itrunc_lem}
use mit_61810_labs.Kernel.Fs.Table.{Entry, iget, iput}
use mit_61810_labs.Kernel.Fs.Table.Unique.{IsUnique, IsIget, iget_lem}
use mit_61810_labs.Kernel.Fs.Table.Put.{IsPut, iput_lem}

abbrev small : Superblock
small = record { size = 6; ninodes = 1; inodestart = 1; bmapstart = 2 }

-- The bitmap says that the blocks 0 to 3 are in use; the block 3 is full of nines.
abbrev six_blocks : Disk
six_blocks = record {
  block = λ b q. if b == 3 then 9 else (if b == 2 && q == 0 then 15 else 0);
  logged = [];
}

abbrev five_bytes : Inode
five_bytes = record {
  inum = 0;
  type = 2;
  major = 0;
  minor = 0;
  nlink = 0;
  size = 5;
  addrs = λ k. if k == 0 then 3 else 0;
}

abbrev file : Held
file = record { ino = five_bytes; disk = six_blocks }

in_use_below : (x : ℕ) → x < 4 → is_free small x six_blocks ≡ false
unfolding is_free bitmap_block is_clear mask
in_use_below zero h = refl
in_use_below (suc zero) h = refl
in_use_below (suc (suc zero)) h = refl
in_use_below (suc (suc (suc zero))) h = refl
in_use_below (suc (suc (suc (suc x)))) h = absurd (omega arith)

six_blocks-IsDisk : IsDisk small six_blocks
six_blocks-IsDisk = record {
  bytes = λ b q. ground arith;
  order = omega arith;
  fits = omega arith;
  meta = λ x h. in_use_below x (omega arith);
}

file-slot : (k : ℕ) → slot k file ≢ 0 → k ≡ 0
unfolding slot
file-slot k ne = elim (Bool-cases (k == 0)) [
  | inl first ↦ ground arith
  | inr later ↦ elim (Bool-cases (ltb k 13)) [
    | inl low ↦ absurd (ne (rw (low, later) refl))
    | inr high ↦ absurd (ne (rw high refl))
  ]
]

slot_0 : slot 0 file ≡ 3
unfolding slot
slot_0 = refl

at_3 : (k : ℕ) → slot k file ≢ 0 → slot k file ≡ 3
at_3 k ne = ap (λ k. slot k file) (file-slot k ne) ∙ slot_0

file-IsFile : IsFile small file
file-IsFile = record {
  disk = six_blocks-IsDisk;
  short = omega arith;
  listed = omega arith;
  owned = λ k lt ne. record {
    behind = omega (arith, at_3 k ne);
    within = omega (arith, at_3 k ne);
    used = ap (λ v. is_free small v six_blocks) (at_3 k ne) ∙ in_use_below 3 (omega arith);
  };
  apart = λ k l lk ll ne e. file-slot k ne ∙ sym (file-slot l (λ z. ne (e ∙ z)));
}

file-IsWhole : IsWhole file
file-IsWhole p lt z =
    let e : p / 1024 ≡ 0 = omega arith in
    ground (arith, sym slot_0 ∙ ap (λ n. slot (slot_of n) file) (sym e) ∙ z)

balloc_lem_example :
    Allocates small (balloc small six_blocks).0 six_blocks (balloc small six_blocks).1
    ⊎ ((balloc small six_blocks ≡ (0, six_blocks))
        × ((x : ℕ) → x < 6 → is_free small x six_blocks ≡ false))
balloc_lem_example = balloc_lem small six_blocks six_blocks-IsDisk

fourth_block : (balloc small six_blocks).0 ≡ 4
unfolding balloc find_free find_clear take_free bitmap_block is_clear mask
fourth_block = refl

bfree-balloc_example :
    Returns
      (λ d'. (x : ℕ) → x < 6 → is_free small x d' ≡ is_free small x six_blocks)
      (bfree small (balloc small six_blocks).0 (balloc small six_blocks).1)
bfree-balloc_example =
    bfree-balloc small six_blocks six_blocks-IsDisk (λ z. ground (arith, fourth_block, z))

bmap_lem_example :
    Returns (λ r. Keeps small file r.1 × IsFound small (slot_of 20) r) (bmap small 20 file)
bmap_lem_example = bmap_lem small 20 file file-IsFile (omega arith)

-- A transaction on the log that mkfs lays out.
abbrev opened : Transaction
opened = record { size = 30; outstanding = 1 }

abbrev hundred : ℕ → ℕ
hundred a = 100

abbrev sevens : ℕ → ℕ
sevens q = 7

writei_lem_example :
    Ends opened
      (entries file.disk.logged + 6 * touched 3 10)
      (IsWritei small hundred sevens (λ q. omega arith) opened 0 3 10 file)
      (writei small hundred opened sevens 0 3 10 file)
writei_lem_example =
    writei_lem small hundred sevens (λ q. omega arith) opened 0 3 10 file file-IsFile (omega arith)
      (omega arith)

readi_lem_example :
    Returns
      (IsRead small hundred (content file) 40 2 0 (available 5 2 10) sevens file)
      (readi small hundred sevens 40 2 10 file)
readi_lem_example =
    readi_lem small hundred 40 2 10 sevens file file-IsFile (omega arith) (omega arith)
      (omega arith)

load_inode-iupdate_example : IsSame (load_inode small 0 (iupdate small file)) five_bytes
load_inode-iupdate_example = load_inode-iupdate small file (record {
  type = omega arith;
  major = omega arith;
  minor = omega arith;
  nlink = omega arith;
  size = omega arith;
  addrs = λ k lt. ground arith;
})

itrunc_lem_example : Returns (IsTruncated small file file-IsFile) (itrunc small file)
itrunc_lem_example = itrunc_lem small file file-IsFile

abbrev entry : Entry
entry = record { dev = 1; ref = 1; valid = true; holder = none; ino = five_bytes }

entry-IsUnique : IsUnique (entry ∷ [])
unfolding IsUnique
entry-IsUnique zero zero e e' a b p q d i = refl
entry-IsUnique zero (suc j) e e' a b p q d i = absurd (ground (arith, b))
entry-IsUnique (suc i) j e e' a b p q d n = absurd (ground (arith, a))

iget_lem_example : IsIget 1 0 (entry ∷ []) (iget 1 0 (entry ∷ []))
iget_lem_example = iget_lem 1 0 (entry ∷ []) entry-IsUnique

iput_lem_example : Returns (IsPut small entry six_blocks file-IsFile) (iput small entry six_blocks)
iput_lem_example = iput_lem small entry six_blocks file-IsFile

abbrev held_of : Outcome (Option ℕ × Held) → Held
held_of (done r) = r.1
held_of (panic m) = file

abbrev rewritten : Held
rewritten = held_of (writei small hundred opened sevens 0 3 4 file)

counts_all : writei small hundred opened sevens 0 3 4 file ≡ done (some 4, rewritten)
unfolding writei writei_loop put_bytes bmap ensure_addr grow_size end_write log_guards log_guard
    entries
counts_all = refl

readi-writei_example :
    Returns
      (λ r. (r.0 ≡ some 4) × ((q : ℕ) → r.1 q ≡ blit sevens 50 sevens 0 4 q))
      (readi small hundred sevens 50 3 4 rewritten)
readi-writei_example =
    readi-writei small hundred hundred sevens sevens opened 0 50 3 4 file rewritten
      (λ q. omega arith) file-IsFile file-IsWhole (omega arith) (omega arith) (omega arith)
      counts_all (λ g h. omega arith)
