-- ===== src/Kernel/Fs/Table.antt =====
-- kernel/fs.c: the table of the inodes in memory, with their references and locks.
pub mod Unique
pub mod Put
use mit_61810_labs.Prelude.{
  ℕ, zero, suc, ◌+◌, ◌%◌, ◌^◌, Bool, true, false, not, ◌&&◌, ◌||◌, Option, none, some, List, [],
  ◌∷◌, ltb, ◌==◌, if◌then◌else◌, get_elem?, Outcome, done, panic, ◌>>=◌,
}
use mit_61810_labs.Kernel.Fs.{Superblock, Disk}
use mit_61810_labs.Kernel.Fs.Inode.{Inode, Held, load_inode, iupdate}
use mit_61810_labs.Kernel.Fs.Trunc.{itrunc}

-- `ref > 0` of a 32-bit int.
abbrev pub is_positive : ℕ → Bool
is_positive n = ltb 0 n && ltb n (2 ^ 31)

-- `ref++` and `ref--` of a 32-bit int.
abbrev pub one_more : ℕ → ℕ
one_more n = (n + 1) % 2 ^ 32

abbrev pub one_less : ℕ → ℕ
one_less n = (n + 4294967295) % 2 ^ 32

-- `struct inode`: `ino` is_held_by what is copied from the disk, and the number; `holder` is the process that
-- is_held_by the lock.
pub record Entry : Type 0 where
  pub dev : ℕ
  pub ref : ℕ
  pub valid : Bool
  pub holder : Option ℕ
  pub ino : Inode

abbrev pub is_entry : ℕ → ℕ → Entry → Bool
is_entry dev inum e = is_positive e.ref && (e.dev == dev && e.ino.inum == inum)

abbrev pub remember : Option ℕ → ℕ → Entry → Option ℕ
remember (some j) i e = some j
remember none i e = if e.ref == 0 then some i else none

-- The loop of iget from the entry `i` on: the entry of the inode, and the empty slot.
pub scan_entries : ℕ → ℕ → ℕ → Option ℕ → List Entry → Option ℕ × Option ℕ
scan_entries dev inum i empty [] = (none, empty)
scan_entries dev inum i empty (e ∷ es) =
    let rest = scan_entries dev inum (suc i) (remember empty i e) es in
    if is_entry dev inum e then (some i, empty) else rest

pub alter : ℕ → (Entry → Entry) → List Entry → List Entry
alter i f [] = []
alter zero f (e ∷ es) = f e ∷ es
alter (suc i) f (e ∷ es) = e ∷ alter i f es

abbrev pub reset_entry : ℕ → ℕ → Entry → Entry
reset_entry dev inum e = record e {
  dev = dev;
  ref = 1;
  valid = false;
  ino = record (e.ino) { inum = inum };
}

pub take_entry : ℕ → ℕ → Option ℕ × Option ℕ → List Entry → Outcome (ℕ × List Entry)
unfolding alter
take_entry dev inum (some i, empty) t = done (i, alter i (λ e. record e { ref = one_more e.ref }) t)
take_entry dev inum (none, some i) t = done (i, alter i (reset_entry dev inum) t)
take_entry dev inum (none, none) t = panic "iget: no inodes"

pub iget : ℕ → ℕ → List Entry → Outcome (ℕ × List Entry)
unfolding scan_entries take_entry
iget dev inum t = take_entry dev inum (scan_entries dev inum 0 none t) t

pub idup : ℕ → List Entry → List Entry
unfolding alter
idup i t = alter i (λ e. record e { ref = one_more e.ref }) t

module _ (sb : Superblock) where
  -- ilock once the process `me` has the lock, of an entry of the table.
  pub ilock : ℕ → Entry → Disk → Outcome Entry
  ilock me e d =
      if not (is_positive e.ref)
      then panic "ilock"
      else (if e.valid
          then done (record e { holder = some me })
          else (if (load_inode sb e.ino.inum d).type == 0
              then panic "ilock: no type"
              else done
                  (record e { holder = some me; valid = true; ino = load_inode sb e.ino.inum d })))

  abbrev pub is_held_by : ℕ → Option ℕ → Bool
  is_held_by me none = false
  is_held_by me (some p) = p == me

  pub iunlock : ℕ → Entry → Outcome Entry
  iunlock me e =
      if not (is_held_by me e.holder) || not (is_positive e.ref)
      then panic "iunlock"
      else done (record e { holder = none })

  -- The part of iput for an inode that no link and no other reference leads to.
  pub discard : Entry → Disk → Outcome (Entry × Disk)
  discard e d = itrunc sb (record { ino = e.ino; disk = d }) >>= λ h.
      let ip = record (h.ino) { type = 0 } in
      done (
        record e { valid = false; ino = ip; holder = none },
        iupdate sb (record { ino = ip; disk = h.disk }),
      )

  -- iput on an entry.
  pub iput : Entry → Disk → Outcome (Entry × Disk)
  unfolding discard
  iput e d =
      (if e.ref == 1 && (e.valid && e.ino.nlink == 0) then discard e d else done (e, d)) >>= λ r.
      done (record (r.0) { ref = one_less r.0.ref }, r.1)

  pub iunlockput : ℕ → Entry → Disk → Outcome (Entry × Disk)
  unfolding iunlock iput
  iunlockput me e d = iunlock me e >>= λ e'. iput e' d
