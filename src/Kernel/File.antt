-- ===== src/Kernel/File.antt =====
-- kernel/file.c: the table of open files and its reference counts; kernel/sysfile.c: descriptors.
-- A `struct file *` is an index into the table. A section under ftable.lock is one step.
pub mod Alloc
pub mod Counts
mod Tests
use mit_61810_labs.Prelude.{
  ℕ, zero, suc, ◌+◌, ◌-◌, ◌^◌, ◌≤◌, ◌<◌, Bool, true, false, not, ◌||◌, Option, none, some, List, [],
  ◌∷◌, ltb, leb, ◌==◌, if◌then◌else◌, get_elem?, set, Outcome, done, panic, ◌>>=◌,
}

pub data FileType : Type 0 where
  fd_none fd_pipe fd_inode fd_device : FileType

-- `struct file`. `ref` is never negative here: every decrement is guarded.
pub record File : Type 0 where
  pub type_ : FileType
  pub ref : ℕ
  pub readable : Bool
  pub writable : Bool
  pub pipe : ℕ
  pub ip : ℕ
  pub off : ℕ
  pub major : ℕ

-- What `fileclose` does with the last reference, after it has unlocked the table: `pipeclose` on a
-- pipe, or `iput` on an inode.
pub data Release : Type 0 where
  keep : Release
  close_pipe : ℕ → Bool → Release
  put_inode : ℕ → Release

-- `none`: every entry is in use.
pub filealloc : List File → Option (ℕ × List File)
filealloc [] = none
filealloc (f ∷ fs) =
    if f.ref == 0
    then some (0, record f { ref = 1 } ∷ fs)
    else elim (filealloc fs) [ none ↦ none | some (i, fs') ↦ some (suc i, f ∷ fs') ]

-- An index outside the table is no file.
dup_entry : Option File → ℕ → List File → Outcome (List File)
dup_entry none i t = panic "filedup"
dup_entry (some f) i t =
    if ltb f.ref 1 then panic "filedup" else done (set t i (record f { ref = f.ref + 1 }))

pub filedup : ℕ → List File → Outcome (List File)
unfolding dup_entry
filedup i t = dup_entry (get_elem? t i) i t

pub release_of : FileType → File → Release
release_of fd_none f = keep
release_of fd_pipe f = close_pipe f.pipe f.writable
release_of fd_inode f = put_inode f.ip
release_of fd_device f = put_inode f.ip

close_entry : Option File → ℕ → List File → Outcome (Release × List File)
close_entry none i t = panic "fileclose"
close_entry (some f) i t =
    if ltb f.ref 1
    then panic "fileclose"
    else if ltb 0 (f.ref - 1)
    then done (keep, set t i (record f { ref = f.ref - 1 }))
    else done (release_of f.type_ f, set t i (record f { ref = 0; type_ = fd_none }))

pub fileclose : ℕ → List File → Outcome (Release × List File)
unfolding close_entry release_of
fileclose i t = close_entry (get_elem? t i) i t

-- NOFILE
abbrev pub nofile : ℕ
nofile = 16

-- `p->ofile`
abbrev pub OpenFiles : Type 0
OpenFiles = List (Option ℕ)

-- `*pf = f` and `return 0`, or `none` for -1. The descriptor is an `int` as a bit pattern.
unfoldable pub argfd : ℕ → OpenFiles → Option ℕ
argfd fd ofile =
    if leb (2 ^ 31) fd || leb nofile fd
    then none
    else elim (get_elem? ofile fd) [ none ↦ none | some slot ↦ slot ]

pub fdalloc : ℕ → OpenFiles → Option (ℕ × OpenFiles)
fdalloc f [] = none
fdalloc f (some g ∷ os) = elim (fdalloc f os) [
  | none ↦ none
  | some (fd, os') ↦ some (suc fd, some g ∷ os')
]
fdalloc f (none ∷ os) = some (0, some f ∷ os)

-- The file table and one process's descriptors; `released` lists what `fileclose` released.
pub record Files : Type 0 where
  pub table : List File
  pub ofile : OpenFiles
  pub released : List Release

-- The result is what the call returns, `none` for -1.
dup_to : ℕ → Option (ℕ × OpenFiles) → Files → Outcome (Option ℕ × Files)
dup_to f none s = done (none, s)
dup_to f (some (fd, os)) s =
    filedup f s.table >>= λ t. done (some fd, record s { table = t; ofile = os })

dup_file : Option ℕ → Files → Outcome (Option ℕ × Files)
dup_file none s = done (none, s)
dup_file (some f) s = dup_to f (fdalloc f s.ofile) s

pub sys_dup : ℕ → Files → Outcome (Option ℕ × Files)
unfolding dup_file dup_to
sys_dup fd s = dup_file (argfd fd s.ofile) s

close_file : Option ℕ → ℕ → Files → Outcome (Option ℕ × Files)
close_file none fd s = done (none, s)
close_file (some f) fd s = do
  (r, t) ← fileclose f s.table
  done (some 0, record { table = t; ofile = set s.ofile fd none; released = r ∷ s.released })

pub sys_close : ℕ → Files → Outcome (Option ℕ × Files)
unfolding close_file
sys_close fd s = close_file (argfd fd s.ofile) fd s
