-- ===== src/Kernel/File/Tests.antt =====
-- Runs on a small file table, and instances of its theorems.
use mit_61810_labs.Prelude.{
  ℕ, zero, suc, ◌≡◌, refl, arith, true, false, [], ◌∷◌, some, none, done, Returns,
}
use mit_61810_labs.Kernel.File.{
  File, Files, fd_none, fd_pipe, filedup, fileclose, close_pipe, sys_dup, sys_close, fdalloc, argfd,
}
use mit_61810_labs.Kernel.File.Counts.{IsCounted, CountedFiles, sys_dup-Counted, sys_close-Counted}

abbrev file : ℕ → File
file refs = record {
  type_ = fd_pipe;
  ref = refs;
  readable = true;
  writable = false;
  pipe = 7;
  ip = 0;
  off = 0;
  major = 0;
}

-- File 0 is held by descriptor 1, and once elsewhere.
abbrev files : Files
files = record { table = file 2 ∷ file 0 ∷ []; ofile = none ∷ some 0 ∷ none ∷ []; released = [] }

abbrev elsewhere : ℕ → ℕ
elsewhere zero = 1
elsewhere (suc f) = 0

files-IsCounted : IsCounted elsewhere files.table files.ofile
files-IsCounted zero = refl
files-IsCounted (suc zero) = refl
files-IsCounted (suc (suc f)) = ground arith

dup_then_close :
    sys_dup 1 files
    ≡ done
        (some 0, record files { table = file 3 ∷ file 0 ∷ []; ofile = some 0 ∷ some 0 ∷ none ∷ [] })
unfolding sys_dup argfd fdalloc filedup
dup_then_close = refl

last_close :
    fileclose 0 (file 1 ∷ []) ≡ done (close_pipe 7 false, record (file 0) { type_ = fd_none } ∷ [])
unfolding fileclose
last_close = refl

sys_dup-Counted_example : Returns (CountedFiles elsewhere) (sys_dup 1 files)
sys_dup-Counted_example = sys_dup-Counted elsewhere 1 files files-IsCounted

sys_close-Counted_example : Returns (CountedFiles elsewhere) (sys_close 1 files)
sys_close-Counted_example = sys_close-Counted elsewhere 1 files files-IsCounted
