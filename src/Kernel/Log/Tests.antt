-- ===== src/Kernel/Log/Tests.antt =====
-- Runs of the log on small disks, and instances of its theorems.
use mit_61810_labs.Prelude.{ℕ, ◌≡◌, refl, ◌⊎◌, arith, List, [], ◌∷◌, update, Returns}
use mit_61810_labs.Kernel.Log.{
  Block, LogState, commit, recover, reboots, boot, bwrite, move_block, write_log, write_log_loop,
  write_head, install_trans, install_loop, put_words, unpin_loop, bunpin, read_head, get_words,
  recover_from_log, initlog,
}
use mit_61810_labs.Kernel.Log.Phases.{CanCommit}
use mit_61810_labs.Kernel.Log.Crash.{NothingShows, AllShows, commit_crash_atomic}
use mit_61810_labs.Kernel.Log.Reserve.{
  IsReserved, working, Event, begin, write, finish, flush, leave, Load, run, run-IsReserved,
}

abbrev blank : ℕ → Block
blank b w = 0

-- One logged block, 50, whose words are all 7 in the cache.
abbrev one_logged : ℕ → LogState
one_logged power =
    let s = boot blank power in
    record s {
      io = record s.io { cache = update blank 50 (λ w. 7) };
      start = 2;
      size = 31;
      n = 1;
      block = λ i. 50;
    }

one_logged-CanCommit : (power : ℕ) → CanCommit (one_logged power)
one_logged-CanCommit power = record {
  nonempty = omega arith;
  fits = omega arith;
  homes = λ i h j l. omega arith;
  distinct = λ i j p q e. omega arith;
  clean = refl;
}

commit_crash_atomic_example :
    let d = recover 2 31 (reboots 2 31 (commit (one_logged 2)).io.disk (1 ∷ [])) 3 in
    NothingShows (one_logged 2) d ⊎ AllShows (one_logged 2) d
commit_crash_atomic_example =
    commit_crash_atomic (one_logged 2) (one_logged-CanCommit 2) 31 (1 ∷ []) 3 (omega arith)

-- With two writes the header is on disk, and recovery installs block 50.
after_two_writes : recover 2 31 (commit (one_logged 2)).io.disk 5 50 3 ≡ 7
unfolding recover commit write_log write_log_loop write_head install_trans install_loop put_words
    bwrite move_block unpin_loop bunpin read_head get_words recover_from_log initlog
after_two_writes = refl

-- With one write it is not, and block 50 stays as it was.
after_one_write : recover 2 31 (commit (one_logged 1)).io.disk 5 50 3 ≡ 0
unfolding recover commit write_log write_log_loop write_head install_trans install_loop put_words
    bwrite move_block unpin_loop bunpin read_head get_words recover_from_log initlog
after_one_write = refl

-- The log of the disk that mkfs lays out.
abbrev quiet : Load
quiet = record {
  log = record (boot blank 100) { start = 2; size = 30 };
  used = [];
  phase = working;
}

-- A call that wants to begin while the other's commit is under way.
abbrev events : List Event
events =
    begin
    ∷ write 0 50
    ∷ begin
    ∷ write 1 51
    ∷ finish 0
    ∷ finish 0
    ∷ begin
    ∷ flush
    ∷ begin
    ∷ leave
    ∷ begin
    ∷ []

run-IsReserved_example : Returns (IsReserved 9) (run 9 events quiet)
run-IsReserved_example = run-IsReserved 9 (omega arith) events quiet (record {
  count = refl;
  few = omega arith;
  flag = refl;
  alone = λ e. refl;
  room = omega arith;
  size = omega arith;
})
