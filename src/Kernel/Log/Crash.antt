-- ===== src/Kernel/Log/Crash.antt =====
-- Crash recovery: commit() and recover_from_log() cut off after any number of disk writes.
use mit_61810_labs.Prelude.{ℕ, ◌+◌, ◌*◌, ◌<◌, ◌≡◌, ◌⊎◌, inl, inr, List, [], ◌∷◌}
use mit_61810_labs.Kernel.Log.{Block, LogState, commit, recover, reboots}
use mit_61810_labs.Kernel.Log.Phases.{IsHome, NotLogged, CanCommit, Old, Mid, New}
use mit_61810_labs.Kernel.Log.Recovery.{recover-Mid, recover-Old, recover-New}
use mit_61810_labs.Kernel.Log.Commit.{commit_phases}

-- Nothing of the transaction shows at home, or all of it does.
abbrev pub NothingShows : LogState → (ℕ → Block) → Type 0
NothingShows s d = (q : ℕ) → IsHome s.start q → d q ≡ s.io.disk q

abbrev pub AllShows : LogState → (ℕ → Block) → Type 0
AllShows s d =
    ((i : ℕ) → i < s.n → d (s.block i) ≡ s.io.cache (s.block i))
    × ((q : ℕ) → IsHome s.start q → NotLogged s q → d q ≡ s.io.disk q)

module _ (s : LogState) (v : CanCommit s) (size : ℕ) where
  -- A start of the machine, cut off or not, stays within the three conditions.
  reboots_phases :
      (ps : List ℕ) (d : ℕ → Block)
      → Old s d ⊎ (Mid s d ⊎ New s d)
      → Old s (reboots s.start size d ps)
        ⊎ (Mid s (reboots s.start size d ps) ⊎ New s (reboots s.start size d ps))
  unfolding reboots
  reboots_phases [] d x = x
  reboots_phases (p ∷ ps) d (inl o) = reboots_phases ps _ (inl (recover-Old s v size d p o))
  reboots_phases (p ∷ ps) d (inr (inl m)) = reboots_phases ps _ (inr (recover-Mid s v size d p m).0)
  reboots_phases (p ∷ ps) d (inr (inr w)) =
      reboots_phases ps _ (inr (inr (recover-New s v size d p w)))

  last_start :
      (d : ℕ → Block) (p : ℕ)
      → s.n < p
      → Old s d ⊎ (Mid s d ⊎ New s d)
      → NothingShows s (recover s.start size d p) ⊎ AllShows s (recover s.start size d p)
  last_start d p on (inl o) = inl (recover-Old s v size d p o).home
  last_start d p on (inr (inl m)) =
      let w = (recover-Mid s v size d p m).1 on in inr (w.logged, w.home)
  last_start d p on (inr (inr w)) = let w' = recover-New s v size d p w in inr (w'.logged, w'.home)

  -- For a transaction that can be committed (CanCommit: some blocks are logged, no more than LOGSIZE, each
  -- once and none within the log, and the header on disk is clear): cut off commit() after any number of disk writes, and any starts of the machine after any
  -- number of theirs: the first start that has more writes than the log has blocks leaves the home
  -- blocks all as before the commit, or all as committed and the others as before.
  pub commit_crash_atomic :
      (ps : List ℕ) (p : ℕ)
      → s.n < p
      → let d = recover s.start size (reboots s.start size (commit s).io.disk ps) p in
        NothingShows s d ⊎ AllShows s d
  commit_crash_atomic ps p on =
      last_start _ p on (reboots_phases ps (commit s).io.disk (commit_phases s v).0)

  -- With power for 2 n + 2 writes commit() puts every logged block in place on the disk, leaves the
  -- other home blocks as they were, and leaves an empty header.
  pub commit_installs :
      2 * s.n + 1 < s.io.power → AllShows s (commit s).io.disk × ((commit s).io.disk s.start 0 ≡ 0)
  commit_installs on = let w = (commit_phases s v).1 on in ((w.logged, w.home), w.clean)
