-- ===== src/Kernel/Log/Commit.antt =====
-- commit(): the condition of the disk after any number of its writes.
use mit_61810_labs.Prelude.{
  ℕ, ◌+◌, ◌-◌, ◌*◌, ◌^◌, ◌≤◌, ◌<◌, ◌≡◌, ◌≢◌, refl, sym, ◌∙◌, ap, ◌⊎◌, inl, inr, arith, false,
  dec_lt, subst, lt→ltb,
}
use mit_61810_labs.Kernel.Log.{
  Block, Io, LogState, rounds, write_log, install_trans, write_head, commit,
}
use mit_61810_labs.Kernel.Log.Copy.{copy, write_log_loop-copy, power-copy, copy-frame, copy-target}
use mit_61810_labs.Kernel.Log.Head.{
  rounds-small, write_head-frame, power-write_head, write_head-off, write_head-on,
}
use mit_61810_labs.Kernel.Log.Phases.{
  IsHome, CanCommit, Old, Mid, New, Carries, log_apart, install-power, install-off,
}
use mit_61810_labs.Kernel.Log.Recovery.{finish}

module _ (s : LogState) (v : CanCommit s) where
  logged_io : Io
  logged_io = copy s.block (λ i. s.start + i + 1) s.n 0 s.io

  write_log-io : (write_log s).io ≡ logged_io
  unfolding write_log logged_io
  write_log-io =
      write_log_loop-copy s.start s.block (rounds s.n) 0 s.io
      ∙ ap (λ k. copy s.block (λ i. s.start + i + 1) k 0 s.io)
          (rounds-small s.n (omega (arith, v.fits)))

  logged_power : (write_log s).io.power ≡ s.io.power - s.n
  unfolding logged_io
  logged_power = ap (λ (x : Io). x.power) write_log-io ∙ power-copy _ _ s.n 0 s.io

  -- Outside the log blocks the disk is as before.
  logged_frame :
      (q : ℕ) → ((i : ℕ) → i < s.n → s.start + i + 1 ≢ q) → (write_log s).io.disk q ≡ s.io.disk q
  unfolding logged_io
  logged_frame q out =
      ap (λ (x : Io). x.disk q) write_log-io
      ∙ (copy-frame _ _ s.n 0 s.io q (λ i lo hi. out i (omega arith))).0

  logged_target :
      (i : ℕ)
      → i < s.n
      → ((write_log s).io.cache (s.start + i + 1) ≡ s.io.cache (s.block i))
        × (s.n ≤ s.io.power → (write_log s).io.disk (s.start + i + 1) ≡ s.io.cache (s.block i))
  unfolding logged_io
  logged_target i hi =
      let reached =
        copy-target s.block (λ i. s.start + i + 1) s.n 0 s.io
          (λ a b p q x y. log_apart s v a b (omega arith) (omega arith))
          (λ a b p q x y e. omega (arith, e)) i (omega arith) (omega arith) in
      (
        ap (λ (x : Io). x.cache (s.start + i + 1)) write_log-io ∙ reached.0,
        λ on. ap (λ (x : Io). x.disk (s.start + i + 1)) write_log-io ∙ reached.1 on,
      )

  home_not_log : (q : ℕ) → IsHome s.start q → (i : ℕ) → i < s.n → s.start + i + 1 ≢ q
  home_not_log q h i hi e = h (i + 1) (omega (arith, v.fits)) (omega (arith, e))

  committed : LogState
  committed = write_head (write_log s)

  committed-Carries : Carries s committed
  unfolding committed write_head write_log
  committed-Carries = record {
    start = refl;
    count = refl;
    entries = λ i hi. refl;
    cached = λ i hi.
        (write_head-frame (write_log s) (s.start + i + 1) (omega arith)).1 ∙ (logged_target i hi).0;
  }

  committed-Mid : s.n < s.io.power → Mid s committed.io.disk
  unfolding committed write_log
  committed-Mid on = record {
    header = write_head-on (write_log s) (omega (arith, v.fits)) (omega (arith, logged_power));
    logged = λ i hi.
        (write_head-frame (write_log s) (s.start + i + 1) (omega arith)).0
        ∙ (logged_target i hi).1 (omega arith);
    home = λ q h out.
        (write_head-frame (write_log s) q (λ e. h 0 (omega arith) (omega (arith, e)))).0
        ∙ logged_frame q (home_not_log q h);
  }

  -- The disk when the power fails before the header is written.
  unwritten-Old : s.io.power ≤ s.n → Old s (write_log s).io.disk
  unwritten-Old off = record {
    clean = ap (λ (b : Block). b 0) (logged_frame s.start (λ i hi e. omega (arith, e))) ∙ v.clean;
    home = λ q h. logged_frame q (home_not_log q h);
  }

  commit-runs : commit s ≡ write_head (record (install_trans false committed) { n = 0 })
  unfolding commit committed
  commit-runs = rw (lt→ltb 0 s.n v.nonempty, lt→ltb s.n (2 ^ 31) (omega (arith, v.fits)))

  -- What commit() leaves on the disk after any number of writes.
  pub commit_phases :
      (Old s (commit s).io.disk ⊎ (Mid s (commit s).io.disk ⊎ New s (commit s).io.disk))
      × (2 * s.n + 1 < s.io.power → New s (commit s).io.disk)
  unfolding committed
  commit_phases = elim (dec_lt s.n s.io.power) [
    | yes on ↦
        let end = finish s v committed false committed-Carries (committed-Mid on) in
        rw commit-runs (inr end.0, λ enough. end.1 (omega (arith, committed_power)))
    | no off ↦ rw commit-runs (
      inl (subst (Old s) (sym (stopped (omega arith))) (unwritten-Old (omega arith))),
      λ enough. absurd (omega arith),
    )
  ]
    where
      committed_power : committed.io.power ≡ s.io.power - s.n - 1
      committed_power = rw (power-write_head (write_log s)) (omega (arith, logged_power))

      stopped :
          s.io.power ≤ s.n
          → (write_head (record (install_trans false committed) { n = 0 })).io.disk
            ≡ (write_log s).io.disk
      stopped off =
          write_head-off _
            (omega (arith, install-power s v committed false committed-Carries, committed_power))
          ∙ install-off s v committed false committed-Carries (omega (arith, committed_power))
          ∙ write_head-off (write_log s) (omega (arith, logged_power))
