-- ===== src/Kernel/Log/Recovery.antt =====
-- recover_from_log() at an empty header and at a complete log.
use mit_61810_labs.Prelude.{
  ℕ, ◌<◌, ◌≡◌, ◌≢◌, refl, sym, ◌∙◌, ap, ◌⊎◌, inl, inr, arith, Bool, true, dec_lt, subst,
}
use mit_61810_labs.Kernel.Log.{
  Block, Io, LogState, rounds, install_trans, write_head, read_head, recover_from_log, initlog,
  boot, recover,
}
use mit_61810_labs.Kernel.Log.Copy.{install_loop-none}
use mit_61810_labs.Kernel.Log.Head.{
  write_head-frame, write_head-off, write_head-on, read_head-IsHeader,
}
use mit_61810_labs.Kernel.Log.Phases.{
  IsHome, CanCommit, Old, Mid, New, Carries, install-power, install-frame, install-target,
  install-Mid,
}

module _ (s : LogState) (v : CanCommit s) where
  -- Installing and clearing the header, from a disk whose log is complete.
  pub finish :
      (t : LogState) (r : Bool)
      → Carries s t
      → Mid s t.io.disk
      → let d = (write_head (record (install_trans r t) { n = 0 })).io.disk in
        (Mid s d ⊎ New s d) × (s.n < t.io.power → New s d)
  unfolding install_trans
  finish t r c m = elim (dec_lt s.n t.io.power) [
    | yes on ↦ (inr (complete on), complete)
    | no off ↦ (
      inl (
          subst (Mid s) (sym (write_head-off w (omega (arith, install-power s v t r c))))
            (install-Mid s v t r c m)),
      complete,
    )
  ]
    where
      w : LogState
      w = record (install_trans r t) { n = 0 }

      at_home : (q : ℕ) → IsHome s.start q → t.start ≢ q
      at_home q h e = h 0 (omega arith) (omega (arith, e, c.start))

      complete : s.n < t.io.power → New s (write_head w).io.disk
      complete on = record {
        clean =
            ap (λ q. (write_head w).io.disk q 0) (sym c.start)
            ∙ (write_head-on w (omega arith) (omega (arith, install-power s v t r c))).count;
        logged = λ i hi.
            (write_head-frame w (s.block i) (at_home _ (v.homes i hi))).0
            ∙ install-target s v t r c (omega arith) i hi;
        home = λ q h out.
            (write_head-frame w q (at_home q h)).0 ∙ install-frame s v t r c q out ∙ m.home q h out;
      }

  -- Recovery from a complete log finishes the transaction, or is cut off with the log complete.
  pub recover-Mid :
      (size : ℕ) (d : ℕ → Block) (p : ℕ)
      → Mid s d
      → (Mid s (recover s.start size d p) ⊎ New s (recover s.start size d p))
        × (s.n < p → New s (recover s.start size d p))
  unfolding recover initlog recover_from_log read_head
  recover-Mid size d p m =
      let t0 = record (boot d p) { start = s.start; size = size } in
      let found = read_head-IsHeader t0 (omega (arith, v.fits)) m.header in
      finish (read_head t0) true
        (record { start = refl; count = found.0; entries = found.1; cached = m.logged }) m

-- Recovery from an empty header leaves every other block alone.
pub recover-clean :
    (start size : ℕ) (d : ℕ → Block) (p : ℕ)
    → d start 0 ≡ 0
    → ((q : ℕ) → start ≢ q → recover start size d p q ≡ d q) × (recover start size d p start 0 ≡ 0)
unfolding recover initlog recover_from_log read_head install_trans
recover-clean start size d p h = (λ q ne. (write_head-frame w q ne).0 ∙ ap (λ x. x q) same, empty)
  where
    t : LogState
    t = read_head (record (boot d p) { start = start; size = size })

    w : LogState
    w = record (install_trans true t) { n = 0 }

    same : w.io.disk ≡ d
    same =
        ap (λ (x : Io). x.disk)
          (install_loop-none t.start t.block (rounds t.n) 0 t.io (ap rounds h))

    empty : (write_head w).io.disk start 0 ≡ 0
    empty = elim (dec_lt 0 w.io.power) [
      | yes on ↦ (write_head-on w (omega arith) on).count
      | no off ↦ ap (λ (x : ℕ → Block). x start 0) (write_head-off w (omega arith) ∙ same) ∙ h
    ]

module _ (s : LogState) (v : CanCommit s) (size : ℕ) where
  pub recover-Old : (d : ℕ → Block) (p : ℕ) → Old s d → Old s (recover s.start size d p)
  recover-Old d p o =
      let r = recover-clean s.start size d p o.clean in
      record {
        clean = r.1;
        home = λ q h. r.0 q (λ e. h 0 (omega arith) (omega (arith, e))) ∙ o.home q h;
      }

  pub recover-New : (d : ℕ → Block) (p : ℕ) → New s d → New s (recover s.start size d p)
  recover-New d p w =
      let r = recover-clean s.start size d p w.clean in
      record {
        clean = r.1;
        logged = λ i hi.
            r.0 (s.block i) (λ e. v.homes i hi 0 (omega arith) (omega (arith, e))) ∙ w.logged i hi;
        home = λ q h out. r.0 q (λ e. h 0 (omega arith) (omega (arith, e))) ∙ w.home q h out;
      }
