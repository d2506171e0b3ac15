-- ===== src/Kernel/Log/Phases.antt =====
-- The three conditions of the disk in which commit() and recover_from_log() can be cut off.
use mit_61810_labs.Prelude.{ℕ, ◌+◌, ◌-◌, ◌≤◌, ◌<◌, ◌≡◌, ◌≢◌, sym, ◌∙◌, ap, arith, Bool, subst}
use mit_61810_labs.Kernel.Log.{Block, Io, LogState, rounds, log_capacity, install_trans}
use mit_61810_labs.Kernel.Log.Copy.{
  copy, install_loop-copy, power-copy, disk-copy-off, copy-frame, copy-target,
}
use mit_61810_labs.Kernel.Log.Head.{IsHeader, rounds-small}

-- The block lies outside the header and the log blocks.
abbrev pub IsHome : ℕ → ℕ → Type 0
IsHome start q = (j : ℕ) → j ≤ log_capacity → start + j ≢ q

abbrev pub NotLogged : LogState → ℕ → Type 0
NotLogged s q = (i : ℕ) → i < s.n → s.block i ≢ q

-- What commit() relies on: the list in memory is a list of distinct home blocks that fits, and the
-- header on disk is empty.
pub record CanCommit (s : LogState) : Type 0 where
  pub nonempty : 0 < s.n
  pub fits : s.n ≤ log_capacity
  pub homes : (i : ℕ) → i < s.n → IsHome s.start (s.block i)
  pub distinct : (i j : ℕ) → i < s.n → j < s.n → s.block i ≡ s.block j → i ≡ j
  pub clean : s.io.disk s.start 0 ≡ 0

-- Against the state `s` before the commit: nothing has happened yet,
pub record Old (s : LogState) (d : ℕ → Block) : Type 0 where
  pub clean : d s.start 0 ≡ 0
  pub home : (q : ℕ) → IsHome s.start q → d q ≡ s.io.disk q

-- the log is complete and the header names it,
pub record Mid (s : LogState) (d : ℕ → Block) : Type 0 where
  pub header : IsHeader s.n s.block (d s.start)
  pub logged : (i : ℕ) → i < s.n → d (s.start + i + 1) ≡ s.io.cache (s.block i)
  pub home : (q : ℕ) → IsHome s.start q → NotLogged s q → d q ≡ s.io.disk q

-- or everything is in place and the header is empty again.
pub record New (s : LogState) (d : ℕ → Block) : Type 0 where
  pub clean : d s.start 0 ≡ 0
  pub logged : (i : ℕ) → i < s.n → d (s.block i) ≡ s.io.cache (s.block i)
  pub home : (q : ℕ) → IsHome s.start q → NotLogged s q → d q ≡ s.io.disk q

-- `t` works on the transaction of `s`, and its cache holds the log blocks.
pub record Carries (s t : LogState) : Type 0 where
  pub start : t.start ≡ s.start
  pub count : t.n ≡ s.n
  pub entries : (i : ℕ) → i < s.n → t.block i ≡ s.block i
  pub cached : (i : ℕ) → i < s.n → t.io.cache (s.start + i + 1) ≡ s.io.cache (s.block i)

module _ (s : LogState) (v : CanCommit s) where
  -- No log block is a home block of the list.
  pub log_apart : (i j : ℕ) → i < s.n → j < s.n → s.start + i + 1 ≢ s.block j
  log_apart i j hi hj e = v.homes j hj (i + 1) (omega (arith, v.fits)) (omega (arith, e))

  module _ (t : LogState) (r : Bool) (c : Carries s t) where
    io : Io
    io = copy (λ i. t.start + i + 1) t.block s.n 0 t.io

    install-io : (install_trans r t).io ≡ io
    unfolding install_trans io
    install-io =
        install_loop-copy t.start t.block (rounds t.n) 0 t.io
        ∙ ap (λ k. copy (λ i. t.start + i + 1) t.block k 0 t.io)
            (omega (arith, ap rounds c.count, rounds-small s.n (omega (arith, v.fits))))

    target_ne : (q : ℕ) → NotLogged s q → (i : ℕ) → 0 ≤ i → i < 0 + s.n → t.block i ≢ q
    target_ne q out i lo hi e = out i (omega arith) (sym (c.entries i (omega arith)) ∙ e)

    pub install-power : (install_trans r t).io.power ≡ t.io.power - s.n
    unfolding io
    install-power = ap (λ (x : Io). x.power) install-io ∙ power-copy _ _ s.n 0 t.io

    pub install-off : t.io.power ≡ 0 → (install_trans r t).io.disk ≡ t.io.disk
    unfolding io
    install-off h = ap (λ (x : Io). x.disk) install-io ∙ disk-copy-off _ _ s.n 0 t.io h

    pub install-frame : (q : ℕ) → NotLogged s q → (install_trans r t).io.disk q ≡ t.io.disk q
    unfolding io
    install-frame q out =
        ap (λ (x : Io). x.disk q) install-io ∙ (copy-frame _ _ s.n 0 t.io q (target_ne q out)).0

    -- With enough power every block of the list reaches its home.
    pub install-target :
        s.n ≤ t.io.power
        → (i : ℕ) → i < s.n
        → (install_trans r t).io.disk (s.block i) ≡ s.io.cache (s.block i)
    unfolding io
    install-target on i hi =
        let reached =
          (copy-target (λ i. t.start + i + 1) t.block s.n 0 t.io
              (λ a b p q x y e.
                log_apart b a (omega arith) (omega arith)
                  (omega (arith, e, c.entries a (omega arith), c.start)))
              (λ a b p q x y e.
                v.distinct a b (omega arith) (omega arith)
                  (sym (c.entries a (omega arith)) ∙ e ∙ c.entries b (omega arith)))
              i (omega arith) (omega arith)).1
            on in
        ap (λ (x : Io). x.disk (s.block i)) install-io
        ∙ ap (λ q. io.disk q) (sym (c.entries i hi))
        ∙ reached
        ∙ ap (λ q. t.io.cache q) (omega (arith, c.start))
        ∙ c.cached i hi

    pub install-Mid : Mid s t.io.disk → Mid s (install_trans r t).io.disk
    install-Mid m = record {
      header =
          subst (IsHeader s.n s.block)
            (sym
              (install-frame s.start (λ i hi e. v.homes i hi 0 (omega arith) (omega (arith, e)))))
            m.header;
      logged = λ i hi.
          install-frame (s.start + i + 1) (λ j hj e. log_apart i j hi hj (sym e)) ∙ m.logged i hi;
      home = λ q h out. install-frame q out ∙ m.home q h out;
    }
