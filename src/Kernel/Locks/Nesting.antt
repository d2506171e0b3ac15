-- ===== src/Kernel/Locks/Nesting.antt =====
-- push_off and pop_off nest, and acquire and release match.
use mit_61810_labs.Prelude.{
  ℕ, ◌+◌, ◌-◌, ◌^◌, ◌<◌, ◌≡◌, refl, sym, subst, ◌∙◌, arith, inl, inr, Bool, true, false, ◌||◌, none,
  some, leb, ◌==◌, if◌then◌else◌, Bool-cases, Returns, Returns-map, ==_refl,
}
use mit_61810_labs.Kernel.Locks.{
  Cpu, Lock, push_off, pop_off, holding, acquire_try, release, initlock,
}

-- Interrupts are off where the depth is positive.
pub record IsCpu (c : Cpu) : Type 0 where
  pub off : 0 < c.noff → c.intr ≡ false
  pub depth : c.noff + 1 < 2 ^ 31

-- The same interrupts, to the same depth, and the same memory of them where it counts.
pub record Restored (c c' : Cpu) : Type 0 where
  pub noff : c'.noff ≡ c.noff
  pub intr : c'.intr ≡ c.intr
  pub intena : 0 < c.noff → c'.intena ≡ c.intena

-- A pop_off on a CPU that is as push_off left it restores what was before.
pub pop_off-push_off :
    (c d : Cpu) → IsCpu c → Restored (push_off c) d → Returns (Restored c) (pop_off d)
unfolding push_off pop_off
pop_off-push_off c d v r =
    let deep : d.noff ≡ c.noff + 1 = omega (arith, r.noff, v.depth) in
    let ok : (d.noff == 0 || leb (2 ^ 31) d.noff) ≡ false = ground (arith, v.depth) in
    let quiet : d.intr ≡ false = r.intr in
    elim (Bool-cases (c.noff == 0)) [
      | inl outer ↦
          let zero_ : c.noff ≡ 0 = ground arith in
          let last : (d.noff - 1 == 0) ≡ true = ground arith in
          let kept : d.intena ≡ c.intr = r.intena (omega (arith, zero_)) ∙ rw outer refl in
          rw (quiet, ok, last, kept)
            record {
              noff = omega arith;
              intr = ground arith;
              intena = λ p. absurd (omega (arith, zero_));
            }
      | inr inner ↦
          let pos : 0 < c.noff = ground arith in
          let more : (d.noff - 1 == 0) ≡ false = ground arith in
          let kept : d.intena ≡ c.intena = r.intena (omega (arith, v.depth)) ∙ rw inner refl in
          rw (quiet, ok, more)
            record { noff = omega arith; intr = sym (v.off pos); intena = λ p. kept }
    ]

-- A CPU takes a lock that it finds free, comes to its release with the interrupts as acquire left
-- them, and does not panic there: the lock is free again, and the interrupts and the depth are as
-- before acquire. In between, interrupts are off and holding says so to this CPU alone.
pub release-acquire_try :
    (me : ℕ) (lk lk' : Lock) (c d : Cpu)
    → IsCpu c
    → acquire_try me lk ≡ some lk'
    → Restored (push_off c) d
    → (d.intr ≡ false)
      × ((other : ℕ) → holding other lk' ≡ (me == other))
      × Returns (λ (l, c'). (l ≡ initlock) × Restored c c') (release me lk' d)
unfolding acquire_try release holding initlock push_off
release-acquire_try me lk lk' c d v e r =
    subst
      (λ l.
        (d.intr ≡ false)
        × ((other : ℕ) → holding other l ≡ (me == other))
        × Returns (λ (l', c'). (l' ≡ initlock) × Restored c c') (release me l d))
      (acquired lk.locked e)
      (
        r.intr,
        λ other. refl,
        rw (==_refl me) (
            Returns-map (λ (u : Lock × Cpu). (u.0 ≡ initlock) × Restored c u.1)
              (λ c'. (record { locked = false; cpu = none }, c')) (pop_off d)
              (pop_off-push_off c d v r) (λ c' u. (refl, u))),
      )
  where
    acquired :
        (b : Bool)
        → (if b then none else some (record { locked = true; cpu = some me })) ≡ some lk'
        → record { locked = true; cpu = some me } ≡ lk'
    acquired true f = ground arith
    acquired false f = cc
