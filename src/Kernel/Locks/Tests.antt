-- ===== src/Kernel/Locks/Tests.antt =====
-- An instance of the theorem on locks: a CPU with interrupts on takes a free lock.
use mit_61810_labs.Prelude.{ℕ, ◌≡◌, ◌==◌, refl, arith, true, false, some, none, Returns}
use mit_61810_labs.Kernel.Locks.{Cpu, push_off, initlock, holding, acquire_try, release}
use mit_61810_labs.Kernel.Locks.Nesting.{IsCpu, Restored, release-acquire_try}

abbrev cpu : Cpu
cpu = record { intr = true; noff = 0; intena = false }

cpu-IsCpu : IsCpu cpu
cpu-IsCpu = record { off = λ h. absurd (omega (arith, h)); depth = omega arith }

release-acquire_try_example :
    (false ≡ false)
    × ((other : ℕ) → holding other (record { locked = true; cpu = some 3 }) ≡ (3 == other))
    × Returns
        (λ (l, c'). (l ≡ initlock) × Restored cpu c')
        (release 3
          (record { locked = true; cpu = some 3 })
          (record { intr = false; noff = 1; intena = true }))
unfolding acquire_try push_off
release-acquire_try_example =
    release-acquire_try 3 (record { locked = false; cpu = none })
      (record { locked = true; cpu = some 3 }) cpu
      (record { intr = false; noff = 1; intena = true }) cpu-IsCpu refl
      (record { noff = refl; intr = refl; intena = λ h. refl })
