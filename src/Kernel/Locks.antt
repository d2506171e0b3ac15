-- ===== src/Kernel/Locks.antt =====
-- kernel/spinlock.c and kernel/sleeplock.c: a lock, and the interrupts of the CPU that takes it.
pub mod Nesting
mod Tests
use mit_61810_labs.Prelude.{
  ℕ, zero, suc, ◌+◌, ◌-◌, ◌%◌, ◌^◌, Bool, true, false, not, ◌&&◌, ◌||◌, Option, none, some, ltb,
  leb, ◌==◌, if◌then◌else◌, Outcome, done, panic, ◌>>=◌,
}

-- A CPU: whether interrupts are on, the depth of push_off, and whether they were on before the first.
pub record Cpu : Type 0 where
  pub intr : Bool
  pub noff : ℕ
  pub intena : Bool

-- `struct spinlock`; `cpu` is the index of the CPU that holds it, `none` for 0.
pub record Lock : Type 0 where
  pub locked : Bool
  pub cpu : Option ℕ

-- `noff` is an `int`; its depth stays far below 2^31.
pub push_off : Cpu → Cpu
push_off c = record c {
  intr = false;
  intena = if c.noff == 0 then c.intr else c.intena;
  noff = (c.noff + 1) % 2 ^ 32;
}

pub pop_off : Cpu → Outcome Cpu
pop_off c =
    if c.intr
    then panic "pop_off - interruptible"
    else if c.noff == 0 || leb (2 ^ 31) c.noff
    then panic "pop_off"
    else done (record c {
      noff = c.noff - 1;
      intr = if (c.noff - 1 == 0) && c.intena then true else c.intr;
    })

pub initlock : Lock
initlock = record { locked = false; cpu = none }

pub holding : ℕ → Lock → Bool
holding me lk = lk.locked && elim lk.cpu [ none ↦ false | some c ↦ c == me ]

-- acquire up to its loop.
pub acquire_enter : ℕ → Lock → Cpu → Outcome Cpu
acquire_enter me lk c = if holding me lk then panic "acquire" else done (push_off c)

-- One round of the loop: the swap, and where it finds the lock free, the note of the CPU.
pub acquire_try : ℕ → Lock → Option Lock
acquire_try me lk = if lk.locked then none else some (record { locked = true; cpu = some me })

pub release : ℕ → Lock → Cpu → Outcome (Lock × Cpu)
release me lk c =
    if not (holding me lk)
    then panic "release"
    else pop_off c >>= λ c'. done (record { locked = false; cpu = none }, c')

-- `struct sleeplock`, seen under its spin lock; `wakes` counts the calls of wakeup.
pub record SleepLock : Type 0 where
  pub taken : Bool
  pub pid : ℕ
  pub wakes : ℕ

-- A run of acquiresleep, `none` for a call of sleep.
pub acquiresleep : ℕ → SleepLock → Option SleepLock
acquiresleep pid lk = if lk.taken then none else some (record lk { taken = true; pid = pid })

pub releasesleep : SleepLock → SleepLock
releasesleep lk = record lk { taken = false; pid = 0; wakes = lk.wakes + 1 }

pub holdingsleep : ℕ → SleepLock → Bool
holdingsleep pid lk = lk.taken && (lk.pid == pid)
