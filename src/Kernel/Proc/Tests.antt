-- ===== src/Kernel/Proc/Tests.antt =====
-- Runs on a small process table, and instances of its theorems.
use mit_61810_labs.Prelude.{
  ℕ, zero, suc, ◌+◌, ◌<◌, ◌≡◌, refl, arith, true, false, List, [], ◌∷◌, some, none, get_elem?,
  Returns,
}
use mit_61810_labs.Kernel.Vma.{no_area}
use mit_61810_labs.Kernel.Proc.{
  Proc, ProcState, Family, unused, sleeping, running, runnable, zombie, wakeup, reparent, allocproc,
  first_has_areas, is_unused,
}
use mit_61810_labs.Kernel.Proc.Wakeup.{IsWokenEntry, wakeup_lem}
use mit_61810_labs.Kernel.Proc.Pids.{HasFreshPids, allocproc-HasFreshPids}
use mit_61810_labs.Kernel.Proc.Children.{parent_of, reparent_lem}

-- A process with the id `pid`, whose parent is the table's first entry, and with a mapped area.
abbrev process : ℕ → ProcState → ℕ → Proc
process pid state chan = record {
  state = state;
  chan = chan;
  killed = false;
  xstate = 0;
  pid = pid;
  parent = some 0;
  sz = 4096;
  pagetable = 8192;
  next_start = 0;
  vm_areas = [];
  trapframe = none;
  ofile = [];
  cwd = none;
  name = [];
}

abbrev mapped : Proc
mapped = record (process 1 running 0) { vm_areas = record no_area { length_ = 4096 } ∷ [] }

abbrev procs : List Proc
procs = process 1 running 0 ∷ process 2 sleeping 7 ∷ process 3 zombie 0 ∷ process 0 unused 0 ∷ []

abbrev mapped_procs : List Proc
mapped_procs = mapped ∷ process 0 unused 0 ∷ []

numbered :
    (i : ℕ) (p : Proc)
    → get_elem? procs i ≡ some p
    → is_unused p.state ≡ false
    → (p.pid ≡ suc i) × (i < 3)
numbered zero p e u = ground (arith, e)
numbered (suc zero) p e u = ground (arith, e)
numbered (suc (suc zero)) p e u = ground (arith, e)
numbered (suc (suc (suc zero))) p e u = ground (arith, e)
numbered (suc (suc (suc (suc i)))) p e u = ground arith

procs-HasFreshPids : HasFreshPids procs 4
procs-HasFreshPids = record {
  below = λ i p e u. omega (arith, numbered i p e u);
  distinct = λ i j p q e f u w h. omega (arith, numbered i p e u, numbered j q f w);
}

wakeup_one :
    wakeup (some 0) 7 procs
    ≡ process 1 running 0 ∷ process 2 runnable 7 ∷ process 3 zombie 0 ∷ process 0 unused 0 ∷ []
unfolding wakeup
wakeup_one = refl

wakeup_lem_example :
    IsWokenEntry (some 0) 7 1 (get_elem? procs 1) (get_elem? (wakeup (some 0) 7 procs) 1)
wakeup_lem_example = wakeup_lem (some 0) 7 procs 1

abbrev family : Family
family = record { procs = procs; init = 2; address = λ i. 1000 + i }

reparent_lem_example : parent_of (get_elem? (reparent 0 (some 0) family).procs 1) ≡ some (some 2)
reparent_lem_example = reparent_lem 0 (some 0) family 1 (omega arith)

allocproc-HasFreshPids_example :
    Returns
      (λ (r, s'). HasFreshPids s'.table s'.nextpid)
      (allocproc true 8192 (record { table = procs; nextpid = 4 }))
unfolding first_has_areas
allocproc-HasFreshPids_example =
    allocproc-HasFreshPids true 8192 (record { table = procs; nextpid = 4 }) refl (omega arith)
      procs-HasFreshPids
