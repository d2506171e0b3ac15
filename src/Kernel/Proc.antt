-- ===== src/Kernel/Proc.antt =====
-- kernel/proc.c: the process table. A `struct proc *` is an index into it. What runs under one
-- process's lock is one step; a loop over the table takes its entries in order.
pub mod Wakeup
pub mod Alloc
pub mod Pids
pub mod Children
mod Tests
use mit_61810_labs.Prelude.{
  ℕ, zero, suc, ◌+◌, ◌*◌, ◌%◌, ◌^◌, Bool, true, false, ◌&&◌, ◌||◌, get_elem?, set, length, Outcome,
  done, panic, ◌>>=◌, not, Option, none, some, List, [], ◌∷◌, ◌==◌, if◌then◌else◌,
}
use mit_61810_labs.Kernel.Vma.{VmArea, any_in_use, wipe}
use mit_61810_labs.Kernel.File.{OpenFiles}

pub data ProcState : Type 0 where
  unused used sleeping runnable running zombie : ProcState

-- Saved registers: `a0`, and the others by their offsets.
pub record Trapframe : Type 0 where
  pub a0 : ℕ
  pub others : ℕ → ℕ

-- `struct proc` but for the lock, kstack and context. `chan` and `pagetable` are 0 for NULL.
pub record Proc : Type 0 where
  pub state : ProcState
  pub chan : ℕ
  pub killed : Bool
  pub xstate : ℕ
  pub pid : ℕ
  pub parent : Option ℕ
  pub sz : ℕ
  pub pagetable : ℕ
  pub next_start : ℕ
  pub vm_areas : List VmArea
  pub trapframe : Option Trapframe
  pub ofile : OpenFiles
  pub cwd : Option ℕ
  pub name : List ℕ

-- An entry of a table that is zero, as freeproc leaves it but for the open files and `cwd`.
abbrev pub cleared : Proc → Proc
cleared p = record p {
  state = unused;
  chan = 0;
  killed = false;
  xstate = 0;
  pid = 0;
  parent = none;
  sz = 0;
  pagetable = 0;
  trapframe = none;
  name = [];
}

abbrev pub is_unused : ProcState → Bool
is_unused unused = true
is_unused used = false
is_unused sleeping = false
is_unused runnable = false
is_unused running = false
is_unused zombie = false

abbrev pub is_sleeping : ProcState → Bool
is_sleeping unused = false
is_sleeping used = false
is_sleeping sleeping = true
is_sleeping runnable = false
is_sleeping running = false
is_sleeping zombie = false

abbrev pub is_zombie : ProcState → Bool
is_zombie unused = false
is_zombie used = false
is_zombie sleeping = false
is_zombie runnable = false
is_zombie running = false
is_zombie zombie = true

abbrev pub is_child_of : ℕ → Proc → Bool
is_child_of p pp = elim pp.parent [ none ↦ false | some q ↦ q == p ]

-- What one round of the loop of wakeup does to an entry other than the caller's.
pub wake_entry : ℕ → Proc → Proc
wake_entry chan p =
    if is_sleeping p.state && (p.chan == chan) then record p { state = runnable } else p

-- The loop from index `i` on; `self` is `myproc()`, `none` on a CPU that runs no process.
pub wakeup_from : Option ℕ → ℕ → ℕ → List Proc → List Proc
wakeup_from self chan i [] = []
wakeup_from self chan i (p ∷ ps) =
    (elim self [ none ↦ wake_entry chan p | some me ↦ if i == me then p else wake_entry chan p ])
    ∷ wakeup_from self chan (suc i) ps

pub wakeup : Option ℕ → ℕ → List Proc → List Proc
unfolding wake_entry wakeup_from
wakeup self chan ps = wakeup_from self chan 0 ps

-- `none` is the result -1.
pub kill : ℕ → List Proc → Option (List Proc)
kill pid [] = none
kill pid (p ∷ ps) =
    if p.pid == pid
    then some (
        (if is_sleeping p.state
          then record p { killed = true; state = runnable }
          else record p { killed = true })
        ∷ ps)
    else elim (kill pid ps) [ none ↦ none | some ps' ↦ some (p ∷ ps') ]

-- The processes that wait for a child sleep on their own entry's address.
pub record Family : Type 0 where
  pub procs : List Proc
  pub init : ℕ
  pub address : ℕ → ℕ

-- One round of the loop of reparent, at the entry `i` if there is one.
pub reparent_at : Option Proc → ℕ → ℕ → Option ℕ → Family → Family
reparent_at none i p self f = f
reparent_at (some pp) i p self f =
    if is_child_of p pp
    then record f {
      procs = wakeup self (f.address f.init) (set f.procs i (record pp { parent = some f.init }));
    }
    else f

pub reparent_loop : ℕ → ℕ → ℕ → Option ℕ → Family → Family
reparent_loop zero i p self f = f
reparent_loop (suc k) i p self f =
    reparent_loop k (suc i) p self (reparent_at (get_elem? f.procs i) i p self f)

pub reparent : ℕ → Option ℕ → Family → Family
unfolding reparent_at reparent_loop
reparent p self f = reparent_loop (length f.procs) 0 p self f

pub data Scan : Type 0 where
  found : ℕ → Scan
  none_found : (havekids : Bool) → Scan

-- The loop of wait over the table, at index `i`.
pub scan : ℕ → ℕ → Bool → List Proc → Scan
scan p i havekids [] = none_found havekids
scan p i havekids (pp ∷ ps) =
    if is_child_of p pp && is_zombie pp.state
    then found i
    else scan p (suc i) (havekids || is_child_of p pp) ps

-- The table, and the counter of process ids (an `int`).
pub record Procs : Type 0 where
  pub table : List Proc
  pub nextpid : ℕ

pub allocpid : Procs → ℕ × Procs
allocpid s = (s.nextpid, record s { nextpid = (s.nextpid + 1) % 2 ^ 32 })

-- `proc->vm_areas[i].length != 0` for some `i`: `proc` is the table's first entry.
pub first_has_areas : List Proc → Bool
first_has_areas [] = false
first_has_areas (p ∷ ps) = any_in_use p.vm_areas

-- The end of freeproc: the areas of the table's first entry that are in use are zeroed.
pub wipe_first : List Proc → List Proc
wipe_first [] = []
wipe_first (p ∷ ps) = record p { vm_areas = wipe p.vm_areas } ∷ ps

-- freeproc on the entry `i`. What clear_vm_area does with the files and pages is Kernel.Mmap's; here
-- it zeroes the areas. Freeing the pages of the trapframe and the page table is not in this state.
pub freeproc_at : Option Proc → ℕ → List Proc → List Proc
freeproc_at none i ps = ps
freeproc_at (some p) i ps =
    let areas = if p.pagetable == 0 then p.vm_areas else wipe p.vm_areas in
    wipe_first (set ps i (record (cleared p) { vm_areas = areas }))

pub freeproc : ℕ → List Proc → List Proc
unfolding freeproc_at wipe_first
freeproc i ps = freeproc_at (get_elem? ps i) i ps

-- The loop of allocproc: the first entry that is UNUSED.
pub find_unused : ℕ → List Proc → Option ℕ
find_unused i [] = none
find_unused i (p ∷ ps) = if is_unused p.state then some i else find_unused (suc i) ps

pub first_next_start : List Proc → List Proc
first_next_start [] = []
first_next_start (p ∷ ps) = record p { next_start = 0 } ∷ ps

-- What kalloc fills a page with, as a 64-bit word.
abbrev pub junk : ℕ
junk = 0x0505050505050505

-- The entry `p` with its id, its trapframe and its page table.
abbrev pub prepared : Proc → ℕ → ℕ → Proc
prepared p pid pagetable = record p {
  pid = pid;
  state = used;
  trapframe = some (record { a0 = junk; others = λ r. junk });
  pagetable = pagetable;
}

-- The rest of allocproc at the entry `i`. `frame` says whether kalloc gives a page for the
-- trapframe, and `pagetable` is what proc_pagetable returns, 0 where it fails.
pub setup : Option Proc → ℕ → Bool → ℕ → Procs → Outcome (Option ℕ × Procs)
setup none i frame pagetable s = done (none, s)
setup (some p) i frame pagetable s =
    let (pid, s1) = allocpid s in
    let p1 = record p { pid = pid; state = used } in
    let p2 = record p1 { trapframe = some (record { a0 = junk; others = λ r. junk }) } in
    let p3 = prepared p pid pagetable in
    if not frame
    then done (none, record s1 { table = freeproc i (set s1.table i p1) })
    else if pagetable == 0
    then done (none, record s1 { table = freeproc i (set s1.table i p2) })
    else if first_has_areas (set s1.table i p3)
    then panic "allocproc: vma contains data"
    else done (some i, record s1 { table = first_next_start (set s1.table i p3) })

pub alloc_entry : Option ℕ → Bool → ℕ → Procs → Outcome (Option ℕ × Procs)
alloc_entry none frame pagetable s = done (none, s)
alloc_entry (some i) frame pagetable s = setup (get_elem? s.table i) i frame pagetable s

-- The entry that is taken, `none` for a result of 0.
pub allocproc : Bool → ℕ → Procs → Outcome (Option ℕ × Procs)
unfolding allocpid first_has_areas first_next_start setup alloc_entry
allocproc frame pagetable s = alloc_entry (find_unused 0 s.table) frame pagetable s
