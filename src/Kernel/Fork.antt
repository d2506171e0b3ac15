-- ===== src/Kernel/Fork.antt =====
-- kernel/proc.c: fork, and how exit closes files, over the process table and the table of open files.
pub mod References
pub mod Child
mod Tests
use mit_61810_labs.Prelude.{
  ℕ, zero, suc, Bool, true, false, not, Option, none, some, List, [], ◌∷◌, if◌then◌else◌, get_elem?,
  set, Outcome, done, panic, ◌>>=◌,
}
use mit_61810_labs.Kernel.Vma.{VmArea, in_use}
use mit_61810_labs.Kernel.File.{File, OpenFiles, Release, filedup, fileclose}
use mit_61810_labs.Kernel.Proc.{Proc, Procs, Trapframe, runnable, allocproc, freeproc}

-- `idups` lists the inodes that idup was called on, the last one first.
pub record World : Type 0 where
  pub procs : Procs
  pub table : List File
  pub idups : List (Option ℕ)

-- `filedup(np->vm_areas[i].fptr)`: a null pointer is a fault in the kernel.
pub dup_area : Option ℕ → List File → Outcome (List File)
dup_area none t = panic "kerneltrap"
dup_area (some f) t = filedup f t

-- The references of the copied areas.
pub dup_areas : List VmArea → List File → Outcome (List File)
dup_areas [] t = done t
dup_areas (a ∷ as') t = (if in_use a then dup_area a.fptr t else done t) >>= λ t'. dup_areas as' t'

-- `if(p->ofile[i]) np->ofile[i] = filedup(p->ofile[i])`: the references.
pub dup_slot : Option ℕ → List File → Outcome (List File)
dup_slot none t = done t
dup_slot (some f) t = filedup f t

pub dup_files : OpenFiles → List File → Outcome (List File)
dup_files [] t = done t
dup_files (o ∷ os) t = dup_slot o t >>= λ t'. dup_files os t'

-- The descriptors of the child, from those of the parent and its own.
pub inherit : OpenFiles → OpenFiles → OpenFiles
inherit [] os' = os'
inherit (o ∷ os) [] = []
inherit (none ∷ os) (o' ∷ os') = o' ∷ inherit os os'
inherit (some f ∷ os) (o' ∷ os') = some f ∷ inherit os os'

abbrev pub returns_0 : Option Trapframe → Option Trapframe
returns_0 none = none
returns_0 (some t) = some (record t { a0 = 0 })

-- The child of `p`, at the index `me`.
pub child_of : ℕ → Proc → Proc → Proc
child_of me p np = record np {
  sz = p.sz;
  vm_areas = p.vm_areas;
  next_start = p.next_start;
  trapframe = returns_0 p.trapframe;
  ofile = inherit p.ofile np.ofile;
  cwd = p.cwd;
  name = p.name;
  parent = some me;
  state = runnable;
}

-- fork from the copy of the memory on, into the entry `i`; `copied` says whether uvmcopy succeeds.
pub fork_into : ℕ → Bool → Option ℕ → Option Proc → Option Proc → World → Outcome (Option ℕ × World)
fork_into me copied none op onp w = done (none, w)
fork_into me copied (some i) none onp w = done (none, w)
fork_into me copied (some i) (some p) none w = done (none, w)
fork_into me copied (some i) (some p) (some np) w =
    if not copied
    then done (none, record w { procs = record w.procs { table = freeproc i w.procs.table } })
    else dup_areas p.vm_areas w.table >>= λ t1. dup_files p.ofile t1 >>= λ t2. done (
      some np.pid,
      record {
        procs = record w.procs { table = set w.procs.table i (child_of me p np) };
        table = t2;
        idups = p.cwd ∷ w.idups;
      },
    )

abbrev pub entry_of : Option ℕ → List Proc → Option Proc
entry_of none ps = none
entry_of (some i) ps = get_elem? ps i

-- fork by the process at the index `me`: the result is the child's id, `none` for -1. `frame` and
-- `pagetable` are those of allocproc.
pub fork : ℕ → Bool → Bool → ℕ → World → Outcome (Option ℕ × World)
unfolding fork_into
fork me copied frame pagetable w = allocproc frame pagetable w.procs >>= λ (o, s).
    fork_into me copied o (get_elem? s.table me) (entry_of o s.table) (record w { procs = s })

-- The loop of exit over the descriptors, with what each fileclose releases.
pub close_fd : Option ℕ → List File → Outcome (List File)
close_fd none t = done t
close_fd (some f) t = fileclose f t >>= λ (r, t'). done t'

pub close_all : OpenFiles → List File → Outcome (OpenFiles × List File)
close_all [] t = done ([], t)
close_all (o ∷ os) t =
    close_fd o t >>= λ t'. close_all os t' >>= λ (os', t''). done (none ∷ os', t'')
