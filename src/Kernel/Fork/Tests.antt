-- ===== src/Kernel/Fork/Tests.antt =====
-- Instances of the theorems on fork and exit.
use mit_61810_labs.Prelude.{
  ℕ, zero, suc, ◌+◌, ◌≤◌, ◌≡◌, arith, true, false, List, [], ◌∷◌, some, none, get_elem?, Returns,
}
use mit_61810_labs.Kernel.Vma.{VmArea, no_area, in_use}
use mit_61810_labs.Kernel.File.{File, OpenFiles, fd_inode}
use mit_61810_labs.Kernel.File.Counts.{ref_of, held}
use mit_61810_labs.Kernel.Proc.{Proc, ProcState, running, used}
use mit_61810_labs.Kernel.Fork.{World, fork_into}
use mit_61810_labs.Kernel.Fork.References.{Open, mapped}
use mit_61810_labs.Kernel.Fork.Child.{Forked, fork_into-Forked}

-- A file with two references: a descriptor and an area of the parent.
abbrev file : File
file = record {
  type_ = fd_inode;
  ref = 2;
  readable = true;
  writable = true;
  pipe = 0;
  ip = 5;
  off = 0;
  major = 0;
}

abbrev process : ProcState → List VmArea → OpenFiles → Proc
process state areas ofile = record {
  state = state;
  chan = 0;
  killed = false;
  xstate = 0;
  pid = 1;
  parent = none;
  sz = 4096;
  pagetable = 8192;
  next_start = 8192;
  vm_areas = areas;
  trapframe = none;
  ofile = ofile;
  cwd = some 1;
  name = [];
}

abbrev parent : Proc
parent =
    process running (record no_area { length_ = 4096; fptr = some 0 } ∷ []) (some 0 ∷ none ∷ [])

abbrev child : Proc
child = process used (no_area ∷ []) (none ∷ none ∷ [])

abbrev world : World
world = record {
  procs = record { table = parent ∷ child ∷ []; nextpid = 3 };
  table = file ∷ [];
  idups = [];
}

parent_areas :
    (i : ℕ) (a : VmArea)
    → get_elem? parent.vm_areas i ≡ some a
    → in_use a ≡ true
    → (f : ℕ) × (a.fptr ≡ some f)
parent_areas zero a e u = (0, ground (arith, e))
parent_areas (suc i) a e u = ground arith

parent_files : Open (λ f. mapped f parent.vm_areas + held f parent.ofile) world.table
parent_files zero h = omega arith
parent_files (suc f) h = ground (arith, h)

fork_into-Forked_example :
    Returns
      (Forked 0 true 1 parent (some child) world)
      (fork_into 0 true (some 1) (some parent) (some child) world)
fork_into-Forked_example = fork_into-Forked 0 1 true parent world parent_areas parent_files

held_files : (f : ℕ) → held f parent.ofile ≤ ref_of (get_elem? world.table f)
held_files zero = omega arith
held_files (suc f) = ground arith
