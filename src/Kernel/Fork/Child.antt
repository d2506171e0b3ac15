-- ===== src/Kernel/Fork/Child.antt =====
-- fork from the copy of the memory on: the child, the other processes and the references of the files.
use mit_61810_labs.Prelude.{
  ℕ, zero, suc, ◌+◌, ◌≡◌, ◌≢◌, refl, arith, Bool, true, false, Option, none, some, [], ◌∷◌,
  get_elem?, get_elem?-set_self, get_elem?-set_ne, get_elem?-lt, set, Returns, Returns-bind,
  Returns-map,
}
use mit_61810_labs.Kernel.Vma.{VmArea, in_use}
use mit_61810_labs.Kernel.File.{OpenFiles}
use mit_61810_labs.Kernel.File.Counts.{held}
use mit_61810_labs.Kernel.Proc.{Proc, Trapframe, runnable}
use mit_61810_labs.Kernel.Fork.{World, inherit, dup_areas, dup_files, child_of, entry_of, fork_into}
use mit_61810_labs.Kernel.Fork.References.{mapped, Adds, Open, dup_areas-Adds, dup_files-Adds}

inherit-some :
    (os os' : OpenFiles) (k f : ℕ) (o : Option ℕ)
    → get_elem? os k ≡ some (some f)
    → get_elem? os' k ≡ some o
    → get_elem? (inherit os os') k ≡ some (some f)
unfolding inherit
inherit-some [] os' k f o e e' = ground arith
inherit-some (x ∷ os) [] k f o e e' = ground arith
inherit-some (none ∷ os) (x' ∷ os') zero f o e e' = ground arith
inherit-some (some g ∷ os) (x' ∷ os') zero f o e e' = e
inherit-some (none ∷ os) (x' ∷ os') (suc k) f o e e' = inherit-some os os' k f o e e'
inherit-some (some g ∷ os) (x' ∷ os') (suc k) f o e e' = inherit-some os os' k f o e e'

inherit-none :
    (os os' : OpenFiles) (k : ℕ)
    → get_elem? os k ≡ some none
    → get_elem? (inherit os os') k ≡ get_elem? os' k
unfolding inherit
inherit-none [] os' k e = refl
inherit-none (x ∷ os) [] k e = refl
inherit-none (none ∷ os) (x' ∷ os') zero e = refl
inherit-none (some g ∷ os) (x' ∷ os') zero e = ground arith
inherit-none (none ∷ os) (x' ∷ os') (suc k) e = inherit-none os os' k e
inherit-none (some g ∷ os) (x' ∷ os') (suc k) e = inherit-none os os' k e

-- The process `c`, that was the entry `np`, as the child of `p`, the entry `me`.
pub record IsChild (me : ℕ) (p np c : Proc) : Type 0 where
  pub pid : c.pid ≡ np.pid
  pub size : c.sz ≡ p.sz
  pub areas : c.vm_areas ≡ p.vm_areas
  pub next : c.next_start ≡ p.next_start
  pub result :
      (t : Trapframe)
      → p.trapframe ≡ some t
      → (t' : Trapframe) × (c.trapframe ≡ some t') × (t'.a0 ≡ 0) × (t'.others ≡ t.others)
  pub inherited :
      (k f : ℕ) (o : Option ℕ)
      → get_elem? p.ofile k ≡ some (some f)
      → get_elem? np.ofile k ≡ some o
      → get_elem? c.ofile k ≡ some (some f)
  pub empty : (k : ℕ) → get_elem? p.ofile k ≡ some none → get_elem? c.ofile k ≡ get_elem? np.ofile k
  pub directory : c.cwd ≡ p.cwd
  pub named : c.name ≡ p.name
  pub family : c.parent ≡ some me
  pub ready : c.state ≡ runnable

child_of-IsChild : (me : ℕ) (p np : Proc) → IsChild me p np (child_of me p np)
unfolding child_of
child_of-IsChild me p np = record {
  pid = refl;
  size = refl;
  areas = refl;
  next = refl;
  result = λ t e. rw e (record t { a0 = 0 }, refl, refl, refl);
  inherited = inherit-some p.ofile np.ofile;
  empty = inherit-none p.ofile np.ofile;
  directory = refl;
  named = refl;
  family = refl;
  ready = refl;
}

-- fork succeeded, with the entry `i` for the child.
pub record IsForked (me i : ℕ) (p np : Proc) (w : World) (pid : ℕ) (w' : World) : Type 0 where
  pub same_pid : pid ≡ np.pid
  pub child : Proc
  pub stored : get_elem? w'.procs.table i ≡ some child
  pub shape : IsChild me p np child
  pub others : (j : ℕ) → i ≢ j → get_elem? w'.procs.table j ≡ get_elem? w.procs.table j
  pub counts : Adds (λ f. mapped f p.vm_areas + held f p.ofile) w.table w'.table
  pub directory : w'.idups ≡ p.cwd ∷ w.idups

-- What fork comes to, with the parent `p` and the entry `i` that allocproc chose.
abbrev pub Forked : ℕ → Bool → ℕ → Proc → Option Proc → World → Option ℕ × World → Type 0
Forked me copied i p none w (o, w') = (o ≡ none) × (w' ≡ w)
Forked me copied i p (some np) w (none, w') =
    (copied ≡ false) × (w'.table ≡ w.table) × (w'.idups ≡ w.idups)
Forked me copied i p (some np) w (some pid, w') = (copied ≡ true) × IsForked me i p np w pid w'

-- fork from the copy of the memory on, by the process `p` at the index `me`, into the entry `i`, where the
-- files of the parent are open and each of its areas in use has a file. It does not panic. It fails
-- just where the memory is not copied (or the table has no entry `i`), and then no file is referenced
-- once more. Else it returns the child's id; the entry `i` is runnable, with the parent's size, areas,
-- next address, directory, name and open descriptors, its own id, a 0 for its result and the other
-- registers of the parent; every other entry, so the parent's, is as it was; each file has a reference
-- more for each descriptor and each area of the parent that holds it, and the directory has one more.
pub fork_into-Forked :
    (me i : ℕ) (copied : Bool) (p : Proc) (w : World)
    → ((k : ℕ) (a : VmArea)
        → get_elem? p.vm_areas k ≡ some a
        → in_use a ≡ true
        → (f : ℕ) × (a.fptr ≡ some f))
    → Open (λ f. mapped f p.vm_areas + held f p.ofile) w.table
    → Returns
        (Forked me copied i p (get_elem? w.procs.table i) w)
        (fork_into me copied (some i) (some p) (entry_of (some i) w.procs.table) w)
unfolding fork_into
fork_into-Forked me i copied p w named h = go copied (get_elem? w.procs.table i) refl
  where
    go :
        (b : Bool) (onp : Option Proc)
        → get_elem? w.procs.table i ≡ onp
        → Returns (Forked me b i p onp w) (fork_into me b (some i) (some p) onp w)
    go b none at = (refl, refl)
    go false (some np) at = (refl, refl, refl)
    go true (some np) at =
        let lt = get_elem?-lt w.procs.table i at in
        Returns-bind {P = Adds (λ f. mapped f p.vm_areas) w.table} (Forked me true i p (some np) w)
          _ (dup_areas p.vm_areas w.table)
          (dup_areas-Adds p.vm_areas w.table named (λ f q. h f (omega arith)))
          λ t1 u.
            Returns-map (Forked me true i p (some np) w)
              (λ t2. (
                some np.pid,
                record {
                  procs = record w.procs { table = set w.procs.table i (child_of me p np) };
                  table = t2;
                  idups = p.cwd ∷ w.idups;
                },
              ))
              (dup_files p.ofile t1)
              (dup_files-Adds p.ofile t1 (λ f q. omega (arith, u f, h f (omega arith))))
              (λ t2 v. (
                refl,
                record {
                  same_pid = refl;
                  child = child_of me p np;
                  stored = get_elem?-set_self w.procs.table i (child_of me p np) lt;
                  shape = child_of-IsChild me p np;
                  others = λ j ne. get_elem?-set_ne w.procs.table (child_of me p np) ne;
                  counts = λ f. omega (arith, u f, v f);
                  directory = refl;
                },
              ))
