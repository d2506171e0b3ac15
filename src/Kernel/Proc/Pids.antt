-- ===== src/Kernel/Proc/Pids.antt =====
-- Process ids: allocproc gives each process one that no other process has.
use mit_61810_labs.Prelude.{
  ℕ, zero, suc, ◌+◌, ◌%◌, ◌^◌, ◌<◌, ◌≡◌, refl, sym, ap, ◌∙◌, arith, inl, inr, Bool, true, false,
  Option, none, some, List, [], ◌∷◌, ◌==◌, get_elem?, set, Bool-cases, Returns, set-cases,
}
use mit_61810_labs.Kernel.Proc.Alloc.{first_has_areas-set}
use mit_61810_labs.Kernel.Proc.{
  Proc, Procs, is_unused, freeproc, freeproc_at, find_unused, setup, allocpid, allocproc,
  wipe_first, first_has_areas, first_next_start, prepared, alloc_entry,
}

-- Process ids in use are below `next`, and no two entries in use have the same.
pub record HasFreshPids (ps : List Proc) (next : ℕ) : Type 0 where
  pub below :
      (i : ℕ) (p : Proc) → get_elem? ps i ≡ some p → is_unused p.state ≡ false → p.pid < next
  pub distinct :
      (i j : ℕ) (p q : Proc)
      → get_elem? ps i ≡ some p
      → get_elem? ps j ≡ some q
      → is_unused p.state ≡ false
      → is_unused q.state ≡ false
      → p.pid ≡ q.pid
      → i ≡ j

-- Each entry of `ps'` has the id and the state that it has in `ps`.
abbrev SameIds : List Proc → List Proc → Type 0
SameIds ps ps' =
    (j : ℕ) (q : Proc)
    → get_elem? ps' j ≡ some q
    → (q0 : Proc) × (get_elem? ps j ≡ some q0) × (q.pid ≡ q0.pid) × (q.state ≡ q0.state)

HasFreshPids-SameIds :
    (ps ps' : List Proc) (next : ℕ) → SameIds ps ps' → HasFreshPids ps next → HasFreshPids ps' next
HasFreshPids-SameIds ps ps' next same f = record {
  below = λ i p e u.
      let (p0, e0, a, b) = same i p e in
      omega (arith, a, f.below i p0 e0 (ap is_unused (sym b) ∙ u));
  distinct = λ i j p q ep eq up uq c.
      let (p0, e0, a, b) = same i p ep in
      let (q0, d0, x, y) = same j q eq in
      f.distinct i j p0 q0 e0 d0 (ap is_unused (sym b) ∙ up) (ap is_unused (sym y) ∙ uq)
        (sym a ∙ c ∙ x);
}

SameIds-wipe_first : (ps : List Proc) → SameIds ps (wipe_first ps)
unfolding wipe_first
SameIds-wipe_first [] j q e = (q, e, refl, refl)
SameIds-wipe_first (p ∷ ps) zero q e = (p, refl, ground arith, ground arith)
SameIds-wipe_first (p ∷ ps) (suc j) q e = (q, e, refl, refl)

SameIds-first_next_start : (ps : List Proc) → SameIds ps (first_next_start ps)
unfolding first_next_start
SameIds-first_next_start [] j q e = (q, e, refl, refl)
SameIds-first_next_start (p ∷ ps) zero q e = (p, refl, ground arith, ground arith)
SameIds-first_next_start (p ∷ ps) (suc j) q e = (q, e, refl, refl)

HasFreshPids-unused :
    (ps : List Proc) (next i : ℕ) (v : Proc)
    → is_unused v.state ≡ true
    → HasFreshPids ps next
    → HasFreshPids (set ps i v) next
HasFreshPids-unused ps next i v u f = record {
  below = λ j p e up. elim (set-cases ps i v j e) [
    | inl (a, b) ↦ absurd (ground (arith, ap (λ (r : Proc). is_unused r.state) b))
    | inr (a, b) ↦ f.below j p b up
  ];
  distinct = λ j k p q ep eq up uq c. elim (set-cases ps i v j ep) [
    | inl (a, b) ↦ absurd (ground (arith, ap (λ (r : Proc). is_unused r.state) b))
    | inr (a, b) ↦ elim (set-cases ps i v k eq) [
      | inl (a', b') ↦ absurd (ground (arith, ap (λ (r : Proc). is_unused r.state) b'))
      | inr (a', b') ↦ f.distinct j k p q b b' up uq c
    ]
  ];
}

HasFreshPids-new :
    (ps : List Proc) (next i : ℕ) (v : Proc)
    → v.pid ≡ next
    → HasFreshPids ps next
    → HasFreshPids (set ps i v) (next + 1)
HasFreshPids-new ps next i v e f = record {
  below = λ j p ep up. elim (set-cases ps i v j ep) [
    | inl (a, b) ↦ omega (arith, e, ap (λ (r : Proc). r.pid) b)
    | inr (a, b) ↦ omega (arith, f.below j p b up)
  ];
  distinct = λ j k p q ep eq up uq c. elim (set-cases ps i v j ep) [
    | inl (a, b) ↦ elim (set-cases ps i v k eq) [
      | inl (a', b') ↦ a ∙ sym a'
      | inr (a', b') ↦ absurd (omega (arith, f.below k q b' uq, c, e, ap (λ (r : Proc). r.pid) b))
    ]
    | inr (a, b) ↦ elim (set-cases ps i v k eq) [
      | inl (a', b') ↦ absurd (omega (arith, f.below j p b up, c, e, ap (λ (r : Proc). r.pid) b'))
      | inr (a', b') ↦ f.distinct j k p q b b' up uq c
    ]
  ];
}

freeproc_at-HasFreshPids :
    (o : Option Proc) (i : ℕ) (ps : List Proc) (next : ℕ)
    → HasFreshPids ps next
    → HasFreshPids (freeproc_at o i ps) next
unfolding freeproc_at
freeproc_at-HasFreshPids none i ps next f = f
freeproc_at-HasFreshPids (some p) i ps next f =
    HasFreshPids-SameIds _ _ next (SameIds-wipe_first _) (HasFreshPids-unused ps next i _ refl f)

-- freeproc keeps process ids distinct.
pub freeproc-HasFreshPids :
    (i : ℕ) (ps : List Proc) (next : ℕ) → HasFreshPids ps next → HasFreshPids (freeproc i ps) next
unfolding freeproc
freeproc-HasFreshPids i ps next f = freeproc_at-HasFreshPids (get_elem? ps i) i ps next f

setup-HasFreshPids :
    (o : Option Proc) (i pagetable : ℕ) (frame : Bool) (s : Procs)
    → first_has_areas s.table ≡ false
    → get_elem? s.table i ≡ o
    → s.nextpid + 1 < 2 ^ 32
    → HasFreshPids s.table s.nextpid
    → Returns (λ (r, s'). HasFreshPids s'.table s'.nextpid) (setup o i frame pagetable s)
unfolding setup allocpid
setup-HasFreshPids none i pagetable frame s a e h f = f
setup-HasFreshPids (some p) i pagetable false s a e h f =
    let up : (s.nextpid + 1) % 2 ^ 32 ≡ s.nextpid + 1 = omega arith in
    rw up
      (freeproc-HasFreshPids i _ (s.nextpid + 1) (HasFreshPids-new s.table s.nextpid i _ refl f))
setup-HasFreshPids (some p) i pagetable true s a e h f = elim (Bool-cases (pagetable == 0)) [
  | inl no_table ↦
      let up : (s.nextpid + 1) % 2 ^ 32 ≡ s.nextpid + 1 = omega arith in
      rw (no_table, up)
        (freeproc-HasFreshPids i _ (s.nextpid + 1) (HasFreshPids-new s.table s.nextpid i _ refl f))
  | inr table ↦
      let up : (s.nextpid + 1) % 2 ^ 32 ≡ s.nextpid + 1 = omega arith in
      rw (table, first_has_areas-set s.table i (prepared p s.nextpid pagetable) e refl ∙ a, up)
        (HasFreshPids-SameIds _ _ (s.nextpid + 1) (SameIds-first_next_start _)
          (HasFreshPids-new s.table s.nextpid i _ refl f))
]

alloc_entry-HasFreshPids :
    (o : Option ℕ) (pagetable : ℕ) (frame : Bool) (s : Procs)
    → first_has_areas s.table ≡ false
    → s.nextpid + 1 < 2 ^ 32
    → HasFreshPids s.table s.nextpid
    → Returns (λ (r, s'). HasFreshPids s'.table s'.nextpid) (alloc_entry o frame pagetable s)
unfolding alloc_entry
alloc_entry-HasFreshPids none pagetable frame s a h f = f
alloc_entry-HasFreshPids (some i) pagetable frame s a h f =
    setup-HasFreshPids (get_elem? s.table i) i pagetable frame s a refl h f

-- allocproc keeps the ids of the processes in use distinct, and below the counter, until the counter
-- wraps: it returns, with or without memory, where the table's first entry has no mapped area.
pub allocproc-HasFreshPids :
    (frame : Bool) (pagetable : ℕ) (s : Procs)
    → first_has_areas s.table ≡ false
    → s.nextpid + 1 < 2 ^ 32
    → HasFreshPids s.table s.nextpid
    → Returns (λ (r, s'). HasFreshPids s'.table s'.nextpid) (allocproc frame pagetable s)
unfolding allocproc
allocproc-HasFreshPids frame pagetable s a h f =
    alloc_entry-HasFreshPids (find_unused 0 s.table) pagetable frame s a h f
