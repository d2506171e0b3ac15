-- ===== src/Kernel/Proc/Alloc.antt =====
-- allocproc and freeproc: process ids, and the checks of the mapped areas.
use mit_61810_labs.Prelude.{
  ℕ, zero, suc, ◌≡◌, ◌≢◌, refl, sym, ap, ◌∙◌, arith, true, false, Option, none, some, List, [], ◌∷◌,
  ◌==◌, get_elem?, set, panic,
}
use mit_61810_labs.Kernel.Vma.{VmArea, any_in_use, wipe}
use mit_61810_labs.Kernel.Proc.{
  Proc, Procs, allocpid, freeproc, freeproc_at, find_unused, setup, allocproc, prepared,
  alloc_entry, wipe_first, first_has_areas,
}

any_in_use-wipe : (as' : List VmArea) → any_in_use (wipe as') ≡ false
any_in_use-wipe [] = refl
any_in_use-wipe (a ∷ as') = ground (arith, any_in_use-wipe as')

wipe_first-clean :
    (ps : List Proc) {p : Proc}
    → get_elem? (wipe_first ps) 0 ≡ some p
    → any_in_use p.vm_areas ≡ false
unfolding wipe_first
wipe_first-clean [] e = ground arith
wipe_first-clean (q ∷ ps) {p} e =
    let same : record q { vm_areas = wipe q.vm_areas } ≡ p = cc in
    rw (← same) (any_in_use-wipe q.vm_areas)

freeproc_at-clean :
    (o : Option Proc) (i : ℕ) (ps : List Proc) {q p : Proc}
    → o ≡ some q
    → get_elem? (freeproc_at o i ps) 0 ≡ some p
    → any_in_use p.vm_areas ≡ false
unfolding freeproc_at
freeproc_at-clean none i ps h e = ground arith
freeproc_at-clean (some q) i ps h e = wipe_first-clean _ e

-- freeproc of any entry of the table leaves no area in use in the table's FIRST entry: an area that
-- process had is dropped, with no munmap and no fileclose.
pub freeproc-wipes_first :
    (i : ℕ) (ps : List Proc) {q p : Proc}
    → get_elem? ps i ≡ some q
    → get_elem? (freeproc i ps) 0 ≡ some p
    → any_in_use p.vm_areas ≡ false
unfolding freeproc
freeproc-wipes_first i ps h e = freeproc_at-clean (get_elem? ps i) i ps h e

pub first_has_areas-set :
    (ps : List Proc) (i : ℕ) {p : Proc} (q : Proc)
    → get_elem? ps i ≡ some p
    → q.vm_areas ≡ p.vm_areas
    → first_has_areas (set ps i q) ≡ first_has_areas ps
unfolding first_has_areas
first_has_areas-set [] i q e h = refl
first_has_areas-set (x ∷ ps) zero {p} q e h =
    let same : x ≡ p = cc in ap any_in_use (h ∙ ap (λ (r : Proc). r.vm_areas) (sym same))
first_has_areas-set (x ∷ ps) (suc i) q e h = refl

setup_panics :
    (p : Proc) (i pagetable : ℕ) (s : Procs)
    → get_elem? s.table i ≡ some p
    → pagetable ≢ 0
    → first_has_areas s.table ≡ true
    → setup (some p) i true pagetable s ≡ panic "allocproc: vma contains data"
unfolding setup allocpid
setup_panics p i pagetable s e h f =
    let ne : (pagetable == 0) ≡ false = ground arith in
    rw (ne, first_has_areas-set s.table i (prepared p s.nextpid pagetable) e refl ∙ f)

-- While the process in the table's first entry has a mapped area, allocproc, and so fork, panics
-- whichever free entry it takes and although memory is there.
pub allocproc-panics :
    (i pagetable : ℕ) (s : Procs) {p : Proc}
    → find_unused 0 s.table ≡ some i
    → get_elem? s.table i ≡ some p
    → pagetable ≢ 0
    → first_has_areas s.table ≡ true
    → allocproc true pagetable s ≡ panic "allocproc: vma contains data"
unfolding allocproc
allocproc-panics i pagetable s {p} f e h a =
    ap (λ o. alloc_entry o true pagetable s) f
    ∙ ap (λ o. setup o i true pagetable s) e
    ∙ setup_panics p i pagetable s e h a
