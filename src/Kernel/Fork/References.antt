-- ===== src/Kernel/Fork/References.antt =====
-- fork and exit against the reference counts of the files.
use mit_61810_labs.Prelude.{
  ℕ, suc, ◌+◌, ◌≤◌, ◌<◌, ◌≡◌, ◌≢◌, refl, ap, arith, inl, inr, true, Option, none, some, List, [],
  ◌∷◌, ◌==◌, if◌then◌else◌, get_elem?, Bool-cases, Returns, Returns-mono, Returns-bind, Returns-map,
  ==_refl,
}
use mit_61810_labs.Kernel.Vma.{VmArea, in_use}
use mit_61810_labs.Kernel.File.{File, OpenFiles, filedup, fileclose}
use mit_61810_labs.Kernel.File.Counts.{ref_of, held, holds, filedup_lem, fileclose_lem}
use mit_61810_labs.Kernel.Fork.{dup_area, dup_areas, dup_slot, dup_files, close_fd, close_all}

-- The references to a file in the areas in use.
abbrev pub mapped : ℕ → List VmArea → ℕ
mapped f [] = 0
mapped f (a ∷ as') = (if in_use a then holds f a.fptr else 0) + mapped f as'

-- Each file has as many references more as `n` says.
abbrev pub Adds : (ℕ → ℕ) → List File → List File → Type 0
Adds n t t' = (f : ℕ) → ref_of (get_elem? t' f) ≡ ref_of (get_elem? t f) + n f

-- Every file that `n` counts is open.
abbrev pub Open : (ℕ → ℕ) → List File → Type 0
Open n t = (f : ℕ) → 0 < n f → 0 < ref_of (get_elem? t f)

filedup-Adds :
    (g : ℕ) (t : List File)
    → Open (λ f. holds f (some g)) t
    → Returns (Adds (λ f. holds f (some g)) t) (filedup g t)
filedup-Adds g t h =
    Returns-mono (Adds (λ f. holds f (some g)) t) (filedup g t)
      (filedup_lem g t (h g (rw (==_refl g) (omega arith))))
      (λ t' u f. elim (Bool-cases (g == f)) [
        | inl same ↦ let e : g ≡ f = ground arith in rw same (rw (← e) u.0)
        | inr other ↦
            let ne : g ≢ f = ground arith in rw other (omega (arith, ap ref_of (u.1 f ne)))
      ])

dup_slot-Adds :
    (o : Option ℕ) (t : List File)
    → Open (λ f. holds f o) t
    → Returns (Adds (λ f. holds f o) t) (dup_slot o t)
unfolding dup_slot
dup_slot-Adds none t h = λ f. omega arith
dup_slot-Adds (some g) t h = filedup-Adds g t h

pub dup_files-Adds :
    (os : OpenFiles) (t : List File)
    → Open (λ f. held f os) t
    → Returns (Adds (λ f. held f os) t) (dup_files os t)
unfolding dup_files
dup_files-Adds [] t h = λ f. omega arith
dup_files-Adds (o ∷ os) t h =
    Returns-bind {P = Adds (λ f. holds f o) t} (Adds (λ f. holds f o + held f os) t) _
      (dup_slot o t) (dup_slot-Adds o t (λ f p. h f (omega arith)))
      λ t' u.
        Returns-mono (Adds (λ f. holds f o + held f os) t) (dup_files os t')
          (dup_files-Adds os t' (λ f p. omega (arith, u f, h f (omega arith))))
          (λ t'' u' f. omega (arith, u f, u' f))

pub dup_areas-Adds :
    (areas : List VmArea) (t : List File)
    → ((i : ℕ) (a : VmArea)
        → get_elem? areas i ≡ some a
        → in_use a ≡ true
        → (f : ℕ) × (a.fptr ≡ some f))
    → Open (λ f. mapped f areas) t
    → Returns (Adds (λ f. mapped f areas) t) (dup_areas areas t)
unfolding dup_areas dup_area
dup_areas-Adds [] t named h = λ f. omega arith
dup_areas-Adds (a ∷ areas) t named h = elim (Bool-cases (in_use a)) [
  | inl used ↦
      let (g, e) = named 0 a refl used in
      let sum : (f : ℕ) → mapped f (a ∷ areas) ≡ holds f (some g) + mapped f areas =
        λ f. rw (used, e) refl in
      rw (used, e)
        (Returns-bind {P = Adds (λ f. holds f (some g)) t}
          (Adds (λ f. holds f (some g) + mapped f areas) t) _ (filedup g t)
          (filedup-Adds g t (λ f p. h f (omega (arith, sum f, p))))
          λ t' u.
            Returns-mono (Adds (λ f. holds f (some g) + mapped f areas) t) (dup_areas areas t')
              (dup_areas-Adds areas t' (λ i. named (suc i))
                (λ f p. omega (arith, u f, h f (omega (arith, sum f, p)))))
              (λ t'' u' f. omega (arith, u f, u' f)))
  | inr free ↦
      let sum : (f : ℕ) → mapped f (a ∷ areas) ≡ mapped f areas = λ f. rw free (omega arith) in
      rw free (
        Returns-mono (Adds (λ f. 0 + mapped f areas) t) (dup_areas areas t)
          (dup_areas-Adds areas t (λ i. named (suc i)) (λ f p. h f (omega (arith, sum f, p))))
          (λ t' u f. omega (arith, u f)))
]

-- Each file has as many references less as `n` says.
abbrev pub Drops : (ℕ → ℕ) → List File → List File → Type 0
Drops n t t' = (f : ℕ) → ref_of (get_elem? t' f) + n f ≡ ref_of (get_elem? t f)

close_fd-Drops :
    (g : ℕ) (t : List File)
    → 0 < ref_of (get_elem? t g)
    → Returns (Drops (λ f. holds f (some g)) t) (close_fd (some g) t)
unfolding close_fd
close_fd-Drops g t h =
    Returns-map (Drops (λ f. holds f (some g)) t) (λ r. r.1) (fileclose g t) (fileclose_lem g t h)
      (λ r u f. elim (Bool-cases (g == f)) [
        | inl same ↦ let e : g ≡ f = ground arith in rw same (rw (← e) u.0)
        | inr other ↦
            let ne : g ≢ f = ground arith in rw other (omega (arith, ap ref_of (u.1 f ne)))
      ])

-- No descriptor holds a file any more, and each file has lost the references of the descriptors.
abbrev pub Closed : OpenFiles → List File → OpenFiles × List File → Type 0
Closed os t (os', t') = ((f : ℕ) → held f os' ≡ 0) × Drops (λ f. held f os) t t'

-- exit closes each descriptor of the process: no panic where the files are open, each file has one
-- reference less for each descriptor that held it, and no descriptor is left.
pub close_all_lem :
    (os : OpenFiles) (t : List File)
    → ((f : ℕ) → held f os ≤ ref_of (get_elem? t f))
    → Returns (Closed os t) (close_all os t)
unfolding close_all close_fd
close_all_lem [] t h = (λ f. refl, λ f. omega arith)
close_all_lem (none ∷ os) t h =
    Returns-map (Closed (none ∷ os) t) (λ (r : OpenFiles × List File). (none ∷ r.0, r.1))
      (close_all os t) (close_all_lem os t (λ f. omega (arith, h f)))
      (λ r u. (λ f. omega (arith, u.0 f), λ f. omega (arith, u.1 f)))
close_all_lem (some g ∷ os) t h =
    let held_g : 1 ≤ held g (some g ∷ os) = rw (==_refl g) (omega arith) in
    Returns-bind {P = Drops (λ f. holds f (some g)) t} (Closed (some g ∷ os) t) _
      (close_fd (some g) t) (close_fd-Drops g t (omega (arith, h g, held_g)))
      λ t' u.
        Returns-map (Closed (some g ∷ os) t) (λ (r : OpenFiles × List File). (none ∷ r.0, r.1))
          (close_all os t') (close_all_lem os t' (λ f. omega (arith, u f, h f)))
          (λ r v. (λ f. omega (arith, v.0 f), λ f. omega (arith, u f, v.1 f)))
