-- ===== src/Kernel/File/Alloc.antt =====
-- What filealloc and fdalloc find.
use mit_61810_labs.Prelude.{
  ℕ, zero, suc, ◌<◌, ◌≡◌, ◌≢◌, refl, ap, inl, inr, arith, Bool-cases, Option, none, some, List, [],
  ◌∷◌, get_elem?, set, ◌==◌, length,
}
use mit_61810_labs.Kernel.File.{File, filealloc, fdalloc, OpenFiles}

-- filealloc takes the first entry with no reference, gives it one, and leaves the others alone.
pub record Takes (t : List File) (i : ℕ) (t' : List File) : Type 0 where
  pub entry : File
  pub found : get_elem? t i ≡ some entry
  pub free : entry.ref ≡ 0
  pub stored : t' ≡ set t i (record entry { ref = 1 })
  pub first : (j : ℕ) → j < i → (f : File) × (get_elem? t j ≡ some f) × (0 < f.ref)

filealloc_here :
    (f : File) (fs : List File) → f.ref ≡ 0 → Takes (f ∷ fs) 0 (record f { ref = 1 } ∷ fs)
filealloc_here f fs h = record {
  entry = f;
  found = refl;
  free = h;
  stored = refl;
  first = λ j lt. absurd (omega arith);
}

filealloc_there :
    (f : File) (fs : List File) {i : ℕ} {fs' : List File}
    → 0 < f.ref
    → Takes fs i fs'
    → Takes (f ∷ fs) (suc i) (f ∷ fs')
filealloc_there f fs {i} h w = record {
  entry = w.entry;
  found = w.found;
  free = w.free;
  stored = ap (λ x. f ∷ x) w.stored;
  first = below;
}
  where
    below : (j : ℕ) → j < suc i → (g : File) × (get_elem? (f ∷ fs) j ≡ some g) × (0 < g.ref)
    below zero lt = (f, refl, h)
    below (suc j) lt = w.first j (omega arith)

-- The table is full, or filealloc takes an entry.
abbrev pub Allocated : List File → Option (ℕ × List File) → Type 0
Allocated t none = (j : ℕ) (f : File) → get_elem? t j ≡ some f → 0 < f.ref
Allocated t (some (i, t')) = Takes t i t'

filealloc_step :
    (f : File) (fs : List File) (o : Option (ℕ × List File))
    → 0 < f.ref
    → Allocated fs o
    → Allocated (f ∷ fs) (elim o [ none ↦ none | some (i, fs') ↦ some (suc i, f ∷ fs') ])
filealloc_step f fs none h a = used
  where
    used : (j : ℕ) (g : File) → get_elem? (f ∷ fs) j ≡ some g → 0 < g.ref
    used zero g e = ground arith
    used (suc j) g e = a j g e
filealloc_step f fs (some (i, fs')) h a = filealloc_there f fs h a

-- filealloc fails only if every entry is in use; otherwise it takes the first free one, gives it
-- one reference, and leaves the others alone.
pub filealloc-Allocated : (t : List File) → Allocated t (filealloc t)
unfolding filealloc
filealloc-Allocated [] = λ j f e. ground arith
filealloc-Allocated (f ∷ fs) = elim (Bool-cases (f.ref == 0)) [
  | inl free ↦ rw free (filealloc_here f fs (ground arith))
  | inr used ↦ rw used (filealloc_step f fs (filealloc fs) (ground arith) (filealloc-Allocated fs))
]

-- No descriptor is free, or the first free one gets the file.
abbrev pub Placed : ℕ → OpenFiles → Option (ℕ × OpenFiles) → Type 0
Placed f os none = (j : ℕ) → get_elem? os j ≢ some none
Placed f os (some (fd, os')) =
    (get_elem? os fd ≡ some none) × (os' ≡ set os fd (some f)) × (fd < length os)

fdalloc_step :
    (f g : ℕ) (os : OpenFiles) (o : Option (ℕ × OpenFiles))
    → Placed f os o
    → Placed f (some g ∷ os) (elim o [ none ↦ none | some (fd, os') ↦ some (suc fd, some g ∷ os') ])
fdalloc_step f g os none a = taken
  where
    taken : (j : ℕ) → get_elem? (some g ∷ os) j ≢ some none
    taken zero e = ground arith
    taken (suc j) e = a j e
fdalloc_step f g os (some (fd, os')) a = (a.0, ap (λ x. some g ∷ x) a.1, omega (arith, a.2))

-- fdalloc fails only if no descriptor is free; otherwise the first free one gets the file, and the
-- others keep theirs.
pub fdalloc-Placed : (f : ℕ) (os : OpenFiles) → Placed f os (fdalloc f os)
unfolding fdalloc
fdalloc-Placed f [] = λ j e. ground arith
fdalloc-Placed f (none ∷ os) = (refl, refl, omega arith)
fdalloc-Placed f (some g ∷ os) = fdalloc_step f g os (fdalloc f os) (fdalloc-Placed f os)
