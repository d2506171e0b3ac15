-- ===== src/Kernel/File/Counts.antt =====
-- Reference counts: each entry's `ref` is the number of descriptors that hold it, and of the
-- references held elsewhere.
use mit_61810_labs.Prelude.{
  ℕ, zero, suc, ◌+◌, ◌-◌, ◌<◌, ◌≡◌, ◌≢◌, refl, sym, ap, ◌∙◌, inl, inr, arith, Bool, Bool-cases,
  Option, none, some, List, [], ◌∷◌, get_elem?, set, ◌==◌, ltb, if◌then◌else◌, Returns,
  get_elem?-set_self, get_elem?-set_ne, get_elem?-lt, ==_refl, Returns-map, subst,
}
use mit_61810_labs.Kernel.File.{
  File, Files, OpenFiles, filedup, fileclose, fdalloc, argfd, sys_dup, sys_close, dup_file, dup_to,
  close_file, nofile, dup_entry, close_entry, keep, fd_none,
}
use mit_61810_labs.Kernel.File.Alloc.{fdalloc-Placed, Placed}

-- How many descriptors hold file `f`.
abbrev pub holds : ℕ → Option ℕ → ℕ
holds f none = 0
holds f (some g) = if g == f then 1 else 0

abbrev pub held : ℕ → OpenFiles → ℕ
held f [] = 0
held f (o ∷ os) = holds f o + held f os

abbrev pub ref_of : Option File → ℕ
ref_of none = 0
ref_of (some f) = f.ref

-- `elsewhere f` references come from other processes, mappings and calls under way.
abbrev pub IsCounted : (ℕ → ℕ) → List File → OpenFiles → Type 0
IsCounted elsewhere t os = (f : ℕ) → ref_of (get_elem? t f) ≡ held f os + elsewhere f

pub held-set :
    (f : ℕ) (os : OpenFiles) (fd : ℕ) (o v : Option ℕ)
    → get_elem? os fd ≡ some o
    → held f (set os fd v) + holds f o ≡ held f os + holds f v
held-set f [] fd o v e = ground arith
held-set f (x ∷ os) zero o v e = ground arith
held-set f (x ∷ os) (suc fd) o v e = omega (arith, held-set f os fd o v e)

-- A change of one entry's count, all others kept.
abbrev pub SameOthers : List File → ℕ → List File → Type 0
SameOthers t i t' = (j : ℕ) → i ≢ j → get_elem? t' j ≡ get_elem? t j

dup_entry_lem :
    (o : Option File) (i : ℕ) (t : List File)
    → get_elem? t i ≡ o
    → 0 < ref_of o
    → Returns (λ t'. (ref_of (get_elem? t' i) ≡ ref_of o + 1) × SameOthers t i t') (dup_entry o i t)
unfolding dup_entry
dup_entry_lem none i t e h = absurd (omega arith)
dup_entry_lem (some f) i t e h = elim (Bool-cases (ltb f.ref 1)) [
  | inl bad ↦ absurd (ground arith)
  | inr ok ↦
      rw ok
        (ap ref_of (get_elem?-set_self t i _ (get_elem?-lt t i e)), λ j ne. get_elem?-set_ne t _ ne)
]

-- filedup adds one reference, and touches no other entry.
pub filedup_lem :
    (i : ℕ) (t : List File)
    → 0 < ref_of (get_elem? t i)
    → Returns
        (λ t'. (ref_of (get_elem? t' i) ≡ ref_of (get_elem? t i) + 1) × SameOthers t i t')
        (filedup i t)
unfolding filedup
filedup_lem i t h = dup_entry_lem (get_elem? t i) i t refl h

close_entry_lem :
    (o : Option File) (i : ℕ) (t : List File)
    → get_elem? t i ≡ o
    → 0 < ref_of o
    → Returns
        (λ (r, t').
          (ref_of (get_elem? t' i) + 1 ≡ ref_of o) × SameOthers t i t' × (ref_of o ≢ 1 → r ≡ keep))
        (close_entry o i t)
unfolding close_entry
close_entry_lem none i t e h = absurd (omega arith)
close_entry_lem (some f) i t e h = elim (Bool-cases (ltb f.ref 1)) [
  | inl bad ↦ absurd (ground arith)
  | inr ok ↦ elim (Bool-cases (ltb 0 (f.ref - 1))) [
    | inl more ↦
        rw (ok, more)
          (
            omega (
              arith,
              ap ref_of
                  (get_elem?-set_self t i (record f { ref = f.ref - 1 }) (get_elem?-lt t i e)),
            ),
            λ j ne. get_elem?-set_ne t _ ne,
            λ ne. refl,
          )
    | inr last ↦
        rw (ok, last)
          (
            ground (
              arith,
              ap ref_of (
                  get_elem?-set_self t i (record f { ref = 0; type_ = fd_none })
                    (get_elem?-lt t i e)),
            ),
            λ j ne. get_elem?-set_ne t _ ne,
            λ ne. absurd (ground arith),
          )
  ]
]

-- fileclose takes one reference away, touches no other entry, and releases the pipe or the inode
-- only with the last one.
pub fileclose_lem :
    (i : ℕ) (t : List File)
    → 0 < ref_of (get_elem? t i)
    → Returns
        (λ (r, t').
          (ref_of (get_elem? t' i) + 1 ≡ ref_of (get_elem? t i))
          × SameOthers t i t'
          × (ref_of (get_elem? t i) ≢ 1 → r ≡ keep))
        (fileclose i t)
unfolding fileclose
fileclose_lem i t h = close_entry_lem (get_elem? t i) i t refl h

-- A descriptor that argfd accepts holds a file with a reference.
argfd_lem :
    (fd : ℕ) (os : OpenFiles) {f : ℕ}
    → argfd fd os ≡ some f
    → (get_elem? os fd ≡ some (some f)) × (fd < nofile)
unfolding argfd
argfd_lem fd os e = ground arith

held_pos : (f : ℕ) (os : OpenFiles) (fd : ℕ) → get_elem? os fd ≡ some (some f) → 0 < held f os
held_pos f [] fd e = ground arith
held_pos f (o ∷ os) zero e = ground arith
held_pos f (o ∷ os) (suc fd) e = omega (arith, held_pos f os fd e)

module _ (elsewhere : ℕ → ℕ) where
  -- One more reference and one more descriptor.
  IsCounted-dup :
      (f : ℕ) (t t' : List File) (os : OpenFiles) (fd : ℕ)
      → IsCounted elsewhere t os
      → get_elem? os fd ≡ some none
      → (ref_of (get_elem? t' f) ≡ ref_of (get_elem? t f) + 1) × SameOthers t f t'
      → IsCounted elsewhere t' (set os fd (some f))
  IsCounted-dup f t t' os fd c e u g = elim (Bool-cases (f == g)) [
    | inl same ↦
        let e' : f ≡ g = ground arith in
        rw (← e')
          (omega (arith, u.0, c f, held-set f os fd none (some f) e, ap holds_self (==_refl f)))
    | inr other ↦
        let ne : f ≢ g = ground arith in
        ap ref_of (u.1 g ne)
        ∙ omega (arith, c g, held-set g os fd none (some f) e, ap holds_self other)
  ]
    where
      holds_self : Bool → ℕ
      holds_self b = if b then 1 else 0

  -- One reference and one descriptor less.
  IsCounted-close :
      (f : ℕ) (t t' : List File) (os : OpenFiles) (fd : ℕ)
      → IsCounted elsewhere t os
      → get_elem? os fd ≡ some (some f)
      → (ref_of (get_elem? t' f) + 1 ≡ ref_of (get_elem? t f)) × SameOthers t f t'
      → IsCounted elsewhere t' (set os fd none)
  IsCounted-close f t t' os fd c e u g = elim (Bool-cases (f == g)) [
    | inl same ↦
        let e' : f ≡ g = ground arith in
        rw (← e')
          (omega (arith, u.0, c f, held-set f os fd (some f) none e, ap holds_self (==_refl f)))
    | inr other ↦
        let ne : f ≢ g = ground arith in
        ap ref_of (u.1 g ne)
        ∙ omega (arith, c g, held-set g os fd (some f) none e, ap holds_self other)
  ]
    where
      holds_self : Bool → ℕ
      holds_self b = if b then 1 else 0

  abbrev pub CountedFiles : Option ℕ × Files → Type 0
  CountedFiles (r, s) = IsCounted elsewhere s.table s.ofile

  counted_pos :
      (s : Files) (fd f : ℕ)
      → IsCounted elsewhere s.table s.ofile
      → get_elem? s.ofile fd ≡ some (some f)
      → 0 < ref_of (get_elem? s.table f)
  counted_pos s fd f c e = omega (arith, c f, held_pos f s.ofile fd e)

  dup_to-Counted :
      (f : ℕ) (o : Option (ℕ × OpenFiles)) (s : Files)
      → IsCounted elsewhere s.table s.ofile
      → 0 < ref_of (get_elem? s.table f)
      → Placed f s.ofile o
      → Returns CountedFiles (dup_to f o s)
  unfolding dup_to
  dup_to-Counted f none s c h p = c
  dup_to-Counted f (some (fd, os)) s c h p =
      Returns-map CountedFiles (λ t. (some fd, record s { table = t; ofile = os }))
        (filedup f s.table) (filedup_lem f s.table h)
        (λ t' u.
          subst (IsCounted elsewhere t') (sym p.1) (IsCounted-dup f s.table t' s.ofile fd c p.0 u))

  dup_file-Counted :
      (o : Option ℕ) (fd : ℕ) (s : Files)
      → IsCounted elsewhere s.table s.ofile
      → argfd fd s.ofile ≡ o
      → Returns CountedFiles (dup_file o s)
  unfolding dup_file
  dup_file-Counted none fd s c e = c
  dup_file-Counted (some f) fd s c e =
      dup_to-Counted f (fdalloc f s.ofile) s c (counted_pos s fd f c (argfd_lem fd s.ofile e).0)
        (fdalloc-Placed f s.ofile)

  -- sys_dup does not panic where the counts are right, and keeps them right: each file's count is
  -- the number of descriptors that hold it and of the references held elsewhere.
  pub sys_dup-Counted :
      (fd : ℕ) (s : Files)
      → IsCounted elsewhere s.table s.ofile
      → Returns CountedFiles (sys_dup fd s)
  unfolding sys_dup
  sys_dup-Counted fd s c = dup_file-Counted (argfd fd s.ofile) fd s c refl

  close_file-Counted :
      (o : Option ℕ) (fd : ℕ) (s : Files)
      → IsCounted elsewhere s.table s.ofile
      → argfd fd s.ofile ≡ o
      → Returns CountedFiles (close_file o fd s)
  unfolding close_file
  close_file-Counted none fd s c e = c
  close_file-Counted (some f) fd s c e =
      let at = (argfd_lem fd s.ofile e).0 in
      Returns-map CountedFiles _ (fileclose f s.table)
        (fileclose_lem f s.table (counted_pos s fd f c at))
        (λ r u. IsCounted-close f s.table r.1 s.ofile fd c at (u.0, u.1))

  -- sys_close does not panic where the counts are right, and keeps them right.
  pub sys_close-Counted :
      (fd : ℕ) (s : Files)
      → IsCounted elsewhere s.table s.ofile
      → Returns CountedFiles (sys_close fd s)
  unfolding sys_close
  sys_close-Counted fd s c = close_file-Counted (argfd fd s.ofile) fd s c refl
