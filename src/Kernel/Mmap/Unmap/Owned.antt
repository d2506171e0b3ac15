-- ===== src/Kernel/Mmap/Unmap/Owned.antt =====
-- The areas of a process: their order, the references that they own, and the scan of sys_munmap.
use mit_61810_labs.Prelude.{
  ℕ, zero, suc, ◌+◌, ◌≤◌, ◌≡◌, ◌≢◌, ◌⊎◌, refl, sym, ap, ◌∙◌, arith, inl, inr, false, ◌&&◌, Option,
  none, some, List, [], ◌∷◌, leb, if◌then◌else◌, Bool-cases, get_elem?, set, set-cases, subst,
}
use mit_61810_labs.Kernel.Vma.{VmArea, in_use}
use mit_61810_labs.Kernel.File.{File}
use mit_61810_labs.Kernel.File.Counts.{ref_of, holds}
use mit_61810_labs.Kernel.Fork.References.{mapped}
use mit_61810_labs.Kernel.Mmap.{u64}
use mit_61810_labs.Kernel.Mmap.Layout.{IsLaidOut, IsLaidOut-keep}
use mit_61810_labs.Kernel.Mmap.Unmap.{find_range}
use mit_61810_labs.Kernel.Mmap.Unmap.Ranges.{IsRange}

-- All areas in use are apart, and each has its pages in its range.
pub record AreInOrder (areas : List VmArea) (bound : ℕ) : Type 0 where
  pub layout : IsLaidOut areas bound
  pub ranges : (i : ℕ) (a : VmArea) → get_elem? areas i ≡ some a → a.length_ ≢ 0 → IsRange a

pub AreInOrder-set :
    (areas : List VmArea) (bound i : ℕ) (v old : VmArea)
    → get_elem? areas i ≡ some old
    → (v.length_ ≡ 0) ⊎ ((v.length_ ≡ old.length_) × (v.start_addr ≡ old.start_addr))
    → (v.length_ ≢ 0 → IsRange v)
    → AreInOrder areas bound
    → AreInOrder (set areas i v) bound
AreInOrder-set areas bound i v old e c r o = record {
  layout = IsLaidOut-keep areas bound i v old e c o.layout;
  ranges = λ j a f u. elim (set-cases areas i v j f) [
    | inl (p, q) ↦ subst IsRange (sym q) (r (λ z. u (ap (λ (x : VmArea). x.length_) q ∙ z)))
    | inr (p, q) ↦ o.ranges j a q u
  ];
}

-- No area in use has the range in its valid range.
abbrev pub NoRange : ℕ → ℕ → List VmArea → Type 0
NoRange addr len areas =
    (i : ℕ) (a : VmArea)
    → get_elem? areas i ≡ some a
    → a.length_ ≢ 0
    → a.valid_start ≤ addr
    → u64 (addr + len) ≤ a.valid_end
    → ⊥

-- What find_range gives.
abbrev pub Found : ℕ → ℕ → List VmArea → Option (ℕ × VmArea) → Type 0
Found addr len areas none = NoRange addr len areas
Found addr len areas (some (i, a)) =
    (get_elem? areas i ≡ some a)
    × (a.length_ ≢ 0)
    × (a.valid_start ≤ addr)
    × (u64 (addr + len) ≤ a.valid_end)

find_range_step :
    (addr len : ℕ) (a : VmArea) (areas : List VmArea) (o : Option (ℕ × VmArea))
    → (in_use a && leb a.valid_start addr && leb (u64 (addr + len)) a.valid_end) ≡ false
    → Found addr len areas o
    → Found addr len (a ∷ areas) (elim o [ none ↦ none | some (i, b) ↦ some (suc i, b) ])
find_range_step addr len a areas none out f = missed
  where
    first :
        (b : VmArea)
        → a ≡ b
        → b.length_ ≢ 0
        → b.valid_start ≤ addr
        → u64 (addr + len) ≤ b.valid_end
        → ⊥
    first b e used lo hi = ground (arith, out)

    missed : NoRange addr len (a ∷ areas)
    missed zero b e used lo hi = let same : a ≡ b = cc in first b same used lo hi
    missed (suc i) b e used lo hi = f i b e used lo hi
find_range_step addr len a areas (some (i, b)) out f = f

pub find_range-Found :
    (addr len : ℕ) (areas : List VmArea) → Found addr len areas (find_range addr len areas)
unfolding find_range
find_range-Found addr len [] = λ i a e used lo hi. ground arith
find_range-Found addr len (a ∷ areas) =
    elim (Bool-cases (in_use a && leb a.valid_start addr && leb (u64 (addr + len)) a.valid_end)) [
      | inl here ↦ rw here (refl, ground arith, ground arith, ground arith)
      | inr other ↦ rw other (
          find_range_step addr len a areas (find_range addr len areas) other
            (find_range-Found addr len areas))
    ]

-- Each area in use has a file, and each file has a reference for every area in use that holds it.
pub record AreOwned (areas : List VmArea) (t : List File) : Type 0 where
  pub named :
      (i : ℕ) (a : VmArea)
      → get_elem? areas i ≡ some a
      → a.length_ ≢ 0
      → (f : ℕ) × (a.fptr ≡ some f)
  pub counted : (f : ℕ) → mapped f areas ≤ ref_of (get_elem? t f)

abbrev pub part : ℕ → VmArea → ℕ
part f a = if in_use a then holds f a.fptr else 0

mapped-set :
    (f : ℕ) (areas : List VmArea) (i : ℕ) (a v : VmArea)
    → get_elem? areas i ≡ some a
    → mapped f (set areas i v) + part f a ≡ mapped f areas + part f v
mapped-set f [] i a v e = ground arith
mapped-set f (x ∷ areas) zero a v e = let q : x ≡ a = cc in rw (← q) (omega arith)
mapped-set f (x ∷ areas) (suc i) a v e = omega (arith, mapped-set f areas i a v e)

pub mapped-part :
    (f : ℕ) (areas : List VmArea) (i : ℕ) (a : VmArea)
    → get_elem? areas i ≡ some a
    → part f a ≤ mapped f areas
mapped-part f [] i a e = ground arith
mapped-part f (x ∷ areas) zero a e = let q : x ≡ a = cc in rw (← q) (omega arith)
mapped-part f (x ∷ areas) (suc i) a e = omega (arith, mapped-part f areas i a e)

pub AreOwned-set :
    (areas : List VmArea) (t t' : List File) (i : ℕ) (a v : VmArea)
    → get_elem? areas i ≡ some a
    → (v.length_ ≢ 0 → (f : ℕ) × (v.fptr ≡ some f))
    → ((f : ℕ) → ref_of (get_elem? t f) + part f v ≤ ref_of (get_elem? t' f) + part f a)
    → AreOwned areas t
    → AreOwned (set areas i v) t'
AreOwned-set areas t t' i a v e file refs o = record {
  named = λ j x g u. elim (set-cases areas i v j g) [
    | inl (p, q) ↦
        let (f, r) = file (λ z. u (ap (λ (x : VmArea). x.length_) q ∙ z)) in
        (f, ap (λ (x : VmArea). x.fptr) q ∙ r)
    | inr (p, q) ↦ o.named j x q u
  ];
  counted = λ f. omega (arith, o.counted f, refs f, mapped-set f areas i a v e);
}
