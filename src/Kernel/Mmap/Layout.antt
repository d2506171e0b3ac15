-- ===== src/Kernel/Mmap/Layout.antt =====
-- The mapped areas of a process lie below `next_start` and apart from one another.
use mit_61810_labs.Prelude.{
  ℕ, zero, suc, ◌+◌, ◌≤◌, ◌≡◌, ◌≢◌, ◌⊎◌, refl, ap, arith, inl, inr, Option, none, some, List, [],
  ◌∷◌, get_elem?, set, set-cases, Bool-cases,
}
use mit_61810_labs.Kernel.Vma.{VmArea, in_use}
use mit_61810_labs.Kernel.Mmap.{free_slot}

abbrev pub Apart : VmArea → VmArea → Type 0
Apart a b = (a.start_addr + a.length_ ≤ b.start_addr) ⊎ (b.start_addr + b.length_ ≤ a.start_addr)

pub record IsLaidOut (areas : List VmArea) (bound : ℕ) : Type 0 where
  pub bounded :
      (i : ℕ) (a : VmArea)
      → get_elem? areas i ≡ some a
      → a.length_ ≢ 0
      → a.start_addr + a.length_ ≤ bound
  pub apart :
      (i j : ℕ) (a b : VmArea)
      → get_elem? areas i ≡ some a
      → get_elem? areas j ≡ some b
      → i ≢ j
      → a.length_ ≢ 0
      → b.length_ ≢ 0
      → Apart a b

pub IsLaidOut-mono : (areas : List VmArea) (n m : ℕ) → n ≤ m → IsLaidOut areas n → IsLaidOut areas m
IsLaidOut-mono areas n m h l = record {
  bounded = λ i a e u. omega (arith, l.bounded i a e u);
  apart = l.apart;
}

-- A slot that gets an area behind the bound.
pub IsLaidOut-new :
    (areas : List VmArea) (n i : ℕ) (v : VmArea)
    → n ≤ v.start_addr
    → IsLaidOut areas n
    → IsLaidOut (set areas i v) (v.start_addr + v.length_)
IsLaidOut-new areas n i v h l = record {
  bounded = λ j a e u. elim (set-cases areas i v j e) [
    | inl (p, q) ↦
        omega (arith, ap (λ (x : VmArea). x.start_addr) q, ap (λ (x : VmArea). x.length_) q)
    | inr (p, q) ↦ omega (arith, l.bounded j a q u)
  ];
  apart = λ j k a b ea eb ne ua ub. elim (set-cases areas i v j ea) [
    | inl (p, q) ↦ elim (set-cases areas i v k eb) [
      | inl (p', q') ↦ absurd (omega (arith, p, p', ne))
      | inr (p', q') ↦ inr (omega (arith, l.bounded k b q' ub, ap (λ (x : VmArea). x.start_addr) q))
    ]
    | inr (p, q) ↦ elim (set-cases areas i v k eb) [
      | inl (p', q') ↦ inl (omega (arith, l.bounded j a q ua, ap (λ (x : VmArea). x.start_addr) q'))
      | inr (p', q') ↦ l.apart j k a b q q' ne ua ub
    ]
  ];
}

-- A slot that gets an area in the place of its own, or none.
pub IsLaidOut-keep :
    (areas : List VmArea) (n i : ℕ) (v old : VmArea)
    → get_elem? areas i ≡ some old
    → (v.length_ ≡ 0) ⊎ ((v.length_ ≡ old.length_) × (v.start_addr ≡ old.start_addr))
    → IsLaidOut areas n
    → IsLaidOut (set areas i v) n
IsLaidOut-keep areas n i v old e c l = record {
  bounded = λ j a f u. elim (set-cases areas i v j f) [
    | inl (p, q) ↦ ground (
      arith,
      l.bounded i old e,
      ap (λ (x : VmArea). x.start_addr) q,
      ap (λ (x : VmArea). x.length_) q,
      c,
    )
    | inr (p, q) ↦ l.bounded j a q u
  ];
  apart = λ j k a b ea eb ne ua ub. elim (set-cases areas i v j ea) [
    | inl (p, q) ↦ elim (set-cases areas i v k eb) [
      | inl (p', q') ↦ absurd (omega (arith, p, p', ne))
      | inr (p', q') ↦ ground (
        arith,
        l.apart i k old b e q',
        ap (λ (x : VmArea). x.start_addr) q,
        ap (λ (x : VmArea). x.length_) q,
        c,
      )
    ]
    | inr (p, q) ↦ elim (set-cases areas i v k eb) [
      | inl (p', q') ↦ ground (
        arith,
        l.apart j i a old q e,
        ap (λ (x : VmArea). x.start_addr) q',
        ap (λ (x : VmArea). x.length_) q',
        c,
      )
      | inr (p', q') ↦ l.apart j k a b q q' ne ua ub
    ]
  ];
}

-- The slot that free_slot finds is not in use.
abbrev pub FreeSlot : List VmArea → Option ℕ → Type 0
FreeSlot areas none = (i : ℕ) (a : VmArea) → get_elem? areas i ≡ some a → a.length_ ≢ 0
FreeSlot areas (some i) = (a : VmArea) × (get_elem? areas i ≡ some a) × (a.length_ ≡ 0)

FreeSlot-step :
    (a : VmArea) (areas : List VmArea) (o : Option ℕ)
    → a.length_ ≢ 0
    → FreeSlot areas o
    → FreeSlot (a ∷ areas) (elim o [ none ↦ none | some i ↦ some (suc i) ])
FreeSlot-step a areas none h f = all_used
  where
    all_used : (i : ℕ) (b : VmArea) → get_elem? (a ∷ areas) i ≡ some b → b.length_ ≢ 0
    all_used zero b e = let same : a ≡ b = cc in rw (← same) h
    all_used (suc i) b e = f i b e
FreeSlot-step a areas (some i) h f = f

free_here : (a : VmArea) (areas : List VmArea) → a.length_ ≡ 0 → FreeSlot (a ∷ areas) (some 0)
free_here a areas h = (a, refl, h)

pub free_slot-FreeSlot : (areas : List VmArea) → FreeSlot areas (free_slot areas)
unfolding free_slot
free_slot-FreeSlot [] = λ i a e. ground arith
free_slot-FreeSlot (a ∷ areas) = elim (Bool-cases (in_use a)) [
  | inl taken ↦
      rw taken (FreeSlot-step a areas (free_slot areas) (ground arith) (free_slot-FreeSlot areas))
  | inr free ↦ rw free (free_here a areas (ground arith))
]
