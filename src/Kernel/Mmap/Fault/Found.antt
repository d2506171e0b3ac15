-- ===== src/Kernel/Mmap/Fault/Found.antt =====
-- The area that mmap_load_instr finds for a page.
use mit_61810_labs.Prelude.{
  ℕ, zero, suc, ◌+◌, ◌≤◌, ◌<◌, ◌≡◌, ◌≢◌, refl, arith, inl, inr, false, ◌&&◌, Option, none, some,
  List, [], ◌∷◌, ltb, leb, Bool-cases, get_elem?,
}
use mit_61810_labs.Kernel.Vma.{VmArea, in_use}
use mit_61810_labs.Kernel.Mmap.{u64}
use mit_61810_labs.Kernel.Mmap.Fault.{find_area}

-- An area of the table that the page of the address lies in.
pub record Holds (areas : List VmArea) (pgaddr : ℕ) (a : VmArea) : Type 0 where
  pub slot : ℕ
  pub stored : get_elem? areas slot ≡ some a
  pub used : a.length_ ≢ 0
  pub lower : a.start_addr ≤ pgaddr
  pub upper : pgaddr < u64 (a.start_addr + a.length_)

-- No area in use holds the page of the address.
abbrev pub NoArea : List VmArea → ℕ → Type 0
NoArea areas pgaddr =
    (i : ℕ) (a : VmArea)
    → get_elem? areas i ≡ some a
    → a.length_ ≢ 0
    → a.start_addr ≤ pgaddr
    → pgaddr < u64 (a.start_addr + a.length_)
    → ⊥

abbrev pub AreaFound : List VmArea → ℕ → Option VmArea → Type 0
AreaFound areas pgaddr none = NoArea areas pgaddr
AreaFound areas pgaddr (some a) = Holds areas pgaddr a

find_area_step :
    (b : VmArea) (areas : List VmArea) (pgaddr : ℕ) (o : Option VmArea)
    → (in_use b && leb b.start_addr pgaddr && ltb pgaddr (u64 (b.start_addr + b.length_))) ≡ false
    → AreaFound areas pgaddr o
    → AreaFound (b ∷ areas) pgaddr o
find_area_step b areas pgaddr none out h = missed
  where
    rw_out :
        (a : VmArea)
        → b ≡ a
        → a.length_ ≢ 0
        → a.start_addr ≤ pgaddr
        → pgaddr < u64 (a.start_addr + a.length_)
        → ⊥
    rw_out a e used lo hi = ground (arith, out)

    missed : NoArea (b ∷ areas) pgaddr
    missed zero a e used lo hi = let same : b ≡ a = cc in rw_out a same used lo hi
    missed (suc i) a e used lo hi = h i a e used lo hi
find_area_step b areas pgaddr (some a) out h = record {
  slot = suc h.slot;
  stored = h.stored;
  used = h.used;
  lower = h.lower;
  upper = h.upper;
}

pub find_area_lem :
    (areas : List VmArea) (pgaddr : ℕ) → AreaFound areas pgaddr (find_area pgaddr areas)
unfolding find_area
find_area_lem [] pgaddr = λ i a e used lo hi. ground arith
find_area_lem (a ∷ areas) pgaddr =
    elim (Bool-cases
      (in_use a && leb a.start_addr pgaddr && ltb pgaddr (u64 (a.start_addr + a.length_)))) [
        | inl here ↦ rw here record {
          slot = 0;
          stored = refl;
          used = ground arith;
          lower = ground arith;
          upper = ground arith;
        }
        | inr other ↦ rw other (
            find_area_step a areas pgaddr (find_area pgaddr areas) other
              (find_area_lem areas pgaddr))
      ]
