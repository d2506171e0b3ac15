-- ===== src/Kernel/Mmap/Unmap/Ranges.antt =====
-- sys_munmap: the ranges of the areas.
use mit_61810_labs.Prelude.{
  ℕ, ◌+◌, ◌-◌, ◌%◌, ◌^◌, ◌≤◌, ◌<◌, ◌≡◌, ◌⊎◌, refl, arith, inl, inr, Option, none, some, ◌==◌,
  Bool-cases,
}
use mit_61810_labs.Kernel.Vma.{VmArea}
use mit_61810_labs.Kernel.Mmap.{page_size, u64}
use mit_61810_labs.Kernel.Mmap.Unmap.{shrink}

-- The range of an area that its pages may be loaded in: page-aligned and inside the mapping.
pub record IsRange (a : VmArea) : Type 0 where
  pub lower : a.start_addr ≤ a.valid_start
  pub order : a.valid_start ≤ a.valid_end
  pub upper : a.valid_end ≤ a.start_addr + a.length_
  pub word : a.start_addr + a.length_ < 2 ^ 64
  pub start : a.start_addr % page_size ≡ 0
  pub aligned : (a.valid_start % page_size ≡ 0) × (a.valid_end % page_size ≡ 0)

-- Whether address `x` is in the valid range.
abbrev pub InRange : VmArea → ℕ → Type 0
InRange a x = (a.valid_start ≤ x) × (x < a.valid_end)

-- What sys_munmap of [addr, addr + len) leaves of the valid range of `a`.
pub record IsShrunk (addr len : ℕ) (a b : VmArea) : Type 0 where
  pub range : IsRange b
  pub same : (b.start_addr ≡ a.start_addr) × (b.length_ ≡ a.length_)
  pub inside : (x : ℕ) → InRange b x → InRange a x × ((x < addr) ⊎ (addr + len ≤ x))
  pub rest : (x : ℕ) → InRange a x → (x < addr) ⊎ (addr + len ≤ x) → InRange b x

-- The new area where there is one; else the range lies strictly inside.
abbrev pub Shrunk : ℕ → ℕ → VmArea → Option VmArea → Type 0
Shrunk addr len a none = (a.valid_start < addr) × (addr + len < a.valid_end)
Shrunk addr len a (some b) = IsShrunk addr len a b

-- munmap of a range that does not wrap, inside the valid range of the area: the new range is again
-- inside the mapping, and its addresses are those of the old one outside the range given back; only a
-- range strictly inside is refused.
pub shrink_lem :
    (addr len : ℕ) (a : VmArea)
    → IsRange a
    → addr % page_size ≡ 0
    → len % page_size ≡ 0
    → a.valid_start ≤ addr
    → addr + len ≤ a.valid_end
    → Shrunk addr len a (shrink addr len a)
unfolding shrink
shrink_lem addr len a v p q lo hi =
    let word : u64 (addr + len) ≡ addr + len = ground (arith, v) in
    let cut : u64 (a.valid_end + 2 ^ 64 - len) ≡ a.valid_end - len = ground (arith, v) in
    elim (Bool-cases (a.valid_start == addr)) [
      | inl front ↦
          let here : a.valid_start ≡ addr = ground arith in
          rw (front, word)
            record {
              range = record {
                lower = omega (arith, v.lower);
                order = omega (arith, v.order);
                upper = v.upper;
                word = v.word;
                start = v.start;
                aligned = (omega arith, v.aligned.1);
              };
              same = (refl, refl);
              inside = λ x r. ((omega (arith, r), r.1), inr r.0);
              rest = λ x r o. (ground arith, r.1);
            }
      | inr other ↦ elim (Bool-cases (u64 (addr + len) == a.valid_end)) [
        | inl back ↦
            let here : addr + len ≡ a.valid_end = ground arith in
            rw (other, back, cut)
              record {
                range = record {
                  lower = v.lower;
                  order = omega arith;
                  upper = omega (arith, v.upper);
                  word = v.word;
                  start = v.start;
                  aligned = (v.aligned.0, omega (arith, v.aligned));
                };
                same = (refl, refl);
                inside = λ x r. ((r.0, omega (arith, r)), inl (omega (arith, r)));
                rest = λ x r o. (r.0, ground arith);
              }
        | inr inner ↦ rw (other, inner) (ground arith)
      ]
    ]
