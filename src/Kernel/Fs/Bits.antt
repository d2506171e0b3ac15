-- ===== src/Kernel/Fs/Bits.antt =====
-- The bits of a byte, checked for every byte and every pair of bits.
use mit_61810_labs.Prelude.{
  ℕ, zero, suc, ◌-◌, ◌%◌, ◌^◌, ◌<◌, ◌≡◌, refl, sym, ap, ◌∙◌, and_true, ltb→lt, arith, inl, inr,
  Bool-cases, Bool, true, false, not, ◌&&◌, ltb, ◌==◌, if◌then◌else◌,
}
use Prim.Native.Nat.{bit_and, bit_or}
use mit_61810_labs.Kernel.Fs.{mask, is_clear, set_bit, clear_bit}

-- A test passes for every number under a bound.
passes : (ℕ → Bool) → ℕ → Bool
passes test zero = true
passes test (suc bound) = if test bound then passes test bound else false

test-passes : (test : ℕ → Bool) (bound v : ℕ) → v < bound → passes test bound ≡ true → test v ≡ true
unfolding passes
test-passes test zero v lt all = absurd (omega arith)
test-passes test (suc bound) v lt all = elim (Bool-cases (v == bound)) [
  | inl last ↦ let e : v ≡ bound = ground arith in ap test e ∙ ground arith
  | inr under ↦ test-passes test bound v (ground arith) (ground arith)
]

same : Bool → Bool → Bool
same true b = b
same false b = not b

eq_of_same : (a b : Bool) → same a b ≡ true → a ≡ b
unfolding same
eq_of_same a b h = ground arith

-- What the two changes of a bit do to the test of a bit.
set_law : ℕ → ℕ → ℕ → Bool
set_law k j v =
    ltb (set_bit v k) 256
    && same (is_clear (set_bit v k) j) (if k == j then false else is_clear v j)

clear_law : ℕ → ℕ → ℕ → Bool
clear_law k j v =
    ltb (clear_bit v k) 256
    && same (is_clear (clear_bit v k) j) (if k == j then true else is_clear v j)

table : (ℕ → ℕ → ℕ → Bool) → Bool
table law = passes (λ k. passes (λ j. passes (law k j) 256) 8) 8

table_sound :
    (law : ℕ → ℕ → ℕ → Bool) (k j v : ℕ)
    → table law ≡ true
    → k < 8
    → j < 8
    → v < 256
    → law k j v ≡ true
unfolding table
table_sound law k j v h hk hj hv =
    let row = test-passes (λ k. passes (λ j. passes (law k j) 256) 8) 8 k hk h in
    let cell = test-passes (λ j. passes (law k j) 256) 8 j hj row in
    test-passes (law k j) 256 v hv cell

set_table : table set_law ≡ true
unfolding table passes set_law same is_clear set_bit mask
set_table = refl

clear_table : table clear_law ≡ true
unfolding table passes clear_law same is_clear clear_bit mask
clear_table = refl

mask_mod : (bi : ℕ) → mask bi ≡ mask (bi % 8)
unfolding mask
mask_mod bi = ap (λ n. 2 ^ n) (omega arith)

is_clear_mod : (v j : ℕ) → is_clear v j ≡ is_clear v (j % 8)
unfolding is_clear
is_clear_mod v j = ap (λ m. bit_and v m == 0) (mask_mod j)

-- A change of a byte whose effect on the test of a bit is `new` for the changed bit.
module _ (change : ℕ → ℕ → ℕ) (new : Bool)
    (change_mod : (v bi : ℕ) → change v bi ≡ change v (bi % 8))
    (law : (k j v : ℕ)
      → k < 8
      → j < 8
      → v < 256
      → (ltb (change v k) 256
          && same (is_clear (change v k) j) (if k == j then new else is_clear v j))
        ≡ true) where
  change_lem :
      (bi j v : ℕ)
      → v < 256
      → (change v bi < 256)
        × (is_clear (change v bi) j ≡ (if bi % 8 == j % 8 then new else is_clear v j))
  change_lem bi j v h =
      let l = law (bi % 8) (j % 8) v (omega arith) (omega arith) h in
      let parts = and_true (ltb (change v (bi % 8)) 256) _ l in
      (
        ltb→lt (change v bi) 256 (ap (λ c. ltb c 256) (change_mod v bi) ∙ parts.0),
        is_clear_mod (change v bi) j
            ∙ ap (λ c. is_clear c (j % 8)) (change_mod v bi)
            ∙ eq_of_same _ _ parts.1
            ∙ ap (λ (c : Bool). if bi % 8 == j % 8 then new else c) (sym (is_clear_mod v j)),
      )

-- For a byte and bits of any number, taken modulo 8.
pub set_bit_lem :
    (bi j v : ℕ)
    → v < 256
    → (set_bit v bi < 256)
      × (is_clear (set_bit v bi) j ≡ (if bi % 8 == j % 8 then false else is_clear v j))
unfolding set_law set_bit
set_bit_lem =
    change_lem set_bit false (λ v bi. ap (bit_or v) (mask_mod bi))
      (λ k j v a b c. table_sound set_law k j v set_table a b c)

pub clear_bit_lem :
    (bi j v : ℕ)
    → v < 256
    → (clear_bit v bi < 256)
      × (is_clear (clear_bit v bi) j ≡ (if bi % 8 == j % 8 then true else is_clear v j))
unfolding clear_law clear_bit
clear_bit_lem =
    change_lem clear_bit true (λ v bi. ap (λ m. bit_and v (255 - m)) (mask_mod bi))
      (λ k j v a b c. table_sound clear_law k j v clear_table a b c)
