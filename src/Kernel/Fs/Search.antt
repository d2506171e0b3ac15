-- ===== src/Kernel/Fs/Search.antt =====
-- The search of the bitmap in balloc.
use mit_61810_labs.Prelude.{
  ℕ, zero, suc, ◌+◌, ◌-◌, ◌*◌, ◌/◌, ◌%◌, ◌≤◌, ◌<◌, ◌≡◌, refl, sym, ap, ◌∙◌, subst, arith, inl, inr,
  true, false, Option, none, some, ltb, Bool-cases, Option-cases, min,
}
use mit_61810_labs.Kernel.Fs.{
  bits_per_block, Superblock, Disk, is_clear, bitmap_block, is_free, find_clear, find_free, or_else,
}

module _ (sb : Superblock) (d : Disk) where
  -- The outcome of a search of the blocks from `a` up to `z`.
  abbrev pub IsScan : ℕ → ℕ → Option ℕ → Type 0
  IsScan a z none = (x : ℕ) → a ≤ x → x < z → is_free sb x d ≡ false
  IsScan a z (some x) =
      (a ≤ x)
      × (x < z)
      × (is_free sb x d ≡ true)
      × ((y : ℕ) → a ≤ y → y < x → is_free sb y d ≡ false)

  bit_free :
      (b j : ℕ)
      → b % bits_per_block ≡ 0
      → j < bits_per_block
      → is_free sb (b + j) d ≡ is_clear (d.block (bitmap_block sb b) (j / 8)) j
  unfolding is_free bitmap_block
  bit_free b j e h =
      let low : (b + j) % bits_per_block ≡ j = omega arith in
      let high : (b + j) / bits_per_block ≡ b / bits_per_block = omega arith in rw (low, high) refl

  -- Two searches in a row, the first of which finds nothing up to `m`.
  IsScan-join :
      (a m z : ℕ) (o : Option ℕ)
      → a ≤ m
      → ((x : ℕ) → a ≤ x → x < z → x < m → is_free sb x d ≡ false)
      → IsScan m z o
      → IsScan a z o
  IsScan-join a m z none le all h = λ x p q. elim (Bool-cases (ltb x m)) [
    | inl before ↦ all x p q (ground arith)
    | inr after ↦ h x (ground arith) q
  ]
  IsScan-join a m z (some w) le all (ge, lt, fr, low) = (
    omega arith,
    lt,
    fr,
    λ y p q. elim (Bool-cases (ltb y m)) [
      | inl before ↦ all y p (omega arith) (ground arith)
      | inr after ↦ low y (ground arith) q
    ],
  )

  IsScan-range : (a a' z z' : ℕ) (o : Option ℕ) → a ≡ a' → z ≡ z' → IsScan a z o → IsScan a' z' o
  IsScan-range a a' z z' o p q h = subst (λ x. IsScan x z' o) p (subst (λ x. IsScan a x o) q h)

  find_clear_lem :
      (k b j : ℕ)
      → b % bits_per_block ≡ 0
      → j + k ≤ bits_per_block
      → IsScan (b + j) (b + j + k) (find_clear sb k b j d)
  unfolding find_clear
  find_clear_lem zero b j e h = λ x le lt. absurd (omega arith)
  find_clear_lem (suc k) b j e h =
      let bit : is_free sb (b + j) d ≡ is_clear (d.block (bitmap_block sb b) (j / 8)) j =
        bit_free b j e (omega arith) in
      elim (Bool-cases (is_clear (d.block (bitmap_block sb b) (j / 8)) j)) [
        | inl clear ↦
            rw clear (omega arith, omega arith, bit ∙ clear, λ y p q. absurd (omega arith))
        | inr used ↦ rw used (
            IsScan-join (b + j) (b + suc j) (b + j + suc k) (find_clear sb k b (suc j) d)
              (omega arith) (λ x p q r. ap (λ x. is_free sb x d) (omega (arith, p, r)) ∙ bit ∙ used)
              (IsScan-range (b + suc j) (b + suc j) (b + suc j + k) (b + j + suc k)
                (find_clear sb k b (suc j) d) refl (omega arith)
                (find_clear_lem k b (suc j) e (omega arith))))
      ]

  pub find_free_lem :
      (k b : ℕ)
      → b % bits_per_block ≡ 0
      → sb.size ≤ b + k * bits_per_block
      → IsScan b sb.size (find_free sb k b d)
  unfolding find_free
  find_free_lem zero b e h = λ x le lt. absurd (omega arith)
  find_free_lem (suc k) b e h =
      let n = min bits_per_block (sb.size - b) in
      let rest = find_free sb k (b + bits_per_block) d in
      let here = find_clear_lem n b 0 e (omega arith) in
      elim (Option-cases (find_clear sb n b 0 d)) [
        | inl nothing ↦
            let all : IsScan (b + 0) (b + 0 + n) none =
              subst (IsScan (b + 0) (b + 0 + n)) nothing here in
            subst (λ o. IsScan b sb.size (or_else o rest)) (sym nothing)
              (IsScan-join b (b + bits_per_block) sb.size rest (omega arith)
                (λ x p q r. all x (omega arith) (omega arith))
                (find_free_lem k (b + bits_per_block) (omega arith) (omega arith)))
        | inr (x, found) ↦
            let at : IsScan (b + 0) (b + 0 + n) (some x) =
              subst (IsScan (b + 0) (b + 0 + n)) found here in
            subst (λ o. IsScan b sb.size (or_else o rest)) (sym found)
              (omega (arith, at.0), omega (arith, at.1), at.2, λ y p q. at.3 y (omega arith) q)
      ]
