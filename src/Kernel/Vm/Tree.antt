-- ===== src/Kernel/Vm/Tree.antt =====
-- The pages of a page table form a tree: what walk does to it.
use mit_61810_labs.Prelude.{
  ℕ, suc, ◌+◌, ◌*◌, ◌%◌, ◌<◌, ◌≡◌, ◌≢◌, ◌⊎◌, inl, inr, refl, sym, ap, ap₂, ◌∙◌, arith, true, false,
  ◌&&◌, Option, none, some, List, ◌∷◌, ◌==◌, ==_ne, ==_refl, if◌then◌else◌, Bool-cases, update,
  get_elem?,
}
use mathlib.Core.Option.{some-injective}
use mit_61810_labs.Kernel.Vm.{Tables, px, is_valid, pte_to_pa, pa_to_pte, new_table}

-- The entry that translates `va`, 0 if there is none.
unfoldable pub lookup : ℕ → ℕ → Tables → ℕ
lookup root va m =
    let e2 = m.entry root (px 2 va) in
    let e1 = m.entry (pte_to_pa e2) (px 1 va) in
    if is_valid e2 then (if is_valid e1 then m.entry (pte_to_pa e1) (px 0 va) else 0) else 0

-- `label t` is the level of the table `t` and the part of the addresses above it that leads to it.
pub record IsTree (root : ℕ) (label : ℕ → Option (ℕ × ℕ)) (m : Tables) : Type 0 where
  pub top : label root ≡ some (2, 0)
  pub down :
      (t l x i : ℕ)
      → label t ≡ some (suc l, x)
      → i < 512
      → is_valid (m.entry t i) ≡ true
      → label (pte_to_pa (m.entry t i)) ≡ some (l, x * 512 + i)
  pub unused : (n p : ℕ) → get_elem? m.unused n ≡ some p → label p ≡ none
  pub distinct :
      (n n' p : ℕ) → get_elem? m.unused n ≡ some p → get_elem? m.unused n' ≡ some p → n ≡ n'
  pub aligned : (n p : ℕ) → get_elem? m.unused n ≡ some p → p % 4096 ≡ 0

pub apart : (t a i j : ℕ) → (t == a && i == j) ≡ false → (a ≢ t) ⊎ (j ≢ i)
apart t a i j e = elim (Bool-cases (t == a)) [
  | inl same ↦ inr (λ q. ground arith)
  | inr other ↦ inl (λ q. ground arith)
]

-- A table that hangs below the entry `i` of `t` after a new page was put there.
module _ (root t l x i p : ℕ) (ps : List ℕ) (label : ℕ → Option (ℕ × ℕ)) (m : Tables)
    (h : IsTree root label m) (at : label t ≡ some (suc l, x)) (lt : i < 512)
    (list : m.unused ≡ p ∷ ps) (hole : is_valid (m.entry t i) ≡ false) where
  abbrev pub grown : Tables
  grown = (new_table t i (p ∷ ps) m).1

  abbrev pub label' : ℕ → Option (ℕ × ℕ)
  label' = update label p (some (l, x * 512 + i))

  head : get_elem? m.unused 0 ≡ some p
  head = ap (λ u. get_elem? u 0) list

  pub not_head : (a : ℕ) (z : ℕ × ℕ) → label a ≡ some z → (p == a) ≡ false
  not_head a z e = ==_ne p a (λ q. ground (arith, ap label q, h.unused 0 p head, e))

  pub entry_self : grown.entry t i ≡ pa_to_pte p + 1
  unfolding new_table
  entry_self = rw (==_refl t, ==_refl i) refl

  row : (t a j : ℕ) → t ≡ a → (p == a) ≡ false → update m.entry p (λ j. 0) t j ≡ m.entry a j
  row t a j q ne = ap (λ t. update m.entry p (λ j. 0) t j) q ∙ rw ne refl

  pub entry_other :
      (a j : ℕ) (z : ℕ × ℕ) → label a ≡ some z → (a ≢ t) ⊎ (j ≢ i) → grown.entry a j ≡ m.entry a j
  unfolding new_table
  entry_other a j z e d =
      let ne = not_head a z e in
      elim (Bool-cases (t == a)) [
        | inl same ↦ elim (Bool-cases (i == j)) [
          | inl same' ↦ absurd (elim d [ inl q ↦ ground arith | inr q ↦ ground arith ])
          | inr other ↦ let q : t ≡ a = ground arith in rw (same, other) (row t a j q ne)
        ]
        | inr other ↦ rw (other, ne) refl
      ]

  entry_new : (j : ℕ) → grown.entry p j ≡ 0
  unfolding new_table
  entry_new j =
      let ne : (t == p) ≡ false = ground (arith, not_head t (suc l, x) at) in
      rw (ne, ==_refl p) refl

  pub back_pa : pte_to_pa (pa_to_pte p + 1) ≡ p
  back_pa = omega (arith, h.aligned 0 p head)

  pub kept_label : (a : ℕ) (z : ℕ × ℕ) → label a ≡ some z → label' a ≡ some z
  kept_label a z e = rw (not_head a z e) e

  grown_down :
      (a l' x' j : ℕ)
      → label' a ≡ some (suc l', x')
      → j < 512
      → is_valid (grown.entry a j) ≡ true
      → label' (pte_to_pa (grown.entry a j)) ≡ some (l', x' * 512 + j)
  grown_down a l' x' j e lj v = elim (Bool-cases (p == a)) [
    | inl new ↦
        let q : p ≡ a = ground arith in
        absurd (ground (arith, ap (λ a. grown.entry a j) (sym q) ∙ entry_new j, v))
    | inr old ↦
        let e' : label a ≡ some (suc l', x') = sym (rw old refl) ∙ e in
        elim (Bool-cases (t == a && i == j)) [
          | inl here ↦
              let q : t ≡ a = ground arith in
              let q' : i ≡ j = ground arith in
              let f : grown.entry a j ≡ pa_to_pte p + 1 =
                ap (λ a. grown.entry a j) (sym q) ∙ ap (grown.entry t) (sym q') ∙ entry_self in
              let s : ◌≡◌ {A = Option (ℕ × ℕ)} (some (suc l, x)) (some (suc l', x')) =
                sym at ∙ ap label q ∙ e' in
              let pair : ◌≡◌ {A = ℕ × ℕ} (suc l, x) (suc l', x') =
                some-injective (suc l, x) (suc l', x') s in
              let level : suc l ≡ suc l' = ap (λ z. z.0) pair in
              let part : x ≡ x' = ap (λ z. z.1) pair in
              let ll : l ≡ l' = omega (arith, level) in
              let xx : x * 512 + i ≡ x' * 512 + j = omega (arith, part, q') in
              ap label' (ap pte_to_pa f ∙ back_pa)
              ∙ rw (==_refl p) (ap₂ (λ (a b : ℕ). some (a, b)) ll xx)
          | inr other ↦
              let f = entry_other a j (suc l', x') e' (apart t a i j other) in
              ap (λ y. label' (pte_to_pa y)) f
              ∙ kept_label (pte_to_pa (m.entry a j)) (l', x' * 512 + j)
                  (h.down a l' x' j e' lj (ap is_valid (sym f) ∙ v))
        ]
  ]

  grown_unused : (n q : ℕ) → get_elem? grown.unused n ≡ some q → get_elem? m.unused (suc n) ≡ some q
  unfolding new_table
  grown_unused n q e = ap (λ u. get_elem? u (suc n)) list ∙ e

  pub grown-IsTree : IsTree root label' grown
  grown-IsTree = record {
    top = kept_label root (2, 0) h.top;
    down = grown_down;
    unused = λ n q e.
        let e' = grown_unused n q e in
        let ne : (p == q) ≡ false =
          ==_ne p q (λ r. ground (arith, h.distinct 0 (suc n) q (head ∙ ap some r) e')) in
        rw ne (h.unused (suc n) q e');
    distinct = λ n n' q e e'.
        omega (arith, h.distinct (suc n) (suc n') q (grown_unused n q e) (grown_unused n' q e'));
    aligned = λ n q e. h.aligned (suc n) q (grown_unused n q e);
  }

  -- Through the new entry there is nothing.
  through : (va : ℕ) (e : ℕ) → e ≡ pa_to_pte p + 1 → (j : ℕ) → grown.entry (pte_to_pa e) j ≡ 0
  through va e q j =
      ap (λ e. grown.entry (pte_to_pa e) j) q ∙ ap (λ a. grown.entry a j) back_pa ∙ entry_new j

  new_valid : (e : ℕ) → e ≡ pa_to_pte p + 1 → is_valid e ≡ true
  new_valid e q = ground (arith, q)

  at_place :
      (a j : ℕ)
      → (t == a && i == j) ≡ true
      → (grown.entry a j ≡ pa_to_pte p + 1) × (is_valid (m.entry a j) ≡ false)
  at_place a j here =
      let q : t ≡ a = ground arith in
      let q' : i ≡ j = ground arith in
      (
        ap (λ a. grown.entry a j) (sym q) ∙ ap (grown.entry t) (sym q') ∙ entry_self,
        ap (λ a. is_valid (m.entry a j)) (sym q) ∙ ap (λ j. is_valid (m.entry t j)) (sym q') ∙ hole,
      )

  pub lookup-grown : (va : ℕ) → lookup root va grown ≡ lookup root va m
  unfolding lookup
  lookup-grown va =
      let e2 = m.entry root (px 2 va) in
      let t1 = pte_to_pa e2 in
      let e1 = m.entry t1 (px 1 va) in
      let t0 = pte_to_pa e1 in
      elim (Bool-cases (t == root && i == px 2 va)) [
        | inl here ↦
            let f = at_place root (px 2 va) here in
            rw (f.1, new_valid _ f.0, through va _ f.0 (px 1 va)) refl
        | inr other ↦
            let f2 = entry_other root (px 2 va) (2, 0) h.top (apart t root i (px 2 va) other) in
            elim (Bool-cases (is_valid e2)) [
              | inr off ↦ rw (f2, off) refl
              | inl on ↦
                  let l1 = h.down root 1 0 (px 2 va) h.top (omega arith) on in
                  elim (Bool-cases (t == t1 && i == px 1 va)) [
                    | inl here ↦
                        let f = at_place t1 (px 1 va) here in
                        rw (f2, on, f.1, new_valid _ f.0, through va _ f.0 (px 0 va)) refl
                    | inr other1 ↦
                        let f1 =
                          entry_other t1 (px 1 va) (1, 0 * 512 + px 2 va) l1
                            (apart t t1 i (px 1 va) other1) in
                        elim (Bool-cases (is_valid e1)) [
                          | inr off ↦ rw (f2, on, f1, off) refl
                          | inl on1 ↦
                              let l0 =
                                h.down t1 0 (0 * 512 + px 2 va) (px 1 va) l1 (omega arith) on1 in
                              rw (f2, on, f1, on1)
                                (entry_other t0 (px 0 va) (0, (0 * 512 + px 2 va) * 512 + px 1 va)
                                  l0 (inl (λ q. ground (arith, ap label q, l0, at))))
                        ]
                  ]
            ]
      ]
