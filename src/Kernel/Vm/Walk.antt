-- ===== src/Kernel/Vm/Walk.antt =====
-- walk: it finds or makes the entry of an address, and no translation changes.
use mit_61810_labs.Prelude.{
  ℕ, suc, ◌+◌, ◌*◌, ◌^◌, ◌<◌, ◌≡◌, inl, inr, refl, sym, ap, ◌∙◌, arith, Bool, true, false, ◌&&◌,
  Option, none, some, List, [], ◌∷◌, leb, ◌==◌, ==_refl, Bool-cases, Returns,
}
use mit_61810_labs.Kernel.Vm.{
  Tables, px, is_valid, pte_to_pa, new_table, walk_step, then_step, leaf_of, walk,
}
use mit_61810_labs.Kernel.Vm.Tree.{
  lookup, IsTree, apart, entry_self, entry_other, back_pa, kept_label, label', grown-IsTree,
  lookup-grown,
}

-- From `m` to `m'` page tables were added and no translation changed.
pub record Extends (root : ℕ) (label label' : ℕ → Option (ℕ × ℕ)) (m m' : Tables) : Type 0 where
  pub tree : IsTree root label' m'
  pub kept : (a : ℕ) (z : ℕ × ℕ) → label a ≡ some z → label' a ≡ some z
  pub same : (va : ℕ) → lookup root va m' ≡ lookup root va m
  pub stays :
      (a j : ℕ) (z : ℕ × ℕ)
      → label a ≡ some z
      → is_valid (m.entry a j) ≡ true
      → m'.entry a j ≡ m.entry a j

Extends-refl :
    (root : ℕ) (label : ℕ → Option (ℕ × ℕ)) (m : Tables)
    → IsTree root label m
    → Extends root label label m m
Extends-refl root label m h = record {
  tree = h;
  kept = λ a z e. e;
  same = λ va. refl;
  stays = λ a j z e v. refl;
}

-- The table below the entry `i` of `t`.
abbrev IsBelow : ℕ → ℕ → ℕ → ℕ → (ℕ → Option (ℕ × ℕ)) → Tables → Option ℕ → Type 0
IsBelow t l x i label m none = Unit {0}
IsBelow t l x i label m (some t') =
    (label t' ≡ some (l, x * 512 + i))
    × (is_valid (m.entry t i) ≡ true)
    × (t' ≡ pte_to_pa (m.entry t i))

IsStep : ℕ → ℕ → ℕ → ℕ → ℕ → (ℕ → Option (ℕ × ℕ)) → Tables → Option ℕ × Tables → Type 0
IsStep root t l x i label m r =
    (label' : ℕ → Option (ℕ × ℕ)) × Extends root label label' m r.1 × IsBelow t l x i label' r.1 r.0

grow_lem :
    (root t l x i : ℕ) (free : List ℕ) (label : ℕ → Option (ℕ × ℕ)) (m : Tables)
    → IsTree root label m
    → label t ≡ some (suc l, x)
    → i < 512
    → m.unused ≡ free
    → is_valid (m.entry t i) ≡ false
    → IsStep root t l x i label m (new_table t i free m)
unfolding IsStep new_table
grow_lem root t l x i [] label m h at lt q hole = (label, Extends-refl root label m h, tt)
grow_lem root t l x i (p ∷ ps) label m h at lt q hole =
    let self = entry_self root t l x i p ps label m h at lt q hole in
    (
      label' root t l x i p ps label m h at lt q hole,
      record {
        tree = grown-IsTree root t l x i p ps label m h at lt q hole;
        kept = kept_label root t l x i p ps label m h at lt q hole;
        same = lookup-grown root t l x i p ps label m h at lt q hole;
        stays = λ a j z e v.
            entry_other root t l x i p ps label m h at lt q hole a j z e
              (elim (Bool-cases (t == a && i == j)) [
                | inl here ↦
                    let q1 : t ≡ a = ground arith in
                    let q2 : i ≡ j = ground arith in
                    absurd (
                      ground (
                        arith,
                        ap (λ a. is_valid (m.entry a j)) (sym q1)
                            ∙ ap (λ j. is_valid (m.entry t j)) (sym q2)
                            ∙ hole,
                        v,
                      ))
                | inr other ↦ apart t a i j other
              ]);
      },
      (
        rw (==_refl p) refl,
        ground (arith, self),
        sym (ap pte_to_pa self ∙ back_pa root t l x i p ps label m h at lt q hole),
      ),
    )

walk_step_lem :
    (root t l x va level : ℕ) (alloc : Bool) (label : ℕ → Option (ℕ × ℕ)) (m : Tables)
    → IsTree root label m
    → label t ≡ some (suc l, x)
    → px level va < 512
    → IsStep root t l x (px level va) label m (walk_step alloc level va t m)
unfolding walk_step IsStep
walk_step_lem root t l x va level alloc label m h at lt =
    elim (Bool-cases (is_valid (m.entry t (px level va)))) [
      | inl on ↦
          rw on
            (label, Extends-refl root label m h, (h.down t l x (px level va) at lt on, on, refl))
      | inr off ↦ elim (Bool-cases alloc) [
        | inl yes_ ↦
            rw (off, yes_) (grow_lem root t l x (px level va) m.unused label m h at lt refl off)
        | inr no_ ↦ rw (off, no_) (label, Extends-refl root label m h, tt)
      ]
    ]

-- The pages of the addresses that the table of the lowest level with this label is for.
abbrev pub high_part : ℕ → ℕ
high_part va = (0 * 512 + px 2 va) * 512 + px 1 va

-- What walk comes to: no translation changes, the pages of the table are a tree as before, and the
-- entry that is found is the one that translates the address.
abbrev pub IsLeaf : ℕ → ℕ → (ℕ → Option (ℕ × ℕ)) → Tables → Option (ℕ × ℕ) → Type 0
IsLeaf root va label m none = Unit {0}
IsLeaf root va label m (some (t, i)) =
    (label t ≡ some (0, high_part va))
    × (i ≡ px 0 va)
    × (is_valid (m.entry root (px 2 va)) ≡ true)
    × (is_valid (m.entry (pte_to_pa (m.entry root (px 2 va))) (px 1 va)) ≡ true)
    × (t ≡ pte_to_pa (m.entry (pte_to_pa (m.entry root (px 2 va))) (px 1 va)))

abbrev pub IsWalk : ℕ → ℕ → (ℕ → Option (ℕ × ℕ)) → Tables → Option (ℕ × ℕ) × Tables → Type 0
IsWalk root va label m r =
    (label' : ℕ → Option (ℕ × ℕ)) × Extends root label label' m r.1 × IsLeaf root va label' r.1 r.0

Extends-trans :
    (root : ℕ) (k l n : ℕ → Option (ℕ × ℕ)) (a b c : Tables)
    → Extends root k l a b
    → Extends root l n b c
    → Extends root k n a c
Extends-trans root k l n a b c e f = record {
  tree = f.tree;
  kept = λ x z q. f.kept x z (e.kept x z q);
  same = λ va. f.same va ∙ e.same va;
  stays = λ x j z q v.
      let s = e.stays x j z q v in f.stays x j z (e.kept x z q) (ap is_valid s ∙ v) ∙ s;
}

third_lem :
    (root va : ℕ) (label label1 : ℕ → Option (ℕ × ℕ)) (m m1 : Tables) (t1 : ℕ)
    (r : Option ℕ × Tables)
    → label root ≡ some (2, 0)
    → Extends root label label1 m m1
    → label1 t1 ≡ some (1, 0 * 512 + px 2 va)
    → is_valid (m1.entry root (px 2 va)) ≡ true
    → t1 ≡ pte_to_pa (m1.entry root (px 2 va))
    → IsStep root t1 0 (0 * 512 + px 2 va) (px 1 va) label1 m1 r
    → IsWalk root va label m (leaf_of va r)
unfolding IsStep
third_lem root va label label1 m m1 t1 (none, m2) top e at on q (label2, f, _) =
    (label2, Extends-trans root label label1 label2 m m1 m2 e f, tt)
third_lem root va label label1 m m1 t1 (some t0, m2) top e at on q (label2, f, (at0, on1, q0)) =
    let s : m2.entry root (px 2 va) ≡ m1.entry root (px 2 va) =
      f.stays root (px 2 va) (2, 0) (e.kept root (2, 0) top) on in
    let t : t1 ≡ pte_to_pa (m2.entry root (px 2 va)) = q ∙ ap pte_to_pa (sym s) in
    (
      label2,
      Extends-trans root label label1 label2 m m1 m2 e f,
      (
        at0,
        refl,
        ap is_valid s ∙ on,
        ap (λ a. is_valid (m2.entry a (px 1 va))) (sym t) ∙ on1,
        q0 ∙ ap (λ a. pte_to_pa (m2.entry a (px 1 va))) t,
      ),
    )

second_lem :
    (root va : ℕ) (alloc : Bool) (label : ℕ → Option (ℕ × ℕ)) (m : Tables) (r : Option ℕ × Tables)
    → label root ≡ some (2, 0)
    → IsStep root root 1 0 (px 2 va) label m r
    → IsWalk root va label m (leaf_of va (then_step (walk_step alloc 1 va) r))
unfolding IsStep
second_lem root va alloc label m (none, m1) top (label1, e, _) = (label1, e, tt)
second_lem root va alloc label m (some t1, m1) top (label1, e, (at, on, q)) =
    third_lem root va label label1 m m1 t1 (walk_step alloc 1 va t1 m1) top e at on q
      (walk_step_lem root t1 0 (0 * 512 + px 2 va) va 1 alloc label1 m1 e.tree at (omega arith))

-- walk, on a page table whose pages form a tree.
pub walk_lem :
    (root va : ℕ) (alloc : Bool) (label : ℕ → Option (ℕ × ℕ)) (m : Tables)
    → IsTree root label m
    → va < 2 ^ 38
    → Returns (IsWalk root va label m) (walk root va alloc m)
unfolding walk
walk_lem root va alloc label m h lt =
    let fits : leb (2 ^ 38) va ≡ false = ground arith in
    rw fits (
      second_lem root va alloc label m (walk_step alloc 2 va root m) h.top
        (walk_step_lem root root 1 0 va 2 alloc label m h h.top (omega arith)))
