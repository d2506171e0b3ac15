-- ===== src/Kernel/Vm/Map.antt =====
-- mappages: the pages of the range get their translations, and no other address does.
use mit_61810_labs.Prelude.{
  ℕ, zero, suc, ◌+◌, ◌-◌, ◌*◌, ◌/◌, ◌%◌, ◌^◌, ◌≤◌, ◌<◌, ◌≡◌, ◌≢◌, ◌⊎◌, inl, inr, refl, sym, ap, ◌∙◌,
  arith, Bool, true, false, Option, none, some, ltb, ◌==◌, ==_ne, Bool-cases, Outcome, done, panic,
  Returns, ◌>>=◌,
}
use Prim.Native.Nat.{bit_or}
use mathlib.Core.Option.{some-injective}
use mit_61810_labs.Kernel.Vm.{Tables, px, is_valid, pte_to_pa, pa_to_pte, walk, set_pte}
use mit_61810_labs.Kernel.Vm.Tree.{lookup, IsTree, label'}
use mit_61810_labs.Kernel.Vm.Walk.{Extends, IsWalk, IsLeaf, high_part, walk_lem}
use mit_61810_labs.Kernel.Vm.{map_at, map_pages, mappages}

-- The entry `i` of the table `t` of the lowest level is stored to.
module _ (root t h i v : ℕ) (label : ℕ → Option (ℕ × ℕ)) (m : Tables) (tree : IsTree root label m)
    (at : label t ≡ some (0, h)) where
  set_away : (a j l x : ℕ) → label a ≡ some (suc l, x) → (set_pte t i v m).entry a j ≡ m.entry a j
  unfolding set_pte
  set_away a j l x e =
      let ne : (t == a) ≡ false = ==_ne t a (λ q. ground (arith, ap label q, at, e)) in rw ne refl

  stored : (a j : ℕ) → t ≡ a → i ≡ j → (set_pte t i v m).entry a j ≡ v
  unfolding set_pte
  stored a j q r =
      let e : (t == a) ≡ true = ground arith in
      let e' : (i == j) ≡ true = ground arith in rw (e, e') refl

  set-IsTree : IsTree root label (set_pte t i v m)
  unfolding set_pte
  set-IsTree = record {
    top = tree.top;
    down = λ a l x j e lj on.
        let s = set_away a j l x e in
        ap (λ y. label (pte_to_pa y)) s ∙ tree.down a l x j e lj (ap is_valid (sym s) ∙ on);
    unused = tree.unused;
    distinct = tree.distinct;
    aligned = tree.aligned;
  }

  set_leaf : (a j : ℕ) → (t ≡ a → i ≡ j → ⊥) → (set_pte t i v m).entry a j ≡ m.entry a j
  unfolding set_pte
  set_leaf a j away = elim (Bool-cases (t == a)) [
    | inl same ↦
        let q : t ≡ a = ground arith in
        let ne : (i == j) ≡ false = ==_ne i j (away q) in rw (same, ne) (ap (λ a. m.entry a j) q)
    | inr other ↦ rw other refl
  ]

  same_part : (a va : ℕ) → t ≡ a → label a ≡ some (0, high_part va) → high_part va ≡ h
  same_part a va q e =
      ap (λ z. z.1) (some-injective (0, high_part va) (0, h) (sym e ∙ ap label (sym q) ∙ at))

  -- The address that the entry is for gets the new translation.
  lookup-set_self :
      (va : ℕ) → IsLeaf root va label m (some (t, i)) → lookup root va (set_pte t i v m) ≡ v
  unfolding lookup
  lookup-set_self va (_, j, on, on1, q) =
      let s2 = set_away root (px 2 va) 1 0 tree.top in
      let l1 = tree.down root 1 0 (px 2 va) tree.top (omega arith) on in
      let s1 = set_away (pte_to_pa (m.entry root (px 2 va))) (px 1 va) 0 (0 * 512 + px 2 va) l1 in
      rw (s2, on, s1, on1)
        (stored (pte_to_pa (m.entry (pte_to_pa (m.entry root (px 2 va))) (px 1 va))) (px 0 va) q j)

  -- Another address is translated as before.
  lookup-set_ne :
      (va : ℕ)
      → ((high_part va ≡ h) → (px 0 va ≡ i) → ⊥)
      → lookup root va (set_pte t i v m) ≡ lookup root va m
  unfolding lookup
  lookup-set_ne va away =
      let e2 = m.entry root (px 2 va) in
      let t1 = pte_to_pa e2 in
      let e1 = m.entry t1 (px 1 va) in
      let t0 = pte_to_pa e1 in
      let s2 = set_away root (px 2 va) 1 0 tree.top in
      elim (Bool-cases (is_valid e2)) [
        | inr off ↦ rw (s2, off) refl
        | inl on ↦
            let l1 = tree.down root 1 0 (px 2 va) tree.top (omega arith) on in
            let s1 = set_away t1 (px 1 va) 0 (0 * 512 + px 2 va) l1 in
            elim (Bool-cases (is_valid e1)) [
              | inr off ↦ rw (s2, on, s1, off) refl
              | inl on1 ↦
                  let l0 = tree.down t1 0 (0 * 512 + px 2 va) (px 1 va) l1 (omega arith) on1 in
                  rw (s2, on, s1, on1)
                    (set_leaf t0 (px 0 va) (λ q r. away (same_part t0 va q l0) (sym r)))
            ]
      ]

lookup_leaf :
    (root va t i : ℕ) (label : ℕ → Option (ℕ × ℕ)) (m : Tables)
    → IsLeaf root va label m (some (t, i))
    → lookup root va m ≡ m.entry t i
unfolding lookup
lookup_leaf root va t i label m (_, j, on, on1, q) =
    rw (on, on1) (ap (λ a. m.entry a (px 0 va)) (sym q) ∙ ap (m.entry t) (sym j))

-- Addresses of one page are translated by one entry.
lookup_page : (root a b : ℕ) (m : Tables) → a / 4096 ≡ b / 4096 → lookup root a m ≡ lookup root b m
unfolding lookup
lookup_page root a b m e =
    let p2 : px 2 a ≡ px 2 b = omega arith in
    let p1 : px 1 a ≡ px 1 b = omega arith in
    let p0 : px 0 a ≡ px 0 b = omega arith in rw (p2, p1, p0) refl

one_page :
    (a b : ℕ)
    → a < 2 ^ 38
    → b < 2 ^ 38
    → high_part a ≡ high_part b
    → px 0 a ≡ px 0 b
    → a / 4096 ≡ b / 4096
one_page a b la lb h p = omega arith

-- The entry that mappages makes for the physical page `pa`.
abbrev pub leaf_pte : ℕ → ℕ → ℕ
leaf_pte pa perm = bit_or (bit_or (pa_to_pte pa) perm) 1

module _ (root perm : ℕ) where
  walked :
      {P : Option (ℕ × ℕ) × Tables → Type 0} (Q : Outcome (Bool × Tables) → Type 0)
      (f : Option (ℕ × ℕ) × Tables → Outcome (Bool × Tables))
      (o : Outcome (Option (ℕ × ℕ) × Tables))
      → Returns P o
      → ((r : Option (ℕ × ℕ) × Tables) → P r → Q (f r))
      → Q (o >>= f)
  walked Q f (done r) p k = k r p
  walked Q f (panic m) p k = absurd p

  -- `n` pages from `va` on were mapped to those from `pa` on.
  pub record IsMapped (k va pa : ℕ) (m : Tables) (r : Bool × Tables) : Type 0 where
    pub label : ℕ → Option (ℕ × ℕ)
    pub tree : IsTree root label r.1
    pub n : ℕ
    pub result : ((r.0 ≡ true) × (n ≡ k)) ⊎ ((r.0 ≡ false) × (n < k))
    pub new :
        (a : ℕ)
        → va ≤ a
        → a < va + n * 4096
        → lookup root a r.1 ≡ leaf_pte (pa + (a - va) / 4096 * 4096) perm
    pub same :
        (a : ℕ) → a < 2 ^ 38 → (a < va) ⊎ (va + n * 4096 ≤ a) → lookup root a r.1 ≡ lookup root a m

  abbrev pub IsMap : ℕ → ℕ → ℕ → Tables → Outcome (Bool × Tables) → Type 0
  IsMap k va pa m (done r) = IsMapped k va pa m r
  IsMap k va pa m (panic _) =
      (a : ℕ) × (va ≤ a) × (a < va + k * 4096) × (is_valid (lookup root a m) ≡ true)

  module _ (k va pa : ℕ) (label label1 : ℕ → Option (ℕ × ℕ)) (m m1 : Tables) (t i : ℕ)
      (e : Extends root label label1 m m1) (leaf : IsLeaf root va label1 m1 (some (t, i)))
      (al : va % 4096 ≡ 0) (fits : va + suc k * 4096 ≤ 2 ^ 38) where
    abbrev next : Tables
    next = set_pte t i (leaf_pte pa perm) m1

    next_self : (a : ℕ) → a / 4096 ≡ va / 4096 → lookup root a next ≡ leaf_pte pa perm
    next_self a q =
        lookup_page root a va next q
        ∙ lookup-set_self root t (high_part va) i (leaf_pte pa perm) label1 m1 e.tree leaf.0 va leaf

    next_other : (a : ℕ) → a < 2 ^ 38 → a / 4096 ≢ va / 4096 → lookup root a next ≡ lookup root a m
    next_other a la ne =
        lookup-set_ne root t (high_part va) i (leaf_pte pa perm) label1 m1 e.tree leaf.0 a
          (λ h p. ne (one_page a va la (omega (arith, fits)) h (p ∙ leaf.1)))
        ∙ e.same a

    round_lem :
        (o : Outcome (Bool × Tables))
        → IsMap k (va + 4096) (pa + 4096) next o
        → IsMap (suc k) va pa m o
    round_lem (panic _) (a, ge, lt, on) = (
      a,
      omega arith,
      omega arith,
      ap is_valid (sym (next_other a (omega (arith, fits)) (λ q. omega (arith, al, q, ge)))) ∙ on,
    )
    round_lem (done r) p = record {
      label = p.label;
      tree = p.tree;
      n = suc p.n;
      result = elim p.result [
        | inl (q, n) ↦ inl (q, omega (arith, n))
        | inr (q, n) ↦ inr (q, omega (arith, n))
      ];
      new = λ a ge lt. elim (Bool-cases (ltb a (va + 4096))) [
        | inl first ↦
            let below : a < va + 4096 = ground arith in
            let page : a / 4096 ≡ va / 4096 = omega arith in
            let z : pa ≡ pa + (a - va) / 4096 * 4096 = omega arith in
            p.same a (omega (arith, fits)) (inl below)
            ∙ next_self a page
            ∙ ap (λ x. leaf_pte x perm) z
        | inr later ↦
            let ge' : va + 4096 ≤ a = ground arith in
            let z : pa + 4096 + (a - (va + 4096)) / 4096 * 4096 ≡ pa + (a - va) / 4096 * 4096 =
              omega arith in
            p.new a ge' (omega arith) ∙ ap (λ x. leaf_pte x perm) z
      ];
      same = λ a la out.
          p.same a la (elim out [ inl q ↦ inl (omega arith) | inr q ↦ inr (omega arith) ])
          ∙ next_other a la (λ q. elim out [ inl b ↦ omega arith | inr b ↦ omega arith ]);
    }

  stop_lem :
      (k va pa : ℕ) (label : ℕ → Option (ℕ × ℕ)) (m m' : Tables) (label' : ℕ → Option (ℕ × ℕ))
      (ok : Bool)
      → ((ok ≡ true) × (0 ≡ k)) ⊎ ((ok ≡ false) × (0 < k))
      → Extends root label label' m m'
      → IsMapped k va pa m (ok, m')
  stop_lem k va pa label m m' label' ok why e = record {
    label = label';
    tree = e.tree;
    n = 0;
    result = why;
    new = λ a ge lt. absurd (omega arith);
    same = λ a la out. e.same a;
  }

  at_lem :
      (k va pa : ℕ) (label : ℕ → Option (ℕ × ℕ)) (m : Tables) (r : Option (ℕ × ℕ) × Tables)
      → va % 4096 ≡ 0
      → va + suc k * 4096 ≤ 2 ^ 38
      → IsWalk root va label m r
      → ((label1 : ℕ → Option (ℕ × ℕ)) (m1 : Tables)
          → IsTree root label1 m1
          → IsMap k (va + 4096) (pa + 4096) m1 (map_pages k root (va + 4096) (pa + 4096) perm m1))
      → IsMap
          (suc k)
          va
          pa
          m
          (map_at pa perm (λ m'. map_pages k root (va + 4096) (pa + 4096) perm m') r)
  unfolding map_at
  at_lem k va pa label m (none, m1) al fits (label1, e, _) ih =
      stop_lem (suc k) va pa label m m1 label1 false (inr (refl, omega arith)) e
  at_lem k va pa label m (some (t, i), m1) al fits (label1, e, leaf) ih =
      elim (Bool-cases (is_valid (m1.entry t i))) [
        | inl on ↦ rw on (
          va,
          omega arith,
          omega arith,
          ap is_valid (sym (e.same va) ∙ lookup_leaf root va t i label1 m1 leaf) ∙ on,
        )
        | inr off ↦ rw off (
            round_lem k va pa label label1 m m1 t i e leaf al fits _ (
              ih label1 _
                (set-IsTree root t (high_part va) i (leaf_pte pa perm) label1 m1 e.tree leaf.0)))
      ]

  map_pages_lem :
      (k va pa : ℕ) (label : ℕ → Option (ℕ × ℕ)) (m : Tables)
      → IsTree root label m
      → va % 4096 ≡ 0
      → va + k * 4096 ≤ 2 ^ 38
      → IsMap k va pa m (map_pages k root va pa perm m)
  unfolding map_pages
  map_pages_lem zero va pa label m h al fits = record {
    label = label;
    tree = h;
    n = 0;
    result = inl (refl, refl);
    new = λ a ge lt. absurd (omega arith);
    same = λ a la out. refl;
  }
  map_pages_lem (suc k) va pa label m h al fits =
      walked (IsMap (suc k) va pa m)
        (map_at pa perm (λ m'. map_pages k root (va + 4096) (pa + 4096) perm m'))
        (walk root va true m) (walk_lem root va true label m h (omega arith))
        (λ r w. at_lem k va pa label m r al fits w (λ label1 m1 t.
          map_pages_lem k (va + 4096) (pa + 4096) label1 m1 t (omega arith) (omega arith)))

  -- For a page table whose pages form a tree, and a range of whole pages below MAXVA that is not empty:
  -- mappages panics only if an address of the range has a translation already; else the pages of the
  -- table form a tree as before, the first n pages of the range are translated to the physical pages
  -- from pa on with the permissions, and every other address as before. It returns 0 if n is all of
  -- the range, and -1 if it is less.
  pub mappages_lem :
      (va size pa : ℕ) (label : ℕ → Option (ℕ × ℕ)) (m : Tables)
      → IsTree root label m
      → va % 4096 ≡ 0
      → size % 4096 ≡ 0
      → size ≢ 0
      → va + size ≤ 2 ^ 38
      → IsMap (size / 4096) va pa m (mappages root va size pa perm m)
  unfolding mappages
  mappages_lem va size pa label m h al al' nz fits =
      let a : (va % 4096 == 0) ≡ true = ground arith in
      let b : (size % 4096 == 0) ≡ true = ground arith in
      let c : (size == 0) ≡ false = ground arith in
      rw (a, b, c) (map_pages_lem (size / 4096) va pa label m h al (omega arith))
