-- ===== src/Kernel/Fs/Table/Unique.antt =====
-- iget: one entry for each inode.
use mit_61810_labs.Prelude.{
  ℕ, zero, suc, ◌+◌, ◌%◌, ◌^◌, ◌<◌, ◌≡◌, ◌≢◌, ◌⊎◌, inl, inr, refl, sym, ap, ◌∙◌, subst, arith, true,
  false, Option, none, some, List, [], ◌∷◌, ◌==◌, if◌then◌else◌, Bool-cases, ==_refl, ==_ne,
  get_elem?, Outcome, done, panic,
}
use mathlib.Core.Option.{some-injective}
use mit_61810_labs.Kernel.Fs.Table.{
  Entry, is_positive, one_more, is_entry, remember, scan_entries, alter, reset_entry, take_entry,
  iget,
}

abbrev pub on_entry : (Entry → Entry) → Option Entry → Option Entry
on_entry f none = none
on_entry f (some e) = some (f e)

get_elem?-alter :
    (t : List Entry) (i j : ℕ) (f : Entry → Entry)
    → get_elem? (alter i f t) j ≡ (if i == j then on_entry f (get_elem? t j) else get_elem? t j)
unfolding alter
get_elem?-alter [] i j f = ground arith
get_elem?-alter (e ∷ es) zero zero f = refl
get_elem?-alter (e ∷ es) zero (suc j) f = ground arith
get_elem?-alter (e ∷ es) (suc i) zero f = ground arith
get_elem?-alter (e ∷ es) (suc i) (suc j) f = get_elem?-alter es i j f ∙ ground arith

-- No two entries in use stand for one inode.
unfoldable pub IsUnique : List Entry → Type 0
IsUnique t =
    (i j : ℕ) (e e' : Entry)
    → get_elem? t i ≡ some e
    → get_elem? t j ≡ some e'
    → is_positive e.ref ≡ true
    → is_positive e'.ref ≡ true
    → e.dev ≡ e'.dev
    → e.ino.inum ≡ e'.ino.inum
    → i ≡ j

-- What the loop of iget finds.
IsScan : ℕ → ℕ → ℕ → Option ℕ → List Entry → Option ℕ × Option ℕ → Type 0
IsScan dev inum i empty t (some j, _) =
    (n : ℕ) × (e : Entry) × (j ≡ i + n) × (get_elem? t n ≡ some e) × (is_entry dev inum e ≡ true)
IsScan dev inum i empty t (none, some j) =
    ((n : ℕ) (e : Entry) → get_elem? t n ≡ some e → is_entry dev inum e ≡ false)
    × ((empty ≡ some j)
        ⊎ ((n : ℕ) × (e : Entry) × (j ≡ i + n) × (get_elem? t n ≡ some e) × (e.ref ≡ 0)))
IsScan dev inum i empty t (none, none) =
    ((n : ℕ) (e : Entry) → get_elem? t n ≡ some e → (is_entry dev inum e ≡ false) × (0 < e.ref))
    × (empty ≡ none)

miss_all :
    (dev inum : ℕ) (e : Entry) (es : List Entry)
    → is_entry dev inum e ≡ false
    → ((n : ℕ) (e' : Entry) → get_elem? es n ≡ some e' → is_entry dev inum e' ≡ false)
    → (n : ℕ) (e' : Entry) → get_elem? (e ∷ es) n ≡ some e'
    → is_entry dev inum e' ≡ false
miss_all dev inum e es miss h zero e' q =
    subst (λ o. is_entry dev inum o ≡ false) (some-injective e e' q) miss
miss_all dev inum e es miss h (suc n) e' q = h n e' q

full_all :
    (dev inum : ℕ) (e : Entry) (es : List Entry)
    → is_entry dev inum e ≡ false
    → 0 < e.ref
    → ((n : ℕ) (e' : Entry)
        → get_elem? es n ≡ some e'
        → (is_entry dev inum e' ≡ false) × (0 < e'.ref))
    → (n : ℕ) (e' : Entry) → get_elem? (e ∷ es) n ≡ some e'
    → (is_entry dev inum e' ≡ false) × (0 < e'.ref)
full_all dev inum e es miss pos h zero e' q =
    subst (λ o. (is_entry dev inum o ≡ false) × (0 < o.ref)) (some-injective e e' q) (miss, pos)
full_all dev inum e es miss pos h (suc n) e' q = h n e' q

IsScan-cons :
    (dev inum i : ℕ) (empty : Option ℕ) (e : Entry) (es : List Entry) (r : Option ℕ × Option ℕ)
    → is_entry dev inum e ≡ false
    → IsScan dev inum (suc i) (remember empty i e) es r
    → IsScan dev inum i empty (e ∷ es) r
unfolding IsScan
IsScan-cons dev inum i empty e es (some j, o) miss (n, e', q, at, hit) =
    (suc n, e', omega (arith, q), at, hit)
IsScan-cons dev inum i empty e es (none, some j) miss (all, inr (n, e', q, at, z)) =
    (miss_all dev inum e es miss all, inr (suc n, e', omega (arith, q), at, z))
IsScan-cons dev inum i (some k) e es (none, some j) miss (all, inl q) =
    (miss_all dev inum e es miss all, inl q)
IsScan-cons dev inum i none e es (none, some j) miss (all, inl q) = elim (Bool-cases (e.ref == 0)) [
  | inl free ↦
      let q' : i ≡ j = ground arith in
      (miss_all dev inum e es miss all, inr (0, e, omega (arith, q'), refl, ground arith))
  | inr used ↦ absurd (ground arith)
]
IsScan-cons dev inum i (some k) e es (none, none) miss (all, q) = absurd (ground (arith, q))
IsScan-cons dev inum i none e es (none, none) miss (all, q) = elim (Bool-cases (e.ref == 0)) [
  | inl free ↦ absurd (ground arith)
  | inr used ↦ (full_all dev inum e es miss (ground arith) all, refl)
]

scan_entries_lem :
    (dev inum i : ℕ) (empty : Option ℕ) (t : List Entry)
    → IsScan dev inum i empty t (scan_entries dev inum i empty t)
unfolding IsScan scan_entries
scan_entries_lem dev inum i none [] = ((λ n e q. ground arith), refl)
scan_entries_lem dev inum i (some j) [] = ((λ n e q. ground arith), inl refl)
scan_entries_lem dev inum i empty (e ∷ es) = elim (Bool-cases (is_entry dev inum e)) [
  | inl hit ↦ rw hit (0, e, omega arith, refl, hit)
  | inr miss ↦ rw miss (
      IsScan-cons dev inum i empty e es (scan_entries dev inum (suc i) (remember empty i e) es) miss
        (scan_entries_lem dev inum (suc i) (remember empty i e) es))
]

-- One entry is changed into one that stands for the inode, which no other entry in use stands for.
module _ (dev inum k : ℕ) (f : Entry → Entry) (t : List Entry) (e : Entry)
    (at : get_elem? t k ≡ some e) (dev' : (f e).dev ≡ dev) (inum' : (f e).ino.inum ≡ inum)
    (alone : (j : ℕ) (o : Entry)
      → j ≢ k
      → get_elem? t j ≡ some o
      → is_positive o.ref ≡ true
      → o.dev ≡ dev
      → o.ino.inum ≡ inum
      → ⊥) where
  altered_self : get_elem? (alter k f t) k ≡ some (f e)
  altered_self = get_elem?-alter t k k f ∙ rw (==_refl k, at) refl

  altered-ne : (j : ℕ) → j ≢ k → get_elem? (alter k f t) j ≡ get_elem? t j
  altered-ne j ne = get_elem?-alter t k j f ∙ rw (==_ne k j (λ q. ne (sym q))) refl

  same_entry : (j : ℕ) (o : Entry) → j ≡ k → get_elem? (alter k f t) j ≡ some o → f e ≡ o
  same_entry j o q at' =
      some-injective (f e) o (sym altered_self ∙ ap (get_elem? (alter k f t)) (sym q) ∙ at')

  not_alone :
      (i j : ℕ) (o o' : Entry)
      → i ≡ k
      → j ≢ k
      → get_elem? (alter k f t) i ≡ some o
      → get_elem? (alter k f t) j ≡ some o'
      → is_positive o'.ref ≡ true
      → o.dev ≡ o'.dev
      → o.ino.inum ≡ o'.ino.inum
      → ⊥
  not_alone i j o o' q ne a b pos d n =
      let same = same_entry i o q a in
      alone j o' ne (sym (altered-ne j ne) ∙ b) pos (sym d ∙ sym (ap (λ o. o.dev) same) ∙ dev')
        (sym n ∙ sym (ap (λ o. o.ino.inum) same) ∙ inum')

  altered-IsUnique : IsUnique t → IsUnique (alter k f t)
  unfolding IsUnique
  altered-IsUnique u i j o o' a b pos pos' d n = elim (Bool-cases (i == k)) [
    | inl ik ↦ elim (Bool-cases (j == k)) [
      | inl jk ↦ ground arith
      | inr nj ↦ absurd (not_alone i j o o' (ground arith) (λ q. ground arith) a b pos' d n)
    ]
    | inr ni ↦ elim (Bool-cases (j == k)) [
      | inl jk ↦
          absurd (not_alone j i o' o (ground arith) (λ q. ground arith) b a pos (sym d) (sym n))
      | inr nj ↦
          u i j o o' (sym (altered-ne i (λ q. ground arith)) ∙ a)
            (sym (altered-ne j (λ q. ground arith)) ∙ b) pos pos' d n
    ]
  ]

-- The entry of the inode counts a reference more, and is else the same.
abbrev pub IsShared : ℕ → ℕ → Entry → Entry → Type 0
IsShared dev inum e e' =
    (is_positive e.ref ≡ true)
    × (e.dev ≡ dev)
    × (e.ino.inum ≡ inum)
    × (e'.ref ≡ (e.ref + 1) % 2 ^ 32)
    × (e'.dev ≡ e.dev)
    × (e'.valid ≡ e.valid)
    × (e'.holder ≡ e.holder)
    × (e'.ino ≡ e.ino)

-- An entry without references stands for the inode, with one reference, and is still to be read.
abbrev pub IsRecycled : ℕ → ℕ → Entry → Entry → Type 0
IsRecycled dev inum e e' =
    (e.ref ≡ 0)
    × (e'.dev ≡ dev)
    × (e'.ino.inum ≡ inum)
    × (e'.ref ≡ 1)
    × (e'.valid ≡ false)
    × (e'.holder ≡ e.holder)

-- What iget comes to.
pub record IsGot (dev inum : ℕ) (t : List Entry) (r : ℕ × List Entry) : Type 0 where
  pub entry : Entry
  pub was : get_elem? t r.0 ≡ some entry
  pub next : Entry
  pub now : get_elem? r.1 r.0 ≡ some next
  pub change : IsShared dev inum entry next ⊎ IsRecycled dev inum entry next
  pub others : (j : ℕ) → j ≢ r.0 → get_elem? r.1 j ≡ get_elem? t j
  pub unique : IsUnique r.1

abbrev pub IsIget : ℕ → ℕ → List Entry → Outcome (ℕ × List Entry) → Type 0
IsIget dev inum t (done r) = IsGot dev inum t r
IsIget dev inum t (panic m) =
    (n : ℕ) (e : Entry) → get_elem? t n ≡ some e → (is_entry dev inum e ≡ false) × (0 < e.ref)

hit_fields :
    (dev inum : ℕ) (e : Entry)
    → is_entry dev inum e ≡ true
    → (is_positive e.ref ≡ true) × (e.dev ≡ dev) × (e.ino.inum ≡ inum)
hit_fields dev inum e h = (ground arith, ground arith, ground arith)

take_entry_lem :
    (dev inum : ℕ) (t : List Entry) (r : Option ℕ × Option ℕ)
    → IsUnique t
    → IsScan dev inum 0 none t r
    → IsIget dev inum t (take_entry dev inum r t)
unfolding take_entry IsScan IsUnique
take_entry_lem dev inum t (some k, o) u (n, e, q, at, hit) =
    let at' : get_elem? t k ≡ some e = ap (get_elem? t) (omega (arith, q)) ∙ at in
    let (pos, d, i) = hit_fields dev inum e hit in
    let f : Entry → Entry = λ e. record e { ref = one_more e.ref } in
    let alone : (j : ℕ) (o : Entry)
        → j ≢ k
        → get_elem? t j ≡ some o
        → is_positive o.ref ≡ true
        → o.dev ≡ dev
        → o.ino.inum ≡ inum
        → ⊥ =
      λ j o ne a p d' i'. ne (u j k o e a at' p pos (d' ∙ sym d) (i' ∙ sym i)) in
    record {
      entry = e;
      was = at';
      next = f e;
      now = altered_self dev inum k f t e at' d i alone;
      change = inl (pos, d, i, refl, refl, refl, refl, refl);
      others = altered-ne dev inum k f t e at' d i alone;
      unique = altered-IsUnique dev inum k f t e at' d i alone u;
    }
take_entry_lem dev inum t (none, some k) u (all, inl q) = absurd (ground (arith, q))
take_entry_lem dev inum t (none, some k) u (all, inr (n, e, q, at, z)) =
    let at' : get_elem? t k ≡ some e = ap (get_elem? t) (omega (arith, q)) ∙ at in
    let alone : (j : ℕ) (o : Entry)
        → j ≢ k
        → get_elem? t j ≡ some o
        → is_positive o.ref ≡ true
        → o.dev ≡ dev
        → o.ino.inum ≡ inum
        → ⊥ =
      λ j o ne a p d' i'. ground (arith, all j o a) in
    record {
      entry = e;
      was = at';
      next = reset_entry dev inum e;
      now = altered_self dev inum k (reset_entry dev inum) t e at' refl refl alone;
      change = inr (z, refl, refl, refl, refl, refl);
      others = altered-ne dev inum k (reset_entry dev inum) t e at' refl refl alone;
      unique = altered-IsUnique dev inum k (reset_entry dev inum) t e at' refl refl alone u;
    }
take_entry_lem dev inum t (none, none) u (all, q) = all

-- In a table with at most one entry in use for each inode, iget counts one reference more, on 32 bits, on
-- the entry of the inode and changes nothing else of it, or makes an entry without references stand for
-- the inode, with one reference, not valid, and the lock as it was; no other entry changes, and still each
-- inode has at most one entry in use. It panics only if no entry is without references and none in
-- use is the inode's.
pub iget_lem : (dev inum : ℕ) (t : List Entry) → IsUnique t → IsIget dev inum t (iget dev inum t)
unfolding iget
iget_lem dev inum t u =
    take_entry_lem dev inum t (scan_entries dev inum 0 none t) u
      (scan_entries_lem dev inum 0 none t)
