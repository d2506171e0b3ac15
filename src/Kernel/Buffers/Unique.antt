-- ===== src/Kernel/Buffers/Unique.antt =====
-- A block has at most one buffer, and the references are counted.
use mit_61810_labs.Prelude.{
  ℕ, ◌+◌, ◌-◌, ◌%◌, ◌^◌, ◌≤◌, ◌<◌, ◌≡◌, ◌≢◌, refl, arith, inl, inr, true, false, Option, none, some,
  List, [], ◌∷◌, ◌==◌, if◌then◌else◌, Bool-cases, Outcome, done, panic, Returns,
}
use mit_61810_labs.Kernel.Buffers.{
  Buf, is_for, find_cached, renamed, recycle, recycled, bget, unlink, drop_in, release_buf, brelse,
}

-- How many buffers are for a block, and the references to all.
abbrev pub count : ℕ → ℕ → List Buf → ℕ
count dev blockno [] = 0
count dev blockno (b ∷ bs) = (if is_for dev blockno b then 1 else 0) + count dev blockno bs

abbrev pub refs : List Buf → ℕ
refs [] = 0
refs (b ∷ bs) = b.refcnt + refs bs

-- Device 0 stands for none: the buffers start with it.
abbrev pub IsUnique : List Buf → Type 0
IsUnique bs = (dev blockno : ℕ) → dev ≢ 0 → count dev blockno bs ≤ 1

-- The list holds the block's buffer, with one more reference; the buffers for each block are as many
-- as before.
record Hit (dev blockno : ℕ) (bs : List Buf) (b : Buf) (bs' : List Buf) : Type 0 where
  pub named : (b.dev ≡ dev) × (b.blockno ≡ blockno)
  pub used : 0 < b.refcnt
  pub held : 0 < count dev blockno bs
  pub same : (d n : ℕ) → count d n bs' ≡ count d n bs
  pub counted : refs bs' ≡ refs bs + 1

abbrev Cached : ℕ → ℕ → List Buf → Option (Buf × List Buf) → Type 0
Cached dev blockno bs none = count dev blockno bs ≡ 0
Cached dev blockno bs (some (b, bs')) = Hit dev blockno bs b bs'

Cached-step :
    (dev blockno : ℕ) (b : Buf) (bs : List Buf) (o : Option (Buf × List Buf))
    → is_for dev blockno b ≡ false
    → Cached dev blockno bs o
    → Cached dev blockno (b ∷ bs) (elim o [ none ↦ none | some (c, bs') ↦ some (c, b ∷ bs') ])
Cached-step dev blockno b bs none e h = rw e (omega (arith, h))
Cached-step dev blockno b bs (some (c, bs')) e h = record {
  named = h.named;
  used = h.used;
  held = omega (arith, h.held);
  same = λ d n. omega (arith, h.same d n);
  counted = omega (arith, h.counted);
}

find_cached-Cached :
    (dev blockno : ℕ) (bs : List Buf)
    → refs bs + 1 < 2 ^ 32
    → Cached dev blockno bs (find_cached dev blockno bs)
unfolding find_cached
find_cached-Cached dev blockno [] h = refl
find_cached-Cached dev blockno (b ∷ bs) h = elim (Bool-cases (is_for dev blockno b)) [
  | inl here ↦ rw here record {
    named = (ground arith, ground arith);
    used = omega arith;
    held = rw here (omega arith);
    same = λ d n. refl;
    counted = omega arith;
  }
  | inr other ↦ rw other (
      Cached-step dev blockno b bs (find_cached dev blockno bs) other
        (find_cached-Cached dev blockno bs (omega arith)))
]

-- A buffer with no reference is for the block now: for other blocks there are no more than before.
record Recycles (dev blockno : ℕ) (bs : List Buf) (b : Buf) (bs' : List Buf) : Type 0 where
  pub named : (b.dev ≡ dev) × (b.blockno ≡ blockno)
  pub used : 0 < b.refcnt
  pub stale : b.valid ≡ false
  pub own : count dev blockno bs' ≤ count dev blockno bs + 1
  pub others : (d n : ℕ) → is_for d n b ≡ false → count d n bs' ≤ count d n bs
  pub counted : refs bs' ≡ refs bs + 1

abbrev pub AllUsed : List Buf → Type 0
AllUsed [] = Unit {0}
AllUsed (b ∷ bs) = (0 < b.refcnt) × AllUsed bs

abbrev Recycled : ℕ → ℕ → List Buf → Option (Buf × List Buf) → Type 0
Recycled dev blockno bs none = AllUsed bs
Recycled dev blockno bs (some (b, bs')) = Recycles dev blockno bs b bs'

recycle-Recycled :
    (dev blockno : ℕ) (bs : List Buf) → Recycled dev blockno bs (recycle dev blockno bs)
unfolding recycle
recycle-Recycled dev blockno [] = tt
recycle-Recycled dev blockno (b ∷ bs) =
    step (recycle dev blockno bs) (recycle-Recycled dev blockno bs)
  where
    step :
        (o : Option (Buf × List Buf))
        → Recycled dev blockno bs o
        → Recycled dev blockno (b ∷ bs) (elim o [
          | some (c, bs') ↦ some (c, b ∷ bs')
          | none ↦
              if b.refcnt == 0
              then some (renamed dev blockno b, renamed dev blockno b ∷ bs)
              else none
        ])
    step (some (c, bs')) r = record {
      named = r.named;
      used = r.used;
      stale = r.stale;
      own = omega (arith, r.own);
      others = λ d n e. omega (arith, r.others d n e);
      counted = omega (arith, r.counted);
    }
    step none r = elim (Bool-cases (b.refcnt == 0)) [
      | inl free ↦ rw free record {
        named = (refl, refl);
        used = omega arith;
        stale = refl;
        own = ground arith;
        others = λ d n e. rw e (omega arith);
        counted = ground arith;
      }
      | inr busy ↦ rw busy (ground arith, r)
    ]

-- What bget returns, or why it panics.
abbrev pub Got : ℕ → ℕ → List Buf → Outcome (Buf × List Buf) → Type 0
Got dev blockno bs (done (b, bs')) =
    IsUnique bs'
    × (b.dev ≡ dev)
    × (b.blockno ≡ blockno)
    × (0 < b.refcnt)
    × (refs bs' ≡ refs bs + 1)
    × (count dev blockno bs ≡ 0 → b.valid ≡ false)
Got dev blockno bs (panic m) = (count dev blockno bs ≡ 0) × AllUsed bs

module _ (dev blockno : ℕ) (bs : List Buf) (unique : IsUnique bs) where
  Recycled-Got :
      (o : Option (Buf × List Buf))
      → count dev blockno bs ≡ 0
      → Recycled dev blockno bs o
      → Got dev blockno bs (recycled o)
  unfolding recycled
  Recycled-Got none z r = (z, r)
  Recycled-Got (some (b, bs')) z r = (
    λ d n ne. elim (Bool-cases (is_for d n b)) [
      | inl same ↦
          let p : d ≡ dev = ground (arith, r.named) in
          let q : n ≡ blockno = ground (arith, r.named) in rw (p, q) (omega (arith, r.own, z))
      | inr other ↦ omega (arith, r.others d n other, unique d n ne)
    ],
    r.named.0,
    r.named.1,
    r.used,
    r.counted,
    λ c. r.stale,
  )

  Cached-Got :
      (o : Option (Buf × List Buf))
      → Cached dev blockno bs o
      → Got dev blockno bs (elim o [ some r ↦ done r | none ↦ recycled (recycle dev blockno bs) ])
  Cached-Got none z = Recycled-Got (recycle dev blockno bs) z (recycle-Recycled dev blockno bs)
  Cached-Got (some (b, bs')) h = (
    λ d n ne. omega (arith, h.same d n, unique d n ne),
    h.named.0,
    h.named.1,
    h.used,
    h.counted,
    λ c. absurd (omega (arith, h.held)),
  )

-- bget keeps at most one buffer for a block, and gives one for the block, with one more reference,
-- whose data is not valid unless the block was cached. It panics only if the block is not cached and
-- every buffer is in use.
pub bget-Got :
    (dev blockno : ℕ) (bs : List Buf)
    → IsUnique bs
    → refs bs + 1 < 2 ^ 32
    → Got dev blockno bs (bget dev blockno bs)
unfolding bget
bget-Got dev blockno bs u h =
    Cached-Got dev blockno bs u (find_cached dev blockno bs) (find_cached-Cached dev blockno bs h)

-- The list with one reference less, and as many buffers for each block.
abbrev pub Dropped : List Buf → List Buf → Type 0
Dropped bs bs' = ((d n : ℕ) → count d n bs' ≡ count d n bs) × (refs bs' + 1 ≡ refs bs)

-- What unlink finds, and what the list is with one reference less to it.
abbrev Unlinked : List Buf → Option (Buf × List Buf) → List Buf → Type 0
Unlinked bs none bs' = Unit {0}
Unlinked bs (some (b, rest)) bs' =
    ((d n : ℕ) → count d n (b ∷ rest) ≡ count d n bs)
    × (b.refcnt + refs rest ≡ refs bs)
    × (0 < b.refcnt → refs bs < 2 ^ 32 → Dropped bs bs')

Unlinked-step :
    (b : Buf) (bs bs' : List Buf) (o : Option (Buf × List Buf))
    → Unlinked bs o bs'
    → Unlinked (b ∷ bs) (elim o [ none ↦ none | some (c, r) ↦ some (c, b ∷ r) ]) (b ∷ bs')
Unlinked-step b bs bs' none u = tt
Unlinked-step b bs bs' (some (c, r)) u = (
  λ d n. omega (arith, u.0 d n),
  omega (arith, u.1),
  λ pos low. let v = u.2 pos (omega arith) in (λ d n. omega (arith, v.0 d n), omega (arith, v.1)),
)

unlink-Unlinked : (i : ℕ) (bs : List Buf) → Unlinked bs (unlink i bs) (drop_in i bs)
unfolding unlink drop_in
unlink-Unlinked i [] = tt
unlink-Unlinked i (b ∷ bs) = elim (Bool-cases (b.index == i)) [
  | inl here ↦ rw here (λ d n. refl, refl, λ pos low. (λ d n. refl, omega arith))
  | inr other ↦ rw other (Unlinked-step b bs (drop_in i bs) (unlink i bs) (unlink-Unlinked i bs))
]

release_buf-Dropped :
    (o : Option (Buf × List Buf)) (i : ℕ) (bs : List Buf) {b : Buf} {rest : List Buf}
    → o ≡ some (b, rest)
    → 0 < b.refcnt
    → refs bs < 2 ^ 32
    → Unlinked bs o (drop_in i bs)
    → Dropped bs (release_buf o i bs)
unfolding release_buf
release_buf-Dropped none i bs e pos low u = ground arith
release_buf-Dropped (some (c, r)) i bs {b} e pos low u =
    let same : c.refcnt ≡ b.refcnt = ground (arith, e) in
    elim (Bool-cases ((c.refcnt + 2 ^ 32 - 1) % 2 ^ 32 == 0)) [
      | inl last ↦
          let one : (c.refcnt + 2 ^ 32 - 1) % 2 ^ 32 ≡ 0 = ground arith in
          rw last (λ d n. omega (arith, u.0 d n), omega (arith, u.1))
      | inr more ↦ rw more (u.2 (omega arith) low)
    ]

-- brelse on a buffer of the cache that the caller holds, with a reference: it returns, with one
-- reference less in all, and as many buffers for each block as before.
pub brelse-Dropped :
    (i : ℕ) (bs : List Buf) {b : Buf} {rest : List Buf}
    → unlink i bs ≡ some (b, rest)
    → 0 < b.refcnt
    → refs bs < 2 ^ 32
    → Returns (Dropped bs) (brelse true i bs)
unfolding brelse
brelse-Dropped i bs e pos low =
    release_buf-Dropped (unlink i bs) i bs e pos low (unlink-Unlinked i bs)
