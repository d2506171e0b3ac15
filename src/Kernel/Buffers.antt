-- ===== src/Kernel/Buffers.antt =====
-- kernel/bio.c: the buffer cache. What runs under bcache.lock is one step. The linked list through
-- `bcache.head` is a list of the buffers, the most recently used first; a buffer's data and its
-- sleep lock are not in this state.
pub mod Unique
mod Tests
use mit_61810_labs.Prelude.{
  ℕ, zero, suc, ◌+◌, ◌-◌, ◌%◌, ◌^◌, Bool, true, false, ◌&&◌, Option, none, some, List, [], ◌∷◌,
  ◌==◌, if◌then◌else◌, Outcome, done, panic,
}

-- `struct buf`, with the index of the buffer in `bcache.buf`.
pub record Buf : Type 0 where
  pub index : ℕ
  pub valid : Bool
  pub dev : ℕ
  pub blockno : ℕ
  pub refcnt : ℕ

abbrev pub is_for : ℕ → ℕ → Buf → Bool
is_for dev blockno b = (b.dev == dev) && (b.blockno == blockno)

-- binit: each buffer is put in front of the list. The static buffers are zero.
pub binit : ℕ → List Buf → List Buf
binit zero bs = bs
binit (suc k) bs =
    binit k (record { index = k; valid = false; dev = 0; blockno = 0; refcnt = 0 } ∷ bs)

abbrev pub taken : Buf → Buf
taken b = record b { refcnt = (b.refcnt + 1) % 2 ^ 32 }

-- The first loop of bget: the buffer and the list with it.
pub find_cached : ℕ → ℕ → List Buf → Option (Buf × List Buf)
find_cached dev blockno [] = none
find_cached dev blockno (b ∷ bs) =
    if is_for dev blockno b
    then some (taken b, taken b ∷ bs)
    else elim (find_cached dev blockno bs) [ none ↦ none | some (c, bs') ↦ some (c, b ∷ bs') ]

abbrev pub renamed : ℕ → ℕ → Buf → Buf
renamed dev blockno b = record b { dev = dev; blockno = blockno; valid = false; refcnt = 1 }

-- The second loop, from the end of the list: the last buffer with no reference.
pub recycle : ℕ → ℕ → List Buf → Option (Buf × List Buf)
recycle dev blockno [] = none
recycle dev blockno (b ∷ bs) = elim (recycle dev blockno bs) [
  | some (c, bs') ↦ some (c, b ∷ bs')
  | none ↦ if b.refcnt == 0 then some (renamed dev blockno b, renamed dev blockno b ∷ bs) else none
]

pub recycled : Option (Buf × List Buf) → Outcome (Buf × List Buf)
recycled none = panic "bget: no buffers"
recycled (some r) = done r

pub bget : ℕ → ℕ → List Buf → Outcome (Buf × List Buf)
unfolding recycled
bget dev blockno bs = elim (find_cached dev blockno bs) [
  | some r ↦ done r
  | none ↦ recycled (recycle dev blockno bs)
]

-- The buffer at an index, and the list without it.
pub unlink : ℕ → List Buf → Option (Buf × List Buf)
unlink i [] = none
unlink i (b ∷ bs) =
    if b.index == i
    then some (b, bs)
    else elim (unlink i bs) [ none ↦ none | some (c, bs') ↦ some (c, b ∷ bs') ]

abbrev pub dropped : Buf → Buf
dropped b = record b { refcnt = (b.refcnt + 2 ^ 32 - 1) % 2 ^ 32 }

-- `b->refcnt--` in the list.
pub drop_in : ℕ → List Buf → List Buf
drop_in i [] = []
drop_in i (b ∷ bs) = if b.index == i then dropped b ∷ bs else b ∷ drop_in i bs

pub release_buf : Option (Buf × List Buf) → ℕ → List Buf → List Buf
release_buf none i bs = bs
release_buf (some (b, rest)) i bs =
    if (dropped b).refcnt == 0 then dropped b ∷ rest else drop_in i bs

-- brelse on the buffer with the index `i`; `holding` is what holdingsleep returns.
pub brelse : Bool → ℕ → List Buf → Outcome (List Buf)
unfolding release_buf
brelse holding i bs = if holding then done (release_buf (unlink i bs) i bs) else panic "brelse"
