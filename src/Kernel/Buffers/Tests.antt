-- ===== src/Kernel/Buffers/Tests.antt =====
-- Runs on a cache of two buffers, and instances of its theorems.
use mit_61810_labs.Prelude.{ℕ, ◌≡◌, refl, arith, true, false, List, [], ◌∷◌, done, Returns}
use mit_61810_labs.Kernel.Buffers.{Buf, bget, find_cached, recycle, brelse, unlink}
use mit_61810_labs.Kernel.Buffers.Unique.{IsUnique, Got, bget-Got, Dropped, brelse-Dropped}

abbrev buffer : ℕ → ℕ → ℕ → Buf
buffer i blockno refs = record {
  index = i;
  valid = true;
  dev = 1;
  blockno = blockno;
  refcnt = refs;
}

abbrev buffers : List Buf
buffers = buffer 0 5 1 ∷ buffer 1 6 0 ∷ []

buffers-IsUnique : IsUnique buffers
buffers-IsUnique d n ne = ground arith

recycles_last :
    bget 1 7 buffers
    ≡ done (
      record (buffer 1 7 1) { valid = false },
      buffer 0 5 1 ∷ record (buffer 1 7 1) { valid = false } ∷ [],
    )
unfolding bget find_cached recycle
recycles_last = refl

bget-Got_example : Got 1 6 buffers (bget 1 6 buffers)
bget-Got_example = bget-Got 1 6 buffers buffers-IsUnique (omega arith)

brelse-Dropped_example : Returns (Dropped buffers) (brelse true 0 buffers)
unfolding unlink
brelse-Dropped_example =
    brelse-Dropped 0 buffers {b = buffer 0 5 1} {rest = buffer 1 6 0 ∷ []} refl (omega arith)
      (omega arith)
