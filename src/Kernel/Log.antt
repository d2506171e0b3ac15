-- ===== src/Kernel/Log.antt =====
-- kernel/log.c: the redo log of the file system, over disk blocks seen through the buffer cache.
-- Every acquire/release section of the source is one step here; a `sleep` is the result `none`.
pub mod Copy
pub mod Head
pub mod Phases
pub mod Recovery
pub mod Commit
pub mod Crash
pub mod Reserve
mod Tests
use mit_61810_labs.Prelude.{
  ℕ, zero, suc, ◌+◌, ◌-◌, ◌*◌, ◌%◌, ◌^◌, Bool, true, false, ◌&&◌, ◌||◌, Option, none, some, ltb,
  leb, ◌==◌, if◌then◌else◌, update, Outcome, done, panic, ◌>>=◌, List, [], ◌∷◌,
}

-- MAXOPBLOCKS and LOGSIZE
abbrev pub max_op_blocks : ℕ
max_op_blocks = 10

abbrev pub log_capacity : ℕ
log_capacity = 30

-- A block as its 32-bit words.
abbrev pub Block : Type 0
Block = ℕ → ℕ

-- What the log sees of kernel/bio.c: `cache b` is the data of the buffer that `bread` returns for
-- block `b`. `power` counts the disk writes that still happen before the machine fails; from then
-- on the disk does not change.
pub record Io : Type 0 where
  pub disk : ℕ → Block
  pub cache : ℕ → Block
  pub power : ℕ

-- `struct log`. The `int` fields are bit patterns of 32 bits. `pins` counts the references that
-- `bpin` adds to a buffer and `bunpin` takes away, `wakes` the calls of `wakeup(&log)`.
pub record LogState : Type 0 where
  pub io : Io
  pub pins : ℕ → ℕ
  pub start : ℕ
  pub size : ℕ
  pub outstanding : ℕ
  pub committing : Bool
  pub n : ℕ
  pub block : ℕ → ℕ
  pub wakes : ℕ

-- How often `for (i = 0; i < n; i++)` goes round at an `int`.
abbrev pub rounds : ℕ → ℕ
rounds n = if ltb n (2 ^ 31) then n else 0

pub bwrite : ℕ → Io → Io
bwrite b io =
    if io.power == 0
    then io
    else (record io { disk = update io.disk b (io.cache b); power = io.power - 1 })

-- `memmove(to->data, from->data, BSIZE); bwrite(to)`
pub move_block : ℕ → ℕ → Io → Io
move_block from to io = bwrite to (record io { cache = update io.cache to (io.cache from) })

-- The loop of `write_log`: `k` rounds left, at index `tail`.
pub write_log_loop : ℕ → (ℕ → ℕ) → ℕ → ℕ → Io → Io
write_log_loop start block zero tail io = io
write_log_loop start block (suc k) tail io =
    write_log_loop start block k (suc tail) (move_block (block tail) (start + tail + 1) io)

pub write_log : LogState → LogState
write_log s = record s { io = write_log_loop s.start s.block (rounds s.n) 0 s.io }

pub bpin : ℕ → (ℕ → ℕ) → ℕ → ℕ
bpin b pins = update pins b ((pins b + 1) % 2 ^ 32)

pub bunpin : ℕ → (ℕ → ℕ) → ℕ → ℕ
bunpin b pins = update pins b ((pins b + 2 ^ 32 - 1) % 2 ^ 32)

-- The loop of `install_trans`, on the disk side and on the pins.
pub install_loop : ℕ → (ℕ → ℕ) → ℕ → ℕ → Io → Io
install_loop start block zero tail io = io
install_loop start block (suc k) tail io =
    install_loop start block k (suc tail) (move_block (start + tail + 1) (block tail) io)

pub unpin_loop : (ℕ → ℕ) → ℕ → ℕ → (ℕ → ℕ) → ℕ → ℕ
unpin_loop block zero tail pins = pins
unpin_loop block (suc k) tail pins = unpin_loop block k (suc tail) (bunpin (block tail) pins)

pub install_trans : Bool → LogState → LogState
install_trans recovering s = record s {
  io = install_loop s.start s.block (rounds s.n) 0 s.io;
  pins = if recovering then s.pins else unpin_loop s.block (rounds s.n) 0 s.pins;
}

-- `struct logheader` over a block: word 0 is `n`, word `i + 1` is `block[i]`.
pub put_words : (ℕ → ℕ) → ℕ → ℕ → Block → Block
put_words block zero i b = b
put_words block (suc k) i b = put_words block k (suc i) (update b (suc i) (block i))

pub get_words : Block → ℕ → ℕ → (ℕ → ℕ) → ℕ → ℕ
get_words b zero i block = block
get_words b (suc k) i block = get_words b k (suc i) (update block i (b (suc i)))

pub read_head : LogState → LogState
read_head s =
    let hb = s.io.cache s.start in
    record s { n = hb 0; block = get_words hb (rounds (hb 0)) 0 s.block }

pub write_head : LogState → LogState
write_head s =
    let hb = put_words s.block (rounds s.n) 0 (update (s.io.cache s.start) 0 s.n) in
    record s { io = bwrite s.start (record s.io { cache = update s.io.cache s.start hb }) }

pub recover_from_log : LogState → LogState
recover_from_log s = let s' = install_trans true (read_head s) in write_head (record s' { n = 0 })

-- `initlog`. The static `struct log` is zero but for what is set here.
pub initlog : ℕ → ℕ → LogState → LogState
initlog logstart nlog s = recover_from_log (record s { start = logstart; size = nlog })

pub commit : LogState → LogState
commit s =
    if ltb 0 s.n && ltb s.n (2 ^ 31)
    then (let s' = install_trans false (write_head (write_log s)) in
        write_head (record s' { n = 0 }))
    else s

-- One round of the loop of `begin_op`: `none` is a call of `sleep`.
pub begin_op : LogState → Option LogState
begin_op s =
    let want = (s.n + (s.outstanding + 1) * max_op_blocks) % 2 ^ 32 in
    if s.committing
    then none
    else if ltb log_capacity want && ltb want (2 ^ 31)
    then none
    else some (record s { outstanding = (s.outstanding + 1) % 2 ^ 32 })

-- The first critical section of `end_op`; the flag is `do_commit`.
pub end_op_enter : LogState → Outcome (Bool × LogState)
end_op_enter s =
    let left = (s.outstanding + 2 ^ 32 - 1) % 2 ^ 32 in
    if s.committing
    then panic "log.committing"
    else if left == 0
    then done (true, record s { outstanding = left; committing = true })
    else done (false, record s { outstanding = left; wakes = s.wakes + 1 })

-- The second one, behind the commit.
pub end_op_leave : LogState → LogState
end_op_leave s = record s { committing = false; wakes = s.wakes + 1 }

-- The index at which the loop of `log_write` stops.
pub find_block : (ℕ → ℕ) → ℕ → ℕ → ℕ → ℕ
find_block block b zero i = i
find_block block b (suc k) i = if block i == b then i else find_block block b k (suc i)

pub log_write : ℕ → LogState → Outcome LogState
log_write b s =
    let i = find_block s.block b (rounds s.n) 0 in
    if (leb log_capacity s.n || leb (s.size - 1) s.n) && ltb s.n (2 ^ 31)
    then panic "too big a transaction"
    else if s.outstanding == 0 || leb (2 ^ 31) s.outstanding
    then panic "log_write outside of trans"
    else if i == s.n
    then done (record s { block = update s.block i b; pins = bpin b s.pins; n = s.n + 1 })
    else done (record s { block = update s.block i b })

-- The machine as it starts: `struct log` is zero, and `bread` finds what the disk holds.
abbrev pub boot : (ℕ → Block) → ℕ → LogState
boot disk power = record {
  io = record { disk = disk; cache = disk; power = power };
  pins = λ b. 0;
  start = 0;
  size = 0;
  outstanding = 0;
  committing = false;
  n = 0;
  block = λ i. 0;
  wakes = 0;
}

-- The disk after a start of the machine that has `power` writes until it fails again.
pub recover : ℕ → ℕ → (ℕ → Block) → ℕ → ℕ → Block
recover start size disk power = (initlog start size (boot disk power)).io.disk

-- Starts one after another, each cut off in its turn.
pub reboots : ℕ → ℕ → (ℕ → Block) → List ℕ → ℕ → Block
reboots start size disk [] = disk
reboots start size disk (p ∷ ps) = reboots start size (recover start size disk p) ps
