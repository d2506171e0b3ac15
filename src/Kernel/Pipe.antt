-- ===== src/Kernel/Pipe.antt =====
-- kernel/pipe.c. The functions run under `pi->lock` up to a call of `sleep`, where they return
-- `asleep` with what they have done; the caller's next run goes on from there.
pub mod Buffer
pub mod Write
pub mod Read
pub mod Fifo
mod Tests
use mit_61810_labs.Prelude.{
  ℕ, zero, suc, ◌+◌, ◌-◌, ◌%◌, ◌^◌, Bool, true, false, not, ◌&&◌, ◌||◌, Option, none, some, List,
  [], ◌∷◌, ltb, ◌==◌, if◌then◌else◌, update,
}

-- PIPESIZE
abbrev pub pipe_size : ℕ
pipe_size = 512

-- The channels that the pipe's users sleep on: `&pi->nread` and `&pi->nwrite`.
pub data Channel : Type 0 where
  readers writers : Channel

-- `struct pipe`; `wakes` lists the calls of `wakeup`, the last one first.
pub record Pipe : Type 0 where
  pub buf : ℕ → ℕ
  pub nread : ℕ
  pub nwrite : ℕ
  pub readopen : Bool
  pub writeopen : Bool
  pub wakes : List Channel

abbrev pub u32 : ℕ → ℕ
u32 n = n % 2 ^ 32

abbrev pub wake : Channel → Pipe → Pipe
wake c p = record p { wakes = c ∷ p.wakes }

-- The pipe as pipealloc sets it up in its page.
pub fresh : (ℕ → ℕ) → Pipe
fresh page = record {
  buf = page;
  nread = 0;
  nwrite = 0;
  readopen = true;
  writeopen = true;
  wakes = [];
}

-- The flag says that the page is given to `kfree`.
pub pipeclose : Bool → Pipe → Bool × Pipe
pipeclose writable p =
    let p' =
      if writable
      then wake readers (record p { writeopen = false })
      else wake writers (record p { readopen = false }) in
    (not p'.readopen && not p'.writeopen, p')

-- `failed` is the result -1.
pub data Progress : Type 0 where
  failed : Progress
  asleep : ℕ → Progress
  returned : ℕ → Progress

-- `pi->nwrite == pi->nread + PIPESIZE`
abbrev pub is_full : Pipe → Bool
is_full p = p.nwrite == u32 (p.nread + pipe_size)

-- `pi->data[pi->nwrite++ % PIPESIZE] = ch`
pub put : ℕ → Pipe → Pipe
put ch p = record p { buf = update p.buf (p.nwrite % pipe_size) ch; nwrite = u32 (p.nwrite + 1) }

-- `ch = pi->data[pi->nread++ % PIPESIZE]`
pub get : Pipe → ℕ × Pipe
get p = (p.buf (p.nread % pipe_size), record p { nread = u32 (p.nread + 1) })

-- The loop of pipewrite at index `i`, with `k = n - i` bytes left. `copyin` gives the byte at a user
-- address, `none` where it fails; `killed` is what `killed(pr)` returns.
module _ (copyin : ℕ → Option ℕ) (killed : Bool) (addr : ℕ) where
  pub write_loop : ℕ → ℕ → Pipe → Progress × Pipe
  write_loop zero i p = (returned i, wake readers p)
  write_loop (suc k) i p =
      if not p.readopen || killed
      then (failed, p)
      else if is_full p
      then (asleep i, wake readers p)
      else elim (copyin ((addr + i) % 2 ^ 64)) [
        | none ↦ (returned i, wake readers p)
        | some ch ↦ write_loop k (suc i) (put ch p)
      ]

  -- A run of pipewrite from index `i` on: the call itself at 0, and a later run behind a sleep.
  pub pipewrite : ℕ → ℕ → Pipe → Progress × Pipe
  pipewrite n i p = write_loop ((if ltb n (2 ^ 31) then n else 0) - i) i p

-- The copy loop of piperead, `k = n - i` rounds left. `copyout a` says whether `copyout` to user
-- address `a` succeeds; the list holds the bytes that it stored.
module _ (copyout : ℕ → Bool) (killed : Bool) (addr : ℕ) where
  pub read_loop : ℕ → ℕ → Pipe → ℕ × List ℕ × Pipe
  read_loop zero i p = (i, [], p)
  read_loop (suc k) i p =
      let (ch, p') = get p in
      let (j, out, q) = read_loop k (suc i) p' in
      if p.nread == p.nwrite
      then (i, [], p)
      else if copyout ((addr + i) % 2 ^ 64)
      then (j, ch ∷ out, q)
      else (i, [], p')

  pub piperead : ℕ → Pipe → Progress × List ℕ × Pipe
  piperead n p =
      let (i, out, p') = read_loop (if ltb n (2 ^ 31) then n else 0) 0 p in
      if p.nread == p.nwrite && p.writeopen
      then (if killed then (failed, [], p) else (asleep 0, [], p))
      else (returned i, out, wake writers p')
