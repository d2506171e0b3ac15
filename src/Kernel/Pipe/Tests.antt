-- ===== src/Kernel/Pipe/Tests.antt =====
-- Runs of a pipe, and instances of its theorems.
use mit_61810_labs.Prelude.{
  ℕ, ◌≡◌, refl, ◌⊎◌, arith, true, false, [], ◌∷◌, ◌++◌, Option, some, none, ltb, if◌then◌else◌,
  length, min,
}
use mit_61810_labs.Kernel.Pipe.{
  Pipe, pipewrite, piperead, write_loop, read_loop, put, get, failed, asleep, returned, writers,
}
use mit_61810_labs.Kernel.Pipe.Buffer.{IsValid, contents, used}
use mit_61810_labs.Kernel.Pipe.Write.{Wrote, pipewrite-Wrote}
use mit_61810_labs.Kernel.Pipe.Read.{piperead_lem}
use mit_61810_labs.Kernel.Pipe.Fifo.{write, read, close, perform_all, perform_all-Conserves}

abbrev empty : Pipe
empty = record {
  buf = λ i. 0;
  nread = 0;
  nwrite = 0;
  readopen = true;
  writeopen = true;
  wakes = [];
}

empty-IsValid : IsValid empty
empty-IsValid = omega arith

-- User memory that holds its own addresses, and can be read up to 1000.
abbrev user : ℕ → Option ℕ
user a = if ltb a 1000 then some a else none

write_then_read :
    let (r, p) = pipewrite user false 40 3 0 empty in
    (r ≡ returned 3) × ((piperead (λ a. true) false 0 2 p).1 ≡ 40 ∷ 41 ∷ [])
unfolding pipewrite write_loop piperead read_loop put get
write_then_read = (refl, refl)

pipewrite-Wrote_example : Wrote user false 40 3 0 empty (pipewrite user false 40 3 0 empty)
pipewrite-Wrote_example =
    pipewrite-Wrote user false 40 3 0 empty empty-IsValid (omega arith) refl refl

piperead_lem_example :
    let (r, out, q) = piperead (λ a. true) false 0 5 empty in
    ((contents empty ≡ [])
      × (empty.writeopen ≡ true)
      × (r ≡ (if false then failed else asleep 0))
      × (out ≡ [])
      × (q ≡ empty))
    ⊎ ((r ≡ returned (min 5 (used empty)))
        × (length out ≡ min 5 (used empty))
        × (contents empty ≡ out ++ contents q)
        × IsValid q
        × (q.wakes ≡ writers ∷ empty.wakes))
piperead_lem_example =
    piperead_lem (λ a. true) false 0 (λ a. refl) 5 empty empty-IsValid (omega arith)

perform_all-Conserves_example :
    let (ins, outs, q) =
      perform_all (write user false 40 3 0 ∷ read (λ a. true) false 0 2 ∷ close true ∷ []) empty in
    IsValid q × (contents empty ++ ins ≡ outs ++ contents q)
perform_all-Conserves_example =
    perform_all-Conserves (write user false 40 3 0 ∷ read (λ a. true) false 0 2 ∷ close true ∷ [])
      empty empty-IsValid (omega arith, ((omega arith, λ a. refl), (tt, tt)))
