-- ===== src/Kernel/Pipe/Fifo.antt =====
-- Any sequence of calls on a pipe: bytes come out in the order in which they went in.
use mit_61810_labs.Prelude.{
  ℕ, ◌-◌, ◌^◌, ◌<◌, ◌≡◌, sym, ◌∙◌, ap, arith, inl, inr, Bool, true, false, not, ◌&&◌, List, [], ◌∷◌,
  ◌++◌, append-nil, append_assoc, Bool-cases, Option, dec_lt,
}
use mit_61810_labs.Kernel.Pipe.{
  Pipe, Progress, failed, asleep, returned, pipeclose, pipewrite, piperead,
}
use mit_61810_labs.Kernel.Pipe.Buffer.{IsValid, contents}
use mit_61810_labs.Kernel.Pipe.Write.{
  user_bytes, Wrote, pipewrite-Wrote, pipewrite-failed, pipewrite-none_left,
}
use mit_61810_labs.Kernel.Pipe.Read.{piperead_lem}

-- A run of pipewrite from index `i`, of piperead, or a pipeclose.
pub data Call : Type 0 where
  write : (copyin : ℕ → Option ℕ) (killed : Bool) (addr n i : ℕ) → Call
  read : (copyout : ℕ → Bool) (killed : Bool) (addr n : ℕ) → Call
  close : Bool → Call

-- Lengths are not negative, and what piperead is given can be written.
abbrev pub IsSound : Call → Type 0
IsSound (write copyin killed addr n i) = n < 2 ^ 31
IsSound (read copyout killed addr n) = (n < 2 ^ 31) × ((a : ℕ) → copyout a ≡ true)
IsSound (close w) = Unit {0}

-- The bytes of the index range that a run of pipewrite got through.
abbrev pub stored : (ℕ → Option ℕ) → Bool → ℕ → ℕ → Progress → List ℕ
stored copyin killed addr i failed = []
stored copyin killed addr i (asleep j) = user_bytes copyin killed addr i (j - i)
stored copyin killed addr i (returned j) = user_bytes copyin killed addr i (j - i)

-- The bytes that a call puts in, those that it takes out, and the pipe that it leaves.
pub perform : Call → Pipe → List ℕ × List ℕ × Pipe
perform (write copyin killed addr n i) p =
    let (r, q) = pipewrite copyin killed addr n i p in (stored copyin killed addr i r, [], q)
perform (read copyout killed addr n) p =
    let (r, out, q) = piperead copyout killed addr n p in ([], out, q)
perform (close w) p = ([], [], (pipeclose w p).1)

pub perform_all : List Call → Pipe → List ℕ × List ℕ × Pipe
perform_all [] p = ([], [], p)
perform_all (c ∷ cs) p =
    let (ins, outs, q) = perform c p in
    let (ins', outs', q') = perform_all cs q in (ins ++ ins', outs ++ outs', q')

abbrev Conserves : Pipe → List ℕ × List ℕ × Pipe → Type 0
Conserves p (ins, outs, q) = IsValid q × (contents p ++ ins ≡ outs ++ contents q)

close-Conserves : (w : Bool) (p : Pipe) → IsValid p → Conserves p (perform (close w) p)
unfolding perform pipeclose
close-Conserves true p v = (ground arith, append-nil (contents p))
close-Conserves false p v = (ground arith, append-nil (contents p))

chain :
    (x y z a b a' b' : List ℕ)
    → x ++ a ≡ b ++ y
    → y ++ a' ≡ b' ++ z
    → x ++ (a ++ a') ≡ (b ++ b') ++ z
chain x y z a b a' b' e f =
    sym (append_assoc x a a')
    ∙ ap (λ l. l ++ a') e
    ∙ append_assoc b y a'
    ∙ ap (λ l. b ++ l) f
    ∙ sym (append_assoc b b' z)

stored-Wrote :
    (copyin : ℕ → Option ℕ) (killed : Bool) (addr k i : ℕ) (p : Pipe) (out : Progress × Pipe)
    → (w : Wrote copyin killed addr k i p out)
    → stored copyin killed addr i out.0 ≡ user_bytes copyin killed addr i (w.index - i)
stored-Wrote copyin killed addr k i p out w = elim w.shape [
  | inl full ↦ ap (stored copyin killed addr i) full.0
  | inr back ↦ ap (stored copyin killed addr i) back.0
]

Wrote-Conserves :
    (copyin : ℕ → Option ℕ) (killed : Bool) (addr k i : ℕ) (p : Pipe) (out : Progress × Pipe)
    → Wrote copyin killed addr k i p out
    → Conserves p (stored copyin killed addr i out.0, [], out.1)
Wrote-Conserves copyin killed addr k i p out w =
    (w.valid, ap (λ x. contents p ++ x) (stored-Wrote copyin killed addr k i p out w) ∙ sym w.bytes)

write-Conserves :
    (copyin : ℕ → Option ℕ) (killed : Bool) (addr n i : ℕ) (p : Pipe)
    → IsValid p
    → n < 2 ^ 31
    → Conserves p (perform (write copyin killed addr n i) p)
unfolding perform
write-Conserves copyin killed addr n i p v h = elim (Bool-cases (p.readopen && not killed)) [
  | inl alive ↦
      Wrote-Conserves copyin killed addr (n - i) i p _
        (pipewrite-Wrote copyin killed addr n i p v h (ground arith) (ground arith))
  | inr gone ↦ elim (dec_lt i n) [
    | yes l ↦
        rw (pipewrite-failed copyin killed addr n i p l h (ground arith))
          (v, append-nil (contents p))
    | no l ↦
        Wrote-Conserves copyin killed addr 0 i p _
          (pipewrite-none_left copyin killed addr n i p v (omega arith) h)
  ]
]

read-Conserves :
    (copyout : ℕ → Bool) (killed : Bool) (addr n : ℕ) (p : Pipe)
    → IsValid p
    → n < 2 ^ 31
    → ((a : ℕ) → copyout a ≡ true)
    → Conserves p (perform (read copyout killed addr n) p)
unfolding perform
read-Conserves copyout killed addr n p v h all =
    elim (piperead_lem copyout killed addr all n p v h) [
      | inl wait ↦ rw (wait.3, wait.4) (v, append-nil (contents p))
      | inr back ↦ (back.3, append-nil (contents p) ∙ back.2)
    ]

perform-Conserves : (c : Call) (p : Pipe) → IsValid p → IsSound c → Conserves p (perform c p)
perform-Conserves (write copyin killed addr n i) p v h =
    write-Conserves copyin killed addr n i p v h
perform-Conserves (read copyout killed addr n) p v h =
    read-Conserves copyout killed addr n p v h.0 h.1
perform-Conserves (close w) p v h = close-Conserves w p v

abbrev pub All : List Call → Type 0
All [] = Unit {0}
All (c ∷ cs) = IsSound c × All cs

-- For runs of pipewrite, piperead and pipeclose that follow one another on a valid pipe, with counts below
-- 2^31 and every copyout of a reader successful, and whoever is killed: the bytes that were in the
-- pipe and those that the writers stored, in order, are those that the readers got followed by those
-- still in the pipe, which stays valid.
pub perform_all-Conserves :
    (cs : List Call) (p : Pipe)
    → IsValid p
    → All cs
    → let (ins, outs, q) = perform_all cs p in IsValid q × (contents p ++ ins ≡ outs ++ contents q)
unfolding perform_all
perform_all-Conserves [] p v h = (v, append-nil (contents p))
perform_all-Conserves (c ∷ cs) p v h =
    let (ins, outs, q) = perform c p in
    let first = perform-Conserves c p v h.0 in
    let rest = perform_all-Conserves cs q first.0 h.1 in
    (rest.0, chain _ _ _ ins outs _ _ first.1 rest.1)
