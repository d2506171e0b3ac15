-- ===== src/Kernel/Pipe/Buffer.antt =====
-- The ring buffer of a pipe as the queue of the bytes in it.
use mit_61810_labs.Prelude.{
  ℕ, zero, suc, ◌+◌, ◌-◌, ◌%◌, ◌^◌, ◌≤◌, ◌<◌, ◌≡◌, refl, ◌∙◌, ap, ap₂, arith, List, [], ◌∷◌, ◌++◌,
  length, update, false, ◌==◌, update_self, update-ne,
}
use mit_61810_labs.Kernel.Pipe.{Pipe, pipe_size, u32, put, get, fresh, is_full}

-- `k` bytes from position `r` on.
abbrev pub window : (ℕ → ℕ) → ℕ → ℕ → List ℕ
window buf r zero = []
window buf r (suc k) = buf (r % pipe_size) ∷ window buf (u32 (r + 1)) k

-- How many bytes wait in the pipe.
abbrev pub used : Pipe → ℕ
used p = (p.nwrite + 2 ^ 32 - p.nread) % 2 ^ 32

abbrev pub contents : Pipe → List ℕ
contents p = window p.buf p.nread (used p)

pub record IsValid (p : Pipe) : Type 0 where
  pub read_small : p.nread < 2 ^ 32
  pub write_small : p.nwrite < 2 ^ 32
  pub fits : used p ≤ pipe_size

pub length-window : (buf : ℕ → ℕ) (r k : ℕ) → length (window buf r k) ≡ k
length-window buf r zero = refl
length-window buf r (suc k) = ap suc (length-window buf (u32 (r + 1)) k)

-- Writing just behind a window with room extends it.
window-update :
    (buf : ℕ → ℕ) (c k r w : ℕ)
    → k < pipe_size
    → w ≡ u32 (r + k)
    → window (update buf (w % pipe_size) c) r (suc k) ≡ window buf r k ++ (c ∷ [])
window-update buf c zero r w h e =
    ap (λ x. x ∷ [])
      (ap (update buf (w % pipe_size) c) (omega (arith, e)) ∙ update_self buf (w % pipe_size) c)
window-update buf c (suc k) r w h e =
    ap₂ ◌∷◌ (update-ne buf (w % pipe_size) c (r % pipe_size) (omega (arith, e)))
      (window-update buf c k (u32 (r + 1)) w (omega arith) (omega (arith, e)))

pub fresh-IsValid : (page : ℕ → ℕ) → IsValid (fresh page) × (contents (fresh page) ≡ [])
unfolding fresh
fresh-IsValid page = (omega arith, refl)

-- Behind a test that the pipe is not full, a byte goes to the end of the queue.
pub put_lem :
    (c : ℕ) (p : Pipe)
    → IsValid p
    → is_full p ≡ false
    → IsValid (put c p) × (contents (put c p) ≡ contents p ++ (c ∷ []))
unfolding put
put_lem c p v room =
    let more : used (put c p) ≡ suc (used p) = ground arith in
    (
      ground arith,
      ap (window (update p.buf (p.nwrite % pipe_size) c) p.nread) more
          ∙ window-update p.buf c (used p) p.nread p.nwrite (ground arith) (omega arith),
    )

-- A pipe that is not empty gives the first byte of the queue.
pub get_lem :
    (p : Pipe)
    → IsValid p
    → (p.nread == p.nwrite) ≡ false
    → IsValid (get p).1 × (contents p ≡ (get p).0 ∷ contents (get p).1)
unfolding get
get_lem p v some_left =
    let less : used p ≡ suc (used (get p).1) = ground arith in
    (ground arith, ap (window p.buf p.nread) less)
