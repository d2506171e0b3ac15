-- ===== src/Kernel/Console/Lines.antt =====
-- consoleread against the queue of the bytes of finished lines.
use mit_61810_labs.Prelude.{
  ℕ, zero, suc, ◌+◌, ◌-◌, ◌%◌, ◌^◌, ◌≡◌, refl, ap, arith, inl, inr, Bool, true, false, List, [],
  ◌∷◌, ltb, ◌==◌, if◌then◌else◌, Bool-cases,
}
use mit_61810_labs.Kernel.Console.{Cons, u32, input_buf_size, newline, control_d, consoleread}
use mit_61810_labs.Kernel.Console.Edit.{IsCons, pending}

-- The `k` bytes from index `r` on.
abbrev pub window : (ℕ → ℕ) → ℕ → ℕ → List ℕ
window buf r zero = []
window buf r (suc k) = buf (r % input_buf_size) ∷ window buf (u32 (r + 1)) k

abbrev pub ready : Cons → List ℕ
ready c = window c.buf c.r (pending c)

-- What a reader of at most `n` bytes takes off a queue: up to a newline, or up to a control-D, which
-- stays unless it comes first. The second list is what stays.
pub take_line : ℕ → ℕ → List ℕ → List ℕ × List ℕ
take_line target zero q = ([], q)
take_line target (suc k) [] = ([], [])
take_line target (suc k) (ch ∷ q) =
    let rest = take_line target k q in
    if ch == control_d
    then ([], if ltb (suc k) target then ch ∷ q else q)
    else if ch == newline
    then (ch ∷ [], q)
    else (ch ∷ rest.0, rest.1)

abbrev next : Cons → Cons
next c = record c { r = u32 (c.r + 1) }

next-IsCons :
    (c : Cons)
    → IsCons c
    → (c.r == c.w) ≡ false
    → IsCons (next c) × (pending c ≡ suc (pending (next c)))
next-IsCons c v e = (
  record {
    words = (omega arith, v.words.1, v.words.2);
    order = ground (arith, v.words, v.order, v.fits);
    fits = ground (arith, v.words, v.order, v.fits);
  },
  ground (arith, v.words),
)

module _ (copyout : ℕ → Bool) (all : (a : ℕ) → copyout a ≡ true) (killed : Bool) (target : ℕ) where
  -- Where every byte can be stored, a run of consoleread delivers the bytes that take_line takes off
  -- the queue of the finished lines and leaves those that it leaves, and the state stays valid.
  pub consoleread_lem :
      (n dst : ℕ) (c : Cons)
      → IsCons c
      → IsCons (consoleread copyout killed target n dst c).2
        × ((consoleread copyout killed target n dst c).1 ≡ (take_line target n (ready c)).0)
        × (ready (consoleread copyout killed target n dst c).2 ≡ (take_line target n (ready c)).1)
  unfolding consoleread take_line
  consoleread_lem zero dst c v = (v, refl, refl)
  consoleread_lem (suc k) dst c v = elim (Bool-cases (c.r == c.w)) [
    | inl empty ↦
        let none_ : pending c ≡ 0 = ground (arith, v.words) in rw (empty, none_) (v, refl, refl)
    | inr some_ ↦
        let (v', less) = next-IsCons c v some_ in
        let split : ready c ≡ c.buf (c.r % input_buf_size) ∷ ready (next c) =
          ap (window c.buf c.r) less in
        elim (Bool-cases (c.buf (c.r % input_buf_size) == control_d)) [
          | inl end_ ↦ elim (Bool-cases (ltb (suc k) target)) [
            | inl later ↦
                let back : u32 (u32 (c.r + 1) + 2 ^ 32 - 1) ≡ c.r = omega (arith, v.words) in
                rw (split, some_, end_, later, back) (v, refl, split)
            | inr first ↦ rw (split, some_, end_, first) (v', refl, refl)
          ]
          | inr other ↦ elim (Bool-cases (c.buf (c.r % input_buf_size) == newline)) [
            | inl line ↦ rw (split, some_, other, all dst, line) (v', refl, refl)
            | inr inside ↦
                let r = consoleread_lem k (dst + 1) (next c) v' in
                rw (split, some_, other, all dst, inside)
                  (r.0, ap (λ l. c.buf (c.r % input_buf_size) ∷ l) r.1, r.2)
          ]
        ]
  ]
