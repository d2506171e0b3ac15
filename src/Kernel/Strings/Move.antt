-- ===== src/Kernel/Strings/Move.antt =====
-- memmove and memset: the bytes that they store, also where the ranges overlap.
use mit_61810_labs.Prelude.{
  ℕ, zero, suc, ◌+◌, ◌-◌, ◌%◌, ◌^◌, ◌≤◌, ◌<◌, ◌≡◌, ◌⊎◌, refl, ◌∙◌, arith, inl, inr, ◌&&◌, ltb, ◌==◌,
  update, update_self, update-ne, Bool-cases,
}
use mit_61810_labs.Kernel.Strings.{Memory, memset, move_down, move_up, memmove}

-- Byte `i` of the `n` bytes at `dst` is what `src` held, and no byte outside changes.
pub record Moved (dst src n : ℕ) (m m' : Memory) : Type 0 where
  pub inside : (i : ℕ) → i < n → m' (dst + i) ≡ m (src + i)
  pub outside : (a : ℕ) → (a < dst) ⊎ (dst + n ≤ a) → m' a ≡ m a

move_up-Moved : (d s k : ℕ) (m : Memory) → (d ≤ s) ⊎ (s + k ≤ d) → Moved d s k m (move_up d s k m)
unfolding move_up
move_up-Moved d s zero m h = record { inside = λ i l. absurd (omega arith); outside = λ a o. refl }
move_up-Moved d s (suc k) m h =
    let r = move_up-Moved (suc d) (suc s) k (update m d (m s)) (ground (arith, h)) in
    record { inside = inside r; outside = outside r }
  where
    inside :
        Moved (suc d) (suc s) k (update m d (m s)) (move_up (suc d) (suc s) k (update m d (m s)))
        → (i : ℕ) → i < suc k
        → move_up (suc d) (suc s) k (update m d (m s)) (d + i) ≡ m (s + i)
    inside r zero l =
        let e : d + 0 ≡ d = omega arith in
        let e' : s + 0 ≡ s = omega arith in
        rw (e, e') (r.outside d (inl (omega arith)) ∙ update_self m d (m s))
    inside r (suc i) l =
        let e : d + suc i ≡ suc d + i = omega arith in
        let e' : s + suc i ≡ suc s + i = omega arith in
        rw (e, e')
          (r.inside i (omega arith) ∙ update-ne m d (m s) (suc s + i) (λ q. ground (arith, h)))

    outside :
        Moved (suc d) (suc s) k (update m d (m s)) (move_up (suc d) (suc s) k (update m d (m s)))
        → (a : ℕ) → (a < d) ⊎ (d + suc k ≤ a)
        → move_up (suc d) (suc s) k (update m d (m s)) a ≡ m a
    outside r a o = r.outside a (ground (arith, o)) ∙ update-ne m d (m s) a (λ q. ground (arith, o))

move_down-Moved : (d s k : ℕ) (m : Memory) → s ≤ d → Moved d s k m (move_down (d + k) (s + k) k m)
unfolding move_down
move_down-Moved d s zero m h = record {
  inside = λ i l. absurd (omega arith);
  outside = λ a o. refl;
}
move_down-Moved d s (suc k) m h =
    let e : d + suc k - 1 ≡ d + k = omega arith in
    let e' : s + suc k - 1 ≡ s + k = omega arith in
    let m1 = update m (d + k) (m (s + k)) in
    let r : Moved d s k m1 (move_down (d + k) (s + k) k m1) = move_down-Moved d s k m1 h in
    rw (e, e')
      record {
        inside = λ i l. elim (Bool-cases (i == k)) [
          | inl last ↦
              let p : i ≡ k = ground arith in
              rw p (r.outside (d + k) (inr (omega arith)) ∙ update_self m (d + k) (m (s + k)))
          | inr before ↦
              r.inside i (ground arith)
              ∙ update-ne m (d + k) (m (s + k)) (s + i) (λ q. ground arith)
        ];
        outside = λ a o.
            r.outside a (ground (arith, o))
            ∙ update-ne m (d + k) (m (s + k)) a (λ q. ground (arith, o));
      }

-- memmove stores the bytes that the source range held before the call, also where the ranges
-- overlap, and changes no byte outside the destination.
pub memmove-Moved : (dst src n : ℕ) (m : Memory) → Moved dst src n m (memmove dst src n m)
unfolding memmove
memmove-Moved dst src n m = elim (Bool-cases (n == 0)) [
  | inl none_ ↦
      let e : n ≡ 0 = ground arith in
      rw none_ record { inside = λ i l. absurd (omega (arith, e)); outside = λ a o. refl }
  | inr some_ ↦ elim (Bool-cases (ltb src dst && ltb dst (src + n))) [
    | inl overlap ↦ rw (some_, overlap) (move_down-Moved dst src n m (ground arith))
    | inr apart ↦ rw (some_, apart) (move_up-Moved dst src n m (ground arith))
  ]
]

-- memset stores the low byte of `c` in each of the `n` bytes, and changes no other.
pub memset_lem :
    (dst c n : ℕ) (m : Memory)
    → ((i : ℕ) → i < n → memset dst c n m (dst + i) ≡ c % 2 ^ 8)
      × ((a : ℕ) → (a < dst) ⊎ (dst + n ≤ a) → memset dst c n m a ≡ m a)
unfolding memset
memset_lem dst c zero m = (λ i l. absurd (omega arith), λ a o. refl)
memset_lem dst c (suc n) m =
    let r = memset_lem (suc dst) c n (update m dst (c % 2 ^ 8)) in
    (
      inside r,
      λ a o. r.1 a (ground (arith, o)) ∙ update-ne m dst (c % 2 ^ 8) a (λ q. ground (arith, o)),
    )
  where
    inside :
        ((i : ℕ)
            → i < n
            → memset (suc dst) c n (update m dst (c % 2 ^ 8)) (suc dst + i) ≡ c % 2 ^ 8)
          × ((a : ℕ)
              → (a < suc dst) ⊎ (suc dst + n ≤ a)
              → memset (suc dst) c n (update m dst (c % 2 ^ 8)) a ≡ update m dst (c % 2 ^ 8) a)
        → (i : ℕ) → i < suc n
        → memset (suc dst) c n (update m dst (c % 2 ^ 8)) (dst + i) ≡ c % 2 ^ 8
    inside r zero l =
        let e : dst + 0 ≡ dst = omega arith in
        rw e (r.1 dst (inl (omega arith)) ∙ update_self m dst (c % 2 ^ 8))
    inside r (suc i) l =
        let e : dst + suc i ≡ suc dst + i = omega arith in rw e (r.0 i (omega arith))
