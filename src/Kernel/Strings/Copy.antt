-- ===== src/Kernel/Strings/Copy.antt =====
-- safestrcpy, strlen and memcmp against what they mean.
use mit_61810_labs.Prelude.{
  ℕ, zero, suc, ◌+◌, ◌-◌, ◌^◌, ◌≤◌, ◌<◌, ◌≡◌, ◌≢◌, ◌⊎◌, refl, sym, ap, ◌∙◌, arith, inl, inr, true,
  false, ◌||◌, leb, ◌==◌, update, update_self, update-ne, Bool-cases, ==_ne,
}
use mit_61810_labs.Kernel.Strings.{Memory, memcmp, safe_loop, safestrcpy, strlen}

-- In the `n` bytes at `s` stands a string of `len` bytes, those of `t` before a zero byte: the whole
-- of the string at `t`, unless it fills the `n` bytes.
pub record IsCopied (s t n : ℕ) (m m' : Memory) : Type 0 where
  pub len : ℕ
  pub fits : len < n
  pub same : (i : ℕ) → i < len → (m' (s + i) ≡ m (t + i)) × (m (t + i) ≢ 0)
  pub ended : m' (s + len) ≡ 0
  pub whole : len + 1 < n → m (t + len) ≡ 0
  pub outside : (a : ℕ) → (a < s) ⊎ (s + n ≤ a) → m' a ≡ m a

IsCopied-one :
    (s t k : ℕ) (m : Memory)
    → m t ≡ 0
    → IsCopied s t (suc (suc k)) m (update (update m s (m t)) (suc s) 0)
IsCopied-one s t k m z = record {
  len = 0;
  fits = omega arith;
  same = λ i l. absurd (omega arith);
  ended =
      let e : s + 0 ≡ s = omega arith in
      rw e (
        update-ne (update m s (m t)) (suc s) 0 s (λ q. omega (arith, q))
        ∙ update_self m s (m t)
        ∙ z);
  whole = λ l. let e : t + 0 ≡ t = omega arith in rw e z;
  outside = λ a o.
      update-ne (update m s (m t)) (suc s) 0 a (λ q. ground (arith, o))
      ∙ update-ne m s (m t) a (λ q. ground (arith, o));
}

IsCopied-more :
    (s t k : ℕ) (m m' : Memory)
    → m t ≢ 0
    → (t + (suc (suc k)) ≤ s) ⊎ (s + (suc (suc k)) ≤ t)
    → IsCopied (suc s) (suc t) (suc k) (update m s (m t)) m'
    → IsCopied s t (suc (suc k)) m m'
IsCopied-more s t k m m' ne apart r = record {
  len = suc r.len;
  fits = omega (arith, r.fits);
  same = same;
  ended = let e : s + suc r.len ≡ suc s + r.len = omega arith in rw e r.ended;
  whole = λ l.
      let e : t + suc r.len ≡ suc t + r.len = omega arith in
      rw e (
        sym (update-ne m s (m t) (suc t + r.len) (λ q. ground (arith, apart, r.fits)))
        ∙ r.whole (omega arith));
  outside = λ a o. r.outside a (ground (arith, o)) ∙ update-ne m s (m t) a (λ q. ground (arith, o));
}
  where
    same : (i : ℕ) → i < suc r.len → (m' (s + i) ≡ m (t + i)) × (m (t + i) ≢ 0)
    same zero l =
        let e : s + 0 ≡ s = omega arith in
        let e' : t + 0 ≡ t = omega arith in
        rw (e, e') (r.outside s (inl (omega arith)) ∙ update_self m s (m t), ne)
    same (suc i) l =
        let e : s + suc i ≡ suc s + i = omega arith in
        let e' : t + suc i ≡ suc t + i = omega arith in
        let kept : update m s (m t) (suc t + i) ≡ m (suc t + i) =
          update-ne m s (m t) (suc t + i) (λ q. ground (arith, apart, r.fits)) in
        rw (e, e') ((r.same i (omega arith)).0 ∙ kept, λ z. (r.same i (omega arith)).1 (kept ∙ z))

safe_loop-IsCopied :
    (k s t : ℕ) (m : Memory)
    → (t + suc k ≤ s) ⊎ (s + suc k ≤ t)
    → IsCopied s t (suc k) m (safe_loop s t k m)
unfolding safe_loop
safe_loop-IsCopied zero s t m h = record {
  len = 0;
  fits = omega arith;
  same = λ i l. absurd (omega arith);
  ended = let e : s + 0 ≡ s = omega arith in rw e (update_self m s 0);
  whole = λ l. absurd (omega arith);
  outside = λ a o. update-ne m s 0 a (λ q. ground (arith, o));
}
safe_loop-IsCopied (suc k) s t m h = elim (Bool-cases (m t == 0)) [
  | inl last ↦ rw last (IsCopied-one s t k m (ground arith))
  | inr more ↦ rw more (
      IsCopied-more s t k m (safe_loop (suc s) (suc t) k (update m s (m t))) (ground arith) h
        (safe_loop-IsCopied k (suc s) (suc t) (update m s (m t)) (ground (arith, h))))
]

-- safestrcpy into `n` bytes, n positive and a positive int, apart from the string: the copy ends with
-- a zero byte inside the `n` bytes, is the string's longest part that fits, and nothing outside
-- changes.
pub safestrcpy-IsCopied :
    (s t n : ℕ) (m : Memory)
    → 0 < n
    → n < 2 ^ 31
    → (t + n ≤ s) ⊎ (s + n ≤ t)
    → IsCopied s t n m (safestrcpy s t n m)
unfolding safestrcpy
safestrcpy-IsCopied s t zero m pos low h = absurd (omega arith)
safestrcpy-IsCopied s t (suc k) m pos low h =
    let go_on : (suc k == 0 || leb (2 ^ 31) (suc k)) ≡ false = ground arith in
    let e : suc k - 1 ≡ k = omega arith in rw (go_on, e) (safe_loop-IsCopied k s t m h)

-- strlen gives the number of bytes before the first zero byte, with any larger fuel.
pub strlen_lem :
    (j fuel : ℕ) (m : Memory) (s : ℕ)
    → j < fuel
    → ((i : ℕ) → i < j → m (s + i) ≢ 0)
    → m (s + j) ≡ 0
    → strlen fuel m s ≡ j
unfolding strlen
strlen_lem j zero m s h before z = absurd (omega arith)
strlen_lem zero (suc fuel) m s h before z =
    let e : s + 0 ≡ s = omega arith in let z' : m s ≡ 0 = ap m (sym e) ∙ z in rw z' refl
strlen_lem (suc j) (suc fuel) m s h before z =
    let e : s + 0 ≡ s = omega arith in
    let ne : (m s == 0) ≡ false = ==_ne (m s) 0 (λ q. before 0 (omega arith) (ap m e ∙ q)) in
    let shift : (i : ℕ) → s + suc i ≡ suc s + i = λ i. omega arith in
    rw ne (
      ap suc (
        strlen_lem j fuel m (suc s) (omega arith)
          (λ i l q. before (suc i) (omega arith) (ap m (shift i) ∙ q)) (ap m (sym (shift j)) ∙ z)))

-- On bytes, memcmp is 0 if and only if the ranges hold the same bytes.
pub memcmp_lem :
    (m : Memory) (s1 s2 n : ℕ)
    → ((a : ℕ) → m a < 2 ^ 8)
    → (memcmp m s1 s2 n ≡ 0 → (i : ℕ) → i < n → m (s1 + i) ≡ m (s2 + i))
      × (((i : ℕ) → i < n → m (s1 + i) ≡ m (s2 + i)) → memcmp m s1 s2 n ≡ 0)
unfolding memcmp
memcmp_lem m s1 s2 zero low = (λ e i l. absurd (omega arith), λ e. refl)
memcmp_lem m s1 s2 (suc n) low = elim (Bool-cases (m s1 == m s2)) [
  | inl same ↦ rw same (
    all same (memcmp_lem m (suc s1) (suc s2) n low).0,
    λ e.
        (memcmp_lem m (suc s1) (suc s2) n low).1
          (λ i l. ap m (sym (shift s1 i)) ∙ e (suc i) (omega arith) ∙ ap m (shift s2 i)),
  )
  | inr other ↦
      let ne : m s1 ≢ m s2 = ground arith in
      let p : s1 + 0 ≡ s1 = omega arith in
      let q : s2 + 0 ≡ s2 = omega arith in
      rw other (
        λ e. absurd (omega (arith, low s1, low s2, ne, e)),
        λ e. absurd (ne (ap m (sym p) ∙ e 0 (omega arith) ∙ ap m q)),
      )
]
  where
    shift : (s i : ℕ) → s + suc i ≡ suc s + i
    shift s i = omega arith

    all :
        (m s1 == m s2) ≡ true
        → (memcmp m (suc s1) (suc s2) n ≡ 0 → (i : ℕ) → i < n → m (suc s1 + i) ≡ m (suc s2 + i))
        → memcmp m (suc s1) (suc s2) n ≡ 0
        → (i : ℕ) → i < suc n
        → m (s1 + i) ≡ m (s2 + i)
    all same r e zero l =
        let p : s1 + 0 ≡ s1 = omega arith in
        let q : s2 + 0 ≡ s2 = omega arith in rw (p, q) (ground arith)
    all same r e (suc i) l = ap m (shift s1 i) ∙ r e i (omega arith) ∙ ap m (sym (shift s2 i))
