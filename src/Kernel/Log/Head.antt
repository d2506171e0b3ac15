-- ===== src/Kernel/Log/Head.antt =====
-- The log header on disk: what write_head stores and what read_head reads back.
use mit_61810_labs.Prelude.{
  ℕ, zero, suc, ◌+◌, ◌-◌, ◌^◌, ◌≤◌, ◌<◌, ◌≡◌, ◌≢◌, refl, ◌∙◌, ap, inl, inr, arith, Bool-cases, ◌==◌,
  update, update_self, update-ne,
}
use mit_61810_labs.Kernel.Log.{Block, LogState, rounds, put_words, get_words, read_head, write_head}
use mit_61810_labs.Kernel.Log.Copy.{
  cache-bwrite, power-bwrite, disk-bwrite-ne, disk-bwrite_self, disk-bwrite-off,
}

-- The block `hb` is a header with `n` entries `block`.
pub record IsHeader (n : ℕ) (block : ℕ → ℕ) (hb : Block) : Type 0 where
  pub count : hb 0 ≡ n
  pub entries : (j : ℕ) → j < n → hb (suc j) ≡ block j

pub put_words-below :
    (block : ℕ → ℕ) (k i : ℕ) (b : Block) (q : ℕ) → q ≤ i → put_words block k i b q ≡ b q
unfolding put_words
put_words-below block zero i b q h = refl
put_words-below block (suc k) i b q h =
    put_words-below block k (suc i) _ q (omega arith) ∙ update-ne b (suc i) _ q (omega arith)

pub put_words-at :
    (block : ℕ → ℕ) (k i : ℕ) (b : Block) (j : ℕ)
    → i ≤ j
    → j < i + k
    → put_words block k i b (suc j) ≡ block j
unfolding put_words
put_words-at block zero i b j lo hi = absurd (omega arith)
put_words-at block (suc k) i b j lo hi = elim (Bool-cases (i == j)) [
  | inl e ↦
      let e' : i ≡ j = ground arith in
      put_words-below block k (suc i) _ (suc j) (omega arith)
      ∙ rw (← e') (update_self b (suc i) (block i))
  | inr ne ↦ put_words-at block k (suc i) _ j (ground arith) (omega arith)
]

pub get_words-below :
    (b : Block) (k i : ℕ) (block : ℕ → ℕ) (q : ℕ) → q < i → get_words b k i block q ≡ block q
unfolding get_words
get_words-below b zero i block q h = refl
get_words-below b (suc k) i block q h =
    get_words-below b k (suc i) _ q (omega arith) ∙ update-ne block i _ q (omega arith)

pub get_words-at :
    (b : Block) (k i : ℕ) (block : ℕ → ℕ) (j : ℕ)
    → i ≤ j
    → j < i + k
    → get_words b k i block j ≡ b (suc j)
unfolding get_words
get_words-at b zero i block j lo hi = absurd (omega arith)
get_words-at b (suc k) i block j lo hi = elim (Bool-cases (i == j)) [
  | inl e ↦
      let e' : i ≡ j = ground arith in
      get_words-below b k (suc i) _ j (omega arith) ∙ rw (← e') (update_self block i (b (suc i)))
  | inr ne ↦ get_words-at b k (suc i) _ j (ground arith) (omega arith)
]

pub rounds-small : (n : ℕ) → n < 2 ^ 31 → rounds n ≡ n
rounds-small n h = ground arith

module _ (s : LogState) where
  pub write_head-frame :
      (q : ℕ)
      → s.start ≢ q
      → ((write_head s).io.disk q ≡ s.io.disk q) × ((write_head s).io.cache q ≡ s.io.cache q)
  unfolding write_head
  write_head-frame q h = (
    disk-bwrite-ne s.start _ q h,
    ap (λ (c : ℕ → Block). c q) (cache-bwrite s.start _) ∙ update-ne s.io.cache s.start _ q h,
  )

  pub power-write_head : (write_head s).io.power ≡ s.io.power - 1
  unfolding write_head
  power-write_head = power-bwrite s.start _

  pub write_head-off : s.io.power ≡ 0 → (write_head s).io.disk ≡ s.io.disk
  unfolding write_head
  write_head-off h = disk-bwrite-off s.start _ h

  -- While there is power, the header block on disk holds the list in memory.
  pub write_head-on :
      s.n < 2 ^ 31 → 0 < s.io.power → IsHeader s.n s.block ((write_head s).io.disk s.start)
  unfolding write_head
  write_head-on small on =
      let hb = put_words s.block (rounds s.n) 0 (update (s.io.cache s.start) 0 s.n) in
      let e : (write_head s).io.disk s.start ≡ hb =
        disk-bwrite_self s.start _ on ∙ update_self s.io.cache s.start hb in
      record {
        count =
            ap (λ (b : Block). b 0) e
            ∙ put_words-below s.block (rounds s.n) 0 _ 0 (omega arith)
            ∙ update_self (s.io.cache s.start) 0 s.n;
        entries = λ j h.
            ap (λ (b : Block). b (suc j)) e
            ∙ put_words-at s.block (rounds s.n) 0 _ j (omega arith)
                (omega (arith, rounds-small s.n small));
      }

  -- What `read_head` finds in a header block.
  pub read_head-IsHeader :
      {n : ℕ} {block : ℕ → ℕ}
      → n < 2 ^ 31
      → IsHeader n block (s.io.cache s.start)
      → ((read_head s).n ≡ n) × ((j : ℕ) → j < n → (read_head s).block j ≡ block j)
  unfolding read_head
  read_head-IsHeader {n} small h = (
    h.count,
    λ j lt.
        get_words-at (s.io.cache s.start) (rounds (s.io.cache s.start 0)) 0 s.block j (omega arith)
          (omega (arith, rounds-small n small, ap rounds h.count))
        ∙ h.entries j lt,
  )
