-- ===== src/Kernel/Log/Copy.antt =====
-- What the loops of write_log and install_trans do to the disk and the cache.
use mit_61810_labs.Prelude.{
  ℕ, zero, suc, ◌+◌, ◌-◌, ◌≤◌, ◌<◌, ◌≡◌, ◌≢◌, refl, ◌∙◌, ap, inl, inr, arith, Bool-cases, ◌==◌,
  update_self, update-ne,
}
use mit_61810_labs.Kernel.Log.{Block, Io, bwrite, move_block, write_log_loop, install_loop}

-- Both loops: block `src i` is copied to block `dst i` and written, for `k` indices from `t` on.
pub copy : (ℕ → ℕ) → (ℕ → ℕ) → ℕ → ℕ → Io → Io
copy src dst zero t io = io
copy src dst (suc k) t io = copy src dst k (suc t) (move_block (src t) (dst t) io)

pub write_log_loop-copy :
    (start : ℕ) (block : ℕ → ℕ) (k t : ℕ) (io : Io)
    → write_log_loop start block k t io ≡ copy block (λ i. start + i + 1) k t io
unfolding write_log_loop copy
write_log_loop-copy start block zero t io = refl
write_log_loop-copy start block (suc k) t io = write_log_loop-copy start block k (suc t) _

pub install_loop-copy :
    (start : ℕ) (block : ℕ → ℕ) (k t : ℕ) (io : Io)
    → install_loop start block k t io ≡ copy (λ i. start + i + 1) block k t io
unfolding install_loop copy
install_loop-copy start block zero t io = refl
install_loop-copy start block (suc k) t io = install_loop-copy start block k (suc t) _

pub install_loop-none :
    (start : ℕ) (block : ℕ → ℕ) (k t : ℕ) (io : Io) → k ≡ 0 → install_loop start block k t io ≡ io
unfolding install_loop
install_loop-none start block zero t io h = refl
install_loop-none start block (suc k) t io h = absurd (omega arith)

-- A single write: what it leaves alone, and what it does while there is power.
module _ (b : ℕ) (io : Io) where
  pub cache-bwrite : (bwrite b io).cache ≡ io.cache
  unfolding bwrite
  cache-bwrite = ground arith

  pub power-bwrite : (bwrite b io).power ≡ io.power - 1
  unfolding bwrite
  power-bwrite = ground arith

  pub disk-bwrite-ne : (q : ℕ) → b ≢ q → (bwrite b io).disk q ≡ io.disk q
  unfolding bwrite
  disk-bwrite-ne q h = ground (arith, update-ne io.disk b (io.cache b) q h)

  pub disk-bwrite_self : 0 < io.power → (bwrite b io).disk b ≡ io.cache b
  unfolding bwrite
  disk-bwrite_self h = ground (arith, update_self io.disk b (io.cache b))

  pub disk-bwrite-off : io.power ≡ 0 → (bwrite b io).disk ≡ io.disk
  unfolding bwrite
  disk-bwrite-off h = ground arith

module _ (from to : ℕ) (io : Io) where
  pub power-move : (move_block from to io).power ≡ io.power - 1
  unfolding move_block
  power-move = power-bwrite to _

  pub cache-move_self : (move_block from to io).cache to ≡ io.cache from
  unfolding move_block
  cache-move_self = ap (λ (c : ℕ → Block). c to) (cache-bwrite to _) ∙ update_self io.cache to _

  pub cache-move-ne : (q : ℕ) → to ≢ q → (move_block from to io).cache q ≡ io.cache q
  unfolding move_block
  cache-move-ne q h = ap (λ (c : ℕ → Block). c q) (cache-bwrite to _) ∙ update-ne io.cache to _ q h

  pub disk-move-ne : (q : ℕ) → to ≢ q → (move_block from to io).disk q ≡ io.disk q
  unfolding move_block
  disk-move-ne q h = disk-bwrite-ne to _ q h

  pub disk-move_self : 0 < io.power → (move_block from to io).disk to ≡ io.cache from
  unfolding move_block
  disk-move_self h = disk-bwrite_self to _ h ∙ update_self io.cache to _

  pub disk-move-off : io.power ≡ 0 → (move_block from to io).disk ≡ io.disk
  unfolding move_block
  disk-move-off h = disk-bwrite-off to _ h

module _ (src dst : ℕ → ℕ) where
  pub power-copy : (k t : ℕ) (io : Io) → (copy src dst k t io).power ≡ io.power - k
  unfolding copy
  power-copy zero t io = omega arith
  power-copy (suc k) t io =
      omega
        (arith, power-copy k (suc t) (move_block (src t) (dst t) io), power-move (src t) (dst t) io)

  pub disk-copy-off : (k t : ℕ) (io : Io) → io.power ≡ 0 → (copy src dst k t io).disk ≡ io.disk
  unfolding copy
  disk-copy-off zero t io h = refl
  disk-copy-off (suc k) t io h =
      disk-copy-off k (suc t) (move_block (src t) (dst t) io)
        (omega (arith, power-move (src t) (dst t) io))
      ∙ disk-move-off (src t) (dst t) io h

  -- A block that is no target keeps its data, in the cache and on the disk.
  pub copy-frame :
      (k t : ℕ) (io : Io) (q : ℕ)
      → ((i : ℕ) → t ≤ i → i < t + k → dst i ≢ q)
      → ((copy src dst k t io).disk q ≡ io.disk q) × ((copy src dst k t io).cache q ≡ io.cache q)
  unfolding copy
  copy-frame zero t io q h = (refl, refl)
  copy-frame (suc k) t io q h =
      let here : dst t ≢ q = h t (omega arith) (omega arith) in
      let rest =
        copy-frame k (suc t) (move_block (src t) (dst t) io) q
          (λ i lo hi. h i (omega arith) (omega arith)) in
      (
        rest.0 ∙ disk-move-ne (src t) (dst t) io q here,
        rest.1 ∙ cache-move-ne (src t) (dst t) io q here,
      )

  -- Where no source is a target and the targets differ, every target ends with its source's data:
  -- in the cache, and with enough power on the disk.
  pub copy-target :
      (k t : ℕ) (io : Io)
      → ((i j : ℕ) → t ≤ i → i < t + k → t ≤ j → j < t + k → dst i ≢ src j)
      → ((i j : ℕ) → t ≤ i → i < t + k → t ≤ j → j < t + k → dst i ≡ dst j → i ≡ j)
      → (i : ℕ) → t ≤ i
      → i < t + k
      → ((copy src dst k t io).cache (dst i) ≡ io.cache (src i))
        × (k ≤ io.power → (copy src dst k t io).disk (dst i) ≡ io.cache (src i))
  unfolding copy
  copy-target zero t io apart inj i lo hi = absurd (omega arith)
  copy-target (suc k) t io apart inj i lo hi = elim (Bool-cases (i == t)) [
    | inl here ↦ now (ground arith)
    | inr other ↦ later (ground arith) (λ l.
        copy-target k (suc t) (move_block (src t) (dst t) io)
          (λ a b p q r s. apart a b (omega arith) (omega arith) (omega arith) (omega arith))
          (λ a b p q r s. inj a b (omega arith) (omega arith) (omega arith) (omega arith)) i l
          (omega arith))
  ]
    where
      io' : Io
      io' = move_block (src t) (dst t) io

      now :
          i ≡ t
          → ((copy src dst k (suc t) io').cache (dst i) ≡ io.cache (src i))
            × (suc k ≤ io.power → (copy src dst k (suc t) io').disk (dst i) ≡ io.cache (src i))
      now e =
          let kept =
            copy-frame k (suc t) io' (dst i)
              (λ j l u c. absurd (omega (arith, inj j i (omega arith) (omega arith) lo hi c))) in
          (
            kept.1 ∙ rw e (cache-move_self (src t) (dst t) io),
            λ p. kept.0 ∙ rw e (disk-move_self (src t) (dst t) io (omega arith)),
          )

      later :
          suc t ≤ i
          → (suc t ≤ i
              → ((copy src dst k (suc t) io').cache (dst i) ≡ io'.cache (src i))
                × (k ≤ io'.power → (copy src dst k (suc t) io').disk (dst i) ≡ io'.cache (src i)))
          → ((copy src dst k (suc t) io').cache (dst i) ≡ io.cache (src i))
            × (suc k ≤ io.power → (copy src dst k (suc t) io').disk (dst i) ≡ io.cache (src i))
      later l rec =
          let same : io'.cache (src i) ≡ io.cache (src i) =
            cache-move-ne (src t) (dst t) io (src i)
              (apart t i (omega arith) (omega arith) lo hi) in
          let ih = rec l in
          (ih.0 ∙ same, λ p. ih.1 (omega (arith, power-move (src t) (dst t) io)) ∙ same)
