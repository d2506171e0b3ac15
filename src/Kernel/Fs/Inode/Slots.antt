-- ===== src/Kernel/Fs/Inode/Slots.antt =====
-- The blocks of a file: what an inode that is in order looks like, and the content it stands for.
use mit_61810_labs.Prelude.{
  ℕ, suc, ◌-◌, ◌*◌, ◌/◌, ◌%◌, ◌^◌, ◌≤◌, ◌<◌, ◌≡◌, ◌≢◌, ◌⊎◌, refl, sym, ap, ◌∙◌, subst, arith, inl,
  inr, Bool, true, false, ltb, ◌==◌, ==_refl, if◌then◌else◌, Bool-cases,
}
use mit_61810_labs.Kernel.Fs.{block_size, Superblock, Disk, is_free}
use mit_61810_labs.Kernel.Fs.Inode.{Held, load32, direct_blocks}
use mit_61810_labs.Kernel.Fs.Bitmap.{IsDisk, first_data}
use mit_61810_labs.Kernel.Fs.Blocks.{free_data}

-- The slot of a file's `k`-th block number: `addrs[k]` for k < 13, then the entries of the indirect block.
unfoldable pub slot : ℕ → Held → ℕ
unfolding load32
slot k s =
    if ltb k 13
    then s.ino.addrs k
    else (if s.ino.addrs direct_blocks == 0
        then 0
        else load32 (s.disk.block (s.ino.addrs direct_blocks)) (4 * (k - 13)))

-- The slot that maps the block `bn` of the file.
abbrev pub slot_of : ℕ → ℕ
slot_of bn = if ltb bn direct_blocks then bn else suc bn

-- The byte `p` of the file; a block that is not there reads as zeroes.
unfoldable pub content : Held → ℕ → ℕ
unfolding slot
content s p =
    let v = slot (slot_of (p / block_size)) s in
    if v == 0 then 0 else s.disk.block v (p % block_size)

-- A data block in use.
pub record IsOwned (sb : Superblock) (v : ℕ) (d : Disk) : Type 0 where
  pub behind : first_data sb ≤ v
  pub within : v < sb.size
  pub used : is_free sb v d ≡ false

-- The blocks of the file are data blocks in use, each with one slot.
pub record IsFile (sb : Superblock) (s : Held) : Type 0 where
  pub disk : IsDisk sb s.disk
  pub short : sb.size < 2 ^ 32
  pub listed : s.ino.inum < sb.ninodes
  pub owned : (k : ℕ) → k < 269 → slot k s ≢ 0 → IsOwned sb (slot k s) s.disk
  pub apart : (k l : ℕ) → k < 269 → l < 269 → slot k s ≢ 0 → slot k s ≡ slot l s → k ≡ l

-- The file has no hole.
abbrev pub IsWhole : Held → Type 0
IsWhole s = (p : ℕ) → p < s.ino.size → slot (slot_of (p / block_size)) s ≢ 0

module _ (sb : Superblock) where
  -- From `s` to `s'` the free block `b` was put in the slot `k`, which was empty.
  pub record Grows (k b : ℕ) (s s' : Held) : Type 0 where
    pub place_lt : k < 269
    pub empty : slot k s ≡ 0
    pub slots : (l : ℕ) → l < 269 → slot l s' ≡ (if k == l then b else slot l s)
    pub fresh : is_free sb b s.disk ≡ true
    pub within : b < sb.size
    pub taken :
        (x : ℕ)
        → x < sb.size
        → is_free sb x s'.disk ≡ (if b == x then false else is_free sb x s.disk)
    pub kept :
        (l : ℕ)
        → l < 269
        → l ≢ 12
        → slot l s ≢ 0
        → s'.disk.block (slot l s) ≡ s.disk.block (slot l s)
    pub zeroed : (q : ℕ) → s'.disk.block b q ≡ 0
    pub disk : IsDisk sb s'.disk
    pub inum : s'.ino.inum ≡ s.ino.inum
    pub size : s'.ino.size ≡ s.ino.size

  -- A slot of the file holds no free block.
  pub slot-fresh :
      (s : Held) → IsFile sb s → (b l : ℕ) → l < 269 → is_free sb b s.disk ≡ true → b ≢ slot l s
  slot-fresh s h b l lt fr e = elim (Bool-cases (slot l s == 0)) [
    | inl zero_ ↦
        let z : b ≡ 0 = ground arith in
        ground (arith, ap (λ x. is_free sb x s.disk) z, fr, h.disk.meta 0 (omega arith))
    | inr some_ ↦
        ground (arith, ap (λ x. is_free sb x s.disk) e, fr, (h.owned l lt (λ q. ground arith)).used)
  ]

  pub Grows-content :
      (k b : ℕ) (s s' : Held)
      → IsFile sb s
      → Grows k b s s'
      → (p : ℕ) → p / block_size < 268
      → content s' p ≡ content s p
  unfolding content
  Grows-content k b s s' h g p lt =
      let l = slot_of (p / block_size) in
      let ll : l < 269 = ground arith in
      let l12 : l ≢ 12 = ground arith in
      elim (Bool-cases (k == l)) [
        | inl here ↦
            let e : slot l s' ≡ b = g.slots l ll ∙ rw here refl in
            let z : slot l s ≡ 0 = ap (λ l. slot l s) (ground arith) ∙ g.empty in
            rw (e, z) (ground (arith, g.zeroed (p % block_size)))
        | inr away ↦
            let e : slot l s' ≡ slot l s = g.slots l ll ∙ rw away refl in
            elim (Bool-cases (slot l s == 0)) [
              | inl none_ ↦ rw (e, none_) refl
              | inr some_ ↦
                  rw (e, some_) (ap (λ f. f (p % block_size)) (g.kept l ll l12 (λ q. ground arith)))
            ]
      ]

  Grows-cases :
      (k b : ℕ) (s s' : Held)
      → Grows k b s s'
      → (l : ℕ) → l < 269
      → slot l s' ≢ 0
      → ((k ≡ l) × (slot l s' ≡ b)) ⊎ ((slot l s ≢ 0) × (slot l s' ≡ slot l s))
  Grows-cases k b s s' g l lt ne = elim (Bool-cases (k == l)) [
    | inl here ↦ inl (ground arith, g.slots l lt ∙ rw here refl)
    | inr away ↦
        let e : slot l s' ≡ slot l s = g.slots l lt ∙ rw away refl in inr (λ z. ne (e ∙ z), e)
  ]

  stays_used : (c : Bool) {u : Bool} → u ≡ false → (if c then false else u) ≡ false
  stays_used true e = refl
  stays_used false e = e

  Grows-IsOwned :
      (k b : ℕ) (s s' : Held)
      → IsFile sb s
      → Grows k b s s'
      → (l : ℕ) → l < 269
      → slot l s' ≢ 0
      → IsOwned sb (slot l s') s'.disk
  Grows-IsOwned k b s s' h g l lt ne = elim (Grows-cases k b s s' g l lt ne) [
    | inl (_, e) ↦
        subst (λ v. IsOwned sb v s'.disk) (sym e)
          record {
            behind = free_data sb b s.disk h.disk g.fresh;
            within = g.within;
            used = g.taken b g.within ∙ rw (==_refl b) refl;
          }
    | inr (ne', e) ↦
        let o = h.owned l lt ne' in
        subst (λ v. IsOwned sb v s'.disk) (sym e)
          record {
            behind = o.behind;
            within = o.within;
            used = g.taken (slot l s) o.within ∙ stays_used (b == slot l s) o.used;
          }
  ]

  pub Grows-IsFile : (k b : ℕ) (s s' : Held) → IsFile sb s → Grows k b s s' → IsFile sb s'
  Grows-IsFile k b s s' h g = record {
    disk = g.disk;
    short = h.short;
    listed = omega (arith, g.inum, h.listed);
    owned = Grows-IsOwned k b s s' h g;
    apart = λ l m ll lm ne e. elim (Grows-cases k b s s' g l ll ne) [
      | inl (kl, eb) ↦ elim (Grows-cases k b s s' g m lm (λ z. ne (e ∙ z))) [
        | inl (km, _) ↦ sym kl ∙ km
        | inr (_, em) ↦ absurd (slot-fresh s h b m lm g.fresh (sym eb ∙ e ∙ em))
      ]
      | inr (nl, el) ↦ elim (Grows-cases k b s s' g m lm (λ z. ne (e ∙ z))) [
        | inl (_, eb) ↦ absurd (slot-fresh s h b l ll g.fresh (sym eb ∙ sym e ∙ el))
        | inr (_, em) ↦ h.apart l m ll lm nl (sym el ∙ e ∙ em)
      ]
    ];
  }
