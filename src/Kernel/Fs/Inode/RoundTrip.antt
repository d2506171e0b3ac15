-- ===== src/Kernel/Fs/Inode/RoundTrip.antt =====
-- readi after writei.
use mit_61810_labs.Prelude.{
  ℕ, ◌+◌, ◌-◌, ◌*◌, ◌/◌, ◌^◌, ◌≤◌, ◌<◌, ◌≡◌, refl, sym, ap, ◌∙◌, subst, arith, inl, inr, true, ◌&&◌,
  Option, some, ltb, leb, ◌==◌, Bool-cases, done, Returns, Returns-mono,
}
use mit_61810_labs.Kernel.Fs.{block_size, Superblock, Transaction}
use mit_61810_labs.Kernel.Fs.Inode.{Held, blit, writei, max_file}
use mit_61810_labs.Kernel.Fs.Inode.Slots.{slot_of, content, IsFile, IsWhole}
use mit_61810_labs.Kernel.Fs.Inode.{readi}
use mit_61810_labs.Kernel.Fs.Guards.{Ends}
use mit_61810_labs.Kernel.Fs.Inode.Writei.{IsWritei, writei_lem}
use mit_61810_labs.Kernel.Fs.Inode.Readi.{IsRead, available, readi_lem}

-- A file without holes gives all it has, or the memory of the caller ends.
read_whole :
    (sb : Superblock) (room : ℕ → ℕ) (dst off n : ℕ) (memory : ℕ → ℕ) (s : Held)
    (r : Option ℕ × (ℕ → ℕ) × Held)
    → IsWhole s
    → s.ino.size ≤ max_file * block_size
    → ((g : ℕ) → g ≤ n → n ≤ g + room (dst + g))
    → IsRead sb room (content s) dst off 0 (available s.ino.size off n) memory s r
    → (r.0 ≡ some (available s.ino.size off n))
      × ((q : ℕ) → r.1 q ≡ blit memory dst (content s) off (available s.ino.size off n) q)
read_whole sb room dst off n memory s r w limit fits p =
    let all : r.0 ≡ some (0 + p.got)
        → p.moved ≡ p.got
        → p.got ≡ available s.ino.size off n
        → (r.0 ≡ some (available s.ino.size off n))
          × ((q : ℕ) → r.1 q ≡ blit memory dst (content s) off (available s.ino.size off n) q) =
      λ a b c.
        let e : p.moved ≡ available s.ino.size off n = b ∙ c in
        (
          a ∙ ap some (omega (arith, c)),
          λ q. p.copied q ∙ ap (λ m. blit memory dst (content s) off m q) e,
        ) in
    elim p.result [
      | inl (a, b, inl c) ↦ all a b c
      | inl (a, b, inr (_, hole)) ↦ elim (Bool-cases (p.got == available s.ino.size off n)) [
        | inl whole ↦ all a b (ground arith)
        | inr short ↦
            let lt : off + p.got < s.ino.size = ground (arith, p.within, b) in
            let ne = w (off + p.got) lt in
            absurd (
              ne (
                sym (p.keeps.stays (slot_of ((off + p.got) / block_size)) (ground arith) ne)
                ∙ hole))
      ]
      | inr (a, b, c) ↦ absurd (ground (arith, b, c, fits p.got (ground (arith, b, c))))
    ]

-- A file without holes, and a caller whose memory does not end: readi gives every byte that the file
-- has from `off` on.
pub readi_whole :
    (sb : Superblock) (room : ℕ → ℕ) (dst off n : ℕ) (memory : ℕ → ℕ) (s : Held)
    → IsFile sb s
    → IsWhole s
    → s.ino.size ≤ max_file * block_size
    → off < 2 ^ 32
    → n < 2 ^ 32
    → ((g : ℕ) → g ≤ n → n ≤ g + room (dst + g))
    → Returns
        (λ r.
          (r.0 ≡ some (available s.ino.size off n))
          × ((q : ℕ) → r.1 q ≡ blit memory dst (content s) off (available s.ino.size off n) q))
        (readi sb room memory dst off n s)
readi_whole sb room dst off n memory s h w limit lo ln fits =
    Returns-mono _ (readi sb room memory dst off n s)
      (readi_lem sb room dst off n memory s h limit lo ln)
      (λ r p. read_whole sb room dst off n memory s r w limit fits p)

copy_back :
    (f g memory memory' : ℕ → ℕ) (src dst off n q : ℕ)
    → ((i : ℕ) → i < n → g (off + i) ≡ blit f off memory src n (off + i))
    → blit memory' dst g off n q ≡ blit memory' dst memory src n q
copy_back f g memory memory' src dst off n q e = elim (Bool-cases (leb dst q && ltb q (dst + n))) [
  | inl inside ↦
      let i = q - dst in
      let a : leb off (off + i) ≡ true = ground arith in
      let b : ltb (off + i) (off + n) ≡ true = ground arith in
      let c : off + i - off ≡ i = omega arith in rw inside (e i (ground arith) ∙ rw (a, b, c) refl)
  | inr outside ↦ rw outside refl
]

-- For a file in order and without holes, of MAXFILE blocks at most, a memory of bytes, and an offset and
-- a count n of 32 bits: when writei counts all of its n
-- bytes, readi of the same range into a memory that does not end returns n, and puts the n bytes that
-- were written there into the memory and changes nothing else of it.
pub readi-writei :
    (sb : Superblock) (room room' memory memory' : ℕ → ℕ) (t : Transaction) (src dst off n : ℕ)
    (s s' : Held)
    → ((q : ℕ) → memory q < 256)
    → IsFile sb s
    → IsWhole s
    → s.ino.size ≤ max_file * block_size
    → off < 2 ^ 32
    → n < 2 ^ 32
    → writei sb room t memory src off n s ≡ done (some n, s')
    → ((g : ℕ) → g ≤ n → n ≤ g + room' (dst + g))
    → Returns
        (λ r. (r.0 ≡ some n) × ((q : ℕ) → r.1 q ≡ blit memory' dst memory src n q))
        (readi sb room' memory' dst off n s')
readi-writei sb room room' memory memory' t src dst off n s s' low h w limit lo ln wrote fits =
    let x : IsWritei sb room memory low t src off n s (some n, s') =
      subst (Ends t _ (IsWritei sb room memory low t src off n s)) wrote
        (writei_lem sb room memory low t src off n s h lo ln) in
    let p = x.3 in
    let size : available s'.ino.size off n ≡ n = ground (arith, p.size, x.0, x.1) in
    let small : s'.ino.size ≤ 274432 = ground (arith, p.size, x.0, x.1) in
    let full : p.moved ≡ n = omega (arith, p.counted, p.within) in
    Returns-mono _ (readi sb room' memory' dst off n s')
      (readi_whole sb room' dst off n memory' s' p.file (p.whole w x.0 limit) small lo ln fits)
      (λ r (a, b). (
        a ∙ ap some size,
        λ q.
            b q
            ∙ ap (λ m. blit memory' dst (content s') off m q) size
            ∙ copy_back (content s) (content s') memory memory' src dst off n q (λ i lt.
              p.text (off + i) (omega (arith, x.1))
              ∙ ap (λ m. blit (content s) off memory src m (off + i)) full),
      ))
