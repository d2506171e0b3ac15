-- ===== src/Kernel/Fs/Inode/Writei.antt =====
-- writei as a whole.
use mit_61810_labs.Prelude.{
  ℕ, ◌+◌, ◌-◌, ◌*◌, ◌/◌, ◌%◌, ◌^◌, ◌≤◌, ◌<◌, ◌≡◌, ◌≢◌, ◌⊎◌, refl, sym, ap, ◌∙◌, subst, arith, inl,
  inr, ◌||◌, Option, none, some, ltb, if◌then◌else◌, Bool-cases, Returns, Outcome, done, panic,
  ◌>>=◌,
}
use mit_61810_labs.Kernel.Fs.{block_size, Superblock, Transaction, entries}
use mit_61810_labs.Kernel.Fs.Inode.{Held, blit, writei_loop, grow_size, writei, max_file}
use mit_61810_labs.Kernel.Fs.Inode.Slots.{slot, slot_of, content, IsFile, IsWhole}
use mit_61810_labs.Kernel.Fs.Inode.Calls.{
  touched, IfDone, writei_loop-calls, end_write_lem, calls-grow_size,
}
use mit_61810_labs.Kernel.Fs.Guards.{Ends}
use mit_61810_labs.Kernel.Fs.Inode.Bmap.{IsFull}
use mit_61810_labs.Kernel.Fs.Inode.Write.{IsPut, writei_loop_lem}
use mit_61810_labs.Kernel.Fs.Inode.Update.{
  updated-slot, updated-IsFull, updated-IsFile, content-updated,
}

module _ (sb : Superblock) (room memory : ℕ → ℕ) (low : (q : ℕ) → memory q < 256) where
  -- What a call of writei that is not refused does when it counts `got` bytes: the file holds the
  -- `moved` bytes of the caller from `off` on and is the same elsewhere, its size covers what was
  -- counted, and `got` falls short only on a full disk or where the caller's memory ends, which `moved`
  -- bytes reach.
  pub record IsWritten (src off n got : ℕ) (s s' : Held) : Type 0 where
    pub file : IsFile sb s'
    pub moved : ℕ
    pub counted : got ≤ moved
    pub within : moved ≤ n
    pub text :
        (p : ℕ) → p / block_size < 268 → content s' p ≡ blit (content s) off memory src moved p
    pub size : s'.ino.size ≡ (if ltb s.ino.size (off + got) then off + got else s.ino.size)
    pub whole : IsWhole s → off ≤ s.ino.size → s.ino.size ≤ max_file * block_size → IsWhole s'
    pub reason :
        ((got ≡ n) × (moved ≡ got))
        ⊎ ((IsFull sb s'.disk × (moved ≡ got)) ⊎ (moved ≡ got + room (src + got)))

  -- A call is refused when it would leave a hole or the file would be too large, and does nothing.
  abbrev pub IsWritei : Transaction → ℕ → ℕ → ℕ → Held → Option ℕ × Held → Type 0
  IsWritei t src off n s (none, s') =
      (s' ≡ s) × ((s.ino.size < off) ⊎ (max_file * block_size < off + n))
  IsWritei t src off n s (some got, s') =
      (off ≤ s.ino.size)
      × (off + n ≤ max_file * block_size)
      × ((t.outstanding ≢ 0) × (entries s'.disk.logged ≤ 30) × (entries s'.disk.logged < t.size))
      × IsWritten src off n got s s'

  grow_size_lem :
      (src off n got : ℕ) (s t : Held)
      → off + n ≤ max_file * block_size
      → IsPut sb room memory low src off n got s t
      → IsWritten src off n got s (grow_size sb off got t)
  unfolding grow_size
  grow_size_lem src off n got s t fits p =
      let size = if ltb t.ino.size (off + got) then off + got else t.ino.size in
      record {
        file = updated-IsFile sb t size p.writes.file;
        moved = p.moved;
        counted = p.counted;
        within = p.within;
        text = λ q lq. content-updated sb t size p.writes.file q lq ∙ p.writes.text q lq;
        size = ap (λ z. if ltb z (off + got) then off + got else z) p.writes.size;
        whole = λ w le cap q lq z.
            let z' : slot (slot_of (q / block_size)) t ≡ 0 =
              sym (updated-slot sb t size p.writes.file (slot_of (q / block_size))) ∙ z in
            elim (Bool-cases (ltb q s.ino.size)) [
              | inl old ↦
                  let ne = w q (ground arith) in
                  ne (sym (p.writes.stays (slot_of (q / block_size)) (ground arith) ne) ∙ z')
              | inr new ↦
                  p.writes.filled q (ground arith) (ground (arith, p.counted, p.writes.size))
                    (ground (arith, p.counted, p.within, p.writes.size)) z'
            ];
        reason = elim p.reason [
          | inl a ↦ inl a
          | inr (inl (full, e)) ↦ inr (inl (updated-IsFull sb t size p.writes.file full, e))
          | inr (inr e) ↦ inr (inr e)
        ];
      }

  loop_end :
      {A B : Type 0} {P Q : A → Type 0} (t : Transaction) (k : ℕ) (R : B → Type 0)
      (f : A → Outcome B) (m : Outcome A)
      → Returns P m
      → IfDone Q m
      → ((a : A) → P a → Q a → Ends t k R (f a))
      → Ends t k R (m >>= f)
  loop_end t k R f (done a) p q g = g a p q
  loop_end t k R f (panic x) p q g = absurd p

  -- For a file in order, a memory of bytes, and an offset and a count of 32 bits, writei ends as follows.
  -- It panics only in log_write: outside of a transaction, or where the blocks that are logged before the
  -- call and six for each block of the file that the write touches come to LOGSIZE or to
  -- `log.size - 1`, at least. It refuses a write behind the end of the file or above MAXFILE blocks, and
  -- nothing changes; else it is in a transaction, and the log then holds at most LOGSIZE blocks, and
  -- fewer than `log.size`; the file stays in order, its bytes are those of the caller in the range
  -- written and the old ones elsewhere, also with the part of a block that was copied when the
  -- caller's memory ended, its size is the larger of the old one and the end of what is counted, and
  -- the count is less than n only on a full disk or at the end of the caller's memory.
  pub writei_lem :
      (t : Transaction) (src off n : ℕ) (s : Held)
      → IsFile sb s
      → off < 2 ^ 32
      → n < 2 ^ 32
      → Ends t
          (entries s.disk.logged + 6 * touched off n)
          (IsWritei t src off n s)
          (writei sb room t memory src off n s)
  unfolding writei
  writei_lem t src off n s h lo ln =
      let whole_rest : touched off (n - 0) ≡ touched off n = ap (touched off) (omega arith) in
      let most = entries s.disk.logged + 6 * touched off n in
      elim (Bool-cases (ltb s.ino.size off || ltb ((off + n) % 2 ^ 32) off)) [
        | inl refused ↦ rw refused (refl, ground arith)
        | inr fine ↦ elim (Bool-cases (ltb 274432 ((off + n) % 2 ^ 32))) [
          | inl large ↦ rw (fine, large) (refl, inr (ground arith))
          | inr small ↦
              let le : off ≤ s.ino.size = ground arith in
              let fits : off + n ≤ 274432 = ground arith in
              rw (fine, small)
                (loop_end t most (IsWritei t src off n s) _
                  (writei_loop sb room n memory src off n 0 s)
                  (writei_loop_lem sb room memory low n src off n 0 s h (omega arith) (omega arith)
                    (omega arith))
                  (writei_loop-calls sb room n memory src off n 0 s)
                  (λ r (got, e, p) c.
                    end_write_lem sb t (IsWritei t src off n s) s.disk off r.0 most r.1
                      (omega (arith, c, whole_rest))
                      (λ has. (
                        le,
                        fits,
                        (
                          has.0,
                          omega (arith, has.1, calls-grow_size sb off r.0 r.1),
                          omega (arith, has.2, calls-grow_size sb off r.0 r.1),
                        ),
                        subst (λ g. IsWritten src off n g s (grow_size sb off g r.1))
                            (omega (arith, e))
                            (grow_size_lem src off n got s r.1 fits (
                              subst (λ rest. IsPut sb room memory low src off rest got s r.1)
                                (omega arith) p)),
                      ))))
        ]
      ]
