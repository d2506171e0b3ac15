-- ===== src/Kernel/Console/Edit.antt =====
-- consoleintr: what the keys cannot change.
use mit_61810_labs.Prelude.{
  ℕ, zero, suc, ◌+◌, ◌-◌, ◌%◌, ◌^◌, ◌≤◌, ◌<◌, ◌≡◌, ◌≢◌, ◌⊎◌, refl, sym, ap, ◌∙◌, arith, inl, inr,
  false, not, ◌&&◌, ◌||◌, ltb, ◌==◌, if◌then◌else◌, update, update-ne, Bool-cases,
}
use mit_61810_labs.Kernel.Console.{
  Cons, u32, input_buf_size, newline, control_d, erase, kill_loop, edited, unfinished, store,
  consoleintr,
}

-- The bytes of finished lines that wait for consoleread.
abbrev pub pending : Cons → ℕ
pending c = u32 (c.w + 2 ^ 32 - c.r)

pub record IsCons (c : Cons) : Type 0 where
  pub words : (c.r < 2 ^ 32) × (c.w < 2 ^ 32) × (c.e < 2 ^ 32)
  pub order : pending c ≤ edited c
  pub fits : edited c ≤ input_buf_size

-- The state is valid, and what waited for consoleread is there unchanged, with more behind it
-- perhaps.
pub record Keeps (c c' : Cons) : Type 0 where
  pub valid : IsCons c'
  pub read : c'.r ≡ c.r
  pub more : pending c ≤ pending c'
  pub same :
      (i : ℕ)
      → i < pending c
      → c'.buf (u32 (c.r + i) % input_buf_size) ≡ c.buf (u32 (c.r + i) % input_buf_size)

Keeps-all : (c : Cons) → IsCons c → Keeps c c
Keeps-all c v = record { valid = v; read = refl; more = omega arith; same = λ i l. refl }

erase-Keeps : (c : Cons) → IsCons c → (c.e == c.w) ≡ false → Keeps c (erase c)
unfolding erase
erase-Keeps c v more = record {
  valid = record {
    words = (v.words.0, v.words.1, omega arith);
    order = ground (arith, v.words, v.order);
    fits = ground (arith, v.words, v.order, v.fits);
  };
  read = refl;
  more = omega arith;
  same = λ i l. refl;
}

Keeps-trans : {a b c : Cons} → Keeps a b → Keeps b c → Keeps a c
Keeps-trans {a} {b} {c} p q = record {
  valid = q.valid;
  read = q.read ∙ p.read;
  more = omega (arith, p.more, q.more);
  same = λ i l.
      ap (λ r. c.buf (u32 (r + i) % input_buf_size)) (sym p.read)
      ∙ q.same i (omega (arith, p.more))
      ∙ ap (λ r. b.buf (u32 (r + i) % input_buf_size)) p.read
      ∙ p.same i l;
}

kill_loop-Keeps : (k : ℕ) (c : Cons) → IsCons c → Keeps c (kill_loop k c)
unfolding kill_loop
kill_loop-Keeps zero c v = Keeps-all c v
kill_loop-Keeps (suc k) c v =
    elim (Bool-cases
      (not (c.e == c.w) && not (c.buf (u32 (c.e + 2 ^ 32 - 1) % input_buf_size) == newline))) [
        | inl go ↦
            let step = erase-Keeps c v (ground arith) in
            rw go (Keeps-trans step (kill_loop-Keeps k (erase c) step.valid))
        | inr stop ↦ rw stop (Keeps-all c v)
      ]

store-Keeps : (ch : ℕ) (c : Cons) → IsCons c → edited c < input_buf_size → Keeps c (store ch c)
unfolding store
store-Keeps ch c v room =
    let beside : (i : ℕ) → i < pending c → c.e % input_buf_size ≢ u32 (c.r + i) % input_buf_size =
      λ i l q. omega (arith, v.words, v.order, l, q) in
    let kept : (i : ℕ)
        → i < pending c
        → update c.buf (c.e % input_buf_size) ch (u32 (c.r + i) % input_buf_size)
          ≡ c.buf (u32 (c.r + i) % input_buf_size) =
      λ i l. update-ne c.buf (c.e % input_buf_size) ch _ (beside i l) in
    elim (Bool-cases
      (ch == newline || ch == control_d || u32 (u32 (c.e + 1) + 2 ^ 32 - c.r) == input_buf_size)) [
        | inl finished ↦ rw finished record {
          valid = record {
            words = (v.words.0, omega arith, omega arith);
            order = omega arith;
            fits = omega (arith, v.words, v.order);
          };
          read = refl;
          more = omega (arith, v.words, v.order);
          same = kept;
        }
        | inr open_ ↦ rw open_ record {
          valid = record {
            words = (v.words.0, v.words.1, omega arith);
            order = omega (arith, v.words, v.order);
            fits = omega (arith, v.words, v.order);
          };
          read = refl;
          more = omega arith;
          same = kept;
        }
      ]

-- No key, erase and kill among them, changes a byte of a finished line, or the place of the reader;
-- the indices stay in order and within the buffer.
pub consoleintr-Keeps : (ch : ℕ) (c : Cons) → IsCons c → Keeps c (consoleintr ch c)
unfolding consoleintr
consoleintr-Keeps ch c v = elim (Bool-cases (ch == 16)) [
  | inl dump ↦ rw dump (Keeps-all c v)
  | inr a ↦ elim (Bool-cases (ch == 21)) [
    | inl kill ↦ rw (a, kill) (kill_loop-Keeps (unfinished c) c v)
    | inr b ↦ elim (Bool-cases (ch == 8 || ch == 127)) [
      | inl back ↦ elim (Bool-cases (c.e == c.w)) [
        | inl start ↦ rw (a, b, back, start) (Keeps-all c v)
        | inr inside ↦ rw (a, b, back, inside) (erase-Keeps c v inside)
      ]
      | inr d ↦ elim (Bool-cases (not (ch == 0) && ltb (edited c) input_buf_size)) [
        | inl room ↦
            rw (a, b, d, room) (store-Keeps (if ch == 13 then newline else ch) c v (ground arith))
        | inr full ↦ rw (a, b, d, full) (Keeps-all c v)
      ]
    ]
  ]
]

-- The kill key erases back to the end of the last finished line, or to a newline in the buffer: the
-- rounds that its loop is given are enough.
pub kill_loop_ends :
    (k : ℕ) (c : Cons)
    → IsCons c
    → unfinished c ≤ k
    → ((kill_loop k c).e ≡ (kill_loop k c).w)
      ⊎ ((kill_loop k c).buf (u32 ((kill_loop k c).e + 2 ^ 32 - 1) % input_buf_size) ≡ newline)
unfolding kill_loop erase
kill_loop_ends zero c v h = inl (omega (arith, v.words))
kill_loop_ends (suc k) c v h =
    elim (Bool-cases
      (not (c.e == c.w) && not (c.buf (u32 (c.e + 2 ^ 32 - 1) % input_buf_size) == newline))) [
        | inl go ↦ rw go (
            kill_loop_ends k (erase c) (erase-Keeps c v (ground arith)).valid
              (shorter (ground arith)))
        | inr stop ↦ rw stop (ground arith)
      ]
  where
    shorter : (c.e == c.w) ≡ false → unfinished (erase c) ≤ k
    shorter ne = ground (arith, v.words, h)
