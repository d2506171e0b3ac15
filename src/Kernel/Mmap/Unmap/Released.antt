-- ===== src/Kernel/Mmap/Unmap/Released.antt =====
-- Giving back the pages of a range, with or without a write to the file.
use mit_61810_labs.Prelude.{
  ℕ, zero, suc, ◌+◌, ◌-◌, ◌*◌, ◌/◌, ◌%◌, ◌^◌, ◌≤◌, ◌<◌, ◌≡◌, ◌≢◌, refl, ◌∙◌, arith, inl, inr, not,
  false, ◌&&◌, Option, none, some, ◌∷◌, ltb, ◌==◌, Bool-cases, update_self, update-ne, Outcome,
  done, panic, ◌>>=◌,
}
use mit_61810_labs.Kernel.Vma.{VmArea}
use mit_61810_labs.Kernel.Mmap.{page_size, u64, Pte, WriteCall, Space, bit}
use mit_61810_labs.Kernel.Mmap.Unmap.{
  Inodes, walkaddr, unmap_page, put_back_at, put_back_loop, put_back, write_page, write_back_at,
  write_back_loop, write_back, release_range, inode_of, page_rounds,
}
use mit_61810_labs.Kernel.Mmap.Unmap.Pages.{walkaddr-none, walkaddr-same}

-- The `k` pages from `va` on are not mapped any more, and nothing else of the memory, no area and no
-- file changes.
pub record Released (k va : ℕ) (s s' : Space) : Type 0 where
  pub areas : s'.areas ≡ s.areas
  pub table : s'.table ≡ s.table
  pub gone : (j : ℕ) → j < k → walkaddr s'.pages (va + j * page_size) ≡ none
  pub kept : (q : ℕ) → ((j : ℕ) → j < k → va + j * page_size ≢ q) → s'.pages q ≡ s.pages q

Released-none : (va : ℕ) (s : Space) → Released 0 va s s
Released-none va s = record {
  areas = refl;
  table = refl;
  gone = λ j h. absurd (omega arith);
  kept = λ q out. refl;
}

Released-one :
    (va : ℕ) (s s' : Space)
    → s'.areas ≡ s.areas
    → s'.table ≡ s.table
    → walkaddr s'.pages va ≡ none
    → ((q : ℕ) → va ≢ q → s'.pages q ≡ s.pages q)
    → Released 1 va s s'
Released-one va s s' a t g k = record {
  areas = a;
  table = t;
  gone = λ j h. let e : va + j * page_size ≡ va = omega (arith, h) in rw e g;
  kept = λ q out. k q (λ e. out 0 (omega arith) (omega (arith, e)));
}

Released-join :
    (k va : ℕ) (s t u : Space)
    → Released 1 va s t
    → Released k (va + page_size) t u
    → Released (suc k) va s u
Released-join k va s t u p r = record {
  areas = r.areas ∙ p.areas;
  table = r.table ∙ p.table;
  gone = gone;
  kept = λ q out.
      r.kept q (λ j h e. out (suc j) (omega arith) (omega (arith, e)))
      ∙ p.kept q (λ j h e. out j (omega arith) e);
}
  where
    gone : (j : ℕ) → j < suc k → walkaddr u.pages (va + j * page_size) ≡ none
    gone zero h =
        walkaddr-same _ _ _ (r.kept (va + 0 * page_size) (λ j h e. omega (arith, e)))
        ∙ p.gone 0 (omega arith)
    gone (suc j) h =
        let next : va + suc j * page_size ≡ va + page_size + j * page_size = omega arith in
        rw next (r.gone j (omega arith))

unmapped_one : (va : ℕ) (e : Pte) (s : Space) → Released 1 va s (unmap_page va e s)
unfolding unmap_page
unmapped_one va e s =
    Released-one va s (unmap_page va e s) refl refl
      (walkaddr-none _ va (update_self s.pages va none)) (λ q ne. update-ne s.pages va none q ne)

absent_one : (va : ℕ) (s : Space) → walkaddr s.pages va ≡ none → Released 1 va s s
absent_one va s e = Released-one va s s refl refl e (λ q ne. refl)

put_back_at-Released :
    (o : Option Pte) (va : ℕ) (s : Space)
    → walkaddr s.pages va ≡ o
    → Released 1 va s (put_back_at o va s)
unfolding put_back_at
put_back_at-Released none va s e = absent_one va s e
put_back_at-Released (some x) va s e = unmapped_one va x s

put_back_loop-Released : (k va : ℕ) (s : Space) → Released k va s (put_back_loop k va s)
unfolding put_back_loop
put_back_loop-Released zero va s = Released-none va s
put_back_loop-Released (suc k) va s =
    Released-join k va s (put_back_at (walkaddr s.pages va) va s) _
      (put_back_at-Released (walkaddr s.pages va) va s refl)
      (put_back_loop-Released k (va + page_size) _)

-- It returns with the property, or a call of writei wrote less than it was given.
abbrev pub OrFails : {A : Type 0} → Inodes → (A → Type 0) → Outcome A → Type 0
OrFails io P (done a) = P a
OrFails io P (panic m) = (c : WriteCall) × (io.writei c ≢ c.n)

pub OrFails-bind :
    {A B : Type 0} {P : A → Type 0} (io : Inodes) (Q : B → Type 0) (f : A → Outcome B)
    (m : Outcome A)
    → OrFails io P m
    → ((a : A) → P a → OrFails io Q (f a))
    → OrFails io Q (m >>= f)
OrFails-bind io Q f (done a) p k = k a p
OrFails-bind io Q f (panic m) p k = p

module _ (io : Inodes) (ip size : ℕ) where
  write_page-Released :
      (e : Pte) (va offset : ℕ) (s : Space)
      → OrFails io (Released 1 va s) (write_page io.writei ip size e va offset s)
  unfolding write_page
  write_page-Released e va offset s =
      let c : WriteCall = record {
        ip = ip;
        pa = e.pa;
        off = offset;
        n = (size - offset) % 2 ^ 32;
      } in
      elim (Bool-cases (e.d && ltb offset size)) [
        | inl dirty ↦ elim (Bool-cases (io.writei c == c.n)) [
          | inl wrote ↦ rw (dirty, wrote) (written c)
          | inr failed ↦ rw (dirty, failed) (c, λ q. ground arith)
        ]
        | inr clean ↦ rw clean (unmapped_one va e s)
      ]
    where
      written :
          (c : WriteCall) → Released 1 va s (unmap_page va e (record s { writes = c ∷ s.writes }))
      written c =
          let r = unmapped_one va e (record s { writes = c ∷ s.writes }) in
          record { areas = r.areas; table = r.table; gone = r.gone; kept = r.kept }

  write_back_at-Released :
      (o : Option Pte) (va offset : ℕ) (s : Space)
      → walkaddr s.pages va ≡ o
      → OrFails io
          (λ (r : ℕ × Space). Released 1 va s r.1)
          (write_back_at io.writei ip size o va offset s)
  unfolding write_back_at
  write_back_at-Released none va offset s e = absent_one va s e
  write_back_at-Released (some e) va offset s at =
      OrFails-bind io (λ (r : ℕ × Space). Released 1 va s r.1) _
        (write_page io.writei ip size e va offset s) (write_page-Released e va offset s) (λ t r. r)

  write_back_loop-Released :
      (k va offset : ℕ) (s : Space)
      → OrFails io (Released k va s) (write_back_loop io.writei ip size k va offset s)
  unfolding write_back_loop
  write_back_loop-Released zero va offset s = Released-none va s
  write_back_loop-Released (suc k) va offset s =
      OrFails-bind {A = ℕ × Space} {P = λ x. Released 1 va s x.1} io (Released (suc k) va s) _ _
        (write_back_at-Released (walkaddr s.pages va) va offset s refl)
        λ r p.
          then_joined r.1 p (write_back_loop io.writei ip size k (va + page_size) r.0 r.1)
            (write_back_loop-Released k (va + page_size) r.0 r.1)
    where
      then_joined :
          (t : Space)
          → Released 1 va s t
          → (m : Outcome Space) → OrFails io (Released k (va + page_size) t) m
          → OrFails io (Released (suc k) va s) m
      then_joined t p (done u) r = Released-join k va s t u p r
      then_joined t p (panic m) r = r

-- A range of whole pages that does not wrap is given back, to the file or not.
pub release_range_lem :
    (io : Inodes) (a : VmArea) (addr len : ℕ) (s : Space)
    → a.start_addr % page_size ≡ 0
    → addr % page_size ≡ 0
    → len % page_size ≡ 0
    → a.start_addr ≤ addr
    → addr + len < 2 ^ 64
    → OrFails io (Released (len / page_size) addr s) (release_range io a addr len s)
unfolding release_range write_back put_back
release_range_lem io a addr len s p q l h w =
    let aligned : (not (u64 (addr + 2 ^ 64 - a.start_addr) % page_size == 0)) ≡ false =
      ground arith in
    let rounds : page_rounds addr len ≡ len / page_size = omega (arith, l, w) in
    let ip = inode_of a.fptr s.table in
    elim (Bool-cases (bit 0 a.flags)) [
      | inl shared ↦
          rw (shared, aligned, rounds)
            (write_back_loop-Released io ip (io.size ip) (len / page_size) addr
              (u64 (addr + 2 ^ 64 - a.start_addr)) s)
      | inr private ↦ rw (private, rounds) (put_back_loop-Released (len / page_size) addr s)
    ]
