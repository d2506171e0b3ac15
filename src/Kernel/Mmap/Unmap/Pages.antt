-- ===== src/Kernel/Mmap/Unmap/Pages.antt =====
-- put_back and write_back: which pages they unmap, and where dirty pages go in the file.
use mit_61810_labs.Prelude.{
  ℕ, zero, suc, ◌+◌, ◌-◌, ◌*◌, ◌%◌, ◌^◌, ◌<◌, ◌≡◌, ◌≢◌, refl, ◌∙◌, arith, inl, inr, true, false,
  not, Option, none, some, ◌∷◌, ltb, leb, ◌==◌, update_self, update-ne, Bool-cases, ==_refl, done,
}
use mit_61810_labs.Kernel.Mmap.{page_size, max_va, Pte, WriteCall, Space}
use mit_61810_labs.Kernel.Mmap.Unmap.{
  walkaddr, unmap_page, put_back_at, put_back_loop, put_back, page_rounds, write_page,
  write_back_loop, write_back, write_back_at,
}

pub walkaddr-none : (pages : ℕ → Option Pte) (va : ℕ) → pages va ≡ none → walkaddr pages va ≡ none
unfolding walkaddr
walkaddr-none pages va e = elim (Bool-cases (leb max_va va)) [
  | inl high ↦ rw high refl
  | inr low ↦ rw (low, e) refl
]

-- The loops unmap the page at `va`, and leave the others.
put_back_at-page :
    (o : Option Pte) (va : ℕ) (s : Space)
    → walkaddr s.pages va ≡ o
    → walkaddr (put_back_at o va s).pages va ≡ none
unfolding put_back_at unmap_page
put_back_at-page none va s e = e
put_back_at-page (some x) va s e = walkaddr-none _ va (update_self s.pages va none)

put_back_at-other :
    (o : Option Pte) (va q : ℕ) (s : Space) → va ≢ q → (put_back_at o va s).pages q ≡ s.pages q
unfolding put_back_at unmap_page
put_back_at-other none va q s ne = refl
put_back_at-other (some x) va q s ne = update-ne s.pages va none q ne

put_back_loop-other :
    (k va q : ℕ) (s : Space)
    → ((j : ℕ) → j < k → va + j * page_size ≢ q)
    → (put_back_loop k va s).pages q ≡ s.pages q
unfolding put_back_loop
put_back_loop-other zero va q s out = refl
put_back_loop-other (suc k) va q s out =
    put_back_loop-other k (va + page_size) q _
      (λ j h e. out (suc j) (omega arith) (omega (arith, e)))
    ∙ put_back_at-other (walkaddr s.pages va) va q s (λ e. out 0 (omega arith) (omega (arith, e)))

pub walkaddr-same : (f g : ℕ → Option Pte) (q : ℕ) → f q ≡ g q → walkaddr f q ≡ walkaddr g q
unfolding walkaddr
walkaddr-same f g q e = elim (Bool-cases (leb max_va q)) [
  | inl high ↦ rw high refl
  | inr low ↦ rw (low, e) refl
]

put_back_loop-page :
    (k va j : ℕ) (s : Space)
    → j < k
    → walkaddr (put_back_loop k va s).pages (va + j * page_size) ≡ none
unfolding put_back_loop
put_back_loop-page zero va j s h = absurd (omega arith)
put_back_loop-page (suc k) va zero s h =
    let first : va + 0 * page_size ≡ va = omega arith in
    rw first (
      walkaddr-same _ _ va (put_back_loop-other k (va + page_size) va _ (λ j h e. omega (arith, e)))
      ∙ put_back_at-page (walkaddr s.pages va) va s refl)
put_back_loop-page (suc k) va (suc j) s h =
    let next : va + suc j * page_size ≡ va + page_size + j * page_size = omega arith in
    rw next (put_back_loop-page k (va + page_size) j _ (omega arith))

-- Where the range does not wrap, put_back leaves no user page of it mapped, and changes the mapping
-- of no page outside.
pub put_back_lem :
    (addr n : ℕ) (s : Space)
    → addr + n * page_size < 2 ^ 64
    → ((j : ℕ)
        → j < n
        → walkaddr (put_back addr (n * page_size) s).pages (addr + j * page_size) ≡ none)
      × ((q : ℕ)
          → ((j : ℕ) → j < n → addr + j * page_size ≢ q)
          → (put_back addr (n * page_size) s).pages q ≡ s.pages q)
unfolding put_back
put_back_lem addr n s h =
    let rounds : page_rounds addr (n * page_size) ≡ n = omega arith in
    rw rounds (λ j l. put_back_loop-page n addr j s l, λ q out. put_back_loop-other n addr q s out)

-- write_back of two pages, of which the first is not loaded and the second is dirty: the second page
-- is written at the file offset of the FIRST, and to the length that the file has behind that.
pub write_back_misplaced :
    (writei : WriteCall → ℕ) (ip size addr offset : ℕ) (s : Space) (e : Pte)
    → addr + 2 * page_size < max_va
    → offset % page_size ≡ 0
    → offset < size
    → walkaddr s.pages addr ≡ none
    → walkaddr s.pages (addr + page_size) ≡ some e
    → e.d ≡ true
    → ((c : WriteCall) → writei c ≡ c.n)
    → write_back writei ip size addr (2 * page_size) offset s
      ≡ done (
          unmap_page (addr + page_size) e (record s {
            writes =
                record { ip = ip; pa = e.pa; off = offset; n = (size - offset) % 2 ^ 32 }
                ∷ s.writes;
          }))
unfolding write_back write_page write_back_loop write_back_at
write_back_misplaced writei ip size addr offset s e low al inside p1 p2 dirty all =
    let two : page_rounds addr (2 * page_size) ≡ 2 = omega arith in
    let in_file : ltb offset size ≡ true = ground arith in
    let aligned : (not (offset % page_size == 0)) ≡ false = ground arith in
    rw (aligned, two, p1, p2)
      (rw (dirty, in_file, all) (rw (==_refl ((size - offset) % 2 ^ 32)) refl))
