-- ===== src/Kernel/Vm.antt =====
-- kernel/vm.c: the three levels of a page table: walk and mappages.
mod Tests
pub mod Tree
pub mod Walk
pub mod Map
use mit_61810_labs.Prelude.{
  ℕ, zero, suc, ◌+◌, ◌-◌, ◌*◌, ◌/◌, ◌%◌, ◌^◌, Bool, true, false, not, ◌&&◌, ◌||◌, Option, none,
  some, List, [], ◌∷◌, ltb, leb, ◌==◌, if◌then◌else◌, update, Outcome, done, panic, ◌>>=◌,
}
use Prim.Native.Nat.{bit_or}

-- The entries of the pages that hold page tables, by the page's address and the index, and the free
-- list of kalloc.
pub record Tables : Type 0 where
  pub entry : ℕ → ℕ → ℕ
  pub unused : List ℕ

-- PX
abbrev pub px : ℕ → ℕ → ℕ
px level va = va / 2 ^ (12 + 9 * level) % 512

-- `*pte & PTE_V`
abbrev pub is_valid : ℕ → Bool
is_valid e = e % 2 == 1

-- PTE2PA and PA2PTE
abbrev pub pte_to_pa : ℕ → ℕ
pte_to_pa e = e / 1024 * 4096

abbrev pub pa_to_pte : ℕ → ℕ
pa_to_pte pa = pa / 4096 * 1024

-- `memset(pagetable, 0, PGSIZE); *pte = PA2PTE(pagetable) | PTE_V`, if there is a page.
pub new_table : ℕ → ℕ → List ℕ → Tables → Option ℕ × Tables
new_table t i [] m = (none, m)
new_table t i (p ∷ ps) m =
    let zeroed = update m.entry p (λ j. 0) in
    (
      some p,
      record { entry = update zeroed t (update (zeroed t) i (pa_to_pte p + 1)); unused = ps },
    )

-- A round of the loop in walk: from the table `t` to the table of the next level.
pub walk_step : Bool → ℕ → ℕ → ℕ → Tables → Option ℕ × Tables
unfolding new_table
walk_step alloc level va t m =
    let e = m.entry t (px level va) in
    if is_valid e
    then (some (pte_to_pa e), m)
    else (if alloc then new_table t (px level va) m.unused m else (none, m))

abbrev pub then_step : (ℕ → Tables → Option ℕ × Tables) → Option ℕ × Tables → Option ℕ × Tables
then_step f (none, m) = (none, m)
then_step f (some t, m) = f t m

-- The place of the entry, or none for a null pointer.
abbrev pub leaf_of : ℕ → Option ℕ × Tables → Option (ℕ × ℕ) × Tables
leaf_of va (none, m) = (none, m)
leaf_of va (some t, m) = (some (t, px 0 va), m)

pub walk : ℕ → ℕ → Bool → Tables → Outcome (Option (ℕ × ℕ) × Tables)
unfolding walk_step
walk root va alloc m =
    if leb (2 ^ 38) va
    then panic "walk"
    else done (leaf_of va (then_step (walk_step alloc 1 va) (walk_step alloc 2 va root m)))

pub set_pte : ℕ → ℕ → ℕ → Tables → Tables
set_pte t i v m = record { entry = update m.entry t (update (m.entry t) i v); unused = m.unused }

-- A round of the loop in mappages, with `next` for the rest of it.
pub map_at :
    ℕ → ℕ → (Tables → Outcome (Bool × Tables)) → Option (ℕ × ℕ) × Tables → Outcome (Bool × Tables)
unfolding set_pte
map_at pa perm next (none, m) = done (false, m)
map_at pa perm next (some (t, i), m) =
    if is_valid (m.entry t i)
    then panic "mappages: remap"
    else next (set_pte t i (bit_or (bit_or (pa_to_pte pa) perm) 1) m)

-- The loop of mappages with `k` pages left; the result is whether it returns 0.
pub map_pages : ℕ → ℕ → ℕ → ℕ → ℕ → Tables → Outcome (Bool × Tables)
unfolding walk map_at
map_pages zero root va pa perm m = done (true, m)
map_pages (suc k) root va pa perm m = walk root va true m >>= λ r.
    map_at pa perm (λ m'. map_pages k root (va + 4096) (pa + 4096) perm m') r

pub mappages : ℕ → ℕ → ℕ → ℕ → ℕ → Tables → Outcome (Bool × Tables)
unfolding map_pages
mappages root va size pa perm m =
    if not (va % 4096 == 0)
    then panic "mappages: va not aligned"
    else (if not (size % 4096 == 0)
        then panic "mappages: size not aligned"
        else (if size == 0
            then panic "mappages: size"
            else map_pages (size / 4096) root va pa perm m))
