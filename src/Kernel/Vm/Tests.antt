-- ===== src/Kernel/Vm/Tests.antt =====
-- An instance of the theorem on mappages, for an empty page table.
use mit_61810_labs.Prelude.{
  ℕ, zero, suc, ◌+◌, ◌==◌, ◌≡◌, ◌/◌, ◌*◌, refl, arith, Option, none, some, [], ◌∷◌, if◌then◌else◌,
  get_elem?,
}
use mit_61810_labs.Kernel.Vm.{Tables, mappages}
use mit_61810_labs.Kernel.Vm.Tree.{IsTree}
use mit_61810_labs.Kernel.Vm.Map.{IsMap, mappages_lem}

abbrev root_page : ℕ
root_page = 4096

abbrev empty_tables : Tables
empty_tables = record { entry = λ t i. 0; unused = 8192 ∷ 12288 ∷ [] }

abbrev root_label : ℕ → Option (ℕ × ℕ)
root_label t = if t == 4096 then some (2, 0) else none

unused_pages : (n p : ℕ) → get_elem? empty_tables.unused n ≡ some p → p ≡ 8192 + n * 4096
unused_pages zero p e = ground arith
unused_pages (suc zero) p e = ground arith
unused_pages (suc (suc n)) p e = absurd (ground arith)

empty_tables-IsTree : IsTree root_page root_label empty_tables
empty_tables-IsTree = record {
  top = refl;
  down = λ t l x i e lt v. absurd (ground arith);
  unused = λ n p e. let q = unused_pages n p e in ground (arith, q);
  distinct = λ n n' p e e'. omega (arith, unused_pages n p e, unused_pages n' p e');
  aligned = λ n p e. omega (arith, unused_pages n p e);
}

mappages_lem_example :
    IsMap 4096 22 (8192 / 4096) 0 36864 empty_tables (mappages 4096 0 8192 36864 22 empty_tables)
mappages_lem_example =
    mappages_lem 4096 22 0 8192 36864 root_label empty_tables empty_tables-IsTree (omega arith)
      (omega arith) (λ z. omega arith) (omega arith)
