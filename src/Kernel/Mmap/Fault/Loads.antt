-- ===== src/Kernel/Mmap/Fault/Loads.antt =====
-- What mmap_load_instr maps, and when it does not return.
use mit_61810_labs.Prelude.{
  ℕ, ◌+◌, ◌-◌, ◌≤◌, ◌<◌, ◌≡◌, ◌≢◌, refl, sym, ◌∙◌, arith, inl, inr, ◌⊎◌, true, false, not, ◌&&◌,
  ◌||◌, Option, none, some, List, [], ◌∷◌, ltb, leb, ◌==◌, update, update_self, update-ne,
  Bool-cases, Returns,
}
use mit_61810_labs.Kernel.Vma.{VmArea}
use mit_61810_labs.Kernel.Mmap.{max_va, bit, page_round_down, Pte, Space}
use mit_61810_labs.Kernel.Mmap.Unmap.{inode_of}
use mit_61810_labs.Kernel.Mmap.Fault.{
  ReadCall, Handled, refused, exited, loaded, Exception, find_area, area_pte, read_page, map_page,
  load_page, fault_in, mmap_load_instr,
}
use mit_61810_labs.Kernel.Mmap.Fault.Found.{Holds, NoArea, AreaFound, find_area_lem}

-- The call of readi for the page: the inode of the area, at the page's place in the mapping, into the
-- page `pa`. There is none where the page lies behind the end of the file.
abbrev pub IsCall : Exception → Space → VmArea → ℕ → ReadCall → Type 0
IsCall x s a pa c =
    (a.start_addr + c.off ≡ page_round_down x.va)
    × (c.pa ≡ pa)
    × (c.ip ≡ inode_of a.fptr s.table)
    × (c.off < x.size c.ip)

abbrev pub IsReadFrom : Exception → Space → VmArea → ℕ → Option ReadCall → Type 0
IsReadFrom x s a pa (some c) = IsCall x s a pa c × (x.readi c ≢ 0)
IsReadFrom x s a pa none = a.start_addr + x.size (inode_of a.fptr s.table) ≤ page_round_down x.va

-- Why mmap_load_instr returns -1.
pub data Refusal (x : Exception) (s : Space) : Type 0 where
  other_cause : x.scause ≢ 13 → x.scause ≢ 15 → Refusal x s
  no_area : NoArea s.areas (page_round_down x.va) → Refusal x s
  no_page : s.free ≡ [] → Refusal x s
  no_table : x.tables ≡ false → Refusal x s
  no_read :
      (a : VmArea) (c : ReadCall) (pa : ℕ)
      → Holds s.areas (page_round_down x.va) a
      → IsCall x s a pa c
      → x.readi c ≡ 0
      → Refusal x s

-- Why it ends the process.
pub record Violation (x : Exception) (s : Space) : Type 0 where
  pub area : VmArea
  pub holds : Holds s.areas (page_round_down x.va) area
  pub reason :
      (x.va < area.valid_start)
      ⊎ (area.valid_end ≤ x.va)
      ⊎ ((x.scause ≡ 15) × (bit 1 area.prot ≡ false))

-- Where the fault is handled, an area in use holds the address in its valid range, a store needs
-- PROT_WRITE, the page gets the area's permissions and a page from the free list, the file is read
-- at the page's place in the mapping, and no other page changes. Else no page changes.
pub record Loaded (x : Exception) (s : Space) (o : Option ReadCall) (s' : Space) : Type 0 where
  pub area : VmArea
  pub holds : Holds s.areas (page_round_down x.va) area
  pub valid : (area.valid_start ≤ x.va) × (x.va < area.valid_end)
  pub write : x.scause ≡ 15 → bit 1 area.prot ≡ true
  pub pa : ℕ
  pub taken : s.free ≡ pa ∷ s'.free
  pub mapped : s'.pages (page_round_down x.va) ≡ some (area_pte area pa)
  pub others : (q : ℕ) → page_round_down x.va ≢ q → s'.pages q ≡ s.pages q
  pub read : IsReadFrom x s area pa o

abbrev pub Faulted : Exception → Space → Handled × Space → Type 0
Faulted x s (refused, s') = Refusal x s × ((q : ℕ) → s'.pages q ≡ s.pages q)
Faulted x s (exited, s') = Violation x s × (s' ≡ s)
Faulted x s (loaded o, s') = Loaded x s o s'

module _ (x : Exception) (s : Space) (unmapped : s.pages (page_round_down x.va) ≡ none) where
  abbrev pgaddr : ℕ
  pgaddr = page_round_down x.va

  module _ (a : VmArea) (h : Holds s.areas pgaddr a)
      (valid : (a.valid_start ≤ x.va) × (x.va < a.valid_end))
      (write : x.scause ≡ 15 → bit 1 a.prot ≡ true) where
    restored :
        (pa q : ℕ) → update (update s.pages pgaddr (some (area_pte a pa))) pgaddr none q ≡ s.pages q
    restored pa q = elim (Bool-cases (pgaddr == q)) [
      | inl same ↦
          let e : pgaddr ≡ q = ground arith in
          rw (← e)
            (update_self (update s.pages pgaddr (some (area_pte a pa))) pgaddr none ∙ sym unmapped)
      | inr other ↦
          let ne : pgaddr ≢ q = ground arith in
          update-ne (update s.pages pgaddr (some (area_pte a pa))) pgaddr none q ne
          ∙ update-ne s.pages pgaddr (some (area_pte a pa)) q ne
    ]

    loaded_lem :
        (pa : ℕ) (free : List ℕ) (o : Option ReadCall)
        → s.free ≡ pa ∷ free
        → IsReadFrom x s a pa o
        → Loaded x s o
            (record s { free = free; pages = update s.pages pgaddr (some (area_pte a pa)) })
    loaded_lem pa free o e r = record {
      area = a;
      holds = h;
      valid = valid;
      write = write;
      pa = pa;
      taken = e;
      mapped = update_self s.pages pgaddr (some (area_pte a pa));
      others = λ q ne. update-ne s.pages pgaddr (some (area_pte a pa)) q ne;
      read = r;
    }

    read_page-Faulted :
        (pa : ℕ) (free : List ℕ)
        → s.free ≡ pa ∷ free
        → Returns (Faulted x s) (
            read_page x a pgaddr pa
              (record s { free = free; pages = update s.pages pgaddr (some (area_pte a pa)) }))
    unfolding read_page
    read_page-Faulted pa free e =
        let ip = inode_of a.fptr s.table in
        let c : ReadCall = record { ip = ip; pa = pa; off = pgaddr - a.start_addr } in
        elim (Bool-cases (ltb (pgaddr - a.start_addr) (x.size ip))) [
          | inl inside ↦ elim (Bool-cases (x.readi c == 0)) [
            | inl failed ↦
                rw (inside, failed)
                  (
                    no_read a c pa h (omega (arith, h.lower), refl, refl, ground arith)
                        (ground arith),
                    restored pa,
                  )
            | inr read ↦
                rw (inside, read)
                  (loaded_lem pa free (some c) e
                    ((omega (arith, h.lower), refl, refl, ground arith), ground arith))
          ]
          | inr outside ↦ rw outside (loaded_lem pa free none e (ground (arith, h.lower)))
        ]

    map_page-Faulted :
        (o : Option Pte) (pa : ℕ) (free : List ℕ)
        → o ≡ none
        → s.free ≡ pa ∷ free
        → Returns (Faulted x s) (map_page o x a pgaddr pa (record s { free = free }))
    unfolding map_page
    map_page-Faulted (some e) pa free n f = ground arith
    map_page-Faulted none pa free n f = elim (Bool-cases (not x.tables)) [
      | inl full ↦ rw full (no_table (ground arith), λ q. refl)
      | inr room ↦ rw room (read_page-Faulted pa free f)
    ]

    load_page-Faulted :
        (free : List ℕ)
        → pgaddr < max_va
        → s.free ≡ free
        → Returns (Faulted x s) (load_page free x a s)
    unfolding load_page
    load_page-Faulted [] low e = (no_page e, λ q. refl)
    load_page-Faulted (pa ∷ free) low e =
        let user : leb max_va pgaddr ≡ false = ground arith in
        rw user (map_page-Faulted (s.pages pgaddr) pa free unmapped e)

  out_of_range :
      (a : VmArea)
      → (ltb x.va a.valid_start || leb a.valid_end x.va) ≡ true
      → (x.va < a.valid_start) ⊎ (a.valid_end ≤ x.va) ⊎ ((x.scause ≡ 15) × (bit 1 a.prot ≡ false))
  out_of_range a e = elim (Bool-cases (ltb x.va a.valid_start)) [
    | inl low ↦ inl (ground arith)
    | inr high ↦ inr (inl (ground arith))
  ]

  fault_in-Faulted :
      (o : Option VmArea)
      → AreaFound s.areas pgaddr o
      → pgaddr < max_va
      → Returns (Faulted x s) (fault_in o x s)
  unfolding fault_in
  fault_in-Faulted none h low = (no_area h, λ q. refl)
  fault_in-Faulted (some a) h low =
      elim (Bool-cases (ltb x.va a.valid_start || leb a.valid_end x.va)) [
        | inl invalid ↦
            rw invalid (record { area = a; holds = h; reason = out_of_range a invalid }, refl)
        | inr valid ↦ elim (Bool-cases (not (bit 1 a.prot) && (x.scause == 15))) [
          | inl protected ↦
              rw (valid, protected)
                (
                  record { area = a; holds = h; reason = inr (inr (ground arith, ground arith)) },
                  refl,
                )
          | inr allowed ↦
              rw (valid, allowed)
                (load_page-Faulted a h (ground arith, ground arith) (λ e. ground arith) s.free low
                  refl)
        ]
      ]

-- On a user address whose page is not mapped mmap_load_instr does not panic. Where it handles the fault, an
-- area in use holds the page and has the address in its valid range, a store needs PROT_WRITE, the page
-- gets the area's permissions and the first page of the free list, no other page changes, and the
-- area's inode is read into the new page at the page's place in the mapping, unless that lies behind the
-- file's end. It ends the process, and changes nothing, only if the area that holds the page does not have
-- the address in its valid range, or for a store without PROT_WRITE. It returns -1 only if the
-- exception is no load or store fault, no area in use holds the page, no page is free, for the data or
-- for the page table, or that readi returns 0; no page changes then.
pub mmap_load_instr-Faulted :
    (x : Exception) (s : Space)
    → s.pages (page_round_down x.va) ≡ none
    → page_round_down x.va < max_va
    → Returns (Faulted x s) (mmap_load_instr x s)
unfolding mmap_load_instr
mmap_load_instr-Faulted x s unmapped low =
    elim (Bool-cases (not (x.scause == 13) && not (x.scause == 15))) [
      | inl other ↦ rw other (other_cause (λ e. ground arith) (λ e. ground arith), λ q. refl)
      | inr page ↦ rw page (
          fault_in-Faulted x s unmapped (find_area (page_round_down x.va) s.areas)
            (find_area_lem s.areas (page_round_down x.va)) low)
    ]
