-- ===== src/Kernel/Mmap/Map.antt =====
-- sys_mmap: where the mapping lies, and what every failure leaves.
use mit_61810_labs.Prelude.{
  ℕ, ◌+◌, ◌%◌, ◌^◌, ◌≤◌, ◌<◌, ◌≡◌, ◌≢◌, ◌⊎◌, refl, sym, ap, ◌∙◌, arith, inl, inr, true, false, not,
  ◌&&◌, ◌||◌, Option, none, some, List, ◌∷◌, ltb, leb, ◌==◌, if◌then◌else◌, get_elem?, set,
  Bool-cases, subst, Returns, Returns-bind, Returns-map,
}
use mit_61810_labs.Kernel.Vma.{VmArea}
use mit_61810_labs.Kernel.File.{
  File, FileType, fd_none, fd_pipe, fd_inode, fd_device, Release, argfd, filedup, fileclose,
}
use mit_61810_labs.Kernel.File.Counts.{ref_of, filedup_lem, fileclose_lem, SameOthers}
use mit_61810_labs.Kernel.Mmap.{
  Space, Request, u64, page_size, page_round_up, new_area, with_file, place, map_in, map_entry,
  map_file, sys_mmap, free_slot, is_inode, bit,
}
use mit_61810_labs.Kernel.Mmap.Layout.{
  IsLaidOut, IsLaidOut-mono, IsLaidOut-new, IsLaidOut-keep, FreeSlot, free_slot-FreeSlot,
}

-- What sys_mmap relies on. The counter `next_start` stays above the size of the process as long as
-- no sbrk moves that past it.
pub record CanMap (s : Space) : Type 0 where
  pub layout : IsLaidOut s.areas s.next_start
  pub small : s.next_start < 2 ^ 64
  pub aligned : s.next_start % page_size ≡ 0
  pub size : s.sz ≤ 2 ^ 38
  pub ahead : (s.next_start ≡ 0) ⊎ (s.sz ≤ s.next_start)
  pub files : (fd f : ℕ) → argfd fd s.ofile ≡ some f → 0 < ref_of (get_elem? s.table f)

-- What sys_mmap demands of its length and of the descriptor's file `f`.
pub record IsAllowed (q : Request) (fd : ℕ) (s : Space) (f : ℕ) : Type 0 where
  pub positive : q.len ≢ 0
  pub whole : q.len % 4096 ≡ 0
  pub descriptor : argfd fd s.ofile ≡ some f
  pub file : File
  pub entry : get_elem? s.table f ≡ some file
  pub inode : file.type_ ≡ fd_inode
  pub shared : bit 1 q.prot ≡ true → bit 0 q.flags ≡ true → file.writable ≡ true

-- A success: the mapping is page-aligned, behind the process and all other mappings, in a slot that
-- was free, and its file, that of the descriptor, has one more reference. A failure: the layout
-- stands, and each file has the references that it had.
abbrev pub Mapped : Request → ℕ → Space → Option ℕ × Space → Type 0
Mapped q fd s (none, s') =
    IsLaidOut s'.areas s'.next_start
    × ((f : ℕ) → ref_of (get_elem? s'.table f) ≡ ref_of (get_elem? s.table f))
Mapped q fd s (some start, s') =
    IsLaidOut s'.areas s'.next_start
    × (start % page_size ≡ 0)
    × (s.sz ≤ start)
    × (s.next_start ≤ start)
    × (start + q.len ≡ s'.next_start)
    × ((f : ℕ) × (i : ℕ) × IsAllowed q fd s f
        × (s'.areas
            ≡ set s.areas i (record {
              start_addr = start;
              length_ = q.len;
              prot = q.prot;
              flags = q.flags;
              fptr = some f;
              valid_start = start;
              valid_end = start + q.len;
            }))
        × FreeSlot s.areas (some i)
        × (ref_of (get_elem? s'.table f) ≡ ref_of (get_elem? s.table f) + 1)
        × SameOthers s.table f s'.table)

is_inode_lem : (t : FileType) → is_inode t ≡ true → t ≡ fd_inode
unfolding is_inode
is_inode_lem fd_none e = ground arith
is_inode_lem fd_pipe e = ground arith
is_inode_lem fd_inode e = refl
is_inode_lem fd_device e = ground arith

module _ (q : Request) (fd : ℕ) (s : Space) (v : CanMap s) (len : q.len ≢ 0)
    (whole : q.len % 4096 ≡ 0) (word : q.len < 2 ^ 64) where
  abbrev start : ℕ
  start = if s.next_start == 0 then page_round_up s.sz else s.next_start

  start_facts : (s.sz ≤ start) × (s.next_start ≤ start) × (start % page_size ≡ 0) × (start < 2 ^ 64)
  start_facts = ground (arith, v.small, v.aligned, v.size, v.ahead)

  with_file-IsLaidOut :
      (areas : List VmArea) (i n : ℕ) (f : Option ℕ)
      → IsLaidOut areas n
      → (a : VmArea) × (get_elem? areas i ≡ some a) × (a.length_ ≡ 0)
      → IsLaidOut (with_file i f areas) n
  with_file-IsLaidOut areas i n f l (a, e, z) =
      rw (with_file, e) (IsLaidOut-keep areas n i (record a { fptr = f }) a e (inr (refl, refl)) l)

  -- A reference taken and given back.
  restored :
      (f : ℕ) (t0 t1 t2 : List File)
      → (ref_of (get_elem? t1 f) ≡ ref_of (get_elem? t0 f) + 1) × SameOthers t0 f t1
      → (ref_of (get_elem? t2 f) + 1 ≡ ref_of (get_elem? t1 f)) × SameOthers t1 f t2
      → (g : ℕ) → ref_of (get_elem? t2 g) ≡ ref_of (get_elem? t0 g)
  restored f t0 t1 t2 u w g = elim (Bool-cases (f == g)) [
    | inl same ↦ let e : f ≡ g = ground arith in rw (← e) (omega (arith, u.0, w.0))
    | inr other ↦ let ne : f ≢ g = ground arith in ap ref_of (w.1 g ne ∙ u.1 g ne)
  ]

  module _ (f i : ℕ) (allowed : IsAllowed q fd s f) (slot : FreeSlot s.areas (some i)) where
    placed :
        (t : List File)
        → (ref_of (get_elem? t f) ≡ ref_of (get_elem? s.table f) + 1) × SameOthers s.table f t
        → leb (u64 (start + q.len)) start ≡ false
        → Mapped q fd s (
          some start,
          record s {
            next_start = u64 (start + q.len);
            areas = set s.areas i (new_area q f start);
            table = t;
          },
        )
    placed t u room =
        let facts = start_facts in
        let area : ℕ → VmArea = λ n. record {
          start_addr = start;
          length_ = q.len;
          prot = q.prot;
          flags = q.flags;
          fptr = some f;
          valid_start = start;
          valid_end = n;
        } in
        let fits : u64 (start + q.len) ≡ start + q.len = ground (arith, facts) in
        (
          subst (IsLaidOut (set s.areas i (new_area q f start))) (sym fits)
              (IsLaidOut-new s.areas s.next_start i (new_area q f start) facts.1 v.layout),
          facts.2,
          facts.0,
          facts.1,
          sym fits,
          (f, i, allowed, ap (λ n. set s.areas i (area n)) fits, slot, u.0, u.1),
        )

    overflowed :
        (t t' : List File) (r : Release)
        → (ref_of (get_elem? t f) ≡ ref_of (get_elem? s.table f) + 1) × SameOthers s.table f t
        → (ref_of (get_elem? t' f) + 1 ≡ ref_of (get_elem? t f)) × SameOthers t f t'
        → Mapped q fd s (
          none,
          record s {
            next_start = start;
            areas = with_file i none s.areas;
            table = t';
            released = r ∷ s.released;
          },
        )
    overflowed t t' r u w = (
      with_file-IsLaidOut s.areas i start none
          (IsLaidOut-mono s.areas s.next_start start start_facts.1 v.layout) slot,
      restored f s.table t t' u w,
    )

    place-Mapped : 0 < ref_of (get_elem? s.table f) → Returns (Mapped q fd s) (place q f i s)
    unfolding place
    place-Mapped pos =
        Returns-bind (Mapped q fd s) _ (filedup f s.table) (filedup_lem f s.table pos) λ t u.
          let behind : ltb start s.sz ≡ false = ground (arith, start_facts) in
          elim (Bool-cases (leb (u64 (start + q.len)) start)) [
            | inl over ↦
                rw (behind, over)
                  (Returns-map (Mapped q fd s) _ (fileclose f t)
                    (fileclose_lem f t (omega (arith, u.0)))
                    (λ r w. overflowed t r.1 r.0 u (w.0, w.1)))
            | inr room ↦ rw (behind, room) (placed t u room)
          ]

  unchanged : Mapped q fd s (none, s)
  unchanged = (v.layout, λ f. refl)

  map_in-Mapped :
      (o : Option ℕ) (f : ℕ)
      → IsAllowed q fd s f
      → FreeSlot s.areas o
      → 0 < ref_of (get_elem? s.table f)
      → Returns (Mapped q fd s) (map_in o q f s)
  unfolding map_in
  map_in-Mapped none f al slot pos = unchanged
  map_in-Mapped (some i) f al slot pos = place-Mapped f i al slot pos

  map_entry-Mapped :
      (o : Option File) (f : ℕ)
      → argfd fd s.ofile ≡ some f
      → get_elem? s.table f ≡ o
      → 0 < ref_of (get_elem? s.table f)
      → Returns (Mapped q fd s) (map_entry o q f s)
  unfolding map_entry
  map_entry-Mapped none f at e pos = unchanged
  map_entry-Mapped (some x) f at e pos = elim (Bool-cases (not (is_inode x.type_))) [
    | inl other ↦ rw other unchanged
    | inr inode ↦ elim (Bool-cases (bit 1 q.prot && bit 0 q.flags && not x.writable)) [
      | inl refused ↦ rw (inode, refused) unchanged
      | inr allowed ↦
          rw (inode, allowed)
            (map_in-Mapped (free_slot s.areas) f
              (record {
                positive = len;
                whole = whole;
                descriptor = at;
                file = x;
                entry = e;
                inode = is_inode_lem x.type_ (ground arith);
                shared = λ w m. ground arith;
              })
              (free_slot-FreeSlot s.areas) pos)
    ]
  ]

  map_file-Mapped :
      (o : Option ℕ)
      → argfd fd s.ofile ≡ o
      → ((f : ℕ) → o ≡ some f → 0 < ref_of (get_elem? s.table f))
      → Returns (Mapped q fd s) (map_file o q s)
  unfolding map_file
  map_file-Mapped none at pos = unchanged
  map_file-Mapped (some f) at pos = map_entry-Mapped (get_elem? s.table f) f at refl (pos f refl)

-- sys_mmap does not panic in a process whose areas lie in order below `next_start`, whose size is not
-- above `next_start` if that is set, and whose open descriptors have open files. When it succeeds, the
-- length is a positive number of pages, the descriptor's file is an inode, which is writable if the
-- mapping is shared and PROT_WRITE; the mapping has the length, protection and flags of the request,
-- all of it is valid, it starts at a page boundary, behind the process and all other mappings, and fills
-- a slot that was free; and the descriptor's file, and no other, has a reference more. When it fails, the
-- areas still lie in order, and each file has the references that it had.
pub sys_mmap-Mapped :
    (q : Request) (fd : ℕ) (s : Space)
    → CanMap s
    → q.len < 2 ^ 64
    → Returns (Mapped q fd s) (sys_mmap q fd s)
unfolding sys_mmap
sys_mmap-Mapped q fd s v word = elim (Bool-cases (q.len == 0 || not (q.len % page_size == 0))) [
  | inl bad ↦ rw bad (v.layout, λ f. refl)
  | inr good ↦ rw good (
      map_file-Mapped q fd s v (ground arith) (ground arith) word (argfd fd s.ofile) refl
        (λ f e. v.files fd f e))
]
