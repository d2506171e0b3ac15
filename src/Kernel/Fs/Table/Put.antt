-- ===== src/Kernel/Fs/Table/Put.antt =====
-- iput: the last reference to an inode without links frees its blocks.
use mit_61810_labs.Prelude.{
  ℕ, subst, ◌+◌, ◌%◌, ◌^◌, ◌≡◌, ◌⊎◌, inl, inr, refl, ◌∙◌, arith, Bool, true, false, ◌&&◌, ◌==◌,
  Bool-cases, Returns, Returns-map,
}
use mit_61810_labs.Kernel.Fs.{Superblock, Disk}
use mit_61810_labs.Kernel.Fs.Inode.{Held, load_inode, iupdate}
use mit_61810_labs.Kernel.Fs.Trunc.{itrunc}
use mit_61810_labs.Kernel.Fs.Trunc.Empty.{IsTruncated, itrunc_lem}
use mit_61810_labs.Kernel.Fs.Inode.Slots.{slot, IsFile}
use mit_61810_labs.Kernel.Fs.Inode.Dinode.{free_type_lem}
use mit_61810_labs.Kernel.Fs.Inode.Update.{updated-slot, updated-IsFile, updated_free}
use mit_61810_labs.Kernel.Fs.Table.{Entry, discard, iput}

-- The inode with another type.
abbrev retyped : Held → ℕ → Held
retyped s z = record { ino = record (s.ino) { type = z }; disk = s.disk }

retyped-IsFile : (sb : Superblock) (s : Held) (z : ℕ) → IsFile sb s → IsFile sb (retyped s z)
unfolding slot
retyped-IsFile sb s z h = record {
  disk = h.disk;
  short = h.short;
  listed = h.listed;
  owned = h.owned;
  apart = h.apart;
}

retyped-slot : (s : Held) (z k : ℕ) → slot k (retyped s z) ≡ slot k s
unfolding slot
retyped-slot s z k = refl

-- No link and no other reference leads to the inode.
abbrev pub is_last : Entry → Bool
is_last e = e.ref == 1 && (e.valid && e.ino.nlink == 0)

module _ (sb : Superblock) (e : Entry) (d : Disk)
    (h : IsFile sb (record { ino = e.ino; disk = d })) where
  abbrev old : Held
  old = record { ino = e.ino; disk = d }

  -- With the last reference to an inode without links, the inode is free in memory and on the disk, its
  -- blocks are free, and no other block changes hands; else a reference less is all that changes.
  abbrev pub IsPut : Entry × Disk → Type 0
  IsPut (e', d') =
      ((is_last e ≡ true)
        × (e'.ref ≡ 0)
        × (e'.valid ≡ false)
        × (e'.ino.type ≡ 0)
        × (e'.ino.inum ≡ e.ino.inum)
        × ((load_inode sb e.ino.inum d').type ≡ 0)
        × IsTruncated sb old h (record { ino = e'.ino; disk = d' }))
      ⊎ ((is_last e ≡ false)
          × (e'.ref ≡ (e.ref + 4294967295) % 2 ^ 32)
          × (e'.ino ≡ e.ino)
          × (e'.valid ≡ e.valid)
          × (e'.dev ≡ e.dev)
          × (e'.holder ≡ e.holder)
          × (d' ≡ d))

  retyped_lem :
      (u : Held)
      → IsTruncated sb old h u
      → IsTruncated sb old h (record {
        ino = record (u.ino) { type = 0 };
        disk = iupdate sb (record { ino = record (u.ino) { type = 0 }; disk = u.disk });
      })
  retyped_lem u p =
      let t = retyped u 0 in
      let f = retyped-IsFile sb u 0 p.file in
      record {
        file = updated-IsFile sb t u.ino.size f;
        empty = λ k lt. updated-slot sb t u.ino.size f k ∙ retyped-slot u 0 k ∙ p.empty k lt;
        size = p.size;
        inum = p.inum;
        gone = λ k lt ne.
            updated_free sb t u.ino.size f (slot k old) (h.owned k lt ne).within ∙ p.gone k lt ne;
        kept = λ x lx away. updated_free sb t u.ino.size f x lx ∙ p.kept x lx away;
      }

  IsDiscarded : Entry × Disk → Type 0
  IsDiscarded (e', d') =
      (e'.ref ≡ e.ref)
      × (e'.valid ≡ false)
      × (e'.ino.type ≡ 0)
      × (e'.ino.inum ≡ e.ino.inum)
      × ((load_inode sb e.ino.inum d').type ≡ 0)
      × IsTruncated sb old h (record { ino = e'.ino; disk = d' })

  discard_lem : Returns IsDiscarded (discard sb e d)
  unfolding discard IsDiscarded
  discard_lem = Returns-map IsDiscarded _ (itrunc sb old) (itrunc_lem sb old h) (λ u p. (
    refl,
    refl,
    refl,
    p.inum,
    subst (λ n. (load_inode sb n (iupdate sb (retyped u 0))).type ≡ 0) p.inum
        (free_type_lem sb (retyped u 0) refl),
    retyped_lem u p,
  ))

  -- For an entry whose inode is a file in order, iput does not panic: the last reference to an inode that
  -- was read and has no links frees the blocks of the file and no others, leaves the entry not valid and
  -- without references, and leaves the inode with type 0, in memory and in what ilock would read of it from
  -- the disk; else one reference less is counted, on 32 bits, nothing else of the entry changes and nothing
  -- is written.
  pub iput_lem : Returns IsPut (iput sb e d)
  unfolding iput IsDiscarded
  iput_lem = elim (Bool-cases (is_last e)) [
    | inl last ↦ rw last (
        Returns-map IsPut _ (discard sb e d) discard_lem
          (λ r (a, b, c, i, o, t). inl (last, ground (arith, a), b, c, i, o, t)))
    | inr more ↦ rw more (inr (more, refl, refl, refl, refl, refl, refl))
  ]
