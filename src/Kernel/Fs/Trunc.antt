-- ===== src/Kernel/Fs/Trunc.antt =====
-- kernel/fs.c: itrunc.
pub mod Freed
pub mod Empty
use mit_61810_labs.Prelude.{
  ℕ, zero, suc, ◌+◌, ◌*◌, Bool, true, false, ◌==◌, if◌then◌else◌, update, Outcome, done, panic,
  ◌>>=◌,
}
use mit_61810_labs.Kernel.Fs.{Superblock, Disk, bfree}
use mit_61810_labs.Kernel.Fs.Inode.{Inode, Held, load32, direct_blocks, indirect_blocks, iupdate}

module _ (sb : Superblock) where
  -- The loop over `addrs[]`, from `i` on with `k` rounds left.
  pub trunc_addr : ℕ → Held → Outcome Held
  trunc_addr i s =
      if s.ino.addrs i == 0
      then done s
      else (bfree sb (s.ino.addrs i) s.disk >>= λ d.
          done (record { ino = record (s.ino) { addrs = update s.ino.addrs i 0 }; disk = d }))

  pub trunc_addrs : ℕ → ℕ → Held → Outcome Held
  unfolding trunc_addr
  trunc_addrs zero i s = done s
  trunc_addrs (suc k) i s = trunc_addr i s >>= λ t. trunc_addrs k (suc i) t

  -- The loop over the entries of the indirect block `a`.
  pub free_entry : ℕ → ℕ → Disk → Outcome Disk
  free_entry j a d = let v = load32 (d.block a) (4 * j) in if v == 0 then done d else bfree sb v d

  pub free_entries : ℕ → ℕ → ℕ → Disk → Outcome Disk
  unfolding free_entry
  free_entries zero j a d = done d
  free_entries (suc k) j a d = free_entry j a d >>= λ d'. free_entries k (suc j) a d'

  pub trunc_indirect : Held → Outcome Held
  unfolding free_entries
  trunc_indirect s =
      let a = s.ino.addrs direct_blocks in
      if a == 0
      then done s
      else (free_entries indirect_blocks 0 a s.disk >>= λ d. bfree sb a d >>= λ d'. done (record {
        ino = record (s.ino) { addrs = update s.ino.addrs direct_blocks 0 };
        disk = d';
      }))

  pub itrunc : Held → Outcome Held
  unfolding trunc_addrs trunc_indirect
  itrunc s = trunc_addrs direct_blocks 0 s >>= λ t. trunc_indirect t >>= λ u. done (record {
    ino = record (u.ino) { size = 0 };
    disk = iupdate sb (record { ino = record (u.ino) { size = 0 }; disk = u.disk });
  })
