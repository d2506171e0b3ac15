-- ===== src/Kernel/Log/Reserve.antt =====
-- begin_op, log_write and end_op by any number of file system calls at once: the reservation of
-- MAXOPBLOCKS blocks for each call keeps the log within its size, and no call runs during a commit.
use mit_61810_labs.Prelude.{
  ℕ, zero, suc, ◌+◌, ◌-◌, ◌*◌, ◌≤◌, ◌<◌, ◌≡◌, refl, inl, inr, arith, Bool, true, false, Option,
  some, none, List, [], ◌∷◌, length, get_elem?, set, ltb, if◌then◌else◌, Outcome, done, panic,
  Returns, ◌>>=◌, Option-cases, Bool-cases, length-set, ltb→lt, get_elem?-lt,
}
use mit_61810_labs.Kernel.Log.{
  LogState, max_op_blocks, log_capacity, begin_op, end_op_enter, end_op_leave, log_write, commit,
  find_block, write_head, write_log, install_trans,
}

abbrev pub remove_at : List ℕ → ℕ → List ℕ
remove_at [] i = []
remove_at (u ∷ us) zero = us
remove_at (u ∷ us) (suc i) = u ∷ remove_at us i

length-remove_at :
    (us : List ℕ) (i : ℕ) {u : ℕ}
    → get_elem? us i ≡ some u
    → length (remove_at us i) + 1 ≡ length us
length-remove_at [] i e = ground arith
length-remove_at (x ∷ us) zero e = omega arith
length-remove_at (x ∷ us) (suc i) e = omega (arith, length-remove_at us i e)

find_block-le : (block : ℕ → ℕ) (b k i : ℕ) → find_block block b k i ≤ i + k
unfolding find_block
find_block-le block b zero i = omega arith
find_block-le block b (suc k) i = ground (arith, find_block-le block b k (suc i))

commit_effect :
    (s : LogState)
    → s.n ≤ log_capacity
    → ((commit s).n ≡ 0)
      × ((commit s).outstanding ≡ s.outstanding)
      × ((commit s).committing ≡ s.committing)
      × ((commit s).size ≡ s.size)
unfolding commit write_head write_log install_trans
commit_effect s h = ground arith

-- Where the end_op that commits is: there is none, it is before or in commit(), or behind it.
pub data Phase : Type 0 where
  working flushing leaving : Phase

abbrev pub in_commit : Phase → Bool
in_commit working = false
in_commit flushing = true
in_commit leaving = true

-- What the calls do to the log: the call `i` of those under way writes block `b`, or enters end_op;
-- the end_op that is to commit runs commit(), and takes the lock again. Each is a stretch of the code
-- that other calls see as a whole or between which they run.
pub data Event : Type 0 where
  begin : Event
  write : ℕ → ℕ → Event
  finish : ℕ → Event
  flush : Event
  leave : Event

-- `used` holds, for each call between begin_op and end_op, how many blocks it has written.
pub record Load : Type 0 where
  pub log : LogState
  pub used : List ℕ
  pub phase : Phase

pub flush_as : Phase → Load → Load
flush_as working w = w
flush_as flushing w = record w { log = commit w.log; phase = leaving }
flush_as leaving w = w

pub leave_as : Phase → Load → Load
leave_as working w = w
leave_as flushing w = w
leave_as leaving w = record w { log = end_op_leave w.log; phase = working }

pub finish_as : Option ℕ → ℕ → Load → Outcome Load
finish_as none i w = done w
finish_as (some u) i w = end_op_enter w.log >>= λ (do_commit, s'). done (record {
  log = s';
  used = remove_at w.used i;
  phase = if do_commit then flushing else w.phase;
})

-- A call writes at most `most` blocks.
module _ (most : ℕ) where
  -- A call that has written all its blocks writes no more.
  pub write_as : Option ℕ → ℕ → ℕ → Load → Outcome Load
  write_as none i b w = done w
  write_as (some u) i b w =
      if ltb u most
      then (log_write b w.log >>= λ s'. done (record w { log = s'; used = set w.used i (suc u) }))
      else done w

  -- A `begin_op` that sleeps changes nothing.
  pub handle : Event → Load → Outcome Load
  handle begin w =
      done (elim (begin_op w.log) [ none ↦ w | some s' ↦ record w { log = s'; used = 0 ∷ w.used } ])
  handle (write i b) w = write_as (get_elem? w.used i) i b w
  handle (finish i) w = finish_as (get_elem? w.used i) i w
  handle flush w = done (flush_as w.phase w)
  handle leave w = done (leave_as w.phase w)

  pub run : List Event → Load → Outcome Load
  run [] w = done w
  run (e ∷ es) w = handle e w >>= run es

  -- What the calls under way may still add, by how many blocks each has written.
  abbrev pub spare : List ℕ → ℕ
  spare [] = 0
  spare (u ∷ us) = (most - u) + spare us

  spare-set :
      (us : List ℕ) (i : ℕ) {u : ℕ}
      → get_elem? us i ≡ some u
      → u < most
      → spare (set us i (suc u)) + 1 ≡ spare us
  spare-set [] i e h = ground arith
  spare-set (x ∷ us) zero e h = ground arith
  spare-set (x ∷ us) (suc i) e h = omega (arith, spare-set us i e h)

  spare-remove_at : (us : List ℕ) (i : ℕ) → spare (remove_at us i) ≤ spare us
  spare-remove_at [] i = omega arith
  spare-remove_at (x ∷ us) zero = omega arith
  spare-remove_at (x ∷ us) (suc i) = omega (arith, spare-remove_at us i)

  -- The log has room for the blocks that the calls under way may still write, and a commit runs only
  -- while no call is under way and `committing` says so.
  pub record IsReserved (w : Load) : Type 0 where
    pub count : w.log.outstanding ≡ length w.used
    pub few : length w.used ≤ 3
    pub flag : w.log.committing ≡ in_commit w.phase
    pub alone : in_commit w.phase ≡ true → w.used ≡ []
    pub room : w.log.n + spare w.used ≤ most + 20
    pub size : most + 21 ≤ w.log.size

  module _ (fair : most ≤ max_op_blocks) where
    spare-le : (us : List ℕ) → spare us ≤ max_op_blocks * length us
    spare-le [] = omega arith
    spare-le (u ∷ us) = omega (arith, spare-le us)

    begin_op-IsReserved :
        (w : Load) {s' : LogState}
        → IsReserved w
        → begin_op w.log ≡ some s'
        → IsReserved (record w { log = s'; used = 0 ∷ w.used })
    unfolding begin_op
    begin_op-IsReserved w v e = ground (arith, spare-le w.used)

    idle :
        (w : Load) (i : ℕ) {u : ℕ}
        → IsReserved w
        → get_elem? w.used i ≡ some u
        → in_commit w.phase ≡ false
    idle w i v e = elim (Bool-cases (in_commit w.phase)) [
      | inl c ↦ let z = v.alone c in absurd (ground (arith, z, get_elem?-lt w.used i e))
      | inr c ↦ c
    ]

    write_as-IsReserved :
        (o : Option ℕ) (i b : ℕ) (w : Load)
        → get_elem? w.used i ≡ o
        → IsReserved w
        → Returns IsReserved (write_as o i b w)
    unfolding write_as log_write
    write_as-IsReserved none i b w e v = v
    write_as-IsReserved (some u) i b w e v =
        let c = idle w i v e in
        elim (Bool-cases (ltb u most)) [
          | inl h ↦ rw h (
              ground (
                arith,
                spare-set w.used i e (ltb→lt u most h),
                length-set w.used i (suc u),
                get_elem?-lt w.used i e,
              ))
          | inr h ↦ rw h v
        ]

    finish_as-IsReserved :
        (o : Option ℕ) (i : ℕ) (w : Load)
        → get_elem? w.used i ≡ o
        → IsReserved w
        → Returns IsReserved (finish_as o i w)
    unfolding finish_as end_op_enter
    finish_as-IsReserved none i w e v = v
    finish_as-IsReserved (some u) i w e v =
        let c = idle w i v e in
        ground (arith, spare-remove_at w.used i, length-remove_at w.used i e)

    flush_as-IsReserved :
        (p : Phase) (w : Load) → w.phase ≡ p → IsReserved w → IsReserved (flush_as p w)
    unfolding flush_as
    flush_as-IsReserved working w e v = v
    flush_as-IsReserved flushing w e v = ground (arith, commit_effect w.log)
    flush_as-IsReserved leaving w e v = v

    leave_as-IsReserved :
        (p : Phase) (w : Load) → w.phase ≡ p → IsReserved w → IsReserved (leave_as p w)
    unfolding leave_as end_op_leave
    leave_as-IsReserved working w e v = v
    leave_as-IsReserved flushing w e v = v
    leave_as-IsReserved leaving w e v = ground arith

    handle-IsReserved : (e : Event) (w : Load) → IsReserved w → Returns IsReserved (handle e w)
    unfolding handle
    handle-IsReserved begin w v = elim (Option-cases (begin_op w.log)) [
      | inl e ↦ rw e v
      | inr (s', e) ↦ rw e (begin_op-IsReserved w v e)
    ]
    handle-IsReserved (write i b) w v = write_as-IsReserved (get_elem? w.used i) i b w refl v
    handle-IsReserved (finish i) w v = finish_as-IsReserved (get_elem? w.used i) i w refl v
    handle-IsReserved flush w v = flush_as-IsReserved w.phase w refl v
    handle-IsReserved leave w v = leave_as-IsReserved w.phase w refl v

    -- Calls that write at most `most` blocks each, with `most` at most MAXOPBLOCKS, on a log of `most + 21`
    -- blocks with its header, as on the disk of mkfs for 9 blocks a call: whatever runs of begin_op,
    -- log_write, the two sections of end_op and its commit follow one another, also while a commit is
    -- under way, neither log_write nor end_op panics; the log keeps room for all that the calls under
    -- way may still write; and a commit runs only while no call is between begin_op and end_op, and
    -- `committing` is set just for its time.
    pub run-IsReserved : (es : List Event) (w : Load) → IsReserved w → Returns IsReserved (run es w)
    unfolding run
    run-IsReserved [] w v = v
    run-IsReserved (e ∷ es) w v = next (handle e w) (handle-IsReserved e w v) (run-IsReserved es)
      where
        next :
            (m : Outcome Load)
            → Returns IsReserved m
            → ((w' : Load) → IsReserved w' → Returns IsReserved (run es w'))
            → Returns IsReserved (m >>= run es)
        next (done w') r k = k w' r
        next (panic m) r k = r

-- With LOGSIZE blocks for the log in all, the header among them, log_write panics at LOGSIZE - 1
-- logged blocks.
pub log_write-too_big :
    (s : LogState) (b : ℕ)
    → s.size ≡ log_capacity
    → s.n + 1 ≡ log_capacity
    → log_write b s ≡ panic "too big a transaction"
unfolding log_write
log_write-too_big s b e h = ground arith
