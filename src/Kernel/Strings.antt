-- ===== src/Kernel/Strings.antt =====
-- kernel/string.c over a memory of bytes. A pointer is an address, and no range wraps.
pub mod Move
pub mod Copy
mod Tests
use mit_61810_labs.Prelude.{
  ℕ, zero, suc, ◌+◌, ◌-◌, ◌%◌, ◌^◌, Bool, true, false, not, ◌&&◌, ◌||◌, ltb, leb, ◌==◌,
  if◌then◌else◌, update,
}

abbrev pub Memory : Type 0
Memory = ℕ → ℕ

-- The loop of memset, with `k` bytes left.
pub memset : ℕ → ℕ → ℕ → Memory → Memory
memset dst c zero m = m
memset dst c (suc k) m = memset (suc dst) c k (update m dst (c % 2 ^ 8))

-- The result of memcmp as an `int`: a difference of bytes, or 0.
pub memcmp : Memory → ℕ → ℕ → ℕ → ℕ
memcmp m s1 s2 zero = 0
memcmp m s1 s2 (suc k) =
    if not (m s1 == m s2) then (m s1 + 2 ^ 32 - m s2) % 2 ^ 32 else memcmp m (suc s1) (suc s2) k

-- `while(n-- > 0) *--d = *--s`, with the pointers behind the ranges.
pub move_down : ℕ → ℕ → ℕ → Memory → Memory
move_down d s zero m = m
move_down d s (suc k) m = move_down (d - 1) (s - 1) k (update m (d - 1) (m (s - 1)))

-- `while(n-- > 0) *d++ = *s++`
pub move_up : ℕ → ℕ → ℕ → Memory → Memory
move_up d s zero m = m
move_up d s (suc k) m = move_up (suc d) (suc s) k (update m d (m s))

pub memmove : ℕ → ℕ → ℕ → Memory → Memory
memmove dst src n m =
    if n == 0
    then m
    else if ltb src dst && ltb dst (src + n)
    then move_down (dst + n) (src + n) n m
    else move_up dst src n m

-- The loops of strncpy: `copy_n` up to the zero byte, `pad` behind it.
pub pad : ℕ → ℕ → Memory → Memory
pad s zero m = m
pad s (suc k) m = pad (suc s) k (update m s 0)

pub strncpy : ℕ → ℕ → ℕ → Memory → Memory
strncpy s t zero m = m
strncpy s t (suc k) m =
    let m' = update m s (m t) in if m t == 0 then pad (suc s) k m' else strncpy (suc s) (suc t) k m'

-- safestrcpy with `n > 0`: its loop has `k = n - 1` rounds left.
pub safe_loop : ℕ → ℕ → ℕ → Memory → Memory
safe_loop s t zero m = update m s 0
safe_loop s t (suc k) m =
    let m' = update m s (m t) in
    if m t == 0 then update m' (suc s) 0 else safe_loop (suc s) (suc t) k m'

-- `n` is an `int` as a bit pattern.
pub safestrcpy : ℕ → ℕ → ℕ → Memory → Memory
safestrcpy s t n m = if n == 0 || leb (2 ^ 31) n then m else safe_loop s t (n - 1) m

-- The result of strncmp as an `int`.
pub strncmp : Memory → ℕ → ℕ → ℕ → ℕ
strncmp m p q zero = 0
strncmp m p q (suc k) =
    if not (m p == 0) && (m p == m q)
    then strncmp m (suc p) (suc q) k
    else (m p + 2 ^ 32 - m q) % 2 ^ 32

-- strlen on a string whose zero byte comes within `fuel` bytes.
pub strlen : ℕ → Memory → ℕ → ℕ
strlen zero m s = 0
strlen (suc fuel) m s = if m s == 0 then 0 else suc (strlen fuel m (suc s))
