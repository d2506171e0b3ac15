-- ===== src/Kernel/Console.antt =====
-- kernel/console.c: the input line editor. consoleintr and a run of consoleread up to a `sleep` are
-- one step under cons.lock.
pub mod Edit
pub mod Lines
mod Tests
use mit_61810_labs.Prelude.{
  ℕ, zero, suc, ◌+◌, ◌-◌, ◌%◌, ◌^◌, Bool, true, false, not, ◌&&◌, ◌||◌, List, [], ◌∷◌, ltb, ◌==◌,
  if◌then◌else◌, update,
}

-- INPUT_BUF_SIZE
abbrev pub input_buf_size : ℕ
input_buf_size = 128

abbrev pub u32 : ℕ → ℕ
u32 n = n % 2 ^ 32

-- `cons`. `echo` lists the calls of consputc, the last one first, `wakes` counts the calls of wakeup.
pub record Cons : Type 0 where
  pub buf : ℕ → ℕ
  pub r : ℕ
  pub w : ℕ
  pub e : ℕ
  pub echo : List ℕ
  pub wakes : ℕ

-- BACKSPACE, and the characters by their codes: newline, and control-D, H, P and U.
abbrev pub backspace : ℕ
backspace = 0x100

abbrev pub newline : ℕ
newline = 10

abbrev pub control_d : ℕ
control_d = 4

-- `cons.e--; consputc(BACKSPACE)`
pub erase : Cons → Cons
erase c = record c { e = u32 (c.e + 2 ^ 32 - 1); echo = backspace ∷ c.echo }

-- The loop of the kill key; it goes round at most as often as characters are edited.
pub kill_loop : ℕ → Cons → Cons
kill_loop zero c = c
kill_loop (suc k) c =
    let rest = kill_loop k (erase c) in
    if not (c.e == c.w) && not (c.buf (u32 (c.e + 2 ^ 32 - 1) % input_buf_size) == newline)
    then rest
    else c

-- `cons.e - cons.r` and `cons.e - cons.w`
abbrev pub edited : Cons → ℕ
edited c = u32 (c.e + 2 ^ 32 - c.r)

abbrev pub unfinished : Cons → ℕ
unfinished c = u32 (c.e + 2 ^ 32 - c.w)

-- A character for the buffer.
pub store : ℕ → Cons → Cons
store ch c =
    let c1 = record c {
      echo = ch ∷ c.echo;
      buf = update c.buf (c.e % input_buf_size) ch;
      e = u32 (c.e + 1);
    } in
    if ch == newline || ch == control_d || edited c1 == input_buf_size
    then record c1 { w = c1.e; wakes = c1.wakes + 1 }
    else c1

-- The code is below 256. Control-P calls procdump, which changes nothing here.
pub consoleintr : ℕ → Cons → Cons
unfolding erase kill_loop store
consoleintr ch c =
    if ch == 16
    then c
    else if ch == 21
    then kill_loop (unfinished c) c
    else if ch == 8 || ch == 127
    then (if c.e == c.w then c else erase c)
    else if not (ch == 0) && ltb (edited c) input_buf_size
    then store (if ch == 13 then newline else ch) c
    else c

-- How a run of consoleread ends, with the bytes that are left to read.
pub data Reading : Type 0 where
  stopped waiting : ℕ → Reading
  killed_ : Reading

-- consoleread with `n` of `target` bytes left to read, the next one to `dst`. `copyout` says whether a
-- byte can be stored there, `killed` what killed(myproc()) returns. The result of the call is
-- `target - n` at `stopped n`, and -1 at `killed_`.
module _ (copyout : ℕ → Bool) (killed : Bool) (target : ℕ) where
  pub consoleread : ℕ → ℕ → Cons → Reading × List ℕ × Cons
  consoleread zero dst c = (stopped 0, [], c)
  consoleread (suc k) dst c =
      let ch = c.buf (c.r % input_buf_size) in
      let c1 = record c { r = u32 (c.r + 1) } in
      let rest = consoleread k (dst + 1) c1 in
      if c.r == c.w
      then ((if killed then killed_ else waiting (suc k)), [], c)
      else if ch == control_d
      then (
        stopped (suc k),
        [],
        if ltb (suc k) target then record c1 { r = u32 (c1.r + 2 ^ 32 - 1) } else c1,
      )
      else if not (copyout dst)
      then (stopped (suc k), [], c1)
      else if ch == newline
      then (stopped k, ch ∷ [], c1)
      else (rest.0, ch ∷ rest.1, rest.2)
