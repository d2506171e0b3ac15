-- ===== src/Kernel/Uart.antt =====
-- kernel/uart.c: the ring of characters to send. What runs under uart_tx_lock is one step, in a
-- kernel that has not panicked.
pub mod Send
use mit_61810_labs.Prelude.{
  ℕ, zero, suc, ◌+◌, ◌-◌, ◌%◌, ◌^◌, Bool, true, false, not, Option, none, some, List, [], ◌∷◌, ◌++◌,
  ◌==◌, if◌then◌else◌, update,
}

-- UART_TX_BUF_SIZE
abbrev pub uart_tx_buf_size : ℕ
uart_tx_buf_size = 32

abbrev pub u64 : ℕ → ℕ
u64 n = n % 2 ^ 64

-- uart_tx_buf, uart_tx_w and uart_tx_r, the characters written to THR in order, and the number of
-- calls of wakeup.
pub record Uart : Type 0 where
  pub buf : ℕ → ℕ
  pub w : ℕ
  pub r : ℕ
  pub sent : List ℕ
  pub wakes : ℕ

-- One character from the ring to the device.
pub send : Uart → Uart
send u = record u {
  r = u64 (u.r + 1);
  wakes = u.wakes + 1;
  sent = u.sent ++ (u.buf (u.r % uart_tx_buf_size) ∷ []);
}

-- How many characters wait.
abbrev pub queued : Uart → ℕ
queued u = u64 (u.w + 2 ^ 64 - u.r)

-- The loop of uartstart, which goes round at most as often as characters wait; `idle i` is what the
-- `i`-th read of LSR says.
pub uart_loop : (ℕ → Bool) → ℕ → ℕ → Uart → Uart
uart_loop idle zero i u = u
uart_loop idle (suc k) i u =
    let rest = uart_loop idle k (suc i) (send u) in
    if u.w == u.r then u else if not (idle i) then u else rest

pub uartstart : (ℕ → Bool) → Uart → Uart
unfolding send uart_loop
uartstart idle u = uart_loop idle (queued u) 0 u

-- A run of uartputc up to its end, `none` for a call of sleep.
pub uartputc : (ℕ → Bool) → ℕ → Uart → Option Uart
uartputc idle c u =
    if u.w == u64 (u.r + uart_tx_buf_size)
    then none
    else some (
        uartstart idle
          (record u { buf = update u.buf (u.w % uart_tx_buf_size) (c % 2 ^ 8); w = u64 (u.w + 1) }))
