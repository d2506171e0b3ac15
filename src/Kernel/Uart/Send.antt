-- ===== src/Kernel/Uart/Send.antt =====
-- The characters that were sent, followed by those that wait.
use mit_61810_labs.Prelude.{
  ℕ, zero, suc, ◌+◌, ◌%◌, ◌^◌, ◌≤◌, ◌<◌, ◌≡◌, refl, sym, ap, ap₂, ◌∙◌, arith, inl, inr, Bool, false,
  not, Option, none, some, List, [], ◌∷◌, ◌++◌, ◌==◌, update, update_self, update-ne, Bool-cases,
  append_assoc,
}
use mit_61810_labs.Kernel.Uart.{
  Uart, u64, uart_tx_buf_size, send, queued, uart_loop, uartstart, uartputc,
}

-- The `k` characters from index `r` on.
abbrev pub window : (ℕ → ℕ) → ℕ → ℕ → List ℕ
window buf r zero = []
window buf r (suc k) = buf (r % uart_tx_buf_size) ∷ window buf (u64 (r + 1)) k

abbrev pub history : Uart → List ℕ
history u = u.sent ++ window u.buf u.r (queued u)

pub record IsUart (u : Uart) : Type 0 where
  pub words : (u.w < 2 ^ 64) × (u.r < 2 ^ 64)
  pub fits : queued u ≤ uart_tx_buf_size

send_lem :
    (u : Uart) → IsUart u → (u.w == u.r) ≡ false → IsUart (send u) × (history (send u) ≡ history u)
unfolding send
send_lem u v some_ =
    let less : queued u ≡ suc (queued (send u)) = ground (arith, v.words) in
    (
      record { words = (v.words.0, omega arith); fits = ground (arith, v.words, v.fits) },
      append_assoc u.sent (u.buf (u.r % uart_tx_buf_size) ∷ [])
            (window u.buf (u64 (u.r + 1)) (queued (send u)))
          ∙ ap (λ l. u.sent ++ l) (sym (ap (window u.buf u.r) less)),
    )

uart_loop_lem :
    (idle : ℕ → Bool) (k i : ℕ) (u : Uart)
    → IsUart u
    → IsUart (uart_loop idle k i u) × (history (uart_loop idle k i u) ≡ history u)
unfolding uart_loop
uart_loop_lem idle zero i u v = (v, refl)
uart_loop_lem idle (suc k) i u v = elim (Bool-cases (u.w == u.r)) [
  | inl empty ↦ rw empty (v, refl)
  | inr some_ ↦ elim (Bool-cases (not (idle i))) [
    | inl busy ↦ rw (some_, busy) (v, refl)
    | inr free ↦
        let s = send_lem u v some_ in
        let r = uart_loop_lem idle k (suc i) (send u) s.0 in rw (some_, free) (r.0, r.1 ∙ s.1)
  ]
]

-- uartstart moves characters from the ring to the device in order, and loses none.
pub uartstart_lem :
    (idle : ℕ → Bool) (u : Uart)
    → IsUart u
    → IsUart (uartstart idle u) × (history (uartstart idle u) ≡ history u)
unfolding uartstart
uartstart_lem idle u v = uart_loop_lem idle (queued u) 0 u v

window-update :
    (buf : ℕ → ℕ) (c k r w : ℕ)
    → k < uart_tx_buf_size
    → w ≡ u64 (r + k)
    → window (update buf (w % uart_tx_buf_size) c) r (suc k) ≡ window buf r k ++ (c ∷ [])
window-update buf c zero r w h e =
    ap (λ x. x ∷ [])
      (ap (update buf (w % uart_tx_buf_size) c) (omega (arith, e))
        ∙ update_self buf (w % uart_tx_buf_size) c)
window-update buf c (suc k) r w h e =
    ap₂ ◌∷◌ (update-ne buf (w % uart_tx_buf_size) c (r % uart_tx_buf_size) (omega (arith, e)))
      (window-update buf c k (u64 (r + 1)) w (omega arith) (omega (arith, e)))

-- A call that has to sleep, or the ring with the character behind all others.
abbrev pub Put : ℕ → Uart → Option Uart → Type 0
Put c u none = queued u ≡ uart_tx_buf_size
Put c u (some u') = IsUart u' × (history u' ≡ history u ++ (c % 2 ^ 8 ∷ []))

-- uartputc sleeps only on a full ring; else the characters sent and waiting are those of before, with
-- the new one at the end.
pub uartputc-Put : (idle : ℕ → Bool) (c : ℕ) (u : Uart) → IsUart u → Put c u (uartputc idle c u)
unfolding uartputc
uartputc-Put idle c u v = elim (Bool-cases (u.w == u64 (u.r + uart_tx_buf_size))) [
  | inl full ↦ rw full (ground (arith, v.words))
  | inr room ↦
      let u1 : Uart = record u {
        buf = update u.buf (u.w % uart_tx_buf_size) (c % 2 ^ 8);
        w = u64 (u.w + 1);
      } in
      let less : queued u < uart_tx_buf_size = ground (arith, v.words, v.fits) in
      let more : queued u1 ≡ suc (queued u) = ground (arith, v.words, v.fits) in
      let v1 : IsUart u1 = record { words = (omega arith, v.words.1); fits = omega arith } in
      let r = uartstart_lem idle u1 v1 in
      rw room (
        r.0,
        r.1
            ∙ ap (λ l. u.sent ++ l)
                (ap (window u1.buf u.r) more
                  ∙ window-update u.buf (c % 2 ^ 8) (queued u) u.r u.w less
                      (omega (arith, v.words)))
            ∙ sym (append_assoc u.sent (window u.buf u.r (queued u)) (c % 2 ^ 8 ∷ [])),
      )
]
