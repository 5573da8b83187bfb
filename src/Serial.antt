-- ===== src/Serial.antt =====
-- The serial port that is none (tty/tiny_serial.c): a timer makes up a character of input and takes
-- characters from the transmit buffer of the serial core, whose size UART_XMIT_SIZE is a page.
mod Tests
use device_drivers_lab_proje.Prelude.{
  ℕ, zero, suc, ◌+◌, ◌-◌, ◌/◌, ◌%◌, ◌^◌, ◌≡◌, ◌≢◌, ◌<◌, ◌≤◌, refl, sym, ◌∙◌, ap, ap₂, arith, Bool,
  true, false, not, ◌||◌, Option, none, some, List, [], ◌∷◌, ◌++◌, if◌then◌else◌, ltb, leb, ◌==◌,
  min, length, get_or, take, drop, append_assoc, Bool-cases, inl, inr, append-nil,
}
use device_drivers_lab_proje.Prelude.Int.{ℤ, pos, enomem}
use device_drivers_lab_proje.Circular.{page_size, between, between-first, between-nil, next_place}

-- `struct uart_port` with its `struct circ_buf`: `sent` is what went to the log as the written characters,
-- the first one first, and `wakeups` counts the calls of `uart_write_wakeup`.
pub record Port : Type 0 where
  pub x_char : ℕ
  pub fifosize : ℕ
  pub tx : ℕ
  pub buf : List ℕ
  pub head : ℕ
  pub tail : ℕ
  pub sent : List ℕ
  pub wakeups : ℕ

-- One round of the loop.
abbrev send : Port → Port
send p = record p {
  sent = p.sent ++ (get_or p.buf p.tail 0 ∷ []);
  tail = (p.tail + 1) % page_size;
  tx = (p.tx + 1) % 2 ^ 32;
}

-- The loop, of which `more` rounds may follow the first.
unfoldable tx_loop : ℕ → Port → Port
tx_loop zero p = send p
tx_loop (suc more) p =
    let rest = tx_loop more (send p) in if p.head == (send p).tail then send p else rest

-- `uart_circ_chars_pending`
abbrev chars_pending : Port → ℕ
chars_pending p = (page_size + p.head - p.tail) % page_size

-- `WAKEUP_CHARS`
abbrev wakeup_chars : ℕ
wakeup_chars = 256

abbrev wake_writer : Port → Port
wake_writer p =
    if ltb (chars_pending p) wakeup_chars then record p { wakeups = p.wakeups + 1 } else p

-- `stopped` is `uart_tx_stopped`. A count of 0 takes one round, as one of 1 does.
unfoldable tiny_tx_chars : Bool → Port → Port
unfolding tx_loop
tiny_tx_chars stopped p =
    if not (p.x_char == 0)
    then record p { tx = (p.tx + 1) % 2 ^ 32; x_char = 0 }
    else if p.head == p.tail || stopped
    then p
    else wake_writer (tx_loop (p.fifosize / 2 - 1) p)

-- The module's timer, where there is one, and whether it is pending; the characters of input.
pub record Serial : Type 0 where
  pub port : Port
  pub timer : Option Bool
  pub input : ℕ

-- `tiny_timer`: by whether the port has a terminal.
unfoldable tiny_timer : Bool → Bool → Serial → Serial
unfolding tiny_tx_chars
tiny_timer tty stopped s =
    let fired : Serial = record s { timer = some false } in
    if tty
    then record fired {
      input = s.input + 1;
      timer = some true;
      port = tiny_tx_chars stopped s.port;
    }
    else fired

-- `tiny_startup`: `ok` is whether the memory for the timer is there.
unfoldable tiny_startup : Bool → Serial → ℤ × Serial
tiny_startup ok s = elim s.timer [
  | none ↦ if ok then (pos 0, record s { timer = some true }) else (enomem, s)
  | some pending ↦ (pos 0, record s { timer = some true })
]

-- `tiny_shutdown`: none where `del_timer` meets NULL.
unfoldable tiny_shutdown : Serial → Option Serial
tiny_shutdown s = elim s.timer [
  | none ↦ none
  | some pending ↦ some (record s { timer = some false })
]

-- What the port has to send.
abbrev pending : Port → List ℕ
pending p = between p.head p.tail p.buf

-- The buffer is a page, its head and tail are in it, and the count is a 32-bit number.
record InPage (p : Port) : Type 0 where
  head : p.head < page_size
  tail : p.tail < page_size
  size : length p.buf ≡ page_size
  tx : p.tx < 2 ^ 32

send-pending :
    (p : Port) → InPage p → p.head ≢ p.tail → pending p ≡ get_or p.buf p.tail 0 ∷ pending (send p)
send-pending p v ne =
    let same : next_place p.tail ≡ (p.tail + 1) % page_size = ground (arith, v.tail) in
    between-first p.head p.tail p.buf v.head v.tail v.size ne
    ∙ ap (λ t. get_or p.buf p.tail 0 ∷ between p.head t p.buf) same

-- The port `q` is the port `p` with its first `n` characters sent.
record Sends (p q : Port) (n : ℕ) : Type 0 where
  sent : q.sent ≡ p.sent ++ take n (pending p)
  left : pending q ≡ drop n (pending p)
  count : q.tx ≡ (p.tx + n) % 2 ^ 32

send-InPage : (p : Port) → InPage p → InPage (send p)
send-InPage p v = record { head = v.head; tail = omega arith; size = v.size; tx = omega arith }

send-Sends : (p : Port) → InPage p → p.head ≢ p.tail → Sends p (send p) 1
send-Sends p v ne =
    let first = send-pending p v ne in
    record {
      sent = ap (λ l. p.sent ++ take 1 l) (sym first);
      left = ap (drop 1) (sym first);
      count = refl;
    }

Sends-more :
    (p q : Port) (n : ℕ) → InPage p → p.head ≢ p.tail → Sends (send p) q n → Sends p q (suc n)
Sends-more p q n v ne w =
    let first = send-pending p v ne in
    record {
      sent =
          w.sent
          ∙ append_assoc p.sent (get_or p.buf p.tail 0 ∷ []) (take n (pending (send p)))
          ∙ ap (λ l. p.sent ++ take (suc n) l) (sym first);
      left = w.left ∙ ap (drop (suc n)) (sym first);
      count =
          w.count
          ∙ (let e : ((p.tx + 1) % 2 ^ 32 + n) % 2 ^ 32 ≡ (p.tx + suc n) % 2 ^ 32 = omega arith in
              e);
    }

-- The loop sends the first characters, as many as its rounds, or all.
tx_loop-Sends :
    (more : ℕ) (p : Port)
    → InPage p
    → p.head ≢ p.tail
    → Sends p (tx_loop more p) (min (suc more) (length (pending p)))
unfolding tx_loop
tx_loop-Sends zero p v ne =
    let one : min 1 (length (pending p)) ≡ 1 = omega (arith, ap length (send-pending p v ne)) in
    rw one (send-Sends p v ne)
tx_loop-Sends (suc more) p v ne = elim (Bool-cases (p.head == (send p).tail)) [
  | inl empty ↦
      let gone = between-nil p.head (send p).tail p.buf (ground arith) in
      let one : min (suc (suc more)) (length (pending p)) ≡ 1 =
        omega (arith, ap length (send-pending p v ne), ap length gone) in
      rw (empty, one) (send-Sends p v ne)
  | inr rest ↦
      let n = min (suc more) (length (pending (send p))) in
      let next : min (suc (suc more)) (length (pending p)) ≡ suc n =
        omega (arith, ap length (send-pending p v ne)) in
      rw (rest, next)
        (Sends-more p (tx_loop more (send p)) n v ne
          (tx_loop-Sends more (send p) (send-InPage p v) (ground arith)))
]

wake_writer-Sends : (p q : Port) (n : ℕ) → Sends p q n → Sends p (wake_writer q) n
wake_writer-Sends p q n w = elim (Bool-cases (ltb (chars_pending q) wakeup_chars)) [
  | inl e ↦ rw e (record { sent = w.sent; left = w.left; count = w.count })
  | inr e ↦ rw e w
]

-- A port whose buffer is a page and whose count is a 32-bit number, without an x character, and whose terminal is not stopped, sends the first
-- of its characters in order, as many as half its FIFO's size but one at least, or all if they are fewer, and
-- counts them modulo 2 ^ 32; the rest waits.
tiny_tx_chars-Sends :
    (p : Port)
    → InPage p
    → p.x_char ≡ 0
    → Sends p (tiny_tx_chars false p) (min (suc (p.fifosize / 2 - 1)) (length (pending p)))
unfolding tiny_tx_chars
tiny_tx_chars-Sends p v x =
    let plain : (p.x_char == 0) ≡ true = ground arith in
    elim (Bool-cases (p.head == p.tail)) [
      | inl empty ↦
          let gone = between-nil p.head p.tail p.buf (ground arith) in
          let n : min (suc (p.fifosize / 2 - 1)) (length (pending p)) ≡ 0 =
            omega (arith, ap length gone) in
          rw (plain, empty)
            (rw n
              (record { sent = sym (append-nil p.sent); left = refl; count = omega (arith, v.tx) }))
      | inr some_left ↦
          rw (plain, some_left)
            (wake_writer-Sends p (tx_loop (p.fifosize / 2 - 1) p)
              (min (suc (p.fifosize / 2 - 1)) (length (pending p)))
              (tx_loop-Sends (p.fifosize / 2 - 1) p v (ground arith)))
    ]
