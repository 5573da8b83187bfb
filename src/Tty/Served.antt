-- ===== src/Tty/Served.antt =====
-- The timer of a port against opens and closes, with the timer's function apart from the expiry that
-- starts it (tty/tiny_tty.c): `tiny_timer` takes no semaphore, and `del_timer` does not wait for it.
use device_drivers_lab_proje.Prelude.{
  ℕ, suc, ◌<◌, ◌-◌, ◌≡◌, ◌⊎◌, refl, arith, Bool, true, false, some, ◌==◌,
}
use device_drivers_lab_proje.Tty.{
  Timer, null, idle, armed, Tiny, arm, open_port, do_close, tiny_close, tiny_timer,
}

-- A port, and how often its timer's function runs at this time: a timer that is armed again while it does
-- may start it on another processor.
pub record Busy : Type 0 where
  pub port : Tiny
  pub running : ℕ

-- The sections of the driver. An expiry takes the timer off the list and starts its function, which
-- adds it again in the end, which moves it where it is pending; `timer_ok` is whether there is memory for a timer.
pub data Step : Busy → Busy → Type 0 where
  open_tty :
      (b : Busy) (expires : ℕ) (timer_ok : Bool)
      → Step b (record b { port = (open_port expires timer_ok b.port).1 })
  close_tty :
      (b : Busy) (t : Tiny) → tiny_close true b.port ≡ some t → Step b (record b { port = t })
  expire :
      (b : Busy) (e : ℕ)
      → b.port.timer ≡ armed e
      → Step b (record { port = record b.port { timer = idle }; running = suc b.running })
  finish :
      (b : Busy) (n count flipbuf_size expires : ℕ)
      → b.running ≡ suc n
      → Step b (record { port = (tiny_timer count flipbuf_size expires b.port).1; running = n })

pub data Reach (b : Busy) : Busy → Type 0 where
  here : Reach b b
  next : {c d : Busy} → Reach b c → Step c d → Reach b d

abbrev pub pending : Timer → Bool
pending null = false
pending idle = false
pending (armed e) = true

-- A port that is open has its timer's function at work or its timer pending, but for one whose timer
-- has found no memory.
abbrev pub IsServed : Busy → Type 0
IsServed b =
    (b.port.open_count ≡ 0)
    ⊎ ((0 < b.running) ⊎ ((pending b.port.timer ≡ true) ⊎ (b.port.timer ≡ null)))

-- A port that is open once and whose timer is pending may be closed while the timer's function runs, which
-- then submits the timer again: it is left pending on a port that no one has open.
closed_while_running :
    (b : Busy) (e count flipbuf_size expires : ℕ)
    → b.port.open_count ≡ 1
    → b.port.timer ≡ armed e
    → (c : Busy) × Reach b c × (c.port.open_count ≡ 0) × (c.port.timer ≡ armed expires)
unfolding tiny_close do_close tiny_timer
closed_while_running b e count flipbuf_size expires one timed =
    let fired : Tiny = record b.port { timer = idle } in
    let closed : Tiny = record fired { open_count = b.port.open_count - 1 } in
    let is_closed : tiny_close true fired ≡ some closed =
      (let used : (b.port.open_count == 0) ≡ false = ground arith in
        let last : (b.port.open_count - 1 == 0) ≡ true = ground arith in rw (used, last) refl) in
    (
      record { port = arm expires closed; running = b.running },
      next
          (next (next here (expire b e timed))
            (close_tty (record { port = fired; running = suc b.running }) closed is_closed))
          (finish (record { port = closed; running = suc b.running }) b.running count flipbuf_size
            expires refl),
      omega (arith, one),
      refl,
    )
