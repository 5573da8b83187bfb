-- ===== src/Tty.antt =====
-- The tiny terminal driver (tty/tiny_tty.c): its ports, opening and closing them, the timer that makes
-- up input, and the lines of the modem control.
pub mod Lines
pub mod Timed
pub mod Served
pub mod Wait
mod Tests
use device_drivers_lab_proje.Prelude.{
  ℕ, zero, suc, ◌+◌, ◌-◌, ◌<◌, Bool, true, false, ◌||◌, not, Option, none, some, List, [], ◌∷◌,
  ◌++◌, ◌>>=◌, if◌then◌else◌, ltb, leb, ◌==◌,
}
use device_drivers_lab_proje.Prelude.Int.{ℤ, pos, enomem, enodev, einval}

-- `struct timer_list *timer`: NULL, or a timer, with its expiry while it is pending.
pub data Timer : Type 0 where
  null idle : Timer
  armed : ℕ → Timer

-- `struct async_icount`, the lines that the wait compares.
pub record Icount : Type 0 where
  pub rng : ℕ
  pub dsr : ℕ
  pub dcd : ℕ
  pub cts : ℕ

-- `struct tiny_serial`, less the pointer to the terminal, the semaphore and the wait queue.
-- `open_port` and `do_close` are one section under the semaphore each; `tiny_timer` takes none.
pub record Tiny : Type 0 where
  pub open_count : ℕ
  pub timer : Timer
  pub msr : ℕ
  pub mcr : ℕ
  pub icount : Icount

-- What `kmalloc` gives, by whether it succeeds: memory whose other fields are arbitrary.
abbrev pub new_port : Tiny → Tiny
new_port garbage = record garbage { open_count = 0; timer = null }

-- `add_timer`, `DELAY_TIME` from now; `del_timer`, where a NULL pointer is followed.
abbrev pub arm : ℕ → Tiny → Tiny
arm e t = record t { timer = armed e }

abbrev pub del_timer : Timer → Option Timer
del_timer null = none
del_timer idle = some idle
del_timer (armed e) = some idle

-- The port's timer after its first open: there, or made, or NULL where there is no memory. `init_timer` is
-- not called: a new timer stands for memory that `add_timer` takes as a timer that is not pending.
abbrev pub ensured : Bool → Timer → Timer
ensured ok null = if ok then idle else null
ensured ok idle = idle
ensured ok (armed e) = armed e

abbrev pub is_null : Timer → Bool
is_null null = true
is_null idle = false
is_null (armed e) = false

-- The answer, the port, and whether the terminal's `driver_data` is set. The section under the
-- semaphore, for a port that is there:
unfoldable pub open_port : ℕ → Bool → Tiny → ℤ × Tiny
open_port expires timer_ok t =
    let t1 : Tiny = record t { open_count = suc t.open_count } in
    let t2 : Tiny = record t1 { timer = ensured timer_ok t.timer } in
    if t1.open_count == 1
    then (if is_null t2.timer then (enomem, t2) else (pos 0, arm expires t2))
    else (pos 0, t1)

unfoldable pub tiny_open : ℕ → Option Tiny → Bool → Option Tiny → ℤ × Option Tiny × Bool
unfolding open_port
tiny_open expires memory timer_ok (some t) =
    let (r, t') = open_port expires timer_ok t in (r, some t', true)
tiny_open expires none timer_ok none = (enomem, none, false)
tiny_open expires (some garbage) timer_ok none =
    let (r, t') = open_port expires timer_ok (new_port garbage) in (r, some t', true)

-- None where the timer's NULL pointer is followed.
unfoldable pub do_close : Tiny → Option Tiny
do_close t =
    if t.open_count == 0
    then some t
    else (let t' : Tiny = record t { open_count = t.open_count - 1 } in
        if t'.open_count == 0
        then (do timer' ← del_timer t.timer; some (record t' { timer = timer' }))
        else some t')

-- By whether `driver_data` is set.
unfoldable pub tiny_close : Bool → Tiny → Option Tiny
unfolding do_close
tiny_close true t = do_close t
tiny_close false t = some t

-- What the timer's function does to the terminal's flip buffer.
pub data FlipCall : Type 0 where
  push : FlipCall
  insert_char : ℕ → FlipCall

-- `TINY_DATA_CHARACTER`
abbrev pub tiny_data_character : ℕ
tiny_data_character = 116

-- By the characters in the flip buffer and its size; the timer is submitted again.
unfoldable pub tiny_timer : ℕ → ℕ → ℕ → Tiny → List FlipCall × Tiny
tiny_timer count flipbuf_size expires t =
    let full = if leb flipbuf_size count then push ∷ [] else [] in
    (full ++ (insert_char tiny_data_character ∷ push ∷ []), arm expires t)

-- The answer, and the bytes printed to the log; the answer of a write is always an error.
unfoldable pub tiny_write : Option Tiny → List ℕ → ℤ × List ℕ
tiny_write none buffer = (enodev, [])
tiny_write (some t) buffer = (einval, if t.open_count == 0 then [] else buffer)

unfoldable pub tiny_write_room : Option Tiny → ℤ
tiny_write_room none = enodev
tiny_write_room (some t) = if t.open_count == 0 then einval else pos 255

-- The loop of `tiny_exit` for one port, on fuel: closed as long as it is open.
unfoldable pub close_all : ℕ → Tiny → Option Tiny
close_all zero t = none
close_all (suc fuel) t =
    let rest = do_close t >>= close_all fuel in if t.open_count == 0 then some t else rest

-- The ports with nothing left of those that were there; none where a NULL pointer is followed, or the
-- fuel runs out.
unfoldable pub tiny_exit : ℕ → List (Option Tiny) → Option (List (Option Tiny))
tiny_exit fuel [] = some []
tiny_exit fuel (none ∷ ports) = do ports' ← tiny_exit fuel ports; some (none ∷ ports')
tiny_exit fuel (some t ∷ ports) = do
  t' ← close_all fuel t
  timer' ← del_timer t'.timer
  ports' ← tiny_exit fuel ports
  some (none ∷ ports')
