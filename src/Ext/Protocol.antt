-- ===== src/Ext/Protocol.antt =====
-- The commands that the comment above `ddk_proc_write` lists (misc-modules/ddk_usb_ext.c), as a
-- protocol of their own: what each one means, and what /proc then shows.
use device_drivers_lab_proje.Prelude.{
  ℕ, ◌^◌, ◌≡◌, ◌<◌, refl, arith, Bool, true, false, codes, same_text, List, ◌||◌, ◌⊎◌, inl, inr,
  ◌∙◌,
}
use device_drivers_lab_proje.Prelude.Int.{ℤ, pos, einval}
use device_drivers_lab_proje.Machine.{Machine}
use device_drivers_lab_proje.Ext.{ExtState, run_command, finish_command, ddk_proc_write}
use device_drivers_lab_proje.Ext.Proc.{
  Reads, ReadsWord, ddk_proc_write-Reads, ddk_proc_write-ReadsWord,
}

pub data Command : Type 0 where
  timer_on timer_off reset : Command
  interval blink delay : ℕ → Command

-- The word and the number of a command; the number of `reset` is not looked at.
abbrev pub spell : Command → List ℕ
spell timer_on = codes "timer"
spell timer_off = codes "timer"
spell reset = codes "reset"
spell (interval ms) = codes "interval"
spell (blink n) = codes "blink"
spell (delay ms) = codes "delay"

abbrev pub argument : Command → ℕ
argument timer_on = 1
argument timer_off = 0
argument reset = 0
argument (interval ms) = ms
argument (blink n) = n
argument (delay ms) = ms

-- The values for which a command has its meaning.
abbrev pub InRange : Command → Type 0
InRange timer_on = Unit
InRange timer_off = Unit
InRange reset = Unit
InRange (interval ms) = (0 < ms) × (ms < 2 ^ 63)
InRange (blink n) = (0 < n) × (n < 2 ^ 31)
InRange (delay ms) = (0 < ms) × (ms < 2 ^ 31)

abbrev pub meaning : Command → ExtState → ExtState
meaning timer_on s = record s { timer_enabled = true }
meaning timer_off s = record s { timer_enabled = false }
meaning reset s = record s {
  total_usb_success = 0;
  total_usb_fail = 0;
  total_blinks = 0;
  last_write_len = 0;
}
meaning (interval ms) s = record s { timer_interval_ms = ms }
meaning (blink n) s = record s { blink_count = pos n }
meaning (delay ms) s = record s { blink_delay_ms = pos ms }

abbrev is_known : List ℕ → Bool
is_known cmd =
    same_text cmd (codes "timer")
    || same_text cmd (codes "interval")
    || same_text cmd (codes "blink")
    || same_text cmd (codes "delay")
    || same_text cmd (codes "reset")

module _ (m : Machine) where
  open m use {World, timer_delete}

  abbrev pub kernel_meaning : Command → World → World
  kernel_meaning timer_off w = timer_delete w
  kernel_meaning timer_on w = w
  kernel_meaning reset w = w
  kernel_meaning (interval ms) w = w
  kernel_meaning (blink n) w = w
  kernel_meaning (delay ms) w = w

  -- How a text gives a command: "reset" alone or with any number, each other one with its number.
  abbrev pub Gives : ℕ → World → Command → Type 0
  Gives n w reset = ReadsWord m n w (codes "reset") ⊎ ((v : ℤ) × Reads m n w (codes "reset") v)
  Gives n w timer_on = Reads m n w (codes "timer") (pos 1)
  Gives n w timer_off = Reads m n w (codes "timer") (pos 0)
  Gives n w (interval ms) = Reads m n w (codes "interval") (pos ms)
  Gives n w (blink k) = Reads m n w (codes "blink") (pos k)
  Gives n w (delay ms) = Reads m n w (codes "delay") (pos ms)

  finish_command_reset :
      (val : ℤ) (n : ℕ) (s : ExtState) (w : World)
      → finish_command m n s w (run_command m (codes "reset") val s w) ≡ (pos n, meaning reset s, w)
  unfolding run_command
  finish_command_reset val n s w = refl

  finish_command-meaning :
      (c : Command) (n : ℕ) (s : ExtState) (w : World)
      → InRange c
      → finish_command m n s w (run_command m (spell c) (pos (argument c)) s w)
        ≡ (pos n, meaning c s, kernel_meaning c w)
  unfolding run_command
  finish_command-meaning timer_on n s w h = refl
  finish_command-meaning timer_off n s w h = refl
  finish_command-meaning reset n s w h = refl
  finish_command-meaning (interval ms) n s w h = ground arith
  finish_command-meaning (blink k) n s w h = ground arith
  finish_command-meaning (delay ms) n s w h = ground arith

  given :
      (c : Command) (n : ℕ) (junk : ℤ) (s : ExtState) (w : World)
      → InRange c
      → Reads m n w (spell c) (pos (argument c))
      → ddk_proc_write m n junk s w ≡ (pos n, meaning c s, kernel_meaning c w)
  given c n junk s w h e =
      rw (ddk_proc_write-Reads m n junk s w (spell c) (pos (argument c)) e)
        (finish_command-meaning c n s w h)

  -- A write whose text is read as a listed command, with a number in its range, or "reset" alone or
  -- with any number, takes the whole text, changes the state as the command means, and touches the kernel only to delete the timer
  -- for "timer 0".
  pub ddk_proc_write-meaning :
      (c : Command) (n : ℕ) (junk : ℤ) (s : ExtState) (w : World)
      → InRange c
      → Gives n w c
      → ddk_proc_write m n junk s w ≡ (pos n, meaning c s, kernel_meaning c w)
  ddk_proc_write-meaning reset n junk s w h (inl e) =
      ddk_proc_write-ReadsWord m n junk s w (codes "reset") e ∙ finish_command_reset junk n s w
  ddk_proc_write-meaning reset n junk s w h (inr (v, e)) =
      ddk_proc_write-Reads m n junk s w (codes "reset") v e ∙ finish_command_reset v n s w
  ddk_proc_write-meaning timer_on n junk s w h e = given timer_on n junk s w h e
  ddk_proc_write-meaning timer_off n junk s w h e = given timer_off n junk s w h e
  ddk_proc_write-meaning (interval ms) n junk s w h e = given (interval ms) n junk s w h e
  ddk_proc_write-meaning (blink k) n junk s w h e = given (blink k) n junk s w h e
  ddk_proc_write-meaning (delay ms) n junk s w h e = given (delay ms) n junk s w h e

  finish_command_unknown :
      (n : ℕ) (s : ExtState) (w : World) (cmd : List ℕ) (val : ℤ)
      → is_known cmd ≡ false
      → finish_command m n s w (run_command m cmd val s w) ≡ (einval, s, w)
  unfolding run_command
  finish_command_unknown n s w cmd val h = ground arith

  -- A write whose text is read as any other word and a number is refused with EINVAL, and changes
  -- nothing.
  ddk_proc_write_unknown :
      (n : ℕ) (junk : ℤ) (s : ExtState) (w : World) (cmd : List ℕ) (val : ℤ)
      → Reads m n w cmd val
      → is_known cmd ≡ false
      → ddk_proc_write m n junk s w ≡ (einval, s, w)
  ddk_proc_write_unknown n junk s w cmd val e h =
      rw (ddk_proc_write-Reads m n junk s w cmd val e) (finish_command_unknown n s w cmd val h)
