-- ===== src/Ext.antt =====
-- The extension of the USB driver (misc-modules/ddk_usb_ext.c, ddk_ext.h): statistics, the activity
-- timer, the blink work item and /proc/ddk_usb_status. A function that updates `*ext` returns the
-- new state, and the world after its calls into the kernel. A section under `ext->lock` is a function
-- of its own where other code can run between it and the next.
pub mod Proc
pub mod Protocol
pub mod Blink
pub mod Writes
pub mod System
pub mod Samples
mod Tests
use device_drivers_lab_proje.Prelude.{
  ℕ, zero, suc, ◌+◌, ◌-◌, ◌%◌, ◌^◌, Bool, true, false, not, Option, none, some, List, [], ◌∷◌, ◌==◌,
  if◌then◌else◌, codes, same_text, min, length, take, get_or,
}
use device_drivers_lab_proje.Prelude.Int.{
  ℤ, pos, pos_part, to_u64, to_int, eqb_ℤ, ltb_ℤ, efault, einval, enomem,
}
use device_drivers_lab_proje.Machine.{Machine, Scan, nothing, word, word_number}
use device_drivers_lab_proje.Led.{ddk_led_ctrl}

-- `struct ddk_ext_state`. The timer and the work item are the machine's; `proc_entry` says whether
-- the pointer is not NULL.
pub record ExtState : Type 0 where
  pub total_usb_success : ℕ
  pub total_usb_fail : ℕ
  pub total_blinks : ℕ
  pub last_write_len : ℕ
  pub timer_enabled : Bool
  pub timer_interval_ms : ℕ
  pub blink_count : ℤ
  pub blink_delay_ms : ℤ
  pub work_pending : Bool
  pub proc_entry : Bool

abbrev pub ddk_timer_def_ms : ℕ
ddk_timer_def_ms = 1000

abbrev pub ddk_blink_def_cnt : ℤ
ddk_blink_def_cnt = pos 3

abbrev pub ddk_blink_def_ms : ℤ
ddk_blink_def_ms = pos 200

-- `unsigned long` arithmetic
abbrev pub wrap64 : ℕ → ℕ
wrap64 n = n % 2 ^ 64

-- What `ddk_proc_show` prints behind a label.
pub data Shown : Type 0 where
  counter : ℕ → Shown
  bytes : ℕ → Shown
  yes_no : Bool → Shown
  long_ms : ℕ → Shown
  number : ℤ → Shown
  int_ms : ℤ → Shown

unfoldable pub ddk_proc_show : ExtState → List (List ℕ × Shown)
ddk_proc_show s =
    (codes "total_usb_success", counter s.total_usb_success)
    ∷ (codes "total_usb_fail", counter s.total_usb_fail)
    ∷ (codes "total_blinks", counter s.total_blinks)
    ∷ (codes "last_write_len", bytes s.last_write_len)
    ∷ (codes "timer_enabled", yes_no s.timer_enabled)
    ∷ (codes "timer_interval_ms", long_ms s.timer_interval_ms)
    ∷ (codes "blink_count", number s.blink_count)
    ∷ (codes "blink_delay_ms", int_ms s.blink_delay_ms)
    ∷ (codes "work_pending", yes_no s.work_pending)
    ∷ []

-- The three parts of `blink_worker`: the snapshot, the loop and the statistics.
unfoldable pub worker_begin : ExtState → ExtState
worker_begin s = record s { work_pending = false }

unfoldable pub worker_end : ℤ → ExtState → ExtState
worker_end count s = record s { total_blinks = wrap64 (s.total_blinks + to_u64 count) }

-- The text without the newline at its end.
unfoldable pub strip_newline : List ℕ → List ℕ
strip_newline buf =
    if get_or buf (length buf - 1) 0 == b'\n' then take (length buf - 1) buf else buf

unfoldable pub ddk_ext_on_write_fail : ExtState → ExtState
ddk_ext_on_write_fail s = record s { total_usb_fail = wrap64 (s.total_usb_fail + 1) }

-- The first section of `ddk_ext_on_write_success`.
unfoldable pub note_success : ℕ → ExtState → ExtState
note_success len s = record s {
  total_usb_success = wrap64 (s.total_usb_success + 1);
  last_write_len = len % 2 ^ 32;
}

module _ (m : Machine) where
  open m use {
    World, jiffies, msecs_to_jiffies, mod_timer, timer_delete, schedule_work, cancel_work, msleep,
    proc_create, remove_proc_entry, sscanf, copy_from_user,
  }

  -- Queue the work item unless it is queued already.
  unfoldable pub queue_blink : ExtState → World → ExtState × World
  queue_blink s w =
      if s.work_pending then (s, w) else (record s { work_pending = true }, schedule_work w)

  -- The `for` loop of `blink_worker`, by the rounds left.
  unfoldable pub blink_loop : ℕ → ℤ → World → World
  unfolding ddk_led_ctrl
  blink_loop zero delay w = w
  blink_loop (suc n) delay w =
      let on = msleep delay (ddk_led_ctrl m (pos 1) w).1 in
      let off = msleep delay (ddk_led_ctrl m (pos 0) on).1 in blink_loop n delay off

  unfoldable pub blink_worker : ExtState → World → ExtState × World
  unfolding worker_begin worker_end
  blink_worker s w = (
    worker_end s.blink_count (worker_begin s),
    blink_loop (pos_part s.blink_count) s.blink_delay_ms w,
  )

  -- Arm the timer one interval from now.
  unfoldable pub rearm : ExtState → World → World
  rearm s w = mod_timer (jiffies w + msecs_to_jiffies s.timer_interval_ms) w

  unfoldable pub activity_timer_cb : ExtState → World → ExtState × World
  unfolding queue_blink rearm
  activity_timer_cb s w =
      let enabled = s.timer_enabled in
      let (s', w') = queue_blink s w in (s', if enabled then rearm s' w' else w')

  unfoldable pub ddk_ext_on_write_success : ℕ → ExtState → World → ExtState × World
  unfolding note_success queue_blink rearm
  ddk_ext_on_write_success len s w =
      let s' = note_success len s in if s'.timer_enabled then (s', rearm s' w) else queue_blink s' w

  -- The `if` chain of `ddk_proc_write`; none for an unknown command.
  unfoldable pub run_command : List ℕ → ℤ → ExtState → World → Option (ExtState × World)
  run_command cmd val s w =
      if same_text cmd (codes "timer")
      then some (
        record s { timer_enabled = not (eqb_ℤ val (pos 0)) },
        if eqb_ℤ val (pos 0) then timer_delete w else w,
      )
      else if same_text cmd (codes "interval")
      then some (if ltb_ℤ (pos 0) val then record s { timer_interval_ms = to_u64 val } else s, w)
      else if same_text cmd (codes "blink")
      then some (if ltb_ℤ (pos 0) val then record s { blink_count = to_int val } else s, w)
      else if same_text cmd (codes "delay")
      then some (if ltb_ℤ (pos 0) val then record s { blink_delay_ms = to_int val } else s, w)
      else if same_text cmd (codes "reset")
      then some (
        record s {
          total_usb_success = 0;
          total_usb_fail = 0;
          total_blinks = 0;
          last_write_len = 0;
        },
        w,
      )
      else none

  abbrev pub finish_command :
      ℕ → ExtState → World → Option (ExtState × World) → ℤ × ExtState × World
  finish_command count s w none = (einval, s, w)
  finish_command count s w (some (s', w')) = (pos count, s', w')

  -- `val` is not initialised where only the command is read: `junk` is what it then holds.
  abbrev pub run_scan : ℕ → ℤ → ExtState → World → Scan → ℤ × ExtState × World
  run_scan count junk s w nothing = (einval, s, w)
  run_scan count junk s w (word cmd) = finish_command count s w (run_command cmd junk s w)
  run_scan count junk s w (word_number cmd val) = finish_command count s w (run_command cmd val s w)

  abbrev pub run_buffer : ℕ → ℤ → ExtState → World → Option (List ℕ) → ℤ × ExtState × World
  run_buffer count junk s w none = (efault, s, w)
  run_buffer count junk s w (some buf) = run_scan count junk s w (sscanf (strip_newline buf))

  -- `buf` has 64 bytes, one of them for the terminator.
  unfoldable pub ddk_proc_write : ℕ → ℤ → ExtState → World → ℤ × ExtState × World
  ddk_proc_write count junk s w = run_buffer count junk s w (copy_from_user 0 (min count 63) w)

  unfoldable pub ddk_ext_init : World → ℤ × ExtState × World
  ddk_ext_init w =
      let (created, w') = proc_create w in
      (
        if created then pos 0 else enomem,
        record {
          total_usb_success = 0;
          total_usb_fail = 0;
          total_blinks = 0;
          last_write_len = 0;
          timer_enabled = false;
          timer_interval_ms = ddk_timer_def_ms;
          blink_count = ddk_blink_def_cnt;
          blink_delay_ms = ddk_blink_def_ms;
          work_pending = false;
          proc_entry = created;
        },
        w',
      )

  unfoldable pub ddk_ext_cleanup : ExtState → World → ExtState × World
  ddk_ext_cleanup s w =
      let w' = if s.proc_entry then remove_proc_entry w else w in
      (record s { proc_entry = false }, cancel_work (timer_delete w'))
