-- ===== src/Ext/Proc.antt =====
-- /proc/ddk_usb_status (misc-modules/ddk_usb_ext.c, `ddk_proc_write` and `ddk_proc_show`).
use device_drivers_lab_proje.Prelude.{
  ℕ, ◌-◌, ◌^◌, ◌≡◌, ◌<◌, ◌≤◌, refl, ◌⊎◌, arith, true, some, none, min, codes, List, Option,
}
use device_drivers_lab_proje.Prelude.Int.{ℤ, pos, negsuc, is_negative}
use device_drivers_lab_proje.Machine.{Machine, Scan, nothing, word, word_number, TimerLaws}
use device_drivers_lab_proje.Ext.{
  ExtState, strip_newline, run_command, finish_command, run_scan, run_buffer, ddk_proc_write,
}

-- The configuration that a command may change.
pub record SameConfig (s t : ExtState) : Type 0 where
  pub enabled : t.timer_enabled ≡ s.timer_enabled
  pub interval : t.timer_interval_ms ≡ s.timer_interval_ms
  pub count : t.blink_count ≡ s.blink_count
  pub delay : t.blink_delay_ms ≡ s.blink_delay_ms

pub record SameCounters (s t : ExtState) : Type 0 where
  pub success : t.total_usb_success ≡ s.total_usb_success
  pub fail : t.total_usb_fail ≡ s.total_usb_fail
  pub blinks : t.total_blinks ≡ s.total_blinks
  pub last : t.last_write_len ≡ s.last_write_len

pub record ZeroCounters (t : ExtState) : Type 0 where
  pub success : t.total_usb_success ≡ 0
  pub fail : t.total_usb_fail ≡ 0
  pub blinks : t.total_blinks ≡ 0
  pub last : t.last_write_len ≡ 0

-- What a command leaves: the pending flag and the proc entry; and either the counters, or all of
-- the configuration with the counters at zero.
pub record Frame (s t : ExtState) : Type 0 where
  pub pending : t.work_pending ≡ s.work_pending
  pub entry : t.proc_entry ≡ s.proc_entry
  pub parts : SameCounters s t ⊎ (ZeroCounters t × SameConfig s t)

-- A disabled timer is not pending.
abbrev pub Disarmed : (m : Machine) → ExtState → m.World → Type 0
Disarmed m s w = (s.timer_enabled ≡ true) ⊎ (m.timer_expiry w ≡ none)

module _ (m : Machine) where
  open m use {World, timer_expiry, work_queued, copy_from_user, sscanf, timer_delete}

  -- What every command keeps is kept by the whole handler.
  over_commands :
      (P : ℤ × ExtState × World → Type 0) (n : ℕ) (junk : ℤ) (s : ExtState) (w : World)
      → ((cmd : List ℕ) (val : ℤ) → P (finish_command m n s w (run_command m cmd val s w)))
      → ((r : ℤ) → is_negative r ≡ true → P (r, s, w))
      → P (ddk_proc_write m n junk s w)
  unfolding ddk_proc_write
  over_commands P n junk s w run fail = buffered (copy_from_user 0 (min n 63) w)
    where
      scanned : (c : Scan) → P (run_scan m n junk s w c)
      scanned nothing = fail _ refl
      scanned (word cmd) = run cmd junk
      scanned (word_number cmd val) = run cmd val

      buffered : (o : Option (List ℕ)) → P (run_buffer m n junk s w o)
      buffered none = fail _ refl
      buffered (some buf) = scanned (sscanf (strip_newline buf))

  finish_command-Frame :
      (n : ℕ) (s : ExtState) (w : World) (cmd : List ℕ) (val : ℤ)
      → Frame s (finish_command m n s w (run_command m cmd val s w)).1
  unfolding run_command
  finish_command-Frame n s w cmd val = ground arith

  -- A write to the proc file, whatever its text, leaves the pending flag and the proc entry, and
  -- either leaves the counters or zeroes all four and leaves the configuration.
  pub ddk_proc_write-Frame :
      (n : ℕ) (junk : ℤ) (s : ExtState) (w : World) → Frame s (ddk_proc_write m n junk s w).1
  ddk_proc_write-Frame n junk s w =
      over_commands (λ r. Frame s r.1) n junk s w (finish_command-Frame n s w) (λ r h. ground arith)

  -- A refused write, one whose result is an error, changes neither the state nor the kernel's.
  ddk_proc_write_refused :
      (n : ℕ) (junk : ℤ) (s : ExtState) (w : World)
      → is_negative (ddk_proc_write m n junk s w).0 ≡ true
      → let (r, s', w') = ddk_proc_write m n junk s w in (s' ≡ s) × (w' ≡ w)
  ddk_proc_write_refused n junk s w =
      over_commands (λ r. is_negative r.0 ≡ true → (r.1 ≡ s) × (r.2 ≡ w)) n junk s w
        (λ cmd val. finished (run_command m cmd val s w)) (λ r h k. (refl, refl))
    where
      finished :
          (o : Option (ExtState × World))
          → is_negative (finish_command m n s w o).0 ≡ true
          → ((finish_command m n s w o).1 ≡ s) × ((finish_command m n s w o).2 ≡ w)
      finished none h = (refl, refl)
      finished (some (s', w')) h = cc

  finish_command-Disarmed :
      (laws : TimerLaws m) (n : ℕ) (s : ExtState) (w : World) (cmd : List ℕ) (val : ℤ)
      → Disarmed m s w
      → let (r, s', w') = finish_command m n s w (run_command m cmd val s w) in Disarmed m s' w'
  unfolding run_command
  finish_command-Disarmed laws n s w cmd val h = ground (arith, laws.deleted w)

  -- No write to the proc file leaves a timer pending that is disabled, if none was before: to disable
  -- it is to delete it.
  ddk_proc_write-Disarmed :
      (n : ℕ) (junk : ℤ) (s : ExtState) (w : World)
      → TimerLaws m
      → Disarmed m s w
      → let (r, s', w') = ddk_proc_write m n junk s w in Disarmed m s' w'
  ddk_proc_write-Disarmed n junk s w laws h =
      over_commands (λ r. Disarmed m r.1 r.2) n junk s w
        (λ cmd val. finish_command-Disarmed laws n s w cmd val h) (λ r k. h)

  finish_command-queued :
      (laws : TimerLaws m) (n : ℕ) (s : ExtState) (w : World) (cmd : List ℕ) (val : ℤ)
      → work_queued (finish_command m n s w (run_command m cmd val s w)).2 ≡ work_queued w
  unfolding run_command
  finish_command-queued laws n s w cmd val = ground (arith, laws.delete-queued w)

  pub ddk_proc_write-queued :
      (laws : TimerLaws m) (n : ℕ) (junk : ℤ) (s : ExtState) (w : World)
      → work_queued (ddk_proc_write m n junk s w).2 ≡ work_queued w
  ddk_proc_write-queued laws n junk s w =
      over_commands (λ r. work_queued r.2 ≡ work_queued w) n junk s w
        (finish_command-queued laws n s w) (λ r h. refl)

  -- The text that a write brings in, as `sscanf` reads it: a command and a number.
  abbrev pub Reads : ℕ → World → List ℕ → ℤ → Type 0
  Reads n w cmd val =
      (buf : List ℕ) × (copy_from_user 0 (min n 63) w ≡ some buf)
      × (sscanf (strip_newline buf) ≡ word_number cmd val)

  pub ddk_proc_write-Reads :
      (n : ℕ) (junk : ℤ) (s : ExtState) (w : World) (cmd : List ℕ) (val : ℤ)
      → Reads n w cmd val
      → ddk_proc_write m n junk s w ≡ finish_command m n s w (run_command m cmd val s w)
  unfolding ddk_proc_write
  ddk_proc_write-Reads n junk s w cmd val (buf, p, q) = rw p (rw q refl)

  -- The same for a text that is a word alone: `val` holds what its memory held.
  abbrev pub ReadsWord : ℕ → World → List ℕ → Type 0
  ReadsWord n w cmd =
      (buf : List ℕ) × (copy_from_user 0 (min n 63) w ≡ some buf)
      × (sscanf (strip_newline buf) ≡ word cmd)

  pub ddk_proc_write-ReadsWord :
      (n : ℕ) (junk : ℤ) (s : ExtState) (w : World) (cmd : List ℕ)
      → ReadsWord n w cmd
      → ddk_proc_write m n junk s w ≡ finish_command m n s w (run_command m cmd junk s w)
  unfolding ddk_proc_write
  ddk_proc_write-ReadsWord n junk s w cmd (buf, p, q) = rw p (rw q refl)

  -- The command "blink" with a number from 2 ^ 31 up to 2 ^ 32, all positive as a `long`, is
  -- accepted and makes the blink count negative: the conversion to `int` wraps behind the guard.
  blink_wraps :
      (n : ℕ) (junk : ℤ) (s : ExtState) (w : World) (v : ℕ)
      → Reads n w (codes "blink") (pos v)
      → 2 ^ 31 ≤ v
      → v < 2 ^ 32
      → let (r, s', w') = ddk_proc_write m n junk s w in
        (r ≡ pos n) × (s'.blink_count ≡ negsuc (2 ^ 32 - v - 1))
  unfolding run_command
  blink_wraps n junk s w v e lo hi =
      rw (ddk_proc_write-Reads n junk s w (codes "blink") (pos v) e) (ground arith)
