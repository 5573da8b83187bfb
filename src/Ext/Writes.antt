-- ===== src/Ext/Writes.antt =====
-- What the write path of the driver does to the extension (misc-modules/ddk_usb_ext.c), and the life
-- of its timer and its work item when no two functions overlap.
use device_drivers_lab_proje.Prelude.{
  if◌then◌else◌, ℕ, suc, ◌+◌, ◌%◌, ◌^◌, ◌≡◌, refl, ◌∙◌, arith, true, false, none, some, List, [],
  ◌∷◌,
}
use device_drivers_lab_proje.Machine.{Machine, TimerLaws, WorkLaws}
use device_drivers_lab_proje.Ext.{
  ExtState, wrap64, ddk_ext_on_write_success, ddk_ext_on_write_fail, activity_timer_cb,
  ddk_ext_cleanup, queue_blink,
}

-- The result of each USB write that a driver reports.
pub data Report : Type 0 where
  wrote : ℕ → Report
  failed : Report

abbrev pub successes : List Report → ℕ
successes [] = 0
successes (wrote len ∷ rs) = suc (successes rs)
successes (failed ∷ rs) = successes rs

abbrev pub failures : List Report → ℕ
failures [] = 0
failures (wrote len ∷ rs) = failures rs
failures (failed ∷ rs) = suc (failures rs)

abbrev pub last_len : ℕ → List Report → ℕ
last_len n [] = n
last_len n (wrote len ∷ rs) = last_len (len % 2 ^ 32) rs
last_len n (failed ∷ rs) = last_len n rs

module _ (m : Machine) where
  open m use {World, timer_expiry, work_queued, jiffies, msecs_to_jiffies}

  unfoldable pub report : Report → ExtState → World → ExtState × World
  report (wrote len) s w = ddk_ext_on_write_success m len s w
  report failed s w = (ddk_ext_on_write_fail s, w)

  unfoldable pub report_all : List Report → ExtState → World → ExtState × World
  report_all [] s w = (s, w)
  report_all (r ∷ rs) s w = let (s', w') = report r s w in report_all rs s' w'

  success_counts :
      (len : ℕ) (s : ExtState) (w : World)
      → let t = (ddk_ext_on_write_success m len s w).0 in
        (t.total_usb_success ≡ wrap64 (s.total_usb_success + 1))
        × (t.total_usb_fail ≡ s.total_usb_fail)
        × (t.last_write_len ≡ len % 2 ^ 32)
        × (t.total_blinks ≡ s.total_blinks)
        × (t.blink_count ≡ s.blink_count)
        × (t.timer_enabled ≡ s.timer_enabled)
  unfolding ddk_ext_on_write_success
  success_counts len s w = ground arith

  fail_counts :
      (s : ExtState)
      → let t = ddk_ext_on_write_fail s in
        (t.total_usb_success ≡ s.total_usb_success)
        × (t.total_usb_fail ≡ wrap64 (s.total_usb_fail + 1))
        × (t.last_write_len ≡ s.last_write_len)
        × (t.total_blinks ≡ s.total_blinks)
        × (t.blink_count ≡ s.blink_count)
        × (t.timer_enabled ≡ s.timer_enabled)
  unfolding ddk_ext_on_write_fail
  fail_counts s = ground arith

  -- After any reports of the write path, the statistics are what they were plus the numbers of
  -- successful and of failed writes, modulo 2 ^ 64, and the length of the last successful write
  -- modulo 2 ^ 32; the blink total and the configuration stay.
  report_all-counts :
      (rs : List Report) (s : ExtState) (w : World)
      → let t = (report_all rs s w).0 in
        (t.total_usb_success % 2 ^ 64 ≡ (s.total_usb_success + successes rs) % 2 ^ 64)
        × (t.total_usb_fail % 2 ^ 64 ≡ (s.total_usb_fail + failures rs) % 2 ^ 64)
        × (t.last_write_len ≡ last_len s.last_write_len rs)
        × (t.total_blinks ≡ s.total_blinks)
        × (t.blink_count ≡ s.blink_count)
        × (t.timer_enabled ≡ s.timer_enabled)
  unfolding report_all report
  report_all-counts [] s w = ground arith
  report_all-counts (wrote len ∷ rs) s w =
      let (s', w') = ddk_ext_on_write_success m len s w in
      ground (arith, success_counts len s w, report_all-counts rs s' w')
  report_all-counts (failed ∷ rs) s w =
      ground (arith, fail_counts s, report_all-counts rs (ddk_ext_on_write_fail s) w)

  -- A successful write counts one success and its length. With the timer enabled it arms the timer
  -- one interval from now and leaves the work item; otherwise it leaves the timer, and the work item
  -- is queued afterwards if its flag and the kernel agreed before.
  ddk_ext_on_write_success_lem :
      (len : ℕ) (s : ExtState) (w : World)
      → TimerLaws m
      → WorkLaws m
      → (s.work_pending ≡ true → work_queued w ≡ true)
      → let (s', w') = ddk_ext_on_write_success m len s w in
        (s'.total_usb_success ≡ wrap64 (s.total_usb_success + 1))
        × (s'.last_write_len ≡ len % 2 ^ 32)
        × (timer_expiry w' ≡ (
            if s.timer_enabled
            then some (jiffies w + msecs_to_jiffies s.timer_interval_ms)
            else timer_expiry w))
        × (work_queued w' ≡ (if s.timer_enabled then work_queued w else true))
  unfolding ddk_ext_on_write_success
  ddk_ext_on_write_success_lem len s w tl wl h = ground (
    arith,
    tl.armed (jiffies w + msecs_to_jiffies s.timer_interval_ms) w,
    tl.mod_timer-queued (jiffies w + msecs_to_jiffies s.timer_interval_ms) w,
    wl.scheduled w,
    wl.schedule-expiry w,
  )

  -- The timer's callback, called when the timer has expired, sets the pending flag and leaves the work
  -- item queued, if the flag and the kernel agreed before. An enabled timer is then armed one interval
  -- ahead of the time at which the work was queued, and a disabled one is not pending.
  activity_timer_cb_lem :
      (s : ExtState) (w : World)
      → TimerLaws m
      → WorkLaws m
      → timer_expiry w ≡ none
      → (s.work_pending ≡ true → work_queued w ≡ true)
      → let (s', w') = activity_timer_cb m s w in
        let v = (queue_blink m s w).1 in
        (s' ≡ record s { work_pending = true })
        × (work_queued w' ≡ true)
        × (timer_expiry w' ≡ (
            if s.timer_enabled
            then some (jiffies v + msecs_to_jiffies s.timer_interval_ms)
            else none))
  unfolding activity_timer_cb
  activity_timer_cb_lem s w tl wl ex h =
      let v = (queue_blink m s w).1 in
      let e = jiffies v + msecs_to_jiffies s.timer_interval_ms in
      ground (arith, tl.armed e v, tl.mod_timer-queued e v, wl.scheduled w, wl.schedule-expiry w)

  -- Cleanup leaves no timer pending, no work queued and no proc entry, whatever came before.
  ddk_ext_cleanup_lem :
      (s : ExtState) (w : World)
      → TimerLaws m
      → WorkLaws m
      → let (s', w') = ddk_ext_cleanup m s w in
        (timer_expiry w' ≡ none) × (work_queued w' ≡ false) × (s'.proc_entry ≡ false)
  unfolding ddk_ext_cleanup
  ddk_ext_cleanup_lem s w tl wl = (wl.cancel-expiry _ ∙ tl.deleted _, wl.cancelled _, refl)
