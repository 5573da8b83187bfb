-- ===== src/Ext/System/Race.antt =====
-- The race between "timer 0" and the timer's callback (misc-modules/ddk_usb_ext.c).
use device_drivers_lab_proje.Prelude.{ℕ, ◌+◌, ◌≡◌, refl, ap, true, false, some, codes}
use device_drivers_lab_proje.Prelude.Int.{ℤ, pos}
use device_drivers_lab_proje.Machine.{Machine, TimerLaws}
use device_drivers_lab_proje.Ext.{ddk_proc_write}
use device_drivers_lab_proje.Ext.Proc.{Reads}
use device_drivers_lab_proje.Ext.Protocol.{timer_off, ddk_proc_write-meaning}
use device_drivers_lab_proje.Ext.System.{
  System, checked, waiting, rearming, read_interval, rearm, configure, Reach, here, next,
}

module _ (m : Machine) where
  open m use {timer_expiry, jiffies, msecs_to_jiffies, timer_delete, mod_timer}

  -- "timer 0" is written; then the callback reads the interval; then it arms the timer.
  after_write : System m → ℕ → ℤ → System m
  after_write t n junk = record t {
    ext = (ddk_proc_write m n junk t.ext t.world).1;
    world = (ddk_proc_write m n junk t.ext t.world).2;
  }

  after_read : System m → System m
  after_read t = record t { callback = rearming (msecs_to_jiffies t.ext.timer_interval_ms) }

  after_rearm : System m → System m
  after_rearm t = record t {
    world = mod_timer (jiffies t.world + msecs_to_jiffies t.ext.timer_interval_ms) t.world;
    callback = waiting;
  }

  -- Where "timer 0" is written after the callback has read that the timer is enabled and before it
  -- arms it again, the callback goes on to arm the timer: a state is reached in which the timer is
  -- disabled and yet pending.
  pub disabled_timer_armed :
      (t : System m) (n : ℕ) (junk : ℤ)
      → TimerLaws m
      → t.callback ≡ checked true
      → Reads m n t.world (codes "timer") (pos 0)
      → (u : System m) × Reach m t u
        × (u.ext.timer_enabled ≡ false)
        × ((e : ℕ) × (timer_expiry u.world ≡ some e))
  unfolding after_write after_read after_rearm
  disabled_timer_armed t n junk laws h reads =
      let t1 = after_write t n junk in
      let t2 = after_read t1 in
      let off = ddk_proc_write-meaning m timer_off n junk t.ext t.world tt reads in
      (
        after_rearm t2,
        next (next (next here (configure t n junk)) (read_interval t1 h))
            (rearm t2 (msecs_to_jiffies t2.ext.timer_interval_ms) refl),
        ap (λ r. r.1.timer_enabled) off,
        (_, laws.armed _ _),
      )
