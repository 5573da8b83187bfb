-- ===== src/Ext/System/Invariant.antt =====
-- The pending flag of the extension and the kernel's queue agree under every interleaving
-- (misc-modules/ddk_usb_ext.c).
use device_drivers_lab_proje.Prelude.{◌+◌, ◌≡◌, ◌⊎◌, true, false, arith}
use device_drivers_lab_proje.Machine.{Machine, TimerLaws, WorkLaws}
use device_drivers_lab_proje.Ext.{
  worker_begin, worker_end, queue_blink, note_success, ddk_ext_on_write_fail,
}
use device_drivers_lab_proje.Ext.Proc.{ddk_proc_write-Frame, ddk_proc_write-queued}
use device_drivers_lab_proje.Ext.Blink.{blink_loop-queued}
use device_drivers_lab_proje.Ext.System.{
  System, started, Step, expire, check, stop, read_interval, rearm, start, begin, blink_once,
  finish, succeed, arm, queue, fail, configure, Reach, here, next,
}

-- The flag is set exactly while one run of the worker is due: queued, or called and not yet begun.
pub record IsConsistent (m : Machine) (t : System m) : Type 0 where
  pub due : t.ext.work_pending ≡ true → (m.work_queued t.world ≡ true) ⊎ (t.worker ≡ started)
  pub queued : m.work_queued t.world ≡ true → t.ext.work_pending ≡ true
  pub begun : t.worker ≡ started → (t.ext.work_pending ≡ true) × (m.work_queued t.world ≡ false)

module _ (m : Machine) (tl : TimerLaws m) (wl : WorkLaws m) where
  open m use {work_queued, jiffies}

  Step-IsConsistent : {t u : System m} → Step m t u → IsConsistent m t → IsConsistent m u
  unfolding queue_blink worker_begin worker_end note_success ddk_ext_on_write_fail
  Step-IsConsistent (expire t e p q r) c = ground (arith, tl.expire-queued t.world)
  Step-IsConsistent (check t p) c = ground (arith, wl.scheduled t.world)
  Step-IsConsistent (stop t p) c = ground arith
  Step-IsConsistent (read_interval t p) c = ground arith
  Step-IsConsistent (rearm t i p) c =
      ground (arith, tl.mod_timer-queued (jiffies t.world + i) t.world)
  Step-IsConsistent (start t p q) c = ground (arith, wl.started t.world)
  Step-IsConsistent (begin t p) c = ground arith
  Step-IsConsistent (blink_once t k d n p) c = ground (arith, blink_loop-queued m wl 1 d t.world)
  Step-IsConsistent (finish t k d p) c = ground arith
  Step-IsConsistent (succeed t len) c = ground arith
  Step-IsConsistent (arm t b a i p) c =
      ground (arith, tl.mod_timer-queued (jiffies t.world + i) t.world)
  Step-IsConsistent (queue t b a i p) c = ground (arith, wl.scheduled t.world)
  Step-IsConsistent (fail t) c = ground arith
  Step-IsConsistent (configure t n junk) c = ground (
    arith,
    (ddk_proc_write-Frame m n junk t.ext t.world).pending,
    ddk_proc_write-queued m tl n junk t.ext t.world,
  )

  -- However the callback, the worker, the writers and the proc file interleave, from a consistent
  -- state only consistent states are reached: the pending flag is set exactly while one run of the
  -- worker is due. So no blink is lost behind a flag that nobody will clear, and none is queued twice.
  pub Reach-IsConsistent : {t u : System m} → IsConsistent m t → Reach m t u → IsConsistent m u
  Reach-IsConsistent c here = c
  Reach-IsConsistent c (next r st) = Step-IsConsistent st (Reach-IsConsistent c r)
