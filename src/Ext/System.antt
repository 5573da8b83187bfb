-- ===== src/Ext/System.antt =====
-- The extension under all interleavings (misc-modules/ddk_usb_ext.c): the timer's callback, the
-- worker, the writers and the proc file run their sections under `ext->lock` in any order. What a
-- function holds in its local variables between two sections is its phase here.
pub mod Invariant
pub mod Race
mod Tests
use device_drivers_lab_proje.Prelude.{
  ℕ, zero, suc, ◌+◌, ◌≤◌, ◌≡◌, Bool, true, false, some, List, ◌∷◌, ◌++◌,
}
use device_drivers_lab_proje.Prelude.Int.{ℤ, pos_part}
use device_drivers_lab_proje.Machine.{Machine}
use device_drivers_lab_proje.Ext.{
  ExtState, worker_begin, worker_end, blink_loop, queue_blink, note_success, ddk_ext_on_write_fail,
  ddk_proc_write,
}

-- `blink_worker`: not running; called, before its first section; in its loop, with the count, the
-- delay and the rounds left.
pub data Worker : Type 0 where
  asleep started : Worker
  blinking : ℤ → ℤ → ℕ → Worker

-- `activity_timer_cb`: not running; called; behind its first section, with `enabled`; behind its
-- second, with `interval`.
pub data Callback : Type 0 where
  waiting fired : Callback
  checked : Bool → Callback
  rearming : ℕ → Callback

-- A call of `ddk_ext_on_write_success` behind its first section: `te` and `interval`.
abbrev pub Writer : Type 0
Writer = Bool × ℕ

pub record System (m : Machine) : Type 0 where
  pub ext : ExtState
  pub world : m.World
  pub worker : Worker
  pub callback : Callback
  pub writers : List Writer

module _ (m : Machine) where
  open m use {
    jiffies, msecs_to_jiffies, mod_timer, timer_expire, timer_expiry, work_start, work_queued,
  }

  pub data Step : System m → System m → Type 0 where
    -- The kernel takes a due timer off its list and calls the callback.
    expire :
        (t : System m) (e : ℕ)
        → t.callback ≡ waiting
        → timer_expiry t.world ≡ some e
        → e ≤ jiffies t.world
        → Step t (record t { world = timer_expire t.world; callback = fired })
    check :
        (t : System m)
        → t.callback ≡ fired
        → Step t (record t {
          ext = (queue_blink m t.ext t.world).0;
          world = (queue_blink m t.ext t.world).1;
          callback = checked t.ext.timer_enabled;
        })
    stop : (t : System m) → t.callback ≡ checked false → Step t (record t { callback = waiting })
    read_interval :
        (t : System m)
        → t.callback ≡ checked true
        → Step t (record t { callback = rearming (msecs_to_jiffies t.ext.timer_interval_ms) })
    rearm :
        (t : System m) (i : ℕ)
        → t.callback ≡ rearming i
        → Step t (record t { world = mod_timer (jiffies t.world + i) t.world; callback = waiting })
    -- The kernel takes the work item off its queue and calls the worker, one call at a time.
    start :
        (t : System m)
        → t.worker ≡ asleep
        → work_queued t.world ≡ true
        → Step t (record t { world = work_start t.world; worker = started })
    begin :
        (t : System m)
        → t.worker ≡ started
        → Step t (record t {
          ext = worker_begin t.ext;
          worker = blinking t.ext.blink_count t.ext.blink_delay_ms (pos_part t.ext.blink_count);
        })
    blink_once :
        (t : System m) (count delay : ℤ) (n : ℕ)
        → t.worker ≡ blinking count delay (suc n)
        → Step t
            (record t { world = blink_loop m 1 delay t.world; worker = blinking count delay n })
    finish :
        (t : System m) (count delay : ℤ)
        → t.worker ≡ blinking count delay zero
        → Step t (record t { ext = worker_end count t.ext; worker = asleep })
    -- A USB write has succeeded: the first section, and then either of the branches.
    succeed :
        (t : System m) (len : ℕ)
        → Step t (record t {
          ext = note_success len t.ext;
          writers = (t.ext.timer_enabled, msecs_to_jiffies t.ext.timer_interval_ms) ∷ t.writers;
        })
    arm :
        (t : System m) (before after : List Writer) (i : ℕ)
        → t.writers ≡ before ++ ((true, i) ∷ after)
        → Step t (record t {
          world = mod_timer (jiffies t.world + i) t.world;
          writers = before ++ after;
        })
    queue :
        (t : System m) (before after : List Writer) (i : ℕ)
        → t.writers ≡ before ++ ((false, i) ∷ after)
        → Step t (record t {
          ext = (queue_blink m t.ext t.world).0;
          world = (queue_blink m t.ext t.world).1;
          writers = before ++ after;
        })
    fail : (t : System m) → Step t (record t { ext = ddk_ext_on_write_fail t.ext })
    configure :
        (t : System m) (n : ℕ) (junk : ℤ)
        → Step t (record t {
          ext = (ddk_proc_write m n junk t.ext t.world).1;
          world = (ddk_proc_write m n junk t.ext t.world).2;
        })

  pub data Reach (s : System m) : System m → Type 0 where
    here : Reach s s
    next : {t u : System m} → Reach s t → Step t u → Reach s u
