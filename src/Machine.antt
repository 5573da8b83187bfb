-- ===== src/Machine.antt =====
-- What the drivers call and do not implement: the kernel's timers, work queues, proc files and user
-- memory (<linux/timer.h>, <linux/workqueue.h>, <linux/proc_fs.h>, <linux/uaccess.h>) and the USB
-- core with the board behind it (<linux/usb.h>). The drivers' models take a `Machine` as a parameter;
-- a theorem that rests on what these calls do names one of the law records as a hypothesis.
pub mod Bench
use device_drivers_lab_proje.Prelude.{
  ℕ, ◌+◌, ◌<◌, ◌≤◌, ◌≡◌, ◌≢◌, Bool, true, false, Option, none, some, List, [], ◌∷◌, ◌++◌, take,
  drop, length,
}
use device_drivers_lab_proje.Prelude.Int.{ℤ, pos, is_negative}

-- What `sscanf(buf, "%31s %ld", cmd, &val)` converts.
pub data Scan : Type 0 where
  nothing : Scan
  word : List ℕ → Scan
  word_number : List ℕ → ℤ → Scan

pub record Machine : Type 1 where
  pub World : Type 0
  -- the one timer and the one work item of the extension
  pub jiffies : World → ℕ
  pub msecs_to_jiffies : ℕ → ℕ
  pub mod_timer : ℕ → World → World
  pub timer_delete : World → World
  pub timer_expire : World → World
  pub schedule_work : World → World
  pub cancel_work : World → World
  pub work_start : World → World
  pub msleep : ℤ → World → World
  -- whether `proc_create_data` succeeded
  pub proc_create : World → Bool × World
  pub remove_proc_entry : World → World
  pub sscanf : List ℕ → Scan
  -- `usb_control_msg` by request number: the status, the value read, the world after
  pub control_in : ℕ → World → ℤ × ℤ × World
  pub control_out : ℕ → ℤ → World → ℤ × World
  -- `usb_interrupt_msg` by endpoint: the status, the length or the bytes transferred
  pub interrupt_out : ℕ → List ℕ → World → ℤ × ℕ × World
  pub interrupt_in : ℕ → ℕ → World → ℤ × List ℕ × World
  -- the bytes `n` from offset `i` of the caller's buffer; none on a fault
  pub copy_from_user : ℕ → ℕ → World → Option (List ℕ)
  -- none on a fault
  pub copy_to_user : List ℕ → World → Option World
  -- what can be observed
  pub timer_expiry : World → Option ℕ
  pub work_queued : World → Bool
  pub control_log : World → List (ℕ × ℤ)
  pub bytes_out : World → List ℕ
  pub bytes_user : World → List ℕ

-- A timer is pending from `mod_timer` until it expires or is deleted, and work is queued from
-- `schedule_work` until it starts or is cancelled. Neither call touches the other's state.
pub record TimerLaws (m : Machine) : Type 0 where
  pub armed : (e : ℕ) (w : m.World) → m.timer_expiry (m.mod_timer e w) ≡ some e
  pub deleted : (w : m.World) → m.timer_expiry (m.timer_delete w) ≡ none
  pub expired : (w : m.World) → m.timer_expiry (m.timer_expire w) ≡ none
  pub mod_timer-queued : (e : ℕ) (w : m.World) → m.work_queued (m.mod_timer e w) ≡ m.work_queued w
  pub delete-queued : (w : m.World) → m.work_queued (m.timer_delete w) ≡ m.work_queued w
  pub expire-queued : (w : m.World) → m.work_queued (m.timer_expire w) ≡ m.work_queued w

pub record WorkLaws (m : Machine) : Type 0 where
  pub scheduled : (w : m.World) → m.work_queued (m.schedule_work w) ≡ true
  pub cancelled : (w : m.World) → m.work_queued (m.cancel_work w) ≡ false
  pub started : (w : m.World) → m.work_queued (m.work_start w) ≡ false
  pub schedule-expiry : (w : m.World) → m.timer_expiry (m.schedule_work w) ≡ m.timer_expiry w
  pub cancel-expiry : (w : m.World) → m.timer_expiry (m.cancel_work w) ≡ m.timer_expiry w
  pub msleep-queued : (d : ℤ) (w : m.World) → m.work_queued (m.msleep d w) ≡ m.work_queued w
  pub control-queued :
      (r : ℕ) (v : ℤ) (w : m.World) → m.work_queued (m.control_out r v w).1 ≡ m.work_queued w

-- Control messages reach the board in the order in which they are sent.
pub record ControlLaws (m : Machine) : Type 0 where
  pub logged :
      (r : ℕ) (v : ℤ) (w : m.World)
      → m.control_log (m.control_out r v w).1 ≡ m.control_log w ++ ((r, v) ∷ [])
  pub msleep-log : (d : ℤ) (w : m.World) → m.control_log (m.msleep d w) ≡ m.control_log w

-- A transfer to the board that succeeds sends a prefix of the bytes, at least one if there is one; one
-- that fails returns a negative number.
-- What happens on the way to it, of the calls that `ddk_write` makes, sends no bytes.
pub record OutLaws (m : Machine) (user : List ℕ) : Type 0 where
  pub read_user :
      (i n : ℕ) (w : m.World) {bs : List ℕ}
      → m.copy_from_user i n w ≡ some bs
      → bs ≡ take n (drop i user)
  pub sent :
      (e : ℕ) (bs : List ℕ) (w : m.World)
      → (m.interrupt_out e bs w).0 ≡ pos 0
      → m.bytes_out (m.interrupt_out e bs w).2 ≡ m.bytes_out w ++ take (m.interrupt_out e bs w).1 bs
  pub no_more :
      (e : ℕ) (bs : List ℕ) (w : m.World)
      → (m.interrupt_out e bs w).0 ≡ pos 0
      → (m.interrupt_out e bs w).1 ≤ length bs
  pub progress :
      (e : ℕ) (bs : List ℕ) (w : m.World)
      → (m.interrupt_out e bs w).0 ≡ pos 0
      → 0 < length bs
      → 0 < (m.interrupt_out e bs w).1
  pub failed :
      (e : ℕ) (bs : List ℕ) (w : m.World)
      → (m.interrupt_out e bs w).0 ≢ pos 0
      → is_negative (m.interrupt_out e bs w).0 ≡ true
  pub control-bytes :
      (r : ℕ) (v : ℤ) (w : m.World) → m.bytes_out (m.control_out r v w).1 ≡ m.bytes_out w
  pub msleep-bytes : (d : ℤ) (w : m.World) → m.bytes_out (m.msleep d w) ≡ m.bytes_out w
  pub mod_timer-bytes : (e : ℕ) (w : m.World) → m.bytes_out (m.mod_timer e w) ≡ m.bytes_out w
  pub schedule-bytes : (w : m.World) → m.bytes_out (m.schedule_work w) ≡ m.bytes_out w

-- What reaches the caller's buffer, and which calls leave it alone. A transfer from the board
-- brings at most the bytes asked for.
pub record InLaws (m : Machine) : Type 0 where
  pub written :
      (bs : List ℕ) (w : m.World) {v : m.World}
      → m.copy_to_user bs w ≡ some v
      → m.bytes_user v ≡ m.bytes_user w ++ bs
  pub received :
      (e n : ℕ) (w : m.World)
      → (m.interrupt_in e n w).0 ≡ pos 0
      → length (m.interrupt_in e n w).1 ≤ n
  pub in-user : (e n : ℕ) (w : m.World) → m.bytes_user (m.interrupt_in e n w).2 ≡ m.bytes_user w
  pub control-user :
      (r : ℕ) (v : ℤ) (w : m.World) → m.bytes_user (m.control_out r v w).1 ≡ m.bytes_user w
