-- ===== src/Ext/Samples.antt =====
-- Machines and states for the tests of the drivers.
use device_drivers_lab_proje.Prelude.{ℕ, true, false, some, List, []}
use device_drivers_lab_proje.Prelude.Int.{ℤ, pos, negsuc}
use device_drivers_lab_proje.Machine.{Machine, nothing, word_number}
use device_drivers_lab_proje.Machine.Bench.{BenchWorld, fresh, bench}
use device_drivers_lab_proje.Ext.{ExtState}

-- A process writes `cmd`, and `sscanf` reads it with the number `val`.
abbrev pub typed : List ℕ → ℤ → Machine
typed cmd val = bench cmd (λ buf. word_number cmd val)

abbrev pub quiet : Machine
quiet = bench [] (λ buf. nothing)

abbrev pub idle : ExtState
idle = record {
  total_usb_success = 4;
  total_usb_fail = 1;
  total_blinks = 9;
  last_write_len = 8;
  timer_enabled = false;
  timer_interval_ms = 1000;
  blink_count = pos 3;
  blink_delay_ms = pos 200;
  work_pending = false;
  proc_entry = true;
}

abbrev pub enabled : ExtState
enabled = record idle { timer_enabled = true }

abbrev pub backwards : ExtState
backwards = record idle { blink_count = negsuc 1 }

abbrev pub armed : BenchWorld
armed = record fresh { expiry = some 70 }
