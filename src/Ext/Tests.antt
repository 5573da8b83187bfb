-- ===== src/Ext/Tests.antt =====
-- Runs of the extension (misc-modules/ddk_usb_ext.c) on the test machine, and the theorems about it
-- at concrete inputs.
use device_drivers_lab_proje.Prelude.{◌+◌, ◌≡◌, refl, arith, false, [], ◌++◌, codes}
use device_drivers_lab_proje.Prelude.Int.{pos, to_u64}
use device_drivers_lab_proje.Machine.{nothing}
use device_drivers_lab_proje.Machine.Bench.{fresh, bench-ControlLaws}
use device_drivers_lab_proje.Ext.Samples.{typed, quiet, idle}
use device_drivers_lab_proje.Ext.{wrap64, ddk_proc_write, blink_worker}
use device_drivers_lab_proje.Ext.Protocol.{interval, ddk_proc_write-meaning}
use device_drivers_lab_proje.Ext.Blink.{on_off, blink_worker_lem}

ddk_proc_write-meaning_example :
    ddk_proc_write (typed (codes "interval") (pos 250)) 8 (pos 0) idle fresh
    ≡ (pos 8, record idle { timer_interval_ms = 250 }, fresh)
ddk_proc_write-meaning_example =
    ddk_proc_write-meaning (typed (codes "interval") (pos 250)) (interval 250) 8 (pos 0) idle fresh
      (omega arith, omega arith) (codes "interval", refl, refl)

blink_worker_lem_example :
    ((blink_worker quiet idle fresh).1.log ≡ [] ++ on_off 3)
    × ((blink_worker quiet idle fresh).0
        ≡ record idle { total_blinks = wrap64 (9 + to_u64 (pos 3)); work_pending = false })
blink_worker_lem_example = blink_worker_lem quiet idle fresh (bench-ControlLaws [] (λ buf. nothing))
