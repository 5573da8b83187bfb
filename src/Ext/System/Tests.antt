-- ===== src/Ext/System/Tests.antt =====
-- Runs of the whole extension (misc-modules/ddk_usb_ext.c) on the test machine, and of its functions
-- for the write path.
use device_drivers_lab_proje.Prelude.{ℕ, ◌≡◌, refl, arith, true, false, some, [], ◌∷◌, codes}
use device_drivers_lab_proje.Prelude.Int.{pos}
use device_drivers_lab_proje.Machine.{nothing, word_number}
use device_drivers_lab_proje.Machine.Bench.{fresh, bench-TimerLaws, bench-WorkLaws}
use device_drivers_lab_proje.Ext.Samples.{typed, quiet, idle, enabled}
use device_drivers_lab_proje.Ext.{queue_blink, note_success}
use device_drivers_lab_proje.Ext.System.{
  System, Reach, here, next, succeed, queue, waiting, asleep, checked,
}
use device_drivers_lab_proje.Ext.System.Invariant.{IsConsistent, Reach-IsConsistent}
use device_drivers_lab_proje.Ext.System.Race.{disabled_timer_armed}

abbrev at_rest : System quiet
at_rest = record { ext = idle; world = fresh; worker = asleep; callback = waiting; writers = [] }

at_rest-IsConsistent : IsConsistent quiet at_rest
at_rest-IsConsistent = record {
  due = λ set. absurd (ground arith);
  queued = λ on. absurd (ground arith);
  begun = λ on. absurd (ground arith);
}

-- A write has succeeded, with the timer disabled, and its report has queued the work item.
abbrev counted : System quiet
counted = record at_rest { ext = note_success 12 idle; writers = (false, 1000) ∷ [] }

abbrev reported : System quiet
reported = record counted {
  ext = (queue_blink quiet counted.ext counted.world).0;
  world = (queue_blink quiet counted.ext counted.world).1;
  writers = [];
}

reported-Reach : Reach quiet at_rest reported
reported-Reach = next (next here (succeed at_rest 12)) (queue counted [] [] 1000 refl)

Reach-IsConsistent_example : IsConsistent quiet reported
Reach-IsConsistent_example =
    Reach-IsConsistent quiet (bench-TimerLaws [] (λ buf. nothing))
      (bench-WorkLaws [] (λ buf. nothing)) at_rest-IsConsistent reported-Reach

-- The callback has just read that the timer is enabled, and "timer 0" is written.
abbrev caught : System (typed (codes "timer") (pos 0))
caught = record {
  ext = enabled;
  world = fresh;
  worker = asleep;
  callback = checked true;
  writers = [];
}

disabled_timer_armed_example :
    (u : System (typed (codes "timer") (pos 0))) × Reach (typed (codes "timer") (pos 0)) caught u
    × (u.ext.timer_enabled ≡ false)
    × ((e : ℕ) × (u.world.expiry ≡ some e))
disabled_timer_armed_example =
    disabled_timer_armed (typed (codes "timer") (pos 0)) caught 8 (pos 0)
      (bench-TimerLaws (codes "timer") (λ buf. word_number (codes "timer") (pos 0))) refl
      (codes "timer", refl, refl)
