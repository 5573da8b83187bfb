-- ===== src/Scullc/Tests.antt =====
-- Tests of Scullc.antt: objects of 4 bytes, and a quantum of 8.
use device_drivers_lab_proje.Prelude.{◌≡◌, refl, arith, true, false, none, [], ◌∷◌}
use device_drivers_lab_proje.Prelude.Int.{pos}
use device_drivers_lab_proje.Paged.{crash, overrun, Globals}
use device_drivers_lab_proje.Paged.Module.{set_up}
use device_drivers_lab_proje.Scullc.{scullc_open, scullc_write, scullc_open-scullc_write}

abbrev old : Globals
old = record { unit = pos 4; qset = pos 2 }

abbrev raised : Globals
raised = record { unit = pos 8; qset = pos 2 }

scullc_open-scullc_write_example :
    scullc_write 4 raised false none
      (true ∷ true ∷ [])
      (λ i. 0)
      (scullc_open raised true false (set_up old)).1
      (1 ∷ [])
      3
    ≡ crash overrun
scullc_open-scullc_write_example =
    scullc_open-scullc_write 4 raised (set_up old) none (λ i. 0) (1 ∷ []) 3 [] refl (omega arith)
      (omega arith) (omega arith)
