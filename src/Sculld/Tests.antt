-- ===== src/Sculld/Tests.antt =====
-- Tests of Sculld.antt: groups of two pages, and a write across the end of the first page of the second
-- item.
use device_drivers_lab_proje.Prelude.{◌≡◌, refl, arith, true, false, none, [], ◌∷◌, replicate}
use device_drivers_lab_proje.Prelude.Int.{pos}
use device_drivers_lab_proje.Paged.{crash, overrun, Globals}
use device_drivers_lab_proje.Paged.Module.{set_up}
use device_drivers_lab_proje.Sculld.{sculld_write, sculld_write-overrun}

abbrev globals : Globals
globals = record { unit = pos 1; qset = pos 1 }

sculld_write-overrun_example :
    sculld_write globals false none
      (true ∷ true ∷ true ∷ [])
      (λ i. 0)
      (set_up globals)
      (replicate 10 5)
      12282
    ≡ crash overrun
sculld_write-overrun_example =
    sculld_write-overrun globals (λ i. 0) (set_up globals) (replicate 10 5) 12282 0 [] refl
      (omega arith) (omega arith) refl (omega arith) (omega arith)
