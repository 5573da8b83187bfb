-- ===== src/Shortprint/Setup.antt =====
-- Loading the printer driver (shortprint/shortprint.c, `shortp_init` and `shortp_cleanup`).
use device_drivers_lab_proje.Prelude.{ℕ, Bool, true, false, if◌then◌else◌, ◌==◌}
use device_drivers_lab_proje.Prelude.Int.{ℤ, pos, negsuc, is_negative, eqb_ℤ, enodev}

-- What the driver holds of the kernel's: its ports, its major number, its work queue with the two pages, and
-- its interrupt line.
pub record Held : Type 0 where
  pub region : Bool
  pub chrdev : Bool
  pub queue : Bool
  pub irq : ℤ

abbrev pub nothing : Held
nothing = record { region = false; chrdev = false; queue = false; irq = negsuc 0 }

-- The interrupt line of a port, where none was asked for.
unfoldable pub default_irq : ℕ → ℤ → ℤ
default_irq base irq =
    if is_negative irq
    then if base == 0x378
      then pos 7
      else if base == 0x278
      then pos 2
      else if base == 0x3bc
      then pos 5
      else irq
    else irq

unfoldable pub shortp_cleanup : Held → Held
shortp_cleanup held = nothing

-- By whether the ports are free, and what `register_chrdev` and `request_irq` return.
unfoldable pub shortp_init : ℕ → ℤ → Bool → ℤ → ℤ → ℤ × Held
unfolding default_irq shortp_cleanup
shortp_init base irq ports registered requested =
    let line = default_irq base irq in
    let held : Held = record { region = true; chrdev = true; queue = true; irq = line } in
    if ports
    then if is_negative registered
      then (registered, nothing)
      else if eqb_ℤ requested (pos 0)
      then (pos 0, held)
      else (requested, shortp_cleanup (record held { irq = negsuc 0 }))
    else (enodev, nothing)
