-- ===== src/Led/Offset.antt =====
-- The LED driver with the commands for the offsets (misc-modules/ddk_led_WR_offset.c and
-- ddk_led_RD_offset.c). The cases for the LED are those of ddk_led.c, word for word.
use device_drivers_lab_proje.Prelude.{ℕ, ◌+◌, ◌==◌, Bool, true, false, if◌then◌else◌}
use device_drivers_lab_proje.Prelude.Int.{ℤ, pos, is_negative, to_int, eqb_ℤ, einval}
use device_drivers_lab_proje.Machine.{Machine}
use device_drivers_lab_proje.Mem.{Direction, e_read, e_write, rq_set_offset}
use device_drivers_lab_proje.Led.{LedCommand, led_ioctl}

-- `DDK_LED_GET` and `DDK_LED_SET`, `DDK_WR_OFF_SET`, `DDK_RD_OFF_SET`, and any other.
pub data OffsetCommand : Type 0 where
  led : LedCommand → OffsetCommand
  wr_off_set rd_off_set off_other : OffsetCommand

-- `ddk_probe`: those interfaces without endpoints are taken, with the result of
-- `usb_register_dev`.
unfoldable pub offset_probe : ℕ → ℤ → ℤ × Bool
offset_probe endpoints registered =
    if endpoints == 0
    then if eqb_ℤ registered (pos 0) then (pos 0, true) else (registered, false)
    else (einval, false)

module _ (m : Machine) where
  open m use {World, control_out}

  unfoldable pub led_set_off : Direction → ℤ → World → ℤ × World
  led_set_off dir offset w = control_out (rq_set_offset dir) offset w

  -- The end of both cases that set an offset, with the buffer that the call has allocated.
  abbrev pub offset_set : ℕ → ℤ × World → ℤ × ℕ × World
  offset_set live (retval, w) = (if is_negative retval then retval else pos 0, live + 1, w)

  -- The ioctl of ddk_led_WR_offset.c, which does not know `DDK_RD_OFF_SET`.
  unfoldable pub wr_offset_ioctl : OffsetCommand → ℤ → ℕ × World → ℤ × ℕ × World
  unfolding led_set_off
  wr_offset_ioctl (led c) arg s = led_ioctl m c arg s
  wr_offset_ioctl wr_off_set arg (live, w) = offset_set live (led_set_off e_write (to_int arg) w)
  wr_offset_ioctl rd_off_set arg (live, w) = (einval, live + 1, w)
  wr_offset_ioctl off_other arg (live, w) = (einval, live + 1, w)

  -- The ioctl of ddk_led_RD_offset.c.
  unfoldable pub rd_offset_ioctl : OffsetCommand → ℤ → ℕ × World → ℤ × ℕ × World
  unfolding led_set_off
  rd_offset_ioctl (led c) arg s = led_ioctl m c arg s
  rd_offset_ioctl wr_off_set arg (live, w) = offset_set live (led_set_off e_write (to_int arg) w)
  rd_offset_ioctl rd_off_set arg (live, w) = offset_set live (led_set_off e_read (to_int arg) w)
  rd_offset_ioctl off_other arg (live, w) = (einval, live + 1, w)
