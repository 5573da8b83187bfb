-- ===== src/Mem/Ioctl.antt =====
-- `ddk_ioctl` (misc-modules/ddk_mem.c, ddk_mem.h).
use device_drivers_lab_proje.Prelude.{none, some, if◌then◌else◌}
use device_drivers_lab_proje.Prelude.Int.{int_bytes, ℤ, pos, is_negative, to_int, efault, einval}
use device_drivers_lab_proje.Machine.{Machine}
use device_drivers_lab_proje.Mem.{e_read, e_write, set_off, get_off, get_size}

-- The commands of ddk_mem.h that `ddk_ioctl` knows, and all the others.
pub data Command : Type 0 where
  rd_off_get wr_off_get mem_size_get : Command
  rd_off_set wr_off_set : Command
  other : Command

module _ (m : Machine) where
  open m use {World, copy_to_user}

  -- A value got from the board goes to the caller, an error is returned.
  unfoldable pub hand_over : ℤ × World → ℤ × World
  hand_over (retval, w) =
      if is_negative retval
      then (retval, w)
      else elim (copy_to_user (int_bytes retval) w) [ none ↦ (efault, w) | some w' ↦ (pos 0, w') ]

  unfoldable pub checked_set : ℤ × World → ℤ × World
  checked_set (retval, w) = (if is_negative retval then retval else pos 0, w)

  unfoldable pub ddk_ioctl : Command → ℤ → World → ℤ × World
  unfolding hand_over checked_set
  ddk_ioctl rd_off_get arg w = hand_over (get_off m e_read w)
  ddk_ioctl rd_off_set arg w = checked_set (set_off m e_read (to_int arg) w)
  ddk_ioctl wr_off_get arg w = hand_over (get_off m e_write w)
  ddk_ioctl wr_off_set arg w = checked_set (set_off m e_write (to_int arg) w)
  ddk_ioctl mem_size_get arg w = hand_over (get_size m w)
  ddk_ioctl other arg w = (einval, w)
