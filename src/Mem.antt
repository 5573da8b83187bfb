-- ===== src/Mem.antt =====
-- The USB memory driver (misc-modules/ddk_mem.c, ddk.h, ddk_mem.h): its structures and the control
-- messages; the children model and prove one file operation each.
pub mod Open
pub mod Write
pub mod Read
pub mod Seek
pub mod Ioctl
mod Tests
use device_drivers_lab_proje.Prelude.{
  ℕ, ◌+◌, ◌%◌, ◌^◌, ◌*◌, Bool, true, false, List, [], ◌∷◌, if◌then◌else◌, take, drop, length,
}
use device_drivers_lab_proje.Prelude.Int.{to_short, ℤ, pos, is_negative, signed, residue}
use device_drivers_lab_proje.Machine.{Machine}
use device_drivers_lab_proje.Ext.{ExtState}

-- `struct ddk_device`, less the pointers into the USB core. `locked` is the mutex `m`.
pub record Device : Type 0 where
  pub locked : Bool
  pub open_cnt : ℤ
  pub in_ep : ℕ
  pub out_ep : ℕ
  pub in_buf_size : ℕ
  pub out_buf_size : ℕ
  pub ext : ExtState

-- `struct ddk_device_file`, less `out_buf`, which only carries a chunk from `copy_from_user` to the
-- transfer behind it; and `f_pos` of the open file.
pub record OpenFile : Type 0 where
  pub in_buf : List ℕ
  pub in_buf_left_over : ℕ
  pub f_pos : ℕ

pub data Direction : Type 0 where
  e_read e_write : Direction

abbrev pub custom_rq_set_mem_rd_offset : ℕ
custom_rq_set_mem_rd_offset = 3

abbrev pub custom_rq_get_mem_rd_offset : ℕ
custom_rq_get_mem_rd_offset = 4

abbrev pub custom_rq_set_mem_wr_offset : ℕ
custom_rq_set_mem_wr_offset = 5

abbrev pub custom_rq_get_mem_wr_offset : ℕ
custom_rq_get_mem_wr_offset = 6

abbrev pub custom_rq_get_mem_size : ℕ
custom_rq_get_mem_size = 7

abbrev pub rq_set_offset : Direction → ℕ
rq_set_offset e_read = custom_rq_set_mem_rd_offset
rq_set_offset e_write = custom_rq_set_mem_wr_offset

abbrev pub rq_get_offset : Direction → ℕ
rq_get_offset e_read = custom_rq_get_mem_rd_offset
rq_get_offset e_write = custom_rq_get_mem_wr_offset

-- What a file operation returns and leaves.
pub record Outcome (m : Machine) : Type 0 where
  pub status : ℤ
  pub file : OpenFile
  pub device : Device
  pub world : m.World

module _ (m : Machine) where
  open m use {World, control_in, control_out}

  unfoldable pub get_size : World → ℤ × World
  get_size w =
      let (retval, val, w') = control_in custom_rq_get_mem_size w in
      (if is_negative retval then retval else to_short val, w')

  unfoldable pub get_off : Direction → World → ℤ × World
  get_off dir w =
      let (retval, val, w') = control_in (rq_get_offset dir) w in
      (if is_negative retval then retval else to_short val, w')

  unfoldable pub set_off : Direction → ℤ → World → ℤ × World
  set_off dir offset w = control_out (rq_set_offset dir) offset w
