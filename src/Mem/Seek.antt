-- ===== src/Mem/Seek.antt =====
-- `ddk_llseek` (misc-modules/ddk_mem.c).
pub mod Laws
use device_drivers_lab_proje.Prelude.{if◌then◌else◌}
use device_drivers_lab_proje.Prelude.Int.{
  ℤ, pos, pos_part, ◌+ℤ◌, is_negative, ltb_ℤ, to_int, einval,
}
use device_drivers_lab_proje.Machine.{Machine}
use device_drivers_lab_proje.Mem.{
  Device, OpenFile, Outcome, e_read, e_write, set_off, get_off, get_size,
}

-- `whence`
pub data Whence : Type 0 where
  seek_set seek_cur seek_end seek_other : Whence

unfoldable pub clamp : ℤ → ℤ → ℤ
clamp size offset = if is_negative offset then pos 0 else if ltb_ℤ size offset then size else offset

module _ (m : Machine) where
  open m use {World}

  -- From `if (offset < 0)` on.
  unfoldable pub move_to : ℤ → OpenFile → Device → World → Outcome m
  move_to offset f dev w =
      let (r1, w1) = set_off m e_read (to_int offset) w in
      let (r2, w2) = set_off m e_write (to_int offset) w1 in
      if is_negative r1
      then record { status = r1; file = f; device = dev; world = w1 }
      else if is_negative r2
      then record { status = r2; file = f; device = dev; world = w2 }
      else record {
        status = offset;
        file = record f { f_pos = pos_part offset };
        device = dev;
        world = w2;
      }

  -- The `switch`, with the size of the memory.
  unfoldable pub seek_from : ℤ → ℤ → Whence → OpenFile → Device → World → Outcome m
  unfolding clamp move_to
  seek_from size offset seek_set f dev w = move_to (clamp size offset) f dev w
  seek_from size offset seek_cur f dev w =
      let (cur, w') = get_off m e_read w in
      if is_negative cur
      then record { status = cur; file = f; device = dev; world = w' }
      else move_to (clamp size (offset +ℤ cur)) f dev w'
  seek_from size offset seek_end f dev w = move_to (clamp size (offset +ℤ size)) f dev w
  seek_from size offset seek_other f dev w = record {
    status = einval;
    file = f;
    device = dev;
    world = w;
  }

  unfoldable pub ddk_llseek : ℤ → Whence → OpenFile → Device → World → Outcome m
  unfolding seek_from
  ddk_llseek offset whence f dev w =
      let (size, w') = get_size m w in
      if is_negative size
      then record { status = size; file = f; device = dev; world = w' }
      else seek_from size offset whence f dev w'
