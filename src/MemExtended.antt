-- ===== src/MemExtended.antt =====
-- The extended USB memory driver (misc-modules/ddk_mem_extended.c): as ddk_mem.c, but a read and a
-- write start at offsets that the ioctl sets for the whole module, and nothing is reported to the
-- extension.
pub mod Same
mod Tests
use device_drivers_lab_proje.Prelude.{
  ℕ, zero, suc, ◌+◌, ◌-◌, ◌^◌, Bool, true, false, Option, none, some, List, [], ◌∷◌, ◌++◌,
  if◌then◌else◌, leb, ltb, min, ◌==◌, length, take, drop,
}
use device_drivers_lab_proje.Prelude.Int.{
  ℤ, pos, negsuc, pos_part, ◌+ℤ◌, is_negative, ltb_ℤ, eqb_ℤ, to_int, to_short, residue, signed,
  int_bytes, efault, einval, enodev, enomem,
}
use device_drivers_lab_proje.Machine.{Machine}
use device_drivers_lab_proje.Mem.{
  OpenFile, Direction, e_read, e_write, rq_set_offset, rq_get_offset, custom_rq_get_mem_size,
}
use device_drivers_lab_proje.Mem.Read.{shift_loop}
use device_drivers_lab_proje.Mem.Seek.{clamp, Whence, seek_set, seek_cur, seek_end, seek_other}

-- `struct ddk_device`, less the pointers into the USB core, with the module's `read_off` and
-- `write_off`. `locked` is the mutex.
pub record ExtendedDevice : Type 0 where
  pub locked : Bool
  pub open_cnt : ℤ
  pub in_ep : ℕ
  pub out_ep : ℕ
  pub in_buf_size : ℕ
  pub out_buf_size : ℕ
  pub read_off : ℤ
  pub write_off : ℤ

-- `(int)*buf` of a `char`.
abbrev pub to_signed_char : ℤ → ℤ
to_signed_char v = signed (2 ^ 7) (residue (2 ^ 8) v)

-- The commands that `ddk_ioctl` knows, and all the others.
pub data ExtendedCommand : Type 0 where
  led_get led_set wr_off_set rd_off_set rd_off_get wr_off_get mem_size_get other : ExtendedCommand

-- What a file operation returns and leaves.
pub record Result (m : Machine) : Type 0 where
  pub status : ℤ
  pub file : OpenFile
  pub world : m.World

module _ (m : Machine) where
  open m use {
    World, control_in, control_out, interrupt_out, interrupt_in, copy_from_user, copy_to_user,
    msleep,
  }

  unfoldable pub get_size : World → ℤ × World
  get_size w =
      let (retval, val, w') = control_in custom_rq_get_mem_size w in
      (if is_negative retval then retval else to_short val, w')

  unfoldable pub get_off : Direction → World → ℤ × World
  get_off dir w =
      let (retval, val, w') = control_in (rq_get_offset dir) w in
      (if is_negative retval then retval else to_signed_char val, w')

  unfoldable pub set_off : Direction → ℤ → World → ℤ × World
  set_off dir offset w = control_out (rq_set_offset dir) offset w

  -- With the mutex held and the size of the IN endpoint known; none for `ddf` is no memory. The open
  -- count grows where both offsets were set.
  unfoldable pub open_locked :
      Option (List ℕ) → ExtendedDevice → World → ℤ × ExtendedDevice × Option OpenFile × World
  open_locked none dev w = (enomem, dev, none, w)
  open_locked (some buffer) dev w =
      let f : OpenFile = record { in_buf = buffer; in_buf_left_over = 0; f_pos = 0 } in
      let unlocked : ExtendedDevice = record dev { locked = false } in
      let (r1, w1) = set_off e_read (pos 0) w in
      let (r2, w2) = set_off e_write (pos 0) w1 in
      if is_negative r1
      then (r1, unlocked, some f, w1)
      else if is_negative r2
      then (r2, unlocked, some f, w2)
      else (pos 0, record unlocked { open_cnt = dev.open_cnt +ℤ pos 1 }, some f, w2)

  -- By the data that the interface has; none while the mutex is held.
  unfoldable pub ddk_open :
      Option ExtendedDevice
      → Option (List ℕ)
      → World
      → Option (ℤ × Option ExtendedDevice × Option OpenFile × World)
  ddk_open none buffer w = some (enodev, none, none, w)
  ddk_open (some dev) buffer w =
      let (r, dev', f, w') = open_locked buffer (record dev { locked = true }) w in
      if dev.locked
      then none
      else if dev.in_buf_size == 0
      then some (enodev, some dev, none, w)
      else some (r, some dev', f, w')

  unfoldable pub ddk_close : ExtendedDevice → ExtendedDevice
  ddk_close dev = record dev { open_cnt = dev.open_cnt +ℤ negsuc 0 }

  -- The `while` loop, on fuel: the error that ends it, or the bytes written; none without fuel.
  unfoldable pub write_loop : ℕ → ExtendedDevice → ℕ → ℕ → World → Option (Option ℤ × ℕ × World)
  write_loop zero dev cnt wrote_cnt w = none
  write_loop (suc fuel) dev cnt wrote_cnt w =
      let body : Option (Option ℤ × ℕ × World) =
        elim (copy_from_user wrote_cnt (min dev.out_buf_size (cnt - wrote_cnt)) w) [
          | none ↦ some (some efault, wrote_cnt, w)
          | some chunk ↦
              let (retval, wrote_size, w') = interrupt_out dev.out_ep chunk w in
              let rest = write_loop fuel dev cnt (wrote_cnt + wrote_size) w' in
              if eqb_ℤ retval (pos 0) then rest else some (some retval, wrote_cnt, w')
        ] in
      if leb cnt wrote_cnt then some (none, wrote_cnt, w) else body

  -- Behind the loop: the position moves, and the read offset follows it.
  abbrev pub after_loop : OpenFile → Option ℤ × ℕ × World → Result m
  after_loop f (some e, wrote_cnt, w) = record { status = e; file = f; world = w }
  after_loop f (none, wrote_cnt, w) =
      let f' = record f { f_pos = f.f_pos + wrote_cnt } in
      let (retval, w') = set_off e_read (to_int (pos f'.f_pos)) (msleep (pos 100) w) in
      record {
        status = if is_negative retval then retval else pos wrote_cnt;
        file = f';
        world = w';
      }

  unfoldable pub ddk_write : ℕ → ℕ → OpenFile → ExtendedDevice → World → Option (Result m)
  ddk_write fuel cnt f dev w =
      let (retval, w') = set_off e_write dev.write_off w in
      if is_negative retval
      then some (record { status = retval; file = f; world = w' })
      else elim (write_loop fuel dev cnt 0 w') [ none ↦ none | some end ↦ some (after_loop f end) ]

  abbrev pub copied : ℕ → ℕ → ℕ → OpenFile → World → Option World → Result m
  copied cnt read_size read_cnt f w none = record {
    status = efault;
    file = record f { in_buf_left_over = read_size };
    world = w;
  }
  copied cnt read_size read_cnt f w (some w') = record {
    status = pos read_cnt;
    file = record f {
      in_buf = shift_loop cnt cnt (read_size - cnt) f.in_buf;
      in_buf_left_over = if ltb cnt read_size then read_size - cnt else 0;
      f_pos = f.f_pos + read_cnt;
    };
    world = w';
  }

  unfoldable pub deliver : ℕ → ℕ → OpenFile → World → Result m
  deliver cnt read_size f w =
      let read_cnt = if leb read_size cnt then read_size else cnt in
      copied cnt read_size read_cnt f w (copy_to_user (take read_cnt f.in_buf) w)

  -- The transfer, from `read_off`.
  unfoldable pub fetch : ℕ → OpenFile → ExtendedDevice → World → Result m
  fetch cnt f dev w =
      let (r1, w1) = set_off e_read dev.read_off w in
      let (r2, packet, w2) = interrupt_in dev.in_ep dev.in_buf_size w1 in
      let f' = record f { in_buf = packet ++ drop (length packet) f.in_buf } in
      let (r3, w3) = set_off e_write (to_int (pos (f.f_pos + length packet))) w2 in
      if is_negative r1
      then record { status = r1; file = f; world = w1 }
      else if eqb_ℤ r2 (pos 0)
      then if is_negative r3
        then record { status = r3; file = f'; world = w3 }
        else deliver cnt (length packet) f' w3
      else record { status = r2; file = f'; world = w2 }

  unfoldable pub ddk_read : ℕ → OpenFile → ExtendedDevice → World → Result m
  ddk_read cnt f dev w =
      if f.in_buf_left_over == 0
      then fetch cnt f dev w
      else deliver cnt f.in_buf_left_over (record f { in_buf_left_over = 0 }) w

  -- From `if (offset < 0)` on.
  unfoldable pub move_to : ℤ → OpenFile → World → Result m
  move_to offset f w =
      let (r1, w1) = set_off e_read (to_int offset) w in
      let (r2, w2) = set_off e_write (to_int offset) w1 in
      if is_negative r1
      then record { status = r1; file = f; world = w1 }
      else if is_negative r2
      then record { status = r2; file = f; world = w2 }
      else record { status = offset; file = record f { f_pos = pos_part offset }; world = w2 }

  -- The `switch`, with the size of the memory.
  unfoldable pub seek_from : ℤ → ℤ → Whence → OpenFile → World → Result m
  seek_from size offset seek_set f w = move_to (clamp size offset) f w
  seek_from size offset seek_cur f w =
      let (cur, w') = get_off e_read w in
      if is_negative cur
      then record { status = cur; file = f; world = w' }
      else move_to (clamp size (offset +ℤ cur)) f w'
  seek_from size offset seek_end f w = move_to (clamp size (offset +ℤ size)) f w
  seek_from size offset seek_other f w = record { status = einval; file = f; world = w }

  unfoldable pub ddk_llseek : ℤ → Whence → OpenFile → World → Result m
  ddk_llseek offset whence f w =
      let (size, w') = get_size w in
      if is_negative size
      then record { status = size; file = f; world = w' }
      else seek_from size offset whence f w'

  -- A value got from the board goes to the caller, an error is returned.
  abbrev pub hand_over : ℤ × World → ℤ × World
  hand_over (retval, w) =
      if is_negative retval
      then (retval, w)
      else elim (copy_to_user (int_bytes retval) w) [ none ↦ (efault, w) | some w' ↦ (pos 0, w') ]

  abbrev pub checked : ExtendedDevice → ℤ × World → ℤ × ExtendedDevice × World
  checked dev (retval, w) = (if is_negative retval then retval else pos 0, dev, w)

  abbrev pub with_dev : ExtendedDevice → ℤ × World → ℤ × ExtendedDevice × World
  with_dev dev (r, w) = (r, dev, w)

  -- The offsets of the module are set before the board's, whether that succeeds or not. The LED's
  -- requests are numbers 1 and 2.
  unfoldable pub ddk_ioctl :
      ExtendedCommand → ℤ → ExtendedDevice → World → ℤ × ExtendedDevice × World
  ddk_ioctl led_get arg dev w =
      let (retval, val, w') = control_in 2 w in
      if is_negative retval
      then (retval, dev, w')
      else elim (copy_to_user (int_bytes (to_signed_char val)) w') [
        | none ↦ (efault, dev, w')
        | some w'' ↦ (pos 0, dev, w'')
      ]
  ddk_ioctl led_set arg dev w = checked dev (control_out 1 (to_signed_char arg) w)
  ddk_ioctl wr_off_set arg dev w =
      checked (record dev { write_off = to_int arg }) (set_off e_write (to_int arg) w)
  ddk_ioctl rd_off_set arg dev w =
      checked (record dev { read_off = to_int arg }) (set_off e_read (to_int arg) w)
  ddk_ioctl rd_off_get arg dev w = with_dev dev (hand_over (get_off e_read w))
  ddk_ioctl wr_off_get arg dev w = with_dev dev (hand_over (get_off e_write w))
  ddk_ioctl mem_size_get arg dev w = with_dev dev (hand_over (get_size w))
  ddk_ioctl other arg dev w = (einval, dev, w)
