-- ===== src/Mem/Read.antt =====
-- `ddk_read` (misc-modules/ddk_mem.c).
pub mod Shift
pub mod Laws
use device_drivers_lab_proje.Prelude.{
  ℕ, zero, suc, ◌+◌, ◌-◌, ◌≡◌, Bool, true, false, Option, none, some, List, ◌++◌, if◌then◌else◌,
  leb, ltb, min, ◌==◌, length, take, drop, set, get_or,
}
use device_drivers_lab_proje.Prelude.Int.{ℤ, pos, is_negative, eqb_ℤ, to_int, efault}
use device_drivers_lab_proje.Machine.{Machine}
use device_drivers_lab_proje.Mem.{Device, OpenFile, Outcome, e_read, e_write, set_off}

-- The `for` loop that moves the bytes from `cnt` on to the front, at `i` with `rounds` left.
unfoldable pub shift_loop : ℕ → ℕ → ℕ → List ℕ → List ℕ
shift_loop cnt i zero buf = buf
shift_loop cnt i (suc rounds) buf =
    shift_loop cnt (i + 1) rounds (set buf (i - cnt) (get_or buf i 0))

module _ (m : Machine) where
  open m use {World, interrupt_in, copy_to_user}

  -- Behind `copy_to_user`, with what it did: `read_size` bytes stand at the front of `in_buf`.
  abbrev pub copied : ℕ → ℕ → ℕ → OpenFile → Device → World → Option World → Outcome m
  copied cnt read_size read_cnt f dev w none = record {
    status = efault;
    file = record f { in_buf_left_over = read_size };
    device = dev;
    world = w;
  }
  copied cnt read_size read_cnt f dev w (some w') = record {
    status = pos read_cnt;
    file = record f {
      in_buf = shift_loop cnt cnt (read_size - cnt) f.in_buf;
      in_buf_left_over = if ltb cnt read_size then read_size - cnt else 0;
      f_pos = f.f_pos + read_cnt;
    };
    device = dev;
    world = w';
  }

  -- From `read_size <= cnt` on.
  unfoldable pub deliver : ℕ → ℕ → OpenFile → Device → World → Outcome m
  deliver cnt read_size f dev w =
      let read_cnt = if leb read_size cnt then read_size else cnt in
      copied cnt read_size read_cnt f dev w (copy_to_user (take read_cnt f.in_buf) w)

  -- The transfer, where nothing is left over.
  unfoldable pub fetch : ℕ → OpenFile → Device → World → Outcome m
  fetch cnt f dev w =
      let (r1, w1) = set_off m e_read (to_int (pos f.f_pos)) w in
      let (r2, packet, w2) = interrupt_in dev.in_ep dev.in_buf_size w1 in
      let f' = record f { in_buf = packet ++ drop (length packet) f.in_buf } in
      let (r3, w3) = set_off m e_write (to_int (pos (f.f_pos + length packet))) w2 in
      if is_negative r1
      then record { status = r1; file = f; device = dev; world = w1 }
      else if eqb_ℤ r2 (pos 0)
      then if is_negative r3
        then record { status = r3; file = f'; device = dev; world = w3 }
        else deliver cnt (length packet) f' dev w3
      else record { status = r2; file = f'; device = dev; world = w2 }

  unfoldable pub ddk_read : ℕ → OpenFile → Device → World → Outcome m
  ddk_read cnt f dev w =
      if f.in_buf_left_over == 0
      then fetch cnt f dev w
      else deliver cnt f.in_buf_left_over (record f { in_buf_left_over = 0 }) dev w
