-- ===== src/Mem/Write.antt =====
-- `ddk_write` (misc-modules/ddk_mem.c).
pub mod Laws
use device_drivers_lab_proje.Prelude.{
  ℕ, zero, suc, ◌+◌, ◌-◌, ◌≡◌, Bool, true, false, Option, none, some, List, if◌then◌else◌, leb, min,
}
use device_drivers_lab_proje.Prelude.Int.{ℤ, pos, is_negative, eqb_ℤ, to_int, efault}
use device_drivers_lab_proje.Machine.{Machine}
use device_drivers_lab_proje.Ext.{ddk_ext_on_write_success, ddk_ext_on_write_fail}
use device_drivers_lab_proje.Mem.{Device, OpenFile, Outcome, e_read, e_write, set_off}

module _ (m : Machine) where
  open m use {World, interrupt_out, copy_from_user, msleep}

  -- How the `while` loop ends: with all bytes sent, by a fault in the caller's buffer, or by a
  -- transfer that failed.
  pub data Sent : Type 0 where
    all_sent : ℕ → World → Sent
    user_fault : World → Sent
    transfer_failed : ℤ → World → Sent

  -- The `while` loop, on fuel, from `wrote_cnt` on; none if the fuel runs out.
  unfoldable pub write_loop : ℕ → Device → ℕ → ℕ → World → Option Sent
  write_loop zero dev cnt wrote_cnt w = none
  write_loop (suc fuel) dev cnt wrote_cnt w =
      let body : Option Sent =
        elim (copy_from_user wrote_cnt (min dev.out_buf_size (cnt - wrote_cnt)) w) [
          | none ↦ some (user_fault w)
          | some chunk ↦
              let (retval, wrote_size, w') = interrupt_out dev.out_ep chunk w in
              let rest = write_loop fuel dev cnt (wrote_cnt + wrote_size) w' in
              if eqb_ℤ retval (pos 0) then rest else some (transfer_failed retval w')
        ] in
      if leb cnt wrote_cnt then some (all_sent wrote_cnt w) else body

  -- Behind the loop.
  unfoldable pub after_loop : Device → OpenFile → Sent → Outcome m
  after_loop dev f (user_fault w) = record { status = efault; file = f; device = dev; world = w }
  after_loop dev f (transfer_failed retval w) = record {
    status = retval;
    file = f;
    device = record dev { ext = ddk_ext_on_write_fail dev.ext };
    world = w;
  }
  after_loop dev f (all_sent wrote_cnt w) =
      let f' = record f { f_pos = f.f_pos + wrote_cnt } in
      let (ext', w1) = ddk_ext_on_write_success m wrote_cnt dev.ext w in
      let (retval, w2) = set_off m e_read (to_int (pos f'.f_pos)) (msleep (pos 100) w1) in
      record {
        status = if is_negative retval then retval else pos wrote_cnt;
        file = f';
        device = record dev { ext = ext' };
        world = w2;
      }

  unfoldable pub ddk_write : ℕ → ℕ → OpenFile → Device → World → Option (Outcome m)
  ddk_write fuel cnt f dev w =
      let (retval, w') = set_off m e_write (to_int (pos f.f_pos)) w in
      if is_negative retval
      then some (record { status = retval; file = f; device = dev; world = w' })
      else elim (write_loop fuel dev cnt 0 w') [
        | none ↦ none
        | some end ↦ some (after_loop dev f end)
      ]
