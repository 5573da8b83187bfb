-- ===== src/Led.antt =====
-- The LED driver (misc-modules/ddk_led.c, ddk_led.h, ddk.h): one control message for each call.
pub mod Offset
use device_drivers_lab_proje.Prelude.{
  ℕ, suc, ◌+◌, ◌^◌, ◌≡◌, refl, arith, true, false, Bool, Option, none, some, List, [], ◌∷◌,
  if◌then◌else◌, ◌==◌, length,
}
use device_drivers_lab_proje.Prelude.Int.{
  ℤ, pos, is_negative, signed, residue, to_int, int_bytes, eqb_ℤ, efault, einval,
}
use device_drivers_lab_proje.Machine.{Machine}

abbrev pub custom_rq_set_led_status : ℕ
custom_rq_set_led_status = 1

abbrev pub custom_rq_get_led_status : ℕ
custom_rq_get_led_status = 2

-- A byte read into a `char`.
abbrev pub to_char : ℤ → ℤ
to_char v = signed (2 ^ 7) (residue (2 ^ 8) v)

-- `DDK_LED_GET`, `DDK_LED_SET`, and any other command.
pub data LedCommand : Type 0 where
  led_get led_set led_other : LedCommand

-- What `ddk_probe` does with an interface: it takes those without endpoints only, and then its
-- result is that of `usb_register_dev`.
unfoldable pub led_probe : ℕ → ℤ → ℤ × Bool
led_probe endpoints registered =
    if endpoints == 0
    then if eqb_ℤ registered (pos 0) then (pos 0, true) else (registered, false)
    else (einval, false)

module _ (m : Machine) where
  open m use {World, control_in, control_out, copy_to_user}

  unfoldable pub ddk_led_ctrl : ℤ → World → ℤ × World
  ddk_led_ctrl val w = control_out custom_rq_set_led_status val w

  -- What `DDK_LED_GET` does with the answer of the board.
  abbrev pub give_status : ℤ → World → Option World → ℤ × World
  give_status retval w none = (efault, w)
  give_status retval w (some w') = (pos 0, w')

  -- `ddk_ioctl`, with the number of buffers that the driver has allocated and not freed. `buf` is
  -- the one that `kmalloc` gives.
  unfoldable pub led_ioctl : LedCommand → ℤ → ℕ × World → ℤ × ℕ × World
  led_ioctl led_get arg (live, w) =
      let (retval, val, w1) = control_in custom_rq_get_led_status w in
      let (e, w2) = give_status retval w1 (copy_to_user (int_bytes (to_char val)) w1) in
      if is_negative retval then (retval, live + 1, w1) else (e, live + 1, w2)
  led_ioctl led_set arg (live, w) =
      let (retval, w1) = control_out custom_rq_set_led_status (to_int arg) w in
      (if is_negative retval then retval else pos 0, live + 1, w1)
  led_ioctl led_other arg (live, w) = (einval, live + 1, w)

  unfoldable pub led_calls : List (LedCommand × ℤ) → ℕ × World → ℕ × World
  led_calls [] s = s
  led_calls ((c, arg) ∷ cs) s = let (e, live, w) = led_ioctl c arg s in led_calls cs (live, w)

  led_ioctl-live :
      (c : LedCommand) (arg : ℤ) (live : ℕ) (w : World) → (led_ioctl c arg (live, w)).1 ≡ suc live
  unfolding led_ioctl
  led_ioctl-live led_get arg live w = ground arith
  led_ioctl-live led_set arg live w = ground arith
  led_ioctl-live led_other arg live w = ground arith

  -- The ioctl frees none of its buffers: whatever calls are made, and whether they succeed or not,
  -- there are as many buffers more as there were calls.
  led_calls_leak :
      (cs : List (LedCommand × ℤ)) (live : ℕ) (w : World)
      → (led_calls cs (live, w)).0 ≡ live + length cs
  unfolding led_calls
  led_calls_leak [] live w = omega arith
  led_calls_leak ((c, arg) ∷ cs) live w =
      let (e, n, v) = led_ioctl c arg (live, w) in
      omega (arith, led_calls_leak cs n v, led_ioctl-live c arg live w)
