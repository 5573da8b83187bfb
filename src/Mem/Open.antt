-- ===== src/Mem/Open.antt =====
-- Opening, closing, probing and disconnecting (misc-modules/ddk_mem.c). The USB core's answers, and
-- those of the allocator, are arguments.
pub mod Laws
use device_drivers_lab_proje.Prelude.{
  ℕ, ◌+◌, ◌%◌, Bool, true, false, Option, none, some, List, [], ◌∷◌, if◌then◌else◌, ◌==◌,
}
use device_drivers_lab_proje.Prelude.Int.{
  ℤ, pos, negsuc, ◌+ℤ◌, is_negative, eqb_ℤ, enodev, enomem, einval,
}
use device_drivers_lab_proje.Machine.{Machine}
use device_drivers_lab_proje.Ext.{ExtState, ddk_ext_init, ddk_ext_cleanup}
use device_drivers_lab_proje.Mem.{Device, OpenFile, e_read, e_write, set_off}

-- `usb_find_interface` and `usb_get_intfdata` of what it finds.
pub data Interface : Type 0 where
  not_found no_data : Interface
  bound : Device → Interface

-- `bEndpointAddress` and `wMaxPacketSize`
pub record Endpoint : Type 0 where
  pub address : ℕ
  pub max_packet : ℕ

abbrev pub mem_ep_in : ℕ
mem_ep_in = 0x81

abbrev pub mem_ep_out : ℕ
mem_ep_out = 0x01

-- The body of the `for` loop of `ddk_probe`. The mask of the endpoint's number has four bits.
unfoldable pub set_endpoint : Device → Endpoint → Device
set_endpoint dev e =
    let d1 =
      if e.address == mem_ep_in
      then record dev { in_ep = e.address % 16; in_buf_size = e.max_packet }
      else dev in
    if e.address == mem_ep_out
    then record d1 { out_ep = e.address % 16; out_buf_size = e.max_packet }
    else d1

unfoldable pub set_endpoints : Device → List Endpoint → Device
unfolding set_endpoint
set_endpoints dev [] = dev
set_endpoints dev (e ∷ es) = set_endpoints (set_endpoint dev e) es

module _ (m : Machine) where
  open m use {World}

  -- What `ddk_open` returns and leaves: the file is the private data that it has set.
  pub record Opened : Type 0 where
    pub status : ℤ
    pub device : Interface
    pub file : Option OpenFile
    pub world : World

  -- Behind `mutex_unlock`: both offsets are set to 0, and the open count grows.
  unfoldable pub reset_offsets : Device → OpenFile → World → Opened
  reset_offsets dev f w =
      let (r1, w1) = set_off m e_read (pos 0) w in
      let (r2, w2) = set_off m e_write (pos 0) w1 in
      if is_negative r1
      then record { status = r1; device = bound dev; file = some f; world = w1 }
      else if is_negative r2
      then record { status = r2; device = bound dev; file = some f; world = w2 }
      else record {
        status = pos 0;
        device = bound (record dev { open_cnt = dev.open_cnt +ℤ pos 1 });
        file = some f;
        world = w2;
      }

  -- With the mutex held. `buffer` is what `kmalloc` gives for `in_buf`, none for NULL.
  unfoldable pub open_locked : Option (List ℕ) → Device → World → Opened
  unfolding reset_offsets
  open_locked none dev w =
      if dev.in_buf_size == 0
      then record {
        status = enodev;
        device = bound (record dev { locked = false });
        file = none;
        world = w;
      }
      else record { status = enomem; device = bound dev; file = none; world = w }
  open_locked (some buffer) dev w =
      if dev.in_buf_size == 0
      then record {
        status = enodev;
        device = bound (record dev { locked = false });
        file = none;
        world = w;
      }
      else reset_offsets (record dev { locked = false })
          (record { in_buf = buffer; in_buf_left_over = 0; f_pos = 0 }) w

  -- None while the mutex is held: the call waits for it.
  unfoldable pub ddk_open : Interface → Option (List ℕ) → World → Option Opened
  unfolding open_locked
  ddk_open not_found buffer w =
      some (record { status = enodev; device = not_found; file = none; world = w })
  ddk_open no_data buffer w =
      some (record { status = enodev; device = no_data; file = none; world = w })
  ddk_open (bound dev) buffer w =
      if dev.locked then none else some (open_locked buffer (record dev { locked = true }) w)

  -- The private data is freed.
  unfoldable pub ddk_close : Device → Device
  ddk_close dev = record dev { open_cnt = dev.open_cnt +ℤ negsuc 0 }

  -- What `kzalloc` gives.
  abbrev pub zeroed : ExtState → Device
  zeroed ext = record {
    locked = false;
    open_cnt = pos 0;
    in_ep = 0;
    out_ep = 0;
    in_buf_size = 0;
    out_buf_size = 0;
    ext = ext;
  }

  abbrev pub no_ext : ExtState
  no_ext = record {
    total_usb_success = 0;
    total_usb_fail = 0;
    total_blinks = 0;
    last_write_len = 0;
    timer_enabled = false;
    timer_interval_ms = 0;
    blink_count = pos 0;
    blink_delay_ms = pos 0;
    work_pending = false;
    proc_entry = false;
  }

  -- By the interface's number, its endpoints, whether there is memory, and what `usb_register_dev`
  -- returns. The result of `ddk_ext_init` is not looked at.
  unfoldable pub ddk_probe : ℕ → List Endpoint → Bool → ℤ → World → ℤ × Interface × World
  ddk_probe number endpoints memory registered w =
      if number == 0
      then if memory
        then if eqb_ℤ registered (pos 0)
          then (
            pos 0,
            bound (record (set_endpoints (zeroed no_ext) endpoints) { ext = (ddk_ext_init m w).1 }),
            (ddk_ext_init m w).2,
          )
          else (registered, no_data, w)
        else (enomem, no_data, w)
      else (einval, no_data, w)

  -- The interface loses its data, and the device is freed.
  unfoldable pub ddk_disconnect : Device → World → Interface × World
  ddk_disconnect dev w = (no_data, (ddk_ext_cleanup m dev.ext w).1)
