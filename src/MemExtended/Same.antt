-- ===== src/MemExtended/Same.antt =====
-- Where the extended memory driver reads as the plain one does, and where its offsets go wrong
-- (misc-modules/ddk_mem_extended.c, ddk_mem.c).
use device_drivers_lab_proje.Prelude.{
  ℕ, ◌+◌, ◌≡◌, inl, inr, refl, ◌++◌, length, take, drop, Bool-cases, Option-cases, if◌then◌else◌,
  ◌==◌, leb,
}
use device_drivers_lab_proje.Prelude.Int.{pos, to_int, is_negative, eqb_ℤ}
use device_drivers_lab_proje.Machine.{Machine}
use device_drivers_lab_proje.Ext.{ExtState}
use device_drivers_lab_proje.Mem.{Device, OpenFile, Outcome, e_read, e_write}
use device_drivers_lab_proje.Mem
use device_drivers_lab_proje.Mem.Read
use device_drivers_lab_proje.MemExtended.{ExtendedDevice, Result, set_off, fetch, deliver, ddk_read}

-- The device as the plain driver keeps it.
abbrev pub plain : ExtendedDevice → ExtState → Device
plain dev ext = record {
  locked = dev.locked;
  open_cnt = dev.open_cnt;
  in_ep = dev.in_ep;
  out_ep = dev.out_ep;
  in_buf_size = dev.in_buf_size;
  out_buf_size = dev.out_buf_size;
  ext = ext;
}

module _ (m : Machine) where
  abbrev pub trimmed : Outcome m → Result m
  trimmed o = record { status = o.status; file = o.file; world = o.world }

  deliver-trimmed :
      (cnt read_size : ℕ) (f : OpenFile) (dev : Device) (w : m.World)
      → deliver m cnt read_size f w ≡ trimmed (Read.deliver m cnt read_size f dev w)
  unfolding deliver Read.deliver
  deliver-trimmed cnt read_size f dev w =
      let n = if leb read_size cnt then read_size else cnt in
      elim (Option-cases (m.copy_to_user (take n f.in_buf) w)) [
        | inl e ↦ rw e refl
        | inr (w', e) ↦ rw e refl
      ]

  fetch-trimmed :
      (cnt : ℕ) (f : OpenFile) (dev : ExtendedDevice) (ext : ExtState) (w : m.World)
      → dev.read_off ≡ to_int (pos f.f_pos)
      → fetch m cnt f dev w ≡ trimmed (Read.fetch m cnt f (plain dev ext) w)
  unfolding fetch Read.fetch set_off Mem.set_off
  fetch-trimmed cnt f dev ext w e =
      let (r1, w1) = m.control_out 3 (to_int (pos f.f_pos)) w in
      let (r2, packet, w2) = m.interrupt_in dev.in_ep dev.in_buf_size w1 in
      let (r3, w3) = m.control_out 5 (to_int (pos (f.f_pos + length packet))) w2 in
      let f' : OpenFile = record f { in_buf = packet ++ drop (length packet) f.in_buf } in
      rw e (elim (Bool-cases (is_negative r1)) [
        | inl a ↦ rw a refl
        | inr a ↦ elim (Bool-cases (eqb_ℤ r2 (pos 0))) [
          | inl b ↦ elim (Bool-cases (is_negative r3)) [
            | inl c ↦ rw a (rw b (rw c refl))
            | inr c ↦ rw a (rw b (rw c (deliver-trimmed cnt (length packet) f' (plain dev ext) w3)))
          ]
          | inr b ↦ rw a (rw b refl)
        ]
      ])

  -- Where the file stands at the read offset that the ioctl set, a read of the extended driver does what
  -- one of the plain driver does: the same answer, file, messages and transfers.
  pub ddk_read-trimmed :
      (cnt : ℕ) (f : OpenFile) (dev : ExtendedDevice) (ext : ExtState) (w : m.World)
      → dev.read_off ≡ to_int (pos f.f_pos)
      → ddk_read m cnt f dev w ≡ trimmed (Read.ddk_read m cnt f (plain dev ext) w)
  unfolding ddk_read Read.ddk_read
  ddk_read-trimmed cnt f dev ext w e = elim (Bool-cases (f.in_buf_left_over == 0)) [
    | inl z ↦ rw z (fetch-trimmed cnt f dev ext w e)
    | inr z ↦ rw z (
        deliver-trimmed cnt f.in_buf_left_over (record f { in_buf_left_over = 0 }) (plain dev ext)
          w)
  ]
