-- ===== src/Mem/Open/Laws.antt =====
-- What holds of an open device (misc-modules/ddk_mem.c, `ddk_open`, `ddk_close`, `ddk_probe`).
use device_drivers_lab_proje.Prelude.{
  ◌⊎◌, inl, inr, Bool-cases, ℕ, ◌≡◌, ◌≢◌, inl, inr, refl, true, false, Option, none, some, List, [],
  ◌∷◌, ◌++◌, append_assoc, arith, Bool-cases, ◌==◌, if◌then◌else◌,
}
use device_drivers_lab_proje.Prelude.Int.{
  eqb_ℤ, eqb_ℤ→eq, eqb_ℤ→ne, ℤ, pos, ◌+ℤ◌, is_negative, enomem,
}
use device_drivers_lab_proje.Machine.{Machine, ControlLaws}
use device_drivers_lab_proje.Mem.{
  Device, OpenFile, custom_rq_set_mem_rd_offset, custom_rq_set_mem_wr_offset, set_off,
}
use device_drivers_lab_proje.Mem.Open.{
  bound, Endpoint, mem_ep_in, mem_ep_out, set_endpoint, set_endpoints, Opened, reset_offsets,
  open_locked, ddk_open,
}

module _ (m : Machine) where
  open m use {World, control_log}

  -- The log's messages of an open that succeeds.
  abbrev offsets_zero : List (ℕ × ℤ)
  offsets_zero = (custom_rq_set_mem_rd_offset, pos 0) ∷ (custom_rq_set_mem_wr_offset, pos 0) ∷ []

  -- What a result of 0 says.
  abbrev pub IsOpen : Device → World → Opened m → Type 0
  IsOpen dev w r =
      (dev.in_buf_size ≢ 0)
      × (r.device ≡ bound (record dev { locked = false; open_cnt = dev.open_cnt +ℤ pos 1 }))
      × (control_log r.world ≡ control_log w ++ offsets_zero)
      × ((f : OpenFile) × (r.file ≡ some f) × (f.f_pos ≡ 0) × (f.in_buf_left_over ≡ 0))

  open_locked_refuses : (dev : Device) (w : World) → (open_locked m none dev w).status ≢ pos 0
  unfolding open_locked
  open_locked_refuses dev w h = ground arith

  reset_offsets-IsOpen :
      (dev : Device) (buffer : List ℕ) (w : World)
      → ControlLaws m
      → dev.in_buf_size ≢ 0
      → let f : OpenFile = record { in_buf = buffer; in_buf_left_over = 0; f_pos = 0 } in
        let r = reset_offsets m (record dev { locked = false }) f w in
        r.status ≡ pos 0 → IsOpen dev w r
  unfolding reset_offsets set_off
  reset_offsets-IsOpen dev buffer w laws size =
      let w1 = (m.control_out custom_rq_set_mem_rd_offset (pos 0) w).1 in
      elim (Bool-cases (is_negative (m.control_out custom_rq_set_mem_rd_offset (pos 0) w).0)) [
        | inl bad ↦ rw bad (λ h. absurd (ground arith))
        | inr fine ↦
            rw fine
              (elim (Bool-cases
                (is_negative (m.control_out custom_rq_set_mem_wr_offset (pos 0) w1).0)) [
                  | inl bad ↦ rw bad (λ h. absurd (ground arith))
                  | inr good ↦ rw good (λ h. (size, refl, logged, (_, refl, refl, refl)))
                ])
      ]
    where
      logged :
          let w1 = (m.control_out custom_rq_set_mem_rd_offset (pos 0) w).1 in
          control_log (m.control_out custom_rq_set_mem_wr_offset (pos 0) w1).1
          ≡ control_log w ++ offsets_zero
      logged =
          rw (laws.logged, laws.logged)
            (append_assoc (control_log w) ((custom_rq_set_mem_rd_offset, pos 0) ∷ [])
              ((custom_rq_set_mem_wr_offset, pos 0) ∷ []))

  open_locked-IsOpen :
      (dev : Device) (buffer : Option (List ℕ)) (w : World)
      → ControlLaws m
      → let r = open_locked m buffer (record dev { locked = true }) w in
        r.status ≡ pos 0 → IsOpen dev w r
  unfolding open_locked
  open_locked-IsOpen dev none w laws =
      λ h. absurd (open_locked_refuses (record dev { locked = true }) w h)
  open_locked-IsOpen dev (some buffer) w laws = elim (Bool-cases (dev.in_buf_size == 0)) [
    | inl empty ↦ rw empty (λ h. absurd (ground arith))
    | inr size ↦ rw size (reset_offsets-IsOpen dev buffer w laws (ground arith))
  ]

  settle : (r : Opened m) {P : Type 0} → (r.status ≡ pos 0 → P) → (r.status ≢ pos 0) ⊎ P
  settle r h = elim (Bool-cases (eqb_ℤ r.status (pos 0))) [
    | inl e ↦ inr (h (eqb_ℤ→eq r.status (pos 0) e))
    | inr e ↦ inl (eqb_ℤ→ne r.status (pos 0) e)
  ]

  -- An open of a device whose mutex is free returns at once. If it returns 0, then the size of the
  -- IN endpoint was known, the file starts at 0 with nothing left over, the two messages sent set
  -- both offsets on the board to 0, one more open is counted, and the mutex is free again.
  ddk_open_succeeds :
      (dev : Device) (buffer : Option (List ℕ)) (w : World)
      → ControlLaws m
      → dev.locked ≡ false
      → (r : Opened m) × (ddk_open m (bound dev) buffer w ≡ some r)
        × ((r.status ≢ pos 0) ⊎ IsOpen dev w r)
  unfolding ddk_open
  ddk_open_succeeds dev buffer w laws free = (
    open_locked m buffer (record dev { locked = true }) w,
    rw free refl,
    settle (open_locked m buffer (record dev { locked = true }) w)
        (open_locked-IsOpen dev buffer w laws),
  )

  -- Where `kmalloc` fails, the open returns ENOMEM and leaves the mutex held: every later open of the
  -- device waits for ever, whatever memory there is then.
  ddk_open_no_memory :
      (dev : Device) (w : World)
      → dev.locked ≡ false
      → dev.in_buf_size ≢ 0
      → (r : Opened m) × (ddk_open m (bound dev) none w ≡ some r)
        × (r.status ≡ enomem)
        × ((buffer : Option (List ℕ)) (v : World) → ddk_open m r.device buffer v ≡ none)
  unfolding ddk_open
  ddk_open_no_memory dev w free size = (
    record {
      status = enomem;
      device = bound (record dev { locked = true });
      file = none;
      world = w;
    },
    ground arith,
    refl,
    λ buffer v. refl,
  )

-- After the endpoints of an interface were looked at, the IN size is that of the last IN endpoint of
-- the memory function, if there is one, and so is the OUT size of the last OUT endpoint.
abbrev pub last_size : ℕ → ℕ → List Endpoint → ℕ
last_size address d [] = d
last_size address d (e ∷ es) =
    last_size address (if e.address == address then e.max_packet else d) es

-- The scan of any endpoints sets each buffer size to the packet size of the last endpoint with the
-- memory function's address in that direction, and leaves it where there is none; it touches neither
-- the mutex nor the open count.
set_endpoints-last_size :
    (es : List Endpoint) (dev : Device)
    → let d = set_endpoints dev es in
      (d.in_buf_size ≡ last_size mem_ep_in dev.in_buf_size es)
      × (d.out_buf_size ≡ last_size mem_ep_out dev.out_buf_size es)
      × (d.locked ≡ dev.locked)
      × (d.open_cnt ≡ dev.open_cnt)
unfolding set_endpoints
set_endpoints-last_size [] dev = (refl, refl, refl, refl)
set_endpoints-last_size (e ∷ es) dev =
    ground (arith, set_endpoints-last_size es (set_endpoint dev e))
