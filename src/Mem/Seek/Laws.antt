-- ===== src/Mem/Seek/Laws.antt =====
-- Where `ddk_llseek` moves a file to (misc-modules/ddk_mem.c), and what it leaves behind.
use device_drivers_lab_proje.Prelude.{
  ℕ, ◌≡◌, ◌≢◌, ◌⊎◌, inl, inr, refl, ap, ap₂, true, false, List, [], ◌∷◌, ◌++◌, append_assoc, arith,
  Bool-cases, length, take,
}
use device_drivers_lab_proje.Prelude.Int.{ℤ, pos, negsuc, ◌+ℤ◌, ◌≤ℤ◌, is_negative, to_int}
use mathlib.Core.Path.{subst}
use device_drivers_lab_proje.Machine.{Machine, ControlLaws, InLaws}
use device_drivers_lab_proje.Mem.{
  Device, OpenFile, Outcome, e_read, set_off, get_off, get_size, custom_rq_set_mem_rd_offset,
  custom_rq_set_mem_wr_offset,
}
use device_drivers_lab_proje.Mem.Seek.{
  Whence, seek_set, seek_cur, seek_end, seek_other, clamp, move_to, seek_from, ddk_llseek,
}
use device_drivers_lab_proje.Mem.Read.{ddk_read}
use device_drivers_lab_proje.Mem.Read.Laws.{pending, IsValid, Takes, ddk_read_left_over}

clamp_bounds :
    (size offset : ℤ)
    → is_negative size ≡ false
    → (is_negative (clamp size offset) ≡ false) × (clamp size offset ≤ℤ size)
unfolding clamp
clamp_bounds size offset h = ground arith

module _ (m : Machine) where
  open m use {World, control_log}

  -- The result of a seek: an error with the position as it was, or the new position, within the
  -- memory, which both offsets on the board were set to last.
  abbrev pub Seeks : ℤ → OpenFile → Outcome m → Type 0
  Seeks size f r =
      (r.file.in_buf ≡ f.in_buf)
      × (r.file.in_buf_left_over ≡ f.in_buf_left_over)
      × (((is_negative r.status ≡ true) × (r.file.f_pos ≡ f.f_pos))
          ⊎ ((r.status ≡ pos r.file.f_pos)
              × (pos r.file.f_pos ≤ℤ size)
              × ((sent : List (ℕ × ℤ)) × (control_log r.world
                    ≡ sent
                      ++ ((custom_rq_set_mem_rd_offset, to_int r.status)
                          ∷ (custom_rq_set_mem_wr_offset, to_int r.status)
                          ∷ [])))))

  move_to-Seeks :
      (laws : ControlLaws m) (size offset : ℤ) (f : OpenFile) (dev : Device) (w : World)
      → is_negative offset ≡ false
      → offset ≤ℤ size
      → Seeks size f (move_to m offset f dev w)
  unfolding move_to set_off
  move_to-Seeks laws size (negsuc k) f dev w h le = absurd (ground arith)
  move_to-Seeks laws size (pos n) f dev w h le =
      let v : ℤ = to_int (pos n) in
      let w1 = (m.control_out custom_rq_set_mem_rd_offset v w).1 in
      elim (Bool-cases (is_negative (m.control_out custom_rq_set_mem_rd_offset v w).0)) [
        | inl bad ↦ rw bad (refl, refl, inl (bad, refl))
        | inr fine ↦
            rw fine
              (elim (Bool-cases (is_negative (m.control_out custom_rq_set_mem_wr_offset v w1).0)) [
                | inl bad ↦ rw bad (refl, refl, inl (bad, refl))
                | inr good ↦ rw good (refl, refl, inr (refl, le, (control_log w, logged v)))
              ])
      ]
    where
      logged :
          (v : ℤ)
          → let w1 = (m.control_out custom_rq_set_mem_rd_offset v w).1 in
            control_log (m.control_out custom_rq_set_mem_wr_offset v w1).1
            ≡ control_log w
              ++ ((custom_rq_set_mem_rd_offset, v) ∷ (custom_rq_set_mem_wr_offset, v) ∷ [])
      logged v =
          rw (laws.logged, laws.logged)
            (append_assoc (control_log w) ((custom_rq_set_mem_rd_offset, v) ∷ [])
              ((custom_rq_set_mem_wr_offset, v) ∷ []))

  seek_from-Seeks :
      (laws : ControlLaws m) (size offset : ℤ) (whence : Whence) (f : OpenFile) (dev : Device)
      (w : World)
      → is_negative size ≡ false
      → Seeks size f (seek_from m size offset whence f dev w)
  unfolding seek_from
  seek_from-Seeks laws size offset seek_set f dev w h =
      let (lo, hi) = clamp_bounds size offset h in
      move_to-Seeks laws size (clamp size offset) f dev w lo hi
  seek_from-Seeks laws size offset seek_cur f dev w h =
      let (cur, w') = get_off m e_read w in
      let (lo, hi) = clamp_bounds size (offset +ℤ cur) h in
      elim (Bool-cases (is_negative cur)) [
        | inl bad ↦ rw bad (refl, refl, inl (bad, refl))
        | inr fine ↦ rw fine (move_to-Seeks laws size (clamp size (offset +ℤ cur)) f dev w' lo hi)
      ]
  seek_from-Seeks laws size offset seek_end f dev w h =
      let (lo, hi) = clamp_bounds size (offset +ℤ size) h in
      move_to-Seeks laws size (clamp size (offset +ℤ size)) f dev w lo hi
  seek_from-Seeks laws size offset seek_other f dev w h = (refl, refl, inl (refl, refl))

  -- A seek by any offset from any origin either returns an error and leaves the position, or returns
  -- the new position, which lies between 0 and the size that the board reported, and has set the
  -- board's read and write offsets to it, last of all messages. Left over bytes stay in any case.
  pub ddk_llseek-Seeks :
      (offset : ℤ) (whence : Whence) (f : OpenFile) (dev : Device) (w : World)
      → ControlLaws m
      → Seeks (get_size m w).0 f (ddk_llseek m offset whence f dev w)
  unfolding ddk_llseek
  ddk_llseek-Seeks offset whence f dev w laws =
      let (size, w') = get_size m w in
      elim (Bool-cases (is_negative size)) [
        | inl bad ↦ rw bad (refl, refl, inl (bad, refl))
        | inr fine ↦ rw fine (seek_from-Seeks laws size offset whence f dev w' fine)
      ]

  -- After a seek, to wherever, a file with bytes left over in its buffer still reads those: the next read delivers
  -- the bytes from before the seek, and asks the board for nothing.
  read_after_seek_stale :
      (cnt : ℕ) (offset : ℤ) (whence : Whence) (f : OpenFile) (dev : Device) (w : World)
      → ControlLaws m
      → InLaws m
      → IsValid f
      → f.in_buf_left_over ≢ 0
      → let r = ddk_llseek m offset whence f dev w in
        Takes m cnt (pending f) r.file r.device r.world (ddk_read m cnt r.file r.device r.world)
  read_after_seek_stale cnt offset whence f dev w cl il v ne =
      let r = ddk_llseek m offset whence f dev w in
      let (buf, left, s) = ddk_llseek-Seeks offset whence f dev w cl in
      subst (λ p. Takes m cnt p r.file r.device r.world (ddk_read m cnt r.file r.device r.world))
        (ap₂ take left buf)
        (ddk_read_left_over m il cnt r.file r.device r.world (omega (arith, ap length buf, left, v))
          (omega (arith, left, ne)))
