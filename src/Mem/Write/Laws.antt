-- ===== src/Mem/Write/Laws.antt =====
-- What `ddk_write` sends and reports (misc-modules/ddk_mem.c).
use device_drivers_lab_proje.Prelude.{
  [], ℕ, zero, suc, ◌+◌, ◌-◌, ◌≡◌, ◌<◌, ◌≤◌, refl, sym, ◌∙◌, ap, ◌⊎◌, inl, inr, true, false, Option,
  none, some, List, ◌++◌, append_assoc, append-nil, leb, min, length, take, drop, length-take,
  length-drop, take-take, take-append-drop, drop-drop, drop_all, arith, Bool-cases, Option-cases,
}
use device_drivers_lab_proje.Prelude.Int.{ℤ, pos, is_negative, eqb_ℤ, eqb_ℤ→eq, eqb_ℤ→ne, to_int}
use device_drivers_lab_proje.Machine.{Machine, OutLaws}
use device_drivers_lab_proje.Ext.{wrap64, ddk_ext_on_write_success, ddk_ext_on_write_fail}
use device_drivers_lab_proje.Mem.{
  custom_rq_set_mem_rd_offset, custom_rq_set_mem_wr_offset, Device, OpenFile, Outcome, set_off,
}
use device_drivers_lab_proje.Mem.Write.{
  Sent, all_sent, user_fault, transfer_failed, write_loop, after_loop, ddk_write,
}

module _ (m : Machine) (user : List ℕ) (laws : OutLaws m user) where
  open m use {World, interrupt_out, copy_from_user, bytes_out}

  -- One round of the loop that succeeds: some bytes go, no more than are left, and what was sent with
  -- what is left is what it was.
  round_lem :
      (e size wrote : ℕ) (w : World) {chunk : List ℕ}
      → copy_from_user wrote size w ≡ some chunk
      → (interrupt_out e chunk w).0 ≡ pos 0
      → 0 < size
      → wrote + size ≤ length user
      → let (r, n, w') = interrupt_out e chunk w in
        (0 < n)
        × (n ≤ size)
        × (bytes_out w' ++ drop (wrote + n) user ≡ bytes_out w ++ drop wrote user)
  round_lem e size wrote w {chunk} p q pos_size fits = (some_sent, few, kept)
    where
      open laws use {read_user, sent, no_more, progress}

      n : ℕ
      n = (interrupt_out e chunk w).1

      rest : List ℕ
      rest = drop wrote user

      chunk_is : chunk ≡ take size rest
      chunk_is = read_user wrote size w p

      chunk_length : length chunk ≡ size
      chunk_length =
          omega (arith, ap length chunk_is, length-take size rest, length-drop wrote user)

      few : n ≤ size
      few = omega (arith, no_more e chunk w q, chunk_length)

      some_sent : 0 < n
      some_sent = progress e chunk w q (omega (arith, chunk_length))

      front : take n chunk ≡ take n rest
      front = ap (take n) chunk_is ∙ take-take n size rest few

      kept : bytes_out (interrupt_out e chunk w).2 ++ drop (wrote + n) user ≡ bytes_out w ++ rest
      kept =
          ap (λ l. l ++ drop (wrote + n) user) (sent e chunk w q)
          ∙ append_assoc (bytes_out w) (take n chunk) (drop (wrote + n) user)
          ∙ ap (λ l. bytes_out w ++ l)
              (ap (λ l. l ++ drop (wrote + n) user) front
                ∙ ap (λ l. take n rest ++ l) (sym (drop-drop n wrote user))
                ∙ take-append-drop n rest)

  -- What the end of the loop says of the bytes sent since `wrote` of them were.
  abbrev Ends : ℕ → World → Sent m → Type 0
  Ends wrote w (all_sent n v) = (n ≡ length user) × (bytes_out v ≡ bytes_out w ++ drop wrote user)
  Ends wrote w (user_fault v) = Unit
  Ends wrote w (transfer_failed r v) = is_negative r ≡ true

  sent-Ends :
      (wrote n : ℕ) (w v : World) (end : Sent m)
      → bytes_out v ++ drop (wrote + n) user ≡ bytes_out w ++ drop wrote user
      → Ends (wrote + n) v end
      → Ends wrote w end
  sent-Ends wrote n w v (all_sent k u) h e = (e.0, e.1 ∙ h)
  sent-Ends wrote n w v (user_fault u) h e = tt
  sent-Ends wrote n w v (transfer_failed r u) h e = e

  abbrev EndsWell : ℕ → World → Option (Sent m) → Type 0
  EndsWell wrote w o = (end : Sent m) × (o ≡ some end) × Ends wrote w end

  sent_on :
      (fuel : ℕ) (dev : Device) (wrote : ℕ) (w : World) (chunk : List ℕ)
      → copy_from_user wrote (min dev.out_buf_size (length user - wrote)) w ≡ some chunk
      → (interrupt_out dev.out_ep chunk w).0 ≡ pos 0
      → 0 < dev.out_buf_size
      → (wrote < length user) × (length user < wrote + suc fuel)
      → ((n : ℕ) (v : World)
          → wrote + n ≤ length user
          → length user < wrote + n + fuel
          → EndsWell (wrote + n) v (write_loop m fuel dev (length user) (wrote + n) v))
      → let (r, n, w') = interrupt_out dev.out_ep chunk w in
        EndsWell wrote w (write_loop m fuel dev (length user) (wrote + n) w')
  sent_on fuel dev wrote w chunk e q hs bounds ih =
      let size : ℕ = min dev.out_buf_size (length user - wrote) in
      let (r, n, w') = interrupt_out dev.out_ep chunk w in
      let (some_sent, few, kept) =
        round_lem dev.out_ep size wrote w e q (omega arith) (omega arith) in
      let (end, done, well) = ih n w' (omega arith) (omega arith) in
      (end, done, sent-Ends wrote n w w' end kept well)

  write_loop-EndsWell :
      (fuel : ℕ) (dev : Device) (wrote : ℕ) (w : World)
      → 0 < dev.out_buf_size
      → wrote ≤ length user
      → length user < wrote + fuel
      → EndsWell wrote w (write_loop m fuel dev (length user) wrote w)
  unfolding write_loop
  write_loop-EndsWell zero dev wrote w hs hw hf = absurd (omega arith)
  write_loop-EndsWell (suc fuel) dev wrote w hs hw hf =
      elim (Bool-cases (leb (length user) wrote)) [
        | inl done ↦ rw done (all_sent wrote w, refl, finished (ground arith))
        | inr more ↦
            rw more
              (elim (Option-cases
                (copy_from_user wrote (min dev.out_buf_size (length user - wrote)) w)) [
                  | inl e ↦ rw e (user_fault w, refl, tt)
                  | inr (chunk, e) ↦
                      rw e (elim (Bool-cases (eqb_ℤ (interrupt_out dev.out_ep chunk w).0 (pos 0))) [
                        | inl q ↦ rw q (
                            sent_on fuel dev wrote w chunk e (eqb_ℤ→eq _ _ q) hs (ground arith)
                              (λ n v. write_loop-EndsWell fuel dev (wrote + n) v hs))
                        | inr q ↦ rw q (_, refl, laws.failed dev.out_ep chunk w (eqb_ℤ→ne _ _ q))
                      ])
                ])
      ]
    where
      finished : length user ≤ wrote → Ends wrote w (all_sent wrote w)
      finished h = (
        omega arith,
        sym (append-nil (bytes_out w)) ∙ ap (λ l. bytes_out w ++ l) (sym (drop_all wrote user h)),
      )

  -- What `ddk_write` answers for a whole buffer: the buffer's length, with all of it sent, the
  -- position moved and a success counted; or an error, with a failure counted or no change of the
  -- statistics, or with the success counted where only the offset that follows the write failed.
  abbrev pub Answer : OpenFile → Device → World → Outcome m → Type 0
  Answer f dev w r =
      ((r.status ≡ pos (length user))
        × (bytes_out r.world ≡ bytes_out w ++ user)
        × (r.file ≡ record f { f_pos = f.f_pos + length user })
        × (r.device.ext.total_usb_success ≡ wrap64 (dev.ext.total_usb_success + 1))
        × (r.device.ext.total_usb_fail ≡ dev.ext.total_usb_fail))
      ⊎ ((is_negative r.status ≡ true)
          × ((r.device ≡ dev)
              ⊎ ((r.device ≡ record dev { ext = ddk_ext_on_write_fail dev.ext }) × (r.file ≡ f))
              ⊎ ((r.device.ext.total_usb_success ≡ wrap64 (dev.ext.total_usb_success + 1))
                  × (bytes_out r.world ≡ bytes_out w ++ user))))

  success_bytes :
      (dev : Device) (n : ℕ) (w : World)
      → let (s, w') = ddk_ext_on_write_success m n dev.ext w in
        (bytes_out w' ≡ bytes_out w)
        × (s.total_usb_success ≡ wrap64 (dev.ext.total_usb_success + 1))
        × (s.total_usb_fail ≡ dev.ext.total_usb_fail)
  unfolding ddk_ext_on_write_success
  success_bytes dev n w = ground (
    arith,
    laws.schedule-bytes w,
    laws.mod_timer-bytes (m.jiffies w + m.msecs_to_jiffies dev.ext.timer_interval_ms) w,
  )

  after_loop-Answer :
      (f : OpenFile) (dev : Device) (w v : World) (end : Sent m)
      → bytes_out v ≡ bytes_out w
      → Ends 0 v end
      → Answer f dev w (after_loop m dev f end)
  unfolding after_loop set_off
  after_loop-Answer f dev w v (user_fault u) h e = inr (refl, inl refl)
  after_loop-Answer f dev w v (transfer_failed r u) h e = inr (e, inr (inl (refl, refl)))
  after_loop-Answer f dev w v (all_sent n u) h e =
      let (kept, one_more, same) = success_bytes dev n u in
      let w1 = (ddk_ext_on_write_success m n dev.ext u).1 in
      let w2 = m.msleep (pos 100) w1 in
      let v' : ℤ = to_int (pos (f.f_pos + n)) in
      let all : bytes_out (m.control_out custom_rq_set_mem_rd_offset v' w2).1
          ≡ bytes_out w ++ user =
        laws.control-bytes custom_rq_set_mem_rd_offset v' w2
        ∙ laws.msleep-bytes (pos 100) w1
        ∙ kept
        ∙ e.1
        ∙ ap (λ l. l ++ user) h in
      elim (Bool-cases (is_negative (m.control_out custom_rq_set_mem_rd_offset v' w2).0)) [
        | inl neg ↦ inr (rw neg neg, inr (inr (one_more, all)))
        | inr fine ↦ inl (
          rw fine (ap pos e.0),
          all,
          ap (λ k. record f { f_pos = f.f_pos + k }) e.0,
          one_more,
          same,
        )
      ]

  -- With a buffer of `cnt` bytes, and a board whose endpoint takes at least a byte at a time and
  -- whose transfers do what the USB core documents, `ddk_write` ends, for which `cnt + 1` rounds are
  -- enough. Its answer is `cnt`, with all the bytes sent in order, the position moved by `cnt` and one
  -- success counted; or an error, with one failure counted, or the device unchanged, or the success
  -- counted and all bytes sent where only the read offset could not be set afterwards.
  pub ddk_write-Answer :
      (f : OpenFile) (dev : Device) (w : World)
      → 0 < dev.out_buf_size
      → (r : Outcome m) × (ddk_write m (length user + 1) (length user) f dev w ≡ some r)
        × Answer f dev w r
  unfolding ddk_write set_off
  ddk_write-Answer f dev w hs =
      let offset : ℤ = to_int (pos f.f_pos) in
      let w0 = (m.control_out custom_rq_set_mem_wr_offset offset w).1 in
      let (end, done, well) =
        write_loop-EndsWell (length user + 1) dev 0 w0 hs (omega arith) (omega arith) in
      elim (Bool-cases (is_negative (m.control_out custom_rq_set_mem_wr_offset offset w).0)) [
        | inl neg ↦ rw neg (_, refl, inr (neg, inl refl))
        | inr fine ↦ rw fine (
            rw done (
              after_loop m dev f end,
              refl,
              after_loop-Answer f dev w w0 end
                  (laws.control-bytes custom_rq_set_mem_wr_offset offset w) well,
            ))
      ]

-- A device whose OUT endpoint was not found has no bytes to send at a time. Where copying no bytes
-- and sending none succeed, the loop then never ends: no number of rounds is enough.
write_loop_stuck :
    (m : Machine) (fuel : ℕ) (dev : Device) (cnt : ℕ) (w : m.World)
    → dev.out_buf_size ≡ 0
    → 0 < cnt
    → ((v : m.World) → m.copy_from_user 0 0 v ≡ some [])
    → ((v : m.World)
        → ((m.interrupt_out dev.out_ep [] v).0 ≡ pos 0) × ((m.interrupt_out dev.out_ep [] v).1 ≡ 0))
    → write_loop m fuel dev cnt 0 w ≡ none
unfolding write_loop
write_loop_stuck m zero dev cnt w hs hc copies sends = refl
write_loop_stuck m (suc fuel) dev cnt w hs hc copies sends =
    let size : min dev.out_buf_size (cnt - 0) ≡ 0 = omega arith in
    let more : leb cnt 0 ≡ false = ground arith in
    rw (more, size, copies w, (sends w).0, (sends w).1)
      (write_loop_stuck m fuel dev cnt (m.interrupt_out dev.out_ep [] w).2 hs hc copies sends)
