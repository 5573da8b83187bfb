-- ===== src/Ext/Blink.antt =====
-- `blink_worker` of misc-modules/ddk_usb_ext.c: the messages that it sends to the LED, and its count.
use device_drivers_lab_proje.Prelude.{
  ℕ, zero, suc, ◌+◌, ◌-◌, ◌^◌, ◌≡◌, ◌<◌, refl, sym, ◌∙◌, ap, List, [], ◌∷◌, ◌++◌, append_assoc,
  append-nil, arith, false,
}
use device_drivers_lab_proje.Prelude.Int.{ℤ, pos, negsuc, pos_part, to_u64}
use device_drivers_lab_proje.Machine.{Machine, ControlLaws, WorkLaws}
use device_drivers_lab_proje.Led.{ddk_led_ctrl, custom_rq_set_led_status}
use device_drivers_lab_proje.Ext.{ExtState, wrap64, blink_loop, blink_worker}

-- `n` times on and off.
abbrev pub on_off : ℕ → List (ℕ × ℤ)
on_off zero = []
on_off (suc n) = (custom_rq_set_led_status, pos 1) ∷ (custom_rq_set_led_status, pos 0) ∷ on_off n

module _ (m : Machine) where
  open m use {World, control_log, work_queued}

  blink_once-log :
      (laws : ControlLaws m) (delay : ℤ) (w : World)
      → control_log
          (m.msleep delay (ddk_led_ctrl m (pos 0) (m.msleep delay (ddk_led_ctrl m (pos 1) w).1)).1)
        ≡ control_log w
          ++ ((custom_rq_set_led_status, pos 1) ∷ (custom_rq_set_led_status, pos 0) ∷ [])
  unfolding ddk_led_ctrl
  blink_once-log laws delay w =
      rw (laws.msleep-log, laws.logged, laws.msleep-log, laws.logged)
        (append_assoc (control_log w) ((custom_rq_set_led_status, pos 1) ∷ [])
          ((custom_rq_set_led_status, pos 0) ∷ []))

  pub blink_loop-log :
      (laws : ControlLaws m) (n : ℕ) (delay : ℤ) (w : World)
      → control_log (blink_loop m n delay w) ≡ control_log w ++ on_off n
  unfolding blink_loop
  blink_loop-log laws zero delay w = sym (append-nil (control_log w))
  blink_loop-log laws (suc n) delay w =
      blink_loop-log laws n delay _
      ∙ ap (λ l. l ++ on_off n) (blink_once-log laws delay w)
      ∙ append_assoc (control_log w) (on_off 1) (on_off n)

  pub blink_loop-queued :
      (laws : WorkLaws m) (n : ℕ) (delay : ℤ) (w : World)
      → work_queued (blink_loop m n delay w) ≡ work_queued w
  unfolding blink_loop
  blink_loop-queued laws zero delay w = refl
  blink_loop-queued laws (suc n) delay w =
      blink_loop-queued laws n delay _
      ∙ rw (laws.msleep-queued, laws.control-queued, laws.msleep-queued, laws.control-queued) refl

  -- Where control messages are logged in order, one run of the worker sends the LED as many on and off messages as the blink count says, none if
  -- it is negative; it adds the count to the total modulo 2 ^ 64, leaves the pending flag
  -- cleared, and leaves the other fields alone.
  pub blink_worker_lem :
      (s : ExtState) (w : World)
      → ControlLaws m
      → (control_log (blink_worker m s w).1 ≡ control_log w ++ on_off (pos_part s.blink_count))
        × ((blink_worker m s w).0 ≡ record s {
          total_blinks = wrap64 (s.total_blinks + to_u64 s.blink_count);
          work_pending = false;
        })
  unfolding blink_worker
  blink_worker_lem s w laws =
      (blink_loop-log laws (pos_part s.blink_count) s.blink_delay_ms w, refl)

  -- Where control messages are logged in order, with a negative blink count of at least -2 ^ 31 the LED gets no message, and yet the total of
  -- blinks goes down by the count's absolute value, wrapping below 0.
  negative_blinks :
      (s : ExtState) (w : World) (n : ℕ)
      → ControlLaws m
      → s.blink_count ≡ negsuc n
      → n < 2 ^ 31
      → (control_log (blink_worker m s w).1 ≡ control_log w)
        × ((blink_worker m s w).0.total_blinks ≡ wrap64 (s.total_blinks + 2 ^ 64 - suc n))
  unfolding blink_worker
  negative_blinks s w n laws e h = (
    rw (e, blink_worker) (blink_loop-log laws 0 s.blink_delay_ms w ∙ append-nil (control_log w)),
    ground arith,
  )
