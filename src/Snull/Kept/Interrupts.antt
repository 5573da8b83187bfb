-- ===== src/Snull/Kept/Interrupts.antt =====
-- Packets are kept by the interrupt handlers of the network devices (snull/snull.c).
use device_drivers_lab_proje.Prelude.{
  ℕ, ◌≡◌, inl, inr, refl, Bool, true, false, Option, none, some, List, Bool-cases, if◌then◌else◌,
}
use device_drivers_lab_proje.Snull.{
  Side, sn0, sn1, Packet, Kernel, Dev, Net, priv, put, head_packet, snull_dequeue_buf,
  snull_rx_ints,
}
use device_drivers_lab_proje.Snull.Interrupt.{
  receive_packet, snull_rx, rx_packet, release_packet, take_received, transmitted, clear_status,
  snull_regular_interrupt, snull_napi_interrupt, snull_interrupt,
}
use device_drivers_lab_proje.Snull.Kept.{Kept, put_same, dequeue-Kept, release-Kept}

module _ {k : Kernel} {size : Side → ℕ} where
  relogged :
      {n : Net k} {h : Option Packet} (r : List (Side × List ℕ)) (f : List (Option ℕ)) (w : k.World)
      → Kept size h n
      → Kept size h (record n { received = r; freed = f; world = w })
  relogged r f w v = record {
    own0 = v.own0;
    own1 = v.own1;
    from0 = v.from0;
    from1 = v.from1;
    count0 = v.count0;
    count1 = v.count1;
  }

  -- A change of a device but to its pool and its queue, with more said to the kernel.
  logged :
      (s : Side) (d : Dev) {n : Net k} {h : Option Packet} (r : List (Side × List ℕ))
      (f : List (Option ℕ)) (w : k.World)
      → Kept size h n
      → d.ppool ≡ (priv s n).ppool
      → d.rx_queue ≡ (priv s n).rx_queue
      → Kept size h (put s d (record n { received = r; freed = f; world = w }))
  logged sn0 d r f w v p q = relogged r f w (put_same sn0 d v p q)
  logged sn1 d r f w v p q = relogged r f w (put_same sn1 d v p q)

  pub receive-Kept :
      (s : Side) (pkt : Packet) {n : Net k} {h : Option Packet}
      → Kept size h n
      → Kept size h (receive_packet s pkt n).1
  unfolding receive_packet
  receive-Kept s pkt v = logged s _ _ _ _ v refl refl

  rx_packet-Kept :
      (s : Side) (o : Option Packet) {n : Net k} {h : Option Packet}
      → Kept size h n
      → Kept size h (rx_packet s o n)
  unfolding snull_rx
  rx_packet-Kept s none v = v
  rx_packet-Kept s (some pkt) v = receive-Kept s pkt v

  release_packet-Kept :
      (o : Option Packet) {n : Net k} → Kept size o n → Kept size none (release_packet o n)
  release_packet-Kept none v = v
  release_packet-Kept (some pkt) v = release-Kept pkt v

  pub transmitted-Kept :
      (s : Side) {n : Net k} {h : Option Packet} → Kept size h n → Kept size h (transmitted s n)
  unfolding transmitted
  transmitted-Kept s v = logged s _ _ _ _ v refl refl

  transmitted_if :
      (b : Bool) (s : Side) {n : Net k} {h : Option Packet}
      → Kept size h n
      → Kept size h (if b then transmitted s n else n)
  transmitted_if true s v = transmitted-Kept s v
  transmitted_if false s v = v

  pub received-Kept :
      (s : Side) {n : Net k}
      → Kept size none n
      → Kept size (take_received s n).0 (take_received s n).1
  unfolding take_received snull_dequeue_buf
  received-Kept s {n = n} v = rx_packet-Kept s (head_packet (priv s n).rx_queue) (dequeue-Kept s v)

  regular-Kept :
      (s : Side) {n : Net k} → Kept size none n → Kept size none (snull_regular_interrupt s n)
  unfolding snull_regular_interrupt
  regular-Kept s {n = n} v =
      let c : Kept size none (clear_status s n) = put_same s _ v refl refl in
      elim (Bool-cases (priv s n).rx_intr) [
        | inl e ↦ rw e (
            release_packet-Kept (take_received s (clear_status s n)).0
              (transmitted_if (priv s n).tx_intr s (received-Kept s c)))
        | inr e ↦ rw e (transmitted_if (priv s n).tx_intr s c)
      ]

  napi-Kept : (s : Side) {n : Net k} → Kept size none n → Kept size none (snull_napi_interrupt s n)
  unfolding snull_napi_interrupt snull_rx_ints
  napi-Kept s {n = n} v =
      let c : Kept size none (clear_status s n) = put_same s _ v refl refl in
      elim (Bool-cases (priv s n).rx_intr) [
        | inl e ↦ rw e (
            transmitted_if (priv s n).tx_intr s (put_same s _ (put_same s _ c refl refl) refl refl))
        | inr e ↦ rw e (transmitted_if (priv s n).tx_intr s c)
      ]

  pub interrupt-Kept :
      (b : Bool) (s : Side) {n : Net k} → Kept size none n → Kept size none (snull_interrupt b s n)
  unfolding snull_interrupt
  interrupt-Kept true s v = napi-Kept s v
  interrupt-Kept false s v = regular-Kept s v
