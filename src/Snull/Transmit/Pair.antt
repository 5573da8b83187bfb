-- ===== src/Snull/Transmit/Pair.antt =====
-- A transmission with regular interrupts, step by step (snull/snull.c): the devices as the sender and
-- the receiver.
use device_drivers_lab_proje.Prelude.{
  ℕ, suc, ◌+◌, ◌≡◌, refl, ◌∙◌, ap, true, false, Option, some, List, [], ◌∷◌, ◌++◌, length, take,
  splice, ltb, leb, if◌then◌else◌, ◌&&◌,
}
use device_drivers_lab_proje.Snull.{
  Side, sn0, sn1, twin, Packet, Stats, Kernel, Dev, Net, wrapped, is_nil, snull_get_tx_buffer,
  snull_enqueue_buf, snull_release_buffer,
}
use device_drivers_lab_proje.Snull.Frame.{holds_header, padded, rewrite_frame}
use device_drivers_lab_proje.Snull.Interrupt.{
  receive_packet, snull_rx, take_received, transmitted, snull_regular_interrupt, snull_interrupt,
}
use device_drivers_lab_proje.Snull.Transmit.{
  SkBuff, Modes, filled, raise_rx, raise_tx, snull_hw_tx, snull_tx,
}

-- Regular interrupts, none of them lost.
abbrev pub regular : Modes
regular = record { use_napi = false; lockup = 0 }

-- The frame on its way to the other device's queue.
abbrev pub loaded : Packet → List ℕ → Packet
loaded pkt frame = record pkt { datalen = length frame; content = splice 0 frame pkt.content }

-- A packet received, in the statistics.
abbrev pub counted : Stats → ℕ → Stats
counted st len = record st {
  rx_packets = wrapped (suc st.rx_packets);
  rx_bytes = wrapped (st.rx_bytes + len);
}

-- A packet back in the pool.
abbrev pub given_back : Packet → Dev → Dev
given_back pkt a = record a {
  ppool = pkt ∷ a.ppool;
  stopped = if a.stopped && is_nil a.ppool then false else a.stopped;
}

-- The sender behind its transmit interrupt, and the receiver behind its receive interrupt.
abbrev pub done_tx : Dev → ℕ → Dev
done_tx a len = record a {
  rx_intr = false;
  tx_intr = false;
  tx_packetlen = len;
  stats = record a.stats {
    tx_packets = wrapped (suc a.stats.tx_packets);
    tx_bytes = wrapped (a.stats.tx_bytes + len);
  };
}

abbrev pub done_rx : Dev → ℕ → Dev
done_rx b len = record b {
  rx_intr = false;
  tx_intr = false;
  rx_queue = [];
  stats = counted b.stats len;
}

module _ {k : Kernel} where
  -- The devices, one side and the other.
  abbrev pub pair : Side → Dev → Dev → List (Side × List ℕ) → List (Option ℕ) → k.World → Net k
  pair sn0 a b r f w = record { dev0 = a; dev1 = b; received = r; freed = f; world = w }
  pair sn1 a b r f w = record { dev0 = b; dev1 = a; received = r; freed = f; world = w }

  -- The transmit interrupt.
  pub after_tx :
      (s : Side) (len : ℕ) (a b : Dev) (r : List (Side × List ℕ)) (f : List (Option ℕ))
      (w : k.World)
      → a.rx_intr ≡ false
      → raise_tx regular len s (pair s a b r f w) ≡ pair s (done_tx a len) b r (f ++ (a.skb ∷ [])) w
  unfolding raise_tx snull_interrupt snull_regular_interrupt transmitted
  after_tx sn0 len a b r f w e = rw e refl
  after_tx sn1 len a b r f w e = rw e refl

  -- The receive interrupt, where there is memory: its handler, the reception, and the release.
  interrupt_rx :
      (s : Side) (pkt : Packet) (a b : Dev) (r : List (Side × List ℕ)) (f : List (Option ℕ))
      (w : k.World)
      → b.tx_intr ≡ false
      → snull_regular_interrupt
          (twin s)
          (pair s a (record b { rx_queue = pkt ∷ []; rx_intr = true }) r f w)
        ≡ snull_release_buffer pkt (
            snull_rx
              (twin s)
              pkt
              (pair s a (record b { rx_queue = []; rx_intr = false; tx_intr = false }) r f w))
  unfolding snull_regular_interrupt take_received
  interrupt_rx sn0 pkt a b r f w e = rw e refl
  interrupt_rx sn1 pkt a b r f w e = rw e refl

  rx_pair :
      (s : Side) (pkt : Packet) (a b : Dev) (r : List (Side × List ℕ)) (f : List (Option ℕ))
      (w : k.World)
      → (k.dev_alloc_skb (pkt.datalen + 2) w).0 ≡ true
      → snull_rx (twin s) pkt (pair s a b r f w)
        ≡ pair s a
            (record b { stats = counted b.stats pkt.datalen })
            (r ++ ((twin s, take pkt.datalen pkt.content) ∷ []))
            f
            (k.dev_alloc_skb (pkt.datalen + 2) w).1
  unfolding snull_rx receive_packet
  rx_pair sn0 pkt a b r f w e = rw e refl
  rx_pair sn1 pkt a b r f w e = rw e refl

  release_pair :
      (s : Side) (pkt : Packet) (a b : Dev) (r : List (Side × List ℕ)) (f : List (Option ℕ))
      (w : k.World)
      → pkt.dev ≡ s
      → snull_release_buffer pkt (pair s a b r f w) ≡ pair s (given_back pkt a) b r f w
  unfolding snull_release_buffer
  release_pair sn0 pkt a b r f w e = rw e refl
  release_pair sn1 pkt a b r f w e = rw e refl

  raise_pair :
      (s : Side) (a b : Dev) (r : List (Side × List ℕ)) (f : List (Option ℕ)) (w : k.World)
      → b.rx_int_enabled ≡ true
      → raise_rx regular (twin s) (pair s a b r f w)
        ≡ snull_regular_interrupt (twin s) (pair s a (record b { rx_intr = true }) r f w)
  unfolding raise_rx snull_interrupt
  raise_pair sn0 a b r f w e = rw e refl
  raise_pair sn1 a b r f w e = rw e refl

  pub after_rx :
      (s : Side) (pkt : Packet) (a b : Dev) (r : List (Side × List ℕ)) (f : List (Option ℕ))
      (w : k.World)
      → pkt.dev ≡ s
      → b.rx_int_enabled ≡ true
      → b.tx_intr ≡ false
      → (k.dev_alloc_skb (pkt.datalen + 2) w).0 ≡ true
      → raise_rx regular (twin s) (pair s a (record b { rx_queue = pkt ∷ [] }) r f w)
        ≡ pair s
            (given_back pkt a)
            (done_rx b pkt.datalen)
            (r ++ ((twin s, take pkt.datalen pkt.content) ∷ []))
            f
            (k.dev_alloc_skb (pkt.datalen + 2) w).1
  after_rx s pkt a b r f w e en tx mem =
      raise_pair s a (record b { rx_queue = pkt ∷ [] }) r f w en
      ∙ interrupt_rx s pkt a b r f w tx
      ∙ ap (snull_release_buffer pkt)
          (rx_pair s pkt a (record b { rx_queue = []; rx_intr = false; tx_intr = false }) r f w mem)
      ∙ release_pair s pkt a _ _ f _ e

  get_pair :
      (s : Side) (pkt : Packet) (rest : List Packet) (a b : Dev) (r : List (Side × List ℕ))
      (f : List (Option ℕ)) (w : k.World)
      → a.ppool ≡ pkt ∷ rest
      → snull_get_tx_buffer s (pair s a b r f w)
        ≡ some (
          pkt,
          pair s
              (record a { ppool = rest; stopped = if is_nil rest then true else a.stopped })
              b
              r
              f
              w,
        )
  unfolding snull_get_tx_buffer
  get_pair sn0 pkt rest a b r f w e = rw e refl
  get_pair sn1 pkt rest a b r f w e = rw e refl

  enqueue_pair :
      (s : Side) (pkt : Packet) (a b : Dev) (r : List (Side × List ℕ)) (f : List (Option ℕ))
      (w : k.World)
      → b.rx_queue ≡ []
      → snull_enqueue_buf (twin s) pkt (pair s a b r f w)
        ≡ pair s a (record b { rx_queue = pkt ∷ [] }) r f w
  unfolding snull_enqueue_buf
  enqueue_pair sn0 pkt a b r f w e = rw e refl
  enqueue_pair sn1 pkt a b r f w e = rw e refl

  pub hw_tx_sends :
      (s : Side) (buf : List ℕ) (pkt : Packet) (rest : List Packet) (a b : Dev)
      (r : List (Side × List ℕ)) (f : List (Option ℕ)) (w : k.World)
      → ltb (length buf) 34 ≡ false
      → holds_header buf ≡ true
      → leb (length (rewrite_frame k.ip_fast_csum buf)) 1500 ≡ true
      → a.ppool ≡ pkt ∷ rest
      → b.rx_queue ≡ []
      → snull_hw_tx regular buf s (pair s a b r f w)
        ≡ some (
            raise_tx regular (length buf) s (
              raise_rx regular (twin s) (
                pair s
                  (record a { ppool = rest; stopped = if is_nil rest then true else a.stopped })
                  (record b { rx_queue = loaded pkt (rewrite_frame k.ip_fast_csum buf) ∷ [] })
                  r
                  f
                  w)))
  unfolding snull_hw_tx filled
  hw_tx_sends s buf pkt rest a b r f w long holds fits pool q =
      rw (long, holds)
        (rw (get_pair s pkt rest a b r f w pool) (
          rw fits (
            ap (λ n. some (raise_tx regular (length buf) s (raise_rx regular (twin s) n)))
              (enqueue_pair s (loaded pkt (rewrite_frame k.ip_fast_csum buf)) _ b r f w q))))

  pub tx_pair :
      (s : Side) (skb : SkBuff) (a b : Dev) (r : List (Side × List ℕ)) (f : List (Option ℕ))
      (w : k.World)
      → snull_tx regular skb s (pair s a b r f w)
        ≡ snull_hw_tx regular
            (padded skb.content)
            s
            (pair s (record a { trans_start = k.jiffies w; skb = some skb.id }) b r f w)
  unfolding snull_tx
  tx_pair sn0 skb a b r f w = refl
  tx_pair sn1 skb a b r f w = refl
