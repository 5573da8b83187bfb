-- ===== src/Snull/Interrupt.antt =====
-- The interrupt handlers of the network devices (snull/snull.c), and the reception of a packet.
use device_drivers_lab_proje.Prelude.{
  suc, ◌+◌, Bool, true, false, Option, none, some, [], ◌∷◌, ◌++◌, if◌then◌else◌, take,
}
use device_drivers_lab_proje.Snull.{
  Side, Packet, Stats, Kernel, Net, priv, put, wrapped, head_packet, tail_packets,
  snull_release_buffer, snull_rx_ints,
}

module _ {k : Kernel} where
  open k use {dev_alloc_skb}

  -- `dev_alloc_skb`, and where there is memory the packet's bytes handed to the upper layers of the
  -- device: both `snull_rx` and the loop of `snull_poll`.
  unfoldable pub receive_packet : Side → Packet → Net k → Bool × Net k
  receive_packet s pkt n =
      let (ok, w) = dev_alloc_skb (pkt.datalen + 2) n.world in
      let d = priv s n in
      let st = d.stats in
      let counted : Stats =
        if ok
        then record st {
          rx_packets = wrapped (suc st.rx_packets);
          rx_bytes = wrapped (st.rx_bytes + pkt.datalen);
        }
        else record st { rx_dropped = wrapped (suc st.rx_dropped) } in
      let got = if ok then (s, take pkt.datalen pkt.content) ∷ [] else [] in
      (
        ok,
        put s (record d { stats = counted }) (record n { received = n.received ++ got; world = w }),
      )

  unfoldable pub snull_rx : Side → Packet → Net k → Net k
  unfolding receive_packet
  snull_rx s pkt n = (receive_packet s pkt n).1

  abbrev pub rx_packet : Side → Option Packet → Net k → Net k
  rx_packet s none n = n
  rx_packet s (some pkt) n = snull_rx s pkt n

  abbrev pub release_packet : Option Packet → Net k → Net k
  release_packet none n = n
  release_packet (some pkt) n = snull_release_buffer pkt n

  -- The receive interrupt: the packet taken off the queue, if there is one.
  unfoldable pub take_received : Side → Net k → Option Packet × Net k
  take_received s n =
      let d = priv s n in
      let pkt = head_packet d.rx_queue in
      (pkt, rx_packet s pkt (put s (record d { rx_queue = tail_packets d.rx_queue }) n))

  -- The transmit interrupt: a packet counted, its socket buffer freed.
  unfoldable pub transmitted : Side → Net k → Net k
  transmitted s n =
      let d = priv s n in
      let st = d.stats in
      put s
        (record d {
          stats = record st {
            tx_packets = wrapped (suc st.tx_packets);
            tx_bytes = wrapped (st.tx_bytes + d.tx_packetlen);
          };
        })
        (record n { freed = n.freed ++ (d.skb ∷ []) })

  -- The status word is read and reset.
  abbrev pub clear_status : Side → Net k → Net k
  clear_status s n = put s (record (priv s n) { rx_intr = false; tx_intr = false }) n

  unfoldable pub snull_regular_interrupt : Side → Net k → Net k
  unfolding take_received transmitted
  snull_regular_interrupt s n =
      let d = priv s n in
      let (pkt, n1) =
        if d.rx_intr then take_received s (clear_status s n) else (none, clear_status s n) in
      let n2 = if d.tx_intr then transmitted s n1 else n1 in release_packet pkt n2

  -- `netif_rx_schedule`
  abbrev pub netif_rx_schedule : Side → Net k → Net k
  netif_rx_schedule s n = put s (record (priv s n) { rx_scheduled = true }) n

  unfoldable pub snull_napi_interrupt : Side → Net k → Net k
  unfolding transmitted
  snull_napi_interrupt s n =
      let d = priv s n in
      let n0 = clear_status s n in
      let n1 = if d.rx_intr then netif_rx_schedule s (snull_rx_ints s false n0) else n0 in
      if d.tx_intr then transmitted s n1 else n1

  -- The function pointer `snull_interrupt`, as `snull_init_module` sets it.
  unfoldable pub snull_interrupt : Bool → Side → Net k → Net k
  unfolding snull_regular_interrupt snull_napi_interrupt
  snull_interrupt true = snull_napi_interrupt
  snull_interrupt false = snull_regular_interrupt
