-- ===== src/Snull/Poll.antt =====
-- The poll of a network device (snull/snull.c, `snull_poll`).
pub mod Queue
pub mod Drain
pub mod Order
use device_drivers_lab_proje.Prelude.{ℕ, suc, ◌+◌, Bool, true, false, List, [], ◌∷◌, if◌then◌else◌}
use device_drivers_lab_proje.Prelude.Int.{ℤ, pos, negsuc, ltb_ℤ, sub_ℕ}
use device_drivers_lab_proje.Snull.{
  Side, Packet, Kernel, Net, priv, put, is_nil, snull_dequeue_buf, snull_release_buffer,
  snull_rx_ints,
}
use device_drivers_lab_proje.Snull.Interrupt.{receive_packet}

-- `a - n` of an int and a count.
abbrev pub less : ℤ → ℕ → ℤ
less (pos a) n = sub_ℕ a n
less (negsuc a) n = sub_ℕ 0 (suc a + n)

-- The answer (true for 1, more to do), the budget and the quota left, and the devices.
pub record Polled (k : Kernel) : Type 0 where
  pub more : Bool
  pub budget : ℤ
  pub quota : ℤ
  pub net : Net k

module _ {k : Kernel} where
  -- One packet: dequeued, handed on if there is memory, and released.
  unfoldable pub poll_packet : Side → Packet → Net k → Bool × Net k
  poll_packet s pkt n =
      let (ok, n1) = receive_packet s pkt (snull_dequeue_buf s n).1 in
      (ok, snull_release_buffer pkt n1)

  -- The loop, on the packets queued: the count of packets handed on.
  unfoldable pub poll_loop : Side → ℤ → List Packet → ℕ → Net k → ℕ × Net k
  unfolding poll_packet
  poll_loop s quota [] npackets n = (npackets, n)
  poll_loop s quota (pkt ∷ q) npackets n =
      let (ok, n1) = poll_packet s pkt n in
      let rest = poll_loop s quota q (if ok then suc npackets else npackets) n1 in
      if ltb_ℤ (pos npackets) quota then rest else (npackets, n)

  -- `netif_rx_complete`
  abbrev pub netif_rx_complete : Side → Net k → Net k
  netif_rx_complete s n = put s (record (priv s n) { rx_scheduled = false }) n

  unfoldable pub snull_poll : Side → ℤ → ℤ → Net k → Polled k
  unfolding poll_loop
  snull_poll s dev_quota budget n =
      let quota = if ltb_ℤ dev_quota budget then dev_quota else budget in
      let (npackets, n1) = poll_loop s quota (priv s n).rx_queue 0 n in
      let idle = is_nil (priv s n1).rx_queue in
      record {
        more = if idle then false else true;
        budget = less budget npackets;
        quota = less dev_quota npackets;
        net = if idle then snull_rx_ints s true (netif_rx_complete s n1) else n1;
      }
