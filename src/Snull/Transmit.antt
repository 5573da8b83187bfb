-- ===== src/Snull/Transmit.antt =====
-- The transmission of a packet (snull/snull.c): `snull_tx`, the hardware that it simulates, and the
-- timeout.
pub mod Pair
pub mod Faults
pub mod Delivered
use device_drivers_lab_proje.Prelude.{
  ℕ, suc, ◌%◌, Bool, true, false, ◌&&◌, not, Option, none, some, List, ◌>>=◌, if◌then◌else◌, ltb,
  leb, ◌==◌, length, splice,
}
use device_drivers_lab_proje.Snull.{
  Side, twin, Packet, Kernel, Net, priv, put, wrapped, netif_stop_queue, netif_wake_queue,
  eth_data_len, snull_get_tx_buffer, snull_enqueue_buf,
}
use device_drivers_lab_proje.Snull.Frame.{rewrite_frame, padded, holds_header}
use device_drivers_lab_proje.Snull.Interrupt.{snull_interrupt}

-- `struct sk_buff`, by its number.
pub record SkBuff : Type 0 where
  pub id : ℕ
  pub content : List ℕ

-- The module's parameters `use_napi` and `lockup`.
pub record Modes : Type 0 where
  pub use_napi : Bool
  pub lockup : ℕ

-- The packet of the frame; none where the frame is longer than the packet's array, since the
-- `memcpy` leaves it.
unfoldable pub filled : Packet → List ℕ → Option Packet
filled pkt frame =
    if leb (length frame) eth_data_len
    then some (record pkt { datalen = length frame; content = splice 0 frame pkt.content })
    else none

module _ {k : Kernel} where
  open k use {ip_fast_csum, jiffies}

  -- The receive interrupt on the other device.
  unfoldable pub raise_rx : Modes → Side → Net k → Net k
  raise_rx m dest n =
      let d = priv dest n in
      if d.rx_int_enabled
      then snull_interrupt m.use_napi dest (put dest (record d { rx_intr = true }) n)
      else n

  -- The transmit interrupt on the device itself, or its simulated loss.
  unfoldable pub raise_tx : Modes → ℕ → Side → Net k → Net k
  raise_tx m len s n =
      let d = priv s n in
      let n' = put s (record d { tx_packetlen = len; tx_intr = true }) n in
      if not (m.lockup == 0) && (wrapped (suc d.stats.tx_packets) % m.lockup == 0)
      then netif_stop_queue s n'
      else snull_interrupt m.use_napi s n'

  -- None where the checksum reads behind the frame, the driver leaves the packet's memory, or it follows
  -- the NULL pointer of an empty pool.
  unfoldable pub snull_hw_tx : Modes → List ℕ → Side → Net k → Option (Net k)
  unfolding filled raise_rx raise_tx
  snull_hw_tx m buf s n =
      if ltb (length buf) 34 then some n else if not (holds_header buf) then none else do
        let frame = rewrite_frame ip_fast_csum buf
        (pkt, n1) ← snull_get_tx_buffer s n
        pkt' ← filled pkt frame
        some (raise_tx m (length buf) s (raise_rx m (twin s) (snull_enqueue_buf (twin s) pkt' n1)))

  unfoldable pub snull_tx : Modes → SkBuff → Side → Net k → Option (Net k)
  unfolding snull_hw_tx
  snull_tx m skb s n =
      snull_hw_tx m (padded skb.content) s
        (put s (record (priv s n) { trans_start = jiffies n.world; skb = some skb.id }) n)

  -- The status becomes the transmit interrupt alone.
  unfoldable pub snull_tx_timeout : Modes → Side → Net k → Net k
  snull_tx_timeout m s n =
      let n1 =
        snull_interrupt m.use_napi s
          (put s (record (priv s n) { rx_intr = false; tx_intr = true }) n) in
      let st = (priv s n1).stats in
      netif_wake_queue s (
        put s (record (priv s n1) { stats = record st { tx_errors = wrapped (suc st.tx_errors) } })
          n1)
