-- ===== src/Snull.antt =====
-- The network devices over memory (snull/snull.c, snull.h): the two devices, what each keeps, and
-- their packet buffers. Frames sent on one device are received on the other.
pub mod Frame
pub mod Interrupt
pub mod Transmit
pub mod Poll
pub mod Setup
pub mod Kept
mod Tests
use device_drivers_lab_proje.Prelude.{
  ℕ, suc, ◌+◌, ◌%◌, ◌^◌, Bool, true, false, ◌&&◌, Option, none, some, List, [], ◌∷◌, if◌then◌else◌,
}
use device_drivers_lab_proje.Prelude.Int.{ℤ}

-- `snull_devs[0]` and `snull_devs[1]`
pub data Side : Type 0 where
  sn0 sn1 : Side

abbrev pub twin : Side → Side
twin sn0 = sn1
twin sn1 = sn0

-- `ETH_DATA_LEN`, `ETH_ZLEN`, `ETH_HLEN` and `ETH_ALEN` of <linux/if_ether.h>
abbrev pub eth_data_len : ℕ
eth_data_len = 1500

abbrev pub eth_zlen : ℕ
eth_zlen = 60

-- `struct snull_packet`: the device whose pool it belongs to, and `data`, an array of `ETH_DATA_LEN`
-- bytes.
pub record Packet : Type 0 where
  pub dev : Side
  pub datalen : ℕ
  pub content : List ℕ

-- `struct net_device_stats`, the counters that the driver uses: each an `unsigned long`.
pub record Stats : Type 0 where
  pub rx_packets : ℕ
  pub rx_bytes : ℕ
  pub rx_dropped : ℕ
  pub tx_packets : ℕ
  pub tx_bytes : ℕ
  pub tx_errors : ℕ

-- What the driver calls and does not implement: `dev_alloc_skb`, which succeeds or not, the checksum
-- of an IP header, by its bytes and its length in words, and the clock.
pub record Kernel : Type 1 where
  pub World : Type 0
  pub dev_alloc_skb : ℕ → World → Bool × World
  pub ip_fast_csum : List ℕ → ℕ → ℕ × ℕ
  pub jiffies : World → ℕ

-- `struct snull_priv`, its status word as two bits, less `tx_packetdata`, which nothing reads; and of
-- `struct net_device` the state of its transmit queue, whether it waits to be polled, and the fields
-- that the driver sets. `skb` is the number of a socket buffer.
pub record Dev : Type 0 where
  pub stats : Stats
  pub rx_intr : Bool
  pub tx_intr : Bool
  pub ppool : List Packet
  pub rx_queue : List Packet
  pub rx_int_enabled : Bool
  pub tx_packetlen : ℕ
  pub skb : Option ℕ
  pub stopped : Bool
  pub rx_scheduled : Bool
  pub trans_start : ℕ
  pub dev_addr : List ℕ
  pub mtu : ℤ

-- Both devices, with what was handed to the kernel so far: the frames received, by the device, and
-- the socket buffers freed.
pub record Net (k : Kernel) : Type 0 where
  pub dev0 : Dev
  pub dev1 : Dev
  pub received : List (Side × List ℕ)
  pub freed : List (Option ℕ)
  pub world : k.World

module _ {k : Kernel} where
  -- `netdev_priv`
  abbrev pub priv : Side → Net k → Dev
  priv sn0 n = n.dev0
  priv sn1 n = n.dev1

  abbrev pub put : Side → Dev → Net k → Net k
  put sn0 d n = record n { dev0 = d }
  put sn1 d n = record n { dev1 = d }

abbrev pub is_nil {ℓ} : {A : Type ℓ} → List A → Bool
is_nil [] = true
is_nil (x ∷ xs) = false

-- `++` of an `unsigned long`, and `+=`
abbrev pub wrapped : ℕ → ℕ
wrapped n = n % 2 ^ 64

-- The first packet of the pool goes, and the queue stops behind the last; none where the pool is
-- empty, since the code follows its NULL pointer.
abbrev pub take_packet : Dev → List Packet → Option (Packet × Dev)
take_packet d [] = none
take_packet d (pkt ∷ pool) =
    some (pkt, record d { ppool = pool; stopped = if is_nil pool then true else d.stopped })

abbrev pub head_packet : List Packet → Option Packet
head_packet [] = none
head_packet (pkt ∷ q) = some pkt

abbrev pub tail_packets : List Packet → List Packet
tail_packets [] = []
tail_packets (pkt ∷ q) = q

module _ {k : Kernel} where
  abbrev pub netif_stop_queue : Side → Net k → Net k
  netif_stop_queue s n = put s (record (priv s n) { stopped = true }) n

  abbrev pub netif_wake_queue : Side → Net k → Net k
  netif_wake_queue s n = put s (record (priv s n) { stopped = false }) n

  abbrev pub put_taken : Side → Net k → Option (Packet × Dev) → Option (Packet × Net k)
  put_taken s n none = none
  put_taken s n (some (pkt, d)) = some (pkt, put s d n)

  unfoldable pub snull_get_tx_buffer : Side → Net k → Option (Packet × Net k)
  snull_get_tx_buffer s n = put_taken s n (take_packet (priv s n) (priv s n).ppool)

  -- The packet goes back to its own device, whose queue wakes if the pool was empty.
  unfoldable pub snull_release_buffer : Packet → Net k → Net k
  snull_release_buffer pkt n =
      let d = priv pkt.dev n in
      put pkt.dev
        (record d {
          ppool = pkt ∷ d.ppool;
          stopped = if d.stopped && is_nil d.ppool then false else d.stopped;
        })
        n

  unfoldable pub snull_enqueue_buf : Side → Packet → Net k → Net k
  snull_enqueue_buf s pkt n = let d = priv s n in put s (record d { rx_queue = pkt ∷ d.rx_queue }) n

  unfoldable pub snull_dequeue_buf : Side → Net k → Option Packet × Net k
  snull_dequeue_buf s n =
      let d = priv s n in
      (head_packet d.rx_queue, put s (record d { rx_queue = tail_packets d.rx_queue }) n)

  unfoldable pub snull_rx_ints : Side → Bool → Net k → Net k
  snull_rx_ints s enable n = put s (record (priv s n) { rx_int_enabled = enable }) n
