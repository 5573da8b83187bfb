-- ===== src/Snull/Kept/Reach.antt =====
-- Packets are kept by every operation of the network devices (snull/snull.c), in any order.
use device_drivers_lab_proje.Prelude.{
  ℕ, zero, suc, ◌%◌, ◌≡◌, splice, inl, inr, refl, sym, ◌∙◌, ap, arith, Bool, true, false, Option,
  none, some, List, [], ◌∷◌, length, Bool-cases, List-cases, if◌then◌else◌, ltb, leb, not, ◌&&◌,
  ◌||◌, ◌==◌,
}
use device_drivers_lab_proje.Prelude.Int.{ℤ, pos, ltb_ℤ}
use mathlib.Core.Path.{subst}
use device_drivers_lab_proje.Snull.{
  Side, sn0, sn1, twin, Packet, Kernel, Dev, Net, priv, put, head_packet, tail_packets,
  snull_get_tx_buffer, snull_dequeue_buf, snull_rx_ints, is_nil, wrapped,
}
use device_drivers_lab_proje.Snull.Transmit.{
  SkBuff, Modes, filled, raise_rx, raise_tx, snull_hw_tx, snull_tx, snull_tx_timeout,
}
use device_drivers_lab_proje.Snull.Poll.Queue.{poll_packet-queue}
use device_drivers_lab_proje.Snull.Poll.{poll_packet, poll_loop, snull_poll}
use device_drivers_lab_proje.Snull.Setup.{
  snull_init, snull_setup_pool, setup_pool_loop, snull_open, snull_release, snull_change_mtu,
}
use device_drivers_lab_proje.Snull.Frame.{holds_header, padded, rewrite_frame}
use device_drivers_lab_proje.Snull.Kept.Interrupts.{receive-Kept, interrupt-Kept}
use device_drivers_lab_proje.Snull.Kept.{
  AllOf, Kept, put_same, get-Kept, enqueue-Kept, dequeue-Kept, release-Kept,
}

module _ {k : Kernel} where
  -- What the devices and the kernel do to each other. A transmission that runs into a wild access is no
  -- step.
  pub data Step (m : Modes) : Net k → Net k → Type 0 where
    tx : (s : Side) (skb : SkBuff) (n n' : Net k) → snull_tx m skb s n ≡ some n' → Step m n n'
    timeout : (s : Side) (n : Net k) → Step m n (snull_tx_timeout m s n)
    poll : (s : Side) (quota budget : ℤ) (n : Net k) → Step m n (snull_poll s quota budget n).net
    open_dev : (s : Side) (n : Net k) → Step m n (snull_open s n)
    release : (s : Side) (n : Net k) → Step m n (snull_release s n)
    change_mtu : (s : Side) (mtu : ℤ) (n : Net k) → Step m n (snull_change_mtu s mtu n).1

  pub data Reach (m : Modes) (n : Net k) : Net k → Type 0 where
    here : Reach m n n
    next : {u v : Net k} → Reach m n u → Step m u v → Reach m n v

-- Of a call that has a result.
abbrev KeptAfter : {k : Kernel} → (Side → ℕ) → Option (Net k) → Type 0
KeptAfter size none = Unit
KeptAfter size (some n) = Kept size none n

twin-twin : (s : Side) → twin (twin s) ≡ s
twin-twin sn0 = refl
twin-twin sn1 = refl

module _ {k : Kernel} {size : Side → ℕ} where
  raise_rx-Kept :
      (m : Modes) (s : Side) {n : Net k} → Kept size none n → Kept size none (raise_rx m s n)
  unfolding raise_rx
  raise_rx-Kept m s {n = n} v = elim (Bool-cases (priv s n).rx_int_enabled) [
    | inl e ↦ rw e (interrupt-Kept m.use_napi s (put_same s _ v refl refl))
    | inr e ↦ rw e v
  ]

  raise_tx-Kept :
      (m : Modes) (len : ℕ) (s : Side) {n : Net k}
      → Kept size none n
      → Kept size none (raise_tx m len s n)
  unfolding raise_tx
  raise_tx-Kept m len s {n = n} v =
      let d : Dev = record (priv s n) { tx_packetlen = len; tx_intr = true } in
      let c : Kept size none (put s d n) = put_same s d v refl refl in
      if-Kept (not (m.lockup == 0) && (wrapped (suc (priv s n).stats.tx_packets) % m.lockup == 0))
        (put_same s _ c refl refl) (interrupt-Kept m.use_napi s c)
    where
      if-Kept :
          (b : Bool) {x y : Net k}
          → Kept size none x
          → Kept size none y
          → Kept size none (if b then x else y)
      if-Kept true p q = p
      if-Kept false p q = q

  refilled :
      (pkt : Packet) (len : ℕ) (bytes : List ℕ) {n : Net k}
      → Kept size (some pkt) n
      → Kept size (some (record pkt { datalen = len; content = bytes })) n
  refilled pkt len bytes v = record {
    own0 = v.own0;
    own1 = v.own1;
    from0 = v.from0;
    from1 = v.from1;
    count0 = v.count0;
    count1 = v.count1;
  }

  hw_tx-Kept :
      (m : Modes) (buf : List ℕ) (s : Side) {n : Net k}
      → Kept size none n
      → KeptAfter size (snull_hw_tx m buf s n)
  unfolding snull_hw_tx snull_get_tx_buffer filled
  hw_tx-Kept m buf s {n = n} v =
      let frame = rewrite_frame k.ip_fast_csum buf in
      elim (Bool-cases (ltb (length buf) 34)) [
        | inl e ↦ rw e v
        | inr e ↦ elim (Bool-cases (holds_header buf)) [
          | inr o ↦ rw (e, o) tt
          | inl o ↦ elim (List-cases (priv s n).ppool) [
            | inl z ↦ rw (e, o) (rw z tt)
            | inr (pkt, rest, z) ↦ elim (Bool-cases (leb (length frame) 1500)) [
              | inl f ↦
                  rw (e, o)
                    (rw z (
                      rw f (
                        let d : Dev = record (priv s n) {
                          ppool = rest;
                          stopped = if is_nil rest then true else (priv s n).stopped;
                        } in
                        let pkt' : Packet = record pkt {
                          datalen = length frame;
                          content = splice 0 frame pkt.content;
                        } in
                        let (g, at) = get-Kept s d pkt rest v z refl refl in
                        let q = refilled pkt pkt'.datalen pkt'.content g in
                        raise_tx-Kept m (length buf) s (
                          raise_rx-Kept m (twin s)
                            (enqueue-Kept (twin s) pkt' q (at ∙ sym (twin-twin s)))))))
              | inr f ↦ rw (e, o) (rw z (rw f tt))
            ]
          ]
        ]
      ]

  tx-Kept :
      (m : Modes) (skb : SkBuff) (s : Side) {n : Net k}
      → Kept size none n
      → KeptAfter size (snull_tx m skb s n)
  unfolding snull_tx
  tx-Kept m skb s v = hw_tx-Kept m (padded skb.content) s (put_same s _ v refl refl)

  timeout-Kept :
      (m : Modes) (s : Side) {n : Net k}
      → Kept size none n
      → Kept size none (snull_tx_timeout m s n)
  unfolding snull_tx_timeout
  timeout-Kept m s v =
      let c = interrupt-Kept m.use_napi s (put_same s _ v refl refl) in
      put_same s _ (put_same s _ c refl refl) refl refl

  poll_packet-Kept :
      (s : Side) (pkt : Packet) (q : List Packet) {n : Net k}
      → (priv s n).rx_queue ≡ pkt ∷ q
      → Kept size none n
      → Kept size none (poll_packet s pkt n).1
  unfolding poll_packet snull_dequeue_buf
  poll_packet-Kept s pkt q {n = n} e v =
      let d : Kept size (head_packet (priv s n).rx_queue) (snull_dequeue_buf s n).1 =
        dequeue-Kept s v in
      let c = subst (λ l. Kept size (head_packet l) (snull_dequeue_buf s n).1) e d in
      release-Kept pkt (receive-Kept s pkt c)

  poll_loop-Kept :
      (s : Side) (quota : ℤ) (q : List Packet) (npackets : ℕ) {n : Net k}
      → (priv s n).rx_queue ≡ q
      → Kept size none n
      → Kept size none (poll_loop s quota q npackets n).1
  unfolding poll_loop
  poll_loop-Kept s quota [] npackets e v = v
  poll_loop-Kept s quota (pkt ∷ q) npackets {n = n} e v =
      let n1 = (poll_packet s pkt n).1 in
      let c = if (poll_packet s pkt n).0 then suc npackets else npackets in
      let rest =
        poll_loop-Kept s quota q c {n = n1} (poll_packet-queue s pkt n ∙ ap tail_packets e)
          (poll_packet-Kept s pkt q e v) in
      elim (Bool-cases (ltb_ℤ (pos npackets) quota)) [ inl t ↦ rw t rest | inr t ↦ rw t v ]

  poll-Kept :
      (s : Side) (quota budget : ℤ) {n : Net k}
      → Kept size none n
      → Kept size none (snull_poll s quota budget n).net
  unfolding snull_poll snull_rx_ints
  poll-Kept s quota budget {n = n} v =
      let least = if ltb_ℤ quota budget then quota else budget in
      let n1 = (poll_loop s least (priv s n).rx_queue 0 n).1 in
      let c : Kept size none n1 = poll_loop-Kept s least (priv s n).rx_queue 0 refl v in
      elim (Bool-cases (is_nil (priv s n1).rx_queue)) [
        | inl e ↦ rw e (put_same s _ (put_same s _ c refl refl) refl refl)
        | inr e ↦ rw e c
      ]

  mtu-Kept :
      (s : Side) (mtu : ℤ) {n : Net k}
      → Kept size none n
      → Kept size none (snull_change_mtu s mtu n).1
  unfolding snull_change_mtu
  mtu-Kept s mtu v = elim (Bool-cases (ltb_ℤ mtu (pos 68) || ltb_ℤ (pos 1500) mtu)) [
    | inl e ↦ rw e v
    | inr e ↦ rw e (put_same s _ v refl refl)
  ]

  Step-Kept : {m : Modes} {u v : Net k} → Step m u v → Kept size none u → Kept size none v
  unfolding snull_open snull_release
  Step-Kept (tx s skb n n' e) v = subst (KeptAfter size) e (tx-Kept _ skb s v)
  Step-Kept (timeout s n) v = timeout-Kept _ s v
  Step-Kept (poll s quota budget n) v = poll-Kept s quota budget v
  Step-Kept (open_dev s n) v = put_same s _ (put_same s _ v refl refl) refl refl
  Step-Kept (release s n) v = put_same s _ v refl refl
  Step-Kept (change_mtu s mtu n) v = mtu-Kept s mtu v

  -- Whatever is sent, polled, timed out, opened, released or configured, in any order and either mode:
  -- each packet of a device stays in exactly one place, its own pool or the other device's receive
  -- queue.
  pub Reach-Kept : {m : Modes} {u v : Net k} → Kept size none u → Reach m u v → Kept size none v
  Reach-Kept v here = v
  Reach-Kept v (next r s) = Step-Kept s (Reach-Kept v r)

setup_pool-AllOf :
    (s : Side) (i : ℕ) (allocs : List (Option (List ℕ))) (pool : List Packet)
    → AllOf s pool
    → AllOf s (setup_pool_loop s i allocs pool)
unfolding setup_pool_loop
setup_pool-AllOf s zero allocs pool o = o
setup_pool-AllOf s (suc i) [] pool o = o
setup_pool-AllOf s (suc i) (none ∷ allocs) pool o = o
setup_pool-AllOf s (suc i) (some bytes ∷ allocs) pool o =
    setup_pool-AllOf s i allocs (record { dev = s; datalen = 0; content = bytes } ∷ pool) (refl, o)

-- How many packets a device gets.
abbrev pub pool_sizes : Dev → Dev → Side → ℕ
pool_sizes d0 d1 sn0 = length d0.ppool
pool_sizes d0 d1 sn1 = length d1.ppool

-- Two devices as they are set up, whatever memory there was for their pools.
pub snull_init-Kept :
    {k : Kernel} (pool_size : ℕ) (allocs0 allocs1 : List (Option (List ℕ))) (w : k.World)
    → let d0 = snull_init sn0 pool_size allocs0 in
      let d1 = snull_init sn1 pool_size allocs1 in
      let n : Net k = record { dev0 = d0; dev1 = d1; received = []; freed = []; world = w } in
      Kept (pool_sizes d0 d1) none n
unfolding snull_init snull_setup_pool
snull_init-Kept pool_size allocs0 allocs1 w = record {
  own0 = setup_pool-AllOf sn0 pool_size allocs0 [] tt;
  own1 = setup_pool-AllOf sn1 pool_size allocs1 [] tt;
  from0 = tt;
  from1 = tt;
  count0 = omega arith;
  count1 = omega arith;
}
