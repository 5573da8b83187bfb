-- ===== src/Snull/Transmit/Delivered.antt =====
-- A transmission with regular interrupts, from `snull_tx` to the other device's upper layers
-- (snull/snull.c).
use device_drivers_lab_proje.Prelude.{
  ℕ, suc, ◌+◌, ◌-◌, ◌≤◌, ◌≡◌, refl, sym, ◌∙◌, ap, arith, Bool, true, false, Option, some, List, [],
  ◌∷◌, ◌++◌, length, take, drop, splice, replicate, ltb, leb, length-append, length-replicate,
  take-append, append-nil, if◌then◌else◌, ◌&&◌,
}
use device_drivers_lab_proje.Snull.{
  Side, sn0, sn1, twin, Packet, Kernel, Dev, Net, priv, wrapped, is_nil,
}
use device_drivers_lab_proje.Snull.Frame.{holds_header, padded, rewrite_frame}
use device_drivers_lab_proje.Snull.Frame.Rewrite.{rewrite_frame-IsChecked}
use device_drivers_lab_proje.Snull.Transmit.{SkBuff, raise_tx, snull_tx}
use device_drivers_lab_proje.Snull.Transmit.Pair.{
  pair, regular, loaded, given_back, done_tx, done_rx, after_tx, after_rx, tx_pair, hw_tx_sends,
}

-- A device with regular interrupts between two transmissions: a packet of its own in the pool,
-- nothing queued, no interrupt pending, and its transmit queue running.
pub record IsIdle (s : Side) (d : Dev) : Type 0 where
  pub no_rx : d.rx_intr ≡ false
  pub no_tx : d.tx_intr ≡ false
  pub empty : d.rx_queue ≡ []
  pub enabled : d.rx_int_enabled ≡ true
  pub running : d.stopped ≡ false
  pub packet : (pkt : Packet) × (rest : List Packet) × (d.ppool ≡ pkt ∷ rest) × (pkt.dev ≡ s)

length-padded :
    (bs : List ℕ) → length bs ≤ 1500 → (60 ≤ length (padded bs)) × (length (padded bs) ≤ 1500)
unfolding padded
length-padded bs h =
    let a : length (padded bs) ≡ length bs + length (replicate (60 - length bs) 0) =
      length-append bs (replicate (60 - length bs) 0) in
    let b : length (replicate (60 - length bs) 0) ≡ 60 - length bs =
      length-replicate {A = ℕ} (60 - length bs) 0 in
    (omega (arith, a, b), omega (arith, a, b))

take-splice_whole : (bs xs : List ℕ) → take (length bs) (splice 0 bs xs) ≡ bs
take-splice_whole bs xs =
    ap (λ n. take n (bs ++ drop (0 + length bs) xs))
      (let e : length bs ≡ length bs + 0 = omega arith in e)
    ∙ take-append bs (drop (0 + length bs) xs) 0
    ∙ append-nil bs

runs_on :
    (rest : List Packet) (b : Bool)
    → b ≡ false
    → let b' = if is_nil rest then true else b in (if b' && is_nil rest then false else b') ≡ false
runs_on [] b e = refl
runs_on (p ∷ rest) b e = rw e refl

module _ {k : Kernel} where
  -- What a transmission comes to: both devices idle again, the frame rewritten and received on the
  -- other device, the socket buffer freed, the pool as large as before, and both counts one more.
  pub record Delivered (s : Side) (skb : SkBuff) (n n' : Net k) : Type 0 where
    pub idle0 : IsIdle sn0 n'.dev0
    pub idle1 : IsIdle sn1 n'.dev1
    pub got :
        n'.received
        ≡ n.received ++ ((twin s, rewrite_frame k.ip_fast_csum (padded skb.content)) ∷ [])
    pub freed : n'.freed ≡ n.freed ++ (some skb.id ∷ [])
    pub pool : length (priv s n').ppool ≡ length (priv s n).ppool
    pub sent : (priv s n').stats.tx_packets ≡ wrapped (suc (priv s n).stats.tx_packets)
    pub received :
        (priv (twin s) n').stats.rx_packets ≡ wrapped (suc (priv (twin s) n).stats.rx_packets)

  delivers :
      (memory : (size : ℕ) (w : k.World) → (k.dev_alloc_skb size w).0 ≡ true) (s : Side)
      (skb : SkBuff) (a b : Dev) (r : List (Side × List ℕ)) (f : List (Option ℕ)) (w : k.World)
      → IsIdle s a
      → IsIdle (twin s) b
      → length skb.content ≤ 1500
      → holds_header (padded skb.content) ≡ true
      → (a' : Dev) × (b' : Dev) × (w' : k.World) × (snull_tx regular skb s
            (pair {k = k} s a b r f w)
          ≡ some (
              pair {k = k} s a' b'
                (r ++ ((twin s, rewrite_frame k.ip_fast_csum (padded skb.content)) ∷ []))
                (f ++ (some skb.id ∷ []))
                w'))
        × (IsIdle s a' × IsIdle (twin s) b')
        × (length a'.ppool ≡ length a.ppool)
        × (a'.stats.tx_packets ≡ wrapped (suc a.stats.tx_packets))
        × (b'.stats.rx_packets ≡ wrapped (suc b.stats.rx_packets))
  delivers memory s skb a b r f w i j h holds =
      let buf = padded skb.content in
      let frame = rewrite_frame k.ip_fast_csum buf in
      let (lo, hi) = length-padded skb.content h in
      let same : length frame ≡ length buf =
        (rewrite_frame-IsChecked k.ip_fast_csum buf (omega arith)).0 in
      let long : ltb (length buf) 34 ≡ false = ground arith in
      let fits : leb (length frame) 1500 ≡ true = ground arith in
      let a1 : Dev = record a { trans_start = k.jiffies w; skb = some skb.id } in
      let pkt = i.packet.0 in
      let rest = i.packet.1 in
      let pkt' = loaded pkt frame in
      let a2 : Dev = record a1 {
        ppool = rest;
        stopped = if is_nil rest then true else a.stopped;
      } in
      let rx =
        after_rx s pkt' a2 b r f w i.packet.3 j.enabled j.no_tx (memory (length frame + 2) w) in
      let got = take-splice_whole frame pkt.content in
      let a3 = done_tx (given_back pkt' a2) (length buf) in
      let b3 = done_rx b (length frame) in
      let w' = (k.dev_alloc_skb (length frame + 2) w).1 in
      let f' = f ++ (some skb.id ∷ []) in
      let r' = r ++ ((twin s, take (length frame) (splice 0 frame pkt.content)) ∷ []) in
      (
        a3,
        b3,
        w',
        tx_pair s skb a b r f w
            ∙ hw_tx_sends s buf pkt rest a1 b r f w long holds fits i.packet.2 j.empty
            ∙ ap (λ n. some (raise_tx regular (length buf) s n)) rx
            ∙ ap some (after_tx s (length buf) (given_back pkt' a2) b3 r' f w' i.no_rx)
            ∙ ap (λ bs. some (pair s a3 b3 (r ++ ((twin s, bs) ∷ [])) f' w')) got,
        (
          record {
            no_rx = refl;
            no_tx = refl;
            empty = i.empty;
            enabled = i.enabled;
            running = runs_on rest a.stopped i.running;
            packet = (pkt', rest, refl, i.packet.3);
          },
          record {
            no_rx = refl;
            no_tx = refl;
            empty = refl;
            enabled = j.enabled;
            running = j.running;
            packet = j.packet;
          },
        ),
        sym (ap length i.packet.2),
        refl,
        refl,
      )

  -- With regular interrupts, none of which is lost, and memory for socket buffers: between idle devices
  -- a transmission of a frame that fits a packet, and which, padded, holds its IP header, always ends, and the frame, padded and with its
  -- addresses rewritten, is received on the other device.
  pub snull_tx-Delivered :
      (memory : (size : ℕ) (w : k.World) → (k.dev_alloc_skb size w).0 ≡ true) (s : Side)
      (skb : SkBuff) (n : Net k)
      → IsIdle sn0 n.dev0
      → IsIdle sn1 n.dev1
      → length skb.content ≤ 1500
      → holds_header (padded skb.content) ≡ true
      → (n' : Net k) × (snull_tx regular skb s n ≡ some n') × Delivered s skb n n'
  snull_tx-Delivered memory sn0 skb n i j h holds =
      let (a, b, w, e, (p, q), pool, sent, received) =
        delivers memory sn0 skb n.dev0 n.dev1 n.received n.freed n.world i j h holds in
      (
        _,
        e,
        record {
          idle0 = p;
          idle1 = q;
          got = refl;
          freed = refl;
          pool = pool;
          sent = sent;
          received = received;
        },
      )
  snull_tx-Delivered memory sn1 skb n i j h holds =
      let (a, b, w, e, (p, q), pool, sent, received) =
        delivers memory sn1 skb n.dev1 n.dev0 n.received n.freed n.world j i h holds in
      (
        _,
        e,
        record {
          idle0 = q;
          idle1 = p;
          got = refl;
          freed = refl;
          pool = pool;
          sent = sent;
          received = received;
        },
      )
