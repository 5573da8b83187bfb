-- ===== src/Snull/Poll/Order.antt =====
-- What a poll hands on, and in which order, where there is memory (snull/snull.c, `snull_poll`).
use device_drivers_lab_proje.Prelude.{
  ℕ, suc, ◌+◌, ◌-◌, ◌≤◌, ◌≡◌, inl, inr, refl, sym, ◌∙◌, ap, arith, true, false, not, List, [], ◌∷◌,
  ◌++◌, length, take, drop, min, Bool-cases, if◌then◌else◌, append_assoc, append-nil, take-nil,
  drop-nil,
}
use device_drivers_lab_proje.Prelude.Int.{ℤ, pos, ltb_ℤ}
use device_drivers_lab_proje.Snull.{
  Side, sn0, sn1, Packet, Kernel, Dev, Net, priv, put, tail_packets, is_nil, snull_release_buffer,
  snull_dequeue_buf, snull_rx_ints,
}
use device_drivers_lab_proje.Snull.Interrupt.{receive_packet}
use device_drivers_lab_proje.Snull.Poll.{
  poll_packet, poll_loop, snull_poll, less, Polled, netif_rx_complete,
}
use device_drivers_lab_proje.Snull.Poll.Queue.{poll_packet-queue}

-- What the upper layers of a device get of its packets.
abbrev pub frames : Side → List Packet → List (Side × List ℕ)
frames s [] = []
frames s (p ∷ ps) = (s, take p.datalen p.content) ∷ frames s ps

less_pos : (a x : ℕ) → x ≤ a → less (pos a) x ≡ pos (a - x)
less_pos a x h = ground arith

module _ {k : Kernel} (memory : (size : ℕ) (w : k.World) → (k.dev_alloc_skb size w).0 ≡ true) where
  received-put : (s : Side) (d : Dev) (n : Net k) → (put s d n).received ≡ n.received
  received-put sn0 d n = refl
  received-put sn1 d n = refl

  poll_packet_received :
      (s : Side) (pkt : Packet) (n : Net k)
      → ((poll_packet s pkt n).0 ≡ true)
        × ((poll_packet s pkt n).1.received
            ≡ n.received ++ ((s, take pkt.datalen pkt.content) ∷ []))
  unfolding poll_packet receive_packet snull_release_buffer snull_dequeue_buf
  poll_packet_received s pkt n =
      let d = record (priv s n) { rx_queue = tail_packets (priv s n).rx_queue } in
      let m = memory (pkt.datalen + 2) (put s d n).world in
      (m, received-put pkt.dev _ _ ∙ received-put s _ _ ∙ rw m (rw (received-put s d n) refl))

  poll_loop-nil : (s : Side) (quota : ℤ) (c : ℕ) (n : Net k) → poll_loop s quota [] c n ≡ (c, n)
  unfolding poll_loop
  poll_loop-nil s quota c n = refl

  poll_loop-cons :
      (s : Side) (quota : ℤ) (pkt : Packet) (q : List Packet) (c : ℕ) (n : Net k)
      → poll_loop s quota (pkt ∷ q) c n ≡ (
          if ltb_ℤ (pos c) quota
          then poll_loop s quota q
              (if (poll_packet s pkt n).0 then suc c else c)
              (poll_packet s pkt n).1
          else (c, n))
  unfolding poll_loop
  poll_loop-cons s quota pkt q c n = refl

  poll_loop-frames :
      (s : Side) (a c : ℕ) (q : List Packet) (n : Net k)
      → (priv s n).rx_queue ≡ q
      → let r = poll_loop s (pos a) q c n in
        (r.0 ≡ c + min (a - c) (length q))
        × ((r.1.received ≡ n.received ++ frames s (take (a - c) q))
            × ((priv s r.1).rx_queue ≡ drop (a - c) q))
  poll_loop-frames s a c [] n e = rw poll_loop-nil (
    omega arith,
    (
      sym (ap (λ l. n.received ++ frames s l) (take-nil (a - c)) ∙ append-nil n.received),
      e ∙ sym (drop-nil (a - c)),
    ),
  )
  poll_loop-frames s a c (pkt ∷ q) n e =
      let (ok, got) = poll_packet_received s pkt n in
      let n1 = (poll_packet s pkt n).1 in
      let (count, (got', left)) =
        poll_loop-frames s a (suc c) q n1 (poll_packet-queue s pkt n ∙ ap tail_packets e) in
      rw poll_loop-cons (elim (Bool-cases (ltb_ℤ (pos c) (pos a))) [
        | inl t ↦
            (let one : a - c ≡ suc (a - suc c) = ground arith in
              rw t (
                rw ok (
                  omega (arith, count, one),
                  (
                    got'
                        ∙ rw got (
                            append_assoc n.received _ (frames s (take (a - suc c) q))
                            ∙ ap (λ m. n.received ++ frames s (take m (pkt ∷ q))) (sym one)),
                    left ∙ ap (λ m. drop m (pkt ∷ q)) (sym one),
                  ),
                )))
        | inr t ↦
            (let none_left : a - c ≡ 0 = ground arith in
              rw t (omega arith, (rw none_left (sym (append-nil n.received)), rw none_left e)))
      ])

  -- What `snull_poll` makes of the loop's result.
  abbrev ended : Side → ℤ → ℤ → ℕ × Net k → Polled k
  ended s quota budget r =
      let idle = is_nil (priv s r.1).rx_queue in
      record {
        more = if idle then false else true;
        budget = less budget r.0;
        quota = less quota r.0;
        net = if idle then snull_rx_ints s true (netif_rx_complete s r.1) else r.1;
      }

  ended_keeps :
      (s : Side) (quota budget : ℤ) (r : ℕ × Net k)
      → ((ended s quota budget r).net.received ≡ r.1.received)
        × (((priv s (ended s quota budget r).net).rx_queue ≡ (priv s r.1).rx_queue)
            × ((ended s quota budget r).more ≡ not (is_nil (priv s r.1).rx_queue)))
  unfolding snull_rx_ints
  ended_keeps s quota budget r = elim (Bool-cases (is_nil (priv s r.1).rx_queue)) [
    | inl e ↦ rw e (completed s r.1)
    | inr e ↦ rw e (refl, (refl, refl))
  ]
    where
      completed :
          (s : Side) (n : Net k)
          → let n' =
              put s
                (record (priv s (netif_rx_complete s n)) { rx_int_enabled = true })
                (netif_rx_complete s n) in
            (n'.received ≡ n.received)
            × (((priv s n').rx_queue ≡ (priv s n).rx_queue) × (false ≡ false))
      completed sn0 n = (refl, (refl, refl))
      completed sn1 n = (refl, (refl, refl))

  snull_poll-ended :
      (s : Side) (quota budget : ℕ) (n : Net k)
      → snull_poll s (pos quota) (pos budget) n
        ≡ ended s
            (pos quota)
            (pos budget)
            (poll_loop s (pos (min quota budget)) (priv s n).rx_queue 0 n)
  unfolding snull_poll
  snull_poll-ended s quota budget n =
      let least : (if ltb_ℤ (pos quota) (pos budget) then pos quota else pos budget)
          ≡ pos (min quota budget) =
        ground arith in
      ap (λ l. ended s (pos quota) (pos budget) (poll_loop s l (priv s n).rx_queue 0 n)) least

  -- Where there is memory, a poll hands the first packets of the queue to the upper layers, in the
  -- queue's order, as many as both the quota and the budget allow; the rest stays queued. Quota and
  -- budget go down by their number, and the answer is 1 just if packets are left.
  pub snull_poll-frames :
      (s : Side) (quota budget : ℕ) (n : Net k)
      → let q = (priv s n).rx_queue in
        let m = min quota budget in
        let p = snull_poll s (pos quota) (pos budget) n in
        (p.net.received ≡ n.received ++ frames s (take m q))
        × (((priv s p.net).rx_queue ≡ drop m q)
            × ((p.more ≡ not (is_nil (drop m q)))
                × ((p.budget ≡ pos (budget - min m (length q)))
                    × (p.quota ≡ pos (quota - min m (length q))))))
  snull_poll-frames s quota budget n =
      let q = (priv s n).rx_queue in
      let m = min quota budget in
      let r = poll_loop s (pos m) q 0 n in
      let (got, (left, more)) = ended_keeps s (pos quota) (pos budget) r in
      let (count, (got', left')) = poll_loop-frames s m 0 q n refl in
      let zero_less : m - 0 ≡ m = omega arith in
      let q_left : (priv s r.1).rx_queue ≡ drop m q = left' ∙ ap (λ i. drop i q) zero_less in
      let c : r.0 ≡ min m (length q) = omega (arith, count) in
      rw snull_poll-ended (
        got ∙ got' ∙ ap (λ i. n.received ++ frames s (take i q)) zero_less,
        (
          left ∙ q_left,
          (
            more ∙ ap (λ l. not (is_nil l)) q_left,
            (rw c (less_pos budget _ (omega arith)), rw c (less_pos quota _ (omega arith))),
          ),
        ),
      )
