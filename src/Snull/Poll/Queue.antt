-- ===== src/Snull/Poll/Queue.antt =====
-- What one round of the poll does to the receive queue (snull/snull.c, `snull_poll`).
use device_drivers_lab_proje.Prelude.{◌≡◌, refl, ◌∙◌, ap, Bool, List}
use device_drivers_lab_proje.Snull.{
  Side, sn0, sn1, Packet, Kernel, Dev, Net, priv, put, tail_packets, snull_release_buffer,
  snull_dequeue_buf,
}
use device_drivers_lab_proje.Snull.Interrupt.{receive_packet}
use device_drivers_lab_proje.Snull.Poll.{poll_packet}

module _ {k : Kernel} where
  pub priv-put : (s : Side) (d : Dev) (n : Net k) → priv s (put s d n) ≡ d
  priv-put sn0 d n = refl
  priv-put sn1 d n = refl

  -- A device put back with another pool.
  queue_same :
      (s t : Side) (pool : List Packet) (b : Bool) (n : Net k)
      → (priv s (put t (record (priv t n) { ppool = pool; stopped = b }) n)).rx_queue
        ≡ (priv s n).rx_queue
  queue_same sn0 sn0 pool b n = refl
  queue_same sn0 sn1 pool b n = refl
  queue_same sn1 sn0 pool b n = refl
  queue_same sn1 sn1 pool b n = refl

  pub poll_packet-queue :
      (s : Side) (pkt : Packet) (n : Net k)
      → (priv s (poll_packet s pkt n).1).rx_queue ≡ tail_packets (priv s n).rx_queue
  unfolding poll_packet snull_release_buffer receive_packet snull_dequeue_buf
  poll_packet-queue s pkt n =
      queue_same s pkt.dev _ _ (receive_packet s pkt (snull_dequeue_buf s n).1).1
      ∙ ap (λ d. d.rx_queue) (priv-put s _ _)
      ∙ ap (λ d. d.rx_queue) (priv-put s _ _)
