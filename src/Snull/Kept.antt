-- ===== src/Snull/Kept.antt =====
-- No packet is lost or given twice (snull/snull.c): where the packets of the two pools are, whatever
-- the devices do.
pub mod Interrupts
pub mod Reach
use device_drivers_lab_proje.Prelude.{
  ℕ, suc, ◌+◌, ◌≡◌, inl, inr, refl, sym, ◌∙◌, ap, arith, Bool, true, false, Option, none, some,
  List, [], ◌∷◌, length, Bool-cases, Option-cases, List-cases, if◌then◌else◌,
}
use mathlib.Core.Path.{subst}
use device_drivers_lab_proje.Snull.{
  Side, sn0, sn1, twin, Packet, Kernel, Dev, Net, priv, put, head_packet, tail_packets,
  snull_release_buffer, snull_get_tx_buffer, snull_enqueue_buf, snull_dequeue_buf, take_packet,
}

abbrev pub AllOf : Side → List Packet → Type 0
AllOf s [] = Unit
AllOf s (p ∷ ps) = (p.dev ≡ s) × AllOf s ps

-- Whether a packet in flight belongs to the device, as a number.
abbrev is_side : Side → Side → ℕ
is_side sn0 sn0 = 1
is_side sn0 sn1 = 0
is_side sn1 sn0 = 0
is_side sn1 sn1 = 1

abbrev pub held_of : Side → Option Packet → ℕ
held_of s none = 0
held_of s (some p) = is_side s p.dev

-- Each packet of a device is in its pool, or in the other's receive queue, or the one in flight.
pub record Kept (size : Side → ℕ) {k : Kernel} (held : Option Packet) (n : Net k) : Type 0 where
  pub own0 : AllOf sn0 n.dev0.ppool
  pub own1 : AllOf sn1 n.dev1.ppool
  pub from0 : AllOf sn1 n.dev0.rx_queue
  pub from1 : AllOf sn0 n.dev1.rx_queue
  pub count0 : length n.dev0.ppool + length n.dev1.rx_queue + held_of sn0 held ≡ size sn0
  pub count1 : length n.dev1.ppool + length n.dev0.rx_queue + held_of sn1 held ≡ size sn1

held_own : (s : Side) (p : Packet) → p.dev ≡ s → held_of s (some p) ≡ 1
held_own sn0 p e = rw e refl
held_own sn1 p e = rw e refl

held_other : (s : Side) (p : Packet) → p.dev ≡ s → held_of (twin s) (some p) ≡ 0
held_other sn0 p e = rw e refl
held_other sn1 p e = rw e refl

held_foreign :
    (s : Side) (p : Packet)
    → p.dev ≡ twin s
    → (held_of s (some p) ≡ 0) × (held_of (twin s) (some p) ≡ 1)
held_foreign sn0 p e = (rw e refl, rw e refl)
held_foreign sn1 p e = (rw e refl, rw e refl)

module _ {k : Kernel} {size : Side → ℕ} where
  pub own : (s : Side) {h : Option Packet} {n : Net k} → Kept size h n → AllOf s (priv s n).ppool
  own sn0 v = v.own0
  own sn1 v = v.own1

  pub from :
      (s : Side) {h : Option Packet} {n : Net k}
      → Kept size h n
      → AllOf (twin s) (priv s n).rx_queue
  from sn0 v = v.from0
  from sn1 v = v.from1

  pub count :
      (s : Side) {h : Option Packet} {n : Net k}
      → Kept size h n
      → length (priv s n).ppool + length (priv (twin s) n).rx_queue + held_of s h ≡ size s
  count sn0 v = v.count0
  count sn1 v = v.count1

  pub put-Kept :
      (s : Side) (d : Dev) {n : Net k} {h h' : Option Packet}
      → Kept size h n
      → AllOf s d.ppool
      → AllOf (twin s) d.rx_queue
      → length d.ppool + length (priv (twin s) n).rx_queue + held_of s h' ≡ size s
      → length (priv (twin s) n).ppool + length d.rx_queue + held_of (twin s) h' ≡ size (twin s)
      → Kept size h' (put s d n)
  put-Kept sn0 d v o f c c' = record {
    own0 = o;
    own1 = v.own1;
    from0 = f;
    from1 = v.from1;
    count0 = c;
    count1 = c';
  }
  put-Kept sn1 d v o f c c' = record {
    own0 = v.own0;
    own1 = o;
    from0 = v.from0;
    from1 = f;
    count0 = c';
    count1 = c;
  }

  count_twin :
      (s : Side) {h : Option Packet} {n : Net k}
      → Kept size h n
      → length (priv (twin s) n).ppool + length (priv s n).rx_queue + held_of (twin s) h
        ≡ size (twin s)
  count_twin sn0 v = v.count1
  count_twin sn1 v = v.count0

  -- Any change of a device but to its pool and its queue.
  pub put_same :
      (s : Side) (d : Dev) {n : Net k} {h : Option Packet}
      → Kept size h n
      → d.ppool ≡ (priv s n).ppool
      → d.rx_queue ≡ (priv s n).rx_queue
      → Kept size h (put s d n)
  put_same s d v p q =
      put-Kept s d v (rw p (own s v)) (rw q (from s v)) (rw p (count s v)) (rw q (count_twin s v))

  -- The pool's first packet taken.
  pub get-Kept :
      (s : Side) {n : Net k} (d : Dev) (pkt : Packet) (rest : List Packet)
      → Kept size none n
      → (priv s n).ppool ≡ pkt ∷ rest
      → d.ppool ≡ rest
      → d.rx_queue ≡ (priv s n).rx_queue
      → Kept size (some pkt) (put s d n) × (pkt.dev ≡ s)
  get-Kept s d pkt rest v e p q =
      let (at, o) : AllOf s (pkt ∷ rest) = subst (AllOf s) e (own s v) in
      let l = ap length e in
      (
        put-Kept s d v (rw p o) (rw q (from s v))
            (rw p (omega (arith, count s v, l, held_own s pkt at)))
            (rw q (omega (arith, count_twin s v, held_other s pkt at))),
        at,
      )

  pub enqueue-Kept :
      (s : Side) (pkt : Packet) {n : Net k}
      → Kept size (some pkt) n
      → pkt.dev ≡ twin s
      → Kept size none (snull_enqueue_buf s pkt n)
  unfolding snull_enqueue_buf
  enqueue-Kept s pkt v e =
      let f = held_foreign s pkt e in
      put-Kept s _ v (own s v) (e, from s v) (omega (arith, count s v, f.0))
        (omega (arith, count_twin s v, f.1))

  pub dequeue-Kept :
      (s : Side) {n : Net k}
      → Kept size none n
      → Kept size (snull_dequeue_buf s n).0 (snull_dequeue_buf s n).1
  unfolding snull_dequeue_buf
  dequeue-Kept s {n = n} v = elim (List-cases (priv s n).rx_queue) [
    | inl e ↦ rw e (put_same s _ v refl (sym e))
    | inr (pkt, rest, e) ↦ rw e (
        let (at, f) : AllOf (twin s) (pkt ∷ rest) = subst (AllOf (twin s)) e (from s v) in
        let l = ap length e in
        let h = held_foreign s pkt at in
        put-Kept s _ v (own s v) f (omega (arith, count s v, h.0))
          (omega (arith, count_twin s v, l, h.1)))
  ]

  pub release-Kept :
      (pkt : Packet) {n : Net k}
      → Kept size (some pkt) n
      → Kept size none (snull_release_buffer pkt n)
  unfolding snull_release_buffer
  release-Kept pkt v =
      let s = pkt.dev in
      put-Kept s _ v (refl, own s v) (from s v) (omega (arith, count s v, held_own s pkt refl))
        (omega (arith, count_twin s v, held_other s pkt refl))
