-- ===== src/Snull/Poll/Drain.antt =====
-- The poll's progress and what it hands on (snull/snull.c, `snull_poll`).
use device_drivers_lab_proje.Prelude.{
  ℕ, suc, ◌≤◌, ◌<◌, ◌≡◌, ◌⊎◌, inl, inr, refl, sym, ◌∙◌, ap, arith, Bool, true, false, List, [], ◌∷◌,
  length, Bool-cases, if◌then◌else◌,
}
use device_drivers_lab_proje.Prelude.Int.{ℤ, pos, ltb_ℤ}
use device_drivers_lab_proje.Snull.{
  Side, sn0, sn1, Packet, Kernel, Dev, Net, priv, tail_packets, is_nil, snull_rx_ints,
}
use mathlib.Core.Bool.{true≢false}
use device_drivers_lab_proje.Snull.Poll.{netif_rx_complete, poll_packet, poll_loop, snull_poll}
use device_drivers_lab_proje.Snull.Poll.Queue.{poll_packet-queue}

-- A device that needs no poll: nothing queued, its interrupt enabled.
pub record IsQuiet (d : Dev) : Type 0 where
  pub empty : d.rx_queue ≡ []
  pub enabled : d.rx_int_enabled ≡ true
  pub unscheduled : d.rx_scheduled ≡ false

-- Whether every round has a quota and a budget.
abbrev pub AllPositive : List (ℤ × ℤ) → Type 0
AllPositive [] = Unit
AllPositive ((quota, budget) ∷ rounds) =
    (ltb_ℤ (pos 0) quota ≡ true) × ((ltb_ℤ (pos 0) budget ≡ true) × AllPositive rounds)

is_nil-length : (q : List Packet) → is_nil q ≡ false → 0 < length q
is_nil-length [] e = absurd (true≢false e)
is_nil-length (pkt ∷ q) e = omega arith

is_nil-eq : (q : List Packet) → is_nil q ≡ true → q ≡ []
is_nil-eq [] e = refl
is_nil-eq (pkt ∷ q) e = absurd (true≢false (sym e))

module _ {k : Kernel} where
  -- The kernel polls a device, with a quota and a budget each time, until the answer is 0.
  abbrev pub polls : Side → List (ℤ × ℤ) → Net k → Bool × Net k
  polls s [] n = (true, n)
  polls s ((quota, budget) ∷ rounds) n =
      let p = snull_poll s quota budget n in
      let rest = polls s rounds p.net in if p.more then rest else (false, p.net)

  poll_loop_shorter :
      (s : Side) (quota : ℤ) (q : List Packet) (c : ℕ) (n : Net k)
      → (priv s n).rx_queue ≡ q
      → length (priv s (poll_loop s quota q c n).1).rx_queue ≤ length q
  unfolding poll_loop
  poll_loop_shorter s quota [] c n e = omega (arith, ap length e)
  poll_loop_shorter s quota (pkt ∷ q) c n e =
      let n1 = (poll_packet s pkt n).1 in
      let c' = if (poll_packet s pkt n).0 then suc c else c in
      let rest =
        poll_loop_shorter s quota q c' n1 (poll_packet-queue s pkt n ∙ ap tail_packets e) in
      elim (Bool-cases (ltb_ℤ (pos c) quota)) [
        | inl t ↦ rw t (omega (arith, rest))
        | inr t ↦ rw t (omega (arith, ap length e))
      ]

  -- With a quota, one packet at least goes.
  poll_loop_progress :
      (s : Side) (quota : ℤ) (pkt : Packet) (q : List Packet) (n : Net k)
      → (priv s n).rx_queue ≡ pkt ∷ q
      → ltb_ℤ (pos 0) quota ≡ true
      → length (priv s (poll_loop s quota (pkt ∷ q) 0 n).1).rx_queue ≤ length q
  unfolding poll_loop
  poll_loop_progress s quota pkt q n e t =
      let c' = if (poll_packet s pkt n).0 then 1 else 0 in
      rw t (
        poll_loop_shorter s quota q c' (poll_packet s pkt n).1
          (poll_packet-queue s pkt n ∙ ap tail_packets e))

  quiet :
      (s : Side) (n : Net k)
      → (priv s n).rx_queue ≡ []
      → IsQuiet (priv s (snull_rx_ints s true (netif_rx_complete s n)))
  unfolding snull_rx_ints
  quiet sn0 n e = record { empty = e; enabled = refl; unscheduled = refl }
  quiet sn1 n e = record { empty = e; enabled = refl; unscheduled = refl }

  less_after :
      (s : Side) (quota : ℤ) (q : List Packet) (n : Net k)
      → (priv s n).rx_queue ≡ q
      → ltb_ℤ (pos 0) quota ≡ true
      → is_nil (priv s (poll_loop s quota q 0 n).1).rx_queue ≡ false
      → length (priv s (poll_loop s quota q 0 n).1).rx_queue < length q
  unfolding poll_loop
  less_after s quota [] n e t more = absurd (true≢false (rw (← more) (rw e refl)))
  less_after s quota (pkt ∷ q) n e t more = omega (arith, poll_loop_progress s quota pkt q n e t)

  poll_round :
      (s : Side) (quota budget : ℤ) (n : Net k)
      → ltb_ℤ (pos 0) quota ≡ true
      → ltb_ℤ (pos 0) budget ≡ true
      → ((snull_poll s quota budget n).more ≡ false)
          × IsQuiet (priv s (snull_poll s quota budget n).net)
        ⊎ (((snull_poll s quota budget n).more ≡ true)
            × ((0 < length (priv s (snull_poll s quota budget n).net).rx_queue)
                × (length (priv s (snull_poll s quota budget n).net).rx_queue
                    < length (priv s n).rx_queue)))
  unfolding snull_poll snull_rx_ints
  poll_round s quota budget n a b =
      let least = if ltb_ℤ quota budget then quota else budget in
      let pos_least : ltb_ℤ (pos 0) least ≡ true = elim (Bool-cases (ltb_ℤ quota budget)) [
        | inl e ↦ rw e a
        | inr e ↦ rw e b
      ] in
      let n1 = (poll_loop s least (priv s n).rx_queue 0 n).1 in
      elim (Bool-cases (is_nil (priv s n1).rx_queue)) [
        | inl e ↦ rw e (inl (refl, quiet s n1 (is_nil-eq (priv s n1).rx_queue e)))
        | inr e ↦ rw e (
            let some_left = is_nil-length (priv s n1).rx_queue e in
            inr (refl, (some_left, less_after s least (priv s n).rx_queue n refl pos_least e)))
      ]

  -- A device that the kernel keeps polling, with a positive quota and budget each time, comes to rest
  -- after no more rounds than packets are queued, and one if none is, whether there is memory for them
  -- or not: the answer is 0, the queue is empty, and the receive interrupt is enabled again.
  pub polls-IsQuiet :
      (s : Side) (rounds : List (ℤ × ℤ)) (n : Net k)
      → AllPositive rounds
      → 0 < length rounds
      → length (priv s n).rx_queue ≤ length rounds
      → ((polls s rounds n).0 ≡ false) × IsQuiet (priv s (polls s rounds n).1)
  polls-IsQuiet s [] n h p l = absurd (omega arith)
  polls-IsQuiet s ((quota, budget) ∷ rounds) n h p l =
      elim (poll_round s quota budget n h.0 h.1.0) [
        | inl (e, q) ↦ rw e (refl, q)
        | inr (e, (left, lt)) ↦ rw e (
            polls-IsQuiet s rounds (snull_poll s quota budget n).net h.1.1 (omega arith)
              (omega arith))
      ]
