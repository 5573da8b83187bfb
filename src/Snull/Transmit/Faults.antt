-- ===== src/Snull/Transmit/Faults.antt =====
-- When a transmission leaves the driver's memory (snull/snull.c): the empty pool and the long frame.
use device_drivers_lab_proje.Prelude.{
  ℕ, ◌+◌, ◌-◌, ◌≤◌, ◌≡◌, inl, inr, refl, sym, ◌∙◌, ap, arith, Bool, true, false, not, ◌&&◌, Option,
  none, some, List, [], ◌∷◌, ◌++◌, length, replicate, ltb, leb, length-append, length-replicate,
  Bool-cases, List-cases, ◌||◌,
}
use mathlib.Core.Bool.{true≢false}
use device_drivers_lab_proje.Prelude.Int.{pos, ltb_ℤ, neg_part, einval}
use device_drivers_lab_proje.Snull.{
  Side, sn0, sn1, Kernel, Dev, Net, priv, put, is_nil, snull_get_tx_buffer,
}
use device_drivers_lab_proje.Snull.Frame.{holds_header, padded, rewrite_frame}
use device_drivers_lab_proje.Snull.Frame.Rewrite.{rewrite_frame-IsChecked}
use device_drivers_lab_proje.Snull.Interrupt.{snull_interrupt, snull_napi_interrupt, transmitted}
use device_drivers_lab_proje.Snull.Transmit.{
  SkBuff, Modes, filled, snull_hw_tx, snull_tx, snull_tx_timeout,
}
use device_drivers_lab_proje.Snull.Setup.{snull_change_mtu}

abbrev pub is_some {ℓ} : {A : Type ℓ} → Option A → Bool
is_some none = false
is_some (some a) = true

padded_bounds :
    (bs : List ℕ)
    → (34 ≤ length (padded bs))
      × (leb (length (padded bs)) 1500 ≡ leb (length bs) 1500)
      × (length bs ≤ length (padded bs))
unfolding padded
padded_bounds bs =
    let a : length (padded bs) ≡ length bs + length (replicate (60 - length bs) 0) =
      length-append bs (replicate (60 - length bs) 0) in
    let b : length (replicate (60 - length bs) 0) ≡ 60 - length bs =
      length-replicate {A = ℕ} (60 - length bs) 0 in
    (omega (arith, a, b), ground (arith, a, b), omega (arith, a, b))

-- A header has 60 bytes at most.
long_holds : (bs : List ℕ) → 74 ≤ length bs → holds_header bs ≡ true
long_holds bs h = ground arith

never : (b : Bool) → (b && false) ≡ false
never true = refl
never false = refl

module _ {k : Kernel} where
  pool_same :
      (s : Side) (n : Net k) (d : Dev)
      → d.ppool ≡ (priv s n).ppool
      → (priv s (put s d n)).ppool ≡ (priv s n).ppool
  pool_same sn0 n d e = e
  pool_same sn1 n d e = e

  hw_tx_succeeds :
      (m : Modes) (buf : List ℕ) (s : Side) (n : Net k)
      → 34 ≤ length buf
      → is_some (snull_hw_tx m buf s n)
        ≡ (holds_header buf && (not (is_nil (priv s n).ppool) && leb (length buf) 1500))
  unfolding snull_hw_tx filled snull_get_tx_buffer
  hw_tx_succeeds m buf s n h =
      let frame = rewrite_frame k.ip_fast_csum buf in
      let same : length frame ≡ length buf = (rewrite_frame-IsChecked k.ip_fast_csum buf h).0 in
      let long : ltb (length buf) 34 ≡ false = ground arith in
      elim (Bool-cases (holds_header buf)) [
        | inr o ↦ rw (long, o) refl
        | inl o ↦ elim (List-cases (priv s n).ppool) [
          | inl z ↦ rw (long, o) (rw z refl)
          | inr (pkt, rest, z) ↦ elim (Bool-cases (leb (length buf) 1500)) [
            | inl f ↦
                let f' : leb (length frame) 1500 ≡ true = rw same f in
                rw (long, o) (rw z (rw f' (rw f refl)))
            | inr f ↦
                let f' : leb (length frame) 1500 ≡ false = rw same f in
                rw (long, o) (rw z (rw f' (rw f refl)))
          ]
        ]
      ]

  -- A transmission stays within the memory of the frame, as it is padded, and of the packet just if the
  -- frame holds its whole IP header, as the header's length says it, the device's pool has a packet, and
  -- the frame has no more than 1500 bytes, the headers among them.
  pub snull_tx_lem :
      (m : Modes) (skb : SkBuff) (s : Side) (n : Net k)
      → is_some (snull_tx m skb s n) ≡ (
          holds_header (padded skb.content)
          && (not (is_nil (priv s n).ppool) && leb (length skb.content) 1500))
  unfolding snull_tx
  snull_tx_lem m skb s n =
      let (long, same, more) = padded_bounds skb.content in
      let d : Dev = record (priv s n) { trans_start = k.jiffies n.world; skb = some skb.id } in
      hw_tx_succeeds m (padded skb.content) s (put s d n) long
      ∙ rw same (
          ap
            (λ p.
              holds_header (padded skb.content)
              && (not (is_nil p) && leb (length skb.content) 1500))
            (pool_same s n d refl))

  refused :
      (s : Side) (mtu : ℕ) (n : Net k)
      → (ltb_ℤ (pos mtu) (pos 68) || ltb_ℤ (pos 1500) (pos mtu)) ≡ true
      → (snull_change_mtu s (pos mtu) n).0 ≡ einval
  unfolding snull_change_mtu
  refused s mtu n e = rw e refl

  none_left : (o : Option (Net k)) → is_some o ≡ false → o ≡ none
  none_left none e = refl
  none_left (some n) e = absurd (true≢false e)

  -- Where the poll has not returned a device's packets yet, the timeout of its transmit queue frees its
  -- socket buffer, which a transmit interrupt may have freed before, and lets the queue run on an empty
  -- pool: the next transmission follows a NULL pointer.
  snull_tx_timeout-snull_tx :
      (lockup : ℕ) (skb : SkBuff) (s : Side) (n : Net k)
      → (priv s n).ppool ≡ []
      → let m : Modes = record { use_napi = true; lockup = lockup } in
        let n' = snull_tx_timeout m s n in
        (n'.freed ≡ n.freed ++ ((priv s n).skb ∷ []))
        × (((priv s n').stopped ≡ false) × (snull_tx m skb s n' ≡ none))
  unfolding snull_tx_timeout snull_interrupt snull_napi_interrupt transmitted
  snull_tx_timeout-snull_tx lockup skb sn0 n e =
      let m : Modes = record { use_napi = true; lockup = lockup } in
      (
        refl,
        (
          refl,
          none_left _ (
              snull_tx_lem m skb sn0 (snull_tx_timeout m sn0 n)
              ∙ rw e (never (holds_header (padded skb.content)))),
        ),
      )
  snull_tx_timeout-snull_tx lockup skb sn1 n e =
      let m : Modes = record { use_napi = true; lockup = lockup } in
      (
        refl,
        (
          refl,
          none_left _ (
              snull_tx_lem m skb sn1 (snull_tx_timeout m sn1 n)
              ∙ rw e (never (holds_header (padded skb.content)))),
        ),
      )

  -- Of the MTUs that the driver accepts, the greatest for which a full frame, with its header of 14
  -- bytes, stays within a packet's array is 1486.
  snull_change_mtu-snull_tx :
      (m : Modes) (skb : SkBuff) (s : Side) (mtu : ℕ) (n : Net k)
      → (snull_change_mtu s (pos mtu) n).0 ≡ pos 0
      → length skb.content ≡ mtu + 14
      → is_nil (priv s n).ppool ≡ false
      → is_some (snull_tx m skb s (snull_change_mtu s (pos mtu) n).1) ≡ leb mtu 1486
  unfolding snull_change_mtu
  snull_change_mtu-snull_tx m skb s mtu n ok full p =
      elim (Bool-cases (ltb_ℤ (pos mtu) (pos 68) || ltb_ℤ (pos 1500) (pos mtu))) [
        | inl e ↦ absurd (omega (arith, ap neg_part (sym (refused s mtu n e) ∙ ok)))
        | inr e ↦ rw e (
            let d : Dev = record (priv s n) { mtu = pos mtu } in
            let fits : leb (length skb.content) 1500 ≡ leb mtu 1486 = ground arith in
            let whole : holds_header (padded skb.content) ≡ true = long_holds (padded skb.content) (
              omega (
                arith,
                (padded_bounds skb.content).2,
                full,
                (let least : 68 ≤ mtu = ground (arith, e) in least),
              )) in
            snull_tx_lem m skb s (put s d n) ∙ rw whole (rw (pool_same s n d refl) (rw p fits)))
      ]
