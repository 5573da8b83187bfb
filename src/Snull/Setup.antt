-- ===== src/Snull/Setup.antt =====
-- Setting the network devices up, opening and configuring them (snull/snull.c).
use mathlib.Core.Bool.{true≢false}
use device_drivers_lab_proje.Prelude.{
  ◌≡◌, ◌≢◌, refl, sym, ℕ, zero, suc, Bool, true, false, ◌||◌, not, Option, none, some, List, [],
  ◌∷◌, if◌then◌else◌, ◌==◌, replicate,
}
use device_drivers_lab_proje.Prelude.Int.{
  ℤ, pos, ltb_ℤ, eqb_ℤ, enomem, enodev, ebusy, einval, errno,
}
use device_drivers_lab_proje.Snull.{
  Side, Packet, Stats, Kernel, Dev, Net, priv, put, netif_stop_queue, netif_wake_queue,
}
use device_drivers_lab_proje.Snull.Frame.{snull_addr}

abbrev zero_stats : Stats
zero_stats = record {
  rx_packets = 0;
  rx_bytes = 0;
  rx_dropped = 0;
  tx_packets = 0;
  tx_bytes = 0;
  tx_errors = 0;
}

-- The loop of `snull_setup_pool`, for `pool_size` rounds, by the `kmalloc` of each: the array with its
-- arbitrary bytes, or NULL, which ends the loop. A list that ends has no more memory.
unfoldable pub setup_pool_loop : Side → ℕ → List (Option (List ℕ)) → List Packet → List Packet
setup_pool_loop s zero allocs pool = pool
setup_pool_loop s (suc i) [] pool = pool
setup_pool_loop s (suc i) (none ∷ allocs) pool = pool
setup_pool_loop s (suc i) (some bytes ∷ allocs) pool =
    setup_pool_loop s i allocs (record { dev = s; datalen = 0; content = bytes } ∷ pool)

unfoldable pub snull_setup_pool : Side → ℕ → List (Option (List ℕ)) → Dev → Dev
unfolding setup_pool_loop
snull_setup_pool s pool_size allocs d = record d { ppool = setup_pool_loop s pool_size allocs [] }

-- The packets freed, and the device with none.
unfoldable pub teardown_loop : List Packet → ℕ → ℕ
teardown_loop [] freed = freed
teardown_loop (pkt ∷ pool) freed = teardown_loop pool (suc freed)

unfoldable pub snull_teardown_pool : Dev → ℕ × Dev
unfolding teardown_loop
snull_teardown_pool d = (teardown_loop d.ppool 0, record d { ppool = [] })

-- A device of which nothing but the private part matters: `memset`, the receive interrupts enabled,
-- and the pool. The mtu is that of `ether_setup`.
unfoldable pub snull_init : Side → ℕ → List (Option (List ℕ)) → Dev
unfolding snull_setup_pool
snull_init s pool_size allocs = snull_setup_pool s pool_size allocs (record {
  stats = zero_stats;
  rx_intr = false;
  tx_intr = false;
  ppool = [];
  rx_queue = [];
  rx_int_enabled = true;
  tx_packetlen = 0;
  skb = none;
  stopped = false;
  rx_scheduled = false;
  trans_start = 0;
  dev_addr = replicate 6 0;
  mtu = pos 1500;
})

-- `snull_devs[1]` gets the second address; `netif_start_queue` lets the queue run.
abbrev pub is_second : Side → Bool
is_second Side.sn0 = false
is_second Side.sn1 = true

module _ {k : Kernel} where
  unfoldable pub snull_open : Side → Net k → Net k
  snull_open s n =
      netif_wake_queue s (put s (record (priv s n) { dev_addr = snull_addr (is_second s) }) n)

  unfoldable pub snull_release : Side → Net k → Net k
  snull_release s n = netif_stop_queue s n

  unfoldable pub snull_change_mtu : Side → ℤ → Net k → ℤ × Net k
  snull_change_mtu s new_mtu n =
      if ltb_ℤ new_mtu (pos 68) || ltb_ℤ (pos 1500) new_mtu
      then (einval, n)
      else (pos 0, put s (record (priv s n) { mtu = new_mtu }) n)

-- `struct ifmap` against the fields of `struct net_device` that it may change.
pub record Config : Type 0 where
  pub base_addr : ℕ
  pub irq : ℕ

-- `EOPNOTSUPP`
abbrev eopnotsupp : ℤ
eopnotsupp = errno 95

unfoldable pub snull_config : Bool → Config → Config → ℤ × Config
snull_config up dev map =
    if up
    then (ebusy, dev)
    else if not (map.base_addr == dev.base_addr)
    then (eopnotsupp, dev)
    else if not (map.irq == dev.irq)
    then (pos 0, record dev { irq = map.irq })
    else (pos 0, dev)

-- A device pointer of the module: allocated, and registered.
pub record Slot : Type 0 where
  pub allocated : Bool
  pub registered : Bool

-- `unregister_netdev`, the pool's teardown and `free_netdev`, for a device that is not NULL. The
-- pointer itself stays; none where a device is unregistered that is not registered.
unfoldable pub snull_cleanup : List Slot → Option ℕ
snull_cleanup [] = some 0
snull_cleanup (s ∷ slots) =
    let rest = snull_cleanup slots in
    if not s.allocated
    then rest
    else if s.registered
    then elim rest [ none ↦ none | some freed ↦ some (suc freed) ]
    else none

-- The registration of one device, 0 for success, on top of the answer so far.
unfoldable pub register_one : ℤ → ℤ → ℤ
register_one result ret = if eqb_ℤ result (pos 0) then pos 0 else ret

-- By the two allocations and the two registrations: the answer, and what the cleanup made of the
-- devices where it was called.
unfoldable pub snull_init_module : Bool → Bool → ℤ → ℤ → ℤ × Option (Option ℕ)
unfolding snull_cleanup register_one
snull_init_module ok0 ok1 r0 r1 =
    if not ok0 || not ok1
    then (
      enomem,
      some (
          snull_cleanup (
            record { allocated = ok0; registered = false }
            ∷ record { allocated = ok1; registered = false }
            ∷ [])),
    )
    else (let ret = register_one r1 (register_one r0 enodev) in
        let slots : List Slot =
          record { allocated = true; registered = eqb_ℤ r0 (pos 0) }
          ∷ record { allocated = true; registered = eqb_ℤ r1 (pos 0) }
          ∷ [] in
        (ret, if eqb_ℤ ret (pos 0) then none else some (snull_cleanup slots)))

-- Where the module's initialisation fails having allocated a device, its cleanup unregisters a device
-- that was never registered.
pub snull_init_module-snull_cleanup :
    (ok0 ok1 : Bool) (r0 r1 : ℤ)
    → (ok0 || ok1) ≡ true
    → (snull_init_module ok0 ok1 r0 r1).0 ≢ pos 0
    → (snull_init_module ok0 ok1 r0 r1).1 ≡ some none
unfolding snull_init_module snull_cleanup register_one
snull_init_module-snull_cleanup true false r0 r1 a f = refl
snull_init_module-snull_cleanup false true r0 r1 a f = refl
snull_init_module-snull_cleanup false false r0 r1 a f = absurd (true≢false (sym a))
snull_init_module-snull_cleanup true true r0 r1 a f =
    registered (eqb_ℤ r0 (pos 0)) (eqb_ℤ r1 (pos 0)) f
  where
    answer : Bool → Bool → ℤ
    answer b0 b1 = if b1 then pos 0 else if b0 then pos 0 else enodev

    slots : Bool → Bool → List Slot
    slots b0 b1 =
        record { allocated = true; registered = b0 }
        ∷ record { allocated = true; registered = b1 }
        ∷ []

    registered :
        (b0 b1 : Bool)
        → answer b0 b1 ≢ pos 0
        → (if eqb_ℤ (answer b0 b1) (pos 0) then none else some (snull_cleanup (slots b0 b1)))
          ≡ some none
    registered true true f = absurd (f refl)
    registered true false f = absurd (f refl)
    registered false true f = absurd (f refl)
    registered false false f = refl
