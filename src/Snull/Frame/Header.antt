-- ===== src/Snull/Frame/Header.antt =====
-- The Ethernet headers of the opened devices (snull/snull.c, `snull_open`, `snull_header`,
-- `snull_rebuild_header`).
use device_drivers_lab_proje.Prelude.{ℕ, ◌/◌, ◌%◌, ◌≡◌, refl, none, List, ◌∷◌, ◌++◌}
use device_drivers_lab_proje.Snull.{Side, sn0, sn1, twin, Kernel, Net, priv}
use device_drivers_lab_proje.Snull.Frame.{snull_header, snull_rebuild_header}
use device_drivers_lab_proje.Snull.Setup.{snull_open}

-- A header that an opened device builds with no address given is from its own address to the address
-- that the other device has once it is open, and rebuilding it changes nothing.
pub snull_open-snull_header :
    {k : Kernel} (s : Side) (n : Net k) (type : ℕ) (packet : List ℕ)
    → let own = (priv s (snull_open s n)).dev_addr in
      let other = (priv (twin s) (snull_open (twin s) n)).dev_addr in
      let frame = snull_header own packet type none none in
      (frame ≡ other ++ (own ++ ((type / 256 % 256) ∷ (type % 256) ∷ packet)))
      × (snull_rebuild_header own frame ≡ frame)
unfolding snull_open snull_header snull_rebuild_header
snull_open-snull_header sn0 n type packet = (refl, refl)
snull_open-snull_header sn1 n type packet = (refl, refl)
