-- ===== src/Paged/Module.antt =====
-- Loading and unloading: `sculld_init`, `sculld_setup_cdev`, `sculld_register_dev`, `sculld_cleanup`
-- (sculld/main.c), and their kin.
use device_drivers_lab_proje.Prelude.{
  ℕ, zero, suc, Bool, true, false, none, List, [], ◌∷◌, if◌then◌else◌,
}
use device_drivers_lab_proje.Prelude.Int.{ℤ, pos, pos_part, is_negative, enomem}
use device_drivers_lab_proje.Scull.Dev.{kmalloc}
use device_drivers_lab_proje.Paged.{PagedDev, Globals, paged_trim}

-- A device of the array, whether `cdev_add` made it live, and whether it is known to the driver core.
pub record Registered : Type 0 where
  pub dev : PagedDev
  pub live : Bool
  pub in_core : Bool

-- What the module holds: its device numbers, its entry in the driver core, its devices and its cache.
pub record Held : Type 0 where
  pub region : Bool
  pub driver : Bool
  pub devices : List Registered
  pub cache : Bool

abbrev pub nothing : Held
nothing = record { region = false; driver = false; devices = []; cache = false }

-- A device that `memset` has cleared, with its unit and set size.
abbrev pub set_up : Globals → PagedDev
set_up g = record {
  quanta = none;
  unit = pos_part g.unit;
  next = [];
  qset = pos_part g.qset;
  size = 0;
  vmas = pos 0;
}

-- The loop over the devices: `added` says which calls of `cdev_add` succeed. A failure is only logged.
abbrev pub set_up_devices : Globals → Bool → ℕ → List Bool → List Registered
set_up_devices g in_core zero added = []
set_up_devices g in_core (suc n) added =
    record { dev = set_up g; live = (kmalloc added).0; in_core = in_core }
    ∷ set_up_devices g in_core n (kmalloc added).1

-- `sculld_init`: `result` is that of the registration of the device numbers, `ok` whether the array of
-- devices can be allocated.
unfoldable pub sculld_init : Globals → ℕ → ℤ → Bool → List Bool → ℤ × Held
sculld_init g devs result ok added =
    if is_negative result
    then (result, nothing)
    else if ok
    then (
      pos 0,
      record {
        region = true;
        driver = true;
        devices = set_up_devices g true devs added;
        cache = false;
      },
    )
    else (enomem, record nothing { driver = true })

-- `scullp_init` and `scullv_init`
unfoldable pub plain_init : Globals → ℕ → ℤ → Bool → List Bool → ℤ × Held
plain_init g devs result ok added =
    if is_negative result
    then (result, nothing)
    else if ok
    then (
      pos 0,
      record {
        region = true;
        driver = false;
        devices = set_up_devices g false devs added;
        cache = false;
      },
    )
    else (enomem, nothing)

-- The loop of a cleanup: what `sculld_trim` returns for each device, and its devices in the end.
abbrev pub trim_all : Globals → List Registered → List (ℤ × PagedDev)
trim_all g [] = []
trim_all g (x ∷ xs) = paged_trim g x.dev ∷ trim_all g xs

-- `sculld_cleanup`
unfoldable pub paged_cleanup : Globals → Held → List (ℤ × PagedDev) × Held
paged_cleanup g held = (trim_all g held.devices, nothing)

-- `scullc_init`: `cache_ok` is whether the memory cache can be made.
unfoldable pub cached_init : Globals → ℕ → ℤ → Bool → List Bool → Bool → ℤ × Held
unfolding paged_cleanup
cached_init g devs result ok added cache_ok =
    let held : Held = record {
      region = true;
      driver = false;
      devices = set_up_devices g false devs added;
      cache = false;
    } in
    if is_negative result
    then (result, nothing)
    else if ok
    then if cache_ok
      then (pos 0, record held { cache = true })
      else (enomem, (paged_cleanup g held).1)
    else (enomem, nothing)
