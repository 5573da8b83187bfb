-- ===== src/Sbull/Tests.antt =====
-- Runs of the RAM disk (sbull/sbull.c), and the theorems about it at concrete inputs.
use device_drivers_lab_proje.Prelude.{
  ◌^◌, ◌≡◌, refl, arith, true, false, Option, none, some, [], ◌∷◌, if◌then◌else◌, ltb, replicate,
  ◌++◌,
}
use device_drivers_lab_proje.Prelude.Int.{pos}
use device_drivers_lab_proje.Sbull.{
  Disk, Bio, sbull_transfer, sbull_xfer_bio, sbull_full_request, Report, geometry_cylinders,
}
use device_drivers_lab_proje.Sbull.Transfer.{IsValid, moved, sbull_transfer_lem}
use device_drivers_lab_proje.Sbull.Segments.{flat, sbull_xfer_bio-sbull_transfer}
use device_drivers_lab_proje.Sbull.Setup.{rm_noqueue, setup_device, setup_device-sbull_transfer}
use device_drivers_lab_proje.Sbull.Media.{
  SbullDev, CheckLaws, sbull_media_changed, sbull_revalidate, stop_timer,
}
use device_drivers_lab_proje.Sbull.Media.Kept.{Shared, IsMounted, here, next, begin, InUse-kept}

-- Four sectors, of which the second has 7 in all its bytes.
abbrev small_disk : Disk
small_disk = record {
  size = pos 2048;
  bytes = replicate 512 0 ++ (replicate 512 7 ++ replicate 1024 0);
}

small_disk-IsValid : IsValid small_disk
small_disk-IsValid = record { sized = refl; small = omega arith }

sbull_transfer_lem_example : sbull_transfer small_disk 1 1 (replicate 512 0) false ≡ (
    if ltb 2048 1024
    then some (small_disk, replicate 512 0)
    else some (moved small_disk 512 512 (replicate 512 0) false))
sbull_transfer_lem_example =
    sbull_transfer_lem small_disk 1 1 (replicate 512 0) false small_disk-IsValid (omega arith)
      (omega arith)

abbrev two_sectors : Bio
two_sectors = record {
  sector = 1;
  cur_sectors = 1;
  segments = replicate 512 1 ∷ replicate 512 2 ∷ [];
  bi_size = 1024;
  write = true;
}

sbull_xfer_bio-sbull_transfer_example :
    (d' : Disk) × (bio' : Bio) × (sbull_xfer_bio small_disk two_sectors ≡ some (d', bio'))
    × (sbull_transfer small_disk 1 2 (flat two_sectors.segments) true
        ≡ some (d', flat bio'.segments))
sbull_xfer_bio-sbull_transfer_example =
    sbull_xfer_bio-sbull_transfer small_disk two_sectors small_disk-IsValid (refl, (refl, tt))
      (omega arith)

abbrev set_up : Disk
set_up = record {
  size = (setup_device 4 512 rm_noqueue true true true).size;
  bytes = replicate 2048 0;
}

setup_device-sbull_transfer_example :
    sbull_transfer set_up 3 1 (replicate 512 5) true
    ≡ some (moved set_up 1536 512 (replicate 512 5) true)
unfolding setup_device
setup_device-sbull_transfer_example =
    setup_device-sbull_transfer 4 512 rm_noqueue 4 3 1 (replicate 2048 0) (replicate 512 5) true
      (omega arith) refl refl (omega arith) (omega arith)

-- The block layer's check, on a device that it looks at by the driver's functions.
abbrev check : SbullDev → Option SbullDev
check d = elim (sbull_media_changed d) [ true ↦ sbull_revalidate d | false ↦ some d ]

check_laws : CheckLaws check
unfolding sbull_media_changed
check_laws = record { unchanged = λ d e. rw e refl; changed = λ d e. rw e refl }

abbrev mounted : Shared
mounted = record {
  dev = record {
    size = pos 2;
    bytes = some (5 ∷ 6 ∷ []);
    users = pos 1;
    media_change = false;
    timer = none;
  };
  opening = 0;
  holders = 1;
}

mounted-IsMounted : IsMounted mounted
unfolding sbull_media_changed
mounted-IsMounted = record {
  counted = refl;
  few = omega arith;
  same_medium = refl;
  there = (5 ∷ 6 ∷ [], refl, refl, omega arith);
}

abbrev opening_again : Shared
opening_again = record mounted { dev = stop_timer mounted.dev; opening = 1 }

InUse-kept_example : IsMounted opening_again × (opening_again.dev.bytes ≡ some (5 ∷ 6 ∷ []))
InUse-kept_example =
    InUse-kept check check_laws 100 mounted-IsMounted
      (next here (omega arith) (begin mounted) (omega arith))

-- A disk of 4 MB: the cylinders are those of a size in sectors that is 512 times as large.
geometry_of_bytes : geometry_cylinders (pos (2 ^ 16)) 512 ≡ 2 ^ 10
unfolding geometry_cylinders
geometry_of_bytes = refl

-- A request that is not of a file system is ended with nothing transferred.
skips_others :
    sbull_full_request small_disk (record { is_fs = false; bios = two_sectors ∷ [] } ∷ [])
    ≡ some (small_disk, (Report.skipped, two_sectors ∷ []) ∷ [])
unfolding sbull_full_request
skips_others = refl
