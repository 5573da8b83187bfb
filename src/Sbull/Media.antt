-- ===== src/Sbull/Media.antt =====
-- Opening, closing and the simulated change of the medium (sbull/sbull.c). `check_disk_change` is the
-- kernel's: what the driver relies on is stated as a law.
pub mod Kept
use device_drivers_lab_proje.Prelude.{
  ℕ, ◌+◌, ◌*◌, ◌^◌, ◌≡◌, Bool, true, false, ◌&&◌, ◌||◌, not, Option, none, some, List, [], ◌∷◌,
  ◌>>=◌, if◌then◌else◌, leb, ◌==◌, length, replicate, splice,
}
use device_drivers_lab_proje.Prelude.Int.{ℤ, pos, negsuc, ◌+ℤ◌, eqb_ℤ, to_u64, to_short}

-- `struct sbull_dev`, less the queue and the gendisk. `bytes` is none for a NULL `data`; the timer is
-- pending until its expiry.
pub record SbullDev : Type 0 where
  pub size : ℤ
  pub bytes : Option (List ℕ)
  pub users : ℤ
  pub media_change : Bool
  pub timer : Option ℕ

-- `INVALIDATE_DELAY`, by the kernel's `HZ`.
abbrev pub invalidate_delay : ℕ → ℕ
invalidate_delay hz = 30 * hz

unfoldable pub sbull_media_changed : SbullDev → Bool
sbull_media_changed dev = dev.media_change

-- The `memset` of the first bytes; none where it leaves the memory.
abbrev pub cleared : ℕ → Option (List ℕ) → Option (List ℕ)
cleared n none = none
cleared n (some bs) = if leb n (length bs) then some (splice 0 (replicate n 0) bs) else none

unfoldable pub sbull_revalidate : SbullDev → Option SbullDev
sbull_revalidate dev =
    let bytes' = cleared (to_u64 dev.size) dev.bytes in
    if dev.media_change
    then elim bytes' [
      | none ↦ none
      | some bs ↦ some (record dev { bytes = some bs; media_change = false })
    ]
    else some dev

-- The kernel's check, which calls both of the functions above.
pub record CheckLaws (check_disk_change : SbullDev → Option SbullDev) : Type 0 where
  pub unchanged : (d : SbullDev) → sbull_media_changed d ≡ false → check_disk_change d ≡ some d
  pub changed :
      (d : SbullDev) → sbull_media_changed d ≡ true → check_disk_change d ≡ sbull_revalidate d

-- The section under the lock that ends `sbull_open`.
unfoldable pub open_section : (SbullDev → Option SbullDev) → SbullDev → Option SbullDev
open_section check_disk_change dev = do
  dev' ← (if eqb_ℤ dev.users (pos 0) then check_disk_change dev else some dev)
  some (record dev' { users = to_short (dev'.users +ℤ pos 1) })

-- `del_timer_sync`, in front of the section.
unfoldable pub stop_timer : SbullDev → SbullDev
stop_timer dev = record dev { timer = none }

unfoldable pub sbull_open : (SbullDev → Option SbullDev) → SbullDev → Option SbullDev
unfolding open_section stop_timer
sbull_open check_disk_change dev = open_section check_disk_change (stop_timer dev)

unfoldable pub sbull_release : ℕ → ℕ → SbullDev → SbullDev
sbull_release hz jiffies dev =
    let users' = to_short (dev.users +ℤ negsuc 0) in
    record dev {
      users = users';
      timer = if eqb_ℤ users' (pos 0) then some (jiffies + invalidate_delay hz) else dev.timer;
    }

abbrev pub is_null : Option (List ℕ) → Bool
is_null none = true
is_null (some bs) = false

unfoldable pub sbull_invalidate : SbullDev → SbullDev
sbull_invalidate dev =
    if not (eqb_ℤ dev.users (pos 0)) || is_null dev.bytes
    then dev
    else record dev { media_change = true }
