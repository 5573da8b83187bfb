-- ===== src/Scull/Access.antt =====
-- The devices with access control (scull/access.c). They differ from the memory device in `open` and
-- `release` only; the user and the capability of the caller are arguments.
pub mod Single
pub mod User
pub mod Cloned
mod Tests
use device_drivers_lab_proje.Prelude.{
  ℕ, ◌+◌, ◌-◌, Bool, true, false, not, ◌&&◌, ◌||◌, Option, none, some, List, [], ◌∷◌, if◌then◌else◌,
  ◌==◌,
}
use device_drivers_lab_proje.Prelude.Int.{
  ℤ, pos, negsuc, ◌+ℤ◌, eqb_ℤ, ebusy, eagain, einval, enomem, erestartsys,
}
use device_drivers_lab_proje.Scull.Dev.{ScullDev, Params, scull_trim}

-- Who calls: `current_uid()`, `current_euid()` and `capable(CAP_DAC_OVERRIDE)`.
pub record Caller : Type 0 where
  pub uid : ℕ
  pub euid : ℕ
  pub override : Bool

-- The trim of a write-only open, which each device's open ends with.
abbrev pub open_dev : Params → Bool → ScullDev → ScullDev
open_dev p wronly dev = if wronly then scull_trim p dev else dev

-- A device that one user at a time may open: `scull_u_*` and `scull_w_*`.
pub record UserDev : Type 0 where
  pub count : ℕ
  pub owner : ℕ
  pub dev : ScullDev

-- `scull_w_available`, and what `scull_u_open` tests the other way round.
unfoldable pub scull_w_available : Caller → UserDev → Bool
scull_w_available c d = d.count == 0 || (d.owner == c.uid || (d.owner == c.euid || c.override))

-- Behind the test: the owner is set by the first open, and the opens are counted.
unfoldable pub take_user : Params → Bool → Caller → UserDev → UserDev
take_user p wronly c d = record {
  count = d.count + 1;
  owner = if d.count == 0 then c.uid else d.owner;
  dev = open_dev p wronly d.dev;
}

unfoldable pub scull_u_open : Params → Bool → Caller → UserDev → ℤ × UserDev
unfolding take_user
scull_u_open p wronly c d =
    if not (d.count == 0) && (not (d.owner == c.uid) && (not (d.owner == c.euid) && not c.override))
    then (ebusy, d)
    else (pos 0, take_user p wronly c d)

-- `scull_u_count--`, and `scull_w_count--`; a release comes after its open, so the count is not 0.
unfoldable pub scull_u_release : UserDev → UserDev
scull_u_release d = record d { count = d.count - 1 }

-- What the blocking open finds when it runs again: a signal, or the lock and the device as the
-- others have left it.
pub data Wake : Type 0 where
  signalled : Wake
  woken : UserDev → Wake

pub data Ended : Type 0 where
  opened : UserDev → Ended
  error : ℤ → Ended
  asleep : Ended

unfoldable pub scull_w_open : Params → Bool → Bool → Caller → UserDev → List Wake → Ended
unfolding take_user
scull_w_open p wronly nonblock c d [] =
    if scull_w_available c d
    then opened (take_user p wronly c d)
    else if nonblock
    then error eagain
    else asleep
scull_w_open p wronly nonblock c d (signalled ∷ ws) =
    if scull_w_available c d
    then opened (take_user p wronly c d)
    else if nonblock
    then error eagain
    else error erestartsys
scull_w_open p wronly nonblock c d (woken d' ∷ ws) =
    let later = scull_w_open p wronly nonblock c d' ws in
    if scull_w_available c d
    then opened (take_user p wronly c d)
    else if nonblock
    then error eagain
    else later

-- The new state, and whether the waiting openers are woken.
unfoldable pub scull_w_release : UserDev → UserDev × Bool
scull_w_release d = (record d { count = d.count - 1 }, d.count - 1 == 0)

-- The devices of `scull_c_list`, the newest first, by the number of the controlling terminal.
abbrev pub Clones : Type 0
Clones = List (ℕ × ScullDev)

abbrev pub zeroed : ScullDev
zeroed = record { sets = []; quantum = 0; qset = 0; size = 0 }

unfoldable pub find_clone : ℕ → Clones → Option ScullDev
find_clone key [] = none
find_clone key ((k, d) ∷ cs) = if k == key then some d else find_clone key cs

-- The rest of the look up, by what the search found and whether `kmalloc` succeeds.
abbrev pub found_or_new : Params → Bool → ℕ → Clones → Option ScullDev → Option ScullDev × Clones
found_or_new p memory key cs (some d) = (some d, cs)
found_or_new p memory key cs none =
    if memory then (some (scull_trim p zeroed), (key, scull_trim p zeroed) ∷ cs) else (none, cs)

unfoldable pub scull_c_lookfor_device : Params → Bool → ℕ → Clones → Option ScullDev × Clones
scull_c_lookfor_device p memory key cs = found_or_new p memory key cs (find_clone key cs)

-- The device with a key, changed.
unfoldable pub change_clone : ℕ → (ScullDev → ScullDev) → Clones → Clones
change_clone key f [] = []
change_clone key f ((k, d) ∷ cs) =
    if k == key then (k, f d) ∷ cs else (k, d) ∷ change_clone key f cs

-- The rest of the open: the file's device is the one with its key in the list.
abbrev pub open_found : Params → Bool → ℕ → Option ScullDev × Clones → ℤ × Clones
open_found p wronly key (none, cs) = (enomem, cs)
open_found p wronly key (some d, cs) = (pos 0, change_clone key (open_dev p wronly) cs)

-- The terminal is none for a process that has no controlling one.
unfoldable pub scull_c_open : Params → Bool → Bool → Option ℕ → Clones → ℤ × Clones
unfolding scull_c_lookfor_device
scull_c_open p wronly memory none cs = (einval, cs)
scull_c_open p wronly memory (some key) cs =
    open_found p wronly key (scull_c_lookfor_device p memory key cs)
