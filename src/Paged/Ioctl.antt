-- ===== src/Paged/Ioctl.antt =====
-- `sculld_ioctl` (sculld/main.c, sculld/sculld.h) and its kin: the module's parameters, read and set by
-- a process.
use device_drivers_lab_proje.Prelude.{Bool, true, false, Option, none, some, if◌then◌else◌}
use device_drivers_lab_proje.Prelude.Int.{ℤ, pos, to_int, efault, enotty}
use device_drivers_lab_proje.Scull.Dev.Ioctl.{got_int, read_ok}
use device_drivers_lab_proje.Paged.{Globals}

-- The parameter that a command is about: the order, or the quantum in scullc, or the set size.
pub data Field : Type 0 where
  unit qset : Field

-- The commands of sculld.h; `foreign` for one of another type or of a number that is too large, and
-- `no_case` for the rest, by whether the direction bits are not both 0.
pub data Command : Type 0 where
  reset : Command
  set tell get query exchange shift : Field → Command
  foreign : Command
  no_case : Bool → Command

abbrev pub get_field : Field → Globals → ℤ
get_field unit g = g.unit
get_field qset g = g.qset

abbrev pub set_field : Field → ℤ → Globals → Globals
set_field unit v g = record g { unit = v }
set_field qset v g = record g { qset = v }

-- What the call finds: `access_ok` of the caller's int, the int that `__get_user` reads there (none if
-- it faults, and stores 0), and whether `__put_user` succeeds.
pub record Ask : Type 0 where
  pub access_ok : Bool
  pub user_int : Option ℤ
  pub put_ok : Bool

-- What the call returns and leaves, and the int that it wrote for the caller.
pub record Answer : Type 0 where
  pub status : ℤ
  pub globals : Globals
  pub put : Option ℤ

abbrev pub said : ℤ → Globals → Answer
said e g = record { status = e; globals = g; put = none }

-- `__put_user`
abbrev pub put_user : Ask → ℤ → Globals → Answer
put_user ask v g =
    if ask.put_ok then record { status = pos 0; globals = g; put = some v } else said efault g

abbrev pub with_access : Ask → Globals → Answer → Answer
with_access ask g answer = if ask.access_ok then answer else said efault g

-- The first argument is the values of a reset: `SCULLD_ORDER` and `SCULLD_QSET`.
unfoldable pub paged_ioctl : Globals → Ask → Command → ℤ → Globals → Answer
paged_ioctl defaults ask reset arg g =
    said (pos 0) (record { qset = defaults.qset; unit = defaults.unit })
paged_ioctl defaults ask (set x) arg g =
    with_access ask g
      (said (if read_ok ask.user_int then pos 0 else efault) (set_field x (got_int ask.user_int) g))
paged_ioctl defaults ask (tell x) arg g = said (pos 0) (set_field x (to_int arg) g)
paged_ioctl defaults ask (get x) arg g = with_access ask g (put_user ask (get_field x g) g)
paged_ioctl defaults ask (query x) arg g = said (get_field x g) g
paged_ioctl defaults ask (exchange x) arg g = with_access ask g (
    let changed = set_field x (got_int ask.user_int) g in
    if read_ok ask.user_int then put_user ask (get_field x g) changed else said efault changed)
paged_ioctl defaults ask (shift x) arg g = said (get_field x g) (set_field x (to_int arg) g)
paged_ioctl defaults ask foreign arg g = said enotty g
paged_ioctl defaults ask (no_case false) arg g = said enotty g
paged_ioctl defaults ask (no_case true) arg g = with_access ask g (said enotty g)
