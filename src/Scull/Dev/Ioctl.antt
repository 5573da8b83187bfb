-- ===== src/Scull/Dev/Ioctl.antt =====
-- `scull_ioctl` (scull/main.c, scull/scull.h): the module's parameters, read and set by a process.
use device_drivers_lab_proje.Prelude.{
  ℕ, ◌≡◌, ◌⊎◌, refl, ap, arith, Bool, true, false, Option, none, some, List, if◌then◌else◌,
}
use device_drivers_lab_proje.Prelude.Int.{ℤ, pos, pos_part, to_int, eperm, efault, enotty}
use device_drivers_lab_proje.Scull.Dev.{
  Params, itemsize, unusable, ScullDev, scull_trim, scull_write,
}

-- The parameter that a command is about.
pub data Field : Type 0 where
  quantum qset : Field

-- The commands of scull.h that the switch knows; `foreign` for one of another type or of a number that
-- is too large, and `no_case` for the rest, by whether the direction bits are not both 0.
pub data Command : Type 0 where
  reset : Command
  set tell get query exchange shift : Field → Command
  p_tell_size p_query_size : Command
  foreign : Command
  no_case : Bool → Command

-- `SCULL_QUANTUM`, `SCULL_QSET`
abbrev pub default_of : Field → ℤ
default_of quantum = pos 4000
default_of qset = pos 1000

abbrev pub get_field : Field → Params → ℤ
get_field quantum p = p.scull_quantum
get_field qset p = p.scull_qset

abbrev pub set_field : Field → ℤ → Params → Params
set_field quantum v p = record p { scull_quantum = v }
set_field qset v p = record p { scull_qset = v }

-- What the call finds and can do: the capability, `access_ok` of the caller's int, the int that
-- `__get_user` reads there (none if it faults), and whether `__put_user` succeeds.
pub record Ask : Type 0 where
  pub capable : Bool
  pub access_ok : Bool
  pub user_int : Option ℤ
  pub put_ok : Bool

-- What the call returns and leaves, and the int that it wrote for the caller.
pub record Answer : Type 0 where
  pub status : ℤ
  pub params : Params
  pub put : Option ℤ

abbrev pub done : ℤ → Params → Answer
done e p = record { status = e; params = p; put = none }

-- `__put_user`
abbrev pub put_user : Ask → ℤ → Params → Answer
put_user ask v p =
    if ask.put_ok then record { status = pos 0; params = p; put = some v } else done efault p

-- `__get_user`: a read that faults stores 0.
abbrev pub got_int : Option ℤ → ℤ
got_int none = pos 0
got_int (some v) = v

abbrev pub read_ok : Option ℤ → Bool
read_ok none = false
read_ok (some v) = true

-- The test that the commands which change a parameter make first.
abbrev pub as_admin : Ask → Params → Answer → Answer
as_admin ask p answer = if ask.capable then answer else done eperm p

-- The test of the direction bits, for the commands that take a pointer.
abbrev pub with_access : Ask → Params → Answer → Answer
with_access ask p answer = if ask.access_ok then answer else done efault p

unfoldable pub scull_ioctl : Ask → Command → ℤ → Params → Answer
scull_ioctl ask reset arg p =
    done (pos 0) (set_field qset (default_of qset) (set_field quantum (default_of quantum) p))
scull_ioctl ask (set x) arg p = with_access ask p (
    as_admin ask p (
      done (if read_ok ask.user_int then pos 0 else efault) (set_field x (got_int ask.user_int) p)))
scull_ioctl ask (tell x) arg p = as_admin ask p (done (pos 0) (set_field x (to_int arg) p))
scull_ioctl ask (get x) arg p = with_access ask p (put_user ask (get_field x p) p)
scull_ioctl ask (query x) arg p = done (get_field x p) p
scull_ioctl ask (exchange x) arg p = with_access ask p (
    as_admin ask p (
      let changed = set_field x (got_int ask.user_int) p in
      if read_ok ask.user_int then put_user ask (get_field x p) changed else done efault changed))
scull_ioctl ask (shift x) arg p = as_admin ask p (done (get_field x p) (set_field x (to_int arg) p))
scull_ioctl ask p_tell_size arg p = done (pos 0) (record p { scull_p_buffer = to_int arg })
scull_ioctl ask p_query_size arg p = done p.scull_p_buffer p
scull_ioctl ask foreign arg p = done enotty p
scull_ioctl ask (no_case false) arg p = done enotty p
scull_ioctl ask (no_case true) arg p = with_access ask p (done enotty p)

-- The commands that a process without CAP_SYS_ADMIN is refused.
abbrev pub needs_admin : Command → Bool
needs_admin (set x) = true
needs_admin (tell x) = true
needs_admin (exchange x) = true
needs_admin (shift x) = true
needs_admin c = false

-- A process without the capability cannot change the quantum or the set size but by a reset: every
-- other command leaves both as they were.
pub scull_ioctl_unprivileged :
    (ask : Ask) (c : Command) (arg : ℤ) (p : Params)
    → ask.capable ≡ false
    → let p' = (scull_ioctl ask c arg p).params in
      (c ≡ reset) ⊎ ((p'.scull_quantum ≡ p.scull_quantum) × (p'.scull_qset ≡ p.scull_qset))
unfolding scull_ioctl
scull_ioctl_unprivileged ask reset arg p h = ground arith
scull_ioctl_unprivileged ask (set quantum) arg p h = ground arith
scull_ioctl_unprivileged ask (set qset) arg p h = ground arith
scull_ioctl_unprivileged ask (tell quantum) arg p h = ground arith
scull_ioctl_unprivileged ask (tell qset) arg p h = ground arith
scull_ioctl_unprivileged ask (get quantum) arg p h = ground arith
scull_ioctl_unprivileged ask (get qset) arg p h = ground arith
scull_ioctl_unprivileged ask (query quantum) arg p h = ground arith
scull_ioctl_unprivileged ask (query qset) arg p h = ground arith
scull_ioctl_unprivileged ask (exchange quantum) arg p h = ground arith
scull_ioctl_unprivileged ask (exchange qset) arg p h = ground arith
scull_ioctl_unprivileged ask (shift quantum) arg p h = ground arith
scull_ioctl_unprivileged ask (shift qset) arg p h = ground arith
scull_ioctl_unprivileged ask p_tell_size arg p h = ground arith
scull_ioctl_unprivileged ask p_query_size arg p h = ground arith
scull_ioctl_unprivileged ask foreign arg p h = ground arith
scull_ioctl_unprivileged ask (no_case false) arg p h = ground arith
scull_ioctl_unprivileged ask (no_case true) arg p h = ground arith

-- For a privileged process whose memory can be read and written, an exchange gives the old value and
-- a query after it gives the caller's; a shift returns the old value and a query after it returns the
-- argument as an int; neither changes the other parameter.
scull_ioctl-query :
    (ask : Ask) (x y : Field) (arg v : ℤ) (p : Params)
    → ask.capable ≡ true
    → ask.access_ok ≡ true
    → ask.put_ok ≡ true
    → ask.user_int ≡ some v
    → let exchanged = scull_ioctl ask (exchange x) arg p in
      let shifted = scull_ioctl ask (shift x) arg p in
      (exchanged.put ≡ some (scull_ioctl ask (query x) arg p).status)
      × ((scull_ioctl ask (query x) arg exchanged.params).status ≡ v)
      × (shifted.status ≡ (scull_ioctl ask (query x) arg p).status)
      × ((scull_ioctl ask (query x) arg shifted.params).status ≡ to_int arg)
      × ((x ≡ y)
          ⊎ ((get_field y exchanged.params ≡ get_field y p)
              × (get_field y shifted.params ≡ get_field y p)))
unfolding scull_ioctl
scull_ioctl-query ask quantum quantum arg v p c a o u = ground arith
scull_ioctl-query ask quantum qset arg v p c a o u = ground arith
scull_ioctl-query ask qset quantum arg v p c a o u = ground arith
scull_ioctl-query ask qset qset arg v p c a o u = ground arith

scull_ioctl_fault :
    (ask : Ask) (arg : ℤ) (p : Params)
    → ask.capable ≡ true
    → ask.access_ok ≡ true
    → ask.user_int ≡ none
    → scull_ioctl ask (set quantum) arg p ≡ done efault (set_field quantum (pos 0) p)
unfolding scull_ioctl
scull_ioctl_fault ask arg p c x u = rw x (rw c (rw u refl))

no_items : (d : ScullDev) → d.quantum ≡ 0 → unusable (itemsize d) ≡ true
no_items d h = rw h (ground arith)

scull_write_no_quantum :
    (d : ScullDev) (fault : Option ℕ) (a : List Bool) (junk bs : List ℕ) (f_pos : ℕ)
    → d.quantum ≡ 0
    → scull_write false fault a junk d bs f_pos ≡ none
unfolding scull_write
scull_write_no_quantum d fault a junk bs f_pos h = rw (no_items d h) refl

-- A set of the quantum that faults at the caller's address leaves the quantum 0: a device trimmed
-- after it divides by zero in a write.
scull_ioctl_fault-scull_write :
    (ask : Ask) (arg : ℤ) (p : Params) (dev : ScullDev) (fault : Option ℕ) (a : List Bool)
    (junk bs : List ℕ) (f_pos : ℕ)
    → ask.capable ≡ true
    → ask.access_ok ≡ true
    → ask.user_int ≡ none
    → let r = scull_ioctl ask (set quantum) arg p in
      (r.status ≡ efault)
      × (r.params.scull_quantum ≡ pos 0)
      × (scull_write false fault a junk (scull_trim r.params dev) bs f_pos ≡ none)
unfolding scull_trim
scull_ioctl_fault-scull_write ask arg p dev fault a junk bs f_pos c x u =
    let left = scull_ioctl_fault ask arg p c x u in
    (
      ap (λ r. r.status) left,
      ap (λ r. r.params.scull_quantum) left,
      scull_write_no_quantum (scull_trim (scull_ioctl ask (set quantum) arg p).params dev) fault a
          junk bs f_pos (ap (λ r. pos_part r.params.scull_quantum) left),
    )
