-- ===== src/Scull/Access/Single.antt =====
-- The device that one process at a time may open (scull/access.c, `scull_s_open`, `scull_s_release`).
use device_drivers_lab_proje.Prelude.{
  ℕ, suc, ◌+◌, ◌≡◌, ◌≢◌, ◌≤◌, arith, Bool, true, false, if◌then◌else◌,
}
use device_drivers_lab_proje.Prelude.Int.{ℤ, pos, negsuc, pos_part, neg_part, ◌+ℤ◌, eqb_ℤ, ebusy}
use device_drivers_lab_proje.Scull.Dev.{ScullDev, Params}
use device_drivers_lab_proje.Scull.Access.{open_dev}

-- `scull_s_available` and the device.
pub record SingleDev : Type 0 where
  pub available : ℤ
  pub dev : ScullDev

-- `atomic_dec_and_test` and `atomic_inc`
abbrev pub dec_and_test : SingleDev → Bool × SingleDev
dec_and_test s =
    (eqb_ℤ (s.available +ℤ negsuc 0) (pos 0), record s { available = s.available +ℤ negsuc 0 })

abbrev pub inc : SingleDev → SingleDev
inc s = record s { available = s.available +ℤ pos 1 }

unfoldable pub scull_s_open : Params → Bool → SingleDev → ℤ × SingleDev
scull_s_open p wronly s =
    let (free, s') = dec_and_test s in
    if free then (pos 0, record s' { dev = open_dev p wronly s'.dev }) else (ebusy, inc s')

unfoldable pub scull_s_release : SingleDev → SingleDev
scull_s_release s = inc s

-- Between its two atomic operations an open that fails has taken one that it gives back: `losing`
-- counts the opens that stand there, and `holders` those that have the device.
pub record Shared : Type 0 where
  pub single : SingleDev
  pub holders : ℕ
  pub losing : ℕ

pub data Step (p : Params) : Shared → Shared → Type 0 where
  win :
      (t : Shared) (wronly : Bool)
      → (dec_and_test t.single).0 ≡ true
      → Step p t (record {
        single = (scull_s_open p wronly t.single).1;
        holders = suc t.holders;
        losing = t.losing;
      })
  lose :
      (t : Shared)
      → (dec_and_test t.single).0 ≡ false
      → Step p t (record {
        single = (dec_and_test t.single).1;
        holders = t.holders;
        losing = suc t.losing;
      })
  give_back :
      (t : Shared) (n : ℕ)
      → t.losing ≡ suc n
      → Step p t (record { single = inc t.single; holders = t.holders; losing = n })
  release :
      (t : Shared) (n : ℕ)
      → t.holders ≡ suc n
      → Step p t (record { single = scull_s_release t.single; holders = n; losing = t.losing })

pub data Reach (p : Params) (t : Shared) : Shared → Type 0 where
  here : Reach p t t
  next : {u v : Shared} → Reach p t u → Step p u v → Reach p t v

-- What is available, held and about to be given back make up one.
pub record IsExclusive (t : Shared) : Type 0 where
  pub one : pos_part t.single.available + t.holders + t.losing ≡ 1 + neg_part t.single.available
  pub at_most_one : t.holders ≤ 1

Step-IsExclusive : {p : Params} {t u : Shared} → Step p t u → IsExclusive t → IsExclusive u
unfolding scull_s_open scull_s_release
Step-IsExclusive (win t wronly e) x = ground arith
Step-IsExclusive (lose t e) x = ground arith
Step-IsExclusive (give_back t n e) x = ground arith
Step-IsExclusive (release t n e) x = ground arith

-- However opens and releases interleave, also between the two atomic operations of an open that
-- fails, from a state where what is available, held and about to be given back make up one, at most
-- one process holds the device at a time.
pub Reach-IsExclusive : {p : Params} {t u : Shared} → IsExclusive t → Reach p t u → IsExclusive u
Reach-IsExclusive x here = x
Reach-IsExclusive x (next r s) = Step-IsExclusive s (Reach-IsExclusive x r)

-- An open that is not interrupted succeeds exactly when one is available, and takes it; one that
-- fails answers EBUSY and changes nothing; a release after an open that succeeded makes it available
-- again.
pub scull_s_open_lem :
    (p : Params) (wronly : Bool) (s : SingleDev)
    → let (e, s') = scull_s_open p wronly s in
      (s.available ≡ pos 1
        → (e ≡ pos 0)
          × (s'.available ≡ pos 0)
          × (s'.dev ≡ open_dev p wronly s.dev)
          × ((scull_s_release s').available ≡ pos 1))
      × (s.available ≢ pos 1 → (e ≡ ebusy) × (s' ≡ s))
unfolding scull_s_open scull_s_release
scull_s_open_lem p wronly s = ground arith
