-- ===== src/Scull/Access/Tests.antt =====
-- Runs of the devices with access control (scull/access.c), and the theorems about them at concrete
-- inputs.
use device_drivers_lab_proje.Prelude.{refl, arith, false, [], ◌∷◌}
use device_drivers_lab_proje.Prelude.Int.{pos}
use device_drivers_lab_proje.Scull.Dev.{ScullDev, Params}
use device_drivers_lab_proje.Scull.Access.{Caller, scull_w_available, take_user}
use device_drivers_lab_proje.Scull.Access.Single.{
  Shared, IsExclusive, win, scull_s_open, Reach-IsExclusive,
}
use device_drivers_lab_proje.Scull.Access.User.{Held, IsShared, open_w, Reach-IsShared}
use device_drivers_lab_proje.Scull.Access.Single
use device_drivers_lab_proje.Scull.Access.User

abbrev params : Params
params = record { scull_quantum = pos 4; scull_qset = pos 2; scull_p_buffer = pos 8 }

abbrev bare : ScullDev
bare = record { sets = []; quantum = 4; qset = 2; size = 0 }

abbrev available : Shared
available = record { single = record { available = pos 1; dev = bare }; holders = 0; losing = 0 }

available-IsExclusive : IsExclusive available
available-IsExclusive = record { one = refl; at_most_one = omega arith }

abbrev taken : Shared
taken = record available { single = (scull_s_open params false available.single).1; holders = 1 }

Reach-IsExclusive_example : IsExclusive taken
Reach-IsExclusive_example =
    Reach-IsExclusive available-IsExclusive (Single.next Single.here (win available false refl))

abbrev alice : Caller
alice = record { uid = 1; euid = 1; override = false }

abbrev unused : Held
unused = record { dev = record { count = 0; owner = 0; dev = bare }; holders = [] }

unused-IsShared : IsShared unused
unused-IsShared = record { counted = refl; allowed = tt }

abbrev by_alice : Held
by_alice = record { dev = take_user params false alice unused.dev; holders = alice ∷ [] }

Reach-IsShared_example : IsShared by_alice
unfolding scull_w_available
Reach-IsShared_example =
    Reach-IsShared unused-IsShared (User.next User.here (open_w unused false alice refl))
