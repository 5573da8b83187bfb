-- ===== src/Scull/Dev/Tests.antt =====
-- Runs of the memory device (scull/main.c) with small quanta, and the theorems about it at concrete
-- inputs.
use device_drivers_lab_proje.Prelude.{
  ℕ, zero, suc, ◌≡◌, ◌⊎◌, refl, arith, true, false, some, none, [], ◌∷◌,
}
use device_drivers_lab_proje.Prelude.Int.{pos}
use device_drivers_lab_proje.Scull.Dev.{
  ScullDev, Params, scull_write, scull_read, set_at, scull_follow, write_set, ensure_array,
  ensure_quantum, write_quantum,
}
use device_drivers_lab_proje.Scull.Dev.Io.{IsValid}
use device_drivers_lab_proje.Scull.Dev.Io.Read.{scull_read-scull_write}
use device_drivers_lab_proje.Scull.Dev.Ioctl.{
  Ask, reset, set, quantum, scull_ioctl, scull_ioctl_unprivileged,
}

abbrev params : Params
params = record { scull_quantum = pos 4; scull_qset = pos 2; scull_p_buffer = pos 8 }

abbrev empty : ScullDev
empty = record { sets = []; quantum = 4; qset = 2; size = 0 }

no_array : (i : ℕ) → (set_at [] i).quanta ≡ none
no_array zero = refl
no_array (suc i) = refl

empty-IsValid : IsValid empty
empty-IsValid = record {
  bounded = omega arith;
  quantum_pos = omega arith;
  qset_pos = omega arith;
  arrays = λ i qs e. absurd (ground (arith, no_array i));
  quanta = λ i s q e. absurd (ground arith);
}

-- Three bytes in the first quantum.
abbrev filled : ScullDev
filled = record {
  sets = (record { quanta = some (some (5 ∷ 6 ∷ 7 ∷ 0 ∷ []) ∷ none ∷ []) }) ∷ [];
  quantum = 4;
  qset = 2;
  size = 3;
}

written :
    scull_write false none (true ∷ true ∷ true ∷ []) (0 ∷ 0 ∷ 0 ∷ 0 ∷ []) empty (5 ∷ 6 ∷ 7 ∷ []) 0
    ≡ some (record { status = pos 3; dev = filled; f_pos = 3; bytes = [] })
unfolding scull_write scull_follow write_set ensure_array ensure_quantum write_quantum
written = refl

scull_read-scull_write_example :
    scull_read false false [] filled 2 0
    ≡ some (record { status = pos 2; dev = filled; f_pos = 2; bytes = 5 ∷ 6 ∷ [] })
scull_read-scull_write_example =
    scull_read-scull_write none (true ∷ true ∷ true ∷ []) [] empty (0 ∷ 0 ∷ 0 ∷ 0 ∷ [])
      (5 ∷ 6 ∷ 7 ∷ []) 0 2 empty-IsValid refl written refl (omega arith) (omega arith)

-- A process without the capability, one with it, and one whose address faults.
abbrev user : Ask
user = record { capable = false; access_ok = true; user_int = some (pos 9); put_ok = true }

abbrev admin : Ask
admin = record user { capable = true }

abbrev faulting : Ask
faulting = record admin { user_int = none }

scull_ioctl_unprivileged_example :
    let p' = (scull_ioctl user (set quantum) (pos 0) params).params in
    (set quantum ≡ reset) ⊎ ((p'.scull_quantum ≡ pos 4) × (p'.scull_qset ≡ pos 2))
scull_ioctl_unprivileged_example = scull_ioctl_unprivileged user (set quantum) (pos 0) params refl
