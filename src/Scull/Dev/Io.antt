-- ===== src/Scull/Dev/Io.antt =====
-- Reading and writing the memory device (scull/main.c, `scull_read` and `scull_write`).
pub mod Write
pub mod Read
use device_drivers_lab_proje.Prelude.{
  ℕ, ◌+◌, ◌-◌, ◌*◌, ◌%◌, ◌/◌, ◌^◌, false, ◌≡◌, ◌<◌, arith, Option, none, some, List, length,
  get_elem?,
}
use device_drivers_lab_proje.Scull.Dev.{
  QuantumSet, ScullDev, quantum_at, quanta_of, set_at, s_pos_of, q_pos_of, itemsize, unusable,
}

-- The arrays have `qset` slots and the quanta `quantum` bytes; neither is 0, and their product is an int.
pub record IsValid (d : ScullDev) : Type 0 where
  pub quantum_pos : 0 < d.quantum
  pub qset_pos : 0 < d.qset
  pub bounded : itemsize d < 2 ^ 31
  pub arrays :
      (i : ℕ) (qs : List (Option (List ℕ)))
      → (set_at d.sets i).quanta ≡ some qs
      → length qs ≡ d.qset
  pub quanta : (i s : ℕ) (q : List ℕ) → quantum_at d.sets i s ≡ some q → length q ≡ d.quantum

slot_bound : (r q k : ℕ) → 0 < q → r < q * k → r / q < k
slot_bound r q k h lt = grind arith

pub itemsize_pos : (d : ScullDev) → IsValid d → 0 < itemsize d
itemsize_pos d v = grind arith

pub itemsize-unusable : (d : ScullDev) → IsValid d → unusable (itemsize d) ≡ false
itemsize-unusable d v = ground (arith, itemsize_pos d v, v.bounded)

pub s_pos_bound : (d : ScullDev) (p : ℕ) → IsValid d → s_pos_of d p < d.qset
s_pos_bound d p v =
    slot_bound (p % itemsize d) d.quantum d.qset v.quantum_pos (omega (arith, itemsize_pos d v))

pub q_pos_bound : (d : ScullDev) (p : ℕ) → IsValid d → q_pos_of d p < d.quantum
q_pos_bound d p v = omega (arith, v.quantum_pos)
