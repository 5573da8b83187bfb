-- ===== src/Scull/Dev/Follow.antt =====
-- `scull_follow` (scull/main.c) adds empty sets at the end of the list and changes nothing else.
use device_drivers_lab_proje.Prelude.{
  ℕ, zero, suc, ◌≡◌, ◌<◌, refl, ◌∙◌, ap, ◌==◌, if◌then◌else◌, set, replicate, arith, Bool, true,
  false, Option, none, List, [], ◌∷◌, length,
}
use device_drivers_lab_proje.Scull.Dev.{
  QuantumSet, scull_follow, quantum_at, set_at, slot, quanta_of, put_array,
}

-- Following the list leaves every quantum as it was, whether the allocations succeed or not.
pub scull_follow-quantum_at :
    (n : ℕ) (sets : List QuantumSet) (a : List Bool) (i s : ℕ)
    → quantum_at (scull_follow n sets a).1 i s ≡ quantum_at sets i s
unfolding scull_follow
scull_follow-quantum_at zero [] (true ∷ a) zero s = refl
scull_follow-quantum_at zero [] (true ∷ a) (suc i) s = refl
scull_follow-quantum_at zero [] (false ∷ a) i s = refl
scull_follow-quantum_at zero [] [] i s = refl
scull_follow-quantum_at (suc n) [] (true ∷ a) zero s = refl
scull_follow-quantum_at (suc n) [] (true ∷ a) (suc i) s = scull_follow-quantum_at n [] a i s
scull_follow-quantum_at (suc n) [] (false ∷ a) i s = refl
scull_follow-quantum_at (suc n) [] [] i s = refl
scull_follow-quantum_at zero (q ∷ qs) a i s = refl
scull_follow-quantum_at (suc n) (q ∷ qs) a zero s = refl
scull_follow-quantum_at (suc n) (q ∷ qs) a (suc i) s = scull_follow-quantum_at n qs a i s

-- Where it succeeds, the list is long enough for the set.
pub scull_follow-length :
    (n : ℕ) (sets : List QuantumSet) (a : List Bool)
    → (scull_follow n sets a).0 ≡ true
    → n < length (scull_follow n sets a).1
unfolding scull_follow
scull_follow-length zero [] (true ∷ a) h = omega arith
scull_follow-length zero [] (false ∷ a) h = cc
scull_follow-length zero [] [] h = cc
scull_follow-length (suc n) [] (true ∷ a) h = omega (arith, scull_follow-length n [] a h)
scull_follow-length (suc n) [] (false ∷ a) h = cc
scull_follow-length (suc n) [] [] h = cc
scull_follow-length zero (q ∷ qs) a h = omega arith
scull_follow-length (suc n) (q ∷ qs) a h = omega (arith, scull_follow-length n qs a h)

-- The slots of the set with a number are the quanta at that number.
pub set_at-quantum_at :
    (sets : List QuantumSet) (i s : ℕ)
    → slot (quanta_of (set_at sets i).quanta) s ≡ quantum_at sets i s
set_at-quantum_at [] i s = refl
set_at-quantum_at (q ∷ qs) zero s = refl
set_at-quantum_at (q ∷ qs) (suc i) s = set_at-quantum_at qs i s

-- A list that is long enough is followed without an allocation.
pub scull_follow_there :
    (n : ℕ) (sets : List QuantumSet) (a : List Bool)
    → n < length sets
    → scull_follow n sets a ≡ (true, sets, a)
unfolding scull_follow
scull_follow_there n [] a h = absurd (omega arith)
scull_follow_there zero (q ∷ qs) a h = refl
scull_follow_there (suc n) (q ∷ qs) a h =
    ap (λ r. (r.0, q ∷ r.1, r.2)) (scull_follow_there n qs a (omega arith))

pub put_array-quantum_at :
    (sets : List QuantumSet) (i : ℕ) (qs : List (Option (List ℕ))) (j s : ℕ)
    → i < length sets
    → quantum_at (put_array sets i qs) j s ≡ (if j == i then slot qs s else quantum_at sets j s)
put_array-quantum_at [] i qs j s h = absurd (omega arith)
put_array-quantum_at (q ∷ sets) zero qs zero s h = refl
put_array-quantum_at (q ∷ sets) zero qs (suc j) s h = ground arith
put_array-quantum_at (q ∷ sets) (suc i) qs zero s h = ground arith
put_array-quantum_at (q ∷ sets) (suc i) qs (suc j) s h =
    put_array-quantum_at sets i qs j s (omega arith) ∙ ground arith

pub slot-set :
    (qs : List (Option (List ℕ))) (s : ℕ) (v : Option (List ℕ)) (t : ℕ)
    → s < length qs
    → slot (set qs s v) t ≡ (if t == s then v else slot qs t)
slot-set [] s v t h = absurd (omega arith)
slot-set (q ∷ qs) zero v zero h = refl
slot-set (q ∷ qs) zero v (suc t) h = ground arith
slot-set (q ∷ qs) (suc s) v zero h = ground arith
slot-set (q ∷ qs) (suc s) v (suc t) h = slot-set qs s v t (omega arith) ∙ ground arith

pub slot-replicate : (n t : ℕ) → slot (replicate n none) t ≡ none
slot-replicate zero t = refl
slot-replicate (suc n) zero = refl
slot-replicate (suc n) (suc t) = slot-replicate n t

-- Following the list leaves the set with each number as it was, or empty where there was none.
pub scull_follow-set_at :
    (n : ℕ) (sets : List QuantumSet) (a : List Bool) (i : ℕ)
    → set_at (scull_follow n sets a).1 i ≡ set_at sets i
unfolding scull_follow
scull_follow-set_at zero [] (true ∷ a) zero = refl
scull_follow-set_at zero [] (true ∷ a) (suc i) = refl
scull_follow-set_at zero [] (false ∷ a) i = refl
scull_follow-set_at zero [] [] i = refl
scull_follow-set_at (suc n) [] (true ∷ a) zero = refl
scull_follow-set_at (suc n) [] (true ∷ a) (suc i) = scull_follow-set_at n [] a i
scull_follow-set_at (suc n) [] (false ∷ a) i = refl
scull_follow-set_at (suc n) [] [] i = refl
scull_follow-set_at zero (q ∷ qs) a i = refl
scull_follow-set_at (suc n) (q ∷ qs) a zero = refl
scull_follow-set_at (suc n) (q ∷ qs) a (suc i) = scull_follow-set_at n qs a i
