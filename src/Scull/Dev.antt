-- ===== src/Scull/Dev.antt =====
-- The memory device (scull/main.c, scull/scull.h): a list of quantum sets, each an array of quanta.
-- The results of `kmalloc` come from a list; a failure of the list's end on is a failure of `kmalloc`.
-- The int fields are natural numbers here: a negative quantum has no meaning for the code. A product of
-- them beyond an int has none either.
pub mod Follow
pub mod Io
pub mod Ioctl
mod Tests
use device_drivers_lab_proje.Prelude.{
  ℕ, zero, suc, ◌+◌, ◌-◌, ◌*◌, ◌/◌, ◌%◌, ◌^◌, ◌||◌, Bool, true, false, ◌&&◌, Option, none, some,
  List, [], ◌∷◌, ◌++◌, if◌then◌else◌, ltb, leb, ◌==◌, min, length, get_elem?, set, take, drop,
  replicate, splice,
}
use device_drivers_lab_proje.Prelude.Int.{
  ℤ, pos, pos_part, ◌+ℤ◌, is_negative, efault, enomem, erestartsys, einval,
}

-- `struct scull_qset`: the array of quanta, where there is one. Its place in the list is `next`.
pub record QuantumSet : Type 0 where
  pub quanta : Option (List (Option (List ℕ)))

-- `struct scull_dev`
pub record ScullDev : Type 0 where
  pub sets : List QuantumSet
  pub quantum : ℕ
  pub qset : ℕ
  pub size : ℕ

-- The module's parameters.
pub record Params : Type 0 where
  pub scull_quantum : ℤ
  pub scull_qset : ℤ
  pub scull_p_buffer : ℤ

abbrev pub no_quanta : QuantumSet
no_quanta = record { quanta = none }

unfoldable pub scull_trim : Params → ScullDev → ScullDev
scull_trim p dev = record {
  sets = [];
  quantum = pos_part p.scull_quantum;
  qset = pos_part p.scull_qset;
  size = 0;
}

-- `scull_open`: by whether the file is write-only, and whether the lock was interrupted.
unfoldable pub scull_open : Params → Bool → Bool → ScullDev → ℤ × ScullDev
unfolding scull_trim
scull_open p wronly interrupted dev =
    if wronly
    then if interrupted then (erestartsys, dev) else (pos 0, scull_trim p dev)
    else (pos 0, dev)

-- `kmalloc`
abbrev pub kmalloc : List Bool → Bool × List Bool
kmalloc [] = (false, [])
kmalloc (ok ∷ rest) = (ok, rest)

-- `scull_follow`: whether the set `n` is there in the end, and the list with what was added to it.
unfoldable pub scull_follow : ℕ → List QuantumSet → List Bool → Bool × List QuantumSet × List Bool
scull_follow zero [] a = let (ok, a') = kmalloc a in (ok, if ok then no_quanta ∷ [] else [], a')
scull_follow (suc n) [] a =
    let (ok, a') = kmalloc a in
    let (there, rest, a'') = scull_follow n [] a' in
    if ok then (there, no_quanta ∷ rest, a'') else (false, [], a')
scull_follow zero (q ∷ qs) a = (true, q ∷ qs, a)
scull_follow (suc n) (q ∷ qs) a =
    let (there, rest, a') = scull_follow n qs a in (there, q ∷ rest, a')

-- The quantum in the slot `s` of an array, and in that of the array of the set `i`.
abbrev pub slot : List (Option (List ℕ)) → ℕ → Option (List ℕ)
slot [] s = none
slot (q ∷ qs) zero = q
slot (q ∷ qs) (suc s) = slot qs s

abbrev pub quanta_of : Option (List (Option (List ℕ))) → List (Option (List ℕ))
quanta_of none = []
quanta_of (some qs) = qs

abbrev pub quantum_at : List QuantumSet → ℕ → ℕ → Option (List ℕ)
quantum_at [] i s = none
quantum_at (q ∷ qs) zero s = slot (quanta_of q.quanta) s
quantum_at (q ∷ qs) (suc i) s = quantum_at qs i s

-- What a transfer returns and leaves: `bytes` are those that the caller gets.
pub record Reply : Type 0 where
  pub status : ℤ
  pub dev : ScullDev
  pub f_pos : ℕ
  pub bytes : List ℕ

-- What the code cannot divide by: 0, or a product that overflows an int, as 65536 * 65536 does to 0.
abbrev pub unusable : ℕ → Bool
unusable size = size == 0 || leb (2 ^ 31) size

abbrev pub itemsize : ScullDev → ℕ
itemsize d = d.quantum * d.qset

-- `item`, an int that counts the loop of `scull_follow` down to 0, so that a wrapped one goes round;
-- `s_pos` and `q_pos`
abbrev pub item_of : ScullDev → ℕ → ℕ
item_of d p = p / itemsize d % 2 ^ 32

abbrev pub s_pos_of : ScullDev → ℕ → ℕ
s_pos_of d p = p % itemsize d / d.quantum

abbrev pub q_pos_of : ScullDev → ℕ → ℕ
q_pos_of d p = p % itemsize d % d.quantum

-- From `read only up to the end of this quantum` on.
unfoldable pub read_quantum : ScullDev → ℕ → ℕ → Bool → Option (List ℕ) → Reply
read_quantum dev count p fault none = record { status = pos 0; dev = dev; f_pos = p; bytes = [] }
read_quantum dev count p fault (some q) =
    let n = min count (dev.quantum - q_pos_of dev p) in
    if fault then record { status = efault; dev = dev; f_pos = p; bytes = [] } else record {
      status = pos n;
      dev = dev;
      f_pos = p + n;
      bytes = take n (drop (q_pos_of dev p) q);
    }

-- None where the item size is 0, a division by zero, or overflows an int.
unfoldable pub scull_read : Bool → Bool → List Bool → ScullDev → ℕ → ℕ → Option Reply
unfolding read_quantum
scull_read interrupted fault a dev count p =
    let nothing_read : ScullDev → Reply =
      λ (d : ScullDev). record { status = pos 0; dev = d; f_pos = p; bytes = [] } in
    if interrupted
    then some (record { status = erestartsys; dev = dev; f_pos = p; bytes = [] })
    else if leb dev.size p
    then some (nothing_read dev)
    else if unusable (itemsize dev)
    then none
    else let count' = if ltb dev.size (p + count) then dev.size - p else count in
      let (there, sets, a') = scull_follow (item_of dev p) dev.sets a in
      let dev' : ScullDev = record dev { sets = sets } in
      some (
        if there
        then read_quantum dev' count' p fault (quantum_at sets (item_of dev p) (s_pos_of dev p))
        else nothing_read dev')

-- The array of a set, allocated and cleared if need be.
unfoldable pub ensure_array :
    ℕ → Option (List (Option (List ℕ))) → List Bool → Bool × List (Option (List ℕ)) × List Bool
ensure_array qset (some qs) a = (true, qs, a)
ensure_array qset none a = let (ok, a') = kmalloc a in (ok, replicate qset none, a')

-- A quantum, allocated if need be: `junk` is what the new memory holds.
unfoldable pub ensure_quantum : List ℕ → Option (List ℕ) → List Bool → Bool × List ℕ
ensure_quantum junk (some q) a = (true, q)
ensure_quantum junk none a = ((kmalloc a).0, junk)

-- The set of that number in a list that holds it.
abbrev pub set_at : List QuantumSet → ℕ → QuantumSet
set_at [] i = no_quanta
set_at (q ∷ qs) zero = q
set_at (q ∷ qs) (suc i) = set_at qs i

abbrev pub put_array : List QuantumSet → ℕ → List (Option (List ℕ)) → List QuantumSet
put_array sets i qs = set sets i (record { quanta = some qs })

-- The list `sets` with the quantum `v` in the slot of the position, in the array `qs`.
abbrev pub store :
    ScullDev → List QuantumSet → List (Option (List ℕ)) → ℕ → List ℕ → List QuantumSet
store dev sets qs p v = put_array sets (item_of dev p) (set qs (s_pos_of dev p) (some v))

-- How many of the caller's bytes fit in the quantum at the position.
abbrev pub fits : ScullDev → ℕ → List ℕ → ℕ
fits dev p bs = min (length bs) (dev.quantum - q_pos_of dev p)

-- What `copy_from_user` of `n` bytes stores where it faults behind the first `m` of them: zeros behind.
abbrev pub zero_filled : ℕ → ℕ → List ℕ → List ℕ
zero_filled n m bs = take m bs ++ replicate (n - m) 0

-- From `Write only up to the end of this quantum` on: `sets` holds the array `qs` with the quantum
-- `q` in its slot. `bs` are the caller's bytes; a copy that faults has copied some of them.
unfoldable pub write_quantum :
    ScullDev → List QuantumSet → List (Option (List ℕ)) → List ℕ → List ℕ → ℕ → Option ℕ → Reply
write_quantum dev sets qs q bs p (some copied) = record {
  status = efault;
  dev = record dev {
    sets =
        store dev sets qs p
          (splice (q_pos_of dev p) (zero_filled (fits dev p bs) (min copied (fits dev p bs)) bs) q);
  };
  f_pos = p;
  bytes = [];
}
write_quantum dev sets qs q bs p none =
    let n = fits dev p bs in
    record {
      status = pos n;
      dev = record dev {
        sets = store dev sets qs p (splice (q_pos_of dev p) (take n bs) q);
        size = if ltb dev.size (p + n) then p + n else dev.size;
      };
      f_pos = p + n;
      bytes = [];
    }

-- Behind `scull_follow`.
unfoldable pub write_set :
    List ℕ → ScullDev → List QuantumSet → List ℕ → ℕ → Option ℕ → List Bool → Reply
unfolding ensure_array ensure_quantum write_quantum
write_set junk dev sets bs p fault a =
    let out : List QuantumSet → Reply = λ (s : List QuantumSet). record {
      status = enomem;
      dev = record dev { sets = s };
      f_pos = p;
      bytes = [];
    } in
    let (ok, qs, a') = ensure_array dev.qset (set_at sets (item_of dev p)).quanta a in
    let (ok', q) = ensure_quantum junk (slot qs (s_pos_of dev p)) a' in
    if ok
    then if ok'
      then write_quantum dev sets qs q bs p fault
      else out (put_array sets (item_of dev p) qs)
    else out sets

unfoldable pub scull_write :
    Bool → Option ℕ → List Bool → List ℕ → ScullDev → List ℕ → ℕ → Option Reply
unfolding write_set
scull_write interrupted fault a junk dev bs p =
    if interrupted
    then some (record { status = erestartsys; dev = dev; f_pos = p; bytes = [] })
    else if unusable (itemsize dev)
    then none
    else let (there, sets, a') = scull_follow (item_of dev p) dev.sets a in
      some (
        if there
        then write_set junk dev sets bs p fault a'
        else record { status = enomem; dev = record dev { sets = sets }; f_pos = p; bytes = [] })

-- `whence` is any int.
unfoldable pub scull_llseek : ScullDev → ℕ → ℤ → ℕ → ℤ × ℕ
scull_llseek dev f_pos off whence =
    let newpos =
      if whence == 0 then off else if whence == 1 then pos f_pos +ℤ off else pos dev.size +ℤ off in
    if ltb 2 whence
    then (einval, f_pos)
    else if is_negative newpos
    then (einval, f_pos)
    else (newpos, pos_part newpos)
