-- ===== src/Paged/Write.antt =====
-- What a write does to the blocks of a device (sculld/main.c, `sculld_write`, and its kin).
pub mod Store
pub mod Steps
use device_drivers_lab_proje.Prelude.{
  ℕ, zero, suc, ◌+◌, ◌-◌, ◌*◌, ◌/◌, ◌%◌, ◌≡◌, ◌<◌, ◌≤◌, ◌⊎◌, inl, inr, refl, sym, ◌∙◌, ap, arith,
  Bool, true, false, ◌&&◌, Option, none, some, List, [], ◌∷◌, ◌++◌, if◌then◌else◌, ltb, ◌==◌, min,
  length, take, drop, get_or, set, replicate, splice, Bool-cases, Option-cases, length-take,
  length-splice, length-append, length-replicate,
}
use device_drivers_lab_proje.Prelude.Int.{ℤ, pos, pos_part, is_negative, efault, enomem}
use device_drivers_lab_proje.Scull.Dev.{slot, quanta_of, kmalloc, zero_filled, unusable}
use device_drivers_lab_proje.Paged.{
  Crash, Outcome, done, crash, null_item, Kind, Item, new_item, PagedDev, Globals, item_at,
  block_at, put_array, put_block, put_first, put_next, paged_follow, quantum_of, itemsize, item_of,
  s_pos_of, q_pos_of, fits, memory, new_block, Reply, reply, write_block, write_slot, write_item,
  paged_write, ◌>>=◌,
}
use device_drivers_lab_proje.Paged.Blocks.{
  paged_follow_lem, item_at-next, length-put_next, item_at-put_array,
}
use device_drivers_lab_proje.Paged.Laid.{
  Laid, Keeps, Keeps-refl, Keeps-trans, Laid-same, put_array-Keeps, put_block-Keeps,
  unit_at-put_array,
}

abbrev pub at_pos : Kind → PagedDev → ℕ → ℕ → ℕ → Bool
at_pos k dev p j t = j == item_of k dev p && t == s_pos_of k dev p

-- What a copy leaves of the block `q` at the position: the block, or the block with the first of the
-- caller's bytes written over it, and zeros behind them up to where the copy should have ended.
abbrev pub StillThere : Kind → PagedDev → List ℕ → ℕ → List ℕ → Option (List ℕ) → Type 0
StillThere k d bs p q o =
    (o ≡ some q)
    ⊎ ((m : ℕ) × (m ≤ fits k d p bs)
        × (o ≡ some (splice (q_pos_of k d p) (zero_filled (fits k d p bs) m bs) q)))

-- A write that succeeds: it takes what fits the quantum, moves the position, raises the size to the
-- end of what was written if that lies behind it, and changes the one block at the position, which was
-- there or is a new one.
pub record Writes (k : Kind) (g : Globals) (junk : ℕ → ℕ) (dev : PagedDev) (bs : List ℕ) (p : ℕ)
    (r : Reply) : Type 0 where
  pub status : r.status ≡ pos (fits k dev p bs)
  pub moved : r.f_pos ≡ p + fits k dev p bs
  pub size :
      r.dev.size ≡ (if ltb dev.size (p + fits k dev p bs) then p + fits k dev p bs else dev.size)
  pub room : item_of k dev p ≤ length r.dev.next
  pub old : List ℕ
  pub old_is :
      (block_at dev (item_of k dev p) (s_pos_of k dev p) ≡ some old)
      ⊎ ((block_at dev (item_of k dev p) (s_pos_of k dev p) ≡ none)
          × (new_block k g (item_at dev (item_of k dev p)).unit junk ≡ done old))
  pub content :
      (j t : ℕ)
      → block_at r.dev j t ≡ (
          if at_pos k dev p j t
          then some (splice (q_pos_of k dev p) (take (fits k dev p bs) bs) old)
          else block_at dev j t)

-- A write that fails returns an error, keeps the position and the size, and every block, but that a copy
-- which faults may have put the caller's first bytes, with zeros behind them, into the one at the position.
pub record Fails (k : Kind) (dev : PagedDev) (bs : List ℕ) (p : ℕ) (r : Reply) : Type 0 where
  pub status : is_negative r.status ≡ true
  pub moved : r.f_pos ≡ p
  pub size : r.dev.size ≡ dev.size
  pub elsewhere : (j t : ℕ) → at_pos k dev p j t ≡ false → block_at r.dev j t ≡ block_at dev j t
  pub kept :
      (q : List ℕ)
      → block_at dev (item_of k dev p) (s_pos_of k dev p) ≡ some q
      → StillThere k dev bs p q (block_at r.dev (item_of k dev p) (s_pos_of k dev p))

-- What a write of a device can come to.
abbrev pub Written : Kind → Globals → (ℕ → ℕ) → PagedDev → List ℕ → ℕ → Outcome Reply → Type 0
Written k g junk dev bs p o =
    (r : Reply) × (o ≡ done r)
    × Keeps k g dev r.dev
    × (Writes k g junk dev bs p r ⊎ Fails k dev bs p r)

pub s_pos_bound :
    (k : Kind) (g : Globals) (d : PagedDev) (p : ℕ) → Laid k g d → s_pos_of k d p < d.qset
s_pos_bound k g d p l = bound (p % itemsize k d) (quantum_of k d) d.qset l.quantum_pos (items l)
  where
    bound : (r q n : ℕ) → 0 < q → r < q * n → r / q < n
    bound r q n h lt = grind arith

    some_pos : (q n : ℕ) → 0 < q → 0 < n → 0 < q * n
    some_pos q n h h' = grind arith

    items : Laid k g d → p % itemsize k d < itemsize k d
    items l = omega (arith, some_pos (quantum_of k d) d.qset l.quantum_pos l.qset_pos)

pub itemsize_pos : (k : Kind) (g : Globals) (d : PagedDev) → Laid k g d → 0 < itemsize k d
itemsize_pos k g d l = product (quantum_of k d) d.qset l.quantum_pos l.qset_pos
  where
    product : (q n : ℕ) → 0 < q → 0 < n → 0 < q * n
    product q n h h' = grind arith

pub itemsize-unusable :
    (k : Kind) (g : Globals) (d : PagedDev) → Laid k g d → unusable (itemsize k d) ≡ false
itemsize-unusable k g d l = ground (arith, itemsize_pos k g d l, l.bounded)

pub q_pos_bound :
    (k : Kind) (g : Globals) (d : PagedDev) (p : ℕ) → Laid k g d → q_pos_of k d p < quantum_of k d
q_pos_bound k g d p l = omega (arith, l.quantum_pos)
