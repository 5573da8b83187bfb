-- ===== src/Paged.antt =====
-- The four memory devices with pluggable allocators: sculld/main.c, scullp/main.c, scullv/main.c and
-- scullc/main.c, whose code differs in the allocator and in what a quantum is. It is written once, for
-- a `Kind` of device; the modules Sculld, Scullp, Scullv and Scullc give each program its kind.
-- The results of `kmalloc` and of the allocator come from a list; where it ends, they fail.
-- The unit of a device is its `order`, or in scullc its `quantum`. Units, set sizes and their products
-- are natural numbers here: the code gives no meaning to a negative one, or to one beyond an int.
pub mod Blocks
pub mod Laid
pub mod Write
pub mod Read
pub mod Ioctl
pub mod Mmap
pub mod Pages
pub mod Overrun
pub mod Aio
pub mod Module
mod Tests
pub mod Run
use device_drivers_lab_proje.Prelude.{
  ℕ, zero, suc, ◌+◌, ◌-◌, ◌*◌, ◌/◌, ◌%◌, ◌^◌, Bool, true, false, Option, none, some, List, [], ◌∷◌,
  ◌++◌, if◌then◌else◌, ltb, ◌==◌, min, length, get_or, set, take, drop, replicate, splice,
}
use device_drivers_lab_proje.Prelude.Int.{
  ℤ, pos, pos_part, is_negative, ◌+ℤ◌, eqb_ℤ, efault, enomem, erestartsys, ebusy, einval,
}
use device_drivers_lab_proje.Scull.Dev.{slot, quanta_of, kmalloc, unusable, zero_filled}

-- What the code does that ends the kernel's guarantees: `memset` at the NULL of a `kmalloc` that
-- failed, an item size that is 0, by which it divides, or beyond an int, an access behind the end of a block, and `get_page` of NULL.
pub data Crash : Type 0 where
  null_item bad_itemsize overrun null_page : Crash

pub data Outcome {ℓ} (A : Type ℓ) : Type ℓ where
  done : A → Outcome A
  crash : Crash → Outcome A

infixl 5 ◌>>=◌
abbrev pub ◌>>=◌ {ℓ κ} : {A : Type ℓ} {B : Type κ} → Outcome A → (A → Outcome B) → Outcome B
done a >>= f = f a
crash c >>= f = crash c

-- What the programs differ in: the bytes of a quantum of a device of a unit, those of the block that
-- the allocator gives to an item of a unit, and those that `memset` clears in it, which in scullc is
-- the module's parameter at that time.
pub record Kind : Type 0 where
  pub quantum_bytes : ℕ → ℕ
  pub block_bytes : ℕ → ℕ
  pub clear_bytes : ℕ → ℕ → ℕ

-- An item of the list: its array of blocks, where there is one, and its own unit.
pub record Item : Type 0 where
  pub quanta : Option (List (Option (List ℕ)))
  pub unit : ℕ

-- What `kmalloc` and `memset` of an item leave.
abbrev pub new_item : Item
new_item = record { quanta = none; unit = 0 }

-- `struct sculld_dev` of a device, which is itself the first item, and the items behind it.
pub record PagedDev : Type 0 where
  pub quanta : Option (List (Option (List ℕ)))
  pub unit : ℕ
  pub next : List Item
  pub qset : ℕ
  pub size : ℕ
  pub vmas : ℤ

-- The parameters of the module: `sculld_order` and `sculld_qset`.
pub record Globals : Type 0 where
  pub unit : ℤ
  pub qset : ℤ

abbrev pub item_at : PagedDev → ℕ → Item
item_at d zero = record { quanta = d.quanta; unit = d.unit }
item_at d (suc i) = get_or d.next i new_item

-- The block in the slot `s` of the item `i`.
abbrev pub block_at : PagedDev → ℕ → ℕ → Option (List ℕ)
block_at d i s = slot (quanta_of (item_at d i).quanta) s

abbrev pub put_first :
    ℕ → List (Option (List ℕ)) → Option (List (Option (List ℕ))) → Option (List (Option (List ℕ)))
put_first zero qs o = some qs
put_first (suc i) qs o = o

abbrev pub put_next : ℕ → List (Option (List ℕ)) → List Item → List Item
put_next zero qs next = next
put_next (suc i) qs next = set next i (record (get_or next i new_item) { quanta = some qs })

-- `dptr->data = ...`
abbrev pub put_array : PagedDev → ℕ → List (Option (List ℕ)) → PagedDev
put_array d i qs = record d { quanta = put_first i qs d.quanta; next = put_next i qs d.next }

-- `dptr->data[s_pos] = ...`
abbrev pub put_block : PagedDev → ℕ → ℕ → List ℕ → PagedDev
put_block d i s q = put_array d i (set (quanta_of (item_at d i).quanta) s (some q))

-- None of the blocks is left, nor an item but the device itself.
unfoldable pub paged_trim : Globals → PagedDev → ℤ × PagedDev
paged_trim g dev =
    if eqb_ℤ dev.vmas (pos 0)
    then (
      pos 0,
      record {
        quanta = none;
        unit = pos_part g.unit;
        next = [];
        qset = pos_part g.qset;
        size = 0;
        vmas = dev.vmas;
      },
    )
    else (ebusy, dev)

-- By whether the file is opened write-only, and whether the wait for the lock is interrupted.
unfoldable pub paged_open : Globals → Bool → Bool → PagedDev → ℤ × PagedDev
unfolding paged_trim
paged_open g wronly interrupted dev =
    if wronly
    then if interrupted then (erestartsys, dev) else (pos 0, (paged_trim g dev).1)
    else (pos 0, dev)

-- `sculld_follow`: the items behind the device, with those that were added.
unfoldable pub paged_follow : ℕ → List Item → List Bool → Outcome (List Item × List Bool)
paged_follow zero next a = done (next, a)
paged_follow (suc n) [] a =
    let (ok, a') = kmalloc a in
    let rest = paged_follow n [] a' in
    if ok then (rest >>= λ r. done (new_item ∷ r.0, r.1)) else crash null_item
paged_follow (suc n) (x ∷ xs) a = paged_follow n xs a >>= λ r. done (x ∷ r.0, r.1)

-- What a transfer returns and leaves: `bytes` are those that the caller gets.
pub record Reply : Type 0 where
  pub status : ℤ
  pub dev : PagedDev
  pub f_pos : ℕ
  pub bytes : List ℕ

abbrev pub reply : ℤ → PagedDev → ℕ → Reply
reply e dev p = record { status = e; dev = dev; f_pos = p; bytes = [] }

-- The bytes of memory from the offset `i` on, where `junk` is what it holds.
abbrev pub memory : (ℕ → ℕ) → ℕ → ℕ → List ℕ
memory junk i zero = []
memory junk i (suc n) = junk i ∷ memory junk (suc i) n

-- `sculld_llseek`: the result and the position of the file. `whence` is any int.
unfoldable pub paged_llseek : PagedDev → ℕ → ℤ → ℤ → ℤ × ℕ
paged_llseek dev f_pos off whence =
    let newpos : ℤ =
      if eqb_ℤ whence (pos 0)
      then off
      else if eqb_ℤ whence (pos 1)
      then pos f_pos +ℤ off
      else pos dev.size +ℤ off in
    if ltb 2 (pos_part whence)
    then (einval, f_pos)
    else if is_negative whence
    then (einval, f_pos)
    else if is_negative newpos
    then (einval, f_pos)
    else (newpos, pos_part newpos)

module _ (k : Kind) where
  -- `quantum`, `itemsize`, `item`, an int that counts the loop of `sculld_follow` down to 0, so that a
  -- wrapped one goes round, `s_pos` and `q_pos`
  abbrev pub quantum_of : PagedDev → ℕ
  quantum_of d = k.quantum_bytes d.unit

  abbrev pub itemsize : PagedDev → ℕ
  itemsize d = quantum_of d * d.qset

  abbrev pub item_of : PagedDev → ℕ → ℕ
  item_of d p = p / itemsize d % 2 ^ 32

  abbrev pub s_pos_of : PagedDev → ℕ → ℕ
  s_pos_of d p = p % itemsize d / quantum_of d

  abbrev pub q_pos_of : PagedDev → ℕ → ℕ
  q_pos_of d p = p % itemsize d % quantum_of d

  -- From `read only up to the end of this quantum` on, by what is in the slot.
  unfoldable pub read_block : PagedDev → ℕ → ℕ → Bool → Option (List ℕ) → Outcome Reply
  read_block dev count p fault none = done (reply (pos 0) dev p)
  read_block dev count p fault (some q) =
      let i = q_pos_of dev p in
      let n = min count (quantum_of dev - i) in
      if ltb (length q - i) n
      then crash overrun
      else if fault
      then done (reply efault dev p)
      else done (record { status = pos n; dev = dev; f_pos = p + n; bytes = take n (drop i q) })

  unfoldable pub paged_read : Bool → Bool → List Bool → PagedDev → ℕ → ℕ → Outcome Reply
  unfolding paged_follow read_block
  paged_read interrupted fault a dev count p =
      let count' = if ltb dev.size (p + count) then dev.size - p else count in
      if interrupted
      then done (reply erestartsys dev p)
      else if ltb dev.size p
      then done (reply (pos 0) dev p)
      else if unusable (itemsize dev)
      then crash bad_itemsize
      else (paged_follow (item_of dev p) dev.next a >>= λ r.
          let dev' : PagedDev = record dev { next = r.0 } in
          read_block dev' count' p fault (block_at dev' (item_of dev p) (s_pos_of dev p)))

  -- How many of the caller's bytes are for the quantum at the position.
  abbrev pub fits : PagedDev → ℕ → List ℕ → ℕ
  fits dev p bs = min (length bs) (quantum_of dev - q_pos_of dev p)

  -- From `write only up to the end of this quantum` on: the block `q` is in its slot. `bs` are the
  -- caller's bytes; a copy that faults has copied some of them.
  unfoldable pub write_block : PagedDev → List ℕ → List ℕ → ℕ → Option ℕ → Outcome Reply
  write_block dev q bs p fault =
      let i = q_pos_of dev p in
      let n = fits dev p bs in
      let put : List ℕ → PagedDev =
        λ new. put_block dev (item_of dev p) (s_pos_of dev p) (splice i new q) in
      elim fault [
        | some copied ↦
            if ltb (length q - i) n
            then crash overrun
            else done (reply efault (put (zero_filled n (min copied n) bs)) p)
        | none ↦
            if ltb (length q - i) n
            then crash overrun
            else done (record {
              status = pos n;
              dev = record (put (take n bs)) {
                size = if ltb dev.size (p + n) then p + n else dev.size;
              };
              f_pos = p + n;
              bytes = [];
            })
      ]

  -- A block of an item of the unit `u`, cleared.
  unfoldable pub new_block : Globals → ℕ → (ℕ → ℕ) → Outcome (List ℕ)
  new_block g u junk =
      let c = k.clear_bytes u (pos_part g.unit) in
      if ltb (k.block_bytes u) c
      then crash overrun
      else done (replicate c 0 ++ memory junk c (k.block_bytes u - c))

  -- Behind the allocation of the array: `Here's the allocation of a single quantum`.
  unfoldable pub write_slot :
      Globals → (ℕ → ℕ) → List Bool → PagedDev → List ℕ → ℕ → Option ℕ → Outcome Reply
  unfolding write_block new_block
  write_slot g junk a dev bs p fault =
      let i = item_of dev p in
      let s = s_pos_of dev p in
      elim (block_at dev i s) [
        | some q ↦ write_block dev q bs p fault
        | none ↦
            if (kmalloc a).0
            then (new_block g (item_at dev i).unit junk >>= λ q.
                write_block (put_block dev i s q) q bs p fault)
            else done (reply enomem dev p)
      ]

  -- Behind `sculld_follow`, with the allocation of the array.
  unfoldable pub write_item :
      Globals → (ℕ → ℕ) → List Bool → PagedDev → List ℕ → ℕ → Option ℕ → Outcome Reply
  unfolding write_slot
  write_item g junk a dev bs p fault =
      let i = item_of dev p in
      elim (item_at dev i).quanta [
        | some qs ↦ write_slot g junk a dev bs p fault
        | none ↦
            let (ok, a') = kmalloc a in
            if ok
            then write_slot g junk a' (put_array dev i (replicate dev.qset none)) bs p fault
            else done (reply enomem dev p)
      ]

  unfoldable pub paged_write :
      Globals → Bool → Option ℕ → List Bool → (ℕ → ℕ) → PagedDev → List ℕ → ℕ → Outcome Reply
  unfolding paged_follow write_item
  paged_write g interrupted fault a junk dev bs p =
      if interrupted
      then done (reply erestartsys dev p)
      else if unusable (itemsize dev)
      then crash bad_itemsize
      else (paged_follow (item_of dev p) dev.next a >>= λ r.
          write_item g junk r.1 (record dev { next = r.0 }) bs p fault)
