-- ===== src/Paged/Blocks.antt =====
-- Which blocks a device holds after the steps of a write (sculld/main.c, `sculld_follow` and the
-- allocations of `sculld_write`), and the invariant that every block has the bytes of a quantum.
use device_drivers_lab_proje.Prelude.{
  ℕ, zero, suc, ◌≡◌, ◌<◌, ◌≤◌, ◌⊎◌, inl, inr, refl, ◌∙◌, ap, arith, Bool, true, false, ◌&&◌, Option,
  some, List, [], ◌∷◌, if◌then◌else◌, ◌==◌, length, get_or, set, Bool-cases, length-set,
}
use device_drivers_lab_proje.Scull.Dev.{slot, quanta_of}
use device_drivers_lab_proje.Scull.Dev.Follow.{slot-set}
use device_drivers_lab_proje.Paged.{
  done, crash, null_item, Item, new_item, PagedDev, item_at, block_at, put_next, put_array,
  put_block, paged_follow,
}

get_or-set :
    (xs : List Item) (i : ℕ) (v d : Item) (j : ℕ)
    → i < length xs
    → get_or (set xs i v) j d ≡ (if j == i then v else get_or xs j d)
get_or-set [] i v d j h = absurd (omega arith)
get_or-set (x ∷ xs) zero v d zero h = refl
get_or-set (x ∷ xs) zero v d (suc j) h = ground arith
get_or-set (x ∷ xs) (suc i) v d zero h = ground arith
get_or-set (x ∷ xs) (suc i) v d (suc j) h = get_or-set xs i v d j (omega arith) ∙ ground arith

-- Storing an array changes the item that it is stored in, and that item's array only.
pub item_at-put_array :
    (d : PagedDev) (i : ℕ) (qs : List (Option (List ℕ))) (j : ℕ)
    → i ≤ length d.next
    → item_at (put_array d i qs) j
      ≡ (if j == i then record (item_at d i) { quanta = some qs } else item_at d j)
item_at-put_array d zero qs zero h = refl
item_at-put_array d zero qs (suc j) h = ground arith
item_at-put_array d (suc i) qs zero h = ground arith
item_at-put_array d (suc i) qs (suc j) h =
    get_or-set d.next i (record (get_or d.next i new_item) { quanta = some qs }) new_item j
      (omega arith)
    ∙ ground arith

pub length-put_next :
    (i : ℕ) (qs : List (Option (List ℕ))) (xs : List Item) → length (put_next i qs xs) ≡ length xs
length-put_next zero qs xs = refl
length-put_next (suc i) qs xs = length-set xs i (record (get_or xs i new_item) { quanta = some qs })

pub block_at-put_array :
    (d : PagedDev) (i : ℕ) (qs : List (Option (List ℕ))) (j t : ℕ)
    → i ≤ length d.next
    → block_at (put_array d i qs) j t ≡ (if j == i then slot qs t else block_at d j t)
block_at-put_array d i qs j t h =
    ap (λ x. slot (quanta_of x.quanta) t) (item_at-put_array d i qs j h)
    ∙ elim (Bool-cases (j == i)) [ inl e ↦ rw e refl | inr e ↦ rw e refl ]

pub block_at-put_block :
    (d : PagedDev) (i s : ℕ) (q : List ℕ) (j t : ℕ)
    → i ≤ length d.next
    → s < length (quanta_of (item_at d i).quanta)
    → block_at (put_block d i s q) j t ≡ (if j == i && t == s then some q else block_at d j t)
block_at-put_block d i s q j t h lt =
    let qs = quanta_of (item_at d i).quanta in
    block_at-put_array d i (set qs s (some q)) j t h ∙ elim (Bool-cases (j == i)) [
      | inl e ↦ rw e (
          slot-set qs s (some q) t lt
          ∙ ap (λ x. if t == s then some q else x)
              (ap (λ n. block_at d n t) (let e' : i ≡ j = ground arith in e')))
      | inr e ↦ rw e refl
    ]

-- Following the list either meets a failed allocation, or makes it long enough and leaves each item as
-- it was, or new where there was none.
pub paged_follow_lem :
    (n : ℕ) (xs : List Item) (a : List Bool)
    → (paged_follow n xs a ≡ crash null_item)
      ⊎ ((ys : List Item) × (b : List Bool) × (paged_follow n xs a ≡ done (ys, b))
          × (n ≤ length ys)
          × ((j : ℕ) → get_or ys j new_item ≡ get_or xs j new_item))
unfolding paged_follow
paged_follow_lem zero xs a = inr (xs, a, refl, omega arith, λ j. refl)
paged_follow_lem (suc n) [] [] = inl refl
paged_follow_lem (suc n) [] (false ∷ a) = inl refl
paged_follow_lem (suc n) [] (true ∷ a) = elim (paged_follow_lem n [] a) [
  | inl e ↦ inl (rw e refl)
  | inr (ys, b, e, le, same) ↦ inr (new_item ∷ ys, b, rw e refl, omega arith, new_first ys same)
]
  where
    new_first :
        (ys : List Item)
        → ((j : ℕ) → get_or ys j new_item ≡ get_or [] j new_item)
        → (j : ℕ) → get_or (new_item ∷ ys) j new_item ≡ get_or [] j new_item
    new_first ys same zero = refl
    new_first ys same (suc j) = same j
paged_follow_lem (suc n) (x ∷ xs) a = elim (paged_follow_lem n xs a) [
  | inl e ↦ inl (rw e refl)
  | inr (ys, b, e, le, same) ↦ inr (x ∷ ys, b, rw e refl, omega arith, behind ys same)
]
  where
    behind :
        (ys : List Item)
        → ((j : ℕ) → get_or ys j new_item ≡ get_or xs j new_item)
        → (j : ℕ) → get_or (x ∷ ys) j new_item ≡ get_or (x ∷ xs) j new_item
    behind ys same zero = refl
    behind ys same (suc j) = same j

pub item_at-next :
    (d : PagedDev) (ys : List Item)
    → ((j : ℕ) → get_or ys j new_item ≡ get_or d.next j new_item)
    → (j : ℕ) → item_at (record d { next = ys }) j ≡ item_at d j
item_at-next d ys same zero = refl
item_at-next d ys same (suc j) = same j
