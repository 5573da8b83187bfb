-- ===== src/Paged/Overrun.antt =====
-- Where a write of sculld/main.c and its kin leaves its block: an item made by `sculld_follow` has the
-- unit 0, and `memset` in scullc/main.c goes by the module's parameter.
use device_drivers_lab_proje.Prelude.{
  ℕ, zero, suc, ◌-◌, ◌≡◌, ◌<◌, ◌≤◌, refl, sym, ◌∙◌, ap, arith, Bool, true, false, Option, none,
  List, [], ◌∷◌, ◌++◌, ◌==◌, ltb, length, get_or, replicate, length-append, length-replicate,
}
use device_drivers_lab_proje.Prelude.Int.{pos_part}
use device_drivers_lab_proje.Scull.Dev.Follow.{slot-replicate}
use device_drivers_lab_proje.Paged.{
  done, crash, overrun, Kind, Item, new_item, PagedDev, Globals, item_at, block_at, itemsize,
  item_of, s_pos_of, q_pos_of, fits, paged_follow, new_block, write_block, write_slot, write_item,
  paged_write, put_array, memory,
}
use device_drivers_lab_proje.Scull.Dev.{unusable}
use mathlib.Core.Path.{subst}
use device_drivers_lab_proje.Paged.Blocks.{block_at-put_array}
use device_drivers_lab_proje.Paged.Laid.{unit_at-put_array}
use device_drivers_lab_proje.Paged.Write.Store.{length-memory}

follow_new :
    (n : ℕ) (rest : List Bool)
    → paged_follow n [] (replicate n true ++ rest) ≡ done (replicate n new_item, rest)
unfolding paged_follow
follow_new zero rest = refl
follow_new (suc n) rest = rw (follow_new n rest) refl

new_there : (n : ℕ) → get_or (replicate (suc n) new_item) n new_item ≡ new_item
new_there zero = refl
new_there (suc n) = new_there n

module _ (k : Kind) (g : Globals) (junk : ℕ → ℕ) (bs : List ℕ) (p : ℕ) (rest : List Bool) where
  -- Behind the list: the array and the block are made, and the copy does not fit.
  write_item_overruns :
      (d : PagedDev)
      → item_of k d p ≤ length d.next
      → (item_at d (item_of k d p)).quanta ≡ none
      → let u = (item_at d (item_of k d p)).unit in
        k.clear_bytes u (pos_part g.unit) ≤ k.block_bytes u
        → k.block_bytes u - q_pos_of k d p < fits k d p bs
        → write_item k g junk (true ∷ true ∷ rest) d bs p none ≡ crash overrun
  unfolding write_item write_slot new_block write_block
  write_item_overruns d room e inside long =
      let i = item_of k d p in
      let qs : List (Option (List ℕ)) = replicate d.qset none in
      let u = (item_at d i).unit in
      let c = k.clear_bytes u (pos_part g.unit) in
      let block : List ℕ = replicate c 0 ++ memory junk c (k.block_bytes u - c) in
      let empty : block_at (put_array d i qs) i (s_pos_of k d p) ≡ none =
        block_at-put_array d i qs i (s_pos_of k d p) room
        ∙ (let here : (i == i) ≡ true = ground arith in
            rw here (slot-replicate d.qset (s_pos_of k d p))) in
      let same : (item_at (put_array d i qs) i).unit ≡ u = unit_at-put_array d i qs i room in
      let clears : ltb (k.block_bytes u) c ≡ false = ground arith in
      let len : length block ≡ k.block_bytes u = omega (
        arith,
        length-append (replicate c 0) (memory junk c (k.block_bytes u - c)),
        length-replicate {A = ℕ} c 0,
        length-memory junk c (k.block_bytes u - c),
      ) in
      let beyond : ltb (length block - q_pos_of k d p) (fits k d p bs) ≡ true =
        ground (arith, len) in
      rw (write_item, e) (rw (write_slot, empty) (rw (same, clears) (rw beyond refl)))

  write_item_clears_beyond :
      (d : PagedDev) (fault : Option ℕ)
      → item_of k d p ≤ length d.next
      → (item_at d (item_of k d p)).quanta ≡ none
      → let u = (item_at d (item_of k d p)).unit in
        k.block_bytes u < k.clear_bytes u (pos_part g.unit)
        → write_item k g junk (true ∷ true ∷ rest) d bs p fault ≡ crash overrun
  unfolding write_item write_slot new_block
  write_item_clears_beyond d fault room e beyond =
      let i = item_of k d p in
      let qs : List (Option (List ℕ)) = replicate d.qset none in
      let u = (item_at d i).unit in
      let empty : block_at (put_array d i qs) i (s_pos_of k d p) ≡ none =
        block_at-put_array d i qs i (s_pos_of k d p) room
        ∙ (let here : (i == i) ≡ true = ground arith in
            rw here (slot-replicate d.qset (s_pos_of k d p))) in
      let same : (item_at (put_array d i qs) i).unit ≡ u = unit_at-put_array d i qs i room in
      let over : ltb (k.block_bytes u) (k.clear_bytes u (pos_part g.unit)) ≡ true = ground arith in
      rw (write_item, e) (rw (write_slot, empty) (rw (same, over) refl))

  -- A device of which only the first item is there, without a block: a position in a later item. The
  -- items, the array and the block are made; the block has the bytes of one of the unit 0, and the copy
  -- does not fit.
  pub paged_write_overruns :
      (d : PagedDev) (n : ℕ)
      → d.next ≡ []
      → item_of k d p ≡ suc n
      → unusable (itemsize k d) ≡ false
      → k.clear_bytes 0 (pos_part g.unit) ≤ k.block_bytes 0
      → k.block_bytes 0 - q_pos_of k d p < fits k d p bs
      → paged_write k g false none (replicate (suc n) true ++ (true ∷ true ∷ rest)) junk d bs p
        ≡ crash overrun
  unfolding paged_write
  paged_write_overruns d n alone at divides inside long =
      let d1 : PagedDev = record d { next = replicate (suc n) new_item } in
      let new : item_at d1 (item_of k d1 p) ≡ new_item = ap (item_at d1) at ∙ new_there n in
      let follows : paged_follow (item_of k d p) d.next
            (replicate (suc n) true ++ (true ∷ true ∷ rest))
          ≡ done (replicate (suc n) new_item, true ∷ true ∷ rest) =
        rw (at, alone) (follow_new (suc n) (true ∷ true ∷ rest)) in
      let u : (item_at d1 (item_of k d1 p)).unit ≡ 0 = ap (λ x. x.unit) new in
      let block : k.block_bytes (item_at d1 (item_of k d1 p)).unit ≡ k.block_bytes 0 =
        ap k.block_bytes u in
      let cleared = ap (λ v. k.clear_bytes v (pos_part g.unit)) u in
      rw (divides, follows)
        (write_item_overruns d1 (omega (arith, at, length-replicate {A = Item} (suc n) new_item))
          (ap (λ x. x.quanta) new) (omega (arith, block, cleared, inside))
          (omega (arith, block, long)))

  -- A device without a block, where `memset` of one goes beyond it: a position in the first item.
  pub paged_write_clears_beyond :
      (d : PagedDev) (fault : Option ℕ)
      → d.quanta ≡ none
      → item_of k d p ≡ 0
      → unusable (itemsize k d) ≡ false
      → k.block_bytes d.unit < k.clear_bytes d.unit (pos_part g.unit)
      → paged_write k g false fault (true ∷ true ∷ rest) junk d bs p ≡ crash overrun
  unfolding paged_write paged_follow new_block
  paged_write_clears_beyond d fault empty at divides beyond =
      let follows : paged_follow (item_of k d p) d.next (true ∷ true ∷ rest)
          ≡ done (d.next, true ∷ true ∷ rest) =
        rw at refl in
      let first = ap (λ i. (item_at d i).quanta) at ∙ empty in
      let unit : (item_at d (item_of k d p)).unit ≡ d.unit = ap (λ i. (item_at d i).unit) at in
      let beyond' =
        subst (λ u. k.block_bytes u < k.clear_bytes u (pos_part g.unit)) (sym unit) beyond in
      rw (divides, follows) (write_item_clears_beyond d fault (omega (arith, at)) first beyond')
