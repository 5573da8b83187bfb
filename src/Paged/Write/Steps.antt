-- ===== src/Paged/Write/Steps.antt =====
-- The steps of a write (sculld/main.c, `sculld_write`, and its kin) from the list of items to the copy.
use device_drivers_lab_proje.Prelude.{
  ℕ, ◌≡◌, ◌≤◌, ◌⊎◌, inl, inr, refl, sym, ◌∙◌, ap, arith, Bool, true, false, Option, none, some,
  List, length, set, replicate, Bool-cases, Option-cases,
}
use device_drivers_lab_proje.Prelude.Int.{enomem}
use device_drivers_lab_proje.Scull.Dev.{slot, quanta_of, kmalloc}
use device_drivers_lab_proje.Paged.{
  Outcome, done, crash, null_item, Kind, Item, PagedDev, Globals, item_at, block_at, put_array,
  put_block, put_first, put_next, item_of, s_pos_of, new_block, Reply, reply, write_slot,
  write_item, paged_write,
}
use device_drivers_lab_proje.Paged.Blocks.{paged_follow_lem, item_at-next, length-put_next}
use device_drivers_lab_proje.Paged.Laid.{
  Laid, Keeps, Keeps-refl, Keeps-trans, Laid-same, put_array-Keeps, put_block-Keeps,
  unit_at-put_array,
}
use device_drivers_lab_proje.Paged.Write.{at_pos, Written, s_pos_bound, itemsize-unusable}
use device_drivers_lab_proje.Paged.Write.Store.{new_block_lem, write_block-Written, stored_array}

module _ (k : Kind) (g : Globals) where
  -- What is at the slot of the position before a write: a block, or none and what a new one will be.
  abbrev AtSlot : (ℕ → ℕ) → PagedDev → ℕ → List ℕ → Type 0
  AtSlot junk d p old =
      (block_at d (item_of k d p) (s_pos_of k d p) ≡ some old)
      ⊎ ((block_at d (item_of k d p) (s_pos_of k d p) ≡ none)
          × (new_block k g (item_at d (item_of k d p)).unit junk ≡ done old))

  -- A step that changes the arrays and the list first, and no block away from the position.
  Written-after :
      (junk : ℕ → ℕ) (d : PagedDev) (o : Option (List (Option (List ℕ)))) (ys : List Item)
      (bs : List ℕ) (p : ℕ) {out : Outcome Reply}
      → let d1 : PagedDev = record d { quanta = o; next = ys } in
        Keeps k g d d1
        → ((j t : ℕ) → at_pos k d p j t ≡ false → block_at d1 j t ≡ block_at d j t)
        → ((q : List ℕ)
            → block_at d (item_of k d p) (s_pos_of k d p) ≡ some q
            → block_at d1 (item_of k d p) (s_pos_of k d p) ≡ some q)
        → ((old : List ℕ) → AtSlot junk d1 p old → AtSlot junk d p old)
        → Written k g junk d1 bs p out
        → Written k g junk d bs p out
  Written-after junk d o ys bs p keeps others there slot_is (r, e, kept, result) = (
    r,
    e,
    Keeps-trans k g keeps kept,
    elim result [
      | inl w ↦ inl (record {
        status = w.status;
        moved = w.moved;
        size = w.size;
        room = w.room;
        old = w.old;
        old_is = slot_is w.old w.old_is;
        content = λ j t. w.content j t ∙ elim (Bool-cases (at_pos k d p j t)) [
          | inl here ↦ rw here refl
          | inr other ↦ rw other (others j t other)
        ];
      })
      | inr f ↦ inr (record {
        status = f.status;
        moved = f.moved;
        size = f.size;
        elsewhere = λ j t other. f.elsewhere j t other ∙ others j t other;
        kept = λ q is. f.kept q (there q is);
      })
    ],
  )

  write_slot-Written :
      (junk : ℕ → ℕ) (d : PagedDev) (a : List Bool) (bs : List ℕ) (p : ℕ) (fault : Option ℕ)
      (qs : List (Option (List ℕ)))
      → Laid k g d
      → item_of k d p ≤ length d.next
      → (item_at d (item_of k d p)).quanta ≡ some qs
      → Written k g junk d bs p (write_slot k g junk a d bs p fault)
  unfolding write_slot
  write_slot-Written junk d a bs p fault qs l room e =
      let i = item_of k d p in
      let s = s_pos_of k d p in
      elim (Option-cases (block_at d i s)) [
        | inr (q, at) ↦
            rw (write_slot, at) (write_block-Written k g junk d q bs p fault qs l room e at)
        | inl at ↦
            rw (write_slot, at)
              (elim (Bool-cases (kmalloc a).0) [
                | inl ok ↦
                    let (q, made, len) = new_block_lem k g d i junk l in
                    let (keeps, content) =
                      put_block-Keeps k g d i s q qs l room e (s_pos_bound k g d p l) len in
                    let d1 = put_block d i s q in
                    let new_qs = set (quanta_of (item_at d i).quanta) s (some q) in
                    let here : at_pos k d p i s ≡ true = ground arith in
                    let stored : block_at d1 i s ≡ some q = content i s ∙ rw here refl in
                    rw (ok, made)
                      (Written-after junk d (put_first i new_qs d.quanta) (put_next i new_qs d.next)
                        bs p keeps (λ j t other. content j t ∙ rw other refl)
                        (λ x is. absurd (let bad : none ≡ some x = sym at ∙ is in cc))
                        (λ old is. elim is [
                          | inl b ↦ let same : q ≡ old = cc in inr (at, rw (← same) made)
                          | inr (empty, f) ↦
                              absurd (let bad : none ≡ some q = sym empty ∙ stored in cc)
                        ])
                        (write_block-Written k g junk d1 q bs p fault new_qs keeps.laid
                          (omega (arith, length-put_next i new_qs d.next))
                          (stored_array d i new_qs room) stored))
                | inr full ↦ rw full (
                  reply enomem d p,
                  refl,
                  Keeps-refl k g d l,
                  inr (record {
                    status = refl;
                    moved = refl;
                    size = refl;
                    elsewhere = λ j t other. refl;
                    kept = λ q is. inl is;
                  }),
                )
              ])
      ]

  write_item-Written :
      (junk : ℕ → ℕ) (d : PagedDev) (a : List Bool) (bs : List ℕ) (p : ℕ) (fault : Option ℕ)
      → Laid k g d
      → item_of k d p ≤ length d.next
      → Written k g junk d bs p (write_item k g junk a d bs p fault)
  unfolding write_item
  write_item-Written junk d a bs p fault l room =
      let i = item_of k d p in
      elim (Option-cases (item_at d i).quanta) [
        | inr (qs, e) ↦ rw (write_item, e) (write_slot-Written junk d a bs p fault qs l room e)
        | inl e ↦
            rw (write_item, e)
              (elim (Bool-cases (kmalloc a).0) [
                | inl ok ↦
                    let qs : List (Option (List ℕ)) = replicate d.qset none in
                    let (keeps, same) = put_array-Keeps k g d i l room e in
                    rw ok (
                      Written-after junk d (put_first i qs d.quanta) (put_next i qs d.next) bs p
                        keeps (λ j t other. same j t) (λ q is. same i (s_pos_of k d p) ∙ is)
                        (λ old is. elim is [
                          | inl b ↦ inl (sym (same i (s_pos_of k d p)) ∙ b)
                          | inr (empty, f) ↦ inr (
                            sym (same i (s_pos_of k d p)) ∙ empty,
                            ap (λ u. new_block k g u junk) (sym (unit_at-put_array d i qs i room))
                                ∙ f,
                          )
                        ])
                        (write_slot-Written junk (put_array d i qs) (kmalloc a).1 bs p fault qs
                          keeps.laid (omega (arith, length-put_next i qs d.next))
                          (stored_array d i qs room)))
                | inr full ↦ rw full (
                  reply enomem d p,
                  refl,
                  Keeps-refl k g d l,
                  inr (record {
                    status = refl;
                    moved = refl;
                    size = refl;
                    elsewhere = λ j t other. refl;
                    kept = λ q is. inl is;
                  }),
                )
              ])
      ]

-- A write to a device that is laid out, the bytes of its items an int and not 0, whose lock is not interrupted, either dereferences the NULL of
-- an item that could not be allocated, or returns: it stays inside its blocks, keeps the
-- layout and every block in its slot, and either succeeds or fails with an error. One that fails keeps
-- every block as it was, but that a copy which faults may have put the caller's first bytes, with zeros
-- behind them, into the one at the position. One that succeeds stores as many of the caller's bytes as fit in the quantum at the position and changes
-- no other block.
pub paged_write-Written :
    (k : Kind) (g : Globals) (fault : Option ℕ) (a : List Bool) (junk : ℕ → ℕ) (d : PagedDev)
    (bs : List ℕ) (p : ℕ)
    → Laid k g d
    → let o = paged_write k g false fault a junk d bs p in
      (o ≡ crash null_item) ⊎ Written k g junk d bs p o
unfolding paged_write
paged_write-Written k g fault a junk d bs p l =
    let divides = itemsize-unusable k g d l in
    elim (paged_follow_lem (item_of k d p) d.next a) [
      | inl e ↦ inl (rw (divides, e) refl)
      | inr (ys, b, e, room, same) ↦
          let at = item_at-next d ys same in
          let keeps = Laid-same k g d ys at l in
          let blocks : (j t : ℕ) → block_at (record d { next = ys }) j t ≡ block_at d j t =
            λ j t. ap (λ x. slot (quanta_of x.quanta) t) (at j) in
          let i = item_of k d p in
          inr (
            rw (divides, e)
              (Written-after k g junk d d.quanta ys bs p keeps (λ j t other. blocks j t)
                (λ q is. blocks i (s_pos_of k d p) ∙ is)
                (λ old is. elim is [
                  | inl x ↦ inl (sym (blocks i (s_pos_of k d p)) ∙ x)
                  | inr (empty, f) ↦ inr (
                    sym (blocks i (s_pos_of k d p)) ∙ empty,
                    ap (λ x. new_block k g x.unit junk) (sym (at i)) ∙ f,
                  )
                ])
                (write_item-Written k g junk (record d { next = ys }) b bs p fault keeps.laid
                  room)))
    ]
