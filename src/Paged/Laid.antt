-- ===== src/Paged/Laid.antt =====
-- The layout of a device of sculld/main.c and its kin: arrays of `qset` slots and blocks of the bytes
-- of a quantum, and what an operation that frees nothing keeps of it.
use device_drivers_lab_proje.Prelude.{
  ℕ, ◌^◌, ◌≡◌, ◌<◌, ◌≤◌, refl, sym, ◌∙◌, ap, arith, Option, none, some, List, length, set,
  replicate, Bool-cases, inl, inr, ◌==◌, length-set, length-replicate, if◌then◌else◌, ◌&&◌,
}
use device_drivers_lab_proje.Prelude.Int.{pos_part}
use device_drivers_lab_proje.Scull.Dev.{slot, quanta_of}
use device_drivers_lab_proje.Scull.Dev.Follow.{slot-set, slot-replicate}
use device_drivers_lab_proje.Paged.{
  Kind, Item, PagedDev, Globals, item_at, block_at, put_array, put_block, quantum_of, itemsize,
}
use device_drivers_lab_proje.Paged.Blocks.{
  item_at-put_array, block_at-put_array, block_at-put_block,
}

-- The arrays have `qset` slots and the blocks the bytes of a quantum; neither is 0, and their product is
-- an int. A block that
-- is still to be allocated, for any item, will have them, and `memset` stays inside it.
pub record Laid (k : Kind) (g : Globals) (d : PagedDev) : Type 0 where
  pub quantum_pos : 0 < quantum_of k d
  pub qset_pos : 0 < d.qset
  pub bounded : itemsize k d < 2 ^ 31
  pub arrays :
      (i : ℕ) (qs : List (Option (List ℕ))) → (item_at d i).quanta ≡ some qs → length qs ≡ d.qset
  pub blocks : (i t : ℕ) (q : List ℕ) → block_at d i t ≡ some q → length q ≡ quantum_of k d
  pub allocated : (i : ℕ) → k.block_bytes (item_at d i).unit ≡ quantum_of k d
  pub cleared : (i : ℕ) → k.clear_bytes (item_at d i).unit (pos_part g.unit) ≤ quantum_of k d

-- A device after an operation that frees nothing: each block is still in its slot.
pub record Keeps (k : Kind) (g : Globals) (d d' : PagedDev) : Type 0 where
  pub laid : Laid k g d'
  pub unit : d'.unit ≡ d.unit
  pub qset : d'.qset ≡ d.qset
  pub vmas : d'.vmas ≡ d.vmas
  pub still :
      (i t : ℕ) (q : List ℕ) → block_at d i t ≡ some q → (q' : List ℕ) × (block_at d' i t ≡ some q')

-- Storing an array keeps the units of the items.
pub unit_at-put_array :
    (d : PagedDev) (i : ℕ) (qs : List (Option (List ℕ))) (j : ℕ)
    → i ≤ length d.next
    → (item_at (put_array d i qs) j).unit ≡ (item_at d j).unit
unit_at-put_array d i qs j h =
    ap (λ x. x.unit) (item_at-put_array d i qs j h) ∙ elim (Bool-cases (j == i)) [
      | inl e ↦ rw e (ap (λ n. (item_at d n).unit) (let e' : i ≡ j = ground arith in e'))
      | inr e ↦ rw e refl
    ]

module _ (k : Kind) (g : Globals) where
  pub Keeps-refl : (d : PagedDev) → Laid k g d → Keeps k g d d
  Keeps-refl d l = record {
    laid = l;
    unit = refl;
    qset = refl;
    vmas = refl;
    still = λ i t q e. (q, e);
  }

  pub Keeps-trans : {d e f : PagedDev} → Keeps k g d e → Keeps k g e f → Keeps k g d f
  Keeps-trans a b = record {
    laid = b.laid;
    unit = b.unit ∙ a.unit;
    qset = b.qset ∙ a.qset;
    vmas = b.vmas ∙ a.vmas;
    still = λ i t q e. let (q', e') = a.still i t q e in b.still i t q' e';
  }

  -- The layout is one of the items: their list may change.
  pub Laid-same :
      (d : PagedDev) (next : List Item)
      → ((j : ℕ) → item_at (record d { next = next }) j ≡ item_at d j)
      → Laid k g d
      → Keeps k g d (record d { next = next })
  Laid-same d next same l = record {
    laid = record {
      quantum_pos = l.quantum_pos;
      qset_pos = l.qset_pos;
      bounded = l.bounded;
      arrays = λ i qs e. l.arrays i qs (sym (ap (λ x. x.quanta) (same i)) ∙ e);
      blocks = λ i t q e. l.blocks i t q (sym (ap (λ x. slot (quanta_of x.quanta) t) (same i)) ∙ e);
      allocated = λ i. ap (λ x. k.block_bytes x.unit) (same i) ∙ l.allocated i;
      cleared = λ i.
          let e = ap (λ x. k.clear_bytes x.unit (pos_part g.unit)) (same i) in
          omega (arith, e, l.cleared i);
    };
    unit = refl;
    qset = refl;
    vmas = refl;
    still = λ i t q e. (q, ap (λ x. slot (quanta_of x.quanta) t) (same i) ∙ e);
  }

  -- An array of `qset` slots, whose blocks have the bytes of a quantum, is stored.
  pub Laid-put_array :
      (d : PagedDev) (i : ℕ) (qs : List (Option (List ℕ)))
      → Laid k g d
      → i ≤ length d.next
      → length qs ≡ d.qset
      → ((t : ℕ) (q : List ℕ) → slot qs t ≡ some q → length q ≡ quantum_of k d)
      → Laid k g (put_array d i qs)
  Laid-put_array d i qs l h len fine = record {
    quantum_pos = l.quantum_pos;
    qset_pos = l.qset_pos;
    bounded = l.bounded;
    arrays = λ j rs e.
        let at = sym (ap (λ x. x.quanta) (item_at-put_array d i qs j h)) ∙ e in
        elim (Bool-cases (j == i)) [
          | inl here ↦ let same : some qs ≡ some rs = rw (← at, here) refl in cc
          | inr other ↦ l.arrays j rs (rw (← at, other) refl)
        ];
    blocks = λ j t q e.
        let at = sym (block_at-put_array d i qs j t h) ∙ e in
        elim (Bool-cases (j == i)) [
          | inl here ↦ fine t q (rw (← at, here) refl)
          | inr other ↦ l.blocks j t q (rw (← at, other) refl)
        ];
    allocated = λ j. ap k.block_bytes (unit_at-put_array d i qs j h) ∙ l.allocated j;
    cleared = λ j.
        let e = ap (λ u. k.clear_bytes u (pos_part g.unit)) (unit_at-put_array d i qs j h) in
        omega (arith, e, l.cleared j);
  }

  -- A new array, without a block.
  pub put_array-Keeps :
      (d : PagedDev) (i : ℕ)
      → Laid k g d
      → i ≤ length d.next
      → (item_at d i).quanta ≡ none
      → Keeps k g d (put_array d i (replicate d.qset none))
        × ((j t : ℕ) → block_at (put_array d i (replicate d.qset none)) j t ≡ block_at d j t)
  put_array-Keeps d i l h e =
      let qs : List (Option (List ℕ)) = replicate d.qset none in
      let same : (j t : ℕ) → block_at (put_array d i qs) j t ≡ block_at d j t = λ j t.
        block_at-put_array d i qs j t h ∙ elim (Bool-cases (j == i)) [
          | inl here ↦ rw here (
              slot-replicate d.qset t
              ∙ sym (ap (λ o. slot (quanta_of o) t) e)
              ∙ ap (λ n. block_at d n t) (let e' : i ≡ j = ground arith in e'))
          | inr other ↦ rw other refl
        ] in
      (
        record {
          laid =
              Laid-put_array d i qs l h (length-replicate d.qset none)
                (λ t q is. let no : none ≡ some q = sym (slot-replicate d.qset t) ∙ is in cc);
          unit = refl;
          qset = refl;
          vmas = refl;
          still = λ j t q is. (q, same j t ∙ is);
        },
        same,
      )

  -- A block of the bytes of a quantum is stored in a slot.
  pub put_block-Keeps :
      (d : PagedDev) (i s : ℕ) (q : List ℕ) (qs : List (Option (List ℕ)))
      → Laid k g d
      → i ≤ length d.next
      → (item_at d i).quanta ≡ some qs
      → s < d.qset
      → length q ≡ quantum_of k d
      → Keeps k g d (put_block d i s q)
        × ((j t : ℕ)
            → block_at (put_block d i s q) j t
              ≡ (if j == i && t == s then some q else block_at d j t))
  put_block-Keeps d i s q qs l h e lt len =
      let os = quanta_of (item_at d i).quanta in
      let is_os : os ≡ qs = ap quanta_of e in
      let size : length os ≡ d.qset = ap length is_os ∙ l.arrays i qs e in
      let same : (j t : ℕ)
          → block_at (put_block d i s q) j t
            ≡ (if j == i && t == s then some q else block_at d j t) =
        λ j t. block_at-put_block d i s q j t h (omega (arith, size)) in
      let fine : (t : ℕ) (r : List ℕ)
          → slot (set os s (some q)) t ≡ some r
          → length r ≡ quantum_of k d =
        λ t r is.
          let at = sym (slot-set os s (some q) t (omega (arith, size))) ∙ is in
          elim (Bool-cases (t == s)) [
            | inl here ↦ let eq : some q ≡ some r = rw (← at, here) refl in cc
            | inr other ↦ l.blocks i t r (rw (← at, other) refl)
          ] in
      (
        record {
          laid = Laid-put_array d i (set os s (some q)) l h (length-set os s (some q) ∙ size) fine;
          unit = refl;
          qset = refl;
          vmas = refl;
          still = λ j t r is. elim (Bool-cases (j == i && t == s)) [
            | inl here ↦ (q, same j t ∙ rw here refl)
            | inr other ↦ (r, same j t ∙ rw other is)
          ];
        },
        same,
      )
