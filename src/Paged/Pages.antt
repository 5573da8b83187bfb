-- ===== src/Paged/Pages.antt =====
-- Which page a fault handler finds (sculld/mmap.c and its kin), and what a read of it delivers.
use device_drivers_lab_proje.Prelude.{
  ℕ, zero, suc, ◌+◌, ◌-◌, ◌*◌, ◌/◌, ◌%◌, ◌^◌, ◌≡◌, ◌<◌, ◌≤◌, ◌⊎◌, inl, inr, refl, sym, ◌∙◌, ap, ap₂,
  arith, Bool, false, none, some, List, [], ◌∷◌, Bool-cases, leb, ltb, take, drop, length, get_or,
  Option-cases, take-take,
}
use device_drivers_lab_proje.Prelude.Int.{pos}
use device_drivers_lab_proje.Scull.Dev.{slot, quanta_of, unusable}
use device_drivers_lab_proje.Paged.{
  done, Kind, Item, new_item, PagedDev, Globals, block_at, quantum_of, itemsize, item_of, s_pos_of,
  paged_read,
}
use device_drivers_lab_proje.Paged.Laid.{Laid}
use device_drivers_lab_proje.Paged.Read.{paged_read_there}
use device_drivers_lab_proje.Paged.Mmap.{walk, chain, pageptr, page_size, vma_fault, sigbus}

-- The items from the first on, by their number.
abbrev nth : List Item → ℕ → Item
nth xs i = get_or xs i new_item

div_small : (o q : ℕ) → o < q → (o / q ≡ 0) × (o % q ≡ o)
div_small o q h = (grind arith, grind arith)

div_back : (o q : ℕ) → 0 < q → q ≤ o → (o / q ≡ suc ((o - q) / q)) × (o % q ≡ (o - q) % q)
div_back o q h le = (grind arith, grind arith)

-- The walk finds the block in the slot that the page's number says, `qset` of them to an item.
walk_lem :
    (qset : ℕ) (xs : List Item) (o : ℕ)
    → 0 < qset
    → walk qset xs o ≡ slot (quanta_of (nth xs (o / qset)).quanta) (o % qset)
unfolding walk
walk_lem qset [] o h = refl
walk_lem qset (x ∷ xs) o h = elim (Bool-cases (leb qset o)) [
  | inl e ↦
      let (d, m) = div_back o qset h (ground arith) in
      rw e (
        walk_lem qset xs (o - qset) h
        ∙ ap₂ (λ i t. slot (quanta_of (get_or xs i new_item).quanta) t) refl (sym m)
        ∙ ap (λ i. slot (quanta_of (nth (x ∷ xs) i).quanta) (o % qset)) (sym d))
  | inr e ↦
      let (d, m) = div_small o qset (ground arith) in
      rw e (ap₂ (λ i t. slot (quanta_of (nth (x ∷ xs) i).quanta) t) (sym d) (sym m))
]

chain_lem : (d : PagedDev) (i t : ℕ) → slot (quanta_of (nth (chain d) i).quanta) t ≡ block_at d i t
chain_lem d zero t = refl
chain_lem d (suc i) t = refl

-- The page with a number is the block in the slot of that number.
pageptr_lem :
    (d : PagedDev) (o : ℕ)
    → 0 < d.qset
    → pageptr d o ≡ block_at d (o / page_size / d.qset) (o / page_size % d.qset)
pageptr_lem d o h =
    walk_lem d.qset (chain d) (o / page_size) h
    ∙ chain_lem d (o / page_size / d.qset) (o / page_size % d.qset)

div_unique : (b d r : ℕ) → r < b → ((d * b + r) / b ≡ d) × ((d * b + r) % b ≡ r)
div_unique b zero r h = (grind arith, grind arith)
div_unique b (suc d) r h =
    let (q, m) = div_unique b d r h in
    let (q', m') = div_back (suc d * b + r) b (omega arith) (grind arith) in
    let less : suc d * b + r - b ≡ d * b + r = grind arith in
    (q' ∙ ap (λ x. suc (x / b)) less ∙ ap suc q, m' ∙ ap (λ x. x % b) less ∙ m)

-- Where the block with the number `n` begins in the file: the items have `s` blocks of `q` bytes.
block_start :
    (n q s : ℕ)
    → 0 < q
    → 0 < s
    → (n * q / (q * s) ≡ n / s) × (n * q % (q * s) / q ≡ n % s) × (n * q % (q * s) % q ≡ 0)
block_start n q s h h' =
    let i = n / s in
    let t = n % s in
    let t_bound : t < s = omega arith in
    let parts : n ≡ i * s + t = grind arith in
    let split : n * q ≡ i * (q * s) + t * q = ap (λ x. x * q) parts ∙ grind arith in
    let inside : t * q < q * s = grind arith in
    let (whole, rest) = div_unique (q * s) i (t * q) inside in
    let (slots, left) = div_unique q t 0 h in
    let same : t * q ≡ t * q + 0 = omega arith in
    (
      ap (λ x. x / (q * s)) split ∙ whole,
      ap (λ x. x % (q * s) / q) split ∙ ap (λ x. x / q) (rest ∙ same) ∙ slots,
      ap (λ x. x % (q * s) % q) split ∙ ap (λ x. x % q) (rest ∙ same) ∙ left,
    )

beyond_list : (xs : List Item) (i : ℕ) → length xs ≤ i → get_or xs i new_item ≡ new_item
beyond_list [] i h = refl
beyond_list (x ∷ xs) zero h = absurd (omega arith)
beyond_list (x ∷ xs) (suc i) h = beyond_list xs i (omega arith)

-- A block that is there is one of an item that is there.
block_room : (d : PagedDev) (i t : ℕ) (q : List ℕ) → block_at d i t ≡ some q → i ≤ length d.next
block_room d zero t q e = omega arith
block_room d (suc i) t q e = elim (Bool-cases (ltb i (length d.next))) [
  | inl inside ↦ ground arith
  | inr outside ↦ absurd (
      let no_item : none ≡ some q =
        sym (ap (λ x. slot (quanta_of x.quanta) t) (beyond_list d.next i (ground arith))) ∙ e in
      cc)
]

-- The blocks that are there have the bytes of a quantum; neither the quantum nor the set size is 0, and
-- their product is an int.
pub record Filled (k : Kind) (d : PagedDev) : Type 0 where
  pub quantum_pos : 0 < quantum_of k d
  pub qset_pos : 0 < d.qset
  pub bounded : itemsize k d < 2 ^ 31
  pub blocks : (i t : ℕ) (q : List ℕ) → block_at d i t ≡ some q → length q ≡ quantum_of k d

pub Laid-Filled : {k : Kind} {g : Globals} {d : PagedDev} → Laid k g d → Filled k d
Laid-Filled l = record {
  quantum_pos = l.quantum_pos;
  qset_pos = l.qset_pos;
  bounded = l.bounded;
  blocks = l.blocks;
}

items_pos : (q s : ℕ) → 0 < q → 0 < s → 0 < q * s
items_pos q s h h' = grind arith

usable : (q s : ℕ) → 0 < q → 0 < s → q * s < 2 ^ 31 → unusable (q * s) ≡ false
usable q s h h' lt = ground (arith, items_pos q s h h')

-- The item of a page with a number below 2 ^ 31 does not wrap.
item_number : (n s : ℕ) → n < 2 ^ 31 → n / s % 2 ^ 32 ≡ n / s
item_number n s h = let less : n / s ≤ n = grind arith in omega arith

-- The position of the block whose number is that of the page at an offset.
abbrev pub block_pos : Kind → PagedDev → ℕ → ℕ
block_pos k d o = o / page_size * quantum_of k d

-- An offset below 2 ^ 43 and before the end of a device whose blocks have the bytes of a quantum, a page at least. The handler
-- gives SIGBUS for a hole; otherwise it gives a page, and a read of up to a page at the position of the
-- block with the page's number, which ends before the end of the device, delivers the first bytes of that
-- page. That position is the page's own where a quantum is one page, and a later one where it is more.
pub vma_fault-paged_read :
    (k : Kind) (d : PagedDev) (o : ℕ)
    → Filled k d
    → page_size ≤ quantum_of k d
    → o < d.size
    → o < 2 ^ 43
    → ((vma_fault d o ≡ record { ret = sigbus; page = none })
        × (block_at d (item_of k d (block_pos k d o)) (s_pos_of k d (block_pos k d o)) ≡ none))
      ⊎ ((page : List ℕ) × (vma_fault d o ≡ record { ret = 0; page = some page })
          × ((a : List Bool) (c : ℕ)
              → c ≤ page_size
              → block_pos k d o + c ≤ d.size
              → paged_read k false false a d c (block_pos k d o)
                ≡ done (record {
                  status = pos c;
                  dev = d;
                  f_pos = block_pos k d o + c;
                  bytes = take c page;
                })))
unfolding vma_fault
vma_fault-paged_read k d o l whole lt small =
    let p = block_pos k d o in
    let (ei, es, eq) =
      block_start (o / page_size) (quantum_of k d) d.qset l.quantum_pos l.qset_pos in
    let number : p / (quantum_of k d * d.qset) % 2 ^ 32 ≡ o / page_size / d.qset =
      ap (λ i. i % 2 ^ 32) ei ∙ item_number (o / page_size) d.qset (omega arith) in
    let inside : leb d.size o ≡ false = ground arith in
    let at : pageptr d o ≡ block_at d (item_of k d p) (s_pos_of k d p) =
      pageptr_lem d o l.qset_pos ∙ ap₂ (block_at d) (sym number) (sym es) in
    elim (Option-cases (block_at d (item_of k d p) (s_pos_of k d p))) [
      | inl e ↦ inl (rw (inside, at ∙ e) refl, e)
      | inr (b, e) ↦ inr (
        take page_size b,
        rw (inside, at ∙ e) refl,
        λ a c le fits.
            let len = l.blocks (item_of k d p) (s_pos_of k d p) b e in
            paged_read_there k a d c p b
              (usable (quantum_of k d) d.qset l.quantum_pos l.qset_pos l.bounded) fits
              (block_room d (item_of k d p) (s_pos_of k d p) b e) e (omega (arith, eq, len)) len
            ∙ ap (λ x. done (record { status = pos c; dev = d; f_pos = p + c; bytes = x }))
                (ap (λ n. take c (drop n b)) eq ∙ sym (take-take c page_size b le)),
      )
    ]
