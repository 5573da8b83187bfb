-- ===== src/Paged/Read.antt =====
-- What a read delivers (sculld/main.c, `sculld_read`, and its kin), and that it is what was written.
use device_drivers_lab_proje.Prelude.{
  ℕ, zero, suc, ◌+◌, ◌-◌, ◌*◌, ◌/◌, ◌%◌, ◌^◌, ◌≡◌, ◌≤◌, ◌⊎◌, inl, inr, refl, sym, ◌∙◌, ap, ap₂,
  arith, Bool, true, false, Option, none, some, List, [], ◌∷◌, if◌then◌else◌, ltb, min, length,
  take, drop, splice, Bool-cases, Option-cases, length-take, take-take,
}
use device_drivers_lab_proje.Prelude.Int.{ℤ, pos, is_negative, efault, ◌≤ℤ◌}
use device_drivers_lab_proje.Scull.Dev.{slot, quanta_of, unusable}
use device_drivers_lab_proje.Scull.Dev.Io.Read.{written_bytes}
use device_drivers_lab_proje.Paged.{
  done, crash, null_item, Kind, Item, PagedDev, Globals, block_at, paged_follow, quantum_of,
  itemsize, item_of, s_pos_of, q_pos_of, fits, Reply, reply, read_block, paged_read, paged_write,
}
use mathlib.Core.Path.{subst}
use device_drivers_lab_proje.Paged.Blocks.{paged_follow_lem, item_at-next}
use device_drivers_lab_proje.Paged.Laid.{Laid, Keeps, Keeps-refl, Laid-same}
use device_drivers_lab_proje.Paged.Write.{Writes, at_pos, itemsize-unusable, q_pos_bound}
use device_drivers_lab_proje.Paged.Write.Steps.{paged_write-Written}
use device_drivers_lab_proje.Paged.Write.Store.{new_block_lem}

-- A list that is long enough is followed without an allocation.
paged_follow_there :
    (n : ℕ) (xs : List Item) (a : List Bool) → n ≤ length xs → paged_follow n xs a ≡ done (xs, a)
unfolding paged_follow
paged_follow_there zero xs a h = refl
paged_follow_there (suc n) [] a h = absurd (omega arith)
paged_follow_there (suc n) (x ∷ xs) a h = rw (paged_follow_there n xs a (omega arith)) refl

-- What a read delivers: how many bytes, where it may read up to the end of the device, by what is in the
-- slot of the position.
abbrev pub read_count : Kind → PagedDev → ℕ → ℕ → ℕ
read_count k d count p =
    min (if ltb d.size (p + count) then d.size - p else count) (quantum_of k d - q_pos_of k d p)

abbrev pub delivers : Kind → PagedDev → ℕ → ℕ → Bool → Option (List ℕ) → ℤ × List ℕ
delivers k d count p fault none = (pos 0, [])
delivers k d count p fault (some q) =
    if ltb d.size p
    then (pos 0, [])
    else if fault
    then (efault, [])
    else (pos (read_count k d count p), take (read_count k d count p) (drop (q_pos_of k d p) q))

-- A read keeps all blocks, and delivers those of the block at the position.
pub record Reads (k : Kind) (g : Globals) (d : PagedDev) (count p : ℕ) (fault : Bool) (r : Reply)
    : Type 0 where
  pub keeps : Keeps k g d r.dev
  pub blocks : (j t : ℕ) → block_at r.dev j t ≡ block_at d j t
  pub size : r.dev.size ≡ d.size
  pub delivered :
      (r.status, r.bytes) ≡ delivers k d count p fault (block_at d (item_of k d p) (s_pos_of k d p))

-- The answer for a block that is there; `d1` is the device with the items that were added.
abbrev found : Kind → PagedDev → PagedDev → ℕ → ℕ → Bool → List ℕ → Reply
found k d d1 count p fault q =
    let n = read_count k d count p in
    if fault then reply efault d1 p else record {
      status = pos n;
      dev = d1;
      f_pos = p + n;
      bytes = take n (drop (q_pos_of k d p) q);
    }

found-dev :
    (k : Kind) (d d1 : PagedDev) (count p : ℕ) (fault : Bool) (q : List ℕ)
    → (found k d d1 count p fault q).dev ≡ d1
found-dev k d d1 count p true q = refl
found-dev k d d1 count p false q = refl

abbrev answer : Reply → ℤ × List ℕ
answer r = (r.status, r.bytes)

found-delivers :
    (k : Kind) (d d1 : PagedDev) (count p : ℕ) (fault : Bool) (q : List ℕ)
    → ltb d.size p ≡ false
    → answer (found k d d1 count p fault q) ≡ delivers k d count p fault (some q)
found-delivers k d d1 count p true q h = rw h refl
found-delivers k d d1 count p false q h = rw h refl

found_lem :
    (k : Kind) (d d1 : PagedDev) (count p : ℕ) (fault : Bool) (q : List ℕ)
    → d1.unit ≡ d.unit
    → d1.qset ≡ d.qset
    → ltb (length q - q_pos_of k d p) (read_count k d count p) ≡ false
    → read_block k d1 (if ltb d.size (p + count) then d.size - p else count) p fault (some q)
      ≡ done (found k d d1 count p fault q)
unfolding read_block
found_lem k d d1 count p true q u n h = rw (u, n) (rw h refl)
found_lem k d d1 count p false q u n h = rw (u, n) (rw h refl)

-- A read of a device that is laid out, whose lock is not interrupted, either dereferences the NULL of an
-- item that could not be allocated, or returns: it stays inside its blocks, changes none of them, and
-- delivers the bytes of the block at the position, or nothing where there is none.
pub paged_read-Reads :
    (k : Kind) (g : Globals) (fault : Bool) (a : List Bool) (d : PagedDev) (count p : ℕ)
    → Laid k g d
    → let o = paged_read k false fault a d count p in
      (o ≡ crash null_item) ⊎ ((r : Reply) × (o ≡ done r) × Reads k g d count p fault r)
unfolding paged_read read_block
paged_read-Reads k g fault a d count p l =
    let i = item_of k d p in
    let s = s_pos_of k d p in
    let n = read_count k d count p in
    let divides = itemsize-unusable k g d l in
    let whole = Keeps-refl k g d l in
    elim (Bool-cases (ltb d.size p)) [
      | inl behind ↦ inr (
        reply (pos 0) d p,
        rw behind refl,
        record {
          keeps = whole;
          blocks = λ j t. refl;
          size = refl;
          delivered = elim (Option-cases (block_at d i s)) [
            | inl e ↦ rw e refl
            | inr (q, e) ↦ rw (e, behind) refl
          ];
        },
      )
      | inr inside ↦ elim (paged_follow_lem i d.next a) [
        | inl e ↦ inl (rw (inside, divides, e) refl)
        | inr (ys, b, e, room, same) ↦
            let at = item_at-next d ys same in
            let d1 : PagedDev = record d { next = ys } in
            let blocks : (j t : ℕ) → block_at d1 j t ≡ block_at d j t =
              λ j t. ap (λ x. slot (quanta_of x.quanta) t) (at j) in
            inr (elim (Option-cases (block_at d i s)) [
              | inl none_there ↦ (
                reply (pos 0) d1 p,
                rw (inside, divides, e) (rw (blocks i s ∙ none_there) refl),
                record {
                  keeps = Laid-same k g d ys at l;
                  blocks = blocks;
                  size = refl;
                  delivered = rw none_there refl;
                },
              )
              | inr (q, there) ↦ (
                found k d d1 count p fault q,
                rw (inside, divides, e)
                    (rw (blocks i s ∙ there) (
                      found_lem k d d1 count p fault q refl refl
                        (ground (arith, l.blocks i s q there)))),
                record {
                  keeps =
                      subst (Keeps k g d) (sym (found-dev k d d1 count p fault q))
                        (Laid-same k g d ys at l);
                  blocks =
                      subst (λ x. (j t : ℕ) → block_at x j t ≡ block_at d j t)
                        (sym (found-dev k d d1 count p fault q)) blocks;
                  size = ap (λ x. x.size) (found-dev k d d1 count p fault q);
                  delivered = rw there (found-delivers k d d1 count p fault q inside);
                },
              )
            ])
      ]
    ]

old_length :
    (k : Kind) (g : Globals) (junk : ℕ → ℕ) (d : PagedDev) (bs : List ℕ) (p : ℕ) (r : Reply)
    → Laid k g d
    → (w : Writes k g junk d bs p r) → length w.old ≡ quantum_of k d
old_length k g junk d bs p r l w = elim w.old_is [
  | inl e ↦ l.blocks (item_of k d p) (s_pos_of k d p) w.old e
  | inr (none_there, e) ↦
      let (q, made, len) = new_block_lem k g d (item_of k d p) junk l in
      let same : q ≡ w.old = cc in ap length (sym same) ∙ len
]

-- A read of a block that is there, by what the positions and the counts come to.
pub paged_read_there :
    (k : Kind) (a : List Bool) (d : PagedDev) (c p : ℕ) (q : List ℕ)
    → unusable (itemsize k d) ≡ false
    → p + c ≤ d.size
    → item_of k d p ≤ length d.next
    → block_at d (item_of k d p) (s_pos_of k d p) ≡ some q
    → q_pos_of k d p + c ≤ length q
    → length q ≡ quantum_of k d
    → paged_read k false false a d c p
      ≡ done (record {
        status = pos c;
        dev = d;
        f_pos = p + c;
        bytes = take c (drop (q_pos_of k d p) q);
      })
unfolding paged_read read_block
paged_read_there k a d c p q divides lt room at le len =
    let inside : ltb d.size p ≡ false = ground arith in
    let clipped : ltb d.size (p + c) ≡ false = ground arith in
    let n : min c (quantum_of k d - q_pos_of k d p) ≡ c = omega arith in
    let whole : ltb (length q - q_pos_of k d p) c ≡ false = ground arith in
    rw (inside, divides, paged_follow_there (item_of k d p) d.next a room)
      (rw (at, clipped) (rw n (rw whole refl)))

-- Just written bytes are read from where they were written.
paged_read-Writes :
    (k : Kind) (g : Globals) (junk : ℕ → ℕ) (a : List Bool) (d : PagedDev) (bs : List ℕ) (p c : ℕ)
    (r : Reply)
    → Laid k g d
    → Keeps k g d r.dev
    → Writes k g junk d bs p r
    → c ≤ fits k d p bs
    → paged_read k false false a r.dev c p
      ≡ done (record { status = pos c; dev = r.dev; f_pos = p + c; bytes = take c bs })
paged_read-Writes k g junk a d bs p c r l keeps w le =
    let d' = r.dev in
    let f = fits k d p bs in
    let qp = q_pos_of k d p in
    let new = splice qp (take f bs) w.old in
    let old = old_length k g junk d bs p r l w in
    let ei : item_of k d' p ≡ item_of k d p =
      ap₂ (λ u n. p / (k.quantum_bytes u * n) % 2 ^ 32) keeps.unit keeps.qset in
    let es : s_pos_of k d' p ≡ s_pos_of k d p =
      ap₂ (λ u n. p % (k.quantum_bytes u * n) / k.quantum_bytes u) keeps.unit keeps.qset in
    let eq : q_pos_of k d' p ≡ qp =
      ap₂ (λ u n. p % (k.quantum_bytes u * n) % k.quantum_bytes u) keeps.unit keeps.qset in
    let here : at_pos k d p (item_of k d p) (s_pos_of k d p) ≡ true = ground arith in
    let at : block_at d' (item_of k d' p) (s_pos_of k d' p) ≡ some new =
      ap₂ (block_at d') ei es ∙ w.content (item_of k d p) (s_pos_of k d p) ∙ rw here refl in
    let len = keeps.laid.blocks (item_of k d' p) (s_pos_of k d' p) new at in
    let taken = length-take f bs in
    let inside = q_pos_bound k g d p l in
    let same : take c (drop (q_pos_of k d' p) new) ≡ take c bs =
      ap (λ n. take c (drop n new)) eq
      ∙ written_bytes qp c (take f bs) w.old (omega (arith, taken, old, inside))
          (omega (arith, taken))
      ∙ take-take c f bs le in
    paged_read_there k a d' c p new (itemsize-unusable k g d' keeps.laid) (ground (arith, w.size))
      (omega (arith, ei, w.room)) at (omega (arith, eq, len, inside, ap k.quantum_bytes keeps.unit))
      len
    ∙ ap (λ b. done (record { status = pos c; dev = d'; f_pos = p + c; bytes = b })) same

-- A write to a device that is laid out returned a number and not an error. A read of no more bytes than
-- it took, at the position where it wrote, then delivers the first of the bytes that the writer gave,
-- and leaves the device, whatever is free memory then.
pub paged_read-paged_write :
    (k : Kind) (g : Globals) (fault : Option ℕ) (a b : List Bool) (junk : ℕ → ℕ) (d : PagedDev)
    (bs : List ℕ) (p c : ℕ) {r : Reply}
    → Laid k g d
    → paged_write k g false fault a junk d bs p ≡ done r
    → is_negative r.status ≡ false
    → pos c ≤ℤ r.status
    → paged_read k false false b r.dev c p
      ≡ done (record { status = pos c; dev = r.dev; f_pos = p + c; bytes = take c bs })
paged_read-paged_write k g fault a b junk d bs p c {r} l e fine le =
    elim (paged_write-Written k g fault a junk d bs p l) [
      | inl bad ↦ absurd (let no_crash : crash null_item ≡ done r = sym bad ∙ e in cc)
      | inr (r', e', keeps, result) ↦
          let same : r' ≡ r = cc in
          elim result [
            | inl w ↦
                let w' : Writes k g junk d bs p r = subst (Writes k g junk d bs p) same w in
                paged_read-Writes k g junk b d bs p c r l
                  (subst (λ (x : Reply). Keeps k g d x.dev) same keeps) w'
                  (ground (arith, w'.status))
            | inr f ↦ cc (f.status, ap (λ (x : Reply). is_negative x.status) same)
          ]
    ]
