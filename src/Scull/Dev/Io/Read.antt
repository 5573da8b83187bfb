-- ===== src/Scull/Dev/Io/Read.antt =====
-- What a read of the memory device delivers (scull/main.c, `scull_read`), and that it delivers what
-- was written.
use device_drivers_lab_proje.Prelude.{
  ℕ, ◌+◌, ◌-◌, ◌*◌, ◌/◌, ◌%◌, ◌^◌, ap₂, ◌++◌, ◌&&◌, inl, inr, Option-cases, take-take,
  segment-splice, length-take, ◌≡◌, ◌<◌, ◌≤◌, refl, sym, ◌∙◌, ap, arith, Bool, false, Option, some,
  List, length, take, drop, min, splice, if◌then◌else◌, ltb, leb, ◌==◌,
}
use device_drivers_lab_proje.Prelude.Int.{pos, is_negative, ◌≤ℤ◌}
use device_drivers_lab_proje.Scull.Dev.{
  fits, ScullDev, Reply, quantum_at, item_of, s_pos_of, q_pos_of, itemsize, unusable, scull_read,
  scull_write,
}
use device_drivers_lab_proje.Scull.Dev.Follow.{scull_follow_there}
use device_drivers_lab_proje.Scull.Dev.Io.{IsValid, itemsize-unusable, q_pos_bound}
use mathlib.Core.Path.{subst}
use device_drivers_lab_proje.Scull.Dev.Io.Write.{scull_write-Writes, Writes, or_junk, overwritten}

-- A read at a position before the end, where the quantum is there, delivers its bytes from the
-- position on, up to the count, the end of the quantum and the end of the device, and leaves the
-- device.
scull_read_quantum :
    (a : List Bool) (dev : ScullDev) (count p : ℕ) (q : List ℕ)
    → unusable (itemsize dev) ≡ false
    → p < dev.size
    → item_of dev p < length dev.sets
    → quantum_at dev.sets (item_of dev p) (s_pos_of dev p) ≡ some q
    → let n = min (min count (dev.size - p)) (dev.quantum - q_pos_of dev p) in
      scull_read false false a dev count p
      ≡ some (record {
        status = pos n;
        dev = dev;
        f_pos = p + n;
        bytes = take n (drop (q_pos_of dev p) q);
      })
unfolding scull_read
scull_read_quantum a dev count p q divides lt room at =
    let inside : leb dev.size p ≡ false = ground arith in
    let clipped : (if ltb dev.size (p + count) then dev.size - p else count)
        ≡ min count (dev.size - p) =
      ground arith in
    rw (inside, divides, scull_follow_there (item_of dev p) dev.sets a room, at, clipped) refl

-- Just written bytes, read from where they were written.
pub written_bytes :
    (i c : ℕ) (bs old : List ℕ)
    → i + length bs ≤ length old
    → c ≤ length bs
    → take c (drop i (splice i bs old)) ≡ take c bs
written_bytes i c bs old h le =
    let n : ℕ = i + length bs - i in
    sym (take-take c n (drop i (splice i bs old)) (omega arith))
    ∙ ap (take c) (segment-splice i i bs old h (omega arith))
    ∙ ap (λ k. take c (take k (drop i old) ++ bs)) (let e : i - i ≡ 0 = omega arith in e)

self_here : (i s : ℕ) (x y : Option (List ℕ)) → (if i == i && s == s then x else y) ≡ x
self_here i s x y = ground arith

old_length :
    (dev : ScullDev) (junk : List ℕ) (i s : ℕ)
    → IsValid dev
    → length junk ≡ dev.quantum
    → length (or_junk (quantum_at dev.sets i s) junk) ≡ dev.quantum
old_length dev junk i s v j = elim (Option-cases (quantum_at dev.sets i s)) [
  | inl e ↦ rw e j
  | inr (q, e) ↦ rw e (v.quanta i s q e)
]

scull_read-Writes :
    (a : List Bool) (dev : ScullDev) (junk bs : List ℕ) (p c : ℕ) (r : Reply)
    → IsValid dev
    → length junk ≡ dev.quantum
    → Writes dev junk bs p r
    → 0 < c
    → c ≤ fits dev p bs
    → scull_read false false a r.dev c p
      ≡ some (record { status = pos c; dev = r.dev; f_pos = p + c; bytes = take c bs })
scull_read-Writes a dev junk bs p c r v j w lt le =
    let d = r.dev in
    let i = item_of dev p in
    let s = s_pos_of dev p in
    let qp = q_pos_of dev p in
    let old = or_junk (quantum_at dev.sets i s) junk in
    let new = overwritten dev junk bs p in
    let ei : item_of d p ≡ i = ap₂ (λ q k. p / (q * k) % 2 ^ 32) w.quantum w.qset in
    let es : s_pos_of d p ≡ s = ap₂ (λ q k. p % (q * k) / q) w.quantum w.qset in
    let eq : q_pos_of d p ≡ qp = ap₂ (λ q k. p % (q * k) % q) w.quantum w.qset in
    let sizes : itemsize d ≡ itemsize dev = ap₂ ◌*◌ w.quantum w.qset in
    let end : p + fits dev p bs ≤ d.size = ground (arith, w.size) in
    let at : quantum_at d.sets (item_of d p) (s_pos_of d p) ≡ some new =
      ap₂ (quantum_at d.sets) ei es
      ∙ w.content i s
      ∙ self_here i s (some new) (quantum_at dev.sets i s) in
    let n : min (min c (d.size - p)) (d.quantum - q_pos_of d p) ≡ c =
      omega (arith, eq, w.quantum, end) in
    let same : take c (drop (q_pos_of d p) new) ≡ take c bs =
      ap (λ k. take c (drop k new)) eq
      ∙ written_bytes qp c (take (fits dev p bs) bs) old
          (omega (
            arith,
            length-take (fits dev p bs) bs,
            old_length dev junk i s v j,
            q_pos_bound dev p v,
          ))
          (omega (arith, length-take (fits dev p bs) bs))
      ∙ take-take c (fits dev p bs) bs le in
    let reply : ℕ → List ℕ → Option Reply =
      λ k b. some (record { status = pos k; dev = d; f_pos = p + k; bytes = b }) in
    scull_read_quantum a d c p new (ap unusable sizes ∙ itemsize-unusable dev v)
      (omega (arith, end)) (omega (arith, ei, w.there)) at
    ∙ ap (λ k. reply k (take k (drop (q_pos_of d p) new))) n
    ∙ ap (reply c) same

-- A write to a device whose arrays and quanta have their sizes returned a number and not an error;
-- the memory for a new quantum has the size of one. A read of at least one byte and no more than it
-- took, at the position where it wrote, then delivers those bytes: the first `c` that the writer
-- gave, whatever is free memory then.
pub scull_read-scull_write :
    (fault : Option ℕ) (a b : List Bool) (dev : ScullDev) (junk bs : List ℕ) (p c : ℕ) {r : Reply}
    → IsValid dev
    → length junk ≡ dev.quantum
    → scull_write false fault a junk dev bs p ≡ some r
    → is_negative r.status ≡ false
    → 0 < c
    → pos c ≤ℤ r.status
    → scull_read false false b r.dev c p
      ≡ some (record { status = pos c; dev = r.dev; f_pos = p + c; bytes = take c bs })
scull_read-scull_write fault a b dev junk bs p c {r} v j e fine lt le =
    let (r', e', parts) = scull_write-Writes fault a junk dev bs p v in
    let same : r' ≡ r = cc in
    elim parts [
      | inl w ↦
          let w' : Writes dev junk bs p r = subst (Writes dev junk bs p) same w in
          scull_read-Writes b dev junk bs p c r v j w' lt (ground (arith, w'.status))
      | inr f ↦ cc (f.status, ap (λ (x : Reply). is_negative x.status) same)
    ]
