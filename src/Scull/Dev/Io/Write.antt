-- ===== src/Scull/Dev/Io/Write.antt =====
-- What a write does to the quanta of the memory device (scull/main.c, `scull_write`).
use device_drivers_lab_proje.Prelude.{
  ◌≤◌, ℕ, ◌+◌, ◌≡◌, ◌<◌, ◌⊎◌, inl, inr, refl, sym, ◌∙◌, ap, arith, Bool, true, false, ◌&&◌, Option,
  none, some, List, [], ◌∷◌, length, take, min, splice, if◌then◌else◌, ltb, ◌==◌, set, Bool-cases,
  length-replicate, length-set,
}
use device_drivers_lab_proje.Prelude.Int.{pos, is_negative, enomem}
use device_drivers_lab_proje.Scull.Dev.{
  QuantumSet, ScullDev, Reply, scull_follow, quantum_at, quanta_of, slot, set_at, put_array,
  item_of, s_pos_of, q_pos_of, fits, itemsize, unusable, zero_filled, ensure_array, ensure_quantum,
  write_quantum, write_set, scull_write,
}
use device_drivers_lab_proje.Scull.Dev.Follow.{
  scull_follow-quantum_at, scull_follow-length, scull_follow-set_at, set_at-quantum_at,
  put_array-quantum_at, slot-set, slot-replicate,
}
use device_drivers_lab_proje.Scull.Dev.Io.{IsValid, itemsize-unusable, s_pos_bound}

abbrev pub or_junk : Option (List ℕ) → List ℕ → List ℕ
or_junk none junk = junk
or_junk (some q) junk = q

-- The quantum at the position, with the bytes written over it.
abbrev pub overwritten : ScullDev → List ℕ → List ℕ → ℕ → List ℕ
overwritten dev junk bs p =
    splice (q_pos_of dev p) (take (fits dev p bs) bs)
      (or_junk (quantum_at dev.sets (item_of dev p) (s_pos_of dev p)) junk)

-- A write that succeeds: it takes what fits the quantum, moves the position, raises the size to the
-- end of what was written if that lies behind it, and changes no other quantum.
pub record Writes (dev : ScullDev) (junk bs : List ℕ) (p : ℕ) (r : Reply) : Type 0 where
  pub status : r.status ≡ pos (fits dev p bs)
  pub moved : r.f_pos ≡ p + fits dev p bs
  pub quantum : r.dev.quantum ≡ dev.quantum
  pub qset : r.dev.qset ≡ dev.qset
  pub size : r.dev.size ≡ (if ltb dev.size (p + fits dev p bs) then p + fits dev p bs else dev.size)
  pub there : item_of dev p < length r.dev.sets
  pub content :
      (j t : ℕ)
      → quantum_at r.dev.sets j t ≡ (
          if j == item_of dev p && t == s_pos_of dev p
          then some (overwritten dev junk bs p)
          else quantum_at dev.sets j t)

-- A write that fails keeps the position, the size, and every quantum that was there, but that a copy
-- which faults may have put the caller's first bytes, with zeros behind them, into the quantum at the
-- position.
pub record Fails (dev : ScullDev) (bs : List ℕ) (p : ℕ) (r : Reply) : Type 0 where
  pub status : is_negative r.status ≡ true
  pub moved : r.f_pos ≡ p
  pub size : r.dev.size ≡ dev.size
  pub kept :
      (j t : ℕ) (q : List ℕ)
      → quantum_at dev.sets j t ≡ some q
      → (quantum_at r.dev.sets j t ≡ some q)
        ⊎ ((j ≡ item_of dev p)
            × (t ≡ s_pos_of dev p)
            × ((k : ℕ) × (k ≤ fits dev p bs)
                × (quantum_at r.dev.sets j t
                    ≡ some (splice (q_pos_of dev p) (zero_filled (fits dev p bs) k bs) q))))

ensure_array_lem :
    (n : ℕ) (o : Option (List (Option (List ℕ)))) (a : List Bool)
    → ((qs : List (Option (List ℕ))) → o ≡ some qs → length qs ≡ n)
    → let (ok, qs, a') = ensure_array n o a in
      (length qs ≡ n) × ((t : ℕ) → slot qs t ≡ slot (quanta_of o) t)
unfolding ensure_array
ensure_array_lem n none [] h = (length-replicate n none, slot-replicate n)
ensure_array_lem n none (ok ∷ a) h = (length-replicate n none, slot-replicate n)
ensure_array_lem n (some qs) a h = (h qs refl, λ t. refl)

ensure_quantum_lem :
    (junk : List ℕ) (o : Option (List ℕ)) (a : List Bool)
    → (ensure_quantum junk o a).1 ≡ or_junk o junk
unfolding ensure_quantum
ensure_quantum_lem junk none a = refl
ensure_quantum_lem junk (some q) a = refl

-- The list `sets`, with room for the position and the quanta of the device.
module _ (dev : ScullDev) (junk bs : List ℕ) (p : ℕ) (v : IsValid dev) (sets : List QuantumSet)
    (room : item_of dev p < length sets) (same : (i : ℕ) → set_at sets i ≡ set_at dev.sets i) where
  same_quanta : (j t : ℕ) → quantum_at sets j t ≡ quantum_at dev.sets j t
  same_quanta j t =
      sym (set_at-quantum_at sets j t)
      ∙ ap (λ s. slot (quanta_of s.quanta) t) (same j)
      ∙ set_at-quantum_at dev.sets j t

  -- Storing an array that differs from the old one in the slot of the position at most.
  stored :
      (qs : List (Option (List ℕ))) (x : Option (List ℕ)) (j t : ℕ)
      → length qs ≡ dev.qset
      → ((t : ℕ) → slot qs t ≡ slot (quanta_of (set_at sets (item_of dev p)).quanta) t)
      → quantum_at (put_array sets (item_of dev p) (set qs (s_pos_of dev p) x)) j t
        ≡ (if j == item_of dev p && t == s_pos_of dev p then x else quantum_at dev.sets j t)
  stored qs x j t len old =
      let i = item_of dev p in
      let s = s_pos_of dev p in
      put_array-quantum_at sets i (set qs s x) j t room ∙ elim (Bool-cases (j == i)) [
        | inl e ↦ rw e (
            slot-set qs s x t (omega (arith, s_pos_bound dev p v))
            ∙ ap (λ q. if t == s then x else q)
                (old t
                  ∙ set_at-quantum_at sets i t
                  ∙ same_quanta i t
                  ∙ ap (λ k. quantum_at dev.sets k t) (let q : i ≡ j = ground arith in q)))
        | inr e ↦ rw e (same_quanta j t)
      ]

  -- Storing an array that has the old one's slots changes no quantum.
  stored_array :
      (qs : List (Option (List ℕ))) (j t : ℕ)
      → ((t : ℕ) → slot qs t ≡ slot (quanta_of (set_at sets (item_of dev p)).quanta) t)
      → quantum_at (put_array sets (item_of dev p) qs) j t ≡ quantum_at dev.sets j t
  stored_array qs j t old =
      let i = item_of dev p in
      put_array-quantum_at sets i qs j t room ∙ elim (Bool-cases (j == i)) [
        | inl e ↦ rw e (
            old t
            ∙ set_at-quantum_at sets i t
            ∙ same_quanta i t
            ∙ ap (λ k. quantum_at dev.sets k t) (let q : i ≡ j = ground arith in q))
        | inr e ↦ rw e (same_quanta j t)
      ]

  kept_but_copied :
      (k j t : ℕ) (x : List ℕ)
      → quantum_at dev.sets j t ≡ some x
      → k ≤ fits dev p bs
      → let now =
          if j == item_of dev p && t == s_pos_of dev p
          then some (
              splice
                (q_pos_of dev p)
                (zero_filled (fits dev p bs) k bs)
                (or_junk (quantum_at dev.sets (item_of dev p) (s_pos_of dev p)) junk))
          else quantum_at dev.sets j t in
        (now ≡ some x)
        ⊎ ((j ≡ item_of dev p)
            × (t ≡ s_pos_of dev p)
            × ((n : ℕ) × (n ≤ fits dev p bs)
                × (now ≡ some (splice (q_pos_of dev p) (zero_filled (fits dev p bs) n bs) x))))
  kept_but_copied k j t x e le = elim (Bool-cases (j == item_of dev p && t == s_pos_of dev p)) [
    | inl here ↦
        let ej : j ≡ item_of dev p = ground arith in
        let et : t ≡ s_pos_of dev p = ground arith in
        inr (ej, et, (k, le, rw here (rw (← ej, ← et) (rw e refl))))
    | inr other ↦ inl (rw other e)
  ]

  write_quantum-Writes :
      (qs : List (Option (List ℕ))) (q : List ℕ) (fault : Option ℕ)
      → length qs ≡ dev.qset
      → ((t : ℕ) → slot qs t ≡ slot (quanta_of (set_at sets (item_of dev p)).quanta) t)
      → q ≡ or_junk (quantum_at dev.sets (item_of dev p) (s_pos_of dev p)) junk
      → let r = write_quantum dev sets qs q bs p fault in Writes dev junk bs p r ⊎ Fails dev bs p r
  unfolding write_quantum
  write_quantum-Writes qs q (some c) len old e = inr (record {
    status = refl;
    moved = refl;
    size = refl;
    kept = λ j t x h.
        let k = min c (fits dev p bs) in
        let at =
          stored qs (some (splice (q_pos_of dev p) (zero_filled (fits dev p bs) k bs) q)) j t len
            old in
        rw (at, e) (kept_but_copied k j t x h (omega arith));
  })
  write_quantum-Writes qs q none len old e = inl (record {
    status = refl;
    moved = refl;
    quantum = refl;
    qset = refl;
    size = refl;
    there = omega (
      arith,
      room,
      length-set sets (item_of dev p) (record {
        quanta =
            some (
              set qs (s_pos_of dev p) (some (splice (q_pos_of dev p) (take (fits dev p bs) bs) q)));
      }),
    );
    content = λ j t.
        stored qs (some (splice (q_pos_of dev p) (take (fits dev p bs) bs) q)) j t len old
        ∙ rw e refl;
  })

  write_set-Writes :
      (fault : Option ℕ) (a : List Bool)
      → let r = write_set junk dev sets bs p fault a in Writes dev junk bs p r ⊎ Fails dev bs p r
  unfolding write_set
  write_set-Writes fault a =
      let o = (set_at sets (item_of dev p)).quanta in
      let (ok, qs, a') = ensure_array dev.qset o a in
      let (len, old) = ensure_array_lem dev.qset o a (λ qs e.
        v.arrays (item_of dev p) qs (sym (ap (λ s. s.quanta) (same (item_of dev p))) ∙ e)) in
      let at : slot qs (s_pos_of dev p) ≡ quantum_at dev.sets (item_of dev p) (s_pos_of dev p) =
        old (s_pos_of dev p)
        ∙ set_at-quantum_at sets (item_of dev p) (s_pos_of dev p)
        ∙ same_quanta (item_of dev p) (s_pos_of dev p) in
      let (ok', q) = ensure_quantum junk (slot qs (s_pos_of dev p)) a' in
      let is_q =
        ensure_quantum_lem junk (slot qs (s_pos_of dev p)) a' ∙ ap (λ o. or_junk o junk) at in
      elim (Bool-cases ok) [
        | inl e ↦ rw e (elim (Bool-cases ok') [
          | inl e' ↦ rw e' (write_quantum-Writes qs q fault len old is_q)
          | inr e' ↦ rw e' (
              inr (record {
                status = refl;
                moved = refl;
                size = refl;
                kept = λ j t x h. inl (stored_array qs j t old ∙ h);
              }))
        ])
        | inr e ↦ rw e (
            inr (record {
              status = refl;
              moved = refl;
              size = refl;
              kept = λ j t x h. inl (same_quanta j t ∙ h);
            }))
      ]

pub scull_write-Writes :
    (fault : Option ℕ) (a : List Bool) (junk : List ℕ) (dev : ScullDev) (bs : List ℕ) (p : ℕ)
    → IsValid dev
    → (r : Reply) × (scull_write false fault a junk dev bs p ≡ some r)
      × (Writes dev junk bs p r ⊎ Fails dev bs p r)
unfolding scull_write
scull_write-Writes fault a junk dev bs p v =
    let i = item_of dev p in
    let (there, sets, a') = scull_follow i dev.sets a in
    let divides : unusable (itemsize dev) ≡ false = itemsize-unusable dev v in
    elim (Bool-cases there) [
      | inl e ↦ (
        write_set junk dev sets bs p fault a',
        rw (divides, e) refl,
        write_set-Writes dev junk bs p v sets (scull_follow-length i dev.sets a e)
            (scull_follow-set_at i dev.sets a) fault a',
      )
      | inr e ↦ (
        record { status = enomem; dev = record dev { sets = sets }; f_pos = p; bytes = [] },
        rw (divides, e) refl,
        inr (record {
          status = refl;
          moved = refl;
          size = refl;
          kept = λ j t x h. inl (scull_follow-quantum_at i dev.sets a j t ∙ h);
        }),
      )
    ]
