-- ===== src/Paged/Write/Store.antt =====
-- The copy of a write (sculld/main.c, `sculld_write`, and its kin) into the block at the position, and
-- the allocation of a block.
use device_drivers_lab_proje.Prelude.{
  ℕ, zero, suc, ◌+◌, ◌-◌, ◌≡◌, ◌≤◌, inl, inr, refl, sym, ◌∙◌, ap, arith, true, false, Option, none,
  some, List, [], ◌++◌, if◌then◌else◌, ltb, ◌==◌, min, length, take, set, replicate, splice,
  length-take, length-splice, length-append, length-replicate,
}
use device_drivers_lab_proje.Prelude.Int.{pos, pos_part, efault}
use device_drivers_lab_proje.Scull.Dev.{slot, quanta_of, zero_filled}
use device_drivers_lab_proje.Paged.{
  done, Kind, PagedDev, Globals, item_at, block_at, put_array, put_block, quantum_of, item_of,
  s_pos_of, q_pos_of, fits, memory, new_block, reply, write_block,
}
use device_drivers_lab_proje.Paged.Blocks.{length-put_next, item_at-put_array}
use device_drivers_lab_proje.Paged.Laid.{Laid, Keeps, Keeps-trans, put_block-Keeps}
use device_drivers_lab_proje.Paged.Write.{at_pos, Written, s_pos_bound, q_pos_bound}

abbrev pub sized : PagedDev → ℕ → PagedDev
sized d n = record d { size = n }

item_at-sized : (d : PagedDev) (n j : ℕ) → item_at (sized d n) j ≡ item_at d j
item_at-sized d n zero = refl
item_at-sized d n (suc j) = refl

pub length-memory : (junk : ℕ → ℕ) (i n : ℕ) → length (memory junk i n) ≡ n
length-memory junk i zero = refl
length-memory junk i (suc n) = ap suc (length-memory junk (suc i) n)

pub stored_array :
    (d : PagedDev) (i : ℕ) (qs : List (Option (List ℕ)))
    → i ≤ length d.next
    → (item_at (put_array d i qs) i).quanta ≡ some qs
stored_array d i qs h =
    ap (λ x. x.quanta) (item_at-put_array d i qs i h)
    ∙ (let same : (i == i) ≡ true = ground arith in rw same refl)

module _ (k : Kind) (g : Globals) where
  pub sized-Keeps : (d : PagedDev) (n : ℕ) → Laid k g d → Keeps k g d (sized d n)
  sized-Keeps d n l = record {
    laid = record {
      quantum_pos = l.quantum_pos;
      qset_pos = l.qset_pos;
      bounded = l.bounded;
      arrays = λ i qs e. l.arrays i qs (sym (ap (λ x. x.quanta) (item_at-sized d n i)) ∙ e);
      blocks = λ i t q e.
          l.blocks i t q (sym (ap (λ x. slot (quanta_of x.quanta) t) (item_at-sized d n i)) ∙ e);
      allocated = λ i. ap (λ x. k.block_bytes x.unit) (item_at-sized d n i) ∙ l.allocated i;
      cleared = λ i.
          let e = ap (λ x. k.clear_bytes x.unit (pos_part g.unit)) (item_at-sized d n i) in
          omega (arith, e, l.cleared i);
    };
    unit = refl;
    qset = refl;
    vmas = refl;
    still = λ i t q e. (q, ap (λ x. slot (quanta_of x.quanta) t) (item_at-sized d n i) ∙ e);
  }

  -- A new block has the bytes of a quantum.
  pub new_block_lem :
      (d : PagedDev) (i : ℕ) (junk : ℕ → ℕ)
      → Laid k g d
      → (q : List ℕ) × (new_block k g (item_at d i).unit junk ≡ done q)
        × (length q ≡ quantum_of k d)
  unfolding new_block
  new_block_lem d i junk l =
      let u = (item_at d i).unit in
      let c = k.clear_bytes u (pos_part g.unit) in
      let rest = memory junk c (k.block_bytes u - c) in
      let inside : ltb (k.block_bytes u) c ≡ false = ground (arith, l.allocated i, l.cleared i) in
      (
        replicate c 0 ++ rest,
        rw inside refl,
        omega (
          arith,
          length-append (replicate c 0) rest,
          length-replicate {A = ℕ} c 0,
          length-memory junk c (k.block_bytes u - c),
          l.allocated i,
          l.cleared i,
        ),
      )

  -- The bytes `new` stored over the block `q` that is in the slot of the position.
  store_block :
      (d : PagedDev) (q : List ℕ) (new : List ℕ) (p m : ℕ) (qs : List (Option (List ℕ)))
      → Laid k g d
      → item_of k d p ≤ length d.next
      → (item_at d (item_of k d p)).quanta ≡ some qs
      → block_at d (item_of k d p) (s_pos_of k d p) ≡ some q
      → length new ≤ m
      → m ≤ quantum_of k d - q_pos_of k d p
      → let q' = splice (q_pos_of k d p) new q in
        Keeps k g d (put_block d (item_of k d p) (s_pos_of k d p) q')
        × ((j t : ℕ)
            → block_at (put_block d (item_of k d p) (s_pos_of k d p) q') j t
              ≡ (if at_pos k d p j t then some q' else block_at d j t))
        × (ltb (length q - q_pos_of k d p) m ≡ false)
  store_block d q new p m qs l room e at short le =
      let i = item_of k d p in
      let s = s_pos_of k d p in
      let len = l.blocks i s q at in
      let (keeps, content) =
        put_block-Keeps k g d i s (splice (q_pos_of k d p) new q) qs l room e
          (s_pos_bound k g d p l)
          (length-splice (q_pos_of k d p) new q (omega (arith, short, len, q_pos_bound k g d p l))
            ∙ len) in
      (keeps, content, ground (arith, len))

  -- The copy into a block that is in its slot.
  pub write_block-Written :
      (junk : ℕ → ℕ) (d : PagedDev) (q : List ℕ) (bs : List ℕ) (p : ℕ) (fault : Option ℕ)
      (qs : List (Option (List ℕ)))
      → Laid k g d
      → item_of k d p ≤ length d.next
      → (item_at d (item_of k d p)).quanta ≡ some qs
      → block_at d (item_of k d p) (s_pos_of k d p) ≡ some q
      → Written k g junk d bs p (write_block k d q bs p fault)
  unfolding write_block
  write_block-Written junk d q bs p none qs l room e at =
      let n = fits k d p bs in
      let (keeps, content, inside) =
        store_block d q (take n bs) p n qs l room e at (omega (arith, length-take n bs))
          (omega arith) in
      let end : ℕ = if ltb d.size (p + n) then p + n else d.size in
      let d1 : PagedDev =
        put_block d (item_of k d p) (s_pos_of k d p) (splice (q_pos_of k d p) (take n bs) q) in
      (
        record { status = pos n; dev = sized d1 end; f_pos = p + n; bytes = [] },
        rw inside refl,
        Keeps-trans k g keeps (sized-Keeps d1 end keeps.laid),
        inl (record {
          status = refl;
          moved = refl;
          size = refl;
          room = omega (
            arith,
            length-put_next (item_of k d p)
                (set (quanta_of (item_at d (item_of k d p)).quanta) (s_pos_of k d p)
                  (some (splice (q_pos_of k d p) (take n bs) q)))
                d.next,
          );
          old = q;
          old_is = inl at;
          content =
              λ j t. ap (λ x. slot (quanta_of x.quanta) t) (item_at-sized d1 end j) ∙ content j t;
        }),
      )
  write_block-Written junk d q bs p (some c) qs l room e at =
      let n = fits k d p bs in
      let m = min c n in
      let new = zero_filled n m bs in
      let (keeps, content, inside) =
        store_block d q new p n qs l room e at
          (omega (
            arith,
            length-append (take m bs) (replicate (n - m) 0),
            length-take m bs,
            length-replicate {A = ℕ} (n - m) 0,
          ))
          (omega arith) in
      let here : at_pos k d p (item_of k d p) (s_pos_of k d p) ≡ true = ground arith in
      (
        reply efault (put_block d (item_of k d p) (s_pos_of k d p) (splice (q_pos_of k d p) new q))
            p,
        rw inside refl,
        keeps,
        inr (record {
          status = refl;
          moved = refl;
          size = refl;
          elsewhere = λ j t other. content j t ∙ rw other refl;
          kept = λ x is.
              let same : q ≡ x = cc in
              inr (
                m,
                omega arith,
                content (item_of k d p) (s_pos_of k d p)
                    ∙ rw here (ap (λ y. some (splice (q_pos_of k d p) new y)) same),
              );
        }),
      )
