-- ===== src/Paged/Run/Safe.antt =====
-- A device of sculld/main.c and its kin whose unit the allocator's blocks fit, under any calls.
use device_drivers_lab_proje.Prelude.{
  ℕ, zero, suc, ◌*◌, ◌^◌, ◌≡◌, ◌<◌, ◌≤◌, ◌⊎◌, inl, inr, refl, sym, ◌∙◌, ap, arith, Bool, true,
  false, Option, none, some, List, [], Bool-cases, ◌==◌,
}
use device_drivers_lab_proje.Prelude.Int.{ℤ, pos, pos_part, eqb_ℤ, erestartsys}
use device_drivers_lab_proje.Scull.Dev.{slot, quanta_of}
use device_drivers_lab_proje.Paged.{
  done, crash, null_item, Kind, PagedDev, Globals, item_at, quantum_of, reply, paged_open,
  paged_trim, paged_read, paged_write,
}
use device_drivers_lab_proje.Paged.Laid.{Laid}
use device_drivers_lab_proje.Paged.Write.Steps.{paged_write-Written}
use device_drivers_lab_proje.Paged.Read.{paged_read-Reads}
use mathlib.Core.Path.{subst}
use device_drivers_lab_proje.Paged.Ioctl.{paged_ioctl}
use device_drivers_lab_proje.Paged.Mmap.{ordered_mmap, vma_open, vma_close}
use device_drivers_lab_proje.Paged.Module.{set_up}
use device_drivers_lab_proje.Paged.Run.{
  State, Op, opens, reads, writes, asks, maps, duplicates, unmaps, run,
}

-- A unit whose quantum the blocks of every item fill, those of the items that `sculld_follow` makes, with
-- the unit 0, included; `memset` stays inside the blocks.
pub record Fitting (k : Kind) (u : ℕ) : Type 0 where
  pub quantum_pos : 0 < k.quantum_bytes u
  pub own : k.block_bytes u ≡ k.quantum_bytes u
  pub made : k.block_bytes 0 ≡ k.quantum_bytes u
  pub own_cleared : k.clear_bytes u u ≤ k.quantum_bytes u
  pub made_cleared : k.clear_bytes 0 u ≤ k.quantum_bytes u

-- The parameters with that unit, and a set size that is not 0 and whose items have the bytes of an int.
pub record Sound (k : Kind) (u : ℕ) (g : Globals) : Type 0 where
  pub unit : pos_part g.unit ≡ u
  pub qset_pos : 0 < pos_part g.qset
  pub bounded : k.quantum_bytes u * pos_part g.qset < 2 ^ 31

-- The states that calls reach from a device that has been set up, as long as the parameters are sound.
pub data Reach (k : Kind) (u : ℕ) : State → Type 0 where
  loaded : (g : Globals) → Sound k u g → Reach k u (record { globals = g; dev = set_up g })
  called :
      {s s' : State}
      → Reach k u s
      → (op : Op) → run k op s ≡ done s'
      → Sound k u s'.globals
      → Reach k u s'

record Safe (k : Kind) (u : ℕ) (s : State) : Type 0 where
  sound : Sound k u s.globals
  laid : Laid k s.globals s.dev

-- The layout depends on the unit of the parameters only.
Laid-globals :
    (k : Kind) (g h : Globals) (d : PagedDev)
    → pos_part g.unit ≡ pos_part h.unit
    → Laid k g d
    → Laid k h d
Laid-globals k g h d e l = record {
  quantum_pos = l.quantum_pos;
  qset_pos = l.qset_pos;
  bounded = l.bounded;
  arrays = l.arrays;
  blocks = l.blocks;
  allocated = l.allocated;
  cleared = λ i. let c = ap (k.clear_bytes (item_at d i).unit) e in omega (arith, c, l.cleared i);
}

-- A device without a block, whose first item has the unit of the parameters.
abbrev emptied : Globals → ℤ → PagedDev
emptied g v = record {
  quanta = none;
  unit = pos_part g.unit;
  next = [];
  qset = pos_part g.qset;
  size = 0;
  vmas = v;
}

no_array : (g : Globals) (v : ℤ) (i : ℕ) → (item_at (emptied g v) i).quanta ≡ none
no_array g v zero = refl
no_array g v (suc i) = refl

pub emptied-Laid :
    (k : Kind) (u : ℕ) (g : Globals) (v : ℤ) → Fitting k u → Sound k u g → Laid k g (emptied g v)
emptied-Laid k u g v f s = record {
  quantum_pos = rw s.unit f.quantum_pos;
  qset_pos = s.qset_pos;
  bounded = rw s.unit s.bounded;
  arrays = λ i qs e. absurd (let bad : none ≡ some qs = sym (no_array g v i) ∙ e in cc);
  blocks = λ i t q e.
      absurd
        (let bad : none ≡ some q = sym (ap (λ o. slot (quanta_of o) t) (no_array g v i)) ∙ e in cc);
  allocated = allocated_at;
  cleared = cleared_at;
}
  where
    allocated_at :
        (i : ℕ) → k.block_bytes (item_at (emptied g v) i).unit ≡ quantum_of k (emptied g v)
    allocated_at zero = rw s.unit f.own
    allocated_at (suc i) = rw s.unit f.made

    cleared_at :
        (i : ℕ)
        → k.clear_bytes (item_at (emptied g v) i).unit (pos_part g.unit)
          ≤ quantum_of k (emptied g v)
    cleared_at zero = rw s.unit f.own_cleared
    cleared_at (suc i) = rw s.unit f.made_cleared

pub remapped-Laid :
    (k : Kind) (g : Globals) (d : PagedDev) (v : ℤ) → Laid k g d → Laid k g (record d { vmas = v })
remapped-Laid k g d v l = record {
  quantum_pos = l.quantum_pos;
  qset_pos = l.qset_pos;
  bounded = l.bounded;
  arrays = λ i qs e. l.arrays i qs (sym (ap (λ x. x.quanta) (same i)) ∙ e);
  blocks = λ i t q e. l.blocks i t q (sym (ap (λ x. slot (quanta_of x.quanta) t) (same i)) ∙ e);
  allocated = λ i. ap (λ x. k.block_bytes x.unit) (same i) ∙ l.allocated i;
  cleared = λ i.
      let e = ap (λ x. k.clear_bytes x.unit (pos_part g.unit)) (same i) in
      omega (arith, e, l.cleared i);
}
  where
    same : (j : ℕ) → item_at (record d { vmas = v }) j ≡ item_at d j
    same zero = refl
    same (suc j) = refl

paged_trim-Laid :
    (k : Kind) (u : ℕ) (g : Globals) (d : PagedDev)
    → Fitting k u
    → Sound k u g
    → Laid k g d
    → Laid k g (paged_trim g d).1
unfolding paged_trim
paged_trim-Laid k u g d f s l = elim (Bool-cases (eqb_ℤ d.vmas (pos 0))) [
  | inl e ↦ rw e (emptied-Laid k u g d.vmas f s)
  | inr e ↦ rw e l
]

paged_open-Laid :
    (k : Kind) (u : ℕ) (g : Globals) (w i : Bool) (d : PagedDev)
    → Fitting k u
    → Sound k u g
    → Laid k g d
    → Laid k g (paged_open g w i d).1
unfolding paged_open
paged_open-Laid k u g false i d f s l = l
paged_open-Laid k u g true true d f s l = l
paged_open-Laid k u g true false d f s l = paged_trim-Laid k u g d f s l

ordered_mmap-Laid :
    (k : Kind) (g : Globals) (d : PagedDev) → Laid k g d → Laid k g (ordered_mmap d).1
unfolding ordered_mmap vma_open
ordered_mmap-Laid k g d l = elim (Bool-cases (d.unit == 0)) [
  | inl e ↦ rw e (remapped-Laid k g d (vma_open d).vmas l)
  | inr e ↦ rw e l
]

pub paged_read_interrupted :
    (k : Kind) (fault : Bool) (a : List Bool) (d : PagedDev) (count p : ℕ)
    → paged_read k true fault a d count p ≡ done (reply erestartsys d p)
unfolding paged_read
paged_read_interrupted k fault a d count p = refl

pub paged_write_interrupted :
    (k : Kind) (g : Globals) (fault : Option ℕ) (a : List Bool) (junk : ℕ → ℕ) (d : PagedDev)
    (bs : List ℕ) (p : ℕ)
    → paged_write k g true fault a junk d bs p ≡ done (reply erestartsys d p)
unfolding paged_write
paged_write_interrupted k g fault a junk d bs p = refl

-- A call of a safe device meets the failed allocation of an item, or leaves a state that is safe again
-- where the parameters are sound.
run-Safe :
    (k : Kind) (u : ℕ) (s : State) (op : Op)
    → Fitting k u
    → Safe k u s
    → (run k op s ≡ crash null_item)
      ⊎ ((s' : State) × (run k op s ≡ done s') × (Sound k u s'.globals → Safe k u s'))
unfolding run
run-Safe k u s (opens w i) f v = inr (
  record s { dev = (paged_open s.globals w i s.dev).1 },
  refl,
  λ h. record { sound = h; laid = paged_open-Laid k u s.globals w i s.dev f v.sound v.laid },
)
run-Safe k u s (reads true fault a count p) f v =
    inr (s, rw (paged_read_interrupted k fault a s.dev count p) refl, λ h. v)
run-Safe k u s (reads false fault a count p) f v =
    elim (paged_read-Reads k s.globals fault a s.dev count p v.laid) [
      | inl e ↦ inl (rw e refl)
      | inr (r, e, delivered) ↦ inr (
        record s { dev = r.dev },
        rw e refl,
        λ h. record { sound = h; laid = delivered.keeps.laid },
      )
    ]
run-Safe k u s (writes true fault a junk bs p) f v =
    inr (s, rw (paged_write_interrupted k s.globals fault a junk s.dev bs p) refl, λ h. v)
run-Safe k u s (writes false fault a junk bs p) f v =
    elim (paged_write-Written k s.globals fault a junk s.dev bs p v.laid) [
      | inl e ↦ inl (rw e refl)
      | inr (r, e, keeps, result) ↦
          inr (record s { dev = r.dev }, rw e refl, λ h. record { sound = h; laid = keeps.laid })
    ]
run-Safe k u s (asks defaults ask c arg) f v = inr (
  record s { globals = (paged_ioctl defaults ask c arg s.globals).globals },
  refl,
  λ h. record {
    sound = h;
    laid =
        Laid-globals k s.globals (paged_ioctl defaults ask c arg s.globals).globals s.dev
          (v.sound.unit ∙ sym h.unit) v.laid;
  },
)
run-Safe k u s maps f v = inr (
  record s { dev = (ordered_mmap s.dev).1 },
  refl,
  λ h. record { sound = h; laid = ordered_mmap-Laid k s.globals s.dev v.laid },
)
run-Safe k u s duplicates f v = inr (
  record s { dev = vma_open s.dev },
  refl,
  λ h. record { sound = h; laid = remapped-Laid k s.globals s.dev (vma_open s.dev).vmas v.laid },
)
run-Safe k u s unmaps f v = inr (
  record s { dev = vma_close s.dev },
  refl,
  λ h. record { sound = h; laid = remapped-Laid k s.globals s.dev (vma_close s.dev).vmas v.laid },
)

Reach-Safe : (k : Kind) (u : ℕ) (s : State) → Fitting k u → Reach k u s → Safe k u s
Reach-Safe k u s f (loaded g sound) = record {
  sound = sound;
  laid = emptied-Laid k u g (pos 0) f sound;
}
Reach-Safe k u s' f (called {s = s} r op e sound) =
    elim (run-Safe k u s op f (Reach-Safe k u s f r)) [
      | inl bad ↦ absurd (let no_crash : crash null_item ≡ done s' = sym bad ∙ e in cc)
      | inr (s'', e', v) ↦
          (let same : s'' ≡ s' = cc in
            subst (Safe k u) same (v (subst (λ (x : State). Sound k u x.globals) (sym same) sound)))
    ]

-- In every state that calls reach from a device that has been set up, with a unit that the blocks of all
-- items fit and parameters that stay sound, so that the bytes of an item are an int and not 0, no call divides by
-- 0, has an item size beyond an int, accesses memory behind the end of a block, or clears more than a block: it returns, or meets the NULL of an item whose allocation failed.
pub Reach-run :
    (k : Kind) (u : ℕ) (s : State) (op : Op)
    → Fitting k u
    → Reach k u s
    → (run k op s ≡ crash null_item) ⊎ ((s' : State) × (run k op s ≡ done s'))
Reach-run k u s op f r = elim (run-Safe k u s op f (Reach-Safe k u s f r)) [
  | inl e ↦ inl e
  | inr (s', e, v) ↦ inr (s', e)
]
