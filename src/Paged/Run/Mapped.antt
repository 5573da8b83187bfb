-- ===== src/Paged/Run/Mapped.antt =====
-- A device of sculld/main.c and its kin while it is mapped (sculld/mmap.c and its kin).
use device_drivers_lab_proje.Prelude.{
  ℕ, zero, suc, ◌≡◌, ◌≢◌, ◌⊎◌, inl, inr, refl, sym, ◌∙◌, arith, Bool, true, false, none, some,
  Option, List, ap, ap₂, take, splice, replicate, ◌++◌, ◌-◌, append-nil, Bool-cases, ◌==◌,
}
use device_drivers_lab_proje.Prelude.Int.{pos, eqb_ℤ, ◌+ℤ◌}
use device_drivers_lab_proje.Paged.{
  done, crash, null_item, Kind, PagedDev, Globals, Reply, block_at, fits, item_of, s_pos_of,
  q_pos_of, paged_open, paged_trim,
}
use device_drivers_lab_proje.Paged.Laid.{Laid, Keeps}
use device_drivers_lab_proje.Scull.Dev.{zero_filled}
use device_drivers_lab_proje.Paged.Write.{at_pos, StillThere, Writes, Fails}
use device_drivers_lab_proje.Paged.Write.Steps.{paged_write-Written}
use device_drivers_lab_proje.Paged.Read.{paged_read-Reads}
use device_drivers_lab_proje.Paged.Ioctl.{paged_ioctl}
use device_drivers_lab_proje.Paged.Mmap.{ordered_mmap, vma_open}
use device_drivers_lab_proje.Paged.Run.{
  State, Op, opens, reads, writes, asks, maps, duplicates, unmaps, run,
}
use device_drivers_lab_proje.Paged.Run.Safe.{paged_read_interrupted, paged_write_interrupted}
use mathlib.Core.Path.{subst}

-- What a call may make of the block `q` in the slot `t` of the item `i`: a write at that position may put
-- the first of its bytes over it, and zeros behind them where its copy faults; no other call changes it.
abbrev pub Overwrites : Kind → Op → PagedDev → ℕ → ℕ → List ℕ → Option (List ℕ) → Type 0
Overwrites k (writes interrupted fault a junk bs p) d i t q o =
    (at_pos k d p i t ≡ true) × StillThere k d bs p q o
Overwrites k (opens wronly interrupted) d i t q o = ⊥
Overwrites k (reads interrupted fault a count p) d i t q o = ⊥
Overwrites k (asks defaults ask c arg) d i t q o = ⊥
Overwrites k maps d i t q o = ⊥
Overwrites k duplicates d i t q o = ⊥
Overwrites k unmaps d i t q o = ⊥

-- Each block is as it was, or overwritten by the call; there are as many mappings or one more.
pub record Remains (k : Kind) (op : Op) (d d' : PagedDev) : Type 0 where
  pub still :
      (i t : ℕ) (q : List ℕ)
      → block_at d i t ≡ some q
      → (block_at d' i t ≡ some q) ⊎ Overwrites k op d i t q (block_at d' i t)
  pub mappings : (d'.vmas ≡ d.vmas) ⊎ (d'.vmas ≡ d.vmas +ℤ pos 1)

-- A device whose blocks are all as they were.
unchanged :
    (k : Kind) (op : Op) (d d' : PagedDev)
    → ((i t : ℕ) → block_at d' i t ≡ block_at d i t)
    → (d'.vmas ≡ d.vmas) ⊎ (d'.vmas ≡ d.vmas +ℤ pos 1)
    → Remains k op d d'
unchanged k op d d' same m = record { still = λ i t q e. inl (same i t ∙ e); mappings = m }

Remains-refl : (k : Kind) (op : Op) (d : PagedDev) → Remains k op d d
Remains-refl k op d = unchanged k op d d (λ i t. refl) (inl refl)

no_zeros : (n : ℕ) (bs : List ℕ) → take n bs ≡ zero_filled n n bs
no_zeros n bs =
    sym (append-nil (take n bs))
    ∙ ap (λ x. take n bs ++ replicate x 0) (let e : 0 ≡ n - n = omega arith in e)

written-StillThere :
    (k : Kind) (g : Globals) (junk : ℕ → ℕ) (d : PagedDev) (bs : List ℕ) (p : ℕ) (r : Reply)
    (q : List ℕ)
    → Writes k g junk d bs p r
    → block_at d (item_of k d p) (s_pos_of k d p) ≡ some q
    → StillThere k d bs p q (block_at r.dev (item_of k d p) (s_pos_of k d p))
written-StillThere k g junk d bs p r q w e =
    let here : at_pos k d p (item_of k d p) (s_pos_of k d p) ≡ true = ground arith in
    let n = fits k d p bs in
    let is_old : w.old ≡ q = elim w.old_is [
      | inl e' ↦ cc
      | inr (empty, made) ↦ absurd (let bad : none ≡ some q = sym empty ∙ e in cc)
    ] in
    inr (
      n,
      omega arith,
      w.content (item_of k d p) (s_pos_of k d p)
          ∙ rw here (
              ap (λ x. some (splice (q_pos_of k d p) (take n bs) x)) is_old
              ∙ ap (λ x. some (splice (q_pos_of k d p) x q)) (no_zeros n bs)),
    )

elsewhere_same :
    (k : Kind) (g : Globals) (junk : ℕ → ℕ) (d : PagedDev) (bs : List ℕ) (p : ℕ) (r : Reply)
    → Writes k g junk d bs p r ⊎ Fails k d bs p r
    → (j t : ℕ) → at_pos k d p j t ≡ false
    → block_at r.dev j t ≡ block_at d j t
elsewhere_same k g junk d bs p r (inl w) j t h = w.content j t ∙ rw h refl
elsewhere_same k g junk d bs p r (inr f) j t h = f.elsewhere j t h

write-Remains :
    (k : Kind) (g : Globals) (fault : Option ℕ) (a : List Bool) (junk : ℕ → ℕ) (d : PagedDev)
    (bs : List ℕ) (p : ℕ) (r : Reply)
    → Keeps k g d r.dev
    → Writes k g junk d bs p r ⊎ Fails k d bs p r
    → Remains k (writes false fault a junk bs p) d r.dev
write-Remains k g fault a junk d bs p r keeps result = record {
  still = λ j t q e. elim (Bool-cases (at_pos k d p j t)) [
    | inr other ↦ inl (elsewhere_same k g junk d bs p r result j t other ∙ e)
    | inl here ↦
        let ej : item_of k d p ≡ j = ground arith in
        let et : s_pos_of k d p ≡ t = ground arith in
        let there : block_at d (item_of k d p) (s_pos_of k d p) ≡ some q =
          ap₂ (block_at d) ej et ∙ e in
        inr (
          here,
          subst (StillThere k d bs p q) (ap₂ (block_at r.dev) ej et) (elim result [
            | inl w ↦ written-StillThere k g junk d bs p r q w there
            | inr f ↦ f.kept q there
          ]),
        )
  ];
  mappings = inl keeps.vmas;
}

paged_open_mapped :
    (g : Globals) (w i : Bool) (d : PagedDev) (n : ℕ)
    → d.vmas ≡ pos (suc n)
    → (paged_open g w i d).1 ≡ d
unfolding paged_open paged_trim
paged_open_mapped g false i d n m = refl
paged_open_mapped g true true d n m = refl
paged_open_mapped g true false d n m =
    let mapped : eqb_ℤ d.vmas (pos 0) ≡ false = rw m (ground arith) in rw mapped refl

vma_open-Remains : (k : Kind) (op : Op) (d : PagedDev) → Remains k op d (vma_open d)
unfolding vma_open
vma_open-Remains k op d = unchanged k op d (record d { vmas = d.vmas +ℤ pos 1 }) same (inr refl)
  where
    same : (j t : ℕ) → block_at (record d { vmas = d.vmas +ℤ pos 1 }) j t ≡ block_at d j t
    same zero t = refl
    same (suc j) t = refl

ordered_mmap-Remains : (k : Kind) (op : Op) (d : PagedDev) → Remains k op d (ordered_mmap d).1
unfolding ordered_mmap
ordered_mmap-Remains k op d = elim (Bool-cases (d.unit == 0)) [
  | inl e ↦ rw e (vma_open-Remains k op d)
  | inr e ↦ rw e (Remains-refl k op d)
]

landed :
    (k : Kind) (op : Op) (d : PagedDev) (x s' : State)
    → done x ≡ done s'
    → Remains k op d x.dev
    → Remains k op d s'.dev
landed k op d x s' e r =
    let same : x ≡ s' = cc in subst (λ (y : State). Remains k op d y.dev) same r

-- While a device that is laid out is mapped, no call but the end of a mapping takes away a block, moves it
-- to another slot or puts another one in its place, write-only opens included, and none takes away a
-- mapping: each block is as it was, but that a write at its position may put the first of its bytes over
-- it, and zeros behind them where its copy faults.
pub run_mapped :
    (k : Kind) (s s' : State) (op : Op) (n : ℕ)
    → Laid k s.globals s.dev
    → s.dev.vmas ≡ pos (suc n)
    → op ≢ unmaps
    → run k op s ≡ done s'
    → Remains k op s.dev s'.dev
unfolding run
run_mapped k s s' (opens w i) n l m ne e =
    landed k (opens w i) s.dev (record s { dev = (paged_open s.globals w i s.dev).1 }) s' e
      (subst (Remains k (opens w i) s.dev) (sym (paged_open_mapped s.globals w i s.dev n m))
        (Remains-refl k (opens w i) s.dev))
run_mapped k s s' (reads true fault a count p) n l m ne e =
    landed k (reads true fault a count p) s.dev s s'
      (sym (rw (paged_read_interrupted k fault a s.dev count p) refl) ∙ e)
      (Remains-refl k (reads true fault a count p) s.dev)
run_mapped k s s' (reads false fault a count p) n l m ne e =
    elim (paged_read-Reads k s.globals fault a s.dev count p l) [
      | inl bad ↦ absurd (let no_crash : crash null_item ≡ done s' = sym (rw bad refl) ∙ e in cc)
      | inr (r, e', delivered) ↦
          landed k (reads false fault a count p) s.dev (record s { dev = r.dev }) s'
            (sym (rw e' refl) ∙ e)
            (unchanged k (reads false fault a count p) s.dev r.dev delivered.blocks
              (inl delivered.keeps.vmas))
    ]
run_mapped k s s' (writes true fault a junk bs p) n l m ne e =
    landed k (writes true fault a junk bs p) s.dev s s'
      (sym (rw (paged_write_interrupted k s.globals fault a junk s.dev bs p) refl) ∙ e)
      (Remains-refl k (writes true fault a junk bs p) s.dev)
run_mapped k s s' (writes false fault a junk bs p) n l m ne e =
    elim (paged_write-Written k s.globals fault a junk s.dev bs p l) [
      | inl bad ↦ absurd (let no_crash : crash null_item ≡ done s' = sym (rw bad refl) ∙ e in cc)
      | inr (r, e', keeps, result) ↦
          landed k (writes false fault a junk bs p) s.dev (record s { dev = r.dev }) s'
            (sym (rw e' refl) ∙ e)
            (write-Remains k s.globals fault a junk s.dev bs p r keeps result)
    ]
run_mapped k s s' (asks defaults ask c arg) n l m ne e =
    landed k (asks defaults ask c arg) s.dev
      (record s { globals = (paged_ioctl defaults ask c arg s.globals).globals }) s' e
      (Remains-refl k (asks defaults ask c arg) s.dev)
run_mapped k s s' maps n l m ne e =
    landed k maps s.dev (record s { dev = (ordered_mmap s.dev).1 }) s' e
      (ordered_mmap-Remains k maps s.dev)
run_mapped k s s' duplicates n l m ne e =
    landed k duplicates s.dev (record s { dev = vma_open s.dev }) s' e
      (vma_open-Remains k duplicates s.dev)
run_mapped k s s' unmaps n l m ne e = absurd (ne refl)
