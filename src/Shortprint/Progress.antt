-- ===== src/Shortprint/Progress.antt =====
-- Output that goes on ends (shortprint/shortprint.c, `shortp_write` and `shortp_do_work`): the writer gets
-- room, and the queue gets empty.
use device_drivers_lab_proje.Prelude.{
  ℕ, suc, ◌+◌, ◌-◌, ◌≡◌, ◌≢◌, ◌<◌, ◌≤◌, ◌⊎◌, none, Option-cases, inl, inr, refl, sym, ◌∙◌, ap,
  arith, Bool, true, false, not, ◌&&◌, some, List, [], ◌∷◌, ◌++◌, if◌then◌else◌, leb, ◌==◌, min,
  length, take, drop, Bool-cases, length-drop, append-nil, take_all,
}
use device_drivers_lab_proje.Prelude.Int.{pos, efault}
use device_drivers_lab_proje.Circular.{between-nil}
use device_drivers_lab_proje.Shortprint.{
  page_size, Shortp, Turn, Reply, shortp_out_space, shortp_do_write, shortp_start_output, log_time,
  output_section, shortp_do_work, do_works, move_in, write_loop, shortp_write, shortp_incr_out_bp,
}
use device_drivers_lab_proje.Shortprint.Queue.{queued, printed, IsRing, queued-shortp_do_write}
use device_drivers_lab_proje.Shortprint.Order.{
  accepted, Wrote, do_works-accepted, shortp_do_work-accepted, move_in-accepted, shortp_write-Wrote,
}
use mathlib.Core.Path.{subst}

-- How many bytes are in the buffer.
abbrev used : Shortp → ℕ
used s =
    if leb s.out_tail s.out_head
    then s.out_head - s.out_tail
    else page_size - s.out_tail + s.out_head

output_section-used : (s : Shortp) (cr : ℕ) → IsRing s → used (output_section cr s) + 1 < page_size
unfolding output_section shortp_do_write shortp_incr_out_bp
output_section-used s cr r = elim (Bool-cases (s.out_head == s.out_tail)) [
  | inl e ↦ rw e (ground (arith, r.head, r.tail))
  | inr e ↦ rw e (ground (arith, r.head, r.tail))
]

do_work-used : (s : Shortp) (cr : ℕ) → IsRing s → used (shortp_do_work cr s) + 1 < page_size
unfolding shortp_do_work log_time
do_work-used s cr r =
    output_section-used (record s { work = false }) cr
      (record { head = r.head; tail = r.tail; size = r.size })

do_works-used :
    (crs : List ℕ) (s : Shortp)
    → IsRing s
    → used s + 1 < page_size
    → used (do_works crs s) + 1 < page_size
unfolding do_works
do_works-used [] s r h = h
do_works-used (cr ∷ crs) s r h =
    do_works-used crs (shortp_do_work cr s) (shortp_do_work-accepted s cr r).0 (do_work-used s cr r)

-- Where a byte is free besides the one that is always kept free, the writer has room.
space_left : (s : Shortp) → IsRing s → used s + 1 < page_size → (shortp_out_space s == 0) ≡ false
unfolding shortp_out_space
space_left s r h = ground (arith, r.head, r.tail)

abbrev pub runs_once : List ℕ → Bool
runs_once [] = false
runs_once (cr ∷ crs) = true

-- Turns in which the work item runs and no copy faults.
abbrev pub working : List Turn → Bool
working [] = true
working (t ∷ ts) = runs_once t.runs && (not t.fault && working ts)

turn_space :
    (crs : List ℕ) (s : Shortp)
    → IsRing s
    → runs_once crs ≡ true
    → (shortp_out_space (do_works crs s) == 0) ≡ false
unfolding do_works
turn_space [] s r h = absurd cc
turn_space (cr ∷ crs) s r h =
    let s1 = shortp_do_work cr s in
    let ring = (shortp_do_work-accepted s cr r).0 in
    space_left (do_works crs s1) (do_works-accepted crs s1 ring).0
      (do_works-used crs s1 ring (do_work-used s cr r))

both : (a b c : Bool) → (a && (not b && c)) ≡ true → (a ≡ true) × (b ≡ false) × (c ≡ true)
both true false true h = (refl, refl, refl)
both true false false h = absurd cc
both true true c h = absurd cc
both false b c h = absurd cc

shorter : (xs : List ℕ) (n l : ℕ) → 0 < n → length xs ≤ suc l → length (drop n xs) ≤ l
shorter xs n l h le = omega (arith, length-drop n xs)

total : (w n : ℕ) (xs : List ℕ) → n ≤ length xs → w + n + length (drop n xs) ≡ w + length xs
total w n xs le = omega (arith, length-drop n xs)

-- The chunk of a turn with room for a byte.
some_moved : (space m : ℕ) → (space == 0) ≡ false → 0 < min space (suc m)
some_moved space m h = ground arith

write_loop_done :
    (ts : List Turn) (bs : List ℕ) (written : ℕ) (s : Shortp)
    → IsRing s
    → working ts ≡ true
    → length bs ≤ length ts
    → (r : Reply) × (write_loop ts bs written s ≡ some r) × (r.status ≡ pos (written + length bs))
unfolding write_loop
write_loop_done ts [] written s ring w le =
    (record { status = pos written; dev = s; bytes = [] }, refl, ap pos (omega arith))
write_loop_done [] (b ∷ bs) written s ring w le = absurd (omega arith)
write_loop_done (t ∷ ts) (b ∷ bs) written s ring w le =
    let (runs, fine, rest) = both (runs_once t.runs) t.fault (working ts) w in
    let s1 = do_works t.runs s in
    let (ring1, same) = do_works-accepted t.runs s ring in
    let space = turn_space t.runs s ring runs in
    let n = min (shortp_out_space s1) (length (b ∷ bs)) in
    let moved : 0 < n = some_moved (shortp_out_space s1) (length bs) space in
    let fits : n ≤ length (b ∷ bs) = below (shortp_out_space s1) (length (b ∷ bs)) in
    let (ring2, chunk) =
      move_in-accepted s1 n (b ∷ bs) ring1 (above (shortp_out_space s1) (length (b ∷ bs))) fits in
    let (r, e, status) =
      write_loop_done ts (drop n (b ∷ bs)) (written + n)
        (shortp_start_output (move_in n (b ∷ bs) s1)) ring2 rest
        (shorter (b ∷ bs) n (length ts) moved le) in
    (r, rw (space, fine) e, status ∙ ap pos (total written n (b ∷ bs) fits))
  where
    below : (x y : ℕ) → min x y ≤ y
    below x y = omega arith

    above : (x y : ℕ) → min x y ≤ x
    above x y = omega arith

-- The work item with an empty queue ends the output; with another it puts the first byte out.
do_work_last :
    (s : Shortp) (cr : ℕ)
    → s.out_head ≡ s.out_tail
    → (queued (shortp_do_work cr s) ≡ queued s) × ((shortp_do_work cr s).output_active ≡ false)
unfolding shortp_do_work log_time output_section
do_work_last s cr e =
    let same : (s.out_head == s.out_tail) ≡ true = ground arith in rw same (refl, refl)

do_work_next :
    (s : Shortp) (cr : ℕ)
    → IsRing s
    → s.out_head ≢ s.out_tail
    → length (queued s) ≡ suc (length (queued (shortp_do_work cr s)))
unfolding shortp_do_work log_time output_section
do_work_next s cr r ne =
    let other : (s.out_head == s.out_tail) ≡ false = ground arith in
    let s0 : Shortp = record s { work = false } in
    let (ring, first) =
      queued-shortp_do_write s0 cr (record { head = r.head; tail = r.tail; size = r.size }) ne in
    rw other (ap length first)

-- Runs of the work item that are one more than the bytes in the queue put all of them out and end the
-- output.
do_works_drain :
    (crs : List ℕ) (s : Shortp)
    → IsRing s
    → length crs ≡ suc (length (queued s))
    → (queued (do_works crs s) ≡ []) × ((do_works crs s).output_active ≡ false)
unfolding do_works
do_works_drain [] s r h = absurd (omega arith)
do_works_drain (cr ∷ crs) s r h = elim (Bool-cases (s.out_head == s.out_tail)) [
  | inl e ↦
      let same : s.out_head ≡ s.out_tail = ground arith in
      let empty = between-nil s.out_head s.out_tail s.out_buffer same in
      let (left, off) = do_work_last s cr same in
      let over : length crs ≡ 0 = omega (arith, ap length empty) in
      let nothing : crs ≡ [] = no_runs crs over in
      subst
        (λ l.
          (queued (do_works l (shortp_do_work cr s)) ≡ [])
          × ((do_works l (shortp_do_work cr s)).output_active ≡ false))
        (sym nothing) (left ∙ empty, off)
  | inr e ↦
      let ne : s.out_head ≢ s.out_tail = ground arith in
      do_works_drain crs (shortp_do_work cr s) (shortp_do_work-accepted s cr r).0
        (omega (arith, do_work_next s cr r ne))
]
  where
    no_runs : (l : List ℕ) → length l ≡ 0 → l ≡ []
    no_runs [] h = refl
    no_runs (x ∷ l) h = absurd (omega arith)

-- A write to a buffer of a page with both pointers in it, in whose turns the work item runs and no copy
-- faults, and of no more bytes than there are turns, returns the number of its bytes. When the work item has then run once more often than bytes wait, the
-- printer has got what it was due before and then all of the write's bytes, and the output is over.
pub shortp_write-do_works :
    (ts : List Turn) (bs : List ℕ) (s : Shortp)
    → IsRing s
    → working ts ≡ true
    → length bs ≤ length ts
    → (r : Reply) × (shortp_write false ts bs s ≡ some r)
      × (r.status ≡ pos (length bs))
      × ((crs : List ℕ)
          → length crs ≡ suc (length (queued r.dev))
          → (printed (do_works crs r.dev).strobes ≡ accepted s ++ bs)
            × ((do_works crs r.dev).output_active ≡ false))
unfolding shortp_write
shortp_write-do_works ts bs s ring w le =
    let (r, e, status) = write_loop_done ts bs 0 s ring w le in
    let wrote = shortp_write-Wrote ts bs s r ring e in
    let count : 0 + length bs ≡ length bs = omega arith in
    let all : take wrote.taken bs ≡ bs = elim wrote.status [
      | inl x ↦ take_all wrote.taken bs (whole wrote.taken (length bs) (sym x ∙ status))
      | inr x ↦ absurd (let bad : pos (0 + length bs) ≡ efault = sym status ∙ x in cc)
    ] in
    (
      r,
      e,
      status ∙ ap pos count,
      λ crs h.
          let (empty, off) = do_works_drain crs r.dev wrote.ring h in
          (
            sym (append-nil (printed (do_works crs r.dev).strobes))
                ∙ ap (λ l. printed (do_works crs r.dev).strobes ++ l) (sym empty)
                ∙ (do_works-accepted crs r.dev wrote.ring).1
                ∙ wrote.order
                ∙ ap (λ l. accepted s ++ l) all,
            off,
          ),
    )
  where
    whole : (a b : ℕ) → pos (0 + a) ≡ pos (0 + b) → b ≤ a
    whole a b h = let same : 0 + a ≡ 0 + b = cc in omega (arith, same)

-- Turns that end and leave the writer without an end: in some of them the work item does not run or a
-- copy faults, or there are fewer of them than bytes.
stuck :
    (ts : List Turn) (bs : List ℕ) (s : Shortp)
    → IsRing s
    → write_loop ts bs 0 s ≡ none
    → (working ts ≡ false) ⊎ (length ts < length bs)
stuck ts bs s ring e = elim (Bool-cases (working ts)) [
  | inr w ↦ inl w
  | inl w ↦ elim (Bool-cases (leb (length bs) (length ts))) [
    | inl le ↦
        let enough : length bs ≤ length ts = ground arith in
        let (r, e', status) = write_loop_done ts bs 0 s ring w enough in
        absurd (let bad : none ≡ some r = sym e ∙ e' in cc)
    | inr few ↦ inr (ground arith)
  ]
]

-- A write to a buffer of a page with both pointers in it, through any turns of the work item, the faults
-- and the signals, comes to one of two ends. It returns: then what the printer has got and is still to
-- get is what it was before, and then the first of the caller's bytes, in order, as many as the write
-- says, or some number of them where it returns the error of a copy; none is lost, put out twice or
-- overtaken. Or the turns end before it returns, and that only if in one of them the work item does not
-- run or a copy faults, or if they are fewer than the bytes.
pub shortp_write_lem :
    (ts : List Turn) (bs : List ℕ) (s : Shortp)
    → IsRing s
    → ((r : Reply) × (shortp_write false ts bs s ≡ some r) × Wrote s bs 0 r)
      ⊎ ((shortp_write false ts bs s ≡ none) × ((working ts ≡ false) ⊎ (length ts < length bs)))
unfolding shortp_write
shortp_write_lem ts bs s ring = elim (Option-cases (write_loop ts bs 0 s)) [
  | inl e ↦ inr (e, stuck ts bs s ring e)
  | inr (r, e) ↦ inl (r, e, shortp_write-Wrote ts bs s r ring e)
]
