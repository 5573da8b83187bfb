-- ===== src/Scull/Pipe/Laws/Fault.antt =====
-- A write to the pipe whose copy from the caller faults half way (scull/pipe.c, `scull_p_write`).
use device_drivers_lab_proje.Prelude.{
  ℕ, false, ◌+◌, ◌≡◌, ◌≤◌, refl, sym, ap, ap₂, ◌∙◌, arith, inl, inr, some, List, ◌++◌, append-nil,
  leb, min, Bool-cases, length, length-take, take, drop, splice, take-append, take-drop,
  drop-splice, length-splice,
}
use device_drivers_lab_proje.Prelude.Int.{efault}
use device_drivers_lab_proje.Scull.Pipe.{ScullPipe, bytes_of, write_count, write_section}
use device_drivers_lab_proje.Scull.Pipe.Contents.{IsValid, window, contents}
use device_drivers_lab_proje.Scull.Pipe.Laws.{write_count_bounds}

take_before : (i : ℕ) (bs xs : List ℕ) → i ≤ length xs → take i (splice i bs xs) ≡ take i xs
take_before i bs xs h =
    ap (λ k. take k (splice i bs xs))
      (let e : i ≡ length (take i xs) + 0 = omega (arith, length-take i xs) in e)
    ∙ take-append (take i xs) (bs ++ drop (i + length bs) xs) 0
    ∙ append-nil (take i xs)

-- What is written behind the contents does not change them.
window-splice :
    (b cs : List ℕ) (r w : ℕ)
    → w + length cs ≤ length b
    → (leb r w ≡ false → w + length cs ≤ r)
    → window (splice w cs b) r w ≡ window b r w
window-splice b cs r w fits behind = elim (Bool-cases (leb r w)) [
  | inl le ↦ rw le (
      take-drop w r (splice w cs b)
      ∙ ap (drop r) (take_before w cs b (omega arith))
      ∙ sym (take-drop w r b))
  | inr gt ↦
      rw gt (ap₂ ◌++◌ (drop-splice w r cs b fits (behind gt)) (take_before w cs b (omega arith)))
]

-- A write to a valid pipe whose copy faults after some bytes answers EFAULT; the queue holds what it
-- held, and the pipe stays valid.
pub write_section_fault-contents :
    (bs : List ℕ) (copied : ℕ) (p : ScullPipe)
    → IsValid p
    → let r = write_section bs (some copied) p in
      (r.status ≡ efault) × IsValid r.pipe × (contents r.pipe ≡ contents p)
unfolding write_section
write_section_fault-contents bs copied p v =
    let b = bytes_of p.buffer in
    let n = min copied (write_count (length bs) p) in
    let cs = take n bs in
    let (asked, fits, free) = write_count_bounds (length bs) p v in
    let size : length cs ≡ n = omega (arith, length-take n bs) in
    let inside : p.wp + length cs ≤ length b = ground arith in
    let new = write_section bs (some copied) p in
    let valid : IsValid new.pipe = ground (arith, length-splice p.wp cs b inside) in
    (refl, valid, window-splice b cs p.rp p.wp inside (λ gt. ground (arith, size, fits)))
