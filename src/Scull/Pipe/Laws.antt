-- ===== src/Scull/Pipe/Laws.antt =====
-- The pipe is a bounded queue of bytes (scull/pipe.c): its transfers, and its waiting.
pub mod Window
pub mod Wait
pub mod Fault
use device_drivers_lab_proje.Prelude.{
  none, ℕ, zero, suc, ◌+◌, ◌-◌, ◌%◌, ◌^◌, ◌≡◌, ◌≢◌, ◌<◌, ◌≤◌, ◌⊎◌, inl, inr, refl, sym, ◌∙◌, ap,
  ap₂, arith, Bool, true, false, Option, some, List, [], ◌∷◌, ◌++◌, append_assoc, append-nil,
  if◌then◌else◌, leb, ltb, ◌==◌, min, length, take, drop, splice, length-take, length-drop,
  length-append, length-splice, take-splice, drop-splice, segment-splice, take-append-drop,
  take-add, drop-drop, take_all, drop_all, Bool-cases,
}
use device_drivers_lab_proje.Prelude.Int.{ℤ, pos, efault, to_u64}
use device_drivers_lab_proje.Scull.Pipe.{
  ScullPipe, Reply, bytes_of, spacefree, read_section, write_count, write_section, Wake, Waited,
  ready, gave_up, still_asleep, signalled, lock_interrupted, woken, wait_while, is_empty, is_full,
}
use device_drivers_lab_proje.Scull.Pipe.Laws.Window.{read_window, write_window}
use device_drivers_lab_proje.Scull.Pipe.Contents.{
  contents, window, IsValid, used, length-contents, spacefree-contents, spacefree-used,
}

-- How many bytes a read takes: up to the write position, or up to the end of the buffer.
abbrev read_count : ℕ → ScullPipe → ℕ
read_count count p = if ltb p.rp p.wp then min count (p.wp - p.rp) else min count (p.end - p.rp)

-- A read of a valid pipe that is not empty, with no fault, hands out bytes from the front of the
-- queue, no more than were asked for, and at least one if one was asked for; the rest stays in its
-- order, and the pipe stays valid.
pub read_section-contents :
    (count : ℕ) (p : ScullPipe)
    → IsValid p
    → p.rp ≢ p.wp
    → let r = read_section count false p in
      IsValid r.pipe
      × (r.status ≡ pos (length r.bytes))
      × (r.bytes ++ contents r.pipe ≡ contents p)
      × (length r.bytes ≤ count)
      × (min 1 count ≤ length r.bytes)
unfolding read_section
read_section-contents count p v ne =
    let b = bytes_of p.buffer in
    let n : ℕ = read_count count p in
    let few : n ≤ (if ltb p.rp p.wp then p.wp - p.rp else p.end - p.rp) = ground arith in
    let some_asked : 0 < count → 0 < n = ground arith in
    let asked : n ≤ count = ground arith in
    let inside : p.rp + n ≤ p.end = ground arith in
    let size : length (take n (drop p.rp b)) ≡ n =
      omega (arith, length-take n (drop p.rp b), length-drop p.rp b) in
    let least : min 1 count ≤ length (take n (drop p.rp b)) = ground (arith, some_asked, size) in
    (
      ground arith,
      ap pos (sym size),
      read_window b p.end p.rp p.wp n (omega arith) (omega arith) (omega arith) ne few,
      omega (arith, size),
      least,
    )

pub write_count_bounds :
    (count : ℕ) (p : ScullPipe)
    → IsValid p
    → let n = write_count count p in
      (n ≤ count)
      × (n ≤ (if leb p.rp p.wp then p.end - p.wp else p.rp - p.wp - 1))
      × (n ≤ p.buffersize - 1 - used p)
unfolding write_count
write_count_bounds count p v = ground (arith, spacefree-used p v)

write_count_pos :
    (count : ℕ) (p : ScullPipe)
    → IsValid p
    → used p < p.buffersize - 1
    → 0 < count
    → 0 < write_count count p
unfolding write_count
write_count_pos count p v room pos_count = ground (arith, spacefree-used p v)

-- A write to a valid pipe that is not full, with no fault, takes bytes from the front of the
-- caller's, at least one if there is one, and puts them at the end of the queue, which never holds
-- more than the buffer's size less one; the pipe stays valid.
pub write_section-contents :
    (bs : List ℕ) (p : ScullPipe)
    → IsValid p
    → length (contents p) < p.buffersize - 1
    → let n = write_count (length bs) p in
      let r = write_section bs none p in
      IsValid r.pipe
      × (r.status ≡ pos n)
      × (contents r.pipe ≡ contents p ++ take n bs)
      × (length (contents r.pipe) ≤ p.buffersize - 1)
      × (min 1 (length bs) ≤ n)
unfolding write_section
write_section-contents bs p v room =
    let n = write_count (length bs) p in
    let b = bytes_of p.buffer in
    let cs = take n bs in
    let (asked, fits, free) = write_count_bounds (length bs) p v in
    let size : length cs ≡ n = omega (arith, length-take n bs) in
    let inside : p.wp + length cs ≤ length b = ground arith in
    let new = write_section bs none p in
    let valid : IsValid new.pipe = ground (arith, length-splice p.wp cs b inside) in
    let joined : contents new.pipe ≡ contents p ++ cs =
      ap (λ k. window (splice p.wp cs b) p.rp (if p.wp + k == p.end then 0 else p.wp + k))
        (sym size)
      ∙ write_window b cs p.end p.rp p.wp (omega arith) (omega arith) (omega arith)
          (omega (arith, size, fits)) (ground (arith, size, free)) in
    let least : min 1 (length bs) ≤ n =
      ground (arith, write_count_pos (length bs) p v (omega (arith, length-contents p v))) in
    (
      valid,
      refl,
      joined,
      omega
          (arith, ap length joined, length-append (contents p) cs, length-contents p v, size, free),
      least,
    )
