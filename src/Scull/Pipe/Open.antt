-- ===== src/Scull/Pipe/Open.antt =====
-- Opening and releasing a pipe, and polling it (scull/pipe.c).
use device_drivers_lab_proje.Prelude.{
  ltb, ℕ, ◌-◌, ◌^◌, ◌≡◌, ◌≢◌, ◌<◌, refl, ap, arith, false, Option, none, some, List, [], length,
}
use device_drivers_lab_proje.Prelude.Int.{pos, negsuc, ◌+ℤ◌}
use device_drivers_lab_proje.Scull.Pipe.{
  ScullPipe, Mode, count_if, bytes_of, scull_p_open, scull_p_release, scull_p_poll,
}
use device_drivers_lab_proje.Scull.Pipe.Contents.{
  contents, IsValid, length-contents, spacefree-used,
}

-- The first open of a pipe, with memory for a buffer of a positive size that an int holds, makes it
-- valid and empty, and counts its readers and writers.
scull_p_open_first :
    (buffer : List ℕ) (size : ℕ) (mode : Mode) (dev : ScullPipe)
    → dev.buffer ≡ none
    → length buffer ≡ size
    → 0 < size
    → size < 2 ^ 31
    → let (e, d) = scull_p_open false (some buffer) size mode dev in
      (e ≡ pos 0)
      × IsValid d
      × (contents d ≡ [])
      × (d.nreaders ≡ count_if mode.reads (pos 1) dev.nreaders)
      × (d.nwriters ≡ count_if mode.writes (pos 1) dev.nwriters)
unfolding scull_p_open
scull_p_open_first buffer size mode dev e len lo hi = rw e (
  refl,
  record { sized = len; ended = refl; reads_in = lo; writes_in = lo; small = hi },
  refl,
  refl,
  refl,
)

-- A further open of a pipe, after the module's buffer size was raised, keeps the buffer that is
-- there and yet takes the new size for its own: the pipe then reaches past the end of its buffer.
-- The bytes that it held are lost as well.
scull_p_open_again_overruns :
    (b : List ℕ) (alloc : Option (List ℕ)) (size : ℕ) (mode : Mode) (dev : ScullPipe)
    → dev.buffer ≡ some b
    → IsValid dev
    → dev.buffersize < size
    → let d = (scull_p_open false alloc size mode dev).1 in
      (d.buffer ≡ some b) × (length b < d.end) × (contents d ≡ [])
unfolding scull_p_open
scull_p_open_again_overruns b alloc size mode dev e v lt =
    let held : length (bytes_of dev.buffer) ≡ length b = ap (λ o. length (bytes_of o)) e in
    rw e (refl, omega (arith, held, v.sized, lt), refl)

-- A release that leaves no reader and no writer frees the buffer, any other keeps it; the positions
-- stay.
pub scull_p_release_lem :
    (mode : Mode) (dev : ScullPipe)
    → let d = scull_p_release mode dev in
      (d.nreaders +ℤ d.nwriters ≡ pos 0 → d.buffer ≡ none)
      × (d.nreaders +ℤ d.nwriters ≢ pos 0 → d.buffer ≡ dev.buffer)
      × (d.nreaders ≡ count_if mode.reads (negsuc 0) dev.nreaders)
      × (d.nwriters ≡ count_if mode.writes (negsuc 0) dev.nwriters)
unfolding scull_p_release
scull_p_release_lem mode dev = ground arith

-- `poll` says readable exactly when a valid pipe holds a byte, and writable exactly when it holds
-- fewer bytes than its size less one.
scull_p_poll-contents :
    (p : ScullPipe)
    → IsValid p
    → let (readable, writable) = scull_p_poll p in
      (readable ≡ ltb 0 (length (contents p)))
      × (writable ≡ ltb (length (contents p)) (p.buffersize - 1))
unfolding scull_p_poll
scull_p_poll-contents p v = ground (arith, spacefree-used p v, length-contents p v)
