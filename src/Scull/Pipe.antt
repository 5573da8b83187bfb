-- ===== src/Scull/Pipe.antt =====
-- The pipe (scull/pipe.c): a circular buffer between readers and writers. Pointers are offsets from
-- the start of the buffer. A function that waits gives the lock up; the wakes are a list of what it
-- finds when it runs again, and an empty list leaves it asleep.
pub mod Contents
pub mod Laws
pub mod Open
mod Tests
use device_drivers_lab_proje.Prelude.{
  ℕ, zero, suc, ◌+◌, ◌-◌, ◌%◌, Bool, true, false, not, Option, none, some, List, [], ◌∷◌,
  if◌then◌else◌, ltb, leb, ◌==◌, min, length, take, drop, splice,
}
use device_drivers_lab_proje.Prelude.Int.{
  ℤ, pos, negsuc, ◌+ℤ◌, to_u64, eqb_ℤ, eagain, efault, enomem, erestartsys,
}

-- `struct scull_pipe`, less the queues. `buffer` is none for NULL.
pub record ScullPipe : Type 0 where
  pub buffer : Option (List ℕ)
  pub end : ℕ
  pub buffersize : ℕ
  pub rp : ℕ
  pub wp : ℕ
  pub nreaders : ℤ
  pub nwriters : ℤ

-- `f_mode`
pub record Mode : Type 0 where
  pub reads : Bool
  pub writes : Bool

abbrev pub count_if : Bool → ℤ → ℤ → ℤ
count_if yes_it d n = if yes_it then n +ℤ d else n

-- With the buffer that is there.
unfoldable pub attach : List ℕ → ℕ → Mode → ScullPipe → ScullPipe
attach buffer p_buffer mode dev = record {
  buffer = some buffer;
  end = p_buffer;
  buffersize = p_buffer;
  rp = 0;
  wp = 0;
  nreaders = count_if mode.reads (pos 1) dev.nreaders;
  nwriters = count_if mode.writes (pos 1) dev.nwriters;
}

abbrev pub attach_new : Option (List ℕ) → ℕ → Mode → ScullPipe → ℤ × ScullPipe
attach_new none p_buffer mode dev = (enomem, dev)
attach_new (some buffer) p_buffer mode dev = (pos 0, attach buffer p_buffer mode dev)

abbrev pub attach_to : Option (List ℕ) → Option (List ℕ) → ℕ → Mode → ScullPipe → ℤ × ScullPipe
attach_to none alloc p_buffer mode dev = attach_new alloc p_buffer mode dev
attach_to (some buffer) alloc p_buffer mode dev = (pos 0, attach buffer p_buffer mode dev)

-- `alloc` is what `kmalloc(scull_p_buffer)` would give.
unfoldable pub scull_p_open : Bool → Option (List ℕ) → ℕ → Mode → ScullPipe → ℤ × ScullPipe
unfolding attach
scull_p_open interrupted alloc p_buffer mode dev =
    if interrupted then (erestartsys, dev) else attach_to dev.buffer alloc p_buffer mode dev

unfoldable pub scull_p_release : Mode → ScullPipe → ScullPipe
scull_p_release mode dev =
    let r = count_if mode.reads (negsuc 0) dev.nreaders in
    let w = count_if mode.writes (negsuc 0) dev.nwriters in
    record dev {
      nreaders = r;
      nwriters = w;
      buffer = if eqb_ℤ (r +ℤ w) (pos 0) then none else dev.buffer;
    }

unfoldable pub spacefree : ScullPipe → ℤ
spacefree dev =
    if dev.rp == dev.wp
    then pos dev.buffersize +ℤ negsuc 0
    else pos ((dev.rp + dev.buffersize - dev.wp) % dev.buffersize) +ℤ negsuc 0

abbrev pub bytes_of : Option (List ℕ) → List ℕ
bytes_of none = []
bytes_of (some b) = b

-- What a transfer returns and leaves; `bytes` are those that the caller gets.
pub record Reply : Type 0 where
  pub status : ℤ
  pub pipe : ScullPipe
  pub bytes : List ℕ

-- From `ok, data is there` on, with the lock held.
unfoldable pub read_section : ℕ → Bool → ScullPipe → Reply
read_section count fault dev =
    let n =
      if ltb dev.rp dev.wp then min count (dev.wp - dev.rp) else min count (dev.end - dev.rp) in
    if fault then record { status = efault; pipe = dev; bytes = [] } else record {
      status = pos n;
      pipe = record dev { rp = if dev.rp + n == dev.end then 0 else dev.rp + n };
      bytes = take n (drop dev.rp (bytes_of dev.buffer));
    }

-- How many of `count` bytes a write takes.
unfoldable pub write_count : ℕ → ScullPipe → ℕ
write_count count dev =
    let most = min count (to_u64 (spacefree dev)) in
    if leb dev.rp dev.wp then min most (dev.end - dev.wp) else min most (dev.rp - dev.wp - 1)

-- From `ok, space is there` on, with the lock held. A copy that faults has copied some of the bytes
-- to the place behind the contents.
unfoldable pub write_section : List ℕ → Option ℕ → ScullPipe → Reply
write_section bs (some copied) dev =
    let n = min copied (write_count (length bs) dev) in
    record {
      status = efault;
      pipe = record dev { buffer = some (splice dev.wp (take n bs) (bytes_of dev.buffer)) };
      bytes = [];
    }
write_section bs none dev =
    let n = write_count (length bs) dev in
    record {
      status = pos n;
      pipe = record dev {
        buffer = some (splice dev.wp (take n bs) (bytes_of dev.buffer));
        wp = if dev.wp + n == dev.end then 0 else dev.wp + n;
      };
      bytes = [];
    }

-- What a waiting function finds: a signal, a signal while it takes the lock again, or the lock and
-- the pipe as the others have left it.
pub data Wake : Type 0 where
  signalled lock_interrupted : Wake
  woken : ScullPipe → Wake

pub data Waited : Type 0 where
  ready : ScullPipe → Waited
  gave_up : ℤ → Waited
  still_asleep : Waited

-- A `while` loop that waits until `blocked` is false.
unfoldable pub wait_while : (ScullPipe → Bool) → Bool → ScullPipe → List Wake → Waited
wait_while blocked nonblock dev [] =
    if blocked dev then if nonblock then gave_up eagain else still_asleep else ready dev
wait_while blocked nonblock dev (signalled ∷ ws) =
    if blocked dev then if nonblock then gave_up eagain else gave_up erestartsys else ready dev
wait_while blocked nonblock dev (lock_interrupted ∷ ws) =
    if blocked dev then if nonblock then gave_up eagain else gave_up erestartsys else ready dev
wait_while blocked nonblock dev (woken dev' ∷ ws) =
    let later = wait_while blocked nonblock dev' ws in
    if blocked dev then if nonblock then gave_up eagain else later else ready dev

abbrev pub is_empty : ScullPipe → Bool
is_empty dev = dev.rp == dev.wp

-- `scull_getwritespace` waits while this holds.
unfoldable pub is_full : ScullPipe → Bool
is_full dev = eqb_ℤ (spacefree dev) (pos 0)

-- A call that ends: with a section done, or with an error and the pipe left to the others.
pub data Ended : Type 0 where
  done : Reply → Ended
  error : ℤ → Ended
  asleep : Ended

abbrev pub then_do : (ScullPipe → Reply) → Waited → Ended
then_do section (ready dev) = done (section dev)
then_do section (gave_up e) = error e
then_do section still_asleep = asleep

unfoldable pub scull_p_read : Bool → Bool → ℕ → Bool → ScullPipe → List Wake → Ended
scull_p_read interrupted nonblock count fault dev ws =
    if interrupted
    then error erestartsys
    else then_do (read_section count fault) (wait_while is_empty nonblock dev ws)

unfoldable pub scull_p_write : Bool → Bool → List ℕ → Option ℕ → ScullPipe → List Wake → Ended
scull_p_write interrupted nonblock bs fault dev ws =
    if interrupted
    then error erestartsys
    else then_do (write_section bs fault) (wait_while is_full nonblock dev ws)

-- `scull_p_poll`: readable, writable.
unfoldable pub scull_p_poll : ScullPipe → Bool × Bool
scull_p_poll dev = (not (dev.rp == dev.wp), not (eqb_ℤ (spacefree dev) (pos 0)))
