-- ===== src/Scull/Pipe/Laws/Wait.antt =====
-- How a reader or writer of the pipe waits (scull/pipe.c, the `while` loops of `scull_p_read` and
-- `scull_getwritespace`).
use device_drivers_lab_proje.Prelude.{
  ℕ, ◌≡◌, ◌⊎◌, inl, inr, refl, Bool, Option, true, false, List, [], ◌∷◌, Bool-cases, if◌then◌else◌,
  ◌&&◌,
}
use device_drivers_lab_proje.Prelude.Int.{ℤ, eagain, erestartsys}
use device_drivers_lab_proje.Scull.Pipe.{
  ScullPipe, Reply, Wake, Waited, ready, gave_up, still_asleep, signalled, lock_interrupted, woken,
  wait_while, is_empty, is_full, read_section, write_section, scull_p_read, scull_p_write, Ended,
  done, error, asleep, then_do,
}

-- The pipe that a waiting function can find: the first one, or one that a wake shows it.
abbrev pub Sees : ScullPipe → List Wake → ScullPipe → Type 0
Sees dev [] d = d ≡ dev
Sees dev (signalled ∷ ws) d = d ≡ dev
Sees dev (lock_interrupted ∷ ws) d = d ≡ dev
Sees dev (woken later ∷ ws) d = (d ≡ dev) ⊎ Sees later ws d

-- Whether a signal comes while each wake before it has found the pipe blocked.
abbrev pub signal_comes : (ScullPipe → Bool) → List Wake → Bool
signal_comes blocked [] = false
signal_comes blocked (signalled ∷ ws) = true
signal_comes blocked (lock_interrupted ∷ ws) = true
signal_comes blocked (woken d ∷ ws) = blocked d && signal_comes blocked ws

-- The error of a wait: EAGAIN of a file that does not wait, or ERESTARTSYS of one that a signal reached.
abbrev pub GivesUp : (ScullPipe → Bool) → Bool → List Wake → ℤ → Type 0
GivesUp blocked nonblock ws e =
    ((nonblock ≡ true) × (e ≡ eagain))
    ⊎ ((nonblock ≡ false) × (e ≡ erestartsys) × (signal_comes blocked ws ≡ true))

-- How a wait can end: ready, on a pipe that it saw and that does not block; given up, where the first
-- pipe blocks; or still asleep.
abbrev pub WaitEnds : (ScullPipe → Bool) → Bool → ScullPipe → List Wake → Waited → Type 0
WaitEnds blocked nonblock dev ws (ready d) = (blocked d ≡ false) × Sees dev ws d
WaitEnds blocked nonblock dev ws (gave_up e) = (blocked dev ≡ true) × GivesUp blocked nonblock ws e
WaitEnds blocked nonblock dev ws still_asleep =
    (nonblock ≡ false) × (signal_comes blocked ws ≡ false)

-- Blocked, a file that does not wait gives up at once.
blocked-WaitEnds :
    (blocked : ScullPipe → Bool) (nonblock : Bool) (dev : ScullPipe) (ws : List Wake)
    (later : Waited)
    → blocked dev ≡ true
    → (nonblock ≡ false → WaitEnds blocked nonblock dev ws later)
    → WaitEnds blocked nonblock dev ws (if nonblock then gave_up eagain else later)
blocked-WaitEnds blocked true dev ws later e h = (e, inl (refl, refl))
blocked-WaitEnds blocked false dev ws later e h = h refl

-- A wake that finds the pipe blocked, and the wait from there on.
later-WaitEnds :
    (blocked : ScullPipe → Bool) (nonblock : Bool) (dev d : ScullPipe) (ws : List Wake) (w : Waited)
    → blocked dev ≡ true
    → blocked d ≡ true
    → WaitEnds blocked nonblock d ws w
    → WaitEnds blocked nonblock dev (woken d ∷ ws) w
later-WaitEnds blocked nonblock dev d ws (ready x) e e' (free, sees) = (free, inr sees)
later-WaitEnds blocked nonblock dev d ws (gave_up x) e e' (same, inl u) = (e, inl u)
later-WaitEnds blocked nonblock dev d ws (gave_up x) e e' (same, inr (u, v, sig)) =
    (e, inr (u, v, rw e' sig))
later-WaitEnds blocked nonblock dev d ws still_asleep e e' (u, sig) = (u, rw e' sig)

-- A wake that finds the pipe free.
free-WaitEnds :
    (blocked : ScullPipe → Bool) (nonblock : Bool) (d : ScullPipe) (ws : List Wake)
    → blocked d ≡ false
    → wait_while blocked nonblock d ws ≡ ready d
unfolding wait_while
free-WaitEnds blocked nonblock d [] e = rw e refl
free-WaitEnds blocked nonblock d (signalled ∷ ws) e = rw e refl
free-WaitEnds blocked nonblock d (lock_interrupted ∷ ws) e = rw e refl
free-WaitEnds blocked nonblock d (woken x ∷ ws) e = rw e refl

first_seen : (dev : ScullPipe) (ws : List Wake) → Sees dev ws dev
first_seen dev [] = refl
first_seen dev (signalled ∷ ws) = refl
first_seen dev (lock_interrupted ∷ ws) = refl
first_seen dev (woken d ∷ ws) = inl refl

wait_while-WaitEnds :
    (blocked : ScullPipe → Bool) (nonblock : Bool) (dev : ScullPipe) (ws : List Wake)
    → WaitEnds blocked nonblock dev ws (wait_while blocked nonblock dev ws)
unfolding wait_while
wait_while-WaitEnds blocked nonblock dev [] = elim (Bool-cases (blocked dev)) [
  | inl e ↦ rw e (blocked-WaitEnds blocked nonblock dev [] still_asleep e (λ h. (h, refl)))
  | inr e ↦ rw e (e, refl)
]
wait_while-WaitEnds blocked nonblock dev (signalled ∷ ws) = elim (Bool-cases (blocked dev)) [
  | inl e ↦ rw e (
      blocked-WaitEnds blocked nonblock dev (signalled ∷ ws) (gave_up erestartsys) e
        (λ h. (e, inr (h, refl, refl))))
  | inr e ↦ rw e (e, refl)
]
wait_while-WaitEnds blocked nonblock dev (lock_interrupted ∷ ws) = elim (Bool-cases (blocked dev)) [
  | inl e ↦ rw e (
      blocked-WaitEnds blocked nonblock dev (lock_interrupted ∷ ws) (gave_up erestartsys) e
        (λ h. (e, inr (h, refl, refl))))
  | inr e ↦ rw e (e, refl)
]
wait_while-WaitEnds blocked nonblock dev (woken d ∷ ws) = elim (Bool-cases (blocked dev)) [
  | inl e ↦
      rw (wait_while, e)
        (blocked-WaitEnds blocked nonblock dev (woken d ∷ ws) (wait_while blocked nonblock d ws) e
          (λ h. woken_up e (wait_while-WaitEnds blocked nonblock d ws)))
  | inr e ↦ rw (wait_while, e) (e, inl refl)
]
  where
    woken_up :
        blocked dev ≡ true
        → WaitEnds blocked nonblock d ws (wait_while blocked nonblock d ws)
        → WaitEnds blocked nonblock dev (woken d ∷ ws) (wait_while blocked nonblock d ws)
    woken_up e ih = elim (Bool-cases (blocked d)) [
      | inl e' ↦ later-WaitEnds blocked nonblock dev d ws (wait_while blocked nonblock d ws) e e' ih
      | inr e' ↦ rw (free-WaitEnds blocked nonblock d ws e') (e', inr (first_seen d ws))
    ]

-- What a call that was not interrupted at first ends with.
abbrev pub CallEnds :
    (ScullPipe → Bool) → (ScullPipe → Reply) → Bool → ScullPipe → List Wake → Ended → Type 0
CallEnds blocked section nonblock dev ws (done r) =
    (d : ScullPipe) × (blocked d ≡ false) × Sees dev ws d × (r ≡ section d)
CallEnds blocked section nonblock dev ws (error e) =
    (blocked dev ≡ true) × GivesUp blocked nonblock ws e
CallEnds blocked section nonblock dev ws asleep =
    (nonblock ≡ false) × (signal_comes blocked ws ≡ false)

then_do-CallEnds :
    (blocked : ScullPipe → Bool) (section : ScullPipe → Reply) (nonblock : Bool) (dev : ScullPipe)
    (ws : List Wake) (w : Waited)
    → WaitEnds blocked nonblock dev ws w
    → CallEnds blocked section nonblock dev ws (then_do section w)
then_do-CallEnds blocked section nonblock dev ws (ready d) (h, sees) = (d, h, sees, refl)
then_do-CallEnds blocked section nonblock dev ws (gave_up e) h = h
then_do-CallEnds blocked section nonblock dev ws still_asleep h = h

-- Whatever the other processes do to the pipe while it waits, a read runs its transfer only on a pipe
-- that is not empty and a write only on one that is not full, which is the first one or one that a wake
-- showed. It gives up only where it cannot go on at first: with EAGAIN if the file does not wait, and
-- with ERESTARTSYS if it does and a signal came while each wake before had found the pipe as it was
-- at first, empty or full. Only a file that waits is left asleep, and no signal came to it then.
pub scull_p_transfers :
    (nonblock : Bool) (count : ℕ) (bs : List ℕ) (unreadable : Bool) (fault : Option ℕ)
    (dev : ScullPipe) (ws : List Wake)
    → CallEnds is_empty
        (read_section count unreadable)
        nonblock
        dev
        ws
        (scull_p_read false nonblock count unreadable dev ws)
      × CallEnds is_full
          (write_section bs fault)
          nonblock
          dev
          ws
          (scull_p_write false nonblock bs fault dev ws)
unfolding scull_p_read scull_p_write
scull_p_transfers nonblock count bs unreadable fault dev ws = (
  then_do-CallEnds is_empty (read_section count unreadable) nonblock dev ws
      (wait_while is_empty nonblock dev ws) (wait_while-WaitEnds is_empty nonblock dev ws),
  then_do-CallEnds is_full (write_section bs fault) nonblock dev ws
      (wait_while is_full nonblock dev ws) (wait_while-WaitEnds is_full nonblock dev ws),
)
