-- ===== src/Tty/Wait.antt =====
-- The wait for a change of the lines (tty/tiny_tty.c, `TIOCMIWAIT`).
use device_drivers_lab_proje.Prelude.{
  ℕ, ◌≡◌, inl, inr, refl, sym, ◌∙◌, arith, Bool, true, false, not, ◌&&◌, ◌||◌, Option, none, some,
  List, [], ◌∷◌, if◌then◌else◌, ◌==◌, Bool-cases,
}
use device_drivers_lab_proje.Prelude.Int.{ℤ, pos, errno, erestartsys}
use mathlib.Core.Bool.{true≢false}
use device_drivers_lab_proje.Tty.{Icount}
use device_drivers_lab_proje.Tty.Lines.{has}

-- What the process finds when it wakes: a signal or not, and the counts.
pub record Wake : Type 0 where
  pub signal : Bool
  pub now : Icount

-- `EIO`
abbrev pub eio : ℤ
eio = errno 5

-- No line has changed; a line that was asked for has. The masks are `TIOCM_RNG`, `TIOCM_DSR`,
-- `TIOCM_CD` and `TIOCM_CTS` of <asm/termios.h>.
abbrev pub unchanged : Icount → Icount → Bool
unchanged p n = n.rng == p.rng && (n.dsr == p.dsr && (n.dcd == p.dcd && n.cts == p.cts))

abbrev pub asked_for : ℕ → Icount → Icount → Bool
asked_for arg p n =
    (has arg 128 && not (n.rng == p.rng))
    || ((has arg 256 && not (n.dsr == p.dsr))
        || ((has arg 64 && not (n.dcd == p.dcd)) || (has arg 32 && not (n.cts == p.cts))))

-- None where the process is still asleep.
unfoldable pub tiocmiwait : ℕ → Icount → List Wake → Option ℤ
tiocmiwait arg cprev [] = none
tiocmiwait arg cprev (w ∷ wakes) =
    let rest = tiocmiwait arg w.now wakes in
    if w.signal
    then some erestartsys
    else if unchanged cprev w.now
    then some eio
    else if asked_for arg cprev w.now
    then some (pos 0)
    else rest

-- Wakes that a wait goes through: each with a change, of lines that were not asked for.
abbrev pub AllOther : ℕ → Icount → List Wake → Type 0
AllOther arg cprev [] = Unit
AllOther arg cprev (w ∷ wakes) =
    ((w.signal ≡ false) × ((unchanged cprev w.now ≡ false) × (asked_for arg cprev w.now ≡ false)))
    × AllOther arg w.now wakes

abbrev pub last_counts : Icount → List Wake → Icount
last_counts cprev [] = cprev
last_counts cprev (w ∷ wakes) = last_counts w.now wakes

abbrev pub appended : List Wake → Wake → List Wake
appended [] w = w ∷ []
appended (v ∷ wakes) w = v ∷ appended wakes w

none_asked :
    (a b c d r s t u : Bool)
    → (a && (b && (c && d))) ≡ true
    → ((r && not a) || ((s && not b) || ((t && not c) || (u && not d)))) ≡ false
none_asked a b c d r s t u e = ground arith

-- A wait sleeps through any number of changes of lines that were not asked for, and is answered 0 by the
-- first change of one that was, against the counts of the wake before.
tiocmiwait_lem :
    (arg : ℕ) (cprev : Icount) (wakes : List Wake) (w : Wake)
    → AllOther arg cprev wakes
    → w.signal ≡ false
    → asked_for arg (last_counts cprev wakes) w.now ≡ true
    → (tiocmiwait arg cprev wakes ≡ none) × (tiocmiwait arg cprev (appended wakes w) ≡ some (pos 0))
unfolding tiocmiwait
tiocmiwait_lem arg cprev [] w o s a = elim (Bool-cases (unchanged cprev w.now)) [
  | inl e ↦
      (let quiet =
          none_asked (w.now.rng == cprev.rng) (w.now.dsr == cprev.dsr) (w.now.dcd == cprev.dcd)
            (w.now.cts == cprev.cts) (has arg 128) (has arg 256) (has arg 64) (has arg 32) e in
        absurd (true≢false (sym a ∙ quiet)))
  | inr e ↦ (refl, rw s (rw e (rw a refl)))
]
tiocmiwait_lem arg cprev (v ∷ wakes) w o s a =
    let (p, q) = tiocmiwait_lem arg v.now wakes w o.1 s a in
    (rw o.0.0 (rw o.0.1.0 (rw o.0.1.1 p)), rw o.0.0 (rw o.0.1.0 (rw o.0.1.1 q)))
