-- ===== src/Tty/Timed.antt =====
-- The timer of a port under its closes, and the module's exit (tty/tiny_tty.c).
use device_drivers_lab_proje.Prelude.{
  ℕ, zero, suc, ◌-◌, ◌<◌, ◌≡◌, inl, inr, refl, ◌∙◌, arith, true, false, Option, none, some, List,
  [], ◌∷◌, Bool-cases, ◌==◌, length, replicate,
}
use device_drivers_lab_proje.Prelude.Int.{enomem}
use mathlib.Core.Bool.{true≢false}
use device_drivers_lab_proje.Tty.{
  Timer, null, idle, armed, Tiny, del_timer, is_null, open_port, do_close, tiny_close, close_all,
  tiny_exit,
}

-- The timer of a port that is in use is pending; that of another is not.
pub data IsTimed : Tiny → Type 0 where
  in_use : (t : Tiny) (n e : ℕ) → t.open_count ≡ suc n → t.timer ≡ armed e → IsTimed t
  unused : (t : Tiny) → t.open_count ≡ 0 → t.timer ≡ null → IsTimed t
  closed : (t : Tiny) → t.open_count ≡ 0 → t.timer ≡ idle → IsTimed t

-- A close of a port that is timed has a result, and one user less.
closes :
    (t : Tiny)
    → IsTimed t
    → (t' : Tiny) × (do_close t ≡ some t')
      × IsTimed t'
      × (t'.open_count ≡ t.open_count - 1)
      × (is_null t'.timer ≡ is_null t.timer)
unfolding do_close
closes t (in_use _ n e c a) =
    let used : (t.open_count == 0) ≡ false = ground arith in
    elim (Bool-cases (t.open_count - 1 == 0)) [
      | inl z ↦
          (let none_left : t.open_count - 1 ≡ 0 = ground arith in
            (
              record t { open_count = t.open_count - 1; timer = idle },
              rw used (rw z (rw a refl)),
              closed _ none_left refl,
              refl,
              rw a refl,
            ))
      | inr z ↦
          (let left : t.open_count - 1 ≡ suc (t.open_count - 2) = ground arith in
            (
              record t { open_count = t.open_count - 1 },
              rw used (rw z refl),
              in_use _ (t.open_count - 2) e left a,
              refl,
              refl,
            ))
    ]
closes t (unused _ c a) =
    let free : (t.open_count == 0) ≡ true = ground arith in
    (t, rw free refl, unused t c a, omega arith, refl)
closes t (closed _ c a) =
    let free : (t.open_count == 0) ≡ true = ground arith in
    (t, rw free refl, closed t c a, omega arith, refl)

failed_open :
    (expires : ℕ) (t : Tiny)
    → t.open_count ≡ 0
    → t.timer ≡ null
    → open_port expires false t ≡ (enomem, record t { open_count = 1; timer = null })
unfolding open_port
failed_open expires t c a = rw c (rw a refl)

exit_fails :
    (fuel : ℕ) (t : Tiny) (ports : List (Option Tiny))
    → t.open_count ≡ 1
    → t.timer ≡ null
    → tiny_exit fuel (some t ∷ ports) ≡ none
unfolding tiny_exit close_all do_close
exit_fails zero t ports c a = refl
exit_fails (suc fuel) t ports c a = rw c (rw a refl)

-- Ports with a timer, none open as many times as the number.
abbrev pub AllTimed : ℕ → List (Option Tiny) → Type 0
AllTimed fuel [] = Unit
AllTimed fuel (none ∷ ports) = AllTimed fuel ports
AllTimed fuel (some t ∷ ports) =
    (IsTimed t × ((is_null t.timer ≡ false) × (t.open_count < fuel))) × AllTimed fuel ports

close_all_ends :
    (fuel : ℕ) (t : Tiny)
    → IsTimed t
    → is_null t.timer ≡ false
    → t.open_count < fuel
    → (t' : Tiny) × (close_all fuel t ≡ some t') × (del_timer t'.timer ≡ some idle)
unfolding close_all
close_all_ends zero t v p h = absurd (omega arith)
close_all_ends (suc fuel) t v p h = elim (Bool-cases (t.open_count == 0)) [
  | inl z ↦ (t, rw z refl, deleted t.timer p)
  | inr z ↦
      (let (u, e, v', less, same) = closes t v in
        let some_open : 0 < t.open_count = ground arith in
        let (t', e', d) = close_all_ends fuel u v' (same ∙ p) (omega (arith, less)) in
        (t', rw z (rw e e'), d))
]
  where
    deleted : (x : Timer) → is_null x ≡ false → del_timer x ≡ some idle
    deleted null e = absurd (true≢false e)
    deleted idle e = refl
    deleted (armed n) e = refl

-- The first open of a port without memory for its timer answers ENOMEM and yet counts the open, so that
-- the close which follows runs into the timer's NULL pointer; and so does the module's exit, whatever
-- its other ports.
open_port-tiny_close :
    (expires fuel : ℕ) (t : Tiny) (ports : List (Option Tiny))
    → t.open_count ≡ 0
    → t.timer ≡ null
    → let r = open_port expires false t in
      (r.0 ≡ enomem) × ((tiny_close true r.1 ≡ none) × (tiny_exit fuel (some r.1 ∷ ports) ≡ none))
unfolding tiny_close do_close
open_port-tiny_close expires fuel t ports c a =
    rw (failed_open expires t c a)
      (refl, (refl, exit_fails fuel (record t { open_count = 1; timer = null }) ports refl refl))

-- The module's exit, of ports that are timed or gone, always ends: as many rounds as the most opens of a
-- port, and one more, are enough, and no port is left.
pub tiny_exit-IsTimed :
    (fuel : ℕ) (ports : List (Option Tiny))
    → AllTimed fuel ports
    → tiny_exit fuel ports ≡ some (replicate (length ports) none)
unfolding tiny_exit
tiny_exit-IsTimed fuel [] v = refl
tiny_exit-IsTimed fuel (none ∷ ports) v = rw (tiny_exit-IsTimed fuel ports v) refl
tiny_exit-IsTimed fuel (some t ∷ ports) v =
    let (t', e, d) = close_all_ends fuel t v.0.0 v.0.1.0 v.0.1.1 in
    rw e (rw d (rw (tiny_exit-IsTimed fuel ports v.1) refl))
