-- ===== src/Tty/Lines.antt =====
-- The lines of the modem control (tty/tiny_tty.c, `tiny_tiocmget`, `tiny_tiocmset`).
use device_drivers_lab_proje.Prelude.{
  ℕ, ◌+◌, ◌-◌, ◌/◌, ◌%◌, ◌≡◌, refl, arith, ap, ◌∙◌, Bool, true, false, not, ◌&&◌, ◌||◌,
  if◌then◌else◌, ◌==◌,
}
use device_drivers_lab_proje.Tty.{Tiny}

-- Whether a word has the bit of a mask, and the word with the bit set and cleared.
abbrev pub has : ℕ → ℕ → Bool
has word mask = word / mask % 2 == 1

abbrev pub with_bit : ℕ → ℕ → ℕ
with_bit word mask = if has word mask then word else word + mask

abbrev pub without_bit : ℕ → ℕ → ℕ
without_bit word mask = if has word mask then word - mask else word

abbrev pub mcr_dtr : ℕ
mcr_dtr = 1

abbrev pub mcr_rts : ℕ
mcr_rts = 2

abbrev pub mcr_loop : ℕ
mcr_loop = 4

abbrev pub msr_cts : ℕ
msr_cts = 8

abbrev pub msr_cd : ℕ
msr_cd = 16

abbrev pub msr_ri : ℕ
msr_ri = 32

abbrev pub msr_dsr : ℕ
msr_dsr = 64

-- `TIOCM_DTR` and `TIOCM_RTS` of <asm/termios.h>
abbrev pub tiocm_dtr : ℕ
tiocm_dtr = 2

abbrev pub tiocm_rts : ℕ
tiocm_rts = 4

abbrev pub flag : Bool → ℕ → ℕ
flag b mask = if b then mask else 0

-- The word of the `TIOCM_` bits, which are different ones: DTR, RTS, LOOP, CTS, CAR, RI and DSR.
abbrev pub status : Bool → Bool → Bool → Bool → Bool → Bool → Bool → ℕ
status dtr rts loop cts car ri dsr =
    flag dtr 2
    + flag rts 4
    + flag loop 32768
    + flag cts 32
    + flag car 64
    + flag ri 128
    + flag dsr 256

unfoldable pub tiny_tiocmget : Tiny → ℕ
tiny_tiocmget t =
    status (has t.mcr mcr_dtr) (has t.mcr mcr_rts) (has t.mcr mcr_loop) (has t.msr msr_cts)
      (has t.msr msr_cd) (has t.msr msr_ri) (has t.msr msr_dsr)

unfoldable pub tiny_tiocmset : ℕ → ℕ → Tiny → Tiny
tiny_tiocmset set clear t =
    let m1 = if has set tiocm_rts then with_bit t.mcr mcr_rts else t.mcr in
    let m2 = if has set tiocm_dtr then with_bit m1 mcr_rts else m1 in
    let m3 = if has clear tiocm_rts then without_bit m2 mcr_rts else m2 in
    let m4 = if has clear tiocm_dtr then without_bit m3 mcr_rts else m3 in record t { mcr = m4 }

-- Setting or clearing the bit of RTS touches no other line.
set_rts :
    (b : Bool) (m : ℕ)
    → let m' = if b then with_bit m mcr_rts else m in
      (has m' 1 ≡ has m 1) × ((has m' 2 ≡ (b || has m 2)) × (has m' 4 ≡ has m 4))
set_rts true m = (ground arith, (ground arith, ground arith))
set_rts false m = (refl, (refl, refl))

clear_rts :
    (b : Bool) (m : ℕ)
    → let m' = if b then without_bit m mcr_rts else m in
      (has m' 1 ≡ has m 1) × ((has m' 2 ≡ (not b && has m 2)) × (has m' 4 ≡ has m 4))
clear_rts true m = (ground arith, (ground arith, ground arith))
clear_rts false m = (refl, (refl, refl))

-- What is read after lines are set and cleared: both RTS and DTR set or clear RTS, a line cleared is
-- clear even if it was also set, and DTR and all other lines stay as they were.
tiny_tiocmset-tiny_tiocmget :
    (set clear : ℕ) (t : Tiny)
    → let asked = has set tiocm_rts || has set tiocm_dtr in
      let dropped = has clear tiocm_rts || has clear tiocm_dtr in
      tiny_tiocmget (tiny_tiocmset set clear t)
      ≡ status
          (has t.mcr mcr_dtr)
          (not dropped && (asked || has t.mcr mcr_rts))
          (has t.mcr mcr_loop)
          (has t.msr msr_cts)
          (has t.msr msr_cd)
          (has t.msr msr_ri)
          (has t.msr msr_dsr)
unfolding tiny_tiocmget tiny_tiocmset
tiny_tiocmset-tiny_tiocmget set clear t =
    let m1 = if has set tiocm_rts then with_bit t.mcr mcr_rts else t.mcr in
    let m2 = if has set tiocm_dtr then with_bit m1 mcr_rts else m1 in
    let m3 = if has clear tiocm_rts then without_bit m2 mcr_rts else m2 in
    let (a1, (b1, c1)) = set_rts (has set tiocm_rts) t.mcr in
    let (a2, (b2, c2)) = set_rts (has set tiocm_dtr) m1 in
    let (a3, (b3, c3)) = clear_rts (has clear tiocm_rts) m2 in
    let (a4, (b4, c4)) = clear_rts (has clear tiocm_dtr) m3 in
    lines (a4 ∙ a3 ∙ a2 ∙ a1)
      (b4
        ∙ ap (λ x. not (has clear tiocm_dtr) && x)
            (b3
              ∙ ap (λ x. not (has clear tiocm_rts) && x) (b2 ∙ ap (λ x. has set tiocm_dtr || x) b1))
        ∙ ordered (has set tiocm_rts) (has set tiocm_dtr) (has clear tiocm_rts)
            (has clear tiocm_dtr) (has t.mcr mcr_rts))
      (c4 ∙ c3 ∙ c2 ∙ c1)
  where
    ordered :
        (sr sd cr cd r : Bool)
        → (not cd && (not cr && (sd || (sr || r)))) ≡ (not (cr || cd) && ((sr || sd) || r))
    ordered sr sd cr cd r = ground arith

    lines :
        {a b c a' b' c' : Bool}
        → a ≡ a'
        → b ≡ b'
        → c ≡ c'
        → status a b c (has t.msr msr_cts) (has t.msr msr_cd) (has t.msr msr_ri) (has t.msr msr_dsr)
          ≡ status a' b' c'
              (has t.msr msr_cts)
              (has t.msr msr_cd)
              (has t.msr msr_ri)
              (has t.msr msr_dsr)
    lines p q r = rw p (rw q (rw r refl))
