-- ===== src/Circular.antt =====
-- Circular buffers of a page, as the printer driver (shortprint/shortprint.c) and the serial core's ports
-- (tty/tiny_serial.c) have them: what lies between the tail and the head.
use device_drivers_lab_proje.Prelude.{
  ℕ, zero, suc, ◌+◌, ◌-◌, ◌≡◌, ◌≢◌, ◌<◌, refl, ◌∙◌, ap, ap₂, arith, false, true, List, [], ◌∷◌,
  ◌++◌, if◌then◌else◌, leb, length, get_or, take, drop, Bool-cases, inl, inr, drop_all,
}

abbrev pub page_size : ℕ
page_size = 4096

-- From the tail to the head.
abbrev pub between : ℕ → ℕ → List ℕ → List ℕ
between h t buf = if leb t h then take (h - t) (drop t buf) else drop t buf ++ take h buf

-- The place behind one.
abbrev pub next_place : ℕ → ℕ
next_place t = if leb page_size (t + 1) then t + 1 - page_size else t + 1

drop-get_or : (xs : List ℕ) (i : ℕ) → i < length xs → drop i xs ≡ get_or xs i 0 ∷ drop (suc i) xs
drop-get_or [] i h = absurd (omega arith)
drop-get_or (x ∷ xs) zero h = refl
drop-get_or (x ∷ xs) (suc i) h = drop-get_or xs i (omega arith)

-- What is there, where there is something, is the byte at the tail and what is behind it.
pub between-first :
    (h t : ℕ) (buf : List ℕ)
    → h < page_size
    → t < page_size
    → length buf ≡ page_size
    → h ≢ t
    → between h t buf ≡ get_or buf t 0 ∷ between h (next_place t) buf
between-first h t buf hb tb size ne =
    let first = drop-get_or buf t (omega (arith, tb, size)) in
    elim (Bool-cases (leb t h)) [
      | inl straight ↦
          let stays : leb page_size (t + 1) ≡ false = ground (arith, hb) in
          let still : leb (t + 1) h ≡ true = ground arith in
          let more : h - t ≡ suc (h - (t + 1)) = ground arith in
          let next : suc t ≡ t + 1 = omega arith in
          rw (straight, stays)
            (rw still (
              ap₂ take more first
              ∙ ap (λ m. get_or buf t 0 ∷ take (h - (t + 1)) (drop m buf)) next))
      | inr around ↦ elim (Bool-cases (leb page_size (t + 1))) [
        | inl wraps ↦
            let at_start : t + 1 - page_size ≡ 0 = ground (arith, tb) in
            let now : leb 0 h ≡ true = ground arith in
            let none_left = drop_all (suc t) buf (ground (arith, size)) in
            let whole : h - 0 ≡ h = omega arith in
            rw (around, wraps)
              (rw at_start (
                rw (now, whole)
                  (ap (λ l. l ++ take h buf) (first ∙ ap (λ l. get_or buf t 0 ∷ l) none_left))))
        | inr stays ↦
            let still : leb (t + 1) h ≡ false = ground arith in
            let next : suc t ≡ t + 1 = omega arith in
            rw (around, stays)
              (rw still
                (ap (λ l. l ++ take h buf) (first ∙ ap (λ m. get_or buf t 0 ∷ drop m buf) next)))
      ]
    ]

pub between-nil : (h t : ℕ) (buf : List ℕ) → h ≡ t → between h t buf ≡ []
between-nil h t buf e =
    let straight : leb t h ≡ true = ground arith in
    let none_left : h - t ≡ 0 = ground arith in rw straight (rw none_left refl)
