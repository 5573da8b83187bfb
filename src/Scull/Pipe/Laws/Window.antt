-- ===== src/Scull/Pipe/Laws/Window.antt =====
-- The bytes between the read and the write position of a circular buffer (scull/pipe.c), when one of
-- them moves.
use device_drivers_lab_proje.Prelude.{
  ℕ, ◌+◌, ◌-◌, ◌≡◌, ◌≢◌, ◌<◌, ◌≤◌, sym, ◌∙◌, ap, ap₂, arith, true, false, List, ◌++◌, append_assoc,
  append-nil, if◌then◌else◌, leb, ltb, ◌==◌, length, take, drop, splice, length-drop, length-splice,
  take-splice, drop-splice, segment-splice, take-append-drop, take-add, drop-drop, take_all,
  Bool-cases, inl, inr,
}
use device_drivers_lab_proje.Scull.Pipe.Contents.{window}

two_pieces :
    (r n k : ℕ) (b : List ℕ)
    → take n (drop r b) ++ take k (drop (r + n) b) ≡ take (n + k) (drop r b)
two_pieces r n k b =
    ap (λ l. take n (drop r b) ++ take k l) (sym (drop-drop n r b)) ∙ take-add n k (drop r b)

two_ends : (r n : ℕ) (b : List ℕ) → take n (drop r b) ++ drop (r + n) b ≡ drop r b
two_ends r n b =
    ap (λ l. take n (drop r b) ++ l) (sym (drop-drop n r b)) ∙ take-append-drop n (drop r b)

module _ (b : List ℕ) (e r w n : ℕ) (len : length b ≡ e) (hr : r < e) (hw : w < e) where
  read_ahead :
      r < w
      → n ≤ w - r
      → take n (drop r b) ++ window b (if r + n == e then 0 else r + n) w ≡ window b r w
  read_ahead lt few =
      let e1 : (r + n == e) ≡ false = ground arith in
      let e2 : leb r w ≡ true = ground arith in
      let e3 : leb (r + n) w ≡ true = ground arith in
      rw (e1, e2, e3)
        (two_pieces r n (w - (r + n)) b
          ∙ ap (λ k. take k (drop r b)) (let q : n + (w - (r + n)) ≡ w - r = omega arith in q))

  read_behind :
      w < r
      → n ≤ e - r
      → take n (drop r b) ++ window b (if r + n == e then 0 else r + n) w ≡ window b r w
  read_behind lt few =
      let e2 : leb r w ≡ false = ground arith in
      elim (Bool-cases (r + n == e)) [
        | inl at_end ↦
            let all : take n (drop r b) ≡ drop r b =
              take_all n (drop r b) (ground (arith, length-drop r b)) in
            let e3 : leb 0 w ≡ true = ground arith in
            rw (at_end, e2, e3)
              (ap₂ ◌++◌ all (ap (λ k. take k b) (let q : w - 0 ≡ w = omega arith in q)))
        | inr inside ↦
            let e3 : leb (r + n) w ≡ false = ground arith in
            rw (inside, e2, e3)
              (sym (append_assoc (take n (drop r b)) (drop (r + n) b) (take w b))
                ∙ ap (λ l. l ++ take w b) (two_ends r n b))
      ]

  -- The bytes taken from the front, with what is then in the window, are what was in it.
  pub read_window :
      r ≢ w
      → n ≤ (if ltb r w then w - r else e - r)
      → take n (drop r b) ++ window b (if r + n == e then 0 else r + n) w ≡ window b r w
  read_window ne few = elim (Bool-cases (ltb r w)) [
    | inl lt ↦ read_ahead (ground arith) (ground arith)
    | inr ge ↦ read_behind (ground arith) (ground arith)
  ]

module _ (b bs : List ℕ) (e r w : ℕ) (len : length b ≡ e) (hr : r < e) (hw : w < e) where
  write_ahead :
      r ≤ w
      → w + length bs ≤ e
      → w - r + length bs < e
      → window (splice w bs b) r (if w + length bs == e then 0 else w + length bs)
        ≡ window b r w ++ bs
  write_ahead le fits room =
      let new = splice w bs b in
      let inside : w + length bs ≤ length b = omega arith in
      let e2 : leb r w ≡ true = ground arith in
      let segment = segment-splice r w bs b inside le in
      elim (Bool-cases (w + length bs == e)) [
        | inl at_end ↦
            let e3 : leb r 0 ≡ false = ground arith in
            let all : take (w + length bs - r) (drop r new) ≡ drop r new =
              take_all (w + length bs - r) (drop r new)
                (ground (arith, length-drop r new, length-splice w bs b inside)) in
            rw (at_end, e2, e3) (append-nil (drop r new) ∙ sym all ∙ segment)
        | inr before ↦
            let e3 : leb r (w + length bs) ≡ true = ground arith in rw (before, e2, e3) segment
      ]

  write_behind :
      w < r
      → w + length bs < r
      → window (splice w bs b) r (if w + length bs == e then 0 else w + length bs)
        ≡ window b r w ++ bs
  write_behind lt room =
      let inside : w + length bs ≤ length b = omega arith in
      let e1 : (w + length bs == e) ≡ false = ground arith in
      let e2 : leb r w ≡ false = ground arith in
      let e3 : leb r (w + length bs) ≡ false = ground arith in
      rw (e1, e2, e3)
        (ap₂ ◌++◌ (drop-splice w r bs b inside (omega arith)) (take-splice w bs b inside)
          ∙ sym (append_assoc (drop r b) (take w b) bs))

  -- Bytes written at the write position, where there is room, come behind what was in the window.
  pub write_window :
      length bs ≤ (if leb r w then e - w else r - w - 1)
      → length bs ≤ e - 1 - (if leb r w then w - r else e - r + w)
      → window (splice w bs b) r (if w + length bs == e then 0 else w + length bs)
        ≡ window b r w ++ bs
  write_window few room = elim (Bool-cases (leb r w)) [
    | inl le ↦ write_ahead (ground arith) (ground arith) (ground arith)
    | inr gt ↦ write_behind (ground arith) (ground arith)
  ]
