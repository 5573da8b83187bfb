-- ===== src/Snull/Frame/Rewrite.antt =====
-- Rewriting a frame twice (snull/snull.c, `snull_hw_tx`): the way out and the way back.
use device_drivers_lab_proje.Prelude.{
  ℕ, ◌≤◌, ◌<◌, ◌≡◌, ◌≢◌, refl, ◌∙◌, ap, arith, List, length, get_or, set, drop, length-set, set-set,
  set_comm, set-get_or, get_or-set_self, get_or-set_ne,
}
use device_drivers_lab_proje.Snull.Frame.{
  xor_1, source_octet, dest_octet, flip_at, with_check, ihl, rewrite_frame,
}

-- The checksum that stands in the frame, and the frame without.
abbrev pub check_of : List ℕ → ℕ × ℕ
check_of frame = (get_or frame 24 0, get_or frame 25 0)

abbrev pub bare : List ℕ → List ℕ
bare frame = with_check (0, 0) frame

-- The checksum of the header is right.
abbrev pub IsChecked : (List ℕ → ℕ → ℕ × ℕ) → List ℕ → Type 0
IsChecked ip_fast_csum frame =
    ip_fast_csum (drop 14 (bare frame)) (ihl (bare frame)) ≡ check_of frame

xor_1-xor_1 : (x : ℕ) → xor_1 (xor_1 x) ≡ x
xor_1-xor_1 x = ground arith

flip_at-flip_at : (i : ℕ) (xs : List ℕ) → i < length xs → flip_at i (flip_at i xs) ≡ xs
flip_at-flip_at i xs h =
    let v = xor_1 (get_or xs i 0) in
    rw (get_or-set_self xs i v 0 h)
      (set-set xs i v (xor_1 v) ∙ ap (set xs i) (xor_1-xor_1 (get_or xs i 0)) ∙ set-get_or xs i 0)

flip_at-set :
    (i j : ℕ) (xs : List ℕ) (v : ℕ) → j ≢ i → flip_at i (set xs j v) ≡ set (flip_at i xs) j v
flip_at-set i j xs v ne = rw (get_or-set_ne xs v 0 ne) (set_comm xs v (xor_1 (get_or xs i 0)) ne)

flip_at-with_check :
    (i : ℕ) (c : ℕ × ℕ) (xs : List ℕ)
    → 25 < i
    → flip_at i (with_check c xs) ≡ with_check c (flip_at i xs)
flip_at-with_check i c xs h =
    flip_at-set i 25 (set xs 24 c.0) c.1 (omega arith)
    ∙ ap (λ l. set l 25 c.1) (flip_at-set i 24 xs c.0 (omega arith))

-- Both octets flipped.
abbrev flipped : List ℕ → List ℕ
flipped xs = flip_at dest_octet (flip_at source_octet xs)

flipped-with_check :
    (c : ℕ × ℕ) (xs : List ℕ) → flipped (with_check c xs) ≡ with_check c (flipped xs)
flipped-with_check c xs =
    ap (flip_at 32) (flip_at-with_check 28 c xs (omega arith))
    ∙ flip_at-with_check 32 c (flip_at 28 xs) (omega arith)

flipped-flipped : (xs : List ℕ) → 34 ≤ length xs → flipped (flipped xs) ≡ xs
flipped-flipped xs h =
    let ys = flip_at 28 xs in
    let v = xor_1 (get_or xs 28 0) in
    let back : flip_at 28 (flip_at 32 ys) ≡ flip_at 32 xs =
      flip_at-set 28 32 ys (xor_1 (get_or ys 32 0)) (omega arith)
      ∙ ap (λ l. set l 32 (xor_1 (get_or ys 32 0))) (flip_at-flip_at 28 xs (omega arith))
      ∙ ap (λ o. set xs 32 (xor_1 o)) (get_or-set_ne xs v 0 (omega arith)) in
    ap (flip_at 32) back ∙ flip_at-flip_at 32 xs (omega arith)

with_check-with_check :
    (c e : ℕ × ℕ) (xs : List ℕ) → with_check e (with_check c xs) ≡ with_check e xs
with_check-with_check c e xs =
    ap (λ l. set l 25 e.1) (set_comm (set xs 24 c.0) c.1 e.0 (omega arith))
    ∙ set-set (set (set xs 24 c.0) 24 e.0) 25 c.1 e.1
    ∙ ap (λ l. set l 25 e.1) (set-set xs 24 c.0 e.0)

with_check_own : (xs : List ℕ) → with_check (check_of xs) xs ≡ xs
with_check_own xs = rw (set-get_or xs 24 0) (set-get_or xs 25 0)

length-with_check : (c : ℕ × ℕ) (xs : List ℕ) → length (with_check c xs) ≡ length xs
length-with_check c xs = length-set (set xs 24 c.0) 25 c.1 ∙ length-set xs 24 c.0

length-flip_at : (i : ℕ) (xs : List ℕ) → length (flip_at i xs) ≡ length xs
length-flip_at i xs = length-set xs i (xor_1 (get_or xs i 0))

check_of-with_check : (c : ℕ × ℕ) (xs : List ℕ) → 34 ≤ length xs → c ≡ check_of (with_check c xs)
check_of-with_check c xs h =
    let ys = set xs 24 c.0 in
    let low : get_or (set ys 25 c.1) 24 0 ≡ c.0 =
      get_or-set_ne ys c.1 0 (omega arith) ∙ get_or-set_self xs 24 c.0 0 (omega arith) in
    let high : get_or (set ys 25 c.1) 25 0 ≡ c.1 =
      get_or-set_self ys 25 c.1 0 (omega (arith, length-set xs 24 c.0)) in
    rw low (rw high refl)

-- A frame that holds both headers, and whose checksum is right, comes back as it was when its receiver
-- sends it back unchanged: rewriting it twice gives the same bytes.
pub rewrite_frame-rewrite_frame :
    (ip_fast_csum : List ℕ → ℕ → ℕ × ℕ) (frame : List ℕ)
    → 34 ≤ length frame
    → IsChecked ip_fast_csum frame
    → rewrite_frame ip_fast_csum (rewrite_frame ip_fast_csum frame) ≡ frame
unfolding rewrite_frame
rewrite_frame-rewrite_frame ip_fast_csum frame h e =
    let z = with_check (0, 0) (flipped frame) in
    let c = ip_fast_csum (drop 14 z) (ihl z) in
    let same : with_check (0, 0) (flipped (with_check c z)) ≡ bare frame =
      ap (with_check (0, 0)) (flipped-with_check c z)
      ∙ with_check-with_check c (0, 0) (flipped z)
      ∙ ap (with_check (0, 0)) (flipped-with_check (0, 0) (flipped frame))
      ∙ with_check-with_check (0, 0) (0, 0) (flipped (flipped frame))
      ∙ ap (with_check (0, 0)) (flipped-flipped frame h) in
    rw same (rw e (with_check-with_check (0, 0) (check_of frame) frame ∙ with_check_own frame))

-- Rewriting keeps a frame's length, and makes its checksum right.
pub rewrite_frame-IsChecked :
    (ip_fast_csum : List ℕ → ℕ → ℕ × ℕ) (frame : List ℕ)
    → 34 ≤ length frame
    → (length (rewrite_frame ip_fast_csum frame) ≡ length frame)
      × IsChecked ip_fast_csum (rewrite_frame ip_fast_csum frame)
unfolding rewrite_frame
rewrite_frame-IsChecked ip_fast_csum frame h =
    let z = with_check (0, 0) (flipped frame) in
    let c = ip_fast_csum (drop 14 z) (ihl z) in
    let same : bare (with_check c z) ≡ z =
      with_check-with_check c (0, 0) z ∙ with_check-with_check (0, 0) (0, 0) (flipped frame) in
    let n : length z ≡ length frame =
      length-with_check (0, 0) (flipped frame)
      ∙ length-flip_at 32 (flip_at 28 frame)
      ∙ length-flip_at 28 frame in
    (length-with_check c z ∙ n, rw same (check_of-with_check c z (omega arith)))
