-- ===== src/Prelude/Lists.antt =====
-- Arrays as lists measured and indexed by native numbers, under the library's names.
use Prim.Native.Nat.{ℕ, zero, suc, ◌+◌, ◌-◌, ◌≤◌, ◌<◌, min}
use mathlib.Core.Path.{◌≡◌, refl, sym, ap, ◌∙◌}
use mathlib.Core.Logic.{◌≢◌}
use mathlib.Core.List.{List, [], ◌∷◌, ◌++◌, append-nil}
use mathlib.Core.Option.{Option, none, some}
use native.Mathlib.Omega.{arith}

module _ {ℓ} {A : Type ℓ} where
  abbrev pub length : List A → ℕ
  length [] = 0
  length (x ∷ xs) = suc (length xs)

  abbrev pub get_elem? : List A → ℕ → Option A
  get_elem? [] i = none
  get_elem? (x ∷ xs) zero = some x
  get_elem? (x ∷ xs) (suc i) = get_elem? xs i

  abbrev pub get_or : List A → ℕ → A → A
  get_or [] i d = d
  get_or (x ∷ xs) zero d = x
  get_or (x ∷ xs) (suc i) d = get_or xs i d

  -- A write out of bounds changes nothing.
  abbrev pub set : List A → ℕ → A → List A
  set [] i v = []
  set (x ∷ xs) zero v = v ∷ xs
  set (x ∷ xs) (suc i) v = x ∷ set xs i v

  abbrev pub take : ℕ → List A → List A
  take zero xs = []
  take (suc n) [] = []
  take (suc n) (x ∷ xs) = x ∷ take n xs

  abbrev pub drop : ℕ → List A → List A
  drop zero xs = xs
  drop (suc n) [] = []
  drop (suc n) (x ∷ xs) = drop n xs

  abbrev pub replicate : ℕ → A → List A
  replicate zero a = []
  replicate (suc n) a = a ∷ replicate n a

module _ {ℓ} {A : Type ℓ} where
  pub length-append : (xs ys : List A) → length (xs ++ ys) ≡ length xs + length ys
  length-append [] ys = omega arith
  length-append (x ∷ xs) ys = omega (arith, length-append xs ys)

  pub length-set : (xs : List A) (i : ℕ) (v : A) → length (set xs i v) ≡ length xs
  length-set [] i v = refl
  length-set (x ∷ xs) zero v = refl
  length-set (x ∷ xs) (suc i) v = ap suc (length-set xs i v)

  pub length-replicate : (n : ℕ) (a : A) → length (replicate n a) ≡ n
  length-replicate zero a = refl
  length-replicate (suc n) a = ap suc (length-replicate n a)

  pub length-take : (n : ℕ) (xs : List A) → length (take n xs) ≡ min n (length xs)
  length-take zero xs = omega arith
  length-take (suc n) [] = omega arith
  length-take (suc n) (x ∷ xs) = omega (arith, length-take n xs)

  pub length-drop : (n : ℕ) (xs : List A) → length (drop n xs) ≡ length xs - n
  length-drop zero xs = omega arith
  length-drop (suc n) [] = omega arith
  length-drop (suc n) (x ∷ xs) = omega (arith, length-drop n xs)

  pub get_or-set_self :
      (xs : List A) (i : ℕ) (v d : A) → i < length xs → get_or (set xs i v) i d ≡ v
  get_or-set_self [] i v d h = absurd (omega arith)
  get_or-set_self (x ∷ xs) zero v d h = refl
  get_or-set_self (x ∷ xs) (suc i) v d h = get_or-set_self xs i v d (omega arith)

  pub get_or-set_ne :
      (xs : List A) {i j : ℕ} (v d : A) → i ≢ j → get_or (set xs i v) j d ≡ get_or xs j d
  get_or-set_ne [] v d h = refl
  get_or-set_ne (x ∷ xs) {i = zero} {j = zero} v d h = absurd (h refl)
  get_or-set_ne (x ∷ xs) {i = zero} {j = suc j} v d h = refl
  get_or-set_ne (x ∷ xs) {i = suc i} {j = zero} v d h = refl
  get_or-set_ne (x ∷ xs) {i = suc i} {j = suc j} v d h = get_or-set_ne xs v d (λ e. h (ap suc e))

  pub set-set : (xs : List A) (i : ℕ) (v w : A) → set (set xs i v) i w ≡ set xs i w
  set-set [] i v w = refl
  set-set (x ∷ xs) zero v w = refl
  set-set (x ∷ xs) (suc i) v w = ap (λ k. x ∷ k) (set-set xs i v w)

  pub set_comm :
      (xs : List A) {i j : ℕ} (v w : A) → i ≢ j → set (set xs i v) j w ≡ set (set xs j w) i v
  set_comm [] v w h = refl
  set_comm (x ∷ xs) {i = zero} {j = zero} v w h = absurd (h refl)
  set_comm (x ∷ xs) {i = zero} {j = suc j} v w h = refl
  set_comm (x ∷ xs) {i = suc i} {j = zero} v w h = refl
  set_comm (x ∷ xs) {i = suc i} {j = suc j} v w h =
      ap (λ k. x ∷ k) (set_comm xs v w (λ e. h (ap suc e)))

  pub set-get_or : (xs : List A) (i : ℕ) (d : A) → set xs i (get_or xs i d) ≡ xs
  set-get_or [] i d = refl
  set-get_or (x ∷ xs) zero d = refl
  set-get_or (x ∷ xs) (suc i) d = ap (λ k. x ∷ k) (set-get_or xs i d)

  pub take-append-drop : (n : ℕ) (xs : List A) → take n xs ++ drop n xs ≡ xs
  take-append-drop zero xs = refl
  take-append-drop (suc n) [] = refl
  take-append-drop (suc n) (x ∷ xs) = rw (take-append-drop n xs)

  pub take_all : (n : ℕ) (xs : List A) → length xs ≤ n → take n xs ≡ xs
  take_all zero [] h = refl
  take_all zero (x ∷ xs) h = absurd (omega arith)
  take_all (suc n) [] h = refl
  take_all (suc n) (x ∷ xs) h = ap (λ k. x ∷ k) (take_all n xs (omega arith))

  pub drop_all : (n : ℕ) (xs : List A) → length xs ≤ n → drop n xs ≡ []
  drop_all zero [] h = refl
  drop_all zero (x ∷ xs) h = absurd (omega arith)
  drop_all (suc n) [] h = refl
  drop_all (suc n) (x ∷ xs) h = drop_all n xs (omega arith)

  pub drop-nil : (n : ℕ) → drop {A = A} n [] ≡ []
  drop-nil zero = refl
  drop-nil (suc n) = refl

  pub take-nil : (n : ℕ) → take {A = A} n [] ≡ []
  take-nil zero = refl
  take-nil (suc n) = refl

  pub drop-drop : (m n : ℕ) (xs : List A) → drop m (drop n xs) ≡ drop (n + m) xs
  drop-drop m zero xs = ap (λ k. drop k xs) (omega arith)
  drop-drop m (suc n) [] = rw drop-nil (sym (drop-nil (suc n + m)))
  drop-drop m (suc n) (x ∷ xs) =
      drop-drop m n xs
      ∙ ap (λ k. drop k (x ∷ xs)) (let e : suc (n + m) ≡ suc n + m = omega arith in e)

  -- Taking `m`, then `n` of what is left, is taking `m + n`.
  pub take-add : (m n : ℕ) (xs : List A) → take m xs ++ take n (drop m xs) ≡ take (m + n) xs
  take-add zero n xs = ap (λ k. take k xs) (omega arith)
  take-add (suc m) n [] = rw take-nil (sym (take-nil (suc m + n)))
  take-add (suc m) n (x ∷ xs) =
      ap (λ k. x ∷ k) (take-add m n xs)
      ∙ ap (λ k. take k (x ∷ xs)) (let e : suc (m + n) ≡ suc m + n = omega arith in e)

  pub take-take : (n k : ℕ) (xs : List A) → n ≤ k → take n (take k xs) ≡ take n xs
  take-take zero k xs h = refl
  take-take (suc n) zero xs h = absurd (omega arith)
  take-take (suc n) (suc k) [] h = refl
  take-take (suc n) (suc k) (x ∷ xs) h = ap (λ l. x ∷ l) (take-take n k xs (omega arith))

  -- What is left of the first `n` without the first `c`.
  pub take-drop : (n c : ℕ) (xs : List A) → take (n - c) (drop c xs) ≡ drop c (take n xs)
  take-drop n zero xs = ap (λ k. take k xs) (let e : n - 0 ≡ n = omega arith in e)
  take-drop zero (suc c) xs =
      ap (λ k. take k (drop (suc c) xs)) (let e : 0 - suc c ≡ 0 = omega arith in e)
  take-drop (suc n) (suc c) [] = take-nil (suc n - suc c)
  take-drop (suc n) (suc c) (x ∷ xs) = ap (λ k. take k (drop c xs)) (omega arith) ∙ take-drop n c xs

  pub take-take-min : (c n : ℕ) (xs : List A) → take c (take n xs) ≡ take (min c n) xs
  take-take-min zero n xs = ap (λ k. take k xs) (let e : 0 ≡ min 0 n = omega arith in e)
  take-take-min (suc c) zero xs = ap (λ k. take k xs) (let e : 0 ≡ min (suc c) 0 = omega arith in e)
  take-take-min (suc c) (suc n) [] = sym (take-nil (min (suc c) (suc n)))
  take-take-min (suc c) (suc n) (x ∷ xs) =
      ap (λ l. x ∷ l) (take-take-min c n xs)
      ∙ ap (λ k. take k (x ∷ xs)) (let e : suc (min c n) ≡ min (suc c) (suc n) = omega arith in e)

-- The bytes `bs` written over `xs` from index `i` on.
module _ {ℓ} {A : Type ℓ} where
  abbrev pub splice : ℕ → List A → List A → List A
  splice i bs xs = take i xs ++ (bs ++ drop (i + length bs) xs)

  pub drop-append : (xs ys : List A) (n : ℕ) → drop (length xs + n) (xs ++ ys) ≡ drop n ys
  drop-append [] ys n = ap (λ k. drop k ys) (let e : 0 + n ≡ n = omega arith in e)
  drop-append (x ∷ xs) ys n =
      ap (λ k. drop k (x ∷ (xs ++ ys)))
        (let e : suc (length xs) + n ≡ suc (length xs + n) = omega arith in e)
      ∙ drop-append xs ys n

  pub take-append : (xs ys : List A) (n : ℕ) → take (length xs + n) (xs ++ ys) ≡ xs ++ take n ys
  take-append [] ys n = ap (λ k. take k ys) (let e : 0 + n ≡ n = omega arith in e)
  take-append (x ∷ xs) ys n =
      ap (λ k. take k (x ∷ (xs ++ ys)))
        (let e : suc (length xs) + n ≡ suc (length xs + n) = omega arith in e)
      ∙ ap (λ l. x ∷ l) (take-append xs ys n)

  pub length-splice :
      (i : ℕ) (bs xs : List A) → i + length bs ≤ length xs → length (splice i bs xs) ≡ length xs
  length-splice i bs xs h = omega (
    arith,
    length-append (take i xs) (bs ++ drop (i + length bs) xs),
    length-append bs (drop (i + length bs) xs),
    length-take i xs,
    length-drop (i + length bs) xs,
  )

  -- Up to the end of what was written.
  pub take-splice :
      (i : ℕ) (bs xs : List A)
      → i + length bs ≤ length xs
      → take (i + length bs) (splice i bs xs) ≡ take i xs ++ bs
  take-splice i bs xs h =
      ap (λ k. take k (splice i bs xs))
        (let e : i + length bs ≡ length (take i xs) + (length bs + 0) =
            omega (arith, length-take i xs) in
          e)
      ∙ take-append (take i xs) (bs ++ drop (i + length bs) xs) (length bs + 0)
      ∙ ap (λ l. take i xs ++ l) (take-append bs (drop (i + length bs) xs) 0 ∙ append-nil bs)

  -- Behind the end of what was written.
  pub drop-splice :
      (i j : ℕ) (bs xs : List A)
      → i + length bs ≤ length xs
      → i + length bs ≤ j
      → drop j (splice i bs xs) ≡ drop j xs
  drop-splice i j bs xs h le =
      let k : ℕ = j - (i + length bs) in
      ap (λ n. drop n (splice i bs xs))
        (let e : j ≡ length (take i xs) + (length bs + k) = omega (arith, length-take i xs) in e)
      ∙ drop-append (take i xs) (bs ++ drop (i + length bs) xs) (length bs + k)
      ∙ drop-append bs (drop (i + length bs) xs) k
      ∙ drop-drop k (i + length bs) xs
      ∙ ap (λ n. drop n xs) (let e : i + length bs + k ≡ j = omega arith in e)

  -- From `r`, at or before the place written.
  pub segment-splice :
      (r i : ℕ) (bs xs : List A)
      → i + length bs ≤ length xs
      → r ≤ i
      → take (i + length bs - r) (drop r (splice i bs xs)) ≡ take (i - r) (drop r xs) ++ bs
  segment-splice r i bs xs h le =
      take-drop (i + length bs) r (splice i bs xs)
      ∙ ap (drop r) (take-splice i bs xs h)
      ∙ drop_front (take i xs) bs r (omega (arith, length-take i xs))
      ∙ ap (λ l. l ++ bs) (sym (take-drop i r xs))
    where
      drop_front : (xs ys : List A) (r : ℕ) → r ≤ length xs → drop r (xs ++ ys) ≡ drop r xs ++ ys
      drop_front xs ys zero h = refl
      drop_front [] ys (suc r) h = absurd (omega arith)
      drop_front (x ∷ xs) ys (suc r) h = drop_front xs ys r (omega arith)
