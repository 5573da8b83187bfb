-- ===== src/Mem/Read/Shift.antt =====
-- The loop of `ddk_read` that moves what the caller did not take to the front of `in_buf`
-- (misc-modules/ddk_mem.c).
use device_drivers_lab_proje.Prelude.{
  ℕ, zero, suc, ◌+◌, ◌-◌, ◌≡◌, ◌<◌, ◌≤◌, refl, sym, ◌∙◌, ap, ap₂, List, [], ◌∷◌, ◌++◌, append_assoc,
  append-nil, length, take, drop, set, get_or, length-set, arith,
}
use device_drivers_lab_proje.Mem.Read.{shift_loop}

take-suc-set :
    (xs : List ℕ) (j v : ℕ) → j < length xs → take (suc j) (set xs j v) ≡ take j xs ++ (v ∷ [])
take-suc-set [] j v h = absurd (omega arith)
take-suc-set (x ∷ xs) zero v h = refl
take-suc-set (x ∷ xs) (suc j) v h = ap (λ l. x ∷ l) (take-suc-set xs j v (omega arith))

drop-set : (xs : List ℕ) (i j v : ℕ) → j < i → drop i (set xs j v) ≡ drop i xs
drop-set [] i j v h = refl
drop-set (x ∷ xs) zero j v h = absurd (omega arith)
drop-set (x ∷ xs) (suc i) zero v h = refl
drop-set (x ∷ xs) (suc i) (suc j) v h = drop-set xs i j v (omega arith)

take-suc-drop :
    (xs : List ℕ) (i k : ℕ)
    → i < length xs
    → take (suc k) (drop i xs) ≡ get_or xs i 0 ∷ take k (drop (suc i) xs)
take-suc-drop [] i k h = absurd (omega arith)
take-suc-drop (x ∷ xs) zero k h = refl
take-suc-drop (x ∷ xs) (suc i) k h = take-suc-drop xs i k (omega arith)

pub length-shift_loop : (cnt i k : ℕ) (buf : List ℕ) → length (shift_loop cnt i k buf) ≡ length buf
unfolding shift_loop
length-shift_loop cnt i zero buf = refl
length-shift_loop cnt i (suc k) buf =
    length-shift_loop cnt (i + 1) k (set buf (i - cnt) (get_or buf i 0))
    ∙ length-set buf (i - cnt) (get_or buf i 0)

-- With `j` bytes moved, the loop moves the `k` bytes from `i` on behind them.
shift_loop-from :
    (cnt i j k : ℕ) (buf : List ℕ)
    → i ≡ cnt + j
    → i + k ≤ length buf
    → take (j + k) (shift_loop cnt i k buf) ≡ take j buf ++ take k (drop i buf)
unfolding shift_loop
shift_loop-from cnt i j zero buf e h =
    ap (λ n. take n buf) (omega arith) ∙ sym (append-nil (take j buf))
shift_loop-from cnt i j (suc k) buf e h =
    let v : ℕ = get_or buf i 0 in
    let at : i - cnt ≡ j = omega arith in
    let buf' : List ℕ = set buf j v in
    ap₂ (λ n p. take n (shift_loop cnt (i + 1) k (set buf p v)))
      (let q : j + suc k ≡ suc j + k = omega arith in q) at
    ∙ shift_loop-from cnt (i + 1) (suc j) k buf' (omega arith) (omega (arith, length-set buf j v))
    ∙ ap₂ ◌++◌ (take-suc-set buf j v (omega arith)) (
        ap (take k) (
          drop-set buf (i + 1) j v (omega arith)
          ∙ ap (λ n. drop n buf) (let q : i + 1 ≡ suc i = omega arith in q)))
    ∙ append_assoc (take j buf) (v ∷ []) (take k (drop (suc i) buf))
    ∙ ap (λ l. take j buf ++ l) (sym (take-suc-drop buf i k (omega arith)))

-- The loop brings the `k` bytes behind the first `cnt` to the front.
pub shift_loop_lem :
    (cnt k : ℕ) (buf : List ℕ)
    → cnt + k ≤ length buf
    → take k (shift_loop cnt cnt k buf) ≡ take k (drop cnt buf)
shift_loop_lem cnt k buf h =
    ap (λ n. take n (shift_loop cnt cnt k buf)) (omega arith)
    ∙ shift_loop-from cnt cnt 0 k buf (omega arith) h
