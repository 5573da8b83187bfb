-- ===== src/Scull/Pipe/Contents.antt =====
-- The bytes that a pipe holds (scull/pipe.c), and the queue that a valid pipe stands for.
use device_drivers_lab_proje.Prelude.{
  ℕ, ◌+◌, ◌-◌, ◌%◌, ◌^◌, ◌≡◌, ◌<◌, arith, List, ◌++◌, if◌then◌else◌, leb, length, take, drop,
  length-append, length-take, length-drop, Bool-cases, inl, inr, ap, ◌∙◌, sym,
}
use native.Mathlib.Nat.{mod-eq_of_lt, mod-eq-sub-mod}
use device_drivers_lab_proje.Prelude.Int.{pos}
use device_drivers_lab_proje.Scull.Pipe.{ScullPipe, bytes_of, spacefree}

-- The bytes of `b` from `r` round to `w`, the oldest first.
abbrev pub window : List ℕ → ℕ → ℕ → List ℕ
window b r w = if leb r w then take (w - r) (drop r b) else drop r b ++ take w b

abbrev pub contents : ScullPipe → List ℕ
contents p = window (bytes_of p.buffer) p.rp p.wp

pub record IsValid (p : ScullPipe) : Type 0 where
  pub sized : length (bytes_of p.buffer) ≡ p.buffersize
  pub ended : p.end ≡ p.buffersize
  pub reads_in : p.rp < p.buffersize
  pub writes_in : p.wp < p.buffersize
  pub small : p.buffersize < 2 ^ 31

-- The number of bytes held, without the bytes.
abbrev pub used : ScullPipe → ℕ
used p = if leb p.rp p.wp then p.wp - p.rp else p.buffersize - p.rp + p.wp

pub length-contents : (p : ScullPipe) → IsValid p → length (contents p) ≡ used p
length-contents p v = elim (Bool-cases (leb p.rp p.wp)) [
  | inl e ↦ rw e (
      omega (
        arith,
        length-take (p.wp - p.rp) (drop p.rp (bytes_of p.buffer)),
        length-drop p.rp (bytes_of p.buffer),
        v.sized,
        v.writes_in,
      ))
  | inr e ↦ rw e (
      omega (
        arith,
        length-append (drop p.rp (bytes_of p.buffer)) (take p.wp (bytes_of p.buffer)),
        length-take p.wp (bytes_of p.buffer),
        length-drop p.rp (bytes_of p.buffer),
        v.sized,
        v.writes_in,
      ))
]

-- Going round from the write to the read position.
gap_ahead : (n r w : ℕ) → r < w → w < n → (r + n - w) % n ≡ r + n - w
gap_ahead n r w lt le = mod-eq_of_lt (omega arith)

gap_behind : (n r w : ℕ) → w < r → r < n → (r + n - w) % n ≡ r - w
gap_behind n r w lt le =
    mod-eq-sub-mod {n = r + n - w} {m = n} (omega arith)
    ∙ ap (λ k. k % n) (let e : r + n - w - n ≡ r - w = omega arith in e)
    ∙ mod-eq_of_lt (omega arith)

-- One byte of the buffer stays free: what is held, the space and that byte make up its size.
pub spacefree-used : (p : ScullPipe) → IsValid p → spacefree p ≡ pos (p.buffersize - 1 - used p)
unfolding spacefree
spacefree-used p v =
    ground (arith, gap_ahead p.buffersize p.rp p.wp, gap_behind p.buffersize p.rp p.wp)

-- For a valid pipe, `spacefree` is what its size less one leaves beside the bytes that it holds.
pub spacefree-contents :
    (p : ScullPipe) → IsValid p → spacefree p ≡ pos (p.buffersize - 1 - length (contents p))
spacefree-contents p v =
    spacefree-used p v ∙ ap (λ n. pos (p.buffersize - 1 - n)) (sym (length-contents p v))
