-- ===== src/Mem/Read/Laws.antt =====
-- What `ddk_read` delivers (misc-modules/ddk_mem.c): a packet is handed out from the front, over as
-- many calls as the caller's counts need.
use device_drivers_lab_proje.Prelude.{
  ℕ, ◌+◌, ◌-◌, ◌≡◌, ◌≢◌, ◌≤◌, refl, sym, ◌∙◌, ap, ap₂, ◌⊎◌, inl, inr, false, Option, none, some,
  List, [], ◌∷◌, ◌++◌, append_assoc, length, take, drop, min, length-take, length-append, take-drop,
  take-append-drop, take-take-min, if◌then◌else◌, drop_all, arith, Bool-cases, ltb, leb, ◌==◌,
}
use device_drivers_lab_proje.Prelude.Int.{pos, is_negative, efault, to_int}
use mathlib.Core.Path.{subst}
use device_drivers_lab_proje.Machine.{Machine, InLaws}
use device_drivers_lab_proje.Mem.{Device, OpenFile, Outcome, e_read, e_write, set_off}
use device_drivers_lab_proje.Mem.Read.{shift_loop, copied, deliver, fetch, ddk_read}
use device_drivers_lab_proje.Mem.Read.Shift.{shift_loop_lem, length-shift_loop}

-- The bytes of a packet that the caller has not taken yet.
abbrev pub pending : OpenFile → List ℕ
pending f = take f.in_buf_left_over f.in_buf

abbrev pub IsValid : OpenFile → Type 0
IsValid f = f.in_buf_left_over ≤ length f.in_buf

-- What `ddk_read` leaves of `n` bytes when the caller asks for `cnt`.
left_over-lem :
    (cnt n : ℕ) (buf : List ℕ)
    → n ≤ length buf
    → take (n - cnt) (shift_loop cnt cnt (n - cnt) buf) ≡ drop cnt (take n buf)
left_over-lem cnt n buf h = elim (Bool-cases (ltb cnt n)) [
  | inl more ↦ shift_loop_lem cnt (n - cnt) buf (ground arith) ∙ take-drop n cnt buf
  | inr done ↦
      let e : n - cnt ≡ 0 = ground arith in
      ap (λ k. take k (shift_loop cnt cnt (n - cnt) buf)) e
      ∙ sym (drop_all cnt (take n buf) (ground (arith, length-take n buf)))
]

ne→eqb : (n : ℕ) → n ≢ 0 → (n == 0) ≡ false
ne→eqb n h = ground arith

module _ (m : Machine) where
  open m use {World, bytes_user}

  -- What a read does to a packet's bytes `p`: the caller gets as many from the front as it asked
  -- for, and the rest stays; or there is a fault, and all of them stay.
  abbrev pub Takes : ℕ → List ℕ → OpenFile → Device → World → Outcome m → Type 0
  Takes cnt p f dev w r =
      IsValid r.file
      × (r.device ≡ dev)
      × (((r.status ≡ pos (min cnt (length p)))
            × (bytes_user r.world ≡ bytes_user w ++ take cnt p)
            × (pending r.file ≡ drop cnt p)
            × (r.file.f_pos ≡ f.f_pos + min cnt (length p)))
          ⊎ ((r.status ≡ efault) × (pending r.file ≡ p) × (r.file.f_pos ≡ f.f_pos) × (r.world ≡ w)))

  -- Reads one after another with the given counts, as long as bytes are left over.
  unfoldable pub read_on : List ℕ → OpenFile → Device → World → OpenFile × World
  read_on [] f dev w = (f, w)
  read_on (cnt ∷ cnts) f dev w =
      let r = ddk_read m cnt f dev w in
      let rest = read_on cnts r.file dev r.world in if f.in_buf_left_over == 0 then (f, w) else rest

module _ (m : Machine) (laws : InLaws m) where
  open m use {World, copy_to_user, bytes_user}

  deliver-Takes :
      (cnt n : ℕ) (f : OpenFile) (dev : Device) (w : World)
      → n ≤ length f.in_buf
      → Takes m cnt (take n f.in_buf) f dev w (deliver m cnt n f dev w)
  unfolding deliver
  deliver-Takes cnt n f dev w h = by_copy (copy_to_user (take read_cnt f.in_buf) w) refl
    where
      read_cnt : ℕ
      read_cnt = if leb n cnt then n else cnt

      lo : (if ltb cnt n then n - cnt else 0) ≡ n - cnt
      lo = ground arith

      count : read_cnt ≡ min cnt n
      count = ground arith

      size : min cnt n ≡ min cnt (length (take n f.in_buf))
      size = omega (arith, length-take n f.in_buf)

      taken : take read_cnt f.in_buf ≡ take cnt (take n f.in_buf)
      taken = ap (λ k. take k f.in_buf) count ∙ sym (take-take-min cnt n f.in_buf)

      by_copy :
          (o : Option World)
          → copy_to_user (take read_cnt f.in_buf) w ≡ o
          → Takes m cnt (take n f.in_buf) f dev w (copied m cnt n read_cnt f dev w o)
      by_copy none e = (h, refl, inr (refl, refl, refl, refl))
      by_copy (some v) e = (
        omega (arith, lo, length-shift_loop cnt cnt (n - cnt) f.in_buf),
        refl,
        inl (
          ap pos (count ∙ size),
          laws.written _ w e ∙ ap (λ l. bytes_user w ++ l) taken,
          ap (λ k. take k (shift_loop cnt cnt (n - cnt) f.in_buf)) lo
              ∙ left_over-lem cnt n f.in_buf h,
          ap (λ k. f.f_pos + k) (count ∙ size),
        ),
      )

  -- While bytes are left over, and lie in the file's buffer, a read takes them and nothing else: it asks the board for nothing.
  -- The caller gets as many as it asks for, from the front, and the rest stays for the next read;
  -- where copying to the caller faults, all of them stay and the position is unchanged.
  pub ddk_read_left_over :
      (cnt : ℕ) (f : OpenFile) (dev : Device) (w : World)
      → IsValid f
      → f.in_buf_left_over ≢ 0
      → Takes m cnt (pending f) f dev w (ddk_read m cnt f dev w)
  unfolding ddk_read
  ddk_read_left_over cnt f dev w v ne =
      rw (ne→eqb f.in_buf_left_over ne)
        (deliver-Takes cnt f.in_buf_left_over (record f { in_buf_left_over = 0 }) dev w v)

  take-packet : (p rest : List ℕ) → take (length p) (p ++ rest) ≡ p
  take-packet [] rest = refl
  take-packet (x ∷ p) rest = ap (λ l. x ∷ l) (take-packet p rest)

  -- A read with nothing left over, whose messages and transfer succeed, takes the packet that the
  -- transfer brought, as a read of left over bytes does; the read offset was set to the position
  -- before, and the write offset behind the packet after.
  ddk_read_packet :
      (cnt : ℕ) (f : OpenFile) (dev : Device) (w : World)
      → f.in_buf_left_over ≡ 0
      → let (r1, w1) = set_off m e_read (to_int (pos f.f_pos)) w in
        let (r2, packet, w2) = m.interrupt_in dev.in_ep dev.in_buf_size w1 in
        let (r3, w3) = set_off m e_write (to_int (pos (f.f_pos + length packet))) w2 in
        is_negative r1 ≡ false
        → r2 ≡ pos 0
        → is_negative r3 ≡ false
        → (bytes_user w3 ≡ bytes_user w) × Takes m cnt packet f dev w3 (ddk_read m cnt f dev w)
  unfolding ddk_read fetch set_off deliver
  ddk_read_packet cnt f dev w e0 e1 e2 e3 =
      let w1 = (set_off m e_read (to_int (pos f.f_pos)) w).1 in
      let (r2, packet, w2) = m.interrupt_in dev.in_ep dev.in_buf_size w1 in
      let w3 = (set_off m e_write (to_int (pos (f.f_pos + length packet))) w2).1 in
      let rest = drop (length packet) f.in_buf in
      let f' : OpenFile = record f { in_buf = packet ++ rest } in
      (
        laws.control-user _ _ w2
            ∙ laws.in-user dev.in_ep dev.in_buf_size w1
            ∙ laws.control-user _ _ w,
        rw (e0, e1, e2, e3)
            (subst (λ p. Takes m cnt p f dev w3 (deliver m cnt (length packet) f' dev w3))
              (take-packet packet rest)
              (deliver-Takes cnt (length packet) f' dev w3
                (omega (arith, length-append packet rest)))),
      )

  -- Whatever a read did to a packet, what the caller has and what is still pending make up what
  -- they made up before.
  Takes-conserves :
      (cnt : ℕ) (p : List ℕ) (f : OpenFile) (dev : Device) (w : World) (r : Outcome m)
      → Takes m cnt p f dev w r
      → bytes_user r.world ++ pending r.file ≡ bytes_user w ++ p
  Takes-conserves cnt p f dev w r (v, d, inl (s, b, q, o)) =
      ap₂ ◌++◌ b q
      ∙ append_assoc (bytes_user w) (take cnt p) (drop cnt p)
      ∙ ap (λ l. bytes_user w ++ l) (take-append-drop cnt p)
  Takes-conserves cnt p f dev w r (v, d, inr (s, q, o, e)) = ap₂ ◌++◌ (ap bytes_user e) q

  -- For a file whose left over bytes lie in its buffer, and a machine where the calls change the
  -- caller's bytes as documented: reading on with any counts, faults among them or not, loses no byte
  -- of a packet, brings none twice and keeps their order: what the caller has received, followed by what is pending, stays
  -- the same.
  pub read_on-conserves :
      (cnts : List ℕ) (f : OpenFile) (dev : Device) (w : World)
      → IsValid f
      → let (f', w') = read_on m cnts f dev w in
        IsValid f' × (bytes_user w' ++ pending f' ≡ bytes_user w ++ pending f)
  unfolding read_on
  read_on-conserves [] f dev w v = (v, refl)
  read_on-conserves (cnt ∷ cnts) f dev w v = elim (Bool-cases (f.in_buf_left_over == 0)) [
    | inl none_left ↦ rw none_left (v, refl)
    | inr some_left ↦ rw some_left (
        let t = ddk_read_left_over cnt f dev w v (ground arith) in
        let r = ddk_read m cnt f dev w in
        let (v', e) = read_on-conserves cnts r.file dev r.world t.0 in
        (v', e ∙ Takes-conserves cnt (pending f) f dev w r t))
  ]
