-- ===== src/Shortprint/Queue.antt =====
-- The output of the printer driver as a queue (shortprint/shortprint.c, `shortp_write`, `shortp_do_work`).
use device_drivers_lab_proje.Prelude.{
  ℕ, ◌+◌, ◌-◌, ◌≡◌, ◌≢◌, ◌<◌, ◌≤◌, inl, inr, sym, ◌∙◌, ap, ap₂, arith, true, false, List, [], ◌∷◌,
  ◌++◌, leb, length, get_or, take, drop, splice, Bool-cases, length-take, length-drop,
  length-splice, drop-splice, take-splice, segment-splice, take_all, append_assoc, append-nil,
}
use device_drivers_lab_proje.Circular.{between, between-first}
use device_drivers_lab_proje.Shortprint.{
  page_size, Strobe, Shortp, shortp_incr_out_bp, shortp_out_space, shortp_do_write, move_in,
}

-- The bytes in the buffer, from the tail to the head.
abbrev pub queued : Shortp → List ℕ
queued s = between s.out_head s.out_tail s.out_buffer

-- The bytes put out.
abbrev pub printed : List Strobe → List ℕ
printed [] = []
printed (x ∷ xs) = x.data_byte ∷ printed xs

-- The buffer is a page, and both pointers are in it.
pub record IsRing (s : Shortp) : Type 0 where
  pub head : s.out_head < page_size
  pub tail : s.out_tail < page_size
  pub size : length s.out_buffer ≡ page_size

-- No more than the space: the bytes fit before the end of the page and before the tail.
pub move_in-IsRing :
    (s : Shortp) (n : ℕ) (bs : List ℕ)
    → IsRing s
    → n ≤ shortp_out_space s
    → n ≤ length bs
    → IsRing (move_in n bs s)
unfolding move_in shortp_out_space shortp_incr_out_bp
move_in-IsRing s n bs r le len =
    let fit : s.out_head + n ≤ page_size = ground (arith, r.head, r.tail) in
    record {
      head = ground (arith, r.head);
      tail = r.tail;
      size =
          length-splice s.out_head (take n bs) s.out_buffer
            (omega (arith, length-take n bs, r.size))
          ∙ r.size;
    }

-- The bytes moved in are at the end of the queue.
pub queued-move_in :
    (s : Shortp) (n : ℕ) (bs : List ℕ)
    → IsRing s
    → n ≤ shortp_out_space s
    → n ≤ length bs
    → queued (move_in n bs s) ≡ queued s ++ take n bs
unfolding move_in shortp_out_space shortp_incr_out_bp
queued-move_in s n bs r le len =
    let h = s.out_head in
    let t = s.out_tail in
    let buf = s.out_buffer in
    let new = splice h (take n bs) buf in
    let taken : length (take n bs) ≡ n = omega (arith, length-take n bs) in
    let fit : h + n ≤ page_size = ground (arith, r.head, r.tail) in
    let inside : h + length (take n bs) ≤ length buf = omega (arith, taken, r.size, fit) in
    elim (Bool-cases (leb t h)) [
      | inl straight ↦
          let segment = segment-splice t h (take n bs) buf inside (ground arith) in
          elim (Bool-cases (leb page_size (h + n))) [
            | inl wraps ↦
                let at_start : h + n - page_size ≡ 0 = ground (arith, fit) in
                let ahead : leb t 0 ≡ false = ground (arith, le, straight, wraps) in
                rw (straight, wraps)
                  (rw at_start (
                    rw ahead (
                      append-nil (drop t new)
                      ∙ sym (
                          take_all (h + length (take n bs) - t) (drop t new) (
                            omega (
                              arith,
                              length-drop t new,
                              length-splice h (take n bs) buf inside,
                              r.size,
                              taken,
                              fit,
                              (let full : page_size ≤ h + n = ground arith in full),
                            )))
                      ∙ segment)))
            | inr stays ↦
                let still : leb t (h + n) ≡ true = ground arith in
                rw (straight, stays)
                  (rw still (ap (λ m. take (h + m - t) (drop t new)) (sym taken) ∙ segment))
          ]
      | inr around ↦
          let stays : leb page_size (h + n) ≡ false = ground (arith, le, around, r.tail) in
          let still : leb t (h + n) ≡ false = ground (arith, le, around) in
          rw (around, stays)
            (rw still (
              ap₂ ◌++◌ (drop-splice h t (take n bs) buf inside (ground (arith, le, around, taken)))
                (ap (λ m. take (h + m) new) (sym taken) ∙ take-splice h (take n bs) buf inside)
              ∙ sym (append_assoc (drop t buf) (take h buf) (take n bs))))
    ]

-- The byte put out is the first of the queue.
pub queued-shortp_do_write :
    (s : Shortp) (cr : ℕ)
    → IsRing s
    → s.out_head ≢ s.out_tail
    → IsRing (shortp_do_write cr s)
      × (queued s ≡ get_or s.out_buffer s.out_tail 0 ∷ queued (shortp_do_write cr s))
unfolding shortp_do_write shortp_incr_out_bp
queued-shortp_do_write s cr r ne = (
  record { head = r.head; tail = ground (arith, r.tail); size = r.size },
  between-first s.out_head s.out_tail s.out_buffer r.head r.tail r.size ne,
)
