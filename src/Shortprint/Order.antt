-- ===== src/Shortprint/Order.antt =====
-- The printer gets the bytes of the writers in order (shortprint/shortprint.c, `shortp_write` and
-- `shortp_do_work`).
use device_drivers_lab_proje.Prelude.{
  ℕ, ◌+◌, ◌-◌, ◌%◌, ◌≡◌, ◌≢◌, ◌≤◌, ◌⊎◌, inl, inr, refl, sym, ◌∙◌, ap, arith, false, some, List, [],
  ◌∷◌, ◌++◌, ◌==◌, min, length, get_or, take, drop, Bool-cases, length-drop, append_assoc,
  append-nil, take-add,
}
use device_drivers_lab_proje.Prelude.Int.{ℤ, pos, efault}
use device_drivers_lab_proje.Shortprint.{
  Strobe, Shortp, Turn, Reply, shortp_out_space, shortp_do_write, shortp_start_output, log_time,
  output_section, shortp_do_work, do_works, move_in, write_loop, shortp_write,
}
use device_drivers_lab_proje.Shortprint.Queue.{
  queued, printed, IsRing, move_in-IsRing, queued-move_in, queued-shortp_do_write,
}
use mathlib.Core.Path.{subst}

-- The bytes that were put out, then those that wait.
abbrev pub accepted : Shortp → List ℕ
accepted s = printed s.strobes ++ queued s

printed-append :
    (xs : List Strobe) (x : Strobe) → printed (xs ++ (x ∷ [])) ≡ printed xs ++ (x.data_byte ∷ [])
printed-append [] x = refl
printed-append (y ∷ xs) x = ap (λ l. y.data_byte ∷ l) (printed-append xs x)

strobed :
    (s : Shortp) (cr : ℕ)
    → printed (shortp_do_write cr s).strobes
      ≡ printed s.strobes ++ (get_or s.out_buffer s.out_tail 0 ∷ [])
unfolding shortp_do_write
strobed s cr = printed-append s.strobes (record {
  data_byte = get_or s.out_buffer s.out_tail 0;
  high = cr - cr % 2 + 1;
  low = cr - cr % 2;
})

do_write-accepted :
    (s : Shortp) (cr : ℕ)
    → IsRing s
    → s.out_head ≢ s.out_tail
    → accepted (shortp_do_write cr s) ≡ accepted s
do_write-accepted s cr r ne =
    let (ring, first) = queued-shortp_do_write s cr r ne in
    ap (λ l. l ++ queued (shortp_do_write cr s)) (strobed s cr)
    ∙ append_assoc (printed s.strobes) (get_or s.out_buffer s.out_tail 0 ∷ [])
        (queued (shortp_do_write cr s))
    ∙ ap (λ l. printed s.strobes ++ l) (sym first)

pub output_section-accepted :
    (s : Shortp) (cr : ℕ)
    → IsRing s
    → IsRing (output_section cr s) × (accepted (output_section cr s) ≡ accepted s)
unfolding output_section
output_section-accepted s cr r = elim (Bool-cases (s.out_head == s.out_tail)) [
  | inl e ↦ rw e (record { head = r.head; tail = r.tail; size = r.size }, refl)
  | inr e ↦
      let ne : s.out_head ≢ s.out_tail = ground arith in
      rw e ((queued-shortp_do_write s cr r ne).0, do_write-accepted s cr r ne)
]

pub shortp_do_work-accepted :
    (s : Shortp) (cr : ℕ)
    → IsRing s
    → IsRing (shortp_do_work cr s) × (accepted (shortp_do_work cr s) ≡ accepted s)
unfolding shortp_do_work log_time
shortp_do_work-accepted s cr r =
    let (ring, same) =
      output_section-accepted (record s { work = false }) cr
        (record { head = r.head; tail = r.tail; size = r.size }) in
    (record { head = ring.head; tail = ring.tail; size = ring.size }, same)

pub do_works-accepted :
    (crs : List ℕ) (s : Shortp)
    → IsRing s
    → IsRing (do_works crs s) × (accepted (do_works crs s) ≡ accepted s)
unfolding do_works
do_works-accepted [] s r = (r, refl)
do_works-accepted (cr ∷ crs) s r =
    let (ring, same) = shortp_do_work-accepted s cr r in
    let (ring', same') = do_works-accepted crs (shortp_do_work cr s) ring in (ring', same' ∙ same)

start_output-accepted :
    (s : Shortp)
    → IsRing s
    → IsRing (shortp_start_output s) × (accepted (shortp_start_output s) ≡ accepted s)
unfolding shortp_start_output
start_output-accepted s r = elim (Bool-cases s.output_active) [
  | inl e ↦ rw e (record { head = r.head; tail = r.tail; size = r.size }, refl)
  | inr e ↦ rw e (record { head = r.head; tail = r.tail; size = r.size }, refl)
]

-- A chunk of the writer's bytes, and the start of the output.
pub move_in-accepted :
    (s : Shortp) (n : ℕ) (bs : List ℕ)
    → IsRing s
    → n ≤ shortp_out_space s
    → n ≤ length bs
    → let s' = shortp_start_output (move_in n bs s) in
      IsRing s' × (accepted s' ≡ accepted s ++ take n bs)
unfolding move_in
move_in-accepted s n bs r le len =
    let (ring, same) = start_output-accepted (move_in n bs s) (move_in-IsRing s n bs r le len) in
    (
      ring,
      same
          ∙ ap (λ l. printed s.strobes ++ l) (queued-move_in s n bs r le len)
          ∙ sym (append_assoc (printed s.strobes) (queued s) (take n bs)),
    )

-- What a write of the bytes `bs` can come to, where `written` were moved in before: it has moved in some
-- more of them, and returns the number of all, or the error of a copy that faulted.
pub record Wrote (s : Shortp) (bs : List ℕ) (written : ℕ) (r : Reply) : Type 0 where
  pub taken : ℕ
  pub bound : taken ≤ length bs
  pub ring : IsRing r.dev
  pub order : accepted r.dev ≡ accepted s ++ take taken bs
  pub status : (r.status ≡ pos (written + taken)) ⊎ (r.status ≡ efault)

-- The writer stops, and moves in nothing.
stop-Wrote :
    (s s1 : Shortp) (bs : List ℕ) (written : ℕ) (r : Reply) (e : ℤ)
    → IsRing s1
    → accepted s1 ≡ accepted s
    → (e ≡ pos written) ⊎ (e ≡ efault)
    → some (record { status = e; dev = s1; bytes = [] }) ≡ some r
    → Wrote s bs written r
stop-Wrote s s1 bs written r e ring same says is_r =
    let stop : Reply = record { status = e; dev = s1; bytes = [] } in
    let is_stop : stop ≡ r = cc in
    subst (Wrote s bs written) is_stop (record {
      taken = 0;
      bound = omega arith;
      ring = ring;
      order = same ∙ sym (append-nil (accepted s));
      status = elim says [
        | inl x ↦ inl (x ∙ ap pos (let y : written ≡ written + 0 = omega arith in y))
        | inr x ↦ inr x
      ];
    })

-- The writer goes on after a chunk of `n` bytes.
chunk-Wrote :
    (s s1 : Shortp) (bs : List ℕ) (written n : ℕ) (r : Reply)
    → n ≤ length bs
    → accepted s1 ≡ accepted s ++ take n bs
    → Wrote s1 (drop n bs) (written + n) r
    → Wrote s bs written r
chunk-Wrote s s1 bs written n r le chunk w = record {
  taken = n + w.taken;
  bound = omega (arith, w.bound, length-drop n bs);
  ring = w.ring;
  order =
      w.order
      ∙ ap (λ l. l ++ take w.taken (drop n bs)) chunk
      ∙ append_assoc (accepted s) (take n bs) (take w.taken (drop n bs))
      ∙ ap (λ l. accepted s ++ l) (take-add n w.taken bs);
  status = elim w.status [
    | inl x ↦
        inl
          (x ∙ ap pos (let y : written + n + w.taken ≡ written + (n + w.taken) = omega arith in y))
    | inr x ↦ inr x
  ];
}

-- The writer waits, and the work item runs.
wait-Wrote :
    (s s1 : Shortp) (bs : List ℕ) (written : ℕ) (r : Reply)
    → accepted s1 ≡ accepted s
    → Wrote s1 bs written r
    → Wrote s bs written r
wait-Wrote s s1 bs written r same w = record {
  taken = w.taken;
  bound = w.bound;
  ring = w.ring;
  order = w.order ∙ ap (λ l. l ++ take w.taken bs) same;
  status = w.status;
}

write_loop-Wrote :
    (ts : List Turn) (bs : List ℕ) (written : ℕ) (s : Shortp) (r : Reply)
    → IsRing s
    → write_loop ts bs written s ≡ some r
    → Wrote s bs written r
unfolding write_loop
write_loop-Wrote ts [] written s r ring e =
    stop-Wrote s s [] written r (pos written) ring refl (inl refl) e
write_loop-Wrote [] (b ∷ bs) written s r ring e = absurd cc
write_loop-Wrote (t ∷ ts) (b ∷ bs) written s r ring e =
    let s1 = do_works t.runs s in
    let (ring1, same) = do_works-accepted t.runs s ring in
    elim (Bool-cases (shortp_out_space s1 == 0)) [
      | inl full ↦ elim (Bool-cases t.signal) [
        | inl sig ↦
            stop-Wrote s s1 (b ∷ bs) written r (pos written) ring1 same (inl refl)
              (sym (rw (full, sig) refl) ∙ e)
        | inr quiet ↦
            wait-Wrote s s1 (b ∷ bs) written r same
              (write_loop-Wrote ts (b ∷ bs) written s1 r ring1 (sym (rw (full, quiet) refl) ∙ e))
      ]
      | inr space ↦ elim (Bool-cases t.fault) [
        | inl bad ↦
            stop-Wrote s s1 (b ∷ bs) written r efault ring1 same (inr refl)
              (sym (rw (space, bad) refl) ∙ e)
        | inr fine ↦
            let n = min (shortp_out_space s1) (length (b ∷ bs)) in
            let (ring2, chunk) = move_in-accepted s1 n (b ∷ bs) ring1 (omega arith) (omega arith) in
            let s2 = shortp_start_output (move_in n (b ∷ bs) s1) in
            chunk-Wrote s s2 (b ∷ bs) written n r (omega arith)
              (chunk ∙ ap (λ l. l ++ take n (b ∷ bs)) same)
              (write_loop-Wrote ts (drop n (b ∷ bs)) (written + n) s2 r ring2
                (sym (rw (space, fine) refl) ∙ e))
      ]
    ]

-- A write that returns has moved in its first bytes, in order.
pub shortp_write-Wrote :
    (ts : List Turn) (bs : List ℕ) (s : Shortp) (r : Reply)
    → IsRing s
    → shortp_write false ts bs s ≡ some r
    → Wrote s bs 0 r
unfolding shortp_write
shortp_write-Wrote ts bs s r ring e = write_loop-Wrote ts bs 0 s r ring e
