-- ===== src/Short/Drain.antt =====
-- The bottom half of the interrupt driver ends (short/short.c, `short_do_tasklet`).
use device_drivers_lab_proje.Prelude.{
  ℕ, zero, suc, ◌+◌, ◌-◌, ◌*◌, ◌%◌, ◌≡◌, ◌<◌, ◌≤◌, refl, sym, ◌∙◌, ap, arith, true, false, some,
  List, [], ◌∷◌, ◌++◌, replicate, append_assoc, if◌then◌else◌, ltb, ◌==◌, length, Bool-cases, inl,
  inr,
}
use device_drivers_lab_proje.Circular.{page_size}
use device_drivers_lab_proje.Short.{
  Short, nr_timeval, short_incr_tv, short_incr_bp, put_text, put_time, time_loop, short_do_tasklet,
  zero_time,
}

-- How many rounds it is from the tail to the head of the times; where they meet, once around.
abbrev pub rounds : ℕ → ℕ → ℕ
rounds tail head = if ltb tail head then head - tail else nr_timeval - tail + head

-- The pointers are in their arrays, and the head of the buffer is at a record of 16 bytes.
pub record InArrays (s : Short) : Type 0 where
  pub tv_head : s.tv_head < nr_timeval
  pub tv_tail : s.tv_tail < nr_timeval
  pub head : s.head < page_size
  pub aligned : s.head % 16 ≡ 0

put_time-InArrays :
    (s : Short)
    → InArrays s
    → InArrays (put_time s) × ((put_time s).head ≡ (s.head + 16) % page_size)
unfolding put_time put_text short_incr_tv short_incr_bp
put_time-InArrays s v = (
  record {
    tv_head = v.tv_head;
    tv_tail = ground (arith, v.tv_tail);
    head = ground (arith, v.head);
    aligned = ground (arith, v.head, v.aligned);
  },
  ground (arith, v.head, v.aligned),
)

put_time-rounds :
    (s : Short)
    → InArrays s
    → ((put_time s).tv_tail == s.tv_head) ≡ false
    → rounds s.tv_tail s.tv_head ≡ suc (rounds (put_time s).tv_tail s.tv_head)
unfolding put_time put_text short_incr_tv
put_time-rounds s v h = ground (arith, v.tv_head, v.tv_tail)

put_time-last :
    (s : Short)
    → InArrays s
    → ((put_time s).tv_tail == s.tv_head) ≡ true
    → rounds s.tv_tail s.tv_head ≡ 1
unfolding put_time put_text short_incr_tv
put_time-last s v h = ground (arith, v.tv_head, v.tv_tail)

put_time-tv_head : (s : Short) → (put_time s).tv_head ≡ s.tv_head
unfolding put_time put_text
put_time-tv_head s = refl

put_time-texts : (s : Short) → (put_time s).texts ≡ s.texts ++ (zero_time ∷ [])
unfolding put_time put_text
put_time-texts s = refl

same_rounds :
    (s : Short)
    → rounds (put_time s).tv_tail (put_time s).tv_head ≡ rounds (put_time s).tv_tail s.tv_head
same_rounds s = ap (rounds (put_time s).tv_tail) (put_time-tv_head s)

next_head : (h n : ℕ) → ((h + 16) % page_size + 16 * n) % page_size ≡ (h + 16 * suc n) % page_size
next_head h n = omega arith

some_round : (t h : ℕ) → t < nr_timeval → rounds t h ≤ 0 → 1 ≤ 0
some_round t h b le = ground arith

-- The loop ends with the tail at the head, and has put one record of 16 bytes for each round.
time_loop_done :
    (fuel : ℕ) (s : Short)
    → InArrays s
    → rounds s.tv_tail s.tv_head ≤ fuel
    → (s' : Short) × (time_loop fuel s ≡ some s')
      × (s'.tv_tail ≡ s.tv_head)
      × (s'.tv_head ≡ s.tv_head)
      × (s'.head ≡ (s.head + 16 * rounds s.tv_tail s.tv_head) % page_size)
      × (s'.texts ≡ s.texts ++ replicate (rounds s.tv_tail s.tv_head) zero_time)
unfolding time_loop
time_loop_done zero s v le =
    absurd (let bad = some_round s.tv_tail s.tv_head v.tv_tail le in omega arith)
time_loop_done (suc fuel) s v le =
    let (in_arrays, head) = put_time-InArrays s v in
    elim (Bool-cases ((put_time s).tv_tail == s.tv_head)) [
      | inl e ↦
          let one = put_time-last s v e in
          (
            put_time s,
            rw e refl,
            ground arith,
            put_time-tv_head s,
            rw one head,
            put_time-texts s ∙ ap (λ n. s.texts ++ replicate n zero_time) (sym one),
          )
      | inr e ↦
          let more = put_time-rounds s v e in
          let (s', is, met, same, at, texts) =
            time_loop_done fuel (put_time s) in_arrays (omega (arith, more, same_rounds s)) in
          (
            s',
            rw e is,
            met ∙ put_time-tv_head s,
            same ∙ put_time-tv_head s,
            at
                ∙ ap (λ h. (h + 16 * rounds (put_time s).tv_tail (put_time s).tv_head) % page_size)
                    head
                ∙ ap (λ n. ((s.head + 16) % page_size + 16 * n) % page_size) (same_rounds s)
                ∙ next_head s.head (rounds (put_time s).tv_tail s.tv_head)
                ∙ ap (λ n. (s.head + 16 * n) % page_size) (sym more),
            texts
                ∙ ap
                    (λ l.
                      l ++ replicate (rounds (put_time s).tv_tail (put_time s).tv_head) zero_time)
                    (put_time-texts s)
                ∙ append_assoc s.texts (zero_time ∷ [])
                    (replicate (rounds (put_time s).tv_tail (put_time s).tv_head) zero_time)
                ∙ ap (λ n. s.texts ++ replicate (suc n) zero_time) (same_rounds s)
                ∙ ap (λ n. s.texts ++ replicate n zero_time) (sym more),
          )
    ]

-- The bottom half, with fuel for the array of times, from pointers that are in their arrays and a text of 16
-- bytes for its first record: it ends, and takes the times up to the head. It has put the first record, and
-- behind it one record of a time 0 for each round, of which there are as many as there were times, or 512
-- where there was none; the head is 16 bytes further for each record, around the page.
pub short_do_tasklet_done :
    (count_text : ℕ → List ℕ) (s : Short)
    → InArrays s
    → length (count_text s.wq_count) ≡ 16
    → (s' : Short) × (short_do_tasklet nr_timeval count_text s ≡ some s')
      × (s'.tv_tail ≡ s.tv_head)
      × (s'.head ≡ (s.head + 16 * suc (rounds s.tv_tail s.tv_head)) % page_size)
      × (s'.texts
          ≡ s.texts ++ (count_text s.wq_count ∷ replicate (rounds s.tv_tail s.tv_head) zero_time))
unfolding short_do_tasklet put_text short_incr_bp
short_do_tasklet_done count_text s v len =
    let s1 : Short = put_text (count_text s.wq_count) (record s { wq_count = 0; queued = false }) in
    let at : s1.head ≡ (s.head + 16) % page_size = ground (arith, v.head, v.aligned, len) in
    let ok : InArrays s1 = record {
      tv_head = v.tv_head;
      tv_tail = v.tv_tail;
      head = omega (arith, at);
      aligned = omega (arith, at, v.aligned);
    } in
    let bound : rounds s.tv_tail s.tv_head ≤ nr_timeval = ground (arith, v.tv_head) in
    let (s', is, met, same, head, texts) = time_loop_done nr_timeval s1 ok bound in
    (
      s',
      is,
      met,
      head
          ∙ ap (λ h. (h + 16 * rounds s.tv_tail s.tv_head) % page_size) at
          ∙ next_head s.head (rounds s.tv_tail s.tv_head),
      texts
          ∙ append_assoc s.texts (count_text s.wq_count ∷ [])
              (replicate (rounds s.tv_tail s.tv_head) zero_time),
    )
