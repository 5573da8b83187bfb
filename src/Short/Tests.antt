-- ===== src/Short/Tests.antt =====
-- Tests of Short.antt: two interrupts, whose times wrap around the end of their array.
use device_drivers_lab_proje.Prelude.{
  ℕ, ◌+◌, ◌*◌, ◌%◌, ◌≡◌, refl, arith, true, some, List, [], ◌∷◌, ◌++◌, replicate,
}
use device_drivers_lab_proje.Circular.{page_size}
use device_drivers_lab_proje.Short.{Short, short_do_tasklet, zero_time}
use device_drivers_lab_proje.Short.Drain.{InArrays, short_do_tasklet_done}

abbrev interrupted : Short
interrupted = record {
  buffer = replicate 4096 0;
  head = 4080;
  tail = 0;
  tv_head = 1;
  tv_tail = 511;
  wq_count = 2;
  queued = true;
  ports = [];
  texts = [];
}

interrupted-InArrays : InArrays interrupted
interrupted-InArrays = record {
  tv_head = omega arith;
  tv_tail = omega arith;
  head = omega arith;
  aligned = refl;
}

-- Any text of 16 bytes.
abbrev count_text : ℕ → List ℕ
count_text n = replicate 16 n

short_do_tasklet_done_example :
    (s' : Short) × (short_do_tasklet 512 count_text interrupted ≡ some s')
    × (s'.tv_tail ≡ 1)
    × (s'.head ≡ (4080 + 16 * 3) % page_size)
    × (s'.texts ≡ [] ++ (count_text 2 ∷ replicate 2 zero_time))
short_do_tasklet_done_example =
    short_do_tasklet_done count_text interrupted interrupted-InArrays refl
