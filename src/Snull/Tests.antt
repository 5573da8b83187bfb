-- ===== src/Snull/Tests.antt =====
-- Runs of the network devices (snull/snull.c), and the theorems about them at concrete inputs.
use device_drivers_lab_proje.Prelude.{
  ℕ, ◌+◌, ◌-◌, ◌%◌, ◌≤◌, ◌≡◌, refl, arith, true, false, not, Option, none, some, List, [], ◌∷◌,
  ◌++◌, length, take, drop, min, replicate, leb, ◌&&◌,
}
use device_drivers_lab_proje.Prelude.Int.{pos}
use device_drivers_lab_proje.Snull.{sn0, sn1, Kernel, Net, priv, is_nil}
use device_drivers_lab_proje.Snull.Frame.{rewrite_frame, snull_header, snull_rebuild_header}
use device_drivers_lab_proje.Snull.Frame.Rewrite.{
  IsChecked, rewrite_frame-rewrite_frame, rewrite_frame-IsChecked,
}
use device_drivers_lab_proje.Snull.Frame.Header.{snull_open-snull_header}
use device_drivers_lab_proje.Snull.Setup.{snull_init, snull_setup_pool, snull_open}
use device_drivers_lab_proje.Snull.Transmit.{SkBuff, Modes, snull_tx, snull_tx_timeout}
use device_drivers_lab_proje.Snull.Transmit.Pair.{regular}
use device_drivers_lab_proje.Snull.Transmit.Delivered.{IsIdle, Delivered, snull_tx-Delivered}
use device_drivers_lab_proje.Snull.Frame.{padded, holds_header}
use device_drivers_lab_proje.Snull.Transmit.Faults.{is_some, snull_tx_lem}
use device_drivers_lab_proje.Snull.Poll.{snull_poll}
use device_drivers_lab_proje.Snull.Poll.Drain.{polls, IsQuiet, polls-IsQuiet}
use device_drivers_lab_proje.Snull.Poll.Order.{frames, snull_poll-frames}
use device_drivers_lab_proje.Snull.Kept.{Kept}
use device_drivers_lab_proje.Snull.Kept.Reach.{
  next, here, open_dev, timeout, pool_sizes, snull_init-Kept, Reach-Kept,
}

-- A kernel that always has memory, and takes all bytes of a header for its checksum.
abbrev summed : List ℕ → ℕ
summed [] = 0
summed (b ∷ bs) = b + summed bs

abbrev kernel : Kernel
kernel = record {
  World = ℕ;
  dev_alloc_skb = λ n w. (true, w + n);
  ip_fast_csum = λ h n. (summed h % 256, n);
  jiffies = λ w. w;
}

abbrev mem : List (Option (List ℕ))
mem = some (replicate 1500 0) ∷ some (replicate 1500 0) ∷ []

abbrev start : Net kernel
start = record {
  dev0 = snull_init sn0 2 mem;
  dev1 = snull_init sn1 2 mem;
  received = [];
  freed = [];
  world = 0;
}

start0-IsIdle : IsIdle sn0 start.dev0
unfolding snull_init snull_setup_pool
start0-IsIdle = record {
  no_rx = refl;
  no_tx = refl;
  empty = refl;
  enabled = refl;
  running = refl;
  packet = (
    record { dev = sn0; datalen = 0; content = replicate 1500 0 },
    record { dev = sn0; datalen = 0; content = replicate 1500 0 } ∷ [],
    refl,
    refl,
  );
}

start1-IsIdle : IsIdle sn1 start.dev1
unfolding snull_init snull_setup_pool
start1-IsIdle = record {
  no_rx = refl;
  no_tx = refl;
  empty = refl;
  enabled = refl;
  running = refl;
  packet = (
    record { dev = sn1; datalen = 0; content = replicate 1500 0 },
    record { dev = sn1; datalen = 0; content = replicate 1500 0 } ∷ [],
    refl,
    refl,
  );
}

abbrev hello : SkBuff
hello = record { id = 5; content = replicate 14 0 ++ (69 ∷ replicate 25 1) }

hello_whole : holds_header (padded hello.content) ≡ true
unfolding padded
hello_whole = refl

snull_tx-Delivered_example :
    (n' : Net kernel) × (snull_tx regular hello sn0 start ≡ some n') × Delivered sn0 hello start n'
snull_tx-Delivered_example =
    snull_tx-Delivered (λ size w. refl) sn0 hello start start0-IsIdle start1-IsIdle (omega arith)
      hello_whole

-- A frame whose checksum is right, as it was rewritten on its way.
abbrev checked : List ℕ
checked = rewrite_frame kernel.ip_fast_csum (replicate 14 0 ++ (69 ∷ replicate 25 1))

rewrite_frame-IsChecked_example : (length checked ≡ 40) × IsChecked kernel.ip_fast_csum checked
rewrite_frame-IsChecked_example =
    rewrite_frame-IsChecked kernel.ip_fast_csum (replicate 14 0 ++ (69 ∷ replicate 25 1))
      (omega arith)

rewrite_frame-rewrite_frame_example :
    rewrite_frame kernel.ip_fast_csum (rewrite_frame kernel.ip_fast_csum checked) ≡ checked
rewrite_frame-rewrite_frame_example =
    rewrite_frame-rewrite_frame kernel.ip_fast_csum checked checked_long checked_right
  where
    checked_long : 34 ≤ length checked
    checked_long = omega (
      arith,
      (rewrite_frame-IsChecked kernel.ip_fast_csum (replicate 14 0 ++ (69 ∷ replicate 25 1))
          (omega arith)).0,
    )

    checked_right : IsChecked kernel.ip_fast_csum checked
    checked_right =
        (rewrite_frame-IsChecked kernel.ip_fast_csum (replicate 14 0 ++ (69 ∷ replicate 25 1))
          (omega arith)).1

snull_tx_lem_example : is_some (snull_tx regular hello sn0 start) ≡ (
    holds_header (padded hello.content)
    && (not (is_nil (priv sn0 start).ppool) && leb (length hello.content) 1500))
snull_tx_lem_example = snull_tx_lem regular hello sn0 start

-- The first device's packets are all on their way.
abbrev drained : Net kernel
drained = record start {
  dev0 = record start.dev0 { ppool = []; stopped = true; skb = some 9 };
  dev1 = record start.dev1 {
    rx_queue = start.dev0.ppool;
    rx_int_enabled = false;
    rx_scheduled = true;
  };
}

abbrev napi : Modes
napi = record { use_napi = true; lockup = 0 }

polls-IsQuiet_example :
    ((polls sn1 ((pos 2, pos 1) ∷ (pos 2, pos 1) ∷ []) drained).0 ≡ false)
    × IsQuiet (priv sn1 (polls sn1 ((pos 2, pos 1) ∷ (pos 2, pos 1) ∷ []) drained).1)
unfolding snull_init snull_setup_pool
polls-IsQuiet_example =
    polls-IsQuiet sn1 ((pos 2, pos 1) ∷ (pos 2, pos 1) ∷ []) drained
      (refl, (refl, (refl, (refl, tt)))) (omega arith) (omega arith)

snull_poll-frames_example :
    let q = (priv sn1 drained).rx_queue in
    let p = snull_poll sn1 (pos 2) (pos 1) drained in
    (p.net.received ≡ drained.received ++ frames sn1 (take (min 2 1) q))
    × (((priv sn1 p.net).rx_queue ≡ drop (min 2 1) q)
        × ((p.more ≡ not (is_nil (drop (min 2 1) q)))
            × ((p.budget ≡ pos (1 - min (min 2 1) (length q)))
                × (p.quota ≡ pos (2 - min (min 2 1) (length q))))))
snull_poll-frames_example = snull_poll-frames (λ size w. refl) sn1 2 1 drained

Reach-Kept_example :
    Kept (pool_sizes start.dev0 start.dev1) none (snull_tx_timeout napi sn1 (snull_open sn0 start))
Reach-Kept_example =
    Reach-Kept {m = napi} (snull_init-Kept {k = kernel} 2 mem mem 0)
      (next (next here (open_dev sn0 start)) (timeout sn1 (snull_open sn0 start)))

snull_open-snull_header_example :
    let own = (priv sn1 (snull_open sn1 start)).dev_addr in
    let other = (priv sn0 (snull_open sn0 start)).dev_addr in
    let frame = snull_header own (7 ∷ []) 2048 none none in
    (frame ≡ other ++ (own ++ (8 ∷ 0 ∷ 7 ∷ []))) × (snull_rebuild_header own frame ≡ frame)
snull_open-snull_header_example = snull_open-snull_header sn1 start 2048 (7 ∷ [])
