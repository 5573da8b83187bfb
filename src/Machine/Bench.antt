-- ===== src/Machine/Bench.antt =====
-- A machine that meets all the laws: the tests run the drivers on it. Its board takes and gives at
-- most `packet` bytes at a time, and fails every transfer while `broken` holds.
use device_drivers_lab_proje.Prelude.{
  ℕ, refl, Bool, true, false, Option, none, some, List, [], ◌∷◌, ◌++◌, take, drop, length,
  length-take, if◌then◌else◌, arith, take_all,
}
use device_drivers_lab_proje.Prelude.Int.{ℤ, pos, negsuc}
use device_drivers_lab_proje.Machine.{
  Machine, Scan, TimerLaws, WorkLaws, ControlLaws, OutLaws, InLaws,
}

pub record BenchWorld : Type 0 where
  pub now : ℕ
  pub expiry : Option ℕ
  pub queued : Bool
  pub log : List (ℕ × ℤ)
  pub out : List ℕ
  pub user : List ℕ
  pub memory : List ℕ
  pub size : ℕ
  pub broken : Bool

abbrev pub fresh : BenchWorld
fresh = record {
  now = 50;
  expiry = none;
  queued = false;
  log = [];
  out = [];
  user = [];
  memory = 1 ∷ 2 ∷ 3 ∷ 4 ∷ 5 ∷ [];
  size = 16;
  broken = false;
}

abbrev pub status : BenchWorld → ℤ
status w = if w.broken then negsuc 4 else pos 0

-- `source` is the buffer of the process that writes, `scan` what `sscanf` makes of a text.
abbrev pub bench : List ℕ → (List ℕ → Scan) → Machine
bench source scan = record {
  World = BenchWorld;
  jiffies = λ w. w.now;
  msecs_to_jiffies = λ n. n;
  mod_timer = λ e w. record w { expiry = some e };
  timer_delete = λ w. record w { expiry = none };
  timer_expire = λ w. record w { expiry = none };
  schedule_work = λ w. record w { queued = true };
  cancel_work = λ w. record w { queued = false };
  work_start = λ w. record w { queued = false };
  msleep = λ d w. w;
  proc_create = λ w. (true, w);
  remove_proc_entry = λ w. w;
  sscanf = scan;
  control_in = λ r w. (status w, pos w.size, w);
  control_out = λ r v w. (status w, record w { log = w.log ++ ((r, v) ∷ []) });
  interrupt_out = λ e bs w. (status w, length bs, record w { out = w.out ++ bs });
  interrupt_in = λ e n w. (status w, take n w.memory, w);
  copy_from_user = λ i n w. some (take n (drop i source));
  copy_to_user = λ bs w. some (record w { user = w.user ++ bs });
  timer_expiry = λ w. w.expiry;
  work_queued = λ w. w.queued;
  control_log = λ w. w.log;
  bytes_out = λ w. w.out;
  bytes_user = λ w. w.user;
}

module _ (source : List ℕ) (scan : List ℕ → Scan) where
  pub bench-TimerLaws : TimerLaws (bench source scan)
  bench-TimerLaws = record {
    armed = λ e w. refl;
    deleted = λ w. refl;
    expired = λ w. refl;
    mod_timer-queued = λ e w. refl;
    delete-queued = λ w. refl;
    expire-queued = λ w. refl;
  }

  pub bench-WorkLaws : WorkLaws (bench source scan)
  bench-WorkLaws = record {
    scheduled = λ w. refl;
    cancelled = λ w. refl;
    started = λ w. refl;
    schedule-expiry = λ w. refl;
    cancel-expiry = λ w. refl;
    msleep-queued = λ d w. refl;
    control-queued = λ r v w. refl;
  }

  pub bench-ControlLaws : ControlLaws (bench source scan)
  bench-ControlLaws = record { logged = λ r v w. refl; msleep-log = λ d w. refl }

  pub bench-OutLaws : OutLaws (bench source scan) source
  bench-OutLaws = record {
    read_user = λ i n w {bs} h. cc;
    sent = λ e bs w h. rw (take_all (length bs) bs (omega arith));
    no_more = λ e bs w h. omega arith;
    progress = λ e bs w h p. p;
    failed = λ e bs w h. ground (arith, h);
    control-bytes = λ r v w. refl;
    msleep-bytes = λ d w. refl;
    mod_timer-bytes = λ e w. refl;
    schedule-bytes = λ w. refl;
  }

  pub bench-InLaws : InLaws (bench source scan)
  bench-InLaws = record {
    written = λ bs w {v} h. ground arith;
    received = λ e n w h. omega (arith, length-take n w.memory);
    in-user = λ e n w. refl;
    control-user = λ r v w. refl;
  }
