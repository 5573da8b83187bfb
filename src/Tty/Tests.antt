-- ===== src/Tty/Tests.antt =====
-- Runs of the terminal driver (tty/tiny_tty.c), and the theorems about it at concrete inputs.
use device_drivers_lab_proje.Prelude.{◌≡◌, refl, arith, true, none, some, [], ◌∷◌}
use device_drivers_lab_proje.Tty.{null, armed, Tiny, open_port, tiny_exit}
use device_drivers_lab_proje.Tty.Timed.{in_use, tiny_exit-IsTimed}

abbrev new : Tiny
new = record {
  open_count = 0;
  timer = null;
  msr = 40;
  mcr = 5;
  icount = record { rng = 0; dsr = 0; dcd = 0; cts = 0 };
}

abbrev opened : Tiny
opened = record new { open_count = 1; timer = armed 7 }

first_open : (open_port 7 true new).1 ≡ opened
unfolding open_port
first_open = refl

tiny_exit-IsTimed_example :
    tiny_exit 4 (some (record opened { open_count = 3 }) ∷ none ∷ []) ≡ some (none ∷ none ∷ [])
tiny_exit-IsTimed_example =
    tiny_exit-IsTimed 4 (some (record opened { open_count = 3 }) ∷ none ∷ [])
      ((in_use _ 2 7 refl refl, (refl, omega arith)), tt)
