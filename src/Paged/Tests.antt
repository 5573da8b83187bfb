-- ===== src/Paged/Tests.antt =====
-- Tests of Paged.antt and its modules: a device with quanta of 4 bytes and arrays of 2 slots.
use device_drivers_lab_proje.Prelude.{
  ℕ, ◌≡◌, ◌⊎◌, refl, arith, Bool, true, false, none, some, List, [], ◌∷◌,
}
use device_drivers_lab_proje.Prelude.Int.{pos}
use device_drivers_lab_proje.Paged.{
  done, crash, null_item, Kind, PagedDev, Globals, Reply, paged_open, paged_trim, paged_follow,
  paged_read, write_block, new_block, write_slot, write_item, paged_write,
}
use device_drivers_lab_proje.Paged.Laid.{Laid}
use device_drivers_lab_proje.Paged.Write.{Written}
use device_drivers_lab_proje.Paged.Write.Steps.{paged_write-Written}
use device_drivers_lab_proje.Paged.Read.{paged_read-paged_write}
use device_drivers_lab_proje.Paged.Module.{set_up}
use device_drivers_lab_proje.Paged.Run.{State, opens, writes, run}
use device_drivers_lab_proje.Paged.Run.Safe.{
  Fitting, Sound, loaded, Reach-run, emptied-Laid, remapped-Laid,
}
use device_drivers_lab_proje.Paged.Run.Mapped.{Remains, run_mapped}

abbrev bytes : Kind
bytes = record { quantum_bytes = λ u. u; block_bytes = λ u. 4; clear_bytes = λ u g. g }

abbrev globals : Globals
globals = record { unit = pos 4; qset = pos 2 }

bytes-Fitting : Fitting bytes 4
bytes-Fitting = record {
  quantum_pos = omega arith;
  own = refl;
  made = refl;
  own_cleared = omega arith;
  made_cleared = omega arith;
}

globals-Sound : Sound bytes 4 globals
globals-Sound = record { unit = refl; qset_pos = omega arith; bounded = omega arith }

set_up-Laid : Laid bytes globals (set_up globals)
set_up-Laid = emptied-Laid bytes 4 globals (pos 0) bytes-Fitting globals-Sound

abbrev memory_is : ℕ → ℕ
memory_is i = 7

-- Three bytes in the second slot of the third item.
abbrev text : List ℕ
text = 1 ∷ 2 ∷ 3 ∷ []

abbrev memory_left : List Bool
memory_left = true ∷ true ∷ true ∷ true ∷ []

abbrev new_sets : PagedDev
new_sets = record (set_up globals) {
  next =
      record { quanta = none; unit = 0 }
      ∷ record { quanta = some (none ∷ some (0 ∷ 1 ∷ 2 ∷ 3 ∷ []) ∷ []); unit = 0 }
      ∷ [];
  size = 24;
}

abbrev written : Reply
written = record { status = pos 3; dev = new_sets; f_pos = 24; bytes = [] }

writes_text :
    paged_write bytes globals false none memory_left memory_is (set_up globals) text 21
    ≡ done written
unfolding paged_write paged_follow write_item write_slot new_block write_block
writes_text = refl

paged_write-Written_example :
    let o = paged_write bytes globals false none memory_left memory_is (set_up globals) text 21 in
    (o ≡ crash null_item) ⊎ Written bytes globals memory_is (set_up globals) text 21 o
paged_write-Written_example =
    paged_write-Written bytes globals none memory_left memory_is (set_up globals) text 21
      set_up-Laid

paged_read-paged_write_example :
    paged_read bytes false false [] new_sets 2 21
    ≡ done (record { status = pos 2; dev = new_sets; f_pos = 23; bytes = 1 ∷ 2 ∷ [] })
paged_read-paged_write_example =
    paged_read-paged_write bytes globals none memory_left [] memory_is (set_up globals) text 21 2
      set_up-Laid writes_text refl (omega arith)

Reach-run_example :
    let s : State = record { globals = globals; dev = set_up globals } in
    let op = writes false none memory_left memory_is text 21 in
    (run bytes op s ≡ crash null_item) ⊎ ((s' : State) × (run bytes op s ≡ done s'))
Reach-run_example =
    Reach-run bytes 4 (record { globals = globals; dev = set_up globals })
      (writes false none memory_left memory_is text 21) bytes-Fitting (loaded globals globals-Sound)

abbrev mapped_state : State
mapped_state = record { globals = globals; dev = record (set_up globals) { vmas = pos 1 } }

open_mapped : run bytes (opens true false) mapped_state ≡ done mapped_state
unfolding run paged_open paged_trim
open_mapped = refl

run_mapped_example : Remains bytes (opens true false) mapped_state.dev mapped_state.dev
run_mapped_example =
    run_mapped bytes mapped_state mapped_state (opens true false) 0
      (remapped-Laid bytes globals (set_up globals) (pos 1) set_up-Laid) refl (λ e. cc) open_mapped
