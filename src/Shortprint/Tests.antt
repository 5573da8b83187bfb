-- ===== src/Shortprint/Tests.antt =====
-- Tests of Shortprint.antt: a buffer whose head and tail are near the end of the page.
use device_drivers_lab_proje.Prelude.{
  ◌⊎◌, none, some, false, ◌<◌, ℕ, suc, ◌≡◌, refl, arith, false, some, List, [], ◌∷◌, ◌++◌,
  replicate, length, length-replicate,
}
use device_drivers_lab_proje.Prelude.Int.{pos}
use device_drivers_lab_proje.Shortprint.{Shortp, Turn, Reply, shortp_write, do_works}
use device_drivers_lab_proje.Shortprint.Queue.{queued, printed, IsRing}
use device_drivers_lab_proje.Shortprint.Order.{accepted, Wrote}
use device_drivers_lab_proje.Shortprint.Progress.{working, shortp_write-do_works, shortp_write_lem}

abbrev idle : Shortp
idle = record {
  in_buffer = replicate 4096 0;
  in_head = 0;
  in_tail = 0;
  out_buffer = replicate 4096 0;
  out_head = 4094;
  out_tail = 4094;
  output_active = false;
  timer = false;
  work = false;
  strobes = [];
}

idle-IsRing : IsRing idle
idle-IsRing = record {
  head = omega arith;
  tail = omega arith;
  size = length-replicate {A = ℕ} 4096 0;
}

abbrev turns : List Turn
turns = replicate 3 (record { runs = 4 ∷ []; signal = false; fault = false })

abbrev text : List ℕ
text = 5 ∷ 6 ∷ 7 ∷ []

shortp_write-do_works_example :
    (r : Reply) × (shortp_write false turns text idle ≡ some r)
    × (r.status ≡ pos 3)
    × ((crs : List ℕ)
        → length crs ≡ suc (length (queued r.dev))
        → (printed (do_works crs r.dev).strobes ≡ accepted idle ++ text)
          × ((do_works crs r.dev).output_active ≡ false))
shortp_write-do_works_example = shortp_write-do_works turns text idle idle-IsRing refl (omega arith)

-- What the write above comes to.
abbrev finished : (r : Reply) × (shortp_write false turns text idle ≡ some r)
finished =
    let all = shortp_write-do_works turns text idle idle-IsRing refl (omega arith) in (all.0, all.1)

shortp_write_lem_example :
    ((r : Reply) × (shortp_write false turns text idle ≡ some r) × Wrote idle text 0 r)
    ⊎ ((shortp_write false turns text idle ≡ none)
        × ((working turns ≡ false) ⊎ (length turns < length text)))
shortp_write_lem_example = shortp_write_lem turns text idle idle-IsRing
