-- ===== src/Scull/Pipe/Tests.antt =====
-- Runs of the pipe (scull/pipe.c), and the theorems about it at concrete inputs.
use device_drivers_lab_proje.Prelude.{
  ◌≡◌, ◌≤◌, refl, arith, true, false, some, none, [], ◌∷◌, ◌++◌, length, take,
}
use device_drivers_lab_proje.Prelude.Int.{efault, pos}
use device_drivers_lab_proje.Scull.Pipe.{
  ScullPipe, Mode, woken, is_empty, is_full, scull_p_read, scull_p_write, read_section,
  write_section, write_count,
}
use device_drivers_lab_proje.Scull.Pipe.Contents.{IsValid, contents}
use device_drivers_lab_proje.Scull.Pipe.Laws.{read_section-contents, write_section-contents}
use device_drivers_lab_proje.Scull.Pipe.Laws.Fault.{write_section_fault-contents}
use device_drivers_lab_proje.Scull.Pipe.Laws.Wait.{CallEnds, scull_p_transfers}

abbrev both : Mode
both = record { reads = true; writes = true }

-- A buffer of five bytes that holds three, round the end.
abbrev wrapped : ScullPipe
wrapped = record {
  buffer = some (3 ∷ 0 ∷ 0 ∷ 1 ∷ 2 ∷ []);
  end = 5;
  buffersize = 5;
  rp = 3;
  wp = 1;
  nreaders = pos 1;
  nwriters = pos 1;
}

wrapped-IsValid : IsValid wrapped
wrapped-IsValid = record {
  sized = refl;
  ended = refl;
  reads_in = omega arith;
  writes_in = omega arith;
  small = omega arith;
}

abbrev closed : ScullPipe
closed = record {
  buffer = none;
  end = 0;
  buffersize = 0;
  rp = 0;
  wp = 0;
  nreaders = pos 0;
  nwriters = pos 0;
}

read_section-contents_example :
    let r = read_section 4 false wrapped in
    IsValid r.pipe
    × (r.status ≡ pos (length r.bytes))
    × (r.bytes ++ contents r.pipe ≡ 1 ∷ 2 ∷ 3 ∷ [])
    × (length r.bytes ≤ 4)
    × (1 ≤ length r.bytes)
read_section-contents_example =
    read_section-contents 4 wrapped wrapped-IsValid (λ e. absurd (omega arith))

write_section-contents_example :
    let n = write_count 2 wrapped in
    let r = write_section (8 ∷ 9 ∷ []) none wrapped in
    IsValid r.pipe
    × (r.status ≡ pos n)
    × (contents r.pipe ≡ (1 ∷ 2 ∷ 3 ∷ []) ++ take n (8 ∷ 9 ∷ []))
    × (length (contents r.pipe) ≤ 4)
    × (1 ≤ n)
write_section-contents_example =
    write_section-contents (8 ∷ 9 ∷ []) wrapped wrapped-IsValid (omega arith)

write_section_fault-contents_example :
    let r = write_section (8 ∷ 9 ∷ []) (some 1) wrapped in
    (r.status ≡ efault) × IsValid r.pipe × (contents r.pipe ≡ 1 ∷ 2 ∷ 3 ∷ [])
write_section_fault-contents_example =
    write_section_fault-contents (8 ∷ 9 ∷ []) 1 wrapped wrapped-IsValid

scull_p_transfers_example :
    CallEnds is_empty
      (read_section 4 false)
      false
      closed
      (woken wrapped ∷ [])
      (scull_p_read false false 4 false closed (woken wrapped ∷ []))
    × CallEnds is_full
        (write_section (8 ∷ []) none)
        false
        closed
        (woken wrapped ∷ [])
        (scull_p_write false false (8 ∷ []) none closed (woken wrapped ∷ []))
scull_p_transfers_example =
    scull_p_transfers false 4 (8 ∷ []) false none closed (woken wrapped ∷ [])
