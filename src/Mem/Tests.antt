-- ===== src/Mem/Tests.antt =====
-- Runs of the memory driver (misc-modules/ddk_mem.c) on the test machine, and the theorems about it
-- at concrete inputs.
use device_drivers_lab_proje.Prelude.{ℕ, ◌+◌, ◌≡◌, arith, false, some, List, [], ◌∷◌, ◌++◌, length}
use device_drivers_lab_proje.Prelude.Int.{pos, negsuc}
use device_drivers_lab_proje.Machine.{Machine, nothing}
use device_drivers_lab_proje.Machine.Bench.{
  fresh, bench, bench-ControlLaws, bench-OutLaws, bench-InLaws,
}
use device_drivers_lab_proje.Ext.Samples.{quiet, idle}
use device_drivers_lab_proje.Mem.{Device, OpenFile, Outcome, get_size}
use device_drivers_lab_proje.Mem.Write.{ddk_write}
use device_drivers_lab_proje.Mem.Write.Laws.{Answer, ddk_write-Answer}
use device_drivers_lab_proje.Mem.Read.Laws.{IsValid, pending, read_on, read_on-conserves}
use device_drivers_lab_proje.Mem.Seek.{seek_end, ddk_llseek}
use device_drivers_lab_proje.Mem.Seek.Laws.{Seeks, ddk_llseek-Seeks}

abbrev text : List ℕ
text = 7 ∷ 8 ∷ 9 ∷ []

abbrev writer : Machine
writer = bench text (λ buf. nothing)

abbrev dev : Device
dev = record {
  locked = false;
  open_cnt = pos 0;
  in_ep = 1;
  out_ep = 1;
  in_buf_size = 4;
  out_buf_size = 2;
  ext = idle;
}

abbrev start : OpenFile
start = record { in_buf = 0 ∷ 0 ∷ 0 ∷ 0 ∷ []; in_buf_left_over = 0; f_pos = 0 }

-- Two bytes of the last packet are left over.
abbrev half_read : OpenFile
half_read = record { in_buf = 3 ∷ 4 ∷ 0 ∷ 0 ∷ []; in_buf_left_over = 2; f_pos = 2 }

ddk_write-Answer_example :
    (r : Outcome writer) × (ddk_write writer (length text + 1) (length text) start dev fresh
      ≡ some r)
    × Answer writer text (bench-OutLaws text (λ buf. nothing)) start dev fresh r
ddk_write-Answer_example =
    ddk_write-Answer writer text (bench-OutLaws text (λ buf. nothing)) start dev fresh (omega arith)

read_on-conserves_example :
    let (f', w') = read_on quiet (1 ∷ 5 ∷ []) half_read dev fresh in
    IsValid f' × (w'.user ++ pending f' ≡ [] ++ (3 ∷ 4 ∷ []))
read_on-conserves_example =
    read_on-conserves quiet (bench-InLaws [] (λ buf. nothing)) (1 ∷ 5 ∷ []) half_read dev fresh
      (omega arith)

ddk_llseek-Seeks_example :
    Seeks quiet
      (get_size quiet fresh).0
      start
      (ddk_llseek quiet (negsuc 1) seek_end start dev fresh)
ddk_llseek-Seeks_example =
    ddk_llseek-Seeks quiet (negsuc 1) seek_end start dev fresh
      (bench-ControlLaws [] (λ buf. nothing))
