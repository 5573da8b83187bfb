-- ===== src/MemExtended/Tests.antt =====
-- Runs of the extended memory driver (misc-modules/ddk_mem_extended.c), and the theorem about it at a
-- concrete input.
use device_drivers_lab_proje.Prelude.{◌≡◌, refl, false, [], ◌∷◌}
use device_drivers_lab_proje.Prelude.Int.{pos, negsuc}
use device_drivers_lab_proje.Machine.{Machine, nothing}
use device_drivers_lab_proje.Machine.Bench.{bench, fresh}
use device_drivers_lab_proje.Mem.{OpenFile}
use device_drivers_lab_proje.Mem.Open.{no_ext}
use device_drivers_lab_proje.Mem.Read
use device_drivers_lab_proje.MemExtended.{
  ExtendedDevice, get_off, set_off, ddk_read, ddk_ioctl, wr_off_set, rd_off_get,
}
use device_drivers_lab_proje.MemExtended.Same.{plain, trimmed, ddk_read-trimmed}

abbrev machine : Machine
machine = bench (8 ∷ 9 ∷ []) (λ t. nothing)

abbrev device : ExtendedDevice
device = record {
  locked = false;
  open_cnt = pos 1;
  in_ep = 1;
  out_ep = 1;
  in_buf_size = 4;
  out_buf_size = 4;
  read_off = pos 3;
  write_off = pos 0;
}

abbrev file : OpenFile
file = record { in_buf = 0 ∷ 0 ∷ 0 ∷ 0 ∷ []; in_buf_left_over = 0; f_pos = 3 }

ddk_read-trimmed_example :
    ddk_read machine 2 file device fresh
    ≡ trimmed machine (Read.ddk_read machine 2 file (plain device (no_ext machine)) fresh)
ddk_read-trimmed_example = ddk_read-trimmed machine 2 file device (no_ext machine) fresh refl

-- The offset 200 is read as a negative `char`, and returned as if it were an error.
far_offset :
    (ddk_ioctl machine rd_off_get (pos 0) device (record fresh { size = 200 })).0 ≡ negsuc 55
unfolding ddk_ioctl get_off
far_offset = refl

abbrev set_to_7 : ExtendedDevice
set_to_7 = record device { write_off = pos 7 }

sets_offset : (ddk_ioctl machine wr_off_set (pos 7) device fresh).1 ≡ set_to_7
unfolding ddk_ioctl set_off
sets_offset = refl
