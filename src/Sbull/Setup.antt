-- ===== src/Sbull/Setup.antt =====
-- Setting a device up and taking it down (sbull/sbull.c, `setup_device` and `sbull_exit`): what is
-- allocated and freed.
use device_drivers_lab_proje.Prelude.{
  ℕ, zero, suc, ◌+◌, ◌*◌, ◌/◌, ◌^◌, ◌≤◌, ◌<◌, ◌≡◌, refl, sym, ◌∙◌, ap, arith, Bool, true, false,
  not, ◌&&◌, Option, none, some, List, if◌then◌else◌, ltb, length,
}
use device_drivers_lab_proje.Prelude.Int.{ℤ, pos, pos_part, to_int, to_int_small}
use device_drivers_lab_proje.Sbull.{Disk, sbull_transfer}
use device_drivers_lab_proje.Sbull.Transfer.{IsValid, moved, sbull_transfer_lem}

-- `request_mode`
pub data Mode : Type 0 where
  rm_simple rm_full rm_noqueue rm_bad : Mode

-- The request function that the queue gets.
pub data Handler : Type 0 where
  by_request by_full_request by_make_request : Handler

-- The pointers of a device, and what became of them: `data_freed` counts the calls of `vfree` for the
-- data. `capacity` is in sectors, none before `set_capacity`.
pub record Setup : Type 0 where
  pub size : ℤ
  pub has_data : Bool
  pub data_freed : ℕ
  pub timer_ready : Bool
  pub queue : Option Handler
  pub has_disk : Bool
  pub capacity : Option ℤ

unfoldable pub handler_of : Mode → Handler
handler_of rm_noqueue = by_make_request
handler_of rm_full = by_full_request
handler_of rm_bad = by_request
handler_of rm_simple = by_request

-- `out_vfree`: the pointer stays.
unfoldable pub out_vfree : Setup → Setup
out_vfree s = if s.has_data then record s { data_freed = suc s.data_freed } else s

-- From `alloc_disk` on.
unfoldable pub setup_disk : ℕ → ℕ → Bool → Setup → Setup
unfolding out_vfree
setup_disk nsectors hardsect_size disk_ok s =
    if disk_ok
    then record s {
      has_disk = true;
      capacity = some (to_int (pos (nsectors * (hardsect_size / 512))));
    }
    else out_vfree s

-- By whether `vmalloc`, the queue's allocation and `alloc_disk` succeed.
unfoldable pub setup_device : ℕ → ℕ → Mode → Bool → Bool → Bool → Setup
unfolding handler_of out_vfree setup_disk
setup_device nsectors hardsect_size mode data_ok queue_ok disk_ok =
    let start : Setup = record {
      size = to_int (pos (nsectors * hardsect_size));
      has_data = data_ok;
      data_freed = 0;
      timer_ready = false;
      queue = none;
      has_disk = false;
      capacity = none;
    } in
    let timed : Setup = record start { timer_ready = true } in
    if not data_ok
    then start
    else if queue_ok
    then setup_disk nsectors hardsect_size disk_ok (record timed { queue = some (handler_of mode) })
    else out_vfree timed

-- The body of the loop of `sbull_exit`, for the data.
unfoldable pub sbull_exit : Setup → Setup
sbull_exit s = record s {
  has_disk = false;
  queue = none;
  data_freed = if s.has_data then suc s.data_freed else s.data_freed;
}

scaled : (n h k : ℕ) → k ≤ h → n * k ≤ n * h
scaled zero h k le = omega arith
scaled (suc n) h k le = omega (arith, scaled n h k le)

some_inj : {a b : ℤ} → some a ≡ some b → a ≡ b
some_inj e = cc

capacity_bound :
    (nsectors hardsect_size c : ℕ)
    → nsectors * hardsect_size < 2 ^ 31
    → to_int (pos (nsectors * (hardsect_size / 512))) ≡ pos c
    → c * 512 ≤ nsectors * hardsect_size
capacity_bound nsectors hardsect_size c h e =
    let k = hardsect_size / 512 in
    let scale = scaled nsectors hardsect_size (k * 512) (omega arith) in
    let less : nsectors * k < 2 ^ 31 = omega (arith, scale) in
    let same : nsectors * k ≡ c = ap pos_part (sym (to_int_small (nsectors * k) less) ∙ e) in
    omega (arith, scale, same)

-- A set up that fails behind the allocation of the data frees it and keeps the pointer, so that the
-- module's exit frees it again; one that succeeds frees it once.
setup_device-sbull_exit :
    (nsectors hardsect_size : ℕ) (mode : Mode) (queue_ok disk_ok : Bool)
    → (sbull_exit (setup_device nsectors hardsect_size mode true queue_ok disk_ok)).data_freed
      ≡ (if queue_ok && disk_ok then 1 else 2)
unfolding setup_device sbull_exit
setup_device-sbull_exit nsectors hardsect_size mode true true = refl
setup_device-sbull_exit nsectors hardsect_size mode true false = refl
setup_device-sbull_exit nsectors hardsect_size mode false disk_ok = refl

-- With a set up that succeeded, of a size that an int holds, a transfer within the capacity that the
-- block layer was told is within the disk: it always moves the bytes.
pub setup_device-sbull_transfer :
    (nsectors hardsect_size : ℕ) (mode : Mode) (c sector nsect : ℕ) (bytes buffer : List ℕ)
    (write : Bool)
    → nsectors * hardsect_size < 2 ^ 31
    → (setup_device nsectors hardsect_size mode true true true).capacity ≡ some (pos c)
    → length bytes ≡ nsectors * hardsect_size
    → sector + nsect ≤ c
    → nsect * 512 ≤ length buffer
    → let d : Disk = record {
      size = (setup_device nsectors hardsect_size mode true true true).size;
      bytes = bytes;
    } in
      sbull_transfer d sector nsect buffer write
      ≡ some (moved d (sector * 512) (nsect * 512) buffer write)
unfolding setup_device
setup_device-sbull_transfer nsectors hardsect_size mode c sector nsect bytes buffer write h cap len
      within b =
    let size = to_int_small (nsectors * hardsect_size) h in
    let d : Disk = record { size = to_int (pos (nsectors * hardsect_size)); bytes = bytes } in
    let valid : IsValid d = record {
      sized = size ∙ ap pos (sym len);
      small = omega (arith, len);
    } in
    let fits = capacity_bound nsectors hardsect_size c h (some_inj cap) in
    let inside : ltb (length bytes) ((sector + nsect) * 512) ≡ false = ground (arith, fits, len) in
    sbull_transfer_lem d sector nsect buffer write valid (omega (arith, fits, len)) b
    ∙ rw inside refl
