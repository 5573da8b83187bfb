-- ===== src/Scullv.antt =====
-- The memory device whose blocks are virtually contiguous (scullv/main.c, scullv/mmap.c).
mod Tests
use device_drivers_lab_proje.Prelude.{
  ℕ, zero, suc, ◌+◌, ◌-◌, ◌*◌, ◌/◌, ◌%◌, ◌^◌, ◌≡◌, ◌<◌, ◌≤◌, ◌⊎◌, inl, inr, refl, sym, ◌∙◌, ap,
  arith, Bool, true, false, Option, none, some, List, [], ◌∷◌, ◌++◌, replicate, take, min, length,
}
use device_drivers_lab_proje.Prelude.Int.{ℤ, pos, pos_part, negsuc}
use device_drivers_lab_proje.Paged.{
  Outcome, done, crash, overrun, Kind, Item, PagedDev, Globals, Reply, item_at, block_at,
  quantum_of, itemsize, item_of, s_pos_of, q_pos_of, fits, paged_open, paged_trim, paged_follow,
  paged_read, paged_write, paged_llseek,
}
use device_drivers_lab_proje.Paged.Ioctl.{Ask, Command, Answer, paged_ioctl}
use device_drivers_lab_proje.Paged.Mmap.{
  page_size, vma_open, vma_close, vma_fault, ordered_mmap, Fault, sigbus,
}
use device_drivers_lab_proje.Paged.Aio.{
  AsyncWork, Deferred, Transfer, ReadSegment, WriteSegment, reading, writing, readings, writings,
  sculld_defer_op, int_defer_op, long_defer_op, do_deferred_op,
}
use device_drivers_lab_proje.Paged.Module.{
  Registered, Held, set_up, set_up_devices, plain_init, cached_init, paged_cleanup,
}
use device_drivers_lab_proje.Paged.Laid.{Laid}
use device_drivers_lab_proje.Paged.Overrun.{paged_write_overruns, paged_write_clears_beyond}
use device_drivers_lab_proje.Paged.Pages.{block_pos, vma_fault-paged_read, Filled, Laid-Filled}
use mathlib.Core.Path.{subst}

-- `PAGE_SIZE << order`, which `vmalloc` gives and `memset` clears, each by the order of its item.
abbrev scullv_kind : Kind
scullv_kind = record {
  quantum_bytes = λ order. page_size * 2 ^ order;
  block_bytes = λ order. page_size * 2 ^ order;
  clear_bytes = λ order globals_order. page_size * 2 ^ order;
}

-- `SCULLV_ORDER` and `SCULLV_QSET`
abbrev scullv_defaults : Globals
scullv_defaults = record { unit = pos 4; qset = pos 500 }

abbrev scullv_open : Globals → Bool → Bool → PagedDev → ℤ × PagedDev
scullv_open = paged_open

abbrev scullv_follow : ℕ → List Item → List Bool → Outcome (List Item × List Bool)
scullv_follow = paged_follow

abbrev scullv_read : Bool → Bool → List Bool → PagedDev → ℕ → ℕ → Outcome Reply
scullv_read = paged_read scullv_kind

abbrev scullv_write :
    Globals → Bool → Option ℕ → List Bool → (ℕ → ℕ) → PagedDev → List ℕ → ℕ → Outcome Reply
scullv_write = paged_write scullv_kind

abbrev scullv_ioctl : Ask → Command → ℤ → Globals → Answer
scullv_ioctl = paged_ioctl scullv_defaults

abbrev scullv_llseek : PagedDev → ℕ → ℤ → ℤ → ℤ × ℕ
scullv_llseek = paged_llseek

abbrev scullv_do_deferred_op : AsyncWork → ℕ × ℤ
scullv_do_deferred_op = do_deferred_op

abbrev scullv_defer_op : Bool → Bool → ℕ → List Transfer → PagedDev → ℕ → Outcome Deferred
scullv_defer_op = int_defer_op

abbrev scullv_aio_read : Bool → Bool → ℕ → List ReadSegment → PagedDev → ℕ → Outcome Deferred
scullv_aio_read is_sync alloc iocb xs = scullv_defer_op is_sync alloc iocb (readings scullv_kind xs)

abbrev scullv_aio_write :
    Globals → Bool → Bool → ℕ → List WriteSegment → PagedDev → ℕ → Outcome Deferred
scullv_aio_write g is_sync alloc iocb xs =
    scullv_defer_op is_sync alloc iocb (writings scullv_kind g xs)

abbrev scullv_trim : Globals → PagedDev → ℤ × PagedDev
scullv_trim = paged_trim

abbrev scullv_setup_cdev : Globals → Bool → ℕ → List Bool → List Registered
scullv_setup_cdev = set_up_devices

abbrev scullv_init : Globals → ℕ → ℤ → Bool → List Bool → ℤ × Held
scullv_init = plain_init

abbrev scullv_cleanup : Globals → Held → List (ℤ × PagedDev) × Held
scullv_cleanup = paged_cleanup

abbrev scullv_vma_open : PagedDev → PagedDev
scullv_vma_open = vma_open

abbrev scullv_vma_close : PagedDev → PagedDev
scullv_vma_close = vma_close

abbrev scullv_vma_nopage : PagedDev → ℕ → Fault
scullv_vma_nopage = vma_fault

abbrev scullv_mmap : PagedDev → ℤ × PagedDev
scullv_mmap dev = (pos 0, vma_open dev)

-- A device of any order, such as scullv's 4 by default, whose blocks have the bytes of a quantum and whose
-- items have those of an int, can be mapped. The page that the handler gives for an offset below 2 ^ 43, if any, is the head of the block with the page's number: a read finds its bytes not
-- at the page's position but at the page's number times the bytes of a quantum.
scullv_mmap-scullv_read :
    (d : PagedDev) (o : ℕ)
    → Filled scullv_kind d
    → o < d.size
    → o < 2 ^ 43
    → let p = o / page_size * (page_size * 2 ^ d.unit) in
      ((scullv_mmap d).0 ≡ pos 0)
      × ((scullv_vma_nopage d o ≡ record { ret = sigbus; page = none })
          ⊎ ((page : List ℕ) × (scullv_vma_nopage d o ≡ record { ret = 0; page = some page })
              × ((a : List Bool) (c : ℕ)
                  → c ≤ page_size
                  → p + c ≤ d.size
                  → scullv_read false false a d c p
                    ≡ done
                        (record { status = pos c; dev = d; f_pos = p + c; bytes = take c page }))))
scullv_mmap-scullv_read d o l lt small = (
  refl,
  elim (vma_fault-paged_read scullv_kind d o l (whole d.unit) lt small) [
    | inl (e, empty) ↦ inl e
    | inr found ↦ inr found
  ],
)
  where
    whole : (u : ℕ) → page_size ≤ page_size * 2 ^ u
    whole zero = omega arith
    whole (suc u) = let more = whole u in grind arith
