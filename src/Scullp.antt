-- ===== src/Scullp.antt =====
-- The memory device whose blocks are groups of pages (scullp/main.c, scullp/mmap.c).
mod Tests
use device_drivers_lab_proje.Prelude.{
  ℕ, zero, suc, ◌+◌, ◌-◌, ◌*◌, ◌/◌, ◌%◌, ◌^◌, ◌≡◌, ◌<◌, ◌≤◌, ◌⊎◌, inl, inr, refl, sym, ◌∙◌, ap,
  arith, Bool, true, false, Option, none, some, List, [], ◌∷◌, ◌++◌, replicate, take, min, length,
}
use device_drivers_lab_proje.Prelude.Int.{ℤ, pos, pos_part, negsuc}
use device_drivers_lab_proje.Paged.{
  Outcome, done, crash, overrun, Kind, Item, PagedDev, Globals, Reply, item_at, block_at,
  quantum_of, itemsize, item_of, s_pos_of, q_pos_of, fits, paged_open, paged_trim, paged_follow,
  paged_read, paged_write, paged_llseek,
}
use device_drivers_lab_proje.Paged.Ioctl.{Ask, Command, Answer, paged_ioctl}
use device_drivers_lab_proje.Paged.Mmap.{
  page_size, vma_open, vma_close, vma_fault, ordered_mmap, Fault, sigbus,
}
use device_drivers_lab_proje.Paged.Aio.{
  AsyncWork, Deferred, Transfer, ReadSegment, WriteSegment, reading, writing, readings, writings,
  sculld_defer_op, int_defer_op, long_defer_op, do_deferred_op,
}
use device_drivers_lab_proje.Paged.Module.{
  Registered, Held, set_up, set_up_devices, plain_init, cached_init, paged_cleanup,
}
use device_drivers_lab_proje.Paged.Laid.{Laid}
use device_drivers_lab_proje.Paged.Overrun.{paged_write_overruns, paged_write_clears_beyond}
use device_drivers_lab_proje.Paged.Pages.{block_pos, vma_fault-paged_read, Filled, Laid-Filled}
use mathlib.Core.Path.{subst}

-- `PAGE_SIZE << order`, which `__get_free_pages` gives and `memset` clears, each by the order of its item.
abbrev scullp_kind : Kind
scullp_kind = record {
  quantum_bytes = λ order. page_size * 2 ^ order;
  block_bytes = λ order. page_size * 2 ^ order;
  clear_bytes = λ order globals_order. page_size * 2 ^ order;
}

-- `SCULLP_ORDER` and `SCULLP_QSET`
abbrev scullp_defaults : Globals
scullp_defaults = record { unit = pos 0; qset = pos 500 }

abbrev scullp_open : Globals → Bool → Bool → PagedDev → ℤ × PagedDev
scullp_open = paged_open

abbrev scullp_follow : ℕ → List Item → List Bool → Outcome (List Item × List Bool)
scullp_follow = paged_follow

abbrev scullp_read : Bool → Bool → List Bool → PagedDev → ℕ → ℕ → Outcome Reply
scullp_read = paged_read scullp_kind

abbrev scullp_write :
    Globals → Bool → Option ℕ → List Bool → (ℕ → ℕ) → PagedDev → List ℕ → ℕ → Outcome Reply
scullp_write = paged_write scullp_kind

abbrev scullp_ioctl : Ask → Command → ℤ → Globals → Answer
scullp_ioctl = paged_ioctl scullp_defaults

abbrev scullp_llseek : PagedDev → ℕ → ℤ → ℤ → ℤ × ℕ
scullp_llseek = paged_llseek

abbrev scullp_do_deferred_op : AsyncWork → ℕ × ℤ
scullp_do_deferred_op = do_deferred_op

abbrev scullp_defer_op : Bool → Bool → ℕ → List Transfer → PagedDev → ℕ → Outcome Deferred
scullp_defer_op = int_defer_op

abbrev scullp_aio_read : Bool → Bool → ℕ → List ReadSegment → PagedDev → ℕ → Outcome Deferred
scullp_aio_read is_sync alloc iocb xs = scullp_defer_op is_sync alloc iocb (readings scullp_kind xs)

abbrev scullp_aio_write :
    Globals → Bool → Bool → ℕ → List WriteSegment → PagedDev → ℕ → Outcome Deferred
scullp_aio_write g is_sync alloc iocb xs =
    scullp_defer_op is_sync alloc iocb (writings scullp_kind g xs)

abbrev scullp_trim : Globals → PagedDev → ℤ × PagedDev
scullp_trim = paged_trim

abbrev scullp_setup_cdev : Globals → Bool → ℕ → List Bool → List Registered
scullp_setup_cdev = set_up_devices

abbrev scullp_init : Globals → ℕ → ℤ → Bool → List Bool → ℤ × Held
scullp_init = plain_init

abbrev scullp_cleanup : Globals → Held → List (ℤ × PagedDev) × Held
scullp_cleanup = paged_cleanup

abbrev scullp_vma_open : PagedDev → PagedDev
scullp_vma_open = vma_open

abbrev scullp_vma_close : PagedDev → PagedDev
scullp_vma_close = vma_close

abbrev scullp_vma_nopage : PagedDev → ℕ → Fault
scullp_vma_nopage = vma_fault

abbrev scullp_mmap : PagedDev → ℤ × PagedDev
scullp_mmap = ordered_mmap

-- A device of the order 0 that is laid out. At an offset before its end and below 2 ^ 43, the fault handler
-- gives SIGBUS where the file has no block at the page's position, and else it gives a page: reads of up to
-- a page at that position that end before the end of the device deliver its first bytes.
scullp_vma_nopage-scullp_read :
    (g : Globals) (d : PagedDev) (o : ℕ)
    → Laid scullp_kind g d
    → d.unit ≡ 0
    → o < d.size
    → o < 2 ^ 43
    → ((scullp_vma_nopage d o ≡ record { ret = sigbus; page = none })
        × (block_at d
              (item_of scullp_kind d (o / page_size * page_size))
              (s_pos_of scullp_kind d (o / page_size * page_size))
            ≡ none))
      ⊎ ((page : List ℕ) × (scullp_vma_nopage d o ≡ record { ret = 0; page = some page })
          × ((a : List Bool) (c : ℕ)
              → c ≤ page_size
              → o / page_size * page_size + c ≤ d.size
              → scullp_read false false a d c (o / page_size * page_size)
                ≡ done (record {
                  status = pos c;
                  dev = d;
                  f_pos = o / page_size * page_size + c;
                  bytes = take c page;
                })))
scullp_vma_nopage-scullp_read g d o l u lt small =
    let quantum : quantum_of scullp_kind d ≡ page_size = ap scullp_kind.quantum_bytes u in
    let p : block_pos scullp_kind d o ≡ o / page_size * page_size =
      ap (λ q. o / page_size * q) quantum in
    elim (vma_fault-paged_read scullp_kind d o (Laid-Filled l) (omega (arith, quantum)) lt small) [
      | inl (e, empty) ↦ inl (
        e,
        subst (λ q. block_at d (item_of scullp_kind d q) (s_pos_of scullp_kind d q) ≡ none) p empty,
      )
      | inr (page, e, reads) ↦ inr (
        page,
        e,
        subst
            (λ q.
              (a : List Bool) (c : ℕ)
              → c ≤ page_size
              → q + c ≤ d.size
              → scullp_read false false a d c q
                ≡ done (record { status = pos c; dev = d; f_pos = q + c; bytes = take c page }))
            p reads,
      )
    ]
