-- ===== src/Sculld.antt =====
-- The memory device whose blocks are groups of pages, known to the driver core (sculld/main.c,
-- sculld/mmap.c).
mod Tests
use device_drivers_lab_proje.Prelude.{
  ℕ, zero, suc, ◌+◌, ◌-◌, ◌*◌, ◌/◌, ◌%◌, ◌^◌, ◌≡◌, ◌<◌, ◌≤◌, ◌⊎◌, inl, inr, refl, sym, ◌∙◌, ap,
  arith, Bool, true, false, Option, none, some, List, [], ◌∷◌, ◌++◌, replicate, take, min, length,
}
use device_drivers_lab_proje.Prelude.Int.{ℤ, pos, pos_part, negsuc}
use device_drivers_lab_proje.Paged.{
  Outcome, done, crash, overrun, Kind, Item, PagedDev, Globals, Reply, item_at, block_at,
  quantum_of, itemsize, item_of, s_pos_of, q_pos_of, fits, paged_open, paged_trim, paged_follow,
  paged_read, paged_write, paged_llseek,
}
use device_drivers_lab_proje.Paged.Ioctl.{Ask, Command, Answer, paged_ioctl}
use device_drivers_lab_proje.Paged.Mmap.{
  page_size, vma_open, vma_close, vma_fault, ordered_mmap, Fault, sigbus,
}
use device_drivers_lab_proje.Paged.Aio.{
  AsyncWork, Deferred, Transfer, ReadSegment, WriteSegment, reading, writing, readings, writings,
  sculld_defer_op, int_defer_op, long_defer_op, do_deferred_op,
}
use device_drivers_lab_proje.Paged.Module.{
  Registered, Held, set_up, set_up_devices, plain_init, cached_init, paged_cleanup,
}
use device_drivers_lab_proje.Paged.Laid.{Laid}
use device_drivers_lab_proje.Paged.Overrun.{paged_write_overruns, paged_write_clears_beyond}
use device_drivers_lab_proje.Paged.Pages.{block_pos, vma_fault-paged_read, Filled, Laid-Filled}
use device_drivers_lab_proje.Scull.Dev.{unusable}
use mathlib.Core.Path.{subst}

-- `PAGE_SIZE << order`, which `__get_free_pages` gives and `memset` clears, each by the order of its item.
abbrev sculld_kind : Kind
sculld_kind = record {
  quantum_bytes = λ order. page_size * 2 ^ order;
  block_bytes = λ order. page_size * 2 ^ order;
  clear_bytes = λ order globals_order. page_size * 2 ^ order;
}

-- `SCULLD_ORDER` and `SCULLD_QSET`
abbrev sculld_defaults : Globals
sculld_defaults = record { unit = pos 0; qset = pos 500 }

abbrev sculld_open : Globals → Bool → Bool → PagedDev → ℤ × PagedDev
sculld_open = paged_open

abbrev sculld_follow : ℕ → List Item → List Bool → Outcome (List Item × List Bool)
sculld_follow = paged_follow

abbrev sculld_read : Bool → Bool → List Bool → PagedDev → ℕ → ℕ → Outcome Reply
sculld_read = paged_read sculld_kind

abbrev sculld_write :
    Globals → Bool → Option ℕ → List Bool → (ℕ → ℕ) → PagedDev → List ℕ → ℕ → Outcome Reply
sculld_write = paged_write sculld_kind

abbrev sculld_ioctl : Ask → Command → ℤ → Globals → Answer
sculld_ioctl = paged_ioctl sculld_defaults

abbrev sculld_llseek : PagedDev → ℕ → ℤ → ℤ → ℤ × ℕ
sculld_llseek = paged_llseek

abbrev sculld_do_deferred_op : AsyncWork → ℕ × ℤ
sculld_do_deferred_op = do_deferred_op

abbrev sculld_aio_read : Bool → Bool → ℕ → ReadSegment → PagedDev → ℕ → Outcome Deferred
sculld_aio_read is_sync alloc iocb x = sculld_defer_op is_sync alloc iocb (reading sculld_kind x)

abbrev sculld_aio_write : Globals → Bool → Bool → ℕ → WriteSegment → PagedDev → ℕ → Outcome Deferred
sculld_aio_write g is_sync alloc iocb x =
    sculld_defer_op is_sync alloc iocb (writing sculld_kind g x)

abbrev sculld_trim : Globals → PagedDev → ℤ × PagedDev
sculld_trim = paged_trim

-- A device of which only the first item is there, the bytes of an item an int and not 0, is
-- written at a position in a later item, and memory does not fail. The block that the write makes is one
-- page, as the item was made with the order 0, and a copy that goes beyond that page of the quantum
-- overruns it.
sculld_write-overrun :
    (g : Globals) (junk : ℕ → ℕ) (d : PagedDev) (bs : List ℕ) (p n : ℕ) (rest : List Bool)
    → d.next ≡ []
    → 0 < d.qset
    → itemsize sculld_kind d < 2 ^ 31
    → item_of sculld_kind d p ≡ suc n
    → page_size < q_pos_of sculld_kind d p + fits sculld_kind d p bs
    → 0 < fits sculld_kind d p bs
    → sculld_write g false none (replicate (suc n) true ++ (true ∷ true ∷ rest)) junk d bs p
      ≡ crash overrun
sculld_write-overrun g junk d bs p n rest alone room bounded at long some_bytes =
    paged_write_overruns sculld_kind g junk bs p rest d n alone at
      (whole d.unit d.qset room bounded) (omega arith) (omega arith)
  where
    power : (u : ℕ) → 0 < 2 ^ u
    power zero = omega arith
    power (suc u) = let more = power u in grind arith

    items : (u s : ℕ) → 0 < s → 0 < page_size * 2 ^ u * s
    items u s h = let more = power u in grind arith

    whole :
        (u s : ℕ)
        → 0 < s
        → page_size * 2 ^ u * s < 2 ^ 31
        → unusable (page_size * 2 ^ u * s) ≡ false
    whole u s h lt = ground (arith, items u s h)
