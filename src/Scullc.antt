-- ===== src/Scullc.antt =====
-- The memory device whose blocks are objects of a memory cache (scullc/main.c).
mod Tests
use device_drivers_lab_proje.Prelude.{
  ℕ, zero, suc, ◌+◌, ◌-◌, ◌*◌, ◌/◌, ◌%◌, ◌^◌, ◌≡◌, ◌<◌, ◌≤◌, ◌⊎◌, inl, inr, refl, sym, ◌∙◌, ap,
  arith, Bool, true, false, Option, none, some, List, [], ◌∷◌, ◌++◌, replicate, take, min, length,
}
use device_drivers_lab_proje.Prelude.Int.{ℤ, pos, pos_part, negsuc}
use device_drivers_lab_proje.Paged.{
  Outcome, done, crash, overrun, Kind, Item, PagedDev, Globals, Reply, item_at, block_at,
  quantum_of, itemsize, item_of, s_pos_of, q_pos_of, fits, paged_open, paged_trim, paged_follow,
  paged_read, paged_write, paged_llseek,
}
use device_drivers_lab_proje.Paged.Ioctl.{Ask, Command, Answer, paged_ioctl}
use device_drivers_lab_proje.Paged.Mmap.{
  page_size, vma_open, vma_close, vma_fault, ordered_mmap, Fault, sigbus,
}
use device_drivers_lab_proje.Paged.Aio.{
  AsyncWork, Deferred, Transfer, ReadSegment, WriteSegment, reading, writing, readings, writings,
  sculld_defer_op, int_defer_op, long_defer_op, do_deferred_op,
}
use device_drivers_lab_proje.Paged.Module.{
  Registered, Held, set_up, set_up_devices, plain_init, cached_init, paged_cleanup,
}
use device_drivers_lab_proje.Paged.Laid.{Laid}
use device_drivers_lab_proje.Paged.Overrun.{paged_write_overruns, paged_write_clears_beyond}
use device_drivers_lab_proje.Paged.Pages.{block_pos, vma_fault-paged_read, Filled, Laid-Filled}
use mathlib.Core.Path.{subst}

-- The quantum of the device; an object of the cache, whose size is the quantum when the module was
-- loaded; and `memset` by the parameter of the module.
abbrev scullc_kind : ℕ → Kind
scullc_kind object_size = record {
  quantum_bytes = λ quantum. quantum;
  block_bytes = λ quantum. object_size;
  clear_bytes = λ quantum scullc_quantum. scullc_quantum;
}

-- `SCULLC_QUANTUM` and `SCULLC_QSET`
abbrev scullc_defaults : Globals
scullc_defaults = record { unit = pos 4000; qset = pos 500 }

abbrev scullc_open : Globals → Bool → Bool → PagedDev → ℤ × PagedDev
scullc_open = paged_open

abbrev scullc_follow : ℕ → List Item → List Bool → Outcome (List Item × List Bool)
scullc_follow = paged_follow

abbrev scullc_read : ℕ → Bool → Bool → List Bool → PagedDev → ℕ → ℕ → Outcome Reply
scullc_read object_size = paged_read (scullc_kind object_size)

abbrev scullc_write :
    ℕ → Globals → Bool → Option ℕ → List Bool → (ℕ → ℕ) → PagedDev → List ℕ → ℕ → Outcome Reply
scullc_write object_size = paged_write (scullc_kind object_size)

abbrev scullc_ioctl : Ask → Command → ℤ → Globals → Answer
scullc_ioctl = paged_ioctl scullc_defaults

abbrev scullc_llseek : PagedDev → ℕ → ℤ → ℤ → ℤ × ℕ
scullc_llseek = paged_llseek

abbrev scullc_do_deferred_op : AsyncWork → ℕ × ℤ
scullc_do_deferred_op = do_deferred_op

abbrev scullc_defer_op : Bool → Bool → ℕ → List Transfer → PagedDev → ℕ → Outcome Deferred
scullc_defer_op = long_defer_op

abbrev scullc_aio_read : ℕ → Bool → Bool → ℕ → List ReadSegment → PagedDev → ℕ → Outcome Deferred
scullc_aio_read object_size is_sync alloc iocb xs =
    scullc_defer_op is_sync alloc iocb (readings (scullc_kind object_size) xs)

abbrev scullc_aio_write :
    ℕ → Globals → Bool → Bool → ℕ → List WriteSegment → PagedDev → ℕ → Outcome Deferred
scullc_aio_write object_size g is_sync alloc iocb xs =
    scullc_defer_op is_sync alloc iocb (writings (scullc_kind object_size) g xs)

abbrev scullc_trim : Globals → PagedDev → ℤ × PagedDev
scullc_trim = paged_trim

abbrev scullc_setup_cdev : Globals → Bool → ℕ → List Bool → List Registered
scullc_setup_cdev = set_up_devices

abbrev scullc_init : Globals → ℕ → ℤ → Bool → List Bool → Bool → ℤ × Held
scullc_init = cached_init

abbrev scullc_cleanup : Globals → Held → List (ℤ × PagedDev) × Held
scullc_cleanup = paged_cleanup

-- The module's quantum has been raised above the size of the cache's objects, which is that of loading. A
-- device that is not mapped is opened write-only, which gives it the new quantum, and its first item,
-- whose bytes are an int, is written, and memory does not fail: the `memset` of the new object overruns it.
scullc_open-scullc_write :
    (object_size : ℕ) (g : Globals) (d : PagedDev) (fault : Option ℕ) (junk : ℕ → ℕ) (bs : List ℕ)
    (p : ℕ) (rest : List Bool)
    → d.vmas ≡ pos 0
    → object_size < pos_part g.unit
    → p < pos_part g.unit * pos_part g.qset
    → pos_part g.unit * pos_part g.qset < 2 ^ 31
    → scullc_write object_size g false fault
        (true ∷ true ∷ rest)
        junk
        (scullc_open g true false d).1
        bs
        p
      ≡ crash overrun
unfolding paged_open paged_trim
scullc_open-scullc_write object_size g d fault junk bs p rest free beyond inside bounded = rw free (
    paged_write_clears_beyond (scullc_kind object_size) g junk bs p rest (set_up g) fault refl
      (first p (pos_part g.unit * pos_part g.qset) inside) (ground arith) beyond)
  where
    first : (p n : ℕ) → p < n → p / n % 2 ^ 32 ≡ 0
    first p n h = let e : p / n ≡ 0 = grind arith in omega (arith, e)
