-- ===== src/Paged/Run.antt =====
-- The operations of a device of sculld/main.c and its kin in any order, and what they never do.
pub mod Safe
pub mod Mapped
use device_drivers_lab_proje.Prelude.{
  ℕ, zero, suc, ◌+◌, ◌≡◌, ◌<◌, ◌≤◌, ◌⊎◌, inl, inr, refl, sym, ◌∙◌, ap, arith, Bool, true, false,
  Option, none, some, List, [], ◌∷◌, if◌then◌else◌, length, Bool-cases, ◌==◌,
}
use device_drivers_lab_proje.Prelude.Int.{ℤ, pos, pos_part, eqb_ℤ}
use device_drivers_lab_proje.Scull.Dev.{slot, quanta_of}
use device_drivers_lab_proje.Paged.{
  Crash, Outcome, done, crash, null_item, ◌>>=◌, Kind, Item, new_item, PagedDev, Globals, item_at,
  block_at, quantum_of, Reply, paged_open, paged_trim, paged_read, paged_write, paged_llseek,
}
use device_drivers_lab_proje.Paged.Laid.{Laid, Keeps, Keeps-refl}
use device_drivers_lab_proje.Paged.Write.{Written}
use device_drivers_lab_proje.Paged.Write.Steps.{paged_write-Written}
use device_drivers_lab_proje.Paged.Read.{Reads, paged_read-Reads}
use device_drivers_lab_proje.Paged.Ioctl.{Ask, Command, paged_ioctl}
use device_drivers_lab_proje.Paged.Mmap.{ordered_mmap, vma_open, vma_close}

-- The module's parameters and one of its devices.
pub record State : Type 0 where
  pub globals : Globals
  pub dev : PagedDev

-- A call of the driver, with what its environment does; a transfer comes with the position of the file.
pub data Op : Type 0 where
  opens : (wronly interrupted : Bool) → Op
  reads : (interrupted fault : Bool) (a : List Bool) (count p : ℕ) → Op
  writes :
      (interrupted : Bool) (fault : Option ℕ) (a : List Bool) (junk : ℕ → ℕ) (bs : List ℕ) (p : ℕ)
      → Op
  asks : (defaults : Globals) (ask : Ask) (c : Command) (arg : ℤ) → Op
  maps duplicates unmaps : Op

unfoldable pub run : Kind → Op → State → Outcome State
unfolding paged_open paged_trim ordered_mmap vma_open vma_close
run k (opens w i) s = done (record s { dev = (paged_open s.globals w i s.dev).1 })
run k (reads i f a count p) s =
    paged_read k i f a s.dev count p >>= λ r. done (record s { dev = r.dev })
run k (writes i f a junk bs p) s =
    paged_write k s.globals i f a junk s.dev bs p >>= λ r. done (record s { dev = r.dev })
run k (asks defaults ask c arg) s =
    done (record s { globals = (paged_ioctl defaults ask c arg s.globals).globals })
run k maps s = done (record s { dev = (ordered_mmap s.dev).1 })
run k duplicates s = done (record s { dev = vma_open s.dev })
run k unmaps s = done (record s { dev = vma_close s.dev })
