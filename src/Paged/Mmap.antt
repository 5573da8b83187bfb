-- ===== src/Paged/Mmap.antt =====
-- The mapping of a device: sculld/mmap.c, scullp/mmap.c and scullv/mmap.c. A page is the first 4096 bytes
-- of a block, which is what the address of a block names.
use device_drivers_lab_proje.Prelude.{
  ℕ, ◌-◌, ◌/◌, Option, none, some, List, [], ◌∷◌, if◌then◌else◌, leb, ◌==◌, take,
}
use device_drivers_lab_proje.Prelude.Int.{ℤ, pos, negsuc, ◌+ℤ◌, enodev}
use device_drivers_lab_proje.Scull.Dev.{slot, quanta_of}
use device_drivers_lab_proje.Paged.{Outcome, done, crash, null_page, Item, PagedDev}

abbrev pub page_size : ℕ
page_size = 4096

unfoldable pub vma_open : PagedDev → PagedDev
vma_open dev = record dev { vmas = dev.vmas +ℤ pos 1 }

unfoldable pub vma_close : PagedDev → PagedDev
vma_close dev = record dev { vmas = dev.vmas +ℤ negsuc 0 }

-- `sculld_mmap` and `scullp_mmap`
unfoldable pub ordered_mmap : PagedDev → ℤ × PagedDev
unfolding vma_open
ordered_mmap dev = if dev.unit == 0 then (pos 0, vma_open dev) else (enodev, dev)

-- The walk along the list to the block with a number: the items from `ptr` on.
unfoldable pub walk : ℕ → List Item → ℕ → Option (List ℕ)
walk qset [] offset = none
walk qset (x ∷ xs) offset =
    let rest = walk qset xs (offset - qset) in
    if leb qset offset then rest else slot (quanta_of x.quanta) offset

abbrev pub chain : PagedDev → List Item
chain d = record { quanta = d.quanta; unit = d.unit } ∷ d.next

-- `pageptr`, for an offset before the end of the device.
abbrev pub pageptr : PagedDev → ℕ → Option (List ℕ)
pageptr dev offset = walk dev.qset (chain dev) (offset / page_size)

-- `sculld_vma_nopage`, for the offset in the file of the address that faulted. Its `page` is never set:
-- none is NOPAGE_SIGBUS.
unfoldable pub sculld_vma_nopage : PagedDev → ℕ → Outcome (Option (List ℕ))
unfolding walk
sculld_vma_nopage dev offset =
    if leb dev.size offset
    then done none
    else elim (pageptr dev offset) [ none ↦ done none | some block ↦ crash null_page ]

-- The result of a fault handler, and the page that it gives.
pub record Fault : Type 0 where
  pub ret : ℕ
  pub page : Option (List ℕ)

-- `VM_FAULT_SIGBUS`
abbrev pub sigbus : ℕ
sigbus = 2

-- `scullp_vma_nopage` and `scullv_vma_nopage`, for the offset of the address.
unfoldable pub vma_fault : PagedDev → ℕ → Fault
unfolding walk
vma_fault dev offset =
    if leb dev.size offset then record { ret = 0; page = none } else elim (pageptr dev offset) [
      | none ↦ record { ret = sigbus; page = none }
      | some block ↦ record { ret = 0; page = some (take page_size block) }
    ]
