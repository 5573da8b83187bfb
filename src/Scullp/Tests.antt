-- ===== src/Scullp/Tests.antt =====
-- Tests of Scullp.antt: a device of order 0 with one block, of whose pages the first is asked for.
use device_drivers_lab_proje.Prelude.{
  ℕ, ◌+◌, ◌≡◌, ◌≤◌, ◌⊎◌, refl, arith, Bool, false, none, some, List, [], ◌∷◌, take, replicate,
  length-replicate,
}
use device_drivers_lab_proje.Prelude.Int.{pos}
use device_drivers_lab_proje.Paged.{
  block_at, item_of, s_pos_of, done, Globals, PagedDev, put_array, put_block,
}
use device_drivers_lab_proje.Paged.Laid.{Laid, put_array-Keeps, put_block-Keeps}
use device_drivers_lab_proje.Paged.Write.Store.{sized, sized-Keeps}
use device_drivers_lab_proje.Paged.Mmap.{page_size, sigbus}
use device_drivers_lab_proje.Paged.Module.{set_up}
use device_drivers_lab_proje.Paged.Run.Safe.{emptied-Laid}
use device_drivers_lab_proje.Scullp.{
  scullp_kind, scullp_read, scullp_vma_nopage, scullp_vma_nopage-scullp_read,
}

abbrev globals : Globals
globals = record { unit = pos 0; qset = pos 1 }

abbrev array : PagedDev
array = put_array (set_up globals) 0 (none ∷ [])

abbrev block : PagedDev
block = put_block array 0 0 (replicate 4096 5)

block-Laid : Laid scullp_kind globals block
block-Laid =
    let l =
      emptied-Laid scullp_kind 0 globals (pos 0)
        (record {
          quantum_pos = omega arith;
          own = refl;
          made = refl;
          own_cleared = omega arith;
          made_cleared = omega arith;
        })
        (record { unit = refl; qset_pos = omega arith; bounded = omega arith }) in
    let (keeps, same) =
      put_array-Keeps scullp_kind globals (set_up globals) 0 l (omega arith) refl in
    (put_block-Keeps scullp_kind globals array 0 0 (replicate 4096 5) (none ∷ []) keeps.laid
      (omega arith) refl (omega arith) (length-replicate {A = ℕ} 4096 5)).0.laid

abbrev example : PagedDev
example = sized block 4096

scullp_vma_nopage-scullp_read_example :
    ((scullp_vma_nopage example 100 ≡ record { ret = sigbus; page = none })
      × (block_at example (item_of scullp_kind example 0) (s_pos_of scullp_kind example 0) ≡ none))
    ⊎ ((page : List ℕ) × (scullp_vma_nopage example 100 ≡ record { ret = 0; page = some page })
        × ((a : List Bool) (c : ℕ)
            → c ≤ page_size
            → 0 + c ≤ 4096
            → scullp_read false false a example c 0
              ≡ done
                  (record { status = pos c; dev = example; f_pos = 0 + c; bytes = take c page })))
scullp_vma_nopage-scullp_read_example =
    scullp_vma_nopage-scullp_read globals example 100
      (sized-Keeps scullp_kind globals block 4096 block-Laid).laid refl (omega arith) (omega arith)
