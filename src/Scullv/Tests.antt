-- ===== src/Scullv/Tests.antt =====
-- Tests of Scullv.antt: a device of order 4 with two blocks of 16 pages, of whose pages the second is asked
-- for, and the head of the second block is found.
use device_drivers_lab_proje.Prelude.{
  ℕ, zero, suc, ◌+◌, ◌≡◌, ◌≤◌, ◌⊎◌, sym, ◌∙◌, ap, arith, Bool, false, none, some, List, [], ◌∷◌,
  take, replicate, length, length-replicate,
}
use device_drivers_lab_proje.Prelude.Int.{pos}
use device_drivers_lab_proje.Paged.{done, PagedDev, block_at}
use device_drivers_lab_proje.Paged.Mmap.{page_size, sigbus}
use device_drivers_lab_proje.Scullv.{
  scullv_mmap, scullv_read, scullv_vma_nopage, scullv_mmap-scullv_read,
}

abbrev example : PagedDev
example = record {
  quanta = some (some (replicate 65536 1) ∷ some (replicate 65536 2) ∷ []);
  unit = 4;
  next = [];
  qset = 2;
  size = 131072;
  vmas = pos 0;
}

example_blocks : (i t : ℕ) (q : List ℕ) → block_at example i t ≡ some q → length q ≡ 65536
example_blocks zero zero q e =
    let same : replicate 65536 1 ≡ q = cc in ap length (sym same) ∙ length-replicate {A = ℕ} 65536 1
example_blocks zero (suc zero) q e =
    let same : replicate 65536 2 ≡ q = cc in ap length (sym same) ∙ length-replicate {A = ℕ} 65536 2
example_blocks zero (suc (suc t)) q e = absurd cc
example_blocks (suc i) t q e = absurd cc

scullv_mmap-scullv_read_example :
    ((scullv_mmap example).0 ≡ pos 0)
    × ((scullv_vma_nopage example 5000 ≡ record { ret = sigbus; page = none })
        ⊎ ((page : List ℕ) × (scullv_vma_nopage example 5000 ≡ record { ret = 0; page = some page })
            × ((a : List Bool) (c : ℕ)
                → c ≤ page_size
                → 65536 + c ≤ 131072
                → scullv_read false false a example c 65536
                  ≡ done (record {
                    status = pos c;
                    dev = example;
                    f_pos = 65536 + c;
                    bytes = take c page;
                  }))))
scullv_mmap-scullv_read_example =
    scullv_mmap-scullv_read example 5000
      (record {
        quantum_pos = omega arith;
        qset_pos = omega arith;
        bounded = omega arith;
        blocks = example_blocks;
      })
      (omega arith) (omega arith)
