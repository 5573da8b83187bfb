-- ===== src/Sbull.antt =====
-- The RAM disk (sbull/sbull.c): its device, the transfer of sectors, and the three ways in which the
-- block layer hands requests over. An access outside the disk's memory or the request's buffer is
-- none.
pub mod Transfer
pub mod Segments
pub mod Modes
pub mod Media
pub mod Setup
mod Tests
use device_drivers_lab_proje.Prelude.{
  ℕ, suc, ◌+◌, ◌*◌, ◌/◌, ◌%◌, ◌^◌, Bool, true, false, ◌&&◌, Option, none, some, List, [], ◌∷◌,
  ◌>>=◌, if◌then◌else◌, ltb, leb, length, take, drop, splice,
}
use device_drivers_lab_proje.Prelude.Int.{ℤ, pos, negsuc, to_u64, to_int, residue, sub_ℕ}

-- `KERNEL_SECTOR_SIZE`
abbrev pub kernel_sector_size : ℕ
kernel_sector_size = 512

-- What a transfer reads and writes: the disk's memory, and `dev->size`.
pub record Disk : Type 0 where
  pub size : ℤ
  pub bytes : List ℕ

-- The `memcpy` of `nbytes` bytes into the disk, and out of it; none where one of the two ends before.
unfoldable pub copy_in : ℕ → ℕ → Disk → List ℕ → Option (Disk × List ℕ)
copy_in offset nbytes dev buffer =
    if leb (offset + nbytes) (length dev.bytes) && leb nbytes (length buffer)
    then some (record dev { bytes = splice offset (take nbytes buffer) dev.bytes }, buffer)
    else none

unfoldable pub copy_out : ℕ → ℕ → Disk → List ℕ → Option (Disk × List ℕ)
copy_out offset nbytes dev buffer =
    if leb (offset + nbytes) (length dev.bytes) && leb nbytes (length buffer)
    then some (dev, splice 0 (take nbytes (drop offset dev.bytes)) buffer)
    else none

-- The disk and the buffer after the transfer. The products and the sum are those of `unsigned long`.
unfoldable pub sbull_transfer : Disk → ℕ → ℕ → List ℕ → Bool → Option (Disk × List ℕ)
unfolding copy_in copy_out
sbull_transfer dev sector nsect buffer write =
    let offset = sector * kernel_sector_size % 2 ^ 64 in
    let nbytes = nsect * kernel_sector_size % 2 ^ 64 in
    if ltb (to_u64 dev.size) ((offset + nbytes) % 2 ^ 64)
    then some (dev, buffer)
    else if write
    then copy_in offset nbytes dev buffer
    else copy_out offset nbytes dev buffer

-- `struct bio`, and what `bio_cur_sectors` answers for it: the loop over the segments does not change
-- the bio, so the answer is the same in every round.
pub record Bio : Type 0 where
  pub sector : ℕ
  pub cur_sectors : ℕ
  pub segments : List (List ℕ)
  pub bi_size : ℕ
  pub write : Bool

-- The loop of `sbull_xfer_bio`, from a sector on: the disk, and the segments' buffers.
unfoldable pub xfer_segments : Disk → ℕ → ℕ → List (List ℕ) → Bool → Option (Disk × List (List ℕ))
xfer_segments dev sector cur [] write = some (dev, [])
xfer_segments dev sector cur (buffer ∷ rest) write = do
  (dev', buffer') ← sbull_transfer dev sector cur buffer write
  (dev'', rest') ← xfer_segments dev' (sector + cur) cur rest write
  some (dev'', buffer' ∷ rest')

unfoldable pub sbull_xfer_bio : Disk → Bio → Option (Disk × Bio)
sbull_xfer_bio dev bio = do
  (dev', segments') ← xfer_segments dev bio.sector bio.cur_sectors bio.segments bio.write
  some (dev', record bio { segments = segments' })

-- A request is a list of bios; the sectors transferred are counted by the bios' sizes.
unfoldable pub sbull_xfer_request : Disk → List Bio → Option (Disk × ℕ × List Bio)
sbull_xfer_request dev [] = some (dev, 0, [])
sbull_xfer_request dev (bio ∷ bios) = do
  (dev', bio') ← sbull_xfer_bio dev bio
  (dev'', nsect, bios') ← sbull_xfer_request dev' bios
  some (dev'', bio.bi_size / kernel_sector_size + nsect, bio' ∷ bios')

-- A request as `sbull_full_request` finds it, and what it reports of it: nothing done, or the number
-- of sectors.
pub record Request : Type 0 where
  pub is_fs : Bool
  pub bios : List Bio

pub data Report : Type 0 where
  skipped : Report
  done : ℕ → Report

unfoldable pub sbull_full_request : Disk → List Request → Option (Disk × List (Report × List Bio))
sbull_full_request dev [] = some (dev, [])
sbull_full_request dev (req ∷ q) = do
  (dev', report, bios') ← elim req.is_fs as (λ b. Option (Disk × Report × List Bio)) [
    | false ↦ some (dev, skipped, req.bios)
    | true ↦ do
      (dev', nsect, bios') ← sbull_xfer_request dev req.bios
      some (dev', done nsect, bios')
  ]
  (dev'', rest) ← sbull_full_request dev' q
  some (dev'', (report, bios') ∷ rest)

-- The piece of a request that `sbull_request` sees at a time: `sector`, `current_nr_sectors`,
-- `buffer`, and the direction.
pub record Piece : Type 0 where
  pub is_fs : Bool
  pub sector : ℕ
  pub nr_sectors : ℕ
  pub buffer : List ℕ
  pub write : Bool

-- Each piece with its buffer afterwards, and whether it was ended as uptodate.
unfoldable pub sbull_request : Disk → List Piece → Option (Disk × List (List ℕ × Bool))
sbull_request dev [] = some (dev, [])
sbull_request dev (p ∷ q) = do
  (dev', buffer', uptodate) ← elim p.is_fs as (λ b. Option (Disk × List ℕ × Bool)) [
    | false ↦ some (dev, p.buffer, false)
    | true ↦ do
      (dev', buffer') ← sbull_transfer dev p.sector p.nr_sectors p.buffer p.write
      some (dev', buffer', true)
  ]
  (dev'', rest) ← sbull_request dev' q
  some (dev'', (buffer', uptodate) ∷ rest)

-- The bio is ended with the status 0 of `sbull_xfer_bio` and its whole size.
unfoldable pub sbull_make_request : Disk → Bio → Option (Disk × Bio × ℕ)
sbull_make_request dev bio = do
  (dev', bio') ← sbull_xfer_bio dev bio
  some (dev', bio', bio.bi_size)

-- `HDIO_GETGEO`: the cylinders are an `unsigned short`, four heads and 16 sectors each. The mask and
-- the shift round down.
abbrev pub floor_64 : ℤ → ℤ
floor_64 (pos n) = pos (n / 64)
floor_64 (negsuc n) = negsuc (n / 64)

-- An int times a natural number.
abbrev pub times : ℤ → ℕ → ℤ
times (pos n) k = pos (n * k)
times (negsuc n) k = sub_ℕ 0 (suc n * k)

-- The `long` that the int product is stored in.
unfoldable pub geometry_cylinders : ℤ → ℕ → ℕ
geometry_cylinders size hardsect_size =
    residue (2 ^ 16) (floor_64 (to_int (times size (hardsect_size / kernel_sector_size))))
