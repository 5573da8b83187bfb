-- ===== src/Sbull/Transfer.antt =====
-- Transfers of the RAM disk (sbull/sbull.c): where they stay within the disk, what a transfer of many
-- segments amounts to, and what the unsigned arithmetic does to the test of the end.
use device_drivers_lab_proje.Prelude.{
  ℕ, ◌+◌, ◌*◌, ◌%◌, ◌^◌, ◌≤◌, ◌<◌, ◌≡◌, inl, inr, refl, arith, Bool, true, false, ◌&&◌, none, some,
  List, if◌then◌else◌, ltb, leb, length, take, drop, splice, Bool-cases,
}
use device_drivers_lab_proje.Prelude.Int.{pos, to_u64}
use device_drivers_lab_proje.Sbull.{Disk, sbull_transfer, copy_in, copy_out}

-- `dev->size` is the number of bytes that the memory has.
pub record IsValid (d : Disk) : Type 0 where
  pub sized : d.size ≡ pos (length d.bytes)
  pub small : length d.bytes < 2 ^ 31

-- What a transfer that lies within the disk does.
abbrev pub moved : Disk → ℕ → ℕ → List ℕ → Bool → Disk × List ℕ
moved d offset n buffer true = (record d { bytes = splice offset (take n buffer) d.bytes }, buffer)
moved d offset n buffer false = (d, splice 0 (take n (drop offset d.bytes)) buffer)

copy_moves :
    (d : Disk) (offset n : ℕ) (buffer : List ℕ)
    → offset + n ≤ length d.bytes
    → n ≤ length buffer
    → (copy_in offset n d buffer ≡ some (moved d offset n buffer true))
      × (copy_out offset n d buffer ≡ some (moved d offset n buffer false))
unfolding copy_in copy_out
copy_moves d offset n buffer h b =
    let both : (leb (offset + n) (length d.bytes) && leb n (length buffer)) ≡ true = ground arith in
    (rw both refl, rw both refl)

-- A transfer whose numbers of bytes an `unsigned long` holds, with a buffer of the size asked for,
-- stays within the disk: past the end it does nothing, and else it copies the bytes.
pub sbull_transfer_lem :
    (d : Disk) (sector nsect : ℕ) (buffer : List ℕ) (write : Bool)
    → IsValid d
    → (sector + nsect) * 512 < 2 ^ 64
    → nsect * 512 ≤ length buffer
    → sbull_transfer d sector nsect buffer write ≡ (
        if ltb (length d.bytes) ((sector + nsect) * 512)
        then some (d, buffer)
        else some (moved d (sector * 512) (nsect * 512) buffer write))
unfolding sbull_transfer
sbull_transfer_lem d sector nsect buffer write v h b =
    let o : sector * 512 % 2 ^ 64 ≡ sector * 512 = omega arith in
    let n : nsect * 512 % 2 ^ 64 ≡ nsect * 512 = omega arith in
    let s : (sector * 512 + nsect * 512) % 2 ^ 64 ≡ (sector + nsect) * 512 = omega arith in
    let z : to_u64 d.size ≡ length d.bytes = rw v.sized (omega (arith, v.small)) in
    rw (o, n, s, z)
      (elim (Bool-cases (ltb (length d.bytes) ((sector + nsect) * 512))) [
        | inl e ↦ rw e refl
        | inr e ↦
            rw e (inside write (copy_moves d (sector * 512) (nsect * 512) buffer (ground arith) b))
      ])
  where
    inside :
        (w : Bool)
        → (copy_in (sector * 512) (nsect * 512) d buffer
            ≡ some (moved d (sector * 512) (nsect * 512) buffer true))
          × (copy_out (sector * 512) (nsect * 512) d buffer
              ≡ some (moved d (sector * 512) (nsect * 512) buffer false))
        → (if w
            then copy_in (sector * 512) (nsect * 512) d buffer
            else copy_out (sector * 512) (nsect * 512) d buffer)
          ≡ some (moved d (sector * 512) (nsect * 512) buffer w)
    inside true c = c.0
    inside false c = c.1

-- Where the end of a transfer wraps to 0 as an `unsigned long`, the test passes, and the copy runs
-- out of the disk's memory.
sbull_transfer_wraps :
    (d : Disk) (sector nsect : ℕ) (buffer : List ℕ) (write : Bool)
    → IsValid d
    → 0 < nsect
    → nsect * 512 < 2 ^ 64
    → sector * 512 < 2 ^ 64
    → (sector + nsect) * 512 ≡ 2 ^ 64
    → sbull_transfer d sector nsect buffer write ≡ none
unfolding sbull_transfer copy_in copy_out
sbull_transfer_wraps d sector nsect buffer true v p n s e = ground arith
sbull_transfer_wraps d sector nsect buffer false v p n s e = ground arith
