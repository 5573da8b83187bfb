-- ===== src/Sbull/Segments.antt =====
-- A bio of many segments against one transfer (sbull/sbull.c, `sbull_xfer_bio`).
use device_drivers_lab_proje.Prelude.{
  ℕ, ◌+◌, ◌*◌, ◌≤◌, ◌≡◌, refl, sym, ◌∙◌, ap, ap₂, arith, Bool, true, false, some, List, [], ◌∷◌,
  ◌++◌, ltb, length, take, drop, splice, length-splice, length-take, length-drop, length-append,
  append-nil, append_assoc, take_all, drop_all, take-append-drop, take-add, drop-drop, take-splice,
  drop-splice,
}
use device_drivers_lab_proje.Prelude.Int.{pos}
use device_drivers_lab_proje.Sbull.{Disk, Bio, sbull_transfer, xfer_segments, sbull_xfer_bio}
use device_drivers_lab_proje.Sbull.Transfer.{IsValid, moved, sbull_transfer_lem}

abbrev pub flat : List (List ℕ) → List ℕ
flat [] = []
flat (b ∷ bs) = b ++ flat bs

-- Each segment's buffer has `n` bytes.
abbrev pub AllSized : ℕ → List (List ℕ) → Type 0
AllSized n [] = Unit
AllSized n (b ∷ bs) = (length b ≡ n) × AllSized n bs

length-flat : (n : ℕ) (bs : List (List ℕ)) → AllSized n bs → length (flat bs) ≡ length bs * n
length-flat n [] h = omega arith
length-flat n (b ∷ bs) h = omega (arith, length-append b (flat bs), length-flat n bs h.1, h.0)

splice-nil : (i : ℕ) (xs : List ℕ) → splice i [] xs ≡ xs
splice-nil i xs =
    ap (λ k. take i xs ++ drop k xs) (let e : i + 0 ≡ i = omega arith in e) ∙ take-append-drop i xs

splice-splice :
    (i j : ℕ) (b cs xs : List ℕ)
    → i + length b ≡ j
    → j ≤ length xs
    → splice j cs (splice i b xs) ≡ splice i (b ++ cs) xs
splice-splice i j b cs xs e h =
    let ys = splice i b xs in
    let front : take j ys ≡ take i xs ++ b =
      ap (λ k. take k ys) (sym e) ∙ take-splice i b xs (omega arith) in
    let back : drop (j + length cs) ys ≡ drop (j + length cs) xs =
      drop-splice i (j + length cs) b xs (omega arith) (omega arith) in
    let end : j + length cs ≡ i + length (b ++ cs) = omega (arith, length-append b cs) in
    ap₂ (λ t u. t ++ (cs ++ u)) front back
    ∙ append_assoc (take i xs) b (cs ++ drop (j + length cs) xs)
    ∙ ap (λ l. take i xs ++ l)
        (sym (append_assoc b cs (drop (j + length cs) xs)) ∙ ap (λ k. (b ++ cs) ++ drop k xs) end)

-- A transfer within the disk, where the buffer has just the size asked for.
transfer_in :
    (d : Disk) (sector nsect : ℕ) (buffer : List ℕ) (write : Bool)
    → IsValid d
    → (sector + nsect) * 512 ≤ length d.bytes
    → length buffer ≡ nsect * 512
    → sbull_transfer d sector nsect buffer write
      ≡ some (moved d (sector * 512) (nsect * 512) buffer write)
transfer_in d sector nsect buffer write v h b =
    let within : ltb (length d.bytes) ((sector + nsect) * 512) ≡ false = ground arith in
    sbull_transfer_lem d sector nsect buffer write v (omega (arith, v.small)) (omega arith)
    ∙ rw within refl

write_segments :
    (segs : List (List ℕ)) (d : Disk) (sector cur : ℕ)
    → IsValid d
    → AllSized (cur * 512) segs
    → (sector + length segs * cur) * 512 ≤ length d.bytes
    → xfer_segments d sector cur segs true
      ≡ some (record d { bytes = splice (sector * 512) (flat segs) d.bytes }, segs)
unfolding xfer_segments
write_segments [] d sector cur v s h =
    ap (λ l. some (record d { bytes = l }, [])) (sym (splice-nil (sector * 512) d.bytes))
write_segments (b ∷ bs) d sector cur v s h =
    let o = sector * 512 in
    let n = cur * 512 in
    let room : (sector + cur) * 512 ≤ length d.bytes = omega arith in
    let d' : Disk = record d { bytes = splice o (take n b) d.bytes } in
    let all : take n b ≡ b = take_all n b (omega (arith, s.0)) in
    let inside : o + length (take n b) ≤ length d.bytes = rw all (omega (arith, s.0)) in
    let size = length-splice o (take n b) d.bytes inside in
    let valid : IsValid d' = record {
      sized = v.sized ∙ ap pos (sym size);
      small = omega (arith, size, v.small);
    } in
    let joined : splice ((sector + cur) * 512) (flat bs) d'.bytes
        ≡ splice o (b ++ flat bs) d.bytes =
      splice-splice o ((sector + cur) * 512) (take n b) (flat bs) d.bytes
        (rw all (omega (arith, s.0))) room
      ∙ ap (λ l. splice o (l ++ flat bs) d.bytes) all in
    rw (transfer_in d sector cur b true v room s.0) (
      rw (write_segments bs d' (sector + cur) cur valid s.1 (omega (arith, size)))
        (ap (λ l. some (record d { bytes = l }, b ∷ bs)) joined))

read_segments :
    (segs : List (List ℕ)) (d : Disk) (sector cur : ℕ)
    → IsValid d
    → AllSized (cur * 512) segs
    → (sector + length segs * cur) * 512 ≤ length d.bytes
    → (read : List (List ℕ)) × (xfer_segments d sector cur segs false ≡ some (d, read))
      × (flat read ≡ take (length segs * (cur * 512)) (drop (sector * 512) d.bytes))
unfolding xfer_segments
read_segments [] d sector cur v s h =
    let none_left : 0 ≡ length {A = List ℕ} [] * (cur * 512) = omega arith in
    ([], refl, ap (λ k. take k (drop (sector * 512) d.bytes)) none_left)
read_segments (b ∷ bs) d sector cur v s h =
    let o = sector * 512 in
    let n = cur * 512 in
    let room : (sector + cur) * 512 ≤ length d.bytes = omega arith in
    let piece = take n (drop o d.bytes) in
    let size : length piece ≡ n =
      omega (arith, length-take n (drop o d.bytes), length-drop o d.bytes) in
    let whole : splice 0 piece b ≡ piece =
      ap (λ l. piece ++ l) (drop_all (0 + length piece) b (omega (arith, s.0, size)))
      ∙ append-nil piece in
    let (rest, e, c) = read_segments bs d (sector + cur) cur v s.1 (omega arith) in
    (
      splice 0 piece b ∷ rest,
      rw (transfer_in d sector cur b false v room s.0) (rw e refl),
      ap₂ ◌++◌ whole c
          ∙ ap (λ l. piece ++ take (length bs * n) l)
              (ap (λ k. drop k d.bytes) (let j : (sector + cur) * 512 ≡ o + n = omega arith in j)
                ∙ sym (drop-drop n o d.bytes))
          ∙ take-add n (length bs * n) (drop o d.bytes)
          ∙ ap (λ k. take k (drop o d.bytes))
              (let k : n + length bs * n ≡ length (b ∷ bs) * n = omega arith in k),
    )

-- A bio by its fields, for each direction.
bio_transfer :
    (d : Disk) (sector cur : ℕ) (segs : List (List ℕ)) (bi_size : ℕ) (write : Bool)
    → IsValid d
    → AllSized (cur * 512) segs
    → (sector + length segs * cur) * 512 ≤ length d.bytes
    → (d' : Disk) × (bio' : Bio) × (sbull_xfer_bio d (record {
      sector = sector;
      cur_sectors = cur;
      segments = segs;
      bi_size = bi_size;
      write = write;
    })
        ≡ some (d', bio'))
      × (sbull_transfer d sector (length segs * cur) (flat segs) write
          ≡ some (d', flat bio'.segments))
unfolding sbull_xfer_bio
bio_transfer d sector cur segs bi_size true v s h =
    let n = length segs * cur in
    let sum : length (flat segs) ≡ n * 512 = omega (arith, length-flat (cur * 512) segs s) in
    (
      record d { bytes = splice (sector * 512) (flat segs) d.bytes },
      record {
        sector = sector;
        cur_sectors = cur;
        segments = segs;
        bi_size = bi_size;
        write = true;
      },
      rw (write_segments segs d sector cur v s h) refl,
      transfer_in d sector n (flat segs) true v h sum
          ∙ ap (λ l. some (record d { bytes = splice (sector * 512) l d.bytes }, flat segs))
              (take_all (n * 512) (flat segs) (omega (arith, sum))),
    )
bio_transfer d sector cur segs bi_size false v s h =
    let n = length segs * cur in
    let sum : length (flat segs) ≡ n * 512 = omega (arith, length-flat (cur * 512) segs s) in
    let piece = take (n * 512) (drop (sector * 512) d.bytes) in
    let size : length piece ≡ n * 512 = omega (
      arith,
      length-take (n * 512) (drop (sector * 512) d.bytes),
      length-drop (sector * 512) d.bytes,
    ) in
    let (read, e, c) = read_segments segs d sector cur v s h in
    (
      d,
      record {
        sector = sector;
        cur_sectors = cur;
        segments = read;
        bi_size = bi_size;
        write = false;
      },
      rw e refl,
      transfer_in d sector n (flat segs) false v h sum
          ∙ ap (λ l. some (d, l))
              (ap (λ l. piece ++ l)
                  (drop_all (0 + length piece) (flat segs) (omega (arith, sum, size)))
                ∙ append-nil piece
                ∙ ap (λ k. take k (drop (sector * 512) d.bytes))
                    (let k : n * 512 ≡ length segs * (cur * 512) = omega arith in k)
                ∙ sym c),
    )

-- A bio within the disk, of segments that all have the size which `bio_cur_sectors` answers, is worth
-- one transfer of all its sectors: the disk is the same afterwards, and so are the bytes in the
-- buffers, read as one.
pub sbull_xfer_bio-sbull_transfer :
    (d : Disk) (bio : Bio)
    → IsValid d
    → AllSized (bio.cur_sectors * 512) bio.segments
    → (bio.sector + length bio.segments * bio.cur_sectors) * 512 ≤ length d.bytes
    → (d' : Disk) × (bio' : Bio) × (sbull_xfer_bio d bio ≡ some (d', bio'))
      × (sbull_transfer d bio.sector
            (length bio.segments * bio.cur_sectors)
            (flat bio.segments)
            bio.write
          ≡ some (d', flat bio'.segments))
sbull_xfer_bio-sbull_transfer d bio v s h =
    bio_transfer d bio.sector bio.cur_sectors bio.segments bio.bi_size bio.write v s h
