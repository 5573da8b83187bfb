-- ===== src/Sbull/Modes.antt =====
-- The request modes against each other (sbull/sbull.c, `sbull_request` and `sbull_make_request`).
use device_drivers_lab_proje.Prelude.{
  ℕ, ◌+◌, ◌≡◌, inl, inr, refl, Bool, true, Option, none, some, List, [], ◌∷◌, ◌>>=◌, Option-cases,
}
use device_drivers_lab_proje.Sbull.{Disk, Piece, sbull_transfer, xfer_segments, sbull_request}

-- The pieces of a bio, as the simple request function gets them one by one.
abbrev pub pieces : ℕ → ℕ → List (List ℕ) → Bool → List Piece
pieces sector cur [] write = []
pieces sector cur (b ∷ bs) write =
    (record { is_fs = true; sector = sector; nr_sectors = cur; buffer = b; write = write })
    ∷ pieces (sector + cur) cur bs write

-- The buffers of pieces that were all ended well.
abbrev pub all_done : List (List ℕ) → List (List ℕ × Bool)
all_done [] = []
all_done (b ∷ bs) = (b, true) ∷ all_done bs

abbrev pub done_disk : Option (Disk × List (List ℕ)) → Option (Disk × List (List ℕ × Bool))
done_disk none = none
done_disk (some (d, bs)) = some (d, all_done bs)

sbull_request-xfer_segments :
    (segs : List (List ℕ)) (d : Disk) (sector cur : ℕ) (write : Bool)
    → sbull_request d (pieces sector cur segs write)
      ≡ done_disk (xfer_segments d sector cur segs write)
unfolding sbull_request xfer_segments
sbull_request-xfer_segments [] d sector cur write = refl
sbull_request-xfer_segments (b ∷ bs) d sector cur write =
    elim (Option-cases (sbull_transfer d sector cur b write)) [
      | inl e ↦ rw e refl
      | inr (r, e) ↦ rw e (
          rw (sbull_request-xfer_segments bs r.0 (sector + cur) cur write)
            (rest r.1 (xfer_segments r.0 (sector + cur) cur bs write)))
    ]
  where
    rest :
        (b' : List ℕ) (o : Option (Disk × List (List ℕ)))
        → (done_disk o >>= λ t. some (t.0, (b', true) ∷ t.1))
          ≡ done_disk (o >>= λ t. some (t.0, b' ∷ t.1))
    rest b' none = refl
    rest b' (some t) = refl
