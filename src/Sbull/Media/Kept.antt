-- ===== src/Sbull/Media/Kept.antt =====
-- The medium under all orders of opens, releases and the timer (sbull/sbull.c): who can lose data, and
-- when.
use device_drivers_lab_proje.Prelude.{
  ℕ, suc, ◌+◌, ◌*◌, ◌^◌, ◌<◌, ◌≡◌, refl, sym, ◌∙◌, ap, ap₂, arith, Bool, true, false, ◌||◌, not,
  Option, none, some, List, ◌++◌, leb, length, replicate, splice, append-nil, drop_all,
  length-replicate,
}
use mathlib.Core.Path.{subst}
use device_drivers_lab_proje.Prelude.Int.{ℤ, pos, negsuc, ◌+ℤ◌, eqb_ℤ, to_u64, to_short}
use device_drivers_lab_proje.Sbull.Media.{
  SbullDev, CheckLaws, sbull_media_changed, sbull_revalidate, open_section, stop_timer, sbull_open,
  sbull_release, sbull_invalidate, is_null,
}

-- A device, with the opens that have stopped the timer and not entered the section yet, and those
-- that hold the device.
pub record Shared : Type 0 where
  pub dev : SbullDev
  pub opening : ℕ
  pub holders : ℕ

module _ (check_disk_change : SbullDev → Option SbullDev) (hz : ℕ) where
  -- All that the driver does to a device but transfers; `revalidate` is a call by the block layer.
  pub data Step : Shared → Shared → Type 0 where
    begin : (t : Shared) → Step t (record t { dev = stop_timer t.dev; opening = suc t.opening })
    enter :
        (t : Shared) (n : ℕ) (d : SbullDev)
        → t.opening ≡ suc n
        → open_section check_disk_change t.dev ≡ some d
        → Step t (record { dev = d; opening = n; holders = suc t.holders })
    leave :
        (t : Shared) (n now : ℕ)
        → t.holders ≡ suc n
        → Step t (record t { dev = sbull_release hz now t.dev; holders = n })
    expire :
        (t : Shared) (e : ℕ)
        → t.dev.timer ≡ some e
        → Step t (record t { dev = sbull_invalidate (record t.dev { timer = none }) })
    revalidate :
        (t : Shared) (d : SbullDev)
        → sbull_revalidate t.dev ≡ some d
        → Step t (record t { dev = d })

  -- Steps in a row, someone holding the device before each, and no more after it than a short counts.
  pub data InUse (t : Shared) : Shared → Type 0 where
    here : InUse t t
    next : {u v : Shared} → InUse t u → 0 < u.holders → Step u v → v.holders < 2 ^ 15 → InUse t v

-- The users are the holders, no change of the medium is pending, and the memory has the device's size.
pub record IsMounted (t : Shared) : Type 0 where
  pub counted : t.dev.users ≡ pos t.holders
  pub few : t.holders < 2 ^ 15
  pub same_medium : sbull_media_changed t.dev ≡ false
  pub there :
      (bs : List ℕ) × (t.dev.bytes ≡ some bs)
      × (t.dev.size ≡ pos (length bs))
      × (length bs < 2 ^ 31)

module _ (check_disk_change : SbullDev → Option SbullDev) (laws : CheckLaws check_disk_change)
    (hz : ℕ) where
  -- An open while others hold the device does not look at the medium.
  open_in_use :
      (d : SbullDev)
      → eqb_ℤ d.users (pos 0) ≡ false
      → open_section check_disk_change d ≡ some (record d { users = to_short (d.users +ℤ pos 1) })
  unfolding open_section
  open_in_use d used = rw used refl

  -- An open of a device whose medium was taken away clears it.
  reopen :
      (size : ℤ) (bs : List ℕ) (changed : Bool)
      → size ≡ pos (length bs)
      → length bs < 2 ^ 31
      → sbull_open check_disk_change (
          sbull_invalidate (record {
            size = size;
            bytes = some bs;
            users = pos 0;
            media_change = changed;
            timer = none;
          }))
        ≡ some (record {
          size = size;
          bytes = some (replicate (length bs) 0);
          users = pos 1;
          media_change = false;
          timer = none;
        })
  unfolding sbull_invalidate sbull_open sbull_revalidate sbull_media_changed
  reopen size bs changed e small =
      let d : SbullDev = record {
        size = size;
        bytes = some bs;
        users = pos 0;
        media_change = true;
        timer = none;
      } in
      let n : to_u64 size ≡ length bs = rw e (omega (arith, small)) in
      let fits : leb (length bs) (length bs) ≡ true = ground arith in
      let blank : splice 0 (replicate (length bs) 0) bs ≡ replicate (length bs) 0 =
        ap (λ l. replicate (length bs) 0 ++ l)
          (drop_all (0 + length (replicate (length bs) 0)) bs
            (omega (arith, length-replicate {A = ℕ} (length bs) 0)))
        ∙ append-nil (replicate (length bs) 0) in
      rw (laws.changed d refl) (rw n (rw fits (rw blank refl)))

  enter_kept :
      (t : Shared) (n : ℕ) (d : SbullDev)
      → IsMounted t
      → 0 < t.holders
      → suc t.holders < 2 ^ 15
      → open_section check_disk_change t.dev ≡ some d
      → IsMounted (record { dev = d; opening = n; holders = suc t.holders })
        × (d.bytes ≡ t.dev.bytes)
  unfolding open_section sbull_media_changed
  enter_kept t n d v some_hold few e =
      let used : eqb_ℤ t.dev.users (pos 0) ≡ false = ground arith in
      let now : some (record t.dev { users = to_short (t.dev.users +ℤ pos 1) }) ≡ some d =
        sym (open_in_use t.dev used) ∙ e in
      let is_d : record t.dev { users = to_short (t.dev.users +ℤ pos 1) } ≡ d = cc in
      let more : to_short (t.dev.users +ℤ pos 1) ≡ pos (suc t.holders) = ground arith in
      subst
        (λ x.
          IsMounted (record { dev = x; opening = n; holders = suc t.holders })
          × (x.bytes ≡ t.dev.bytes))
        is_d
        (record { counted = more; few = few; same_medium = v.same_medium; there = v.there }, refl)

  not_changed : (d : SbullDev) → sbull_media_changed d ≡ false → sbull_revalidate d ≡ some d
  unfolding sbull_media_changed sbull_revalidate
  not_changed d h = rw h refl

  Step-kept :
      {t u : Shared}
      → Step check_disk_change hz t u
      → 0 < t.holders
      → u.holders < 2 ^ 15
      → IsMounted t
      → IsMounted u × (u.dev.bytes ≡ t.dev.bytes)
  unfolding stop_timer sbull_release sbull_invalidate sbull_media_changed
  Step-kept (begin t) p f v = (
    record { counted = v.counted; few = v.few; same_medium = v.same_medium; there = v.there },
    refl,
  )
  Step-kept (enter t n d o e) p f v = enter_kept t n d v p f e
  Step-kept (leave t n now h) p f v = (
    record {
      counted = ground arith;
      few = omega (arith, v.few);
      same_medium = v.same_medium;
      there = v.there;
    },
    refl,
  )
  Step-kept (expire t x e) p f v =
      let used : (not (eqb_ℤ t.dev.users (pos 0)) || is_null t.dev.bytes) ≡ true = ground arith in
      rw used (
        record { counted = v.counted; few = v.few; same_medium = v.same_medium; there = v.there },
        refl,
      )
  Step-kept (revalidate t d e) p f v =
      let still : some t.dev ≡ some d = sym (not_changed t.dev v.same_medium) ∙ e in
      let is_d : t.dev ≡ d = cc in
      subst (λ x. IsMounted (record t { dev = x }) × (x.bytes ≡ t.dev.bytes)) is_d
        (
          record { counted = v.counted; few = v.few; same_medium = v.same_medium; there = v.there },
          refl,
        )

  -- Whatever others open and release, and whenever the timer expires or the block layer has the driver
  -- look at the medium again: as long as someone holds a device that is mounted without a pending change
  -- of the medium, and fewer than 2 ^ 15 do, its bytes stay as they are, but for the transfers, no change
  -- becomes pending, and it stays mounted.
  pub InUse-kept :
      {t u : Shared}
      → IsMounted t
      → InUse check_disk_change hz t u
      → IsMounted u × (u.dev.bytes ≡ t.dev.bytes)
  InUse-kept v here = (v, refl)
  InUse-kept v (next r p s f) =
      let (w, e) = InUse-kept v r in let (w', e') = Step-kept s p f w in (w', e' ∙ e)

  -- Once the last holder has released the device and the timer has expired, the next open finds a new
  -- medium: all bytes 0, and no change pending.
  sbull_release-sbull_open :
      (t : Shared) (now : ℕ) (bs : List ℕ)
      → IsMounted t
      → t.holders ≡ 1
      → t.dev.bytes ≡ some bs
      → let closed = sbull_release hz now t.dev in
        (closed.timer ≡ some (now + 30 * hz))
        × (sbull_open check_disk_change (sbull_invalidate (record closed { timer = none }))
            ≡ some (record {
              size = t.dev.size;
              bytes = some (replicate (length bs) 0);
              users = pos 1;
              media_change = false;
              timer = none;
            }))
  unfolding sbull_release sbull_invalidate sbull_open sbull_revalidate sbull_media_changed
  sbull_release-sbull_open t now bs v one e =
      let none_left : to_short (t.dev.users +ℤ negsuc 0) ≡ pos 0 = ground (arith, v.counted, one) in
      let same : v.there.0 ≡ bs = cc in
      (
        rw none_left refl,
        ap₂
              (λ us by. sbull_open check_disk_change (
                sbull_invalidate (record {
                  size = t.dev.size;
                  bytes = by;
                  users = us;
                  media_change = t.dev.media_change;
                  timer = none;
                })))
              none_left e
            ∙ reopen t.dev.size bs t.dev.media_change (v.there.2 ∙ ap (λ l. pos (length l)) same)
                (rw (← same) v.there.3),
      )
