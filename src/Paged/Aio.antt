-- ===== src/Paged/Aio.antt =====
-- Asynchronous transfers: `sculld_defer_op` (sculld/main.c), and its kin that go through a vector of
-- segments (scullp/main.c, scullv/main.c, scullc/main.c).
use device_drivers_lab_proje.Prelude.{
  ℕ, suc, ◌+◌, ◌-◌, ◌%◌, ◌^◌, ◌≡◌, ◌<◌, refl, arith, Bool, true, Option, none, some, List, [], ◌∷◌,
  if◌then◌else◌,
}
use device_drivers_lab_proje.Prelude.Int.{ℤ, pos, negsuc, to_int, to_u64, signed, errno}
use device_drivers_lab_proje.Paged.{
  Outcome, done, ◌>>=◌, PagedDev, Reply, Kind, Globals, paged_read, paged_write,
}

-- A read or a write of one buffer, from the device and the position that it is called with.
abbrev pub Transfer : Type 0
Transfer = PagedDev → ℕ → Outcome Reply

-- `struct async_work`
pub record AsyncWork : Type 0 where
  pub iocb : ℕ
  pub result : ℤ

-- What a call returns and leaves, and the work that it has scheduled.
pub record Deferred : Type 0 where
  pub status : ℤ
  pub dev : PagedDev
  pub queued : Option AsyncWork

abbrev pub eiocbqueued : ℤ
eiocbqueued = errno 529

-- From `If this is a synchronous IOCB` on: `returned` is the result as the function returns it, and
-- `result` as the field of the work keeps it.
abbrev pub complete_or_defer : Bool → Bool → ℕ → ℤ → ℤ → PagedDev → Deferred
complete_or_defer is_sync alloc iocb returned result dev =
    if is_sync
    then record { status = returned; dev = dev; queued = none }
    else if alloc
    then record {
      status = eiocbqueued;
      dev = dev;
      queued = some (record { iocb = iocb; result = result });
    }
    else record { status = returned; dev = dev; queued = none }

-- `sculld_defer_op`, whose result is an int.
unfoldable pub sculld_defer_op : Bool → Bool → ℕ → Transfer → PagedDev → ℕ → Outcome Deferred
sculld_defer_op is_sync alloc iocb transfer dev p = transfer dev p >>= λ r.
    done (complete_or_defer is_sync alloc iocb (to_int r.status) (to_int r.status) r.dev)

-- The loop over the segments: `result` is a size_t, and so is `count`, which is never below 0.
unfoldable pub transfer_segments : List Transfer → PagedDev → ℕ → ℕ → Outcome (ℕ × PagedDev)
transfer_segments [] dev p result = done (result, dev)
transfer_segments (transfer ∷ rest) dev p result = transfer dev p >>= λ r.
    transfer_segments rest r.dev r.f_pos ((result + to_u64 r.status) % 2 ^ 64)

-- `scullp_defer_op` and `scullv_defer_op`, which return an int.
unfoldable pub int_defer_op : Bool → Bool → ℕ → List Transfer → PagedDev → ℕ → Outcome Deferred
unfolding transfer_segments
int_defer_op is_sync alloc iocb segments dev p = transfer_segments segments dev p 0 >>= λ r.
    let result = signed (2 ^ 31) (r.0 % 2 ^ 32) in
    done (complete_or_defer is_sync alloc iocb result result r.1)

-- `scullc_defer_op`, whose size_t its callers return as an ssize_t.
unfoldable pub long_defer_op : Bool → Bool → ℕ → List Transfer → PagedDev → ℕ → Outcome Deferred
unfolding transfer_segments
long_defer_op is_sync alloc iocb segments dev p = transfer_segments segments dev p 0 >>= λ r. done (
    complete_or_defer is_sync alloc iocb (signed (2 ^ 63) r.0) (signed (2 ^ 31) (r.0 % 2 ^ 32)) r.1)

-- `sculld_do_deferred_op`: what `aio_complete` is told, of which request.
unfoldable pub do_deferred_op : AsyncWork → ℕ × ℤ
do_deferred_op stuff = (stuff.iocb, stuff.result)

-- A segment of a vector and what befalls its transfer: as the arguments of `paged_read`, and of
-- `paged_write`.
pub record ReadSegment : Type 0 where
  pub interrupted : Bool
  pub fault : Bool
  pub a : List Bool
  pub iov_len : ℕ

pub record WriteSegment : Type 0 where
  pub interrupted : Bool
  pub fault : Option ℕ
  pub a : List Bool
  pub junk : ℕ → ℕ
  pub iov_base : List ℕ

abbrev pub reading : Kind → ReadSegment → Transfer
reading k x dev p = paged_read k x.interrupted x.fault x.a dev x.iov_len p

abbrev pub writing : Kind → Globals → WriteSegment → Transfer
writing k g x dev p = paged_write k g x.interrupted x.fault x.a x.junk dev x.iov_base p

abbrev pub readings : Kind → List ReadSegment → List Transfer
readings k [] = []
readings k (x ∷ xs) = reading k x ∷ readings k xs

abbrev pub writings : Kind → Globals → List WriteSegment → List Transfer
writings k g [] = []
writings k g (x ∷ xs) = writing k g x ∷ writings k g xs

-- A vector of two segments of which the first fails with the error -(n + 1) and the second transfers
-- more than `n` bytes: the loop goes on after the error, and a synchronous caller gets a count that is
-- the bytes of the second less n + 1.
int_defer_op_error :
    (alloc : Bool) (iocb n m : ℕ) (t u : Transfer) (dev : PagedDev) (p : ℕ) {r r' : Reply}
    → t dev p ≡ done r
    → r.status ≡ negsuc n
    → u r.dev r.f_pos ≡ done r'
    → r'.status ≡ pos m
    → n < m
    → m < 2 ^ 31
    → int_defer_op true alloc iocb (t ∷ u ∷ []) dev p
      ≡ done (record { status = pos (m - suc n); dev = r'.dev; queued = none })
unfolding int_defer_op transfer_segments
int_defer_op_error alloc iocb n m t u dev p {r} {r'} e f e' f' lt le =
    let sum : ((0 + to_u64 r.status) % 2 ^ 64 + to_u64 r'.status) % 2 ^ 64 ≡ m - suc n =
      rw (f, f') (ground arith) in
    let short : signed (2 ^ 31) ((m - suc n) % 2 ^ 32) ≡ pos (m - suc n) = ground arith in
    rw e (rw e' (rw sum (rw short refl)))
