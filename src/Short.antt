-- ===== src/Short.antt =====
-- The interrupt driver of a parallel port (short/short.c): its port device, the circular buffer of text
-- records that its interrupt handlers fill, and their bottom half. Pointers into the page are offsets, and
-- those into the array of times are indices. The times are never taken, since the calls are commented out:
-- the array stays 0, and the local variables of two handlers hold anything.
pub mod Probe
pub mod Drain
mod Tests
use device_drivers_lab_proje.Prelude.{
  ℕ, zero, suc, ◌+◌, ◌-◌, ◌*◌, ◌/◌, ◌%◌, ◌^◌, Bool, true, false, Option, none, some, List, [], ◌∷◌,
  ◌++◌, if◌then◌else◌, ltb, leb, ◌==◌, min, length, take, drop, splice, replicate,
}
use device_drivers_lab_proje.Prelude.Int.{ℤ, pos, efault, enomem, einval, erestartsys}
use device_drivers_lab_proje.Circular.{page_size}

-- The variables of the driver, whether its bottom half is queued, and the bytes put out, each with the offset
-- of its port, and the texts put at the head, the first one first.
pub record Short : Type 0 where
  pub buffer : List ℕ
  pub head : ℕ
  pub tail : ℕ
  pub tv_head : ℕ
  pub tv_tail : ℕ
  pub wq_count : ℕ
  pub queued : Bool
  pub ports : List (ℕ × ℕ)
  pub texts : List (List ℕ)

unfoldable pub short_incr_bp : ℕ → ℕ → ℕ
short_incr_bp index delta = if leb page_size (index + delta) then 0 else index + delta

abbrev pub nr_timeval : ℕ
nr_timeval = 512

unfoldable pub short_incr_tv : ℕ → ℕ
short_incr_tv tvp = if tvp == nr_timeval - 1 then 0 else tvp + 1

-- `sprintf` at the head, which ends the text with a 0, and the step of the head.
unfoldable pub put_text : List ℕ → Short → Short
unfolding short_incr_bp
put_text text s = record s {
  buffer = splice s.head (text ++ (0 ∷ [])) s.buffer;
  head = short_incr_bp s.head (length text);
  texts = s.texts ++ (text ∷ []);
}

-- `%08u.%06u\n` of a time that is 0.
abbrev pub zero_time : List ℕ
zero_time = replicate 8 48 ++ (46 ∷ (replicate 6 48 ++ (10 ∷ [])))

-- `text` is what `sprintf` makes of the local variable; none is the BUG_ON.
unfoldable pub short_interrupt : List ℕ → Short → Option Short
unfolding put_text
short_interrupt text s = if length text == 16 then some (put_text text s) else none

-- Whether the interrupt was the driver's, and the state; `value` is what the data port holds.
unfoldable pub short_sh_interrupt : ℕ → List ℕ → Short → Bool × Short
unfolding put_text
short_sh_interrupt value text s =
    if value / 2 ^ 7 % 2 == 0
    then (false, s)
    else (true, put_text text (record s { ports = s.ports ++ ((0, value % 2 ^ 7) ∷ []) }))

-- `short_wq_interrupt` and `short_tl_interrupt`, which queue a work item and a tasklet.
unfoldable pub short_bh_interrupt : Short → Short
unfolding short_incr_tv
short_bh_interrupt s = record s {
  tv_head = short_incr_tv s.tv_head;
  queued = true;
  wq_count = s.wq_count + 1;
}

-- One round of the bottom half's loop, and the loop on fuel: none where the fuel is used up.
unfoldable pub put_time : Short → Short
unfolding put_text short_incr_tv
put_time s = let s1 = put_text zero_time s in record s1 { tv_tail = short_incr_tv s.tv_tail }

unfoldable pub time_loop : ℕ → Short → Option Short
unfolding put_time
time_loop zero s = none
time_loop (suc fuel) s =
    let rest = time_loop fuel (put_time s) in
    if (put_time s).tv_tail == s.tv_head then some (put_time s) else rest

-- `count_text` is `bh after %6i\n` of a number.
unfoldable pub short_do_tasklet : ℕ → (ℕ → List ℕ) → Short → Option Short
unfolding time_loop put_text
short_do_tasklet fuel count_text s =
    time_loop fuel (put_text (count_text s.wq_count) (record s { wq_count = 0; queued = false }))

-- What a call returns and leaves, with the bytes for a reader.
pub record Reply : Type 0 where
  pub status : ℤ
  pub dev : Short
  pub bytes : List ℕ

-- From `count0 is the number of readable data bytes` on.
unfoldable pub read_ready : Bool → ℕ → Short → Reply
unfolding short_incr_bp
read_ready fault count s =
    let count0 = if ltb s.head s.tail then page_size - s.tail else s.head - s.tail in
    let n = min count count0 in
    if fault then record { status = efault; dev = s; bytes = [] } else record {
      status = pos n;
      dev = record s { tail = short_incr_bp s.tail n };
      bytes = take n (drop s.tail s.buffer);
    }

-- What passes before a reader looks again: the texts of the interrupts, and whether a signal is there.
pub record Wake : Type 0 where
  pub texts : List (List ℕ)
  pub signal : Bool

abbrev pub put_texts : List (List ℕ) → Short → Short
put_texts [] s = s
put_texts (text ∷ texts) s = put_texts texts (put_text text s)

unfoldable pub short_i_read : List Wake → Bool → ℕ → Short → Option Reply
unfolding read_ready put_text
short_i_read [] fault count s = if s.head == s.tail then none else some (read_ready fault count s)
short_i_read (w ∷ ws) fault count s =
    let s1 = put_texts w.texts s in
    let later = short_i_read ws fault count s1 in
    if s.head == s.tail
    then if w.signal then some (record { status = erestartsys; dev = s1; bytes = [] }) else later
    else some (read_ready fault count s)

-- The bytes of `short_i_write`: 0xff and 0 in turn, `written` of them being out already.
abbrev pub toggles : ℕ → ℕ → ℕ → List (ℕ × ℕ)
toggles odd written zero = []
toggles odd written (suc n) = (0, 255 * ((suc written + odd) % 2)) ∷ toggles odd (suc written) n

-- The result, the position and the state.
unfoldable pub short_i_write : ℕ → ℕ → Short → ℤ × ℕ × Short
short_i_write count f_pos s =
    (pos count, f_pos + count, record s { ports = s.ports ++ toggles (f_pos % 2) 0 count })

-- `enum short_modes`: the mode of a minor number, none for one that is not defined.
unfoldable pub known_mode : Bool → ℕ → Bool
known_mode use_mem minor = if use_mem then true else ltb (minor / 2 ^ 4 % 2 ^ 3) 3

-- `do_short_read`: `data` are the bytes that the port gives. Each mode reads them one by one.
unfoldable pub do_short_read : Bool → Bool → Bool → ℕ → List ℕ → ℤ × List ℕ
unfolding known_mode
do_short_read ok use_mem fault minor data_bytes =
    if ok
    then if known_mode use_mem minor
      then if ltb 0 (length data_bytes)
        then if fault then (efault, []) else (pos (length data_bytes), data_bytes)
        else (pos 0, [])
      else (einval, [])
    else (enomem, [])

abbrev pub to_port : ℕ → List ℕ → List (ℕ × ℕ)
to_port port [] = []
to_port port (b ∷ bs) = (port, b) ∷ to_port port bs

-- `do_short_write`: the result, what went to the port, and whether its buffer is freed.
unfoldable pub do_short_write : Bool → Bool → Bool → ℕ → List ℕ → ℤ × List (ℕ × ℕ) × Bool
unfolding known_mode
do_short_write ok use_mem fault minor bs =
    if ok
    then if fault
      then (efault, [], false)
      else if known_mode use_mem minor
      then (pos (length bs), to_port (minor % 2 ^ 4) bs, true)
      else (einval, [], true)
    else (enomem, [], true)
