-- ===== src/Shortprint.antt =====
-- The printer driver (shortprint/shortprint.c, shortprint/shortprint.h): a writer fills a circular buffer
-- of a page, and a work item strobes its bytes out to the printer one by one. Pointers into the two pages
-- are offsets here. The waits for the printer's busy bit are taken to end, and what a copy
-- that faults leaves in the free part of the page is not modelled.
pub mod Queue
pub mod Order
pub mod Progress
pub mod Setup
mod Tests
use device_drivers_lab_proje.Prelude.{
  ℕ, zero, suc, ◌+◌, ◌-◌, ◌/◌, ◌%◌, ◌^◌, Bool, true, false, not, ◌||◌, Option, none, some, List, [],
  ◌∷◌, ◌++◌, if◌then◌else◌, ltb, leb, ◌==◌, min, length, get_or, take, drop, splice, replicate,
}
pub use device_drivers_lab_proje.Circular.{page_size}
use device_drivers_lab_proje.Prelude.Int.{ℤ, pos, efault, erestartsys}

-- What `shortp_do_write` puts out: the byte, and the control register with the strobe and without it.
pub record Strobe : Type 0 where
  pub data_byte : ℕ
  pub high : ℕ
  pub low : ℕ

-- The variables of the driver, and what it has put out, the first byte first.
pub record Shortp : Type 0 where
  pub in_buffer : List ℕ
  pub in_head : ℕ
  pub in_tail : ℕ
  pub out_buffer : List ℕ
  pub out_head : ℕ
  pub out_tail : ℕ
  pub output_active : Bool
  pub timer : Bool
  pub work : Bool
  pub strobes : List Strobe

unfoldable pub shortp_incr_bp : ℕ → ℕ → ℕ
shortp_incr_bp index delta = if leb page_size (index + delta) then 0 else index + delta

unfoldable pub shortp_incr_out_bp : ℕ → ℕ → ℕ
shortp_incr_out_bp bp incr = if leb page_size (bp + incr) then bp + incr - page_size else bp + incr

unfoldable pub shortp_out_space : Shortp → ℕ
shortp_out_space s =
    if leb s.out_tail s.out_head
    then if s.out_tail == 0 then page_size - s.out_head - 1 else page_size - s.out_head
    else s.out_tail - s.out_head - 1

-- `cr` is what the control register holds; the strobe is its lowest bit.
unfoldable pub shortp_do_write : ℕ → Shortp → Shortp
unfolding shortp_incr_out_bp
shortp_do_write cr s = record s {
  timer = true;
  out_tail = shortp_incr_out_bp s.out_tail 1;
  strobes =
      s.strobes
      ++ (record {
        data_byte = get_or s.out_buffer s.out_tail 0;
        high = cr - cr % 2 + 1;
        low = cr - cr % 2;
      }
          ∷ []);
}

unfoldable pub shortp_start_output : Shortp → Shortp
shortp_start_output s =
    if s.output_active then s else record s { output_active = true; timer = true; work = true }

-- `%08u.%06u\n` of `shortp_tv`, which nothing sets: the interrupt handler's call is commented out.
abbrev pub time_record : List ℕ
time_record = replicate 8 48 ++ (46 ∷ (replicate 6 48 ++ (10 ∷ [])))

-- The `read` side of the work item: what `sprintf` writes ends with a 0, which the next record overwrites.
unfoldable pub log_time : Shortp → Shortp
unfolding shortp_incr_bp
log_time s = record s {
  in_buffer = splice s.in_head (time_record ++ (0 ∷ [])) s.in_buffer;
  in_head = shortp_incr_bp s.in_head (length time_record);
}

-- Under the lock of the work item.
unfoldable pub output_section : ℕ → Shortp → Shortp
unfolding shortp_do_write
output_section cr s =
    if s.out_head == s.out_tail
    then record s { output_active = false; timer = false }
    else shortp_do_write cr s

unfoldable pub shortp_do_work : ℕ → Shortp → Shortp
unfolding output_section log_time
shortp_do_work cr s = log_time (output_section cr (record s { work = false }))

-- Whether the work item wakes the writers.
abbrev pub wakes_writers : Shortp → Bool
wakes_writers s = ltb (page_size / 2) ((page_size + s.out_tail - s.out_head) % page_size)

-- Whether the interrupt was the driver's, and the state.
unfoldable pub shortp_interrupt : Shortp → Bool × Shortp
shortp_interrupt s = if not s.output_active then (false, s) else (true, record s { work = true })

-- `GetIntrTimerCallback`: `status` is the status register, with SP_SR_BUSY in bit 7 and SP_SR_ACK in bit 6.
unfoldable pub get_intr_timer_callback : ℕ → Shortp → Shortp
unfolding shortp_interrupt
get_intr_timer_callback status s =
    let fired : Shortp = record s { timer = false } in
    if not s.output_active
    then fired
    else if (status / 2 ^ 7 % 2 == 0) || (status / 2 ^ 6 % 2 == 1)
    then record fired { timer = true }
    else (shortp_interrupt fired).1

-- What passes before a process looks again: the runs of the work item, each by what the control register
-- holds, and whether a signal is there. `fault` is whether the copy that may follow fails.
pub record Turn : Type 0 where
  pub runs : List ℕ
  pub signal : Bool
  pub fault : Bool

unfoldable pub do_works : List ℕ → Shortp → Shortp
unfolding shortp_do_work
do_works [] s = s
do_works (cr ∷ crs) s = do_works crs (shortp_do_work cr s)

-- `Move data into the buffer`: `n` of the caller's bytes, which fit before the end of the page.
unfoldable pub move_in : ℕ → List ℕ → Shortp → Shortp
unfolding shortp_incr_out_bp
move_in n bs s = record s {
  out_buffer = splice s.out_head (take n bs) s.out_buffer;
  out_head = shortp_incr_out_bp s.out_head n;
}

-- What a call returns and leaves, with the bytes for a reader.
pub record Reply : Type 0 where
  pub status : ℤ
  pub dev : Shortp
  pub bytes : List ℕ

-- The loop of `shortp_write`, with the mutex held: `bs` are the bytes that are left. Where the turns end,
-- the writer is asleep.
unfoldable pub write_loop : List Turn → List ℕ → ℕ → Shortp → Option Reply
unfolding shortp_out_space move_in shortp_start_output do_works
write_loop ts [] written s = some (record { status = pos written; dev = s; bytes = [] })
write_loop [] (b ∷ bs) written s = none
write_loop (t ∷ ts) (b ∷ bs) written s =
    let s1 = do_works t.runs s in
    let n = min (shortp_out_space s1) (length (b ∷ bs)) in
    let later = write_loop ts (b ∷ bs) written s1 in
    let next =
      write_loop ts (drop n (b ∷ bs)) (written + n) (shortp_start_output (move_in n (b ∷ bs) s1)) in
    if shortp_out_space s1 == 0
    then if t.signal then some (record { status = pos written; dev = s1; bytes = [] }) else later
    else if t.fault
    then some (record { status = efault; dev = s1; bytes = [] })
    else next

unfoldable pub shortp_write : Bool → List Turn → List ℕ → Shortp → Option Reply
unfolding write_loop
shortp_write interrupted ts bs s =
    if interrupted
    then some (record { status = erestartsys; dev = s; bytes = [] })
    else write_loop ts bs 0 s

-- From `count0 is the number of readable data bytes` on.
unfoldable pub read_ready : Bool → ℕ → Shortp → Reply
unfolding shortp_incr_bp
read_ready fault count s =
    let count0 = if ltb s.in_head s.in_tail then page_size - s.in_tail else s.in_head - s.in_tail in
    let n = min count count0 in
    if fault then record { status = efault; dev = s; bytes = [] } else record {
      status = pos n;
      dev = record s { in_tail = shortp_incr_bp s.in_tail n };
      bytes = take n (drop s.in_tail s.in_buffer);
    }

unfoldable pub shortp_read : List Turn → Bool → ℕ → Shortp → Option Reply
unfolding read_ready do_works
shortp_read [] fault count s =
    if s.in_head == s.in_tail then none else some (read_ready fault count s)
shortp_read (t ∷ ts) fault count s =
    let s1 = do_works t.runs s in
    let later = shortp_read ts fault count s1 in
    if s.in_head == s.in_tail
    then if t.signal then some (record { status = erestartsys; dev = s1; bytes = [] }) else later
    else some (read_ready fault count s)
