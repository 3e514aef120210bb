-- ===== src/Ring.antt =====
-- worker/atomic_send_recv.h and .c: ranges of a ring buffer, the iovecs that cover their used and
-- unused bytes, `ring_buffer_append`, `ring_buffer_ltrim` and `ring_buffer_move`.
-- A buffer is the function from an offset to its byte; a pointer into it is its offset.
pub mod Offsets
pub mod Move
pub mod Contents
pub mod Transfer
mod Tests
use tud_crash_tolerant_proxy.Prelude.{
  ℕ, zero, suc, ◌+◌, ◌-◌, ◌%◌, ◌≤◌, ◌<◌, Bool, ◌&&◌, Option, none, some, List, [], ◌∷◌, ltb, leb,
  ◌==◌, if◌then◌else◌, add_size, sub_size, get_or, drop, tabulate,
}

-- `RING_BUFFER_SIZE`, 128 * 1024
abbrev pub ring_buffer_size : ℕ
ring_buffer_size = 131072

pub record RingBufferRange : Type 0 where
  pub start : ℕ
  pub len : ℕ
  pub shutdown : Bool

-- `char buf[RING_BUFFER_SIZE]`
abbrev pub Buffer : Type 0
Buffer = ℕ → ℕ

-- `struct iovec`: the base is an offset in the buffer that it points to.
pub record Iovec : Type 0 where
  pub base : ℕ
  pub len : ℕ

-- `memcpy(dst + at, src, n)`
abbrev pub memcpy : Buffer → ℕ → (ℕ → ℕ) → ℕ → Buffer
memcpy dst at src n i = if leb at i && ltb i (at + n) then src (i - at) else dst i

unfoldable pub set_iovec_used : RingBufferRange → List Iovec
set_iovec_used range =
    let end = add_size range.start range.len in
    let until_end = sub_size ring_buffer_size range.start in
    if leb end ring_buffer_size
    then record { base = range.start; len = range.len } ∷ []
    else record { base = range.start; len = until_end }
      ∷ record { base = 0; len = sub_size range.len until_end }
      ∷ []

-- `if(range->len == 0) range->start = 0;`, written to the range itself
unfoldable pub rewind_empty : RingBufferRange → RingBufferRange
rewind_empty range = if range.len == 0 then record range { start = 0 } else range

-- The iovecs of `set_iovec_unused`, after it has rewound an empty range.
unfoldable pub iovec_around : RingBufferRange → List Iovec
iovec_around range =
    let end = add_size range.start range.len in
    let skip = sub_size end ring_buffer_size in
    if range.start == 0
    then record { base = range.len; len = sub_size ring_buffer_size range.len } ∷ []
    else if leb ring_buffer_size end
    then record { base = skip; len = sub_size range.start skip } ∷ []
    else record { base = end; len = sub_size ring_buffer_size end }
      ∷ record { base = 0; len = range.start }
      ∷ []

unfoldable pub set_iovec_unused : RingBufferRange → List Iovec × RingBufferRange
set_iovec_unused range = (iovec_around (rewind_empty range), rewind_empty range)

unfoldable pub ring_buffer_ltrim : RingBufferRange → ℕ → RingBufferRange
ring_buffer_ltrim range size =
    if leb range.len size then record range { start = 0; len = 0 } else record range {
      start = add_size range.start size % ring_buffer_size;
      len = sub_size range.len size;
    }

-- The loop of `ring_buffer_append` over the iovecs that are left.
append_loop : Buffer → List Iovec → List ℕ → ℕ → ℕ → ℕ × Buffer
append_loop buf [] tail size copied = (copied, buf)
append_loop buf (iov ∷ iovs) tail size copied =
    let n = if ltb size iov.len then size else iov.len in
    let rest =
      append_loop (memcpy buf iov.base (λ k. get_or tail k 0) n) iovs (drop n tail)
        (sub_size size n) (add_size copied n) in
    if size == 0 then (copied, buf) else rest

-- The count of bytes, the buffer, and the range as `set_iovec_unused` leaves it: the length of the
-- range is the caller's to extend.
unfoldable pub ring_buffer_append :
    Buffer → RingBufferRange → List ℕ → ℕ → ℕ × Buffer × RingBufferRange
unfolding append_loop
ring_buffer_append buf range tail size =
    let (iovs, range') = set_iovec_unused range in
    let (copied, buf') = append_loop buf iovs tail size 0 in (copied, buf', range')

-- An iovec without its first `n` bytes; it is left behind once it is empty.
abbrev pub advance : Iovec → ℕ → List Iovec → List Iovec
advance v n rest =
    if sub_size v.len n == 0
    then rest
    else record { base = v.base + n; len = sub_size v.len n } ∷ rest

-- The `while` loop of `ring_buffer_move`; `none` when the fuel runs out.
unfoldable pub move_loop : ℕ → Buffer → Buffer → List Iovec → List Iovec → ℕ → Option (ℕ × Buffer)
move_loop zero dst src v_dst v_src copied = none
move_loop (suc fuel) dst src [] v_src copied = some (copied, dst)
move_loop (suc fuel) dst src (d ∷ ds) [] copied = some (copied, dst)
move_loop (suc fuel) dst src (d ∷ ds) (s ∷ ss) copied =
    let n = if leb d.len s.len then d.len else s.len in
    move_loop fuel (memcpy dst d.base (λ k. src (s.base + k)) n) src (advance d n ds)
      (advance s n ss) (add_size copied n)

-- What `ring_buffer_move` leaves behind.
pub record Moved : Type 0 where
  pub copied : ℕ
  pub dst_buf : Buffer
  pub dst_range : RingBufferRange
  pub src_range : RingBufferRange

move_result : RingBufferRange → RingBufferRange → Option (ℕ × Buffer) → Option Moved
move_result dst_range src_range none = none
move_result dst_range src_range (some (copied, buf)) = some (record {
  copied = copied;
  dst_buf = buf;
  dst_range = record dst_range { len = add_size dst_range.len copied };
  src_range = ring_buffer_ltrim src_range copied;
})

-- Each round of the loop uses up one of the at most four iovecs.
unfoldable pub ring_buffer_move : Buffer → RingBufferRange → Buffer → RingBufferRange → Option Moved
unfolding move_result
ring_buffer_move dst_buf dst_range src_buf src_range =
    let (v_dst, dst_range') = set_iovec_unused dst_range in
    let v_src = set_iovec_used src_range in
    move_result dst_range' src_range (move_loop 5 dst_buf src_buf v_dst v_src 0)

-- The bytes of a range, oldest first.
abbrev pub contents : Buffer → RingBufferRange → List ℕ
contents buf range = tabulate range.len (λ k. buf ((range.start + k) % ring_buffer_size))

-- A range of bytes inside the buffer.
pub record IsValid (range : RingBufferRange) : Type 0 where
  pub start_in : range.start < ring_buffer_size
  pub len_in : range.len ≤ ring_buffer_size
