-- ===== src/Atomic.antt =====
-- worker/atomic_send_recv.c: `struct atomic_ring_buffer` and the state machine of `atomic_send` and
-- `atomic_recv`, one definition for each store to the shared memory.
-- `state & ATOMIC_SWAP` and `state & (1 << 7)` are read as `state % 128` and the bit above it.
pub mod Laws
pub mod Send
pub mod Recv
mod Tests
use tud_crash_tolerant_proxy.Prelude.{
  ℕ, ◌+◌, ◌*◌, ◌/◌, ◌%◌, Bool, true, false, not, ◌==◌, if◌then◌else◌, of_bool, bit_set, add_size,
}
use tud_crash_tolerant_proxy.Ring.{Buffer, RingBufferRange, ring_buffer_ltrim, rewind_empty}

pub record AtomicRingBuffer : Type 0 where
  pub state : ℕ
  pub msg_len : ℕ
  pub active : Bool
  pub range0 : RingBufferRange
  pub range1 : RingBufferRange
  pub buf : Buffer

-- `ATOMIC_INIT`, `ATOMIC_DO_SYSCALL` and `ATOMIC_SWAP`
abbrev pub atomic_init : ℕ
atomic_init = 0

abbrev pub atomic_do_syscall : ℕ
atomic_do_syscall = 1

abbrev pub atomic_swap : ℕ
atomic_swap = 127

-- `(unsigned int)-1`, the length that no system call returns
abbrev pub no_result : ℕ
no_result = 4294967295

-- The cases of `switch(state & ATOMIC_SWAP)`; the last one has the bit `state & (1 << 7)`.
pub data Phase : Type 0 where
  init do_syscall : Phase
  swap : Bool → Phase

unfoldable pub phase : ℕ → Phase
phase state =
    if state % 128 == atomic_swap
    then swap (bit_set state 7)
    else if state % 128 == atomic_do_syscall
    then do_syscall
    else init

-- `ATOMIC_SWAP | (b << 7)`
abbrev pub encode_swap : Bool → ℕ
encode_swap b = atomic_swap + 128 * of_bool b

-- `errno` after a failed call, as far as the callers tell values apart
pub data Errno : Type 0 where
  eintr eagain epipe eoverflow enotconn eexist ebadf einval erange other : Errno

-- What a function returns: -1 with `errno`, or a count.
pub data Result : Type 0 where
  error : Errno → Result
  returned : ℕ → Result

-- `ranges[i]`
abbrev pub range_at : AtomicRingBuffer → Bool → RingBufferRange
range_at b i = if i then b.range1 else b.range0

abbrev pub set_range : AtomicRingBuffer → Bool → RingBufferRange → AtomicRingBuffer
set_range b i r = record b {
  range0 = if i then b.range0 else r;
  range1 = if i then r else b.range1;
}

-- `*ACTIVE_RANGE(b)` and `*INACTIVE_RANGE(b)`
abbrev pub active_range : AtomicRingBuffer → RingBufferRange
active_range b = range_at b b.active

abbrev pub inactive_range : AtomicRingBuffer → RingBufferRange
inactive_range b = range_at b (not b.active)

-- The stores that both functions make.
abbrev pub store_prepare : AtomicRingBuffer → AtomicRingBuffer
store_prepare b = record b { msg_len = no_result }

abbrev pub store_state : ℕ → AtomicRingBuffer → AtomicRingBuffer
store_state s b = record b { state = s }

abbrev pub store_active : Bool → AtomicRingBuffer → AtomicRingBuffer
store_active a b = record b { active = a }

-- `buf->active = !buf->active`
abbrev pub store_flip : AtomicRingBuffer → AtomicRingBuffer
store_flip b = record b { active = not b.active }

-- `*INACTIVE_RANGE(buf) = *ACTIVE_RANGE(buf)`
unfoldable pub store_copy : AtomicRingBuffer → AtomicRingBuffer
store_copy b = set_range b (not b.active) (active_range b)

-- `ring_buffer_ltrim(INACTIVE_RANGE(buf), buf->mm.msg_len)`
unfoldable pub store_trim : AtomicRingBuffer → AtomicRingBuffer
store_trim b = set_range b (not b.active) (ring_buffer_ltrim (inactive_range b) b.msg_len)

-- the inactive range, as the active one with the received bytes
unfoldable pub store_extend : AtomicRingBuffer → AtomicRingBuffer
store_extend b =
    set_range b (not b.active)
      (record (active_range b) { len = add_size (active_range b).len b.msg_len })

-- the active range, as `set_iovec_unused` leaves it
unfoldable pub store_rewind : AtomicRingBuffer → AtomicRingBuffer
store_rewind b = set_range b b.active (rewind_empty (active_range b))
