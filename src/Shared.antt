-- ===== src/Shared.antt =====
-- common/shared_memory.h and .c: a connection, and the shared memory as the array of connections.
-- A file descriptor is a number, or `none` for the negative numbers that stand for a closed one.
pub mod Laws
pub mod Status
mod Tests
use tud_crash_tolerant_proxy.Prelude.{
  ℕ, zero, suc, ◌+◌, ◌-◌, ◌*◌, ◌/◌, ◌%◌, Bool, true, false, Option, none, some, List, [], ◌∷◌, ◌++◌,
  ltb, leb, ◌==◌, if◌then◌else◌, add_size, sub_size, take, drop,
}
use tud_crash_tolerant_proxy.Ring.{Buffer, RingBufferRange}
use tud_crash_tolerant_proxy.Atomic.{AtomicRingBuffer}
use tud_crash_tolerant_proxy.Transform.{Context}

-- `struct connection_endpoint`: the listener's and the worker's file descriptor, and the buffers
pub record Endpoint : Type 0 where
  pub fd0 : Option ℕ
  pub fd1 : Option ℕ
  pub rx : AtomicRingBuffer
  pub tx : AtomicRingBuffer

-- `struct connection`
pub record Connection : Type 0 where
  pub state : ℕ
  pub worker_pid : Option ℕ
  pub transform_ctx : Context
  pub downstream : Endpoint
  pub upstream : Endpoint

-- the connection states
abbrev pub conn_unused : ℕ
conn_unused = 0

abbrev pub conn_accepting : ℕ
conn_accepting = 1

abbrev pub conn_connecting : ℕ
conn_connecting = 2

abbrev pub conn_poll : ℕ
conn_poll = 3

abbrev pub conn_swap_buffers : ℕ
conn_swap_buffers = 4

abbrev pub conn_closing : ℕ
conn_closing = 5

abbrev pub conn_error : ℕ
conn_error = 6

-- `state & CONN_STATE_BITS`
abbrev pub state_bits : ℕ → ℕ
state_bits state = state % 256

-- memory of zeros, as an initializer that names no field leaves it
abbrev pub zero_range : RingBufferRange
zero_range = record { start = 0; len = 0; shutdown = false }

abbrev pub zero_buffer : AtomicRingBuffer
zero_buffer = record {
  state = 0;
  msg_len = 0;
  active = false;
  range0 = zero_range;
  range1 = zero_range;
  buf = λ i. 0;
}

-- `(struct connection_endpoint){ .fd = { -1, -1 } }`
abbrev pub closed_endpoint : Endpoint
closed_endpoint = record { fd0 = none; fd1 = none; rx = zero_buffer; tx = zero_buffer }

abbrev pub zero_context : Context
zero_context = record { active = false; copy0 = 0; copy1 = 0 }

-- the connection that `shared_memory_get_or_append_connection` appends
abbrev pub unused_connection : Connection
unused_connection = record {
  state = conn_unused;
  worker_pid = none;
  transform_ctx = zero_context;
  downstream = closed_endpoint;
  upstream = closed_endpoint;
}

-- The file: the size that its header stores, in bytes, and the complete connections that it holds.
-- The mapping: how many bytes of it the process has mapped.
pub record SharedMemory : Type 0 where
  pub size : ℕ
  pub connections : List Connection
  pub mapped : ℕ

-- `offsetof(struct shared_memory, connections)`
abbrev pub header_size : ℕ
header_size = 8

-- What a call that returns an index comes to: the memory, and the slot or NULL.
pub record Slotted : Type 0 where
  pub memory : SharedMemory
  pub slot : Option ℕ

-- `entry` is `sizeof(struct connection)`.
module _ (entry : ℕ) where
  -- `COUNT_CONNECTIONS`
  unfoldable pub count_connections : SharedMemory → ℕ
  count_connections m = (m.mapped - header_size) / entry

  -- Whether the mapping follows the header; `mremap_ok` is whether mremap(2) succeeds, if it is called.
  unfoldable pub shared_memory_resize : Bool → SharedMemory → SharedMemory × Bool
  shared_memory_resize mremap_ok m =
      if m.size == m.mapped
      then (m, true)
      else if mremap_ok
      then (record m { mapped = m.size }, true)
      else (m, false)

  unfoldable pub copies : ℕ → List Connection
  copies zero = []
  copies (suc n) = unused_connection ∷ copies n

  -- `n` complete entries written from the index `at` on
  unfoldable pub write_entries : ℕ → ℕ → List Connection → List Connection
  unfolding copies
  write_entries at n cs = take at cs ++ (copies n ++ drop (at + n) cs)

  -- `shared_memory_append` where no other process changes the size: `written` is the count of bytes
  -- that pwritev(2) writes.
  unfoldable pub shared_memory_append : Bool → ℕ → ℕ → SharedMemory → SharedMemory × Bool
  unfolding shared_memory_resize write_entries
  shared_memory_append mremap_ok written count m =
      let current_length = (m.size - header_size) / entry in
      let m' = record m {
        size = m.size + written;
        connections = write_entries current_length (written / entry) m.connections;
      } in
      if ltb written (count * entry) then (m', false) else shared_memory_resize mremap_ok m'

  -- The lookup, after a resize of which this is the outcome.
  look_up : ℕ → SharedMemory × Bool → Slotted
  unfolding count_connections
  look_up slot (m, resized) = record {
    memory = m;
    slot = if resized then if ltb slot (count_connections m) then some slot else none else none;
  }

  unfoldable pub shared_memory_get_connection : Bool → ℕ → SharedMemory → Slotted
  unfolding look_up shared_memory_resize
  shared_memory_get_connection mremap_ok slot m = look_up slot (shared_memory_resize mremap_ok m)

  appended : ℕ → SharedMemory × Bool → Slotted
  appended slot (m, ok) = record { memory = m; slot = if ok then some slot else none }

  unfoldable pub or_append : Bool → ℕ → ℕ → Slotted → Slotted
  unfolding appended shared_memory_append count_connections
  or_append mremap_ok written slot s = elim s.slot [
    | some i ↦ s
    | none ↦ appended slot (
        shared_memory_append mremap_ok written
          (sub_size (add_size slot 1) (count_connections s.memory)) s.memory)
  ]

  -- The two calls of mremap(2) may differ.
  unfoldable pub shared_memory_get_or_append_connection :
      Bool → Bool → ℕ → ℕ → SharedMemory → Slotted
  unfolding or_append shared_memory_get_connection
  shared_memory_get_or_append_connection first_ok second_ok written slot m =
      or_append second_ok written slot (shared_memory_get_connection first_ok slot m)

  -- `none` for EINVAL; `ftruncate_ok` is whether ftruncate(2) succeeds.
  unfoldable pub shared_memory_truncate : Bool → Bool → ℕ → SharedMemory → SharedMemory × Bool
  unfolding shared_memory_resize
  shared_memory_truncate ftruncate_ok mremap_ok size m =
      if ltb m.size size
      then (m, false)
      else if ftruncate_ok
      then shared_memory_resize mremap_ok (record m {
        size = size;
        connections = take ((size - header_size) / entry) m.connections;
      })
      else (m, false)
