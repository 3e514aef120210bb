-- ===== src/Accept.antt =====
-- common/accept.c: the search of an unused connection, and how it is claimed for accept(2). Of the
-- endpoint that accept(2) fills, the address is left out.
pub mod First
pub mod Laws
mod Tests
use tud_crash_tolerant_proxy.Prelude.{
  ℕ, zero, suc, ◌+◌, ◌-◌, ◌*◌, Bool, true, false, ◌&&◌, Option, none, some, List, [], ◌∷◌, length,
  get_or, set, ◌==◌, if◌then◌else◌,
}
use tud_crash_tolerant_proxy.Shared.{
  Connection, Endpoint, SharedMemory, Slotted, conn_unused, conn_accepting, closed_endpoint,
  zero_context, unused_connection, shared_memory_get_or_append_connection,
}

abbrev pub connection_at : List Connection → ℕ → Connection
connection_at cs i = get_or cs i unused_connection

-- everything but `conn->state`
unfoldable pub initialize : Connection → Connection
initialize c = record unused_connection { state = c.state }

is_closed : Option ℕ → Bool
is_closed none = true
is_closed (some fd) = false

-- the four assertions behind the loop
unfoldable pub all_closed : Connection → Bool
unfolding is_closed
all_closed c =
    is_closed c.downstream.fd0
    && is_closed c.downstream.fd1
    && is_closed c.upstream.fd0
    && is_closed c.upstream.fd1

put_at : ℕ → Connection → SharedMemory → SharedMemory
put_at slot c m = record m { connections = set m.connections slot c }

module _ (entry : ℕ) (mremap_ok : Bool) (pwritev : ℕ → ℕ) where
  -- One round of the loop, after the lookup; `next` is what follows.
  found_empty : Slotted → Option ℕ → Option Slotted → Option Slotted
  found_empty s none next = some s
  found_empty s (some i) next =
      if (connection_at s.memory.connections i).state == conn_unused then some s else next

  -- The loop of `get_empty_connection` from the slot `i` on, on fuel; `pwritev` is how many of the
  -- bytes are written that pwritev(2) is given.
  unfoldable pub get_empty_connection : ℕ → ℕ → SharedMemory → Option Slotted
  unfolding found_empty
  get_empty_connection zero i m = none
  get_empty_connection (suc fuel) i m =
      let s =
        shared_memory_get_or_append_connection entry mremap_ok mremap_ok
          (pwritev ((i + 1 - length m.connections) * entry)) i m in
      found_empty s s.slot (get_empty_connection fuel (i + 1) s.memory)

  -- What accept(2) answers is stored to the claimed connection.
  store_accepted : ℕ → SharedMemory → Option ℕ → Slotted
  unfolding put_at
  store_accepted slot m none = record { memory = m; slot = none }
  store_accepted slot m (some fd) =
      let c = connection_at m.connections slot in
      record {
        memory = put_at slot (record c { downstream = record c.downstream { fd0 = some fd } }) m;
        slot = some slot;
      }

  -- The initialization and the compare-and-swap, between which another process does `interfere` to
  -- the connection.
  claim_slot :
      (Connection → Connection)
      → Option ℕ
      → SharedMemory
      → ℕ
      → (SharedMemory → Option Slotted)
      → Option Slotted
  unfolding store_accepted put_at initialize all_closed
  claim_slot interfere accepted m slot again =
      let c = interfere (initialize (connection_at m.connections slot)) in
      let claimed =
        some (store_accepted slot (put_at slot (record c { state = conn_accepting }) m) accepted) in
      if c.state == conn_unused
      then if all_closed c then claimed else none
      else again (put_at slot c m)

  claim_found :
      (Connection → Connection)
      → Option ℕ
      → Option Slotted
      → (SharedMemory → Option Slotted)
      → Option Slotted
  unfolding claim_slot
  claim_found interfere accepted none again = none
  claim_found interfere accepted (some s) again = elim s.slot [
    | none ↦ some s
    | some slot ↦ claim_slot interfere accepted s.memory slot again
  ]

  -- The whole function: the memory, and the slot or NULL; `none` for a failed assertion, or for no
  -- result with the rounds that are given. The list is what other processes do in the
  -- rounds of its loop; `fuel` is for each search.
  unfoldable pub accept_connection :
      ℕ → List (Connection → Connection) → Option ℕ → SharedMemory → Option Slotted
  unfolding claim_found get_empty_connection
  accept_connection fuel [] accepted m = none
  accept_connection fuel (interfere ∷ rest) accepted m =
      claim_found interfere accepted (get_empty_connection fuel 0 m)
        (λ m'. accept_connection fuel rest accepted m')
