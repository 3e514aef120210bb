-- ===== src/Shared/Tests.antt =====
-- The shared memory with two connections.
use tud_crash_tolerant_proxy.Prelude.{
  ℕ, ◌+◌, ◌-◌, ◌*◌, ◌≡◌, refl, true, some, [], ◌∷◌, ◌==◌, length, get_elem?, arith,
}
use tud_crash_tolerant_proxy.Shared.{
  Connection, SharedMemory, conn_poll, unused_connection, shared_memory_get_or_append_connection,
}
use tud_crash_tolerant_proxy.Shared.Laws.{IsWhole, Extended, get_or_append-Extended}
use tud_crash_tolerant_proxy.Shared.Status.{
  connection_status_all, connection_status_all-letter, letter, status_char, highlight_char,
}

abbrev polled : Connection
polled = record unused_connection { state = conn_poll }

-- Only the first connection is mapped, of ten bytes each.
abbrev two_connections : SharedMemory
two_connections = record { size = 28; connections = polled ∷ unused_connection ∷ []; mapped = 18 }

grows : (shared_memory_get_or_append_connection 10 true true 20 3 two_connections).memory.size ≡ 48
unfolding shared_memory_get_or_append_connection
grows = refl

status-two : connection_status_all 1 (polled ∷ unused_connection ∷ []) ≡ b'w' ∷ b'!' ∷ []
unfolding connection_status_all status_char highlight_char
status-two = refl

two_connections-IsWhole : IsWhole 10 (omega arith) two_connections
two_connections-IsWhole = omega arith

get_or_append-Extended_example :
    Extended 10
      (omega arith)
      two_connections
      3
      true
      (shared_memory_get_or_append_connection 10 true true ((3 + 1 - 2) * 10) 3 two_connections)
get_or_append-Extended_example =
    get_or_append-Extended 10 (omega arith) true 3 two_connections two_connections-IsWhole
      (omega arith)

connection_status_all-letter_example :
    (length (connection_status_all 1 (polled ∷ unused_connection ∷ [])) ≡ 2)
    × ((k : ℕ) (c : Connection)
        → get_elem? (polled ∷ unused_connection ∷ []) k ≡ some c
        → get_elem? (connection_status_all 1 (polled ∷ unused_connection ∷ [])) k
          ≡ some (letter (k == 1) c.state))
connection_status_all-letter_example =
    connection_status_all-letter 1 (polled ∷ unused_connection ∷ [])
