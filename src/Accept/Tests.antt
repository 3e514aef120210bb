-- ===== src/Accept/Tests.antt =====
-- A second connection is accepted.
use tud_crash_tolerant_proxy.Prelude.{refl, true, some, [], ◌∷◌, arith}
use tud_crash_tolerant_proxy.Shared.{Connection, SharedMemory, unused_connection}
use tud_crash_tolerant_proxy.Shared.Laws.{IsWhole}
use tud_crash_tolerant_proxy.Accept.{accept_connection}
use tud_crash_tolerant_proxy.Accept.Laws.{Claims, accept_connection-Claims}

abbrev busy : Connection
busy = record unused_connection { state = 3 }

-- one connection of 10 bytes
abbrev one : SharedMemory
one = record { size = 18; connections = busy ∷ []; mapped = 18 }

one-IsWhole : IsWhole 10 (omega arith) one
one-IsWhole = record { whole = refl; within = omega arith; small = omega arith }

accept_connection-Claims_example :
    Claims 10
      (omega arith)
      (busy ∷ [])
      5
      (accept_connection 10 true (λ n. n) 2 ((λ c. c) ∷ []) (some 5) one)
accept_connection-Claims_example =
    accept_connection-Claims 10 (omega arith) 2 5 one one-IsWhole (omega arith) (omega arith)
