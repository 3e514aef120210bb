-- ===== src/Listener/Tests.antt =====
-- A listener that takes over two connections.
use tud_crash_tolerant_proxy.Prelude.{
  ℕ, ◌≡◌, refl, true, false, Bool, none, some, List, [], ◌∷◌, arith, dec_lt, dec_le, ℕ_discrete,
}
use tud_crash_tolerant_proxy.Shared.{Connection, unused_connection}
use tud_crash_tolerant_proxy.Util.Closep.{closep}
use tud_crash_tolerant_proxy.Listener.Cleanup.{Close, cleanup_connections}
use tud_crash_tolerant_proxy.Listener.Cleanup.Laws.{Settled, cleanup_connections-Settled}
use tud_crash_tolerant_proxy.Http.Headers.{bytes}
use tud_crash_tolerant_proxy.Listener.Handlers.{Network, ipc_connect}
use tud_crash_tolerant_proxy.Listener.Handlers.Laws.{Links, ipc_connect-Links}
use tud_crash_tolerant_proxy.Listener.Match.{put_recovered}
use tud_crash_tolerant_proxy.Listener.Match.Puts.{Puts, put_recovered-Puts}
use tud_crash_tolerant_proxy.Listener.Recover.{Strtol, recover_one_fd}
use tud_crash_tolerant_proxy.Listener.Recover.Sole.{
  Answers, with_dir, lost_fds, recover_one_fd-Answers,
}
use tud_crash_tolerant_proxy.Listener.Adopt.{adopt_one_connection}
use tud_crash_tolerant_proxy.Listener.Adopt.Laws.{Adopts, adopt_one_connection-Adopts}

abbrev enough : ℕ → Bool
enough n = true

abbrev closes : Close
closes fd = none

-- one that is to be closed
abbrev closing : Connection
closing = record unused_connection {
  state = 5;
  downstream = record unused_connection.downstream { fd0 = some 4 };
  upstream = record unused_connection.upstream { fd0 = some 5 };
}

-- one that waits for its upstream file descriptor
abbrev connecting : Connection
connecting = record unused_connection {
  state = 2;
  downstream = record unused_connection.downstream { fd0 = some 6 };
}

abbrev both : List Connection
both = closing ∷ connecting ∷ []

cleanup_connections-Settled_example :
    let r = cleanup_connections enough closes 0 [] both in
    (r.ok ≡ true) × Settled r.table both r.connections r.calls
cleanup_connections-Settled_example =
    cleanup_connections-Settled enough closes 0 [] both (λ n. refl)

put_recovered-Puts_example : Puts none 7 both (put_recovered none 7 both)
put_recovered-Puts_example = put_recovered-Puts none 7 both

filled_in : put_recovered none 7 both ≡ record {
  connections =
      closing ∷ record connecting { upstream = record connecting.upstream { fd0 = some 7 } } ∷ [];
  unclaimed = none;
}
unfolding put_recovered dec_lt dec_le ℕ_discrete
filled_in = refl

-- strtol(3) on names of one digit
abbrev digit : List ℕ → Strtol
digit [] = record { number = some 0; out_of_range = false; at_end = true }
digit (x ∷ []) = record { number = some x; out_of_range = false; at_end = true }
digit (x ∷ y ∷ zs) = record { number = some x; out_of_range = false; at_end = false }

-- The directory's own file descriptor, and one that is not known.
abbrev names : List (List ℕ)
names = (3 ∷ []) ∷ (7 ∷ []) ∷ []

recover_one_fd-Answers_example :
    Answers
      (with_dir enough 3 [])
      (lost_fds (with_dir enough 3 []) (λ fd. some false) digit names)
      (recover_one_fd enough closes (λ fd. some false) digit names 3 [])
recover_one_fd-Answers_example =
    recover_one_fd-Answers enough closes (λ fd. some false) digit names 3 [] (λ n. refl)
      (λ fd e. ground (arith, e))

adopt_one_connection-Adopts_example : Adopts true 1 both (adopt_one_connection true 1 both)
adopt_one_connection-Adopts_example = adopt_one_connection-Adopts true 1 both (omega arith)

-- Every address is connected to by the socket 9.
abbrev network : Network
network = record {
  parse_ok = λ a. true;
  socket = λ a. some 9;
  connect_ok = λ fd a. true;
  cloexec_ok = λ fd. true;
  connected_ok = true;
  close_ok = true;
}

ipc_connect-Links_example :
    Links network
      (some (bytes "addr=x"))
      connecting
      (ipc_connect closes network (some (bytes "addr=x")) connecting)
unfolding closep
ipc_connect-Links_example =
    ipc_connect-Links closes network (some (bytes "addr=x")) connecting (λ fd. refl)
