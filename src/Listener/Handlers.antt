-- ===== src/Listener/Handlers.antt =====
-- The handlers `ipc_connect` and `ipc_orphan_upstream` of listener/main_active.c, on the connection of
-- the message's slot. A file descriptor that comes with the message is closed, and changes nothing.
pub mod Laws
use tud_crash_tolerant_proxy.Prelude.{
  ℕ, ◌≡◌, refl, Bool, true, false, Option, none, some, List, [], ◌∷◌, ◌++◌, ◌==◌, ◌&&◌,
  if◌then◌else◌, Bool-cases, inl, inr,
}
use tud_crash_tolerant_proxy.Http.Headers.{bytes}
use tud_crash_tolerant_proxy.Shared.{Connection}
use tud_crash_tolerant_proxy.Util.Closep.{closep}
use tud_crash_tolerant_proxy.Listener.Cleanup.{Close, FdCall, close_connection, set_linger}

-- The messages to the worker.
pub data Answer : Type 0 where
  connected orphan_up : Option ℕ → Answer
  close : Answer

-- What a handler leaves: the connection, the calls for its file descriptors, the message that was
-- sent, whether it returns 0, and a socket that it made and that is neither closed nor the
-- connection's.
pub record Answered : Type 0 where
  pub conn : Connection
  pub calls : List FdCall
  pub answer : Option Answer
  pub ok : Bool
  pub unstored : Option ℕ

-- What follows a prefix.
unfoldable pub behind : List ℕ → List ℕ → Option (List ℕ)
behind [] text = some text
behind (p ∷ ps) [] = none
behind (p ∷ ps) (x ∷ xs) = if p == x then behind ps xs else none

-- `tail + 5`, where the tail begins with "addr="
unfoldable pub address : Option (List ℕ) → Option (List ℕ)
unfolding behind
address none = none
address (some tail) = behind (bytes "addr=") tail

-- What the calls answer: whether an address can be parsed, the socket that socket(2) makes for it,
-- whether connect(2) and `fd_cloexec` succeed, and whether each message can be sent.
pub record Network : Type 0 where
  pub parse_ok : List ℕ → Bool
  pub socket : List ℕ → Option ℕ
  pub connect_ok : ℕ → List ℕ → Bool
  pub cloexec_ok : ℕ → Bool
  pub connected_ok : Bool
  pub close_ok : Bool

-- from the label `error` on
unfoldable pub give_up : Close → Network → Option ℕ → Connection → Answered
give_up close_fd net fd c = record {
  conn = (close_connection close_fd c).0;
  calls = set_linger c ++ (close_connection close_fd c).1;
  answer = if net.close_ok then some close else none;
  ok = net.close_ok;
  unstored = fd;
}

-- The upstream socket is stored and sent to the worker.
unfoldable pub pass_upstream : Close → Network → Connection → ℕ → Answered
unfolding give_up
pass_upstream close_fd net c fd =
    let c' = record c { upstream = record c.upstream { fd0 = some fd } } in
    if net.connected_ok
    then record {
      conn = c';
      calls = [];
      answer = some (connected (some fd));
      ok = true;
      unstored = none;
    }
    else give_up close_fd net none c'

-- from socket(2) on
unfoldable pub with_upstream : Close → Network → List ℕ → Connection → Option ℕ → Answered
unfolding pass_upstream give_up
with_upstream close_fd net addr c none = give_up close_fd net none c
with_upstream close_fd net addr c (some fd) =
    if net.connect_ok fd addr && net.cloexec_ok fd
    then pass_upstream close_fd net c fd
    else give_up close_fd net (closep (close_fd fd) (some fd)) c

unfoldable pub with_address : Close → Network → Connection → Option (List ℕ) → Answered
unfolding with_upstream give_up
with_address close_fd net c none = give_up close_fd net none c
with_address close_fd net c (some addr) =
    if net.parse_ok addr
    then with_upstream close_fd net addr c (net.socket addr)
    else give_up close_fd net none c

unfoldable pub ipc_connect : Close → Network → Option (List ℕ) → Connection → Answered
unfolding with_address address
ipc_connect close_fd net tail c = with_address close_fd net c (address tail)

unfoldable pub ipc_orphan_upstream : Bool → Connection → Answered
ipc_orphan_upstream ipc_ok c = record {
  conn = c;
  calls = [];
  answer = if ipc_ok then some (orphan_up c.upstream.fd0) else none;
  ok = ipc_ok;
  unstored = none;
}
