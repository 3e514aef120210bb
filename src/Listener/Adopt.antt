-- ===== src/Listener/Adopt.antt =====
-- `cleanup_worker_process` and `adopt_one_connection` of listener/main_active.c: the connections of a
-- worker that died, and their way to another worker.
pub mod Given
pub mod Laws
use tud_crash_tolerant_proxy.Prelude.{
  ℕ, zero, suc, ◌+◌, ◌-◌, ◌^◌, ◌≡◌, Bool, true, false, not, ◌&&◌, ◌||◌, Option, none, some, List,
  [], ◌∷◌, map, ltb, ◌==◌, if◌then◌else◌, add_size,
}
use tud_crash_tolerant_proxy.Shared.{
  Endpoint, Connection, conn_unused, conn_accepting, conn_connecting, conn_poll, conn_swap_buffers,
  state_bits, zero_buffer,
}
use tud_crash_tolerant_proxy.Util.Closep.{closep}
use tud_crash_tolerant_proxy.Listener.Cleanup.{Close}
use tud_crash_tolerant_proxy.Listener.Match.{is_closed}

-- `struct worker_process`
pub record WorkerProcess : Type 0 where
  pub ipc_fd : Option ℕ
  pub pid_fd : Option ℕ
  pub pid : Option ℕ

close_open : Close → Option ℕ → Option ℕ
close_open close none = none
close_open close (some fd) = closep (close fd) (some fd)

unfoldable pub same_pid : Option ℕ → Option ℕ → Bool
same_pid none none = true
same_pid none (some p) = false
same_pid (some p) none = false
same_pid (some p) (some q) = p == q

-- `if(conn->worker_pid == proc->pid) conn->worker_pid = -1;`
unfoldable pub orphan : Option ℕ → Connection → Connection
unfolding same_pid
orphan pid c = if same_pid c.worker_pid pid then record c { worker_pid = none } else c

unfoldable pub cleanup_worker_process :
    Close → WorkerProcess → List Connection → WorkerProcess × List Connection
unfolding close_open orphan
cleanup_worker_process close proc cs = (
  record {
    ipc_fd = close_open close proc.ipc_fd;
    pid_fd = close_open close proc.pid_fd;
    pid = none;
  },
  map (orphan proc.pid) cs,
)

-- the messages that it may send
pub data Action : Type 0 where
  orphan_down accepted : Action

-- What `ipc_send` is given.
pub record Message : Type 0 where
  pub action : Action
  pub slot : ℕ
  pub fd : Option ℕ

-- The negation of `state == CONN_UNUSED || conn->worker_pid >= 0`.
unfoldable pub is_orphan : Connection → Bool
unfolding is_closed
is_orphan c = not (c.state == conn_unused) && is_closed c.worker_pid

-- `case CONN_CONNECTING`, `case CONN_POLL` and `case CONN_SWAP_BUFFERS`
unfoldable pub is_connected : Connection → Bool
is_connected c =
    (state_bits c.state == conn_connecting)
    || (state_bits c.state == conn_poll)
    || (state_bits c.state == conn_swap_buffers)

abbrev reset_buffers : Endpoint → Endpoint
reset_buffers e = record e { fd1 = none; rx = zero_buffer; tx = zero_buffer }

-- The connection as it is handed over.
unfoldable pub hand_over : Connection → Connection
hand_over c =
    if state_bits c.state == conn_connecting
    then record c {
      state = conn_poll;
      downstream = reset_buffers c.downstream;
      upstream = reset_buffers c.upstream;
    }
    else record c {
      downstream = record c.downstream { fd1 = none };
      upstream = record c.upstream { fd1 = none };
    }

-- The message that goes with it; there is none in an unexpected state.
unfoldable pub message_for : ℕ → Connection → Option Message
unfolding is_connected
message_for slot c =
    if is_connected c
    then some (record { action = orphan_down; slot = slot; fd = c.downstream.fd0 })
    else if state_bits c.state == conn_accepting
    then some (record { action = accepted; slot = slot; fd = c.downstream.fd0 })
    else none

-- The assertion that the upstream file descriptor was saved fails.
unfoldable pub lacks_upstream : Connection → Bool
unfolding is_connected is_closed
lacks_upstream c = is_connected c && is_closed c.upstream.fd0

-- What the loop leaves, with the variable `slot`.
pub record Walk : Type 0 where
  pub connections : List Connection
  pub slot : ℕ
  pub message : Option Message
  pub aborts : Bool

-- The loop from the slot `i` on.
unfoldable pub adopt_loop : ℕ → ℕ → ℕ → List Connection → Walk
unfolding is_orphan hand_over message_for lacks_upstream
adopt_loop next slot i [] = record { connections = []; slot = slot; message = none; aborts = false }
adopt_loop next slot i (c ∷ cs) =
    let skipped = adopt_loop next slot (i + 1) cs in
    let passed = adopt_loop next i (i + 1) cs in
    if not (is_orphan c)
    then record skipped { connections = c ∷ skipped.connections }
    else if ltb i next
    then record passed { connections = c ∷ passed.connections }
    else record {
      connections = hand_over c ∷ cs;
      slot = i;
      message = message_for i c;
      aborts = lacks_upstream c;
    }

-- What the function leaves; `sent` is the message that was sent, `ok` whether it returns 0.
pub record Adopted : Type 0 where
  pub connections : List Connection
  pub next_adopted : ℕ
  pub sent : Option Message
  pub ok : Bool

unfoldable pub send_message : Bool → ℕ → Walk → Option Message → Adopted
send_message send_ok next w none = record {
  connections = w.connections;
  next_adopted = add_size w.slot 1;
  sent = none;
  ok = true;
}
send_message send_ok next w (some m) =
    if send_ok
    then record {
      connections = w.connections;
      next_adopted = add_size w.slot 1;
      sent = some m;
      ok = true;
    }
    else record { connections = w.connections; next_adopted = next; sent = none; ok = false }

unfoldable pub finish_adopting : Bool → ℕ → Walk → Option Adopted
unfolding send_message
finish_adopting send_ok next w =
    if w.aborts then none else some (send_message send_ok next w w.message)

-- `send_ok` is whether `ipc_send` succeeds; `none` for a failed assertion.
unfoldable pub adopt_one_connection : Bool → ℕ → List Connection → Option Adopted
unfolding adopt_loop finish_adopting
adopt_one_connection send_ok next cs =
    if next == 2 ^ 64 - 1
    then some (record { connections = cs; next_adopted = next; sent = none; ok = true })
    else finish_adopting send_ok next (adopt_loop next (2 ^ 64 - 2) 0 cs)
