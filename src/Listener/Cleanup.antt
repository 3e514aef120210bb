-- ===== src/Listener/Cleanup.antt =====
-- `close_connection`, `cleanup_connections` and the handler `ipc_close` of listener/main_active.c.
pub mod Calls
pub mod Laws
use tud_crash_tolerant_proxy.Prelude.{
  ℕ, ◌+◌, ◌≡◌, refl, ap, ◌∙◌, Bool, true, false, ◌||◌, Option, none, some, List, [], ◌∷◌, ◌++◌,
  ◌==◌, if◌then◌else◌, arith, Bool-cases, inl, inr,
}
use tud_crash_tolerant_proxy.Atomic.{Errno}
use tud_crash_tolerant_proxy.Shared.{Connection, conn_unused, conn_closing, conn_error, state_bits}
use tud_crash_tolerant_proxy.Util.Closep.{closep, after_close, closed_fd}
use tud_crash_tolerant_proxy.Listener.Table.{fd_type_conn, FdEntry, FdTable, entry_at, register}

-- What close(2) answers for a file descriptor.
abbrev pub Close : Type 0
Close = ℕ → Option Errno

-- The calls that are made for a connection's file descriptors. The result of setsockopt(2), for
-- SO_LINGER, is only logged.
pub data FdCall : Type 0 where
  setsockopt close_call : ℕ → FdCall

unfoldable pub linger_fd : Option ℕ → List FdCall
linger_fd none = []
linger_fd (some fd) = setsockopt fd ∷ []

-- On a file descriptor of -1 setsockopt(2) fails.
unfoldable pub set_linger : Connection → List FdCall
unfolding linger_fd
set_linger c = linger_fd c.upstream.fd0 ++ linger_fd c.downstream.fd0

-- What is left of the file descriptor, and the calls.
unfoldable pub close_fd : Close → Option ℕ → Option ℕ × List FdCall
close_fd close none = (none, [])
close_fd close (some fd) =
    (after_close (close fd) (closep (close fd) (some fd)), close_call fd ∷ [])

unfoldable pub close_connection : Close → Connection → Connection × List FdCall
unfolding close_fd
close_connection close c = (
  record c {
    upstream = record c.upstream { fd0 = (close_fd close c.upstream.fd0).0 };
    downstream = record c.downstream { fd0 = (close_fd close c.downstream.fd0).0 };
  },
  (close_fd close c.upstream.fd0).1 ++ (close_fd close c.downstream.fd0).1,
)

-- What a handler leaves: the connection, the calls for its file descriptors, and whether it returns 0;
-- `none` for a failed assertion.
pub record Released : Type 0 where
  pub conn : Connection
  pub calls : List FdCall
  pub ok : Bool

-- `has_fd` is whether the message came with a file descriptor, which is closed.
unfoldable pub ipc_close : Close → Bool → Connection → Option Released
unfolding close_connection set_linger
ipc_close close has_fd c =
    let lingers = c.state == conn_error in
    if lingers || c.state == conn_closing
    then some (record {
      conn = record (close_connection close c).0 { state = conn_unused };
      calls = (if lingers then set_linger c else []) ++ (close_connection close c).1;
      ok = if has_fd then false else true;
    })
    else none

unfoldable pub register_open : (ℕ → Bool) → FdEntry → FdTable → Option ℕ → FdTable × Bool
register_open realloc_ok e table none = (table, true)
register_open realloc_ok e table (some fd) = register realloc_ok e table (some fd)

unfoldable pub register_next : (ℕ → Bool) → FdEntry → Option ℕ → FdTable × Bool → FdTable × Bool
unfolding register_open
register_next realloc_ok e fd (table, ok) =
    if ok then register_open realloc_ok e table fd else (table, false)

-- The loop over the endpoints of a connection that stays.
unfoldable pub register_both : (ℕ → Bool) → ℕ → FdTable → Connection → FdTable × Bool
unfolding register_next register_open
register_both realloc_ok slot table c =
    let e : FdEntry = record { type = fd_type_conn; slot = slot } in
    register_next realloc_ok e c.downstream.fd0 (register_open realloc_ok e table c.upstream.fd0)

-- What the loop leaves, and the calls for file descriptors that it made.
pub record Cleaned : Type 0 where
  pub table : FdTable
  pub connections : List Connection
  pub calls : List FdCall
  pub ok : Bool

unfoldable pub is_gone : Connection → Bool
is_gone c = (state_bits c.state == conn_error) || (state_bits c.state == conn_closing)

-- The calls for a connection in CONN_ERROR or CONN_CLOSING.
unfoldable pub free_calls : Close → Connection → List FdCall
unfolding close_connection set_linger
free_calls close c =
    (if state_bits c.state == conn_error then set_linger c else []) ++ (close_connection close c).1

abbrev pub freed : Close → Connection → Connection
freed close c = record (close_connection close c).0 { state = conn_unused }

-- The loop of `cleanup_connections` from a slot on; it returns -1 where `realloc` fails.
unfoldable pub cleanup_connections : (ℕ → Bool) → Close → ℕ → FdTable → List Connection → Cleaned
unfolding close_connection register_both is_gone free_calls
cleanup_connections realloc_ok close slot table [] = record {
  table = table;
  connections = [];
  calls = [];
  ok = true;
}
cleanup_connections realloc_ok close slot table (c ∷ cs) =
    let skipped = cleanup_connections realloc_ok close (slot + 1) table cs in
    let next = register_both realloc_ok slot table c in
    let rest = cleanup_connections realloc_ok close (slot + 1) next.0 cs in
    if is_gone c
    then record skipped {
      connections = freed close c ∷ skipped.connections;
      calls = free_calls close c ++ skipped.calls;
    }
    else if next.1
    then record rest { connections = c ∷ rest.connections }
    else record { table = next.0; connections = c ∷ cs; calls = []; ok = false }
