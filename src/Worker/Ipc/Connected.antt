-- ===== src/Worker/Ipc/Connected.antt =====
-- A new connection, from the message that its upstream is connected to the first transformation.
use tud_crash_tolerant_proxy.Prelude.{◌≡◌, ◌≢◌, none}
use tud_crash_tolerant_proxy.Shared.{conn_poll}
use tud_crash_tolerant_proxy.Worker.Handle.Left.{Tells, Left}
use tud_crash_tolerant_proxy.Worker.Ipc.{done, Replied}

-- What the handler leaves where it returns 0.
pub data Opened (r : Replied) : Type 0 where
  -- The kernel will tell about both endpoints.
  polls :
      r.served.conn.state ≡ conn_poll
      → Tells r.served.conn.downstream r.served.down
      → Tells r.served.conn.upstream r.served.up
      → Opened r
  -- It was closed again.
  gone : r.served.conn.downstream.fd1 ≡ none → r.served.conn.upstream.fd1 ≡ none → Opened r
  -- It does not return 0.
  refused : r.reply ≢ done → Opened r
