-- ===== src/Worker/Ipc.antt =====
-- The handlers of messages in worker/main.c, on the connection of the slot that the message names, in
-- the build without PERFORMANCE_BASELINE. `fd` is the file descriptor that came with the message.
pub mod Adopted
pub mod Connected
mod Tests
use tud_crash_tolerant_proxy.Prelude.{
  ℕ, ◌≡◌, Bool, true, false, ◌&&◌, Option, none, some, ◌==◌, if◌then◌else◌,
}
use tud_crash_tolerant_proxy.Atomic.{Errno}
use tud_crash_tolerant_proxy.Shared.{
  Endpoint, Connection, conn_unused, conn_connecting, conn_poll, zero_buffer,
}
use tud_crash_tolerant_proxy.Worker.Epoll.{EpollCtl, FdInfo, Polled, epoll_mod, epoll_from_buffers}
use tud_crash_tolerant_proxy.Worker.Handle.{
  Watched, Served, Answers, Outcome, success, failure, asserted, pending, Handled, downstream_side,
  set_conn, change_state, epoll_closep, handle_connection,
}

-- The result of a handler: 0, -2, a failed assertion, or none with the calls that are given.
pub data Reply : Type 0 where
  done fails asserts runs : Reply

-- The messages to the listener.
pub data Request : Type 0 where
  connect orphan_up : Request

pub record Replied : Type 0 where
  pub served : Served
  pub reply : Reply
  pub request : Option Request

abbrev pub replies : Served → Reply → Replied
replies s r = record { served = s; reply = r; request = none }

-- The message is sent, or the handler fails.
abbrev sends : Bool → Request → Served → Replied
sends ok request s =
    if ok then record { served = s; reply = done; request = some request } else replies s fails

-- `indirect_connect`: whether `format_sockaddr` and `ipc_send` succeed
unfoldable pub indirect_connect : Bool → Bool → Served → Replied
indirect_connect format_ok ipc_ok s = sends (format_ok && ipc_ok) connect s

abbrev with_down : ℕ → ℕ → Served → Served
with_down pid fd s = set_conn s (record s.conn {
  worker_pid = some pid;
  downstream = record s.conn.downstream { fd1 = some fd };
})

abbrev with_up : ℕ → ℕ → Served → Served
with_up pid fd s =
    set_conn s
      (record s.conn { worker_pid = some pid; upstream = record s.conn.upstream { fd1 = some fd } })

-- `assert(endpoint->fd[1] < 0)`
asserting_closed : Option ℕ → Served → Replied → Replied
asserting_closed none s r = r
asserting_closed (some fd) s r = replies s asserts

unfoldable pub ipc_accepted : Bool → Bool → ℕ → Option ℕ → Served → Replied
unfolding indirect_connect asserting_closed
ipc_accepted format_ok ipc_ok pid none s = replies s fails
ipc_accepted format_ok ipc_ok pid (some fd) s =
    asserting_closed s.conn.downstream.fd1 s
      (indirect_connect format_ok ipc_ok (change_state conn_connecting (with_down pid fd s)))

unfoldable pub ipc_orphan_downstream : Bool → Bool → ℕ → Option ℕ → Served → Replied
unfolding indirect_connect asserting_closed
ipc_orphan_downstream format_ok ipc_ok pid none s = replies s fails
ipc_orphan_downstream format_ok ipc_ok pid (some fd) s = asserting_closed s.conn.downstream.fd1 s (
    if s.conn.state == conn_connecting
    then indirect_connect format_ok ipc_ok (with_down pid fd s)
    else sends ipc_ok orphan_up (with_down pid fd s))

-- `*info = (struct fd_info){ .slot = slot, .events = 0 }`
abbrev pub fresh : ℕ → Watched → Watched
fresh slot w = record w { info = record { slot = slot; events = 0 } }

-- What an endpoint's registration leaves: with its result as a test of the answers.
watch_down : Served → Option Polled → (Served → Replied) → Replied
watch_down s none next = replies s runs
watch_down s (some p) next =
    let s' = record s { down = record { info = p.info; interest = p.interest } } in
    if p.ok then next s' else replies s' fails

watch_up : Served → Option Polled → (Served → Replied) → Replied
watch_up s none next = replies s runs
watch_up s (some p) next =
    let s' = record s { up = record { info = p.info; interest = p.interest } } in
    if p.ok then next s' else replies s' fails

-- The loop over the endpoints, upstream first; `info_up` and `info_down` are whether `fd_info_get`
-- finds memory.
poll_down : Answers → Bool → ℕ → Served → Replied
unfolding watch_down
poll_down a info_down slot s =
    let s' = record s { down = fresh slot s.down } in
    if info_down
    then watch_down s'
        (epoll_from_buffers a.epoll_down a.down_shutdown s'.conn.downstream s'.down.info
          s'.down.interest)
        (λ t. replies t done)
    else replies s fails

poll_up : Answers → Bool → Bool → ℕ → Served → Replied
unfolding watch_up poll_down
poll_up a info_up info_down slot s =
    let s' = record s { up = fresh slot s.up } in
    if info_up
    then watch_up s'
        (epoll_from_buffers a.epoll_up a.up_shutdown s'.conn.upstream s'.up.info s'.up.interest)
        (poll_down a info_down slot)
    else replies s fails

unfoldable pub ipc_orphan_upstream : Answers → Bool → Bool → ℕ → ℕ → Option ℕ → Served → Replied
unfolding poll_up asserting_closed
ipc_orphan_upstream a info_up info_down slot pid none s = replies s fails
ipc_orphan_upstream a info_up info_down slot pid (some fd) s =
    asserting_closed s.conn.upstream.fd1 s (poll_up a info_up info_down slot (with_up pid fd s))

-- `ipc_close`: `has_fd` is whether the message came with a file descriptor, which it should not.
unfoldable pub ipc_close : Answers → Bool → Served → Replied
unfolding epoll_closep
ipc_close a has_fd s =
    let (up, up_watched, up_ok, up_calls) =
      epoll_closep a.epoll_up a.close_up s.conn.upstream s.up in
    let (down, down_watched, down_ok, down_calls) =
      epoll_closep a.epoll_down a.close_down s.conn.downstream s.down in
    replies
      (record {
        conn = record s.conn { state = conn_unused; downstream = down; upstream = up };
        down = down_watched;
        up = up_watched;
      })
      (if has_fd then fails else done)

abbrev reset_buffers : Endpoint → Endpoint
reset_buffers e = record e { rx = zero_buffer; tx = zero_buffer }

after_transform : Handled → Replied
after_transform h = elim h.outcome [
  | success ↦ replies h.served done
  | failure ↦ replies h.served fails
  | asserted ↦ replies h.served asserts
  | pending ↦ replies h.served runs
]

start_polling : Answers → Served → Replied
unfolding after_transform
start_polling a s =
    after_transform (handle_connection a 0 downstream_side (change_state conn_poll s))

-- `EPOLLIN | EPOLLRDHUP`
abbrev pub epoll_receive : ℕ
epoll_receive = 8193

register_up : Answers → Bool → ℕ → Served → Replied
unfolding watch_up start_polling
register_up a info_up slot s =
    let s' = record s { up = fresh slot s.up } in
    if info_up
    then watch_up s' (epoll_mod a.epoll_up epoll_receive s'.up.info s'.up.interest)
        (start_polling a)
    else replies s fails

-- A closed file descriptor has no entry either.
register_down : Answers → Bool → Bool → ℕ → Option ℕ → Served → Replied
unfolding watch_down register_up
register_down a info_down info_up slot none s = replies s fails
register_down a info_down info_up slot (some fd) s =
    let s' = record s { down = fresh slot s.down } in
    if info_down
    then watch_down s' (epoll_mod a.epoll_down epoll_receive s'.down.info s'.down.interest)
        (register_up a info_up slot)
    else replies s fails

unfoldable pub ipc_connected : Answers → Bool → Bool → ℕ → Option ℕ → Served → Replied
unfolding register_down asserting_closed
ipc_connected a info_down info_up slot none s = replies s fails
ipc_connected a info_down info_up slot (some fd) s =
    let c = record s.conn {
      downstream = reset_buffers s.conn.downstream;
      upstream = reset_buffers s.conn.upstream;
    } in
    asserting_closed s.conn.upstream.fd1 (set_conn s c) (
      register_down a info_down info_up slot c.downstream.fd1
        (set_conn s (record c { upstream = record c.upstream { fd1 = some fd } })))
