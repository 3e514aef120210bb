-- ===== src/Worker/Handle.antt =====
-- `handle_connection` of worker/main.c as a whole, for one event of one of the two file descriptors,
-- in the build without PERFORMANCE_BASELINE: the input and output, the transformation and its commit,
-- and the closing of the connection. What the system calls answer is an argument.
-- The test for CONN_STATE_BITS above the switch is left out, since no state has these bits.
pub mod Left
pub mod Stored
pub mod Closing
mod Tests
use tud_crash_tolerant_proxy.Prelude.{
  ℕ, Bool, true, false, not, ◌&&◌, Option, none, some, List, [], ◌∷◌, ◌++◌, ◌==◌, if◌then◌else◌,
}
use tud_crash_tolerant_proxy.Atomic.{AtomicRingBuffer, Errno}
use tud_crash_tolerant_proxy.Atomic.Send.{Sendmmsg}
use tud_crash_tolerant_proxy.Atomic.Recv.{Recvmmsg}
use tud_crash_tolerant_proxy.Transform.Messages.{World}
use tud_crash_tolerant_proxy.Shared.{
  Endpoint, Connection, conn_poll, conn_swap_buffers, conn_closing, conn_error, state_bits,
}
use tud_crash_tolerant_proxy.Util.Closep.{closep, closep_ok, after_close}
use tud_crash_tolerant_proxy.Worker.{
  Flag, downstream_rx, downstream_tx, upstream_rx, upstream_tx, transform_flag, swap_stores,
  is_finished, transform_connection,
}
use tud_crash_tolerant_proxy.Worker.Epoll.{EpollCtl, FdInfo, Polled, epoll_mod, epoll_from_buffers}
use tud_crash_tolerant_proxy.Worker.Io.{
  Looped, Verdict, proceeds, goes_error, aborts, runs, send_all, send_verdict, recv_all,
  recv_verdict,
}

-- Which of the two endpoints the file descriptor of the event belongs to.
pub data Side : Type 0 where
  downstream_side upstream_side : Side

-- What epoll knows of a file descriptor: the worker's record, and the kernel's.
pub record Watched : Type 0 where
  pub info : FdInfo
  pub interest : Option ℕ

pub record Served : Type 0 where
  pub conn : Connection
  pub down : Watched
  pub up : Watched

-- What the system calls answer: the calls for input and output, `shutdown` in both directions of
-- `shutdown_direction` and in `epoll_from_buffers`, epoll_ctl(2) and close(2) for each of the two file
-- descriptors, and whether `ipc_send` succeeds. The calls of epoll_ctl(2) for one file descriptor
-- differ in their operation or events.
pub record Answers : Type 0 where
  pub sends : List Sendmmsg
  pub recvs : List Recvmmsg
  pub world : World
  pub shut_down_ok : Bool
  pub shut_up_ok : Bool
  pub down_shutdown : Option Errno
  pub up_shutdown : Option Errno
  pub epoll_down : EpollCtl
  pub epoll_up : EpollCtl
  pub close_down : Option Errno
  pub close_up : Option Errno
  pub ipc_ok : Bool

-- The result: 0, -1, a failed assertion, or no result with the calls that are given.
pub data Outcome : Type 0 where
  success failure asserted pending : Outcome

-- What the call leaves; `told` is whether it has sent "close" to the listener, `closed` has the file
-- descriptors that close(2) was called for. Where `transform` fails
-- an assertion, the memory is that in front of `copy_active_ranges`.
pub record Handled : Type 0 where
  pub served : Served
  pub outcome : Outcome
  pub told : Bool
  pub closed : List ℕ

abbrev pub comes_to : Served → Outcome → Handled
comes_to s o = record { served = s; outcome = o; told = false; closed = [] }

abbrev pub endpoint_at : Side → Connection → Endpoint
endpoint_at downstream_side c = c.downstream
endpoint_at upstream_side c = c.upstream

abbrev pub set_endpoint : Side → Endpoint → Connection → Connection
set_endpoint downstream_side e c = record c { downstream = e }
set_endpoint upstream_side e c = record c { upstream = e }

abbrev pub set_conn : Served → Connection → Served
set_conn s c = record s { conn = c }

-- `change_state`
abbrev pub change_state : ℕ → Served → Served
change_state state s = set_conn s (record s.conn { state = state })

unfoldable pub unwatched : Watched → Option Polled → Watched
unwatched w none = w
unwatched w (some p) = record { info = p.info; interest = p.interest }

-- One round of the loop that closes both endpoints: `epoll_closep`, and what is done about its error;
-- the last is the file descriptor that close(2) is called for.
unfoldable pub epoll_closep :
    EpollCtl → Option Errno → Endpoint → Watched → Endpoint × Watched × Bool × List ℕ
unfolding unwatched closep closep_ok after_close
epoll_closep epoll_ctl e endpoint w = elim endpoint.fd1 [
  | none ↦ (endpoint, w, true, [])
  | some fd ↦ (
    record endpoint { fd1 = after_close e (closep e endpoint.fd1) },
    unwatched w (epoll_mod epoll_ctl 0 w.info w.interest),
    closep_ok e endpoint.fd1,
    fd ∷ [],
  )
]

-- From `case CONN_CLOSING` or `case CONN_ERROR` on; `r` is whether `r` is 0 there.
unfoldable pub close_all : Answers → Bool → Served → Handled
unfolding epoll_closep
close_all a r s =
    let (up, up_watched, up_ok, up_calls) =
      epoll_closep a.epoll_up a.close_up s.conn.upstream s.up in
    let (down, down_watched, down_ok, down_calls) =
      epoll_closep a.epoll_down a.close_down s.conn.downstream s.down in
    record {
      served = record {
        conn = record s.conn { downstream = down; upstream = up };
        down = down_watched;
        up = up_watched;
      };
      outcome = if r && up_ok && down_ok && a.ipc_ok then success else failure;
      told = a.ipc_ok;
      closed = up_calls ++ down_calls;
    }

-- the label `error`
unfoldable pub go_error : Answers → Served → Handled
unfolding close_all
go_error a s = close_all a false (change_state conn_error s)

-- `assert(info)` in `epoll_from_buffers`: a file descriptor of -1 has no entry.
unfoldable pub asserting_open : Option ℕ → Served → Handled → Handled
asserting_open none s rest = comes_to s asserted
asserting_open (some fd) s rest = rest

-- The end of `swap_buffers`, once both endpoints have been looked at.
unfoldable pub swapped_up : Served → Option Polled → Handled
swapped_up s none = comes_to s pending
swapped_up s (some p) =
    let s' = record s { up = record { info = p.info; interest = p.interest } } in
    if p.ok then comes_to (change_state conn_poll s') success else comes_to s' failure

unfoldable pub swapped_down : Answers → Served → Option Polled → Handled
unfolding swapped_up asserting_open
swapped_down a s none = comes_to s pending
swapped_down a s (some p) =
    let s' = record s { down = record { info = p.info; interest = p.interest } } in
    let rest = asserting_open s'.conn.upstream.fd1 s' (
      swapped_up s'
        (epoll_from_buffers a.epoll_up a.up_shutdown s'.conn.upstream s'.up.info s'.up.interest)) in
    if p.ok then rest else comes_to s' failure

-- `case CONN_SWAP_BUFFERS`: `swap_buffers`, with its calls of `epoll_from_buffers`
unfoldable pub swap_and_poll : Answers → Served → Handled
unfolding swapped_down swap_stores
swap_and_poll a s =
    let c =
      swap_stores (downstream_rx ∷ downstream_tx ∷ upstream_rx ∷ upstream_tx ∷ transform_flag ∷ [])
        s.conn in
    asserting_open c.downstream.fd1 (set_conn s c) (
      swapped_down a (set_conn s c)
        (epoll_from_buffers a.epoll_down a.down_shutdown c.downstream s.down.info s.down.interest))

-- After `transform` and the first store of the next state.
unfoldable pub transformed : Answers → Served → Option Connection → Handled
unfolding swap_and_poll close_all
transformed a s none = comes_to s asserted
transformed a s (some c) =
    if is_finished c then close_all a true (set_conn s c) else swap_and_poll a (set_conn s c)

-- A verdict, and what follows if it is to go on.
unfoldable pub judged : Answers → Served → Verdict → Handled → Handled
unfolding go_error
judged a s proceeds rest = rest
judged a s goes_error rest = go_error a s
judged a s aborts rest = comes_to s asserted
judged a s runs rest = comes_to s pending

abbrev pub put_rx : Side → AtomicRingBuffer → Served → Served
put_rx side b s =
    set_conn s (set_endpoint side (record (endpoint_at side s.conn) { rx = b }) s.conn)

abbrev pub put_tx : Side → AtomicRingBuffer → Served → Served
put_tx side b s =
    set_conn s (set_endpoint side (record (endpoint_at side s.conn) { tx = b }) s.conn)

-- After the receive loop.
unfoldable pub received : Answers → Side → Served → Looped → Handled
unfolding judged transformed
received a side s l =
    let s' = put_rx side l.mem s in
    judged a s' (recv_verdict l.ending)
      (transformed a s' (transform_connection a.world a.shut_down_ok a.shut_up_ok s'.conn))

-- After the send loop.
unfoldable pub sent : Answers → ℕ → Side → Served → Looped → Handled
unfolding received
sent a events side s l =
    let s' = put_tx side l.mem s in
    judged a s' (send_verdict l.ending)
      (received a side s' (recv_all events a.recvs (endpoint_at side s'.conn).rx))

-- `case CONN_POLL`
unfoldable pub poll : Answers → ℕ → Side → Served → Handled
unfolding sent
poll a events side s = sent a events side s (send_all events a.sends (endpoint_at side s.conn).tx)

-- The switch over the state.
unfoldable pub handle_connection : Answers → ℕ → Side → Served → Handled
unfolding poll close_all go_error swap_and_poll
handle_connection a events side s =
    if state_bits s.conn.state == conn_poll
    then poll a events side s
    else if state_bits s.conn.state == conn_closing
    then close_all a true s
    else if state_bits s.conn.state == conn_error
    then close_all a false s
    else if state_bits s.conn.state == conn_swap_buffers
    then swap_and_poll a s
    else go_error a s
