-- ===== src/Worker/Io.antt =====
-- The input and output of `handle_connection` in worker/main.c: the loops around `atomic_send` and
-- `atomic_recv`, each call with what the kernel does if that call asks it.
pub mod Send
pub mod Recv
mod Tests
use tud_crash_tolerant_proxy.Prelude.{
  ℕ, ◌^◌, Bool, true, false, not, ◌&&◌, ◌||◌, List, [], ◌∷◌, ◌++◌, ltb, ◌==◌, if◌then◌else◌,
  bit_set,
}
use tud_crash_tolerant_proxy.Ring.{ring_buffer_size}
use tud_crash_tolerant_proxy.Atomic.{
  AtomicRingBuffer, Errno, eintr, eagain, epipe, eoverflow, Result, error, returned, active_range,
  set_range,
}
use tud_crash_tolerant_proxy.Atomic.Send.{Sendmmsg, atomic_send}
use tud_crash_tolerant_proxy.Atomic.Recv.{Recvmmsg, atomic_recv}

-- How a loop ends: with the last result, in a failed assertion, or not with the calls that are given.
pub data Ending : Type 0 where
  left : Result → Ending
  assert_failed unfinished : Ending

-- The buffer, the bytes that went to or came from the kernel, and the end.
pub record Looped : Type 0 where
  pub mem : AtomicRingBuffer
  pub bytes : List ℕ
  pub ending : Ending

abbrev pub ends : AtomicRingBuffer → Ending → Looped
ends b e = record { mem = b; bytes = []; ending = e }

abbrev pub before : List ℕ → Looped → Looped
before bytes l = record l { bytes = bytes ++ l.bytes }

unfoldable pub is_positive_int : ℕ → Bool
is_positive_int n = ltb 0 n && ltb n (2 ^ 31)

-- The rest of a round, with `assert(rc > 0)`. A count that is negative as an `int` counts as a
-- failed assertion, as where errno is EINTR.
unfoldable pub after_send : Result → AtomicRingBuffer → List ℕ → Looped → Looped
unfolding is_positive_int
after_send (error eintr) mem bytes rest = record {
  mem = mem;
  bytes = bytes;
  ending = assert_failed;
}
after_send (error e) mem bytes rest = record { mem = mem; bytes = bytes; ending = left (error e) }
after_send (returned n) mem bytes rest =
    if is_positive_int n
    then before bytes rest
    else record { mem = mem; bytes = bytes; ending = assert_failed }

-- The loop `while(ACTIVE_RANGE(&endpoint->tx)->len > 0)`; `rc` is the result so far.
unfoldable pub send_loop : Result → List Sendmmsg → AtomicRingBuffer → Looped
unfolding after_send
send_loop rc [] b = ends b (if (active_range b).len == 0 then left rc else unfinished)
send_loop rc (k ∷ ks) b =
    let s = atomic_send k b in
    let rest = send_loop s.result ks s.mem in
    if (active_range b).len == 0 then ends b (left rc) else after_send s.result s.mem s.bytes rest

-- The rest of a round: whether the loop goes on, after a call of atomic_recv.
unfoldable pub goes_on : Result → Bool
goes_on (error eintr) = true
goes_on (error e) = false
goes_on (returned n) = not (n == 0)

-- The loop `do { ... } while(ACTIVE_RANGE(&endpoint->rx)->len < sizeof(endpoint->rx.buf))`
unfoldable pub recv_loop : List Recvmmsg → AtomicRingBuffer → Looped
unfolding goes_on
recv_loop [] b = ends b unfinished
recv_loop (k ∷ ks) b =
    let s = atomic_recv k b in
    let rest = recv_loop ks s.mem in
    if goes_on s.result && ltb (active_range s.mem).len ring_buffer_size
    then before s.bytes rest
    else record { mem = s.mem; bytes = s.bytes; ending = left s.result }

-- What follows an input or output: the next statement, `goto error`, or nothing.
pub data Verdict : Type 0 where
  proceeds goes_error aborts runs : Verdict

-- `rc < 0 && errno != EAGAIN && errno != EWOULDBLOCK` after the send loop
unfoldable pub send_verdict : Ending → Verdict
send_verdict (left (error eagain)) = proceeds
send_verdict (left (error e)) = goes_error
send_verdict (left (returned n)) = proceeds
send_verdict assert_failed = aborts
send_verdict unfinished = runs

-- `rc == 0 || (rc < 0 && errno == EPIPE)`
unfoldable pub is_eof : Ending → Bool
is_eof (left (returned n)) = n == 0
is_eof (left (error epipe)) = true
is_eof (left (error e)) = false
is_eof assert_failed = false
is_eof unfinished = false

unfoldable pub recv_verdict : Ending → Verdict
recv_verdict (left (error eagain)) = proceeds
recv_verdict (left (error epipe)) = proceeds
recv_verdict (left (error eoverflow)) = proceeds
recv_verdict (left (error e)) = goes_error
recv_verdict (left (returned n)) = proceeds
recv_verdict assert_failed = aborts
recv_verdict unfinished = runs

-- `ACTIVE_RANGE(&endpoint->rx)->shutdown = -1`
unfoldable pub shut_active : AtomicRingBuffer → AtomicRingBuffer
shut_active b = set_range b b.active (record (active_range b) { shutdown = true })

-- `events & (EPOLLOUT | EPOLLERR | EPOLLHUP)`
abbrev pub wants_send : ℕ → Bool
wants_send events = bit_set events 2 || bit_set events 3 || bit_set events 4

-- `events & (EPOLLIN | EPOLLRDHUP | EPOLLERR | EPOLLHUP)`
abbrev pub wants_recv : ℕ → Bool
wants_recv events = bit_set events 0 || bit_set events 13 || bit_set events 3 || bit_set events 4

-- "Send as much data as possible."
unfoldable pub send_all : ℕ → List Sendmmsg → AtomicRingBuffer → Looped
send_all events ks b =
    if wants_send events then send_loop (returned 0) ks b else ends b (left (returned 0))

marked : Looped → Looped
unfolding is_eof shut_active
marked l = if is_eof l.ending then record l { mem = shut_active l.mem } else l

-- "Read as much data as possible.", from the assertion on; where nothing is read, the end is that of
-- a positive result.
unfoldable pub recv_all : ℕ → List Recvmmsg → AtomicRingBuffer → Looped
unfolding marked
recv_all events ks b =
    if wants_recv events && not (active_range b).shutdown
    then if ltb (active_range b).len ring_buffer_size
      then marked (recv_loop ks b)
      else ends b assert_failed
    else ends b (left (returned 1))
