-- ===== src/Worker/Epoll.antt =====
-- `epoll_mod` and `epoll_from_buffers` of worker/main.c, for one file descriptor. What the kernel is
-- interested in is its events, or `none` while it is not in the interest list.
pub mod Laws
mod Tests
use tud_crash_tolerant_proxy.Prelude.{
  ℕ, zero, suc, ◌+◌, ◌≡◌, Bool, true, false, not, ◌&&◌, ◌||◌, Option, none, some, ltb, ◌==◌,
  if◌then◌else◌, bit_set,
}
use tud_crash_tolerant_proxy.Ring.{ring_buffer_size}
use tud_crash_tolerant_proxy.Atomic.{Errno, eexist, enotconn, active_range}
use tud_crash_tolerant_proxy.Shared.{Endpoint}

-- `struct fd_info`, as far as epoll uses it
pub record FdInfo : Type 0 where
  pub slot : ℕ
  pub events : ℕ

-- `EPOLL_CTL_ADD`, `EPOLL_CTL_MOD` and `EPOLL_CTL_DEL`
pub data EpollOp : Type 0 where
  ctl_add ctl_mod ctl_del : EpollOp

-- What a call of epoll_ctl(2) comes to: its error, and the events the kernel has then.
pub record Ctl : Type 0 where
  pub failure : Option Errno
  pub interest : Option ℕ

abbrev pub EpollCtl : Type 0
EpollCtl = EpollOp → ℕ → Option ℕ → Ctl

is_eexist : Errno → Bool
is_eexist eexist = true
is_eexist _ = false

is_enotconn : Errno → Bool
is_enotconn enotconn = true
is_enotconn _ = false

is_add : EpollOp → Bool
is_add ctl_add = true
is_add ctl_mod = false
is_add ctl_del = false

-- One round of the `while` loop; `again` is what follows it with `EPOLL_CTL_MOD`.
after_ctl : EpollOp → Option (Bool × Option ℕ) → Option ℕ → Option Errno → Option (Bool × Option ℕ)
unfolding is_eexist is_add
after_ctl op again interest none = some (true, interest)
after_ctl op again interest (some e) =
    if is_eexist e && is_add op then again else some (false, interest)

-- Whether epoll_ctl(2) has succeeded, and the kernel's events; `none` when the fuel runs out.
unfoldable pub ctl_loop : ℕ → EpollCtl → EpollOp → ℕ → Option ℕ → Option (Bool × Option ℕ)
unfolding after_ctl
ctl_loop zero epoll_ctl op events interest = none
ctl_loop (suc fuel) epoll_ctl op events interest =
    let c = epoll_ctl op events interest in
    after_ctl op (ctl_loop fuel epoll_ctl ctl_mod events c.interest) c.interest c.failure

-- What `epoll_mod` leaves: whether it returned 0, and both records of the events.
pub record Polled : Type 0 where
  pub ok : Bool
  pub info : FdInfo
  pub interest : Option ℕ

ctl_result : ℕ → FdInfo → Option (Bool × Option ℕ) → Option Polled
ctl_result events info none = none
ctl_result events info (some (ok, interest)) = some (record {
  ok = ok;
  info = if ok then record info { events = events } else info;
  interest = interest;
})

abbrev pub epoll_op : ℕ → ℕ → EpollOp
epoll_op events old = if events == 0 then ctl_del else if old == 0 then ctl_add else ctl_mod

-- After `EPOLL_CTL_MOD` the loop does not go round again.
unfoldable pub epoll_mod : EpollCtl → ℕ → FdInfo → Option ℕ → Option Polled
unfolding ctl_result ctl_loop
epoll_mod epoll_ctl events info interest =
    if events == info.events
    then some (record { ok = true; info = info; interest = interest })
    else ctl_result events info (ctl_loop 2 epoll_ctl (epoll_op events info.events) events interest)

-- `EPOLLIN | EPOLLRDHUP` and `EPOLLOUT`, where they are wanted
unfoldable pub wanted_events : Endpoint → ℕ
wanted_events e =
    (if ltb 0 (active_range e.tx).len then 4 else 0)
    + (if ltb (active_range e.rx).len ring_buffer_size && not (active_range e.rx).shutdown
        then 8193
        else 0)

-- `(have & events) == events`, for events among these three bits
unfoldable pub covers : ℕ → ℕ → Bool
covers have events =
    (not (bit_set events 0) || bit_set have 0)
    && (not (bit_set events 2) || bit_set have 2)
    && (not (bit_set events 13) || bit_set have 13)

-- Whether shutdown(2) is called, and fails for another reason than ENOTCONN.
unfoldable pub shutdown_fails : Endpoint → Option Errno → Bool
unfolding is_enotconn
shutdown_fails e none = false
shutdown_fails e (some errno) =
    not (ltb 0 (active_range e.tx).len) && (active_range e.tx).shutdown && not (is_enotconn errno)

-- The result 0 or -1, of `epoll_from_buffers`.
poll_result : ℕ → Option Polled → Option Polled
unfolding covers
poll_result events none = none
poll_result events (some p) =
    some (record p { ok = if p.ok then true else covers p.info.events events })

unfoldable pub epoll_from_buffers :
    EpollCtl → Option Errno → Endpoint → FdInfo → Option ℕ → Option Polled
unfolding poll_result
epoll_from_buffers epoll_ctl shutdown_result e info interest =
    if shutdown_fails e shutdown_result
    then some (record { ok = false; info = info; interest = interest })
    else poll_result (wanted_events e) (epoll_mod epoll_ctl (wanted_events e) info interest)
