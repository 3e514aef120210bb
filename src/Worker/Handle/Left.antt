-- ===== src/Worker/Handle/Left.antt =====
-- What `handle_connection` may leave of a connection, and its ways to give one up: `close_all`, the
-- label `error` and the results of the loops.
use tud_crash_tolerant_proxy.Prelude.{
  ℕ, ◌<◌, ◌≡◌, refl, ap₂, ◌∙◌, ◌⊎◌, inl, inr, Bool, true, false, ◌&&◌, if◌then◌else◌, Option, none,
  some, List, [], ◌∷◌, ◌++◌, bit_set,
}
use tud_crash_tolerant_proxy.Ring.{ring_buffer_size}
use tud_crash_tolerant_proxy.Atomic.{Errno, active_range}
use tud_crash_tolerant_proxy.Shared.{
  Endpoint, Connection, conn_poll, conn_swap_buffers, conn_closing, conn_error, state_bits,
}
use tud_crash_tolerant_proxy.Util.Closep.{closed_fd, both_fds}
use tud_crash_tolerant_proxy.Worker.Epoll.{EpollCtl, Polled}
use tud_crash_tolerant_proxy.Worker.Epoll.Laws.{IsEpollCtl, registered, Watches}
use tud_crash_tolerant_proxy.Worker.Io.{Verdict, proceeds, goes_error, aborts, runs}
use tud_crash_tolerant_proxy.Worker.Handle.{
  Watched, Served, Answers, success, failure, asserted, pending, Handled, change_state,
  epoll_closep, close_all, go_error, judged,
}

-- The worker's record of the events of a file descriptor agrees with the kernel's.
abbrev pub Agree : Watched → Type 0
Agree w = w.interest ≡ registered w.info.events

-- The kernel tells when there is something to send, or room to receive.
pub record Tells (e : Endpoint) (w : Watched) : Type 0 where
  pub agrees : Agree w
  pub sends : 0 < (active_range e.tx).len → bit_set w.info.events 2 ≡ true
  pub receives :
      (active_range e.rx).len < ring_buffer_size
      → (active_range e.rx).shutdown ≡ false
      → bit_set w.info.events 0 ≡ true

-- What epoll_ctl(2) does for each of the two file descriptors is as documented.
pub record AreEpollCtl (a : Answers) : Type 0 where
  pub down : IsEpollCtl a.epoll_down
  pub up : IsEpollCtl a.epoll_up

-- The connection `c` was given up: close(2) was called for both file descriptors of the worker, which
-- are forgotten, and the listener is told to close its own, or the call fails.
pub record Closed (c : Connection) (h : Handled) : Type 0 where
  pub calls : h.closed ≡ both_fds c.upstream.fd1 c.downstream.fd1
  pub down_closed : h.served.conn.downstream.fd1 ≡ none
  pub up_closed : h.served.conn.upstream.fd1 ≡ none
  pub told : (h.told ≡ true) ⊎ (h.outcome ≡ failure)
  pub state :
      (state_bits h.served.conn.state ≡ conn_closing)
      ⊎ (state_bits h.served.conn.state ≡ conn_error) × (h.outcome ≡ failure)

pub data Left (c : Connection) (h : Handled) : Type 0 where
  -- it goes on: the kernel will tell about both endpoints
  polling :
      h.outcome ≡ success
      → h.served.conn.state ≡ conn_poll
      → h.closed ≡ []
      → Tells h.served.conn.downstream h.served.down
      → Tells h.served.conn.upstream h.served.up
      → Left c h
  -- the worker exits, and the next one repeats the swap
  unswapped : h.outcome ≡ failure → state_bits h.served.conn.state ≡ conn_swap_buffers → Left c h
  closed : Closed c h → Left c h
  failed_assertion : h.outcome ≡ asserted → Left c h
  unfinished : h.outcome ≡ pending → Left c h

-- The file descriptors of the worker are the same.
pub record SameFds (c d : Connection) : Type 0 where
  pub down : c.downstream.fd1 ≡ d.downstream.fd1
  pub up : c.upstream.fd1 ≡ d.upstream.fd1

pub Left-SameFds : {c d : Connection} (h : Handled) → SameFds c d → Left c h → Left d h
Left-SameFds h s (polling o e k x y) = polling o e k x y
Left-SameFds h s (unswapped o e) = unswapped o e
Left-SameFds h s (closed k) = closed (record {
  calls = k.calls ∙ ap₂ both_fds s.up s.down;
  down_closed = k.down_closed;
  up_closed = k.up_closed;
  told = k.told;
  state = k.state;
})
Left-SameFds h s (failed_assertion o) = failed_assertion o
Left-SameFds h s (unfinished o) = unfinished o

pub closed_endpoint_fd :
    (k : EpollCtl) (e : Option Errno) (p : Endpoint) (w : Watched)
    → (epoll_closep k e p w).0.fd1 ≡ none
unfolding epoll_closep
closed_endpoint_fd k e p w = of p.fd1 refl
  where
    of : (fd : Option ℕ) → p.fd1 ≡ fd → (epoll_closep k e p w).0.fd1 ≡ none
    of none h = rw h refl
    of (some fd) h = rw h (closed_fd e (some fd))

-- The calls of close(2) for one endpoint.
call_of : Option ℕ → List ℕ
call_of none = []
call_of (some fd) = fd ∷ []

endpoint_calls :
    (k : EpollCtl) (e : Option Errno) (p : Endpoint) (w : Watched)
    → (epoll_closep k e p w).3 ≡ call_of p.fd1
unfolding epoll_closep call_of
endpoint_calls k e p w = of p.fd1 refl
  where
    of : (fd : Option ℕ) → p.fd1 ≡ fd → (epoll_closep k e p w).3 ≡ call_of p.fd1
    of none h = rw h refl
    of (some fd) h = rw h refl

both_calls : (u d : Option ℕ) → call_of u ++ call_of d ≡ both_fds u d
unfolding call_of both_fds
both_calls none none = refl
both_calls none (some d) = refl
both_calls (some u) none = refl
both_calls (some u) (some d) = refl

told_or_fails :
    (r x y ok : Bool) → (ok ≡ true) ⊎ ((if r && x && y && ok then success else failure) ≡ failure)
told_or_fails r x y true = inl refl
told_or_fails false x y false = inr refl
told_or_fails true false y false = inr refl
told_or_fails true true false false = inr refl
told_or_fails true true true false = inr refl

pub close_all-Closed :
    (a : Answers) (r : Bool) (s : Served)
    → ((state_bits s.conn.state ≡ conn_closing)
        ⊎ (state_bits s.conn.state ≡ conn_error) × (r ≡ false))
    → Closed s.conn (close_all a r s)
unfolding close_all
close_all-Closed a r s h = record {
  calls =
      ap₂ (λ x y. x ++ y) (endpoint_calls a.epoll_up a.close_up s.conn.upstream s.up)
        (endpoint_calls a.epoll_down a.close_down s.conn.downstream s.down)
      ∙ both_calls s.conn.upstream.fd1 s.conn.downstream.fd1;
  down_closed = closed_endpoint_fd a.epoll_down a.close_down s.conn.downstream s.down;
  up_closed = closed_endpoint_fd a.epoll_up a.close_up s.conn.upstream s.up;
  told = told_or_fails r _ _ a.ipc_ok;
  state = elim h [ inl c ↦ inl c | inr (e, f) ↦ inr (e, rw f refl) ];
}

pub go_error-Left : (a : Answers) (s : Served) → Left s.conn (go_error a s)
unfolding go_error
go_error-Left a s =
    Left-SameFds _ (record { down = refl; up = refl })
      (closed (close_all-Closed a false (change_state conn_error s) (inr (refl, refl))))

pub judged-Left :
    (a : Answers) (s : Served) (v : Verdict) (rest : Handled)
    → Left s.conn rest
    → Left s.conn (judged a s v rest)
unfolding judged
judged-Left a s proceeds rest l = l
judged-Left a s goes_error rest l = go_error-Left a s
judged-Left a s aborts rest l = failed_assertion refl
judged-Left a s runs rest l = unfinished refl

-- An endpoint that epoll has been told about.
pub Watches-Tells :
    {e : Endpoint} {r : Option Polled} (w : Watches e r)
    → w.polled.ok ≡ true
    → Tells e (record { info = w.polled.info; interest = w.polled.interest })
Watches-Tells w ok = record { agrees = w.agrees; sends = w.sends ok; receives = w.receives ok }
