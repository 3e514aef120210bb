-- ===== src/Worker/Handle/Closing.antt =====
-- The states in which `handle_connection` leaves a connection, on each of its paths.
use tud_crash_tolerant_proxy.Prelude.{
  ℕ, ◌≡◌, refl, ap, sym, subst, ◌∙◌, inl, inr, true, false, Option, none, some, [], ◌∷◌, ◌==◌,
  Bool-cases, arith,
}
use tud_crash_tolerant_proxy.Atomic.{AtomicRingBuffer}
use tud_crash_tolerant_proxy.Shared.{
  Connection, conn_poll, conn_swap_buffers, conn_closing, conn_error, state_bits,
}
use tud_crash_tolerant_proxy.Worker.{
  downstream_rx, downstream_tx, upstream_rx, upstream_tx, transform_flag, swap_stores, is_finished,
  transform_connection,
}
use tud_crash_tolerant_proxy.Worker.Epoll.{Polled}
use tud_crash_tolerant_proxy.Worker.Epoll.Laws.{Watches, epoll_from_buffers-Watches}
use tud_crash_tolerant_proxy.Worker.Io.{Looped, send_all, send_verdict, recv_all, recv_verdict}
use tud_crash_tolerant_proxy.Worker.Handle.{
  Side, Served, Answers, endpoint_at, set_conn, put_rx, put_tx, swapped_up, swapped_down,
  swap_and_poll, transformed, asserting_open, Handled, downstream_side, upstream_side, received,
  sent, poll, handle_connection,
}
use tud_crash_tolerant_proxy.Worker.Handle.Left.{
  Agree, AreEpollCtl, SameFds, Left-SameFds, Tells, Left, polling, unswapped, closed,
  failed_assertion, close_all-Closed, go_error-Left, judged-Left, Watches-Tells,
}
use tud_crash_tolerant_proxy.Worker.Handle.Stored.{
  Stored, StoredFrom, state-swap_stores, swap_stores-SameFds, transform_connection-StoredFrom,
}

module _ (a : Answers) (law : AreEpollCtl a) where
  swapped_up-Left :
      (s : Served) (r : Option Polled)
      → Watches s.conn.upstream r
      → Tells s.conn.downstream s.down
      → state_bits s.conn.state ≡ conn_swap_buffers
      → Left s.conn (swapped_up s r)
  unfolding swapped_up
  swapped_up-Left s r w t h =
      subst (λ o. Left s.conn (swapped_up s o)) (sym w.ends)
        (elim (Bool-cases w.polled.ok) [
          | inl good ↦ rw good (polling refl refl refl t (Watches-Tells w good))
          | inr bad ↦ rw bad (unswapped refl h)
        ])

  asserting-Left :
      (fd : Option ℕ) (c : Connection) (s : Served) (rest : Handled)
      → Left c rest
      → Left c (asserting_open fd s rest)
  unfolding asserting_open
  asserting-Left none c s rest l = failed_assertion refl
  asserting-Left (some fd) c s rest l = l

  swapped_down-Left :
      (s : Served) (r : Option Polled)
      → Watches s.conn.downstream r
      → Agree s.up
      → state_bits s.conn.state ≡ conn_swap_buffers
      → Left s.conn (swapped_down a s r)
  unfolding swapped_down
  swapped_down-Left s r w up h =
      subst (λ o. Left s.conn (swapped_down a s o)) (sym w.ends)
        (elim (Bool-cases w.polled.ok) [
          | inl good ↦ rw good (
              asserting-Left s.conn.upstream.fd1 s.conn _ _ (
                swapped_up-Left _ _
                  (epoll_from_buffers-Watches a.epoll_up law.up a.up_shutdown s.conn.upstream
                    s.up.info s.up.interest up)
                  (Watches-Tells w good) h))
          | inr bad ↦ rw bad (unswapped refl h)
        ])

  swap_and_poll-Left :
      (s : Served)
      → Agree s.down
      → Agree s.up
      → state_bits s.conn.state ≡ conn_swap_buffers
      → Left s.conn (swap_and_poll a s)
  unfolding swap_and_poll
  swap_and_poll-Left s down up h =
      let fs = downstream_rx ∷ downstream_tx ∷ upstream_rx ∷ upstream_tx ∷ transform_flag ∷ [] in
      let c = swap_stores fs s.conn in
      Left-SameFds _ (swap_stores-SameFds fs s.conn) (
        asserting-Left c.downstream.fd1 c (set_conn s c) _ (
          swapped_down-Left (set_conn s c) _
            (epoll_from_buffers-Watches a.epoll_down law.down a.down_shutdown c.downstream
              s.down.info s.down.interest down)
            up (ap state_bits (state-swap_stores fs s.conn) ∙ h)))

  transformed-Left :
      (s : Served) (o : Option Connection)
      → Agree s.down
      → Agree s.up
      → StoredFrom s.conn o
      → Left s.conn (transformed a s o)
  unfolding transformed Stored StoredFrom
  transformed-Left s none down up h = failed_assertion refl
  transformed-Left s (some c) down up h = elim (Bool-cases (is_finished c)) [
    | inl done ↦
        rw done
          (Left-SameFds _ h.1 (closed (close_all-Closed a true (set_conn s c) (inl (h.0.0 done)))))
    | inr more ↦
        rw more (Left-SameFds _ h.1 (swap_and_poll-Left (set_conn s c) down up (h.0.1 more)))
  ]

  put_rx-SameFds :
      (side : Side) (b : AtomicRingBuffer) (s : Served) → SameFds (put_rx side b s).conn s.conn
  put_rx-SameFds downstream_side b s = record { down = refl; up = refl }
  put_rx-SameFds upstream_side b s = record { down = refl; up = refl }

  put_tx-SameFds :
      (side : Side) (b : AtomicRingBuffer) (s : Served) → SameFds (put_tx side b s).conn s.conn
  put_tx-SameFds downstream_side b s = record { down = refl; up = refl }
  put_tx-SameFds upstream_side b s = record { down = refl; up = refl }

  received-Left :
      (side : Side) (s : Served) (l : Looped)
      → Agree s.down
      → Agree s.up
      → Left s.conn (received a side s l)
  unfolding received
  received-Left side s l down up =
      let s' = put_rx side l.mem s in
      let o = transform_connection a.world a.shut_down_ok a.shut_up_ok s'.conn in
      Left-SameFds _ (put_rx-SameFds side l.mem s) (
        judged-Left a s' (recv_verdict l.ending) (transformed a s' o) (
          transformed-Left s' o down up
            (transform_connection-StoredFrom a.world a.shut_down_ok a.shut_up_ok s'.conn)))

  sent-Left :
      (events : ℕ) (side : Side) (s : Served) (l : Looped)
      → Agree s.down
      → Agree s.up
      → Left s.conn (sent a events side s l)
  unfolding sent
  sent-Left events side s l down up =
      let s' = put_tx side l.mem s in
      let next = recv_all events a.recvs (endpoint_at side s'.conn).rx in
      Left-SameFds _ (put_tx-SameFds side l.mem s) (
        judged-Left a s' (send_verdict l.ending) (received a side s' next)
          (received-Left side s' next down up))

-- With epoll_ctl(2) as documented for each of the two file descriptors and the worker's records of the
-- events in agreement with the kernel's, whatever state the connection is in and whatever the other
-- calls answer, with one answer for each: the call returns 0 with the connection in CONN_POLL, without
-- a call of close(2), where the kernel will tell of data to send and of room to receive on both
-- endpoints; or it fails with the connection in CONN_SWAP_BUFFERS, for the next worker to repeat the
-- swap; or close(2) was called for both of the worker's file descriptors, as far as they were open,
-- and they are forgotten, in CONN_CLOSING or, with a failure, in CONN_ERROR, and the message "close"
-- was sent to the listener or the call fails; or an assertion fails, or the calls that are given do
-- not suffice.
pub handle_connection-Left :
    (a : Answers) (events : ℕ) (side : Side) (s : Served)
    → AreEpollCtl a
    → Agree s.down
    → Agree s.up
    → Left s.conn (handle_connection a events side s)
unfolding handle_connection poll
handle_connection-Left a events side s law down up =
    elim (Bool-cases (state_bits s.conn.state == conn_poll)) [
      | inl polled ↦ rw polled (
          sent-Left a law events side s (send_all events a.sends (endpoint_at side s.conn).tx) down
            up)
      | inr not_poll ↦ rw not_poll (elim (Bool-cases (state_bits s.conn.state == conn_closing)) [
        | inl closing ↦
            rw closing (closed (close_all-Closed a true s (inl (ground (arith, closing)))))
        | inr not_closing ↦
            rw not_closing (elim (Bool-cases (state_bits s.conn.state == conn_error)) [
              | inl failing ↦
                  rw failing
                    (closed (close_all-Closed a false s (inr (ground (arith, failing), refl))))
              | inr not_error ↦
                  rw not_error (elim (Bool-cases (state_bits s.conn.state == conn_swap_buffers)) [
                    | inl swapping ↦
                        rw swapping (swap_and_poll-Left a law s down up (ground (arith, swapping)))
                    | inr unknown ↦ rw unknown (go_error-Left a s)
                  ])
            ])
      ])
    ]
