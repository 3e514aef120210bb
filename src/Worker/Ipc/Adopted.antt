-- ===== src/Worker/Ipc/Adopted.antt =====
-- A connection whose worker died: what the listener hands over and the next worker's handlers make of
-- it.
use tud_crash_tolerant_proxy.Prelude.{
  ℕ, ◌≡◌, refl, sym, subst, ◌⊎◌, inl, inr, Bool, true, false, none, some, ◌==◌, Bool-cases, arith,
}
use tud_crash_tolerant_proxy.Shared.{
  Connection, conn_connecting, conn_poll, conn_swap_buffers, state_bits,
}
use tud_crash_tolerant_proxy.Listener.Adopt.{hand_over}
use tud_crash_tolerant_proxy.Worker.Epoll.Laws.{registered, epoll_from_buffers-Watches}
use tud_crash_tolerant_proxy.Worker.Handle.{Watched, Served, Answers}
use tud_crash_tolerant_proxy.Worker.Handle.Left.{AreEpollCtl, Tells, Watches-Tells}
use tud_crash_tolerant_proxy.Worker.Ipc.{
  done, fails, orphan_up, Replied, replies, asserting_closed, ipc_orphan_downstream, fresh,
  watch_down, watch_up, poll_down, poll_up, ipc_orphan_upstream,
}

-- The handler has kept the connection, and if it returns 0, epoll watches both endpoints.
pub record WatchedBy (c : Connection) (r : Replied) : Type 0 where
  pub conn : r.served.conn ≡ c
  pub result :
      (r.reply ≡ fails)
      ⊎ (r.reply ≡ done)
        × Tells r.served.conn.downstream r.served.down
        × Tells r.served.conn.upstream r.served.up

poll_down-Watched :
    (a : Answers) (info_down : Bool) (slot : ℕ) (s : Served)
    → AreEpollCtl a
    → s.down.interest ≡ none
    → Tells s.conn.upstream s.up
    → WatchedBy s.conn (poll_down a info_down slot s)
unfolding poll_down watch_down registered
poll_down-Watched a false slot s law h up = record { conn = refl; result = inl refl }
poll_down-Watched a true slot s law h up =
    let s' = record s { down = fresh slot s.down } in
    let w =
      epoll_from_buffers-Watches a.epoll_down law.down a.down_shutdown s'.conn.downstream
        s'.down.info s'.down.interest h in
    subst (λ o. WatchedBy s.conn (watch_down s' o (λ t. replies t done))) (sym w.ends)
      (elim (Bool-cases w.polled.ok) [
        | inl good ↦ rw good (record { conn = refl; result = inr (refl, Watches-Tells w good, up) })
        | inr bad ↦ rw bad (record { conn = refl; result = inl refl })
      ])

poll_up-Watched :
    (a : Answers) (info_up info_down : Bool) (slot : ℕ) (s : Served)
    → AreEpollCtl a
    → s.down.interest ≡ none
    → s.up.interest ≡ none
    → WatchedBy s.conn (poll_up a info_up info_down slot s)
unfolding poll_up watch_up registered
poll_up-Watched a false info_down slot s law d u = record { conn = refl; result = inl refl }
poll_up-Watched a true info_down slot s law d u =
    let s' = record s { up = fresh slot s.up } in
    let w =
      epoll_from_buffers-Watches a.epoll_up law.up a.up_shutdown s'.conn.upstream s'.up.info
        s'.up.interest u in
    subst (λ o. WatchedBy s.conn (watch_up s' o (poll_down a info_down slot))) (sym w.ends)
      (elim (Bool-cases w.polled.ok) [
        | inl good ↦ rw good (poll_down-Watched a info_down slot _ law d (Watches-Tells w good))
        | inr bad ↦ rw bad (record { conn = refl; result = inl refl })
      ])

-- The connection with the next worker's process and file descriptors.
abbrev pub taken_up : ℕ → ℕ → ℕ → Connection → Connection
taken_up pid d u c = record c {
  worker_pid = some pid;
  downstream = record c.downstream { fd1 = some d };
  upstream = record c.upstream { fd1 = some u };
}

-- The two messages of the hand-over, one after the other.
pub data TakenUp (a : Answers) (ipc_ok info_up info_down : Bool) (slot pid d u : ℕ) (c : Connection)
    (first : Replied) : Type 0 where
  not_asked :
      ipc_ok ≡ false → first.reply ≡ fails → TakenUp a ipc_ok info_up info_down slot pid d u c first
  asked :
      ipc_ok ≡ true
      → first.request ≡ some orphan_up
      → first.reply ≡ done
      → WatchedBy
          (taken_up pid d u c)
          (ipc_orphan_upstream a info_up info_down slot pid (some u) first.served)
      → TakenUp a ipc_ok info_up info_down slot pid d u c first

-- A connection that its worker has left in CONN_POLL or in CONN_SWAP_BUFFERS, handed over by the
-- listener to a worker whose epoll does not yet watch it, with epoll_ctl(2) as documented for each of
-- the two file descriptors. The worker takes the downstream file descriptor and asks for the upstream
-- one, or fails if that message cannot be sent. If it was sent, and when the worker has taken the
-- upstream file descriptor, the connection has kept its state and all four buffers, and the handler
-- either fails or has both endpoints watched for data to send and for room to receive, by the ranges
-- that are active: those in front of the pending swap, in CONN_SWAP_BUFFERS.
pub hand_over-TakenUp :
    (a : Answers) (format_ok ipc_ok info_up info_down : Bool) (slot pid d u : ℕ) (c : Connection)
    (down up : Watched)
    → AreEpollCtl a
    → down.interest ≡ none
    → up.interest ≡ none
    → (state_bits c.state ≡ conn_poll) ⊎ (state_bits c.state ≡ conn_swap_buffers)
    → TakenUp a ipc_ok info_up info_down slot pid d u c (
        ipc_orphan_downstream format_ok ipc_ok pid
          (some d)
          (record { conn = hand_over c; down = down; up = up }))
unfolding hand_over ipc_orphan_downstream ipc_orphan_upstream asserting_closed
hand_over-TakenUp a format_ok ipc_ok info_up info_down slot pid d u c down up law hd hu h =
    let old : (state_bits c.state == conn_connecting) ≡ false = elim h [
      | inl p ↦ ground (arith, p)
      | inr q ↦ ground (arith, q)
    ] in
    let word : (c.state == conn_connecting) ≡ false = elim h [
      | inl p ↦ ground (arith, p)
      | inr q ↦ ground (arith, q)
    ] in
    rw old (
      rw word (elim (Bool-cases ipc_ok) [
        | inl sent ↦
            rw sent (asked refl refl refl (poll_up-Watched a info_up info_down slot _ law hd hu))
        | inr failed ↦ rw failed (not_asked refl refl)
      ]))
