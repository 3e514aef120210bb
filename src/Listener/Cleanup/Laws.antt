-- ===== src/Listener/Cleanup/Laws.antt =====
-- What `cleanup_connections` leaves of each connection.
use tud_crash_tolerant_proxy.Prelude.{
  ℕ, ◌+◌, ◌≡◌, ◌≢◌, refl, ap, ◌∙◌, Bool, true, false, Option, none, some, List, [], ◌∷◌, ◌++◌,
  arith, Bool-cases, inl, inr,
}
use tud_crash_tolerant_proxy.Shared.{Connection, conn_unused, conn_closing, conn_error, state_bits}
use tud_crash_tolerant_proxy.Listener.Table.{
  fd_type_conn, FdEntry, FdTable, entry_at, register-Registered, register-succeeds,
}
use tud_crash_tolerant_proxy.Listener.Cleanup.{
  Close, FdCall, close_connection, register_open, register_next, register_both, Cleaned, is_gone,
  cleanup_connections,
}
use tud_crash_tolerant_proxy.Listener.Cleanup.Calls.{
  EndsWith, closed_listener_fd, free_calls-EndsWith,
}

-- A file descriptor that is open is known as a connection's.
unfoldable pub Known : FdTable → Option ℕ → Type 0
Known table none = Unit {0}
Known table (some fd) = (entry_at table fd).type ≡ fd_type_conn

-- What becomes of each connection, what the table knows at the end, and the calls.
pub data Settled (table : FdTable) : List Connection → List Connection → List FdCall → Type 0 where
  no_more : Settled table [] [] []
  gone :
      {cs ds : List Connection} {calls later : List FdCall} (c d : Connection)
      → EndsWith c calls
      → d.state ≡ conn_unused
      → d.downstream.fd0 ≡ none
      → d.upstream.fd0 ≡ none
      → Settled table cs ds later
      → Settled table (c ∷ cs) (d ∷ ds) (calls ++ later)
  kept :
      {cs ds : List Connection} {calls : List FdCall} (c : Connection)
      → state_bits c.state ≢ conn_error
      → state_bits c.state ≢ conn_closing
      → Known table c.downstream.fd0
      → Known table c.upstream.fd0
      → Settled table cs ds calls
      → Settled table (c ∷ cs) (c ∷ ds) calls

-- What is known as a connection's file descriptor stays known.
Grows : FdTable → FdTable → Type 0
Grows t t' = (fd : ℕ) → (entry_at t fd).type ≡ fd_type_conn → (entry_at t' fd).type ≡ fd_type_conn

abbrev conn_entry : ℕ → FdEntry
conn_entry slot = record { type = fd_type_conn; slot = slot }

-- What registering a connection's file descriptor leaves.
record Added (realloc_ok : ℕ → Bool) (t : FdTable) (fd : Option ℕ) (r : FdTable × Bool)
    : Type 0 where
  grows : Grows t r.0
  known : r.1 ≡ true → Known r.0 fd
  succeeds : ((n : ℕ) → realloc_ok n ≡ true) → r.1 ≡ true

register_open-Added :
    (realloc_ok : ℕ → Bool) (slot : ℕ) (t : FdTable) (fd : Option ℕ)
    → Added realloc_ok t fd (register_open realloc_ok (conn_entry slot) t fd)
unfolding register_open Known Grows
register_open-Added realloc_ok slot t none = record {
  grows = λ fd h. h;
  known = λ k. tt;
  succeeds = λ h. refl;
}
register_open-Added realloc_ok slot t (some fd) =
    let r = register-Registered realloc_ok (conn_entry slot) t fd in
    record {
      grows = λ other h. elim (r.either other) [
        | inl same ↦ ap (λ x. x.type) same ∙ h
        | inr new ↦ ap (λ x. x.type) new
      ];
      known = λ k. ap (λ x. x.type) (r.self k);
      succeeds = register-succeeds realloc_ok (conn_entry slot) t fd;
    }

Known-Grows : (t t' : FdTable) (fd : Option ℕ) → Grows t t' → Known t fd → Known t' fd
unfolding Known Grows
Known-Grows t t' none g k = tt
Known-Grows t t' (some fd) g k = g fd k

record Both (realloc_ok : ℕ → Bool) (t : FdTable) (c : Connection) (r : FdTable × Bool)
    : Type 0 where
  grows : Grows t r.0
  down : r.1 ≡ true → Known r.0 c.downstream.fd0
  up : r.1 ≡ true → Known r.0 c.upstream.fd0
  succeeds : ((n : ℕ) → realloc_ok n ≡ true) → r.1 ≡ true

register_both-Both :
    (realloc_ok : ℕ → Bool) (slot : ℕ) (t : FdTable) (c : Connection)
    → Both realloc_ok t c (register_both realloc_ok slot t c)
unfolding register_both register_next Grows
register_both-Both realloc_ok slot t c =
    let first = register_open realloc_ok (conn_entry slot) t c.upstream.fd0 in
    let a = register_open-Added realloc_ok slot t c.upstream.fd0 in
    let b = register_open-Added realloc_ok slot first.0 c.downstream.fd0 in
    elim (Bool-cases first.1) [
      | inl good ↦ rw good (record {
        grows = λ fd h. b.grows fd (a.grows fd h);
        down = b.known;
        up = λ k. Known-Grows first.0 _ c.upstream.fd0 b.grows (a.known good);
        succeeds = b.succeeds;
      })
      | inr bad ↦ rw bad (record {
        grows = a.grows;
        down = λ k. ground (arith, k);
        up = λ k. ground (arith, k);
        succeeds = λ h. ground (arith, a.succeeds h, bad);
      })
    ]

stays-state :
    (c : Connection)
    → is_gone c ≡ false
    → (state_bits c.state ≢ conn_error) × (state_bits c.state ≢ conn_closing)
unfolding is_gone
stays-state c h = ((λ e. ground (arith, h, e)), (λ e. ground (arith, h, e)))

Settled-Grows :
    {t t' : FdTable} {cs ds : List Connection} {calls : List FdCall}
    → Grows t t'
    → Settled t cs ds calls
    → Settled t' cs ds calls
Settled-Grows g no_more = no_more
Settled-Grows g (gone c d e s x y rest) = gone c d e s x y (Settled-Grows g rest)
Settled-Grows {t = t} {t' = t'} g (kept c h k x y rest) =
    kept c h k (Known-Grows t t' c.downstream.fd0 g x) (Known-Grows t t' c.upstream.fd0 g y)
      (Settled-Grows g rest)

record Result (realloc_ok : ℕ → Bool) (t : FdTable) (cs : List Connection) (r : Cleaned)
    : Type 0 where
  grows : Grows t r.table
  settled : r.ok ≡ true → Settled r.table cs r.connections r.calls
  succeeds : ((n : ℕ) → realloc_ok n ≡ true) → r.ok ≡ true

cleanup_connections-Result :
    (realloc_ok : ℕ → Bool) (close : Close) (slot : ℕ) (t : FdTable) (cs : List Connection)
    → Result realloc_ok t cs (cleanup_connections realloc_ok close slot t cs)
unfolding cleanup_connections close_connection Grows
cleanup_connections-Result realloc_ok close slot t [] = record {
  grows = λ fd h. h;
  settled = λ k. no_more;
  succeeds = λ h. refl;
}
cleanup_connections-Result realloc_ok close slot t (c ∷ cs) =
    let next = register_both realloc_ok slot t c in
    let b = register_both-Both realloc_ok slot t c in
    let skipped = cleanup_connections-Result realloc_ok close (slot + 1) t cs in
    let rest = cleanup_connections-Result realloc_ok close (slot + 1) next.0 cs in
    elim (Bool-cases (is_gone c)) [
      | inl leaves ↦ rw leaves (record {
        grows = skipped.grows;
        settled = λ k.
            gone c _ (free_calls-EndsWith close c leaves) refl
              (closed_listener_fd close c.downstream.fd0) (closed_listener_fd close c.upstream.fd0)
              (skipped.settled k);
        succeeds = skipped.succeeds;
      })
      | inr stays ↦ rw stays (elim (Bool-cases next.1) [
        | inl good ↦ rw good (record {
          grows = λ fd h. rest.grows fd (b.grows fd h);
          settled = λ k.
              kept c (stays-state c stays).0 (stays-state c stays).1
                (Known-Grows next.0 _ c.downstream.fd0 rest.grows (b.down good))
                (Known-Grows next.0 _ c.upstream.fd0 rest.grows (b.up good)) (rest.settled k);
          succeeds = rest.succeeds;
        })
        | inr bad ↦ rw bad (record {
          grows = b.grows;
          settled = λ k. ground (arith, k);
          succeeds = λ h. ground (arith, b.succeeds h, bad);
        })
      ])
    ]

-- Where no allocation fails, the call succeeds: every connection in CONN_CLOSING or CONN_ERROR is
-- afterwards unused and without the listener's file descriptors, for each of which close(2) was
-- called, whatever it answers, and in CONN_ERROR setsockopt(2) for SO_LINGER before that; every other
-- connection is left as it was, and its open file descriptors are known as those of a connection.
pub cleanup_connections-Settled :
    (realloc_ok : ℕ → Bool) (close : Close) (slot : ℕ) (table : FdTable) (cs : List Connection)
    → ((n : ℕ) → realloc_ok n ≡ true)
    → let r = cleanup_connections realloc_ok close slot table cs in
      (r.ok ≡ true) × Settled r.table cs r.connections r.calls
cleanup_connections-Settled realloc_ok close slot table cs h =
    let r = cleanup_connections-Result realloc_ok close slot table cs in
    (r.succeeds h, r.settled (r.succeeds h))
