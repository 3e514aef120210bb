-- ===== src/Listener/Cleanup/Calls.antt =====
-- The calls for a connection's file descriptors that end it.
use tud_crash_tolerant_proxy.Prelude.{
  ℕ, ◌≡◌, refl, ap₂, sym, subst, true, Option, none, some, List, ◌++◌, map, ◌==◌, arith, Bool-cases,
  inl, inr,
}
use tud_crash_tolerant_proxy.Shared.{Connection, conn_closing, conn_error, state_bits}
use tud_crash_tolerant_proxy.Util.Closep.{closed_fd, both_fds}
use tud_crash_tolerant_proxy.Listener.Cleanup.{
  Close, FdCall, setsockopt, close_call, linger_fd, set_linger, close_fd, close_connection, is_gone,
  free_calls,
}

-- The listener's file descriptors of a connection.
abbrev pub open_fds : Connection → List ℕ
open_fds c = both_fds c.upstream.fd0 c.downstream.fd0

-- The calls that end a connection: in CONN_ERROR, SO_LINGER is set on its open file descriptors; then
-- each is closed.
pub data EndsWith (c : Connection) : List FdCall → Type 0 where
  reset :
      state_bits c.state ≡ conn_error
      → EndsWith c (map setsockopt (open_fds c) ++ map close_call (open_fds c))
  closed : state_bits c.state ≡ conn_closing → EndsWith c (map close_call (open_fds c))

pub closed_listener_fd : (close : Close) (fd : Option ℕ) → (close_fd close fd).0 ≡ none
unfolding close_fd
closed_listener_fd close none = refl
closed_listener_fd close (some fd) = closed_fd (close fd) (some fd)

-- With the calls for one connection.
fds_calls :
    (close : Close) (up down : Option ℕ)
    → (close_fd close up).1 ++ (close_fd close down).1 ≡ map close_call (both_fds up down)
unfolding close_fd both_fds
fds_calls close none none = refl
fds_calls close none (some d) = refl
fds_calls close (some u) none = refl
fds_calls close (some u) (some d) = refl

fds_linger :
    (up down : Option ℕ) → linger_fd up ++ linger_fd down ≡ map setsockopt (both_fds up down)
unfolding linger_fd both_fds
fds_linger none none = refl
fds_linger none (some d) = refl
fds_linger (some u) none = refl
fds_linger (some u) (some d) = refl

pub close_connection-calls :
    (close : Close) (c : Connection) → (close_connection close c).1 ≡ map close_call (open_fds c)
unfolding close_connection
close_connection-calls close c = fds_calls close c.upstream.fd0 c.downstream.fd0

pub set_linger-calls : (c : Connection) → set_linger c ≡ map setsockopt (open_fds c)
unfolding set_linger
set_linger-calls c = fds_linger c.upstream.fd0 c.downstream.fd0

pub free_calls-EndsWith :
    (close : Close) (c : Connection) → is_gone c ≡ true → EndsWith c (free_calls close c)
unfolding free_calls is_gone
free_calls-EndsWith close c h = elim (Bool-cases (state_bits c.state == conn_error)) [
  | inl failing ↦ rw failing (
      subst (EndsWith c)
        (sym (ap₂ (λ xs ys. xs ++ ys) (set_linger-calls c) (close_connection-calls close c)))
        (reset (ground (arith, failing))))
  | inr other ↦ rw other (
      subst (EndsWith c) (sym (close_connection-calls close c)) (closed (ground (arith, h, other))))
]
