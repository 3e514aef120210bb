-- ===== src/Listener/Handlers/Laws.antt =====
-- `ipc_connect` hands a connected socket on, or gives the connection up.
use tud_crash_tolerant_proxy.Prelude.{
  ℕ, ◌≡◌, ◌≢◌, refl, ap, ap₂, Bool, true, false, Option, none, some, List, [], ◌∷◌, ◌++◌, map, ◌==◌,
  if◌then◌else◌, Bool-cases, inl, inr, arith,
}
use tud_crash_tolerant_proxy.Http.Headers.{bytes}
use tud_crash_tolerant_proxy.Shared.{Connection}
use tud_crash_tolerant_proxy.Util.Closep.{closep}
use tud_crash_tolerant_proxy.Listener.Cleanup.{Close, setsockopt, close_call, close_connection}
use tud_crash_tolerant_proxy.Listener.Cleanup.Calls.{
  open_fds, closed_listener_fd, close_connection-calls, set_linger-calls,
}
use tud_crash_tolerant_proxy.Listener.Handlers.{
  connected, close, Answered, Network, behind, address, give_up, pass_upstream, with_upstream,
  with_address, ipc_connect,
}

-- The connection with this upstream socket.
abbrev pub with_socket : ℕ → Connection → Connection
with_socket fd c = record c { upstream = record c.upstream { fd0 = some fd } }

-- Every call has succeeded, from the address in the message to the socket that is sent.
pub record Linked (net : Network) (tail : Option (List ℕ)) (fd : ℕ) : Type 0 where
  pub addr : List ℕ
  pub has_address : tail ≡ some (bytes "addr=" ++ addr)
  pub parsed : net.parse_ok addr ≡ true
  pub made : net.socket addr ≡ some fd
  pub dialled : net.connect_ok fd addr ≡ true
  pub kept_open : net.cloexec_ok fd ≡ true
  pub passed_on : net.connected_ok ≡ true

-- The first call that has failed, and the connection as it is then.
pub data Fails (net : Network) (tail : Option (List ℕ)) (c : Connection) : Connection → Type 0 where
  no_address : ((addr : List ℕ) → tail ≢ some (bytes "addr=" ++ addr)) → Fails net tail c c
  not_parsed :
      (addr : List ℕ)
      → tail ≡ some (bytes "addr=" ++ addr)
      → net.parse_ok addr ≡ false
      → Fails net tail c c
  no_socket :
      (addr : List ℕ)
      → tail ≡ some (bytes "addr=" ++ addr)
      → net.socket addr ≡ none
      → Fails net tail c c
  not_dialled :
      (addr : List ℕ) (fd : ℕ)
      → tail ≡ some (bytes "addr=" ++ addr)
      → net.socket addr ≡ some fd
      → net.connect_ok fd addr ≡ false
      → Fails net tail c c
  not_kept_open :
      (addr : List ℕ) (fd : ℕ)
      → tail ≡ some (bytes "addr=" ++ addr)
      → net.socket addr ≡ some fd
      → net.cloexec_ok fd ≡ false
      → Fails net tail c c
  not_passed_on :
      (addr : List ℕ) (fd : ℕ)
      → tail ≡ some (bytes "addr=" ++ addr)
      → net.socket addr ≡ some fd
      → net.connected_ok ≡ false
      → Fails net tail c (with_socket fd c)

-- A connection that is given up.
pub record GivenUp (net : Network) (d : Connection) (r : Answered) : Type 0 where
  pub down_closed : r.conn.downstream.fd0 ≡ none
  pub up_closed : r.conn.upstream.fd0 ≡ none
  pub calls : r.calls ≡ map setsockopt (open_fds d) ++ map close_call (open_fds d)
  pub none_left : r.unstored ≡ none
  pub told : r.answer ≡ (if net.close_ok then some close else none)
  pub result : r.ok ≡ net.close_ok

-- What `ipc_connect` comes to.
pub data Links (net : Network) (tail : Option (List ℕ)) (c : Connection) (r : Answered)
    : Type 0 where
  links :
      (fd : ℕ)
      → Linked net tail fd
      → r ≡ record {
        conn = with_socket fd c;
        calls = [];
        answer = some (connected (some fd));
        ok = true;
        unstored = none;
      }
      → Links net tail c r
  gives_up : (d : Connection) → Fails net tail c d → GivenUp net d r → Links net tail c r

closed_both :
    (close_fd : Close) (c : Connection)
    → ((close_connection close_fd c).0.downstream.fd0 ≡ none)
      × ((close_connection close_fd c).0.upstream.fd0 ≡ none)
unfolding close_connection
closed_both close_fd c =
    (closed_listener_fd close_fd c.downstream.fd0, closed_listener_fd close_fd c.upstream.fd0)

give_up-GivenUp :
    (close_fd : Close) (net : Network) (d : Connection) (fd : Option ℕ)
    → fd ≡ none
    → GivenUp net d (give_up close_fd net fd d)
unfolding give_up
give_up-GivenUp close_fd net d fd gone = record {
  down_closed = (closed_both close_fd d).0;
  up_closed = (closed_both close_fd d).1;
  calls = ap₂ (λ xs ys. xs ++ ys) (set_linger-calls d) (close_connection-calls close_fd d);
  none_left = gone;
  told = refl;
  result = refl;
}

-- What follows a prefix, if it is one.
data Behind (prefix text : List ℕ) (o : Option (List ℕ)) : Type 0 where
  found : (rest : List ℕ) → o ≡ some rest → text ≡ prefix ++ rest → Behind prefix text o
  other : o ≡ none → ((rest : List ℕ) → text ≢ prefix ++ rest) → Behind prefix text o

head_of : ℕ → List ℕ → ℕ
head_of d [] = d
head_of d (x ∷ xs) = x

tail_of : List ℕ → List ℕ
tail_of [] = []
tail_of (x ∷ xs) = xs

is_empty : List ℕ → Bool
is_empty [] = true
is_empty (x ∷ xs) = false

behind-Behind : (prefix text : List ℕ) → Behind prefix text (behind prefix text)
unfolding behind head_of tail_of is_empty
behind-Behind [] text = found text refl refl
behind-Behind (p ∷ ps) [] = other refl (λ rest e. ground (arith, ap is_empty e))
behind-Behind (p ∷ ps) (x ∷ xs) = elim (Bool-cases (p == x)) [
  | inl same ↦ elim (behind-Behind ps xs) [
    | found rest e t ↦ found rest (rw same e) (ap₂ (λ y ys. y ∷ ys) (ground (arith, same)) t)
    | other e t ↦ other (rw same e) (λ rest k. t rest (ap tail_of k))
  ]
  | inr differs ↦ other (rw differs refl) (λ rest k. ground (arith, differs, ap (head_of 0) k))
]

module _ (close_fd : Close) (net : Network) (c : Connection) (tail : Option (List ℕ)) where
  -- close(2) does not say that an open file descriptor is bad.
  module _ (closes : (fd : ℕ) → closep (close_fd fd) (some fd) ≡ none) (addr : List ℕ)
      (has : tail ≡ some (bytes "addr=" ++ addr)) where
    socket_Links :
        (parsed : net.parse_ok addr ≡ true) (fd : ℕ)
        → net.socket addr ≡ some fd
        → Links net tail c (with_upstream close_fd net addr c (some fd))
    unfolding with_upstream pass_upstream
    socket_Links parsed fd made = elim (Bool-cases (net.connect_ok fd addr)) [
      | inr fails ↦ simp fails (
          gives_up c (not_dialled addr fd has made fails)
            (give_up-GivenUp close_fd net c _ (closes fd)))
      | inl dialled ↦ elim (Bool-cases (net.cloexec_ok fd)) [
        | inr fails ↦
            simp (dialled, fails)
              (gives_up c (not_kept_open addr fd has made fails)
                (give_up-GivenUp close_fd net c _ (closes fd)))
        | inl kept_open ↦ elim (Bool-cases net.connected_ok) [
          | inr fails ↦
              simp (dialled, kept_open, fails)
                (gives_up (with_socket fd c) (not_passed_on addr fd has made fails)
                  (give_up-GivenUp close_fd net (with_socket fd c) none refl))
          | inl sent ↦
              simp (dialled, kept_open, sent)
                (links fd
                  (record {
                    addr = addr;
                    has_address = has;
                    parsed = parsed;
                    made = made;
                    dialled = dialled;
                    kept_open = kept_open;
                    passed_on = sent;
                  })
                  refl)
        ]
      ]
    ]

    upstream-Links :
        (parsed : net.parse_ok addr ≡ true) (o : Option ℕ)
        → net.socket addr ≡ o
        → Links net tail c (with_upstream close_fd net addr c o)
    unfolding with_upstream
    upstream-Links parsed none e =
        gives_up c (no_socket addr has e) (give_up-GivenUp close_fd net c none refl)
    upstream-Links parsed (some fd) e = socket_Links parsed fd e

    address-Links : Links net tail c (with_address close_fd net c (some addr))
    unfolding with_address
    address-Links = elim (Bool-cases (net.parse_ok addr)) [
      | inl good ↦ simp good (upstream-Links good (net.socket addr) refl)
      | inr bad ↦
          simp bad (gives_up c (not_parsed addr has bad) (give_up-GivenUp close_fd net c none refl))
    ]

unsome : List ℕ → Option (List ℕ) → List ℕ
unsome d none = d
unsome d (some x) = x

-- Where close(2) does not say that an open file descriptor is bad: if the message has an address that
-- can be parsed, and socket(2), connect(2), `fd_cloexec` and the message "connected" succeed, the
-- socket is stored as the upstream file descriptor and sent to the worker, and nothing else changes.
-- Otherwise setsockopt(2) for SO_LINGER and then close(2) are called for the connection's open file
-- descriptors, which are forgotten; where "connected" could not be sent the new socket is among them,
-- and where an earlier call failed it is not left open. The worker is then sent "close", and the
-- handler fails just if that cannot be sent.
pub ipc_connect-Links :
    (close_fd : Close) (net : Network) (tail : Option (List ℕ)) (c : Connection)
    → ((fd : ℕ) → closep (close_fd fd) (some fd) ≡ none)
    → Links net tail c (ipc_connect close_fd net tail c)
unfolding ipc_connect address with_address unsome
ipc_connect-Links close_fd net none c closes =
    gives_up c (no_address (λ addr e. ground (arith, e))) (give_up-GivenUp close_fd net c none refl)
ipc_connect-Links close_fd net (some tail) c closes = elim (behind-Behind (bytes "addr=") tail) [
  | found addr e t ↦
      rw e (address-Links close_fd net c (some tail) closes addr (ap (λ x. some x) t))
  | other e t ↦ rw e (
      gives_up c (no_address (λ addr k. t addr (ap (unsome []) k)))
        (give_up-GivenUp close_fd net c none refl))
]
