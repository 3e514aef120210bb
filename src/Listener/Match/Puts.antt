-- ===== src/Listener/Match/Puts.antt =====
-- Where a recovered file descriptor goes, told by the states and the file descriptors of the connections.
use tud_crash_tolerant_proxy.Prelude.{
  ℕ, suc, ◌≡◌, ◌≢◌, refl, ◌∙◌, true, false, ◌&&◌, Option, none, some, List, [], ◌∷◌, map, ◌==◌,
  arith, Bool-cases, ◌⊎◌, inl, inr,
}
use tud_crash_tolerant_proxy.Atomic.{Errno}
use tud_crash_tolerant_proxy.Shared.{Connection, conn_accepting, conn_connecting}
use tud_crash_tolerant_proxy.Util.Closep.{closep}
use tud_crash_tolerant_proxy.Listener.Match.{
  wants, is_closed, Recovered, put_recovered, missing, fill, missing-some, missing-none, fill-some,
  fill-none, to_downstream, to_upstream, put_recovered_lem,
}

-- Neither accept(2) nor connect(2) has lost a file descriptor of this connection.
pub record Complete (c : Connection) : Type 0 where
  pub has_down : c.state ≡ conn_accepting → c.downstream.fd0 ≢ none
  pub has_up : c.state ≡ conn_connecting → c.upstream.fd0 ≢ none

-- What the file descriptor makes of a connection that misses one.
pub data Refilled (fd : ℕ) (c : Connection) : Connection → Type 0 where
  accepted :
      c.state ≡ conn_accepting
      → c.downstream.fd0 ≡ none
      → Refilled fd c (record c { downstream = record c.downstream { fd0 = some fd } })
  connected :
      c.state ≡ conn_connecting
      → c.upstream.fd0 ≡ none
      → Refilled fd c (record c { upstream = record c.upstream { fd0 = some fd } })

-- So many connections miss one, and with it they are these.
pub data AllRefilled (fd : ℕ) : ℕ → List Connection → List Connection → Type 0 where
  no_more : AllRefilled fd 0 [] []
  refilled :
      {n : ℕ} {c d : Connection} {cs ds : List Connection}
      → Refilled fd c d
      → AllRefilled fd n cs ds
      → AllRefilled fd (suc n) (c ∷ cs) (d ∷ ds)
  stays :
      {n : ℕ} {c : Connection} {cs ds : List Connection}
      → Complete c
      → AllRefilled fd n cs ds
      → AllRefilled fd n (c ∷ cs) (c ∷ ds)

-- One connection, by what the loop finds.
data Judged (fd : ℕ) (c : Connection) : Type 0 where
  lacks :
      (d : Connection)
      → Refilled fd c d
      → fill fd c ≡ d
      → ((cs : List Connection) → missing (c ∷ cs) ≡ suc (missing cs))
      → Judged fd c
  whole :
      Complete c
      → fill fd c ≡ c
      → ((cs : List Connection) → missing (c ∷ cs) ≡ missing cs)
      → Judged fd c

closed-none : (o : Option ℕ) → is_closed o ≡ true → o ≡ none
unfolding is_closed
closed-none none h = refl
closed-none (some fd) h = absurd (ground (arith, h))

closed-some : (o : Option ℕ) → is_closed o ≡ false → o ≢ none
unfolding is_closed
closed-some none h = absurd (ground (arith, h))
closed-some (some fd) h = λ e. ground (arith, e)

judge : (fd : ℕ) (c : Connection) → Judged fd c
unfolding wants
judge fd c = elim (Bool-cases ((c.state == conn_accepting) && is_closed c.downstream.fd0)) [
  | inl a ↦
      let w : wants c ≡ some to_downstream = rw a refl in
      lacks _ (accepted (ground (arith, a)) (closed-none _ (ground (arith, a))))
        (fill-some fd c _ w) (λ cs. missing-some c cs _ w)
  | inr not_a ↦ elim (Bool-cases ((c.state == conn_connecting) && is_closed c.upstream.fd0)) [
    | inl b ↦
        let w : wants c ≡ some to_upstream = rw not_a (rw b refl) in
        lacks _ (connected (ground (arith, b)) (closed-none _ (ground (arith, b))))
          (fill-some fd c _ w) (λ cs. missing-some c cs _ w)
    | inr not_b ↦
        let w : wants c ≡ none = rw not_a (rw not_b refl) in
        whole
          (record {
            has_down = λ e. closed-some _ (ground (arith, not_a, e));
            has_up = λ e. closed-some _ (ground (arith, not_b, e));
          })
          (fill-none fd c w) (λ cs. missing-none c cs w)
  ]
]

fill-AllRefilled :
    (fd : ℕ) (cs : List Connection) → AllRefilled fd (missing cs) cs (map (fill fd) cs)
unfolding missing
fill-AllRefilled fd [] = no_more
fill-AllRefilled fd (c ∷ cs) = elim (judge fd c) [
  | lacks d r e m ↦ rw (m cs) (rw e (refilled r (fill-AllRefilled fd cs)))
  | whole h e m ↦ rw (m cs) (rw e (stays h (fill-AllRefilled fd cs)))
]

-- What becomes of the recovered file descriptor.
pub record Puts (close : Option Errno) (fd : ℕ) (cs : List Connection) (r : Recovered)
    : Type 0 where
  pub count : ℕ
  pub with_it : List Connection
  pub counted : AllRefilled fd count cs with_it
  pub result :
      (count ≡ 1) × (r ≡ record { connections = with_it; unclaimed = none })
      ⊎ (count ≢ 1) × (r ≡ record { connections = cs; unclaimed = closep close (some fd) })

-- Of the connections in CONN_ACCEPTING without a downstream file descriptor and those in
-- CONN_CONNECTING without an upstream one: if there is just one, it gets the recovered file descriptor
-- there, and no other connection changes; otherwise no connection changes, and `closep` has the file
-- descriptor.
pub put_recovered-Puts :
    (close : Option Errno) (fd : ℕ) (cs : List Connection)
    → Puts close fd cs (put_recovered close fd cs)
put_recovered-Puts close fd cs = record {
  count = missing cs;
  with_it = map (fill fd) cs;
  counted = fill-AllRefilled fd cs;
  result = elim (Bool-cases (missing cs == 1)) [
    | inl one ↦ inl (ground (arith, one), put_recovered_lem close fd cs ∙ rw one refl)
    | inr other ↦
        inr ((λ e. ground (arith, other, e)), put_recovered_lem close fd cs ∙ rw other refl)
  ];
}
