-- ===== src/Listener/Adopt/Given.antt =====
-- What `adopt_one_connection` makes of the connection that it hands over, state by state.
use tud_crash_tolerant_proxy.Prelude.{
  ℕ, ◌≡◌, ◌≢◌, refl, ap, sym, subst, ◌⊎◌, Bool, true, false, Option, none, some, List, ◌==◌, arith,
  Bool-cases, inl, inr, add_size,
}
use tud_crash_tolerant_proxy.Shared.{
  Endpoint, Connection, conn_accepting, conn_connecting, conn_poll, conn_swap_buffers, state_bits,
  zero_buffer,
}
use tud_crash_tolerant_proxy.Listener.Match.{is_closed}
use tud_crash_tolerant_proxy.Listener.Adopt.{
  Message, orphan_down, accepted, Adopted, hand_over, message_for, lacks_upstream, is_connected,
  finish_adopting, send_message,
}

-- The worker's file descriptors are forgotten.
abbrev pub released : Connection → Connection
released c = record c {
  downstream = record c.downstream { fd1 = none };
  upstream = record c.upstream { fd1 = none };
}

-- An endpoint that nothing has been received on or sent to.
abbrev pub emptied : Endpoint → Endpoint
emptied e = record e { fd1 = none; rx = zero_buffer; tx = zero_buffer }

-- The connection at a slot, what it becomes, and the message that is to be sent: the action and the
-- file descriptor.
pub data Given (slot : ℕ) (c : Connection) : Connection → Option Message → Type 0 where
  starts :
      state_bits c.state ≡ conn_connecting
      → c.upstream.fd0 ≢ none
      → Given slot c
          (record c {
            state = conn_poll;
            downstream = emptied c.downstream;
            upstream = emptied c.upstream;
          })
          (some (record { action = orphan_down; slot = slot; fd = c.downstream.fd0 }))
  goes_on :
      (state_bits c.state ≡ conn_poll) ⊎ (state_bits c.state ≡ conn_swap_buffers)
      → c.upstream.fd0 ≢ none
      → Given slot c
          (released c)
          (some (record { action = orphan_down; slot = slot; fd = c.downstream.fd0 }))
  connects_again :
      state_bits c.state ≡ conn_accepting
      → Given slot c
          (released c)
          (some (record { action = accepted; slot = slot; fd = c.downstream.fd0 }))
  stuck :
      state_bits c.state ≢ conn_accepting
      → state_bits c.state ≢ conn_connecting
      → state_bits c.state ≢ conn_poll
      → state_bits c.state ≢ conn_swap_buffers
      → Given slot c (released c) none

-- What comes of it, where the connections then are `cs` with this one: the message is sent and the
-- search goes on behind the slot; or the message cannot be sent, and the search stays; or there is no
-- message for the state; or the assertion on the upstream file descriptor fails.
pub data Outcome (send_ok : Bool) (next slot : ℕ) (c : Connection)
    (with_it : Connection → List Connection) (r : Option Adopted) : Type 0 where
  delivered :
      (d : Connection) (m : Message)
      → send_ok ≡ true
      → Given slot c d (some m)
      → r
        ≡ some (record {
          connections = with_it d;
          next_adopted = add_size slot 1;
          sent = some m;
          ok = true;
        })
      → Outcome send_ok next slot c with_it r
  refused :
      (d : Connection) (m : Message)
      → send_ok ≡ false
      → Given slot c d (some m)
      → r ≡ some (record { connections = with_it d; next_adopted = next; sent = none; ok = false })
      → Outcome send_ok next slot c with_it r
  left_alone :
      (d : Connection)
      → Given slot c d none
      → r
        ≡ some (record {
          connections = with_it d;
          next_adopted = add_size slot 1;
          sent = none;
          ok = true;
        })
      → Outcome send_ok next slot c with_it r
  no_upstream :
      (state_bits c.state ≡ conn_connecting)
        ⊎ (state_bits c.state ≡ conn_poll)
        ⊎ (state_bits c.state ≡ conn_swap_buffers)
      → c.upstream.fd0 ≡ none
      → r ≡ none
      → Outcome send_ok next slot c with_it r

-- the message for a connected one
abbrev asks_down : ℕ → Connection → Message
asks_down slot c = record { action = orphan_down; slot = slot; fd = c.downstream.fd0 }

module _ (send_ok : Bool) (next slot : ℕ) (c : Connection)
    (with_it : Connection → List Connection) where
  abbrev finished : Bool → Connection → Option Message → Option Adopted
  finished aborts d m =
      finish_adopting send_ok next
        (record { connections = with_it d; slot = slot; message = m; aborts = aborts })

  sends_it :
      (d : Connection) (m : Message)
      → Given slot c d (some m)
      → Outcome send_ok next slot c with_it (finished false d (some m))
  unfolding finish_adopting send_message
  sends_it d m g = elim (Bool-cases send_ok) [
    | inl yes_sent ↦ delivered d m yes_sent g (rw yes_sent refl)
    | inr not_sent ↦ refused d m not_sent g (rw not_sent refl)
  ]

  -- A connected one, by its upstream file descriptor.
  connected_Outcome :
      (o : Option ℕ) (d : Connection)
      → c.upstream.fd0 ≡ o
      → (state_bits c.state ≡ conn_connecting)
        ⊎ (state_bits c.state ≡ conn_poll)
        ⊎ (state_bits c.state ≡ conn_swap_buffers)
      → (c.upstream.fd0 ≢ none → Given slot c d (some (asks_down slot c)))
      → Outcome send_ok next slot c with_it
          (finished (is_closed c.upstream.fd0) d (some (asks_down slot c)))
  unfolding finish_adopting is_closed
  connected_Outcome none d e h g =
      subst (λ b. Outcome send_ok next slot c with_it (finished b d (some (asks_down slot c))))
        (sym (ap is_closed e)) (no_upstream h e refl)
  connected_Outcome (some fd) d e h g =
      subst (λ b. Outcome send_ok next slot c with_it (finished b d (some (asks_down slot c))))
        (sym (ap is_closed e)) (sends_it d _ (g (λ k. ground (arith, e, k))))

  pub hand_over-Outcome :
      Outcome send_ok next slot c with_it
        (finished (lacks_upstream c) (hand_over c) (message_for slot c))
  unfolding hand_over message_for lacks_upstream is_connected finish_adopting send_message
  hand_over-Outcome = elim (Bool-cases (state_bits c.state == conn_connecting)) [
    | inl a ↦ rw a (
        connected_Outcome c.upstream.fd0 _ refl (inl (ground (arith, a)))
          (starts (ground (arith, a))))
    | inr a ↦ rw a (elim (Bool-cases (state_bits c.state == conn_poll)) [
      | inl b ↦ rw b (
          connected_Outcome c.upstream.fd0 _ refl (inr (inl (ground (arith, b))))
            (goes_on (inl (ground (arith, b)))))
      | inr b ↦ rw b (elim (Bool-cases (state_bits c.state == conn_swap_buffers)) [
        | inl s ↦ rw s (
            connected_Outcome c.upstream.fd0 _ refl (inr (inr (ground (arith, s))))
              (goes_on (inr (ground (arith, s)))))
        | inr s ↦ rw s (elim (Bool-cases (state_bits c.state == conn_accepting)) [
          | inl t ↦ rw t (sends_it _ _ (connects_again (ground (arith, t))))
          | inr t ↦ rw t (
              left_alone _
                (stuck (λ e. ground (arith, t, e)) (λ e. ground (arith, a, e))
                  (λ e. ground (arith, b, e)) (λ e. ground (arith, s, e)))
                refl)
        ])
      ])
    ])
  ]
