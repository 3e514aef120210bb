-- ===== src/Listener/Adopt/Laws.antt =====
-- `adopt_one_connection` hands over the first orphan that has its turn.
use tud_crash_tolerant_proxy.Prelude.{
  ℕ, ◌+◌, ◌-◌, ◌^◌, ◌≤◌, ◌<◌, ◌≡◌, refl, ap, sym, subst, ◌∙◌, ◌⊎◌, Bool, true, false, Option, none,
  some, List, [], ◌∷◌, ◌++◌, length, ltb, ◌==◌, add_size, arith, Bool-cases, inl, inr,
}
use tud_crash_tolerant_proxy.Shared.{Connection}
use tud_crash_tolerant_proxy.Listener.Adopt.{
  Walk, Adopted, is_orphan, hand_over, message_for, lacks_upstream, adopt_loop, send_message,
  finish_adopting, adopt_one_connection,
}
use tud_crash_tolerant_proxy.Listener.Adopt.Given.{Outcome, hand_over-Outcome}

-- Every orphan among these, which begin at the slot `i`, stands in front of the slot `next`.
unfoldable pub Passed : ℕ → ℕ → List Connection → Type 0
Passed next i [] = Unit {0}
Passed next i (c ∷ cs) = ((is_orphan c ≡ true) → i < next) × Passed next (i + 1) cs

-- No connection is an orphan.
unfoldable pub NoOrphan : List Connection → Type 0
NoOrphan [] = Unit {0}
NoOrphan (c ∷ cs) = (is_orphan c ≡ false) × NoOrphan cs

-- What the loop leaves where it hands over the connection at the slot `n`.
abbrev pub handed : List Connection → Connection → List Connection → ℕ → Walk
handed front c back n = record {
  connections = front ++ (hand_over c ∷ back);
  slot = n;
  message = message_for n c;
  aborts = lacks_upstream c;
}

abbrev before : Connection → Walk → Walk
before c w = record w { connections = c ∷ w.connections }

-- The loop has come to a connection, or to the end.
pub record FoundAt (next i : ℕ) (cs : List Connection) (w : Walk) : Type 0 where
  pub front : List Connection
  pub orphan : Connection
  pub back : List Connection
  pub splits : cs ≡ front ++ (orphan ∷ back)
  pub passed : Passed next i front
  pub is_one : is_orphan orphan ≡ true
  pub due : next ≤ i + length front
  pub walk : w ≡ handed front orphan back (i + length front)

pub record FoundNone (next slot i : ℕ) (cs : List Connection) (w : Walk) : Type 0 where
  pub passed : Passed next i cs
  pub stopped : ℕ
  pub walk : w ≡ record { connections = cs; slot = stopped; message = none; aborts = false }
  pub where_to : (NoOrphan cs × (stopped ≡ slot)) ⊎ (stopped < next)

further :
    (next i : ℕ) (c : Connection) (cs : List Connection) (w : Walk)
    → (is_orphan c ≡ true → i < next)
    → FoundAt next (i + 1) cs w
    → FoundAt next i (c ∷ cs) (record w { connections = c ∷ w.connections })
unfolding Passed
further next i c cs w h f = record {
  front = c ∷ f.front;
  orphan = f.orphan;
  back = f.back;
  splits = ap (λ l. c ∷ l) f.splits;
  passed = (h, f.passed);
  is_one = f.is_one;
  due = omega (arith, f.due);
  walk = ap (before c) f.walk ∙ ap (handed (c ∷ f.front) f.orphan f.back) (omega arith);
}

loop-found :
    (next slot i : ℕ) (cs : List Connection)
    → FoundAt next i cs (adopt_loop next slot i cs)
      ⊎ FoundNone next slot i cs (adopt_loop next slot i cs)
unfolding adopt_loop Passed NoOrphan
loop-found next slot i [] =
    inr (record { passed = tt; stopped = slot; walk = refl; where_to = inl (tt, refl) })
loop-found next slot i (c ∷ cs) = elim (Bool-cases (is_orphan c)) [
  | inr other ↦ rw other (elim (loop-found next slot (i + 1) cs) [
    | inl f ↦ inl (further next i c cs _ (λ k. ground (arith, k, other)) f)
    | inr n ↦ inr (record {
      passed = ((λ k. ground (arith, k, other)), n.passed);
      stopped = n.stopped;
      walk = ap (before c) n.walk;
      where_to = elim n.where_to [ inl (a, b) ↦ inl ((other, a), b) | inr l ↦ inr l ];
    })
  ])
  | inl one ↦ rw one (elim (Bool-cases (ltb i next)) [
    | inl early ↦ rw early (elim (loop-found next i (i + 1) cs) [
      | inl f ↦ inl (further next i c cs _ (λ k. ground (arith, early)) f)
      | inr n ↦ inr (record {
        passed = ((λ k. ground (arith, early)), n.passed);
        stopped = n.stopped;
        walk = ap (before c) n.walk;
        where_to = inr (elim n.where_to [ inl (a, b) ↦ ground (arith, early, b) | inr l ↦ l ]);
      })
    ])
    | inr turn ↦ rw turn (
        inl (record {
          front = [];
          orphan = c;
          back = cs;
          splits = refl;
          passed = tt;
          is_one = one;
          due = ground (arith, turn);
          walk = ap (handed [] c cs) (omega arith);
        }))
  ])
]

-- What the whole call comes to.
pub data Adopts (send_ok : Bool) (next : ℕ) (cs : List Connection) (r : Option Adopted)
    : Type 0 where
  -- an orphan has its turn: the first one from the slot `next` on
  hands_over :
      (front : List Connection) (c : Connection) (back : List Connection)
      → cs ≡ front ++ (c ∷ back)
      → Passed next 0 front
      → is_orphan c ≡ true
      → next ≤ length front
      → Outcome send_ok next (length front) c (λ d. front ++ (d ∷ back)) r
      → Adopts send_ok next cs r
  -- there are no orphans: the function is told not to look again
  all_served :
      NoOrphan cs
      → r ≡ some (record { connections = cs; next_adopted = 2 ^ 64 - 1; sent = none; ok = true })
      → Adopts send_ok next cs r
  -- every orphan had its turn, and none has been taken up: it will look again
  all_passed :
      (next' : ℕ)
      → Passed next 0 cs
      → next' ≤ next
      → r ≡ some (record { connections = cs; next_adopted = next'; sent = none; ok = true })
      → Adopts send_ok next cs r

-- While the search is not over (`next` is not SIZE_MAX): the first orphaned connection from the slot
-- `next` on, if there is one, has the worker's file descriptors forgotten, and no other connection
-- changes. In CONN_CONNECTING it also gets empty buffers and CONN_POLL; in CONN_CONNECTING, CONN_POLL
-- and CONN_SWAP_BUFFERS an assertion fails if it has no upstream file descriptor, and else its message
-- is "orphan_down"; in CONN_ACCEPTING it is "accepted"; in any other state there is none. The message
-- has the slot and the downstream file descriptor; where it cannot be sent, the call fails and the
-- search stays at `next`, and otherwise it goes on behind the slot. If every orphan is in front of
-- `next`, nothing changes or is sent, and the search stays at `next` or goes back; only if there is no
-- orphan at all is the search over.
pub adopt_one_connection-Adopts :
    (send_ok : Bool) (next : ℕ) (cs : List Connection)
    → next < 2 ^ 64 - 1
    → Adopts send_ok next cs (adopt_one_connection send_ok next cs)
unfolding adopt_one_connection finish_adopting send_message
adopt_one_connection-Adopts send_ok next cs h =
    let on : (next == 2 ^ 64 - 1) ≡ false = ground (arith, h) in
    rw on (elim (loop-found next (2 ^ 64 - 2) 0 cs) [
      | inl f ↦
          hands_over f.front f.orphan f.back f.splits f.passed f.is_one (omega (arith, f.due)) (
            subst
              (λ w.
                Outcome send_ok next (length f.front) f.orphan (λ d. f.front ++ (d ∷ f.back))
                  (finish_adopting send_ok next w))
              (sym (f.walk ∙ ap (handed f.front f.orphan f.back) (omega arith)))
              (hand_over-Outcome send_ok next (length f.front) f.orphan
                (λ d. f.front ++ (d ∷ f.back))))
      | inr n ↦ elim n.where_to [
        | inl (none_there, e) ↦ all_served none_there (
            ap (finish_adopting send_ok next) n.walk
            ∙ ap (λ k. some (at cs k)) (ap (λ k. add_size k 1) e ∙ omega arith))
        | inr back ↦ all_passed (n.stopped + 1) n.passed (omega (arith, back)) (
            ap (finish_adopting send_ok next) n.walk
            ∙ ap (λ k. some (at cs k)) (omega (arith, back, h)))
      ]
    ])
  where
    at : List Connection → ℕ → Adopted
    at cs k = record { connections = cs; next_adopted = k; sent = none; ok = true }
