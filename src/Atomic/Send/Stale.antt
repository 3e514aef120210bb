-- ===== src/Atomic/Send/Stale.antt =====
-- A process that dies in `atomic_send` between the switch of the ranges and the store of
-- `ATOMIC_INIT` leaves `ATOMIC_SWAP` behind. If all was sent, the next call returns before it looks
-- at the state, and what is put into the buffer afterwards is trimmed as if it had been sent.
use tud_crash_tolerant_proxy.Prelude.{
  ℕ, ◌≤◌, ◌<◌, ◌≡◌, refl, subst, ap, sym, ◌∙◌, Bool, true, false, not, [], ◌==◌, bit_set, arith,
}
use tud_crash_tolerant_proxy.Ring.{RingBufferRange, ring_buffer_ltrim}
use tud_crash_tolerant_proxy.Atomic.{
  AtomicRingBuffer, swap, phase, active_range, range_at, set_range, store_copy, store_trim,
  returned,
}
use tud_crash_tolerant_proxy.Atomic.Laws.{range_at-set_range_self}
use tud_crash_tolerant_proxy.Atomic.Send.{Sendmmsg, atomic_send, send_phase, send_swap}

-- What `handle_connection` does to a send buffer: `transform` fills the inactive range, and
-- `swap_buffers` makes it the active one.
unfoldable pub refill : AtomicRingBuffer → RingBufferRange → AtomicRingBuffer
refill b r = record (set_range b (not b.active) r) { active = not b.active }

phase_bit : (s : ℕ) (a : Bool) → phase s ≡ swap a → bit_set s 7 ≡ a
unfolding phase
phase_bit s a h = ground arith

-- Completing a swap for range `a` leaves the other range active: range `a`, trimmed.
send_swap_active :
    (s : ℕ) (b : AtomicRingBuffer)
    → active_range (send_swap s b) ≡ ring_buffer_ltrim (range_at b (bit_set s 7)) b.msg_len
unfolding send_swap store_copy store_trim
send_swap_active s b = ground arith

ltrim_all : (r : RingBufferRange) (n : ℕ) → r.len ≤ n → (ring_buffer_ltrim r n).len ≡ 0
unfolding ring_buffer_ltrim
ltrim_all r n h = ground arith

atomic_send_drained :
    (rc : Sendmmsg) (b : AtomicRingBuffer) → (active_range b).len ≡ 0 → (atomic_send rc b).mem ≡ b
unfolding atomic_send
atomic_send_drained rc b h =
    let empty : ((active_range b).len == 0) ≡ true = ground arith in rw empty refl

atomic_send_swap :
    (rc : Sendmmsg) (b : AtomicRingBuffer) (a : Bool)
    → 0 < (active_range b).len
    → phase b.state ≡ swap a
    → atomic_send rc b ≡ send_phase (swap a) rc b
unfolding atomic_send
atomic_send_swap rc b a h p =
    let more : ((active_range b).len == 0) ≡ false = ground arith in
    rw more (ap (λ q. send_phase q rc b) p)

active_range-refill : (b : AtomicRingBuffer) (r : RingBufferRange) → active_range (refill b r) ≡ r
unfolding refill
active_range-refill b r = range_at-set_range_self b (not b.active) r

-- A call on a refilled buffer whose last swap was not closed by `ATOMIC_INIT`.
refill_dropped :
    (rc : Sendmmsg) (b : AtomicRingBuffer) (r : RingBufferRange)
    → phase b.state ≡ swap (not b.active)
    → 0 < r.len
    → r.len ≤ b.msg_len
    → let s = atomic_send rc (refill b r) in
      (s.bytes ≡ []) × ((active_range s.mem).len ≡ 0) × (s.result ≡ returned b.msg_len)
unfolding send_phase refill
refill_dropped rc b r p h fits =
    rw whole (refl, ap (λ x. x.len) (send_swap_active b.state (refill b r)) ∙ trimmed, refl)
  where
    whole : atomic_send rc (refill b r) ≡ send_phase (swap (not b.active)) rc (refill b r)
    whole =
        atomic_send_swap rc (refill b r) (not b.active)
          (subst (λ x. 0 < x.len) (sym (active_range-refill b r)) h) p

    chosen : range_at (refill b r) (bit_set b.state 7) ≡ r
    chosen =
        ap (range_at (refill b r)) (phase_bit b.state (not b.active) p) ∙ active_range-refill b r

    trimmed : (ring_buffer_ltrim (range_at (refill b r) (bit_set b.state 7)) b.msg_len).len ≡ 0
    trimmed = ltrim_all _ b.msg_len (subst (λ x. x.len ≤ b.msg_len) (sym chosen) fits)

-- A drained buffer whose last swap was not closed by `ATOMIC_INIT`: the next call leaves it so, and
-- once it is refilled with no more bytes than were sent before, the call after that reports those
-- bytes as sent, hands none to the kernel, and empties the buffer.
pub stale_swap_loses_refill :
    (rc rc' : Sendmmsg) (b : AtomicRingBuffer) (r : RingBufferRange)
    → phase b.state ≡ swap (not b.active)
    → (active_range b).len ≡ 0
    → 0 < r.len
    → r.len ≤ b.msg_len
    → let s = atomic_send rc' (refill (atomic_send rc b).mem r) in
      (s.bytes ≡ []) × ((active_range s.mem).len ≡ 0) × (s.result ≡ returned b.msg_len)
stale_swap_loses_refill rc rc' b r p drained h fits =
    rw (atomic_send_drained rc b drained) (refill_dropped rc' b r p h fits)
