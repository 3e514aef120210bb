-- ===== src/Atomic/Tests.antt =====
-- `atomic_send` and `atomic_recv` on small buffers, with crashes.
use tud_crash_tolerant_proxy.Prelude.{
  ℕ, ◌+◌, ◌≡◌, refl, true, false, List, [], ◌∷◌, ◌++◌, arith, get_or, dec_le, ℕ_discrete,
}
use tud_crash_tolerant_proxy.Ring.{
  RingBufferRange, Buffer, memcpy, rewind_empty, set_iovec_used, iovec_around,
}
use tud_crash_tolerant_proxy.Ring.Offsets.{Wrote}
use tud_crash_tolerant_proxy.Atomic.{
  AtomicRingBuffer, active_range, other, returned, phase, store_rewind,
}
use tud_crash_tolerant_proxy.Atomic.Send
use tud_crash_tolerant_proxy.Atomic.Send.{sent, atomic_send, send_step, send_steps}
use tud_crash_tolerant_proxy.Atomic.Send.Crash.{owed, send_exactly_once}
use tud_crash_tolerant_proxy.Atomic.Send.Stale.{refill, stale_swap_loses_refill}
use tud_crash_tolerant_proxy.Atomic.Recv
use tud_crash_tolerant_proxy.Atomic.Recv.{got, recv_step}
use tud_crash_tolerant_proxy.Atomic.Recv.Held.{held, Room}
use tud_crash_tolerant_proxy.Atomic.Recv.Crash.{recv_exactly_once}

abbrev letters : Buffer
letters i = i + 65

abbrev no_bytes : RingBufferRange
no_bytes = record { start = 0; len = 0; shutdown = false }

abbrev four : RingBufferRange
four = record { start = 131070; len = 4; shutdown = false }

-- four bytes to send
abbrev full : AtomicRingBuffer
full = record {
  state = 0;
  msg_len = 0;
  active = false;
  range0 = four;
  range1 = no_bytes;
  buf = letters;
}

-- The four bytes were sent, but the swap was not closed.
abbrev stale : AtomicRingBuffer
stale = record full { state = 127; msg_len = 4; active = true }

abbrev sending : Send.Machine
sending = record { pc = Send.entry; mem = full; wire = [] }

-- The kernel has taken three bytes when the process dies.
abbrev send_crashed : Send.Machine
send_crashed = record {
  pc = Send.entry;
  mem = record full { state = 1; msg_len = 3 };
  wire = 131135 ∷ 131136 ∷ 65 ∷ [];
}

send_run : Send.Reach sending send_crashed
unfolding Send.send_step Send.Allowed phase set_iovec_used dec_le ℕ_discrete
send_run =
    Send.later
      (Send.later
        (Send.later
          (Send.later (Send.later Send.here (Send.runs (sent 3) (omega arith)))
            (Send.runs (sent 3) (omega arith)))
          (Send.runs (sent 3) (omega arith)))
        (Send.runs (sent 3) (omega arith)))
      Send.crash

send_exactly_once_example :
    send_crashed.wire ++ owed send_crashed.mem ≡ sending.wire ++ owed sending.mem
send_exactly_once_example = send_exactly_once refl (omega arith, omega arith) send_run

abbrev three : RingBufferRange
three = record { start = 0; len = 3; shutdown = false }

stale_swap_loses_refill_example :
    let s = atomic_send (sent 3) (refill (atomic_send (sent 0) stale).mem three) in
    (s.bytes ≡ []) × ((active_range s.mem).len ≡ 0) × (s.result ≡ returned 4)
unfolding phase ℕ_discrete
stale_swap_loses_refill_example =
    stale_swap_loses_refill (sent 0) (sent 3) stale three refl refl (omega arith) (omega arith)

-- an empty buffer that is about to receive
abbrev fresh : AtomicRingBuffer
fresh = record full { range0 = no_bytes }

abbrev receiving : Recv.Machine
receiving = record { pc = Recv.entry; mem = fresh; wire = [] }

abbrev two : List ℕ
two = 7 ∷ 8 ∷ []

abbrev filled : Buffer
filled = memcpy letters 0 (λ k. get_or two k 0) 2

-- The two bytes are in the buffer when the process dies.
abbrev recv_crashed : Recv.Machine
recv_crashed = record {
  pc = Recv.entry;
  mem = record fresh { state = 1; msg_len = 2; buf = filled };
  wire = two;
}

two-Wrote : Wrote letters (iovec_around no_bytes) (λ k. get_or two k 0) 2 filled
unfolding iovec_around ℕ_discrete
two-Wrote = record { written = λ k h. ground arith; kept = λ i h. ground (arith, h 0, h 1) }

recv_run : Recv.Reach receiving recv_crashed
unfolding Recv.recv_step Recv.Allowed phase store_rewind rewind_empty dec_le ℕ_discrete
recv_run =
    Recv.later
      (Recv.later
        (Recv.later
          (Recv.later
            (Recv.later (Recv.later Recv.here (Recv.runs (Recv.failed other) (λ e. tt)))
              (Recv.runs (Recv.failed other) (λ e. tt)))
            (Recv.runs (Recv.failed other) (λ e. tt)))
          (Recv.runs (Recv.failed other) (λ e. tt)))
        (Recv.runs (got two filled) (λ e. (omega arith, two-Wrote))))
      Recv.crash

recv_exactly_once_example : held recv_crashed.mem ≡ held receiving.mem ++ recv_crashed.wire
unfolding phase Room ℕ_discrete
recv_exactly_once_example = recv_exactly_once refl refl (omega arith, omega arith) tt recv_run
