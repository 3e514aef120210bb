-- ===== src/Worker/Io/Tests.antt =====
-- Runs of the two loops.
use tud_crash_tolerant_proxy.Prelude.{
  false, List, [], ◌∷◌, get_or, arith, dec_lt, dec_le, ℕ_discrete,
}
use tud_crash_tolerant_proxy.Ring.{
  RingBufferRange, iovec_around, set_iovec_used, ring_buffer_ltrim, rewind_empty, Buffer, memcpy,
}
use tud_crash_tolerant_proxy.Ring.Offsets.{Wrote}
use tud_crash_tolerant_proxy.Atomic.{
  AtomicRingBuffer, eintr, eagain, returned, phase, store_rewind, store_trim, store_copy,
}
use tud_crash_tolerant_proxy.Atomic.Send as Sending
use tud_crash_tolerant_proxy.Atomic.Recv as Receiving
use tud_crash_tolerant_proxy.Atomic.Send.Call.{IsIdle}
use tud_crash_tolerant_proxy.Atomic.Recv.Idle as Idle
use tud_crash_tolerant_proxy.Atomic.Recv.Held.{Room}
use tud_crash_tolerant_proxy.Worker.Io.{send_loop, recv_loop}
use tud_crash_tolerant_proxy.Worker.Io.Send.{
  AllAllowed, IsBrisk, Flushed, Settled, send_loop-Flushed, send_loop-Settled,
}
use tud_crash_tolerant_proxy.Worker.Io.Recv as Rx
use tud_crash_tolerant_proxy.Worker.Io.Recv.{Filled, recv_loop-Filled}

abbrev nothing : RingBufferRange
nothing = record { start = 0; len = 0; shutdown = false }

abbrev letters : Buffer
letters i = i

-- two bytes to send
abbrev two_left : AtomicRingBuffer
two_left = record {
  state = 0;
  msg_len = 0;
  active = false;
  range0 = record { start = 0; len = 2; shutdown = false };
  range1 = nothing;
  buf = letters;
}

-- One byte was sent when the process died, before the swap.
abbrev died : AtomicRingBuffer
died = record two_left { state = 127; msg_len = 1 }

abbrev answers : List Sending.Sendmmsg
answers = Sending.sent 1 ∷ Sending.sent 1 ∷ Sending.failed eagain ∷ []

answers-AllAllowed : AllAllowed answers two_left
unfolding AllAllowed Sending.Allowed Sending.atomic_send Sending.send_phase Sending.send_syscall
    Sending.send_syscall_result Sending.send_encode Sending.send_swap phase store_trim store_copy
    set_iovec_used ring_buffer_ltrim dec_lt dec_le ℕ_discrete
answers-AllAllowed = (omega arith, (omega arith, (tt, tt)))

send_loop-Settled_example : Settled (send_loop (returned 0) answers two_left)
unfolding IsBrisk IsIdle phase ℕ_discrete
send_loop-Settled_example =
    send_loop-Settled 0 answers two_left (omega arith, omega arith) tt answers-AllAllowed
      (omega arith, (omega arith, ((λ e. ground (arith, e)), tt))) (omega arith)

send_loop-Flushed_example : Flushed died (send_loop (returned 0) (Sending.failed eagain ∷ []) died)
unfolding AllAllowed Sending.Allowed
send_loop-Flushed_example =
    send_loop-Flushed (returned 0) (Sending.failed eagain ∷ []) died (omega arith, omega arith)
      (tt, tt)

-- one byte of room
abbrev nearly_full : AtomicRingBuffer
nearly_full = record two_left { range0 = record { start = 0; len = 131071; shutdown = false } }

abbrev with_seven : Buffer
with_seven = memcpy letters 131071 (λ k. get_or (7 ∷ []) k 0) 1

seven-Wrote :
    Wrote letters (iovec_around nearly_full.range0) (λ k. get_or (7 ∷ []) k 0) 1 with_seven
unfolding iovec_around dec_le ℕ_discrete
seven-Wrote = record { written = λ k h. ground arith; kept = λ i h. ground (arith, h 0) }

abbrev calls : List Receiving.Recvmmsg
calls = Receiving.failed eintr ∷ Receiving.got (7 ∷ []) with_seven ∷ []

calls-AllAllowed : Rx.AllAllowed calls nearly_full
unfolding Rx.AllAllowed Receiving.Allowed Receiving.atomic_recv Receiving.recv_phase
    Receiving.recv_init Receiving.recv_syscall Receiving.recv_syscall_result phase store_rewind
    rewind_empty dec_lt dec_le ℕ_discrete
calls-AllAllowed = (tt, ((omega arith, seven-Wrote), tt))

recv_loop-Filled_example : Filled nearly_full (recv_loop calls nearly_full)
unfolding phase Room ℕ_discrete
recv_loop-Filled_example =
    recv_loop-Filled calls nearly_full (omega arith, omega arith) tt calls-AllAllowed
