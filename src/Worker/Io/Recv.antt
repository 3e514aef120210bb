-- ===== src/Worker/Io/Recv.antt =====
-- The receive loop takes bytes in behind those that are held, and where no call was interrupted it
-- ends: at an error, at the end of the stream, or with a full buffer.
use tud_crash_tolerant_proxy.Prelude.{
  ℕ, ◌+◌, ◌-◌, ◌<◌, ◌≡◌, ap, sym, ◌∙◌, false, ◌&&◌, List, [], ◌∷◌, ◌++◌, ltb, append_assoc,
  append-nil, Bool-cases, inl, inr, suc,
}
use tud_crash_tolerant_proxy.Ring.{ring_buffer_size}
use tud_crash_tolerant_proxy.Atomic.{
  AtomicRingBuffer, phase, eintr, Result, active_range, store_rewind,
}
use tud_crash_tolerant_proxy.Atomic.Laws.{IsSound}
use tud_crash_tolerant_proxy.Atomic.Recv.{Recvmmsg, failed, Received, atomic_recv, Allowed}
use tud_crash_tolerant_proxy.Atomic.Recv.Held.{held, Room}
use tud_crash_tolerant_proxy.Atomic.Recv.Idle.{IsIdle}
use tud_crash_tolerant_proxy.Atomic.Recv.Call.{atomic_recv-Receives}
use tud_crash_tolerant_proxy.Worker.Io.{left, Looped, recv_loop, goes_on}

-- Each call of the kernel keeps to the iovecs that it is given.
unfoldable pub AllAllowed : List Recvmmsg → AtomicRingBuffer → Type 0
AllAllowed [] b = Unit {0}
AllAllowed (k ∷ ks) b = Allowed k (store_rewind b) × AllAllowed ks (atomic_recv k b).mem

pub record Filled (b : AtomicRingBuffer) (l : Looped) : Type 0 where
  pub sound : IsSound l.mem
  pub room : Room (phase l.mem.state) l.mem
  pub conserved : held l.mem ≡ held b ++ l.bytes

-- Whatever earlier calls left to be completed, and however the loop ends: the buffer holds what it
-- held before, followed by the bytes that the loop takes from the kernel, in order, where the kernel
-- keeps to the iovecs that it is given.
pub recv_loop-Filled :
    (ks : List Recvmmsg) (b : AtomicRingBuffer)
    → IsSound b
    → Room (phase b.state) b
    → AllAllowed ks b
    → Filled b (recv_loop ks b)
unfolding recv_loop AllAllowed
recv_loop-Filled [] b v m h = record { sound = v; room = m; conserved = sym (append-nil (held b)) }
recv_loop-Filled (k ∷ ks) b v m h =
    let s = atomic_recv k b in
    let r = atomic_recv-Receives k b v m h.0 in
    let f = recv_loop-Filled ks s.mem r.sound r.room h.1 in
    elim (Bool-cases (goes_on s.result && ltb (active_range s.mem).len ring_buffer_size)) [
      | inl on ↦ rw on (record {
        sound = f.sound;
        room = f.room;
        conserved =
            f.conserved
            ∙ ap (λ l. l ++ (recv_loop ks s.mem).bytes) r.conserved
            ∙ append_assoc (held b) s.bytes (recv_loop ks s.mem).bytes;
      })
      | inr over ↦ rw over (record { sound = r.sound; room = r.room; conserved = r.conserved })
    ]

-- How many calls a signal interrupts.
unfoldable pub interrupts : List Recvmmsg → ℕ
interrupts [] = 0
interrupts (failed eintr ∷ ks) = suc (interrupts ks)
interrupts (k ∷ ks) = interrupts ks

-- A round after which the loop goes on has been interrupted, or has taken up room.
record Progress (k : Recvmmsg) (ks : List Recvmmsg) (b : AtomicRingBuffer) (s : Received)
    : Type 0 where
  idle : IsIdle (phase s.mem.state) s.mem
  less :
      interrupts ks + (ring_buffer_size - (active_range s.mem).len)
      < interrupts (k ∷ ks) + (ring_buffer_size - (active_range b).len)

-- The loop has ended as its condition or its `break` have it.
pub record Over (l : Looped) : Type 0 where
  pub result : Result
  pub ends_with : l.ending ≡ left result
  pub why : (goes_on result && ltb (active_range l.mem).len ring_buffer_size) ≡ false
