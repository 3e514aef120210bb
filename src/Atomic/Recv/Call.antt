-- ===== src/Atomic/Recv/Call.antt =====
-- A whole call of `atomic_recv`, on any memory that a process which died may have left: what it
-- takes from the kernel goes behind what is held.
use tud_crash_tolerant_proxy.Prelude.{
  ℕ, ◌≡◌, refl, ap, sym, ◌∙◌, subst, not, List, [], ◌++◌, ◌==◌, leb, if◌then◌else◌, bit_set,
  append_assoc, append-nil, length, arith, Bool-cases, inl, inr,
}
use tud_crash_tolerant_proxy.Ring.{ring_buffer_size}
use tud_crash_tolerant_proxy.Atomic.{
  AtomicRingBuffer, Phase, init, do_syscall, swap, phase, other, returned, no_result, encode_swap,
  active_range, store_prepare, store_state, store_active, store_flip, store_extend, store_rewind,
  atomic_init, atomic_do_syscall, Result,
}
use tud_crash_tolerant_proxy.Atomic.Laws.{IsSound, bit_set_of_swap}
use tud_crash_tolerant_proxy.Atomic.Recv.{
  Recvmmsg, failed, got, Received, prepare, announce, syscall, receive, check, encode, extend, flip,
  reset, activate, finished, recv_step, atomic_recv, recv_phase, recv_init, recv_syscall,
  recv_syscall_result, recv_swap, recv_encode, Allowed, ask_kernel,
}
use tud_crash_tolerant_proxy.Atomic.Recv.Held.{Keeps, Where, Room, held}
use tud_crash_tolerant_proxy.Atomic.Recv.Crash.{step-Keeps}

-- The memory and the bytes, as the steps have them.
pub record Receives (b : AtomicRingBuffer) (s : Received) : Type 0 where
  pub sound : IsSound s.mem
  pub room : Room (phase s.mem.state) s.mem
  pub conserved : held s.mem ≡ held b ++ s.bytes

-- Steps one after another.
chain :
    {b c : AtomicRingBuffer} {s : Received} (bytes : List ℕ)
    → held c ≡ held b ++ bytes
    → Receives c s
    → Receives b (record s { bytes = bytes ++ s.bytes })
chain {b} {c} {s} bytes e r = record {
  sound = r.sound;
  room = r.room;
  conserved = r.conserved ∙ ap (λ l. l ++ s.bytes) e ∙ append_assoc (held b) bytes s.bytes;
}

swap-Receives :
    (s : ℕ) (b : AtomicRingBuffer) (r : Result)
    → IsSound b
    → Room (phase b.state) b
    → Where (activate s) b
    → Receives b (record { mem = recv_swap s b; bytes = []; result = r })
unfolding recv_swap recv_step
swap-Receives s b r v m w =
    let k1 = step-Keeps (failed other) (activate s) b v m w (λ e. ground arith) in
    let b1 = store_active (not (bit_set s 7)) b in
    let k2 = step-Keeps (failed other) extend b1 k1.sound k1.room k1.place (λ e. ground arith) in
    let b2 = store_extend b1 in
    let k3 = step-Keeps (failed other) flip b2 k2.sound k2.room k2.place (λ e. ground arith) in
    let b3 = store_flip b2 in
    let k4 = step-Keeps (failed other) reset b3 k3.sound k3.room k3.place (λ e. ground arith) in
    chain [] k1.conserved (
      chain [] k2.conserved (
        chain [] k3.conserved
          (record { sound = k4.sound; room = k4.room; conserved = k4.conserved })))

-- From the test for end of file on, with `bytes` taken just before.
encode-Receives :
    (bytes : List ℕ) (b : AtomicRingBuffer)
    → IsSound b
    → Room (phase b.state) b
    → Where check b
    → (recv_encode bytes b).bytes ≡ bytes
      × Receives b (record {
        mem = (recv_encode bytes b).mem;
        bytes = [];
        result = (recv_encode bytes b).result;
      })
unfolding recv_encode recv_step Where
encode-Receives bytes b v m w = elim (Bool-cases (b.msg_len == 0)) [
  | inl eof ↦
      let k =
        subst
          (λ t. Keeps b (
            if t
            then record { pc = finished (returned 0); mem = store_state atomic_init b; bytes = [] }
            else record { pc = encode; mem = b; bytes = [] }))
          eof (step-Keeps (failed other) check b v m w (λ e. ground arith)) in
      rw eof (refl, record { sound = k.sound; room = k.room; conserved = k.conserved })
  | inr more ↦
      let k = step-Keeps (failed other) encode b v m w (λ e. ground arith) in
      let c = store_state (encode_swap (not b.active)) b in
      rw more (
        refl,
        chain [] k.conserved (
            swap-Receives (encode_swap (not b.active)) c (returned b.msg_len) k.sound k.room
              k.place),
      )
]

encoded :
    (bytes : List ℕ) (b c : AtomicRingBuffer)
    → held c ≡ held b ++ bytes
    → IsSound c
    → Room (phase c.state) c
    → Where check c
    → Receives b (recv_encode bytes c)
encoded bytes b c e v m w =
    let r = encode-Receives bytes c v m w in
    let k = r.1 in
    record {
      sound = k.sound;
      room = k.room;
      conserved = k.conserved ∙ append-nil (held c) ∙ e ∙ ap (λ l. held b ++ l) (sym r.0);
    }

asked :
    (rc : Recvmmsg) (b : AtomicRingBuffer)
    → Keeps b (ask_kernel rc b)
    → Receives b (recv_syscall_result rc b)
unfolding recv_syscall_result ask_kernel
asked (failed x) b k = record { sound = k.sound; room = k.room; conserved = k.conserved }
asked (got xs buf) b k =
    encoded xs b (record b { msg_len = length xs; buf = buf }) k.conserved k.sound k.room k.place

syscall-Receives :
    (rc : Recvmmsg) (b : AtomicRingBuffer)
    → IsSound b
    → Room (phase b.state) b
    → phase b.state ≡ do_syscall
    → Allowed rc (store_rewind b)
    → Receives b (recv_syscall rc b)
unfolding recv_syscall Where recv_step
syscall-Receives rc b v m w h = elim (Bool-cases (b.msg_len == no_result)) [
  | inl fresh ↦
      let k =
        subst
          (λ t. Keeps b (
            if t
            then record { pc = receive; mem = store_rewind b; bytes = [] }
            else record { pc = check; mem = b; bytes = [] }))
          fresh (step-Keeps (failed other) syscall b v m w (λ e. ground arith)) in
      let k' = step-Keeps rc receive (store_rewind b) k.sound k.room k.place (λ e. h) in
      rw fresh (chain [] k.conserved (asked rc (store_rewind b) k'))
  | inr done ↦ rw done (encoded [] b b (sym (append-nil (held b))) v m (w, ground (arith, done)))
]

phase-Receives :
    (p : Phase) (rc : Recvmmsg) (b : AtomicRingBuffer)
    → phase b.state ≡ p
    → IsSound b
    → Room (phase b.state) b
    → Allowed rc (store_rewind b)
    → Receives b (recv_phase p rc b)
unfolding recv_phase recv_init Where recv_step Allowed phase store_rewind
phase-Receives init rc b e v m h = elim (Bool-cases (leb ring_buffer_size (active_range b).len)) [
  | inl full ↦ rw full (record { sound = v; room = m; conserved = sym (append-nil (held b)) })
  | inr free ↦
      let k1 = step-Keeps (failed other) prepare b v m e (λ x. ground arith) in
      let b1 = store_prepare b in
      let k2 =
        step-Keeps (failed other) announce b1 k1.sound k1.room k1.place (λ x. ground arith) in
      let b2 = store_state atomic_do_syscall b1 in
      rw free (
        chain [] k1.conserved
          (chain [] k2.conserved (syscall-Receives rc b2 k2.sound k2.room refl (same rc h))))
]
  where
    same :
        (rc : Recvmmsg)
        → Allowed rc (store_rewind b)
        → Allowed rc (store_rewind (store_state atomic_do_syscall (store_prepare b)))
    same (failed x) h = tt
    same (got xs buf) h = h
phase-Receives do_syscall rc b e v m h = syscall-Receives rc b v m e h
phase-Receives (swap a) rc b e v m h =
    swap-Receives b.state b (returned b.msg_len) v m (bit_set_of_swap b.state a e)

pub atomic_recv-Receives :
    (rc : Recvmmsg) (b : AtomicRingBuffer)
    → IsSound b
    → Room (phase b.state) b
    → Allowed rc (store_rewind b)
    → Receives b (atomic_recv rc b)
unfolding atomic_recv
atomic_recv-Receives rc b v m h = phase-Receives (phase b.state) rc b refl v m h
