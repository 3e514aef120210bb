-- ===== src/Atomic/Recv/Idle.antt =====
-- A call of `atomic_recv` where no earlier call was interrupted: what the kernel's answer comes to.
use tud_crash_tolerant_proxy.Prelude.{
  ℕ, ◌<◌, add_size, ◌≡◌, refl, ap, sym, ◌∙◌, subst, true, false, not, List, ◌==◌, leb, length,
  arith, Bool-cases, inl, inr,
}
use tud_crash_tolerant_proxy.Ring.{Buffer, ring_buffer_size, rewind_empty}
use tud_crash_tolerant_proxy.Atomic.{
  AtomicRingBuffer, Phase, init, do_syscall, swap, phase, Errno, returned, error, no_result,
  encode_swap, active_range, store_prepare, store_state, store_extend, store_rewind,
  atomic_do_syscall,
}
use tud_crash_tolerant_proxy.Atomic.Recv.{
  Recvmmsg, failed, got, Received, atomic_recv, recv_phase, recv_init, recv_syscall,
  recv_syscall_result, recv_swap, recv_encode,
}

-- No call has been interrupted: nothing is left to be completed.
unfoldable pub IsIdle : Phase → AtomicRingBuffer → Type 0
IsIdle init b = Unit {0}
IsIdle do_syscall b = b.msg_len ≡ no_result
IsIdle (swap a) b = ⊥

-- What a call on an idle buffer that is not full comes to.
pub data Asked (b : AtomicRingBuffer) : Recvmmsg → Received → Type 0 where
  refused :
      (e : Errno) (s : Received)
      → s.result ≡ error e
      → IsIdle (phase s.mem.state) s.mem
      → (active_range s.mem).len ≡ (active_range b).len
      → Asked b (failed e) s
  ended :
      (xs : List ℕ) (buf : Buffer) (s : Received) → s.result ≡ returned 0 → Asked b (got xs buf) s
  moved :
      (xs : List ℕ) (buf : Buffer) (s : Received)
      → s.result ≡ returned (length xs)
      → 0 < length xs
      → IsIdle (phase s.mem.state) s.mem
      → (active_range s.mem).len ≡ add_size (active_range b).len (length xs)
      → Asked b (got xs buf) s

pub len-store_rewind :
    (b : AtomicRingBuffer) → (active_range (store_rewind b)).len ≡ (active_range b).len
unfolding store_rewind rewind_empty
len-store_rewind b = ground arith

pub len-recv_swap :
    (b : AtomicRingBuffer)
    → (active_range (recv_swap (encode_swap (not b.active)) b)).len
      ≡ add_size (active_range b).len b.msg_len
unfolding recv_swap store_extend
len-recv_swap b = ground arith

pub encode_asked :
    (xs : List ℕ) (buf : Buffer) (b : AtomicRingBuffer)
    → Asked b (got xs buf) (recv_encode xs (record b { msg_len = length xs; buf = buf }))
unfolding recv_encode IsIdle phase
encode_asked xs buf b = elim (Bool-cases (length xs == 0)) [
  | inl eof ↦ rw eof (ended xs buf _ refl)
  | inr more ↦
      let c = record b { msg_len = length xs; buf = buf } in
      rw more (
        moved xs buf _ refl (ground (arith, more)) tt
          (len-recv_swap (store_state (encode_swap (not b.active)) c)))
]

pub result_asked :
    (rc : Recvmmsg) (b : AtomicRingBuffer)
    → phase b.state ≡ do_syscall
    → b.msg_len ≡ no_result
    → Asked b rc (recv_syscall_result rc (store_rewind b))
unfolding recv_syscall_result IsIdle store_rewind
result_asked (failed e) b p m =
    refused e _ refl (subst (λ q. IsIdle q (store_rewind b)) (sym p) m) (len-store_rewind b)
result_asked (got xs buf) b p m = of (encode_asked xs buf (store_rewind b))
  where
    of : {rc : Recvmmsg} {s : Received} → Asked (store_rewind b) rc s → Asked b rc s
    of (refused e s r i l) = refused e s r i (l ∙ len-store_rewind b)
    of (ended ys buf' s r) = ended ys buf' s r
    of (moved ys buf' s r h i l) =
        moved ys buf' s r h i (l ∙ ap (λ n. add_size n (length ys)) (len-store_rewind b))

pub syscall_asked :
    (rc : Recvmmsg) (b : AtomicRingBuffer)
    → phase b.state ≡ do_syscall
    → b.msg_len ≡ no_result
    → Asked b rc (recv_syscall rc b)
unfolding recv_syscall
syscall_asked rc b p m =
    let fresh : (b.msg_len == no_result) ≡ true = ground (arith, m) in
    rw fresh (result_asked rc b p m)

pub phase_asked :
    (p : Phase) (rc : Recvmmsg) (b : AtomicRingBuffer)
    → phase b.state ≡ p
    → IsIdle p b
    → (active_range b).len < ring_buffer_size
    → Asked b rc (recv_phase p rc b)
unfolding recv_phase recv_init IsIdle phase
phase_asked init rc b e i h =
    let free : leb ring_buffer_size (active_range b).len ≡ false = ground (arith, h) in
    rw free (of (syscall_asked rc (store_state atomic_do_syscall (store_prepare b)) refl refl))
  where
    of :
        {rc : Recvmmsg} {s : Received}
        → Asked (store_state atomic_do_syscall (store_prepare b)) rc s
        → Asked b rc s
    of (refused e s r i l) = refused e s r i l
    of (ended xs buf s r) = ended xs buf s r
    of (moved xs buf s r n i l) = moved xs buf s r n i l
phase_asked do_syscall rc b e i h = syscall_asked rc b e i
phase_asked (swap a) rc b e i h = absurd i

pub atomic_recv_asked :
    (rc : Recvmmsg) (b : AtomicRingBuffer)
    → IsIdle (phase b.state) b
    → (active_range b).len < ring_buffer_size
    → Asked b rc (atomic_recv rc b)
unfolding atomic_recv
atomic_recv_asked rc b i h = phase_asked (phase b.state) rc b refl i h
