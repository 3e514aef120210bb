-- ===== src/Atomic/Send/Call.antt =====
-- A whole call of `atomic_send`, on any memory that a process which died may have left: what it
-- sends comes off the front of what is owed.
use tud_crash_tolerant_proxy.Prelude.{
  ℕ, ◌<◌, ◌≡◌, refl, ap, sym, ◌∙◌, subst, true, false, List, [], ◌++◌, ◌==◌, if◌then◌else◌, bit_set,
  arith, Bool-cases, inl, inr,
}
use tud_crash_tolerant_proxy.Atomic.{
  AtomicRingBuffer, Phase, init, do_syscall, swap, phase, Errno, other, returned, error, no_result,
  encode_swap, active_range, store_prepare, store_state, store_active, store_copy, store_trim,
  store_flip, atomic_do_syscall, Result,
}
use tud_crash_tolerant_proxy.Ring.{ring_buffer_ltrim}
use tud_crash_tolerant_proxy.Atomic.Laws.{IsSound, bit_set_of_swap}
use tud_crash_tolerant_proxy.Atomic.Send.{
  Sendmmsg, failed, sent, Sent, Pc, prepare, announce, syscall, encode, copy, trim, flip, reset,
  activate, send_step, atomic_send, send_phase, send_syscall, send_syscall_result, send_swap,
  send_encode, Allowed, ask_kernel,
}
use tud_crash_tolerant_proxy.Atomic.Send.Crash.{Keeps, Where, owed, step-Keeps}

-- The memory and the bytes, as the steps have them.
pub record Sends (b : AtomicRingBuffer) (s : Sent) : Type 0 where
  pub sound : IsSound s.mem
  pub conserved : s.bytes ++ owed s.mem ≡ owed b

-- A step that sends nothing keeps what is owed.
quiet :
    (pc : Pc) (b : AtomicRingBuffer)
    → Keeps b (send_step (failed other) pc b)
    → (send_step (failed other) pc b).bytes ≡ []
    → owed (send_step (failed other) pc b).mem ≡ owed b
quiet pc b k e = ap (λ l. l ++ owed (send_step (failed other) pc b).mem) (sym e) ∙ k.conserved

allowed : (b : AtomicRingBuffer) → Allowed (failed other) b
unfolding Allowed
allowed b = tt

swap-Sends :
    (s : ℕ) (b : AtomicRingBuffer) (r : Result)
    → IsSound b
    → Where (activate s) b
    → Sends b (record { mem = send_swap s b; bytes = []; result = r })
unfolding send_swap send_step
swap-Sends s b r v w =
    let k1 = step-Keeps (failed other) (activate s) b v w (allowed b) in
    let b1 = store_active (bit_set s 7) b in
    let k2 = step-Keeps (failed other) copy b1 k1.sound k1.place (allowed b1) in
    let b2 = store_copy b1 in
    let k3 = step-Keeps (failed other) trim b2 k2.sound k2.place (allowed b2) in
    let b3 = store_trim b2 in
    let k4 = step-Keeps (failed other) flip b3 k3.sound k3.place (allowed b3) in
    let b4 = store_flip b3 in
    let k5 = step-Keeps (failed other) reset b4 k4.sound k4.place (allowed b4) in
    record {
      sound = k5.sound;
      conserved = k5.conserved ∙ k4.conserved ∙ k3.conserved ∙ k2.conserved ∙ k1.conserved;
    }

encode-Sends :
    (bytes : List ℕ) (b : AtomicRingBuffer) (start : List ℕ)
    → IsSound b
    → Where encode b
    → bytes ++ owed b ≡ start
    → IsSound (send_encode bytes b).mem × (bytes ++ owed (send_encode bytes b).mem ≡ start)
unfolding send_encode send_step
encode-Sends bytes b start v w e =
    let k = step-Keeps (failed other) encode b v w (allowed b) in
    let c = store_state (encode_swap b.active) b in
    let k' = swap-Sends (encode_swap b.active) c (returned b.msg_len) k.sound k.place in
    (k'.sound, ap (λ l. bytes ++ l) (k'.conserved ∙ k.conserved) ∙ e)

syscall-Sends :
    (rc : Sendmmsg) (b : AtomicRingBuffer)
    → IsSound b
    → phase b.state ≡ do_syscall
    → Allowed rc b
    → Sends b (send_syscall rc b)
unfolding send_syscall send_syscall_result Where send_step ask_kernel send_encode
syscall-Sends rc b v w h = elim (Bool-cases (b.msg_len == no_result)) [
  | inl fresh ↦ rw fresh (
      by rc (
        subst
          (λ t.
            Keeps b (if t then ask_kernel rc b else record { pc = encode; mem = b; bytes = [] }))
          fresh (step-Keeps rc syscall b v w h)))
  | inr done ↦ rw done (
      let e = encode-Sends [] b (owed b) v (w, ground arith) refl in
      record { sound = e.0; conserved = e.1 })
]
  where
    by : (rc : Sendmmsg) → Keeps b (ask_kernel rc b) → Sends b (send_syscall_result rc b)
    by (failed x) k = record { sound = k.sound; conserved = k.conserved }
    by (sent n) k =
        let e =
          encode-Sends (ask_kernel (sent n) b).bytes (record b { msg_len = n }) (owed b) k.sound
            k.place k.conserved in
        record { sound = e.0; conserved = e.1 }

phase-Sends :
    (p : Phase) (rc : Sendmmsg) (b : AtomicRingBuffer)
    → phase b.state ≡ p
    → IsSound b
    → Allowed rc b
    → Sends b (send_phase p rc b)
unfolding send_phase Where send_step Allowed phase
phase-Sends init rc b e v h =
    let k1 = step-Keeps (failed other) prepare b v e (allowed b) in
    let b1 = store_prepare b in
    let k2 = step-Keeps (failed other) announce b1 k1.sound k1.place (allowed b1) in
    let b2 = store_state atomic_do_syscall b1 in
    let s = syscall-Sends rc b2 k2.sound refl (same rc h) in
    record { sound = s.sound; conserved = s.conserved ∙ k2.conserved ∙ k1.conserved }
  where
    same :
        (rc : Sendmmsg)
        → Allowed rc b
        → Allowed rc (store_state atomic_do_syscall (store_prepare b))
    same (failed x) h = tt
    same (sent n) h = h
phase-Sends do_syscall rc b e v h = syscall-Sends rc b v e h
phase-Sends (swap a) rc b e v h =
    swap-Sends b.state b (returned b.msg_len) v (bit_set_of_swap b.state a e)

pub atomic_send-Sends :
    (rc : Sendmmsg) (b : AtomicRingBuffer) → IsSound b → Allowed rc b → Sends b (atomic_send rc b)
unfolding atomic_send
atomic_send-Sends rc b v h = elim (Bool-cases ((active_range b).len == 0)) [
  | inl drained ↦ rw drained (record { sound = v; conserved = refl })
  | inr more ↦ rw more (phase-Sends (phase b.state) rc b refl v h)
]

-- No call has been interrupted: nothing is left to be completed.
unfoldable pub IsIdle : Phase → AtomicRingBuffer → Type 0
IsIdle init b = Unit {0}
IsIdle do_syscall b = b.msg_len ≡ no_result
IsIdle (swap a) b = ⊥

-- What a call on an idle buffer comes to, where the kernel is asked.
pub data Asked (b : AtomicRingBuffer) : Sendmmsg → Sent → Type 0 where
  refused :
      (e : Errno) (s : Sent)
      → s.result ≡ error e
      → IsIdle (phase s.mem.state) s.mem
      → Asked b (failed e) s
  moved :
      (n : ℕ) (s : Sent)
      → s.result ≡ returned n
      → IsIdle (phase s.mem.state) s.mem
      → active_range s.mem ≡ ring_buffer_ltrim (active_range b) n
      → Asked b (sent n) s

encode_moved :
    (n : ℕ) (bytes : List ℕ) (b : AtomicRingBuffer)
    → Asked b (sent n) (send_encode bytes (record b { msg_len = n }))
unfolding send_encode IsIdle send_swap store_copy store_trim phase
encode_moved n bytes b = moved n _ refl tt (ground arith)

syscall_asked :
    (rc : Sendmmsg) (b : AtomicRingBuffer)
    → phase b.state ≡ do_syscall
    → b.msg_len ≡ no_result
    → Asked b rc (send_syscall rc b)
unfolding send_syscall send_syscall_result IsIdle
syscall_asked (failed e) b p m =
    let fresh : (b.msg_len == no_result) ≡ true = ground (arith, m) in
    rw fresh (refused e _ refl (subst (λ q. IsIdle q b) (sym p) m))
syscall_asked (sent n) b p m =
    let fresh : (b.msg_len == no_result) ≡ true = ground (arith, m) in rw fresh (encode_moved n _ b)

phase_asked :
    (p : Phase) (rc : Sendmmsg) (b : AtomicRingBuffer)
    → phase b.state ≡ p
    → IsIdle p b
    → Asked b rc (send_phase p rc b)
unfolding send_phase IsIdle phase
phase_asked init rc b e i =
    of (syscall_asked rc (store_state atomic_do_syscall (store_prepare b)) refl refl)
  where
    of :
        {rc : Sendmmsg} {s : Sent}
        → Asked (store_state atomic_do_syscall (store_prepare b)) rc s
        → Asked b rc s
    of (refused e s r k) = refused e s r k
    of (moved n s r k a) = moved n s r k a
phase_asked do_syscall rc b e i = syscall_asked rc b e i
phase_asked (swap a) rc b e i = absurd i

pub atomic_send_asked :
    (rc : Sendmmsg) (b : AtomicRingBuffer)
    → IsIdle (phase b.state) b
    → 0 < (active_range b).len
    → Asked b rc (atomic_send rc b)
unfolding atomic_send
atomic_send_asked rc b i h =
    let more : ((active_range b).len == 0) ≡ false = ground (arith, h) in
    rw more (phase_asked (phase b.state) rc b refl i)
