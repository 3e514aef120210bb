-- ===== src/Atomic/Send/Whole.antt =====
-- The steps of an uninterrupted call are the function `atomic_send`.
use tud_crash_tolerant_proxy.Prelude.{
  arith, ℕ, ◌≤◌, zero, suc, [], ◌∙◌, ◌≡◌, sym, refl, true, false, ap, List, ◌++◌, Bool-cases, inl,
  inr, ◌==◌, append-nil,
}
use tud_crash_tolerant_proxy.Atomic.{
  Result, returned, error, AtomicRingBuffer, Phase, init, do_syscall, swap, phase, active_range,
  store_trim, store_copy, no_result, store_prepare, store_state, atomic_do_syscall,
}
use tud_crash_tolerant_proxy.Atomic.Send.{
  Sendmmsg, failed, sent, Sent, Next, Pc, encode, send_encode, entry, syscall, finished, Machine,
  send_step, send_steps, atomic_send, send_syscall, send_phase, start_phase,
}

abbrev ended : List ℕ → Sent → Machine
ended w s = record { pc = finished s.result; mem = s.mem; wire = w ++ s.bytes }

abbrev at : Pc → AtomicRingBuffer → List ℕ → Machine
at pc b w = record { pc = pc; mem = b; wire = w }

steps_encode :
    (rc : Sendmmsg) (b : AtomicRingBuffer) (w bytes : List ℕ)
    → send_steps 6 rc (at encode b (w ++ bytes)) ≡ ended w (send_encode bytes b)
unfolding send_steps send_step send_encode store_trim store_copy
steps_encode rc b w bytes = simp append-nil

-- More steps than are needed change nothing.
steps_finished :
    (n : ℕ) (rc : Sendmmsg) (r : Result) (b : AtomicRingBuffer) (w : List ℕ)
    → send_steps n rc (at (finished r) b w) ≡ at (finished r) b w
unfolding send_steps send_step
steps_finished zero rc r b w = refl
steps_finished (suc n) rc r b w =
    ap (λ l. send_steps n rc (at (finished r) b l)) (append-nil w) ∙ steps_finished n rc r b w

steps_syscall :
    (rc : Sendmmsg) (b : AtomicRingBuffer) (w : List ℕ)
    → send_steps 7 rc (at syscall b w) ≡ ended w (send_syscall rc b)
unfolding send_steps send_step send_syscall
steps_syscall (failed e) b w = elim (Bool-cases (b.msg_len == no_result)) [
  | inl fresh ↦ rw fresh (steps_finished 6 (failed e) (error e) b (w ++ []))
  | inr done ↦ rw done (steps_encode (failed e) b w [])
]
steps_syscall (sent n) b w = elim (Bool-cases (b.msg_len == no_result)) [
  | inl fresh ↦ rw fresh (steps_encode (sent n) (record b { msg_len = n }) w _)
  | inr done ↦ rw done (steps_encode (sent n) b w [])
]

-- The call ends after at most ten steps, at the function's result.
record Ends (rc : Sendmmsg) (m : Machine) (limit : ℕ) (w : List ℕ) (s : Sent) : Type 0 where
  pub steps : ℕ
  pub few : steps ≤ limit
  pub ends : send_steps steps rc m ≡ ended w s

steps_phase :
    (p : Phase) (rc : Sendmmsg) (b : AtomicRingBuffer) (w : List ℕ)
    → Ends rc
        (at (start_phase p b).pc (start_phase p b).mem (w ++ (start_phase p b).bytes))
        9
        w
        (send_phase p rc b)
unfolding send_steps send_step send_phase store_trim store_copy
steps_phase init rc b w = record {
  steps = 9;
  few = omega arith;
  ends = simp append-nil (steps_syscall rc (store_state atomic_do_syscall (store_prepare b)) w);
}
steps_phase do_syscall rc b w = record {
  steps = 7;
  few = omega arith;
  ends = ap (λ l. send_steps 7 rc (at syscall b l)) (append-nil w) ∙ steps_syscall rc b w;
}
steps_phase (swap a) rc b w = record { steps = 5; few = omega arith; ends = simp append-nil }

entry_more :
    (rc : Sendmmsg) (b : AtomicRingBuffer)
    → ((active_range b).len == 0) ≡ false
    → (send_step rc entry b ≡ start_phase (phase b.state) b)
      × (atomic_send rc b ≡ send_phase (phase b.state) rc b)
unfolding send_step atomic_send
entry_more rc b more = (rw more refl, rw more refl)

entry_drained :
    (rc : Sendmmsg) (b : AtomicRingBuffer)
    → ((active_range b).len == 0) ≡ true
    → (send_step rc entry b ≡ record { pc = finished (returned 0); mem = b; bytes = [] })
      × (atomic_send rc b ≡ record { mem = b; bytes = []; result = returned 0 })
unfolding send_step atomic_send
entry_drained rc b drained = (rw drained refl, rw drained refl)

-- The machine after a step that has been worked out.
abbrev after : List ℕ → Next → Machine
after w s = record { pc = s.pc; mem = s.mem; wire = w ++ s.bytes }

-- The steps that `atomic_send` makes when no crash stops it end, after at most ten, in its result,
-- with the memory and the bytes sent that the function has.
pub atomic_send_steps :
    (rc : Sendmmsg) (b : AtomicRingBuffer) (w : List ℕ)
    → (n : ℕ) × (n ≤ 10)
      × (send_steps n rc (record { pc = entry; mem = b; wire = w }) ≡ record {
        pc = finished (atomic_send rc b).result;
        mem = (atomic_send rc b).mem;
        wire = w ++ (atomic_send rc b).bytes;
      })
unfolding send_steps
atomic_send_steps rc b w = elim (Bool-cases ((active_range b).len == 0)) [
  | inl drained ↦
      let (step, whole) = entry_drained rc b drained in
      (1, omega arith, ap (after w) step ∙ ap (ended w) (sym whole))
  | inr more ↦
      let (step, whole) = entry_more rc b more in
      let e = steps_phase (phase b.state) rc b w in
      (
        suc e.steps,
        omega (arith, e.few),
        ap (λ s. send_steps e.steps rc (after w s)) step ∙ e.ends ∙ ap (ended w) (sym whole),
      )
]
