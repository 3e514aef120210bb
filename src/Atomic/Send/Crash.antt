-- ===== src/Atomic/Send/Crash.antt =====
-- No byte is lost or sent twice by `atomic_send`, wherever the process dies.
use tud_crash_tolerant_proxy.Prelude.{
  ℕ, ◌≡◌, ◌≢◌, refl, ap, sym, ◌∙◌, true, false, not, List, ◌++◌, ◌==◌, if◌then◌else◌, bit_set, drop,
  take, take-append-drop, append_assoc, arith, Bool-cases, inl, inr, subst,
}
use tud_crash_tolerant_proxy.Ring.{contents, ring_buffer_ltrim, set_iovec_used}
use tud_crash_tolerant_proxy.Ring.Contents.{gather, gather-used, contents-ltrim, ltrim-IsValid}
use tud_crash_tolerant_proxy.Atomic.{
  AtomicRingBuffer, Phase, init, do_syscall, swap, phase, no_result, encode_swap, active_range,
  inactive_range, range_at, store_prepare, store_state, store_active, store_flip, store_copy,
  store_trim, atomic_do_syscall,
}
use tud_crash_tolerant_proxy.Atomic.Laws.{
  IsSound, phase-encode_swap, bit_set-encode_swap, not-not, bit_set_of_swap,
  range_at-set_range_self, range_at-set_range-not, set_range-IsSound, range_at-IsValid,
}
use tud_crash_tolerant_proxy.Atomic.Send.{
  Sendmmsg, failed, sent, Pc, entry, prepare, announce, syscall, encode, copy, trim, flip, reset,
  activate, finished, Machine, Next, send_step, Allowed, Step, runs, crash, Reach, here, later,
  start_phase, ask_kernel,
}

-- The bytes that a call still has to send, as the shared memory has them.
pub pending : Phase → AtomicRingBuffer → List ℕ
pending init b = contents b.buf (active_range b)
pending do_syscall b =
    if b.msg_len == no_result
    then contents b.buf (active_range b)
    else drop b.msg_len (contents b.buf (active_range b))
pending (swap a) b = drop b.msg_len (contents b.buf (range_at b a))

abbrev pub owed : AtomicRingBuffer → List ℕ
owed b = pending (phase b.state) b

-- What the memory holds where the function stands.
unfoldable pub Where : Pc → AtomicRingBuffer → Type 0
Where entry b = Unit {0}
Where prepare b = phase b.state ≡ init
Where announce b = (phase b.state ≡ init) × (b.msg_len ≡ no_result)
Where syscall b = phase b.state ≡ do_syscall
Where encode b = (phase b.state ≡ do_syscall) × (b.msg_len ≢ no_result)
Where (activate s) b = phase b.state ≡ swap (bit_set s 7)
Where copy b = phase b.state ≡ swap b.active
Where trim b = (phase b.state ≡ swap b.active) × (inactive_range b ≡ active_range b)
Where flip b =
    (phase b.state ≡ swap b.active)
    × (inactive_range b ≡ ring_buffer_ltrim (active_range b) b.msg_len)
Where reset b =
    (phase b.state ≡ swap (not b.active))
    × (active_range b ≡ ring_buffer_ltrim (inactive_range b) b.msg_len)
Where (finished r) b = Unit {0}

-- A store that leaves the phase alone keeps what is owed, if it keeps it in that phase.
owed_same :
    (b c : AtomicRingBuffer) (p : Phase)
    → phase b.state ≡ p
    → phase c.state ≡ p
    → pending p c ≡ pending p b
    → owed c ≡ owed b
owed_same b c p hb hc e = ap (λ q. pending q c) hc ∙ e ∙ sym (ap (λ q. pending q b) hb)

-- One step keeps the invariant, and what it sends comes off the front of what is owed.
pub record Keeps (b : AtomicRingBuffer) (s : Next) : Type 0 where
  pub sound : IsSound s.mem
  pub place : Where s.pc s.mem
  pub conserved : s.bytes ++ owed s.mem ≡ owed b

start-Keeps :
    (p : Phase) (b : AtomicRingBuffer) → phase b.state ≡ p → IsSound b → Keeps b (start_phase p b)
unfolding start_phase Where
start-Keeps init b e v = record { sound = v; place = e; conserved = refl }
start-Keeps do_syscall b e v = record { sound = v; place = e; conserved = refl }
start-Keeps (swap a) b e v = record {
  sound = v;
  place = bit_set_of_swap b.state a e;
  conserved = refl;
}

owed_sent :
    (b : AtomicRingBuffer) (n : ℕ)
    → phase b.state ≡ do_syscall
    → n ≢ no_result
    → owed (record b { msg_len = n }) ≡ drop n (contents b.buf (active_range b))
unfolding pending
owed_sent b n p h = let set : (n == no_result) ≡ false = ground arith in rw (p, set)

owed_done :
    (b : AtomicRingBuffer)
    → phase b.state ≡ do_syscall
    → b.msg_len ≢ no_result
    → owed b ≡ drop b.msg_len (contents b.buf (active_range b))
unfolding pending
owed_done b p m = let set : (b.msg_len == no_result) ≡ false = ground arith in rw (p, set)

owed_fresh :
    (b : AtomicRingBuffer)
    → phase b.state ≡ do_syscall
    → b.msg_len ≡ no_result
    → owed b ≡ contents b.buf (active_range b)
unfolding pending
owed_fresh b p m = let set : (b.msg_len == no_result) ≡ true = ground arith in rw (p, set)

kernel-Keeps :
    (rc : Sendmmsg) (b : AtomicRingBuffer)
    → IsSound b
    → phase b.state ≡ do_syscall
    → b.msg_len ≡ no_result
    → Allowed rc b
    → Keeps b (ask_kernel rc b)
unfolding ask_kernel Where Allowed
kernel-Keeps (failed e) b v p n h = record { sound = v; place = tt; conserved = refl }
kernel-Keeps (sent n) b v p m h = record {
  sound = v;
  place = (p, omega (arith, range_at-IsValid b b.active v));
  conserved =
      ap (λ l. take n (gather b.buf (set_iovec_used (active_range b))) ++ l)
        (owed_sent b n p (omega (arith, range_at-IsValid b b.active v)))
      ∙ ap (λ l. take n l ++ drop n (contents b.buf (active_range b)))
          (gather-used b.buf (range_at-IsValid b b.active v))
      ∙ take-append-drop n (contents b.buf (active_range b))
      ∙ sym (owed_fresh b p m);
}

pub step-Keeps :
    (rc : Sendmmsg) (pc : Pc) (b : AtomicRingBuffer)
    → IsSound b
    → Where pc b
    → Allowed rc b
    → Keeps b (send_step rc pc b)
unfolding send_step Where pending store_copy store_trim phase
step-Keeps rc entry b v w h = elim (Bool-cases ((active_range b).len == 0)) [
  | inl drained ↦ rw drained (record { sound = v; place = tt; conserved = refl })
  | inr more ↦ rw more (start-Keeps (phase b.state) b refl v)
]
step-Keeps rc prepare b v w h = record {
  sound = v;
  place = (w, refl);
  conserved = owed_same b (store_prepare b) init w w refl;
}
step-Keeps rc announce b v w h = record {
  sound = v;
  place = refl;
  conserved =
      owed_fresh (store_state atomic_do_syscall b) refl w.1 ∙ sym (ap (λ q. pending q b) w.0);
}
step-Keeps rc syscall b v w h = elim (Bool-cases (b.msg_len == no_result)) [
  | inl fresh ↦ rw fresh (kernel-Keeps rc b v w (ground arith) h)
  | inr done ↦ rw done (record { sound = v; place = (w, ground arith); conserved = refl })
]
step-Keeps rc encode b v w h = record {
  sound = v;
  place = phase-encode_swap b.active ∙ ap swap (sym (bit_set-encode_swap b.active));
  conserved =
      ap (λ q. pending q (store_state (encode_swap b.active) b)) (phase-encode_swap b.active)
      ∙ sym (owed_done b w.0 w.1);
}
step-Keeps rc (activate s) b v w h = record {
  sound = v;
  place = w;
  conserved = owed_same b (store_active (bit_set s 7) b) (swap (bit_set s 7)) w w refl;
}
step-Keeps rc copy b v w h = record {
  sound = set_range-IsSound b (not b.active) (active_range b) v (range_at-IsValid b b.active v);
  place = (
    w,
    range_at-set_range_self b (not b.active) (active_range b)
        ∙ sym (range_at-set_range-not b b.active (active_range b)),
  );
  conserved = owed_same b (store_copy b) (swap b.active) w w (
      ap (λ r. drop b.msg_len (contents b.buf r))
        (range_at-set_range-not b b.active (active_range b)));
}
step-Keeps rc trim b v w h = record {
  sound =
      set_range-IsSound b (not b.active) _ v
        (ltrim-IsValid b.buf (range_at-IsValid b (not b.active) v) b.msg_len);
  place = (
    w.0,
    range_at-set_range_self b (not b.active) _
        ∙ ap (λ r. ring_buffer_ltrim r b.msg_len) (w.1 ∙ sym (range_at-set_range-not b b.active _)),
  );
  conserved =
      owed_same b (store_trim b) (swap b.active) w.0 w.0
        (ap (λ r. drop b.msg_len (contents b.buf r)) (range_at-set_range-not b b.active _));
}
step-Keeps rc flip b v w h = record {
  sound = v;
  place = (
    w.0 ∙ ap swap (sym (not-not b.active)),
    w.1 ∙ ap (λ i. ring_buffer_ltrim (range_at b i) b.msg_len) (sym (not-not b.active)),
  );
  conserved = owed_same b (store_flip b) (swap b.active) w.0 w.0 refl;
}
step-Keeps rc reset b v w h = record {
  sound = v;
  place = tt;
  conserved =
      ap (contents b.buf) w.1
      ∙ contents-ltrim b.buf (range_at-IsValid b (not b.active) v) b.msg_len
      ∙ sym (ap (λ q. pending q b) w.0);
}
step-Keeps rc (finished r) b v w h = record { sound = v; place = tt; conserved = refl }

record Holds (start : List ℕ) (m : Machine) : Type 0 where
  sound : IsSound m.mem
  place : Where m.pc m.mem
  conserved : m.wire ++ owed m.mem ≡ start

Step-Holds : {start : List ℕ} {m n : Machine} → Step m n → Holds start m → Holds start n
unfolding Where
Step-Holds {m = m} (runs rc h) i =
    let k = step-Keeps rc m.pc m.mem i.sound i.place h in
    record {
      sound = k.sound;
      place = k.place;
      conserved =
          append_assoc m.wire (send_step rc m.pc m.mem).bytes (owed (send_step rc m.pc m.mem).mem)
          ∙ ap (λ l. m.wire ++ l) k.conserved
          ∙ i.conserved;
    }
Step-Holds crash i = record { sound = i.sound; place = tt; conserved = i.conserved }

Reach-Holds : {start : List ℕ} {m n : Machine} → Holds start m → Reach m n → Holds start n
Reach-Holds h here = h
Reach-Holds h (later r s) = Step-Holds s (Reach-Holds h r)

-- From a call of `atomic_send` on two valid ranges, through any steps, crashes and further calls:
-- the bytes that the kernel has and the bytes that are still owed make up the same stream.
pub send_exactly_once :
    {m n : Machine}
    → m.pc ≡ entry
    → IsSound m.mem
    → Reach m n
    → n.wire ++ owed n.mem ≡ m.wire ++ owed m.mem
unfolding Where
send_exactly_once {m} e v r =
    (Reach-Holds
      (record { sound = v; place = subst (λ p. Where p m.mem) (sym e) tt; conserved = refl })
      r).conserved
