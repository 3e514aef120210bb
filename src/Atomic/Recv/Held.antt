-- ===== src/Atomic/Recv/Held.antt =====
-- What a receive buffer holds, or will hold once an interrupted call is completed, and what the memory
-- has where `atomic_recv` stands.
use tud_crash_tolerant_proxy.Prelude.{
  ℕ, ◌+◌, ◌≤◌, ◌≡◌, ◌≢◌, refl, ap, sym, ◌∙◌, true, false, not, List, [], ◌++◌, ◌==◌, if◌then◌else◌,
  bit_set, append-nil, arith, subst,
}
use tud_crash_tolerant_proxy.Ring.{RingBufferRange, ring_buffer_size, contents, rewind_empty}
use tud_crash_tolerant_proxy.Atomic.{
  AtomicRingBuffer, Phase, init, do_syscall, swap, phase, no_result, active_range, inactive_range,
  range_at,
}
use tud_crash_tolerant_proxy.Atomic.Laws.{IsSound}
use tud_crash_tolerant_proxy.Atomic.Recv.{
  Pc, entry, prepare, announce, syscall, receive, check, encode, extend, flip, reset, activate,
  finished, Next,
}

-- A range with `n` received bytes behind its own.
abbrev pub extended : RingBufferRange → ℕ → RingBufferRange
extended r n = record r { len = r.len + n }

-- The bytes that are in the buffer, or will be once an interrupted call is completed.
unfoldable pub in_buffer : Phase → AtomicRingBuffer → List ℕ
in_buffer init b = contents b.buf (active_range b)
in_buffer do_syscall b =
    if b.msg_len == no_result
    then contents b.buf (active_range b)
    else contents b.buf (extended (active_range b) b.msg_len)
in_buffer (swap a) b = contents b.buf (extended (range_at b (not a)) b.msg_len)

abbrev pub held : AtomicRingBuffer → List ℕ
held b = in_buffer (phase b.state) b

-- The bytes received fit behind those that are there.
unfoldable pub Room : Phase → AtomicRingBuffer → Type 0
Room init b = Unit {0}
Room do_syscall b = b.msg_len ≢ no_result → (active_range b).len + b.msg_len ≤ ring_buffer_size
Room (swap a) b = (range_at b (not a)).len + b.msg_len ≤ ring_buffer_size

-- What the memory holds where the function stands.
unfoldable pub Where : Pc → AtomicRingBuffer → Type 0
Where entry b = Unit {0}
Where prepare b = phase b.state ≡ init
Where announce b = (phase b.state ≡ init) × (b.msg_len ≡ no_result)
Where syscall b = phase b.state ≡ do_syscall
Where receive b =
    (phase b.state ≡ do_syscall)
    × (b.msg_len ≡ no_result)
    × (rewind_empty (active_range b) ≡ active_range b)
Where check b = (phase b.state ≡ do_syscall) × (b.msg_len ≢ no_result)
Where encode b = (phase b.state ≡ do_syscall) × (b.msg_len ≢ no_result)
Where (activate s) b = phase b.state ≡ swap (bit_set s 7)
Where extend b = phase b.state ≡ swap (not b.active)
Where flip b =
    (phase b.state ≡ swap (not b.active)) × (inactive_range b ≡ extended (active_range b) b.msg_len)
Where reset b =
    (phase b.state ≡ swap b.active) × (active_range b ≡ extended (inactive_range b) b.msg_len)
Where (finished r) b = Unit {0}

-- One step keeps the invariant, and what it takes in goes behind what is held.
pub record Keeps (b : AtomicRingBuffer) (s : Next) : Type 0 where
  pub sound : IsSound s.mem
  pub room : Room (phase s.mem.state) s.mem
  pub place : Where s.pc s.mem
  pub conserved : held s.mem ≡ held b ++ s.bytes

-- A step that takes nothing in, from one phase to another.
pub quiet :
    (b c : AtomicRingBuffer) (p q : Phase)
    → phase b.state ≡ p
    → phase c.state ≡ q
    → in_buffer q c ≡ in_buffer p b
    → held c ≡ held b ++ []
quiet b c p q hb hc e =
    ap (λ k. in_buffer k c) hc ∙ e ∙ sym (ap (λ k. in_buffer k b) hb) ∙ sym (append-nil (held b))

pub Room-of :
    (c : AtomicRingBuffer) (q : Phase) → phase c.state ≡ q → Room q c → Room (phase c.state) c
Room-of c q hc h = subst (λ k. Room k c) (sym hc) h

pub Room-in :
    (c : AtomicRingBuffer) (q : Phase) → phase c.state ≡ q → Room (phase c.state) c → Room q c
Room-in c q hc h = subst (λ k. Room k c) hc h

pub in_buffer_fresh :
    (b : AtomicRingBuffer)
    → b.msg_len ≡ no_result
    → in_buffer do_syscall b ≡ contents b.buf (active_range b)
unfolding in_buffer
in_buffer_fresh b m = let set : (b.msg_len == no_result) ≡ true = ground arith in rw set refl

pub in_buffer_done :
    (b : AtomicRingBuffer)
    → b.msg_len ≢ no_result
    → in_buffer do_syscall b ≡ contents b.buf (extended (active_range b) b.msg_len)
unfolding in_buffer
in_buffer_done b m = let set : (b.msg_len == no_result) ≡ false = ground arith in rw set refl
