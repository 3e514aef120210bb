-- ===== src/Worker/Io/Send.antt =====
-- The send loop sends from the front of what is owed, and where no call was interrupted it empties
-- the buffer or stops at an error of the kernel.
use tud_crash_tolerant_proxy.Prelude.{
  ℕ, ◌^◌, ◌≤◌, ◌<◌, ◌≡◌, ◌≢◌, refl, ap, sym, ◌∙◌, subst, true, List, [], ◌∷◌, ◌++◌, length, ◌==◌,
  append_assoc, arith, Bool-cases, inl, inr,
}
use tud_crash_tolerant_proxy.Ring.{ring_buffer_size, ring_buffer_ltrim}
use tud_crash_tolerant_proxy.Atomic.{
  AtomicRingBuffer, phase, Errno, eintr, Result, error, returned, active_range,
}
use tud_crash_tolerant_proxy.Atomic.Laws.{IsSound, range_at-IsValid}
use tud_crash_tolerant_proxy.Atomic.Send.{Sendmmsg, failed, sent, Sent, atomic_send, Allowed}
use tud_crash_tolerant_proxy.Atomic.Send.Crash.{owed}
use tud_crash_tolerant_proxy.Atomic.Send.Call.{
  Sends, atomic_send-Sends, IsIdle, Asked, refused, moved, atomic_send_asked,
}
use tud_crash_tolerant_proxy.Worker.Io.{
  left, Looped, before, after_send, send_loop, is_positive_int,
}

-- Each call of the kernel sends no more than it is given.
unfoldable pub AllAllowed : List Sendmmsg → AtomicRingBuffer → Type 0
AllAllowed [] b = Unit {0}
AllAllowed (k ∷ ks) b = Allowed k b × AllAllowed ks (atomic_send k b).mem

pub record Flushed (b : AtomicRingBuffer) (l : Looped) : Type 0 where
  pub sound : IsSound l.mem
  pub conserved : l.bytes ++ owed l.mem ≡ owed b

-- A round that is followed by the rest, or not.
after-Flushed :
    (r : Result) (b : AtomicRingBuffer) (s : Sent) (rest : Looped)
    → Sends b s
    → Flushed s.mem rest
    → Flushed b (after_send r s.mem s.bytes rest)
unfolding after_send
after-Flushed (error eintr) b s rest k f = record { sound = k.sound; conserved = k.conserved }
after-Flushed (error Errno.eagain) b s rest k f = record {
  sound = k.sound;
  conserved = k.conserved;
}
after-Flushed (error Errno.epipe) b s rest k f = record { sound = k.sound; conserved = k.conserved }
after-Flushed (error Errno.eoverflow) b s rest k f = record {
  sound = k.sound;
  conserved = k.conserved;
}
after-Flushed (error Errno.enotconn) b s rest k f = record {
  sound = k.sound;
  conserved = k.conserved;
}
after-Flushed (error Errno.eexist) b s rest k f = record {
  sound = k.sound;
  conserved = k.conserved;
}
after-Flushed (error Errno.ebadf) b s rest k f = record { sound = k.sound; conserved = k.conserved }
after-Flushed (error Errno.einval) b s rest k f = record {
  sound = k.sound;
  conserved = k.conserved;
}
after-Flushed (error Errno.erange) b s rest k f = record {
  sound = k.sound;
  conserved = k.conserved;
}
after-Flushed (error Errno.other) b s rest k f = record { sound = k.sound; conserved = k.conserved }
after-Flushed (returned n) b s rest k f = elim (Bool-cases (is_positive_int n)) [
  | inl more ↦ rw more (record {
    sound = f.sound;
    conserved =
        append_assoc s.bytes rest.bytes (owed rest.mem)
        ∙ ap (λ l. s.bytes ++ l) f.conserved
        ∙ k.conserved;
  })
  | inr none_left ↦ rw none_left (record { sound = k.sound; conserved = k.conserved })
]

-- Whatever earlier calls left to be completed, and however the loop ends: the bytes that it sends and
-- those that are owed afterwards are, in order, those that were owed before it, where no call of the
-- kernel sends more than it is given.
pub send_loop-Flushed :
    (rc : Result) (ks : List Sendmmsg) (b : AtomicRingBuffer)
    → IsSound b
    → AllAllowed ks b
    → Flushed b (send_loop rc ks b)
unfolding send_loop AllAllowed
send_loop-Flushed rc [] b v h = record { sound = v; conserved = refl }
send_loop-Flushed rc (k ∷ ks) b v h =
    let s = atomic_send-Sends k b v h.0 in
    let f = send_loop-Flushed (atomic_send k b).result ks (atomic_send k b).mem s.sound h.1 in
    elim (Bool-cases ((active_range b).len == 0)) [
      | inl drained ↦ rw drained (record { sound = v; conserved = refl })
      | inr more ↦ rw more (after-Flushed (atomic_send k b).result b (atomic_send k b) _ s f)
    ]

-- Each call that the kernel does not refuse sends something, and none is interrupted.
unfoldable pub IsBrisk : List Sendmmsg → Type 0
IsBrisk [] = Unit {0}
IsBrisk (failed e ∷ ks) = (e ≢ eintr) × IsBrisk ks
IsBrisk (sent n ∷ ks) = (0 < n) × IsBrisk ks

-- The buffer is empty, or the kernel has refused.
pub data Settled (l : Looped) : Type 0 where
  drained : (n : ℕ) → l.ending ≡ left (returned n) → (active_range l.mem).len ≡ 0 → Settled l
  refused_with : (e : Errno) → l.ending ≡ left (error e) → e ≢ eintr → Settled l

after_refusal :
    (e : Errno) (b : AtomicRingBuffer) (bytes : List ℕ) (rest : Looped)
    → e ≢ eintr
    → Settled (after_send (error e) b bytes rest)
unfolding after_send
after_refusal eintr b bytes rest h = absurd (h refl)
after_refusal Errno.eagain b bytes rest h = refused_with _ refl h
after_refusal Errno.epipe b bytes rest h = refused_with _ refl h
after_refusal Errno.eoverflow b bytes rest h = refused_with _ refl h
after_refusal Errno.enotconn b bytes rest h = refused_with _ refl h
after_refusal Errno.eexist b bytes rest h = refused_with _ refl h
after_refusal Errno.ebadf b bytes rest h = refused_with _ refl h
after_refusal Errno.einval b bytes rest h = refused_with _ refl h
after_refusal Errno.erange b bytes rest h = refused_with _ refl h
after_refusal Errno.other b bytes rest h = refused_with _ refl h

before-Settled : (bytes : List ℕ) (l : Looped) → Settled l → Settled (before bytes l)
before-Settled bytes l (drained n e z) = drained n e z
before-Settled bytes l (refused_with e r h) = refused_with e r h

after_move :
    (n : ℕ) (b : AtomicRingBuffer) (bytes : List ℕ) (rest : Looped)
    → 0 < n
    → n < 2 ^ 31
    → Settled rest
    → Settled (after_send (returned n) b bytes rest)
unfolding after_send
after_move n b bytes rest h small s =
    let goes : is_positive_int n ≡ true = ground (arith, h, small) in
    rw goes (before-Settled bytes rest s)

ltrim_shorter :
    (b : AtomicRingBuffer) (n : ℕ)
    → 0 < n
    → 0 < (active_range b).len
    → (active_range b).len ≤ ring_buffer_size
    → (ring_buffer_ltrim (active_range b) n).len < (active_range b).len
unfolding ring_buffer_ltrim
ltrim_shorter b n h p v = ground (arith, h, p, v)

-- One round of the loop, as the kernel answers it.
round :
    {k : Sendmmsg} {s : Sent} (ks : List Sendmmsg) (b : AtomicRingBuffer) (rest : Looped)
    → Asked b k s
    → IsSound b
    → 0 < (active_range b).len
    → Allowed k b
    → IsBrisk (k ∷ ks)
    → ((active_range s.mem).len < (active_range b).len
        → IsIdle (phase s.mem.state) s.mem
        → IsBrisk ks
        → (m : ℕ) → s.result ≡ returned m
        → Settled rest)
    → Settled (after_send s.result s.mem s.bytes rest)
unfolding Allowed IsBrisk
round ks b rest (refused e s r i) v p h brisk go =
    subst (λ x. Settled (after_send x s.mem s.bytes rest)) (sym r)
      (after_refusal e s.mem s.bytes rest brisk.0)
round ks b rest (moved n s r i a) v p h brisk go =
    let within : (active_range b).len ≤ ring_buffer_size =
      omega (arith, range_at-IsValid b b.active v) in
    subst (λ x. Settled (after_send x s.mem s.bytes rest)) (sym r)
      (after_move n s.mem s.bytes rest brisk.0 (omega (arith, h, within))
        (go (omega (arith, ap (λ x. x.len) a, ltrim_shorter b n brisk.0 p within)) i brisk.1 n r))

settle :
    (rc : Result) (n : ℕ) (ks : List Sendmmsg) (b : AtomicRingBuffer)
    → rc ≡ returned n
    → IsSound b
    → IsIdle (phase b.state) b
    → AllAllowed ks b
    → IsBrisk ks
    → (active_range b).len < length ks
    → Settled (send_loop rc ks b)
unfolding send_loop AllAllowed
settle rc n [] b e v i h brisk enough = absurd (omega (arith, enough))
settle rc n (k ∷ ks) b e v i h brisk enough = elim (Bool-cases ((active_range b).len == 0)) [
  | inl empty ↦ rw empty (drained n (ap left e) (ground (arith, empty)))
  | inr more ↦
      let p : 0 < (active_range b).len = ground (arith, more) in
      rw more (
        round ks b _ (atomic_send_asked k b i p) v p h.0 brisk (λ shorter idle brisk' m r.
          settle (atomic_send k b).result m ks (atomic_send k b).mem r
            (atomic_send-Sends k b v h.0).sound idle h.1 brisk' (omega (arith, shorter, enough))))
]

-- Where no earlier call was interrupted and the kernel, in more calls than there are bytes, takes at
-- least one byte, and no more than it is given, or refuses for another reason than a signal: the loop
-- comes to its end with no failed assertion, and it has emptied the buffer or stopped at what the
-- kernel refused.
pub send_loop-Settled :
    (n : ℕ) (ks : List Sendmmsg) (b : AtomicRingBuffer)
    → IsSound b
    → IsIdle (phase b.state) b
    → AllAllowed ks b
    → IsBrisk ks
    → (active_range b).len < length ks
    → Settled (send_loop (returned n) ks b)
send_loop-Settled n ks b = settle (returned n) n ks b refl
