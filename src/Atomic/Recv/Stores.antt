-- ===== src/Atomic/Recv/Stores.antt =====
-- Each store of `atomic_recv` keeps what the buffer holds.
use tud_crash_tolerant_proxy.Prelude.{
  ◌+◌, ◌≤◌, ◌≡◌, ◌≢◌, refl, ap, sym, ◌∙◌, not, [], ◌++◌, leb, append-nil, arith, Bool-cases, inl,
  inr, subst, length, get_or, tabulate-get_or,
}
use tud_crash_tolerant_proxy.Ring.{
  RingBufferRange, ring_buffer_size, contents, rewind_empty, iovec_around,
}
use tud_crash_tolerant_proxy.Ring.Offsets.{Wrote, rewind_empty-IsValid}
use tud_crash_tolerant_proxy.Ring.Contents.{contents-Wrote, contents-rewind_empty}
use tud_crash_tolerant_proxy.Atomic.{
  AtomicRingBuffer, Phase, init, do_syscall, swap, phase, returned, no_result, encode_swap,
  active_range, range_at, store_state, store_flip, store_extend, store_rewind, atomic_init,
}
use tud_crash_tolerant_proxy.Atomic.Laws.{
  IsSound, phase-encode_swap, bit_set-encode_swap, not-not, bit_set_of_swap,
  range_at-set_range_self, range_at-set_range-not, set_range-IsSound, range_at-IsValid,
}
use tud_crash_tolerant_proxy.Atomic.Recv.{
  Recvmmsg, failed, got, receive, flip, reset, activate, finished, Allowed, start_phase, ask_kernel,
}
use tud_crash_tolerant_proxy.Atomic.Recv.Held.{
  extended, in_buffer, held, Room, Where, Keeps, quiet, Room-of, Room-in, in_buffer_fresh,
  in_buffer_done,
}

pub start-Keeps :
    (p : Phase) (b : AtomicRingBuffer)
    → phase b.state ≡ p
    → IsSound b
    → Room (phase b.state) b
    → Keeps b (start_phase p b)
unfolding start_phase Where
start-Keeps init b e v r = elim (Bool-cases (leb ring_buffer_size (active_range b).len)) [
  | inl full ↦
      rw full (record { sound = v; room = r; place = tt; conserved = sym (append-nil (held b)) })
  | inr free ↦
      rw free (record { sound = v; room = r; place = e; conserved = sym (append-nil (held b)) })
]
start-Keeps do_syscall b e v r = record {
  sound = v;
  room = r;
  place = e;
  conserved = sym (append-nil (held b));
}
start-Keeps (swap a) b e v r = record {
  sound = v;
  room = r;
  place = bit_set_of_swap b.state a e;
  conserved = sym (append-nil (held b));
}

pub kernel-Keeps :
    (rc : Recvmmsg) (b : AtomicRingBuffer)
    → IsSound b
    → Room (phase b.state) b
    → Where receive b
    → Allowed rc b
    → Keeps b (ask_kernel rc b)
unfolding ask_kernel Where Allowed Room
kernel-Keeps (failed e) b v r w h = record {
  sound = v;
  room = r;
  place = tt;
  conserved = sym (append-nil (held b));
}
kernel-Keeps (got xs buf) b v r (p, m, rewound) (fits, wrote) = record {
  sound = v;
  room =
      Room-of (record b { msg_len = length xs; buf = buf }) do_syscall p
        (λ n. omega (arith, range_at-IsValid b b.active v));
  place = (p, omega (arith, range_at-IsValid b b.active v));
  conserved =
      ap (λ k. in_buffer k (record b { msg_len = length xs; buf = buf })) p
      ∙ in_buffer_done (record b { msg_len = length xs; buf = buf })
          (omega (arith, range_at-IsValid b b.active v))
      ∙ ap (λ r. contents buf (record r { len = (active_range b).len + length xs })) (sym rewound)
      ∙ contents-Wrote b.buf (range_at-IsValid b b.active v) buf (λ k. get_or xs k 0) (length xs)
          fits
          (subst (λ r. Wrote b.buf (iovec_around r) (λ k. get_or xs k 0) (length xs) buf)
            (sym rewound) wrote)
      ∙ ap (λ l. contents b.buf (active_range b) ++ l) (tabulate-get_or xs 0)
      ∙ ap (λ l. l ++ xs) (sym (in_buffer_fresh b m) ∙ sym (ap (λ k. in_buffer k b) p));
}

pub rewind_empty-rewind_empty :
    (r : RingBufferRange) → rewind_empty (rewind_empty r) ≡ rewind_empty r
unfolding rewind_empty
rewind_empty-rewind_empty r = ground arith

pub rewind-Keeps :
    (b : AtomicRingBuffer)
    → IsSound b
    → phase b.state ≡ do_syscall
    → b.msg_len ≡ no_result
    → Keeps b (record { pc = receive; mem = store_rewind b; bytes = [] })
unfolding Where store_rewind Room
rewind-Keeps b v w m = record {
  sound = set_range-IsSound b b.active _ v (rewind_empty-IsValid (range_at-IsValid b b.active v));
  room = Room-of (store_rewind b) do_syscall w (λ n. absurd (n m));
  place = (w, m, ap rewind_empty self ∙ rewind_empty-rewind_empty (active_range b) ∙ sym self);
  conserved = quiet b (store_rewind b) do_syscall do_syscall w w (
      in_buffer_fresh (store_rewind b) m
      ∙ ap (contents b.buf) self
      ∙ contents-rewind_empty b.buf (range_at-IsValid b b.active v)
      ∙ sym (in_buffer_fresh b m));
}
  where
    self : active_range (store_rewind b) ≡ rewind_empty (active_range b)
    self = range_at-set_range_self b b.active (rewind_empty (active_range b))

pub end_of_file-Keeps :
    (b : AtomicRingBuffer)
    → IsSound b
    → phase b.state ≡ do_syscall
    → b.msg_len ≢ no_result
    → b.msg_len ≡ 0
    → Keeps b (record { pc = finished (returned 0); mem = store_state atomic_init b; bytes = [] })
unfolding Where phase Room in_buffer
end_of_file-Keeps b v w n z = record {
  sound = v;
  room = tt;
  place = tt;
  conserved = quiet b (store_state atomic_init b) do_syscall init w refl (
      ap (λ l. contents b.buf (record (active_range b) { len = l })) (omega arith)
      ∙ sym (in_buffer_done b n));
}

pub encode-Keeps :
    (b : AtomicRingBuffer)
    → IsSound b
    → Room (phase b.state) b
    → phase b.state ≡ do_syscall
    → b.msg_len ≢ no_result
    → Keeps b (record {
      pc = activate (encode_swap (not b.active));
      mem = store_state (encode_swap (not b.active)) b;
      bytes = [];
    })
unfolding Where Room in_buffer
encode-Keeps b v r w n = record {
  sound = v;
  room = Room-of c (swap (not b.active)) coded (
      subst (λ i. (range_at b i).len + b.msg_len ≤ ring_buffer_size) (sym (not-not b.active))
        (Room-in b do_syscall w r n));
  place = coded ∙ ap swap (sym (bit_set-encode_swap (not b.active)));
  conserved = quiet b c do_syscall (swap (not b.active)) w coded (
      ap (λ i. contents b.buf (extended (range_at b i) b.msg_len)) (not-not b.active)
      ∙ sym (in_buffer_done b n));
}
  where
    c : AtomicRingBuffer
    c = store_state (encode_swap (not b.active)) b

    coded : phase (encode_swap (not b.active)) ≡ swap (not b.active)
    coded = phase-encode_swap (not b.active)

pub extend-Keeps :
    (b : AtomicRingBuffer)
    → IsSound b
    → Room (phase b.state) b
    → phase b.state ≡ swap (not b.active)
    → Keeps b (record { pc = flip; mem = store_extend b; bytes = [] })
unfolding Where Room in_buffer store_extend
extend-Keeps b v r w = record {
  sound =
      set_range-IsSound b (not b.active) _ v (omega (arith, range_at-IsValid b b.active v, fits));
  room = Room-of (store_extend b) (swap (not b.active)) w (
      subst (λ i. (range_at (store_extend b) i).len + b.msg_len ≤ ring_buffer_size)
        (sym (not-not b.active))
        (subst (λ x. x.len + b.msg_len ≤ ring_buffer_size) (sym other) fits));
  place = (
    w,
    range_at-set_range_self b (not b.active) _
        ∙ ap (λ l. record (active_range b) { len = l }) (omega (arith, fits))
        ∙ ap (λ x. extended x b.msg_len) (sym other),
  );
  conserved = quiet b (store_extend b) (swap (not b.active)) (swap (not b.active)) w w (
      ap (λ x. contents b.buf (extended x b.msg_len))
        (ap (range_at (store_extend b)) (not-not b.active)
          ∙ other
          ∙ sym (ap (range_at b) (not-not b.active))));
}
  where
    other : active_range (store_extend b) ≡ active_range b
    other = range_at-set_range-not b b.active _

    fits : (active_range b).len + b.msg_len ≤ ring_buffer_size
    fits =
        subst (λ i. (range_at b i).len + b.msg_len ≤ ring_buffer_size) (not-not b.active)
          (Room-in b (swap (not b.active)) w r)

pub flip-Keeps :
    (b : AtomicRingBuffer)
    → IsSound b
    → Room (phase b.state) b
    → Where flip b
    → Keeps b (record { pc = reset; mem = store_flip b; bytes = [] })
unfolding Where Room in_buffer
flip-Keeps b v r w = record {
  sound = v;
  room = Room-of (store_flip b) (swap (not b.active)) w.0 (Room-in b (swap (not b.active)) w.0 r);
  place = (w.0, w.1 ∙ ap (λ i. extended (range_at b i) b.msg_len) (sym (not-not b.active)));
  conserved = quiet b (store_flip b) (swap (not b.active)) (swap (not b.active)) w.0 w.0 refl;
}
