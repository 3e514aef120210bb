-- ===== src/Atomic/Recv/Crash.antt =====
-- No byte is lost or taken in twice by `atomic_recv`, wherever the process dies.
use tud_crash_tolerant_proxy.Prelude.{
  ℕ, ◌≡◌, refl, ap, sym, ◌∙◌, not, List, [], ◌++◌, ◌==◌, bit_set, append_assoc, append-nil, arith,
  Bool-cases, inl, inr, subst,
}
use tud_crash_tolerant_proxy.Ring.{contents}
use tud_crash_tolerant_proxy.Atomic.{
  AtomicRingBuffer, init, do_syscall, swap, phase, no_result, store_prepare, store_state,
  store_active, atomic_init, atomic_do_syscall,
}
use tud_crash_tolerant_proxy.Atomic.Laws.{IsSound, not-not}
use tud_crash_tolerant_proxy.Atomic.Recv.{
  Recvmmsg, Pc, entry, prepare, announce, syscall, receive, check, encode, extend, flip, reset,
  activate, finished, Machine, recv_step, Allowed, Step, runs, crash, Reach, here, later,
}
use tud_crash_tolerant_proxy.Atomic.Recv.Held.{
  in_buffer, held, Room, Where, Keeps, quiet, Room-of, Room-in, in_buffer_fresh,
}
use tud_crash_tolerant_proxy.Atomic.Recv.Stores.{
  start-Keeps, kernel-Keeps, rewind-Keeps, end_of_file-Keeps, encode-Keeps, extend-Keeps,
  flip-Keeps,
}

pub step-Keeps :
    (rc : Recvmmsg) (pc : Pc) (b : AtomicRingBuffer)
    → IsSound b
    → Room (phase b.state) b
    → Where pc b
    → (pc ≡ receive → Allowed rc b)
    → Keeps b (recv_step rc pc b)
unfolding recv_step Where Room in_buffer phase
step-Keeps rc entry b v r w h = start-Keeps (phase b.state) b refl v r
step-Keeps rc prepare b v r w h = record {
  sound = v;
  room = Room-of (store_prepare b) init w tt;
  place = (w, refl);
  conserved = quiet b (store_prepare b) init init w w refl;
}
step-Keeps rc announce b v r w h = record {
  sound = v;
  room = λ n. absurd (n w.1);
  place = refl;
  conserved =
      quiet b (store_state atomic_do_syscall b) init do_syscall w.0 refl
        (in_buffer_fresh (store_state atomic_do_syscall b) w.1);
}
step-Keeps rc syscall b v r w h = elim (Bool-cases (b.msg_len == no_result)) [
  | inl fresh ↦ rw fresh (rewind-Keeps b v w (ground arith))
  | inr done ↦ rw done (record {
    sound = v;
    room = r;
    place = (w, ground arith);
    conserved = sym (append-nil (held b));
  })
]
step-Keeps rc receive b v r w h = kernel-Keeps rc b v r w (h refl)
step-Keeps rc check b v r w h = elim (Bool-cases (b.msg_len == 0)) [
  | inl eof ↦ rw eof (end_of_file-Keeps b v w.0 w.1 (ground arith))
  | inr more ↦
      rw more (record { sound = v; room = r; place = w; conserved = sym (append-nil (held b)) })
]
step-Keeps rc encode b v r w h = encode-Keeps b v r w.0 w.1
step-Keeps rc (activate s) b v r w h = record {
  sound = v;
  room =
      Room-of (store_active (not (bit_set s 7)) b) (swap (bit_set s 7)) w
        (Room-in b (swap (bit_set s 7)) w r);
  place = w ∙ ap swap (sym (not-not (bit_set s 7)));
  conserved =
      quiet b (store_active (not (bit_set s 7)) b) (swap (bit_set s 7)) (swap (bit_set s 7)) w w
        refl;
}
step-Keeps rc extend b v r w h = extend-Keeps b v r w
step-Keeps rc flip b v r w h = flip-Keeps b v r w
step-Keeps rc reset b v r w h = record {
  sound = v;
  room = tt;
  place = tt;
  conserved =
      quiet b (store_state atomic_init b) (swap b.active) init w.0 refl (ap (contents b.buf) w.1);
}
step-Keeps rc (finished x) b v r w h = record {
  sound = v;
  room = r;
  place = tt;
  conserved = sym (append-nil (held b));
}

record Holds (start : List ℕ) (m : Machine) : Type 0 where
  sound : IsSound m.mem
  room : Room (phase m.mem.state) m.mem
  place : Where m.pc m.mem
  conserved : held m.mem ≡ start ++ m.wire

Step-Holds : {start : List ℕ} {m n : Machine} → Step m n → Holds start m → Holds start n
unfolding Where
Step-Holds {start} {m} (runs rc h) i =
    let k = step-Keeps rc m.pc m.mem i.sound i.room i.place h in
    record {
      sound = k.sound;
      room = k.room;
      place = k.place;
      conserved =
          k.conserved
          ∙ ap (λ l. l ++ (recv_step rc m.pc m.mem).bytes) i.conserved
          ∙ append_assoc start m.wire (recv_step rc m.pc m.mem).bytes;
    }
Step-Holds crash i = record { sound = i.sound; room = i.room; place = tt; conserved = i.conserved }

Reach-Holds : {start : List ℕ} {m n : Machine} → Holds start m → Reach m n → Holds start n
Reach-Holds h here = h
Reach-Holds h (later r s) = Step-Holds s (Reach-Holds h r)

-- From a call of `atomic_recv` with nothing taken yet, valid ranges and room for what an earlier call
-- may have received, through any steps, crashes and further calls: the buffer holds what it held,
-- followed by the bytes taken from the kernel, in order.
pub recv_exactly_once :
    {m n : Machine}
    → m.pc ≡ entry
    → m.wire ≡ []
    → IsSound m.mem
    → Room (phase m.mem.state) m.mem
    → Reach m n
    → held n.mem ≡ held m.mem ++ n.wire
unfolding Where
recv_exactly_once {m} e empty v room r =
    (Reach-Holds
      (record {
        sound = v;
        room = room;
        place = subst (λ p. Where p m.mem) (sym e) tt;
        conserved = sym (ap (λ l. held m.mem ++ l) empty ∙ append-nil (held m.mem));
      })
      r).conserved
