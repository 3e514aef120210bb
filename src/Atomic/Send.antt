-- ===== src/Atomic/Send.antt =====
-- `atomic_send`, as one function and as the steps between which the process may die.
pub mod Crash
pub mod Call
pub mod Whole
pub mod Stale
use tud_crash_tolerant_proxy.Prelude.{
  ℕ, Bool, not, List, [], ◌==◌, if◌then◌else◌, bit_set, take, ◌≤◌, ◌++◌, zero, suc,
}
use tud_crash_tolerant_proxy.Ring.{set_iovec_used}
use tud_crash_tolerant_proxy.Ring.Contents.{gather}
use tud_crash_tolerant_proxy.Atomic.{
  AtomicRingBuffer, Phase, init, do_syscall, swap, phase, Errno, Result, error, returned, no_result,
  atomic_init, atomic_do_syscall, encode_swap, active_range, store_prepare, store_state,
  store_active, store_flip, store_copy, store_trim,
}

-- What `sendmmsg(2)` does: it fails, or it takes the first `n` bytes of the iovecs.
pub data Sendmmsg : Type 0 where
  failed : Errno → Sendmmsg
  sent : ℕ → Sendmmsg

-- What a call leaves: the buffer, the bytes handed to the kernel, and the result.
pub record Sent : Type 0 where
  pub mem : AtomicRingBuffer
  pub bytes : List ℕ
  pub result : Result

-- `case ATOMIC_SWAP`
unfoldable pub send_swap : ℕ → AtomicRingBuffer → AtomicRingBuffer
send_swap state b =
    store_state atomic_init
      (store_flip (store_trim (store_copy (store_active (bit_set state 7) b))))

-- from the store of `ATOMIC_SWAP` on
unfoldable pub send_encode : List ℕ → AtomicRingBuffer → Sent
unfolding send_swap
send_encode bytes b = record {
  mem = send_swap (encode_swap b.active) (store_state (encode_swap b.active) b);
  bytes = bytes;
  result = returned b.msg_len;
}

unfoldable pub send_syscall_result : Sendmmsg → AtomicRingBuffer → Sent
send_syscall_result (failed e) b = record { mem = b; bytes = []; result = error e }
send_syscall_result (sent n) b =
    send_encode (take n (gather b.buf (set_iovec_used (active_range b)))) (record b { msg_len = n })

-- `case ATOMIC_DO_SYSCALL`
unfoldable pub send_syscall : Sendmmsg → AtomicRingBuffer → Sent
unfolding send_syscall_result
send_syscall rc b = if b.msg_len == no_result then send_syscall_result rc b else send_encode [] b

unfoldable pub send_phase : Phase → Sendmmsg → AtomicRingBuffer → Sent
unfolding send_swap
send_phase init rc b = send_syscall rc (store_state atomic_do_syscall (store_prepare b))
send_phase do_syscall rc b = send_syscall rc b
send_phase (swap a) rc b = record {
  mem = send_swap b.state b;
  bytes = [];
  result = returned b.msg_len;
}

-- The whole call; `rc` is what the kernel does if it is asked.
unfoldable pub atomic_send : Sendmmsg → AtomicRingBuffer → Sent
unfolding send_phase
atomic_send rc b =
    if (active_range b).len == 0
    then record { mem = b; bytes = []; result = returned 0 }
    else send_phase (phase b.state) rc b

-- Where the function stands: each step makes one store, or one system call.
pub data Pc : Type 0 where
  entry prepare announce syscall encode copy trim flip reset : Pc
  activate : ℕ → Pc
  finished : Result → Pc

pub record Machine : Type 0 where
  pub pc : Pc
  pub mem : AtomicRingBuffer
  -- all bytes handed to the kernel so far
  pub wire : List ℕ

-- One step: the next point, the memory after its store, and the bytes sent.
pub record Next : Type 0 where
  pub pc : Pc
  pub mem : AtomicRingBuffer
  pub bytes : List ℕ

abbrev goes : Pc → AtomicRingBuffer → Next
goes pc b = record { pc = pc; mem = b; bytes = [] }

unfoldable pub start_phase : Phase → AtomicRingBuffer → Next
start_phase init b = goes prepare b
start_phase do_syscall b = goes syscall b
start_phase (swap a) b = goes (activate b.state) b

unfoldable pub ask_kernel : Sendmmsg → AtomicRingBuffer → Next
ask_kernel (failed e) b = goes (finished (error e)) b
ask_kernel (sent n) b = record {
  pc = encode;
  mem = record b { msg_len = n };
  bytes = take n (gather b.buf (set_iovec_used (active_range b)));
}

unfoldable pub send_step : Sendmmsg → Pc → AtomicRingBuffer → Next
unfolding start_phase ask_kernel
send_step rc entry b =
    if (active_range b).len == 0
    then goes (finished (returned 0)) b
    else start_phase (phase b.state) b
send_step rc prepare b = goes announce (store_prepare b)
send_step rc announce b = goes syscall (store_state atomic_do_syscall b)
send_step rc syscall b = if b.msg_len == no_result then ask_kernel rc b else goes encode b
send_step rc encode b =
    goes (activate (encode_swap b.active)) (store_state (encode_swap b.active) b)
send_step rc (activate state) b = goes copy (store_active (bit_set state 7) b)
send_step rc copy b = goes trim (store_copy b)
send_step rc trim b = goes flip (store_trim b)
send_step rc flip b = goes reset (store_flip b)
send_step rc reset b = goes (finished (returned b.msg_len)) (store_state atomic_init b)
send_step rc (finished r) b = goes (finished r) b

-- `sendmmsg(2)` sends no more than it is given.
unfoldable pub Allowed : Sendmmsg → AtomicRingBuffer → Type 0
Allowed (failed e) b = Unit {0}
Allowed (sent n) b = n ≤ (active_range b).len

-- A step of the function; or the process dies, and the next one calls the function again with what
-- the shared memory holds.
pub data Step (m : Machine) : Machine → Type 0 where
  runs :
      (rc : Sendmmsg)
      → Allowed rc m.mem
      → Step m (record {
        pc = (send_step rc m.pc m.mem).pc;
        mem = (send_step rc m.pc m.mem).mem;
        wire = m.wire ++ (send_step rc m.pc m.mem).bytes;
      })
  crash : Step m (record m { pc = entry })

pub data Reach (m : Machine) : Machine → Type 0 where
  here : Reach m m
  later : {n k : Machine} → Reach m n → Step n k → Reach m k

-- The machine after `n` steps of a call that is not interrupted.
unfoldable pub send_steps : ℕ → Sendmmsg → Machine → Machine
send_steps zero rc m = m
send_steps (suc n) rc m =
    let s = send_step rc m.pc m.mem in
    send_steps n rc (record { pc = s.pc; mem = s.mem; wire = m.wire ++ s.bytes })
