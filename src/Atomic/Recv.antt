-- ===== src/Atomic/Recv.antt =====
-- `atomic_recv`, as one function and as the steps between which the process may die.
pub mod Held
pub mod Stores
pub mod Crash
pub mod Call
pub mod Idle
use tud_crash_tolerant_proxy.Prelude.{
  ℕ, Bool, not, List, [], ◌++◌, ◌==◌, leb, if◌then◌else◌, bit_set, length, get_or, ◌≤◌, ◌-◌, ◌≡◌,
}
use tud_crash_tolerant_proxy.Ring.{Buffer, ring_buffer_size, iovec_around}
use tud_crash_tolerant_proxy.Ring.Offsets.{Wrote}
use tud_crash_tolerant_proxy.Atomic.{
  AtomicRingBuffer, Phase, init, do_syscall, swap, phase, Errno, eoverflow, Result, error, returned,
  no_result, atomic_init, atomic_do_syscall, encode_swap, active_range, store_prepare, store_state,
  store_active, store_flip, store_extend, store_rewind,
}

-- What `recvmmsg(2)` does: it fails, or it puts bytes into the buffer through the iovecs.
pub data Recvmmsg : Type 0 where
  failed : Errno → Recvmmsg
  got : List ℕ → Buffer → Recvmmsg

-- What a call leaves: the buffer, the bytes taken from the kernel, and the result.
pub record Received : Type 0 where
  pub mem : AtomicRingBuffer
  pub bytes : List ℕ
  pub result : Result

-- `case ATOMIC_SWAP`
unfoldable pub recv_swap : ℕ → AtomicRingBuffer → AtomicRingBuffer
recv_swap state b =
    store_state atomic_init (store_flip (store_extend (store_active (not (bit_set state 7)) b)))

-- from the test for end of file on
unfoldable pub recv_encode : List ℕ → AtomicRingBuffer → Received
unfolding recv_swap
recv_encode bytes b =
    if b.msg_len == 0
    then record { mem = store_state atomic_init b; bytes = bytes; result = returned 0 }
    else record {
      mem = recv_swap (encode_swap (not b.active)) (store_state (encode_swap (not b.active)) b);
      bytes = bytes;
      result = returned b.msg_len;
    }

unfoldable pub recv_syscall_result : Recvmmsg → AtomicRingBuffer → Received
recv_syscall_result (failed e) b = record { mem = b; bytes = []; result = error e }
recv_syscall_result (got xs buf) b = recv_encode xs (record b { msg_len = length xs; buf = buf })

-- `case ATOMIC_DO_SYSCALL`
unfoldable pub recv_syscall : Recvmmsg → AtomicRingBuffer → Received
unfolding recv_syscall_result
recv_syscall rc b =
    if b.msg_len == no_result then recv_syscall_result rc (store_rewind b) else recv_encode [] b

-- `case ATOMIC_INIT`
unfoldable pub recv_init : Recvmmsg → AtomicRingBuffer → Received
recv_init rc b =
    if leb ring_buffer_size (active_range b).len
    then record { mem = b; bytes = []; result = error eoverflow }
    else recv_syscall rc (store_state atomic_do_syscall (store_prepare b))

unfoldable pub recv_phase : Phase → Recvmmsg → AtomicRingBuffer → Received
unfolding recv_swap
recv_phase init rc b = recv_init rc b
recv_phase do_syscall rc b = recv_syscall rc b
recv_phase (swap a) rc b = record {
  mem = recv_swap b.state b;
  bytes = [];
  result = returned b.msg_len;
}

-- The whole call; `rc` is what the kernel does if it is asked.
unfoldable pub atomic_recv : Recvmmsg → AtomicRingBuffer → Received
unfolding recv_phase
atomic_recv rc b = recv_phase (phase b.state) rc b

-- Where the function stands: each step makes one store, or one system call.
pub data Pc : Type 0 where
  entry prepare announce syscall receive check encode extend flip reset : Pc
  activate : ℕ → Pc
  finished : Result → Pc

pub record Machine : Type 0 where
  pub pc : Pc
  pub mem : AtomicRingBuffer
  -- all bytes taken from the kernel so far
  pub wire : List ℕ

-- One step: the next point, the memory after its store, and the bytes taken.
pub record Next : Type 0 where
  pub pc : Pc
  pub mem : AtomicRingBuffer
  pub bytes : List ℕ

abbrev pub goes : Pc → AtomicRingBuffer → Next
goes pc b = record { pc = pc; mem = b; bytes = [] }

unfoldable pub start_phase : Phase → AtomicRingBuffer → Next
start_phase init b =
    if leb ring_buffer_size (active_range b).len
    then goes (finished (error eoverflow)) b
    else goes prepare b
start_phase do_syscall b = goes syscall b
start_phase (swap a) b = goes (activate b.state) b

unfoldable pub ask_kernel : Recvmmsg → AtomicRingBuffer → Next
ask_kernel (failed e) b = goes (finished (error e)) b
ask_kernel (got xs buf) b = record {
  pc = check;
  mem = record b { msg_len = length xs; buf = buf };
  bytes = xs;
}

unfoldable pub recv_step : Recvmmsg → Pc → AtomicRingBuffer → Next
unfolding start_phase ask_kernel
recv_step rc entry b = start_phase (phase b.state) b
recv_step rc prepare b = goes announce (store_prepare b)
recv_step rc announce b = goes syscall (store_state atomic_do_syscall b)
recv_step rc syscall b =
    if b.msg_len == no_result then goes receive (store_rewind b) else goes check b
recv_step rc receive b = ask_kernel rc b
recv_step rc check b =
    if b.msg_len == 0
    then goes (finished (returned 0)) (store_state atomic_init b)
    else goes encode b
recv_step rc encode b =
    goes (activate (encode_swap (not b.active))) (store_state (encode_swap (not b.active)) b)
recv_step rc (activate state) b = goes extend (store_active (not (bit_set state 7)) b)
recv_step rc extend b = goes flip (store_extend b)
recv_step rc flip b = goes reset (store_flip b)
recv_step rc reset b = goes (finished (returned b.msg_len)) (store_state atomic_init b)
recv_step rc (finished r) b = goes (finished r) b

-- `recvmmsg(2)` fills the iovecs in order, and writes nothing else.
unfoldable pub Allowed : Recvmmsg → AtomicRingBuffer → Type 0
Allowed (failed e) b = Unit {0}
Allowed (got xs buf) b =
    (length xs ≤ ring_buffer_size - (active_range b).len)
    × Wrote b.buf (iovec_around (active_range b)) (λ k. get_or xs k 0) (length xs) buf

-- A step of the function, where a system call keeps to `Allowed`; or the process dies, and the next
-- one calls the function again with what the shared memory holds.
pub data Step (m : Machine) : Machine → Type 0 where
  runs :
      (rc : Recvmmsg)
      → (m.pc ≡ receive → Allowed rc m.mem)
      → Step m (record {
        pc = (recv_step rc m.pc m.mem).pc;
        mem = (recv_step rc m.pc m.mem).mem;
        wire = m.wire ++ (recv_step rc m.pc m.mem).bytes;
      })
  crash : Step m (record m { pc = entry })

pub data Reach (m : Machine) : Machine → Type 0 where
  here : Reach m m
  later : {n k : Machine} → Reach m n → Step n k → Reach m k
