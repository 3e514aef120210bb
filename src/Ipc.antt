-- ===== src/Ipc.antt =====
-- common/ipc.c: the datagrams between the listener and the workers. The text "${action} slot=${slot}"
-- with a terminating NUL, and an optional tail, may come with a file descriptor. What snprintf(3)
-- prints for a number and what sscanf(3) scans are arguments.
pub mod Format
pub mod RoundTrip
pub mod Runs
mod Tests
use tud_crash_tolerant_proxy.Prelude.{
  ℕ, zero, suc, ◌+◌, Bool, true, false, ◌&&◌, Option, none, some, List, [], ◌∷◌, ◌++◌, length,
  get_or, take, drop, leb, ◌==◌, if◌then◌else◌, sub_size,
}
use tud_crash_tolerant_proxy.Atomic.{Errno, eagain}
use tud_crash_tolerant_proxy.Http.Headers.{bytes}

-- `IPC_MAXSIZE`
abbrev pub ipc_maxsize : ℕ
ipc_maxsize = 511

-- `"%s slot=%zu"`, as it is printed
abbrev pub format_head : (ℕ → List ℕ) → List ℕ → ℕ → List ℕ
format_head decimal action slot = action ++ (bytes " slot=" ++ decimal slot)

-- The rest of `ipc_send`, behind the head: `none` for EOVERFLOW.
unfoldable pub append_tail : List ℕ → Option (List ℕ) → Option (List ℕ)
append_tail head none = some (head ++ (0 ∷ []))
append_tail head (some tail) =
    if leb (sub_size ipc_maxsize (length head + 1)) (length tail)
    then none
    else some (head ++ ((32 ∷ tail) ++ (0 ∷ [])))

-- The bytes that `ipc_send` gives to sendmsg(2).
unfoldable pub ipc_send : (ℕ → List ℕ) → List ℕ → ℕ → Option (List ℕ) → Option (List ℕ)
unfolding append_tail
ipc_send decimal action slot tail =
    let head = format_head decimal action slot in
    if leb ipc_maxsize (length head) then none else append_tail head tail

-- What sscanf(3) returns and stores for the format "%*s%zn slot=%zu%zn"; `none` for what it does not
-- store.
pub record Scanned : Type 0 where
  pub num_scanned : ℕ
  pub action_len : Option ℕ
  pub slot : ℕ
  pub consumed : Option ℕ

-- What a method is called with.
pub record Call : Type 0 where
  pub action : List ℕ
  pub slot : ℕ
  pub fd : Option ℕ
  pub tail : Option (List ℕ)

-- A datagram, with the file descriptors that came with it.
pub record Datagram : Type 0 where
  pub text : List ℕ
  pub fds : List ℕ

-- What recvmsg(2) answers.
pub data Recvmsg : Type 0 where
  failed : Errno → Recvmsg
  got : Datagram → Recvmsg

-- The file descriptor that is used, and those that are closed.
unfoldable pub extract_one_fd : List ℕ → Option ℕ × List ℕ
extract_one_fd [] = (none, [])
extract_one_fd (fd ∷ fds) = (some fd, fds)

-- the string up to its NUL
unfoldable pub c_string : List ℕ → List ℕ
c_string [] = []
c_string (x ∷ xs) = if x == 0 then [] else x ∷ c_string xs

-- `strcmp(...) == 0`
unfoldable pub same_text : List ℕ → List ℕ → Bool
same_text [] [] = true
same_text [] (y ∷ ys) = false
same_text (x ∷ xs) [] = false
same_text (x ∷ xs) (y ∷ ys) = (x == y) && same_text xs ys

-- `tail`, at the first byte that was not consumed
unfoldable pub tail_of : List ℕ → Option (List ℕ)
tail_of [] = none
tail_of (x ∷ xs) = if x == 32 then some xs else none

-- What is to be done about a datagram.
pub data Incoming : Type 0 where
  ignored invalid : Incoming
  calls : Call → Incoming

call_parsed : List ℕ → ℕ → Option ℕ → Option ℕ → Option ℕ → Incoming
unfolding tail_of
call_parsed text slot fd none consumed = invalid
call_parsed text slot fd (some n) none = invalid
call_parsed text slot fd (some n) (some k) =
    calls (record { action = take n text; slot = slot; fd = fd; tail = tail_of (drop k text) })

-- "Parse message."
unfoldable pub parse_message : (List ℕ → Scanned) → Option ℕ → List ℕ → Incoming
unfolding call_parsed c_string
parse_message sscanf fd datagram =
    let text = c_string datagram in
    if (sscanf text).num_scanned == 0
    then ignored
    else call_parsed text (sscanf text).slot fd (sscanf text).action_len (sscanf text).consumed

-- A method changes what `ctx` points to, and returns 0, as `none`, or another number.
abbrev pub Method : Type 0 → Type 0
Method S = Call → S → S × Option ℕ

-- The end of `ipc_process_incoming`: 0, -1, or what a method returned.
pub data Processed : Type 0 where
  all_done ipc_error : Processed
  stopped : ℕ → Processed

pub record Handled (S : Type 0) : Type 0 where
  pub ctx : S
  pub closed : List ℕ
  pub result : Processed

unfoldable pub fd_list : Option ℕ → List ℕ
fd_list none = []
fd_list (some fd) = fd ∷ []

is_eagain : Errno → Bool
is_eagain eagain = true
is_eagain _ = false

module _ {S : Type 0} where
  -- The loop over the methods; the last entry of the array is the fallback, which may be NULL.
  unfoldable pub find_method :
      List (List ℕ × Option (Method S)) → Option (Method S) → List ℕ → Option (Method S)
  unfolding same_text
  find_method [] fallback action = fallback
  find_method ((name, m) ∷ ms) fallback action =
      if same_text name action then m else find_method ms fallback action

  unfoldable pub also_closed : List ℕ → Handled S → Handled S
  also_closed fds h = record h { closed = fds ++ h.closed }

  -- After the method has returned.
  unfoldable pub after_method : S × Option ℕ → (S → Handled S) → Handled S
  after_method (s, none) next = next s
  after_method (s, some rc) next = record { ctx = s; closed = []; result = stopped rc }

  -- A message without a method is ignored, and its file descriptor closed in the next round.
  unfoldable pub call_method : Option (Method S) → Call → S → (S → Handled S) → Handled S
  unfolding also_closed fd_list after_method
  call_method none c s next = also_closed (fd_list c.fd) (next s)
  call_method (some m) c s next = after_method (m c s) next

  handle_incoming :
      List (List ℕ × Option (Method S))
      → Option (Method S)
      → Option ℕ
      → Incoming
      → S
      → (S → Handled S)
      → Handled S
  unfolding call_method find_method
  handle_incoming methods fallback fd ignored s next = also_closed (fd_list fd) (next s)
  handle_incoming methods fallback fd invalid s next = record {
    ctx = s;
    closed = [];
    result = ipc_error;
  }
  handle_incoming methods fallback fd (calls c) s next =
      call_method (find_method methods fallback c.action) c s next

  -- The loop, over what recvmsg(2) answers; behind these answers it would block. The file descriptors
  -- of a message that may be truncated are not looked at.
  unfoldable pub ipc_process_incoming :
      (List ℕ → Scanned)
      → List (List ℕ × Option (Method S))
      → Option (Method S)
      → List Recvmsg
      → S
      → Handled S
  unfolding handle_incoming is_eagain parse_message extract_one_fd
  ipc_process_incoming sscanf methods fallback [] s = record {
    ctx = s;
    closed = [];
    result = all_done;
  }
  ipc_process_incoming sscanf methods fallback (failed e ∷ rs) s = record {
    ctx = s;
    closed = [];
    result = if is_eagain e then all_done else ipc_error;
  }
  ipc_process_incoming sscanf methods fallback (got d ∷ rs) s =
      let (fd, others) = extract_one_fd d.fds in
      if length d.text == 0
      then record { ctx = s; closed = []; result = ipc_error }
      else if leb (ipc_maxsize + 1) (length d.text)
      then ipc_process_incoming sscanf methods fallback rs s
      else also_closed others (
          handle_incoming methods fallback fd (parse_message sscanf fd d.text) s
            (λ t. ipc_process_incoming sscanf methods fallback rs t))
