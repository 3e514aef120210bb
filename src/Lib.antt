-- ===== src/Lib.antt =====
-- A crash-tolerant TCP and HTTP proxy: a listener process accepts connections and keeps them in
-- shared memory, and worker processes move the bytes. A worker may die between any two stores; the
-- next one goes on with what the shared memory holds.
--
-- Ring (worker/atomic_send_recv.h and .c): a range of a ring buffer is the record `RingBufferRange`,
--   a buffer the function from an offset to its byte. `set_iovec_used`, `set_iovec_unused`
--   (`iovec_around` after `rewind_empty`), `ring_buffer_append`, `ring_buffer_ltrim` and
--   `ring_buffer_move` are the functions of these names. The loop of `ring_buffer_move` runs on fuel
--   5: every round but the last uses up one of at most four iovecs. Ring/Offsets and Ring/Move
--   follow the bytes through the iovecs, Ring/Contents and Ring/Transfer read a range as a queue of
--   bytes.
-- Atomic (the same files): `AtomicRingBuffer` is `struct atomic_ring_buffer` in the build without
--   PERFORMANCE_BASELINE, of whose `struct mmsghdr` only `msg_len` is kept. Atomic/Send and
--   Atomic/Recv have `atomic_send` and `atomic_recv` as one function each, and again as a machine
--   that makes one store or one system call in a step, and that may die before each step; the store
--   of a whole range is one step, since it is done again from the active range. A machine that died
--   starts the function again on the same memory. What the kernel does is an argument; it may be any
--   behaviour that sendmmsg(2) or recvmmsg(2) allow, which includes that the kernel stores `msg_len`
--   together with the transfer.
-- Http (worker/transform.c): Http/Headers has `strip_headers` and `replace_header` on lists of
--   headers, Http/Looks the tests whether bytes may begin a message, Http/Serialize
--   `serialize_http`, with the line that vsnprintf formats as an argument. Http/Parse has the loop
--   that reallocates the headers, on fuel of one more than the bytes there are, and
--   `eval_parse_result`; the parsers of picohttpparser are arguments.
-- Transform (worker/transform.c): `linearize_ring_buffer` and one direction of `transform`;
--   Transform/Messages has what is done to requests and to responses, and `transform` in the build
--   without its three variants for measurements. A failed assertion is `none`.
-- Shared (common/shared_memory.h and .c): a connection with its states, and the shared memory as the
--   array of connections of one process, with the size that the header stores and the size that is
--   mapped: `shared_memory_resize`, `shared_memory_append`, the two lookups and
--   `shared_memory_truncate`. Shared/Status has `_connection_status_all`.
-- Ipc (common/ipc.c): `ipc_send` as the bytes that it sends, and `ipc_process_incoming` as its loop
--   over what recvmsg(2) answers, with the methods as functions on what `ctx` points to; what
--   snprintf(3) prints for a number and what sscanf(3) scans are arguments.
-- Accept (common/accept.c): `get_empty_connection`, on fuel of one more than the connections there
--   are, and `accept_connection`, whose loop is given what other processes do to the slot in each
--   round.
-- Worker (worker/main.c): Worker has `handle_connection` from `copy_active_ranges` to the store of
--   the next state, as `transform_connection`. Worker/Swap has `swap_buffers`, which may be cut off
--   between its stores and done again, Worker/Commit what the transformation leaves on the active
--   side; Worker/Epoll has `epoll_mod` and `epoll_from_buffers` for one file descriptor, with
--   epoll_ctl(2) as an argument. Worker/Io has the loops around `atomic_send` and `atomic_recv`:
--   each call takes what the kernel does from a list, and a loop that would need a longer list ends
--   as `unfinished`. Worker/Handle puts these together as `handle_connection`, one event of one file
--   descriptor, with the answers of epoll_ctl(2) and close(2) for each of the two file descriptors
--   as arguments, the calls of close(2) in the result, and `goto error` and the cases that fall
--   through as calls; its `Outcome` is the result or a failed assertion. Worker/Ipc has the handlers
--   of messages, on the connection of the message's slot.
-- Listener (listener/main_active.c): Listener/Table is the array of `struct fd_info`, filled by
--   `fd_info_get`; Listener/Cleanup has `set_linger`, `close_connection`, `cleanup_connections` and
--   `ipc_close`, with the calls of setsockopt(2) and close(2) as a list, Listener/Recover
--   `recover_one_fd` on the names that readdir(3) yields, Listener/Match the search of `main_active`
--   for the connection that misses the recovered file descriptor, Listener/Adopt
--   `cleanup_worker_process` and `adopt_one_connection`, and Listener/Handlers `ipc_connect` and
--   `ipc_orphan_upstream`, with the answers of the network's calls as an argument.
-- Util (common/util.c, base/fd_info.c): Util/Json has `json_bufsize`, `json_strlcpy` and
--   `json_strdup`, Util/Closep `closep`, Util/Readall `readall`, Util/Strlcpy `strlcpy`, Util/Writev
--   `pwritev_all` with the answers of pwritev(2) as an argument, and Util/FdTable `array_append`
--   and `fd_info_get`, whose loop has fuel for every entry up to the index.
-- Prelude: tests on the native numbers, size_t arithmetic with its wrap-around, and lists.
--
-- Not modelled: `fds_from_cmdline`, the passive listener, the spawning of workers, and the other
-- helpers of common/. Not modelled, being system calls, option parsing or measurement: the main
-- loops, the command line in base/, the launcher, the crash injection in libcrash/, and the tools
-- and tests.
pub mod Prelude
pub mod Ring
pub mod Atomic
pub mod Http
pub mod Transform
pub mod Shared
pub mod Ipc
pub mod Accept
pub mod Worker
pub mod Listener
pub mod Util
