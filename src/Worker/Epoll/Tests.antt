-- ===== src/Worker/Epoll/Tests.antt =====
-- The events of one file descriptor, with a kernel that keeps an interest list.
use tud_crash_tolerant_proxy.Prelude.{◌≡◌, refl, true, false, some, dec_lt, dec_le, ℕ_discrete}
use tud_crash_tolerant_proxy.Atomic.{AtomicRingBuffer, epipe}
use tud_crash_tolerant_proxy.Shared.{Endpoint}
use tud_crash_tolerant_proxy.Worker.Sample.{kernel, kernel-IsEpollCtl}
use tud_crash_tolerant_proxy.Worker.Epoll.{
  FdInfo, epoll_mod, epoll_from_buffers, wanted_events, shutdown_fails,
}
use tud_crash_tolerant_proxy.Worker.Epoll.Laws.{
  registered, Agrees, Watches, epoll_mod-Agrees, epoll_from_buffers-Watches,
}

abbrev empty : AtomicRingBuffer
empty = record {
  state = 0;
  msg_len = 0;
  active = false;
  range0 = record { start = 0; len = 0; shutdown = false };
  range1 = record { start = 0; len = 0; shutdown = false };
  buf = λ i. i;
}

abbrev endpoint : Endpoint
endpoint = record {
  fd0 = some 8;
  fd1 = some 7;
  rx = empty;
  tx = record empty { range0 = record { start = 9; len = 3; shutdown = true } };
}

abbrev receiving : FdInfo
receiving = record { slot = 2; events = 1 }

-- the worker has lost its record
abbrev forgotten : FdInfo
forgotten = record { slot = 2; events = 0 }

add_becomes_mod :
    epoll_mod kernel 4 forgotten (some 1)
    ≡ some (record { ok = true; info = record { slot = 2; events = 4 }; interest = some 4 })
unfolding epoll_mod dec_le ℕ_discrete
add_becomes_mod = refl

watches_both :
    epoll_from_buffers kernel (some epipe) endpoint receiving (some 1)
    ≡ some (record { ok = true; info = record { slot = 2; events = 8197 }; interest = some 8197 })
unfolding epoll_from_buffers epoll_mod wanted_events shutdown_fails dec_lt dec_le ℕ_discrete
watches_both = refl

receiving_registered : some 1 ≡ registered 1
unfolding registered
receiving_registered = refl

epoll_mod-Agrees_example : Agrees 4 (epoll_mod kernel 4 receiving (some 1))
epoll_mod-Agrees_example =
    epoll_mod-Agrees kernel kernel-IsEpollCtl 4 receiving (some 1) receiving_registered

epoll_from_buffers-Watches_example :
    Watches endpoint (epoll_from_buffers kernel (some epipe) endpoint receiving (some 1))
epoll_from_buffers-Watches_example =
    epoll_from_buffers-Watches kernel kernel-IsEpollCtl (some epipe) endpoint receiving (some 1)
      receiving_registered
