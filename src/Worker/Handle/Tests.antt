-- ===== src/Worker/Handle/Tests.antt =====
-- One event on a connection that has received a request in part.
use tud_crash_tolerant_proxy.Prelude.{refl, true, none, some, [], ◌∷◌}
use tud_crash_tolerant_proxy.Atomic.{eagain}
use tud_crash_tolerant_proxy.Atomic.Send as Sending
use tud_crash_tolerant_proxy.Atomic.Recv as Receiving
use tud_crash_tolerant_proxy.Worker.Sample.{
  kernel, kernel-IsEpollCtl, sample_connection, sample_world,
}
use tud_crash_tolerant_proxy.Worker.Epoll.Laws.{registered}
use tud_crash_tolerant_proxy.Worker.Handle.{Answers, Served, downstream_side, handle_connection}
use tud_crash_tolerant_proxy.Worker.Handle.Left.{AreEpollCtl, Left}
use tud_crash_tolerant_proxy.Worker.Handle.Closing.{handle_connection-Left}

abbrev quiet : Answers
quiet = record {
  sends = Sending.failed eagain ∷ [];
  recvs = Receiving.failed eagain ∷ [];
  world = sample_world;
  shut_down_ok = true;
  shut_up_ok = true;
  down_shutdown = none;
  up_shutdown = none;
  epoll_down = kernel;
  epoll_up = kernel;
  close_down = none;
  close_up = none;
  ipc_ok = true;
}

quiet-AreEpollCtl : AreEpollCtl quiet
quiet-AreEpollCtl = record { down = kernel-IsEpollCtl; up = kernel-IsEpollCtl }

abbrev served : Served
served = record {
  conn = sample_connection;
  down = record { info = record { slot = 0; events = 8193 }; interest = some 8193 };
  up = record { info = record { slot = 0; events = 8193 }; interest = some 8193 };
}

handle_connection-Left_example : Left served.conn (handle_connection quiet 1 downstream_side served)
unfolding registered
handle_connection-Left_example =
    handle_connection-Left quiet 1 downstream_side served quiet-AreEpollCtl refl refl
