-- ===== src/Worker/Ipc/Tests.antt =====
-- A connection that is handed over, and a new one.
use tud_crash_tolerant_proxy.Prelude.{refl, true, none, some, [], inl}
use tud_crash_tolerant_proxy.Listener.Adopt.{hand_over}
use tud_crash_tolerant_proxy.Worker.Sample.{
  kernel, kernel-IsEpollCtl, sample_connection, sample_world,
}
use tud_crash_tolerant_proxy.Worker.Handle.{Answers, Served, Watched}
use tud_crash_tolerant_proxy.Worker.Handle.Left.{AreEpollCtl}
use tud_crash_tolerant_proxy.Worker.Ipc.{ipc_orphan_downstream}
use tud_crash_tolerant_proxy.Worker.Ipc.Adopted.{TakenUp, hand_over-TakenUp}

abbrev quiet : Answers
quiet = record {
  sends = [];
  recvs = [];
  world = sample_world;
  shut_down_ok = true;
  shut_up_ok = true;
  down_shutdown = none;
  up_shutdown = none;
  epoll_down = kernel;
  epoll_up = kernel;
  close_down = none;
  close_up = none;
  ipc_ok = true;
}

quiet-AreEpollCtl : AreEpollCtl quiet
quiet-AreEpollCtl = record { down = kernel-IsEpollCtl; up = kernel-IsEpollCtl }

abbrev unwatched : Watched
unwatched = record { info = record { slot = 0; events = 0 }; interest = none }

hand_over-TakenUp_example : TakenUp quiet true true true 0 42 7 8 sample_connection (
    ipc_orphan_downstream true true 42
      (some 7)
      (record { conn = hand_over sample_connection; down = unwatched; up = unwatched }))
hand_over-TakenUp_example =
    hand_over-TakenUp quiet true true true true 0 42 7 8 sample_connection unwatched unwatched
      quiet-AreEpollCtl refl refl (inl refl)

-- a connection whose upstream is not connected yet
abbrev waiting : Served
waiting = record {
  conn = record sample_connection {
    state = 2;
    upstream = record sample_connection.upstream { fd1 = none };
  };
  down = unwatched;
  up = unwatched;
}
