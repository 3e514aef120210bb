-- ===== src/Worker/Sample.antt =====
-- A connection, the parsers' and the kernel's behaviour, for the tests of the worker.
use tud_crash_tolerant_proxy.Prelude.{ℕ, ◌+◌, ◌≡◌, refl, true, false, Option, none, some, arith}
use tud_crash_tolerant_proxy.Ring.{Buffer}
use tud_crash_tolerant_proxy.Atomic.{AtomicRingBuffer, Errno, eexist, other}
use tud_crash_tolerant_proxy.Http.Headers.{bytes}
use tud_crash_tolerant_proxy.Http.Parse.{phr_trunc, Parser, IsParser}
use tud_crash_tolerant_proxy.Transform.Messages.{World}
use tud_crash_tolerant_proxy.Shared.{Connection}
use tud_crash_tolerant_proxy.Worker.Commit.{IsSoundConnection}
use tud_crash_tolerant_proxy.Worker.Epoll.{EpollOp, ctl_add, ctl_mod, ctl_del, EpollCtl}
use tud_crash_tolerant_proxy.Worker.Epoll.Laws.{target, IsEpollCtl}

abbrev pub letters : Buffer
letters i = i + 65

abbrev pub empty : AtomicRingBuffer
empty = record {
  state = 0;
  msg_len = 0;
  active = false;
  range0 = record { start = 0; len = 0; shutdown = false };
  range1 = record { start = 0; len = 0; shutdown = false };
  buf = letters;
}

abbrev pub arrived : AtomicRingBuffer
arrived = record empty { range0 = record { start = 131070; len = 4; shutdown = true } }

abbrev pub sample_connection : Connection
sample_connection = record {
  state = 3;
  worker_pid = some 4;
  transform_ctx = record { active = false; copy0 = 0; copy1 = 0 };
  downstream = record { fd0 = some 8; fd1 = some 5; rx = arrived; tx = empty };
  upstream = record { fd0 = some 9; fd1 = some 6; rx = empty; tx = empty };
}

-- A parser that waits for more.
abbrev pub no_parser : {A : Type 0} → Parser A
no_parser max_headers buf = phr_trunc

pub no_parser-IsParser : {A : Type 0} → IsParser {A = A} no_parser
no_parser-IsParser = record {
  few = λ m n buf e. ground (arith, e);
  consumes = λ m n buf msg hs e. ground (arith, e);
}

abbrev pub sample_world : World
sample_world = record {
  phr_parse_request = no_parser;
  phr_parse_response = no_parser;
  realloc_ok = λ n. true;
  append_ok = λ n. true;
  decimal = λ n. bytes "200";
  pid = bytes "7";
  stack = letters;
}

pub sample-IsSoundConnection : IsSoundConnection sample_connection
sample-IsSoundConnection = (
  ((omega arith, omega arith), (omega arith, omega arith)),
  ((omega arith, omega arith), (omega arith, omega arith)),
)

-- A kernel that keeps an interest list.
abbrev pub kernel : EpollCtl
kernel ctl_add events none = record { failure = none; interest = some events }
kernel ctl_add events (some old) = record { failure = some eexist; interest = some old }
kernel ctl_mod events none = record { failure = some other; interest = none }
kernel ctl_mod events (some old) = record { failure = none; interest = some events }
kernel ctl_del events none = record { failure = some other; interest = none }
kernel ctl_del events (some old) = record { failure = none; interest = none }

kernel_does :
    (op : EpollOp) (events : ℕ) (interest : Option ℕ)
    → (kernel op events interest).failure ≡ none
    → (kernel op events interest).interest ≡ target op events
kernel_does ctl_add events none h = refl
kernel_does ctl_add events (some old) h = ground (arith, h)
kernel_does ctl_mod events none h = ground (arith, h)
kernel_does ctl_mod events (some old) h = refl
kernel_does ctl_del events none h = ground (arith, h)
kernel_does ctl_del events (some old) h = refl

kernel_fails :
    (op : EpollOp) (events : ℕ) (interest : Option ℕ) (e : Errno)
    → (kernel op events interest).failure ≡ some e
    → (kernel op events interest).interest ≡ interest
kernel_fails ctl_add events none e h = ground (arith, h)
kernel_fails ctl_add events (some old) e h = refl
kernel_fails ctl_mod events none e h = refl
kernel_fails ctl_mod events (some old) e h = ground (arith, h)
kernel_fails ctl_del events none e h = refl
kernel_fails ctl_del events (some old) e h = ground (arith, h)

pub kernel-IsEpollCtl : IsEpollCtl kernel
kernel-IsEpollCtl = record { does = kernel_does; fails = kernel_fails }
