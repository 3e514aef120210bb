-- ===== src/Worker/Epoll/Laws.antt =====
-- The worker's record of the events of a file descriptor agrees with the kernel's.
use tud_crash_tolerant_proxy.Prelude.{
  ℕ, ◌<◌, ◌≡◌, refl, ap, sym, subst, ◌∙◌, Bool, true, false, Option, none, some, ◌&&◌, ◌==◌,
  if◌then◌else◌, Bool-cases, inl, inr, arith, bit_set,
}
use tud_crash_tolerant_proxy.Ring.{ring_buffer_size}
use tud_crash_tolerant_proxy.Atomic.{Errno, active_range}
use tud_crash_tolerant_proxy.Shared.{Endpoint}
use tud_crash_tolerant_proxy.Worker.Epoll.{
  FdInfo, EpollOp, ctl_add, ctl_mod, ctl_del, EpollCtl, is_eexist, is_add, after_ctl, ctl_loop,
  Polled, ctl_result, epoll_op, epoll_mod, wanted_events, covers, shutdown_fails, poll_result,
  epoll_from_buffers,
}

-- The kernel's events for the worker's record: 0 stands for a descriptor that is not registered.
unfoldable pub registered : ℕ → Option ℕ
registered events = if events == 0 then none else some events

abbrev pub target : EpollOp → ℕ → Option ℕ
target ctl_add events = some events
target ctl_mod events = some events
target ctl_del events = none

-- epoll_ctl(2), as documented: it does what it is asked for, or fails and changes nothing.
pub record IsEpollCtl (epoll_ctl : EpollCtl) : Type 0 where
  pub does :
      (op : EpollOp) (events : ℕ) (interest : Option ℕ)
      → (epoll_ctl op events interest).failure ≡ none
      → (epoll_ctl op events interest).interest ≡ target op events
  pub fails :
      (op : EpollOp) (events : ℕ) (interest : Option ℕ) (e : Errno)
      → (epoll_ctl op events interest).failure ≡ some e
      → (epoll_ctl op events interest).interest ≡ interest

-- What a loop comes to: the events asked for, or the old ones.
record Looped (events : ℕ) (interest : Option ℕ) (wanted : Option ℕ) (r : Option (Bool × Option ℕ))
    : Type 0 where
  ok : Bool
  ends : r ≡ some (ok, if ok then wanted else interest)

second_of : (a b : Bool) → (a && b) ≡ true → b ≡ true
second_of true b h = h
second_of false b h = ground (arith, h)

-- A round that is the last one, or is followed by `again`.
round-Looped :
    (op : EpollOp) (events : ℕ) (interest i : Option ℕ) (failure : Option Errno)
    (again : Option (Bool × Option ℕ))
    → (failure ≡ none → i ≡ target op events)
    → ((e : Errno) → failure ≡ some e → i ≡ interest)
    → (is_add op ≡ true → i ≡ interest → Looped events interest (target op events) again)
    → Looped events interest (target op events) (after_ctl op again i failure)
unfolding after_ctl
round-Looped op events interest i none again done bad more = record {
  ok = true;
  ends = ap (λ j. some (true, j)) (done refl);
}
round-Looped op events interest i (some e) again done bad more =
    elim (Bool-cases (is_eexist e && is_add op)) [
      | inl exists ↦ rw exists (more (second_of (is_eexist e) (is_add op) exists) (bad e refl))
      | inr last ↦ rw last (record { ok = false; ends = ap (λ j. some (false, j)) (bad e refl) })
    ]

add_is : (op : EpollOp) (events : ℕ) → is_add op ≡ true → target ctl_mod events ≡ target op events
unfolding is_add
add_is ctl_add events h = refl
add_is ctl_mod events h = refl
add_is ctl_del events h = ground (arith, h)

module _ (epoll_ctl : EpollCtl) (law : IsEpollCtl epoll_ctl) (events : ℕ) where
  second-Looped :
      (interest : Option ℕ)
      → Looped events interest (some events) (ctl_loop 1 epoll_ctl ctl_mod events interest)
  unfolding ctl_loop is_add
  second-Looped interest =
      round-Looped ctl_mod events interest _ _ _ (law.does ctl_mod events interest)
        (law.fails ctl_mod events interest) (λ h. ground (arith, h))

  ctl_loop-Looped :
      (op : EpollOp) (interest : Option ℕ)
      → Looped events interest (target op events) (ctl_loop 2 epoll_ctl op events interest)
  unfolding ctl_loop
  ctl_loop-Looped op interest =
      round-Looped op events interest _ _ _ (law.does op events interest)
        (law.fails op events interest)
        (λ h same.
          subst
            (λ j. Looped events interest (target op events) (ctl_loop 1 epoll_ctl ctl_mod events j))
            (sym same)
            (subst (λ t. Looped events interest t (ctl_loop 1 epoll_ctl ctl_mod events interest))
              (add_is op events h) (second-Looped interest)))

target-epoll_op : (events old : ℕ) → target (epoll_op events old) events ≡ registered events
unfolding registered
target-epoll_op events old = elim (Bool-cases (events == 0)) [
  | inl gone ↦ rw gone refl
  | inr here ↦
      rw here (elim (Bool-cases (old == 0)) [ inl new ↦ rw new refl | inr known ↦ rw known refl ])
]

-- What `epoll_mod` comes to: the worker's record and the kernel's agree.
pub record Agrees (events : ℕ) (r : Option Polled) : Type 0 where
  pub polled : Polled
  pub ends : r ≡ some polled
  pub agrees : polled.interest ≡ registered polled.info.events
  pub took : polled.ok ≡ true → polled.info.events ≡ events

changed-Agrees :
    (events : ℕ) (info : FdInfo) (interest : Option ℕ) (r : Option (Bool × Option ℕ)) (ok : Bool)
    → interest ≡ registered info.events
    → r ≡ some (ok, if ok then registered events else interest)
    → Agrees events (ctl_result events info r)
unfolding ctl_result
changed-Agrees events info interest r true h e = record {
  polled = record {
    ok = true;
    info = record info { events = events };
    interest = registered events;
  };
  ends = ap (ctl_result events info) e;
  agrees = refl;
  took = λ k. refl;
}
changed-Agrees events info interest r false h e = record {
  polled = record { ok = false; info = info; interest = interest };
  ends = ap (ctl_result events info) e;
  agrees = h;
  took = λ k. ground (arith, k);
}

-- With epoll_ctl(2) as documented, and the worker's record of the events in agreement with the
-- kernel's: `epoll_mod` returns, and the two agree again, whether it has failed or not; if not,
-- the events are those asked for.
pub epoll_mod-Agrees :
    (epoll_ctl : EpollCtl)
    → IsEpollCtl epoll_ctl
    → (events : ℕ) (info : FdInfo) (interest : Option ℕ) → interest ≡ registered info.events
    → Agrees events (epoll_mod epoll_ctl events info interest)
unfolding epoll_mod
epoll_mod-Agrees epoll_ctl law events info interest h = elim (Bool-cases (events == info.events)) [
  | inl same ↦ rw same (record {
    polled = record { ok = true; info = info; interest = interest };
    ends = refl;
    agrees = h;
    took = λ k. ground (arith, same);
  })
  | inr other ↦ rw other (
      let l = ctl_loop-Looped epoll_ctl law events (epoll_op events info.events) interest in
      changed-Agrees events info interest _ l.ok h (
        l.ends
        ∙ ap (λ t. some (l.ok, if l.ok then t else interest)) (target-epoll_op events info.events)))
]

covers_self : (events : ℕ) → covers events events ≡ true
unfolding covers
covers_self events = ground arith

covers_out :
    (have events : ℕ) → covers have events ≡ true → bit_set events 2 ≡ true → bit_set have 2 ≡ true
unfolding covers
covers_out have events c h = ground (arith, c, h)

covers_in :
    (have events : ℕ) → covers have events ≡ true → bit_set events 0 ≡ true → bit_set have 0 ≡ true
unfolding covers
covers_in have events c h = ground (arith, c, h)

wanted_out : (e : Endpoint) → 0 < (active_range e.tx).len → bit_set (wanted_events e) 2 ≡ true
unfolding wanted_events
wanted_out e h = ground (arith, h)

wanted_in :
    (e : Endpoint)
    → (active_range e.rx).len < ring_buffer_size
    → (active_range e.rx).shutdown ≡ false
    → bit_set (wanted_events e) 0 ≡ true
unfolding wanted_events
wanted_in e h s = ground (arith, h, s)

-- The events of an endpoint after `epoll_from_buffers`: the two records agree, and if it has returned
-- 0, the kernel will tell when there is something to do.
pub record Watches (e : Endpoint) (r : Option Polled) : Type 0 where
  pub polled : Polled
  pub ends : r ≡ some polled
  pub agrees : polled.interest ≡ registered polled.info.events
  pub sends : polled.ok ≡ true → 0 < (active_range e.tx).len → bit_set polled.info.events 2 ≡ true
  pub receives :
      polled.ok ≡ true
      → (active_range e.rx).len < ring_buffer_size
      → (active_range e.rx).shutdown ≡ false
      → bit_set polled.info.events 0 ≡ true

covered :
    (p : Polled) (events : ℕ)
    → (p.ok ≡ true → p.info.events ≡ events)
    → (if p.ok then true else covers p.info.events events) ≡ true
    → covers p.info.events events ≡ true
covered p events took h = elim (Bool-cases p.ok) [
  | inl good ↦ subst (λ n. covers p.info.events n ≡ true) (took good) (covers_self p.info.events)
  | inr bad ↦ ground (arith, h, bad)
]

Agrees-Watches :
    (e : Endpoint) (r : Option Polled)
    → Agrees (wanted_events e) r
    → Watches e (poll_result (wanted_events e) r)
unfolding poll_result
Agrees-Watches e r a = record {
  polled = record a.polled {
    ok = if a.polled.ok then true else covers a.polled.info.events (wanted_events e);
  };
  ends = ap (poll_result (wanted_events e)) a.ends;
  agrees = a.agrees;
  sends = λ k h.
      covers_out _ (wanted_events e) (covered a.polled (wanted_events e) a.took k) (wanted_out e h);
  receives = λ k h s.
      covers_in _ (wanted_events e) (covered a.polled (wanted_events e) a.took k) (wanted_in e h s);
}

-- With epoll_ctl(2) as documented, and the worker's record of the events in agreement with the
-- kernel's: `epoll_from_buffers` returns, and the two agree again. If it returns 0, also where
-- epoll_ctl(2) has failed, EPOLLOUT is registered while there is data to send, and EPOLLIN while
-- there is room to receive and no end of file.
pub epoll_from_buffers-Watches :
    (epoll_ctl : EpollCtl)
    → IsEpollCtl epoll_ctl
    → (shutdown_result : Option Errno) (e : Endpoint) (info : FdInfo) (interest : Option ℕ)
    → interest ≡ registered info.events
    → Watches e (epoll_from_buffers epoll_ctl shutdown_result e info interest)
unfolding epoll_from_buffers
epoll_from_buffers-Watches epoll_ctl law shutdown_result e info interest h =
    elim (Bool-cases (shutdown_fails e shutdown_result)) [
      | inl bad ↦ rw bad (record {
        polled = record { ok = false; info = info; interest = interest };
        ends = refl;
        agrees = h;
        sends = λ k s. ground (arith, k);
        receives = λ k s t. ground (arith, k);
      })
      | inr good ↦
          rw good
            (Agrees-Watches e _ (epoll_mod-Agrees epoll_ctl law (wanted_events e) info interest h))
    ]
