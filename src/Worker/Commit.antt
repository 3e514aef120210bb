-- ===== src/Worker/Commit.antt =====
-- The transformation of a connection up to its commit works on inactive ranges only.
use tud_crash_tolerant_proxy.Prelude.{
  ℕ, ◌≡◌, refl, ap, ap₂, sym, subst, ◌∙◌, Bool, true, false, not, some, List, bit_set,
  if◌then◌else◌,
}
use tud_crash_tolerant_proxy.Ring.{RingBufferRange, Buffer, IsValid, contents}
use tud_crash_tolerant_proxy.Atomic.{
  AtomicRingBuffer, set_range, active_range, inactive_range, store_copy,
}
use tud_crash_tolerant_proxy.Atomic.Laws.{
  IsSound, range_at-set_range_self, range_at-set_range-not, range_at-IsValid,
}
use tud_crash_tolerant_proxy.Http.Parse.{IsParser}
use tud_crash_tolerant_proxy.Transform.{Context, Direction, copy_at}
use tud_crash_tolerant_proxy.Transform.Messages.{World}
use tud_crash_tolerant_proxy.Transform.Whole.{transform-Transformed}
use tud_crash_tolerant_proxy.Shared.{Connection}
use tud_crash_tolerant_proxy.Worker.{
  copy_active_ranges, direction, put_out, put_in, write_back, shut_inactive, shutdown_rx,
  shutdown_down, shutdown_up, store_outcome, after_transform, transform_connection,
}

-- What the active range of a buffer shows.
pub record Seen : Type 0 where
  pub active : Bool
  pub range : RingBufferRange
  pub bytes : List ℕ

abbrev pub seen : AtomicRingBuffer → Seen
seen b = record {
  active = b.active;
  range = active_range b;
  bytes = contents b.buf (active_range b);
}

seen_ext :
    (b c : AtomicRingBuffer)
    → c.active ≡ b.active
    → active_range c ≡ active_range b
    → contents c.buf (active_range c) ≡ contents b.buf (active_range b)
    → seen c ≡ seen b
seen_ext b c a r x = λ i. record { active = a i; range = r i; bytes = x i }

-- A store to the inactive range is not seen.
seen-set_range :
    (b : AtomicRingBuffer) (r : RingBufferRange) → seen (set_range b (not b.active) r) ≡ seen b
seen-set_range b r =
    seen_ext b (set_range b (not b.active) r) refl (range_at-set_range-not b b.active r)
      (ap (contents b.buf) (range_at-set_range-not b b.active r))

seen-store_copy : (b : AtomicRingBuffer) → seen (store_copy b) ≡ seen b
unfolding store_copy
seen-store_copy b = seen-set_range b (active_range b)

inactive_range-store_copy : (b : AtomicRingBuffer) → inactive_range (store_copy b) ≡ active_range b
unfolding store_copy
inactive_range-store_copy b = range_at-set_range_self b (not b.active) (active_range b)

seen-put_in : (d : Direction) (b : AtomicRingBuffer) → d.in_buf ≡ b.buf → seen (put_in d b) ≡ seen b
seen-put_in d b e = seen_ext b (put_in d b) refl kept (ap₂ contents e kept)
  where
    kept : active_range (put_in d b) ≡ active_range b
    kept = range_at-set_range-not b b.active d.in_range

seen-put_out :
    (d : Direction) (b : AtomicRingBuffer)
    → contents d.out_buf (active_range b) ≡ contents b.buf (active_range b)
    → seen (put_out d b) ≡ seen b
seen-put_out d b e = seen_ext b (put_out d b) refl kept (ap (contents d.out_buf) kept ∙ e)
  where
    kept : active_range (put_out d b) ≡ active_range b
    kept = range_at-set_range-not b b.active d.out_range

seen-shut_inactive : (b : AtomicRingBuffer) → seen (shut_inactive b) ≡ seen b
seen-shut_inactive b = seen-set_range b (record (inactive_range b) { shutdown = true })

seen-shutdown_rx : (ok : Bool) (b : AtomicRingBuffer) → seen (shutdown_rx ok b) ≡ seen b
unfolding shutdown_rx
seen-shutdown_rx ok b = by_tests (inactive_range b).shutdown ok
  where
    by_tests :
        (done worked : Bool)
        → seen (if done then b else if worked then shut_inactive b else b) ≡ seen b
    by_tests true worked = refl
    by_tests false true = seen-shut_inactive b
    by_tests false false = refl

-- What the next process finds on the active side of a connection: its four buffers, and the active
-- copy of the transformation's state.
pub record View : Type 0 where
  pub downstream_rx : Seen
  pub downstream_tx : Seen
  pub upstream_rx : Seen
  pub upstream_tx : Seen
  pub ctx_active : Bool
  pub ctx_state : ℕ

unfoldable pub view : Connection → View
view c = record {
  downstream_rx = seen c.downstream.rx;
  downstream_tx = seen c.downstream.tx;
  upstream_rx = seen c.upstream.rx;
  upstream_tx = seen c.upstream.tx;
  ctx_active = c.transform_ctx.active;
  ctx_state = copy_at c.transform_ctx c.transform_ctx.active;
}

view_ext :
    (c d : Connection)
    → seen d.downstream.rx ≡ seen c.downstream.rx
    → seen d.downstream.tx ≡ seen c.downstream.tx
    → seen d.upstream.rx ≡ seen c.upstream.rx
    → seen d.upstream.tx ≡ seen c.upstream.tx
    → d.transform_ctx.active ≡ c.transform_ctx.active
    → copy_at d.transform_ctx d.transform_ctx.active
      ≡ copy_at c.transform_ctx c.transform_ctx.active
    → view d ≡ view c
unfolding view
view_ext c d drx dtx urx utx a s = λ i. record {
  downstream_rx = drx i;
  downstream_tx = dtx i;
  upstream_rx = urx i;
  upstream_tx = utx i;
  ctx_active = a i;
  ctx_state = s i;
}

view-copy_active_ranges : (c : Connection) → view (copy_active_ranges c) ≡ view c
unfolding copy_active_ranges
view-copy_active_ranges c =
    view_ext c (copy_active_ranges c) (seen-store_copy c.downstream.rx)
      (seen-store_copy c.downstream.tx) (seen-store_copy c.upstream.rx)
      (seen-store_copy c.upstream.tx) refl refl

view-shutdown_down : (wanted ok : Bool) (c : Connection) → view (shutdown_down wanted ok c) ≡ view c
unfolding shutdown_down
view-shutdown_down true ok c =
    view_ext c _ refl (seen-shut_inactive c.downstream.tx) (seen-shutdown_rx ok c.upstream.rx) refl
      refl refl
view-shutdown_down false ok c = refl

view-shutdown_up : (wanted ok : Bool) (c : Connection) → view (shutdown_up wanted ok c) ≡ view c
unfolding shutdown_up
view-shutdown_up true ok c =
    view_ext c _ (seen-shutdown_rx ok c.downstream.rx) refl refl (seen-shut_inactive c.upstream.tx)
      refl refl
view-shutdown_up false ok c = refl

view-store_outcome : (c : Connection) → view (store_outcome c) ≡ view c
unfolding view store_outcome
view-store_outcome c = refl

-- What `transform` leaves of the active side.
record Leaves (c : Connection) (ctx : Context) (down up : Direction) : Type 0 where
  down_in : down.in_buf ≡ c.upstream.rx.buf
  up_in : up.in_buf ≡ c.downstream.rx.buf
  down_out :
      contents down.out_buf (active_range c.downstream.tx)
      ≡ contents c.downstream.tx.buf (active_range c.downstream.tx)
  up_out :
      contents up.out_buf (active_range c.upstream.tx)
      ≡ contents c.upstream.tx.buf (active_range c.upstream.tx)
  same_active : ctx.active ≡ c.transform_ctx.active
  same_copy : copy_at ctx c.transform_ctx.active ≡ copy_at c.transform_ctx c.transform_ctx.active

view-write_back :
    (c : Connection) (ctx : Context) (down up : Direction)
    → Leaves c ctx down up
    → view (write_back ctx down up c) ≡ view c
unfolding write_back
view-write_back c ctx down up l =
    view_ext c _ (seen-put_in up c.downstream.rx l.up_in)
      (seen-put_out down c.downstream.tx l.down_out) (seen-put_in down c.upstream.rx l.down_in)
      (seen-put_out up c.upstream.tx l.up_out) l.same_active
      (ap (copy_at ctx) l.same_active ∙ l.same_copy)

abbrev pub IsSoundConnection : Connection → Type 0
IsSoundConnection c =
    (IsSound c.downstream.rx × IsSound c.downstream.tx)
    × (IsSound c.upstream.rx × IsSound c.upstream.tx)

copied-IsValid : (b : AtomicRingBuffer) → IsSound b → IsValid (inactive_range (store_copy b))
copied-IsValid b v =
    subst IsValid (sym (inactive_range-store_copy b)) (range_at-IsValid b b.active v)

copied_len : (b : AtomicRingBuffer) → (inactive_range (store_copy b)).len ≡ (active_range b).len
copied_len b = ap (λ r. r.len) (inactive_range-store_copy b)

-- After `copy_active_ranges` a range that the transformation leaves in its buffer is the active one.
out_kept :
    (b : AtomicRingBuffer) (buf : Buffer)
    → contents buf (inactive_range (store_copy b))
      ≡ contents (store_copy b).buf (inactive_range (store_copy b))
    → contents buf (active_range (store_copy b))
      ≡ contents (store_copy b).buf (active_range (store_copy b))
out_kept b buf e = subst (λ r. contents buf r ≡ contents (store_copy b).buf r) same e
  where
    same : inactive_range (store_copy b) ≡ active_range (store_copy b)
    same = inactive_range-store_copy b ∙ sym (ap (λ s. s.range) (seen-store_copy b))

-- With parsers as documented, valid ranges, and send buffers that are empty until the message of
-- their direction is dealt with: the transformation of a connection runs to the store of the next
-- state, and the connection it leaves has the same active side as before: the same active ranges,
-- with the same bytes, and the same active copy of the transformation's state.
pub transform_connection-view :
    (w : World) (down_ok up_ok : Bool) (c : Connection)
    → IsParser w.phr_parse_request
    → IsParser w.phr_parse_response
    → IsSoundConnection c
    → (bit_set (copy_at c.transform_ctx c.transform_ctx.active) 0 ≡ false
        → (active_range c.upstream.tx).len ≡ 0)
    → (bit_set (copy_at c.transform_ctx c.transform_ctx.active) 1 ≡ false
        → (active_range c.downstream.tx).len ≡ 0)
    → (c' : Connection) × (transform_connection w down_ok up_ok c ≡ some c') × (view c' ≡ view c)
unfolding transform_connection after_transform copy_active_ranges
transform_connection-view w down_ok up_ok c request_law response_law v up_empty down_empty =
    let t =
      transform-Transformed w c.transform_ctx
        (direction (copy_active_ranges c).downstream (copy_active_ranges c).upstream)
        (direction (copy_active_ranges c).upstream (copy_active_ranges c).downstream)
        (copied-IsValid c.downstream.tx v.0.1, copied-IsValid c.upstream.rx v.1.0)
        (copied-IsValid c.upstream.tx v.1.1, copied-IsValid c.downstream.rx v.0.0) request_law
        response_law (λ e. copied_len c.upstream.tx ∙ up_empty e)
        (λ e. copied_len c.downstream.tx ∙ down_empty e) in
    let down = t.down_done.done.next in
    let up = t.up_done.done.next in
    let written = write_back t.kept.next down up (copy_active_ranges c) in
    (
      _,
      ap (after_transform down_ok up_ok (copy_active_ranges c)) t.kept.ends,
      view-store_outcome _
          ∙ view-shutdown_up up.shutdown up_ok (shutdown_down down.shutdown down_ok written)
          ∙ view-shutdown_down down.shutdown down_ok written
          ∙ view-write_back (copy_active_ranges c) t.kept.next down up (record {
            down_in = t.down_done.done.same_in;
            up_in = t.up_done.done.same_in;
            down_out = out_kept c.downstream.tx down.out_buf t.down_done.done.undisturbed;
            up_out = out_kept c.upstream.tx up.out_buf t.up_done.done.undisturbed;
            same_active = t.kept.same_active;
            same_copy = t.kept.same_copy;
          })
          ∙ view-copy_active_ranges c,
    )
