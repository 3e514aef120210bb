-- ===== src/Ring/Transfer.antt =====
-- `ring_buffer_move` and `ring_buffer_append` against queues of bytes.
use tud_crash_tolerant_proxy.Prelude.{
  ℕ, ◌+◌, ◌-◌, ◌≤◌, ◌≡◌, refl, subst, Bool-cases, inl, inr, leb, ap, sym, ◌∙◌, some, List, ◌++◌,
  min, ◌==◌, length, arith, tabulate_cong, take-tabulate, take, drop, add_size,
}
use tud_crash_tolerant_proxy.Ring.{
  ring_buffer_size, RingBufferRange, Iovec, Buffer, Moved, set_iovec_used, set_iovec_unused,
  iovec_around, rewind_empty, ring_buffer_ltrim, ring_buffer_move, move_result, contents, IsValid,
}
use tud_crash_tolerant_proxy.Ring.Offsets.{
  total, offset_at, Wrote, total-used, offset_at-used, total-around, around-IsDistinct,
  rewind_empty-IsValid,
}
use tud_crash_tolerant_proxy.Ring.Move.{Fits, move_loop_lem}
use tud_crash_tolerant_proxy.Ring.Contents.{
  contents-Wrote, contents-Wrote_old, contents-ltrim, ltrim-IsValid,
}

module _ {r : RingBufferRange} (v : IsValid r) where
  used-Fits : Fits (set_iovec_used r)
  unfolding set_iovec_used
  used-Fits = elim (Bool-cases (leb (add_size r.start r.len) ring_buffer_size)) [
    | inl whole ↦ rw whole (omega arith, tt)
    | inr wraps ↦ rw wraps (omega arith, (ground arith, tt))
  ]

  length-used : length (set_iovec_used r) ≤ 2
  unfolding set_iovec_used
  length-used = ground arith

  around-Fits : Fits (iovec_around r)
  unfolding iovec_around
  around-Fits = elim (Bool-cases (r.start == 0)) [
    | inl zero ↦ rw zero (omega arith, tt)
    | inr later ↦ elim (Bool-cases (leb ring_buffer_size (add_size r.start r.len))) [
      | inl wraps ↦ rw (later, wraps) (ground arith, tt)
      | inr whole ↦ rw (later, whole) (ground arith, (omega arith, tt))
    ]
  ]

  length-around : length (iovec_around r) ≤ 2
  unfolding iovec_around
  length-around = ground arith

pub len-rewind_empty : (r : RingBufferRange) → (rewind_empty r).len ≡ r.len
unfolding rewind_empty
len-rewind_empty r = ground arith

pub shutdown-rewind_empty : (r : RingBufferRange) → (rewind_empty r).shutdown ≡ r.shutdown
unfolding rewind_empty
shutdown-rewind_empty r = ground arith

pub shutdown-ltrim : (r : RingBufferRange) (n : ℕ) → (ring_buffer_ltrim r n).shutdown ≡ r.shutdown
unfolding ring_buffer_ltrim
shutdown-ltrim r n = ground arith

-- The queue transfer that `ring_buffer_move` makes: as much as fits goes from the front of the
-- source to the back of the destination.
pub record Transferred (dst_buf : Buffer) (dst : RingBufferRange) (src_buf : Buffer)
    (src : RingBufferRange) (m : Moved) : Type 0 where
  pub count : m.copied ≡ min (ring_buffer_size - dst.len) src.len
  pub received :
      contents m.dst_buf m.dst_range ≡ contents dst_buf dst ++ take m.copied (contents src_buf src)
  pub left : contents src_buf m.src_range ≡ drop m.copied (contents src_buf src)
  pub undisturbed : contents m.dst_buf dst ≡ contents dst_buf dst
  pub dst_valid : IsValid m.dst_range
  pub src_valid : IsValid m.src_range
  pub dst_shutdown : m.dst_range.shutdown ≡ dst.shutdown
  pub src_shutdown : m.src_range.shutdown ≡ src.shutdown

module _ (dst_buf : Buffer) {dst : RingBufferRange} (vd : IsValid dst) (src_buf : Buffer)
    {src : RingBufferRange} (vs : IsValid src) where
  abbrev v_dst : List Iovec
  v_dst = iovec_around (rewind_empty dst)

  abbrev v_src : List Iovec
  v_src = set_iovec_used src

  count-fits : min (total v_dst) (total v_src) ≡ min (ring_buffer_size - dst.len) src.len
  count-fits = omega (arith, total-around vd, total-used vs)

  -- The records that `ring_buffer_move` leaves when its loop has copied `n` bytes.
  abbrev after : ℕ → Buffer → Moved
  after n buf = record {
    copied = n;
    dst_buf = buf;
    dst_range = record (rewind_empty dst) { len = add_size (rewind_empty dst).len n };
    src_range = ring_buffer_ltrim src n;
  }

  Transferred-after :
      (n : ℕ) (buf : Buffer)
      → n ≡ min (ring_buffer_size - dst.len) src.len
      → Wrote dst_buf v_dst (λ k. src_buf (offset_at v_src k)) n buf
      → Transferred dst_buf dst src_buf src (after n buf)
  Transferred-after n buf e w = record {
    count = e;
    received =
        ap (λ l. contents buf (record (rewind_empty dst) { len = l })) (omega (arith, same_len, vd))
        ∙ contents-Wrote dst_buf vd buf (λ k. src_buf (offset_at v_src k)) n (omega arith) w
        ∙ ap (λ l. contents dst_buf dst ++ l)
            (tabulate_cong n n _ _ refl (λ k h. ap src_buf (offset_at-used vs k (omega arith)))
              ∙ sym (take-tabulate n src.len _ (omega arith)));
    left = contents-ltrim src_buf vs n;
    undisturbed =
        contents-Wrote_old dst_buf vd buf (λ k. src_buf (offset_at v_src k)) n (omega arith) w;
    dst_valid = omega (arith, same_len, rewind_empty-IsValid vd, vd);
    src_valid = ltrim-IsValid src_buf vs n;
    dst_shutdown = same_shutdown;
    src_shutdown = ltrim_shutdown;
  }
    where
      same_len : (rewind_empty dst).len ≡ dst.len
      same_len = len-rewind_empty dst

      same_shutdown : (rewind_empty dst).shutdown ≡ dst.shutdown
      same_shutdown = shutdown-rewind_empty dst

      ltrim_shutdown : (ring_buffer_ltrim src n).shutdown ≡ src.shutdown
      ltrim_shutdown = shutdown-ltrim src n

  -- On valid ranges `ring_buffer_move` ends. It takes as many bytes from the front of the source
  -- as fit, puts them behind those of the destination, and leaves both ranges valid, their
  -- `shutdown` flags as they were, and the bytes that the destination held where they were.
  pub ring_buffer_move_refines :
      (m : Moved) × (ring_buffer_move dst_buf dst src_buf src ≡ some m)
      × Transferred dst_buf dst src_buf src m
  unfolding ring_buffer_move set_iovec_unused
  ring_buffer_move_refines =
      let run =
        move_loop_lem 5 dst_buf src_buf v_dst v_src 0
          (omega (arith, length-around (rewind_empty-IsValid vd), length-used vs))
          (around-IsDistinct vd) (around-Fits (rewind_empty-IsValid vd)) (used-Fits vs)
          (omega (arith, count-fits, vs)) in
      (
        after (0 + min (total v_dst) (total v_src)) run.buf,
        ap (move_result (rewind_empty dst) src) run.ends,
        Transferred-after (0 + min (total v_dst) (total v_src)) run.buf (omega (arith, count-fits))
            (subst (λ t. Wrote dst_buf v_dst (λ k. src_buf (offset_at v_src k)) t run.buf)
              (omega arith) run.wrote),
      )
