-- ===== src/Ring/Contents.antt =====
-- What the ring's operations do to the bytes of a range: `set_iovec_used` covers them in order,
-- what is written to `set_iovec_unused` follows them, and `ring_buffer_ltrim` drops from the front.
use tud_crash_tolerant_proxy.Prelude.{
  ℕ, ◌+◌, ◌-◌, ◌%◌, ◌≤◌, ◌<◌, ◌≡◌, refl, ap, ap₂, sym, ◌∙◌, List, ◌++◌, arith, tabulate,
  tabulate_cong, tabulate-append, drop-tabulate, drop,
}
use tud_crash_tolerant_proxy.Ring.{
  ring_buffer_size, RingBufferRange, Iovec, Buffer, set_iovec_used, iovec_around, rewind_empty,
  ring_buffer_ltrim, contents, IsValid,
}
use tud_crash_tolerant_proxy.Ring.Offsets.{
  total, offset_at, Wrote, total-used, offset_at-used, offset_at-around, rewind_empty-IsValid,
}

-- The bytes that a list of iovecs covers.
abbrev pub gather : Buffer → List Iovec → List ℕ
gather buf vs = tabulate (total vs) (λ k. buf (offset_at vs k))

module _ (buf : Buffer) {r : RingBufferRange} (v : IsValid r) where
  pub gather-used : gather buf (set_iovec_used r) ≡ contents buf r
  gather-used =
      tabulate_cong (total (set_iovec_used r)) r.len _ _ (total-used v)
        (λ k h. ap buf (offset_at-used v k (omega (arith, total-used v))))

  pub contents-ltrim : (n : ℕ) → contents buf (ring_buffer_ltrim r n) ≡ drop n (contents buf r)
  unfolding ring_buffer_ltrim
  contents-ltrim n =
      tabulate_cong (ring_buffer_ltrim r n).len (r.len - n) _ _ (ground arith)
        (λ k h. ap buf (ground arith))
      ∙ sym (drop-tabulate n r.len (λ k. buf ((r.start + k) % ring_buffer_size)))

  pub ltrim-IsValid : (n : ℕ) → IsValid (ring_buffer_ltrim r n)
  unfolding ring_buffer_ltrim
  ltrim-IsValid n = ground arith

  -- No byte of the range moves when an empty range is rewound.
  pub contents-rewind_empty : contents buf (rewind_empty r) ≡ contents buf r
  unfolding rewind_empty
  contents-rewind_empty = tabulate_cong _ r.len _ _ (ground arith) (λ k h. ap buf (ground arith))

  rewind_empty_start : (k : ℕ) → k < r.len → (rewind_empty r).start ≡ r.start
  unfolding rewind_empty
  rewind_empty_start k h = ground arith

  -- Bytes written to the unused part follow those of the range.
  pub contents-Wrote :
      (buf' : Buffer) (src : ℕ → ℕ) (n : ℕ)
      → n ≤ ring_buffer_size - r.len
      → Wrote buf (iovec_around (rewind_empty r)) src n buf'
      → contents buf' (record (rewind_empty r) { len = r.len + n })
        ≡ contents buf r ++ tabulate n src
  contents-Wrote buf' src n h w =
      tabulate-append r.len n (r.len + n) _ (omega arith)
      ∙ ap₂ ◌++◌ (tabulate_cong r.len r.len _ _ refl old) (tabulate_cong n n _ _ refl new)
    where
      old :
          (k : ℕ)
          → k < r.len
          → buf' (((rewind_empty r).start + k) % ring_buffer_size)
            ≡ buf ((r.start + k) % ring_buffer_size)
      old k hk =
          w.kept _
            (λ j hj e. omega (arith, offset_at-around v j (omega arith), rewind_empty-IsValid v))
          ∙ ap (λ a. buf ((a + k) % ring_buffer_size)) (rewind_empty_start k hk)

      new :
          (k : ℕ) → k < n → buf' (((rewind_empty r).start + (r.len + k)) % ring_buffer_size) ≡ src k
      new k hk =
          ap buf' (
            ap (λ a. a % ring_buffer_size) (omega arith) ∙ sym (offset_at-around v k (omega arith)))
          ∙ w.written k hk

  -- Writing to the unused part leaves the bytes of the range as they are.
  pub contents-Wrote_old :
      (buf' : Buffer) (src : ℕ → ℕ) (n : ℕ)
      → n ≤ ring_buffer_size - r.len
      → Wrote buf (iovec_around (rewind_empty r)) src n buf'
      → contents buf' r ≡ contents buf r
  contents-Wrote_old buf' src n h w = tabulate_cong r.len r.len _ _ refl (λ k hk.
      w.kept _ (λ j hj e. omega (
        arith,
        offset_at-around v j (omega arith),
        rewind_empty-IsValid v,
        rewind_empty_start k hk,
      )))
