-- ===== src/Ring/Offsets.antt =====
-- Where the bytes of a list of iovecs lie in the buffer: the iovecs of a range's used and unused
-- bytes go round the ring from its start and from its end.
use tud_crash_tolerant_proxy.Prelude.{
  ℕ, ◌+◌, ◌-◌, ◌%◌, ◌≤◌, ◌<◌, ◌≡◌, ◌≢◌, List, [], ◌∷◌, ltb, if◌then◌else◌, arith,
}
use tud_crash_tolerant_proxy.Ring.{
  ring_buffer_size, RingBufferRange, Iovec, set_iovec_used, iovec_around, rewind_empty, IsValid,
  advance, Buffer,
}

abbrev pub total : List Iovec → ℕ
total [] = 0
total (v ∷ vs) = v.len + total vs

-- The offset of the `k`-th byte that a list of iovecs covers.
abbrev pub offset_at : List Iovec → ℕ → ℕ
offset_at [] k = 0
offset_at (v ∷ vs) k =
    let rest = offset_at vs (k - v.len) in if ltb k v.len then v.base + k else rest

module _ {r : RingBufferRange} (v : IsValid r) where
  pub total-used : total (set_iovec_used r) ≡ r.len
  unfolding set_iovec_used
  total-used = ground arith

  pub offset_at-used :
      (k : ℕ) → k < r.len → offset_at (set_iovec_used r) k ≡ (r.start + k) % ring_buffer_size
  unfolding set_iovec_used
  offset_at-used k h = ground arith

  pub rewind_empty-IsValid : IsValid (rewind_empty r)
  unfolding rewind_empty
  rewind_empty-IsValid = ground arith

  pub total-around : total (iovec_around (rewind_empty r)) ≡ ring_buffer_size - r.len
  unfolding iovec_around rewind_empty
  total-around = ground arith

  pub offset_at-around :
      (k : ℕ)
      → k < ring_buffer_size - r.len
      → offset_at (iovec_around (rewind_empty r)) k
        ≡ ((rewind_empty r).start + r.len + k) % ring_buffer_size
  unfolding iovec_around rewind_empty
  offset_at-around k h = ground arith

-- No two of the bytes that the iovecs cover are one.
abbrev pub IsDistinct : List Iovec → Type 0
IsDistinct vs = (j k : ℕ) → j < total vs → k < total vs → offset_at vs j ≡ offset_at vs k → j ≡ k

pub around-IsDistinct :
    {r : RingBufferRange} → IsValid r → IsDistinct (iovec_around (rewind_empty r))
around-IsDistinct {r} v j k hj hk e = omega (
  arith,
  total-around v,
  offset_at-around v j (omega (arith, total-around v)),
  offset_at-around v k (omega (arith, total-around v)),
  rewind_empty-IsValid v,
)

-- The first `n` bytes that the iovecs cover hold `src 0, …, src (n - 1)`; no other has changed.
pub record Wrote (buf : Buffer) (vs : List Iovec) (src : ℕ → ℕ) (n : ℕ) (buf' : Buffer)
    : Type 0 where
  pub written : (k : ℕ) → k < n → buf' (offset_at vs k) ≡ src k
  pub kept : (i : ℕ) → ((k : ℕ) → k < n → offset_at vs k ≢ i) → buf' i ≡ buf i

-- The iovecs that are left after `n` bytes of the first one.
pub total-advance :
    (v : Iovec) (vs : List Iovec) (n : ℕ)
    → n ≤ v.len
    → v.len ≤ ring_buffer_size
    → total (advance v n vs) + n ≡ total (v ∷ vs)
total-advance v vs n h b = ground arith

pub offset_at-advance :
    (v : Iovec) (vs : List Iovec) (n k : ℕ)
    → n ≤ v.len
    → v.len ≤ ring_buffer_size
    → offset_at (advance v n vs) k ≡ offset_at (v ∷ vs) (n + k)
offset_at-advance v vs n k h b = ground arith
