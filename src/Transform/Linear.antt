-- ===== src/Transform/Linear.antt =====
-- `linearize_ring_buffer` gives the contents of the range.
use tud_crash_tolerant_proxy.Prelude.{
  ℕ, ◌+◌, ◌<◌, ◌≡◌, ap, leb, arith, tabulate, tabulate_cong, refl, Bool-cases, inl, inr, sub_size,
  ◌%◌,
}
use tud_crash_tolerant_proxy.Ring.{Buffer, RingBufferRange, ring_buffer_size, IsValid, contents}
use tud_crash_tolerant_proxy.Transform.{linearize_ring_buffer}

-- The pointer that `linearize_ring_buffer` returns has the bytes of a valid range in front of it, in
-- order, whether or not they wrap around.
pub linearize_ring_buffer_lem :
    (linear buf : Buffer) {range : RingBufferRange}
    → IsValid range
    → tabulate range.len (linearize_ring_buffer linear buf range) ≡ contents buf range
unfolding linearize_ring_buffer
linearize_ring_buffer_lem linear buf {range} v = tabulate_cong range.len range.len _ _ refl at
  where
    at :
        (k : ℕ)
        → k < range.len
        → linearize_ring_buffer linear buf range k ≡ buf ((range.start + k) % ring_buffer_size)
    at k h = elim (Bool-cases (leb range.len (sub_size ring_buffer_size range.start))) [
      | inl straight ↦ rw straight (ap buf (ground (arith, straight)))
      | inr wraps ↦ rw wraps (ground (arith, wraps))
    ]
