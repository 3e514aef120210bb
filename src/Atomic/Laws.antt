-- ===== src/Atomic/Laws.antt =====
-- The phases that a state word encodes, and the two ranges of a buffer.
use tud_crash_tolerant_proxy.Prelude.{ℕ, ◌≡◌, refl, Bool, true, false, not, bit_set, arith}
use tud_crash_tolerant_proxy.Ring.{RingBufferRange, IsValid}
use tud_crash_tolerant_proxy.Atomic.{
  AtomicRingBuffer, phase, swap, encode_swap, range_at, set_range,
}

abbrev pub IsSound : AtomicRingBuffer → Type 0
IsSound b = IsValid b.range0 × IsValid b.range1

pub phase-encode_swap : (a : Bool) → phase (encode_swap a) ≡ swap a
unfolding phase
phase-encode_swap true = refl
phase-encode_swap false = refl

pub bit_set-encode_swap : (a : Bool) → bit_set (encode_swap a) 7 ≡ a
bit_set-encode_swap true = refl
bit_set-encode_swap false = refl

pub not-not : (a : Bool) → not (not a) ≡ a
not-not true = refl
not-not false = refl

pub bit_set_of_swap : (s : ℕ) (a : Bool) → phase s ≡ swap a → phase s ≡ swap (bit_set s 7)
unfolding phase
bit_set_of_swap s a h = ground arith

pub range_at-set_range_self :
    (b : AtomicRingBuffer) (a : Bool) (r : RingBufferRange) → range_at (set_range b a r) a ≡ r
range_at-set_range_self b true r = refl
range_at-set_range_self b false r = refl

-- A write to the other range.
pub range_at-set_range-not :
    (b : AtomicRingBuffer) (a : Bool) (r : RingBufferRange)
    → range_at (set_range b (not a) r) a ≡ range_at b a
range_at-set_range-not b true r = refl
range_at-set_range-not b false r = refl

pub range_at-IsValid : (b : AtomicRingBuffer) (a : Bool) → IsSound b → IsValid (range_at b a)
range_at-IsValid b true v = v.1
range_at-IsValid b false v = v.0

pub set_range-IsSound :
    (b : AtomicRingBuffer) (a : Bool) (r : RingBufferRange)
    → IsSound b
    → IsValid r
    → IsSound (set_range b a r)
set_range-IsSound b true r v h = (v.0, h)
set_range-IsSound b false r v h = (h, v.1)
