-- ===== src/Ring/Tests.antt =====
-- The ring buffer of worker/atomic_send_recv.c on small inputs.
use tud_crash_tolerant_proxy.Prelude.{
  ◌+◌, ◌≡◌, refl, false, some, [], ◌∷◌, arith, dec_le, ℕ_discrete,
}
use tud_crash_tolerant_proxy.Ring.{
  RingBufferRange, Buffer, IsValid, Moved, set_iovec_used, ring_buffer_move, ring_buffer_ltrim,
  contents,
}
use tud_crash_tolerant_proxy.Ring.Transfer.{Transferred, ring_buffer_move_refines}

abbrev letters : Buffer
letters i = i + 65

-- two bytes before the end of the buffer and two after its beginning
abbrev wrapped : RingBufferRange
wrapped = record { start = 131070; len = 4; shutdown = false }

-- all but three bytes
abbrev nearly_full : RingBufferRange
nearly_full = record { start = 5; len = 131069; shutdown = false }

iovecs-wrapped :
    set_iovec_used wrapped ≡ record { base = 131070; len = 2 } ∷ record { base = 0; len = 2 } ∷ []
unfolding set_iovec_used
iovecs-wrapped = refl

contents-wrapped : contents letters wrapped ≡ 131135 ∷ 131136 ∷ 65 ∷ 66 ∷ []
contents-wrapped = refl

ltrim-wrapped : ring_buffer_ltrim wrapped 3 ≡ record { start = 1; len = 1; shutdown = false }
unfolding ring_buffer_ltrim dec_le ℕ_discrete
ltrim-wrapped = refl

wrapped-IsValid : IsValid wrapped
wrapped-IsValid = omega arith

nearly_full-IsValid : IsValid nearly_full
nearly_full-IsValid = omega arith

ring_buffer_move_refines_example :
    (m : Moved) × (ring_buffer_move letters nearly_full letters wrapped ≡ some m)
    × Transferred letters nearly_full letters wrapped m
ring_buffer_move_refines_example =
    ring_buffer_move_refines letters nearly_full-IsValid letters wrapped-IsValid
