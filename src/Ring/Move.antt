-- ===== src/Ring/Move.antt =====
-- `ring_buffer_move` moves as many bytes as fit, in order, and runs out of no fuel.
use tud_crash_tolerant_proxy.Prelude.{
  ℕ, zero, suc, ◌+◌, ◌-◌, ◌^◌, ◌≤◌, ◌<◌, ◌≡◌, ◌≢◌, refl, ap, subst, ◌∙◌, sym, ◌⊎◌, inl, inr,
  Bool-cases, true, Option, some, List, [], ◌∷◌, ◌&&◌, dec_lt, ltb, leb, ◌==◌, if◌then◌else◌,
  length, min, arith, sub_size, add_size,
}
use tud_crash_tolerant_proxy.Ring.{ring_buffer_size, Iovec, Buffer, memcpy, advance, move_loop}
use tud_crash_tolerant_proxy.Ring.Offsets.{
  total, offset_at, IsDistinct, Wrote, total-advance, offset_at-advance,
}

-- Every iovec lies in a buffer's length.
abbrev pub Fits : List Iovec → Type 0
Fits [] = Unit {0}
Fits (v ∷ vs) = (v.len ≤ ring_buffer_size) × Fits vs

Fits-advance :
    (v : Iovec) (vs : List Iovec) (n : ℕ) → n ≤ v.len → Fits (v ∷ vs) → Fits (advance v n vs)
Fits-advance v vs n h f = elim (Bool-cases (sub_size v.len n == 0)) [
  | inl done ↦ rw done f.1
  | inr more ↦ rw more (omega arith, f.1)
]

IsDistinct-advance :
    (v : Iovec) (vs : List Iovec) (n : ℕ)
    → n ≤ v.len
    → v.len ≤ ring_buffer_size
    → IsDistinct (v ∷ vs)
    → IsDistinct (advance v n vs)
IsDistinct-advance v vs n h b d j k hj hk e = omega (
  arith,
  d (n + j) (n + k) (omega (arith, total-advance v vs n h b))
      (omega (arith, total-advance v vs n h b))
      (sym (offset_at-advance v vs n j h b) ∙ e ∙ offset_at-advance v vs n k h b),
)

length-advance : (v : Iovec) (vs : List Iovec) (n : ℕ) → length (advance v n vs) ≤ suc (length vs)
length-advance v vs n = ground arith

length-advance_last :
    (v : Iovec) (vs : List Iovec) (n : ℕ) → n ≡ v.len → length (advance v n vs) ≡ length vs
length-advance_last v vs n h = ground arith

-- A copied byte, and one that is not.
pub memcpy_inside :
    (dst : Buffer) (at n k i : ℕ) (src : ℕ → ℕ) → k < n → i ≡ at + k → memcpy dst at src n i ≡ src k
memcpy_inside dst at n k i src h e =
    let f : leb at i && ltb i (at + n) ≡ true = ground arith in rw f (ap src (omega arith))

memcpy_outside :
    (dst : Buffer) (at n i : ℕ) (src : ℕ → ℕ)
    → ((k : ℕ) → k < n → at + k ≢ i)
    → memcpy dst at src n i ≡ dst i
memcpy_outside dst at n i src miss = elim (Bool-cases (leb at i && ltb i (at + n))) [
  | inl inside ↦ absurd (miss (i - at) (ground arith) (ground arith))
  | inr outside ↦ rw outside refl
]

-- One round: `n` bytes from `s` to `d`, and the rest by the later rounds.
Wrote-step :
    (dst buf : Buffer) (d : Iovec) (ds : List Iovec) (copy src later : ℕ → ℕ) (n m : ℕ)
    → n ≤ d.len
    → d.len ≤ ring_buffer_size
    → n + m ≤ total (d ∷ ds)
    → IsDistinct (d ∷ ds)
    → ((k : ℕ) → k < n → copy k ≡ src k)
    → ((k : ℕ) → k < m → later k ≡ src (n + k))
    → Wrote (memcpy dst d.base copy n) (advance d n ds) later m buf
    → Wrote dst (d ∷ ds) src (n + m) buf
Wrote-step dst buf d ds copy src later n m h b fits distinct agree same w = record {
  written = λ k hk. elim (dec_lt k n) [
    | yes early ↦
        w.kept (offset_at (d ∷ ds) k) (λ j hj e.
          omega (arith, distinct (n + j) k (omega arith) (omega arith) (sym (shift j) ∙ e)))
        ∙ memcpy_inside dst d.base n k (offset_at (d ∷ ds) k) copy early (ground arith)
        ∙ agree k early
    | no late ↦
        let back : n + (k - n) ≡ k = omega arith in
        ap (λ j. buf (offset_at (d ∷ ds) j)) (sym back)
        ∙ ap buf (sym (shift (k - n)))
        ∙ w.written (k - n) (omega arith)
        ∙ same (k - n) (omega arith)
        ∙ ap src back
  ];
  kept = λ i miss.
      w.kept i (λ j hj e. miss (n + j) (omega arith) (sym (shift j) ∙ e))
      ∙ memcpy_outside dst d.base n i copy (λ k hk e. miss k (omega arith) (ground (arith, e)));
}
  where
    shift : (j : ℕ) → offset_at (advance d n ds) j ≡ offset_at (d ∷ ds) (n + j)
    shift j = offset_at-advance d ds n j h b

-- A round empties one of the two first iovecs.
rounds_fall :
    (d s : Iovec) (ds ss : List Iovec) (n fuel : ℕ)
    → (n ≡ d.len) ⊎ (n ≡ s.len)
    → length (d ∷ ds) + length (s ∷ ss) < suc fuel
    → length (advance d n ds) + length (advance s n ss) < fuel
rounds_fall d s ds ss n fuel (inl e) h =
    omega (arith, length-advance s ss n, length-advance_last d ds n e)
rounds_fall d s ds ss n fuel (inr e) h =
    omega (arith, length-advance d ds n, length-advance_last s ss n e)

-- All that fits has been copied, and no more.
pub record MovedAll (run : Option (ℕ × Buffer)) (dst src : Buffer) (vd vs : List Iovec) (copied : ℕ)
    : Type 0 where
  pub buf : Buffer
  pub ends : run ≡ some (copied + min (total vd) (total vs), buf)
  pub wrote : Wrote dst vd (λ k. src (offset_at vs k)) (min (total vd) (total vs)) buf

MovedAll-round :
    (run : Option (ℕ × Buffer)) (dst src : Buffer) (d s : Iovec) (ds ss : List Iovec) (n copied : ℕ)
    → (n ≡ d.len) ⊎ (n ≡ s.len)
    → n ≤ d.len
    → n ≤ s.len
    → d.len ≤ ring_buffer_size
    → s.len ≤ ring_buffer_size
    → copied + min (total (d ∷ ds)) (total (s ∷ ss)) < 2 ^ 64
    → IsDistinct (d ∷ ds)
    → MovedAll run
        (memcpy dst d.base (λ k. src (s.base + k)) n)
        src
        (advance d n ds)
        (advance s n ss)
        (add_size copied n)
    → MovedAll run dst src (d ∷ ds) (s ∷ ss) copied
MovedAll-round run dst src d s ds ss n copied first nd ns bd bs small u m = record {
  buf = m.buf;
  ends = m.ends ∙ ap (λ c. some (c, m.buf)) (omega (arith, count, small));
  wrote =
      subst (λ t. Wrote dst (d ∷ ds) (λ k. src (offset_at (s ∷ ss) k)) t m.buf) (sym count)
        (Wrote-step dst m.buf d ds (λ k. src (s.base + k)) (λ k. src (offset_at (s ∷ ss) k))
          (λ k. src (offset_at (advance s n ss) k)) n later nd bd (omega (arith, count)) u
          (λ k hk. ap src (ground arith)) (λ k hk. ap src (offset_at-advance s ss n k ns bs))
          m.wrote);
}
  where
    later : ℕ
    later = min (total (advance d n ds)) (total (advance s n ss))

    count : min (total (d ∷ ds)) (total (s ∷ ss)) ≡ n + later
    count = omega (arith, total-advance d ds n nd bd, total-advance s ss n ns bs)

-- The loop from any point, with more fuel than there are iovecs.
pub move_loop_lem :
    (fuel : ℕ) (dst src : Buffer) (vd vs : List Iovec) (copied : ℕ)
    → length vd + length vs < fuel
    → IsDistinct vd
    → Fits vd
    → Fits vs
    → copied + min (total vd) (total vs) < 2 ^ 64
    → MovedAll (move_loop fuel dst src vd vs copied) dst src vd vs copied
unfolding move_loop
move_loop_lem zero dst src vd vs copied h u fd fs small = absurd (omega arith)
move_loop_lem (suc fuel) dst src [] vs copied h u fd fs small = record {
  buf = dst;
  ends = ap (λ c. some (c, dst)) (omega arith);
  wrote = record { written = λ k hk. absurd (omega arith); kept = λ i miss. refl };
}
move_loop_lem (suc fuel) dst src (d ∷ ds) [] copied h u fd fs small = record {
  buf = dst;
  ends = ap (λ c. some (c, dst)) (omega arith);
  wrote = record { written = λ k hk. absurd (omega arith); kept = λ i miss. refl };
}
move_loop_lem (suc fuel) dst src (d ∷ ds) (s ∷ ss) copied h u fd fs small =
    MovedAll-round _ dst src d s ds ss n copied first nd ns fd.0 fs.0 small u (
      move_loop_lem fuel (memcpy dst d.base (λ k. src (s.base + k)) n) src (advance d n ds)
        (advance s n ss) (add_size copied n) (rounds_fall d s ds ss n fuel first h)
        (IsDistinct-advance d ds n nd fd.0 u) (Fits-advance d ds n nd fd)
        (Fits-advance s ss n ns fs)
        (omega (arith, small, total-advance d ds n nd fd.0, total-advance s ss n ns fs.0)))
  where
    n : ℕ
    n = if leb d.len s.len then d.len else s.len

    nd : n ≤ d.len
    nd = ground arith

    ns : n ≤ s.len
    ns = ground arith

    first : (n ≡ d.len) ⊎ (n ≡ s.len)
    first = ground arith
