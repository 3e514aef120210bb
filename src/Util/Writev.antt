-- ===== src/Util/Writev.antt =====
-- `pwritev_all` of common/util.c. An iovec is the list of its bytes, and the answers of pwritev(2) are
-- an argument: each is a count of bytes, where an error counts as 0, and after the last one it fails.
use tud_crash_tolerant_proxy.Prelude.{
  ℕ, zero, suc, ◌+◌, ◌-◌, ◌≤◌, ◌≡◌, refl, ap, sym, ◌∙◌, Option, none, some, List, [], ◌∷◌, ◌++◌,
  leb, ◌==◌, if◌then◌else◌, length, take, drop, take-append-drop, append_assoc, length-append,
  length-take, length-drop, Bool-cases, inl, inr, arith, true,
}

-- "Drop the first `n` bytes."; `none` where the assertion fails.
unfoldable pub drop_bytes : ℕ → List (List ℕ) → Option (List (List ℕ))
drop_bytes n [] = if n == 0 then some [] else none
drop_bytes n (v ∷ vs) =
    let rest = drop_bytes (n - length v) vs in
    if n == 0 then some (v ∷ vs) else if leb (length v) n then rest else some (drop n v ∷ vs)

abbrev pub concat : List (List ℕ) → List ℕ
concat [] = []
concat (v ∷ vs) = v ++ concat vs

-- The bytes that went to the file, each call's with the offset in the file and all of them, and those
-- of the iovecs that are left; the offset of the next call.
pub record Writing : Type 0 where
  pub writes : List (ℕ × List ℕ)
  pub written : List ℕ
  pub left : List (List ℕ)
  pub total : ℕ
  pub offset : ℕ

-- A round after `n` bytes were written, and those that follow.
pub step_to : ℕ → Writing → Option (List (List ℕ)) → Option Writing
step_to n w none = none
step_to n w (some rest) = some (record {
  writes = w.writes ++ ((w.offset, take n (concat w.left)) ∷ []);
  written = w.written ++ take n (concat w.left);
  left = rest;
  total = w.total + n;
  offset = w.offset + n;
})

-- The outer loop; `none` where the assertion fails.
pwritev_loop : List ℕ → Writing → Option Writing
unfolding step_to drop_bytes
pwritev_loop [] w = some w
pwritev_loop (n ∷ ns) w =
    let next = step_to n w (drop_bytes n w.left) in
    let rest : Option Writing = elim next [ none ↦ none | some v ↦ pwritev_loop ns v ] in
    if length w.left == 0 then some w else if n == 0 then some w else rest

abbrev unwritten : List (List ℕ) → ℕ → Writing
unwritten iov offset = record { writes = []; written = []; left = iov; total = 0; offset = offset }

unfoldable pub pwritev_all : List ℕ → List (List ℕ) → ℕ → Option Writing
unfolding pwritev_loop
pwritev_all answers iov offset = pwritev_loop answers (unwritten iov offset)

drop_into : (n : ℕ) (v w : List ℕ) → n ≤ length v → drop n (v ++ w) ≡ drop n v ++ w
drop_into zero v w h = refl
drop_into (suc n) [] w h = absurd (omega (arith, h))
drop_into (suc n) (x ∷ v) w h = drop_into n v w (omega (arith, h))

drop_past : (n : ℕ) (v w : List ℕ) → length v ≤ n → drop n (v ++ w) ≡ drop (n - length v) w
drop_past n [] w h = ap (λ k. drop k w) (omega arith)
drop_past zero (x ∷ v) w h = absurd (omega (arith, h))
drop_past (suc n) (x ∷ v) w h =
    drop_past n v w (omega (arith, h)) ∙ ap (λ k. drop k w) (omega arith)

drop_none : (n : ℕ) (v : List ℕ) → n ≡ 0 → v ≡ drop n v
drop_none n v h = sym (ap (λ k. drop k v) h)

drop_bytes_lem :
    (n : ℕ) (vs : List (List ℕ))
    → n ≤ length (concat vs)
    → (ws : List (List ℕ)) × (drop_bytes n vs ≡ some ws) × (concat ws ≡ drop n (concat vs))
unfolding drop_bytes
drop_bytes_lem n [] h =
    let e : (n == 0) ≡ true = ground (arith, h) in
    rw e ([], refl, drop_none n [] (omega (arith, h)))
drop_bytes_lem n (v ∷ vs) h = elim (Bool-cases (n == 0)) [
  | inl stop ↦ rw stop (v ∷ vs, refl, drop_none n (v ++ concat vs) (ground (arith, stop)))
  | inr more ↦ rw more (elim (Bool-cases (leb (length v) n)) [
    | inl whole ↦ rw whole (
        let (ws, e, k) =
          drop_bytes_lem (n - length v) vs
            (ground (arith, h, whole, length-append v (concat vs))) in
        (ws, e, k ∙ sym (drop_past n v (concat vs) (ground (arith, whole)))))
    | inr part ↦
        rw part (drop n v ∷ vs, refl, sym (drop_into n v (concat vs) (ground (arith, part))))
  ])
]

unfoldable pub sum : List ℕ → ℕ
sum [] = 0
sum (n ∷ ns) = n + sum ns

-- The writes put these bytes into the file one after the other, from an offset on.
pub data WrittenAt (start : ℕ) : List (ℕ × List ℕ) → List ℕ → Type 0 where
  nothing : WrittenAt start [] []
  behind :
      {writes : List (ℕ × List ℕ)} {bytes : List ℕ} (place : ℕ) (more : List ℕ)
      → place ≡ start + length bytes
      → WrittenAt start writes bytes
      → WrittenAt start (writes ++ ((place, more) ∷ [])) (bytes ++ more)

-- What a loop comes to, from the bytes that are written and left.
record Wrote (w : Writing) (r : Option Writing) : Type 0 where
  next : Writing
  ends : r ≡ some next
  same : next.written ++ concat next.left ≡ w.written ++ concat w.left
  counted : w.total ≡ length w.written → next.total ≡ length next.written
  placed :
      (start : ℕ)
      → w.offset ≡ start + length w.written
      → WrittenAt start w.writes w.written
      → WrittenAt start next.writes next.written

pwritev_loop_lem :
    (answers : List ℕ) (w : Writing)
    → sum answers ≤ length (concat w.left)
    → Wrote w (pwritev_loop answers w)
unfolding pwritev_loop sum step_to
pwritev_loop_lem [] w h = record {
  next = w;
  ends = refl;
  same = refl;
  counted = λ k. k;
  placed = λ start e a. a;
}
pwritev_loop_lem (n ∷ ns) w h = elim (Bool-cases (length w.left == 0)) [
  | inl none_left ↦
      rw none_left
        (record { next = w; ends = refl; same = refl; counted = λ k. k; placed = λ start e a. a })
  | inr some_left ↦ rw some_left (elim (Bool-cases (n == 0)) [
    | inl stopped ↦
        rw stopped
          (record { next = w; ends = refl; same = refl; counted = λ k. k; placed = λ start e a. a })
    | inr wrote ↦ rw wrote (
        let (ws, e, k) = drop_bytes_lem n w.left (omega (arith, h)) in
        rw e (
          let r =
            pwritev_loop_lem ns
              (record {
                writes = w.writes ++ ((w.offset, take n (concat w.left)) ∷ []);
                written = w.written ++ take n (concat w.left);
                left = ws;
                total = w.total + n;
                offset = w.offset + n;
              })
              (omega (arith, h, ap length k, length-drop n (concat w.left))) in
          record {
            next = r.next;
            ends = r.ends;
            same =
                r.same
                ∙ append_assoc w.written (take n (concat w.left)) (concat ws)
                ∙ ap (λ l. w.written ++ l)
                    (ap (λ l. take n (concat w.left) ++ l) k ∙ take-append-drop n (concat w.left));
            counted = λ t. r.counted (
                omega (
                  arith,
                  t,
                  h,
                  length-append w.written (take n (concat w.left)),
                  length-take n (concat w.left),
                ));
            placed = λ start t a.
                r.placed start
                  (omega (
                    arith,
                    t,
                    h,
                    length-append w.written (take n (concat w.left)),
                    length-take n (concat w.left),
                  ))
                  (behind w.offset (take n (concat w.left)) t a);
          }))
  ])
]

-- Where pwritev(2) never writes more bytes than it is given, no assertion of `pwritev_all` fails: it
-- returns the count of the bytes written, which, with those that are left, are the bytes of the
-- iovecs, in order; and each call writes its bytes behind those of the calls in front of it, the first
-- at the offset that is given.
pub pwritev_all_lem :
    (answers : List ℕ) (iov : List (List ℕ)) (offset : ℕ)
    → sum answers ≤ length (concat iov)
    → (w : Writing) × (pwritev_all answers iov offset ≡ some w)
      × (w.written ++ concat w.left ≡ concat iov)
      × (w.total ≡ length w.written)
      × WrittenAt offset w.writes w.written
unfolding pwritev_all
pwritev_all_lem answers iov offset h =
    let r = pwritev_loop_lem answers (unwritten iov offset) h in
    (r.next, r.ends, r.same, r.counted refl, r.placed offset (omega arith) nothing)
