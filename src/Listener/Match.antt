-- ===== src/Listener/Match.antt =====
-- Where `main_active` of listener/main_active.c puts a file descriptor that was lost after accept(2) or
-- connect(2).
pub mod Puts
use tud_crash_tolerant_proxy.Prelude.{
  ℕ, zero, suc, ◌+◌, ◌≡◌, refl, ap, sym, ◌∙◌, Bool, true, false, ◌&&◌, Option, none, some, List, [],
  ◌∷◌, map, ◌==◌, if◌then◌else◌, arith, Bool-cases, Option-cases, inl, inr,
}
use tud_crash_tolerant_proxy.Atomic.{Errno}
use tud_crash_tolerant_proxy.Shared.{Connection, conn_accepting, conn_connecting}
use tud_crash_tolerant_proxy.Util.Closep.{closep}

-- which file descriptor of a connection `dest` points to
pub data Dest : Type 0 where
  to_downstream to_upstream : Dest

unfoldable pub is_closed : Option ℕ → Bool
is_closed none = true
is_closed (some fd) = false

-- What the connection misses, by the two conditions of the loop.
unfoldable pub wants : Connection → Option Dest
unfolding is_closed
wants c =
    if (c.state == conn_accepting) && is_closed c.downstream.fd0
    then some to_downstream
    else if (c.state == conn_connecting) && is_closed c.upstream.fd0
    then some to_upstream
    else none

-- `num_match`, and the slot and the field that `dest_conn` and `dest` point to
pub record Matched : Type 0 where
  pub num_match : ℕ
  pub dest : Option (ℕ × Dest)

abbrev matches : Matched → ℕ → Option Dest → Matched
matches m slot none = m
matches m slot (some d) = record { num_match = m.num_match + 1; dest = some (slot, d) }

-- The loop over the connections, from a slot on.
unfoldable pub find_match : ℕ → Matched → List Connection → Matched
unfolding wants
find_match slot m [] = m
find_match slot m (c ∷ cs) = find_match (slot + 1) (matches m slot (wants c)) cs

-- `*dest = recovered_fd`
abbrev pub store_fd : ℕ → Dest → Connection → Connection
store_fd fd to_downstream c = record c { downstream = record c.downstream { fd0 = some fd } }
store_fd fd to_upstream c = record c { upstream = record c.upstream { fd0 = some fd } }

store_at : ℕ → Dest → ℕ → List Connection → List Connection
store_at fd d i [] = []
store_at fd d zero (c ∷ cs) = store_fd fd d c ∷ cs
store_at fd d (suc i) (c ∷ cs) = c ∷ store_at fd d i cs

store_dest : ℕ → Option (ℕ × Dest) → List Connection → List Connection
unfolding store_at
store_dest fd none cs = cs
store_dest fd (some (slot, d)) cs = store_at fd d slot cs

-- What becomes of the recovered file descriptor: the connections, and what `closep` leaves of it where
-- no connection takes it; `close` is what close(2) answers.
pub record Recovered : Type 0 where
  pub connections : List Connection
  pub unclaimed : Option ℕ

unfoldable pub put_recovered : Option Errno → ℕ → List Connection → Recovered
unfolding find_match store_dest
put_recovered close fd cs =
    let m = find_match 0 (record { num_match = 0; dest = none }) cs in
    if m.num_match == 1
    then record { connections = store_dest fd m.dest cs; unclaimed = none }
    else record { connections = cs; unclaimed = closep close (some fd) }

abbrev one_more : Option Dest → ℕ → ℕ
one_more none n = n
one_more (some d) n = suc n

-- How many connections miss a file descriptor.
unfoldable pub missing : List Connection → ℕ
missing [] = 0
missing (c ∷ cs) = one_more (wants c) (missing cs)

abbrev given : ℕ → Connection → Option Dest → Connection
given fd c none = c
given fd c (some d) = store_fd fd d c

-- A connection that is given what it misses.
unfoldable pub fill : ℕ → Connection → Connection
fill fd c = given fd c (wants c)

pub missing-none :
    (c : Connection) (cs : List Connection) → wants c ≡ none → missing (c ∷ cs) ≡ missing cs
unfolding missing
missing-none c cs h = ap (λ w. one_more w (missing cs)) h

pub missing-some :
    (c : Connection) (cs : List Connection) (d : Dest)
    → wants c ≡ some d
    → missing (c ∷ cs) ≡ suc (missing cs)
unfolding missing
missing-some c cs d h = ap (λ w. one_more w (missing cs)) h

pub fill-none : (fd : ℕ) (c : Connection) → wants c ≡ none → fill fd c ≡ c
unfolding fill
fill-none fd c h = ap (given fd c) h

pub fill-some :
    (fd : ℕ) (c : Connection) (d : Dest) → wants c ≡ some d → fill fd c ≡ store_fd fd d c
unfolding fill
fill-some fd c d h = ap (given fd c) h

map-fill_none : (fd : ℕ) (cs : List Connection) → missing cs ≡ 0 → map (fill fd) cs ≡ cs
map-fill_none fd [] h = refl
map-fill_none fd (c ∷ cs) h = elim (Option-cases (wants c)) [
  | inl nothing ↦
      ap (λ x. x ∷ map (fill fd) cs) (fill-none fd c nothing)
      ∙ ap (λ l. c ∷ l) (map-fill_none fd cs (sym (missing-none c cs nothing) ∙ h))
  | inr (d, e) ↦ absurd (omega (arith, h, missing-some c cs d e))
]

-- What the loop counts, and where it points.
record Found (fd slot : ℕ) (m : Matched) (cs : List Connection) : Type 0 where
  count : (find_match slot m cs).num_match ≡ m.num_match + missing cs
  unmoved : missing cs ≡ 0 → (find_match slot m cs).dest ≡ m.dest
  only :
      missing cs ≡ 1
      → (i : ℕ) × (d : Dest) × ((find_match slot m cs).dest ≡ some (slot + i, d))
        × (store_at fd d i cs ≡ map (fill fd) cs)

find_match-Found : (fd slot : ℕ) (m : Matched) (cs : List Connection) → Found fd slot m cs
unfolding find_match missing store_at
find_match-Found fd slot m [] = record {
  count = omega arith;
  unmoved = λ h. refl;
  only = λ h. absurd (omega (arith, h));
}
find_match-Found fd slot m (c ∷ cs) = elim (Option-cases (wants c)) [
  | inl nothing ↦
      let f = find_match-Found fd (slot + 1) m cs in
      let same : find_match slot m (c ∷ cs) ≡ find_match (slot + 1) m cs =
        ap (λ w. find_match (slot + 1) (matches m slot w) cs) nothing in
      let less : missing (c ∷ cs) ≡ missing cs = missing-none c cs nothing in
      record {
        count = ap (λ x. x.num_match) same ∙ f.count ∙ omega (arith, less);
        unmoved = λ h. ap (λ x. x.dest) same ∙ f.unmoved (sym less ∙ h);
        only = λ h.
            let (i, d, e, s) = f.only (sym less ∙ h) in
            (
              suc i,
              d,
              ap (λ x. x.dest) same ∙ e ∙ ap (λ n. some (n, d)) (omega arith),
              ap (λ l. c ∷ l) s ∙ ap (λ x. x ∷ map (fill fd) cs) (sym (fill-none fd c nothing)),
            );
      }
  | inr (d, e) ↦
      let m' = matches m slot (some d) in
      let f = find_match-Found fd (slot + 1) m' cs in
      let same : find_match slot m (c ∷ cs) ≡ find_match (slot + 1) m' cs =
        ap (λ w. find_match (slot + 1) (matches m slot w) cs) e in
      let more : missing (c ∷ cs) ≡ suc (missing cs) = missing-some c cs d e in
      record {
        count = ap (λ x. x.num_match) same ∙ f.count ∙ omega (arith, more);
        unmoved = λ h. absurd (omega (arith, more, h));
        only = λ h.
            let rest : missing cs ≡ 0 = omega (arith, more, h) in
            (
              0,
              d,
              ap (λ x. x.dest) same ∙ f.unmoved rest ∙ ap (λ n. some (n, d)) (omega arith),
              ap (λ x. x ∷ cs) (sym (fill-some fd c d e))
                  ∙ ap (λ l. fill fd c ∷ l) (sym (map-fill_none fd cs rest)),
            );
      }
]

pub put_recovered_lem :
    (close : Option Errno) (fd : ℕ) (cs : List Connection)
    → put_recovered close fd cs ≡ (
        if missing cs == 1
        then record { connections = map (fill fd) cs; unclaimed = none }
        else record { connections = cs; unclaimed = closep close (some fd) })
unfolding put_recovered store_dest
put_recovered_lem close fd cs =
    let f = find_match-Found fd 0 (record { num_match = 0; dest = none }) cs in
    let count : (find_match 0 (record { num_match = 0; dest = none }) cs).num_match ≡ missing cs =
      f.count ∙ omega arith in
    rw count (elim (Bool-cases (missing cs == 1)) [
      | inl one ↦
          let (i, d, e, s) = f.only (ground (arith, one)) in
          rw one (
            ap (λ l. record { connections = l; unclaimed = none })
              (ap (λ o. store_dest fd o cs) (e ∙ ap (λ n. some (n, d)) (omega arith)) ∙ s))
      | inr other ↦ rw other refl
    ])
