-- ===== src/Accept/First.antt =====
-- The first unused connection of a list.
use tud_crash_tolerant_proxy.Prelude.{
  ℕ, zero, suc, ◌<◌, ◌≡◌, refl, ap, true, false, some, List, [], ◌∷◌, ◌++◌, length, set, ◌==◌,
  if◌then◌else◌, arith, Bool-cases, inl, inr,
}
use tud_crash_tolerant_proxy.Shared.{
  Connection, conn_unused, conn_accepting, closed_endpoint, unused_connection,
}
use tud_crash_tolerant_proxy.Accept.{connection_at}

-- The index of the first unused connection, or that of one behind the last.
unfoldable pub first_unused : List Connection → ℕ
first_unused [] = 0
first_unused (c ∷ cs) = if c.state == conn_unused then 0 else suc (first_unused cs)

-- One unused connection more, if there is none.
unfoldable pub extend : List Connection → List Connection
extend [] = unused_connection ∷ []
extend (c ∷ cs) = if c.state == conn_unused then c ∷ cs else c ∷ extend cs

-- A connection in the place of the first unused one, or behind the last.
unfoldable pub claim : Connection → List Connection → List Connection
claim x [] = x ∷ []
claim x (c ∷ cs) = if c.state == conn_unused then x ∷ cs else c ∷ claim x cs

-- What `accept_connection` makes of a connection.
abbrev pub accepting : ℕ → Connection
accepting fd = record unused_connection {
  state = conn_accepting;
  downstream = record closed_endpoint { fd0 = some fd };
}

-- The first unused connection of the extended list.
pub record Ready (k : ℕ) (cs : List Connection) (claimed : Connection → List Connection)
    : Type 0 where
  pub inside : k < length cs
  pub empty : (connection_at cs k).state ≡ conn_unused
  pub sets : (x : Connection) → set cs k x ≡ claimed x

pub extend-Ready : (cs : List Connection) → Ready (first_unused cs) (extend cs) (λ x. claim x cs)
unfolding first_unused extend claim
extend-Ready [] = record { inside = omega arith; empty = refl; sets = λ x. refl }
extend-Ready (c ∷ cs) = elim (Bool-cases (c.state == conn_unused)) [
  | inl here ↦
      rw here (record { inside = omega arith; empty = ground (arith, here); sets = λ x. refl })
  | inr there ↦
      let r = extend-Ready cs in
      rw there (record {
        inside = omega (arith, r.inside);
        empty = r.empty;
        sets = λ x. ap (λ l. c ∷ l) (r.sets x);
      })
]

pub get_or-set :
    (cs : List Connection) (i : ℕ) (x : Connection)
    → i < length cs
    → connection_at (set cs i x) i ≡ x
get_or-set [] i x h = absurd (omega (arith, h))
get_or-set (c ∷ cs) zero x h = refl
get_or-set (c ∷ cs) (suc i) x h = get_or-set cs i x (omega (arith, h))

pub set-set : (cs : List Connection) (i : ℕ) (x y : Connection) → set (set cs i x) i y ≡ set cs i y
set-set [] i x y = refl
set-set (c ∷ cs) zero x y = refl
set-set (c ∷ cs) (suc i) x y = ap (λ l. c ∷ l) (set-set cs i x y)

pub get_or-append :
    (front back : List Connection) (c : Connection)
    → connection_at (front ++ (c ∷ back)) (length front) ≡ c
get_or-append [] back c = refl
get_or-append (f ∷ fs) back c = get_or-append fs back c

pub first_here :
    (c : Connection) (cs : List Connection)
    → (c.state == conn_unused) ≡ true
    → first_unused (c ∷ cs) ≡ 0
unfolding first_unused
first_here c cs h = rw h refl

pub first_there :
    (c : Connection) (cs : List Connection)
    → (c.state == conn_unused) ≡ false
    → first_unused (c ∷ cs) ≡ suc (first_unused cs)
unfolding first_unused
first_there c cs h = rw h refl

pub extend_here :
    (c : Connection) (cs : List Connection)
    → (c.state == conn_unused) ≡ true
    → extend (c ∷ cs) ≡ c ∷ cs
unfolding extend
extend_here c cs h = rw h refl

pub extend_there :
    (c : Connection) (cs : List Connection)
    → (c.state == conn_unused) ≡ false
    → extend (c ∷ cs) ≡ c ∷ extend cs
unfolding extend
extend_there c cs h = rw h refl
