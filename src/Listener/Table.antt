-- ===== src/Listener/Table.antt =====
-- The table of known file descriptors of listener/main_active.c: `fd_info_get` and the store of the entry.
use tud_crash_tolerant_proxy.Prelude.{
  ℕ, zero, suc, ◌-◌, ◌^◌, ◌<◌, ◌≡◌, ◌≢◌, refl, ap, sym, subst, ◌∙◌, Bool, true, false, Option, none,
  some, List, [], ◌∷◌, ◌++◌, length, get_or, set, if◌then◌else◌, ◌==◌, ◌⊎◌, arith, Bool-cases, inl,
  inr,
}
use tud_crash_tolerant_proxy.Util.FdTable.{fd_info_get, fd_info_get-Looked, repeat}

-- the values of `fd_info::type`
pub data FdType : Type 0 where
  fd_type_unknown fd_type_ipc fd_type_signal fd_type_conn fd_type_listen fd_type_pid
        fd_type_ignore :
      FdType

-- `struct fd_info`, as FD_INFO_LISTENER has it
pub record FdEntry : Type 0 where
  pub type : FdType
  pub slot : ℕ

-- the entry that `fd_info_get` fills the array with
abbrev pub empty_entry : FdEntry
empty_entry = record { type = fd_type_unknown; slot = 2 ^ 64 - 1 }

abbrev pub FdTable : Type 0
FdTable = List FdEntry

-- The entry of a file descriptor; beyond the end it is the one that it would get.
abbrev pub entry_at : FdTable → ℕ → FdEntry
entry_at table fd = get_or table fd empty_entry

stored : FdEntry → FdTable → Option (FdTable × Option ℕ) → FdTable × Bool
stored e table none = (table, false)
stored e table (some (longer, none)) = (longer, false)
stored e table (some (longer, some fd)) = (set longer fd e, true)

-- `info = fd_info_get(...)`, and `*info = e` where it is not NULL
unfoldable pub register : (ℕ → Bool) → FdEntry → FdTable → Option ℕ → FdTable × Bool
unfolding stored
register realloc_ok e table fd = stored e table (fd_info_get realloc_ok empty_entry table fd)

get_or-repeat :
    (table : FdTable) (n i : ℕ)
    → get_or (table ++ repeat n empty_entry) i empty_entry ≡ get_or table i empty_entry
unfolding repeat
get_or-repeat [] zero i = refl
get_or-repeat [] (suc n) zero = refl
get_or-repeat [] (suc n) (suc i) = get_or-repeat [] n i
get_or-repeat (e ∷ es) n zero = refl
get_or-repeat (e ∷ es) n (suc i) = get_or-repeat es n i

get_or-set_self :
    (table : FdTable) (i : ℕ) (e : FdEntry)
    → i < length table
    → get_or (set table i e) i empty_entry ≡ e
get_or-set_self [] i e h = absurd (omega (arith, h))
get_or-set_self (x ∷ xs) zero e h = refl
get_or-set_self (x ∷ xs) (suc i) e h = get_or-set_self xs i e (omega (arith, h))

get_or-set_other :
    (table : FdTable) (i j : ℕ) (e : FdEntry)
    → i ≢ j
    → get_or (set table i e) j empty_entry ≡ get_or table j empty_entry
get_or-set_other [] i j e h = refl
get_or-set_other (x ∷ xs) zero zero e h = absurd (h refl)
get_or-set_other (x ∷ xs) zero (suc j) e h = refl
get_or-set_other (x ∷ xs) (suc i) zero e h = refl
get_or-set_other (x ∷ xs) (suc i) (suc j) e h =
    get_or-set_other xs i j e (λ k. h (ap (λ n. suc n) k))

-- `fd_info_get` alone shows the same entries.
pub record Got (realloc_ok : ℕ → Bool) (table : FdTable) (fd : ℕ) (r : Option (FdTable × Option ℕ))
    : Type 0 where
  pub longer : FdTable
  pub ok : Bool
  pub ends : r ≡ some (longer, if ok then some fd else none)
  pub same : (other : ℕ) → entry_at longer other ≡ entry_at table other
  pub reaches : ok ≡ true → fd < length longer
  pub succeeds : ((n : ℕ) → realloc_ok n ≡ true) → ok ≡ true

pub get-Got :
    (realloc_ok : ℕ → Bool) (table : FdTable) (fd : ℕ)
    → Got realloc_ok table fd (fd_info_get realloc_ok empty_entry table (some fd))
get-Got realloc_ok table fd =
    let g = fd_info_get-Looked realloc_ok empty_entry table fd in
    record {
      longer = table ++ repeat g.count empty_entry;
      ok = g.ok;
      ends = g.ends;
      same = get_or-repeat table g.count;
      reaches = g.reaches;
      succeeds = g.succeeds;
    }

-- What registering comes to.
pub record Registered (e : FdEntry) (table : FdTable) (fd : ℕ) (r : FdTable × Bool) : Type 0 where
  pub self : r.1 ≡ true → entry_at r.0 fd ≡ e
  pub others : (other : ℕ) → fd ≢ other → entry_at r.0 other ≡ entry_at table other
  pub either : (other : ℕ) → (entry_at r.0 other ≡ entry_at table other) ⊎ (entry_at r.0 other ≡ e)

pub register-Registered :
    (realloc_ok : ℕ → Bool) (e : FdEntry) (table : FdTable) (fd : ℕ)
    → Registered e table fd (register realloc_ok e table (some fd))
unfolding register stored
register-Registered realloc_ok e table fd =
    let g = get-Got realloc_ok table fd in
    subst (λ o. Registered e table fd (stored e table o)) (sym g.ends)
      (elim (Bool-cases g.ok) [
        | inl good ↦ rw good (record {
          self = λ k. get_or-set_self g.longer fd e (g.reaches good);
          others = λ other h. get_or-set_other g.longer fd other e h ∙ g.same other;
          either = λ other. elim (Bool-cases (fd == other)) [
            | inl same ↦
                let eq : fd ≡ other = ground (arith, same) in
                inr (
                  ap (λ i. get_or (set g.longer fd e) i empty_entry) (sym eq)
                  ∙ get_or-set_self g.longer fd e (g.reaches good))
            | inr far ↦
                inl (
                  get_or-set_other g.longer fd other e (λ x. ground (arith, far, x)) ∙ g.same other)
          ];
        })
        | inr bad ↦ rw bad (record {
          self = λ k. ground (arith, k);
          others = λ other h. g.same other;
          either = λ other. inl (g.same other);
        })
      ])

pub register-succeeds :
    (realloc_ok : ℕ → Bool) (e : FdEntry) (table : FdTable) (fd : ℕ)
    → ((n : ℕ) → realloc_ok n ≡ true)
    → (register realloc_ok e table (some fd)).1 ≡ true
unfolding register stored
register-succeeds realloc_ok e table fd h =
    let g = get-Got realloc_ok table fd in
    ap (λ o. (stored e table o).1)
      (g.ends ∙ ap (λ t. some (g.longer, if t then some fd else none)) (g.succeeds h))
