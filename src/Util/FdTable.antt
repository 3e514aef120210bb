-- ===== src/Util/FdTable.antt =====
-- `array_append` of common/util.c, and `fd_info_get` of base/fd_info.c: the array that has an entry for
-- every file descriptor up to the greatest one asked for.
use tud_crash_tolerant_proxy.Prelude.{
  ℕ, zero, suc, ◌+◌, ◌≤◌, ◌<◌, ◌≡◌, refl, ap, sym, ◌∙◌, Bool, true, false, Option, none, some, List,
  [], ◌∷◌, ◌++◌, leb, if◌then◌else◌, length, length-append, append_assoc, append-nil, Bool-cases,
  inl, inr, arith,
}

module _ {A : Type 0} where
  -- `none` where `realloc` has no memory for so many entries.
  unfoldable pub array_append : (ℕ → Bool) → List A → A → Option (List A)
  array_append realloc_ok array elem =
      if realloc_ok (length array + 1) then some (array ++ (elem ∷ [])) else none

  -- One round of the loop, by whether the array could grow.
  after_append : List A → Option (List A) → Option (List A × Bool) → Option (List A × Bool)
  after_append array none again = some (array, false)
  after_append array (some longer) again = again

  -- The `while` loop: the array, and whether it is long enough; `none` when the fuel runs out.
  unfoldable pub grow : ℕ → (ℕ → Bool) → A → List A → ℕ → Option (List A × Bool)
  unfolding array_append after_append
  grow zero realloc_ok empty array fd = none
  grow (suc fuel) realloc_ok empty array fd =
      let again = grow fuel realloc_ok empty (array ++ (empty ∷ [])) fd in
      if leb (length array) fd
      then after_append array (array_append realloc_ok array empty) again
      else some (array, true)

  found : ℕ → Option (List A × Bool) → Option (List A × Option ℕ)
  found fd none = none
  found fd (some (array, ok)) = some (array, if ok then some fd else none)

  -- The array, and the index of the entry, `none` for NULL; a negative descriptor is `none`.
  unfoldable pub fd_info_get : (ℕ → Bool) → A → List A → Option ℕ → Option (List A × Option ℕ)
  unfolding found grow
  fd_info_get realloc_ok empty array none = some (array, none)
  fd_info_get realloc_ok empty array (some fd) = found fd (grow (fd + 2) realloc_ok empty array fd)

  unfoldable pub repeat : ℕ → A → List A
  repeat zero x = []
  repeat (suc n) x = x ∷ repeat n x

  length-repeat : (n : ℕ) (x : A) → length (repeat n x) ≡ n
  unfolding repeat
  length-repeat zero x = refl
  length-repeat (suc n) x = ap (λ k. suc k) (length-repeat n x)

  -- What the loop comes to: old entries stay, and only as many default ones follow as it takes.
  record Grown (realloc_ok : ℕ → Bool) (empty : A) (array : List A) (fd : ℕ)
      (r : Option (List A × Bool)) : Type 0 where
    count : ℕ
    long_enough : Bool
    ends : r ≡ some (array ++ repeat count empty, long_enough)
    reaches : long_enough ≡ true → fd < length array + count
    least : length array ≤ fd + 1 → length array + count ≤ fd + 1
    none_added : fd < length array → count ≡ 0
    succeeds : ((n : ℕ) → realloc_ok n ≡ true) → long_enough ≡ true

  enough-Grown :
      (realloc_ok : ℕ → Bool) (empty : A) (array : List A) (fd : ℕ)
      → fd < length array
      → Grown realloc_ok empty array fd (some (array, true))
  unfolding repeat
  enough-Grown realloc_ok empty array fd h = record {
    count = 0;
    long_enough = true;
    ends = ap (λ l. some (l, true)) (sym (append-nil array));
    reaches = λ k. omega (arith, h);
    least = λ k. omega (arith, k);
    none_added = λ k. refl;
    succeeds = λ k. refl;
  }

  failed-Grown :
      (realloc_ok : ℕ → Bool) (empty : A) (array : List A) (fd : ℕ)
      → realloc_ok (length array + 1) ≡ false
      → Grown realloc_ok empty array fd (some (array, false))
  unfolding repeat
  failed-Grown realloc_ok empty array fd h = record {
    count = 0;
    long_enough = false;
    ends = ap (λ l. some (l, false)) (sym (append-nil array));
    reaches = λ k. ground (arith, k);
    least = λ k. omega (arith, k);
    none_added = λ k. refl;
    succeeds = λ k. sym h ∙ k (length array + 1);
  }

  longer-Grown :
      (realloc_ok : ℕ → Bool) (empty : A) (array : List A) (fd : ℕ) (r : Option (List A × Bool))
      → length array ≤ fd
      → Grown realloc_ok empty (array ++ (empty ∷ [])) fd r
      → Grown realloc_ok empty array fd r
  unfolding repeat
  longer-Grown realloc_ok empty array fd r h g = record {
    count = suc g.count;
    long_enough = g.long_enough;
    ends =
        g.ends
        ∙ ap (λ l. some (l, g.long_enough))
            (append_assoc array (empty ∷ []) (repeat g.count empty));
    reaches = λ k. omega (arith, g.reaches k, length-append array (empty ∷ []));
    least = λ k. omega (
      arith,
      length-append array (empty ∷ []),
      g.least (omega (arith, h, length-append array (empty ∷ []))),
    );
    none_added = λ k. absurd (omega (arith, h, k));
    succeeds = g.succeeds;
  }

  grow-Grown :
      (fuel : ℕ) (realloc_ok : ℕ → Bool) (empty : A) (array : List A) (fd : ℕ)
      → fd < fuel + length array
      → Grown realloc_ok empty array fd (grow (suc fuel) realloc_ok empty array fd)
  unfolding grow array_append after_append
  grow-Grown zero realloc_ok empty array fd h =
      let far : leb (length array) fd ≡ false = ground (arith, h) in
      rw far (enough-Grown realloc_ok empty array fd (omega (arith, h)))
  grow-Grown (suc fuel) realloc_ok empty array fd h = elim (Bool-cases (leb (length array) fd)) [
    | inr far ↦ rw far (enough-Grown realloc_ok empty array fd (ground (arith, far)))
    | inl short ↦ rw short (elim (Bool-cases (realloc_ok (length array + 1))) [
      | inr full ↦ rw full (failed-Grown realloc_ok empty array fd full)
      | inl room ↦ rw room (
          longer-Grown realloc_ok empty array fd _ (ground (arith, short)) (
            grow-Grown fuel realloc_ok empty (array ++ (empty ∷ [])) fd
              (omega (arith, h, length-append array (empty ∷ [])))))
    ])
  ]

  -- What `fd_info_get` comes to for a descriptor that is not negative.
  pub record Looked (realloc_ok : ℕ → Bool) (empty : A) (array : List A) (fd : ℕ)
      (r : Option (List A × Option ℕ)) : Type 0 where
    pub count : ℕ
    pub ok : Bool
    pub ends : r ≡ some (array ++ repeat count empty, if ok then some fd else none)
    pub reaches : ok ≡ true → fd < length (array ++ repeat count empty)
    pub least : length array ≤ fd + 1 → length (array ++ repeat count empty) ≤ fd + 1
    pub none_added : fd < length array → count ≡ 0
    pub succeeds : ((n : ℕ) → realloc_ok n ≡ true) → ok ≡ true

  pub fd_info_get-Looked :
      (realloc_ok : ℕ → Bool) (empty : A) (array : List A) (fd : ℕ)
      → Looked realloc_ok empty array fd (fd_info_get realloc_ok empty array (some fd))
  unfolding fd_info_get found
  fd_info_get-Looked realloc_ok empty array fd =
      let g = grow-Grown (suc fd) realloc_ok empty array fd (omega arith) in
      let two : fd + 2 ≡ suc (suc fd) = omega arith in
      let size : length (array ++ repeat g.count empty) ≡ length array + g.count =
        length-append array (repeat g.count empty)
        ∙ ap (λ n. length array + n) (length-repeat g.count empty) in
      record {
        count = g.count;
        ok = g.long_enough;
        ends = ap (found fd) (ap (λ n. grow n realloc_ok empty array fd) two ∙ g.ends);
        reaches = λ k. omega (arith, size, g.reaches k);
        least = λ k. omega (arith, size, g.least k);
        none_added = g.none_added;
        succeeds = g.succeeds;
      }

  -- What it comes to for any descriptor; `none` is a negative one.
  pub data LooksUp (realloc_ok : ℕ → Bool) (empty : A) (array : List A)
      : Option ℕ → Option (List A × Option ℕ) → Type 0 where
    negative : LooksUp realloc_ok empty array none (some (array, none))
    looked :
        {fd : ℕ} {r : Option (List A × Option ℕ)}
        → Looked realloc_ok empty array fd r
        → LooksUp realloc_ok empty array (some fd) r

  -- `fd_info_get` returns. For a negative descriptor it returns no entry, and the array stays. For any
  -- other one the entries that were there stay, and default ones follow them only as far as the
  -- descriptor needs; an entry that it returns is in the array; and it returns none only where there
  -- is no memory.
  pub fd_info_get-LooksUp :
      (realloc_ok : ℕ → Bool) (empty : A) (array : List A) (fd : Option ℕ)
      → LooksUp realloc_ok empty array fd (fd_info_get realloc_ok empty array fd)
  unfolding fd_info_get
  fd_info_get-LooksUp realloc_ok empty array none = negative
  fd_info_get-LooksUp realloc_ok empty array (some fd) =
      looked (fd_info_get-Looked realloc_ok empty array fd)
