-- ===== src/Http/Headers/Laws.antt =====
-- What the header operations keep, replace and drop.
use tud_crash_tolerant_proxy.Prelude.{
  ℕ, ◌≡◌, refl, ap, sym, ◌∙◌, Bool, not, List, [], ◌∷◌, ◌++◌, if◌then◌else◌, append-nil,
  append_assoc, Bool-cases, inl, inr,
}
use tud_crash_tolerant_proxy.Http.Headers.{
  Header, strncasecmp_eq, is_kept, strip_loop, strip_headers, Replacing,
}

-- The headers that a test selects, in order.
unfoldable pub keep_if : (Header → Bool) → List Header → List Header
keep_if p [] = []
keep_if p (h ∷ hs) = if p h then h ∷ keep_if p hs else keep_if p hs

strip_loop_lem : (dst hs : List Header) → strip_loop dst hs ≡ dst ++ keep_if is_kept hs
unfolding strip_loop keep_if
strip_loop_lem dst [] = sym (append-nil dst)
strip_loop_lem dst (h ∷ hs) = elim (Bool-cases (is_kept h)) [
  | inl yes_kept ↦
      rw yes_kept
        (strip_loop_lem (dst ++ (h ∷ [])) hs ∙ append_assoc dst (h ∷ []) (keep_if is_kept hs))
  | inr dropped ↦ rw dropped (strip_loop_lem dst hs)
]

-- The headers that are not called `name`.
abbrev pub others : List ℕ → List Header → List Header
others name = keep_if (λ h. not (strncasecmp_eq h.name name))

-- The headers that are.
abbrev pub named : List ℕ → List Header → List Header
named name = keep_if (λ h. strncasecmp_eq h.name name)

keep_if-append :
    (p : Header → Bool) (xs ys : List Header) → keep_if p (xs ++ ys) ≡ keep_if p xs ++ keep_if p ys
unfolding keep_if
keep_if-append p [] ys = refl
keep_if-append p (x ∷ xs) ys = elim (Bool-cases (p x)) [
  | inl in_list ↦ rw in_list (ap (λ l. x ∷ l) (keep_if-append p xs ys))
  | inr out ↦ rw out (keep_if-append p xs ys)
]

-- The kept headers, in order: those whose name is, but for case, the beginning of one of the three
-- names. What the loop leaves in the array's front is just their list.
pub strip_headers_lem : (hs : List Header) → strip_headers hs ≡ keep_if is_kept hs
unfolding strip_headers
strip_headers_lem hs = strip_loop_lem [] hs

keep_if-keep_if : (p : Header → Bool) (hs : List Header) → keep_if p (keep_if p hs) ≡ keep_if p hs
unfolding keep_if
keep_if-keep_if p [] = refl
keep_if-keep_if p (h ∷ hs) = elim (Bool-cases (p h)) [
  | inl in_list ↦ rw in_list (rw in_list (ap (λ l. h ∷ l) (keep_if-keep_if p hs)))
  | inr out ↦ rw out (keep_if-keep_if p hs)
]

-- Stripping is by a property of each header alone: it goes through concatenation, and a second time
-- changes nothing.
pub strip_headers_stable :
    (xs ys : List Header)
    → (strip_headers (xs ++ ys) ≡ strip_headers xs ++ strip_headers ys)
      × (strip_headers (strip_headers xs) ≡ strip_headers xs)
strip_headers_stable xs ys = (
  simp strip_headers_lem (keep_if-append is_kept xs ys),
  simp strip_headers_lem (keep_if-keep_if is_kept xs),
)

-- The values under a name.
pub values : List ℕ → List Header → List (List ℕ)
values name [] = []
values name (h ∷ hs) =
    if strncasecmp_eq h.name name then h.value ∷ values name hs else values name hs

-- So far the name stands once if it was replaced, and else not at all.
IsReplacing : List ℕ → List ℕ → Replacing → Type 0
IsReplacing name value s = values name s.dst ≡ (if s.replaced then value ∷ [] else [])

record OneReplaced (name value : List ℕ) (s : Replacing) (h : Header) (t : Replacing) : Type 0 where
  once : IsReplacing name value t
  same : others name t.dst ≡ others name s.dst ++ others name (h ∷ [])

record AllReplaced (name value : List ℕ) (s : Replacing) (hs : List Header) (t : Replacing)
    : Type 0 where
  once : IsReplacing name value t
  same : others name t.dst ≡ others name s.dst ++ others name hs
