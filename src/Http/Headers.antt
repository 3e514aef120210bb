-- ===== src/Http/Headers.antt =====
-- `strip_headers` and `replace_header` of worker/transform.c.
-- A text is the list of its bytes; a C string literal is such a list without the NUL.
pub mod Laws
pub mod Strip
use Prim.Native.Char.{code}
use Prim.Native.String
use Prim.Native.String.{String}
use tud_crash_tolerant_proxy.Prelude.{
  ℕ, ◌+◌, Bool, true, false, ◌&&◌, ◌||◌, not, Option, none, some, List, [], ◌∷◌, ◌++◌, leb, ◌==◌,
  if◌then◌else◌,
}

-- The bytes of a literal.
abbrev pub bytes : String → List ℕ
bytes String.[] = []
bytes (String.◌∷◌ c s) = code c ∷ bytes s

-- `struct phr_header`
pub record Header : Type 0 where
  pub name : List ℕ
  pub value : List ℕ

-- `tolower` in the C locale
unfoldable pub to_lower : ℕ → ℕ
to_lower c = if leb b'A' c && leb c b'Z' then c + 32 else c

-- `strncasecmp(name, literal, name_len) == 0`: at most the `name_len` bytes of `name` are compared,
-- and none after a common NUL.
unfoldable pub strncasecmp_eq : List ℕ → List ℕ → Bool
unfolding to_lower
strncasecmp_eq [] literal = true
strncasecmp_eq (c ∷ cs) [] = c == 0
strncasecmp_eq (c ∷ cs) (d ∷ ds) = (to_lower c == to_lower d) && strncasecmp_eq cs ds

-- The condition of `strip_headers`.
unfoldable pub is_kept : Header → Bool
unfolding strncasecmp_eq
is_kept h =
    strncasecmp_eq h.name (bytes "Host")
    || strncasecmp_eq h.name (bytes "Content-Length")
    || strncasecmp_eq h.name (bytes "Transfer-Encoding")

-- The loop: `dst` holds the headers that have been moved to the front.
strip_loop : List Header → List Header → List Header
strip_loop dst [] = dst
strip_loop dst (h ∷ hs) = strip_loop (if is_kept h then dst ++ (h ∷ []) else dst) hs

unfoldable pub strip_headers : List Header → List Header
unfolding strip_loop
strip_headers hs = strip_loop [] hs

-- What the loop of `replace_header` has at hand.
pub record Replacing : Type 0 where
  pub dst : List Header
  pub replaced : Bool

-- One round: a header of another name stays; the first of this name gets the value, and later ones go.
replace_one : List ℕ → List ℕ → Replacing → Header → Replacing
replace_one name value s h =
    if not (strncasecmp_eq h.name name)
    then record s { dst = s.dst ++ (h ∷ []) }
    else if not s.replaced
    then record { dst = s.dst ++ (record { name = h.name; value = value } ∷ []); replaced = true }
    else s

replace_loop : List ℕ → List ℕ → Replacing → List Header → Replacing
replace_loop name value s [] = s
replace_loop name value s (h ∷ hs) = replace_loop name value (replace_one name value s h) hs

-- `none` where `realloc` fails; it is asked for room only if no header had this name and none was
-- dropped, that is, if nothing was replaced.
unfoldable pub replace_header : Bool → List ℕ → List ℕ → List Header → Option (List Header)
unfolding replace_loop replace_one
replace_header realloc_ok name value hs =
    let s = replace_loop name value (record { dst = []; replaced = false }) hs in
    if s.replaced
    then some s.dst
    else if realloc_ok
    then some (s.dst ++ (record { name = name; value = value } ∷ []))
    else none
