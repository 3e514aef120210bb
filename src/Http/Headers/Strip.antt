-- ===== src/Http/Headers/Strip.antt =====
-- Which headers `strip_headers` keeps, by their names.
use tud_crash_tolerant_proxy.Prelude.{
  ℕ, ◌≡◌, ◌≢◌, refl, subst, sym, true, List, [], ◌∷◌, Bool-cases, inl, inr, arith,
}
use tud_crash_tolerant_proxy.Http.Headers.{
  bytes, Header, to_lower, strncasecmp_eq, is_kept, strip_headers,
}
use tud_crash_tolerant_proxy.Http.Headers.Laws.{keep_if, strip_headers_lem}

-- A name is, but for case, the beginning of a text.
pub data Begins : List ℕ → List ℕ → Type 0 where
  nothing : {text : List ℕ} → Begins [] text
  letter :
      {c d : ℕ} {cs ds : List ℕ} → to_lower c ≡ to_lower d → Begins cs ds → Begins (c ∷ cs) (d ∷ ds)

-- The beginnings of the three names.
pub data Wanted (name : List ℕ) : Type 0 where
  host : Begins name (bytes "Host") → Wanted name
  content_length : Begins name (bytes "Content-Length") → Wanted name
  transfer_encoding : Begins name (bytes "Transfer-Encoding") → Wanted name

-- The headers with such a name, in order.
pub data Stripped : List Header → List Header → Type 0 where
  no_more : Stripped [] []
  stays :
      {hs ks : List Header} (h : Header)
      → Wanted h.name
      → Stripped hs ks
      → Stripped (h ∷ hs) (h ∷ ks)
  goes :
      {hs ks : List Header} (h : Header) → ¬ Wanted h.name → Stripped hs ks → Stripped (h ∷ hs) ks

-- No byte is NUL.
unfoldable pub IsText : List ℕ → Type 0
IsText [] = Unit {0}
IsText (c ∷ cs) = (c ≢ 0) × IsText cs

unfoldable pub AllText : List Header → Type 0
AllText [] = Unit {0}
AllText (h ∷ hs) = IsText h.name × AllText hs

strncasecmp_eq-Begins :
    (name text : List ℕ) → IsText name → strncasecmp_eq name text ≡ true → Begins name text
unfolding strncasecmp_eq IsText
strncasecmp_eq-Begins [] text t h = nothing
strncasecmp_eq-Begins (c ∷ cs) [] t h = absurd (ground (arith, t.0, h))
strncasecmp_eq-Begins (c ∷ cs) (d ∷ ds) t h =
    letter (ground (arith, h)) (strncasecmp_eq-Begins cs ds t.1 (ground (arith, h)))

Begins-strncasecmp_eq : {name text : List ℕ} → Begins name text → strncasecmp_eq name text ≡ true
unfolding strncasecmp_eq
Begins-strncasecmp_eq nothing = refl
Begins-strncasecmp_eq (letter e b) = ground (arith, e, Begins-strncasecmp_eq b)

is_kept-Wanted : (h : Header) → IsText h.name → is_kept h ≡ true → Wanted h.name
unfolding is_kept
is_kept-Wanted h t e = elim (Bool-cases (strncasecmp_eq h.name (bytes "Host"))) [
  | inl a ↦ host (strncasecmp_eq-Begins h.name _ t a)
  | inr a ↦ elim (Bool-cases (strncasecmp_eq h.name (bytes "Content-Length"))) [
    | inl b ↦ content_length (strncasecmp_eq-Begins h.name _ t b)
    | inr b ↦ transfer_encoding (strncasecmp_eq-Begins h.name _ t (ground (arith, a, b, e)))
  ]
]

Wanted-is_kept : (h : Header) → Wanted h.name → is_kept h ≡ true
unfolding is_kept
Wanted-is_kept h (host b) = ground (arith, Begins-strncasecmp_eq b)
Wanted-is_kept h (content_length b) = ground (arith, Begins-strncasecmp_eq b)
Wanted-is_kept h (transfer_encoding b) = ground (arith, Begins-strncasecmp_eq b)

keep_if-Stripped : (hs : List Header) → AllText hs → Stripped hs (keep_if is_kept hs)
unfolding AllText keep_if
keep_if-Stripped [] t = no_more
keep_if-Stripped (h ∷ hs) t = elim (Bool-cases (is_kept h)) [
  | inl e ↦ rw e (stays h (is_kept-Wanted h t.0 e) (keep_if-Stripped hs t.1))
  | inr e ↦ rw e (goes h (λ w. ground (arith, Wanted-is_kept h w, e)) (keep_if-Stripped hs t.1))
]

-- Where no name has a NUL, `strip_headers` leaves, in order, just the headers whose name is, but for
-- case, "Host", "Content-Length" or "Transfer-Encoding" or the beginning of one of these.
pub strip_headers-Stripped : (hs : List Header) → AllText hs → Stripped hs (strip_headers hs)
strip_headers-Stripped hs t =
    subst (Stripped hs) (sym (strip_headers_lem hs)) (keep_if-Stripped hs t)
