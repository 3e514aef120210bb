-- ===== src/Http/Looks.antt =====
-- `looks_like_http_request` and `looks_like_http_response` of worker/transform.c: whether bytes may
-- be the beginning of a message. The list is `buf[0..len)`.
use tud_crash_tolerant_proxy.Prelude.{
  ℕ, ◌≡◌, refl, Bool, true, false, ◌&&◌, List, [], ◌∷◌, ◌++◌, leb, ◌==◌, if◌then◌else◌, arith,
}
use tud_crash_tolerant_proxy.Http.Headers.{bytes}

-- `'A' <= c && c <= 'Z'` and `'0' <= c && c <= '9'`
abbrev pub is_capital : ℕ → Bool
is_capital c = leb b'A' c && leb c b'Z'

abbrev pub is_decimal : ℕ → Bool
is_decimal c = leb b'0' c && leb c b'9'

-- The `while` loop of the first function, and of the second: the first byte of no letter, or of no
-- digit, must be a space.
pub capitals : List ℕ → Bool
capitals [] = true
capitals (c ∷ cs) = if is_capital c then capitals cs else c == b' '

pub decimals : List ℕ → Bool
decimals [] = true
decimals (c ∷ cs) = if is_decimal c then decimals cs else c == b' '

unfoldable pub looks_like_http_request : List ℕ → Bool
unfolding capitals
looks_like_http_request [] = true
looks_like_http_request (c ∷ cs) = if is_capital c then capitals cs else false

-- The `for` loop over the literal's bytes, then the digits.
pub version_then : List ℕ → List ℕ → Bool
version_then [] text = decimals text
version_then (p ∷ ps) [] = true
version_then (p ∷ ps) (c ∷ cs) = if p == c then version_then ps cs else false

unfoldable pub looks_like_http_response : List ℕ → Bool
unfolding version_then decimals
looks_like_http_response = version_then (bytes "HTTP/1.")

capitals_prefix : (xs ys : List ℕ) → capitals (xs ++ ys) ≡ true → capitals xs ≡ true
unfolding capitals
capitals_prefix [] ys h = refl
capitals_prefix (c ∷ cs) ys h = ground (arith, capitals_prefix cs ys)

decimals_prefix : (xs ys : List ℕ) → decimals (xs ++ ys) ≡ true → decimals xs ≡ true
unfolding decimals
decimals_prefix [] ys h = refl
decimals_prefix (c ∷ cs) ys h = ground (arith, decimals_prefix cs ys)

version_then_prefix :
    (ps xs ys : List ℕ) → version_then ps (xs ++ ys) ≡ true → version_then ps xs ≡ true
unfolding version_then
version_then_prefix [] xs ys h = decimals_prefix xs ys h
version_then_prefix (p ∷ ps) [] ys h = refl
version_then_prefix (p ∷ ps) (c ∷ cs) ys h = ground (arith, version_then_prefix ps cs ys)

request_prefix :
    (xs ys : List ℕ) → looks_like_http_request (xs ++ ys) ≡ true → looks_like_http_request xs ≡ true
unfolding looks_like_http_request
request_prefix [] ys h = refl
request_prefix (c ∷ cs) ys h = ground (arith, capitals_prefix cs ys)

-- A message that passes either test passes it from its first byte on, however it is cut: neither test
-- turns away the beginning of what it would accept.
pub looks_like_prefix :
    (xs ys : List ℕ)
    → (looks_like_http_request (xs ++ ys) ≡ true → looks_like_http_request xs ≡ true)
      × (looks_like_http_response (xs ++ ys) ≡ true → looks_like_http_response xs ≡ true)
unfolding looks_like_http_response
looks_like_prefix xs ys = (request_prefix xs ys, version_then_prefix (bytes "HTTP/1.") xs ys)
