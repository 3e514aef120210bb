-- ===== src/Http/Tests.antt =====
-- The message functions of worker/transform.c on small inputs.
use tud_crash_tolerant_proxy.Prelude.{
  ◌≤◌, ◌≡◌, refl, true, false, List, [], ◌∷◌, ltb, length, dec_le, ℕ_discrete, arith,
}
use tud_crash_tolerant_proxy.Http.Headers.{
  Header, bytes, strip_headers, is_kept, strncasecmp_eq, to_lower,
}
use tud_crash_tolerant_proxy.Http.Headers.Strip.{IsText, AllText, Stripped, strip_headers-Stripped}
use tud_crash_tolerant_proxy.Http.Looks.{
  looks_like_http_request, looks_like_http_response, looks_like_prefix,
}
use tud_crash_tolerant_proxy.Http.Serialize.{serialize_http, message, serialize_http_lem}

abbrev host : Header
host = record { name = bytes "hOST"; value = bytes "a" }

abbrev agent : Header
agent = record { name = bytes "User-Agent"; value = bytes "b" }

-- the name is a beginning of `Host`
abbrev ho : Header
ho = record { name = bytes "Ho"; value = bytes "c" }

abbrev hidden : Header
hidden = record agent { value = bytes "crash-tolerant-proxy" }

abbrev sample : List Header
sample = host ∷ agent ∷ ho ∷ agent ∷ []

strip-sample : strip_headers sample ≡ host ∷ ho ∷ []
unfolding strip_headers is_kept strncasecmp_eq to_lower ℕ_discrete dec_le
strip-sample = refl

looks-sample :
    (looks_like_http_request (bytes "GET / H") ≡ true)
    × (looks_like_http_request (bytes "get / H") ≡ false)
    × (looks_like_http_response (bytes "HTTP/1.1 2") ≡ true)
    × (looks_like_http_response (bytes "HTTP/2") ≡ false)
unfolding looks_like_http_request looks_like_http_response ℕ_discrete dec_le
looks-sample = (refl, refl, refl, refl)

sample-AllText : AllText sample
unfolding AllText IsText
sample-AllText = ground arith

strip_headers-Stripped_example : Stripped sample (strip_headers sample)
strip_headers-Stripped_example = strip_headers-Stripped sample sample-AllText

looks_like_prefix_example :
    (looks_like_http_request (bytes "GET / H") ≡ true
      → looks_like_http_request (bytes "GET") ≡ true)
    × (looks_like_http_response (bytes "GET / H") ≡ true
        → looks_like_http_response (bytes "GET") ≡ true)
looks_like_prefix_example = looks_like_prefix (bytes "GET") (bytes " / H")

serialize_http_lem_example :
    ((serialize_http 90 (bytes "HTTP/1.1 200 OK") sample).failed
      ≡ ltb 90 (length (message (bytes "HTTP/1.1 200 OK") sample)))
    × (length (message (bytes "HTTP/1.1 200 OK") sample) ≤ 90
        → (serialize_http 90 (bytes "HTTP/1.1 200 OK") sample).out
          ≡ message (bytes "HTTP/1.1 200 OK") sample)
serialize_http_lem_example = serialize_http_lem 90 (bytes "HTTP/1.1 200 OK") sample
