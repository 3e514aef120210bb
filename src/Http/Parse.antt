-- ===== src/Http/Parse.antt =====
-- The macro `WRAP_PHR` of worker/transform.c, which `parse_request` and `parse_response` consist of,
-- and `eval_parse_result`. The parser of picohttpparser is an argument.
use tud_crash_tolerant_proxy.Prelude.{
  ℕ, zero, suc, ◌+◌, ◌*◌, ◌≤◌, ◌<◌, ◌≡◌, refl, Bool, true, not, Option, none, some, List, length,
  ltb, ◌==◌, if◌then◌else◌, Bool-cases, inl, inr, arith,
}
use tud_crash_tolerant_proxy.Ring.{ring_buffer_size}
use tud_crash_tolerant_proxy.Http.Headers.{Header}

-- What `phr_parse_*` answers: PHR_TRUNC; PHR_ERROR, with the count of headers it leaves in
-- `num_headers`; or the count of bytes consumed, with the message.
pub data Phr (A : Type 0) : Type 0 where
  phr_trunc : Phr A
  phr_error : ℕ → Phr A
  phr_done : ℕ → A → List Header → Phr A

-- A parser, given the room for headers and the bytes.
abbrev pub Parser : Type 0 → Type 0
Parser A = ℕ → List ℕ → Phr A

-- What `WRAP_PHR` returns: -3, -1, 0, or the count of bytes consumed.
pub data Parsed (A : Type 0) : Type 0 where
  no_memory malformed incomplete : Parsed A
  complete : ℕ → A → List Header → Parsed A

-- One answer; `resize` stands for what follows `goto resize`.
after_phr : {A : Type 0} → ℕ → Option (Parsed A) → Phr A → Option (Parsed A)
after_phr max_headers resize phr_trunc = some incomplete
after_phr max_headers resize (phr_error num_headers) =
    if num_headers == max_headers then resize else some malformed
after_phr max_headers resize (phr_done ret msg headers) =
    if ltb 0 ret then some (complete ret msg headers) else none

-- The `while` loop; `none` if the fuel runs out or the assertion `ret > 0` fails. `realloc_ok n` is
-- whether there is memory for `n` headers.
unfoldable pub phr_loop : {A : Type 0} → ℕ → (ℕ → Bool) → Parser A → ℕ → List ℕ → Option (Parsed A)
unfolding after_phr
phr_loop zero realloc_ok phr max_headers buf = none
phr_loop (suc fuel) realloc_ok phr max_headers buf =
    let again = phr_loop fuel realloc_ok phr (max_headers + 16) buf in
    after_phr max_headers (if realloc_ok (max_headers + 16) then again else some no_memory)
      (phr max_headers buf)

-- `parse_request` and `parse_response`: the array of headers is empty at first. A header takes up
-- bytes of the message, so that the loop does not go round more often than there are bytes.
unfoldable pub wrap_phr : {A : Type 0} → (ℕ → Bool) → Parser A → List ℕ → Option (Parsed A)
unfolding phr_loop
wrap_phr realloc_ok phr buf =
    if realloc_ok 16 then phr_loop (length buf + 1) realloc_ok phr 16 buf else some no_memory

-- What the documentation of picohttpparser says of a parser: it reports no more headers than the
-- message has bytes, and it consumes at least one byte and none that is not there.
pub record IsParser {A : Type 0} (phr : Parser A) : Type 0 where
  pub few : (max_headers n : ℕ) (buf : List ℕ) → phr max_headers buf ≡ phr_error n → n ≤ length buf
  pub consumes :
      (max_headers n : ℕ) (buf : List ℕ) (msg : A) (hs : List Header)
      → phr max_headers buf ≡ phr_done n msg hs
      → (0 < n) × (n ≤ length buf)

-- A result is in the bounds of the buffer.
unfoldable pub InBounds : {A : Type 0} → ℕ → Parsed A → Type 0
InBounds len no_memory = Unit {0}
InBounds len malformed = Unit {0}
InBounds len incomplete = Unit {0}
InBounds len (complete n msg hs) = (0 < n) × (n ≤ len)

-- The value of `eval_parse_result`: 0, -1 or 1.
pub data Verdict : Type 0 where
  parsed verbatim wait : Verdict

unfoldable pub eval_parse_result :
    {A : Type 0} → Parsed A → List ℕ → Bool → (List ℕ → Bool) → Verdict
eval_parse_result incomplete linear eof looks_like =
    if length linear == ring_buffer_size
    then verbatim
    else if eof
    then verbatim
    else if not (looks_like linear)
    then verbatim
    else wait
eval_parse_result no_memory linear eof looks_like = verbatim
eval_parse_result malformed linear eof looks_like = verbatim
eval_parse_result (complete n msg hs) linear eof looks_like = parsed

module _ {A : Type 0} (realloc_ok : ℕ → Bool) (phr : Parser A) (law : IsParser phr)
    (buf : List ℕ) where
  abbrev Answered : Option (Parsed A) → Type 0
  Answered r = (p : Parsed A) × (r ≡ some p) × InBounds (length buf) p

  Phr-cases :
      (a : Phr A) (max_headers : ℕ) (resize : Option (Parsed A))
      → phr max_headers buf ≡ a
      → (max_headers ≤ length buf → Answered resize)
      → Answered (after_phr max_headers resize a)
  unfolding after_phr InBounds
  Phr-cases phr_trunc m resize e h = (incomplete, refl, tt)
  Phr-cases (phr_error n) m resize e h = elim (Bool-cases (n == m)) [
    | inl full ↦ rw full (h (ground (arith, law.few m n buf e, full)))
    | inr other ↦ rw other (malformed, refl, tt)
  ]
  Phr-cases (phr_done n msg hs) m resize e h =
      let inside = law.consumes m n buf msg hs e in
      let positive : ltb 0 n ≡ true = ground (arith, inside) in
      rw positive (complete n msg hs, refl, inside)

  Answered-phr_loop :
      (fuel max_headers : ℕ)
      → length buf + 16 < fuel * 16 + max_headers
      → 0 < fuel
      → Answered (phr_loop fuel realloc_ok phr max_headers buf)
  unfolding phr_loop InBounds
  Answered-phr_loop zero m h z = ground (arith, z)
  Answered-phr_loop (suc fuel) m h z = Phr-cases (phr m buf) m _ refl (λ full.
      elim (Bool-cases (realloc_ok (m + 16))) [
        | inl ok ↦ rw ok (Answered-phr_loop fuel (m + 16) (omega arith) (omega arith))
        | inr short ↦ rw short (no_memory, refl, tt)
      ])

  -- With a parser as documented, the loop of `WRAP_PHR` ends and its assertion holds; what it returns
  -- is an error, or that the message is incomplete, or a count of bytes that are in the buffer.
  pub wrap_phr-InBounds :
      (p : Parsed A) × (wrap_phr realloc_ok phr buf ≡ some p) × InBounds (length buf) p
  unfolding wrap_phr InBounds
  wrap_phr-InBounds = elim (Bool-cases (realloc_ok 16)) [
    | inl ok ↦ rw ok (Answered-phr_loop (length buf + 1) 16 (omega arith) (omega arith))
    | inr short ↦ rw short (no_memory, refl, tt)
  ]
