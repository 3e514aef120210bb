-- ===== src/Util/Json.antt =====
-- `json_bufsize`, `json_strlcpy` and `json_strdup` of common/util.c. Bytes are numbers below 256; the
-- target is the function from an offset to its byte.
pub mod Laws
mod Tests
use tud_crash_tolerant_proxy.Prelude.{
  ℕ, ◌+◌, ◌-◌, ◌/◌, ◌%◌, ◌≤◌, ◌<◌, ◌≡◌, Bool, ◌&&◌, ◌||◌, Option, none, some, List, [], ◌∷◌, ltb,
  leb, ◌==◌, if◌then◌else◌, length, get_or,
}
use tud_crash_tolerant_proxy.Ring.{Buffer, memcpy}

-- the table `json_chars`
unfoldable pub json_char : ℕ → ℕ
json_char c =
    if c == 8
    then 98
    else if c == 9
    then 116
    else if c == 10
    then 110
    else if c == 12
    then 102
    else if c == 13
    then 114
    else if c == 34
    then 34
    else if c == 92
    then 92
    else if leb 32 c && ltb c 127
    then 1
    else 0

bufsize_loop : ℕ → List ℕ → ℕ
unfolding json_char
bufsize_loop n [] = n
bufsize_loop n (c ∷ cs) =
    bufsize_loop (n + (if json_char c == 0 then 6 else if json_char c == 1 then 1 else 2)) cs

unfoldable pub json_bufsize : List ℕ → ℕ
unfolding bufsize_loop
json_bufsize str = bufsize_loop 3 str

-- `hex_digits[n]`
hex_digit : ℕ → ℕ
hex_digit n = if ltb n 10 then 48 + n else 55 + n

-- What one byte is written as.
unfoldable pub escape : ℕ → List ℕ
unfolding hex_digit json_char
escape c =
    if json_char c == 0
    then 92 ∷ 117 ∷ 48 ∷ 48 ∷ hex_digit (c / 16 % 16) ∷ hex_digit (c % 16) ∷ []
    else if json_char c == 1
    then c ∷ []
    else 92 ∷ json_char c ∷ []

abbrev pub put : Buffer → ℕ → List ℕ → Buffer
put json at text = memcpy json at (λ k. get_or text k 0) (length text)

-- from the label `overflow` on
unfoldable pub overflow : ℕ → Buffer → ℕ → List ℕ → Buffer × ℕ
overflow json_size json dst src = (
  if ltb 0 json_size then put json (json_size - 1) (0 ∷ []) else json,
  dst + json_bufsize src - 2,
)

json_loop : ℕ → Buffer → ℕ → List ℕ → Buffer × ℕ
unfolding overflow
json_loop json_size json dst [] =
    if ltb json_size (dst + 2)
    then overflow json_size json dst []
    else (put json dst (34 ∷ 0 ∷ []), dst + 1)
json_loop json_size json dst (c ∷ cs) =
    let rest = json_loop json_size (put json dst (escape c)) (dst + length (escape c)) cs in
    if ltb json_size (dst + length (escape c)) then overflow json_size json dst (c ∷ cs) else rest

-- The target and the result.
unfoldable pub json_strlcpy : Buffer → ℕ → List ℕ → Buffer × ℕ
unfolding json_loop
json_strlcpy json json_size src = json_loop json_size (put json 0 (34 ∷ [])) 1 src

-- `none` for NULL; `malloc` gives the memory, where there is some.
unfoldable pub json_strdup : Option Buffer → List ℕ → Option Buffer
json_strdup none str = none
json_strdup (some json) str =
    let (copy, n) = json_strlcpy json (json_bufsize str) str in
    if leb (json_bufsize str) n then none else some copy
