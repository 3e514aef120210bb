-- ===== src/Transform/Messages.antt =====
-- `transform` of worker/transform.c as a whole: requests, responses, and both directions.
use tud_crash_tolerant_proxy.Prelude.{
  ℕ, ◌+◌, ◌^◌, Bool, not, Option, none, some, List, [], ◌∷◌, ◌++◌, ◌==◌, if◌then◌else◌, bit_set,
  tabulate,
}
use tud_crash_tolerant_proxy.Ring.{Buffer, RingBufferRange}
use tud_crash_tolerant_proxy.Http.Headers.{Header, bytes, strip_headers, replace_header}
use tud_crash_tolerant_proxy.Http.Looks.{looks_like_http_request, looks_like_http_response}
use tud_crash_tolerant_proxy.Http.Parse.{Parser, wrap_phr}
use tud_crash_tolerant_proxy.Transform.{
  Context, Direction, Kind, http_got_request, http_got_response, copy_at, set_copy,
  linearize_ring_buffer, transform_direction,
}

-- `struct http_request` and `struct http_response` without their headers
pub record Request : Type 0 where
  pub method : List ℕ
  pub path : List ℕ

pub record Response : Type 0 where
  pub status : ℕ
  pub msg : List ℕ

-- What comes from elsewhere: the parsers; whether there is memory for `n` headers, and for the one
-- that the `n`-th `replace_header` appends; how `%d` prints; the process id; the bytes on the stack
-- before `linearize_ring_buffer` writes there.
pub record World : Type 0 where
  pub phr_parse_request : Parser Request
  pub phr_parse_response : Parser Response
  pub realloc_ok : ℕ → Bool
  pub append_ok : ℕ → Bool
  pub decimal : ℕ → List ℕ
  pub pid : List ℕ
  pub stack : Buffer

-- `%.*s` stops at a NUL.
until_nul : List ℕ → List ℕ
until_nul [] = []
until_nul (c ∷ cs) = if c == 0 then [] else c ∷ until_nul cs

-- One more operand of the `||` of the `replace_header` calls.
and_replace : Bool → List ℕ → List ℕ → Option (List Header) → Option (List Header)
and_replace ok name value none = none
and_replace ok name value (some hs) = replace_header ok name value hs

-- `USER_AGENT`
abbrev user_agent : List ℕ
user_agent = bytes "crash-tolerant-proxy"

unfoldable pub request_kind : World → Kind Request
unfolding until_nul and_replace
request_kind w = record {
  looks_like = looks_like_http_request;
  line = λ r.
      until_nul r.method
      ++ (bytes " " ++ (until_nul r.path ++ (bytes " HTTP/1.1" ++ (13 ∷ 10 ∷ []))));
  edit = λ hs. and_replace (w.append_ok 3) (bytes "Sec-GPC") (bytes "1") (
      and_replace (w.append_ok 2) (bytes "DNT") (bytes "1") (
        and_replace (w.append_ok 1) (bytes "User-Agent") user_agent (
          and_replace (w.append_ok 0) (bytes "Connection") (bytes "close")
            (some (strip_headers hs)))));
}

unfoldable pub response_kind : World → Kind Response
unfolding until_nul and_replace
response_kind w = record {
  looks_like = looks_like_http_response;
  line = λ r.
      bytes "HTTP/1.1 "
      ++ (w.decimal r.status ++ (bytes " " ++ (until_nul r.msg ++ (13 ∷ 10 ∷ []))));
  edit = λ hs. and_replace (w.append_ok 7) (bytes "X-Proxy-PID") w.pid (
      and_replace (w.append_ok 6) (bytes "X-Clacks-Overhead") (bytes "GNU Terry Pratchett") (
        and_replace (w.append_ok 5) (bytes "Server") user_agent
          (and_replace (w.append_ok 4) (bytes "Connection") (bytes "close") (some hs))));
}

-- `state |= 1 << k`, if the message is dealt with
unfoldable pub mark : ℕ → ℕ → Bool → ℕ
mark state k got = if got then if bit_set state k then state else state + 2 ^ k else state

-- `linear`, and what `parse_response` is given: the bytes from the range's start on, with those behind
-- the end of the buffer where the range wraps around.
abbrev pub linear_bytes : Buffer → Buffer → RingBufferRange → List ℕ
linear_bytes stack buf range = tabulate range.len (linearize_ring_buffer stack buf range)

abbrev pub raw_bytes : Buffer → RingBufferRange → List ℕ
raw_bytes buf range = tabulate range.len (λ k. buf (range.start + k))

unfoldable pub transform_up : World → ℕ → Direction → Option (Direction × Bool)
transform_up w state up =
    let linear = linear_bytes w.stack up.in_buf up.in_range in
    transform_direction (request_kind w) linear (wrap_phr w.realloc_ok w.phr_parse_request linear)
      (bit_set state http_got_request) up

unfoldable pub transform_down : World → ℕ → Direction → Option (Direction × Bool)
transform_down w state down =
    transform_direction (response_kind w) (linear_bytes w.stack down.in_buf down.in_range)
      (wrap_phr w.realloc_ok w.phr_parse_response (raw_bytes down.in_buf down.in_range))
      (bit_set state http_got_response) down

unfoldable pub finish :
    Context → ℕ → Direction → Option (Direction × Bool) → Option (Context × Direction × Direction)
unfolding mark
finish ctx state up none = none
finish ctx state up (some (down, got)) =
    some (set_copy ctx (not ctx.active) (mark state http_got_response got), down, up)

unfoldable pub then_down :
    World
    → Context
    → ℕ
    → Direction
    → Option (Direction × Bool)
    → Option (Context × Direction × Direction)
unfolding finish transform_down
then_down w ctx state down none = none
then_down w ctx state down (some (up, got)) =
    let state' = mark state http_got_request got in
    finish ctx state' up (transform_down w state' down)

-- The context, the downstream and the upstream direction.
unfoldable pub transform :
    World → Context → Direction → Direction → Option (Context × Direction × Direction)
unfolding then_down transform_up
transform w ctx down up =
    let ctx' = set_copy ctx (not ctx.active) (copy_at ctx ctx.active) in
    let state = copy_at ctx' (not ctx'.active) in
    then_down w ctx' state down (transform_up w state up)
