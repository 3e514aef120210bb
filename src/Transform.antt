-- ===== src/Transform.antt =====
-- `transform` of worker/transform.c, in the build without NOP_TRANSFORM, EXPENSIVE_TRANSFORM and
-- PERFORMANCE_BASELINE: `linearize_ring_buffer`, what is done to one direction, and the whole.
-- `none` stands for a failed assertion.
pub mod Linear
pub mod Stream
pub mod Messages
pub mod Kept
pub mod Whole
mod Tests
use tud_crash_tolerant_proxy.Prelude.{
  ℕ, ◌+◌, ◌%◌, ◌^◌, Bool, true, false, not, Option, none, some, List, [], ◌∷◌, ◌++◌, leb, ◌==◌,
  if◌then◌else◌, add_size, sub_size, bit_set, get_or, length, tabulate,
}
use tud_crash_tolerant_proxy.Ring.{
  Buffer, RingBufferRange, ring_buffer_size, memcpy, ring_buffer_move, Moved,
}
use tud_crash_tolerant_proxy.Http.Headers.{Header, bytes, strip_headers, replace_header}
use tud_crash_tolerant_proxy.Http.Looks.{looks_like_http_request, looks_like_http_response}
use tud_crash_tolerant_proxy.Http.Serialize.{Writer, serialize_http}
use tud_crash_tolerant_proxy.Http.Parse.{
  Parser, Parsed, no_memory, malformed, incomplete, complete, wrap_phr, Verdict, parsed, verbatim,
  wait, eval_parse_result,
}

-- `transformation_context_t`; a copy is its `state`.
pub record Context : Type 0 where
  pub active : Bool
  pub copy0 : ℕ
  pub copy1 : ℕ

-- `struct transformation_direction`
pub record Direction : Type 0 where
  pub out_buf : Buffer
  pub out_range : RingBufferRange
  pub in_buf : Buffer
  pub in_range : RingBufferRange
  pub eof : Bool
  pub shutdown : Bool

-- `HTTP_GOT_REQUEST` and `HTTP_GOT_RESPONSE`, as the numbers of their bits
abbrev pub http_got_request : ℕ
http_got_request = 0

abbrev pub http_got_response : ℕ
http_got_response = 1

-- `copies[i].state`, and the store to it
abbrev pub copy_at : Context → Bool → ℕ
copy_at ctx i = if i then ctx.copy1 else ctx.copy0

abbrev pub set_copy : Context → Bool → ℕ → Context
set_copy ctx i s = record ctx {
  copy0 = if i then ctx.copy0 else s;
  copy1 = if i then s else ctx.copy1;
}

-- The pointer that `linearize_ring_buffer` returns, as the function of the offset from it.
unfoldable pub linearize_ring_buffer : Buffer → Buffer → RingBufferRange → ℕ → ℕ
linearize_ring_buffer linear buf range =
    let first_len = sub_size ring_buffer_size range.start in
    let second_len = sub_size range.len first_len in
    if leb range.len (sub_size ring_buffer_size range.start)
    then (λ k. buf (range.start + k))
    else memcpy (memcpy linear 0 (λ k. buf (range.start + k)) first_len) first_len buf second_len

-- What `transform` does with one kind of message: the condition on its beginning, the status line as
-- `vsnprintf` formats it, and the changes to the headers, `none` where memory runs out.
pub record Kind (A : Type 0) : Type 0 where
  pub looks_like : List ℕ → Bool
  pub line : A → List ℕ
  pub edit : List Header → Option (List Header)

-- from the assertion on
unfoldable pub serialize_into : Direction → ℕ → Writer → Option Direction
serialize_into d consumed w =
    let buf = memcpy d.out_buf 0 (λ k. get_or w.out k 0) (length w.out) in
    if d.out_range.len == 0
    then some (
        if w.failed then record d { out_buf = buf } else record d {
          out_buf = buf;
          in_range = record d.in_range {
            start = add_size d.in_range.start consumed % ring_buffer_size;
            len = sub_size d.in_range.len consumed;
          };
          out_range = record { start = 0; len = length w.out; shutdown = false };
        })
    else none

-- `replace_header` has failed, or the message is serialised.
serialize_edited : Direction → ℕ → List ℕ → Option (List Header) → Option Direction
unfolding serialize_into
serialize_edited d consumed line none = some d
serialize_edited d consumed line (some hs) =
    serialize_into d consumed (serialize_http ring_buffer_size line hs)

-- `case 0`, up to the `fallthrough`
rewrite_parsed : {A : Type 0} → Kind A → Parsed A → Direction → Option Direction
unfolding serialize_edited
rewrite_parsed kind (complete consumed msg headers) d =
    serialize_edited d consumed (kind.line msg) (kind.edit headers)
rewrite_parsed kind no_memory d = some d
rewrite_parsed kind malformed d = some d
rewrite_parsed kind incomplete d = some d

-- The direction, and whether the message is dealt with.
with_got : Bool → Option Direction → Option (Direction × Bool)
with_got got none = none
with_got got (some d) = some (d, got)

-- the `switch`
rewrite_verdict : {A : Type 0} → Kind A → Parsed A → Direction → Verdict → Option (Direction × Bool)
unfolding with_got rewrite_parsed
rewrite_verdict kind p d parsed = with_got true (rewrite_parsed kind p d)
rewrite_verdict kind p d verbatim = some (d, true)
rewrite_verdict kind p d wait = some (d, false)

unfoldable pub rewrite :
    {A : Type 0} → Kind A → List ℕ → Option (Parsed A) → Direction → Option (Direction × Bool)
unfolding rewrite_verdict
rewrite kind linear none d = none
rewrite kind linear (some p) d =
    rewrite_verdict kind p d (eval_parse_result p linear d.eof kind.looks_like)

-- "Forward any … traffic."
moved_to : Direction → Option Moved → Option Direction
moved_to d none = none
moved_to d (some m) = some (record d {
  out_buf = m.dst_buf;
  out_range = m.dst_range;
  in_range = m.src_range;
  shutdown = if d.eof then true else d.shutdown;
})

unfoldable pub forward : Direction → Option Direction
unfolding moved_to
forward d = moved_to d (ring_buffer_move d.out_buf d.out_range d.in_buf d.in_range)

forward_if_got : Option (Direction × Bool) → Option (Direction × Bool)
unfolding with_got forward
forward_if_got none = none
forward_if_got (some (d, got)) = if got then with_got true (forward d) else some (d, false)

-- One direction, from the test of its bit on.
unfoldable pub transform_direction :
    {A : Type 0}
    → Kind A
    → List ℕ
    → Option (Parsed A)
    → Bool
    → Direction
    → Option (Direction × Bool)
unfolding forward_if_got rewrite
transform_direction kind linear p got d =
    forward_if_got (if got then some (d, true) else rewrite kind linear p d)
