-- ===== src/Transform/Tests.antt =====
-- `transform` with a parser that takes all the bytes there are for one message without headers.
use tud_crash_tolerant_proxy.Prelude.{
  ℕ, suc, ◌+◌, ◌≤◌, ◌<◌, ◌≡◌, refl, true, false, some, List, [], ◌∷◌, arith, length, tabulate,
}
use tud_crash_tolerant_proxy.Ring.{Buffer, RingBufferRange, IsValid, contents}
use tud_crash_tolerant_proxy.Http.Headers.{bytes, Header}
use tud_crash_tolerant_proxy.Http.Parse.{
  phr_trunc, phr_error, phr_done, Parser, IsParser, Parsed, complete, wrap_phr, InBounds,
  wrap_phr-InBounds,
}
use tud_crash_tolerant_proxy.Transform.{
  Context, Direction, linearize_ring_buffer, transform_direction,
}
use tud_crash_tolerant_proxy.Transform.Linear.{linearize_ring_buffer_lem}
use tud_crash_tolerant_proxy.Transform.Messages.{World, Request, Response, request_kind}
use tud_crash_tolerant_proxy.Transform.Stream.{IsOpen}
use tud_crash_tolerant_proxy.Transform.Stream.Rewrite.{
  Settled, outcome, settled, transform_direction-Settled,
}
use tud_crash_tolerant_proxy.Transform.Whole.{Transformed, transform-Transformed}

abbrev letters : Buffer
letters i = i + 65

abbrev wrapped : RingBufferRange
wrapped = record { start = 131070; len = 4; shutdown = false }

abbrev nothing : RingBufferRange
nothing = record { start = 0; len = 0; shutdown = false }

wrapped-IsValid : IsValid wrapped
wrapped-IsValid = omega arith

nothing-IsValid : IsValid nothing
nothing-IsValid = omega arith

abbrev whole_parser : {A : Type 0} → A → Parser A
whole_parser msg max_headers [] = phr_trunc
whole_parser msg max_headers (c ∷ cs) = phr_done (suc (length cs)) msg []

whole_parser_few :
    {A : Type 0} (msg : A) (m n : ℕ) (buf : List ℕ)
    → whole_parser msg m buf ≡ phr_error n
    → n ≤ length buf
whole_parser_few msg m n [] e = ground (arith, e)
whole_parser_few msg m n (c ∷ cs) e = ground (arith, e)

whole_parser_consumes :
    {A : Type 0} (msg : A) (m n : ℕ) (buf : List ℕ) (out : A) (hs : List Header)
    → whole_parser msg m buf ≡ phr_done n out hs
    → (0 < n) × (n ≤ length buf)
whole_parser_consumes msg m n [] out hs e = ground (arith, e)
whole_parser_consumes msg m n (c ∷ cs) out hs e = ground (arith, e)

whole_parser-IsParser : {A : Type 0} (msg : A) → IsParser (whole_parser msg)
whole_parser-IsParser msg = record {
  few = whole_parser_few msg;
  consumes = whole_parser_consumes msg;
}

linearize_ring_buffer_lem_example :
    tabulate 4 (linearize_ring_buffer letters letters wrapped) ≡ contents letters wrapped
linearize_ring_buffer_lem_example = linearize_ring_buffer_lem letters letters wrapped-IsValid

wrap_phr-InBounds_example :
    (p : Parsed Response) × (wrap_phr
        (λ n. true)
        (whole_parser (record { status = 200; msg = [] }))
        (1 ∷ 2 ∷ 3 ∷ [])
      ≡ some p)
    × InBounds 3 p
wrap_phr-InBounds_example =
    wrap_phr-InBounds (λ n. true) (whole_parser (record { status = 200; msg = [] }))
      (whole_parser-IsParser (record { status = 200; msg = [] })) (1 ∷ 2 ∷ 3 ∷ [])

abbrev sample_world : World
sample_world = record {
  phr_parse_request = whole_parser (record { method = bytes "GET"; path = bytes "/" });
  phr_parse_response = whole_parser (record { status = 200; msg = bytes "OK" });
  realloc_ok = λ n. true;
  append_ok = λ n. true;
  decimal = λ n. bytes "200";
  pid = bytes "7";
  stack = letters;
}

abbrev waiting : Direction
waiting = record {
  out_buf = letters;
  out_range = nothing;
  in_buf = letters;
  in_range = wrapped;
  eof = true;
  shutdown = false;
}

waiting-IsOpen : IsOpen waiting
waiting-IsOpen = (nothing-IsValid, wrapped-IsValid)

abbrev request : Parsed Request
request = complete 4 (record { method = bytes "GET"; path = bytes "/" }) []

request-InBounds : InBounds 4 request
unfolding InBounds
request-InBounds = omega arith

transform_direction-Settled_example :
    Settled waiting
      (outcome
        (request_kind sample_world)
        waiting
        waiting-IsOpen
        request
        request-InBounds
        (contents letters wrapped)
        false)
      (settled
        (request_kind sample_world)
        waiting
        waiting-IsOpen
        request
        request-InBounds
        (contents letters wrapped)
        false)
      (transform_direction
        (request_kind sample_world)
        (contents letters wrapped)
        (some request)
        false
        waiting)
transform_direction-Settled_example =
    transform_direction-Settled (request_kind sample_world) waiting waiting-IsOpen request
      request-InBounds (contents letters wrapped) false (λ e. refl)

abbrev new_context : Context
new_context = record { active = true; copy0 = 3; copy1 = 0 }

transform-Transformed_example :
    Transformed sample_world new_context waiting waiting waiting-IsOpen waiting-IsOpen
transform-Transformed_example =
    transform-Transformed sample_world new_context waiting waiting waiting-IsOpen waiting-IsOpen
      (whole_parser-IsParser _) (whole_parser-IsParser _) (λ e. refl) (λ e. refl)
