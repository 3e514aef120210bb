-- ===== src/Transform/Whole.antt =====
-- A call of `transform`: it returns, and it keeps to the double buffer of its state.
use tud_crash_tolerant_proxy.Prelude.{
  ℕ, ◌≡◌, ap, sym, subst, Bool, true, false, Option, some, List, bit_set, length, length-tabulate,
}
use tud_crash_tolerant_proxy.Http.Parse.{
  Parser, Parsed, wrap_phr, IsParser, InBounds, wrap_phr-InBounds,
}
use tud_crash_tolerant_proxy.Transform.{Context, Direction, Kind, copy_at, transform_direction}
use tud_crash_tolerant_proxy.Transform.Messages.{
  World, request_kind, response_kind, linear_bytes, raw_bytes, transform_up, transform_down,
  transform,
}
use tud_crash_tolerant_proxy.Transform.Stream.{IsOpen}
use tud_crash_tolerant_proxy.Transform.Stream.Rewrite.{
  Settled, outcome, settled, transform_direction-Settled,
}
use tud_crash_tolerant_proxy.Transform.Kept.{Kept, finish-Kept}

settled_again :
    {A : Type 0} (kind : Kind A) (d : Direction) (v : IsOpen d) (p : Parsed A)
    (b : InBounds d.in_range.len p) (linear : List ℕ) (got : Bool)
    → got ≡ true
    → settled kind d v p b linear got ≡ true
settled_again kind d v p b linear got e = ap (settled kind d v p b linear) e

-- One direction with its parse.
pub record Parsing {A : Type 0} (kind : Kind A) (phr : Parser A) (realloc_ok : ℕ → Bool)
    (given linear : List ℕ) (got : Bool) (d : Direction) (v : IsOpen d)
    (r : Option (Direction × Bool)) : Type 0 where
  pub parse : Parsed A
  pub parses : wrap_phr realloc_ok phr given ≡ some parse
  pub inside : InBounds d.in_range.len parse
  pub done :
      Settled d
        (outcome kind d v parse inside linear got)
        (settled kind d v parse inside linear got)
        r

direction_Parsing :
    {A : Type 0} (kind : Kind A) (phr : Parser A) (law : IsParser phr) (realloc_ok : ℕ → Bool)
    (given linear : List ℕ) (got : Bool) (d : Direction) (v : IsOpen d)
    → length given ≡ d.in_range.len
    → (got ≡ false → d.out_range.len ≡ 0)
    → Parsing kind phr realloc_ok given linear got d v
        (transform_direction kind linear (wrap_phr realloc_ok phr given) got d)
direction_Parsing kind phr law realloc_ok given linear got d v size empty =
    let (p, e, b) = wrap_phr-InBounds realloc_ok phr law given in
    let inside = subst (λ n. InBounds n p) size b in
    record {
      parse = p;
      parses = e;
      inside = inside;
      done =
          subst
            (λ o.
              Settled d (outcome kind d v p inside linear got)
                (settled kind d v p inside linear got) (transform_direction kind linear o got d))
            (sym e) (transform_direction-Settled kind d v p inside linear got empty);
    }

-- What `transform` does: both directions run to their end with valid ranges, on the bytes that their
-- outcomes say, and the state is kept in two copies.
pub record Transformed (w : World) (ctx : Context) (down up : Direction) (vd : IsOpen down)
    (vu : IsOpen up) : Type 0 where
  pub up_done :
      let s = copy_at ctx ctx.active in
      let linear = linear_bytes w.stack up.in_buf up.in_range in
      Parsing
        (request_kind w)
        w.phr_parse_request
        w.realloc_ok
        linear
        linear
        (bit_set s 0)
        up
        vu
        (transform_up w s up)
  pub down_done :
      let s = copy_at ctx ctx.active in
      Parsing
        (response_kind w)
        w.phr_parse_response
        w.realloc_ok
        (raw_bytes down.in_buf down.in_range)
        (linear_bytes w.stack down.in_buf down.in_range)
        (bit_set s 1)
        down
        vd
        (transform_down w s down)
  pub kept :
      let s = copy_at ctx ctx.active in
      Kept ctx
        (settled
          (request_kind w)
          up
          vu
          up_done.parse
          up_done.inside
          (linear_bytes w.stack up.in_buf up.in_range)
          (bit_set s 0))
        (settled
          (response_kind w)
          down
          vd
          down_done.parse
          down_done.inside
          (linear_bytes w.stack down.in_buf down.in_range)
          (bit_set s 1))
        (transform w ctx down up)
        down_done.done.next
        up_done.done.next

-- With parsers as documented, valid ranges, and outputs that are empty as long as their message is
-- not dealt with, `transform` returns: no assertion fails, and no loop goes on. The bytes under way
-- in each direction stay the same, but for a complete message that fits, which is replaced by its
-- rewritten form; the active copy of the state is untouched, and the other one has, for each
-- direction, whether its message is dealt with.
pub transform-Transformed :
    (w : World) (ctx : Context) (down up : Direction) (vd : IsOpen down) (vu : IsOpen up)
    → IsParser w.phr_parse_request
    → IsParser w.phr_parse_response
    → (bit_set (copy_at ctx ctx.active) 0 ≡ false → up.out_range.len ≡ 0)
    → (bit_set (copy_at ctx ctx.active) 1 ≡ false → down.out_range.len ≡ 0)
    → Transformed w ctx down up vd vu
unfolding transform_up transform_down
transform-Transformed w ctx down up vd vu lu ld eu ed = record {
  up_done = up_parsing;
  down_done = down_parsing;
  kept =
      finish-Kept ctx.active ctx.copy0 ctx.copy1 w up down _ _ _ _
        (settled_again (request_kind w) up vu up_parsing.parse up_parsing.inside _ _)
        (settled_again (response_kind w) down vd down_parsing.parse down_parsing.inside _ _)
        up_parsing.done.ends down_parsing.done.ends;
}
  where
    linear : List ℕ
    linear = linear_bytes w.stack up.in_buf up.in_range

    up_parsing :
        Parsing
          (request_kind w)
          w.phr_parse_request
          w.realloc_ok
          (linear_bytes w.stack up.in_buf up.in_range)
          (linear_bytes w.stack up.in_buf up.in_range)
          (bit_set (copy_at ctx ctx.active) 0)
          up
          vu
          (transform_up w (copy_at ctx ctx.active) up)
    up_parsing =
        direction_Parsing (request_kind w) w.phr_parse_request lu w.realloc_ok _ _ _ up vu
          (length-tabulate up.in_range.len _) eu

    down_parsing :
        Parsing
          (response_kind w)
          w.phr_parse_response
          w.realloc_ok
          (raw_bytes down.in_buf down.in_range)
          (linear_bytes w.stack down.in_buf down.in_range)
          (bit_set (copy_at ctx ctx.active) 1)
          down
          vd
          (transform_down w (copy_at ctx ctx.active) down)
    down_parsing =
        direction_Parsing (response_kind w) w.phr_parse_response ld w.realloc_ok _ _ _ down vd
          (length-tabulate down.in_range.len _) ed
