-- ===== src/Transform/Kept.antt =====
-- What a call of `transform` leaves in the two copies of its state.
use tud_crash_tolerant_proxy.Prelude.{
  ℕ, ◌≡◌, refl, ap, sym, ◌∙◌, Bool, true, false, not, Option, some, bit_set, arith,
}
use tud_crash_tolerant_proxy.Http.Parse.{wrap_phr}
use tud_crash_tolerant_proxy.Transform.{Context, Direction, copy_at, set_copy, transform_direction}
use tud_crash_tolerant_proxy.Transform.Messages.{
  World, response_kind, mark, linear_bytes, raw_bytes, transform_up, transform_down, finish,
  then_down, transform,
}

mark_own :
    (state : ℕ) (got : Bool)
    → (bit_set state 0 ≡ true → got ≡ true)
    → bit_set (mark state 0 got) 0 ≡ got
unfolding mark
mark_own state true h = ground arith
mark_own state false h = ground (arith, h)

mark_own_high :
    (state : ℕ) (got : Bool)
    → (bit_set state 1 ≡ true → got ≡ true)
    → bit_set (mark state 1 got) 1 ≡ got
unfolding mark
mark_own_high state true h = ground arith
mark_own_high state false h = ground (arith, h)

mark_keeps_high : (state : ℕ) (up : Bool) → bit_set (mark state 0 up) 1 ≡ bit_set state 1
unfolding mark
mark_keeps_high state up = ground arith

mark_keeps_low : (state : ℕ) (down : Bool) → bit_set (mark state 1 down) 0 ≡ bit_set state 0
unfolding mark
mark_keeps_low state down = ground arith

-- What a call leaves: the active copy as it was, and in the other one the bits of the messages that
-- are dealt with.
pub record Kept (ctx : Context) (up_got down_got : Bool)
    (r : Option (Context × Direction × Direction)) (down up : Direction) : Type 0 where
  pub next : Context
  pub ends : r ≡ some (next, down, up)
  pub same_active : next.active ≡ ctx.active
  pub same_copy : copy_at next ctx.active ≡ copy_at ctx ctx.active
  pub request_bit : bit_set (copy_at next (not ctx.active)) 0 ≡ up_got
  pub response_bit : bit_set (copy_at next (not ctx.active)) 1 ≡ down_got

request_marked :
    (s : ℕ) (up down : Bool)
    → (bit_set s 0 ≡ true → up ≡ true)
    → bit_set (mark (mark s 0 up) 1 down) 0 ≡ up
request_marked s up down h = mark_keeps_low (mark s 0 up) down ∙ mark_own s up h

response_marked :
    (s : ℕ) (up down : Bool)
    → (bit_set s 1 ≡ true → down ≡ true)
    → bit_set (mark (mark s 0 up) 1 down) 1 ≡ down
response_marked s up down h =
    mark_own_high (mark s 0 up) down (λ e. h (sym (mark_keeps_high s up) ∙ e))

-- `then_down` on a direction that is done, with the other one's mark out of the way.
down_ends :
    (w : World) (ctx : Context) (s : ℕ) (up down down' : Direction) (up_got down_got : Bool)
    → transform_down w s down ≡ some (down', down_got)
    → then_down w ctx s down (some (up, up_got))
      ≡ some (set_copy ctx (not ctx.active) (mark (mark s 0 up_got) 1 down_got), down', up)
unfolding then_down finish transform_down
down_ends w ctx s up down down' up_got down_got e =
    ap (finish ctx (mark s 0 up_got) up) (same_down ∙ e)
  where
    same_down : transform_down w (mark s 0 up_got) down ≡ transform_down w s down
    same_down =
        ap
          (λ g.
            transform_direction (response_kind w) (linear_bytes w.stack down.in_buf down.in_range)
              (wrap_phr w.realloc_ok w.phr_parse_response (raw_bytes down.in_buf down.in_range)) g
              down)
          (mark_keeps_high s up_got)

abbrev pub context_of : Bool → ℕ → ℕ → Context
context_of active copy0 copy1 = record { active = active; copy0 = copy0; copy1 = copy1 }

-- The end of `transform`, when both directions are done.
pub finish-Kept :
    (active : Bool) (copy0 copy1 : ℕ) (w : World) (up down up' down' : Direction)
    (up_got down_got : Bool)
    → let s = copy_at (context_of active copy0 copy1) active in
      (bit_set s 0 ≡ true → up_got ≡ true)
      → (bit_set s 1 ≡ true → down_got ≡ true)
      → transform_up w s up ≡ some (up', up_got)
      → transform_down w s down ≡ some (down', down_got)
      → Kept
          (context_of active copy0 copy1)
          up_got
          down_got
          (transform w (context_of active copy0 copy1) down up)
          down'
          up'
unfolding transform
finish-Kept true c0 c1 w up down up' down' gu gd hu hd eu ed = record {
  next = _;
  ends =
      ap (then_down w (context_of true c1 c1) c1 down) eu
      ∙ down_ends w (context_of true c1 c1) c1 up' down down' gu gd ed;
  same_active = refl;
  same_copy = refl;
  request_bit = request_marked c1 gu gd hu;
  response_bit = response_marked c1 gu gd hd;
}
finish-Kept false c0 c1 w up down up' down' gu gd hu hd eu ed = record {
  next = _;
  ends =
      ap (then_down w (context_of false c0 c0) c0 down) eu
      ∙ down_ends w (context_of false c0 c0) c0 up' down down' gu gd ed;
  same_active = refl;
  same_copy = refl;
  request_bit = request_marked c0 gu gd hu;
  response_bit = response_marked c0 gu gd hd;
}
