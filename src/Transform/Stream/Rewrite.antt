-- ===== src/Transform/Stream/Rewrite.antt =====
-- The parsing and rewriting of one direction, followed by the forwarding.
use tud_crash_tolerant_proxy.Prelude.{
  ℕ, ◌≤◌, ◌≡◌, refl, sym, ap, ap₂, ◌∙◌, Bool, true, false, Option, none, some, List, ◌++◌,
  if◌then◌else◌,
}
use tud_crash_tolerant_proxy.Ring.{contents, Buffer}
use tud_crash_tolerant_proxy.Http.Headers.{Header}
use tud_crash_tolerant_proxy.Http.Parse.{
  Parsed, no_memory, malformed, incomplete, complete, Verdict, parsed, verbatim, wait,
  eval_parse_result, InBounds,
}
use tud_crash_tolerant_proxy.Transform.{
  Direction, Kind, forward_if_got, with_got, serialize_edited, rewrite_parsed, rewrite_verdict,
  rewrite, transform_direction,
}
use tud_crash_tolerant_proxy.Transform.Stream.{
  stream, IsOpen, Ends, forward-Ends, serialized, serialize_into-Ends, contents-empty,
}

-- What becomes of the bytes of the input that hold a parsed message, and after a verdict.
edited : List ℕ → ℕ → List ℕ → Option (List Header) → List ℕ
edited input n line none = input
edited input n line (some hs) = serialized input n line hs

pub rewritten : {A : Type 0} → Kind A → Parsed A → List ℕ → List ℕ
unfolding edited
rewritten kind (complete n msg hs) input = edited input n (kind.line msg) (kind.edit hs)
rewritten kind no_memory input = input
rewritten kind malformed input = input
rewritten kind incomplete input = input

pub after_verdict : {A : Type 0} → Kind A → Parsed A → List ℕ → Verdict → List ℕ
unfolding rewritten
after_verdict kind p input parsed = rewritten kind p input
after_verdict kind p input verbatim = input
after_verdict kind p input wait = input

-- Whether the message is dealt with.
pub settles : Verdict → Bool
settles parsed = true
settles verbatim = true
settles wait = false

same-Ends :
    (d : Direction)
    → IsOpen d
    → (input : List ℕ) → stream d ≡ input
    → Ends d input d.shutdown (some d)
same-Ends d v input e = record {
  next = d;
  ends = refl;
  carries = e;
  is_open = v;
  same_eof = refl;
  ends_down = refl;
  same_in = refl;
  undisturbed = refl;
}

module _ {A : Type 0} (kind : Kind A) (d : Direction) (v : IsOpen d) where
  abbrev incoming : List ℕ
  incoming = contents d.in_buf d.in_range

  module _ (empty : d.out_range.len ≡ 0) where
    only_input : stream d ≡ incoming
    only_input = ap (λ l. l ++ incoming) (contents-empty d.out_buf d.out_range empty)

    edited-Ends :
        (n : ℕ) (h : n ≤ d.in_range.len) (line : List ℕ) (hs : Option (List Header))
        → Ends d (edited incoming n line hs) d.shutdown (serialize_edited d n line hs)
    unfolding edited serialize_edited
    edited-Ends n h line none = same-Ends d v incoming only_input
    edited-Ends n h line (some hs) = serialize_into-Ends d v empty n h line hs

    rewritten-Ends :
        (p : Parsed A)
        → InBounds d.in_range.len p
        → Ends d (rewritten kind p incoming) d.shutdown (rewrite_parsed kind p d)
    unfolding rewritten rewrite_parsed InBounds
    rewritten-Ends no_memory b = same-Ends d v incoming only_input
    rewritten-Ends malformed b = same-Ends d v incoming only_input
    rewritten-Ends incomplete b = same-Ends d v incoming only_input
    rewritten-Ends (complete n msg hs) b = edited-Ends n b.1 (kind.line msg) (kind.edit hs)

-- The end of a direction: its bytes under way, whether its message is dealt with, and its flag.
pub record Settled (d : Direction) (input : List ℕ) (got : Bool) (r : Option (Direction × Bool))
    : Type 0 where
  pub next : Direction
  pub ends : r ≡ some (next, got)
  pub carries : stream next ≡ input
  pub is_open : IsOpen next
  pub ends_down : next.shutdown ≡ (if got then if d.eof then true else d.shutdown else d.shutdown)
  pub same_in : next.in_buf ≡ d.in_buf
  pub undisturbed : contents next.out_buf d.out_range ≡ contents d.out_buf d.out_range

-- A buffer that keeps what the next direction has in its output keeps what this one has.
KeepsFor : Direction → Direction → Type 0
KeepsFor d next =
    (buf : Buffer)
    → contents buf next.out_range ≡ contents next.out_buf next.out_range
    → contents buf d.out_range ≡ contents d.out_buf d.out_range

forwarded-Settled :
    (d : Direction) (input : List ℕ) (r : Option Direction) (s : Ends d input d.shutdown r)
    → KeepsFor d s.next
    → Settled d input true (forward_if_got (with_got true r))
unfolding forward_if_got with_got KeepsFor
forwarded-Settled d input r s keeps =
    let f = forward-Ends s.next s.is_open in
    record {
      next = f.next;
      ends = ap (λ o. forward_if_got (with_got true o)) s.ends ∙ ap (with_got true) f.ends;
      carries = f.carries ∙ s.carries;
      is_open = f.is_open;
      ends_down = f.ends_down ∙ ap₂ (λ e x. if e then true else x) s.same_eof s.ends_down;
      same_in = f.same_in ∙ s.same_in;
      undisturbed = keeps f.next.out_buf f.undisturbed;
    }

module _ {A : Type 0} (kind : Kind A) (d : Direction) (v : IsOpen d) (p : Parsed A)
    (b : InBounds d.in_range.len p) where
  verdict-Settled :
      (empty : d.out_range.len ≡ 0) (q : Verdict)
      → Settled d
          (after_verdict kind p (contents d.in_buf d.in_range) q)
          (settles q)
          (forward_if_got (rewrite_verdict kind p d q))
  unfolding after_verdict settles rewrite_verdict forward_if_got KeepsFor same-Ends
  verdict-Settled empty parsed =
      forwarded-Settled d _ _ (rewritten-Ends kind d v empty p b) (λ buf h.
        contents-empty buf d.out_range empty ∙ sym (contents-empty d.out_buf d.out_range empty))
  verdict-Settled empty verbatim =
      forwarded-Settled d _ (some d) (same-Ends d v _ (only_input kind d v empty)) (λ buf h. h)
  verdict-Settled empty wait = record {
    next = d;
    ends = refl;
    carries = only_input kind d v empty;
    is_open = v;
    ends_down = refl;
    same_in = refl;
    undisturbed = refl;
  }

  -- What a direction of `transform` comes to, by whether its message was dealt with before, and by
  -- the verdict on the parse.
  abbrev pub outcome : List ℕ → Bool → List ℕ
  outcome linear got =
      if got
      then stream d
      else after_verdict kind p (contents d.in_buf d.in_range)
          (eval_parse_result p linear d.eof kind.looks_like)

  abbrev pub settled : List ℕ → Bool → Bool
  settled linear got =
      if got then true else settles (eval_parse_result p linear d.eof kind.looks_like)

  -- On valid ranges, with a parse in the bounds of the input, and with an empty output until the
  -- message is dealt with, one direction of `transform` returns, with valid ranges. Its bytes
  -- under way stay the same, but for a complete message that fits into the output, which is
  -- replaced by its rewritten form; and the direction is shut down just if the message is dealt
  -- with and the end of file was reached, or it was before. The bytes of the old output range are
  -- still in the output's buffer, and the input's buffer has not changed.
  pub transform_direction-Settled :
      (linear : List ℕ) (got : Bool)
      → (got ≡ false → d.out_range.len ≡ 0)
      → Settled d
          (outcome linear got)
          (settled linear got)
          (transform_direction kind linear (some p) got d)
  unfolding transform_direction rewrite KeepsFor same-Ends
  transform_direction-Settled linear true empty =
      forwarded-Settled d _ (some d) (same-Ends d v _ refl) (λ buf h. h)
  transform_direction-Settled linear false empty = verdict-Settled (empty refl) _
