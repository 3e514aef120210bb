-- ===== src/Transform/Stream.antt =====
-- What one direction of `transform` does to the bytes that are on their way: those of the output
-- range, followed by those of the input range.
pub mod Rewrite
use tud_crash_tolerant_proxy.Prelude.{
  ℕ, add_size, sub_size, subst, ◌+◌, ◌-◌, ◌%◌, ◌^◌, ◌≤◌, ◌<◌, ◌≡◌, refl, ap, ap₂, sym, ◌∙◌, Bool,
  true, false, Option, none, some, List, [], ◌++◌, ltb, if◌then◌else◌, length, drop, take,
  take-append-drop, append_assoc, tabulate, tabulate_cong, drop-tabulate, tabulate-get_or, get_or,
  ◌==◌, leb, arith, Bool-cases, inl, inr, ◌&&◌,
}
use tud_crash_tolerant_proxy.Ring.{
  Buffer, RingBufferRange, ring_buffer_size, IsValid, contents, memcpy, ring_buffer_move, Moved,
}
use tud_crash_tolerant_proxy.Ring.Transfer.{Transferred, ring_buffer_move_refines}
use tud_crash_tolerant_proxy.Http.Headers.{Header}
use tud_crash_tolerant_proxy.Http.Serialize.{Writer, serialize_http, message, serialize_http_lem}
use tud_crash_tolerant_proxy.Transform.{
  Direction, forward, moved_to, serialize_into, serialize_edited,
}

abbrev pub stream : Direction → List ℕ
stream d = contents d.out_buf d.out_range ++ contents d.in_buf d.in_range

abbrev pub IsOpen : Direction → Type 0
IsOpen d = IsValid d.out_range × IsValid d.in_range

-- A step that ends with `bytes` under way, and with the flags `down` and that of the end of file.
pub record Ends (d : Direction) (bytes : List ℕ) (down : Bool) (r : Option Direction) : Type 0 where
  pub next : Direction
  pub ends : r ≡ some next
  pub carries : stream next ≡ bytes
  pub is_open : IsOpen next
  pub same_eof : next.eof ≡ d.eof
  pub ends_down : next.shutdown ≡ down
  pub same_in : next.in_buf ≡ d.in_buf
  pub undisturbed : contents next.out_buf d.out_range ≡ contents d.out_buf d.out_range

moved_to-Ends :
    (d : Direction) (m : Moved)
    → Transferred d.out_buf d.out_range d.in_buf d.in_range m
    → Ends d (stream d) (if d.eof then true else d.shutdown) (moved_to d (some m))
unfolding moved_to
moved_to-Ends d m t = record {
  next = record d {
    out_buf = m.dst_buf;
    out_range = m.dst_range;
    in_range = m.src_range;
    shutdown = if d.eof then true else d.shutdown;
  };
  ends = refl;
  carries =
      ap₂ ◌++◌ t.received t.left
      ∙ append_assoc (contents d.out_buf d.out_range) (take m.copied (contents d.in_buf d.in_range))
          _
      ∙ ap (λ l. contents d.out_buf d.out_range ++ l)
          (take-append-drop m.copied (contents d.in_buf d.in_range));
  is_open = (t.dst_valid, t.src_valid);
  same_eof = refl;
  ends_down = refl;
  same_in = refl;
  undisturbed = t.undisturbed;
}

-- Forwarding neither loses nor reorders a byte, whatever fits into the output.
pub forward-Ends :
    (d : Direction) → IsOpen d → Ends d (stream d) (if d.eof then true else d.shutdown) (forward d)
unfolding forward
forward-Ends d v =
    let (m, e, t) = ring_buffer_move_refines d.out_buf v.0 d.in_buf v.1 in
    let f = moved_to-Ends d m t in
    record {
      next = f.next;
      ends = ap (moved_to d) e ∙ f.ends;
      carries = f.carries;
      is_open = f.is_open;
      same_eof = f.same_eof;
      ends_down = f.ends_down;
      same_in = f.same_in;
      undisturbed = f.undisturbed;
    }

pub contents-empty : (buf : Buffer) (r : RingBufferRange) → r.len ≡ 0 → contents buf r ≡ []
contents-empty buf r h = ap (λ n. tabulate n (λ k. buf ((r.start + k) % ring_buffer_size))) h

memcpy_at : (dst : Buffer) (n k : ℕ) (src : ℕ → ℕ) → k < n → memcpy dst 0 src n k ≡ src k
memcpy_at dst n k src h = ground (arith, h)

contents-memcpy :
    (dst : Buffer) (text : List ℕ)
    → length text ≤ ring_buffer_size
    → contents
        (memcpy dst 0 (λ k. get_or text k 0) (length text))
        (record { start = 0; len = length text; shutdown = false })
      ≡ text
contents-memcpy dst text fits =
    tabulate_cong (length text) (length text) _ _ refl (λ k h.
      ap (memcpy dst 0 (λ j. get_or text j 0) (length text)) (omega (arith, fits, h))
      ∙ memcpy_at dst (length text) k (λ j. get_or text j 0) h)
    ∙ tabulate-get_or text 0

-- The bytes behind a parsed message.
contents-consumed :
    (buf : Buffer) (r : RingBufferRange) (n : ℕ)
    → IsValid r
    → n ≤ r.len
    → contents buf (record r {
      start = (r.start + n) % 2 ^ 64 % ring_buffer_size;
      len = (r.len + 2 ^ 64 - n) % 2 ^ 64;
    })
      ≡ drop n (contents buf r)
contents-consumed buf r n v h =
    tabulate_cong _ (r.len - n) _ _ (omega arith) (λ k l. ap buf (omega arith))
    ∙ sym (drop-tabulate n r.len (λ k. buf ((r.start + k) % ring_buffer_size)))

-- The bytes under way after a message of `n` bytes was serialised, if it fits.
abbrev pub serialized : List ℕ → ℕ → List ℕ → List Header → List ℕ
serialized bytes n line hs =
    if ltb ring_buffer_size (length (message line hs))
    then bytes
    else message line hs ++ drop n bytes

-- The directions that `serialize_into` leaves.
abbrev written_buf : Direction → Writer → Buffer
written_buf d w = memcpy d.out_buf 0 (λ k. get_or w.out k 0) (length w.out)

abbrev spoiled : Direction → Writer → Direction
spoiled d w = record d { out_buf = written_buf d w }

abbrev filled : Direction → ℕ → Writer → Direction
filled d n w = record d {
  out_buf = written_buf d w;
  in_range = record d.in_range {
    start = add_size d.in_range.start n % ring_buffer_size;
    len = sub_size d.in_range.len n;
  };
  out_range = record { start = 0; len = length w.out; shutdown = false };
}

serialize_into-cases :
    (d : Direction) (n : ℕ) (w : Writer)
    → d.out_range.len ≡ 0
    → serialize_into d n w ≡ some (if w.failed then spoiled d w else filled d n w)
unfolding serialize_into
serialize_into-cases d n w e =
    let drained : (d.out_range.len == 0) ≡ true = ground (arith, e) in rw drained refl

module _ (d : Direction) (v : IsOpen d) (empty : d.out_range.len ≡ 0) (n : ℕ)
    (h : n ≤ d.in_range.len) (line : List ℕ) (hs : List Header) where
  abbrev writer : Writer
  writer = serialize_http ring_buffer_size line hs

  chosen :
      (b : Bool)
      → ltb ring_buffer_size (length (message line hs)) ≡ b
      → serialize_into d n writer ≡ some (if b then spoiled d writer else filled d n writer)
  chosen b e =
      serialize_into-cases d n writer empty
      ∙ ap (λ t. some (if t then spoiled d writer else filled d n writer))
          ((serialize_http_lem ring_buffer_size line hs).0 ∙ e)

  both_empty : (buf : Buffer) → contents buf d.out_range ≡ contents d.out_buf d.out_range
  both_empty buf =
      contents-empty buf d.out_range empty ∙ sym (contents-empty d.out_buf d.out_range empty)

  serialize_into-Ends-by :
      (b : Bool)
      → ltb ring_buffer_size (length (message line hs)) ≡ b
      → Ends d
          (if b
            then contents d.in_buf d.in_range
            else message line hs ++ drop n (contents d.in_buf d.in_range))
          d.shutdown
          (serialize_into d n writer)
  serialize_into-Ends-by true long = record {
    next = spoiled d writer;
    ends = chosen true long;
    carries =
        ap (λ l. l ++ contents d.in_buf d.in_range)
          (contents-empty (written_buf d writer) d.out_range empty);
    is_open = v;
    same_eof = refl;
    ends_down = refl;
    same_in = refl;
    undisturbed = both_empty (written_buf d writer);
  }
  serialize_into-Ends-by false fits = record {
    next = filled d n writer;
    ends = chosen false fits;
    carries =
        ap₂ ◌++◌ (contents-memcpy d.out_buf writer.out room ∙ whole)
          (contents-consumed d.in_buf d.in_range n v.1 h);
    is_open = (omega (arith, room), omega (arith, v));
    same_eof = refl;
    ends_down = refl;
    same_in = refl;
    undisturbed = both_empty (written_buf d writer);
  }
    where
      whole : writer.out ≡ message line hs
      whole = (serialize_http_lem ring_buffer_size line hs).1 (ground (arith, fits))

      room : length writer.out ≤ ring_buffer_size
      room = subst (λ t. length t ≤ ring_buffer_size) (sym whole) (ground (arith, fits))

  -- Either the message is in the output and its bytes are gone from the input, or all is as before.
  pub serialize_into-Ends :
      Ends d
        (serialized (contents d.in_buf d.in_range) n line hs)
        d.shutdown
        (serialize_into d n writer)
  serialize_into-Ends = serialize_into-Ends-by _ refl
