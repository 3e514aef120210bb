-- ===== src/Http/Serialize.antt =====
-- `serialize_http` of worker/transform.c. The formatted status line, which `vsnprintf` makes, is an
-- argument.
use tud_crash_tolerant_proxy.Prelude.{
  ℕ, ◌-◌, ◌≤◌, ◌≡◌, ap, subst, sym, ◌∙◌, Bool, true, false, List, [], ◌∷◌, ◌++◌, ltb, if◌then◌else◌,
  length, length-append, take, append_assoc, append-nil, Bool-cases, inl, inr, arith,
}
use tud_crash_tolerant_proxy.Http.Headers.{Header, bytes}

abbrev pub crlf : List ℕ
crlf = 13 ∷ 10 ∷ []

-- What the serialiser has written from the start of `buf` on, how many bytes are left, and whether
-- it has returned -1.
pub record Writer : Type 0 where
  pub out : List ℕ
  pub left : ℕ
  pub failed : Bool

-- the macro `APPEND`
unfoldable pub append : List ℕ → Writer → Writer
append src w =
    if w.failed
    then w
    else if ltb w.left (length src)
    then record w { failed = true }
    else record { out = w.out ++ src; left = w.left - length src; failed = false }

append_headers : List Header → Writer → Writer
append_headers [] w = w
append_headers (h ∷ hs) w =
    append_headers hs (append crlf (append h.value (append (bytes ": ") (append h.name w))))

-- `vsnprintf(buf, size, …)`: of a line that does not fit with its NUL, what fits is written.
abbrev pub vsnprintf : ℕ → List ℕ → List ℕ
vsnprintf size line = if ltb (length line) size then line else take (size - 1) line ++ (0 ∷ [])

-- The buffer's first bytes, and whether the function failed; if not, it returned their count.
unfoldable pub serialize_http : ℕ → List ℕ → List Header → Writer
unfolding append append_headers
serialize_http size line headers = append crlf (
    append_headers headers (record {
      out = vsnprintf size line;
      left = size - length line;
      failed = ltb size (length line);
    }))

-- The header lines, each with its separator and line end.
pub header_lines : List Header → List ℕ
header_lines [] = []
header_lines (h ∷ hs) = h.name ++ (bytes ": " ++ (h.value ++ (crlf ++ header_lines hs)))

-- What a chain of appends has come to, from a writer: all of `text`, or a failure for want of room.
record Appended (w : Writer) (text : List ℕ) (r : Writer) : Type 0 where
  fails : r.failed ≡ (if w.failed then true else ltb w.left (length text))
  writes :
      r.failed ≡ false
      → r ≡ record { out = w.out ++ text; left = w.left - length text; failed = false }

append_stopped : (ys : List ℕ) (r : Writer) → r.failed ≡ true → append ys r ≡ r
unfolding append
append_stopped ys r e = if_true _ r.failed e
  where
    if_true : (x : Writer) (b : Bool) → b ≡ true → (if b then r else x) ≡ r
    if_true x b h = ground (arith, h)

append-append :
    (w : Writer) (xs ys : List ℕ) (r : Writer)
    → Appended w xs r
    → Appended w (xs ++ ys) (append ys r)
unfolding append
append-append w xs ys r h = elim (Bool-cases r.failed) [
  | inl stopped ↦ subst (Appended w (xs ++ ys)) (sym (append_stopped ys r stopped)) (record {
    fails = ground (arith, h.fails, stopped, length-append xs ys);
    writes = λ e. ground (arith, stopped, e);
  })
  | inr going ↦
      subst (λ t. Appended w (xs ++ ys) (append ys t)) (sym (h.writes going))
        (record {
          fails = ground (arith, h.fails, going, length-append xs ys);
          writes =
              λ k. ground (arith, h.fails, going, k, length-append xs ys, append_assoc w.out xs ys);
        })
]

append_headers_lem :
    (hs : List Header) (w : Writer) (xs : List ℕ) (r : Writer)
    → Appended w xs r
    → Appended w (xs ++ header_lines hs) (append_headers hs r)
unfolding append_headers header_lines
append_headers_lem [] w xs r h = subst (λ t. Appended w t r) (sym (append-nil xs)) h
append_headers_lem (h ∷ hs) w xs r a =
    subst (λ t. Appended w t (append_headers (h ∷ hs) r)) (simp append_assoc)
      (append_headers_lem hs w _ _ (
        append-append w _ crlf _ (
          append-append w _ h.value _
            (append-append w _ (bytes ": ") _ (append-append w xs h.name r a)))))

-- The whole message, as RFC 9112 lays it out.
pub message : List ℕ → List Header → List ℕ
message line headers = line ++ (header_lines headers ++ crlf)

append_nothing : (w : Writer) → Appended w [] w
append_nothing w = record {
  fails = ground arith;
  writes = λ e. ground (arith, e, append-nil w.out);
}

append_body :
    (w : Writer) (headers : List Header)
    → Appended w (header_lines headers ++ crlf) (append crlf (append_headers headers w))
append_body w headers =
    append-append w (header_lines headers) crlf _
      (append_headers_lem headers w [] w (append_nothing w))

-- `serialize_http` fails just if the status line, the header lines and the empty line are longer than
-- the buffer, and writes them all if they are not: the byte that `vsnprintf` cuts off is never seen.
pub serialize_http_lem :
    (size : ℕ) (line : List ℕ) (headers : List Header)
    → ((serialize_http size line headers).failed ≡ ltb size (length (message line headers)))
      × (length (message line headers) ≤ size
          → (serialize_http size line headers).out ≡ message line headers)
unfolding serialize_http message
serialize_http_lem size line headers =
    let b = append_body _ headers in
    let e = b.fails ∙ whole_length in
    (
      e,
      λ fits.
          ap (λ x. x.out) (b.writes (e ∙ ground (arith, fits)))
          ∙ ap (λ o. o ++ (header_lines headers ++ crlf)) (line_fits fits),
    )
  where
    whole_length :
        (if ltb size (length line)
          then true
          else ltb (size - length line) (length (header_lines headers ++ crlf)))
        ≡ ltb size (length (line ++ (header_lines headers ++ crlf)))
    whole_length = ground (arith, length-append line (header_lines headers ++ crlf))

    line_fits : length (line ++ (header_lines headers ++ crlf)) ≤ size → vsnprintf size line ≡ line
    line_fits fits = ground (
      arith,
      fits,
      length-append line (header_lines headers ++ crlf),
      length-append (header_lines headers) crlf,
    )
