-- ===== src/Ipc/RoundTrip.antt =====
-- What `ipc_send` sends is what the methods of the other process are called with.
use tud_crash_tolerant_proxy.Prelude.{
  ℕ, ◌+◌, ◌≤◌, ◌<◌, ◌≡◌, refl, ap, sym, subst, ◌∙◌, false, Option, none, some, List, [], ◌∷◌, ◌++◌,
  length, length-append, take, drop, leb, fun_ext, ◌==◌, if◌then◌else◌, append_assoc, append-nil,
  arith, Bool-cases, inl, inr, sub_size,
}
use tud_crash_tolerant_proxy.Http.Headers.{bytes}
use tud_crash_tolerant_proxy.Ipc.{
  ipc_maxsize, format_head, append_tail, ipc_send, Scanned, Call, Recvmsg, got, extract_one_fd,
  c_string, tail_of, calls, call_parsed, parse_message, Method, all_done, Handled, find_method,
  also_closed, call_method, handle_incoming, ipc_process_incoming, fd_list,
}
use tud_crash_tolerant_proxy.Ipc.Format.{
  NoNul, EndsNumber, IsFormat, Outgoing, NoNulTail, IsSendable, NoNul-append, IsWord-NoNul,
  c_string-append, take-append, drop-append,
}

module _ (decimal : ℕ → List ℕ) (sscanf : List ℕ → Scanned) (law : IsFormat decimal sscanf) where
  -- What follows the head.
  abbrev rest_of : Option (List ℕ) → List ℕ
  rest_of none = []
  rest_of (some t) = 32 ∷ t

  abbrev head_of : Outgoing → List ℕ
  head_of m = format_head decimal m.action m.slot

  head-NoNul : (m : Outgoing) → IsSendable m → NoNul (head_of m)
  unfolding NoNul
  head-NoNul m v =
      NoNul-append m.action _ (IsWord-NoNul m.action v.word)
        (NoNul-append (bytes " slot=") _ (ground arith) (law.no_nul m.slot))

  rest-NoNul : (t : Option (List ℕ)) → NoNulTail t → NoNul (rest_of t)
  unfolding NoNul NoNulTail
  rest-NoNul none h = tt
  rest-NoNul (some t) h = ((λ e. omega (arith, e)), h)

  rest-EndsNumber : (t : Option (List ℕ)) → EndsNumber (rest_of t)
  unfolding EndsNumber
  rest-EndsNumber none = tt
  rest-EndsNumber (some t) = refl

  tail_of-rest_of : (t : Option (List ℕ)) → tail_of (rest_of t) ≡ t
  unfolding tail_of
  tail_of-rest_of none = refl
  tail_of-rest_of (some t) = refl

  unsome : List ℕ → Option (List ℕ) → List ℕ
  unsome d none = d
  unsome d (some x) = x

  -- The bytes of a message that is sent, and that they fit.
  record Sent (m : Outgoing) (d : List ℕ) : Type 0 where
    text : d ≡ (head_of m ++ rest_of m.tail) ++ (0 ∷ [])
    short : length d ≤ ipc_maxsize
    not_empty : 0 < length d

  tail-Sent :
      (m : Outgoing) (t : Option (List ℕ)) (d : List ℕ)
      → length (head_of m) < ipc_maxsize
      → append_tail (head_of m) t ≡ some d
      → (d ≡ (head_of m ++ rest_of t) ++ (0 ∷ [])) × (length d ≤ ipc_maxsize) × (0 < length d)
  unfolding append_tail unsome
  tail-Sent m none d h e =
      let text : head_of m ++ (0 ∷ []) ≡ d = ap (unsome d) e in
      let size = length-append (head_of m) (0 ∷ []) in
      (
        sym text ∙ ap (λ l. l ++ (0 ∷ [])) (sym (append-nil (head_of m))),
        omega (arith, ap length text, size, h),
        omega (arith, ap length text, size),
      )
  tail-Sent m (some t) d h e =
      elim (Bool-cases (leb (sub_size ipc_maxsize (length (head_of m) + 1)) (length t))) [
        | inl full ↦ absurd (
            ground (
              arith,
              subst (λ b. (if b then none else some (head_of m ++ ((32 ∷ t) ++ (0 ∷ [])))) ≡ some d)
                  full e,
            ))
        | inr fits ↦
            let text : head_of m ++ ((32 ∷ t) ++ (0 ∷ [])) ≡ d = ap (unsome d) (
              subst (λ b. (if b then none else some (head_of m ++ ((32 ∷ t) ++ (0 ∷ [])))) ≡ some d)
                fits e) in
            let size = length-append (head_of m) ((32 ∷ t) ++ (0 ∷ [])) in
            let size' = length-append t (0 ∷ []) in
            let room : length t < sub_size ipc_maxsize (length (head_of m) + 1) =
              ground (arith, fits) in
            (
              sym text ∙ sym (append_assoc (head_of m) (32 ∷ t) (0 ∷ [])),
              omega (arith, ap length text, size, size', h, room),
              omega (arith, ap length text, size),
            )
      ]

  ipc_send-Sent :
      (m : Outgoing) (d : List ℕ) → ipc_send decimal m.action m.slot m.tail ≡ some d → Sent m d
  unfolding ipc_send
  ipc_send-Sent m d e = elim (Bool-cases (leb ipc_maxsize (length (head_of m)))) [
    | inl long ↦ absurd (
        ground (
          arith,
          subst (λ b. (if b then none else append_tail (head_of m) m.tail) ≡ some d) long e,
        ))
    | inr fits ↦
        let (a, b, c) =
          tail-Sent m m.tail d (ground (arith, fits))
            (subst (λ b. (if b then none else append_tail (head_of m) m.tail) ≡ some d) fits e) in
        record { text = a; short = b; not_empty = c }
  ]

  abbrev call_of : Outgoing → Call
  call_of m = record { action = m.action; slot = m.slot; fd = m.fd; tail = m.tail }

  parse_message-Sent :
      (m : Outgoing) (d : List ℕ)
      → IsSendable m
      → Sent m d
      → parse_message sscanf m.fd d ≡ calls (call_of m)
  unfolding parse_message call_parsed
  parse_message-Sent m d v s =
      let body = head_of m ++ rest_of m.tail in
      let text : c_string d ≡ body =
        ap c_string s.text
        ∙ c_string-append body [] (
            NoNul-append (head_of m) (rest_of m.tail) (head-NoNul m v)
              (rest-NoNul m.tail v.tail_text)) in
      let scan =
        law.scans m.action m.slot (rest_of m.tail) v.not_empty v.word (rest-EndsNumber m.tail) in
      let word : take (length m.action) body ≡ m.action =
        ap (take (length m.action)) (append_assoc m.action _ (rest_of m.tail))
        ∙ take-append m.action _ in
      let end : tail_of (drop (length (head_of m)) body) ≡ m.tail =
        ap tail_of (drop-append (head_of m) (rest_of m.tail)) ∙ tail_of-rest_of m.tail in
      rw text
        (rw scan (λ i. calls (record { action = word i; slot = m.slot; fd = m.fd; tail = end i })))

  -- The messages, and what recvmsg(2) answers if it delivers them in order.
  pub data Delivered : List Outgoing → List Recvmsg → Type 0 where
    nothing_sent : Delivered [] []
    sent_one :
        {ms : List Outgoing} {rs : List Recvmsg} (m : Outgoing) (d : List ℕ)
        → IsSendable m
        → ipc_send decimal m.action m.slot m.tail ≡ some d
        → Delivered ms rs
        → Delivered (m ∷ ms) (got (record { text = d; fds = fd_list m.fd }) ∷ rs)

  module _ {S : Type 0} (methods : List (List ℕ × Option (Method S)))
      (fallback : Option (Method S)) where
    -- The methods called one after the other, with what was sent, until one does not return 0; a
    -- message without a method is skipped, and its file descriptor closed.
    unfoldable pub run_calls : List Outgoing → S → Handled S
    unfolding call_method
    run_calls [] s = record { ctx = s; closed = []; result = all_done }
    run_calls (m ∷ ms) s =
        call_method (find_method methods fallback m.action) (call_of m) s (λ t. run_calls ms t)

    extract_one_fd-fd_list : (fd : Option ℕ) → extract_one_fd (fd_list fd) ≡ (fd, [])
    unfolding extract_one_fd fd_list
    extract_one_fd-fd_list none = refl
    extract_one_fd-fd_list (some fd) = refl

    -- The loop over the datagrams comes down to the calls.
    pub ipc_process_incoming-Delivered :
        {ms : List Outgoing} {rs : List Recvmsg} (s : S)
        → Delivered ms rs
        → ipc_process_incoming sscanf methods fallback rs s ≡ run_calls ms s
    unfolding ipc_process_incoming run_calls handle_incoming also_closed
    ipc_process_incoming-Delivered s nothing_sent = refl
    ipc_process_incoming-Delivered s (sent_one {ms} {rs} m d v e next) =
        let t = ipc_send-Sent m d e in
        let something : (length d == 0) ≡ false = ground (arith, t.not_empty) in
        let whole : leb (ipc_maxsize + 1) (length d) ≡ false = ground (arith, t.short) in
        rw something (
          rw whole (
            rw (extract_one_fd-fd_list m.fd) (
              rw (parse_message-Sent m d v t) (
                ap (call_method (find_method methods fallback m.action) (call_of m) s)
                  (fun_ext (λ u. ipc_process_incoming-Delivered u next))))))
