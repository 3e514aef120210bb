-- ===== src/Ipc/Runs.antt =====
-- Which methods the receiver of messages calls, told by the names in its table.
use tud_crash_tolerant_proxy.Prelude.{
  ℕ, ◌≡◌, ◌≢◌, refl, ap, ap₂, sym, subst, Bool, true, false, Option, none, some, List, [], ◌∷◌,
  ◌==◌, Bool-cases, inl, inr, arith,
}
use tud_crash_tolerant_proxy.Ipc.{
  Scanned, Call, Recvmsg, same_text, Method, all_done, stopped, Handled, find_method, call_method,
  also_closed, after_method, fd_list, ipc_process_incoming,
}
use tud_crash_tolerant_proxy.Ipc.Format.{IsFormat, Outgoing}
use tud_crash_tolerant_proxy.Ipc.RoundTrip.{Delivered, run_calls, ipc_process_incoming-Delivered}

abbrev pub call_of : Outgoing → Call
call_of m = record { action = m.action; slot = m.slot; fd = m.fd; tail = m.tail }

head_of : ℕ → List ℕ → ℕ
head_of d [] = d
head_of d (x ∷ xs) = x

rest_of : List ℕ → List ℕ
rest_of [] = []
rest_of (x ∷ xs) = xs

is_empty : List ℕ → Bool
is_empty [] = true
is_empty (x ∷ xs) = false

same_text-same : (xs ys : List ℕ) → same_text xs ys ≡ true → xs ≡ ys
unfolding same_text
same_text-same [] [] h = refl
same_text-same [] (y ∷ ys) h = absurd (ground (arith, h))
same_text-same (x ∷ xs) [] h = absurd (ground (arith, h))
same_text-same (x ∷ xs) (y ∷ ys) h =
    ap₂ (λ z zs. z ∷ zs) (ground (arith, h)) (same_text-same xs ys (ground (arith, h)))

same_text-other : (xs ys : List ℕ) → same_text xs ys ≡ false → xs ≢ ys
unfolding same_text head_of rest_of is_empty
same_text-other [] [] h e = ground (arith, h)
same_text-other [] (y ∷ ys) h e = ground (arith, ap is_empty e)
same_text-other (x ∷ xs) [] h e = ground (arith, ap is_empty e)
same_text-other (x ∷ xs) (y ∷ ys) h e = elim (Bool-cases (x == y)) [
  | inl same ↦ same_text-other xs ys (ground (arith, h, same)) (ap rest_of e)
  | inr differs ↦ ground (arith, differs, ap (head_of 0) e)
]

module _ {S : Type 0} (fallback : Option (Method S)) where
  -- The first entry of the table with a name, or the fallback if there is none.
  pub data Named (action : List ℕ)
      : List (List ℕ × Option (Method S)) → Option (Method S) → Type 0 where
    first :
        {name : List ℕ} {m : Option (Method S)} {ms : List (List ℕ × Option (Method S))}
        → name ≡ action
        → Named action ((name, m) ∷ ms) m
    later :
        {name : List ℕ} {m found : Option (Method S)} {ms : List (List ℕ × Option (Method S))}
        → name ≢ action
        → Named action ms found
        → Named action ((name, m) ∷ ms) found
    unnamed : Named action [] fallback

  -- The messages one after the other: what `ctx` points to in front of them and after them, the file
  -- descriptors that are closed, and the result.
  pub data Runs (methods : List (List ℕ × Option (Method S)))
      : List Outgoing → S → Handled S → Type 0 where
    no_more : {s : S} → Runs methods [] s (record { ctx = s; closed = []; result = all_done })
    goes_on :
        {m : Outgoing} {ms : List Outgoing} {s t : S} {h : Handled S} (f : Method S)
        → Named m.action methods (some f)
        → f (call_of m) s ≡ (t, none)
        → Runs methods ms t h
        → Runs methods (m ∷ ms) s h
    stops :
        {m : Outgoing} {ms : List Outgoing} {s t : S} (f : Method S) (rc : ℕ)
        → Named m.action methods (some f)
        → f (call_of m) s ≡ (t, some rc)
        → Runs methods (m ∷ ms) s (record { ctx = t; closed = []; result = stopped rc })
    skipped :
        {m : Outgoing} {ms : List Outgoing} {s : S} {h : Handled S}
        → Named m.action methods none
        → m.fd ≡ none
        → Runs methods ms s h
        → Runs methods (m ∷ ms) s h
    closes :
        {m : Outgoing} {ms : List Outgoing} {s : S} {h : Handled S} (fd : ℕ)
        → Named m.action methods none
        → m.fd ≡ some fd
        → Runs methods ms s h
        → Runs methods (m ∷ ms) s (record h { closed = fd ∷ h.closed })

  find_method-Named :
      (methods : List (List ℕ × Option (Method S))) (action : List ℕ)
      → Named action methods (find_method methods fallback action)
  unfolding find_method
  find_method-Named [] action = unnamed
  find_method-Named ((name, m) ∷ ms) action = elim (Bool-cases (same_text name action)) [
    | inl same ↦ rw same (first (same_text-same name action same))
    | inr differs ↦
        rw differs (later (same_text-other name action differs) (find_method-Named ms action))
  ]

  module _ (methods : List (List ℕ × Option (Method S))) (m : Outgoing) (ms : List Outgoing) where
    method_Runs :
        (f : Method S) (s : S) (next : S → Handled S)
        → Named m.action methods (some f)
        → ((t : S) → Runs methods ms t (next t))
        → (p : S × Option ℕ) → f (call_of m) s ≡ p
        → Runs methods (m ∷ ms) s (after_method p next)
    unfolding after_method
    method_Runs f s next n rest (t, none) e = goes_on f n e (rest t)
    method_Runs f s next n rest (t, some rc) e = stops f rc n e

    skip_Runs :
        (s : S) (h : Handled S)
        → Named m.action methods none
        → Runs methods ms s h
        → (fd : Option ℕ) → m.fd ≡ fd
        → Runs methods (m ∷ ms) s (also_closed (fd_list fd) h)
    unfolding also_closed fd_list
    skip_Runs s h n rest none e = skipped n e rest
    skip_Runs s h n rest (some fd) e = closes fd n e rest

    call_Runs :
        (o : Option (Method S)) (s : S) (next : S → Handled S)
        → Named m.action methods o
        → ((t : S) → Runs methods ms t (next t))
        → Runs methods (m ∷ ms) s (call_method o (call_of m) s next)
    unfolding call_method
    call_Runs none s next n rest = skip_Runs s (next s) n (rest s) m.fd refl
    call_Runs (some f) s next n rest = method_Runs f s next n rest (f (call_of m) s) refl

  module _ (decimal : ℕ → List ℕ) (sscanf : List ℕ → Scanned) (law : IsFormat decimal sscanf)
      (methods : List (List ℕ × Option (Method S))) where
    run_calls-Runs :
        (ms : List Outgoing) (s : S)
        → Runs methods ms s (run_calls decimal sscanf law methods fallback ms s)
    unfolding run_calls
    run_calls-Runs [] s = no_more
    run_calls-Runs (m ∷ ms) s =
        call_Runs methods m ms (find_method methods fallback m.action) s _
          (find_method-Named methods m.action) (run_calls-Runs ms)

    -- With snprintf(3) and sscanf(3) as documented, for messages whose action is a word and whose tail
    -- has no NUL, and that `ipc_send` does not refuse for their length, delivered in order with their
    -- file descriptors: for each message in order, the receiver calls the first method of the table
    -- with the name of its action, or the fallback, with the same action, slot, file descriptor and
    -- tail that were sent, until a method does not return 0, whose number is then the result; a message
    -- without a method is skipped and its file descriptor closed; after the last one the result is 0.
    pub ipc_process_incoming-Runs :
        {ms : List Outgoing} {rs : List Recvmsg} (s : S)
        → Delivered decimal sscanf law ms rs
        → Runs methods ms s (ipc_process_incoming sscanf methods fallback rs s)
    ipc_process_incoming-Runs {ms = ms} s d =
        subst (Runs methods ms s)
          (sym (ipc_process_incoming-Delivered decimal sscanf law methods fallback s d))
          (run_calls-Runs ms s)
