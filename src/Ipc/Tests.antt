-- ===== src/Ipc/Tests.antt =====
-- Two messages, with numbers printed as so many ones.
use tud_crash_tolerant_proxy.Prelude.{
  ℕ, zero, suc, ◌+◌, ◌≡◌, refl, ap, ap₂, sym, ◌∙◌, true, false, none, some, List, [], ◌∷◌, ◌++◌,
  length, length-append, drop, ltb, ◌==◌, if◌then◌else◌, append_assoc, arith, dec_lt, dec_le,
}
use tud_crash_tolerant_proxy.Http.Headers.{bytes}
use tud_crash_tolerant_proxy.Ipc.{
  Scanned, Method, Recvmsg, got, format_head, ipc_send, ipc_process_incoming, append_tail, fd_list,
}
use tud_crash_tolerant_proxy.Ipc.Format.{
  NoNul, NoNulTail, IsWord, EndsNumber, IsFormat, Outgoing, IsSendable,
}
use tud_crash_tolerant_proxy.Ipc.RoundTrip.{Delivered, nothing_sent, sent_one}
use tud_crash_tolerant_proxy.Ipc.Runs.{Runs, ipc_process_incoming-Runs}

unary : ℕ → List ℕ
unary zero = []
unary (suc n) = 49 ∷ unary n

word_len : List ℕ → ℕ
word_len [] = 0
word_len (x ∷ xs) = if ltb 32 x then suc (word_len xs) else 0

ones : List ℕ → ℕ
ones [] = 0
ones (x ∷ xs) = if x == 49 then suc (ones xs) else 0

scan_unary : List ℕ → Scanned
scan_unary text =
    let n = word_len text in
    let k = ones (drop (n + 6) text) in
    record { num_scanned = 1; action_len = some n; slot = k; consumed = some (n + (6 + k)) }

unary-NoNul : (n : ℕ) → NoNul (unary n)
unfolding unary NoNul
unary-NoNul zero = tt
unary-NoNul (suc n) = ((λ e. omega (arith, e)), unary-NoNul n)

word_len-append : (xs ys : List ℕ) → IsWord xs → word_len (xs ++ (32 ∷ ys)) ≡ length xs
unfolding word_len IsWord dec_lt
word_len-append [] ys h = refl
word_len-append (x ∷ xs) ys h =
    let good : ltb 32 x ≡ true = ground (arith, h.0) in
    rw good (ap (λ n. suc n) (word_len-append xs ys h.1))

ones-unary : (n : ℕ) (rest : List ℕ) → EndsNumber rest → ones (unary n ++ rest) ≡ n
unfolding ones unary EndsNumber
ones-unary zero [] h = refl
ones-unary zero (x ∷ xs) h = let other : (x == 49) ≡ false = ground (arith, h) in rw other refl
ones-unary (suc n) rest h = ap (λ k. suc k) (ones-unary n rest h)

length-unary : (n : ℕ) → length (unary n) ≡ n
unfolding unary
length-unary zero = refl
length-unary (suc n) = ap (λ k. suc k) (length-unary n)

drop_past : (xs ys : List ℕ) (k : ℕ) → drop (length xs + k) (xs ++ ys) ≡ drop k ys
drop_past [] ys k = ap (λ n. drop n ys) (omega arith)
drop_past (x ∷ xs) ys k =
    let more : length (x ∷ xs) + k ≡ suc (length xs + k) = omega arith in
    ap (λ n. drop n (x ∷ (xs ++ ys))) more ∙ drop_past xs ys k

unary-IsFormat : IsFormat unary scan_unary
unfolding scan_unary
unary-IsFormat = record {
  no_nul = unary-NoNul;
  scans = λ action slot rest h w e.
      let text = append_assoc action (bytes " slot=" ++ unary slot) rest in
      let len : word_len (format_head unary action slot ++ rest) ≡ length action =
        ap word_len text ∙ word_len-append action _ w in
      let number : ones (
            drop (word_len (format_head unary action slot ++ rest) + 6)
              (format_head unary action slot ++ rest))
          ≡ slot =
        ap₂ (λ n t. ones (drop (n + 6) t)) len text
        ∙ ap ones (drop_past action ((bytes " slot=" ++ unary slot) ++ rest) 6)
        ∙ ones-unary slot rest e in
      let size : length (format_head unary action slot) ≡ length action + (6 + slot) = omega (
        arith,
        length-append action (bytes " slot=" ++ unary slot),
        length-append (bytes " slot=") (unary slot),
        length-unary slot,
      ) in
      λ i. record {
        num_scanned = 1;
        action_len = some (len i);
        slot = number i;
        consumed = some ((ap₂ (λ n k. n + (6 + k)) len number ∙ sym size) i);
      };
}

abbrev orphan_down : Outgoing
orphan_down = record { action = bytes "orphan_down"; slot = 2; fd = some 7; tail = none }

abbrev connect : Outgoing
connect = record { action = bytes "connect"; slot = 1; fd = none; tail = some (bytes "addr=x") }

orphan_down-IsSendable : IsSendable orphan_down
unfolding IsWord NoNulTail
orphan_down-IsSendable = record { not_empty = omega arith; word = ground arith; tail_text = tt }

connect-IsSendable : IsSendable connect
unfolding IsWord NoNulTail NoNul
connect-IsSendable = record {
  not_empty = omega arith;
  word = ground arith;
  tail_text = ground arith;
}

-- A method that counts its calls.
abbrev count_call : Method ℕ
count_call c n = (n + 1, none)

abbrev answers : List Recvmsg
answers =
    got (record { text = bytes "orphan_down slot=11" ++ (0 ∷ []); fds = 7 ∷ [] })
    ∷ got (record { text = bytes "connect slot=1 addr=x" ++ (0 ∷ []); fds = [] })
    ∷ []

delivery : Delivered unary scan_unary unary-IsFormat (orphan_down ∷ connect ∷ []) answers
unfolding ipc_send unary append_tail fd_list dec_lt dec_le
delivery =
    sent_one orphan_down _ orphan_down-IsSendable refl
      (sent_one connect _ connect-IsSendable refl nothing_sent)

ipc_process_incoming-Runs_example :
    Runs none
      ((bytes "connect", some count_call) ∷ [])
      (orphan_down ∷ connect ∷ [])
      0
      (ipc_process_incoming scan_unary ((bytes "connect", some count_call) ∷ []) none answers 0)
ipc_process_incoming-Runs_example =
    ipc_process_incoming-Runs none unary scan_unary unary-IsFormat
      ((bytes "connect", some count_call) ∷ []) 0 delivery
