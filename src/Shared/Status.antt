-- ===== src/Shared/Status.antt =====
-- `_connection_status_all` of common/shared_memory.c: one letter for each connection.
use tud_crash_tolerant_proxy.Prelude.{
  ℕ, Bool, true, false, get_or, suc, ◌+◌, ◌≡◌, refl, ap, some, List, [], ◌∷◌, ◌==◌, if◌then◌else◌,
  length, arith, get_elem?, zero, ◌∙◌,
}
use tud_crash_tolerant_proxy.Http.Headers.{bytes}
use tud_crash_tolerant_proxy.Shared.{
  Connection, conn_unused, conn_accepting, conn_connecting, conn_poll, conn_swap_buffers,
  conn_closing, conn_error,
}

-- The letter of a state, and of the connection that stands out.
unfoldable pub status_char : ℕ → ℕ
status_char state =
    if state == conn_unused
    then b'.'
    else if state == conn_accepting
    then b'a'
    else if state == conn_connecting
    then b'c'
    else if state == conn_poll
    then b'w'
    else if state == conn_swap_buffers
    then b'b'
    else if state == conn_closing
    then b'x'
    else if state == conn_error
    then b'e'
    else b'?'

unfoldable pub highlight_char : ℕ → ℕ
highlight_char state =
    if state == conn_unused
    then b'!'
    else if state == conn_accepting
    then b'A'
    else if state == conn_connecting
    then b'C'
    else if state == conn_poll
    then b'W'
    else if state == conn_swap_buffers
    then b'B'
    else if state == conn_closing
    then b'X'
    else if state == conn_error
    then b'E'
    else b'@'

-- The loop, from the connection of index `i` on.
status_loop : ℕ → ℕ → List Connection → List ℕ
unfolding status_char highlight_char
status_loop highlight i [] = []
status_loop highlight i (c ∷ cs) =
    (if i == highlight then highlight_char c.state else status_char c.state)
    ∷ status_loop highlight (suc i) cs

-- The text before its NUL.
unfoldable pub connection_status_all : ℕ → List Connection → List ℕ
unfolding status_loop
connection_status_all highlight cs = status_loop highlight 0 cs

status_loop_at :
    (highlight i k : ℕ) (cs : List Connection) (c : Connection)
    → get_elem? cs k ≡ some c
    → get_elem? (status_loop highlight i cs) k
      ≡ some (if i + k == highlight then highlight_char c.state else status_char c.state)
unfolding status_loop
status_loop_at highlight i k [] c h = ground (arith, h)
status_loop_at highlight i zero (x ∷ cs) c h = ground (arith, h)
status_loop_at highlight i (suc k) (x ∷ cs) c h =
    status_loop_at highlight (suc i) k cs c h
    ∙ ap (λ n. some (if n == highlight then highlight_char c.state else status_char c.state))
        (omega arith)

length-status_loop :
    (highlight i : ℕ) (cs : List Connection) → length (status_loop highlight i cs) ≡ length cs
unfolding status_loop
length-status_loop highlight i [] = refl
length-status_loop highlight i (c ∷ cs) = ap (λ n. suc n) (length-status_loop highlight (suc i) cs)

-- The letters of the states in the order of their numbers, and that of any other state.
abbrev pub letter : Bool → ℕ → ℕ
letter false state = get_or (bytes ".acwbxe") state b'?'
letter true state = get_or (bytes "!ACWBXE") state b'@'

status_char-letter : (state : ℕ) → status_char state ≡ letter false state
unfolding status_char
status_char-letter zero = refl
status_char-letter (suc zero) = refl
status_char-letter (suc (suc zero)) = refl
status_char-letter (suc (suc (suc zero))) = refl
status_char-letter (suc (suc (suc (suc zero)))) = refl
status_char-letter (suc (suc (suc (suc (suc zero))))) = refl
status_char-letter (suc (suc (suc (suc (suc (suc zero)))))) = refl
status_char-letter (suc (suc (suc (suc (suc (suc (suc n))))))) = ground arith

highlight_char-letter : (state : ℕ) → highlight_char state ≡ letter true state
unfolding highlight_char
highlight_char-letter zero = refl
highlight_char-letter (suc zero) = refl
highlight_char-letter (suc (suc zero)) = refl
highlight_char-letter (suc (suc (suc zero))) = refl
highlight_char-letter (suc (suc (suc (suc zero)))) = refl
highlight_char-letter (suc (suc (suc (suc (suc zero))))) = refl
highlight_char-letter (suc (suc (suc (suc (suc (suc zero)))))) = refl
highlight_char-letter (suc (suc (suc (suc (suc (suc (suc n))))))) = ground arith

choice :
    (b : Bool) (state : ℕ)
    → (if b then highlight_char state else status_char state) ≡ letter b state
choice true state = highlight_char-letter state
choice false state = status_char-letter state

-- The text has one letter for each connection, in order, and fits the buffer of as many bytes and one:
-- '.' for CONN_UNUSED, and then in the order of the states 'a', 'c', 'w', 'b', 'x' and 'e'; '!' and
-- the capitals for the connection that stands out; and '?', or '@', for any other state word, which
-- includes CONN_SWAP_BUFFERS with bits of the buffers.
pub connection_status_all-letter :
    (highlight : ℕ) (cs : List Connection)
    → (length (connection_status_all highlight cs) ≡ length cs)
      × ((k : ℕ) (c : Connection)
          → get_elem? cs k ≡ some c
          → get_elem? (connection_status_all highlight cs) k
            ≡ some (letter (k == highlight) c.state))
unfolding connection_status_all
connection_status_all-letter highlight cs = (
  length-status_loop highlight 0 cs,
  λ k c h.
      status_loop_at highlight 0 k cs c h
      ∙ ap (λ n. some (if n == highlight then highlight_char c.state else status_char c.state))
          (omega arith)
      ∙ ap (λ x. some x) (choice (k == highlight) c.state),
)
