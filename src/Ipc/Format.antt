-- ===== src/Ipc/Format.antt =====
-- The messages that can be sent, and what snprintf(3) and sscanf(3) do with them.
use tud_crash_tolerant_proxy.Prelude.{
  ℕ, ◌<◌, ◌≡◌, ◌≢◌, refl, ap, false, Option, none, some, List, [], ◌∷◌, ◌++◌, length, take, drop,
  ◌==◌, arith,
}
use tud_crash_tolerant_proxy.Ipc.{format_head, Scanned, c_string}

-- No byte is NUL.
unfoldable pub NoNul : List ℕ → Type 0
NoNul [] = Unit {0}
NoNul (x ∷ xs) = (x ≢ 0) × NoNul xs

-- Printable text without white-space.
unfoldable pub IsWord : List ℕ → Type 0
IsWord [] = Unit {0}
IsWord (x ∷ xs) = (32 < x) × IsWord xs

-- The next byte, if there is one, is a space.
unfoldable pub EndsNumber : List ℕ → Type 0
EndsNumber [] = Unit {0}
EndsNumber (x ∷ xs) = x ≡ 32

-- snprintf(3) and sscanf(3) as documented: a number is printed without NUL, and a word, a slot and what
-- follows them are scanned again as they were printed.
pub record IsFormat (decimal : ℕ → List ℕ) (sscanf : List ℕ → Scanned) : Type 0 where
  pub no_nul : (n : ℕ) → NoNul (decimal n)
  pub scans :
      (action : List ℕ) (slot : ℕ) (rest : List ℕ)
      → 0 < length action
      → IsWord action
      → EndsNumber rest
      → sscanf (format_head decimal action slot ++ rest) ≡ record {
        num_scanned = 1;
        action_len = some (length action);
        slot = slot;
        consumed = some (length (format_head decimal action slot));
      }

-- A message that the one process sends.
pub record Outgoing : Type 0 where
  pub action : List ℕ
  pub slot : ℕ
  pub fd : Option ℕ
  pub tail : Option (List ℕ)

unfoldable pub NoNulTail : Option (List ℕ) → Type 0
NoNulTail none = Unit {0}
NoNulTail (some t) = NoNul t

pub record IsSendable (m : Outgoing) : Type 0 where
  pub not_empty : 0 < length m.action
  pub word : IsWord m.action
  pub tail_text : NoNulTail m.tail

pub NoNul-append : (xs ys : List ℕ) → NoNul xs → NoNul ys → NoNul (xs ++ ys)
unfolding NoNul
NoNul-append [] ys h k = k
NoNul-append (x ∷ xs) ys h k = (h.0, NoNul-append xs ys h.1 k)

pub IsWord-NoNul : (xs : List ℕ) → IsWord xs → NoNul xs
unfolding IsWord NoNul
IsWord-NoNul [] h = tt
IsWord-NoNul (x ∷ xs) h = ((λ e. omega (arith, h.0, e)), IsWord-NoNul xs h.1)

pub c_string-append : (xs ys : List ℕ) → NoNul xs → c_string (xs ++ (0 ∷ ys)) ≡ xs
unfolding c_string NoNul
c_string-append [] ys h = refl
c_string-append (x ∷ xs) ys h =
    let there : (x == 0) ≡ false = ground (arith, h.0) in
    rw there (ap (λ l. x ∷ l) (c_string-append xs ys h.1))

pub take-append : (xs ys : List ℕ) → take (length xs) (xs ++ ys) ≡ xs
take-append [] ys = refl
take-append (x ∷ xs) ys = ap (λ l. x ∷ l) (take-append xs ys)

pub drop-append : (xs ys : List ℕ) → drop (length xs) (xs ++ ys) ≡ ys
drop-append [] ys = refl
drop-append (x ∷ xs) ys = drop-append xs ys
