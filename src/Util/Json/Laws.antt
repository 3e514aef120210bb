-- ===== src/Util/Json/Laws.antt =====
-- The results of the JSON functions.
use tud_crash_tolerant_proxy.Prelude.{
  ℕ, ◌+◌, ◌≤◌, ◌≡◌, refl, ap, ap₂, ◌∙◌, false, some, List, [], ◌∷◌, ◌++◌, ltb, leb, ◌==◌,
  if◌then◌else◌, length, length-append, get_or, tabulate, tabulate_cong, tabulate-append,
  tabulate-get_or, append_assoc, arith,
}
use tud_crash_tolerant_proxy.Ring.{Buffer}
use tud_crash_tolerant_proxy.Ring.Move.{memcpy_inside}
use tud_crash_tolerant_proxy.Util.Json.{
  json_char, bufsize_loop, json_bufsize, escape, put, overflow, json_loop, json_strlcpy,
  json_strdup,
}

-- The text between the quotes.
pub escaped : List ℕ → List ℕ
escaped [] = []
escaped (c ∷ cs) = escape c ++ escaped cs

bufsize_loop_lem : (n : ℕ) (src : List ℕ) → bufsize_loop n src ≡ n + length (escaped src)
unfolding bufsize_loop escaped escape
bufsize_loop_lem n [] = omega arith
bufsize_loop_lem n (c ∷ cs) =
    bufsize_loop_lem (n + (if json_char c == 0 then 6 else if json_char c == 1 then 1 else 2)) cs
    ∙ ground (arith, length-append (escape c) (escaped cs))

json_bufsize_lem : (src : List ℕ) → json_bufsize src ≡ 3 + length (escaped src)
unfolding json_bufsize
json_bufsize_lem src = bufsize_loop_lem 3 src

json_loop_result :
    (size : ℕ) (json : Buffer) (dst : ℕ) (src : List ℕ)
    → (json_loop size json dst src).1 ≡ dst + length (escaped src) + 1
unfolding json_loop overflow escaped
json_loop_result size json dst [] = ground (arith, json_bufsize_lem [])
json_loop_result size json dst (c ∷ cs) = ground (
  arith,
  json_bufsize_lem (c ∷ cs),
  length-append (escape c) (escaped cs),
  json_loop_result size (put json dst (escape c)) (dst + length (escape c)) cs,
)

tabulate-put :
    (json : Buffer) (dst : ℕ) (text : List ℕ)
    → tabulate (dst + length text) (put json dst text) ≡ tabulate dst json ++ text
tabulate-put json dst text =
    tabulate-append dst (length text) (dst + length text) (put json dst text) (omega arith)
    ∙ ap₂ ◌++◌ (tabulate_cong dst dst _ _ refl (λ k h. ground (arith, h))) (
        tabulate_cong (length text) (length text) _ _ refl
          (λ k h. memcpy_inside json dst (length text) k (dst + k) (λ j. get_or text j 0) h refl)
        ∙ tabulate-get_or text 0)

json_loop_text :
    (size : ℕ) (json : Buffer) (dst : ℕ) (src : List ℕ)
    → dst + length (escaped src) + 2 ≤ size
    → tabulate (dst + length (escaped src) + 2) (json_loop size json dst src).0
      ≡ tabulate dst json ++ (escaped src ++ (34 ∷ 0 ∷ []))
unfolding json_loop escaped
json_loop_text size json dst [] h =
    let fits : ltb size (dst + 2) ≡ false = ground (arith, h) in
    rw fits (
      ap (λ n. tabulate n (put json dst (34 ∷ 0 ∷ []))) (omega arith)
      ∙ tabulate-put json dst (34 ∷ 0 ∷ []))
json_loop_text size json dst (c ∷ cs) h =
    let fits : ltb size (dst + length (escape c)) ≡ false =
      ground (arith, h, length-append (escape c) (escaped cs)) in
    rw fits (
      ap (λ n. tabulate n (json_loop size (put json dst (escape c)) (dst + length (escape c)) cs).0)
        (omega (arith, length-append (escape c) (escaped cs)))
      ∙ json_loop_text size (put json dst (escape c)) (dst + length (escape c)) cs
          (omega (arith, h, length-append (escape c) (escaped cs)))
      ∙ ap (λ l. l ++ (escaped cs ++ (34 ∷ 0 ∷ []))) (tabulate-put json dst (escape c))
      ∙ simp append_assoc)

-- `json_strlcpy` returns, like strlcpy, the length of the whole text without its NUL, whether or not
-- the target has room for it, and `json_bufsize` is one more. Where the target has that size, it gets
-- the quoted and escaped text and the NUL.
pub json_strlcpy_lem :
    (json : Buffer) (size : ℕ) (src : List ℕ)
    → ((json_strlcpy json size src).1 + 1 ≡ json_bufsize src)
      × (json_bufsize src ≤ size
          → tabulate (json_bufsize src) (json_strlcpy json size src).0
            ≡ 34 ∷ (escaped src ++ (34 ∷ 0 ∷ [])))
unfolding json_strlcpy
json_strlcpy_lem json size src = (
  omega (arith, json_bufsize_lem src, json_loop_result size (put json 0 (34 ∷ [])) 1 src),
  λ h.
      ap (λ n. tabulate n (json_loop size (put json 0 (34 ∷ [])) 1 src).0)
        (omega (arith, json_bufsize_lem src))
      ∙ json_loop_text size (put json 0 (34 ∷ [])) 1 src (omega (arith, h, json_bufsize_lem src))
      ∙ ap (λ l. l ++ (escaped src ++ (34 ∷ 0 ∷ []))) (tabulate-put json 0 (34 ∷ [])),
)

-- Where there is memory, `json_strdup` does not return NULL: the size it asks for is enough, and
-- what it returns is the quoted and escaped text with its NUL.
pub json_strdup_lem :
    (json : Buffer) (src : List ℕ)
    → (copy : Buffer) × (json_strdup (some json) src ≡ some copy)
      × (tabulate (json_bufsize src) copy ≡ 34 ∷ (escaped src ++ (34 ∷ 0 ∷ [])))
unfolding json_strdup
json_strdup_lem json src =
    let l = json_strlcpy_lem json (json_bufsize src) src in
    let fits : leb (json_bufsize src) (json_strlcpy json (json_bufsize src) src).1 ≡ false =
      ground (arith, l.0) in
    ((json_strlcpy json (json_bufsize src) src).0, rw fits refl, l.1 (omega arith))
