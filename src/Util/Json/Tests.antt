-- ===== src/Util/Json/Tests.antt =====
-- The JSON functions on small inputs.
use tud_crash_tolerant_proxy.Prelude.{
  ℕ, ◌+◌, ◌≤◌, ◌≡◌, refl, some, List, [], ◌∷◌, ◌++◌, tabulate, dec_lt, dec_le, ℕ_discrete,
}
use tud_crash_tolerant_proxy.Ring.{Buffer}
use tud_crash_tolerant_proxy.Util.Json.{json_bufsize, json_strlcpy, json_strdup, escape, json_char}
use tud_crash_tolerant_proxy.Util.Json.Laws.{escaped, json_strlcpy_lem, json_strdup_lem}

abbrev blank : Buffer
blank i = 0

-- a letter, a line end and a byte that is no ASCII
abbrev sample_text : List ℕ
sample_text = 65 ∷ 10 ∷ 200 ∷ []

bufsize-sample : json_bufsize sample_text ≡ 12
unfolding json_bufsize json_char dec_lt dec_le ℕ_discrete
bufsize-sample = refl

escape-sample : escape 200 ≡ 92 ∷ 117 ∷ 48 ∷ 48 ∷ 67 ∷ 56 ∷ []
unfolding escape json_char dec_lt dec_le ℕ_discrete
escape-sample = refl

json_strlcpy_lem_example :
    ((json_strlcpy blank 20 sample_text).1 + 1 ≡ json_bufsize sample_text)
    × (json_bufsize sample_text ≤ 20
        → tabulate (json_bufsize sample_text) (json_strlcpy blank 20 sample_text).0
          ≡ 34 ∷ (escaped sample_text ++ (34 ∷ 0 ∷ [])))
json_strlcpy_lem_example = json_strlcpy_lem blank 20 sample_text

json_strdup_lem_example :
    (copy : Buffer) × (json_strdup (some blank) sample_text ≡ some copy)
    × (tabulate (json_bufsize sample_text) copy ≡ 34 ∷ (escaped sample_text ++ (34 ∷ 0 ∷ [])))
json_strdup_lem_example = json_strdup_lem blank sample_text
