-- ===== src/Util/Strlcpy.antt =====
-- `strlcpy` of common/util.c, with stpncpy(3) as an argument. A string is the list of its characters
-- without the NUL; sizes are below those at which `size_t` would wrap.
use tud_crash_tolerant_proxy.Prelude.{
  ℕ, zero, suc, ◌+◌, ◌-◌, ◌≤◌, ◌<◌, ◌≡◌, refl, ap, sym, ◌∙◌, true, false, List, [], ◌∷◌, ◌++◌,
  length, length-append, length-take, length-drop, take, drop, set, length-set, take_all, ltb,
  if◌then◌else◌, arith, Bool-cases, inl, inr,
}

-- What stpncpy(3) leaves: the `size` bytes that it stores, and the end, as an offset.
pub record Copied : Type 0 where
  pub stored : List ℕ
  pub end : ℕ

-- The buffer, and the result.
unfoldable pub strlcpy : (List ℕ → ℕ → Copied) → List ℕ → ℕ → List ℕ × ℕ
strlcpy stpncpy src size =
    let c = stpncpy src size in
    if ltb c.end size then (c.stored, c.end) else (
      if ltb 0 c.end then set c.stored (c.end - 1) 0 else c.stored,
      c.end + length (drop c.end src),
    )

unfoldable pub zeros : ℕ → List ℕ
zeros zero = []
zeros (suc n) = 0 ∷ zeros n

-- stpncpy(3), as documented: it stores the string, filled up with NULs, or as much of it as fits.
pub record IsStpncpy (stpncpy : List ℕ → ℕ → Copied) : Type 0 where
  pub fits :
      (src : List ℕ) (size : ℕ)
      → length src < size
      → stpncpy src size ≡ record { stored = src ++ zeros (size - length src); end = length src }
  pub cuts :
      (src : List ℕ) (size : ℕ)
      → size ≤ length src
      → stpncpy src size ≡ record { stored = take size src; end = size }

length-zeros : (n : ℕ) → length (zeros n) ≡ n
unfolding zeros
length-zeros zero = refl
length-zeros (suc n) = ap (λ k. suc k) (length-zeros n)

set-take :
    (n : ℕ) (src : List ℕ) → n < length src → set (take (suc n) src) n 0 ≡ take n src ++ (0 ∷ [])
set-take n [] h = absurd (omega (arith, h))
set-take zero (x ∷ xs) h = refl
set-take (suc n) (x ∷ xs) h = ap (λ l. x ∷ l) (set-take n xs (omega (arith, h)))

-- What the call comes to.
pub record Copies (src : List ℕ) (size : ℕ) (r : List ℕ × ℕ) : Type 0 where
  pub padding : List ℕ
  pub buffer : r.0 ≡ take (size - 1) src ++ (0 ∷ padding)
  pub exact : length r.0 ≡ size
  pub result : r.1 ≡ length src

-- With stpncpy(3) as documented and a size that is not 0: exactly `size` bytes are stored, which are as
-- many characters of the string as leave room for one NUL, and that NUL; the result is the length of
-- the whole string.
pub strlcpy-Copies :
    (stpncpy : List ℕ → ℕ → Copied)
    → IsStpncpy stpncpy
    → (src : List ℕ) (size : ℕ) → 0 < size
    → Copies src size (strlcpy stpncpy src size)
unfolding strlcpy zeros
strlcpy-Copies stpncpy law src zero h = absurd (omega (arith, h))
strlcpy-Copies stpncpy law src (suc n) h = elim (Bool-cases (ltb (length src) (suc n))) [
  | inl short ↦
      let len : length src < suc n = ground (arith, short) in
      let one_more : suc n - length src ≡ suc (n - length src) = omega (arith, len) in
      rw (law.fits src (suc n) len) (
        rw short (record {
          padding = zeros (n - length src);
          buffer =
              ap (λ k. src ++ zeros k) one_more
              ∙ ap (λ l. l ++ (0 ∷ zeros (n - length src)))
                  (sym (take_all (suc n - 1) src (omega (arith, len))));
          exact =
              length-append src (zeros (suc n - length src))
              ∙ omega (arith, length-zeros (suc n - length src), len);
          result = refl;
        }))
  | inr long ↦
      let len : suc n ≤ length src = ground (arith, long) in
      let at_end : ltb (suc n) (suc n) ≡ false = ground arith in
      let some_room : ltb 0 (suc n) ≡ true = ground arith in
      let last : suc n - 1 ≡ n = omega arith in
      rw (law.cuts src (suc n) len) (
        rw at_end (
          rw some_room (record {
            padding = [];
            buffer =
                ap (λ k. set (take (suc n) src) k 0) last
                ∙ set-take n src (omega (arith, len))
                ∙ ap (λ k. take k src ++ (0 ∷ [])) (sym last);
            exact =
                length-set (take (suc n) src) (suc n - 1) 0
                ∙ length-take (suc n) src
                ∙ omega (arith, len);
            result = omega (arith, length-drop (suc n) src, len);
          })))
]
