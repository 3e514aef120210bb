-- ===== src/Prelude/Tabulate.antt =====
-- Lists given by their values at the first `n` numbers, the view of a buffer's bytes.
use Prim.Native.Nat.{ℕ, zero, suc, ◌+◌, ◌-◌, ◌≤◌, ◌<◌}
use mathlib.Core.Path.{◌≡◌, refl, ap, ap₂, ◌∙◌}
use mathlib.Core.List.{List, [], ◌∷◌, ◌++◌}
use native.Mathlib.Omega.{arith}
use tud_crash_tolerant_proxy.Prelude.Lists.{length, get_or, take, drop}

module _ {ℓ} {A : Type ℓ} where
  -- `f 0, …, f (n - 1)`
  abbrev pub tabulate : ℕ → (ℕ → A) → List A
  tabulate zero f = []
  tabulate (suc n) f = f 0 ∷ tabulate n (λ k. f (suc k))

  pub length-tabulate : (n : ℕ) (f : ℕ → A) → length (tabulate n f) ≡ n
  length-tabulate zero f = refl
  length-tabulate (suc n) f = ap suc (length-tabulate n (λ k. f (suc k)))

  pub tabulate_ext :
      (n : ℕ) (f g : ℕ → A) → ((k : ℕ) → k < n → f k ≡ g k) → tabulate n f ≡ tabulate n g
  tabulate_ext zero f g h = refl
  tabulate_ext (suc n) f g h =
      ap₂ ◌∷◌ (h 0 (omega arith))
        (tabulate_ext n (λ k. f (suc k)) (λ k. g (suc k)) (λ k l. h (suc k) (omega arith)))

  -- The number of entries, as an equation, so that sums in any shape fit.
  pub tabulate-append :
      (m n t : ℕ) (f : ℕ → A)
      → t ≡ m + n
      → tabulate t f ≡ tabulate m f ++ tabulate n (λ k. f (m + k))
  tabulate-append zero n t f e =
      ap (λ j. tabulate j f) (omega arith)
      ∙ tabulate_ext n f (λ k. f (0 + k)) (λ k l. ap f (omega arith))
  tabulate-append (suc m) n zero f e = absurd (omega arith)
  tabulate-append (suc m) n (suc t) f e =
      ap (λ l. f 0 ∷ l)
        (tabulate-append m n t (λ k. f (suc k)) (omega arith)
          ∙ ap (λ l. tabulate m (λ k. f (suc k)) ++ l)
              (tabulate_ext n (λ k. f (suc (m + k))) (λ k. f (suc m + k))
                (λ k l. ap f (omega arith))))

  pub tabulate_cong :
      (m n : ℕ) (f g : ℕ → A) → m ≡ n → ((k : ℕ) → k < m → f k ≡ g k) → tabulate m f ≡ tabulate n g
  tabulate_cong m n f g e h = tabulate_ext m f g h ∙ ap (λ j. tabulate j g) e

  pub drop-tabulate :
      (m n : ℕ) (f : ℕ → A) → drop m (tabulate n f) ≡ tabulate (n - m) (λ k. f (m + k))
  drop-tabulate zero n f =
      tabulate_cong n (n - 0) f (λ k. f (0 + k)) (omega arith) (λ k l. ap f (omega arith))
  drop-tabulate (suc m) zero f =
      tabulate_cong 0 (0 - suc m) f (λ k. f (suc m + k)) (omega arith) (λ k l. absurd (omega arith))
  drop-tabulate (suc m) (suc n) f =
      drop-tabulate m n (λ k. f (suc k))
      ∙ tabulate_cong (n - m) (suc n - suc m) (λ k. f (suc (m + k))) (λ k. f (suc m + k))
          (omega arith) (λ k l. ap f (omega arith))

  pub take-tabulate : (m n : ℕ) (f : ℕ → A) → m ≤ n → take m (tabulate n f) ≡ tabulate m f
  take-tabulate zero n f h = refl
  take-tabulate (suc m) zero f h = absurd (omega arith)
  take-tabulate (suc m) (suc n) f h =
      ap (λ l. f 0 ∷ l) (take-tabulate m n (λ k. f (suc k)) (omega arith))

  -- A list is the table of its own entries.
  pub tabulate-get_or : (xs : List A) (d : A) → tabulate (length xs) (λ k. get_or xs k d) ≡ xs
  tabulate-get_or [] d = refl
  tabulate-get_or (x ∷ xs) d = ap (λ l. x ∷ l) (tabulate-get_or xs d)
