-- ===== src/Util/Closep.antt =====
-- `closep` of common/util.c, and what its callers do on EBADF. A file descriptor is a number, or `none`
-- for -1.
use tud_crash_tolerant_proxy.Prelude.{
  ℕ, ◌≡◌, refl, Bool, true, false, Option, none, some, List, [], ◌∷◌, if◌then◌else◌, Bool-cases,
  inl, inr,
}
use tud_crash_tolerant_proxy.Atomic.{Errno, ebadf}

unfoldable pub is_ebadf : Errno → Bool
is_ebadf ebadf = true
is_ebadf _ = false

-- What `closep` stores to the file descriptor, where close(2) has this error.
unfoldable pub closep : Option Errno → Option ℕ → Option ℕ
unfolding is_ebadf
closep e none = none
closep none (some fd) = none
closep (some e) (some fd) = if is_ebadf e then some fd else none

-- Whether `closep` returns 0.
unfoldable pub closep_ok : Option Errno → Option ℕ → Bool
closep_ok e none = true
closep_ok none (some fd) = true
closep_ok (some e) (some fd) = false

-- On EBADF the file descriptor is set to -1 by the caller.
unfoldable pub after_close : Option Errno → Option ℕ → Option ℕ
unfolding is_ebadf
after_close none fd = fd
after_close (some e) fd = if is_ebadf e then none else fd

-- Whatever close(2) answers, the file descriptor is forgotten.
pub closed_fd : (e : Option Errno) (fd : Option ℕ) → after_close e (closep e fd) ≡ none
unfolding after_close closep is_ebadf
closed_fd none none = refl
closed_fd none (some fd) = refl
closed_fd (some e) none = elim (Bool-cases (is_ebadf e)) [ inl t ↦ rw t refl | inr f ↦ rw f refl ]
closed_fd (some e) (some fd) = elim (Bool-cases (is_ebadf e)) [
  | inl t ↦ rw t refl
  | inr f ↦ rw f refl
]

-- Two file descriptors, those that are open.
unfoldable pub both_fds : Option ℕ → Option ℕ → List ℕ
both_fds none none = []
both_fds none (some d) = d ∷ []
both_fds (some u) none = u ∷ []
both_fds (some u) (some d) = u ∷ d ∷ []
