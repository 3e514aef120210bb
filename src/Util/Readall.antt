-- ===== src/Util/Readall.antt =====
-- `readall` of common/util.c, over what read(2) answers; a call that a signal interrupts is repeated by
-- EINTR_RETRY, so that only its answer counts.
use tud_crash_tolerant_proxy.Prelude.{
  ℕ, ◌-◌, ◌^◌, ◌≤◌, ◌<◌, ◌≡◌, refl, ap, subst, ◌+◌, Option, none, some, List, [], ◌∷◌, ◌++◌, length,
  length-append, ◌==◌, if◌then◌else◌, sub_size, arith, Bool-cases, inl, inr,
}

-- An answer: an error, or the bytes that are read, where none stand for the end of the file.
pub data Read : Type 0 where
  failed : Read
  chunk : List ℕ → Read

-- How the loop ends; `more` is for answers that do not suffice.
pub data ReadEnd : Type 0 where
  full end_of_file read_error more : ReadEnd

-- The bytes that the loop has stored, one behind the other, and its end.
pub record Loaded : Type 0 where
  pub bytes : List ℕ
  pub ending : ReadEnd

load_ends : ReadEnd → Loaded
load_ends e = record { bytes = []; ending = e }

-- One round, where there is something left to read; `next` is what follows.
after_read : Read → Loaded → Loaded
unfolding load_ends
after_read failed next = load_ends read_error
after_read (chunk []) next = load_ends end_of_file
after_read (chunk (x ∷ xs)) next = record next { bytes = (x ∷ xs) ++ next.bytes }

read_count : Read → ℕ
read_count failed = 0
read_count (chunk xs) = length xs

unfoldable pub readall_loop : ℕ → List Read → Loaded
unfolding after_read read_count load_ends
readall_loop remaining [] = load_ends (if remaining == 0 then full else more)
readall_loop remaining (r ∷ rs) =
    let next = readall_loop (sub_size remaining (read_count r)) rs in
    if remaining == 0 then load_ends full else after_read r next

-- What the call leaves: the bytes, the count that it stores to `*size`, and the result, `none` for -1.
pub record ReadAll : Type 0 where
  pub bytes : List ℕ
  pub size : ℕ
  pub result : Option ℕ

returns : Loaded → ReadEnd → Option ReadAll
returns l full =
    some (record { bytes = l.bytes; size = length l.bytes; result = some (length l.bytes) })
returns l end_of_file =
    some (record { bytes = l.bytes; size = length l.bytes; result = some (length l.bytes) })
returns l read_error = some (record { bytes = l.bytes; size = length l.bytes; result = none })
returns l more = none

-- `none` where the answers do not suffice.
unfoldable pub readall : ℕ → List Read → Option ReadAll
unfolding returns readall_loop
readall size rs = let l = readall_loop size rs in returns l l.ending

-- read(2) stores no more than it is asked for.
unfoldable pub Fits : ℕ → List Read → Type 0
Fits remaining [] = Unit {0}
Fits remaining (failed ∷ rs) = Unit {0}
Fits remaining (chunk xs ∷ rs) = (length xs ≤ remaining) × Fits (remaining - length xs) rs

-- The bytes of the answers up to an error or the end of the file.
unfoldable pub stream : List Read → List ℕ
stream [] = []
stream (failed ∷ rs) = []
stream (chunk [] ∷ rs) = []
stream (chunk (x ∷ xs) ∷ rs) = (x ∷ xs) ++ stream rs

-- The loop comes to this answer while there is still something left to read.
pub data Reaches (last : Read) : ℕ → List Read → Type 0 where
  now : {remaining : ℕ} {rs : List Read} → 0 < remaining → Reaches last remaining (last ∷ rs)
  later :
      {remaining : ℕ} {rs : List Read} (x : ℕ) (xs : List ℕ)
      → Reaches last (remaining - length (x ∷ xs)) rs
      → Reaches last remaining (chunk (x ∷ xs) ∷ rs)

-- Why the loop ends.
unfoldable pub EndsBy : ReadEnd → ℕ → ℕ → List Read → Type 0
EndsBy full count size rs = count ≡ size
EndsBy end_of_file count size rs = Reaches (chunk []) size rs
EndsBy read_error count size rs = Reaches failed size rs
EndsBy more count size rs = length rs ≤ size

ends_later :
    (e : ReadEnd) (count size : ℕ) (x : ℕ) (xs : List ℕ) (rs : List Read)
    → length (x ∷ xs) ≤ size
    → EndsBy e count (size - length (x ∷ xs)) rs
    → EndsBy e (length (x ∷ xs) + count) size (chunk (x ∷ xs) ∷ rs)
unfolding EndsBy
ends_later full count size x xs rs f h = omega (arith, f, h)
ends_later end_of_file count size x xs rs f h = later x xs h
ends_later read_error count size x xs rs f h = later x xs h
ends_later more count size x xs rs f h = omega (arith, f, h)

-- What the loop comes to.
record Loads (size : ℕ) (rs : List Read) (l : Loaded) : Type 0 where
  all : l.bytes ≡ stream rs
  within : length l.bytes ≤ size
  why : EndsBy l.ending (length l.bytes) size rs

loop-Loads :
    (size : ℕ) (rs : List Read)
    → size < 2 ^ 63
    → Fits size rs
    → Loads size rs (readall_loop size rs)
unfolding readall_loop after_read read_count load_ends Fits stream EndsBy
loop-Loads size [] h f = elim (Bool-cases (size == 0)) [
  | inl empty ↦ rw empty (record { all = refl; within = omega arith; why = ground (arith, empty) })
  | inr some_left ↦ rw some_left (record { all = refl; within = omega arith; why = omega arith })
]
loop-Loads size (failed ∷ rs) h f = elim (Bool-cases (size == 0)) [
  | inl empty ↦ rw empty (record { all = refl; within = omega arith; why = ground (arith, empty) })
  | inr some_left ↦
      rw some_left
        (record { all = refl; within = omega arith; why = now (ground (arith, some_left)) })
]
loop-Loads size (chunk [] ∷ rs) h f = elim (Bool-cases (size == 0)) [
  | inl empty ↦ rw empty (record { all = refl; within = omega arith; why = ground (arith, empty) })
  | inr some_left ↦
      rw some_left
        (record { all = refl; within = omega arith; why = now (ground (arith, some_left)) })
]
loop-Loads size (chunk (x ∷ xs) ∷ rs) h f = elim (Bool-cases (size == 0)) [
  | inl empty ↦ absurd (ground (arith, empty, f.0))
  | inr some_left ↦
      let rest : sub_size size (length (x ∷ xs)) ≡ size - length (x ∷ xs) = omega (arith, h, f.0) in
      let next = readall_loop (size - length (x ∷ xs)) rs in
      let l = loop-Loads (size - length (x ∷ xs)) rs (omega (arith, h)) f.1 in
      let count : length (x ∷ xs) + length next.bytes ≡ length ((x ∷ xs) ++ next.bytes) =
        omega (arith, length-append xs next.bytes) in
      rw some_left (
        rw rest (record {
          all = ap (λ b. (x ∷ xs) ++ b) l.all;
          within = omega (arith, count, l.within, f.0);
          why =
              subst (λ n. EndsBy next.ending n size (chunk (x ∷ xs) ∷ rs)) count
                (ends_later next.ending (length next.bytes) size x xs rs f.0 l.why);
        }))
]

-- The result, and why it is that.
pub data Ends (size : ℕ) (rs : List Read) (read : ReadAll) : Type 0 where
  filled : read.result ≡ some size → read.size ≡ size → Ends size rs read
  file_ended : read.result ≡ some read.size → Reaches (chunk []) size rs → Ends size rs read
  gave_up : read.result ≡ none → Reaches failed size rs → Ends size rs read

-- What `readall` comes to.
pub record ReadsAll (size : ℕ) (rs : List Read) (r : Option ReadAll) : Type 0 where
  pub read : ReadAll
  pub ends : r ≡ some read
  pub all : read.bytes ≡ stream rs
  pub stored : read.size ≡ length read.bytes
  pub within : read.size ≤ size
  pub result : Ends size rs read

returns-ReadsAll :
    (size : ℕ) (rs : List Read) (l : Loaded) (e : ReadEnd)
    → size < length rs
    → EndsBy e (length l.bytes) size rs
    → l.bytes ≡ stream rs
    → length l.bytes ≤ size
    → ReadsAll size rs (returns l e)
unfolding returns EndsBy
returns-ReadsAll size rs l full h y a w = record {
  read = record { bytes = l.bytes; size = length l.bytes; result = some (length l.bytes) };
  ends = refl;
  all = a;
  stored = refl;
  within = w;
  result = filled (ap (λ n. some n) y) y;
}
returns-ReadsAll size rs l end_of_file h y a w = record {
  read = record { bytes = l.bytes; size = length l.bytes; result = some (length l.bytes) };
  ends = refl;
  all = a;
  stored = refl;
  within = w;
  result = file_ended refl y;
}
returns-ReadsAll size rs l read_error h y a w = record {
  read = record { bytes = l.bytes; size = length l.bytes; result = none };
  ends = refl;
  all = a;
  stored = refl;
  within = w;
  result = gave_up refl y;
}
returns-ReadsAll size rs l more h y a w = absurd (omega (arith, h, y))

-- Where read(2) stores no more than it is asked for, and there are more answers than bytes to read: the
-- call returns; the buffer has the bytes of the answers one after the other, up to an error or the
-- end of the file, and their count is stored; the result is this count if the buffer is full or the
-- file ended in front of that, and -1 just if a read that was still needed failed.
pub readall-ReadsAll :
    (size : ℕ) (rs : List Read)
    → size < 2 ^ 63
    → Fits size rs
    → size < length rs
    → ReadsAll size rs (readall size rs)
unfolding readall
readall-ReadsAll size rs h f enough =
    let l = loop-Loads size rs h f in
    returns-ReadsAll size rs (readall_loop size rs) (readall_loop size rs).ending enough l.why l.all
      l.within
