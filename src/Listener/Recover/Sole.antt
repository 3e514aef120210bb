-- ===== src/Listener/Recover/Sole.antt =====
-- `recover_one_fd` answers with a file descriptor where it is the only lost one.
use tud_crash_tolerant_proxy.Prelude.{
  ℕ, ◌≡◌, ◌≢◌, refl, ap, sym, subst, ◌∙◌, Bool, true, false, not, Option, none, some, List, [], ◌∷◌,
  ◌++◌, set, length, length-append, append_assoc, append-nil, ◌==◌, if◌then◌else◌, arith,
  Bool-cases, inl, inr,
}
use tud_crash_tolerant_proxy.Atomic.{Errno, ebadf}
use tud_crash_tolerant_proxy.Util.Closep.{closep, is_ebadf}
use tud_crash_tolerant_proxy.Util.FdTable.{fd_info_get}
use tud_crash_tolerant_proxy.Listener.Table.{
  FdTable, empty_entry, entry_at, register, get-Got, register-succeeds, fd_type_unknown,
}
use tud_crash_tolerant_proxy.Listener.Cleanup.{Close}
use tud_crash_tolerant_proxy.Listener.Recover.{
  Strtol, parse_fd, is_unknown, Scan, drop_first, count_unknown, look_at_flags, is_known, look_at,
  look_at_name, scan_fds, scanned, forget_dir, recover_one_fd, ignore_entry,
}

-- What close(2) answers on an open file descriptor: anything but EBADF.
abbrev pub NeverBad : Close → Type 0
NeverBad close = (fd : ℕ) → close fd ≢ some ebadf

abbrev pub unknown_in : FdTable → ℕ → Bool
unknown_in table fd = is_unknown (entry_at table fd).type

-- Whether an unknown file descriptor is kept over execve(2), or fcntl(2) fails for it.
abbrev pub survives : Option Bool → Bool
survives none = true
survives (some cloexec) = not cloexec

-- The file descriptors that a name, and that the names stand for, of those that are lost.
unfoldable pub lost_fd : FdTable → (ℕ → Option Bool) → Option ℕ → List ℕ
lost_fd table getfd none = []
lost_fd table getfd (some fd) =
    if unknown_in table fd then if survives (getfd fd) then fd ∷ [] else [] else []

unfoldable pub lost_fds : FdTable → (ℕ → Option Bool) → (List ℕ → Strtol) → List (List ℕ) → List ℕ
lost_fds table getfd strtol [] = []
lost_fds table getfd strtol (name ∷ names) =
    lost_fd table getfd (parse_fd strtol name) ++ lost_fds table getfd strtol names

-- the only element
abbrev pub sole : List ℕ → Option ℕ
sole [] = none
sole (x ∷ []) = some x
sole (x ∷ y ∷ zs) = none

unfoldable pub AllUnknown : FdTable → List ℕ → Type 0
AllUnknown table [] = Unit {0}
AllUnknown table (fd ∷ fds) = (unknown_in table fd ≡ true) × AllUnknown table fds

-- The variables of the loop, after the lost file descriptors `seen`.
record Seen (table : FdTable) (seen : List ℕ) (s : Scan) : Type 0 where
  same : (fd : ℕ) → entry_at s.table fd ≡ entry_at table fd
  num : s.num_unknown_fds ≡ length seen
  claim : s.unknown_fd ≡ sole seen
  first : (u : ℕ) → s.unknown_fd ≡ some u → unknown_in table u ≡ true
  spared : AllUnknown table s.closed

closep_gone : (e : Option Errno) (fd : ℕ) → e ≢ some ebadf → closep e (some fd) ≡ none
unfolding closep is_ebadf
closep_gone none fd h = refl
closep_gone (some ebadf) fd h = absurd (h refl)
closep_gone (some Errno.eintr) fd h = refl
closep_gone (some Errno.eagain) fd h = refl
closep_gone (some Errno.epipe) fd h = refl
closep_gone (some Errno.eoverflow) fd h = refl
closep_gone (some Errno.enotconn) fd h = refl
closep_gone (some Errno.eexist) fd h = refl
closep_gone (some Errno.einval) fd h = refl
closep_gone (some Errno.erange) fd h = refl
closep_gone (some Errno.other) fd h = refl

none-some : {A : Type 0} {x : A} → none ≡ some x → ⊥
none-some h = ground (arith, h)

count-Seen :
    (close : Close) (table : FdTable) (seen : List ℕ) (fd : ℕ) (s : Scan)
    → NeverBad close
    → unknown_in table fd ≡ true
    → Seen table seen s
    → Seen table (seen ++ (fd ∷ [])) (count_unknown close fd s)
unfolding count_unknown drop_first AllUnknown
count-Seen close table [] fd s never h v =
    let none_yet : (s.num_unknown_fds == 0) ≡ true = ground (arith, v.num) in
    rw none_yet (record {
      same = v.same;
      num = refl;
      claim = refl;
      first = λ u e. subst (λ x. unknown_in table x ≡ true) (ground (arith, e)) h;
      spared = v.spared;
    })
count-Seen close table (x ∷ []) fd s never h v =
    let some_yet : (s.num_unknown_fds == 0) ≡ false = ground (arith, v.num) in
    rw some_yet (
      rw v.claim (record {
        same = v.same;
        num = omega (arith, v.num);
        claim = closep_gone (close x) x (never x);
        first = λ u e. absurd (none-some (sym (closep_gone (close x) x (never x)) ∙ e));
        spared = (h, (v.first x v.claim, v.spared));
      }))
count-Seen close table (x ∷ y ∷ zs) fd s never h v =
    let some_yet : (s.num_unknown_fds == 0) ≡ false = ground (arith, v.num) in
    rw some_yet (
      rw v.claim (record {
        same = v.same;
        num = omega (arith, v.num, length-append zs (fd ∷ []));
        claim = refl;
        first = λ u e. absurd (none-some e);
        spared = (h, v.spared);
      }))

keep_seen :
    {table : FdTable} {seen : List ℕ} {s : Scan} → Seen table seen s → Seen table (seen ++ []) s
keep_seen {table} {seen} {s} v = subst (λ l. Seen table l s) (sym (append-nil seen)) v

flags-Seen :
    (close : Close) (table : FdTable) (seen : List ℕ) (fd : ℕ) (s : Scan) (flags : Option Bool)
    → NeverBad close
    → unknown_in table fd ≡ true
    → Seen table seen s
    → Seen table (seen ++ (if survives flags then fd ∷ [] else [])) (look_at_flags close fd s flags)
unfolding look_at_flags AllUnknown
flags-Seen close table seen fd s none never h v = count-Seen close table seen fd s never h v
flags-Seen close table seen fd s (some false) never h v = count-Seen close table seen fd s never h v
flags-Seen close table seen fd s (some true) never h v = keep_seen (record {
  same = v.same;
  num = v.num;
  claim = v.claim;
  first = v.first;
  spared = (h, v.spared);
})

name-Seen :
    (realloc_ok : ℕ → Bool) (close : Close) (getfd : ℕ → Option Bool) (table : FdTable)
    (seen : List ℕ) (fd : Option ℕ) (s : Scan)
    → ((n : ℕ) → realloc_ok n ≡ true)
    → NeverBad close
    → Seen table seen s
    → Seen table (seen ++ lost_fd table getfd fd) (look_at_name realloc_ok close getfd fd s)
unfolding look_at_name look_at is_known lost_fd
name-Seen realloc_ok close getfd table seen none s room never v = keep_seen v
name-Seen realloc_ok close getfd table seen (some fd) s room never v =
    let g = get-Got realloc_ok s.table fd in
    let got : fd_info_get realloc_ok empty_entry s.table (some fd) ≡ some (g.longer, some fd) =
      g.ends ∙ ap (λ t. some (g.longer, if t then some fd else none)) (g.succeeds room) in
    let entry : unknown_in g.longer fd ≡ unknown_in table fd =
      ap (λ e. is_unknown e.type) (g.same fd ∙ v.same fd) in
    let v' : Seen table seen (record s { table = g.longer }) = record {
      same = λ other. g.same other ∙ v.same other;
      num = v.num;
      claim = v.claim;
      first = v.first;
      spared = v.spared;
    } in
    subst
      (λ o. Seen table (seen ++ lost_fd table getfd (some fd)) (look_at close (getfd fd) fd s o))
      (sym got)
      (elim (Bool-cases (unknown_in table fd)) [
        | inl strange ↦
            rw (entry, strange) (flags-Seen close table seen fd _ (getfd fd) never strange v')
        | inr known ↦ rw (entry, known) (keep_seen v')
      ])

scan-Seen :
    (realloc_ok : ℕ → Bool) (close : Close) (getfd : ℕ → Option Bool) (strtol : List ℕ → Strtol)
    (names : List (List ℕ)) (table : FdTable) (seen : List ℕ) (s : Scan)
    → ((n : ℕ) → realloc_ok n ≡ true)
    → NeverBad close
    → Seen table seen s
    → Seen table
        (seen ++ lost_fds table getfd strtol names)
        (scan_fds realloc_ok close getfd strtol names s)
unfolding scan_fds lost_fds
scan-Seen realloc_ok close getfd strtol [] table seen s room never v = keep_seen v
scan-Seen realloc_ok close getfd strtol (name ∷ names) table seen s room never v =
    let step = name-Seen realloc_ok close getfd table seen (parse_fd strtol name) s room never v in
    subst (λ l. Seen table l (scan_fds realloc_ok close getfd strtol (name ∷ names) s))
      (append_assoc seen (lost_fd table getfd (parse_fd strtol name))
        (lost_fds table getfd strtol names))
      (scan-Seen realloc_ok close getfd strtol names table
        (seen ++ lost_fd table getfd (parse_fd strtol name)) _ room never step)

-- The file descriptors that are not lost: those of the table with the directory's own.
abbrev pub with_dir : (ℕ → Bool) → ℕ → FdTable → FdTable
with_dir realloc_ok dir_fd table = (register realloc_ok ignore_entry table (some dir_fd)).0

-- What the function comes to.
pub record Answers (table : FdTable) (lost : List ℕ) (r : Option Scan) : Type 0 where
  pub scan : Scan
  pub ends : r ≡ some scan
  pub answer : scan.unknown_fd ≡ sole lost
  pub spared : AllUnknown table scan.closed

-- Where no allocation fails and close(2) does not answer EBADF: the function answers with the file
-- descriptor that the table does not know and that is not marked FD_CLOEXEC, if the directory lists
-- exactly one such, and with none otherwise; and it closes only file descriptors that the table does
-- not know.
pub recover_one_fd-Answers :
    (realloc_ok : ℕ → Bool) (close : Close) (getfd : ℕ → Option Bool) (strtol : List ℕ → Strtol)
    (names : List (List ℕ)) (dir_fd : ℕ) (table : FdTable)
    → ((n : ℕ) → realloc_ok n ≡ true)
    → NeverBad close
    → Answers
        (with_dir realloc_ok dir_fd table)
        (lost_fds (with_dir realloc_ok dir_fd table) getfd strtol names)
        (recover_one_fd realloc_ok close getfd strtol names dir_fd table)
unfolding recover_one_fd scanned forget_dir AllUnknown
recover_one_fd-Answers realloc_ok close getfd strtol names dir_fd table room never =
    let t = with_dir realloc_ok dir_fd table in
    let start : Scan = record { table = t; num_unknown_fds = 0; unknown_fd = none; closed = [] } in
    let v = scan-Seen realloc_ok close getfd strtol names t [] start room never (record {
      same = λ fd. refl;
      num = refl;
      claim = refl;
      first = λ u e. absurd (none-some e);
      spared = tt;
    }) in
    let end = scan_fds realloc_ok close getfd strtol names start in
    record {
      scan = record end {
        table =
            set end.table dir_fd (record (entry_at end.table dir_fd) { type = fd_type_unknown });
      };
      ends = rw (register-succeeds realloc_ok ignore_entry table dir_fd room) refl;
      answer = v.claim;
      spared = v.spared;
    }
