-- ===== src/Listener/Recover.antt =====
-- `recover_one_fd` of listener/main_active.c: the file descriptor that an earlier listener process had
-- opened when it died, as far as there is exactly one.
pub mod Sole
use tud_crash_tolerant_proxy.Prelude.{
  ℕ, zero, suc, ◌-◌, ◌+◌, ◌^◌, ◌≡◌, ◌≢◌, refl, ap, sym, subst, ◌∙◌, Bool, true, false, not, ◌&&◌,
  ◌||◌, Option, none, some, List, [], ◌∷◌, ◌++◌, length, length-append, append_assoc, append-nil,
  ltb, ◌==◌, if◌then◌else◌, get_or, set, arith, Bool-cases, Option-cases, inl, inr,
}
use tud_crash_tolerant_proxy.Atomic.{Errno, ebadf}
use tud_crash_tolerant_proxy.Util.Closep.{closep, is_ebadf}
use tud_crash_tolerant_proxy.Util.FdTable.{fd_info_get}
use tud_crash_tolerant_proxy.Listener.Table.{
  FdType, fd_type_unknown, fd_type_ignore, fd_type_ipc, fd_type_signal, fd_type_conn,
  fd_type_listen, fd_type_pid, FdEntry, FdTable, empty_entry, entry_at, register, Registered,
  register-Registered, Got, get-Got,
}
use tud_crash_tolerant_proxy.Listener.Cleanup.{Close}

-- What strtol(3) makes of a name: the number, `none` for a negative one, whether it is out of range,
-- and whether the name ends behind it.
pub record Strtol : Type 0 where
  pub number : Option ℕ
  pub out_of_range : Bool
  pub at_end : Bool

-- "." and ".."
unfoldable pub is_dots : List ℕ → Bool
is_dots name =
    (get_or name 0 0 == 46)
    && ((get_or name 1 0 == 0) || ((get_or name 1 0 == 46) && (get_or name 2 0 == 0)))

unfoldable pub small_int : Option ℕ → Option ℕ
small_int none = none
small_int (some l) = if ltb (2 ^ 31 - 1) l then none else some l

-- The file descriptor that a name stands for, `none` where the name is skipped.
unfoldable pub parse_fd : (List ℕ → Strtol) → List ℕ → Option ℕ
unfolding is_dots small_int
parse_fd strtol name =
    if is_dots name
    then none
    else if (strtol name).out_of_range
    then none
    else if (strtol name).at_end
    then small_int (strtol name).number
    else none

unfoldable pub is_unknown : FdType → Bool
is_unknown fd_type_unknown = true
is_unknown _ = false

-- The variables of the loop, and the file descriptors that close(2) is called on.
pub record Scan : Type 0 where
  pub table : FdTable
  pub num_unknown_fds : ℕ
  pub unknown_fd : Option ℕ
  pub closed : List ℕ

-- `if(unknown_fd >= 0) { ... closep(&unknown_fd) ... }`
drop_first : Close → Option ℕ → Scan → Scan
drop_first close none s = s
drop_first close (some u) s = record s {
  unknown_fd = closep (close u) (some u);
  closed = u ∷ s.closed;
}

count_unknown : Close → ℕ → Scan → Scan
unfolding drop_first
count_unknown close fd s =
    let d = drop_first close s.unknown_fd s in
    if s.num_unknown_fds == 0
    then record s { unknown_fd = some fd; num_unknown_fds = 1 }
    else record d { closed = fd ∷ d.closed; num_unknown_fds = s.num_unknown_fds + 1 }

-- By the answer of fcntl(F_GETFD): `none` where it fails, or whether FD_CLOEXEC is set.
look_at_flags : Close → ℕ → Scan → Option Bool → Scan
unfolding count_unknown
look_at_flags close fd s none = count_unknown close fd s
look_at_flags close fd s (some cloexec) =
    if cloexec then record s { closed = fd ∷ s.closed } else count_unknown close fd s

-- `info && info->type != FD_TYPE_UNKNOWN`
is_known : FdTable → Option ℕ → Bool
unfolding is_unknown
is_known table none = false
is_known table (some fd) = not (is_unknown (entry_at table fd).type)

look_at : Close → Option Bool → ℕ → Scan → Option (FdTable × Option ℕ) → Scan
unfolding look_at_flags is_known
look_at close flags fd s none = s
look_at close flags fd s (some (table, info)) =
    let s' = record s { table = table } in
    if is_known table info then s' else look_at_flags close fd s' flags

-- One round of the loop, for a name.
look_at_name : (ℕ → Bool) → Close → (ℕ → Option Bool) → Option ℕ → Scan → Scan
unfolding look_at
look_at_name realloc_ok close getfd none s = s
look_at_name realloc_ok close getfd (some fd) s =
    look_at close (getfd fd) fd s (fd_info_get realloc_ok empty_entry s.table (some fd))

unfoldable pub scan_fds :
    (ℕ → Bool) → Close → (ℕ → Option Bool) → (List ℕ → Strtol) → List (List ℕ) → Scan → Scan
unfolding look_at_name parse_fd
scan_fds realloc_ok close getfd strtol [] s = s
scan_fds realloc_ok close getfd strtol (name ∷ names) s =
    scan_fds realloc_ok close getfd strtol names
      (look_at_name realloc_ok close getfd (parse_fd strtol name) s)

abbrev ignore_entry : FdEntry
ignore_entry = record { type = fd_type_ignore; slot = 0 }

scanned :
    (ℕ → Bool)
    → Close
    → (ℕ → Option Bool)
    → (List ℕ → Strtol)
    → List (List ℕ)
    → FdTable × Bool
    → Option Scan
unfolding scan_fds
scanned realloc_ok close getfd strtol names (table, ok) =
    if ok
    then some (
        scan_fds realloc_ok close getfd strtol names
          (record { table = table; num_unknown_fds = 0; unknown_fd = none; closed = [] }))
    else none

forget_dir : ℕ → Option Scan → Option Scan
forget_dir dir_fd none = none
forget_dir dir_fd (some s) = some (record s {
  table = set s.table dir_fd (record (entry_at s.table dir_fd) { type = fd_type_unknown });
})

-- The whole function, where opendir(3) succeeds; `names` are those that readdir(3) yields. It is `none`
-- for a failed assertion.
unfoldable pub recover_one_fd :
    (ℕ → Bool)
    → Close
    → (ℕ → Option Bool)
    → (List ℕ → Strtol)
    → List (List ℕ)
    → ℕ
    → FdTable
    → Option Scan
unfolding scanned forget_dir
recover_one_fd realloc_ok close getfd strtol names dir_fd table = forget_dir dir_fd (
    scanned realloc_ok close getfd strtol names
      (register realloc_ok ignore_entry table (some dir_fd)))
