-- ===== src/Util/Tests.antt =====
-- The descriptor table and `pwritev_all` on small inputs.
use tud_crash_tolerant_proxy.Prelude.{
  ℕ, ◌-◌, ◌≡◌, refl, take, ltb, false, if◌then◌else◌, true, some, List, [], ◌∷◌, ◌++◌, length,
  arith, dec_lt, dec_le,
}
use tud_crash_tolerant_proxy.Util.FdTable.{LooksUp, fd_info_get, fd_info_get-LooksUp}
use tud_crash_tolerant_proxy.Util.Readall.{Read, chunk, Fits, ReadsAll, readall, readall-ReadsAll}
use tud_crash_tolerant_proxy.Util.Strlcpy.{
  Copied, IsStpncpy, zeros, Copies, strlcpy, strlcpy-Copies,
}
use tud_crash_tolerant_proxy.Util.Writev.{
  WrittenAt, Writing, concat, pwritev_all, pwritev_all_lem, sum,
}

table_grows :
    fd_info_get {A = ℕ} (λ n. true) 0 (7 ∷ 8 ∷ []) (some 3) ≡ some (7 ∷ 8 ∷ 0 ∷ 0 ∷ [], some 3)
unfolding fd_info_get dec_lt dec_le
table_grows = refl

fd_info_get-LooksUp_example :
    LooksUp {A = ℕ}
      (λ n. true)
      0
      (7 ∷ 8 ∷ [])
      (some 3)
      (fd_info_get {A = ℕ} (λ n. true) 0 (7 ∷ 8 ∷ []) (some 3))
fd_info_get-LooksUp_example = fd_info_get-LooksUp {A = ℕ} (λ n. true) 0 (7 ∷ 8 ∷ []) (some 3)

abbrev two_texts : List (List ℕ)
two_texts = (1 ∷ 2 ∷ []) ∷ (3 ∷ 4 ∷ 5 ∷ []) ∷ []

pwritev_all_lem_example :
    (w : Writing) × (pwritev_all (3 ∷ 1 ∷ []) two_texts 10 ≡ some w)
    × (w.written ++ concat w.left ≡ concat two_texts)
    × (w.total ≡ length w.written)
    × WrittenAt 10 w.writes w.written
unfolding sum
pwritev_all_lem_example = pwritev_all_lem (3 ∷ 1 ∷ []) two_texts 10 (omega arith)

-- two bytes, and then the end of the file
abbrev reads : List Read
reads = chunk (5 ∷ 6 ∷ []) ∷ chunk [] ∷ chunk [] ∷ chunk [] ∷ []

readall-ReadsAll_example : ReadsAll 3 reads (readall 3 reads)
unfolding Fits
readall-ReadsAll_example =
    readall-ReadsAll 3 reads (omega arith)
      (omega arith, (omega arith, (omega arith, (omega arith, tt)))) (omega arith)

abbrev copy_padded : List ℕ → ℕ → Copied
copy_padded src size =
    if ltb (length src) size
    then record { stored = src ++ zeros (size - length src); end = length src }
    else record { stored = take size src; end = size }

copy_padded-IsStpncpy : IsStpncpy copy_padded
copy_padded-IsStpncpy = record {
  fits = λ src size h. let b : ltb (length src) size ≡ true = ground (arith, h) in rw b refl;
  cuts = λ src size h. let b : ltb (length src) size ≡ false = ground (arith, h) in rw b refl;
}

strlcpy-Copies_example : Copies (1 ∷ 2 ∷ 3 ∷ []) 2 (strlcpy copy_padded (1 ∷ 2 ∷ 3 ∷ []) 2)
strlcpy-Copies_example =
    strlcpy-Copies copy_padded copy_padded-IsStpncpy (1 ∷ 2 ∷ 3 ∷ []) 2 (omega arith)
