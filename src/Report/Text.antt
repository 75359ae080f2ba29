-- ===== src/Report/Text.antt =====
-- What the two texts hold, and that they never leave their buffer.
use os_jackfruit.Containers.Invariant.{Inv}
use os_jackfruit.Lifecycle.Stop.{find_by_id_lem}
use os_jackfruit.Prelude.{
  zero, suc, take-append_within, suc, take-append_beyond, ℕ, ◌+◌, ◌-◌, ◌^◌, ◌<◌, ◌≤◌, ◌≡◌, ◌≢◌,
  true, List, [], ◌∷◌, ◌++◌, some, CString, codes, fit, if◌then◌else◌, ltb, leb, length, get_elem?,
  take, take_all, length-append, append_assoc, append-nil, arith, refl, Bool-cases, inl, inr, ap,
  ◌∙◌, sym,
}
use os_jackfruit.Protocol.{safe_strcpy, max_path_len}
use os_jackfruit.Containers.{Container, Table}
use os_jackfruit.Report.{
  open_log, ps_row, ps_header, ps_rows, ps_append, sub_size, build_ps_output, copy_log,
  build_logs_output, log_path_of, Files, log_text,
}

-- The lines of the used slots, one after the other.
unfoldable pub ps_lines : (ℕ → CString) → Table → CString
ps_lines format_time [] = []
ps_lines format_time (c ∷ cs) =
    let rest = ps_lines format_time cs in if c.used then ps_row format_time c ++ rest else rest

ps_rows_lem :
    (format_time : ℕ → CString) (size : ℕ) (t : Table) (out : CString) (used : ℕ)
    → length out ≡ used
    → used < size
    → size < 2 ^ 64
    → (ps_rows format_time size t (out, used)).0 ≡ take (size - 1) (out ++ ps_lines format_time t)
unfolding ps_rows ps_lines
ps_rows_lem format_time size [] out used l lt small =
    rw append-nil (sym (take_all (size - 1) out (omega arith)))
ps_rows_lem format_time size (c ∷ cs) out used l lt small = elim (Bool-cases c.used) [
  | inr unused ↦ ground (arith, ps_rows_lem format_time size cs out used l lt small)
  | inl shown ↦ elim (Bool-cases (leb size (used + length row))) [
    | inl full ↦ ground (arith, cut (ground arith))
    | inr room ↦ ground (
      arith,
      whole (λ q m. ps_rows_lem format_time size cs (out ++ row) (used + length row) q m small)
          (ground arith),
    )
  ]
]
  where
    row : CString
    row = ps_row format_time c

    lines : CString
    lines = ps_lines format_time cs

    avail : sub_size size used - 1 ≡ size - 1 - used
    avail = omega arith

    cut :
        size ≤ used + length row
        → out ++ fit (sub_size size used) row ≡ take (size - 1) (out ++ (row ++ lines))
    cut full = rw avail (
        sym (
          take-append_beyond (size - 1) (size - 1 - used) out (row ++ lines) (omega arith)
          ∙ ap (◌++◌ out) (take-append_within (size - 1 - used) row lines (omega arith))))

    whole :
        (length (out ++ row) ≡ used + length row
          → used + length row < size
          → (ps_rows format_time size cs (out ++ row, used + length row)).0
            ≡ take (size - 1) ((out ++ row) ++ lines))
        → used + length row < size
        → (ps_rows format_time size cs (out ++ fit (sub_size size used) row, used + length row)).0
          ≡ take (size - 1) (out ++ (row ++ lines))
    whole rest room =
        rw (avail, take_all (size - 1 - used) row (omega arith), ← append_assoc out row lines)
          (rest (omega (arith, length-append out row)) room)

ps_rows_of_line :
    (format_time : ℕ → CString) (size : ℕ) (t : Table) (line : CString)
    → length line < size
    → size < 2 ^ 64
    → (ps_rows format_time size t (ps_append size line ([], 0))).0
      ≡ take (size - 1) (line ++ ps_lines format_time t)
ps_rows_of_line format_time size t line enough small =
    rw (take_all (sub_size size 0 - 1) line (omega arith))
      (ps_rows_lem format_time size t line (0 + length line) (omega arith) (omega arith) small)

-- In a buffer that is larger than the header line, and smaller than 2 ^ 64, `ps` answers with the
-- header and the lines of all used slots, cut to the size of the buffer, however many and long
-- they are.
pub build_ps_output_lem :
    (format_time : ℕ → CString) (size : ℕ) (t : Table)
    → length ps_header < size
    → size < 2 ^ 64
    → build_ps_output format_time size t ≡ take (size - 1) (ps_header ++ ps_lines format_time t)
unfolding build_ps_output
build_ps_output_lem format_time size t enough small =
    ps_rows_of_line format_time size t ps_header enough small

take-nil : (n : ℕ) → take {A = ℕ} n [] ≡ []
take-nil zero = refl
take-nil (suc n) = refl

take-cons : (n k c : ℕ) (file : List ℕ) → n ≡ suc k → take n (c ∷ file) ≡ c ∷ take k file
take-cons n k c file h = ap (λ m. take m (c ∷ file)) h

copy_log_lem :
    (size used : ℕ) (file : List ℕ) → copy_log size used file ≡ take (size - 1 - used) file
unfolding copy_log
copy_log_lem size used [] = sym (take-nil (size - 1 - used))
copy_log_lem size used (c ∷ file) = elim (Bool-cases (ltb (used + 1) size)) [
  | inl room ↦ rw room (
      ap (◌∷◌ c) (copy_log_lem size (used + 1) file)
      ∙ sym (take-cons (size - 1 - used) (size - 1 - (used + 1)) c file (ground arith)))
  | inr full ↦ rw full (ap (λ n. take n (c ∷ file)) {x = 0} (ground arith))
]

log_path_lem :
    (t : Table) (idx : ℕ) (c : Container)
    → Inv t
    → get_elem? t idx ≡ some c
    → c.used ≡ true
    → length c.log_file < max_path_len
    → log_path_of c.id t ≡ c.log_file
unfolding log_path_of safe_strcpy
log_path_lem t idx c v at u fits =
    rw (find_by_id_lem t idx c v at u, log_path_of, at) (take_all 255 c.log_file (omega arith))

open_path :
    (files : Files) (id : CString) (size : ℕ) (t : Table) (path : CString)
    → path ≢ []
    → log_path_of id t ≡ path
    → build_logs_output files id size t ≡ open_log files size path
unfolding build_logs_output
open_path files id size t [] named e = absurd (named refl)
open_path files id size t (x ∷ xs) named e = rw (e, build_logs_output) (ap (open_log files size) e)

-- What `logs` shows of the contents of a file.
abbrev pub shown_log : ℕ → List ℕ → CString
shown_log size [] = fit size (codes "(log file is empty)\n")
shown_log size (x ∷ xs) = take (size - 1) (x ∷ xs)

shown_log_lem :
    (size : ℕ) (file : List ℕ)
    → 1 < size
    → log_text size (copy_log size 0 file) ≡ shown_log size file
shown_log_lem size [] big = rw (copy_log_lem size 0 [], take-nil)
shown_log_lem (suc (suc size)) (x ∷ xs) big =
    ap (log_text (suc (suc size))) (
      copy_log_lem (suc (suc size)) 0 (x ∷ xs)
      ∙ take-cons (suc (suc size) - 1 - 0) size x xs (omega arith))
    ∙ sym (take-cons (suc (suc size) - 1) size x xs (omega arith))
shown_log_lem zero (x ∷ xs) big = absurd (omega arith)
shown_log_lem (suc zero) (x ∷ xs) big = absurd (omega arith)

-- In a table within its invariant, `logs` of a container whose log path is not empty, fits its
-- array and can be opened answers with as much of the file as fits in the buffer with its
-- terminator, or says that the file is empty; the buffer holds at least two bytes.
pub logs_of_container :
    (files : Files) (size : ℕ) (t : Table) (idx : ℕ) (c : Container) (file : List ℕ)
    → 1 < size
    → Inv t
    → get_elem? t idx ≡ some c
    → c.used ≡ true
    → c.log_file ≢ []
    → length c.log_file < max_path_len
    → files c.log_file ≡ some file
    → build_logs_output files c.id size t ≡ (true, shown_log size file)
unfolding open_log
logs_of_container files size t idx c file big v at u named fits opened =
    open_path files c.id size t c.log_file named (log_path_lem t idx c v at u fits)
    ∙ rw (opened, open_log, shown_log_lem size file big)
