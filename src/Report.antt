-- ===== src/Report.antt =====
-- The texts that `ps` and `logs` answer with (engine.c). The rendering of a time and the contents
-- of the log files are arguments.
pub mod Text
mod Tests
use os_jackfruit.Prelude.{
  ℕ, ◌+◌, ◌-◌, ◌%◌, ◌^◌, Bool, true, false, not, List, [], ◌∷◌, ◌++◌, Option, none, some, CString,
  codes, decimal, fit, if◌then◌else◌, ltb, leb, ◌==◌, length, get_elem?,
}
use os_jackfruit.Protocol.{safe_strcpy, max_path_len}
use os_jackfruit.Containers.{Container, Table, find_container_by_id_locked}

-- `size_t` subtraction wraps.
abbrev pub sub_size : ℕ → ℕ → ℕ
sub_size a b = (a + 2 ^ 64 - b) % 2 ^ 64

abbrev pub ps_header : CString
ps_header = codes "ID\tPID\tSTATE\tEXIT\tSOFT\tHARD\tNICE\tSTARTED\t\t\tLOG FILE\n"

-- Fields with "\t" between them and "\n" at the end.
abbrev pub tabbed : List CString → CString
tabbed [] = codes "\n"
tabbed (x ∷ []) = x ++ codes "\n"
tabbed (x ∷ xs) = x ++ (codes "\t" ++ tabbed xs)

-- The line of a container; `format_time` stands for localtime_r and strftime.
unfoldable pub ps_row : (ℕ → CString) → Container → CString
ps_row format_time c =
    let ts = if c.start_time == 0 then codes "-" else format_time c.start_time in
    tabbed (
      c.id
      ∷ decimal c.pid
      ∷ c.state
      ∷ decimal c.exit_code
      ∷ decimal c.soft_mib
      ∷ decimal c.hard_mib
      ∷ decimal c.nice_value
      ∷ ts
      ∷ c.log_file
      ∷ [])

-- The text in `out` and `used`.
abbrev pub PsState : Type 0
PsState = CString × ℕ

-- used += snprintf(out + used, out_size - used, ...): what fits is written at `used`, which is
-- where the text ends, and the whole length is added.
abbrev pub ps_append : ℕ → CString → PsState → PsState
ps_append out_size line (out, used) = (out ++ fit (sub_size out_size used) line, used + length line)

-- The loop over the table.
unfoldable pub ps_rows : (ℕ → CString) → ℕ → Table → PsState → PsState
ps_rows format_time out_size [] s = s
ps_rows format_time out_size (c ∷ cs) s =
    let skipped = ps_rows format_time out_size cs s in
    let written = ps_append out_size (ps_row format_time c) s in
    let continued = ps_rows format_time out_size cs written in
    if not c.used then skipped else if leb out_size written.1 then written else continued

unfoldable pub build_ps_output : (ℕ → CString) → ℕ → Table → CString
build_ps_output format_time out_size t =
    (ps_rows format_time out_size t (ps_append out_size ps_header ([], 0))).0

-- The files that can be opened for reading, by path.
abbrev pub Files : Type 0
Files = CString → Option (List ℕ)

-- The loop that copies the file, from `used` bytes on; what it writes.
unfoldable pub copy_log : ℕ → ℕ → List ℕ → List ℕ
copy_log out_size used [] = []
copy_log out_size used (c ∷ file) =
    let rest = copy_log out_size (used + 1) file in if ltb (used + 1) out_size then c ∷ rest else []

-- The path of the log, empty for an unknown container.
unfoldable pub log_path_of : CString → Table → CString
log_path_of id t = elim (find_container_by_id_locked id t) [
  | none ↦ []
  | some idx ↦ elim (get_elem? t idx) [
    | none ↦ []
    | some c ↦ safe_strcpy [] (some c.log_file) max_path_len
  ]
]

-- What a log file that was opened gives.
abbrev pub log_text : ℕ → List ℕ → CString
log_text out_size [] = fit out_size (codes "(log file is empty)\n")
log_text out_size (c ∷ out) = c ∷ out

-- What `build_logs_output` does with the path of a known container.
unfoldable pub open_log : Files → ℕ → CString → Bool × CString
open_log files out_size log_path = elim (files log_path) [
  | none ↦ (false, fit out_size (codes "Unable to open log file: " ++ (log_path ++ codes "\n")))
  | some file ↦ (true, log_text out_size (copy_log out_size 0 file))
]

-- `*ok_out` and the text in `out`.
unfoldable pub build_logs_output : Files → CString → ℕ → Table → Bool × CString
build_logs_output files id out_size t = elim (log_path_of id t) [
  | [] ↦ (false, fit out_size (codes "No such container: " ++ (id ++ codes "\n")))
  | _ ∷ _ ↦ open_log files out_size (log_path_of id t)
]
