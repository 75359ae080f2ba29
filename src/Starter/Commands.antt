-- ===== src/Starter/Commands.antt =====
-- The commands of boilerplate/engine.c: `cmd_start`, `cmd_run`, `cmd_ps`, `cmd_logs`, `cmd_stop`.
use os_jackfruit.Prelude.{
  ℕ, zero, suc, ◌*◌, ◌^◌, Bool, List, [], ◌∷◌, ◌++◌, Option, none, some, ℤ, pos, is_negative, eq_ℤ,
  CString, codes, decimal, fit, if◌then◌else◌, ◌==◌,
}
use os_jackfruit.Starter.Stubs.{send_control_request}
use os_jackfruit.Starter.Options.{
  cmd_stop, CommandKind, cmd_start, cmd_run, ControlRequest, parse_optional_flags,
}

-- The request after `memset`, with the names and the defaults.
unfoldable pub new_request : CommandKind → CString → CString → CString → ControlRequest
new_request kind id rootfs command = record {
  kind = kind;
  container_id = fit 32 id;
  rootfs = fit 4096 rootfs;
  command = fit 256 command;
  soft_limit_bytes = 40 * 2 ^ 20;
  hard_limit_bytes = 64 * 2 ^ 20;
  nice_value = pos 0;
}

-- The checks that `start` and `run` share, on the arguments after the command's name: the
-- request, or `none` for the exit code 1.
unfoldable pub read_request : CommandKind → List CString → Option ControlRequest
unfolding new_request
read_request kind (id ∷ rootfs ∷ command ∷ flags) =
    parse_optional_flags flags (new_request kind id rootfs command)
read_request kind _ = none

-- What `start` does.
pub data StartEvent : Type 0 where
  started : CString → ℤ → StartEvent
  soft_warning : CString → StartEvent
  soft_logged : CString → StartEvent
  hard_warning : CString → ℤ → StartEvent
  killed : ℤ → StartEvent
  hard_logged : CString → ℤ → StartEvent
  root_changed : CString → StartEvent
  executed : StartEvent
  fork_failed : StartEvent

-- What `fork` returns, whether the two log files open, and whether `execl` succeeds.
pub record StartAnswers : Type 0 where
  pub fork : ℤ
  pub soft_log_ok : Bool
  pub hard_log_ok : Bool
  pub exec_ok : Bool

abbrev pub when : Bool → StartEvent → List StartEvent
when ok event = if ok then event ∷ [] else []

-- After the `fork`: the exit code, and what was done; the shell that takes the place of the child
-- has the code 0 here.
unfoldable pub forked : StartAnswers → CString → CString → ℤ × List StartEvent
forked a id rootfs =
    if is_negative a.fork
    then (pos 0, fork_failed ∷ [])
    else if eq_ℤ a.fork (pos 0)
    then (if a.exec_ok then pos 0 else pos 1, root_changed rootfs ∷ when a.exec_ok executed)
    else (
      pos 0,
      started id a.fork
          ∷ soft_warning id
          ∷ (when a.soft_log_ok (soft_logged id)
              ++ (hard_warning id a.fork
                  ∷ killed a.fork
                  ∷ when a.hard_log_ok (hard_logged id a.fork))),
    )

-- The operands, which are there once the request was read.
abbrev start_with : StartAnswers → List CString → ℤ × List StartEvent
start_with a (id ∷ rootfs ∷ args) = forked a id rootfs
start_with a _ = (pos 1, [])

unfoldable pub cmd_start_main : StartAnswers → List CString → ℤ × List StartEvent
unfolding read_request forked
cmd_start_main a args = elim (read_request cmd_start args) [
  | none ↦ (pos 1, [])
  | some req ↦ start_with a args
]

unfoldable pub cmd_run_main : List CString → ℤ
unfolding read_request send_control_request
cmd_run_main args = elim (read_request cmd_run args) [
  | none ↦ pos 1
  | some req ↦ send_control_request req
]

-- All that `stop` fills in.
abbrev stop_request_of : CString → ControlRequest
stop_request_of id = record {
  kind = cmd_stop;
  container_id = fit 32 id;
  rootfs = [];
  command = [];
  soft_limit_bytes = 0;
  hard_limit_bytes = 0;
  nice_value = pos 0;
}

unfoldable pub cmd_stop_main : List CString → ℤ
unfolding send_control_request
cmd_stop_main [] = pos 1
cmd_stop_main (id ∷ args) = send_control_request (stop_request_of id)

-- What one `fscanf` leaves: the end of the file, or the three variables, set or not.
pub data ScanResult : Type 0 where
  end_of_file : ScanResult
  scanned : CString → ℤ → CString → ScanResult

-- The loop of `ps`: its lines; `none`: the results ran out before the end of the file.
unfoldable pub ps_lines : List ScanResult → Option (List CString)
ps_lines [] = none
ps_lines (end_of_file ∷ results) = some []
ps_lines (scanned id pid state ∷ results) = elim (ps_lines results) [
  | none ↦ none
  | some lines ↦
      some
        ((id ++ (codes "\t\t" ++ (decimal pid ++ (codes "\t" ++ (state ++ codes "\n"))))) ∷ lines)
]

-- What `ps` prints, and its exit code is always 0; the file may be missing.
unfoldable pub cmd_ps : Option (List ScanResult) → Option (List CString)
cmd_ps none = some (codes "No containers found.\n" ∷ [])
cmd_ps (some results) = elim (ps_lines results) [
  | none ↦ none
  | some lines ↦ some (codes "CONTAINER ID\tPID\tSTATE\n" ∷ lines)
]

-- fgets: at most `room` bytes, up to and with the end of a line; the line and what is left.
unfoldable pub fgets : ℕ → List ℕ → List ℕ × List ℕ
fgets zero file = ([], file)
fgets (suc room) [] = ([], [])
fgets (suc room) (c ∷ file) =
    let (line, rest) = fgets room file in if c == 10 then (c ∷ [], file) else (c ∷ line, rest)

-- printf("%s", line) stops at the first NUL.
unfoldable pub up_to_nul : List ℕ → List ℕ
up_to_nul [] = []
up_to_nul (c ∷ cs) = let rest = up_to_nul cs in if c == 0 then [] else c ∷ rest

-- The loop of `logs` with its array of 256 bytes: what it prints of each line; `none` if the fuel
-- runs out.
unfoldable pub log_lines : ℕ → List ℕ → Option (List (List ℕ))
unfolding up_to_nul
log_lines zero file = none
log_lines (suc fuel) [] = some []
log_lines (suc fuel) (c ∷ file) =
    let (line, left) = fgets 255 (c ∷ file) in
    elim (log_lines fuel left) [ none ↦ none | some lines ↦ some (up_to_nul line ∷ lines) ]

-- The path is cut to its array of 100 bytes.
unfoldable pub log_path : CString → CString
log_path id = fit 100 (codes "rootfs-" ++ (id ++ codes "/logs.txt"))

-- The exit code of `logs`, and what it prints of the log.
unfoldable pub cmd_logs :
    ℕ → (CString → Option (List ℕ)) → List CString → Option (ℤ × List (List ℕ))
unfolding log_path
cmd_logs fuel files [] = some (pos 1, [])
cmd_logs fuel files (id ∷ args) = elim (files (log_path id)) [
  | none ↦ some (pos 1, [])
  | some file ↦ elim (log_lines fuel file) [ none ↦ none | some lines ↦ some (pos 0, lines) ]
]
