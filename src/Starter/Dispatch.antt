-- ===== src/Starter/Dispatch.antt =====
-- The dispatch in the `main` of boilerplate/engine.c.
use os_jackfruit.Prelude.{
  ℕ, List, [], ◌∷◌, Option, none, some, ℤ, pos, eq_ℤ, CString, codes, str_eq, if◌then◌else◌,
}
use os_jackfruit.Starter.Buffer.{InitCodes}
use os_jackfruit.Starter.Buffer
use os_jackfruit.Starter.Commands.{
  StartAnswers, ScanResult, cmd_start_main, cmd_run_main, cmd_stop_main, cmd_ps, cmd_logs,
}

-- What the machine answers to all of them.
pub record Machine : Type 0 where
  pub metadata_init : ℤ
  pub init_codes : InitCodes
  pub start : StartAnswers
  pub ps_file : Option (List ScanResult)
  pub log_fuel : ℕ
  pub files : CString → Option (List ℕ)

abbrev code_of {ℓ} : {A : Type ℓ} → Option (ℤ × A) → Option ℤ
code_of none = none
code_of (some (code, out)) = some code

-- The supervisor runs for ever, or has failed.
abbrev supervisor_code : Option (List Buffer.Primitive × ℤ) → Option ℤ
supervisor_code none = none
supervisor_code (some (held, code)) = if eq_ℤ code (pos 0) then none else some code

-- The exit code for the arguments after the program's name; `none`: it runs for ever.
unfoldable pub exit_code : Machine → List CString → Option ℤ
exit_code m [] = some (pos 1)
exit_code m (command ∷ args) =
    if str_eq command (codes "supervisor")
    then elim args [
      | [] ↦ some (pos 1)
      | _ ∷ _ ↦ supervisor_code (Buffer.run_supervisor m.metadata_init m.init_codes)
    ]
    else if str_eq command (codes "start")
    then some (cmd_start_main m.start args).0
    else if str_eq command (codes "run")
    then some (cmd_run_main args)
    else if str_eq command (codes "ps")
    then elim (cmd_ps m.ps_file) [ none ↦ none | some lines ↦ some (pos 0) ]
    else if str_eq command (codes "logs")
    then code_of (cmd_logs m.log_fuel m.files args)
    else if str_eq command (codes "stop")
    then some (cmd_stop_main args)
    else some (pos 1)
