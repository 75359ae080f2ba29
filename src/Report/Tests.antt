-- ===== src/Report/Tests.antt =====
-- The texts for the running container `alpha`.
use os_jackfruit.Prelude.{
  ℕ, ◌++◌, ◌≡◌, refl, true, some, none, CString, codes, take, str_eq, if◌then◌else◌, arith,
}
use os_jackfruit.Start.{fill_slot, commit}
use os_jackfruit.Report.{Files, build_ps_output, build_logs_output, ps_header}
use os_jackfruit.Report.Text.{ps_lines, build_ps_output_lem, shown_log, logs_of_container}
use os_jackfruit.Lifecycle.Steps.{Run-Inv}
use os_jackfruit.Samples.{running_world, running-Run, alpha_running, alpha_running_at}

abbrev some_time : ℕ → CString
some_time t = codes "2025-01-01 00:00:00"

build_ps_output_example :
    build_ps_output some_time 8192 running_world.table
    ≡ take 8191 (ps_header ++ ps_lines some_time running_world.table)
build_ps_output_example =
    build_ps_output_lem some_time 8192 running_world.table (omega arith) (omega arith)

abbrev files : Files
files path = if str_eq path (codes "logs/alpha.log") then some (codes "hello\n") else none

logs_of_container_example :
    build_logs_output files alpha_running.id 8192 running_world.table
    ≡ (true, shown_log 8192 (codes "hello\n"))
unfolding commit fill_slot str_eq
logs_of_container_example =
    logs_of_container files 8192 running_world.table 0 alpha_running (codes "hello\n") (omega arith)
      (Run-Inv running-Run).table_inv alpha_running_at refl (λ e. cc) (omega arith) refl
