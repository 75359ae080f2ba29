-- ===== src/Cli/Tests.antt =====
-- Command lines.
use os_jackfruit.Prelude.{[], ◌∷◌, some, true, pos, refl, ◌≡◌, ◌⊎◌, arith, codes, str_eq}
use os_jackfruit.Protocol.{Request, Fits, req_start, req_run, req_ps, req_logs, req_stop}
use os_jackfruit.Cli.{client, parse_arguments, ps_action, init_request_defaults, exit_status}
use os_jackfruit.Cli.RoundTrip.{arguments_of, parse_arguments_round_trip}
use os_jackfruit.Cli.Bounds.{parse_arguments-Fits}
use os_jackfruit.Samples.{alpha_request, alpha_request-Fits}

parse_arguments_round_trip_example :
    (parse_arguments (arguments_of (codes "start") alpha_request)
      ≡ client (record alpha_request { type = req_start }))
    × (parse_arguments (arguments_of (codes "run") alpha_request)
        ≡ client (record alpha_request { type = req_run }))
parse_arguments_round_trip_example =
    parse_arguments_round_trip alpha_request alpha_request-Fits (omega arith) (omega arith)
      (omega arith)

abbrev ps_request : Request
ps_request = record init_request_defaults { type = req_ps }

parse_arguments-Fits_example :
    Fits ps_request
    × ((ps_request.type ≡ req_start)
        ⊎ (ps_request.type ≡ req_run)
        ⊎ (ps_request.type ≡ req_ps)
        ⊎ (ps_request.type ≡ req_logs)
        ⊎ (ps_request.type ≡ req_stop))
unfolding parse_arguments ps_action str_eq
parse_arguments-Fits_example = parse_arguments-Fits (codes "ps" ∷ []) ps_request refl

killed_by_sigkill :
    exit_status
      (record alpha_request { type = req_run })
      (some (record { ok = true; exit_code = pos 137; message = [] }))
    ≡ pos 137
unfolding exit_status
killed_by_sigkill = refl
