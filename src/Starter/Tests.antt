-- ===== src/Starter/Tests.antt =====
-- The starter's commands on concrete arguments.
use os_jackfruit.Prelude.{
  map, ◌⊎◌, true, ℕ, ◌*◌, ◌^◌, ◌≤◌, ◌<◌, ◌≡◌, List, [], ◌∷◌, Option, some, pos, CString, codes,
  str_eq, arith, refl,
}
use os_jackfruit.Starter.Options.{
  ControlRequest, cmd_start, set_option, is_nice, parse_optional_flags,
}
use os_jackfruit.Cli.{digits_value}
use os_jackfruit.Starter.Numbers.{scan_number, skip_spaces, after_digits, strtoul}
use os_jackfruit.Starter.Bounds.{parse_optional_flags_bounds}
use os_jackfruit.Starter.Commands.{up_to_nul, new_request, cmd_logs}
use os_jackfruit.Starter.Outputs.{has_nul, concat, Fitting, cmd_logs_whole}

abbrev new_alpha : ControlRequest
new_alpha = new_request cmd_start (codes "alpha") (codes "./rootfs-alpha") (codes "/bin/sh")

abbrev nicer : ControlRequest
nicer = record new_alpha { nice_value = pos 5; hard_limit_bytes = 80 * 2 ^ 20 }

abbrev flags : List CString
flags = codes "--nice" ∷ codes "5" ∷ codes "--hard-mib" ∷ codes "80" ∷ []

flags_accepted : parse_optional_flags flags new_alpha ≡ some nicer
unfolding parse_optional_flags new_request set_option str_eq scan_number skip_spaces digits_value
    after_digits strtoul
flags_accepted = refl

parse_optional_flags_bounds_example :
    (is_nice nicer.nice_value ≡ true)
    × (nicer.soft_limit_bytes ≤ nicer.hard_limit_bytes)
    × (nicer.hard_limit_bytes < 2 ^ 64)
    × (nicer.container_id ≡ new_alpha.container_id)
    × (nicer.rootfs ≡ new_alpha.rootfs)
    × (nicer.command ≡ new_alpha.command)
unfolding new_request
parse_optional_flags_bounds_example =
    parse_optional_flags_bounds flags new_alpha nicer flags_accepted refl (omega arith)
      (omega arith)

abbrev one_log : CString → Option (List ℕ)
one_log path = some (codes "[container running]\n[container running]\n")

cmd_logs_whole_example :
    (lines : List (List ℕ)) × (cmd_logs 50 one_log (codes "alpha" ∷ [])
      ≡ some (pos 0, map up_to_nul lines))
    × (concat lines ≡ codes "[container running]\n[container running]\n")
    × Fitting lines
    × ((concat (map up_to_nul lines) ≡ codes "[container running]\n[container running]\n")
        ⊎ (has_nul (codes "[container running]\n[container running]\n") ≡ true))
cmd_logs_whole_example =
    cmd_logs_whole 50 one_log (codes "alpha") []
      (codes "[container running]\n[container running]\n") refl (omega arith)
