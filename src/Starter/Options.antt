-- ===== src/Starter/Options.antt =====
-- The options of `start` and `run` in boilerplate/engine.c: `parse_mib_flag`,
-- `parse_optional_flags`, and the request that they fill.
use os_jackfruit.Prelude.{
  ℕ, ◌-◌, ◌*◌, ◌/◌, ◌%◌, ◌^◌, Bool, not, ◌||◌, ◌&&◌, List, [], ◌∷◌, Option, none, some, ℤ, pos,
  negsuc, CString, codes, str_eq, if◌then◌else◌, ltb, ◌==◌,
}
use os_jackfruit.Starter.Numbers.{Converted, strtoul, scan_number, is_empty}

-- `command_kind_t`
pub data CommandKind : Type 0 where
  cmd_supervisor cmd_start cmd_run cmd_ps cmd_logs cmd_stop : CommandKind

-- `control_request_t`
pub record ControlRequest : Type 0 where
  pub kind : CommandKind
  pub container_id : CString
  pub rootfs : CString
  pub command : CString
  pub soft_limit_bytes : ℕ
  pub hard_limit_bytes : ℕ
  pub nice_value : ℤ

-- The number of bytes; `none` is -1. The product is an unsigned long.
unfoldable pub parse_mib_flag : CString → Option ℕ
parse_mib_flag value =
    let (mib, c) = strtoul value in
    if c.out_of_range || (not c.found || not (is_empty c.rest))
    then none
    else if ltb ((2 ^ 64 - 1) / 2 ^ 20) mib
    then none
    else some (mib * 2 ^ 20 % 2 ^ 64)

-- strtol gives a negative number, or one that is not; for a magnitude above 19 or 20 it does not
-- matter which one.
abbrev nice_of : Converted → ℤ
nice_of c = if c.negative && not (c.value == 0) then negsuc (c.value - 1) else pos c.value

-- -20 .. 19
abbrev pub is_nice : ℤ → Bool
is_nice (pos n) = ltb n 20
is_nice (negsuc n) = ltb n 20

unfoldable pub parse_nice : CString → Option ℤ
parse_nice value =
    let c = scan_number (2 ^ 63 - 1) value in
    if c.out_of_range || (not c.found || (not (is_empty c.rest) || not (is_nice (nice_of c))))
    then none
    else some (nice_of c)

-- One option with its value.
unfoldable pub set_option : CString → CString → ControlRequest → Option ControlRequest
unfolding parse_mib_flag parse_nice
set_option flag value req =
    if str_eq flag (codes "--soft-mib")
    then elim (parse_mib_flag value) [
      | none ↦ none
      | some bytes ↦ some (record req { soft_limit_bytes = bytes })
    ]
    else if str_eq flag (codes "--hard-mib")
    then elim (parse_mib_flag value) [
      | none ↦ none
      | some bytes ↦ some (record req { hard_limit_bytes = bytes })
    ]
    else if str_eq flag (codes "--nice")
    then elim (parse_nice value) [
      | none ↦ none
      | some nice ↦ some (record req { nice_value = nice })
    ]
    else none

-- The arguments from `start_index` on; `none` is -1.
unfoldable pub parse_optional_flags : List CString → ControlRequest → Option ControlRequest
parse_optional_flags [] req =
    if ltb req.hard_limit_bytes req.soft_limit_bytes then none else some req
parse_optional_flags (flag ∷ []) req = none
parse_optional_flags (flag ∷ value ∷ rest) req = elim (set_option flag value req) [
  | none ↦ none
  | some next ↦ parse_optional_flags rest next
]
