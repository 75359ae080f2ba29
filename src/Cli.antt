-- ===== src/Cli.antt =====
-- The command line of engine.c: the defaults, the optional flags, the request that `main` builds
-- and the exit status that it gives back.
pub mod Number
pub mod RoundTrip
pub mod Bounds
mod Tests
use os_jackfruit.Prelude.{
  ℕ, ◌+◌, ◌-◌, ◌*◌, ◌%◌, ◌^◌, Bool, true, false, not, ◌&&◌, ◌||◌, List, [], ◌∷◌, Option, none, some,
  ℤ, pos, negsuc, is_negative, eq_ℤ, CString, codes, str_eq, if◌then◌else◌, ltb, leb, ◌==◌, length,
  min,
}
use os_jackfruit.Protocol.{
  Request, Response, safe_strcpy, max_id_len, max_path_len, max_cmd_len, req_start, req_run, req_ps,
  req_logs, req_stop,
}

abbrev pub is_digit : ℕ → Bool
is_digit c = leb b'0' c && leb c b'9'

abbrev pub is_space : ℕ → Bool
is_space c = c == 32 || (leb 9 c && leb c 13)

-- The value of the leading digits, after `acc`.
unfoldable pub digits_value : ℕ → CString → ℕ
digits_value acc [] = acc
digits_value acc (c ∷ cs) =
    let rest = digits_value (acc * 10 + (c - b'0')) cs in if is_digit c then rest else acc

-- The low 32 bits of a value, read as an int.
abbrev pub int_of_bits : ℕ → ℤ
int_of_bits w = if ltb w (2 ^ 31) then pos w else negsuc (2 ^ 32 - w - 1)

-- A non-negative and a negated number, cut to the range of long and then to int.
unfoldable pub to_int : ℕ → ℤ
to_int n = int_of_bits (min n (2 ^ 63 - 1) % 2 ^ 32)

unfoldable pub to_int_negated : ℕ → ℤ
to_int_negated n = int_of_bits ((2 ^ 64 - min n (2 ^ 63)) % 2 ^ 32)

-- After the white space: a sign, and digits.
unfoldable pub signed_value : CString → ℤ
signed_value [] = to_int 0
signed_value (c ∷ cs) =
    if c == b'-'
    then to_int_negated (digits_value 0 cs)
    else if c == b'+'
    then to_int (digits_value 0 cs)
    else to_int (digits_value 0 (c ∷ cs))

-- `atoi` as the C library has it: (int)strtol(text, NULL, 10).
unfoldable pub atoi : CString → ℤ
atoi [] = signed_value []
atoi (c ∷ cs) = let rest = atoi cs in if is_space c then rest else signed_value (c ∷ cs)

-- `memset`, then the three defaults.
unfoldable pub init_request_defaults : Request
init_request_defaults = record {
  type = pos 0;
  id = [];
  rootfs = [];
  command = [];
  soft_mib = pos 40;
  hard_mib = pos 64;
  nice_value = pos 0;
}

-- One flag with its value.
unfoldable pub set_flag : CString → CString → Request → Option Request
set_flag flag value req =
    if str_eq flag (codes "--soft-mib")
    then some (record req { soft_mib = atoi value })
    else if str_eq flag (codes "--hard-mib")
    then some (record req { hard_mib = atoi value })
    else if str_eq flag (codes "--nice")
    then some (record req { nice_value = atoi value })
    else none

-- The arguments from `start_index` on; `none` is -1. A last flag lacks its value, or is unknown.
unfoldable pub parse_optional_flags : List CString → Request → Option Request
parse_optional_flags [] req = some req
parse_optional_flags (flag ∷ []) req = none
parse_optional_flags (flag ∷ value ∷ rest) req = elim (set_flag flag value req) [
  | none ↦ none
  | some next ↦ parse_optional_flags rest next
]

-- What `main` does with its arguments: it prints the usage and exits with 1, runs the supervisor,
-- or sends a request.
pub data Action : Type 0 where
  usage : Action
  supervisor : CString → Action
  client : Request → Action

-- The request of `start` and `run` before its flags.
unfoldable pub operands_request : ℤ → CString → CString → CString → Request
operands_request type id rootfs command =
    let d = init_request_defaults in
    record d {
      type = type;
      id = safe_strcpy d.id (some id) max_id_len;
      rootfs = safe_strcpy d.rootfs (some rootfs) max_path_len;
      command = safe_strcpy d.command (some command) max_cmd_len;
    }

-- The branch for `start` and `run`.
unfoldable pub start_action : ℤ → List CString → Action
start_action type (id ∷ rootfs ∷ command ∷ flags) =
    elim (parse_optional_flags flags (operands_request type id rootfs command)) [
      | none ↦ usage
      | some req ↦ client req
    ]
start_action type _ = usage

-- The branches for `logs` and `stop`.
unfoldable pub id_action : ℤ → List CString → Action
id_action type (id ∷ []) =
    let d = init_request_defaults in
    client (record d { type = type; id = safe_strcpy d.id (some id) max_id_len })
id_action type _ = usage

unfoldable pub ps_action : List CString → Action
ps_action [] = client (record init_request_defaults { type = req_ps })
ps_action _ = usage

unfoldable pub supervisor_action : List CString → Action
supervisor_action (base_rootfs ∷ []) = supervisor base_rootfs
supervisor_action _ = usage

-- The arguments after the program's name.
unfoldable pub parse_arguments : List CString → Action
parse_arguments [] = usage
parse_arguments (command ∷ args) =
    if str_eq command (codes "supervisor")
    then supervisor_action args
    else if str_eq command (codes "start")
    then start_action req_start args
    else if str_eq command (codes "run")
    then start_action req_run args
    else if str_eq command (codes "ps")
    then ps_action args
    else if str_eq command (codes "logs")
    then id_action req_logs args
    else if str_eq command (codes "stop")
    then id_action req_stop args
    else usage

-- What `main` returns for a request, once it is sent; `none`: no response was received.
unfoldable pub exit_status : Request → Option Response → ℤ
exit_status req none = pos 1
exit_status req (some resp) =
    if not resp.ok
    then pos 1
    else if eq_ℤ req.type req_run && not (is_negative resp.exit_code)
    then resp.exit_code
    else pos 0
