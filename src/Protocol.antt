-- ===== src/Protocol.antt =====
-- The messages between the command line and the supervisor (engine.c): `request_t`, `response_t`
-- and their helpers, and the bounded string copy.
use os_jackfruit.Prelude.{
  ℕ, ◌<◌, Bool, false, Option, none, some, [], ℤ, pos, minus_one, CString, fit, length,
  length-fit-lt, ◌==◌, if◌then◌else◌, arith,
}

abbrev pub max_id_len : ℕ
max_id_len = 32

abbrev pub max_path_len : ℕ
max_path_len = 256

abbrev pub max_cmd_len : ℕ
max_cmd_len = 256

abbrev pub max_state_len : ℕ
max_state_len = 24

abbrev pub response_msg_len : ℕ
response_msg_len = 8192

-- What the destination holds afterwards; the source may be NULL, the destination never is.
unfoldable pub safe_strcpy : CString → Option CString → ℕ → CString
safe_strcpy dst src size =
    if size == 0 then dst else elim src [ none ↦ [] | some text ↦ fit size text ]

-- `request_type_t`
abbrev pub req_start : ℤ
req_start = pos 1

abbrev pub req_run : ℤ
req_run = pos 2

abbrev pub req_ps : ℤ
req_ps = pos 3

abbrev pub req_logs : ℤ
req_logs = pos 4

abbrev pub req_stop : ℤ
req_stop = pos 5

pub record Request : Type 0 where
  pub type : ℤ
  pub id : CString
  pub rootfs : CString
  pub command : CString
  pub soft_mib : ℤ
  pub hard_mib : ℤ
  pub nice_value : ℤ

-- Every string of a request fits its array, with its terminating NUL.
pub record Fits (req : Request) : Type 0 where
  pub id_fits : length req.id < max_id_len
  pub rootfs_fits : length req.rootfs < max_path_len
  pub command_fits : length req.command < max_cmd_len

pub record Response : Type 0 where
  pub ok : Bool
  pub exit_code : ℤ
  pub message : CString

unfoldable pub init_response : Response
init_response = record { ok = false; exit_code = minus_one; message = [] }

-- The text is what the format gives; `vsnprintf` cuts it to the array.
unfoldable pub set_response : Bool → ℤ → CString → Response
set_response ok exit_code text = record {
  ok = ok;
  exit_code = exit_code;
  message = fit response_msg_len text;
}

-- A copy never overruns its array.
pub length-safe_strcpy :
    (dst : CString) (src : Option CString) (size : ℕ)
    → length dst < size
    → length (safe_strcpy dst src size) < size
unfolding safe_strcpy
length-safe_strcpy dst none size h = ground arith
length-safe_strcpy dst (some text) size h = ground (arith, length-fit-lt size text)
