-- ===== src/Cli/RoundTrip.antt =====
-- A start on the command line, written out and read back.
use os_jackfruit.Prelude.{
  ◌<◌, ◌^◌, ◌≡◌, List, [], ◌∷◌, some, ℤ, pos, negsuc, CString, codes, decimal, str_eq, take_all,
  arith, refl,
}
use os_jackfruit.Protocol.{Request, Fits, safe_strcpy, req_start, req_run}
use os_jackfruit.Cli.{
  operands_request, atoi, set_flag, parse_optional_flags, client, start_action, parse_arguments,
}
use os_jackfruit.Cli.Number.{atoi-decimal}

-- A value of an int.
abbrev pub IsInt : ℤ → Type 0
IsInt (pos n) = n < 2 ^ 31
IsInt (negsuc n) = n < 2 ^ 31

atoi_int : (z : ℤ) → IsInt z → atoi (decimal z) ≡ z
atoi_int (pos n) h = (atoi-decimal n h).0
atoi_int (negsuc n) h = (atoi-decimal n h).1

-- The three flags with the limits and the niceness of a request.
abbrev pub flags_of : Request → List CString
flags_of req =
    codes "--soft-mib"
    ∷ decimal req.soft_mib
    ∷ codes "--hard-mib"
    ∷ decimal req.hard_mib
    ∷ codes "--nice"
    ∷ decimal req.nice_value
    ∷ []

-- The flags set their three fields and leave the rest of the request.
flags_lem :
    (req d : Request)
    → IsInt req.soft_mib
    → IsInt req.hard_mib
    → IsInt req.nice_value
    → parse_optional_flags (flags_of req) d
      ≡ some (record d {
        soft_mib = req.soft_mib;
        hard_mib = req.hard_mib;
        nice_value = req.nice_value;
      })
unfolding parse_optional_flags set_flag str_eq
flags_lem req d s h n =
    rw (atoi_int req.soft_mib s, atoi_int req.hard_mib h, atoi_int req.nice_value n)

-- The arguments that start or run a container with the strings and numbers of a request.
abbrev pub arguments_of : CString → Request → List CString
arguments_of word req = word ∷ req.id ∷ req.rootfs ∷ req.command ∷ flags_of req

operands_lem :
    (type : ℤ) (req : Request)
    → Fits req
    → let base = operands_request type req.id req.rootfs req.command in
      (base.type ≡ type)
      × (base.id ≡ req.id)
      × (base.rootfs ≡ req.rootfs)
      × (base.command ≡ req.command)
unfolding operands_request safe_strcpy
operands_lem type req f = (
  refl,
  take_all 31 req.id (omega (arith, f.id_fits)),
  take_all 255 req.rootfs (omega (arith, f.rootfs_fits)),
  take_all 255 req.command (omega (arith, f.command_fits)),
)

start_lem :
    (type : ℤ) (req : Request)
    → Fits req
    → IsInt req.soft_mib
    → IsInt req.hard_mib
    → IsInt req.nice_value
    → start_action type (req.id ∷ req.rootfs ∷ req.command ∷ flags_of req)
      ≡ client (record req { type = type })
unfolding start_action
start_lem type req f s h n =
    rw (flags_lem req (operands_request type req.id req.rootfs req.command) s h n, start_action)
      (ground (arith, operands_lem type req f))

-- `start` and `run` with an id, a root file system, a command and the three flags written out in
-- decimal build exactly the request with these values, if the strings fit and the numbers are
-- ints.
pub parse_arguments_round_trip :
    (req : Request)
    → Fits req
    → IsInt req.soft_mib
    → IsInt req.hard_mib
    → IsInt req.nice_value
    → (parse_arguments (arguments_of (codes "start") req)
        ≡ client (record req { type = req_start }))
      × (parse_arguments (arguments_of (codes "run") req) ≡ client (record req { type = req_run }))
unfolding parse_arguments str_eq
parse_arguments_round_trip req f s h n =
    (start_lem req_start req f s h n, start_lem req_run req f s h n)
