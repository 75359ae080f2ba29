-- ===== src/Cli/Bounds.antt =====
-- Every request that the command line can build fits the arrays that it is sent in.
use os_jackfruit.Prelude.{
  ◌≡◌, ◌≢◌, ◌⊎◌, Bool, true, false, List, [], ◌∷◌, some, ℤ, CString, if◌then◌else◌, arith, refl,
  ◌∙◌, inl, inr, Option-cases,
}
use os_jackfruit.Protocol.{
  Request, Fits, length-safe_strcpy, max_id_len, max_path_len, max_cmd_len, req_start, req_run,
  req_ps, req_logs, req_stop,
}
use os_jackfruit.Cli.{
  operands_request, set_flag, parse_optional_flags, Action, usage, client, start_action, id_action,
  ps_action, supervisor_action, parse_arguments, init_request_defaults,
}

set_flag-Fits :
    (flag value : CString) (req next : Request)
    → Fits req
    → set_flag flag value req ≡ some next
    → Fits next × (next.type ≡ req.type)
unfolding set_flag
set_flag-Fits flag value req next f h = ground arith

flags-Fits :
    (args : List CString) (req next : Request)
    → Fits req
    → parse_optional_flags args req ≡ some next
    → Fits next × (next.type ≡ req.type)
unfolding parse_optional_flags
flags-Fits [] req next f h = ground arith
flags-Fits (flag ∷ []) req next f h = cc
flags-Fits (flag ∷ value ∷ rest) req next f h = elim (Option-cases (set_flag flag value req)) [
  | inl bad ↦ absurd (ground arith)
  | inr (r, e) ↦
      let (fr, same) = set_flag-Fits flag value req r f e in
      let (fn, also) = flags-Fits rest r next fr (ground arith) in (fn, also ∙ same)
]

default-Fits : Fits init_request_defaults
unfolding init_request_defaults
default-Fits = omega arith

operands-type :
    (type : ℤ) (id rootfs command : CString) → (operands_request type id rootfs command).type ≡ type
unfolding operands_request
operands-type type id rootfs command = refl

operands-Fits :
    (type : ℤ) (id rootfs command : CString) → Fits (operands_request type id rootfs command)
unfolding operands_request
operands-Fits type id rootfs command =
    let d = init_request_defaults in
    record {
      id_fits = length-safe_strcpy d.id (some id) max_id_len default-Fits.id_fits;
      rootfs_fits = length-safe_strcpy d.rootfs (some rootfs) max_path_len default-Fits.rootfs_fits;
      command_fits =
          length-safe_strcpy d.command (some command) max_cmd_len default-Fits.command_fits;
    }

start_action-Fits :
    (type : ℤ) (args : List CString) (req : Request)
    → start_action type args ≡ client req
    → Fits req × (req.type ≡ type)
unfolding start_action
start_action-Fits type [] req h = cc
start_action-Fits type (id ∷ []) req h = cc
start_action-Fits type (id ∷ rootfs ∷ []) req h = cc
start_action-Fits type (id ∷ rootfs ∷ command ∷ flags) req h =
    let base = operands_request type id rootfs command in
    elim (Option-cases (parse_optional_flags flags base)) [
      | inl bad ↦ absurd (ground arith)
      | inr (r, e) ↦
          let (fr, same) = flags-Fits flags base r (operands-Fits type id rootfs command) e in
          let is_req : r ≡ req = ground arith in
          ground (arith, operands-type type id rootfs command)
    ]

id_action-Fits :
    (type : ℤ) (args : List CString) (req : Request)
    → id_action type args ≡ client req
    → Fits req × (req.type ≡ type)
unfolding id_action
id_action-Fits type [] req h = cc
id_action-Fits type (id ∷ []) req h =
    ground (arith, default-Fits, length-safe_strcpy init_request_defaults.id (some id) max_id_len)
id_action-Fits type (id ∷ x ∷ xs) req h = cc

ps_action-Fits :
    (args : List CString) (req : Request)
    → ps_action args ≡ client req
    → Fits req × (req.type ≡ req_ps)
unfolding ps_action
ps_action-Fits [] req h = ground (arith, default-Fits)
ps_action-Fits (x ∷ xs) req h = cc

supervisor_no_client : (args : List CString) (req : Request) → supervisor_action args ≢ client req
unfolding supervisor_action
supervisor_no_client [] req h = cc
supervisor_no_client (x ∷ []) req h = cc
supervisor_no_client (x ∷ y ∷ ys) req h = cc

-- A chain of tests gives one of its actions.
picked :
    (b c d e f g : Bool) (sup st ru ps lo stp x : Action)
    → (if b
        then sup
        else if c
        then st
        else if d
        then ru
        else if e
        then ps
        else if f
        then lo
        else if g
        then stp
        else usage)
      ≡ x
    → (sup ≡ x) ⊎ (st ≡ x) ⊎ (ru ≡ x) ⊎ (ps ≡ x) ⊎ (lo ≡ x) ⊎ (stp ≡ x) ⊎ (usage ≡ x)
picked true c d e f g sup st ru ps lo stp x h = inl h
picked false true d e f g sup st ru ps lo stp x h = inr (inl h)
picked false false true e f g sup st ru ps lo stp x h = inr (inr (inl h))
picked false false false true f g sup st ru ps lo stp x h = inr (inr (inr (inl h)))
picked false false false false true g sup st ru ps lo stp x h = inr (inr (inr (inr (inl h))))
picked false false false false false true sup st ru ps lo stp x h =
    inr (inr (inr (inr (inr (inl h)))))
picked false false false false false false sup st ru ps lo stp x h =
    inr (inr (inr (inr (inr (inr h)))))

-- Whatever the arguments, a request that the command line builds has strings that fit their
-- arrays, and one of the five types.
pub parse_arguments-Fits :
    (args : List CString) (req : Request)
    → parse_arguments args ≡ client req
    → Fits req
      × ((req.type ≡ req_start)
          ⊎ (req.type ≡ req_run)
          ⊎ (req.type ≡ req_ps)
          ⊎ (req.type ≡ req_logs)
          ⊎ (req.type ≡ req_stop))
unfolding parse_arguments
parse_arguments-Fits [] req h = cc
parse_arguments-Fits (command ∷ args) req h = elim (picked _ _ _ _ _ _ _ _ _ _ _ _ (client req) h) [
  | inl a ↦ absurd (supervisor_no_client args req a)
  | inr (inl a) ↦ let (f, t) = start_action-Fits req_start args req a in (f, inl t)
  | inr (inr (inl a)) ↦ let (f, t) = start_action-Fits req_run args req a in (f, inr (inl t))
  | inr (inr (inr (inl a))) ↦ let (f, t) = ps_action-Fits args req a in (f, inr (inr (inl t)))
  | inr (inr (inr (inr (inl a)))) ↦
      let (f, t) = id_action-Fits req_logs args req a in (f, inr (inr (inr (inl t))))
  | inr (inr (inr (inr (inr (inl a))))) ↦
      let (f, t) = id_action-Fits req_stop args req a in (f, inr (inr (inr (inr t))))
  | inr (inr (inr (inr (inr (inr e))))) ↦ cc
]
