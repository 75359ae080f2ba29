-- ===== src/Supervisor.antt =====
-- What the supervisor does with a request (engine.c): `client_handler_main` between the receipt of
-- the request and the sending of the response, and the loop of the reaper thread.
pub mod Run
pub mod Reaper
pub mod Enforcement
mod Tests
use os_jackfruit.Prelude.{
  ℕ, Bool, true, false, not, List, [], ◌∷◌, ◌++◌, Option, none, some, ℤ, pos, minus_one, eq_ℤ,
  CString, codes, decimal, if◌then◌else◌, get_elem?,
}
use os_jackfruit.Protocol.{
  Request, Response, init_response, set_response, safe_strcpy, max_state_len, response_msg_len,
  req_start, req_run, req_ps, req_logs, req_stop,
}
use os_jackfruit.Containers.{Container, Table, is_live_state}
use os_jackfruit.KernelLink.{DeviceAnswer}
use os_jackfruit.Start.{World, StartAnswers, StartResult, start_container_internal}
use os_jackfruit.Lifecycle.{WaitStatus, reap, stop_container_by_id}
use os_jackfruit.Report.{Files, build_ps_output, build_logs_output}

-- What the handler meets: the system's answers, and the tables that a `run` finds each time it
-- holds the mutex, first and after each wake-up of its condition variable.
pub record Surroundings : Type 0 where
  pub start : StartAnswers
  pub kill_error : Option CString
  pub files : Files
  pub format_time : ℕ → CString
  pub seen : List Table

-- The loop of REQ_RUN: it waits while the slot is live. `none`: it is still waiting.
unfoldable pub wait_until_ended : ℕ → List Table → Option Container
wait_until_ended idx [] = none
wait_until_ended idx (t ∷ ts) = elim (get_elem? t idx) [
  | none ↦ none
  | some c ↦ let rest = wait_until_ended idx ts in if is_live_state c.state then rest else some c
]

-- The response of a `run` whose container has ended.
unfoldable pub run_response : Request → Container → Response
run_response req c = set_response true c.exit_code (
    codes "Container "
    ++ (req.id
        ++ (codes " finished with state="
            ++ (safe_strcpy [] (some c.state) max_state_len
                ++ (codes " exit=" ++ decimal c.exit_code)))))

-- REQ_RUN after its start: it waits only if the start returned 0, which sets the index.
unfoldable pub finish_run : Request → List Table → StartResult → Option Response
finish_run req seen result =
    if not (eq_ℤ result.code (pos 0)) then some result.response else elim result.index [
      | none ↦ none
      | some idx ↦ elim (wait_until_ended idx seen) [
        | none ↦ none
        | some c ↦ some (run_response req c)
      ]
    ]

unfoldable pub ps_response : (ℕ → CString) → Table → Response
ps_response format_time t = record {
  ok = true;
  exit_code = pos 0;
  message = build_ps_output format_time response_msg_len t;
}

unfoldable pub logs_response : Files → CString → Table → Response
logs_response files id t =
    let (ok, text) = build_logs_output files id response_msg_len t in
    record { ok = ok; exit_code = if ok then pos 0 else minus_one; message = text }

unfoldable pub start_request : Surroundings → Request → World → World × Option Response
start_request s req w =
    let (after, result) = start_container_internal s.start req w in (after, some result.response)

unfoldable pub run_request : Surroundings → Request → World → World × Option Response
unfolding finish_run
run_request s req w =
    let (after, result) = start_container_internal s.start req w in
    (after, finish_run req s.seen result)

unfoldable pub stop_request : Surroundings → Request → World → World × Option Response
stop_request s req w =
    let (table, result) = stop_container_by_id s.kill_error req.id w.table in
    (record w { table = table }, some result.response)

-- The `switch` over the type of the request. The world is what the handler itself leaves; `none`:
-- it is still waiting, and has sent no response.
unfoldable pub handle_request : Surroundings → Request → World → World × Option Response
unfolding start_request run_request stop_request
handle_request s req w =
    if eq_ℤ req.type req_start
    then start_request s req w
    else if eq_ℤ req.type req_run
    then run_request s req w
    else if eq_ℤ req.type req_ps
    then (w, some (ps_response s.format_time w.table))
    else if eq_ℤ req.type req_logs
    then (w, some (logs_response s.files req.id w.table))
    else if eq_ℤ req.type req_stop
    then stop_request s req w
    else (w, some (set_response false minus_one (codes "Unknown request")))

-- What one `waitpid` of the reaper comes to. ECHILD carries what it then reads from
-- `supervisor_running`.
pub data WaitResult : Type 0 where
  reaped : ℤ → WaitStatus → DeviceAnswer → WaitResult
  no_child : Bool → WaitResult
  interrupted other_error : WaitResult

-- The loop of `reaper_main`: the world, and whether the thread has ended.
unfoldable pub reaper_main : List WaitResult → World → World × Bool
reaper_main [] w = (w, false)
reaper_main (reaped pid status device ∷ results) w = reaper_main results (reap device pid status w)
reaper_main (no_child false ∷ results) w = (w, true)
reaper_main (no_child true ∷ results) w = reaper_main results w
reaper_main (interrupted ∷ results) w = reaper_main results w
reaper_main (other_error ∷ results) w = reaper_main results w
