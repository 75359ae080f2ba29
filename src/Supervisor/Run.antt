-- ===== src/Supervisor/Run.antt =====
-- What a client that waits for its container is told (`REQ_RUN` in `client_handler_main`).
use os_jackfruit.Prelude.{
  ◌∙◌, ap, ℕ, ◌+◌, true, false, List, [], ◌∷◌, ◌++◌, some, ℤ, pos, minus_one, get_elem?, arith, ◌≡◌,
  refl,
}
use os_jackfruit.Protocol.{Request, Response, req_run, set_response}
use os_jackfruit.Containers.{Container, Table, is_live_state}
use os_jackfruit.Start.{StartResult, World, start_container_internal}
use os_jackfruit.Lifecycle.{WaitStatus, exited_with, signaled, other, reap_slot, record_status}
use os_jackfruit.Lifecycle.Ended.{reap_slot-ended}
use os_jackfruit.Supervisor.{
  Surroundings, wait_until_ended, finish_run, run_response, run_request, handle_request,
}

-- In each of the tables, the slot is there and live.
pub data LiveIn (idx : ℕ) : List Table → Type 0 where
  never : LiveIn idx []
  at_wake :
      {t : Table} {ts : List Table} (c : Container)
      → get_elem? t idx ≡ some c
      → is_live_state c.state ≡ true
      → LiveIn idx ts
      → LiveIn idx (t ∷ ts)

-- The exit code that a shell reports for a process.
abbrev pub shell_code : WaitStatus → ℤ
shell_code (exited_with code) = pos code
shell_code (signaled sig) = pos (128 + sig)
shell_code other = minus_one

reap_slot-exit_code :
    (status : WaitStatus) (c : Container) → (reap_slot status c).exit_code ≡ shell_code status
unfolding reap_slot record_status
reap_slot-exit_code (exited_with code) c = refl
reap_slot-exit_code (signaled sig) c = refl
reap_slot-exit_code other c = refl

-- The loop passes over the tables in which the slot is live, and stops at the first other one.
wait-first :
    (idx : ℕ) (before later : List Table) (t : Table) (c : Container)
    → LiveIn idx before
    → get_elem? t idx ≡ some c
    → is_live_state c.state ≡ false
    → wait_until_ended idx (before ++ t ∷ later) ≡ some c
unfolding wait_until_ended
wait-first idx [] later t c live at ended = rw (wait_until_ended, at, ended) refl
wait-first idx (u ∷ us) later t c (at_wake d there is_live live) at ended =
    rw (wait_until_ended, there, is_live) (wait-first idx us later t c live at ended)

finish_run-ended :
    (req : Request) (seen : List Table) (result : StartResult) (idx : ℕ) (c : Container)
    → result.code ≡ pos 0
    → result.index ≡ some idx
    → wait_until_ended idx seen ≡ some c
    → finish_run req seen result ≡ some (run_response req c)
unfolding finish_run
finish_run-ended req seen result idx c ok h g = ground arith

handle-run :
    (s : Surroundings) (req : Request) (w : World)
    → req.type ≡ req_run
    → handle_request s req w ≡ run_request s req w
unfolding handle_request
handle-run s req w h = ground arith

-- A `run` whose start succeeds waits through every wake-up at which the slot is live; at the
-- first one at which the reaper has recorded the end of the process there, it answers with
-- success and the exit code that a shell reports for that end.
pub run_reports_exit :
    (s : Surroundings) (req : Request) (w : World) (idx : ℕ) (before later : List Table) (t : Table)
    (status : WaitStatus) (c : Container)
    → req.type ≡ req_run
    → (start_container_internal s.start req w).1.code ≡ pos 0
    → (start_container_internal s.start req w).1.index ≡ some idx
    → s.seen ≡ before ++ t ∷ later
    → LiveIn idx before
    → get_elem? t idx ≡ some (reap_slot status c)
    → (r : Response) × ((handle_request s req w).1 ≡ some r)
      × (r.ok ≡ true)
      × (r.exit_code ≡ shell_code status)
unfolding run_request run_response set_response
run_reports_exit s req w idx before later t status c is_run ok started tables live at =
    let found =
      wait-first idx before later t (reap_slot status c) live at (reap_slot-ended status c).2 in
    let result = (start_container_internal s.start req w).1 in
    (
      run_response req (reap_slot status c),
      ap (λ x. x.1) (handle-run s req w is_run)
          ∙ finish_run-ended req s.seen result idx (reap_slot status c) ok started
              (ap (wait_until_ended idx) tables ∙ found),
      refl,
      reap_slot-exit_code status c,
    )
