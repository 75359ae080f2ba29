-- ===== src/Lifecycle.antt =====
-- What ends a container (engine.c): the reaper's handling of one `waitpid` result, a stop request,
-- and the stop of all containers at shutdown.
pub mod Changes
pub mod Steps
pub mod Ended
pub mod Phases
pub mod Moves
pub mod Stop
pub mod Gaps
pub mod Lost
mod FullTests
mod Tests
use os_jackfruit.Prelude.{
  ℕ, ◌+◌, Bool, true, false, not, ◌&&◌, ◌||◌, List, [], ◌∷◌, ◌++◌, Option, none, some, ℤ, pos,
  minus_one, eq_ℤ, CString, codes, decimal, if◌then◌else◌, map, ◌==◌, get_elem?,
}
use os_jackfruit.Protocol.{Response, set_response}
use os_jackfruit.Containers.{
  Container, Table, stopped, exited, killed, set_state, is_live_state, find_slot,
  find_container_by_id_locked, update_slot,
}
use os_jackfruit.KernelLink.{DeviceAnswer, unregister_container_from_kernel}
use os_jackfruit.Start.{World}

-- What WIFEXITED, WIFSIGNALED and their values read from a status.
pub data WaitStatus : Type 0 where
  exited_with : ℕ → WaitStatus
  signaled : ℕ → WaitStatus
  other : WaitStatus

abbrev pub sigkill : ℕ
sigkill = 9

-- State and exit code of the slot whose process ended.
unfoldable pub record_status : WaitStatus → Container → Container
unfolding set_state
record_status (exited_with code) c =
    record (if c.stop_requested then set_state stopped c else set_state exited c) {
      exit_code = pos code;
    }
record_status (signaled sig) c =
    record (if c.stop_requested
      then set_state stopped c
      else if sig == sigkill
      then set_state killed c
      else set_state killed c) { exit_code = pos (128 + sig) }
record_status other c = record (set_state stopped c) { exit_code = minus_one }

-- The stack block is freed if the slot owns one.
unfoldable pub reap_slot : WaitStatus → Container → Container
unfolding record_status
reap_slot status c = record (record_status status c) { child_stack = none }

-- The slot that the reaper takes for a pid: the first used one that has it.
abbrev pub has_pid : ℤ → Container → Bool
has_pid pid c = not (not c.used || not (eq_ℤ c.pid pid))

-- The critical section of `reaper_main` after `waitpid` returned a pid.
unfoldable pub reap : DeviceAnswer → ℤ → WaitStatus → World → World
reap a pid status w = elim (find_slot (has_pid pid) w.table) [
  | none ↦ w
  | some i ↦ record {
    table = update_slot w.table i (reap_slot status);
    tracked = (unregister_container_from_kernel a pid w.tracked).0;
  }
]

-- A signal that the supervisor sends: the pid that `kill` is given.
pub record StopResult : Type 0 where
  pub code : ℤ
  pub response : Response
  pub signalled : Option ℤ

abbrev pub request_stop : Container → Container
request_stop c = record c { stop_requested = true }

-- The part of `stop_container_by_id` for the slot that was found; `kill_error` is the text of
-- errno if `kill` fails.
unfoldable pub stop_slot : Option CString → CString → ℕ → Container → Table → Table × StopResult
stop_slot kill_error id idx c t =
    if not (is_live_state c.state)
    then (
      t,
      record {
        code = minus_one;
        response =
            set_response false minus_one (codes "Container " ++ (id ++ codes " is not running"));
        signalled = none;
      },
    )
    else (
      update_slot t idx request_stop,
      elim kill_error [
        | some error ↦ record {
          code = minus_one;
          response =
              set_response false minus_one
                (codes "Failed to stop " ++ (id ++ (codes ": " ++ error)));
          signalled = some c.pid;
        }
        | none ↦ record {
          code = pos 0;
          response = set_response true (pos 0) (
              codes "Stop requested for "
              ++ (id ++ (codes " (PID " ++ (decimal c.pid ++ codes ")"))));
          signalled = some c.pid;
        }
      ],
    )

abbrev pub no_such_container : CString → StopResult
no_such_container id = record {
  code = minus_one;
  response = set_response false minus_one (codes "No such container: " ++ id);
  signalled = none;
}

-- The slot that a search found; an index out of range does not occur.
abbrev pub stop_found : Option CString → CString → ℕ → Option Container → Table → Table × StopResult
stop_found kill_error id idx none t = (t, no_such_container id)
stop_found kill_error id idx (some c) t = stop_slot kill_error id idx c t

unfoldable pub stop_container_by_id : Option CString → CString → Table → Table × StopResult
stop_container_by_id kill_error id t = elim (find_container_by_id_locked id t) [
  | none ↦ (t, no_such_container id)
  | some idx ↦ stop_found kill_error id idx (get_elem? t idx) t
]

abbrev pub is_live_slot : Container → Bool
is_live_slot c = c.used && is_live_state c.state

abbrev pub stop_if_live : Container → Container
stop_if_live c = if is_live_slot c then request_stop c else c

-- The table afterwards, and the pids that `kill` is given, in order.
unfoldable pub stop_all_live_containers : Table → Table × List ℤ
stop_all_live_containers [] = ([], [])
stop_all_live_containers (c ∷ cs) =
    let (rest, pids) = stop_all_live_containers cs in
    if is_live_slot c then (request_stop c ∷ rest, c.pid ∷ pids) else (c ∷ rest, pids)
