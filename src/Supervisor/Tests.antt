-- ===== src/Supervisor/Tests.antt =====
-- The container `alpha`: a `run` in which it exits with 3, and its end over the hard limit.
use os_jackfruit.Monitor.{
  MonitorEntry, Probe, resident, process_exists, find_entry_locked, monitor_round,
}
use os_jackfruit.Monitor.Scan.{about}
use os_jackfruit.Monitor.Limits.{kills}
use os_jackfruit.Supervisor.Enforcement.{over_limit_is_killed}
use os_jackfruit.Prelude.{
  arith, get_elem?, ℕ, ℤ, zero, suc, ◌≡◌, refl, true, false, [], ◌∷◌, some, none, pos, str_eq,
}
use os_jackfruit.Protocol.{Request, Response, req_run}
use os_jackfruit.Containers.{
  Container, killed, is_live_state, find_slot, init_containers, find_container_by_id_locked,
  find_free_container_slot_locked, rootfs_in_use_locked,
}
use os_jackfruit.Start.{
  fill_slot, World, commit, start_container_internal, reserve, finish_start, spawn,
}
use os_jackfruit.Lifecycle.{reap, signaled, sigkill, exited_with}
use os_jackfruit.Lifecycle.Steps.{Run, initial}
use os_jackfruit.Supervisor.{
  Surroundings, handle_request, reaper_main, reaped, no_child, interrupted,
}
use os_jackfruit.Supervisor.Run.{LiveIn, never, at_wake, run_reports_exit}
use os_jackfruit.Supervisor.Reaper.{reaper_main-Run}
use os_jackfruit.Samples.{
  granted, alpha_request, alpha_running, alpha_running_at, alpha_ended_at, running_world,
  ended_world, working_device,
}

abbrev alpha_run : Request
alpha_run = record alpha_request { type = req_run }

-- The client waits through one wake-up at which the container is still running.
abbrev surroundings : Surroundings
surroundings = record {
  start = granted;
  kill_error = none;
  files = λ path. none;
  format_time = λ t. [];
  seen = running_world.table ∷ ended_world.table ∷ [];
}

alpha_live : LiveIn 0 (running_world.table ∷ [])
unfolding commit is_live_state str_eq
alpha_live = at_wake alpha_running alpha_running_at refl never

alpha_index : (start_container_internal granted alpha_run initial).1.index ≡ some 0
unfolding start_container_internal reserve finish_start spawn init_containers find_slot
    find_container_by_id_locked find_free_container_slot_locked rootfs_in_use_locked
alpha_index = refl

alpha_code : (start_container_internal granted alpha_run initial).1.code ≡ pos 0
unfolding start_container_internal reserve finish_start spawn init_containers find_slot
    find_container_by_id_locked find_free_container_slot_locked rootfs_in_use_locked
alpha_code = refl

run_reports_exit_example :
    (r : Response) × ((handle_request surroundings alpha_run initial).1 ≡ some r)
    × (r.ok ≡ true)
    × (r.exit_code ≡ pos 3)
run_reports_exit_example =
    run_reports_exit surroundings alpha_run initial 0 (running_world.table ∷ []) []
      ended_world.table (exited_with 3) alpha_running refl alpha_code alpha_index refl alpha_live
      alpha_ended_at

reaper_main-Run_example :
    Run running_world
      (reaper_main
        (interrupted ∷ reaped (pos 77) (exited_with 3) working_device ∷ no_child false ∷ [])
        running_world).0
reaper_main-Run_example =
    reaper_main-Run
      (interrupted ∷ reaped (pos 77) (exited_with 3) working_device ∷ no_child false ∷ [])
      running_world

-- `alpha` alone, tracked with its limits; a round finds it with 100 MiB.
abbrev alpha_entry : MonitorEntry
alpha_entry = record { pid = pos 77; soft_limit = 40; hard_limit = 64; soft_warned = false }

abbrev tracked_world : World
tracked_world = record { table = alpha_running ∷ []; tracked = alpha_entry ∷ [] }

abbrev hungry : ℤ → Probe
hungry pid = record {
  at_exists = resident 25600;
  at_rss = resident 25600;
  at_kill = resident 25600;
}

alpha_only :
    (k : ℕ) (d : Container)
    → get_elem? tracked_world.table k ≡ some d
    → d.used ≡ true
    → d.pid ≡ alpha_running.pid
    → k ≡ 0
alpha_only zero d got used same = refl
alpha_only (suc k) d got used same = absurd cc

over_limit_is_killed_example :
    let (tracked, events) = monitor_round 4096 hungry tracked_world.tracked in
    let after =
      reap working_device alpha_running.pid
        (signaled sigkill)
        (record tracked_world { tracked = tracked }) in
    (kills (about alpha_running.pid events) ≡ 1)
    × ((d : Container) × (get_elem? after.table 0 ≡ some d)
        × (d.state ≡ killed)
        × (d.exit_code ≡ pos 137))
    × (find_entry_locked alpha_running.pid after.tracked ≡ none)
unfolding find_entry_locked process_exists commit fill_slot
over_limit_is_killed_example =
    over_limit_is_killed 4096 hungry working_device tracked_world 0 alpha_running alpha_entry 25600
      (refl, tt) refl refl refl alpha_only refl refl refl refl (omega arith) (omega arith) refl
