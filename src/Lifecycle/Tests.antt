-- ===== src/Lifecycle/Tests.antt =====
-- The end of the container `alpha`, and of others.
use os_jackfruit.Prelude.{
  ℕ, replicate, str_eq, ap, sym, ◌∙◌, zero, suc, Option, CString, true, false, [], ◌∷◌, none, some,
  pos, minus_one, get_elem?, refl, ◌≡◌, ◌≢◌, ◌↔◌, arith,
}
use os_jackfruit.Containers.Invariant.{get_elem?-replicate}
use os_jackfruit.Containers.{
  is_live_state, empty_slot, init_containers, find_container_by_id_locked,
  find_free_container_slot_locked, rootfs_in_use_locked, find_slot, Container, update_slot, running,
}
use os_jackfruit.Monitor.{is_not_positive}
use os_jackfruit.Start.{reserve, World, fill_slot, commit}
use os_jackfruit.Start.Outcome.{Inv}
use os_jackfruit.Lifecycle.{
  exited_with, reap, reap_slot, request_stop, stop_container_by_id, record_status,
}
use os_jackfruit.Lifecycle.Steps.{here, next, stops, commits, Run-Inv}
use os_jackfruit.Lifecycle.Stop.{stop_running, stop_starting_broadcasts}
use os_jackfruit.Lifecycle.Phases.{phase, Moves}
use os_jackfruit.Lifecycle.Moves.{each_step-Moves}
use os_jackfruit.Lifecycle.Gaps.{reused_pid_missed}
use os_jackfruit.Lifecycle.Lost.{early_exit_lost}
use os_jackfruit.Samples.{
  alpha_request, working_device, alpha_starting, alpha_starting_at, alpha_running, alpha_running_at,
  alpha_ended, starting_world, starting-Run, running_world, running-Run, ended_world, ended-Run,
}

Run-Inv_example : Inv ended_world
Run-Inv_example = Run-Inv ended-Run

running-Inv : Inv running_world
running-Inv = Run-Inv running-Run

starting-Inv : Inv starting_world
starting-Inv = Run-Inv starting-Run

abbrev no_error : Option CString
no_error = none

stop_running_example :
    let (after, result) = stop_container_by_id none alpha_running.id running_world.table in
    (result.signalled ≡ some alpha_running.pid)
    × (is_not_positive alpha_running.pid ≡ false)
    × (get_elem? after 0 ≡ some (request_stop alpha_running))
    × ((result.code ≡ pos 0) ↔ (no_error ≡ none))
unfolding commit fill_slot
stop_running_example =
    stop_running none running_world.table 0 0 alpha_running running-Inv.table_inv alpha_running_at
      refl refl

stop_starting_broadcasts_example :
    (stop_container_by_id none alpha_starting.id starting_world.table).1.signalled ≡ some minus_one
unfolding fill_slot
stop_starting_broadcasts_example =
    stop_starting_broadcasts none starting_world.table 0 alpha_starting starting-Inv.table_inv
      alpha_starting_at refl refl

starting_table : starting_world.table ≡ alpha_starting ∷ replicate 9 empty_slot
unfolding reserve init_containers find_container_by_id_locked find_free_container_slot_locked
    rootfs_in_use_locked find_slot update_slot
starting_table = refl

not_77 :
    (k : ℕ) (d : Container)
    → k ≢ 0
    → get_elem? starting_world.table k ≡ some d
    → d.used ≡ true
    → d.pid ≢ pos 77
not_77 zero d ne got used same = ne refl
not_77 (suc k) d ne got used same =
    let tail : get_elem? (replicate 9 empty_slot) k ≡ some d =
      ap (λ t. get_elem? t (suc k)) (sym starting_table) ∙ got in
    absurd (ground (arith, get_elem?-replicate 9 k empty_slot d tail))

-- The child of `alpha` ends before its pid is stored; a stop request comes later.
abbrev reaped_early : World
reaped_early = reap working_device (pos 77) (exited_with 1) starting_world

abbrev lost_world : World
lost_world = record reaped_early { table = update_slot reaped_early.table 0 (commit (pos 77) 4096) }

abbrev after_stop : World
after_stop = record lost_world {
  table = (stop_container_by_id none alpha_request.id lost_world.table).0;
}

early_exit_lost_example :
    (reap working_device (pos 77) (exited_with 1) starting_world ≡ starting_world)
    × ((d : Container) × (get_elem? after_stop.table 0 ≡ some d)
        × (d.used ≡ true)
        × (d.state ≡ running)
        × (d.pid ≡ pos 77))
unfolding fill_slot
early_exit_lost_example =
    early_exit_lost working_device (pos 77) (exited_with 1) 4096 starting_world 0 alpha_starting
      {u = after_stop} (next here (stops none alpha_request.id)) starting-Inv.table_inv
      alpha_starting_at refl refl refl not_77 (tt, tt)

-- An ended `alpha` in slot 0, and a running container with the same pid in slot 1.
abbrev pid_reused : World
pid_reused = record { table = alpha_ended ∷ alpha_running ∷ []; tracked = [] }

reused_pid_missed_example :
    let after = (reap working_device alpha_running.pid (exited_with 7) pid_reused).table in
    (get_elem? after 1 ≡ some alpha_running)
    × ((e : Container) × (get_elem? after 0 ≡ some e)
        × (e.id ≡ alpha_ended.id)
        × (e.exit_code ≡ pos 7))
unfolding reap_slot record_status commit fill_slot is_live_state str_eq
reused_pid_missed_example =
    reused_pid_missed working_device 7 pid_reused 0 1 alpha_ended alpha_running (omega arith) refl
      refl refl refl refl refl (λ k e lt at u. absurd (omega arith))

-- The second critical section of the start of `alpha`.
each_step-Moves_example :
    Moves (phase alpha_request.id starting_world.table) (phase alpha_request.id running_world.table)
unfolding fill_slot
each_step-Moves_example =
    each_step-Moves starting-Run
      (commits 0 (pos 77) 4096 alpha_starting alpha_starting_at refl refl refl) alpha_request.id tt
