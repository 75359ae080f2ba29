-- ===== src/Samples.antt =====
-- Concrete requests, answers and worlds that the tests of several parts share: a container `alpha`
-- that starts, runs and ends.
use os_jackfruit.Prelude.{true, [], none, some, pos, codes, get_elem?, arith, ◌≡◌, refl}
use os_jackfruit.Protocol.{Request, Fits, req_start}
use os_jackfruit.Containers.{
  Container, empty_slot, update_slot, init_containers, find_slot, find_container_by_id_locked,
  find_free_container_slot_locked, rootfs_in_use_locked,
}
use os_jackfruit.KernelLink.{DeviceAnswer}
use os_jackfruit.Start.{World, StartAnswers, fill_slot, commit, reserve}
use os_jackfruit.Lifecycle.{reap, exited_with, reap_slot}
use os_jackfruit.Lifecycle.Steps.{Run, here, next, initial, reserves, commits, reaps}

abbrev pub alpha_request : Request
alpha_request = record {
  type = req_start;
  id = codes "alpha";
  rootfs = codes "./rootfs-alpha";
  command = codes "/bin/sh";
  soft_mib = pos 40;
  hard_mib = pos 64;
  nice_value = pos 0;
}

pub alpha_request-Fits : Fits alpha_request
alpha_request-Fits = record {
  id_fits = omega arith;
  rootfs_fits = omega arith;
  command_fits = omega arith;
}

abbrev pub working_device : DeviceAnswer
working_device = record { open_ok = true; kmalloc_ok = true }

-- The system grants every step; the child is process 77.
abbrev pub granted : StartAnswers
granted = record {
  now = 100;
  pipe = none;
  stack = some 4096;
  child_ok = true;
  clone = pos 77;
  clone_error = [];
  parg_ok = true;
  device = working_device;
}

abbrev pub alpha_starting : Container
alpha_starting = fill_slot 100 alpha_request empty_slot

abbrev pub starting_world : World
starting_world = record initial { table = (reserve 100 alpha_request initial.table).0 }

pub starting-Run : Run initial starting_world
starting-Run = next here (reserves 100 alpha_request alpha_request-Fits)

pub alpha_starting_at : get_elem? starting_world.table 0 ≡ some alpha_starting
unfolding reserve init_containers find_container_by_id_locked find_free_container_slot_locked
    rootfs_in_use_locked find_slot update_slot
alpha_starting_at = refl

abbrev pub alpha_running : Container
alpha_running = commit (pos 77) 4096 alpha_starting

abbrev pub running_world : World
running_world = record starting_world {
  table = update_slot starting_world.table 0 (commit (pos 77) 4096);
}

pub running-Run : Run initial running_world
unfolding fill_slot
running-Run =
    next starting-Run (commits 0 (pos 77) 4096 alpha_starting alpha_starting_at refl refl refl)

pub alpha_running_at : get_elem? running_world.table 0 ≡ some alpha_running
unfolding reserve init_containers find_container_by_id_locked find_free_container_slot_locked
    rootfs_in_use_locked find_slot update_slot
alpha_running_at = refl

abbrev pub alpha_ended : Container
alpha_ended = reap_slot (exited_with 3) alpha_running

abbrev pub ended_world : World
ended_world = reap working_device (pos 77) (exited_with 3) running_world

pub ended-Run : Run initial ended_world
ended-Run = next running-Run (reaps working_device (pos 77) (exited_with 3))

pub alpha_ended_at : get_elem? ended_world.table 0 ≡ some alpha_ended
unfolding reserve init_containers find_container_by_id_locked find_free_container_slot_locked
    rootfs_in_use_locked find_slot update_slot reap commit fill_slot
alpha_ended_at = refl
