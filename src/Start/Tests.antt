-- ===== src/Start/Tests.antt =====
-- Starts of the container `alpha`.
use os_jackfruit.Prelude.{true, none, some, pos, get_elem?, refl, ◌≡◌, ◌≢◌, ◌↔◌, arith}
use os_jackfruit.Containers.{
  find_slot, find_container_by_id_locked, find_free_container_slot_locked, rootfs_in_use_locked,
  init_containers,
}
use os_jackfruit.Start.{
  spawn, commit, fill_slot, StartAnswers, nothing_held, start_container_internal,
}
use os_jackfruit.Start.Resources.{spawn_no_leak, Leaves, all_granted}
use os_jackfruit.Start.Outcome.{start_succeeds_when}
use os_jackfruit.Start.Succeeds.{NewId, FreeRoot, HasSpace, start_succeeds_iff}
use os_jackfruit.Start.Effect.{Success, start-Success, start_failure}
use os_jackfruit.Lifecycle.Steps.{initial}
use os_jackfruit.Samples.{granted, alpha_request, alpha_request-Fits, alpha_running, running_world}

alpha_starts : (start_container_internal granted alpha_request initial).1.code ≡ pos 0
unfolding find_slot init_containers find_container_by_id_locked find_free_container_slot_locked
    rootfs_in_use_locked
alpha_starts = (start_succeeds_when granted alpha_request initial).1 (refl, refl, (λ e. cc), refl)

start-Success_example : Success granted alpha_request initial
start-Success_example = start-Success granted alpha_request initial alpha_request-Fits alpha_starts

start_succeeds_iff_example :
    ((start_container_internal granted alpha_request initial).1.code ≡ pos 0) ↔ (
      NewId alpha_request.id initial.table
      × FreeRoot alpha_request.rootfs initial.table
      × HasSpace initial.table
      × (all_granted granted ≡ true))
start_succeeds_iff_example = start_succeeds_iff granted alpha_request initial

-- No memory for the stack.
abbrev no_memory : StartAnswers
no_memory = record granted { stack = none }

no_memory_fails : (start_container_internal no_memory alpha_request running_world).1.code ≢ pos 0
no_memory_fails h =
    absurd (ground (arith, start_succeeds_when no_memory alpha_request running_world))

start_failure_example :
    ((start_container_internal no_memory alpha_request running_world).1.held ≡ nothing_held)
    × ((start_container_internal no_memory alpha_request running_world).1.index ≡ none)
    × ((start_container_internal no_memory alpha_request running_world).0.tracked
        ≡ running_world.tracked)
    × ((get_elem? (start_container_internal no_memory alpha_request running_world).0.table 0
          ≡ some alpha_running)
        ↔ (get_elem? running_world.table 0 ≡ some alpha_running))
unfolding commit fill_slot
start_failure_example =
    start_failure no_memory alpha_request running_world 0 alpha_running no_memory_fails refl

spawn_no_leak_example : Leaves no_memory (spawn no_memory)
spawn_no_leak_example = spawn_no_leak no_memory
