-- ===== src/Containers/Tests.antt =====
-- Searches over small tables.
use os_jackfruit.Prelude.{refl, ◌≡◌, some, none, codes}
use os_jackfruit.Containers.{
  find_free_container_slot_locked, find_container_by_id_locked, find_slot, init_containers,
}

free_at_first : find_free_container_slot_locked init_containers ≡ some 0
unfolding find_free_container_slot_locked find_slot init_containers
free_at_first = refl

unknown_id : find_container_by_id_locked (codes "alpha") init_containers ≡ none
unfolding find_container_by_id_locked find_slot init_containers
unknown_id = refl
