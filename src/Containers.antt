-- ===== src/Containers.antt =====
-- The container table of engine.c (`containers`, under `containers_mutex`): its slots, the states
-- of a container as the texts that the program stores, and the searches over the table.
pub mod Slots
pub mod Invariant
mod Tests
use mathlib.Core.Option
use os_jackfruit.Prelude.{
  ℕ, zero, suc, Bool, true, false, not, ◌&&◌, ◌||◌, List, [], ◌∷◌, Option, none, some, ℤ, pos,
  minus_one, CString, codes, str_eq, if◌then◌else◌, replicate,
}
use os_jackfruit.Protocol.{safe_strcpy, max_state_len}

abbrev pub max_containers : ℕ
max_containers = 10

-- The texts of `state`.
abbrev pub starting : CString
starting = codes "STARTING"

abbrev pub running : CString
running = codes "RUNNING"

abbrev pub stopped : CString
stopped = codes "STOPPED"

abbrev pub exited : CString
exited = codes "EXITED"

abbrev pub killed : CString
killed = codes "KILLED"

-- `container_t` without its thread and condition variable. `child_stack` is the block that the
-- slot owns.
pub record Container : Type 0 where
  pub used : Bool
  pub id : CString
  pub pid : ℤ
  pub state : CString
  pub rootfs : CString
  pub command : CString
  pub log_file : CString
  pub soft_mib : ℤ
  pub hard_mib : ℤ
  pub nice_value : ℤ
  pub exit_code : ℤ
  pub stop_requested : Bool
  pub start_time : ℕ
  pub child_stack : Option ℕ

abbrev pub Table : Type 0
Table = List Container

-- A slot as `memset` leaves it.
abbrev pub empty_slot : Container
empty_slot = record {
  used = false;
  id = [];
  pid = pos 0;
  state = [];
  rootfs = [];
  command = [];
  log_file = [];
  soft_mib = pos 0;
  hard_mib = pos 0;
  nice_value = pos 0;
  exit_code = pos 0;
  stop_requested = false;
  start_time = 0;
  child_stack = none;
}

unfoldable pub init_containers : Table
init_containers = replicate max_containers empty_slot

unfoldable pub is_live_state : CString → Bool
is_live_state state = str_eq state starting || str_eq state running

-- The assignment of a state text, which fits its array.
unfoldable pub set_state : CString → Container → Container
unfolding safe_strcpy
set_state text c = record c { state = safe_strcpy c.state (some text) max_state_len }

-- The loops that return the first index at which a test holds; `none` is their -1.
unfoldable pub find_slot : (Container → Bool) → Table → Option ℕ
find_slot test [] = none
find_slot test (c ∷ cs) = if test c then some 0 else Option.map suc (find_slot test cs)

unfoldable pub find_free_container_slot_locked : Table → Option ℕ
find_free_container_slot_locked = find_slot (λ c. not c.used)

unfoldable pub find_container_by_id_locked : CString → Table → Option ℕ
find_container_by_id_locked id = find_slot (λ c. c.used && str_eq c.id id)

-- The condition in the loop of `rootfs_in_use_locked`.
abbrev pub uses_rootfs : CString → Container → Bool
uses_rootfs rootfs c = c.used && (is_live_state c.state && str_eq c.rootfs rootfs)

unfoldable pub rootfs_in_use_locked : CString → Table → Bool
rootfs_in_use_locked rootfs t = elim (find_slot (uses_rootfs rootfs) t) [
  | some _ ↦ true
  | none ↦ false
]

-- The writes to `containers[i]`.
unfoldable pub update_slot : Table → ℕ → (Container → Container) → Table
update_slot [] i f = []
update_slot (c ∷ cs) zero f = f c ∷ cs
update_slot (c ∷ cs) (suc i) f = c ∷ update_slot cs i f
