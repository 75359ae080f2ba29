-- ===== src/Lifecycle/Changes.antt =====
-- What each operation on a used slot may change, and that it keeps the table's invariant.
use os_jackfruit.Prelude.{
  ◌∙◌, Bool-cases, subst, ℕ, [], ◌∷◌, Option, ℤ, if◌then◌else◌, get_elem?, arith, ◌≡◌, ◌⊎◌, inl,
  inr, refl, CString, Option-cases,
}
use os_jackfruit.Containers.{
  Container, Table, find_slot, update_slot, is_live_state, find_container_by_id_locked,
}
use os_jackfruit.Containers.Slots.{get_elem?-map, length-map, live_states}
use os_jackfruit.Containers.Invariant.{
  Changes-refl, Inv, Change, Change-refl, Changes, Changes-Inv, update_slot-Changes,
}
use os_jackfruit.KernelLink.{DeviceAnswer}
use os_jackfruit.Start.{World}
use os_jackfruit.Lifecycle.{
  map, WaitStatus, stop_slot, stop_if_live, exited_with, signaled, other, reap_slot, reap,
  request_stop, stop_container_by_id, stop_all_live_containers, has_pid,
}

reap_slot-Change : (status : WaitStatus) (c : Container) → Change c (reap_slot status c)
unfolding reap_slot
reap_slot-Change (exited_with code) c = ground (arith, live_states)
reap_slot-Change (signaled sig) c = ground (arith, live_states)
reap_slot-Change other c = ground (arith, live_states)

request_stop-Change : (c : Container) → Change c (request_stop c)
request_stop-Change c = ground arith

-- A slot that the search for a pid finds changes by `reap_slot`; nothing else changes.
reap-Changes :
    (a : DeviceAnswer) (pid : ℤ) (status : WaitStatus) (w : World)
    → Changes w.table (reap a pid status w).table
unfolding reap
reap-Changes a pid status w = elim (Option-cases (find_slot (has_pid pid) w.table)) [
  | inl none_found ↦ rw (none_found, reap) (Changes-refl w.table)
  | inr (i, found) ↦
      rw (found, reap)
        (update_slot-Changes w.table i (reap_slot status) (λ c _. reap_slot-Change status c))
]

-- The reaper keeps the table's invariant, whatever process it is told of.
pub reap-Inv :
    (a : DeviceAnswer) (pid : ℤ) (status : WaitStatus) (w : World)
    → Inv w.table
    → Inv (reap a pid status w).table
reap-Inv a pid status w = Changes-Inv (reap-Changes a pid status w)

stop_slot-table :
    (kill_error : Option CString) (id : CString) (idx : ℕ) (c : Container) (t : Table)
    → (stop_slot kill_error id idx c t).0
      ≡ (if is_live_state c.state then update_slot t idx request_stop else t)
unfolding stop_slot
stop_slot-table kill_error id idx c t = ground arith

-- The table after a stop request: the flag is set in one slot, or nothing changes.
pub stop-table :
    (kill_error : Option CString) (id : CString) (t : Table)
    → ((stop_container_by_id kill_error id t).0 ≡ t)
      ⊎ ((idx : ℕ) × ((stop_container_by_id kill_error id t).0 ≡ update_slot t idx request_stop))
unfolding stop_container_by_id
stop-table kill_error id t = elim (Option-cases (find_container_by_id_locked id t)) [
  | inl none_found ↦ inl (rw (none_found, stop_container_by_id))
  | inr (idx, found) ↦ elim (Option-cases (get_elem? t idx)) [
    | inl none_there ↦ inl (rw (found, stop_container_by_id, none_there))
    | inr (c, there) ↦ elim (Bool-cases (is_live_state c.state)) [
      | inl live ↦ inr (
        idx,
        rw (found, stop_container_by_id, there) (stop_slot-table kill_error id idx c t ∙ rw live),
      )
      | inr ended ↦ inl (
          rw (found, stop_container_by_id, there)
            (stop_slot-table kill_error id idx c t ∙ rw ended))
    ]
  ]
]

stop-Changes :
    (kill_error : Option CString) (id : CString) (t : Table)
    → Changes t (stop_container_by_id kill_error id t).0
stop-Changes kill_error id t = elim (stop-table kill_error id t) [
  | inl same ↦ rw same (Changes-refl t)
  | inr (idx, flagged) ↦
      rw flagged (update_slot-Changes t idx request_stop (λ x _. request_stop-Change x))
]

-- A stop request keeps the table's invariant.
pub stop-Inv :
    (kill_error : Option CString) (id : CString) (t : Table)
    → Inv t
    → Inv (stop_container_by_id kill_error id t).0
stop-Inv kill_error id t = Changes-Inv (stop-Changes kill_error id t)

stop_if_live-Change : (c : Container) → Change c (stop_if_live c)
stop_if_live-Change c = ground (arith, Change-refl c, request_stop-Change c)

pub stop_all-map : (t : Table) → (stop_all_live_containers t).0 ≡ map stop_if_live t
unfolding stop_all_live_containers
stop_all-map [] = refl
stop_all-map (c ∷ cs) = ground (arith, stop_all-map cs)

map-Changes :
    (f : Container → Container) (t : Table)
    → ((c : Container) → Change c (f c))
    → Changes t (map f t)
map-Changes f t change = record {
  same_size = length-map t f;
  each = λ i d g. elim (Option-cases (get_elem? t i)) [
    | inl gone ↦ absurd (ground (arith, get_elem?-map f t i))
    | inr (c, at) ↦ (c, at, subst (Change c) (ground (arith, get_elem?-map f t i)) (change c))
  ];
}

stop_all-Changes : (t : Table) → Changes t (stop_all_live_containers t).0
stop_all-Changes t = rw stop_all-map (map-Changes stop_if_live t stop_if_live-Change)

-- So does the stop of all containers.
pub stop_all-Inv : (t : Table) → Inv t → Inv (stop_all_live_containers t).0
stop_all-Inv t = Changes-Inv (stop_all-Changes t)
