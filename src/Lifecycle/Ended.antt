-- ===== src/Lifecycle/Ended.antt =====
-- A container that has ended keeps its slot: no operation of the supervisor frees it.
use os_jackfruit.Prelude.{
  get_elem?-lt, length, ◌∙◌, ℕ, ◌<◌, true, false, Option, some, ℤ, pos, get_elem?, arith, ◌≡◌, ◌≢◌,
  inl, inr, ◌==◌, refl, CString, Option-cases, Bool-cases,
}
use os_jackfruit.Protocol.{Request}
use os_jackfruit.Containers.{
  max_containers, find_free_container_slot_locked, Container, Table, update_slot, is_live_state,
  find_slot,
}
use os_jackfruit.Containers.Slots.{
  find_slot-some, get_elem?-update_slot, live_states, get_elem?-map,
}
use os_jackfruit.Start.{
  World, free_slot, commit, reserve, fill_slot, start_container_internal, StartAnswers,
}
use os_jackfruit.Start.Reserve.{id_is_new, reserve-reserved, reserve-refused}
use os_jackfruit.Start.Outcome.{Reservation-cases, start_succeeds_when}
use os_jackfruit.Lifecycle.{
  not, DeviceAnswer, WaitStatus, exited_with, signaled, other, reap_slot, has_pid, request_stop,
  stop_if_live, reap, stop_container_by_id, stop_all_live_containers,
}
use os_jackfruit.Lifecycle.Changes.{stop-table, stop_all-map}
use os_jackfruit.Lifecycle.Steps.{
  Run-trans, Run-Inv, initial, Step, reserves, gives_up, commits, registers, reaps, stops,
  stops_all, monitors, Run, here, next,
}

-- A used slot whose container has ended.
abbrev pub IsEnded : Container → Type 0
IsEnded c = (c.used ≡ true) × (is_live_state c.state ≡ false)

-- The slot holds an ended container with this id.
pub record EndedAt (t : Table) (i : ℕ) (id : CString) : Type 0 where
  pub slot : Container
  pub there : get_elem? t i ≡ some slot
  pub ended : IsEnded slot
  pub same_id : slot.id ≡ id

pub reap_slot-ended :
    (status : WaitStatus) (c : Container)
    → ((reap_slot status c).used ≡ c.used)
      × ((reap_slot status c).id ≡ c.id)
      × (is_live_state (reap_slot status c).state ≡ false)
unfolding reap_slot
reap_slot-ended (exited_with code) c = ground (arith, live_states)
reap_slot-ended (signaled sig) c = ground (arith, live_states)
reap_slot-ended other c = ground (arith, live_states)

update_slot-EndedAt :
    (t : Table) (idx : ℕ) (f : Container → Container) (i : ℕ) (id : CString)
    → ((c : Container) → get_elem? t idx ≡ some c → IsEnded c → IsEnded (f c) × ((f c).id ≡ c.id))
    → EndedAt t i id
    → EndedAt (update_slot t idx f) i id
update_slot-EndedAt t idx f i id keeps e = elim (Bool-cases (idx == i)) [
  | inl here_it ↦
      let kept = keeps e.slot (ground arith) e.ended in
      record {
        slot = f e.slot;
        there = ground (arith, get_elem?-update_slot t idx i f);
        ended = kept.0;
        same_id = kept.1 ∙ e.same_id;
      }
  | inr elsewhere ↦ record {
    slot = e.slot;
    there = ground (arith, get_elem?-update_slot t idx i f);
    ended = e.ended;
    same_id = e.same_id;
  }
]

reserve-EndedAt :
    (now : ℕ) (req : Request) (t : Table) (i : ℕ) (id : CString)
    → EndedAt t i id
    → EndedAt (reserve now req t).0 i id
reserve-EndedAt now req t i id e = elim (Reservation-cases (reserve now req t).1) [
  | inl (text, r) ↦ rw (reserve-refused now req t text r) e
  | inr (idx, r) ↦
      let took = reserve-reserved now req t idx r in
      rw (took.left) (
        update_slot-EndedAt t idx (fill_slot now req) i id
          (λ c got en. absurd (ground (arith, took))) e)
]

reap-EndedAt :
    (a : DeviceAnswer) (pid : ℤ) (status : WaitStatus) (w : World) (i : ℕ) (id : CString)
    → EndedAt w.table i id
    → EndedAt (reap a pid status w).table i id
unfolding reap
reap-EndedAt a pid status w i id e = elim (Option-cases (find_slot (has_pid pid) w.table)) [
  | inl none_found ↦ rw (none_found, reap) e
  | inr (k, found) ↦
      rw (found, reap)
        (update_slot-EndedAt w.table k (reap_slot status) i id
          (λ c _ en. let r = reap_slot-ended status c in ((r.0 ∙ en.0, r.2), r.1)) e)
]

stop-EndedAt :
    (kill_error : Option CString) (name : CString) (t : Table) (i : ℕ) (id : CString)
    → EndedAt t i id
    → EndedAt (stop_container_by_id kill_error name t).0 i id
stop-EndedAt kill_error name t i id e = elim (stop-table kill_error name t) [
  | inl same ↦ rw same e
  | inr (idx, flagged) ↦
      rw flagged (update_slot-EndedAt t idx request_stop i id (λ c _ en. (en, refl)) e)
]

stop_all-EndedAt :
    (t : Table) (i : ℕ) (id : CString)
    → EndedAt t i id
    → EndedAt (stop_all_live_containers t).0 i id
stop_all-EndedAt t i id e = rw stop_all-map record {
  slot = stop_if_live e.slot;
  there = ground (arith, get_elem?-map stop_if_live t i);
  ended = ground arith;
  same_id = ground arith;
}

-- A slot whose container has ended holds an ended container with the same id after any step.
Step-EndedAt :
    {w u : World} → Step w u → (i : ℕ) (id : CString) → EndedAt w.table i id → EndedAt u.table i id
Step-EndedAt {w} (reserves now req f) i id e = reserve-EndedAt now req w.table i id e
Step-EndedAt {w} (gives_up idx c at u s) i id e =
    update_slot-EndedAt w.table idx free_slot i id
      (λ x got en. absurd (ground (arith, live_states))) e
Step-EndedAt {w} (commits idx pid stack c at u s p) i id e =
    update_slot-EndedAt w.table idx (commit pid stack) i id
      (λ x got en. absurd (ground (arith, live_states))) e
Step-EndedAt (registers a pid soft hard) i id e = e
Step-EndedAt {w} (reaps a pid status) i id e = reap-EndedAt a pid status w i id e
Step-EndedAt {w} (stops kill_error name) i id e = stop-EndedAt kill_error name w.table i id e
Step-EndedAt {w} stops_all i id e = stop_all-EndedAt w.table i id e
Step-EndedAt (monitors page_size probe) i id e = e

-- Once a container has ended, its slot and its id stay taken, however the supervisor goes on.
Run-EndedAt :
    {w u : World} → Run w u → (i : ℕ) (id : CString) → EndedAt w.table i id → EndedAt u.table i id
Run-EndedAt here i id e = e
Run-EndedAt (next r s) i id e = Step-EndedAt s i id (Run-EndedAt r i id e)

-- So its id can never be started again: whatever the supervisor does from a world in which a slot
-- holds an ended container, a start with that container's id fails.
pub ended_id_refused :
    {w u : World} (r : Run w u) (i : ℕ) (a : StartAnswers) (req : Request)
    → EndedAt w.table i req.id
    → (start_container_internal a req u).1.code ≢ pos 0
ended_id_refused {u = u} r i a req e h =
    let after = Run-EndedAt r i req.id e in
    id_is_new req.id u.table ((start_succeeds_when a req u).0 h).0 i after.slot after.there
      after.ended.0 after.same_id

-- And no start at all succeeds any more in a supervisor whose ten slots have come to hold
-- containers that ended, however it goes on from there.
pub ended_table_refuses :
    {w u : World} (before : Run initial w) (r : Run w u) (ids : ℕ → CString) (a : StartAnswers)
    (req : Request)
    → ((i : ℕ) → i < max_containers → EndedAt w.table i (ids i))
    → (start_container_internal a req u).1.code ≢ pos 0
unfolding find_free_container_slot_locked
ended_table_refuses {u = u} before r ids a req all h =
    elim (Option-cases (find_slot (λ c. not c.used) u.table)) [
      | inl full ↦ ((start_succeeds_when a req u).0 h).2 full
      | inr (k, found) ↦
          let (c, got, free) = find_slot-some (λ c. not c.used) u.table k found in
          let size : length u.table ≡ max_containers =
            (Run-Inv (Run-trans before r)).table_inv.size in
          let e = Run-EndedAt r k (ids k) (all k (omega (arith, get_elem?-lt u.table k c got))) in
          let used = e.ended.0 in let there = e.there in absurd (ground arith)
    ]
