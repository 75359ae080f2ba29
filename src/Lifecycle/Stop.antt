-- ===== src/Lifecycle/Stop.antt =====
-- Which slot a request or a reaped process reaches, and which process a stop signals.
use os_jackfruit.Prelude.{
  ==_iff, ◌∙◌, ℕ, true, false, ◌&&◌, Option, none, some, pos, minus_one, if◌then◌else◌, get_elem?,
  arith, ◌≡◌, ◌≢◌, ◌↔◌, inl, inr, ◌==◌, refl, CString, str_eq, str_eq_iff, eq_ℤ_iff, Option-cases,
}
use os_jackfruit.Containers.{
  Container, Table, update_slot, is_live_state, running, starting, find_container_by_id_locked,
  find_slot,
}
use os_jackfruit.Containers.Slots.{
  get_elem?-update_slot, live_states, find_slot-some, find_slot-none,
}
use os_jackfruit.Containers.Invariant.{Inv}
use os_jackfruit.Monitor.{is_not_positive}
use os_jackfruit.KernelLink.{DeviceAnswer, unregister_container_from_kernel}
use os_jackfruit.Start.{World}
use os_jackfruit.Lifecycle.{
  WaitStatus, reap_slot, has_pid, request_stop, stop_slot, reap, stop_container_by_id,
}

-- The search for an id finds the one used slot that has it.
pub find_by_id_lem :
    (t : Table) (idx : ℕ) (c : Container)
    → Inv t
    → get_elem? t idx ≡ some c
    → c.used ≡ true
    → find_container_by_id_locked c.id t ≡ some idx
unfolding find_container_by_id_locked
find_by_id_lem t idx c v at u =
    elim (Option-cases (find_slot (λ x. x.used && str_eq x.id c.id) t)) [
      | inl gone ↦ absurd (
          ground (
            arith,
            find_slot-none (λ x. x.used && str_eq x.id c.id) t idx c gone at,
            str_eq_iff c.id c.id,
          ))
      | inr (k, found) ↦
          let (d, got, passes) = find_slot-some (λ x. x.used && str_eq x.id c.id) t k found in
          let used : d.used ≡ true = ground arith in
          let same : d.id ≡ c.id = ground (arith, str_eq_iff d.id c.id) in
          rw (← v.ids k idx d c got at used u same) found
    ]

-- What a stop of a live container does, its slot being known.
stop_live :
    (kill_error : Option CString) (t : Table) (idx : ℕ) (c : Container)
    → Inv t
    → get_elem? t idx ≡ some c
    → c.used ≡ true
    → is_live_state c.state ≡ true
    → let (after, result) = stop_container_by_id kill_error c.id t in
      (after ≡ update_slot t idx request_stop)
      × (result.signalled ≡ some c.pid)
      × ((result.code ≡ pos 0) ↔ (kill_error ≡ none))
unfolding stop_container_by_id stop_slot
stop_live kill_error t idx c v at u live =
    rw (find_by_id_lem t idx c v at u, stop_container_by_id, at) (ground arith)

starting_ne_running : starting ≢ running
starting_ne_running e = cc

-- In a table within its invariant, a stop request for a running container signals exactly its own
-- process, whose pid is positive; it marks that slot as stopped on request, leaves every other
-- slot alone, and succeeds exactly when the signal does.
pub stop_running :
    (kill_error : Option CString) (t : Table) (idx j : ℕ) (c : Container)
    → Inv t
    → get_elem? t idx ≡ some c
    → c.used ≡ true
    → c.state ≡ running
    → let (after, result) = stop_container_by_id kill_error c.id t in
      (result.signalled ≡ some c.pid)
      × (is_not_positive c.pid ≡ false)
      × (get_elem? after j ≡ (if idx == j then some (request_stop c) else get_elem? t j))
      × ((result.code ≡ pos 0) ↔ (kill_error ≡ none))
stop_running kill_error t idx j c v at u s =
    let live : is_live_state c.state ≡ true = rw s (live_states.1) in
    let done = stop_live kill_error t idx c v at u live in
    (
      done.1,
      ground (arith, v.states idx c at u, live_states),
      rw (done.0) (get_elem?-update_slot t idx j request_stop ∙ ground (arith, ==_iff idx j)),
      done.2,
    )

-- In a table within its invariant, a stop request that meets a container between the two critical
-- sections of its start signals the pid -1, which `kill` takes for every process that the caller
-- may signal.
pub stop_starting_broadcasts :
    (kill_error : Option CString) (t : Table) (idx : ℕ) (c : Container)
    → Inv t
    → get_elem? t idx ≡ some c
    → c.used ≡ true
    → c.state ≡ starting
    → (stop_container_by_id kill_error c.id t).1.signalled ≡ some minus_one
stop_starting_broadcasts kill_error t idx c v at u s =
    let live : is_live_state c.state ≡ true = rw s (live_states.0) in
    (stop_live kill_error t idx c v at u live).1
    ∙ ground (arith, v.states idx c at u, live_states, starting_ne_running)

-- A stop request for an unknown id, or for a container that has ended, fails, signals nobody and
-- changes nothing.
pub stop_refused :
    (kill_error : Option CString) (id : CString) (t : Table)
    → ((j : ℕ) (d : Container)
        → get_elem? t j ≡ some d
        → d.used ≡ true
        → d.id ≡ id
        → is_live_state d.state ≡ false)
    → let (after, result) = stop_container_by_id kill_error id t in
      (after ≡ t) × (result.signalled ≡ none) × (result.code ≡ minus_one)
unfolding stop_container_by_id stop_slot find_container_by_id_locked
stop_refused kill_error id t ended =
    elim (Option-cases (find_slot (λ x. x.used && str_eq x.id id) t)) [
      | inl gone ↦ rw (gone, find_container_by_id_locked, stop_container_by_id) (refl, refl, refl)
      | inr (k, found) ↦
          let (d, got, passes) = find_slot-some (λ x. x.used && str_eq x.id id) t k found in
          let dead = ended k d got (ground arith) (ground (arith, str_eq_iff d.id id)) in
          rw (found, stop_container_by_id, got, dead) (refl, refl, refl)
    ]

-- The end of a process whose pid only one used slot has is recorded in that slot, and nowhere
-- else; the kernel module is told to forget it.
pub reap_own :
    (a : DeviceAnswer) (status : WaitStatus) (w : World) (idx j : ℕ) (c : Container)
    → get_elem? w.table idx ≡ some c
    → c.used ≡ true
    → ((k : ℕ) (d : Container)
        → get_elem? w.table k ≡ some d
        → d.used ≡ true
        → d.pid ≡ c.pid
        → k ≡ idx)
    → let after = reap a c.pid status w in
      (get_elem? after.table j
        ≡ (if idx == j then some (reap_slot status c) else get_elem? w.table j))
      × (after.tracked ≡ (unregister_container_from_kernel a c.pid w.tracked).0)
unfolding reap
reap_own a status w idx j c at u only = elim (Option-cases (find_slot (has_pid c.pid) w.table)) [
  | inl gone ↦
      absurd
        (ground (arith, find_slot-none (has_pid c.pid) w.table idx c gone at, eq_ℤ_iff c.pid c.pid))
  | inr (k, found) ↦
      let (d, got, passes) = find_slot-some (has_pid c.pid) w.table k found in
      let same = only k d got (ground arith) (ground (arith, eq_ℤ_iff d.pid c.pid)) in
      rw (found, reap)
        (
          rw same (
              get_elem?-update_slot w.table idx j (reap_slot status)
              ∙ ground (arith, ==_iff idx j)),
          refl,
        )
]
