-- ===== src/Lifecycle/Moves.antt =====
-- The life of a container by its id: the moves that every interleaving takes it through.
use os_jackfruit.Prelude.{
  eq_ℤ_iff, ℕ, ◌≡◌, ◌∙◌, true, false, Option, some, ℤ, CString, str_eq, get_elem?, Option-cases,
  arith, refl, ap, inl, inr,
}
use os_jackfruit.Protocol.{Request, Fits}
use os_jackfruit.Monitor.{is_not_positive}
use os_jackfruit.Containers.{
  Container, Table, update_slot, find_slot, is_live_state, starting, running,
}
use os_jackfruit.Containers.Slots.{find_slot-some}
use os_jackfruit.Containers.Invariant
use os_jackfruit.Start.{World, fill_slot, commit, free_slot, reserve}
use os_jackfruit.Start.Outcome.{Reservation-cases}
use os_jackfruit.Start.Reserve.{id_is_new, fill_slot-id, reserve-reserved, reserve-refused}
use os_jackfruit.Lifecycle.{
  DeviceAnswer, has_pid, reap, reap_slot, WaitStatus, stop_container_by_id,
}
use os_jackfruit.Lifecycle.Changes.{stop-table}
use os_jackfruit.Lifecycle.Ended.{reap_slot-ended}
use os_jackfruit.Lifecycle.Steps.{
  Step, reserves, gives_up, commits, registers, reaps, stops, stops_all, monitors, Run, initial,
  Run-Inv,
}
use os_jackfruit.Lifecycle.Phases.{
  Phase, absent, booting, alive, over, phase_of, phase_of_state, phase, Moves, stays, begins, fails,
  runs, ends, Moves-same, phase-update, phase-new, phase-gone, phase-map, phase-flag,
}

-- What the reaper is told of is a process, not one of the numbers that are none.
abbrev pub IsReal : {w u : World} → Step w u → Type 0
IsReal (reserves now req f) = Unit
IsReal (gives_up idx c at u s) = Unit
IsReal (commits idx pid stack c at u s p) = Unit
IsReal (registers a pid soft hard) = Unit
IsReal (reaps a pid status) = is_not_positive pid ≡ false
IsReal (stops kill_error id) = Unit
IsReal stops_all = Unit
IsReal (monitors page_size probe) = Unit

move : {p q : Phase} (p' q' : Phase) → p ≡ p' → q ≡ q' → Moves p' q' → Moves p q
move p' q' e f m = rw (e, f) m

state_phases : (phase_of_state starting ≡ booting) × (phase_of_state running ≡ alive)
unfolding is_live_state str_eq
state_phases = (refl, refl)

starting-booting : (c : Container) → c.state ≡ starting → phase_of c ≡ booting
starting-booting c s = ap phase_of_state s ∙ state_phases.0

running-alive : (c : Container) → c.state ≡ running → phase_of c ≡ alive
running-alive c s = ap phase_of_state s ∙ state_phases.1

fill_slot-booting :
    (now : ℕ) (req : Request) (c : Container) → phase_of (fill_slot now req c) ≡ booting
unfolding fill_slot
fill_slot-booting now req c = starting-booting (fill_slot now req c) refl

commit-alive : (pid : ℤ) (stack : ℕ) (c : Container) → phase_of (commit pid stack c) ≡ alive
unfolding commit
commit-alive pid stack c = running-alive (commit pid stack c) refl

reserve-Moves :
    (now : ℕ) (req : Request) (t : Table) (id : CString)
    → Fits req
    → Moves (phase id t) (phase id (reserve now req t).0)
reserve-Moves now req t id f = elim (Reservation-cases (reserve now req t).1) [
  | inl (text, r) ↦ Moves-same _ _ (ap (phase id) (reserve-refused now req t text r))
  | inr (idx, r) ↦
      let took = reserve-reserved now req t idx r in
      let new =
        phase-new id t idx (fill_slot now req) took.slot took.there took.unused (λ j d g u e.
          id_is_new req.id t took.new_id j d g u (e ∙ fill_slot-id now req took.slot f)) in
      rw (took.left) (elim new [
        | inl same ↦ Moves-same _ _ same
        | inr (was, is) ↦ move absent booting was (is ∙ fill_slot-booting now req took.slot) begins
      ])
]

give_up-Moves :
    (t : Table) (idx : ℕ) (c : Container) (id : CString)
    → Invariant.Inv t
    → get_elem? t idx ≡ some c
    → c.used ≡ true
    → c.state ≡ starting
    → Moves (phase id t) (phase id (update_slot t idx free_slot))
give_up-Moves t idx c id v at u s =
    elim (phase-gone id t idx free_slot c at refl (λ j d g taken e. v.ids j idx d c g at taken u e)
      u) [
        | inl same ↦ Moves-same _ _ same
        | inr (was, is) ↦ move booting absent (was ∙ starting-booting c s) is fails
      ]

commit-Moves :
    (t : Table) (idx : ℕ) (pid : ℤ) (stack : ℕ) (c : Container) (id : CString)
    → get_elem? t idx ≡ some c
    → c.state ≡ starting
    → Moves (phase id t) (phase id (update_slot t idx (commit pid stack)))
unfolding commit
commit-Moves t idx pid stack c id at s =
    elim (phase-update id t idx (commit pid stack) c at refl refl) [
      | inl same ↦ Moves-same _ _ same
      | inr (u, was, is) ↦
          move booting alive (was ∙ starting-booting c s) (is ∙ commit-alive pid stack c) runs
    ]

-- A slot that the reaper's search finds belongs to a container that runs or has ended.
reaped-Moves :
    (t : Table) (k : ℕ) (pid : ℤ) (status : WaitStatus) (c : Container) (id : CString)
    → Invariant.SlotState c
    → is_not_positive pid ≡ false
    → c.pid ≡ pid
    → get_elem? t k ≡ some c
    → Moves (phase id t) (phase id (update_slot t k (reap_slot status)))
reaped-Moves t k pid status c id state positive same_pid at =
    let r = reap_slot-ended status c in
    elim (phase-update id t k (reap_slot status) c at r.0 r.1) [
      | inl same ↦ Moves-same _ _ same
      | inr (u, was, is) ↦ elim state [
        | inl (s, none_yet, _) ↦ absurd (ground arith)
        | inr (inl (s, _)) ↦
            move alive over (was ∙ running-alive c s) (is ∙ ended_over (reap_slot status c) r.2)
              ends
        | inr (inr done) ↦
            move over over (was ∙ ended_over c done) (is ∙ ended_over (reap_slot status c) r.2)
              stays
      ]
    ]
  where
    ended_over : (d : Container) → is_live_state d.state ≡ false → phase_of d ≡ over
    ended_over d e = ground arith

reap-Moves :
    (a : DeviceAnswer) (pid : ℤ) (status : WaitStatus) (w : World) (id : CString)
    → Invariant.Inv w.table
    → is_not_positive pid ≡ false
    → Moves (phase id w.table) (phase id (reap a pid status w).table)
unfolding reap
reap-Moves a pid status w id v positive = elim (Option-cases (find_slot (has_pid pid) w.table)) [
  | inl none_found ↦ rw (none_found, reap) stays
  | inr (k, found) ↦
      let (c, got, passes) = find_slot-some (has_pid pid) w.table k found in
      let used : c.used ≡ true = ground arith in
      let same_pid : c.pid ≡ pid = ground (arith, eq_ℤ_iff c.pid pid) in
      rw (found, reap)
        (reaped-Moves w.table k pid status c id (v.states k c got used) positive same_pid got)
]

stop-Moves :
    (kill_error : Option CString) (name : CString) (t : Table) (id : CString)
    → Moves (phase id t) (phase id (stop_container_by_id kill_error name t).0)
stop-Moves kill_error name t id = elim (stop-table kill_error name t) [
  | inl same ↦ rw same stays
  | inr (idx, flagged) ↦ rw flagged (Moves-same _ _ (phase-flag id t idx))
]

-- Every critical section of every thread, from a world that the supervisor can come to and with a
-- reaper that is told of real processes, takes the container of each id along one of these moves:
-- it stays in its phase, a start begins or fails, a start makes it run, or a running one ends.
-- In particular a start never begins for an id that has a container, none runs that was not
-- started, and nothing leads out of the end.
pub each_step-Moves :
    {w u : World} (r : Run initial w) (s : Step w u) (id : CString)
    → IsReal s
    → Moves (phase id w.table) (phase id u.table)
each_step-Moves {w} r (reserves now req f) id real = reserve-Moves now req w.table id f
each_step-Moves {w} r (gives_up idx c at u s) id real =
    give_up-Moves w.table idx c id (Run-Inv r).table_inv at u s
each_step-Moves {w} r (commits idx pid stack c at u s p) id real =
    commit-Moves w.table idx pid stack c id at s
each_step-Moves r (registers a pid soft hard) id real = stays
each_step-Moves {w} r (reaps a pid status) id real =
    reap-Moves a pid status w id (Run-Inv r).table_inv real
each_step-Moves {w} r (stops kill_error name) id real = stop-Moves kill_error name w.table id
each_step-Moves {w} r stops_all id real = Moves-same _ _ (phase-map id w.table)
each_step-Moves r (monitors page_size probe) id real = stays
