-- ===== src/Lifecycle/Lost.antt =====
-- A container whose end the reaper was told of too early: nothing ends it any more.
use os_jackfruit.Prelude.{
  ℕ, ◌≡◌, ◌≢◌, ◌∙◌, true, false, Option, some, ℤ, CString, get_elem?, ◌==◌, ==_iff, eq_ℤ_iff,
  Option-cases, Bool-cases, arith, refl, sym, inl, inr,
}
use os_jackfruit.Protocol.{Request}
use os_jackfruit.Containers.{Container, Table, update_slot, find_slot, starting, running}
use os_jackfruit.Containers.Slots.{
  find_slot-some, get_elem?-update_slot, get_elem?-map, live_states,
}
use os_jackfruit.Containers.Invariant
use os_jackfruit.Monitor.{is_not_positive}
use os_jackfruit.KernelLink.{DeviceAnswer}
use os_jackfruit.Start.{World, fill_slot, commit, free_slot, reserve}
use os_jackfruit.Start.Outcome.{Reservation-cases}
use os_jackfruit.Start.Reserve.{reserve-reserved, reserve-refused}
use os_jackfruit.Lifecycle.{
  WaitStatus, reap, reap_slot, has_pid, request_stop, stop_if_live, stop_container_by_id,
  stop_all_live_containers,
}
use os_jackfruit.Lifecycle.Changes.{stop-table, stop_all-map}
use os_jackfruit.Lifecycle.Steps.{
  Step, reserves, gives_up, commits, registers, reaps, stops, stops_all, monitors, Run, here, next,
}

-- A used slot in state RUNNING with this pid.
abbrev pub Runs : ℤ → Container → Type 0
Runs pid c = (c.used ≡ true) × (c.state ≡ running) × (c.pid ≡ pid)

pub record RunsAt (t : Table) (i : ℕ) (pid : ℤ) : Type 0 where
  pub slot : Container
  pub there : get_elem? t i ≡ some slot
  pub runs : Runs pid slot

-- The reaper is not told of this pid.
abbrev pub Spares : ℤ → {w u : World} → Step w u → Type 0
Spares pid (reserves now req f) = Unit
Spares pid (gives_up idx c at u s) = Unit
Spares pid (commits idx p stack c at u s q) = Unit
Spares pid (registers a p soft hard) = Unit
Spares pid (reaps a p status) = p ≢ pid
Spares pid (stops kill_error id) = Unit
Spares pid stops_all = Unit
Spares pid (monitors page_size probe) = Unit

abbrev pub AllSpare : ℤ → {w u : World} → Run w u → Type 0
AllSpare pid here = Unit
AllSpare pid (next r s) = AllSpare pid r × Spares pid s

starting_ne_running : starting ≢ running
starting_ne_running e = absurd cc

update_slot-RunsAt :
    (t : Table) (idx : ℕ) (f : Container → Container) (i : ℕ) (pid : ℤ)
    → ((c : Container) → get_elem? t idx ≡ some c → Runs pid c → Runs pid (f c))
    → RunsAt t i pid
    → RunsAt (update_slot t idx f) i pid
update_slot-RunsAt t idx f i pid keeps e = elim (Bool-cases (idx == i)) [
  | inl same ↦ record {
    slot = f e.slot;
    there = ground (arith, get_elem?-update_slot t idx i f, e.there);
    runs = keeps e.slot (ground (arith, e.there)) e.runs;
  }
  | inr elsewhere ↦ record {
    slot = e.slot;
    there = ground (arith, get_elem?-update_slot t idx i f, e.there);
    runs = e.runs;
  }
]

reserve-RunsAt :
    (now : ℕ) (req : Request) (t : Table) (i : ℕ) (pid : ℤ)
    → RunsAt t i pid
    → RunsAt (reserve now req t).0 i pid
reserve-RunsAt now req t i pid e = elim (Reservation-cases (reserve now req t).1) [
  | inl (text, r) ↦ rw (reserve-refused now req t text r) e
  | inr (idx, r) ↦
      let took = reserve-reserved now req t idx r in
      rw (took.left) (
        update_slot-RunsAt t idx (fill_slot now req) i pid
          (λ c got runs. absurd (ground (arith, took))) e)
]

reap-RunsAt :
    (a : DeviceAnswer) (p : ℤ) (status : WaitStatus) (w : World) (i : ℕ) (pid : ℤ)
    → p ≢ pid
    → RunsAt w.table i pid
    → RunsAt (reap a p status w).table i pid
unfolding reap
reap-RunsAt a p status w i pid ne e = elim (Option-cases (find_slot (has_pid p) w.table)) [
  | inl none_found ↦ rw (none_found, reap) e
  | inr (k, found) ↦
      let (d, got, passes) = find_slot-some (has_pid p) w.table k found in
      rw (found, reap)
        (update_slot-RunsAt w.table k (reap_slot status) i pid
          (λ c at runs. absurd (ground (arith, eq_ℤ_iff d.pid p))) e)
]

stop-RunsAt :
    (kill_error : Option CString) (name : CString) (t : Table) (i : ℕ) (pid : ℤ)
    → RunsAt t i pid
    → RunsAt (stop_container_by_id kill_error name t).0 i pid
stop-RunsAt kill_error name t i pid e = elim (stop-table kill_error name t) [
  | inl same ↦ rw same e
  | inr (idx, flagged) ↦
      rw flagged (update_slot-RunsAt t idx request_stop i pid (λ c at runs. runs) e)
]

stop_all-RunsAt :
    (t : Table) (i : ℕ) (pid : ℤ) → RunsAt t i pid → RunsAt (stop_all_live_containers t).0 i pid
stop_all-RunsAt t i pid e = rw stop_all-map record {
  slot = stop_if_live e.slot;
  there = ground (arith, get_elem?-map stop_if_live t i, e.there);
  runs = ground (arith, e.runs);
}

Step-RunsAt :
    {w u : World} (s : Step w u) (i : ℕ) (pid : ℤ)
    → Spares pid s
    → RunsAt w.table i pid
    → RunsAt u.table i pid
Step-RunsAt {w} (reserves now req f) i pid spared e = reserve-RunsAt now req w.table i pid e
Step-RunsAt {w} (gives_up idx c at u s) i pid spared e =
    update_slot-RunsAt w.table idx free_slot i pid
      (λ x got runs. absurd (starting_ne_running (ground arith))) e
Step-RunsAt {w} (commits idx p stack c at u s q) i pid spared e =
    update_slot-RunsAt w.table idx (commit p stack) i pid
      (λ x got runs. absurd (starting_ne_running (ground arith))) e
Step-RunsAt (registers a p soft hard) i pid spared e = e
Step-RunsAt {w} (reaps a p status) i pid spared e = reap-RunsAt a p status w i pid spared e
Step-RunsAt {w} (stops kill_error name) i pid spared e = stop-RunsAt kill_error name w.table i pid e
Step-RunsAt {w} stops_all i pid spared e = stop_all-RunsAt w.table i pid e
Step-RunsAt (monitors page_size probe) i pid spared e = e

Run-RunsAt :
    {w u : World} (r : Run w u) (i : ℕ) (pid : ℤ)
    → AllSpare pid r
    → RunsAt w.table i pid
    → RunsAt u.table i pid
Run-RunsAt here i pid spared e = e
Run-RunsAt (next r s) i pid spared e = Step-RunsAt s i pid spared.1 (Run-RunsAt r i pid spared.0 e)

-- The slot of a container that is being started has no pid yet, so the reaper does not find it.
reap_too_early :
    (a : DeviceAnswer) (pid : ℤ) (status : WaitStatus) (w : World) (idx : ℕ) (c : Container)
    → Invariant.Inv w.table
    → get_elem? w.table idx ≡ some c
    → c.used ≡ true
    → c.state ≡ starting
    → is_not_positive pid ≡ false
    → ((k : ℕ) (d : Container)
        → k ≢ idx
        → get_elem? w.table k ≡ some d
        → d.used ≡ true
        → d.pid ≢ pid)
    → reap a pid status w ≡ w
unfolding reap
reap_too_early a pid status w idx c v at u s real other =
    elim (Option-cases (find_slot (has_pid pid) w.table)) [
      | inl gone ↦ rw (gone, reap) refl
      | inr (k, found) ↦
          let (d, got, passes) = find_slot-some (has_pid pid) w.table k found in
          let used : d.used ≡ true = ground arith in
          let same : d.pid ≡ pid = ground (arith, eq_ℤ_iff d.pid pid) in
          elim (Bool-cases (k == idx)) [
            | inr elsewhere ↦ absurd (other k d (λ e. ground (arith, ==_iff k idx)) got used same)
            | inl own ↦ elim (v.states idx c at u) [
              | inl (_, no_pid, _) ↦ absurd (ground (arith, ==_iff k idx))
              | inr (inl (runs, _)) ↦ absurd (starting_ne_running (sym s ∙ runs))
              | inr (inr ended) ↦ absurd (ground (arith, live_states))
            ]
          ]
    ]

-- A container that is being started, in a table within its invariant, and whose child ends before
-- its pid is stored, is lost: the reaper that is told of the child changes nothing, the start then
-- marks the container RUNNING with the pid of a process that is gone, and so it stays whatever the
-- supervisor does from then on, unless the reaper is told of the same pid once more. No other used
-- slot has that pid, which is positive.
pub early_exit_lost :
    (a : DeviceAnswer) (pid : ℤ) (status : WaitStatus) (stack : ℕ) (w : World) (idx : ℕ)
    (c : Container) {u : World}
    (r : Run
      (record (reap a pid status w) {
        table = update_slot (reap a pid status w).table idx (commit pid stack);
      })
      u)
    → Invariant.Inv w.table
    → get_elem? w.table idx ≡ some c
    → c.used ≡ true
    → c.state ≡ starting
    → is_not_positive pid ≡ false
    → ((k : ℕ) (d : Container)
        → k ≢ idx
        → get_elem? w.table k ≡ some d
        → d.used ≡ true
        → d.pid ≢ pid)
    → AllSpare pid r
    → (reap a pid status w ≡ w)
      × ((d : Container) × (get_elem? u.table idx ≡ some d)
          × (d.used ≡ true)
          × (d.state ≡ running)
          × (d.pid ≡ pid))
unfolding commit
early_exit_lost a pid status stack w idx c r v at u s real other spared =
    let same = reap_too_early a pid status w idx c v at u s real other in
    let e = Run-RunsAt r idx pid spared record {
      slot = commit pid stack c;
      there = ground (
        arith,
        same,
        get_elem?-update_slot (reap a pid status w).table idx idx (commit pid stack),
        ==_iff idx idx,
      );
      runs = (u, refl, refl);
    } in
    (same, (e.slot, e.there, e.runs.0, e.runs.1, e.runs.2))
