-- ===== src/Daemon/Reaping.antt =====
-- What the reaper thread does to one container.
use os_jackfruit.Prelude.{
  CString, ==_iff, ◌≢◌, ℕ, ◌≡◌, ◌⊎◌, ◌∙◌, true, false, List, [], ◌∷◌, ◌++◌, some, ℤ, eq_ℤ, eq_ℤ_iff,
  if◌then◌else◌, get_elem?, Bool-cases, Option-cases, arith, refl, sym, ap, inl, inr,
}
use os_jackfruit.Containers.{Container, Table, stopped, update_slot, find_slot}
use os_jackfruit.Containers.Slots.{
  update_slot-cases, get_elem?-update_slot, find_slot-some, find_slot-none,
}
use os_jackfruit.KernelLink.{DeviceAnswer}
use os_jackfruit.Start.{World}
use os_jackfruit.Lifecycle.{WaitStatus, exited_with, signaled, other, reap, reap_slot, has_pid}
use os_jackfruit.Supervisor.{WaitResult, reaped, no_child, interrupted, other_error, reaper_main}

-- The reaper thread ends at an ECHILD that it meets after the end of the loop.
pub reaper_ends :
    (before later : List WaitResult) (w : World)
    → (reaper_main (before ++ no_child false ∷ later) w).1 ≡ true
unfolding reaper_main
reaper_ends [] later w = refl
reaper_ends (reaped pid status device ∷ before) later w =
    reaper_ends before later (reap device pid status w)
reaper_ends (no_child false ∷ before) later w = refl
reaper_ends (no_child true ∷ before) later w = reaper_ends before later w
reaper_ends (interrupted ∷ before) later w = reaper_ends before later w
reaper_ends (other_error ∷ before) later w = reaper_ends before later w

-- The reaper is told of this process before it ends.
abbrev pub Reported : ℤ → List WaitResult → Type 0
Reported pid [] = ⊥
Reported pid (reaped p status device ∷ waits) = (p ≡ pid) ⊎ Reported pid waits
Reported pid (no_child false ∷ waits) = ⊥
Reported pid (no_child true ∷ waits) = Reported pid waits
Reported pid (interrupted ∷ waits) = Reported pid waits
Reported pid (other_error ∷ waits) = Reported pid waits

-- No used slot but this one has the pid.
abbrev pub Only : Table → ℕ → ℤ → Type 0
Only t i pid =
    (k : ℕ) (c : Container) → get_elem? t k ≡ some c → c.used ≡ true → c.pid ≡ pid → k ≡ i

-- The slot holds a container with this pid that is to be stopped.
pub record Asked (t : Table) (i : ℕ) (pid : ℤ) : Type 0 where
  pub slot : Container
  pub there : get_elem? t i ≡ some slot
  pub used : slot.used ≡ true
  pub same_pid : slot.pid ≡ pid
  pub asked : slot.stop_requested ≡ true
  pub only : Only t i pid

reap_slot-keeps :
    (status : WaitStatus) (c : Container)
    → ((reap_slot status c).used ≡ c.used)
      × ((reap_slot status c).pid ≡ c.pid)
      × ((reap_slot status c).stop_requested ≡ c.stop_requested)
unfolding reap_slot
reap_slot-keeps (exited_with code) c = ground arith
reap_slot-keeps (signaled sig) c = ground arith
reap_slot-keeps other c = (refl, refl, refl)

reap_slot-stopped :
    (status : WaitStatus) (c : Container)
    → c.stop_requested ≡ true
    → (reap_slot status c).state ≡ stopped
unfolding reap_slot
reap_slot-stopped (exited_with code) c h = ground arith
reap_slot-stopped (signaled sig) c h = ground arith
reap_slot-stopped other c h = refl

update_slot-Only :
    (t : Table) (k i : ℕ) (pid : ℤ) (status : WaitStatus)
    → Only t i pid
    → Only (update_slot t k (reap_slot status)) i pid
update_slot-Only t k i pid status only j d at u same =
    elim (update_slot-cases t k (reap_slot status) j d at) [
      | inl (c, here, there, is_c) ↦
          only j c (rw here there)
            (sym (reap_slot-keeps status c).0 ∙ ap (λ x. x.used) (sym is_c) ∙ u)
            (sym (reap_slot-keeps status c).1 ∙ ap (λ x. x.pid) (sym is_c) ∙ same)
      | inr was ↦ only j d was u same
    ]

-- The slot after the reaper took a child: stopped if it was its own, unchanged otherwise.
record Reaped (t : Table) (i : ℕ) (pid p : ℤ) (before : Container) : Type 0 where
  after : Asked t i pid
  state : after.slot.state ≡ (if eq_ℤ p pid then stopped else before.state)

passes_lem : (p : ℤ) (c : Container) → has_pid p c ≡ true → (c.used ≡ true) × (c.pid ≡ p)
passes_lem p c h = ground (arith, eq_ℤ_iff c.pid p)

own-Reaped :
    (t : Table) (i : ℕ) (pid p : ℤ) (status : WaitStatus) (e : Asked t i pid)
    → eq_ℤ p pid ≡ true
    → Reaped (update_slot t i (reap_slot status)) i pid p e.slot
own-Reaped t i pid p status e own = record {
  after = record {
    slot = reap_slot status e.slot;
    there = ground (arith, get_elem?-update_slot t i i (reap_slot status), e.there);
    used = (reap_slot-keeps status e.slot).0 ∙ e.used;
    same_pid = (reap_slot-keeps status e.slot).1 ∙ e.same_pid;
    asked = (reap_slot-keeps status e.slot).2 ∙ e.asked;
    only = update_slot-Only t i i pid status e.only;
  };
  state = rw own (reap_slot-stopped status e.slot e.asked);
}

other-Reaped :
    (t : Table) (k i : ℕ) (pid p : ℤ) (status : WaitStatus) (e : Asked t i pid)
    → eq_ℤ p pid ≡ false
    → k ≢ i
    → Reaped (update_slot t k (reap_slot status)) i pid p e.slot
other-Reaped t k i pid p status e elsewhere ne = record {
  after = record {
    slot = e.slot;
    there = ground (arith, get_elem?-update_slot t k i (reap_slot status), e.there, ==_iff k i);
    used = e.used;
    same_pid = e.same_pid;
    asked = e.asked;
    only = update_slot-Only t k i pid status e.only;
  };
  state = rw elsewhere refl;
}

reap-Reaped :
    (a : DeviceAnswer) (p : ℤ) (status : WaitStatus) (w : World) (i : ℕ) (pid : ℤ)
    (e : Asked w.table i pid)
    → Reaped (reap a p status w).table i pid p e.slot
unfolding reap
reap-Reaped a p status w i pid e = elim (Option-cases (find_slot (has_pid p) w.table)) [
  | inl gone ↦
      let miss = find_slot-none (has_pid p) w.table i e.slot gone e.there in
      let other_pid : eq_ℤ p pid ≡ false =
        ground (arith, e.used, e.same_pid, eq_ℤ_iff e.slot.pid p, eq_ℤ_iff p pid) in
      rw (gone, reap) record { after = e; state = rw other_pid refl }
  | inr (k, found) ↦
      let (d, got, passes) = find_slot-some (has_pid p) w.table k found in
      let is_p = passes_lem p d passes in
      elim (Bool-cases (eq_ℤ p pid)) [
        | inl own ↦
            let here : k ≡ i = e.only k d got is_p.0 (is_p.1 ∙ (eq_ℤ_iff p pid).0 own) in
            rw (found, reap, here) (own-Reaped w.table i pid p status e own)
        | inr elsewhere ↦
            rw (found, reap)
              (other-Reaped w.table k i pid p status e elsewhere
                (λ at. ground (arith, e.there, e.same_pid, eq_ℤ_iff p pid)))
      ]
]

-- Its own child has been told of, or still will be.
still_told :
    (waits : List WaitResult) (p pid : ℤ) (before after : CString)
    → ((p ≡ pid) ⊎ Reported pid waits) ⊎ (before ≡ stopped)
    → after ≡ (if eq_ℤ p pid then stopped else before)
    → Reported pid waits ⊎ (after ≡ stopped)
still_told waits p pid before after (inl (inl own)) is = inr (is ∙ rw ((eq_ℤ_iff p pid).1 own))
still_told waits p pid before after (inl (inr told)) is = inl told
still_told waits p pid before after (inr done) is = inr (ground arith)

final_slot :
    (t : Table) (i : ℕ) (pid : ℤ) (e : Asked t i pid)
    → ⊥ ⊎ (e.slot.state ≡ stopped)
    → (d : Container) × (get_elem? t i ≡ some d) × (d.state ≡ stopped)
final_slot t i pid e (inl none_told) = absurd none_told
final_slot t i pid e (inr done) = (e.slot, e.there, done)

-- Over the whole life of the reaper thread.
pub reaper-Asked :
    (waits : List WaitResult) (w : World) (i : ℕ) (pid : ℤ) (e : Asked w.table i pid)
    → Reported pid waits ⊎ (e.slot.state ≡ stopped)
    → (d : Container) × (get_elem? (reaper_main waits w).0.table i ≡ some d) × (d.state ≡ stopped)
unfolding reaper_main
reaper-Asked [] w i pid e h = final_slot w.table i pid e h
reaper-Asked (reaped p status device ∷ waits) w i pid e h =
    let r = reap-Reaped device p status w i pid e in
    reaper-Asked waits (reap device p status w) i pid r.after
      (still_told waits p pid e.slot.state r.after.slot.state h r.state)
reaper-Asked (no_child false ∷ waits) w i pid e h = final_slot w.table i pid e h
reaper-Asked (no_child true ∷ waits) w i pid e h = reaper-Asked waits w i pid e h
reaper-Asked (interrupted ∷ waits) w i pid e h = reaper-Asked waits w i pid e h
reaper-Asked (other_error ∷ waits) w i pid e h = reaper-Asked waits w i pid e h
