-- ===== src/Lifecycle/Gaps.antt =====
-- A result of the reaper that goes to a container that it does not belong to.
use os_jackfruit.Prelude.{
  pos, ==_iff, ℕ, zero, suc, ◌<◌, Bool, true, [], ◌∷◌, some, get_elem?, arith, ◌≡◌, ◌≢◌, inl, inr,
  refl, eq_ℤ_iff, Option-cases,
}
use os_jackfruit.Containers.{is_live_state, Container, Table, running, find_slot}
use os_jackfruit.Containers.Slots.{get_elem?-update_slot, find_slot-some, find_slot-none}
use os_jackfruit.KernelLink.{DeviceAnswer}
use os_jackfruit.Start.{World}
use os_jackfruit.Lifecycle.Ended.{reap_slot-ended}
use os_jackfruit.Lifecycle.{false, exited_with, reap_slot, has_pid, reap}

-- The search of the reaper stops at the first slot that passes.
find_slot-least :
    (test : Container → Bool) (t : Table) (i j : ℕ) (c : Container)
    → get_elem? t i ≡ some c
    → test c ≡ true
    → i < j
    → find_slot test t ≢ some j
unfolding find_slot
find_slot-least test [] i j c at h lt = λ e. cc
find_slot-least test (x ∷ xs) zero j c at h lt = λ e. ground arith
find_slot-least test (x ∷ xs) (suc i) zero c at h lt = λ e. absurd (omega arith)
find_slot-least test (x ∷ xs) (suc i) (suc j) c at h lt =
    λ e. ground (arith, find_slot-least test xs i j c at h)

-- When a pid comes back that a lower slot, the first one with it, still has from a container that
-- has ended, the end of the new container goes to the old one: its slot gets the exit code, and
-- the slot of the new container, which is RUNNING, is not changed.
pub reused_pid_missed :
    (a : DeviceAnswer) (code : ℕ) (w : World) (i j : ℕ) (c d : Container)
    → i < j
    → get_elem? w.table i ≡ some c
    → get_elem? w.table j ≡ some d
    → c.used ≡ true
    → is_live_state c.state ≡ false
    → d.state ≡ running
    → c.pid ≡ d.pid
    → ((k : ℕ) (e : Container)
        → k < i
        → get_elem? w.table k ≡ some e
        → e.used ≡ true
        → e.pid ≢ d.pid)
    → let after = (reap a d.pid (exited_with code) w).table in
      (get_elem? after j ≡ some d)
      × ((e : Container) × (get_elem? after i ≡ some e) × (e.id ≡ c.id) × (e.exit_code ≡ pos code))
unfolding reap reap_slot
reused_pid_missed a code w i j c d lt at_i at_j u done runs same first =
    elim (Option-cases (find_slot (has_pid d.pid) w.table)) [
      | inl gone ↦
          let miss = find_slot-none (has_pid d.pid) w.table i c gone at_i in
          absurd (ground (arith, eq_ℤ_iff c.pid d.pid))
      | inr (k, found) ↦
          let (x, got, passes) = find_slot-some (has_pid d.pid) w.table k found in
          let x_used : x.used ≡ true = ground arith in
          let x_pid : x.pid ≡ d.pid = ground (arith, eq_ℤ_iff x.pid d.pid) in
          let not_below : k < i → ⊥ = λ below. first k x below got x_used x_pid in
          let not_above : i < k → ⊥ = λ above.
            find_slot-least (has_pid d.pid) w.table i k c at_i
              (ground (arith, eq_ℤ_iff c.pid d.pid)) above found in
          let here : k ≡ i = omega (arith, not_below, not_above) in
          let f = reap_slot (exited_with code) in
          rw (found, reap, here)
            (
              ground (arith, get_elem?-update_slot w.table i j f, ==_iff i j),
              (
                f c,
                ground (arith, get_elem?-update_slot w.table i i f, ==_iff i i),
                (reap_slot-ended (exited_with code) c).1,
                refl,
              ),
            )
    ]
