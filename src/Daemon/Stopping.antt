-- ===== src/Daemon/Stopping.antt =====
-- What stopping all containers does to one of them.
use os_jackfruit.Prelude.{
  zero, suc, suc, ℕ, ◌<◌, ◌≡◌, ◌∙◌, true, [], ◌∷◌, some, ℤ, eq_ℤ_iff, get_elem?, Option-cases,
  arith, refl, sym, ap, inl, inr,
}
use os_jackfruit.Containers.{Container, Table, is_live_state}
use os_jackfruit.Containers.Slots.{get_elem?-map}
use os_jackfruit.Lifecycle.{stop_if_live, request_stop, stop_all_live_containers}
use os_jackfruit.Lifecycle.Changes.{stop_all-map}
use os_jackfruit.Daemon.Connections.{count_fd}
use os_jackfruit.Daemon.Reaping.{Asked, Only}

stop_if_live-keeps :
    (c : Container) → ((stop_if_live c).used ≡ c.used) × ((stop_if_live c).pid ≡ c.pid)
stop_if_live-keeps c = ground arith

stop_all-Only :
    (t : Table) (i : ℕ) (pid : ℤ) → Only t i pid → Only (stop_all_live_containers t).0 i pid
stop_all-Only t i pid only k c at u same = elim (Option-cases (get_elem? t k)) [
  | inl gone ↦ absurd (ground (arith, stop_all-map t, get_elem?-map stop_if_live t k))
  | inr (d, was) ↦
      let is : stop_if_live d ≡ c =
        ground (arith, stop_all-map t, get_elem?-map stop_if_live t k) in
      only k d was (sym (stop_if_live-keeps d).0 ∙ ap (λ x. x.used) is ∙ u)
        (sym (stop_if_live-keeps d).1 ∙ ap (λ x. x.pid) is ∙ same)
]

pub stop_all-Asked :
    (t : Table) (i : ℕ) (c : Container)
    → get_elem? t i ≡ some c
    → c.used ≡ true
    → is_live_state c.state ≡ true
    → Only t i c.pid
    → Asked (stop_all_live_containers t).0 i c.pid
stop_all-Asked t i c at u live only = record {
  slot = request_stop c;
  there = ground (arith, stop_all-map t, get_elem?-map stop_if_live t i);
  used = u;
  same_pid = refl;
  asked = refl;
  only = stop_all-Only t i c.pid only;
}

-- Every live container is sent SIGTERM.
pub stop_all_signals :
    (t : Table) (i : ℕ) (c : Container)
    → get_elem? t i ≡ some c
    → c.used ≡ true
    → is_live_state c.state ≡ true
    → 0 < count_fd c.pid (stop_all_live_containers t).1
unfolding stop_all_live_containers
stop_all_signals [] i c at u live = absurd cc
stop_all_signals (x ∷ t) zero c at u live = ground (arith, eq_ℤ_iff x.pid c.pid)
stop_all_signals (x ∷ t) (suc i) c at u live = ground (arith, stop_all_signals t i c at u live)
