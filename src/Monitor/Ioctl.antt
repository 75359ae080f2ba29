-- ===== src/Monitor/Ioctl.antt =====
-- The ioctl handler: the invariant of the tracked list, what each command does to it as a map
-- from pids, and its return codes.
use os_jackfruit.Monitor.{
  MonitorEntry, MonitorRequest, Command, register_container, unregister_container, unknown,
  new_entry, is_not_positive, find_entry_locked, monitor_ioctl, einval, enomem, enoent,
}
use os_jackfruit.Monitor.Entries.{
  Distinct, All, find-append, find-update, find-remove_ne, find-remove_self, remove_code,
  remove-Absent, append-Distinct, update-Distinct, remove-Distinct, All-append, All-update,
  All-remove,
}
use os_jackfruit.Prelude.{
  ℤ, pos, eq_ℤ, eq_ℤ_iff, Bool, true, false, List, none, some, arith, ◌≡◌, ◌≢◌, ◌⊎◌, refl,
  if◌then◌else◌,
}

-- What REGISTER_CONTAINER makes sure of for each entry.
abbrev pub IsSane : MonitorEntry → Type 0
IsSane e = (is_not_positive e.pid ≡ false) × (e.hard_limit ≢ 0)

-- One entry for each pid, all of them with a positive pid and a hard limit.
pub record Inv (es : List MonitorEntry) : Type 0 where
  pub distinct : Distinct es
  pub sane : All IsSane es

-- Every command, failing ones included, keeps a tracked list free of duplicates, of pids below 1
-- and of zero hard limits.
pub ioctl-Inv :
    (kmalloc_ok : Bool) (c : Command) (es : List MonitorEntry)
    → Inv es
    → Inv (monitor_ioctl kmalloc_ok c es).0
unfolding monitor_ioctl
ioctl-Inv k (register_container none) es v = v
ioctl-Inv k (register_container (some req)) es v = ground (
  arith,
  append-Distinct es (new_entry req),
  update-Distinct req es,
  All-append IsSane es (new_entry req),
  All-update IsSane req es,
)
ioctl-Inv k (unregister_container none) es v = v
ioctl-Inv k (unregister_container (some pid)) es v = record {
  distinct = remove-Distinct pid es v.distinct;
  sane = All-remove IsSane pid es v.sane;
}
ioctl-Inv k unknown es v = v

-- A command that returns an error leaves the tracked list as it was.
pub ioctl_error_unchanged :
    (kmalloc_ok : Bool) (c : Command) (es : List MonitorEntry)
    → (monitor_ioctl kmalloc_ok c es).1 ≢ pos 0
    → (monitor_ioctl kmalloc_ok c es).0 ≡ es
unfolding monitor_ioctl
ioctl_error_unchanged k (register_container none) es h = refl
ioctl_error_unchanged k (register_container (some req)) es h = ground arith
ioctl_error_unchanged k (unregister_container none) es h = refl
ioctl_error_unchanged k (unregister_container (some pid)) es h =
    ground (arith, remove_code pid es, remove-Absent pid es)
ioctl_error_unchanged k unknown es h = refl

-- A registration with a positive pid and a non-zero hard limit, of a process that is tracked
-- already or for which memory is left, returns 0; afterwards that pid has the requested limits
-- and no warning yet, and every other pid has what it had.
pub register_tracks :
    (kmalloc_ok : Bool) (req : MonitorRequest) (es : List MonitorEntry) (pid : ℤ)
    → is_not_positive req.pid ≡ false
    → req.hard_limit ≢ 0
    → (kmalloc_ok ≡ true) ⊎ (find_entry_locked req.pid es ≢ none)
    → let (after, ret) = monitor_ioctl kmalloc_ok (register_container (some req)) es in
      (ret ≡ pos 0)
      × (find_entry_locked pid after
          ≡ (if eq_ℤ req.pid pid then some (new_entry req) else find_entry_locked pid es))
unfolding monitor_ioctl
register_tracks k req es pid p h m =
    ground (arith, find-append pid es (new_entry req), find-update pid req es, eq_ℤ_iff req.pid pid)

-- The code of a registration whose request could be read, on every branch.
register_codes :
    (kmalloc_ok : Bool) (req : MonitorRequest) (es : List MonitorEntry)
    → let ret = (monitor_ioctl kmalloc_ok (register_container (some req)) es).1 in
      ((ret ≡ einval) × ((is_not_positive req.pid ≡ true) ⊎ (req.hard_limit ≡ 0)))
      ⊎ ((ret ≡ enomem) × (find_entry_locked req.pid es ≡ none) × (kmalloc_ok ≡ false))
      ⊎ (ret ≡ pos 0)
unfolding monitor_ioctl
register_codes k req es = ground arith

-- In a list that tracks each pid once, unregistering a pid returns 0 if it was tracked and
-- -ENOENT if not; afterwards it is not tracked, and every other pid has what it had.
pub unregister_forgets :
    (kmalloc_ok : Bool) (pid other : ℤ) (es : List MonitorEntry)
    → Distinct es
    → other ≢ pid
    → let (after, ret) = monitor_ioctl kmalloc_ok (unregister_container (some pid)) es in
      (ret ≡ elim (find_entry_locked pid es) [ some _ ↦ pos 0 | none ↦ enoent ])
      × (find_entry_locked pid after ≡ none)
      × (find_entry_locked other after ≡ find_entry_locked other es)
unfolding monitor_ioctl
unregister_forgets k pid other es d h =
    (remove_code pid es, find-remove_self pid es d, find-remove_ne other pid es h)
