-- ===== src/Monitor.antt =====
-- The kernel module monitor.c: the list of tracked processes under `monitor_lock`, the ioctl
-- handler and one round of the monitor thread. What the kernel answers about processes, memory
-- and user pointers is an argument of each function.
pub mod Entries
pub mod Ioctl
pub mod Scan
pub mod Limits
pub mod Rounds
pub mod Spec
pub mod Unordered
pub mod Device
mod Tests
use os_jackfruit.Prelude.{
  ℕ, suc, ◌+◌, ◌*◌, ◌/◌, ◌%◌, ◌^◌, Bool, true, false, not, ◌&&◌, List, [], ◌∷◌, ◌++◌, Option, none,
  some, ◌==◌, ltb, if◌then◌else◌, ℤ, pos, negsuc, eq_ℤ,
}

-- monitor_ioctl.h
pub record MonitorRequest : Type 0 where
  pub pid : ℤ
  pub soft_limit : ℕ  -- unsigned long, MiB
  pub hard_limit : ℕ  -- unsigned long, MiB

-- `struct monitor_entry`; its links are the list's.
pub record MonitorEntry : Type 0 where
  pub pid : ℤ
  pub soft_limit : ℕ  -- unsigned long, MiB
  pub hard_limit : ℕ  -- unsigned long, MiB
  pub soft_warned : Bool

abbrev pub enoent : ℤ
enoent = negsuc 1

abbrev pub esrch : ℤ
esrch = negsuc 2

abbrev pub enomem : ℤ
enomem = negsuc 11

abbrev pub efault : ℤ
efault = negsuc 13

abbrev pub einval : ℤ
einval = negsuc 21

unfoldable pub find_entry_locked : ℤ → List MonitorEntry → Option MonitorEntry
find_entry_locked pid [] = none
find_entry_locked pid (e ∷ es) = if eq_ℤ e.pid pid then some e else find_entry_locked pid es

-- The list afterwards, and 0 or -ENOENT.
unfoldable pub remove_entry_locked : ℤ → List MonitorEntry → List MonitorEntry × ℤ
remove_entry_locked pid [] = ([], enoent)
remove_entry_locked pid (e ∷ es) =
    let (rest, ret) = remove_entry_locked pid es in
    if eq_ℤ e.pid pid then (es, pos 0) else (e ∷ rest, ret)

-- The writes through the pointer that `find_entry_locked` returned.
unfoldable pub update_entry : MonitorRequest → List MonitorEntry → List MonitorEntry
update_entry req [] = []
update_entry req (e ∷ es) =
    if eq_ℤ e.pid req.pid
    then record e { soft_limit = req.soft_limit; hard_limit = req.hard_limit; soft_warned = false }
      ∷ es
    else e ∷ update_entry req es

-- The entry that a registration of an unknown process allocates.
abbrev pub new_entry : MonitorRequest → MonitorEntry
new_entry req = record {
  pid = req.pid;
  soft_limit = req.soft_limit;
  hard_limit = req.hard_limit;
  soft_warned = false;
}

-- The command, with what `copy_from_user` reads; `none`: it faults.
pub data Command : Type 0 where
  register_container : Option MonitorRequest → Command
  unregister_container : Option ℤ → Command
  unknown : Command

-- pid <= 0
abbrev pub is_not_positive : ℤ → Bool
is_not_positive (pos n) = n == 0
is_not_positive (negsuc n) = true

-- REGISTER_CONTAINER, once its argument is copied; the flag says whether kmalloc succeeds.
unfoldable pub register : Bool → MonitorRequest → List MonitorEntry → List MonitorEntry × ℤ
register kmalloc_ok req es =
    if is_not_positive req.pid
    then (es, einval)
    else if req.hard_limit == 0
    then (es, einval)
    else elim (find_entry_locked req.pid es) [
      | some _ ↦ (update_entry req es, pos 0)
      | none ↦ if kmalloc_ok then (es ++ new_entry req ∷ [], pos 0) else (es, enomem)
    ]

-- The list afterwards, and what the call returns.
unfoldable pub monitor_ioctl : Bool → Command → List MonitorEntry → List MonitorEntry × ℤ
unfolding register
monitor_ioctl kmalloc_ok (register_container none) es = (es, efault)
monitor_ioctl kmalloc_ok (register_container (some req)) es = register kmalloc_ok req es
monitor_ioctl kmalloc_ok (unregister_container none) es = (es, efault)
monitor_ioctl kmalloc_ok (unregister_container (some pid)) es = remove_entry_locked pid es
monitor_ioctl kmalloc_ok unknown es = (es, einval)

-- What the kernel knows of a pid at one moment: no `struct pid`, no task behind it, a task with
-- no memory of its own, or a task with that many resident pages.
pub data Lookup : Type 0 where
  no_pid no_task no_mm : Lookup
  resident : ℕ → Lookup

unfoldable pub process_exists : Lookup → Bool
process_exists no_pid = false
process_exists no_task = false
process_exists no_mm = true
process_exists (resident pages) = true

-- The return code and `*rss_mib_out`, which the only caller passes; `unsigned long` wraps.
unfoldable pub get_process_rss_mib : ℕ → Lookup → ℤ × ℕ
get_process_rss_mib page_size no_pid = (esrch, 0)
get_process_rss_mib page_size no_task = (esrch, 0)
get_process_rss_mib page_size no_mm = (esrch, 0)
get_process_rss_mib page_size (resident pages) = (pos 0, pages * page_size % 2 ^ 64 / (1024 * 1024))

-- What a round of the monitor thread reports and does about one process.
pub data Event : Type 0 where
  removed_stale : ℤ → Event
  removed_failed : ℤ → Event
  soft_exceeded : ℤ → ℕ → ℕ → Event
  hard_exceeded : ℤ → ℕ → ℕ → Event
  sigkill_sent : ℤ → Event

-- SIGKILL goes to whatever `struct pid` is found.
unfoldable pub kill_process_by_pid : ℤ → Lookup → List Event
kill_process_by_pid pid no_pid = []
kill_process_by_pid pid no_task = sigkill_sent pid ∷ []
kill_process_by_pid pid no_mm = sigkill_sent pid ∷ []
kill_process_by_pid pid (resident pages) = sigkill_sent pid ∷ []

-- The three times at which a round looks a process up; it may exit in between.
pub record Probe : Type 0 where
  pub at_exists : Lookup
  pub at_rss : Lookup
  pub at_kill : Lookup

-- The checks against the limits, with the resident size known.
unfoldable pub check_limits : ℕ → Lookup → MonitorEntry → Option MonitorEntry × List Event
unfolding kill_process_by_pid
check_limits rss_mib at_kill e =
    let warns = not e.soft_warned && ltb e.soft_limit rss_mib in
    let kills = ltb e.hard_limit rss_mib in
    (
      some (if warns then record e { soft_warned = true } else e),
      (if warns then soft_exceeded e.pid rss_mib e.soft_limit ∷ [] else [])
          ++ (if kills
              then hard_exceeded e.pid rss_mib e.hard_limit ∷ kill_process_by_pid e.pid at_kill
              else []),
    )

-- The body of the loop of `monitor_thread_fn`; `none`: the entry is deleted.
unfoldable pub scan_entry : ℕ → Probe → MonitorEntry → Option MonitorEntry × List Event
unfolding process_exists get_process_rss_mib check_limits
scan_entry page_size probe e =
    if not (process_exists probe.at_exists)
    then (none, removed_stale e.pid ∷ [])
    else let (ret, rss_mib) = get_process_rss_mib page_size probe.at_rss in
      if not (eq_ℤ ret (pos 0))
      then (none, removed_failed e.pid ∷ [])
      else check_limits rss_mib probe.at_kill e

abbrev pub keep : Option MonitorEntry → List MonitorEntry → List MonitorEntry
keep none es = es
keep (some e) es = e ∷ es

-- One round of `monitor_thread_fn` under the lock: the list afterwards, and what it did, in order.
unfoldable pub monitor_round : ℕ → (ℤ → Probe) → List MonitorEntry → List MonitorEntry × List Event
monitor_round page_size probe [] = ([], [])
monitor_round page_size probe (e ∷ es) =
    let (kept, events) = scan_entry page_size (probe e.pid) e in
    let (rest, later) = monitor_round page_size probe es in (keep kept rest, events ++ later)

-- The rounds that the thread makes until it is stopped, one probe for each.
unfoldable pub monitor_rounds :
    ℕ → List (ℤ → Probe) → List MonitorEntry → List MonitorEntry × List Event
monitor_rounds page_size [] es = (es, [])
monitor_rounds page_size (probe ∷ probes) es =
    let (next, events) = monitor_round page_size probe es in
    let (final, later) = monitor_rounds page_size probes next in (final, events ++ later)
