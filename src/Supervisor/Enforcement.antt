-- ===== src/Supervisor/Enforcement.antt =====
-- The kernel module and the supervisor together: what becomes of a container over its hard limit.
use os_jackfruit.Prelude.{
  List, ℕ, ◌*◌, ◌/◌, ◌^◌, ◌<◌, true, false, none, some, ℤ, pos, get_elem?, arith, ◌≡◌,
}
use os_jackfruit.Containers.{Container, killed}
use os_jackfruit.Monitor.{
  MonitorEntry, Probe, resident, process_exists, find_entry_locked, monitor_round, monitor_ioctl,
}
use os_jackfruit.Monitor.Entries.{find-remove_self, Distinct}
use os_jackfruit.Monitor.Scan.{about, round-Distinct}
use os_jackfruit.Monitor.Limits.{kills, is_findable, round_enforces_limits}
use os_jackfruit.KernelLink.{DeviceAnswer, unregister_container_from_kernel}
use os_jackfruit.Start.{World}
use os_jackfruit.Lifecycle.{signaled, sigkill, reap, reap_slot}
use os_jackfruit.Lifecycle.Stop.{reap_own}

unregister_open :
    (a : DeviceAnswer) (pid : ℤ) (es : List MonitorEntry)
    → a.open_ok ≡ true
    → Distinct es
    → find_entry_locked pid (unregister_container_from_kernel a pid es).0 ≡ none
unfolding unregister_container_from_kernel monitor_ioctl
unregister_open a pid es opens d = ground (arith, find-remove_self pid es d)

reap_slot-sigkill :
    (c : Container)
    → c.stop_requested ≡ false
    → ((reap_slot (signaled sigkill) c).state ≡ killed)
      × ((reap_slot (signaled sigkill) c).exit_code ≡ pos 137)
unfolding reap_slot
reap_slot-sigkill c h = ground arith

-- In a list that tracks each pid once, a round that measures a tracked container above its hard
-- limit (its size below 2 ^ 64 bytes), and whose signal finds it, sends it one SIGKILL. When the
-- reaper is then told of that end, and no stop was requested, no other used slot has the pid and
-- the device opens, the container's slot is KILLED with exit code 137, and the kernel module no
-- longer tracks the pid.
pub over_limit_is_killed :
    (page_size : ℕ) (probe : ℤ → Probe) (a : DeviceAnswer) (w : World) (idx : ℕ) (c : Container)
    (e : MonitorEntry) (pages : ℕ)
    → Distinct w.tracked
    → get_elem? w.table idx ≡ some c
    → c.used ≡ true
    → c.stop_requested ≡ false
    → ((k : ℕ) (d : Container)
        → get_elem? w.table k ≡ some d
        → d.used ≡ true
        → d.pid ≡ c.pid
        → k ≡ idx)
    → find_entry_locked c.pid w.tracked ≡ some e
    → process_exists (probe c.pid).at_exists ≡ true
    → (probe c.pid).at_rss ≡ resident pages
    → is_findable (probe c.pid).at_kill ≡ true
    → pages * page_size < 2 ^ 64
    → e.hard_limit < pages * page_size / (1024 * 1024)
    → a.open_ok ≡ true
    → let (tracked, events) = monitor_round page_size probe w.tracked in
      let after = reap a c.pid (signaled sigkill) (record w { tracked = tracked }) in
      (kills (about c.pid events) ≡ 1)
      × ((d : Container) × (get_elem? after.table idx ≡ some d)
          × (d.state ≡ killed)
          × (d.exit_code ≡ pos 137))
      × (find_entry_locked c.pid after.tracked ≡ none)
over_limit_is_killed page_size probe a w idx c e pages distinct at u unasked only tracks alive
      measured findable fits over opens =
    let round = monitor_round page_size probe w.tracked in
    let told = reap_own a (signaled sigkill) (record w { tracked = round.0 }) idx idx c at u only in
    let limits =
      round_enforces_limits page_size probe w.tracked e c.pid pages distinct tracks alive measured
        fits in
    (
      ground arith,
      (
        reap_slot (signaled sigkill) c,
        ground (arith, told),
        (reap_slot-sigkill c unasked).0,
        (reap_slot-sigkill c unasked).1,
      ),
      rw (told.1) (
          unregister_open a c.pid round.0 opens
            (round-Distinct page_size probe w.tracked distinct)),
    )
