-- ===== src/Monitor/Scan.antt =====
-- The monitor thread: what a round does to each tracked process, and what many rounds do.
use os_jackfruit.Monitor.{
  MonitorEntry, Probe, Event, removed_stale, removed_failed, soft_exceeded, hard_exceeded,
  sigkill_sent, scan_entry, monitor_round, find_entry_locked,
}
use os_jackfruit.Monitor.Entries.{Absent, Distinct}
use os_jackfruit.Prelude.{
  append-nil, ℕ, ℤ, eq_ℤ, eq_ℤ_iff, List, [], ◌∷◌, ◌++◌, Option, none, some, arith, ◌≡◌, ◌≢◌, refl,
  if◌then◌else◌,
}

-- The process that an event is about.
abbrev pub subject : Event → ℤ
subject (removed_stale pid) = pid
subject (removed_failed pid) = pid
subject (soft_exceeded pid rss soft) = pid
subject (hard_exceeded pid rss hard) = pid
subject (sigkill_sent pid) = pid

-- The events about one process, in order.
unfoldable pub about : ℤ → List Event → List Event
about pid [] = []
about pid (v ∷ vs) = if eq_ℤ (subject v) pid then v ∷ about pid vs else about pid vs

pub about-append :
    (pid : ℤ) (vs ws : List Event) → about pid (vs ++ ws) ≡ about pid vs ++ about pid ws
unfolding about
about-append pid [] ws = refl
about-append pid (v ∷ vs) ws = ground (arith, about-append pid vs ws)

-- What a scan leaves of an entry keeps its pid and limits.
abbrev Same : MonitorEntry → Option MonitorEntry → Type 0
Same e none = Unit {0}
Same e (some f) = (f.pid ≡ e.pid) × (f.soft_limit ≡ e.soft_limit) × (f.hard_limit ≡ e.hard_limit)

scan-Same :
    (page_size : ℕ) (probe : Probe) (e : MonitorEntry) → Same e (scan_entry page_size probe e).0
unfolding scan_entry
scan-Same page_size probe e = ground arith

scan-about_self :
    (page_size : ℕ) (probe : Probe) (e : MonitorEntry) (pid : ℤ)
    → e.pid ≡ pid
    → about pid (scan_entry page_size probe e).1 ≡ (scan_entry page_size probe e).1
unfolding about scan_entry
scan-about_self page_size probe e pid h = ground (arith, eq_ℤ_iff e.pid pid)

scan-about_ne :
    (page_size : ℕ) (probe : Probe) (e : MonitorEntry) (pid : ℤ)
    → e.pid ≢ pid
    → about pid (scan_entry page_size probe e).1 ≡ []
unfolding about scan_entry
scan-about_ne page_size probe e pid h = ground (arith, eq_ℤ_iff e.pid pid)

Same-pid :
    (e : MonitorEntry) (o : Option MonitorEntry) (f : MonitorEntry)
    → Same e o
    → o ≡ some f
    → f.pid ≡ e.pid
Same-pid e none f s h = cc
Same-pid e (some g) f s h = ground arith

-- The round leaves no trace of a pid that is not tracked.
round-Absent :
    (page_size : ℕ) (probe : ℤ → Probe) (es : List MonitorEntry) (pid : ℤ)
    → Absent pid es
    → Absent pid (monitor_round page_size probe es).0
      × (about pid (monitor_round page_size probe es).1 ≡ [])
unfolding find_entry_locked monitor_round about
round-Absent page_size probe [] pid h = (refl, refl)
round-Absent page_size probe (e ∷ es) pid h = ground (
  arith,
  round-Absent page_size probe es pid,
  scan-Same page_size (probe e.pid) e,
  scan-about_ne page_size (probe e.pid) e pid,
  eq_ℤ_iff e.pid pid,
  about-append pid (scan_entry page_size (probe e.pid) e).1 (monitor_round page_size probe es).1,
)

-- What a scan of the entry that a lookup found comes to.
abbrev pub scan_found : ℕ → (ℤ → Probe) → Option MonitorEntry → Option MonitorEntry × List Event
scan_found page_size probe none = (none, [])
scan_found page_size probe (some e) = scan_entry page_size (probe e.pid) e

-- A round over a list that tracks each pid once treats each process by itself: what it leaves of
-- a pid's entry, and what it reports and does about that pid, is the scan of that entry alone,
-- and nothing for a pid not tracked.
pub round_pointwise :
    (page_size : ℕ) (probe : ℤ → Probe) (es : List MonitorEntry) (pid : ℤ)
    → Distinct es
    → let (after, events) = monitor_round page_size probe es in
      let (kept, own) = scan_found page_size probe (find_entry_locked pid es) in
      (find_entry_locked pid after ≡ kept) × (about pid events ≡ own)
unfolding find_entry_locked monitor_round about
round_pointwise page_size probe [] pid d = (refl, refl)
round_pointwise page_size probe (e ∷ es) pid d = ground (
  arith,
  round_pointwise page_size probe es pid d.1,
  round-Absent page_size probe es e.pid d.0,
  scan-Same page_size (probe e.pid) e,
  scan-about_self page_size (probe e.pid) e pid,
  scan-about_ne page_size (probe e.pid) e pid,
  eq_ℤ_iff e.pid pid,
  append-nil (scan_entry page_size (probe e.pid) e).1,
  about-append pid (scan_entry page_size (probe e.pid) e).1 (monitor_round page_size probe es).1,
)

-- A round keeps every pid tracked at most once.
pub round-Distinct :
    (page_size : ℕ) (probe : ℤ → Probe) (es : List MonitorEntry)
    → Distinct es
    → Distinct (monitor_round page_size probe es).0
unfolding monitor_round
round-Distinct page_size probe [] d = tt
round-Distinct page_size probe (e ∷ es) d = ground (
  arith,
  round-Distinct page_size probe es d.1,
  scan-Same page_size (probe e.pid) e,
  round-Absent page_size probe es e.pid,
)
