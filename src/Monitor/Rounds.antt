-- ===== src/Monitor/Rounds.antt =====
-- The monitor thread over many rounds: how often it warns, and the invariant of its list.
use os_jackfruit.Monitor.{
  keep, MonitorEntry, Probe, scan_entry, monitor_round, monitor_rounds, find_entry_locked,
}
use os_jackfruit.Monitor.Ioctl.{Inv, IsSane}
use os_jackfruit.Monitor.Entries.{All, Distinct}
use os_jackfruit.Monitor.Scan.{about, about-append, scan_found, round_pointwise, round-Distinct}
use os_jackfruit.Prelude.{
  inr, inl, Option-cases, ℕ, ◌+◌, ◌≤◌, ℤ, List, [], ◌∷◌, Option, none, some, arith, ◌≡◌,
  if◌then◌else◌,
}
use os_jackfruit.Monitor.Limits.{warnings, warnings-append}

-- The warnings that an entry can still give.
abbrev budget : Option MonitorEntry → ℕ
budget none = 0
budget (some e) = if e.soft_warned then 0 else 1

scan-budget :
    (page_size : ℕ) (probe : ℤ → Probe) (o : Option MonitorEntry)
    → let (kept, events) = scan_found page_size probe o in warnings events + budget kept ≤ budget o
unfolding scan_entry
scan-budget page_size probe none = omega arith
scan-budget page_size probe (some e) = ground arith

rounds-budget :
    (page_size : ℕ) (probes : List (ℤ → Probe)) (es : List MonitorEntry) (pid : ℤ)
    → Distinct es
    → warnings (about pid (monitor_rounds page_size probes es).1)
      ≤ budget (find_entry_locked pid es)
unfolding monitor_rounds about
rounds-budget page_size [] es pid d = omega arith
rounds-budget page_size (probe ∷ probes) es pid d =
    let (after, events) = monitor_round page_size probe es in
    ground (
      arith,
      about-append pid events (monitor_rounds page_size probes after).1,
      warnings-append (about pid events) (about pid (monitor_rounds page_size probes after).1),
      round_pointwise page_size probe es pid d,
      scan-budget page_size probe (find_entry_locked pid es),
      rounds-budget page_size probes after pid (round-Distinct page_size probe es d),
    )

-- However many rounds the thread makes over a list that tracks each pid once, and whatever they
-- find, it warns of a tracked process at most once, and never if its entry was warned already.
pub rounds_warn_once :
    (page_size : ℕ) (probes : List (ℤ → Probe)) (es : List MonitorEntry) (e : MonitorEntry)
    (pid : ℤ)
    → Distinct es
    → find_entry_locked pid es ≡ some e
    → warnings (about pid (monitor_rounds page_size probes es).1) ≤ (if e.soft_warned then 0 else 1)
rounds_warn_once page_size probes es e pid d found =
    ground (arith, rounds-budget page_size probes es pid d)

scan-IsSane :
    (page_size : ℕ) (probe : Probe) (e : MonitorEntry)
    → IsSane e
    → (f : MonitorEntry) → (scan_entry page_size probe e).0 ≡ some f
    → IsSane f
unfolding scan_entry
scan-IsSane page_size probe e s f h = ground arith

round-IsSane :
    (page_size : ℕ) (probe : ℤ → Probe) (es : List MonitorEntry)
    → All IsSane es
    → All IsSane (monitor_round page_size probe es).0
unfolding monitor_round
round-IsSane page_size probe [] a = tt
round-IsSane page_size probe (e ∷ es) a =
    elim (Option-cases (scan_entry page_size (probe e.pid) e).0) [
      | inl gone ↦ rw (gone, keep) (round-IsSane page_size probe es a.1)
      | inr (f, left) ↦
          rw (left, keep)
            (scan-IsSane page_size (probe e.pid) e a.0 f left, round-IsSane page_size probe es a.1)
    ]

-- A round keeps the invariant of the tracked list.
pub round-Inv :
    (page_size : ℕ) (probe : ℤ → Probe) (es : List MonitorEntry)
    → Inv es
    → Inv (monitor_round page_size probe es).0
round-Inv page_size probe es v = record {
  distinct = round-Distinct page_size probe es v.distinct;
  sane = round-IsSane page_size probe es v.sane;
}
