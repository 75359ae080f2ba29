-- ===== src/Monitor/Limits.antt =====
-- The limits that one round of the monitor thread enforces: who is killed, who is warned, and who
-- is forgotten.
use os_jackfruit.Monitor.{
  MonitorEntry, Lookup, no_pid, no_task, no_mm, resident, Probe, Event, soft_exceeded, sigkill_sent,
  process_exists, get_process_rss_mib, scan_entry, monitor_round, find_entry_locked,
}
use os_jackfruit.Monitor.Entries.{Distinct}
use os_jackfruit.Monitor.Scan.{about, round_pointwise}
use os_jackfruit.Prelude.{
  inr, inl, Option-cases, ℕ, ◌+◌, ◌*◌, ◌^◌, ◌/◌, ◌<◌, ℤ, pos, eq_ℤ_iff, Bool, true, false, not,
  ◌&&◌, ◌||◌, List, [], ◌∷◌, ◌++◌, none, some, arith, ◌≡◌, ◌≢◌, ◌⊎◌, if◌then◌else◌, ltb,
}

-- How many signals, and how many soft-limit warnings, a log of events holds.
abbrev pub kills : List Event → ℕ
kills [] = 0
kills (sigkill_sent pid ∷ vs) = 1 + kills vs
kills (v ∷ vs) = kills vs

abbrev pub warnings : List Event → ℕ
warnings [] = 0
warnings (soft_exceeded pid rss soft ∷ vs) = 1 + warnings vs
warnings (v ∷ vs) = warnings vs

pub warnings-append : (vs ws : List Event) → warnings (vs ++ ws) ≡ warnings vs + warnings ws
warnings-append [] ws = omega arith
warnings-append (v ∷ vs) ws = ground (arith, warnings-append vs ws)

find-pid :
    (pid : ℤ) (es : List MonitorEntry) (e : MonitorEntry)
    → find_entry_locked pid es ≡ some e
    → e.pid ≡ pid
unfolding find_entry_locked
find-pid pid [] e h = cc
find-pid pid (x ∷ es) e h = ground (arith, find-pid pid es e, eq_ℤ_iff x.pid pid)

-- Whether `find_get_pid` finds the process.
abbrev pub is_findable : Lookup → Bool
is_findable no_pid = false
is_findable no_task = true
is_findable no_mm = true
is_findable (resident pages) = true

scan_limits :
    (page_size : ℕ) (probe : Probe) (e : MonitorEntry) (pages : ℕ)
    → process_exists probe.at_exists ≡ true
    → probe.at_rss ≡ resident pages
    → pages * page_size < 2 ^ 64
    → let rss = pages * page_size / (1024 * 1024) in
      let (kept, events) = scan_entry page_size probe e in
      (kept ≡ some (record e { soft_warned = e.soft_warned || ltb e.soft_limit rss }))
      × (kills events ≡ (if ltb e.hard_limit rss && is_findable probe.at_kill then 1 else 0))
      × (warnings events ≡ (if not e.soft_warned && ltb e.soft_limit rss then 1 else 0))
unfolding scan_entry
scan_limits page_size probe e pages alive measured fits = ground arith

scan_gone :
    (page_size : ℕ) (probe : Probe) (e : MonitorEntry)
    → (process_exists probe.at_exists ≡ false)
      ⊎ ((get_process_rss_mib page_size probe.at_rss).0 ≢ pos 0)
    → let (kept, events) = scan_entry page_size probe e in (kept ≡ none) × (kills events ≡ 0)
unfolding scan_entry
scan_gone page_size probe e gone =
    ground (arith, eq_ℤ_iff (get_process_rss_mib page_size probe.at_rss).0 (pos 0))

scan_kills_only_over :
    (page_size : ℕ) (probe : Probe) (e : MonitorEntry)
    → kills (scan_entry page_size probe e).1 ≢ 0
    → e.hard_limit < (get_process_rss_mib page_size probe.at_rss).1
unfolding scan_entry
scan_kills_only_over page_size probe e some_kill = ground arith

-- In a round over a list that tracks each pid once, a tracked process that is found alive, with
-- that many resident pages (less than 2 ^ 64 bytes), gets one SIGKILL if its size in MiB exceeds
-- the hard limit and the signal finds it, and none otherwise; one warning if it exceeds the soft
-- limit and was not warned of before, and none otherwise; and its entry stays, with the warning
-- remembered.
pub round_enforces_limits :
    (page_size : ℕ) (probe : ℤ → Probe) (es : List MonitorEntry) (e : MonitorEntry) (pid : ℤ)
    (pages : ℕ)
    → Distinct es
    → find_entry_locked pid es ≡ some e
    → process_exists (probe pid).at_exists ≡ true
    → (probe pid).at_rss ≡ resident pages
    → pages * page_size < 2 ^ 64
    → let rss = pages * page_size / (1024 * 1024) in
      let (after, events) = monitor_round page_size probe es in
      (find_entry_locked pid after
        ≡ some (record e { soft_warned = e.soft_warned || ltb e.soft_limit rss }))
      × (kills (about pid events)
          ≡ (if ltb e.hard_limit rss && is_findable (probe pid).at_kill then 1 else 0))
      × (warnings (about pid events) ≡ (if not e.soft_warned && ltb e.soft_limit rss then 1 else 0))
round_enforces_limits page_size probe es e pid pages d found alive measured fits = ground (
  arith,
  round_pointwise page_size probe es pid d,
  find-pid pid es e found,
  scan_limits page_size (probe pid) e pages alive measured fits,
)

-- In a round over a list that tracks each pid once, a process that is found gone, or whose size
-- cannot be read, is no longer tracked afterwards, and gets no signal.
pub round_forgets_gone :
    (page_size : ℕ) (probe : ℤ → Probe) (es : List MonitorEntry) (pid : ℤ)
    → Distinct es
    → (process_exists (probe pid).at_exists ≡ false)
      ⊎ ((get_process_rss_mib page_size (probe pid).at_rss).0 ≢ pos 0)
    → let (after, events) = monitor_round page_size probe es in
      (find_entry_locked pid after ≡ none) × (kills (about pid events) ≡ 0)
round_forgets_gone page_size probe es pid d gone = elim (Option-cases (find_entry_locked pid es)) [
  | inl none_found ↦ ground (arith, round_pointwise page_size probe es pid d)
  | inr (e, found) ↦ ground (
    arith,
    round_pointwise page_size probe es pid d,
    find-pid pid es e found,
    scan_gone page_size (probe pid) e gone,
  )
]

-- In a round over a list that tracks each pid once, no process gets a signal but a tracked one
-- whose size, as the round measured it, exceeds its hard limit.
pub round_kills_only_over :
    (page_size : ℕ) (probe : ℤ → Probe) (es : List MonitorEntry) (pid : ℤ)
    → Distinct es
    → kills (about pid (monitor_round page_size probe es).1) ≢ 0
    → (e : MonitorEntry) × (find_entry_locked pid es ≡ some e)
      × (e.hard_limit < (get_process_rss_mib page_size (probe pid).at_rss).1)
round_kills_only_over page_size probe es pid d some_kill =
    elim (Option-cases (find_entry_locked pid es)) [
      | inl none_found ↦ absurd (ground (arith, round_pointwise page_size probe es pid d))
      | inr (e, found) ↦ (
        e,
        found,
        ground (
          arith,
          round_pointwise page_size probe es pid d,
          find-pid pid es e found,
          scan_kills_only_over page_size (probe pid) e,
        ),
      )
    ]
