-- ===== src/Monitor/Spec.antt =====
-- The kernel module against its abstract state, a map from pids to entries: every sequence of
-- commands and rounds does to the list what it does to the map.
use os_jackfruit.Prelude.{
  ℕ, ◌≡◌, ◌∙◌, Bool, List, [], ◌∷◌, ◌++◌, Option, none, some, ℤ, pos, eq_ℤ, eq_ℤ_iff, if◌then◌else◌,
  ◌==◌, arith, refl, ap,
}
use os_jackfruit.Monitor.{
  MonitorEntry, Command, register_container, unregister_container, unknown, Probe, Event,
  is_not_positive, new_entry, einval, enomem, enoent, efault, find_entry_locked, register,
  monitor_ioctl, monitor_round,
}
use os_jackfruit.Monitor.Entries.{
  Distinct, find-append, find-update, find-remove_ne, find-remove_self, remove_code,
}
use os_jackfruit.Monitor.Ioctl.{Inv, ioctl-Inv}
use os_jackfruit.Monitor.Scan.{about, scan_found, round_pointwise}
use os_jackfruit.Monitor.Rounds.{round-Inv}

-- What the module knows of each process.
abbrev pub Tracking : Type 0
Tracking = ℤ → Option MonitorEntry

abbrev pub assign : ℤ → Option MonitorEntry → Tracking → Tracking
assign pid entry m other = if eq_ℤ pid other then entry else m other

-- The code of a command, and the map that it leaves.
abbrev pub command_code : Bool → Command → Tracking → ℤ
command_code kmalloc_ok (register_container none) m = efault
command_code kmalloc_ok (register_container (some req)) m =
    if is_not_positive req.pid
    then einval
    else if req.hard_limit == 0
    then einval
    else elim (m req.pid) [ some _ ↦ pos 0 | none ↦ if kmalloc_ok then pos 0 else enomem ]
command_code kmalloc_ok (unregister_container none) m = efault
command_code kmalloc_ok (unregister_container (some pid)) m = elim (m pid) [
  | some _ ↦ pos 0
  | none ↦ enoent
]
command_code kmalloc_ok unknown m = einval

-- A command that returns 0 sets or clears one pid; any other changes nothing.
abbrev pub command_map : ℤ → Command → Tracking → Tracking
command_map code (register_container (some req)) m =
    if eq_ℤ code (pos 0) then assign req.pid (some (new_entry req)) m else m
command_map code (unregister_container (some pid)) m =
    if eq_ℤ code (pos 0) then assign pid none m else m
command_map code _ m = m

pub ioctl_code :
    (kmalloc_ok : Bool) (c : Command) (es : List MonitorEntry)
    → (monitor_ioctl kmalloc_ok c es).1 ≡ command_code kmalloc_ok c (λ p. find_entry_locked p es)
unfolding monitor_ioctl register
ioctl_code k (register_container none) es = refl
ioctl_code k (register_container (some req)) es = ground arith
ioctl_code k (unregister_container none) es = refl
ioctl_code k (unregister_container (some pid)) es = remove_code pid es
ioctl_code k unknown es = refl

pub ioctl_map :
    (kmalloc_ok : Bool) (c : Command) (es : List MonitorEntry) (pid : ℤ)
    → Distinct es
    → find_entry_locked pid (monitor_ioctl kmalloc_ok c es).0
      ≡ command_map (monitor_ioctl kmalloc_ok c es).1 c (λ p. find_entry_locked p es) pid
unfolding monitor_ioctl register
ioctl_map k (register_container none) es pid d = refl
ioctl_map k (register_container (some req)) es pid d =
    ground (arith, find-append pid es (new_entry req), find-update pid req es, eq_ℤ_iff req.pid pid)
ioctl_map k (unregister_container none) es pid d = refl
ioctl_map k (unregister_container (some other)) es pid d = ground (
  arith,
  find-remove_ne pid other es,
  find-remove_self other es d,
  remove_code other es,
  eq_ℤ_iff other pid,
)
ioctl_map k unknown es pid d = refl

-- What happens to the module: a command of a client, or a round of its thread.
pub data Happening : Type 0 where
  command : Bool → Command → Happening
  round : ℕ → (ℤ → Probe) → Happening

-- What remains of a history: what is known of a process, the codes of the commands in order, and
-- the events about that process.
pub record Remains : Type 0 where
  pub known : Option MonitorEntry
  pub codes : List ℤ
  pub events : List Event

abbrev with_code : ℤ → Remains → Remains
with_code code r = record r { codes = code ∷ r.codes }

abbrev with_events : List Event → Remains → Remains
with_events events r = record r { events = events ++ r.events }

-- The history of the module's list, as seen for one process.
unfoldable pub history : List Happening → List MonitorEntry → ℤ → Remains
history [] es pid = record { known = find_entry_locked pid es; codes = []; events = [] }
history (command kmalloc_ok c ∷ rest) es pid =
    let (after, code) = monitor_ioctl kmalloc_ok c es in
    let later = history rest after pid in with_code code later
history (round page_size probe ∷ rest) es pid =
    let (after, events) = monitor_round page_size probe es in
    let later = history rest after pid in with_events (about pid events) later

-- The history of the map.
unfoldable pub map_history : List Happening → Tracking → ℤ → Remains
map_history [] m pid = record { known = m pid; codes = []; events = [] }
map_history (command kmalloc_ok c ∷ rest) m pid =
    let code = command_code kmalloc_ok c m in
    let later = map_history rest (command_map code c m) pid in with_code code later
map_history (round page_size probe ∷ rest) m pid =
    let later = map_history rest (λ p. (scan_found page_size probe (m p)).0) pid in
    with_events (scan_found page_size probe (m pid)).1 later

-- Whatever commands come and whatever rounds the thread makes in between, from a list that keeps
-- the invariant: the codes of all commands, what is known of each process at the end, and the
-- events about it are those of a plain map from pids to entries.
pub monitor_refines :
    (happenings : List Happening) (es : List MonitorEntry) (pid : ℤ)
    → Inv es
    → history happenings es pid ≡ map_history happenings (λ p. find_entry_locked p es) pid
unfolding history map_history
monitor_refines [] es pid v = refl
monitor_refines (command k c ∷ rest) es pid v =
    let after = (monitor_ioctl k c es).0 in
    let code = (monitor_ioctl k c es).1 in
    let same : (λ p. find_entry_locked p after) ≡ command_map code c (λ p. find_entry_locked p es) =
      λ i p. ioctl_map k c es p v.distinct i in
    let later = monitor_refines rest after pid (ioctl-Inv k c es v) in
    ap (with_code code) (later ∙ ap (λ m. map_history rest m pid) same)
    ∙ ap (λ x. with_code x (map_history rest (command_map x c (λ p. find_entry_locked p es)) pid))
        (ioctl_code k c es)
monitor_refines (round page_size probe ∷ rest) es pid v =
    let after = (monitor_round page_size probe es).0 in
    let same : (λ p. find_entry_locked p after)
        ≡ (λ p. (scan_found page_size probe (find_entry_locked p es)).0) =
      λ i p. (round_pointwise page_size probe es p v.distinct).0 i in
    let later = monitor_refines rest after pid (round-Inv page_size probe es v) in
    ap (with_events (about pid (monitor_round page_size probe es).1))
      (later ∙ ap (λ m. map_history rest m pid) same)
    ∙ ap
        (λ xs.
          with_events xs
            (map_history rest (λ p. (scan_found page_size probe (find_entry_locked p es)).0) pid))
        (round_pointwise page_size probe es pid v.distinct).1
