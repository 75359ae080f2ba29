-- ===== src/Monitor/Unordered.antt =====
-- The state of the kernel module without the order of its list: lists that track the same entries
-- are one state, and commands about different processes may come in any order.
use mathlib.Core.Quot
use mathlib.Core.Quot.{Quot, Quot-set}
use os_jackfruit.Prelude.{
  inr, ◌⊎◌, inl, ◌≡◌, ◌≢◌, ◌∙◌, Bool, List, Option, none, some, ℤ, eq_ℤ_iff, refl, sym, ap, arith,
}
use os_jackfruit.Monitor.{
  MonitorEntry, Command, register_container, unregister_container, unknown, find_entry_locked,
  monitor_ioctl,
}
use os_jackfruit.Monitor.Ioctl.{Inv, ioctl-Inv}
use os_jackfruit.Monitor.Spec.{Tracking, command_code, command_map, ioctl_code, ioctl_map}

-- A list that keeps the invariant.
abbrev pub Tracked : Type 0
Tracked = (es : List MonitorEntry) × Inv es

abbrev pub tracking : Tracked → Tracking
tracking a pid = find_entry_locked pid a.0

abbrev pub SameTracking : Tracked → Tracked → Type 0
SameTracking a b = (pid : ℤ) → tracking a pid ≡ tracking b pid

abbrev pub Unordered : Type 0
Unordered = Quot SameTracking

-- A command on lists.
abbrev obey : Bool → Command → Tracked → Tracked
obey kmalloc_ok c a = ((monitor_ioctl kmalloc_ok c a.0).0, ioctl-Inv kmalloc_ok c a.0 a.1)

-- What it does to a map.
abbrev map_step : Bool → Command → Tracking → Tracking
map_step kmalloc_ok c m = command_map (command_code kmalloc_ok c m) c m

obey-tracking :
    (kmalloc_ok : Bool) (c : Command) (a : Tracked) (pid : ℤ)
    → tracking (obey kmalloc_ok c a) pid ≡ map_step kmalloc_ok c (tracking a) pid
obey-tracking kmalloc_ok c a pid =
    ioctl_map kmalloc_ok c a.0 pid a.1.distinct
    ∙ ap (λ x. command_map x c (tracking a) pid) (ioctl_code kmalloc_ok c a.0)

pub same_map : (a b : Tracked) → SameTracking a b → tracking a ≡ tracking b
same_map a b h = λ i pid. h pid i

pub obey-SameTracking :
    (kmalloc_ok : Bool) (c : Command) (a b : Tracked)
    → SameTracking a b
    → SameTracking (obey kmalloc_ok c a) (obey kmalloc_ok c b)
obey-SameTracking kmalloc_ok c a b h pid =
    obey-tracking kmalloc_ok c a pid
    ∙ ap (λ m. map_step kmalloc_ok c m pid) (same_map a b h)
    ∙ sym (obey-tracking kmalloc_ok c b pid)

-- A command on the state, and its code.
unfoldable pub perform : Bool → Command → Unordered → Unordered
perform kmalloc_ok c =
    Quot.lift Quot-set (λ a. Quot.mk (obey kmalloc_ok c a))
      λ a b h. Quot.sound (obey-SameTracking kmalloc_ok c a b h)

unfoldable pub code_of : Bool → Command → Unordered → ℤ
code_of kmalloc_ok c =
    Quot.lift (hlevel) (λ a. (monitor_ioctl kmalloc_ok c a.0).1)
      λ a b h.
        ioctl_code kmalloc_ok c a.0
        ∙ ap (command_code kmalloc_ok c) (same_map a b h)
        ∙ sym (ioctl_code kmalloc_ok c b.0)

-- The process that a command is about.
abbrev pub about_pid : Command → Option ℤ
about_pid (register_container none) = none
about_pid (register_container (some req)) = some req.pid
about_pid (unregister_container arg) = arg
about_pid unknown = none

-- The commands are not about the same process.
abbrev pub Apart : Command → Command → Type 0
Apart c d = (pid : ℤ) → about_pid c ≡ some pid → about_pid d ≢ some pid

-- Two maps that agree on the process of a command.
abbrev Agree : Command → Tracking → Tracking → Type 0
Agree c m n = (pid : ℤ) → about_pid c ≡ some pid → m pid ≡ n pid

-- The code of a command depends on the entry of its process alone,
command_code-Agree :
    (k : Bool) (c : Command) (m n : Tracking)
    → Agree c m n
    → command_code k c m ≡ command_code k c n
command_code-Agree k (register_container none) m n h = refl
command_code-Agree k (register_container (some req)) m n h = ground (arith, h req.pid refl)
command_code-Agree k (unregister_container none) m n h = refl
command_code-Agree k (unregister_container (some pid)) m n h = ground (arith, h pid refl)
command_code-Agree k unknown m n h = refl

-- and so does what it leaves of an entry.
map_step-Agree :
    (k : Bool) (c : Command) (m n : Tracking) (pid : ℤ)
    → Agree c m n
    → m pid ≡ n pid
    → map_step k c m pid ≡ map_step k c n pid
map_step-Agree k c m n pid h at =
    ap (λ x. command_map x c m pid) (command_code-Agree k c m n h) ∙ maps (command_code k c n) c
  where
    maps : (x : ℤ) (b : Command) → command_map x b m pid ≡ command_map x b n pid
    maps x (register_container none) = at
    maps x (register_container (some req)) = ground arith
    maps x (unregister_container none) = at
    maps x (unregister_container (some q)) = ground arith
    maps x unknown = at

-- It leaves other entries alone.
map_step-other :
    (k : Bool) (c : Command) (m : Tracking) (pid : ℤ)
    → about_pid c ≢ some pid
    → map_step k c m pid ≡ m pid
map_step-other k (register_container none) m pid ne = refl
map_step-other k (register_container (some req)) m pid ne = ground (arith, eq_ℤ_iff req.pid pid)
map_step-other k (unregister_container none) m pid ne = refl
map_step-other k (unregister_container (some q)) m pid ne = ground (arith, eq_ℤ_iff q pid)
map_step-other k unknown m pid ne = refl

map_step-Apart : (l : Bool) (c d : Command) (m : Tracking) → Apart c d → Agree c (map_step l d m) m
map_step-Apart l c d m apart pid own = map_step-other l d m pid (apart pid own)

is_about-cases : (pid : ℤ) (o : Option ℤ) → (o ≡ some pid) ⊎ (o ≢ some pid)
is_about-cases pid none = inr (λ e. cc)
is_about-cases pid (some q) = ground (arith, eq_ℤ_iff q pid)

map_step-commute :
    (k l : Bool) (c d : Command) (m : Tracking) (pid : ℤ)
    → Apart c d
    → Apart d c
    → map_step k c (map_step l d m) pid ≡ map_step l d (map_step k c m) pid
map_step-commute k l c d m pid apart back = elim (is_about-cases pid (about_pid c)) [
  | inl own ↦
      map_step-Agree k c (map_step l d m) m pid (map_step-Apart l c d m apart)
        (map_step-other l d m pid (apart pid own))
      ∙ sym (map_step-other l d (map_step k c m) pid (apart pid own))
  | inr ne ↦
      map_step-other k c (map_step l d m) pid ne
      ∙ sym (
          map_step-Agree l d (map_step k c m) m pid (map_step-Apart k d c m back)
            (map_step-other k c m pid ne))
]

Apart-sym : (c d : Command) → Apart c d → Apart d c
Apart-sym c d apart pid own other = apart pid other own

obey-twice :
    (k l : Bool) (c d : Command) (a : Tracked) (pid : ℤ)
    → tracking (obey k c (obey l d a)) pid ≡ map_step k c (map_step l d (tracking a)) pid
obey-twice k l c d a pid =
    obey-tracking k c (obey l d a) pid
    ∙ ap (λ m. map_step k c m pid) (λ i p. obey-tracking l d a p i)

perform-commute :
    (k l : Bool) (c d : Command)
    → Apart c d
    → (m : Unordered) → perform k c (perform l d m) ≡ perform l d (perform k c m)
unfolding perform
perform-commute k l c d apart =
    Quot.ind (λ m. Quot-set _ _)
      λ a. Quot.sound λ pid.
        obey-twice k l c d a pid
        ∙ map_step-commute k l c d (tracking a) pid apart (Apart-sym c d apart)
        ∙ sym (obey-twice l k d c a pid)

code_of-Apart :
    (k l : Bool) (c d : Command)
    → Apart c d
    → (m : Unordered) → code_of k c (perform l d m) ≡ code_of k c m
unfolding perform code_of
code_of-Apart k l c d apart =
    Quot.ind (λ m. hlevel)
      λ a.
        ioctl_code k c (obey l d a).0
        ∙ command_code-Agree k c (tracking (obey l d a)) (tracking a)
            (λ pid own. obey-tracking l d a pid ∙ map_step-Apart l c d (tracking a) apart pid own)
        ∙ sym (ioctl_code k c a.0)

-- Two commands about different processes, failing ones included, leave the same state in either
-- order, and the code of each is the same whether it comes before or after the other.
pub commands_commute :
    (k l : Bool) (c d : Command) (m : Unordered)
    → Apart c d
    → (perform k c (perform l d m) ≡ perform l d (perform k c m))
      × (code_of k c (perform l d m) ≡ code_of k c m)
      × (code_of l d (perform k c m) ≡ code_of l d m)
commands_commute k l c d m apart = (
  perform-commute k l c d apart m,
  code_of-Apart k l c d apart m,
  code_of-Apart l k d c (Apart-sym c d apart) m,
)
