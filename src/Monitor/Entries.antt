-- ===== src/Monitor/Entries.antt =====
-- The tracked list as a map from pids: distinct pids, and what each list operation does to a
-- lookup.
use os_jackfruit.Monitor.{
  MonitorEntry, MonitorRequest, new_entry, find_entry_locked, remove_entry_locked, update_entry,
  enoent,
}
use os_jackfruit.Prelude.{
  inr, sym, subst, inl, Bool-cases, ℤ, pos, eq_ℤ, eq_ℤ_iff, List, [], ◌∷◌, ◌++◌, none, some, arith,
  ◌≡◌, ◌≢◌, refl, if◌then◌else◌,
}

-- No entry of the list is for this pid.
abbrev pub Absent : ℤ → List MonitorEntry → Type 0
Absent pid es = find_entry_locked pid es ≡ none

-- Every pid is tracked once.
abbrev pub Distinct : List MonitorEntry → Type 0
Distinct [] = Unit {0}
Distinct (e ∷ es) = Absent e.pid es × Distinct es

-- A condition on every entry.
abbrev pub All : (MonitorEntry → Type 0) → List MonitorEntry → Type 0
All P [] = Unit {0}
All P (e ∷ es) = P e × All P es

pub find-append :
    (pid : ℤ) (es : List MonitorEntry) (n : MonitorEntry)
    → find_entry_locked pid (es ++ n ∷ []) ≡ elim (find_entry_locked pid es) [
      | some e ↦ some e
      | none ↦ if eq_ℤ n.pid pid then some n else none
    ]
unfolding find_entry_locked
find-append pid [] n = refl
find-append pid (e ∷ es) n = ground (arith, find-append pid es n)

pub find-update :
    (pid : ℤ) (req : MonitorRequest) (es : List MonitorEntry)
    → find_entry_locked pid (update_entry req es) ≡ elim (find_entry_locked pid es) [
      | some e ↦ some (if eq_ℤ req.pid pid then new_entry req else e)
      | none ↦ none
    ]
unfolding find_entry_locked update_entry
find-update pid req [] = refl
find-update pid req (e ∷ es) = ground (
  arith,
  find-update pid req es,
  eq_ℤ_iff e.pid pid,
  eq_ℤ_iff e.pid req.pid,
  eq_ℤ_iff req.pid pid,
)

pub find-remove_ne :
    (pid other : ℤ) (es : List MonitorEntry)
    → pid ≢ other
    → find_entry_locked pid (remove_entry_locked other es).0 ≡ find_entry_locked pid es
unfolding find_entry_locked remove_entry_locked
find-remove_ne pid other [] h = refl
find-remove_ne pid other (e ∷ es) h =
    ground (arith, find-remove_ne pid other es h, eq_ℤ_iff e.pid pid, eq_ℤ_iff e.pid other)

pub find-remove_self :
    (pid : ℤ) (es : List MonitorEntry)
    → Distinct es
    → find_entry_locked pid (remove_entry_locked pid es).0 ≡ none
unfolding find_entry_locked remove_entry_locked
find-remove_self pid [] d = refl
find-remove_self pid (e ∷ es) d = ground (arith, find-remove_self pid es d.1, eq_ℤ_iff e.pid pid)

pub remove_code :
    (pid : ℤ) (es : List MonitorEntry)
    → (remove_entry_locked pid es).1
      ≡ elim (find_entry_locked pid es) [ some e ↦ pos 0 | none ↦ enoent ]
unfolding find_entry_locked remove_entry_locked
remove_code pid [] = refl
remove_code pid (e ∷ es) = ground (arith, remove_code pid es)

pub remove-Absent :
    (pid : ℤ) (es : List MonitorEntry) → Absent pid es → (remove_entry_locked pid es).0 ≡ es
unfolding find_entry_locked remove_entry_locked
remove-Absent pid [] h = refl
remove-Absent pid (e ∷ es) h = ground (arith, remove-Absent pid es)

pub append-Distinct :
    (es : List MonitorEntry) (n : MonitorEntry)
    → Absent n.pid es
    → Distinct es
    → Distinct (es ++ n ∷ [])
unfolding find_entry_locked
append-Distinct [] n a d = (refl, tt)
append-Distinct (e ∷ es) n a d = ground (
  arith,
  append-Distinct es n,
  find-append e.pid es n,
  eq_ℤ_iff e.pid n.pid,
  eq_ℤ_iff n.pid e.pid,
)

pub update-Distinct :
    (req : MonitorRequest) (es : List MonitorEntry) → Distinct es → Distinct (update_entry req es)
unfolding update_entry
update-Distinct req [] d = tt
update-Distinct req (e ∷ es) d =
    ground (arith, update-Distinct req es d.1, find-update e.pid req es)

pub remove-Distinct :
    (pid : ℤ) (es : List MonitorEntry) → Distinct es → Distinct (remove_entry_locked pid es).0
unfolding remove_entry_locked
remove-Distinct pid [] d = tt
remove-Distinct pid (e ∷ es) d =
    ground (arith, remove-Distinct pid es d.1, find-remove_ne e.pid pid es, eq_ℤ_iff e.pid pid)

pub All-append :
    (P : MonitorEntry → Type 0) (es : List MonitorEntry) (n : MonitorEntry)
    → P n
    → All P es
    → All P (es ++ n ∷ [])
All-append P [] n p a = (p, tt)
All-append P (e ∷ es) n p a = (a.0, All-append P es n p a.1)

pub All-update :
    (P : MonitorEntry → Type 0) (req : MonitorRequest) (es : List MonitorEntry)
    → P (new_entry req)
    → All P es
    → All P (update_entry req es)
unfolding update_entry
All-update P req [] p a = tt
All-update P req (e ∷ es) p a = elim (Bool-cases (eq_ℤ e.pid req.pid)) [
  | inl hit ↦ rw hit (
    subst (λ q. P (record (new_entry req) { pid = q })) (sym ((eq_ℤ_iff e.pid req.pid).0 hit)) p,
    a.1,
  )
  | inr miss ↦ rw miss (a.0, All-update P req es p a.1)
]

pub All-remove :
    (P : MonitorEntry → Type 0) (pid : ℤ) (es : List MonitorEntry)
    → All P es
    → All P (remove_entry_locked pid es).0
unfolding remove_entry_locked
All-remove P pid [] a = tt
All-remove P pid (e ∷ es) a = ground (arith, All-remove P pid es a.1)
