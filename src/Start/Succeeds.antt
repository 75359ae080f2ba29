-- ===== src/Start/Succeeds.antt =====
-- When a start succeeds, in terms of the containers of the table.
use os_jackfruit.Prelude.{
  ℕ, ◌≡◌, ◌≢◌, ◌⊎◌, ◌↔◌, not, ◌&&◌, true, false, none, some, pos, get_elem?, arith, inl, inr, refl,
  CString, str_eq, str_eq_iff, Option-cases,
}
use os_jackfruit.Protocol.{Request}
use os_jackfruit.Containers.{
  Container, Table, starting, running, is_live_state, uses_rootfs, find_slot,
  find_container_by_id_locked, rootfs_in_use_locked, find_free_container_slot_locked,
}
use os_jackfruit.Containers.Slots.{find_slot-some, find_slot-none}
use os_jackfruit.Start.{World, StartAnswers, start_container_internal}
use os_jackfruit.Start.Resources.{all_granted}
use os_jackfruit.Start.Outcome.{start_succeeds_when}
use os_jackfruit.Start.Reserve.{id_is_new, rootfs_is_free}

-- A container that is being started or runs.
abbrev pub IsLive : Container → Type 0
IsLive c = (c.state ≡ starting) ⊎ (c.state ≡ running)

-- No used slot holds the id.
abbrev pub NewId : CString → Table → Type 0
NewId id t = (j : ℕ) (c : Container) → get_elem? t j ≡ some c → c.used ≡ true → c.id ≢ id

-- No live container has the root file system.
abbrev pub FreeRoot : CString → Table → Type 0
FreeRoot rootfs t =
    (j : ℕ) (c : Container) → get_elem? t j ≡ some c → c.used ≡ true → IsLive c → c.rootfs ≢ rootfs

-- Some slot is not used.
abbrev pub HasSpace : Table → Type 0
HasSpace t = (j : ℕ) × (c : Container) × (get_elem? t j ≡ some c) × (c.used ≡ false)

is_live_state_iff : (c : Container) → (is_live_state c.state ≡ true) ↔ IsLive c
unfolding is_live_state
is_live_state_iff c = ground (arith, str_eq_iff c.state starting, str_eq_iff c.state running)

NewId-iff : (id : CString) (t : Table) → (find_container_by_id_locked id t ≡ none) ↔ NewId id t
unfolding find_container_by_id_locked
NewId-iff id t = (
  id_is_new id t,
  λ new. elim (Option-cases (find_slot (λ c. c.used && str_eq c.id id) t)) [
    | inl gone ↦ gone
    | inr (k, found) ↦
        let (c, got, passes) = find_slot-some (λ c. c.used && str_eq c.id id) t k found in
        absurd (new k c got (ground arith) (ground (arith, str_eq_iff c.id id)))
  ],
)

FreeRoot-iff :
    (rootfs : CString) (t : Table) → (rootfs_in_use_locked rootfs t ≡ false) ↔ FreeRoot rootfs t
unfolding rootfs_in_use_locked
FreeRoot-iff rootfs t = (
  λ free j c g u live. rootfs_is_free rootfs t free j c g u ((is_live_state_iff c).1 live),
  λ free. elim (Option-cases (find_slot (uses_rootfs rootfs) t)) [
    | inl gone ↦ rw (gone, rootfs_in_use_locked) refl
    | inr (k, found) ↦
        let (c, got, passes) = find_slot-some (uses_rootfs rootfs) t k found in
        let live : is_live_state c.state ≡ true = ground arith in
        absurd (
          free k c got (ground arith) ((is_live_state_iff c).0 live)
            (ground (arith, str_eq_iff c.rootfs rootfs)))
  ],
)

HasSpace-iff : (t : Table) → (find_free_container_slot_locked t ≢ none) ↔ HasSpace t
unfolding find_free_container_slot_locked
HasSpace-iff t = (
  λ ne. elim (Option-cases (find_slot (λ c. not c.used) t)) [
    | inl gone ↦ absurd (ne gone)
    | inr (k, found) ↦
        let (c, got, passes) = find_slot-some (λ c. not c.used) t k found in
        (k, c, got, ground arith)
  ],
  λ space gone.
      let (j, c, got, unused) = space in
      let used = find_slot-none (λ c. not c.used) t j c gone got in absurd (ground arith),
)

-- A start succeeds exactly when no used slot holds its id, no container that is being started or
-- runs has its root file system, some slot is not used, and the system grants every step.
pub start_succeeds_iff :
    (a : StartAnswers) (req : Request) (w : World)
    → ((start_container_internal a req w).1.code ≡ pos 0) ↔ (
        NewId req.id w.table
        × FreeRoot req.rootfs w.table
        × HasSpace w.table
        × (all_granted a ≡ true))
start_succeeds_iff a req w =
    let code = start_succeeds_when a req w in
    let id = NewId-iff req.id w.table in
    let root = FreeRoot-iff req.rootfs w.table in
    let space = HasSpace-iff w.table in
    (
      λ h. let (i, r, s, g) = code.0 h in (id.0 i, root.0 r, space.0 s, g),
      λ c. let (i, r, s, g) = c in code.1 (id.1 i, root.1 r, space.1 s, g),
    )
