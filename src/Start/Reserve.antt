-- ===== src/Start/Reserve.antt =====
-- A start and the table: the first critical section takes a slot only for a new id and a free
-- root file system, and every outcome of a start keeps the table's invariant.
use os_jackfruit.Prelude.{
  length-append, ◌++◌, codes, not, ◌&&◌, ℕ, true, false, none, some, ℤ, get_elem?, arith, ◌≡◌, ◌≢◌,
  inl, inr, refl, CString, str_eq, str_eq_iff, Option-cases, Bool-cases, take_all,
}
use os_jackfruit.Protocol.{Request, Fits}
use os_jackfruit.Containers.{
  uses_rootfs, Container, Table, find_slot, update_slot, is_live_state, starting,
  find_container_by_id_locked, rootfs_in_use_locked, find_free_container_slot_locked,
}
use os_jackfruit.Containers.Slots.{live_states, find_slot-some, find_slot-none}
use os_jackfruit.Containers.Invariant.{Inv, Change, SlotState, fresh_slot-Inv}
use os_jackfruit.Monitor.{is_not_positive}
use os_jackfruit.Start.{free_slot, commit, fill_slot, reserve, reserved, refused}

pub free_slot-Change : (c : Container) → Change c (free_slot c)
free_slot-Change c = ground arith

pub commit-Change :
    (pid : ℤ) (stack : ℕ) (c : Container)
    → is_not_positive pid ≡ false
    → c.used ≡ true
    → c.state ≡ starting
    → Change c (commit pid stack c)
unfolding commit
commit-Change pid stack c p u s = ground (arith, live_states)

-- A new slot holds the request's strings unchanged, if they fit.
pub fill_slot-id :
    (now : ℕ) (req : Request) (c : Container) → Fits req → (fill_slot now req c).id ≡ req.id
unfolding fill_slot
fill_slot-id now req c f = take_all 31 req.id (omega (arith, f.id_fits))

pub fill_slot-rootfs :
    (now : ℕ) (req : Request) (c : Container) → Fits req → (fill_slot now req c).rootfs ≡ req.rootfs
unfolding fill_slot
fill_slot-rootfs now req c f = take_all 255 req.rootfs (omega (arith, f.rootfs_fits))

pub fill_slot-command :
    (now : ℕ) (req : Request) (c : Container)
    → Fits req
    → (fill_slot now req c).command ≡ req.command
unfolding fill_slot
fill_slot-command now req c f = take_all 255 req.command (omega (arith, f.command_fits))

pub fill_slot-log_file :
    (now : ℕ) (req : Request) (c : Container)
    → Fits req
    → (fill_slot now req c).log_file ≡ codes "logs/" ++ (req.id ++ codes ".log")
unfolding fill_slot
fill_slot-log_file now req c f =
    take_all 255 (codes "logs/" ++ (req.id ++ codes ".log"))
      (omega (arith, f.id_fits, length-append req.id (codes ".log")))

fill_slot-state : (now : ℕ) (req : Request) (c : Container) → SlotState (fill_slot now req c)
unfolding fill_slot
fill_slot-state now req c = inl (refl, refl, refl)

pub id_is_new :
    (id : CString) (t : Table)
    → find_container_by_id_locked id t ≡ none
    → (j : ℕ) (d : Container) → get_elem? t j ≡ some d
    → d.used ≡ true
    → d.id ≢ id
unfolding find_container_by_id_locked
id_is_new id t gone j d g u e =
    ground (arith, find_slot-none (λ c. c.used && str_eq c.id id) t j d gone g, str_eq_iff d.id id)

pub rootfs_is_free :
    (rootfs : CString) (t : Table)
    → rootfs_in_use_locked rootfs t ≡ false
    → (j : ℕ) (d : Container) → get_elem? t j ≡ some d
    → d.used ≡ true
    → is_live_state d.state ≡ true
    → d.rootfs ≢ rootfs
unfolding rootfs_in_use_locked
rootfs_is_free rootfs t free j d g u l e = elim (Option-cases (find_slot (uses_rootfs rootfs) t)) [
  | inl none_uses ↦
      ground
        (arith, find_slot-none (uses_rootfs rootfs) t j d none_uses g, str_eq_iff d.rootfs rootfs)
  | inr (i, found) ↦ ground arith
]

-- The first critical section keeps the invariant, whether it refuses or takes a slot.
pub reserve-Inv :
    (now : ℕ) (req : Request) (t : Table) → Fits req → Inv t → Inv (reserve now req t).0
unfolding reserve
reserve-Inv now req t f v = elim (Option-cases (find_container_by_id_locked req.id t)) [
  | inr (i, found) ↦ rw (found, reserve) v
  | inl new_id ↦ elim (Bool-cases (rootfs_in_use_locked req.rootfs t)) [
    | inl in_use ↦ rw (new_id, reserve, in_use) v
    | inr free ↦ elim (Option-cases (find_free_container_slot_locked t)) [
      | inl full ↦ rw (new_id, reserve, free, full) v
      | inr (idx, at) ↦ rw (new_id, reserve, free, at) (taken idx new_id free)
    ]
  ]
]
  where
    taken :
        (idx : ℕ)
        → find_container_by_id_locked req.id t ≡ none
        → rootfs_in_use_locked req.rootfs t ≡ false
        → Inv (update_slot t idx (fill_slot now req))
    taken idx new_id free =
        fresh_slot-Inv t idx (fill_slot now req) req.id req.rootfs v
          (λ c. (fill_slot-id now req c f, fill_slot-rootfs now req c f, fill_slot-state now req c))
          (id_is_new req.id t new_id) (rootfs_is_free req.rootfs t free)

-- What a successful first critical section found and did.
pub record Took (now : ℕ) (req : Request) (t : Table) (idx : ℕ) : Type 0 where
  pub slot : Container
  pub there : get_elem? t idx ≡ some slot
  pub unused : slot.used ≡ false
  pub left : (reserve now req t).0 ≡ update_slot t idx (fill_slot now req)
  pub new_id : find_container_by_id_locked req.id t ≡ none
  pub free_root : rootfs_in_use_locked req.rootfs t ≡ false

-- The slot that a reservation takes was free, and now holds the request; no other slot changes,
-- the id was new and the root file system free.
pub reserve-reserved :
    (now : ℕ) (req : Request) (t : Table) (idx : ℕ)
    → (reserve now req t).1 ≡ reserved idx
    → Took now req t idx
unfolding reserve find_free_container_slot_locked
reserve-reserved now req t idx h = elim (Option-cases (find_slot (λ c. not c.used) t)) [
  | inl full ↦ absurd (ground arith)
  | inr (k, at) ↦
      let (c, got, free) = find_slot-some (λ c. not c.used) t k at in
      let same : k ≡ idx = ground arith in
      record {
        slot = c;
        there = rw (← same) got;
        unused = ground arith;
        left = ground arith;
        new_id = ground arith;
        free_root = ground arith;
      }
]

pub reserve-refused :
    (now : ℕ) (req : Request) (t : Table) (text : CString)
    → (reserve now req t).1 ≡ refused text
    → (reserve now req t).0 ≡ t
unfolding reserve
reserve-refused now req t text h = ground arith
