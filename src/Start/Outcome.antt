-- ===== src/Start/Outcome.antt =====
-- What a start comes to as a whole, when no other thread acts in between: when it succeeds, what
-- success leaves, what failure leaves, and the invariants.
use os_jackfruit.Prelude.{
  codes, ◌++◌, sym, ◌∙◌, ap, ℕ, true, false, Option, none, some, ℤ, pos, minus_one, arith, ◌≡◌, ◌≢◌,
  ◌⊎◌, ◌↔◌, inl, inr, refl, CString,
}
use os_jackfruit.Protocol.{Request, Fits}
use os_jackfruit.Containers.{
  Container, running, find_container_by_id_locked, rootfs_in_use_locked,
  find_free_container_slot_locked,
}
use os_jackfruit.Containers.Invariant
use os_jackfruit.Monitor.Ioctl
use os_jackfruit.Start.{
  start_failed, World, commit, fill_slot, reserve, Reservation, reserved, refused, StartAnswers,
  spawn, Spawned, failed, child_runs, finish_start, start_container_internal, nothing_held, Held,
}
use os_jackfruit.Start.Resources.{spawn_no_leak, all_granted, running_held, Leaves}
use os_jackfruit.Start.Reserve.{
  fill_slot-command, fill_slot-log_file, fill_slot-id, fill_slot-rootfs,
}

-- The table and the kernel's list are both within their invariants.
pub record Inv (w : World) : Type 0 where
  pub table_inv : Invariant.Inv w.table
  pub tracked_inv : Ioctl.Inv w.tracked

pub Reservation-cases :
    (r : Reservation) → ((text : CString) × (r ≡ refused text)) ⊎ ((idx : ℕ) × (r ≡ reserved idx))
Reservation-cases (refused text) = inl (text, refl)
Reservation-cases (reserved idx) = inr (idx, refl)

-- A start succeeds exactly when its searches say so and the system grants every step.
pub start_succeeds_when :
    (a : StartAnswers) (req : Request) (w : World)
    → ((start_container_internal a req w).1.code ≡ pos 0) ↔ (
        (find_container_by_id_locked req.id w.table ≡ none)
        × (rootfs_in_use_locked req.rootfs w.table ≡ false)
        × (find_free_container_slot_locked w.table ≢ none)
        × (all_granted a ≡ true))
unfolding start_container_internal reserve finish_start spawn
start_succeeds_when a req w = ground arith

-- What a successful start leaves of the slot that it took.
pub record Started (a : StartAnswers) (req : Request) (d : Container) : Type 0 where
  pub used : d.used ≡ true
  pub id : d.id ≡ req.id
  pub rootfs : d.rootfs ≡ req.rootfs
  pub command : d.command ≡ req.command
  pub log_file : d.log_file ≡ codes "logs/" ++ (req.id ++ codes ".log")
  pub soft_mib : d.soft_mib ≡ req.soft_mib
  pub hard_mib : d.hard_mib ≡ req.hard_mib
  pub nice_value : d.nice_value ≡ req.nice_value
  pub start_time : d.start_time ≡ a.now
  pub state : d.state ≡ running
  pub pid : d.pid ≡ a.clone
  pub stack : d.child_stack ≡ a.stack
  pub exit_code : d.exit_code ≡ minus_one
  pub stop_requested : d.stop_requested ≡ false

pub commit-Started :
    (a : StartAnswers) (req : Request) (c : Container) (stack : ℕ)
    → Fits req
    → a.stack ≡ some stack
    → Started a req (commit a.clone stack (fill_slot a.now req c))
unfolding commit fill_slot
commit-Started a req c stack f s = record {
  used = refl;
  id = fill_slot-id a.now req c f;
  rootfs = fill_slot-rootfs a.now req c f;
  command = fill_slot-command a.now req c f;
  log_file = fill_slot-log_file a.now req c f;
  soft_mib = refl;
  hard_mib = refl;
  nice_value = refl;
  start_time = refl;
  state = refl;
  pid = refl;
  stack = sym s;
  exit_code = refl;
  stop_requested = refl;
}

pub refused_start :
    (a : StartAnswers) (req : Request) (w : World) (text : CString)
    → (reserve a.now req w.table).1 ≡ refused text
    → start_container_internal a req w ≡ (w, start_failed text nothing_held none)
unfolding start_container_internal
refused_start a req w text h = rw (h, start_container_internal)

pub reserved_start :
    (a : StartAnswers) (req : Request) (w : World) (idx : ℕ)
    → (reserve a.now req w.table).1 ≡ reserved idx
    → start_container_internal a req w
      ≡ finish_start a req idx (record w { table = (reserve a.now req w.table).0 })
unfolding start_container_internal
reserved_start a req w idx h = rw (h, start_container_internal)

-- The two ways in which the middle of a start ends, with what it leaves.
pub Spawned-cases :
    (a : StartAnswers)
    → ((text : CString) × (kill : Option ℤ) × ((spawn a).0 ≡ failed text kill)
        × (all_granted a ≡ false)
        × ((spawn a).1 ≡ nothing_held))
      ⊎ ((stack : ℕ) × ((spawn a).0 ≡ child_runs a.clone stack)
          × (all_granted a ≡ true)
          × ((spawn a).1 ≡ running_held)
          × (a.stack ≡ some stack))
Spawned-cases a = split (spawn a) refl (spawn_no_leak a)
  where
    split :
        (r : Spawned × Held)
        → spawn a ≡ r
        → Leaves a r
        → ((text : CString) × (kill : Option ℤ) × ((spawn a).0 ≡ failed text kill)
            × (all_granted a ≡ false)
            × ((spawn a).1 ≡ nothing_held))
          ⊎ ((stack : ℕ) × ((spawn a).0 ≡ child_runs a.clone stack)
              × (all_granted a ≡ true)
              × ((spawn a).1 ≡ running_held)
              × (a.stack ≡ some stack))
    split (failed text kill, held) e l =
        inl (text, kill, ap (λ p. p.0) e, l.0, ap (λ p. p.1) e ∙ l.1)
    split (child_runs pid stack, held) e l =
        inr (stack, ground arith, l.0, ap (λ p. p.1) e ∙ l.1, l.3)
