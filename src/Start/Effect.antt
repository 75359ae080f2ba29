-- ===== src/Start/Effect.antt =====
-- The effect of a whole start on the table, the kernel module's list and the resources.
use os_jackfruit.Prelude.{
  ==_iff, ◌∙◌, ap, ℕ, true, Option, none, some, ℤ, pos, get_elem?, arith, ◌≡◌, ◌≢◌, ◌↔◌, inl, inr,
  refl, CString,
}
use os_jackfruit.Protocol.{Request, Fits}
use os_jackfruit.Containers.{Container, update_slot}
use os_jackfruit.Containers.Slots.{
  update_slot-twice_ne, update_slot-twice_self, get_elem?-update_slot,
}
use os_jackfruit.KernelLink.{register_container_with_kernel}
use os_jackfruit.Start.{
  start_failed, World, free_slot, commit, fill_slot, reserve, reserved, StartAnswers, spawn, failed,
  child_runs, finish_start, start_container_internal, nothing_held,
}
use os_jackfruit.Start.Resources.{running_held}
use os_jackfruit.Start.Outcome.{
  refused_start, reserved_start, Spawned-cases, Reservation-cases, commit-Started, Started,
}
use os_jackfruit.Start.Reserve.{reserve-reserved}

failed_start :
    (a : StartAnswers) (req : Request) (w : World) (idx : ℕ) (text : CString) (kill : Option ℤ)
    → (reserve a.now req w.table).1 ≡ reserved idx
    → (spawn a).0 ≡ failed text kill
    → start_container_internal a req w ≡ (
      record w { table = update_slot (reserve a.now req w.table).0 idx free_slot },
      start_failed text (spawn a).1 kill,
    )
unfolding finish_start
failed_start a req w idx text kill e r = reserved_start a req w idx e ∙ rw (r, finish_start)

child_start :
    (a : StartAnswers) (req : Request) (w : World) (idx stack : ℕ)
    → (reserve a.now req w.table).1 ≡ reserved idx
    → (spawn a).0 ≡ child_runs a.clone stack
    → let (after, result) = start_container_internal a req w in
      (after.table ≡ update_slot (reserve a.now req w.table).0 idx (commit a.clone stack))
      × (after.tracked
          ≡ (register_container_with_kernel a.device a.clone req.soft_mib req.hard_mib w.tracked).0)
      × (result.code ≡ pos 0)
      × (result.index ≡ some idx)
      × (result.held ≡ (spawn a).1)
unfolding finish_start
child_start a req w idx stack e r =
    rw (reserved_start a req w idx e, r, finish_start) (refl, refl, refl, refl, refl)

-- What a start that ran through has done.
pub record Success (a : StartAnswers) (req : Request) (w : World) : Type 0 where
  pub idx : ℕ
  pub index_out : (start_container_internal a req w).1.index ≡ some idx
  pub slot : Container
  pub there : get_elem? (start_container_internal a req w).0.table idx ≡ some slot
  pub started : Started a req slot
  pub others :
      (j : ℕ)
      → j ≢ idx
      → get_elem? (start_container_internal a req w).0.table j ≡ get_elem? w.table j
  pub kernel :
      (start_container_internal a req w).0.tracked
      ≡ (register_container_with_kernel a.device a.clone req.soft_mib req.hard_mib w.tracked).0
  pub holds : (start_container_internal a req w).1.held ≡ running_held

Success-at :
    (a : StartAnswers) (req : Request) (w : World)
    → Fits req
    → (idx stack : ℕ) → (reserve a.now req w.table).1 ≡ reserved idx
    → (spawn a).0 ≡ child_runs a.clone stack
    → (spawn a).1 ≡ running_held
    → a.stack ≡ some stack
    → Success a req w
Success-at a req w f idx stack e r held st =
    let took = reserve-reserved a.now req w.table idx e in
    let ran = child_start a req w idx stack e r in
    let fill = fill_slot a.now req in
    let run = commit a.clone stack in
    let table_is = ran.0 ∙ ap (λ t. update_slot t idx run) took.left in
    record {
      idx = idx;
      index_out = ran.3;
      slot = commit a.clone stack (fill_slot a.now req took.slot);
      there = rw table_is (update_slot-twice_self w.table idx fill run took.slot took.there);
      started = commit-Started a req took.slot stack f st;
      others = λ j ne. rw table_is (update_slot-twice_ne w.table idx j fill run ne);
      kernel = ran.1;
      holds = ran.4 ∙ held;
    }

-- A start that returns 0, for a request whose strings fit, names a slot that now holds all of the
-- request (id, root file system, command, limits and niceness), with the log file of the id and
-- the time of the start, in state RUNNING with the child's pid and stack and with no exit code and
-- no stop request; every other slot is as before, the pid was handed to the kernel module with the
-- requested limits, and the supervisor keeps just what the child and its producer need.
pub start-Success :
    (a : StartAnswers) (req : Request) (w : World)
    → Fits req
    → (start_container_internal a req w).1.code ≡ pos 0
    → Success a req w
start-Success a req w f h = elim (Reservation-cases (reserve a.now req w.table).1) [
  | inl (text, e) ↦ absurd (ground (arith, refused_start a req w text e))
  | inr (idx, e) ↦ elim (Spawned-cases a) [
    | inl (text, kill, r, _, held) ↦ absurd (ground (arith, failed_start a req w idx text kill e r))
    | inr (stack, r, _, held, st) ↦ Success-at a req w f idx stack e r held st
  ]
]

-- A start that fails leaves no descriptor and no block behind, hands nothing to the kernel
-- module, writes no index, and every slot that is used afterwards was there before, unchanged, as
-- are all that were used before.
pub start_failure :
    (a : StartAnswers) (req : Request) (w : World) (j : ℕ) (c : Container)
    → (start_container_internal a req w).1.code ≢ pos 0
    → c.used ≡ true
    → let (after, result) = start_container_internal a req w in
      (result.held ≡ nothing_held)
      × (result.index ≡ none)
      × (after.tracked ≡ w.tracked)
      × ((get_elem? after.table j ≡ some c) ↔ (get_elem? w.table j ≡ some c))
start_failure a req w j c h u = elim (Reservation-cases (reserve a.now req w.table).1) [
  | inl (text, e) ↦ ground (arith, refused_start a req w text e)
  | inr (idx, e) ↦ elim (Spawned-cases a) [
    | inl (text, kill, r, _, held) ↦ ground (
      arith,
      failed_start a req w idx text kill e r,
      reserve-reserved a.now req w.table idx e,
      get_elem?-update_slot w.table idx j (fill_slot a.now req),
      get_elem?-update_slot (update_slot w.table idx (fill_slot a.now req)) idx j free_slot,
      ==_iff idx j,
    )
    | inr (stack, r, _, held, st) ↦ absurd (h (child_start a req w idx stack e r).2)
  ]
]
