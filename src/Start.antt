-- ===== src/Start.antt =====
-- `start_container_internal` of engine.c. Its two critical sections are `reserve` and `commit`;
-- between them it acquires a pipe, memory and the child, and gives them back if a step fails.
pub mod Resources
pub mod Reserve
pub mod Outcome
pub mod Succeeds
pub mod Effect
mod Tests
use os_jackfruit.Prelude.{
  ℕ, Bool, true, false, not, List, [], ◌∷◌, ◌++◌, Option, none, some, ℤ, pos, minus_one,
  is_negative, CString, codes, decimal, fit, if◌then◌else◌,
}
use os_jackfruit.Protocol.{
  Request, Response, safe_strcpy, set_response, max_id_len, max_path_len, max_cmd_len,
}
use os_jackfruit.Containers.{
  Container, Table, starting, running, set_state, find_free_container_slot_locked,
  find_container_by_id_locked, rootfs_in_use_locked, update_slot,
}
use os_jackfruit.Monitor.{MonitorEntry}
use os_jackfruit.KernelLink.{DeviceAnswer, register_container_with_kernel}

-- The supervisor's table and the kernel module's list.
pub record World : Type 0 where
  pub table : Table
  pub tracked : List MonitorEntry

-- The writes to the slot that a start takes; the rest of the slot stays.
unfoldable pub fill_slot : ℕ → Request → Container → Container
unfolding safe_strcpy set_state
fill_slot now req c = set_state starting (record c {
  used = true;
  id = safe_strcpy c.id (some req.id) max_id_len;
  rootfs = safe_strcpy c.rootfs (some req.rootfs) max_path_len;
  command = safe_strcpy c.command (some req.command) max_cmd_len;
  log_file = fit max_path_len (codes "logs/" ++ (req.id ++ codes ".log"));
  soft_mib = req.soft_mib;
  hard_mib = req.hard_mib;
  nice_value = req.nice_value;
  exit_code = minus_one;
  stop_requested = false;
  start_time = now;
  pid = minus_one;
  child_stack = none;
})

pub data Reservation : Type 0 where
  refused : CString → Reservation
  reserved : ℕ → Reservation

-- The first critical section: the three checks, and the slot.
unfoldable pub reserve : ℕ → Request → Table → Table × Reservation
reserve now req t = elim (find_container_by_id_locked req.id t) [
  | some _ ↦ (t, refused (codes "Container ID '" ++ (req.id ++ codes "' already exists")))
  | none ↦
      if rootfs_in_use_locked req.rootfs t
      then (
        t,
        refused (codes "Rootfs '" ++ (req.rootfs ++ codes "' is already used by a live container")),
      )
      else elim (find_free_container_slot_locked t) [
        | none ↦ (t, refused (codes "Max containers reached"))
        | some idx ↦ (update_slot t idx (fill_slot now req), reserved idx)
      ]
]

-- What the system answers to a start. The texts are those of `strerror`; `stack` is the address
-- of the block.
pub record StartAnswers : Type 0 where
  pub now : ℕ
  pub pipe : Option CString
  pub stack : Option ℕ
  pub child_ok : Bool
  pub clone : ℤ
  pub clone_error : CString
  pub parg_ok : Bool
  pub device : DeviceAnswer

-- What the thread holds: the ends of the pipe and three blocks of memory.
pub record Held : Type 0 where
  pub read_end : Bool
  pub write_end : Bool
  pub stack : Bool
  pub child : Bool
  pub parg : Bool

abbrev pub nothing_held : Held
nothing_held = record {
  read_end = false;
  write_end = false;
  stack = false;
  child = false;
  parg = false;
}

abbrev close_read : Held → Held
close_read h = record h { read_end = false }

abbrev close_write : Held → Held
close_write h = record h { write_end = false }

abbrev free_stack : Held → Held
free_stack h = record h { stack = false }

abbrev free_child : Held → Held
free_child h = record h { child = false }

-- What comes of the steps between the critical sections: a failure, with the process that is
-- killed on the way out if there is one, or a child.
pub data Spawned : Type 0 where
  failed : CString → Option ℤ → Spawned
  child_runs : ℤ → ℕ → Spawned

-- From the `clone` on.
unfoldable pub spawn_child : StartAnswers → ℕ → Held → Spawned × Held
spawn_child a stack h =
    if is_negative a.clone
    then (
      failed (codes "clone failed: " ++ a.clone_error) none,
      close_write (close_read (free_stack (free_child h))),
    )
    else let started = close_write (free_child h) in
      if not a.parg_ok
      then (failed (codes "malloc failed") (some a.clone), free_stack (close_read started))
      else (child_runs a.clone stack, record started { parg = true })

-- The pipe, the two allocations and the child.
unfoldable pub spawn : StartAnswers → Spawned × Held
unfolding spawn_child
spawn a = elim a.pipe [
  | some error ↦ (failed (codes "pipe failed: " ++ error) none, nothing_held)
  | none ↦
      let piped : Held = record nothing_held { read_end = true; write_end = true } in
      elim a.stack [
        | none ↦ (failed (codes "malloc failed") none, close_write (close_read piped))
        | some stack ↦
            let stacked : Held = record piped { stack = true } in
            if not a.child_ok
            then (
              failed (codes "malloc failed") none,
              close_write (close_read (free_stack stacked)),
            )
            else spawn_child a stack (record stacked { child = true })
      ]
]

-- The slot of a start that failed: containers[idx].used = 0.
abbrev pub free_slot : Container → Container
free_slot c = record c { used = false }

-- The second critical section.
unfoldable pub commit : ℤ → ℕ → Container → Container
unfolding set_state
commit pid stack c = set_state running (record c { pid = pid; child_stack = some stack })

-- What a start returns: its code, `*index_out` if it was written, the response, what is held at
-- the end, and the process that it killed.
pub record StartResult : Type 0 where
  pub code : ℤ
  pub index : Option ℕ
  pub response : Response
  pub held : Held
  pub killed : Option ℤ

abbrev pub start_failed : CString → Held → Option ℤ → StartResult
start_failed text held killed = record {
  code = minus_one;
  index = none;
  response = set_response false minus_one text;
  held = held;
  killed = killed;
}

-- From the first critical section on; the table is the one that it left.
unfoldable pub finish_start : StartAnswers → Request → ℕ → World → World × StartResult
finish_start a req idx w =
    let (outcome, held) = spawn a in
    elim outcome [
      | failed text kill ↦
          (record w { table = update_slot w.table idx free_slot }, start_failed text held kill)
      | child_runs pid stack ↦ (
        record {
          table = update_slot w.table idx (commit pid stack);
          tracked =
              (register_container_with_kernel a.device pid req.soft_mib req.hard_mib w.tracked).0;
        },
        record {
          code = pos 0;
          index = some idx;
          response = set_response true (pos 0) (
              codes "Container "
              ++ (req.id ++ (codes " started (PID " ++ (decimal pid ++ codes ")"))));
          held = held;
          killed = none;
        },
      )
    ]

unfoldable pub start_container_internal : StartAnswers → Request → World → World × StartResult
start_container_internal a req w =
    let (table, reservation) = reserve a.now req w.table in
    elim reservation [
      | refused text ↦ (w, start_failed text nothing_held none)
      | reserved idx ↦ finish_start a req idx (record w { table = table })
    ]
