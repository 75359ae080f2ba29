-- ===== src/Lifecycle/Steps.antt =====
-- The supervisor's threads, the kernel module's thread and the clients' requests, interleaved at
-- the critical sections in any order.
use os_jackfruit.Prelude.{ℕ, true, false, [], Option, some, ℤ, get_elem?, arith, ◌≡◌, CString}
use os_jackfruit.Protocol.{Request, Fits}
use os_jackfruit.Containers.{Container, update_slot, starting, init_containers}
use os_jackfruit.Containers.Invariant
use os_jackfruit.Containers.Invariant.{Changes-Inv, update_slot-Changes}
use os_jackfruit.Monitor.{is_not_positive, Probe, monitor_round}
use os_jackfruit.Monitor.Ioctl
use os_jackfruit.Monitor.Rounds.{round-Inv}
use os_jackfruit.KernelLink.{
  DeviceAnswer, register_container_with_kernel, register-Inv, unregister-Inv,
}
use os_jackfruit.Start.{World, free_slot, commit, reserve}
use os_jackfruit.Start.Outcome.{Inv}
use os_jackfruit.Start.Reserve.{reserve-Inv, commit-Change, free_slot-Change}
use os_jackfruit.Lifecycle.{WaitStatus, reap, stop_container_by_id, stop_all_live_containers}
use os_jackfruit.Lifecycle.Changes.{reap-Inv, stop-Inv, stop_all-Inv}

-- One critical section. A start is split into its parts, so that anything may happen between
-- them; the thread of a start knows that its slot is still STARTING, since it alone changes that.
pub data Step (w : World) : World → Type 0 where
  reserves :
      (now : ℕ) (req : Request)
      → Fits req
      → Step w (record w { table = (reserve now req w.table).0 })
  gives_up :
      (idx : ℕ) (c : Container)
      → get_elem? w.table idx ≡ some c
      → c.used ≡ true
      → c.state ≡ starting
      → Step w (record w { table = update_slot w.table idx free_slot })
  commits :
      (idx : ℕ) (pid : ℤ) (stack : ℕ) (c : Container)
      → get_elem? w.table idx ≡ some c
      → c.used ≡ true
      → c.state ≡ starting
      → is_not_positive pid ≡ false
      → Step w (record w { table = update_slot w.table idx (commit pid stack) })
  registers :
      (a : DeviceAnswer) (pid soft_mib hard_mib : ℤ)
      → Step w (record w {
        tracked = (register_container_with_kernel a pid soft_mib hard_mib w.tracked).0;
      })
  reaps : (a : DeviceAnswer) (pid : ℤ) (status : WaitStatus) → Step w (reap a pid status w)
  stops :
      (kill_error : Option CString) (id : CString)
      → Step w (record w { table = (stop_container_by_id kill_error id w.table).0 })
  stops_all : Step w (record w { table = (stop_all_live_containers w.table).0 })
  monitors :
      (page_size : ℕ) (probe : ℤ → Probe)
      → Step w (record w { tracked = (monitor_round page_size probe w.tracked).0 })

abbrev pub initial : World
initial = record { table = init_containers; tracked = [] }

-- What steps lead to from a world.
pub data Run (w : World) : World → Type 0 where
  here : Run w w
  next : {u v : World} → Run w u → Step u v → Run w v

initial-Inv : Inv initial
initial-Inv = record {
  table_inv = Invariant.init-Inv;
  tracked_inv = record { distinct = tt; sane = tt };
}

reap-tracked :
    (a : DeviceAnswer) (pid : ℤ) (status : WaitStatus) (w : World)
    → Ioctl.Inv w.tracked
    → Ioctl.Inv (reap a pid status w).tracked
unfolding reap
reap-tracked a pid status w v = ground (arith, unregister-Inv a pid w.tracked v)

-- Every critical section keeps both invariants.
pub Step-Inv : {w u : World} → Step w u → Inv w → Inv u
Step-Inv {w} (reserves now req f) v = record {
  table_inv = reserve-Inv now req w.table f v.table_inv;
  tracked_inv = v.tracked_inv;
}
Step-Inv {w} (gives_up idx c at u s) v = record {
  table_inv =
      Changes-Inv (update_slot-Changes w.table idx free_slot (λ x _. free_slot-Change x))
        v.table_inv;
  tracked_inv = v.tracked_inv;
}
Step-Inv {w} (commits idx pid stack c at u s p) v = record {
  table_inv =
      Changes-Inv
        (update_slot-Changes w.table idx (commit pid stack)
          (λ x got. commit-Change pid stack x p (ground arith) (ground arith)))
        v.table_inv;
  tracked_inv = v.tracked_inv;
}
Step-Inv {w} (registers a pid soft hard) v = record {
  table_inv = v.table_inv;
  tracked_inv = register-Inv a pid soft hard w.tracked v.tracked_inv;
}
Step-Inv {w} (reaps a pid status) v = record {
  table_inv = reap-Inv a pid status w v.table_inv;
  tracked_inv = reap-tracked a pid status w v.tracked_inv;
}
Step-Inv {w} (stops kill_error id) v = record {
  table_inv = stop-Inv kill_error id w.table v.table_inv;
  tracked_inv = v.tracked_inv;
}
Step-Inv {w} stops_all v = record {
  table_inv = stop_all-Inv w.table v.table_inv;
  tracked_inv = v.tracked_inv;
}
Step-Inv {w} (monitors page_size probe) v = record {
  table_inv = v.table_inv;
  tracked_inv = round-Inv page_size probe w.tracked v.tracked_inv;
}

-- In every interleaving of the critical sections of all threads from the start of the supervisor,
-- with requests whose strings fit and children whose pids are positive: there are ten slots, no two
-- used ones have one id, no two live containers one root file system, each state of a used slot
-- has its kind of pid, and the kernel module tracks no pid twice and no zero hard limit.
pub Run-Inv : {w : World} → Run initial w → Inv w
Run-Inv here = initial-Inv
Run-Inv (next r s) = Step-Inv s (Run-Inv r)

pub Run-trans : {w u v : World} → Run w u → Run u v → Run w v
Run-trans r here = r
Run-trans r (next q s) = next (Run-trans r q) s
