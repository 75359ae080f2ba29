-- ===== src/LogBuffer/Interface.antt =====
-- What the threads use of the log buffer: its three operations, and the bounded queue that they
-- behave like; the ring keeps these laws, and so does the queue itself.
use os_jackfruit.Prelude.{◌≡◌, true, Option, ℤ, refl}
use os_jackfruit.LogBuffer.{
  LogEntry, LogBuffer, log_buffer_push, log_buffer_pop, log_buffer_shutdown,
}
use os_jackfruit.LogBuffer.Inv.{IsValid, push-IsValid, pop-IsValid, shutdown-IsValid}
use os_jackfruit.LogBuffer.Refine.{view, Queue, enqueue, dequeue, push_refines, pop_refines}

-- The operations; a result `none` is a call that waits.
pub record Fifo : Type 1 where
  pub State : Type 0
  pub enter : State → LogEntry → State × Option ℤ
  pub leave : State → State × Option (ℤ × Option LogEntry)
  pub shut : State → State

-- The laws, on the states that satisfy the invariant.
pub record IsLawful (F : Fifo) : Type 1 where
  pub IsSound : F.State → Type 0
  pub shown : F.State → Queue
  pub enter-IsSound : (s : F.State) (e : LogEntry) → IsSound s → IsSound (F.enter s e).0
  pub leave-IsSound : (s : F.State) → IsSound s → IsSound (F.leave s).0
  pub shut-IsSound : (s : F.State) → IsSound s → IsSound (F.shut s)
  pub enter_shown :
      (s : F.State) (e : LogEntry)
      → IsSound s
      → (shown (F.enter s e).0, (F.enter s e).1) ≡ enqueue (shown s) e
  pub leave_shown :
      (s : F.State)
      → IsSound s
      → (shown (F.leave s).0, (F.leave s).1) ≡ dequeue (shown s).items (shown s).closed
  pub shut_shown : (s : F.State) → IsSound s → shown (F.shut s) ≡ record (shown s) { closed = true }

-- The ring of engine.c.
abbrev pub ring : Fifo
ring = record {
  State = LogBuffer;
  enter = log_buffer_push;
  leave = log_buffer_pop;
  shut = log_buffer_shutdown;
}

-- The queue.
abbrev pub queue : Fifo
queue = record {
  State = Queue;
  enter = enqueue;
  leave = λ q. dequeue q.items q.closed;
  shut = λ q. record q { closed = true };
}

pub shut_view : (b : LogBuffer) → view (log_buffer_shutdown b) ≡ record (view b) { closed = true }
unfolding log_buffer_shutdown
shut_view b = refl

abbrev pub ring-IsLawful : IsLawful ring
ring-IsLawful = record {
  IsSound = IsValid;
  shown = view;
  enter-IsSound = push-IsValid;
  leave-IsSound = pop-IsValid;
  shut-IsSound = shutdown-IsValid;
  enter_shown = push_refines;
  leave_shown = pop_refines;
  shut_shown = λ b v. shut_view b;
}
