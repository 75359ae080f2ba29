-- ===== src/LogBuffer/Tests.antt =====
-- The log buffer on concrete entries.
use os_jackfruit.Prelude.{ℕ, ◌+◌, ◌-◌, ◌≡◌, ◌⊎◌, refl, false, [], ◌∷◌, ◌++◌, some, pos, replicate}
use os_jackfruit.LogBuffer.{
  List, LogEntry, LogBuffer, log_chunk_size, log_buffer_capacity, log_buffer_init, log_buffer_push,
  log_buffer_pop, log_buffer_shutdown,
}
use os_jackfruit.LogBuffer.Inv.{IsValid, init-IsValid, push-IsValid}
use os_jackfruit.LogBuffer.Refine.{contents, view}
use os_jackfruit.LogBuffer.History.{Call, run, push, pop, close, run_fifo}
use os_jackfruit.LogBuffer.Closed.{closed_accepts_nothing}
use os_jackfruit.LogBuffer.Trace.{trace, trace_refines}
use os_jackfruit.LogBuffer.Interface.{ring, queue}
use os_jackfruit.LogBuffer.Wakeup.{Reach, start, later, pop_call, no_lost_wakeup}

abbrev entry : ℕ → LogEntry
entry n = record { container_index = pos 0; len = 1; bytes = n ∷ replicate (log_chunk_size - 1) 0 }

abbrev one_stored : LogBuffer
one_stored = (log_buffer_push log_buffer_init (entry 7)).0

one_stored-IsValid : IsValid one_stored
one_stored-IsValid = push-IsValid log_buffer_init (entry 7) init-IsValid

-- A consumer that finds the buffer empty sleeps.
abbrev consumer_asleep : LogBuffer
consumer_asleep = (log_buffer_pop log_buffer_init).0

consumer_asleep-Reach : Reach consumer_asleep
consumer_asleep-Reach = later start pop_call

no_lost_wakeup_example :
    ((consumer_asleep.not_full.sleeping ≡ 0) ⊎ (consumer_asleep.count ≡ log_buffer_capacity))
    × ((consumer_asleep.not_empty.sleeping ≡ 0) ⊎ (consumer_asleep.count ≡ 0))
    × ((consumer_asleep.shutdown ≡ false)
        ⊎ (consumer_asleep.not_full.sleeping + consumer_asleep.not_empty.sleeping ≡ 0))
    × ((consumer_asleep.not_full.sleeping ≡ 0) ⊎ (consumer_asleep.not_empty.sleeping ≡ 0))
unfolding log_buffer_pop log_buffer_init
no_lost_wakeup_example = no_lost_wakeup consumer_asleep-Reach refl refl

run_fifo_example :
    (run one_stored (push (entry 8) ∷ pop ∷ close ∷ pop ∷ [])).popped
      ++ contents (run one_stored (push (entry 8) ∷ pop ∷ close ∷ pop ∷ [])).final
    ≡ contents one_stored ++ (run one_stored (push (entry 8) ∷ pop ∷ close ∷ pop ∷ [])).pushed
run_fifo_example = run_fifo one_stored (push (entry 8) ∷ pop ∷ close ∷ pop ∷ []) one_stored-IsValid

popped_entry : (log_buffer_pop one_stored).1 ≡ some (pos 0, some (entry 7))
unfolding log_buffer_pop log_buffer_push log_buffer_init
popped_entry = refl

abbrev calls : List Call
calls = push (entry 8) ∷ pop ∷ close ∷ push (entry 9) ∷ pop ∷ []

closed_accepts_nothing_example :
    ((run (log_buffer_shutdown one_stored) calls).pushed ≡ [])
    × ((run (log_buffer_shutdown one_stored) calls).popped
          ++ contents (run (log_buffer_shutdown one_stored) calls).final
        ≡ contents one_stored)
closed_accepts_nothing_example = closed_accepts_nothing one_stored calls one_stored-IsValid

trace_refines_example : trace ring one_stored calls ≡ trace queue (view one_stored) calls
trace_refines_example = trace_refines one_stored calls one_stored-IsValid
