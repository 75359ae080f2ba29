-- ===== src/LogBuffer/Closed.antt =====
-- The log buffer after its shutdown: what producers that are still at work come to.
use os_jackfruit.Prelude.{append-nil, ◌≡◌, true, List, [], ◌∷◌, ◌++◌, some, minus_one, arith, refl}
use os_jackfruit.LogBuffer.{
  LogEntry, LogBuffer, log_buffer_push, log_buffer_pop, log_buffer_shutdown,
}
use os_jackfruit.LogBuffer.Inv.{IsValid, shutdown-IsValid}
use os_jackfruit.LogBuffer.Refine.{contents}
use os_jackfruit.LogBuffer.History.{Call, push, pop, close, run, run_fifo}

push_closed :
    (b : LogBuffer) (e : LogEntry) → b.shutdown ≡ true → log_buffer_push b e ≡ (b, some minus_one)
unfolding log_buffer_push
push_closed b e h = ground arith

pop_closed : (b : LogBuffer) → b.shutdown ≡ true → (log_buffer_pop b).0.shutdown ≡ true
unfolding log_buffer_pop
pop_closed b h = ground arith

run_closed : (b : LogBuffer) (calls : List Call) → b.shutdown ≡ true → (run b calls).pushed ≡ []
unfolding run log_buffer_shutdown
run_closed b [] h = refl
run_closed b (push e ∷ calls) h = rw (push_closed b e h) (run_closed b calls h)
run_closed b (pop ∷ calls) h = run_closed (log_buffer_pop b).0 calls (pop_closed b h)
run_closed b (close ∷ calls) h = run_closed (log_buffer_shutdown b) calls refl

-- Once a valid buffer is shut down, whatever producers still push and the consumer still pops,
-- nothing is accepted any more: what is popped and what stays is what was stored at the shutdown.
pub closed_accepts_nothing :
    (b : LogBuffer) (calls : List Call)
    → IsValid b
    → let h = run (log_buffer_shutdown b) calls in
      (h.pushed ≡ []) × (h.popped ++ contents h.final ≡ contents b)
unfolding log_buffer_shutdown
closed_accepts_nothing b calls v =
    let refused = run_closed (log_buffer_shutdown b) calls refl in
    (
      refused,
      ground (
        arith,
        refused,
        run_fifo (log_buffer_shutdown b) calls (shutdown-IsValid b v),
        append-nil (contents b),
      ),
    )
