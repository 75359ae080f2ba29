-- ===== src/Logging/Tests.antt =====
-- The output of the running container `alpha`.
use os_jackfruit.Prelude.{
  ◌⊎◌, ℕ, ◌++◌, ◌≡◌, refl, Bool, true, [], ◌∷◌, List, zero, suc, some, ◌<◌, pos, codes, arith,
}
use os_jackfruit.Start.{fill_slot, commit}
use os_jackfruit.Logging.{
  Meeting, ReadResult, make_entry, chunk, end_of_file, interrupted, log_producer_main, FileSystem,
  consume_all,
}
use os_jackfruit.Protocol.{safe_strcpy}
use os_jackfruit.Logging.Pipeline.{made_for, OwnLog, SlotLogs, AllWritten, pipeline_delivers}
use os_jackfruit.LogBuffer.{
  log_chunk_size, LogEntry, log_buffer_init, log_buffer_push, log_buffer_pop, log_buffer_shutdown,
}
use os_jackfruit.LogBuffer.History.{Call, push, pop, run, drain}
use os_jackfruit.Logging.Delivery.{wrote, any_refused}
use os_jackfruit.Samples.{alpha_running}

abbrev no_logs : FileSystem
no_logs path = []

abbrev reads : List (ReadResult × Bool)
reads =
    (chunk (codes "hello "), true)
    ∷ (interrupted, true)
    ∷ (chunk (codes "world\n"), true)
    ∷ (end_of_file, true)
    ∷ []

-- `alpha` alone in the table, and an entry for a slot that is not used.
abbrev meets : ℕ → Meeting
meets n = record {
  table = alpha_running ∷ [];
  answer = record { open_ok = true; written = log_chunk_size };
}

abbrev stray : LogEntry
stray = make_entry (pos 1) (codes "stray")

abbrev calls : List Call
calls =
    push (make_entry (pos 0) (codes "hello "))
    ∷ push stray
    ∷ pop
    ∷ push (make_entry (pos 0) (codes "world\n"))
    ∷ []

alpha_SlotLogs : (k : ℕ) → SlotLogs (meets k).table 0 alpha_running.log_file
unfolding commit fill_slot safe_strcpy
alpha_SlotLogs k = (refl, own)
  where
    own : OwnLog (alpha_running ∷ []) 0 alpha_running.log_file
    own zero e = refl
    own (suc j) e = absurd cc

all_written : AllWritten meets 0 (run log_buffer_init calls).pushed
unfolding run make_entry log_buffer_push log_buffer_pop log_buffer_init
all_written = (refl, omega arith, (refl, omega arith, (refl, omega arith, tt)))

alpha_made : made_for (pos 0) (run log_buffer_init calls).pushed ≡ log_producer_main (pos 0) reads
unfolding made_for log_producer_main run make_entry log_buffer_push log_buffer_pop log_buffer_init
alpha_made = refl

few_left : (run log_buffer_init calls).final.count < 3
unfolding run log_buffer_push log_buffer_pop log_buffer_init
few_left = omega arith

pipeline_delivers_example :
    (drained : List LogEntry) × (sent : List ℕ) × (lost : List ℕ) × (drain 3
        (log_buffer_shutdown (run log_buffer_init calls).final)
      ≡ some drained)
    × (consume_all no_logs meets 0
          ((run log_buffer_init calls).popped ++ drained)
          alpha_running.log_file
        ≡ no_logs alpha_running.log_file ++ sent)
    × (wrote reads ≡ sent ++ lost)
    × ((lost ≡ []) ⊎ (any_refused reads ≡ true))
unfolding commit fill_slot
pipeline_delivers_example =
    pipeline_delivers no_logs meets calls 3 0 alpha_running.log_file reads (omega arith) (λ e. cc)
      alpha_SlotLogs all_written alpha_made few_left
