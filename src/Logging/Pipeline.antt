-- ===== src/Logging/Pipeline.antt =====
-- The logging pipeline as a whole: producers of several containers push into the log buffer while
-- the consumer pops, the buffer is shut down, and what is left is drained.
use os_jackfruit.Prelude.{
  ◌+◌, ◌≤◌, ◌⊎◌, zero, suc, take, ℕ, ◌<◌, ◌≡◌, ◌≢◌, Bool, true, List, [], ◌∷◌, ◌++◌, some, ℤ, pos,
  negsuc, eq_ℤ, eq_ℤ_iff, CString, str_eq_iff, if◌then◌else◌, get_elem?, arith, refl, ap, ◌∙◌,
}
use os_jackfruit.Containers.{Table, max_containers}
use os_jackfruit.LogBuffer.{
  LogEntry, LogBuffer, log_buffer_init, log_buffer_push, log_buffer_pop, log_buffer_shutdown,
}
use os_jackfruit.LogBuffer.Inv.{IsValid, init-IsValid, push-IsValid, pop-IsValid, shutdown-IsValid}
use os_jackfruit.LogBuffer.Refine.{contents}
use os_jackfruit.LogBuffer.History.{Call, push, pop, close, run, run_fifo, drain, drain_shutdown}
use os_jackfruit.Logging.{
  take, Meeting, ReadResult, log_producer_main, FileSystem, entry_log_path, log_file_of,
  consume_all,
}
use os_jackfruit.Logging.Delivery.{
  routed, wrote, any_refused, payloads, log_producer_main_lem, consume_all_routes,
}

-- The entries made for one slot, in order.
unfoldable pub made_for : ℤ → List LogEntry → List LogEntry
made_for i [] = []
made_for i (entry ∷ entries) =
    let rest = made_for i entries in if eq_ℤ entry.container_index i then entry ∷ rest else rest

-- No other slot logs to this path.
abbrev pub OwnLog : Table → ℕ → CString → Type 0
OwnLog t i path = (k : ℕ) → log_file_of (get_elem? t k) ≡ path → k ≡ i

run-IsValid : (b : LogBuffer) (calls : List Call) → IsValid b → IsValid (run b calls).final
unfolding run
run-IsValid b [] v = v
run-IsValid b (push e ∷ calls) v = run-IsValid (log_buffer_push b e).0 calls (push-IsValid b e v)
run-IsValid b (pop ∷ calls) v = run-IsValid (log_buffer_pop b).0 calls (pop-IsValid b v)
run-IsValid b (close ∷ calls) v = run-IsValid (log_buffer_shutdown b) calls (shutdown-IsValid b v)

-- An entry that is logged to a slot's own path was made for the slot.
path_of_own :
    (t : Table) (i : ℕ) (path : CString) (entry : LogEntry)
    → OwnLog t i path
    → path ≢ []
    → entry_log_path t entry ≡ path
    → entry.container_index ≡ pos i
unfolding entry_log_path
path_of_own t i path entry own named e = helper entry.container_index refl
  where
    helper : (index : ℤ) → entry.container_index ≡ index → entry.container_index ≡ pos i
    helper (negsuc n) is = absurd (ground arith)
    helper (pos k) is = ground (arith, own k)

-- The path depends on the slot alone.
path_of_slot :
    (t : Table) (i : ℕ) (entry : LogEntry)
    → i < max_containers
    → entry.container_index ≡ pos i
    → entry_log_path t entry ≡ log_file_of (get_elem? t i)
unfolding entry_log_path
path_of_slot t i entry lt is = ground arith

-- A slot that is used, logs to this path, and is the only one to do so.
abbrev pub SlotLogs : Table → ℕ → CString → Type 0
SlotLogs t i path = (log_file_of (get_elem? t i) ≡ path) × OwnLog t i path

-- Every file opens and every write is complete.
abbrev pub AllWritten : (ℕ → Meeting) → ℕ → List LogEntry → Type 0
AllWritten meets n [] = Unit {0}
AllWritten meets n (entry ∷ entries) =
    ((meets n).answer.open_ok ≡ true)
    × (entry.len ≤ (meets n).answer.written)
    × AllWritten meets (n + 1) entries

take-take : (n m : ℕ) (xs : List ℕ) → n ≤ m → take m (take n xs) ≡ take n xs
take-take zero zero xs h = refl
take-take zero (suc m) xs h = refl
take-take (suc n) zero xs h = absurd (omega arith)
take-take (suc n) (suc m) [] h = refl
take-take (suc n) (suc m) (x ∷ xs) h = ap (◌∷◌ x) (take-take n m xs (omega arith))

-- A slot's own path gets the entries made for the slot.
routed-made_for :
    (meets : ℕ → Meeting) (i : ℕ) (path : CString) (n : ℕ) (entries : List LogEntry)
    → i < max_containers
    → path ≢ []
    → ((k : ℕ) → SlotLogs (meets k).table i path)
    → AllWritten meets n entries
    → routed path meets n entries ≡ payloads (made_for (pos i) entries)
unfolding routed made_for payloads
routed-made_for meets i path n [] lt named logs all = refl
routed-made_for meets i path n (entry ∷ entries) lt named logs all = ground (
  arith,
  routed-made_for meets i path (n + 1) entries lt named logs all.2,
  path_of_own (meets n).table i path entry (logs n).1 named,
  path_of_slot (meets n).table i entry lt,
  (logs n).0,
  str_eq_iff (entry_log_path (meets n).table entry) path,
  eq_ℤ_iff entry.container_index (pos i),
  take-take entry.len (meets n).answer.written entry.bytes all.1,
)

starts_empty : contents log_buffer_init ≡ []
unfolding log_buffer_init
starts_empty = refl

-- What a container wrote reaches its log file: in every history of a buffer that starts empty, in
-- which the accepted entries of its slot are those that its producer makes of its reads, mixed in
-- any way with those of other containers and with the pops of the consumer, the drain after the
-- shutdown ends, and with the entries popped before and then, its log file has a first part of
-- all that the container wrote appended, in order; nothing is missing unless one of its pushes was
-- refused. Whenever an entry is consumed the slot is used and logs to this path, which is not
-- empty and to which no other slot logs, the file opens and the write is complete.
pub pipeline_delivers :
    (fs : FileSystem) (meets : ℕ → Meeting) (calls : List Call) (fuel i : ℕ) (path : CString)
    (reads : List (ReadResult × Bool))
    → i < max_containers
    → path ≢ []
    → ((k : ℕ) → SlotLogs (meets k).table i path)
    → AllWritten meets 0 (run log_buffer_init calls).pushed
    → made_for (pos i) (run log_buffer_init calls).pushed ≡ log_producer_main (pos i) reads
    → (run log_buffer_init calls).final.count < fuel
    → let h = run log_buffer_init calls in
      (drained : List LogEntry) × (sent : List ℕ) × (lost : List ℕ) × (drain fuel
          (log_buffer_shutdown h.final)
        ≡ some drained)
      × (consume_all fs meets 0 (h.popped ++ drained) path ≡ fs path ++ sent)
      × (wrote reads ≡ sent ++ lost)
      × ((lost ≡ []) ⊎ (any_refused reads ≡ true))
pipeline_delivers fs meets calls fuel i path reads lt named logs written mine enough =
    let h = run log_buffer_init calls in
    let all : h.popped ++ contents h.final ≡ h.pushed =
      run_fifo log_buffer_init calls init-IsValid ∙ ap (λ es. es ++ h.pushed) starts_empty in
    let (lost, whole, why) = log_producer_main_lem (pos i) reads in
    (
      contents h.final,
      payloads (log_producer_main (pos i) reads),
      lost,
      drain_shutdown h.final fuel (run-IsValid log_buffer_init calls init-IsValid) enough,
      consume_all_routes fs meets 0 (h.popped ++ contents h.final) path named
          ∙ ap (λ es. fs path ++ routed path meets 0 es) all
          ∙ ap (◌++◌ (fs path))
              (routed-made_for meets i path 0 h.pushed lt named logs written ∙ ap payloads mine),
      whole,
      why,
    )
