-- ===== src/Logging/Delivery.antt =====
-- What ends up in the log files.
use os_jackfruit.Prelude.{
  ◌+◌, ◌||◌, not, inl, inr, ◌⊎◌, take, ℕ, ◌≡◌, ◌≢◌, Bool, true, false, List, [], ◌∷◌, ◌++◌, ℤ,
  CString, str_eq, str_eq_iff, if◌then◌else◌, length, take_all, take-append_within, append_assoc,
  append-nil, arith, refl, sym, ap, ◌∙◌,
}
use os_jackfruit.Containers.{Table}
use os_jackfruit.LogBuffer.{LogEntry}
use os_jackfruit.Logging.{
  Meeting, ReadResult, chunk, end_of_file, interrupted, failed, make_entry, log_producer_main,
  FileSystem, entry_log_path, WriteAnswer, consume_entry, consume_all,
}

-- The bytes that an entry carries.
abbrev pub payload : LogEntry → List ℕ
payload entry = take entry.len entry.bytes

-- What the log file gets of an entry.
abbrev pub written_part : WriteAnswer → LogEntry → List ℕ
written_part a entry = if a.open_ok then take a.written (payload entry) else []

-- What the entries whose container logs to this path bring into the file, in order.
unfoldable pub routed : CString → (ℕ → Meeting) → ℕ → List LogEntry → List ℕ
routed path meets n [] = []
routed path meets n (entry ∷ entries) =
    let rest = routed path meets (n + 1) entries in
    if str_eq (entry_log_path (meets n).table entry) path
    then written_part (meets n).answer entry ++ rest
    else rest

consume_entry_on :
    (t : Table) (fs : FileSystem) (entry : LogEntry) (a : WriteAnswer) (path route : CString)
    → path ≢ []
    → entry_log_path t entry ≡ route
    → consume_entry t fs entry a path
      ≡ (if str_eq route path then fs path ++ written_part a entry else fs path)
unfolding consume_entry
consume_entry_on t fs entry a path [] named e =
    rw (e, consume_entry) (ground (arith, str_eq_iff [] path))
consume_entry_on t fs entry a path (x ∷ xs) named e =
    rw (e, consume_entry) (ground (arith, append-nil (fs path)))

-- The consumer adds to each log file, whose path is not empty, exactly what the writes took of the
-- entries whose container logged there when they were consumed, in the order in which they were
-- popped, however the entries of several containers are mixed.
pub consume_all_routes :
    (fs : FileSystem) (meets : ℕ → Meeting) (n : ℕ) (entries : List LogEntry) (path : CString)
    → path ≢ []
    → consume_all fs meets n entries path ≡ fs path ++ routed path meets n entries
unfolding consume_all routed
consume_all_routes fs meets n [] path named = sym (append-nil (fs path))
consume_all_routes fs meets n (entry ∷ entries) path named =
    let a = (meets n).answer in
    let t = (meets n).table in
    consume_all_routes (consume_entry t fs entry a) meets (n + 1) entries path named
    ∙ ground (
      arith,
      consume_entry_on t fs entry a path (entry_log_path t entry) named refl,
      append_assoc (fs path) (written_part a entry) (routed path meets (n + 1) entries),
    )

-- Everything that is read from the pipe, up to the end of the output or an error, whatever becomes
-- of it.
unfoldable pub wrote : List (ReadResult × Bool) → List ℕ
wrote [] = []
wrote ((chunk buf, _) ∷ reads) = buf ++ wrote reads
wrote ((end_of_file, _) ∷ reads) = []
wrote ((interrupted, _) ∷ reads) = wrote reads
wrote ((failed, _) ∷ reads) = []

-- Whether a push is refused before the end of the output.
unfoldable pub any_refused : List (ReadResult × Bool) → Bool
any_refused [] = false
any_refused ((chunk buf, accepted) ∷ reads) = not accepted || any_refused reads
any_refused ((end_of_file, _) ∷ reads) = false
any_refused ((interrupted, _) ∷ reads) = any_refused reads
any_refused ((failed, _) ∷ reads) = false

-- The bytes of a list of entries.
unfoldable pub payloads : List LogEntry → List ℕ
payloads [] = []
payloads (entry ∷ entries) = payload entry ++ payloads entries

payload-make_entry : (i : ℤ) (buf : List ℕ) → payload (make_entry i buf) ≡ buf
unfolding make_entry
payload-make_entry i buf =
    take-append_within (length buf) buf _ (omega arith) ∙ take_all (length buf) buf (omega arith)

-- The entries of a producer carry the first part of what it reads, and all of it when none of its
-- pushes is refused.
pub log_producer_main_lem :
    (i : ℤ) (reads : List (ReadResult × Bool))
    → (lost : List ℕ) × (wrote reads ≡ payloads (log_producer_main i reads) ++ lost)
      × ((lost ≡ []) ⊎ (any_refused reads ≡ true))
unfolding log_producer_main wrote any_refused payloads
log_producer_main_lem i [] = ([], refl, inl refl)
log_producer_main_lem i ((chunk buf, true) ∷ reads) =
    let (lost, whole, why) = log_producer_main_lem i reads in
    let sent = payloads (log_producer_main i reads) in
    (
      lost,
      ap (λ xs. buf ++ xs) whole
          ∙ sym (append_assoc buf sent lost)
          ∙ ap (λ xs. (xs ++ sent) ++ lost) (sym (payload-make_entry i buf)),
      why,
    )
log_producer_main_lem i ((chunk buf, false) ∷ reads) = (buf ++ wrote reads, refl, inr refl)
log_producer_main_lem i ((end_of_file, _) ∷ reads) = ([], refl, inl refl)
log_producer_main_lem i ((interrupted, _) ∷ reads) = log_producer_main_lem i reads
log_producer_main_lem i ((failed, _) ∷ reads) = ([], refl, inl refl)
