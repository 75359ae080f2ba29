-- ===== src/Logging.antt =====
-- The two threads of the logging pipeline (engine.c): `log_producer_main`, which turns what a
-- container writes into entries, and the body of `log_consumer_main`, which appends an entry to
-- its container's log file. What `read`, `open` and `write` do is an argument.
pub mod Delivery
pub mod Pipeline
mod Tests
use os_jackfruit.Prelude.{
  ℕ, ◌+◌, ◌-◌, Bool, true, false, List, [], ◌∷◌, ◌++◌, Option, none, some, ℤ, pos, negsuc, CString,
  str_eq, if◌then◌else◌, ltb, length, take, replicate, get_elem?,
}
use os_jackfruit.Protocol.{safe_strcpy, max_path_len}
use os_jackfruit.Containers.{Container, Table, max_containers}
use os_jackfruit.LogBuffer.{LogEntry, log_chunk_size}

-- What one `read` of the pipe comes to; a chunk holds at least a byte and at most the buffer.
pub data ReadResult : Type 0 where
  chunk : List ℕ → ReadResult
  end_of_file interrupted failed : ReadResult

-- The entry is zeroed, then filled.
unfoldable pub make_entry : ℤ → List ℕ → LogEntry
make_entry container_index buf = record {
  container_index = container_index;
  len = length buf;
  bytes = buf ++ replicate (log_chunk_size - length buf) 0;
}

-- The loop of the producer over the results of its reads, each with whether the push of its entry
-- is accepted; the entries that it pushed. A list that ends early is a thread still in `read`.
unfoldable pub log_producer_main : ℤ → List (ReadResult × Bool) → List LogEntry
log_producer_main container_index [] = []
log_producer_main container_index ((chunk buf, true) ∷ reads) =
    make_entry container_index buf ∷ log_producer_main container_index reads
log_producer_main container_index ((chunk buf, false) ∷ reads) = []
log_producer_main container_index ((end_of_file, _) ∷ reads) = []
log_producer_main container_index ((interrupted, _) ∷ reads) =
    log_producer_main container_index reads
log_producer_main container_index ((failed, _) ∷ reads) = []

-- The contents of the files, by path.
abbrev pub FileSystem : Type 0
FileSystem = CString → List ℕ

abbrev pub append_to : FileSystem → CString → List ℕ → FileSystem
append_to fs path written other = if str_eq path other then fs other ++ written else fs other

abbrev pub log_file_of : Option Container → CString
log_file_of none = []
log_file_of (some c) = if c.used then safe_strcpy [] (some c.log_file) max_path_len else []

-- The copy of the path under `containers_mutex`; empty if the index names no used slot.
unfoldable pub entry_log_path : Table → LogEntry → CString
entry_log_path t entry = elim entry.container_index [
  | negsuc n ↦ []
  | pos i ↦ if ltb i max_containers then log_file_of (get_elem? t i) else []
]

-- Whether the log file opens, and how many bytes `write` takes.
pub record WriteAnswer : Type 0 where
  pub open_ok : Bool
  pub written : ℕ

-- What the consumer does with one entry.
unfoldable pub consume_entry : Table → FileSystem → LogEntry → WriteAnswer → FileSystem
consume_entry t fs entry a = elim (entry_log_path t entry) [
  | [] ↦ fs
  | x ∷ xs ↦
      if a.open_ok then append_to fs (x ∷ xs) (take a.written (take entry.len entry.bytes)) else fs
]

-- What the consumer meets when it comes to an entry: the table as it is then, and the answers for
-- the log file.
pub record Meeting : Type 0 where
  pub table : Table
  pub answer : WriteAnswer

-- The entries in the order in which they are popped; the `n`-th of them meets `meets n`.
unfoldable pub consume_all : FileSystem → (ℕ → Meeting) → ℕ → List LogEntry → FileSystem
consume_all fs meets n [] = fs
consume_all fs meets n (entry ∷ entries) =
    consume_all (consume_entry (meets n).table fs entry (meets n).answer) meets (n + 1) entries
