-- ===== src/LogBuffer.antt =====
-- The bounded log buffer of engine.c (`log_buffer_t`): a ring of entries between the producer
-- threads and the consumer thread. Each function is what one thread does while it holds
-- `buf->mutex`; a call that has to wait leaves the thread asleep on its condition variable, and
-- runs again from the test of its `while` once the thread is woken.
pub mod Inv
pub mod Refine
pub mod History
pub mod Wakeup
pub mod Closed
pub mod Interface
pub mod Trace
mod Tests
use os_jackfruit.Prelude.{
  ℕ, suc, ◌+◌, ◌-◌, ◌%◌, Bool, true, false, not, ◌&&◌, List, Option, none, some, ◌==◌, ltb,
  if◌then◌else◌, replicate, set, get_elem?, ℤ, pos, minus_one,
}

abbrev pub log_buffer_capacity : ℕ
log_buffer_capacity = 128

abbrev pub log_chunk_size : ℕ
log_chunk_size = 512

-- `log_entry_t`; `bytes` is its field `data`.
pub record LogEntry : Type 0 where
  pub container_index : ℤ
  pub len : ℕ
  pub bytes : List ℕ

-- A `pthread_cond_t`: the threads asleep on it, and those woken that do not hold the mutex yet.
pub record CondVar : Type 0 where
  pub sleeping : ℕ
  pub woken : ℕ

abbrev pub idle_cond : CondVar
idle_cond = record { sleeping = 0; woken = 0 }

-- pthread_cond_wait, up to the point where the thread sleeps
abbrev pub cond_wait : CondVar → CondVar
cond_wait c = record c { sleeping = c.sleeping + 1 }

-- pthread_cond_signal: one sleeper, if there is one
abbrev pub cond_signal : CondVar → CondVar
cond_signal c =
    if ltb 0 c.sleeping then record { sleeping = c.sleeping - 1; woken = c.woken + 1 } else c

-- pthread_cond_broadcast: every sleeper
abbrev pub cond_broadcast : CondVar → CondVar
cond_broadcast c = record { sleeping = 0; woken = c.woken + c.sleeping }

-- A woken thread gets the mutex back.
abbrev pub cond_resume : CondVar → CondVar
cond_resume c = record c { woken = c.woken - 1 }

pub record LogBuffer : Type 0 where
  pub entries : List LogEntry
  pub head : ℕ
  pub tail : ℕ
  pub count : ℕ
  pub shutdown : Bool
  pub not_full : CondVar
  pub not_empty : CondVar

-- An entry as `memset` leaves it.
abbrev pub zero_entry : LogEntry
zero_entry = record { container_index = pos 0; len = 0; bytes = replicate log_chunk_size 0 }

unfoldable pub log_buffer_init : LogBuffer
log_buffer_init = record {
  entries = replicate log_buffer_capacity zero_entry;
  head = 0;
  tail = 0;
  count = 0;
  shutdown = false;
  not_full = idle_cond;
  not_empty = idle_cond;
}

unfoldable pub log_buffer_shutdown : LogBuffer → LogBuffer
log_buffer_shutdown b = record b {
  shutdown = true;
  not_full = cond_broadcast b.not_full;
  not_empty = cond_broadcast b.not_empty;
}

-- The result is what the call returns; `none`: it waits on `not_full`.
unfoldable pub log_buffer_push : LogBuffer → LogEntry → LogBuffer × Option ℤ
log_buffer_push b entry =
    if b.count == log_buffer_capacity && not b.shutdown
    then (record b { not_full = cond_wait b.not_full }, none)
    else if b.shutdown
    then (b, some minus_one)
    else (
      record b {
        entries = set b.entries b.tail entry;
        tail = (b.tail + 1) % log_buffer_capacity;
        count = b.count + 1;
        not_empty = cond_signal b.not_empty;
      },
      some (pos 0),
    )

-- The result is what the call returns, with what it writes through `entry_out`; `none`: it waits
-- on `not_empty`.
unfoldable pub log_buffer_pop : LogBuffer → LogBuffer × Option (ℤ × Option LogEntry)
log_buffer_pop b =
    if b.count == 0 && not b.shutdown
    then (record b { not_empty = cond_wait b.not_empty }, none)
    else if b.count == 0 && b.shutdown
    then (b, some (minus_one, none))
    else (
      record b {
        head = (b.head + 1) % log_buffer_capacity;
        count = b.count - 1;
        not_full = cond_signal b.not_full;
      },
      some (pos 0, get_elem? b.entries b.head),
    )
