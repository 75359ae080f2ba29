-- ===== src/LogBuffer/Inv.antt =====
-- The representation invariant of `log_buffer_t`: every index is in bounds, and `head`, `tail` and
-- `count` agree.
use os_jackfruit.Prelude.{◌+◌, ◌%◌, ◌≤◌, ◌<◌, ◌≡◌, arith, length, length-set, length-replicate}
use os_jackfruit.LogBuffer.{
  LogEntry, LogBuffer, log_buffer_capacity, zero_entry, log_buffer_init, log_buffer_shutdown,
  log_buffer_push, log_buffer_pop,
}

pub record IsValid (b : LogBuffer) : Type 0 where
  pub storage : length b.entries ≡ log_buffer_capacity
  pub head_in : b.head < log_buffer_capacity
  pub count_in : b.count ≤ log_buffer_capacity
  pub tail_at : b.tail ≡ (b.head + b.count) % log_buffer_capacity

pub init-IsValid : IsValid log_buffer_init
unfolding log_buffer_init
init-IsValid = record {
  storage = length-replicate log_buffer_capacity zero_entry;
  head_in = omega arith;
  count_in = omega arith;
  tail_at = omega arith;
}

-- A push keeps the invariant, whether it waits, is refused or stores its entry.
pub push-IsValid : (b : LogBuffer) (e : LogEntry) → IsValid b → IsValid (log_buffer_push b e).0
unfolding log_buffer_push
push-IsValid b e v = ground (arith, length-set b.entries b.tail e)

-- A pop keeps the invariant, whether it waits, ends or takes an entry.
pub pop-IsValid : (b : LogBuffer) → IsValid b → IsValid (log_buffer_pop b).0
unfolding log_buffer_pop
pop-IsValid b v = ground arith

pub shutdown-IsValid : (b : LogBuffer) → IsValid b → IsValid (log_buffer_shutdown b)
unfolding log_buffer_shutdown
shutdown-IsValid b v = ground arith
