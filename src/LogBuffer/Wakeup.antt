-- ===== src/LogBuffer/Wakeup.antt =====
-- The condition variables of the log buffer under every interleaving of any number of producers,
-- consumers and a shutdown: no wake-up is lost.
use os_jackfruit.Prelude.{◌+◌, ◌-◌, ◌≤◌, ◌<◌, ◌≡◌, refl, ◌⊎◌, inl, true, false, arith}
use os_jackfruit.LogBuffer.{
  LogEntry, LogBuffer, CondVar, cond_resume, log_buffer_capacity, log_buffer_init,
  log_buffer_shutdown, log_buffer_push, log_buffer_pop,
}
use os_jackfruit.LogBuffer.Inv.{IsValid, init-IsValid, push-IsValid, pop-IsValid, shutdown-IsValid}

-- pthread_cond_wait may return with no signal.
abbrev pub spurious : CondVar → CondVar
spurious c = record { sleeping = c.sleeping - 1; woken = c.woken + 1 }

-- One critical section of some thread, or a spurious wake-up.
pub data Step (b : LogBuffer) : LogBuffer → Type 0 where
  push_call : (e : LogEntry) → Step b (log_buffer_push b e).0
  push_resume :
      (e : LogEntry)
      → 0 < b.not_full.woken
      → Step b (log_buffer_push (record b { not_full = cond_resume b.not_full }) e).0
  pop_call : Step b (log_buffer_pop b).0
  pop_resume :
      0 < b.not_empty.woken
      → Step b (log_buffer_pop (record b { not_empty = cond_resume b.not_empty })).0
  close : Step b (log_buffer_shutdown b)
  wake_producer : 0 < b.not_full.sleeping → Step b (record b { not_full = spurious b.not_full })
  wake_consumer : 0 < b.not_empty.sleeping → Step b (record b { not_empty = spurious b.not_empty })

pub data Reach : LogBuffer → Type 0 where
  start : Reach log_buffer_init
  later : {b c : LogBuffer} → Reach b → Step b c → Reach c

-- A sleeping producer is owed a wake-up for each free slot, a sleeping consumer for each entry;
-- after the shutdown nobody sleeps.
pub record Inv (b : LogBuffer) : Type 0 where
  pub valid : IsValid b
  pub producers : (b.not_full.sleeping ≡ 0) ⊎ (log_buffer_capacity ≤ b.count + b.not_full.woken)
  pub consumers : (b.not_empty.sleeping ≡ 0) ⊎ (b.count ≤ b.not_empty.woken)
  pub closed : b.shutdown ≡ true → (b.not_full.sleeping ≡ 0) × (b.not_empty.sleeping ≡ 0)

init-Inv : Inv log_buffer_init
unfolding log_buffer_init
init-Inv = record {
  valid = init-IsValid;
  producers = inl refl;
  consumers = inl refl;
  closed = λ _. (refl, refl);
}

Step-IsValid : {b c : LogBuffer} → Step b c → IsValid b → IsValid c
Step-IsValid {b} (push_call e) v = push-IsValid b e v
Step-IsValid {b} (push_resume e h) v = push-IsValid _ e (omega arith)
Step-IsValid {b} pop_call v = pop-IsValid b v
Step-IsValid {b} (pop_resume h) v = pop-IsValid _ (omega arith)
Step-IsValid {b} close v = shutdown-IsValid b v
Step-IsValid (wake_producer h) v = omega arith
Step-IsValid (wake_consumer h) v = omega arith

-- With the facts about the buffer itself shut away, each step is arithmetic on the counters.
Step-Inv : {b c : LogBuffer} → Step b c → Inv b → Inv c
unfolding log_buffer_push log_buffer_pop log_buffer_shutdown
Step-Inv {b} (push_call e) v = ground (arith, Step-IsValid (push_call e) v.valid)
Step-Inv {b} (push_resume e h) v = ground (arith, Step-IsValid (push_resume e h) v.valid)
Step-Inv {b} pop_call v = ground (arith, Step-IsValid {b = b} pop_call v.valid)
Step-Inv {b} (pop_resume h) v = ground (arith, Step-IsValid (pop_resume h) v.valid)
Step-Inv {b} close v = ground (arith, Step-IsValid {b = b} close v.valid)
Step-Inv (wake_producer h) v = ground (arith, Step-IsValid (wake_producer h) v.valid)
Step-Inv (wake_consumer h) v = ground (arith, Step-IsValid (wake_consumer h) v.valid)

Reach-Inv : {b : LogBuffer} → Reach b → Inv b
Reach-Inv start = init-Inv
Reach-Inv (later r s) = Step-Inv s (Reach-Inv r)

-- In every reachable state with no woken thread still on its way to the mutex, producers sleep
-- only while the buffer is full and consumers only while it is empty, nobody sleeps after the
-- shutdown, and producers and consumers never sleep together.
pub no_lost_wakeup :
    {b : LogBuffer}
    → Reach b
    → b.not_full.woken ≡ 0
    → b.not_empty.woken ≡ 0
    → ((b.not_full.sleeping ≡ 0) ⊎ (b.count ≡ log_buffer_capacity))
      × ((b.not_empty.sleeping ≡ 0) ⊎ (b.count ≡ 0))
      × ((b.shutdown ≡ false) ⊎ (b.not_full.sleeping + b.not_empty.sleeping ≡ 0))
      × ((b.not_full.sleeping ≡ 0) ⊎ (b.not_empty.sleeping ≡ 0))
no_lost_wakeup r p c = ground (arith, Reach-Inv r)
