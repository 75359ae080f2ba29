-- ===== src/LogBuffer/Refine.antt =====
-- The log buffer against a bounded FIFO that can be closed: what each call returns, the order of
-- the entries, and what the consumer still gets after the shutdown.
use os_jackfruit.Prelude.{
  ℕ, zero, suc, ◌+◌, ◌-◌, ◌%◌, ◌<◌, ◌≡◌, refl, ap, ap₂, ◌≢◌, Bool, true, false, List, [], ◌∷◌, ◌++◌,
  Option, none, some, arith, ◌==◌, if◌then◌else◌, length, get_or, set, get_elem?-eq-get_or,
  get_or-set_self, get_or-set_ne, ℤ, pos, minus_one,
}
use os_jackfruit.LogBuffer.{
  LogEntry, LogBuffer, log_buffer_capacity, zero_entry, log_buffer_push, log_buffer_pop,
}
use os_jackfruit.LogBuffer.Inv.{IsValid}

-- the `n` entries from index `h` on, going round at the capacity
abbrev window : List LogEntry → ℕ → ℕ → List LogEntry
window es h zero = []
window es h (suc n) = get_or es h zero_entry ∷ window es ((h + 1) % log_buffer_capacity) n

-- the stored entries, oldest first
abbrev pub contents : LogBuffer → List LogEntry
contents b = window b.entries b.head b.count

length-window : (es : List LogEntry) (h n : ℕ) → length (window es h n) ≡ n
length-window es h zero = refl
length-window es h (suc n) = ap suc (length-window es ((h + 1) % log_buffer_capacity) n)

pub length-contents : (b : LogBuffer) → length (contents b) ≡ b.count
length-contents b = length-window b.entries b.head b.count

window_of_ne_zero :
    (es : List LogEntry) (h n : ℕ)
    → n ≢ 0
    → window es h n ≡ get_or es h zero_entry ∷ window es ((h + 1) % log_buffer_capacity) (n - 1)
window_of_ne_zero es h zero p = absurd (p refl)
window_of_ne_zero es h (suc n) p = ap (λ k. window es h (suc k)) (omega arith)

-- Writing just past a window extends it by that entry.
window-set :
    (es : List LogEntry) (e : LogEntry) (n h i : ℕ)
    → length es ≡ log_buffer_capacity
    → h < log_buffer_capacity
    → n < log_buffer_capacity
    → i ≡ (h + n) % log_buffer_capacity
    → window (set es i e) h (suc n) ≡ window es h n ++ e ∷ []
window-set es e zero h i l hh hn p =
    let at : i ≡ h = omega arith in
    rw at (ap (λ x. x ∷ []) (get_or-set_self es h e zero_entry (omega arith)))
window-set es e (suc n) h i l hh hn p = ap₂ ◌∷◌ (get_or-set_ne es e zero_entry (omega arith)) (
    window-set es e n ((h + 1) % log_buffer_capacity) i l (omega arith) (omega arith) (omega arith))

-- The abstract buffer: a queue of at most 128 entries, and whether it is closed.
pub record Queue : Type 0 where
  pub items : List LogEntry
  pub closed : Bool

abbrev pub view : LogBuffer → Queue
view b = record { items = contents b; closed = b.shutdown }

-- A full open queue makes the caller wait, a closed one refuses, else the entry goes last.
unfoldable pub enqueue : Queue → LogEntry → Queue × Option ℤ
enqueue q e =
    if q.closed
    then (q, some minus_one)
    else if length q.items == log_buffer_capacity
    then (q, none)
    else (record q { items = q.items ++ e ∷ [] }, some (pos 0))

-- The oldest entry; an empty queue makes the caller wait while it is open.
unfoldable pub dequeue : List LogEntry → Bool → Queue × Option (ℤ × Option LogEntry)
dequeue [] false = (record { items = []; closed = false }, none)
dequeue [] true = (record { items = []; closed = true }, some (minus_one, none))
dequeue (e ∷ es) closed = (record { items = es; closed = closed }, some (pos 0, some e))

-- On a valid buffer, a push returns what the abstract queue returns, and leaves its contents.
pub push_refines :
    (b : LogBuffer) (e : LogEntry)
    → IsValid b
    → let (c, r) = log_buffer_push b e in (view c, r) ≡ enqueue (view b) e
unfolding log_buffer_push enqueue
push_refines b e v = ground (arith, length-contents b, window-set b.entries e b.count b.head b.tail)

-- On a valid buffer, a pop returns what the abstract queue returns, and leaves its contents.
pub pop_refines :
    (b : LogBuffer)
    → IsValid b
    → let (c, r) = log_buffer_pop b in (view c, r) ≡ dequeue (contents b) b.shutdown
unfolding log_buffer_pop dequeue
pop_refines b v = ground (
  arith,
  window_of_ne_zero b.entries b.head b.count,
  get_elem?-eq-get_or b.entries b.head zero_entry,
)
