-- ===== src/LogBuffer/Trace.antt =====
-- Whole histories of calls of a log buffer, through its interface: what every call returns.
use os_jackfruit.Prelude.{◌≡◌, ◌∙◌, List, [], ◌∷◌, Option, ℤ, refl, ap}
use os_jackfruit.LogBuffer.{LogEntry, LogBuffer}
use os_jackfruit.LogBuffer.Inv.{IsValid}
use os_jackfruit.LogBuffer.Refine.{view}
use os_jackfruit.LogBuffer.History.{Call, push, pop, close}
use os_jackfruit.LogBuffer.Interface.{Fifo, IsLawful, ring, queue, ring-IsLawful}

-- What a call returns.
pub data Answer : Type 0 where
  pushed : Option ℤ → Answer
  popped : Option (ℤ × Option LogEntry) → Answer
  closed : Answer

-- The answers to a sequence of calls, in order.
unfoldable pub trace : (F : Fifo) → F.State → List Call → List Answer
trace F s [] = []
trace F s (push e ∷ calls) = pushed (F.enter s e).1 ∷ trace F (F.enter s e).0 calls
trace F s (pop ∷ calls) = popped (F.leave s).1 ∷ trace F (F.leave s).0 calls
trace F s (close ∷ calls) = closed ∷ trace F (F.shut s) calls

module _ (F : Fifo) (laws : IsLawful F) where
  -- A lawful buffer gives the answers of the queue that it shows.
  trace-IsLawful :
      (s : F.State) (calls : List Call)
      → laws.IsSound s
      → trace F s calls ≡ trace queue (laws.shown s) calls
  unfolding trace
  trace-IsLawful s [] v = refl
  trace-IsLawful s (push e ∷ calls) v =
      ap (λ xs. pushed (F.enter s e).1 ∷ xs)
        (trace-IsLawful (F.enter s e).0 calls (laws.enter-IsSound s e v))
      ∙ ap (λ p. pushed p.1 ∷ trace queue p.0 calls) (laws.enter_shown s e v)
  trace-IsLawful s (pop ∷ calls) v =
      ap (λ xs. popped (F.leave s).1 ∷ xs)
        (trace-IsLawful (F.leave s).0 calls (laws.leave-IsSound s v))
      ∙ ap (λ p. popped p.1 ∷ trace queue p.0 calls) (laws.leave_shown s v)
  trace-IsLawful s (close ∷ calls) v =
      ap (λ xs. closed ∷ xs)
        (trace-IsLawful (F.shut s) calls (laws.shut-IsSound s v)
          ∙ ap (λ q. trace queue q calls) (laws.shut_shown s v))

-- In every history of pushes, pops and shutdowns from a valid ring, each call returns what it
-- returns on a queue of at most 128 entries that can be closed, with the same contents at first.
pub trace_refines :
    (b : LogBuffer) (calls : List Call)
    → IsValid b
    → trace ring b calls ≡ trace queue (view b) calls
trace_refines b calls v = trace-IsLawful ring ring-IsLawful b calls v
