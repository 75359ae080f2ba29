-- ===== src/LogBuffer/History.antt =====
-- The log buffer over whole histories of calls: first in, first out, nothing lost or made up, and
-- the consumer's loop after the shutdown.
use mathlib.Core.Option
use os_jackfruit.Prelude.{
  length, ◌<◌, Bool, false, subst, minus_one, ℕ, zero, suc, ◌≡◌, refl, sym, ap, ◌∙◌, true, List, [],
  ◌∷◌, ◌++◌, append-nil, append_assoc, Option, none, some, arith, ℤ, pos, negsuc,
}
use os_jackfruit.LogBuffer.{
  LogEntry, LogBuffer, log_buffer_shutdown, log_buffer_push, log_buffer_pop,
}
use os_jackfruit.LogBuffer.Inv.{IsValid, push-IsValid, pop-IsValid, shutdown-IsValid}
use os_jackfruit.LogBuffer.Refine.{
  length-contents, contents, view, Queue, enqueue, dequeue, push_refines, pop_refines,
}

pub data Call : Type 0 where
  push : LogEntry → Call
  pop : Call
  close : Call

-- The entry of a push that returned 0.
abbrev pub accepted : Option ℤ → LogEntry → List LogEntry
accepted none e = []
accepted (some (pos zero)) e = e ∷ []
accepted (some (pos (suc n))) e = []
accepted (some (negsuc n)) e = []

-- What a pop gave its caller.
abbrev pub delivered : Option (ℤ × Option LogEntry) → List LogEntry
delivered none = []
delivered (some (code, none)) = []
delivered (some (code, some e)) = e ∷ []

-- The entries accepted and delivered by the calls of a history, in order, and the final buffer.
pub record History : Type 0 where
  pub final : LogBuffer
  pub pushed : List LogEntry
  pub popped : List LogEntry

unfoldable pub run : LogBuffer → List Call → History
run b [] = record { final = b; pushed = []; popped = [] }
run b (push e ∷ calls) =
    let (c, r) = log_buffer_push b e in
    let h = run c calls in record h { pushed = accepted r e ++ h.pushed }
run b (pop ∷ calls) =
    let (c, r) = log_buffer_pop b in
    let h = run c calls in record h { popped = delivered r ++ h.popped }
run b (close ∷ calls) = run (log_buffer_shutdown b) calls

enqueue-items :
    (q : Queue) (e : LogEntry) → (enqueue q e).0.items ≡ q.items ++ accepted (enqueue q e).1 e
unfolding enqueue
enqueue-items q e = ground (arith, append-nil q.items)

dequeue-items :
    (es : List LogEntry) (closed : Bool)
    → es ≡ delivered (dequeue es closed).1 ++ (dequeue es closed).0.items
unfolding dequeue
dequeue-items [] true = refl
dequeue-items [] false = refl
dequeue-items (e ∷ es) closed = refl

contents-push :
    (b : LogBuffer) (e : LogEntry)
    → IsValid b
    → contents (log_buffer_push b e).0 ≡ contents b ++ accepted (log_buffer_push b e).1 e
contents-push b e v =
    subst (λ p. p.0.items ≡ contents b ++ accepted p.1 e) (sym (push_refines b e v))
      (enqueue-items (view b) e)

contents-pop :
    (b : LogBuffer)
    → IsValid b
    → contents b ≡ delivered (log_buffer_pop b).1 ++ contents (log_buffer_pop b).0
contents-pop b v =
    subst (λ p. contents b ≡ delivered p.1 ++ p.0.items) (sym (pop_refines b v))
      (dequeue-items (contents b) b.shutdown)

contents-shutdown : (b : LogBuffer) → contents (log_buffer_shutdown b) ≡ contents b
unfolding log_buffer_shutdown
contents-shutdown b = refl

-- In every history of pushes, pops and shutdowns from a valid buffer, the entries popped followed
-- by those still stored are exactly the entries stored at first followed by those accepted, in
-- the same order.
pub run_fifo :
    (b : LogBuffer) (calls : List Call)
    → IsValid b
    → (run b calls).popped ++ contents (run b calls).final ≡ contents b ++ (run b calls).pushed
unfolding run
run_fifo b [] v = sym (append-nil (contents b))
run_fifo b (push e ∷ calls) v =
    let rest = run_fifo (log_buffer_push b e).0 calls (push-IsValid b e v) in
    rest
    ∙ ap (λ xs. xs ++ (run (log_buffer_push b e).0 calls).pushed) (contents-push b e v)
    ∙ append_assoc (contents b) _ _
run_fifo b (pop ∷ calls) v =
    let c = (log_buffer_pop b).0 in
    append_assoc (delivered (log_buffer_pop b).1) _ _
    ∙ ap (◌++◌ (delivered (log_buffer_pop b).1)) (run_fifo c calls (pop-IsValid b v))
    ∙ sym (append_assoc (delivered (log_buffer_pop b).1) _ _)
    ∙ ap (λ xs. xs ++ (run c calls).pushed) (sym (contents-pop b v))
run_fifo b (close ∷ calls) v =
    rw (← contents-shutdown b) (run_fifo (log_buffer_shutdown b) calls (shutdown-IsValid b v))

-- The loop of `log_consumer_main` over the buffer alone: it pops until a call fails. `none`: the
-- fuel ran out, or the thread is asleep.
unfoldable pub drain : ℕ → LogBuffer → Option (List LogEntry)
drain zero b = none
drain (suc fuel) b =
    let rest = drain fuel (log_buffer_pop b).0 in
    elim (log_buffer_pop b).1 [
      | none ↦ none
      | some (pos zero, out) ↦ Option.map (λ es. delivered (some (pos zero, out)) ++ es) rest
      | some (pos (suc n), out) ↦ some []
      | some (negsuc n, out) ↦ some []
    ]

-- What a pop of a closed buffer with these contents comes to.
abbrev PopsClosed : List LogEntry → Queue × Option (ℤ × Option LogEntry) → Type 0
PopsClosed [] (q, r) = r ≡ some (minus_one, none)
PopsClosed (e ∷ es) (q, r) = (r ≡ some (pos 0, some e)) × (q.items ≡ es) × (q.closed ≡ true)

dequeue-PopsClosed : (es : List LogEntry) → PopsClosed es (dequeue es true)
unfolding dequeue
dequeue-PopsClosed [] = refl
dequeue-PopsClosed (e ∷ es) = (refl, refl, refl)

pop-PopsClosed :
    (b : LogBuffer)
    → IsValid b
    → b.shutdown ≡ true
    → let (c, r) = log_buffer_pop b in PopsClosed (contents b) (view c, r)
pop-PopsClosed b v closed =
    subst (PopsClosed (contents b)) (sym (pop_refines b v))
      (rw closed (dequeue-PopsClosed (contents b)))

drain-contents :
    (fuel : ℕ) (b : LogBuffer) (es : List LogEntry)
    → contents b ≡ es
    → IsValid b
    → b.shutdown ≡ true
    → length es < fuel
    → drain fuel b ≡ some es
unfolding drain
drain-contents zero b es at v closed enough = absurd (omega arith)
drain-contents (suc fuel) b [] at v closed enough =
    let p =
      subst (λ xs. PopsClosed xs (view (log_buffer_pop b).0, (log_buffer_pop b).1)) at
        (pop-PopsClosed b v closed) in
    rw (p, drain) refl
drain-contents (suc fuel) b (e ∷ es) at v closed enough =
    let p =
      subst (λ xs. PopsClosed xs (view (log_buffer_pop b).0, (log_buffer_pop b).1)) at
        (pop-PopsClosed b v closed) in
    let rest =
      drain-contents fuel (log_buffer_pop b).0 es p.1 (pop-IsValid b v) p.2 (omega arith) in
    rw (p.0, drain, rest)

-- After the shutdown of a valid buffer the consumer's loop ends, within one round more than the
-- entries stored, and it has been given every one of them in order.
pub drain_shutdown :
    (b : LogBuffer) (fuel : ℕ)
    → IsValid b
    → b.count < fuel
    → drain fuel (log_buffer_shutdown b) ≡ some (contents b)
unfolding log_buffer_shutdown
drain_shutdown b fuel v enough =
    drain-contents fuel (log_buffer_shutdown b) (contents b) refl (shutdown-IsValid b v) refl
      (omega (arith, length-contents b))
