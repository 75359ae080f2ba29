-- ===== src/Start/Resources.antt =====
-- What a start holds when it ends, and what becomes of the child.
use os_jackfruit.Prelude.{
  Bool, true, false, ◌&&◌, not, Option, none, some, ℤ, is_negative, arith, ◌≡◌, if◌then◌else◌,
}
use os_jackfruit.Start.{Held, nothing_held, StartAnswers, Spawned, failed, child_runs, spawn}

-- The pipe's read end and the argument that the producer thread owns, and the child's stack.
abbrev pub running_held : Held
running_held = record {
  read_end = true;
  write_end = false;
  stack = true;
  child = false;
  parg = true;
}

abbrev pub all_granted : StartAnswers → Bool
all_granted a = elim a.pipe [
  | some _ ↦ false
  | none ↦ elim a.stack [
    | none ↦ false
    | some _ ↦ a.child_ok && (not (is_negative a.clone) && a.parg_ok)
  ]
]

-- The process that a failed attempt has to get rid of: the child, if it was made.
abbrev pub made_child : StartAnswers → Option ℤ
made_child a = elim a.pipe [
  | some _ ↦ none
  | none ↦ elim a.stack [
    | none ↦ none
    | some _ ↦ if a.child_ok && not (is_negative a.clone) then some a.clone else none
  ]
]

abbrev pub Leaves : StartAnswers → Spawned × Held → Type 0
Leaves a (failed text kill, held) =
    (all_granted a ≡ false) × (held ≡ nothing_held) × (kill ≡ made_child a)
Leaves a (child_runs pid stack, held) =
    (all_granted a ≡ true) × (held ≡ running_held) × (pid ≡ a.clone) × (a.stack ≡ some stack)

-- The steps between the critical sections succeed exactly when the system grants them all, and
-- then hold the pipe's read end, the stack and the producer's argument; when one fails, neither a
-- descriptor nor a block is left, and a child that was already made gets killed.
pub spawn_no_leak : (a : StartAnswers) → Leaves a (spawn a)
unfolding spawn
spawn_no_leak a = ground arith
