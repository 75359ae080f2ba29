-- ===== src/Starter/Progress.antt =====
-- When the workloads of boilerplate/ end, and what they have done by then.
use os_jackfruit.Prelude.{
  ◌^◌, not, ◌%◌, ℕ, zero, suc, ◌+◌, ◌*◌, ◌≤◌, ◌≡◌, ◌⊎◌, Bool, true, false, List, [], ◌∷◌, ◌++◌,
  some, pos, if◌then◌else◌, ltb, ◌==◌, length, take, drop, take-append-drop, replicate,
  append_assoc, Option-cases, Bool-cases, arith, refl, ap, inl, inr,
}
use os_jackfruit.Starter.Programs.{
  difference, Readings, Report, elapsed, next_accumulator, cpu_loop, memory_loop, Pulsed,
  pulse_line, pulse_loop,
}

-- cpu_hog.c ends at a test that finds the duration passed, whatever came before.
pub cpu_loop_ends :
    (start duration last_report accumulator : ℕ) (before later : List Readings) (r : Readings)
    → duration ≤ elapsed start r.at_test
    → (lines : List Report) × (final : ℕ) × (cpu_loop start duration last_report accumulator
          (before ++ r ∷ later)
        ≡ some (lines, final))
unfolding cpu_loop
cpu_loop_ends start duration last_report accumulator [] later r h = ([], accumulator, ground arith)
cpu_loop_ends start duration last_report accumulator (x ∷ before) later r h =
    let next = next_accumulator accumulator in
    let reports = not (x.at_check == last_report) in
    let (lines, final, e) =
      cpu_loop_ends start duration (if reports then x.at_report else last_report) next before later
        r h in
    elim (Bool-cases (ltb (elapsed start x.at_test) duration)) [
      | inl on ↦ (
        (if reports then (difference x.at_report start, next) ∷ lines else lines),
        final,
        rw (cpu_loop, on, e) refl,
      )
      | inr over ↦ ([], accumulator, rw (cpu_loop, over) refl)
    ]

-- memory_hog.c goes on until the first `malloc` that fails, and has counted and reported exactly
-- those before it.
pub memory_loop_ends :
    (chunk_mb count n : ℕ) (later : List Bool)
    → (totals : List ℕ) × (memory_loop chunk_mb count (replicate n true ++ false ∷ later)
        ≡ some (totals, count + n))
      × (length totals ≡ n)
unfolding memory_loop
memory_loop_ends chunk_mb count zero later = ([], ground arith, refl)
memory_loop_ends chunk_mb count (suc n) later =
    let (totals, e, l) = memory_loop_ends chunk_mb (count + 1) n later in
    (((count + 1) * chunk_mb % 2 ^ 64) ∷ totals, ground arith, ap suc l)

-- The lines of the rounds from `i` on.
unfoldable pub pulse_text : ℕ → ℕ → List ℕ
pulse_text zero i = []
pulse_text (suc n) i = pulse_line i ++ pulse_text n (i + 1)

-- However io_pulse.c ends, its file is closed and holds the first part of its lines: all of them
-- with the exit code 0, or with the code 1 what was written up to the first incomplete write.
pub pulse_loop_ends :
    (n i : ℕ) (writes : List ℕ) (p : Pulsed)
    → pulse_loop n i writes ≡ some p
    → (rest : List ℕ) × (p.file ++ rest ≡ pulse_text n i)
      × (p.left_open ≡ false)
      × (((p.code ≡ pos 0) × (rest ≡ [])) ⊎ (p.code ≡ pos 1))
unfolding pulse_loop pulse_text
pulse_loop_ends zero i writes p h = ([], ground arith, ground arith, ground arith)
pulse_loop_ends (suc n) i [] p h = absurd cc
pulse_loop_ends (suc n) i (written ∷ writes) p h =
    elim (Bool-cases (written == length (pulse_line i))) [
      | inr short ↦ (
        drop written (pulse_line i) ++ pulse_text n (i + 1),
        ground (
          arith,
          append_assoc (take written (pulse_line i)) (drop written (pulse_line i))
              (pulse_text n (i + 1)),
          take-append-drop written (pulse_line i),
        ),
        ground arith,
        ground arith,
      )
      | inl whole ↦ elim (Option-cases (pulse_loop n (i + 1) writes)) [
        | inl waits ↦ absurd (ground arith)
        | inr (q, e) ↦
            let (rest, text, closed, code) = pulse_loop_ends n (i + 1) writes q e in
            (
              rest,
              ground (arith, append_assoc (pulse_line i) q.file rest),
              ground arith,
              ground arith,
            )
      ]
    ]
