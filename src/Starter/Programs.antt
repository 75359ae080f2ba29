-- ===== src/Starter/Programs.antt =====
-- The workloads of boilerplate/: cpu_hog.c, memory_hog.c and io_pulse.c.
use os_jackfruit.Prelude.{
  negsuc, take, ℕ, zero, suc, ◌+◌, ◌-◌, ◌*◌, ◌%◌, ◌^◌, Bool, true, false, not, List, [], ◌∷◌, ◌++◌,
  Option, none, some, ℤ, pos, CString, codes, decimal, length, if◌then◌else◌, ltb, ◌==◌,
}
use os_jackfruit.Starter.Numbers.{parse_positive, parse_sleep_ms}

-- cpu_hog.c

-- The times that one round of the loop reads, in seconds: at its test, at its check, and when it
-- reports.
pub record Readings : Type 0 where
  pub at_test : ℕ
  pub at_check : ℕ
  pub at_report : ℕ

-- A line of output: the seconds since the start, and the accumulator.
abbrev pub Report : Type 0
Report = ℤ × ℕ

-- The difference of two times, which is negative when the clock was set back.
abbrev pub difference : ℕ → ℕ → ℤ
difference now start = if ltb now start then negsuc (start - now - 1) else pos (now - start)

abbrev pub next_accumulator : ℕ → ℕ
next_accumulator accumulator = (accumulator * 1664525 + 1013904223) % 2 ^ 64

-- (unsigned int)(time(NULL) - start)
abbrev pub elapsed : ℕ → ℕ → ℕ
elapsed start now = (now + 2 ^ 64 - start) % 2 ^ 32

-- The loop over the readings of its rounds: the lines that it prints with the accumulator at its
-- end; `none`: the readings ran out while it was still running.
unfoldable pub cpu_loop : ℕ → ℕ → ℕ → ℕ → List Readings → Option (List Report × ℕ)
cpu_loop start duration last_report accumulator [] = none
cpu_loop start duration last_report accumulator (r ∷ rounds) =
    let next = next_accumulator accumulator in
    let reports = not (r.at_check == last_report) in
    let rest = cpu_loop start duration (if reports then r.at_report else last_report) next rounds in
    if ltb (elapsed start r.at_test) duration
    then elim rest [
      | none ↦ none
      | some (lines, final) ↦
          some (if reports then (difference r.at_report start, next) ∷ lines else lines, final)
    ]
    else some ([], accumulator)

abbrev argument_or : (CString → ℕ) → ℕ → List CString → ℕ
argument_or parse fallback [] = fallback
argument_or parse fallback (arg ∷ args) = parse arg

unfoldable pub cpu_hog : ℕ → List Readings → List CString → Option (List Report × ℕ)
cpu_hog start rounds args =
    cpu_loop start (argument_or (λ arg. parse_positive 32 arg 10) 10 args) start 0 rounds

-- memory_hog.c

-- The loop over whether each `malloc` succeeds, with the count of those before: the totals in MiB
-- that it prints, and the count when it ends; `none`: it goes on. The count is an int, which only
-- overflows after 2 ^ 31 chunks.
unfoldable pub memory_loop : ℕ → ℕ → List Bool → Option (List ℕ × ℕ)
memory_loop chunk_mb count [] = none
memory_loop chunk_mb count (false ∷ grants) = some ([], count)
memory_loop chunk_mb count (true ∷ grants) = elim (memory_loop chunk_mb (count + 1) grants) [
  | none ↦ none
  | some (totals, final) ↦ some (((count + 1) * chunk_mb % 2 ^ 64) ∷ totals, final)
]

-- The size of a chunk in MiB and in bytes, and the time between two chunks in microseconds.
unfoldable pub hog_settings : List CString → ℕ × ℕ × ℕ
hog_settings [] = (8, 8 * 1048576, 1000 * 1000)
hog_settings (chunk ∷ []) =
    let mb = parse_positive 64 chunk 8 in (mb, mb * 1048576 % 2 ^ 64, 1000 * 1000)
hog_settings (chunk ∷ pause ∷ args) =
    let mb = parse_positive 64 chunk 8 in (mb, mb * 1048576 % 2 ^ 64, parse_sleep_ms pause 1000)

unfoldable pub memory_hog : List CString → List Bool → Option (List ℕ × ℕ)
unfolding hog_settings
memory_hog args grants = memory_loop (hog_settings args).0 0 grants

-- io_pulse.c

unfoldable pub pulse_line : ℕ → CString
pulse_line i = codes "io_pulse iteration=" ++ (decimal (pos (i + 1)) ++ codes "\n")

-- What the program leaves: its exit code, the bytes in its file, and whether that is still open.
pub record Pulsed : Type 0 where
  pub code : ℤ
  pub file : List ℕ
  pub left_open : Bool

-- The loop from `i` on, with `n` rounds left, over how many bytes each `write` takes; `none`:
-- a `write` has not returned yet.
unfoldable pub pulse_loop : ℕ → ℕ → List ℕ → Option Pulsed
pulse_loop zero i writes = some record { code = pos 0; file = []; left_open = false }
pulse_loop (suc n) i [] = none
pulse_loop (suc n) i (written ∷ writes) =
    let line = pulse_line i in
    let rest = pulse_loop n (i + 1) writes in
    if not (written == length line)
    then some record { code = pos 1; file = take written line; left_open = false }
    else elim rest [ none ↦ none | some p ↦ some (record p { file = line ++ p.file }) ]

-- The number of iterations is an unsigned int.
unfoldable pub io_pulse : Bool → List ℕ → List CString → Option Pulsed
io_pulse opens writes args =
    if not opens
    then some record { code = pos 1; file = []; left_open = false }
    else pulse_loop (argument_or (λ arg. parse_positive 32 arg 20) 20 args) 0 writes
