-- ===== src/Starter/Outputs.antt =====
-- What `start` and `logs` of boilerplate/engine.c come to.
use os_jackfruit.Prelude.{
  map, ◌⊎◌, ◌||◌, inl, Bool, true, false, ◌==◌, ℕ, zero, suc, ◌≤◌, ◌<◌, ◌≡◌, ◌≢◌, ◌∙◌, List, [],
  ◌∷◌, ◌++◌, Option, some, pos, is_negative, eq_ℤ_iff, CString, length, length-append, arith, refl,
  ap,
}
use os_jackfruit.Starter.Options.{ControlRequest, cmd_start}
use os_jackfruit.Starter.Commands.{
  up_to_nul, started, soft_warning, soft_logged, hard_warning, hard_logged, when, forked,
  StartAnswers, StartEvent, killed, read_request, cmd_start_main, fgets, log_lines, log_path,
  cmd_logs,
}

abbrev pub concat : List (List ℕ) → List ℕ
concat [] = []
concat (line ∷ lines) = line ++ concat lines

-- Every line fits the array, with its terminating NUL.
abbrev pub Fitting : List (List ℕ) → Type 0
Fitting [] = Unit {0}
Fitting (line ∷ lines) = (length line < 256) × Fitting lines

fgets_lem :
    (room : ℕ) (file : List ℕ)
    → ((fgets room file).0 ++ (fgets room file).1 ≡ file) × (length (fgets room file).0 ≤ room)
unfolding fgets
fgets_lem zero file = (refl, omega arith)
fgets_lem (suc room) [] = (refl, omega arith)
fgets_lem (suc room) (c ∷ file) = ground (arith, fgets_lem room file)

fgets_progress : (room c : ℕ) (file : List ℕ) → length (fgets (suc room) (c ∷ file)).1 ≤ length file
unfolding fgets
fgets_progress room c file = ground (
  arith,
  fgets_lem room file,
  length-append (fgets room file).0 (fgets room file).1,
  ap length (fgets_lem room file).0,
)

log_lines_lem :
    (fuel : ℕ) (file : List ℕ)
    → length file < fuel
    → (chunks : List (List ℕ)) × (log_lines fuel file ≡ some (map up_to_nul chunks))
      × (concat chunks ≡ file)
      × Fitting chunks
unfolding log_lines
log_lines_lem zero file h = absurd (omega arith)
log_lines_lem (suc fuel) [] h = ([], refl, refl, tt)
log_lines_lem (suc fuel) (c ∷ file) h =
    let line = (fgets 255 (c ∷ file)).0 in
    let left = (fgets 255 (c ∷ file)).1 in
    let one = fgets_lem 255 (c ∷ file) in
    let (chunks, done, whole, fitting) =
      log_lines_lem fuel left (omega (arith, fgets_progress 254 c file)) in
    (
      line ∷ chunks,
      rw (log_lines, done) refl,
      ap (◌++◌ line) whole ∙ one.0,
      (omega (arith, one.1), fitting),
    )

unfoldable pub has_nul : List ℕ → Bool
has_nul [] = false
has_nul (c ∷ cs) = c == 0 || has_nul cs

has_nul-append : (xs ys : List ℕ) → has_nul (xs ++ ys) ≡ (has_nul xs || has_nul ys)
unfolding has_nul
has_nul-append [] ys = refl
has_nul-append (x ∷ xs) ys = ground (arith, has_nul-append xs ys)

up_to_nul_whole : (xs : List ℕ) → (up_to_nul xs ≡ xs) ⊎ (has_nul xs ≡ true)
unfolding up_to_nul has_nul
up_to_nul_whole [] = inl refl
up_to_nul_whole (x ∷ xs) = ground (arith, up_to_nul_whole xs)

up_to_nul_all :
    (chunks : List (List ℕ))
    → (concat (map up_to_nul chunks) ≡ concat chunks) ⊎ (has_nul (concat chunks) ≡ true)
up_to_nul_all [] = inl refl
up_to_nul_all (chunk ∷ chunks) =
    ground
      (arith, up_to_nul_whole chunk, up_to_nul_all chunks, has_nul-append chunk (concat chunks))

-- `logs` of a container whose log can be opened ends, whatever is in the log, and goes through the
-- whole file, byte by byte and in order, in lines that never overrun their array; it prints each
-- of them up to its first NUL, which is the whole file if there is none in it. Fuel above the
-- length of the file is enough.
pub cmd_logs_whole :
    (fuel : ℕ) (files : CString → Option (List ℕ)) (id : CString) (args : List CString)
    (file : List ℕ)
    → files (log_path id) ≡ some file
    → length file < fuel
    → (lines : List (List ℕ)) × (cmd_logs fuel files (id ∷ args)
        ≡ some (pos 0, map up_to_nul lines))
      × (concat lines ≡ file)
      × Fitting lines
      × ((concat (map up_to_nul lines) ≡ file) ⊎ (has_nul file ≡ true))
unfolding cmd_logs
cmd_logs_whole fuel files id args file opens enough =
    let (lines, done, whole, fitting) = log_lines_lem fuel file enough in
    (lines, rw (cmd_logs, opens, done) refl, whole, fitting, rw (← whole) (up_to_nul_all lines))

-- Every container that `start` makes is sent SIGKILL, whatever its limits are and however much
-- memory it uses.
pub start_always_kills :
    (a : StartAnswers) (args : List CString) (req : ControlRequest)
    → read_request cmd_start args ≡ some req
    → is_negative a.fork ≡ false
    → a.fork ≢ pos 0
    → (before : List StartEvent) × (after : List StartEvent) × ((cmd_start_main a args).1
        ≡ before ++ killed a.fork ∷ after)
unfolding cmd_start_main read_request forked
start_always_kills a (id ∷ rootfs ∷ command ∷ flags) req accepted child parent = (
  started id a.fork
      ∷ soft_warning id
      ∷ (when a.soft_log_ok (soft_logged id) ++ hard_warning id a.fork ∷ []),
  when a.hard_log_ok (hard_logged id a.fork),
  ground (arith, eq_ℤ_iff a.fork (pos 0)),
)
start_always_kills a (id ∷ rootfs ∷ []) req accepted child parent = absurd cc
start_always_kills a (id ∷ []) req accepted child parent = absurd cc
start_always_kills a [] req accepted child parent = absurd cc
