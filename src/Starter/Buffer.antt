-- ===== src/Starter/Buffer.antt =====
-- The bounded buffer of boilerplate/engine.c, as far as it is implemented, and the start of its
-- supervisor: what is initialised, and given back in the reverse order when a step fails.
use os_jackfruit.Prelude.{
  ◌&&◌, ◌≡◌, Bool, List, [], ◌∷◌, Option, none, some, ℤ, pos, eq_ℤ, if◌then◌else◌, arith,
}

-- The mutex and the condition variables of the buffer, and the supervisor's own mutex.
pub data Primitive : Type 0 where
  mutex not_empty not_full metadata_lock : Primitive

-- The destruction of what was initialised last; any other order is a fault, `none`.
abbrev destroy : Primitive → List Primitive → Option (List Primitive)
destroy mutex (mutex ∷ held) = some held
destroy not_empty (not_empty ∷ held) = some held
destroy not_full (not_full ∷ held) = some held
destroy metadata_lock (metadata_lock ∷ held) = some held
destroy _ _ = none

abbrev pub destroy_all : List Primitive → List Primitive → Option (List Primitive)
destroy_all [] held = some held
destroy_all (p ∷ ps) held = elim (destroy p held) [ none ↦ none | some rest ↦ destroy_all ps rest ]

-- The codes of the three calls; 0 is success.
pub record InitCodes : Type 0 where
  pub mutex_init : ℤ
  pub not_empty_init : ℤ
  pub not_full_init : ℤ

abbrev failing : Option (List Primitive) → ℤ → Option (List Primitive × ℤ)
failing none rc = none
failing (some held) rc = some (held, rc)

abbrev is_zero : ℤ → Bool
is_zero rc = eq_ℤ rc (pos 0)

-- What is initialised afterwards, on top of what was before, and the return code.
unfoldable pub bounded_buffer_init : InitCodes → List Primitive → Option (List Primitive × ℤ)
bounded_buffer_init a held =
    if is_zero a.mutex_init
    then if is_zero a.not_empty_init
      then if is_zero a.not_full_init
        then some (not_full ∷ not_empty ∷ mutex ∷ held, pos 0)
        else failing (destroy_all (not_empty ∷ mutex ∷ []) (not_empty ∷ mutex ∷ held))
            a.not_full_init
      else failing (destroy_all (mutex ∷ []) (mutex ∷ held)) a.not_empty_init
    else some (held, a.mutex_init)

unfoldable pub bounded_buffer_destroy : List Primitive → Option (List Primitive)
bounded_buffer_destroy held = destroy_all (not_full ∷ not_empty ∷ mutex ∷ []) held

-- The supervisor up to its endless loop: what is initialised, and the exit code; 0 stands for the
-- loop being reached.
unfoldable pub run_supervisor : ℤ → InitCodes → Option (List Primitive × ℤ)
unfolding bounded_buffer_init
run_supervisor metadata_init a =
    if is_zero metadata_init
    then elim (bounded_buffer_init a (metadata_lock ∷ [])) [
      | none ↦ none
      | some (held, rc) ↦
          if is_zero rc
          then some (held, pos 0)
          else failing (destroy_all (metadata_lock ∷ []) held) (pos 1)
    ]
    else some ([], pos 1)

abbrev all_zero : ℤ → InitCodes → Bool
all_zero metadata_init a =
    is_zero metadata_init
    && (is_zero a.mutex_init && (is_zero a.not_empty_init && is_zero a.not_full_init))

-- The start of the supervisor never destroys anything in the wrong order. If every call succeeds
-- its loop is reached with all four primitives, which the destruction of the buffer and of the
-- supervisor's mutex would give back; otherwise it exits with 1 and nothing is left initialised.
pub supervisor_start :
    (metadata_init : ℤ) (a : InitCodes)
    → (run_supervisor metadata_init a ≡ (
        if all_zero metadata_init a
        then some (not_full ∷ not_empty ∷ mutex ∷ metadata_lock ∷ [], pos 0)
        else some ([], pos 1)))
      × (bounded_buffer_destroy (not_full ∷ not_empty ∷ mutex ∷ metadata_lock ∷ [])
          ≡ some (metadata_lock ∷ []))
unfolding run_supervisor bounded_buffer_destroy
supervisor_start metadata_init a = ground arith
