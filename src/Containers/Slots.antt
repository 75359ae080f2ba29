-- ===== src/Containers/Slots.antt =====
-- Lemmas on the searches and writes of the table.
use mathlib.Core.Option
use os_jackfruit.Prelude.{
  ◌≢◌, ==_iff, ◌⊎◌, Option-cases, inr, inl, Bool-cases, ℕ, zero, suc, Bool, true, false, [], ◌∷◌,
  none, some, str_eq, if◌then◌else◌, get_elem?, length, arith, ◌≡◌, ◌==◌, refl, map,
}
use os_jackfruit.Containers.{
  Container, Table, find_slot, update_slot, is_live_state, starting, running, stopped, exited,
  killed,
}

-- A search that succeeds gives a slot that passes the test.
pub find_slot-some :
    (test : Container → Bool) (t : Table) (i : ℕ)
    → find_slot test t ≡ some i
    → (c : Container) × (get_elem? t i ≡ some c) × (test c ≡ true)
unfolding find_slot
find_slot-some test [] i h = cc
find_slot-some test (c ∷ cs) i h = elim (Bool-cases (test c)) [
  | inl hit ↦ (c, ground arith, hit)
  | inr miss ↦ elim (Option-cases (find_slot test cs)) [
    | inl gone ↦ absurd (ground arith)
    | inr (k, at) ↦ let (d, got, passes) = find_slot-some test cs k at in (d, ground arith, passes)
  ]
]

-- A search that fails passes over every slot.
pub find_slot-none :
    (test : Container → Bool) (t : Table) (i : ℕ) (c : Container)
    → find_slot test t ≡ none
    → get_elem? t i ≡ some c
    → test c ≡ false
unfolding find_slot
find_slot-none test [] i c h g = cc
find_slot-none test (x ∷ xs) zero c h g = ground arith
find_slot-none test (x ∷ xs) (suc i) c h g = ground (arith, find_slot-none test xs i c)

pub get_elem?-update_slot :
    (t : Table) (i j : ℕ) (f : Container → Container)
    → get_elem? (update_slot t i f) j
      ≡ (if i == j then Option.map f (get_elem? t j) else get_elem? t j)
unfolding update_slot
get_elem?-update_slot [] i j f = ground arith
get_elem?-update_slot (c ∷ cs) zero zero f = refl
get_elem?-update_slot (c ∷ cs) zero (suc j) f = ground arith
get_elem?-update_slot (c ∷ cs) (suc i) zero f = ground arith
get_elem?-update_slot (c ∷ cs) (suc i) (suc j) f = ground (arith, get_elem?-update_slot cs i j f)

pub length-update_slot :
    (t : Table) (i : ℕ) (f : Container → Container) → length (update_slot t i f) ≡ length t
unfolding update_slot
length-update_slot [] i f = refl
length-update_slot (c ∷ cs) zero f = refl
length-update_slot (c ∷ cs) (suc i) f = omega (arith, length-update_slot cs i f)

pub get_elem?-map :
    (f : Container → Container) (t : Table) (i : ℕ)
    → get_elem? (map f t) i ≡ Option.map f (get_elem? t i)
get_elem?-map f [] i = refl
get_elem?-map f (c ∷ cs) zero = refl
get_elem?-map f (c ∷ cs) (suc i) = get_elem?-map f cs i

-- What `is_live_state` says of the five states.
pub live_states :
    (is_live_state starting ≡ true)
    × (is_live_state running ≡ true)
    × (is_live_state stopped ≡ false)
    × (is_live_state exited ≡ false)
    × (is_live_state killed ≡ false)
unfolding is_live_state str_eq
live_states = (refl, refl, refl, refl, refl)

-- A slot of a written table is the written one or an old one.
pub update_slot-cases :
    (t : Table) (i : ℕ) (f : Container → Container) (j : ℕ) (d : Container)
    → get_elem? (update_slot t i f) j ≡ some d
    → ((c : Container) × (j ≡ i) × (get_elem? t i ≡ some c) × (d ≡ f c)) ⊎ (get_elem? t j ≡ some d)
update_slot-cases t i f j d g = elim (Bool-cases (i == j)) [
  | inl here ↦ elim (Option-cases (get_elem? t i)) [
    | inl gone ↦ absurd (ground (arith, get_elem?-update_slot t i j f, ==_iff i j))
    | inr (c, at) ↦ inl (
      c,
      ground (arith, ==_iff i j),
      at,
      ground (arith, get_elem?-update_slot t i j f, ==_iff i j),
    )
  ]
  | inr there ↦ inr (ground (arith, get_elem?-update_slot t i j f))
]

pub length-map : (t : Table) (f : Container → Container) → length (map f t) ≡ length t
length-map [] f = refl
length-map (c ∷ cs) f = omega (arith, length-map cs f)

-- Two writes to one slot.
pub update_slot-twice_self :
    (t : Table) (i : ℕ) (f g : Container → Container) (c : Container)
    → get_elem? t i ≡ some c
    → get_elem? (update_slot (update_slot t i f) i g) i ≡ some (g (f c))
update_slot-twice_self t i f g c h =
    ground (arith, get_elem?-update_slot t i i f, get_elem?-update_slot (update_slot t i f) i i g)

pub update_slot-twice_ne :
    (t : Table) (i j : ℕ) (f g : Container → Container)
    → j ≢ i
    → get_elem? (update_slot (update_slot t i f) i g) j ≡ get_elem? t j
update_slot-twice_ne t i j f g h =
    ground (arith, get_elem?-update_slot t i j f, get_elem?-update_slot (update_slot t i f) i j g)
