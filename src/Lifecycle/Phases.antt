-- ===== src/Lifecycle/Phases.antt =====
-- The container of an id as the machine that it is meant to be: its phases, their moves, and what
-- changes of a slot do to them.
use os_jackfruit.Prelude.{
  subst, ℕ, zero, suc, ◌≡◌, ◌≢◌, ◌⊎◌, ◌∙◌, ◌&&◌, true, false, [], ◌∷◌, some, CString, str_eq,
  str_eq_iff, get_elem?, if◌then◌else◌, Bool-cases, arith, refl, sym, inl, inr,
}
use os_jackfruit.Containers.{Container, Table, update_slot, is_live_state, starting}
use os_jackfruit.Lifecycle.{request_stop, stop_all_live_containers}

-- No used slot has the id; or its container is being started, runs, or has ended.
pub data Phase : Type 0 where
  absent booting alive over : Phase

abbrev pub phase_of_state : CString → Phase
phase_of_state state =
    if is_live_state state then (if str_eq state starting then booting else alive) else over

abbrev pub phase_of : Container → Phase
phase_of c = phase_of_state c.state

unfoldable pub phase : CString → Table → Phase
phase id [] = absent
phase id (c ∷ cs) = if c.used && str_eq c.id id then phase_of c else phase id cs

-- The moves of the abstract container.
pub data Moves : Phase → Phase → Type 0 where
  stays : {p : Phase} → Moves p p
  begins : Moves absent booting
  fails : Moves booting absent
  runs : Moves booting alive
  ends : Moves alive over

pub Moves-same : (p q : Phase) → q ≡ p → Moves p q
Moves-same p q e = subst (Moves p) (sym e) stays

-- A change of a slot that keeps its use and its id.
pub phase-update :
    (id : CString) (t : Table) (i : ℕ) (f : Container → Container) (c : Container)
    → get_elem? t i ≡ some c
    → (f c).used ≡ c.used
    → (f c).id ≡ c.id
    → (phase id (update_slot t i f) ≡ phase id t)
      ⊎ ((c.used ≡ true)
          × (phase id t ≡ phase_of c)
          × (phase id (update_slot t i f) ≡ phase_of (f c)))
unfolding phase update_slot
phase-update id [] i f c at u same = absurd cc
phase-update id (x ∷ t) zero f c at u same = ground arith
phase-update id (x ∷ t) (suc i) f c at u same = ground (arith, phase-update id t i f c at u same)

phase-none :
    (id : CString) (t : Table)
    → ((j : ℕ) (d : Container) → get_elem? t j ≡ some d → d.used ≡ true → d.id ≢ id)
    → phase id t ≡ absent
unfolding phase
phase-none id [] differ = refl
phase-none id (x ∷ t) differ =
    ground
      (arith, differ 0 x refl, str_eq_iff x.id id, phase-none id t (λ j d g. differ (suc j) d g))

-- A slot that comes into use, with an id that no used slot has.
pub phase-new :
    (id : CString) (t : Table) (i : ℕ) (f : Container → Container) (c : Container)
    → get_elem? t i ≡ some c
    → c.used ≡ false
    → ((j : ℕ) (d : Container) → get_elem? t j ≡ some d → d.used ≡ true → d.id ≢ (f c).id)
    → (phase id (update_slot t i f) ≡ phase id t)
      ⊎ ((phase id t ≡ absent) × (phase id (update_slot t i f) ≡ phase_of (f c)))
unfolding phase update_slot
phase-new id [] i f c at u new = absurd cc
phase-new id (x ∷ t) zero f c at u new = elim (Bool-cases (str_eq (f c).id id)) [
  | inl named ↦
      let nowhere =
        phase-none id t
          (λ j d g used e. new (suc j) d g used (e ∙ sym ((str_eq_iff (f c).id id).0 named))) in
      ground arith
  | inr other_id ↦ ground arith
]
phase-new id (x ∷ t) (suc i) f c at u new =
    ground (arith, phase-new id t i f c at u (λ j d g. new (suc j) d g))

-- A slot that goes out of use, whose id no other used slot has.
pub phase-gone :
    (id : CString) (t : Table) (i : ℕ) (f : Container → Container) (c : Container)
    → get_elem? t i ≡ some c
    → (f c).used ≡ false
    → ((j : ℕ) (d : Container) → get_elem? t j ≡ some d → d.used ≡ true → d.id ≡ c.id → j ≡ i)
    → c.used ≡ true
    → (phase id (update_slot t i f) ≡ phase id t)
      ⊎ ((phase id t ≡ phase_of c) × (phase id (update_slot t i f) ≡ absent))
unfolding phase update_slot
phase-gone id [] i f c at u only used = absurd cc
phase-gone id (x ∷ t) zero f c at u only used = elim (Bool-cases (str_eq c.id id)) [
  | inl named ↦
      let nowhere = phase-none id t (λ j d g taken e.
        absurd (omega (arith, only (suc j) d g taken (e ∙ sym ((str_eq_iff c.id id).0 named))))) in
      ground arith
  | inr other_id ↦ ground arith
]
phase-gone id (x ∷ t) (suc i) f c at u only used = ground (
  arith,
  phase-gone id t i f c at u (λ j d g taken e. omega (arith, only (suc j) d g taken e)) used,
)

pub phase-map : (id : CString) (t : Table) → phase id (stop_all_live_containers t).0 ≡ phase id t
unfolding phase stop_all_live_containers
phase-map id [] = refl
phase-map id (c ∷ t) = ground (arith, phase-map id t)

pub phase-flag :
    (id : CString) (t : Table) (i : ℕ) → phase id (update_slot t i request_stop) ≡ phase id t
unfolding phase update_slot
phase-flag id [] i = refl
phase-flag id (c ∷ t) zero = ground arith
phase-flag id (c ∷ t) (suc i) = ground (arith, phase-flag id t i)
