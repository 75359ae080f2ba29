-- ===== src/Containers/Invariant.antt =====
-- The invariant of the table: ten slots, one used slot for each id, one live container for each
-- root file system, and a pid that fits the state.
use os_jackfruit.Prelude.{
  ℕ, zero, suc, true, false, none, some, minus_one, get_elem?, length, replicate, arith, ◌≡◌, ◌≢◌,
  ◌⊎◌, inl, inr, ◌==◌, ==_iff, refl, sym, ◌∙◌, subst, ap, Bool-cases, Option-cases,
}
use os_jackfruit.Containers.{
  CString, Container, Table, empty_slot, max_containers, update_slot, is_live_state, starting,
  running, init_containers,
}
use os_jackfruit.Containers.Slots.{update_slot-cases, get_elem?-update_slot, length-update_slot}
use os_jackfruit.Monitor.{is_not_positive}

-- A used slot is starting, with no process yet, or running, with the pid of its process, or ended.
abbrev pub SlotState : Container → Type 0
SlotState c =
    ((c.state ≡ starting) × (c.pid ≡ minus_one) × (c.child_stack ≡ none))
    ⊎ ((c.state ≡ running) × (is_not_positive c.pid ≡ false))
    ⊎ (is_live_state c.state ≡ false)

pub record Inv (t : Table) : Type 0 where
  pub size : length t ≡ max_containers
  pub ids :
      (i j : ℕ) (c d : Container)
      → get_elem? t i ≡ some c
      → get_elem? t j ≡ some d
      → c.used ≡ true
      → d.used ≡ true
      → c.id ≡ d.id
      → i ≡ j
  pub roots :
      (i j : ℕ) (c d : Container)
      → get_elem? t i ≡ some c
      → get_elem? t j ≡ some d
      → c.used ≡ true
      → d.used ≡ true
      → is_live_state c.state ≡ true
      → is_live_state d.state ≡ true
      → c.rootfs ≡ d.rootfs
      → i ≡ j
  pub states : (i : ℕ) (c : Container) → get_elem? t i ≡ some c → c.used ≡ true → SlotState c

pub get_elem?-replicate : (n i : ℕ) (a c : Container) → get_elem? (replicate n a) i ≡ some c → c ≡ a
get_elem?-replicate zero i a c h = cc
get_elem?-replicate (suc n) zero a c h = ground arith
get_elem?-replicate (suc n) (suc i) a c h = get_elem?-replicate n i a c h

-- The table starts within its invariant.
pub init-Inv : Inv init_containers
unfolding init_containers
init-Inv = record {
  size = refl;
  ids = λ i j c d g h u w e.
      absurd (ground (arith, get_elem?-replicate max_containers i empty_slot c g));
  roots = λ i j c d g h u w l m e.
      absurd (ground (arith, get_elem?-replicate max_containers i empty_slot c g));
  states = λ i c g u. absurd (ground (arith, get_elem?-replicate max_containers i empty_slot c g));
}

-- A change of a slot that takes no new id and no new root file system.
pub record Change (c d : Container) : Type 0 where
  pub used_before : d.used ≡ true → c.used ≡ true
  pub same_id : d.id ≡ c.id
  pub same_rootfs : d.rootfs ≡ c.rootfs
  pub live_before : is_live_state d.state ≡ true → is_live_state c.state ≡ true
  pub state_kept : d.used ≡ true → SlotState c → SlotState d

pub Change-refl : (c : Container) → Change c c
Change-refl c = record {
  used_before = λ h. h;
  same_id = refl;
  same_rootfs = refl;
  live_before = λ h. h;
  state_kept = λ _ s. s;
}

-- Every slot afterwards is a change of the slot before.
pub record Changes (t u : Table) : Type 0 where
  pub same_size : length u ≡ length t
  pub each :
      (i : ℕ) (d : Container)
      → get_elem? u i ≡ some d
      → (c : Container) × (get_elem? t i ≡ some c) × Change c d

pub Changes-Inv : {t u : Table} → Changes t u → Inv t → Inv u
Changes-Inv {t} {u} ch v = record {
  size = ch.same_size ∙ v.size;
  ids = λ i j c d g h p q e.
      let (x, gx, cx) = ch.each i c g in
      let (y, gy, cy) = ch.each j d h in
      v.ids i j x y gx gy (cx.used_before p) (cy.used_before q) (sym cx.same_id ∙ e ∙ cy.same_id);
  roots = λ i j c d g h p q l m e.
      let (x, gx, cx) = ch.each i c g in
      let (y, gy, cy) = ch.each j d h in
      v.roots i j x y gx gy (cx.used_before p) (cy.used_before q) (cx.live_before l)
        (cy.live_before m) (sym cx.same_rootfs ∙ e ∙ cy.same_rootfs);
  states = λ i c g p.
      let (x, gx, cx) = ch.each i c g in cx.state_kept p (v.states i x gx (cx.used_before p));
}

pub Changes-refl : (t : Table) → Changes t t
Changes-refl t = record { same_size = refl; each = λ i d g. (d, g, Change-refl d) }

-- One slot changes, the others stay.
pub update_slot-Changes :
    (t : Table) (i : ℕ) (f : Container → Container)
    → ((c : Container) → get_elem? t i ≡ some c → Change c (f c))
    → Changes t (update_slot t i f)
update_slot-Changes t i f change = record {
  same_size = length-update_slot t i f;
  each = λ j d g. elim (Bool-cases (i == j)) [
    | inl here ↦ elim (Option-cases (get_elem? t j)) [
      | inl gone ↦ absurd (ground (arith, get_elem?-update_slot t i j f))
      | inr (c, at) ↦ (
        c,
        at,
        subst (Change c) (ground (arith, get_elem?-update_slot t i j f))
            (change c (rw ((==_iff i j).0 here) at)),
      )
    ]
    | inr there ↦ (d, ground (arith, get_elem?-update_slot t i j f), Change-refl d)
  ];
}

-- A slot that is taken anew, with an id of its own and a root file system that no live container
-- has, keeps the invariant.
pub fresh_slot-Inv :
    (t : Table) (idx : ℕ) (f : Container → Container) (id rootfs : CString)
    → Inv t
    → ((c : Container) → ((f c).id ≡ id) × ((f c).rootfs ≡ rootfs) × SlotState (f c))
    → ((j : ℕ) (d : Container) → get_elem? t j ≡ some d → d.used ≡ true → d.id ≢ id)
    → ((j : ℕ) (d : Container)
        → get_elem? t j ≡ some d
        → d.used ≡ true
        → is_live_state d.state ≡ true
        → d.rootfs ≢ rootfs)
    → Inv (update_slot t idx f)
fresh_slot-Inv t idx f id rootfs v made new_id new_rootfs = record {
  size = length-update_slot t idx f ∙ v.size;
  ids = λ i j c d g h p q e. elim (update_slot-cases t idx f i c g) [
    | inl (x, at_i, _, is_x) ↦ elim (update_slot-cases t idx f j d h) [
      | inl (_, at_j, _, _) ↦ at_i ∙ sym at_j
      | inr old ↦ absurd (new_id j d old q (sym e ∙ ap (λ y. y.id) is_x ∙ (made x).0))
    ]
    | inr was ↦ elim (update_slot-cases t idx f j d h) [
      | inl (x, _, _, is_x) ↦ absurd (new_id i c was p (e ∙ ap (λ y. y.id) is_x ∙ (made x).0))
      | inr old ↦ v.ids i j c d was old p q e
    ]
  ];
  roots = λ i j c d g h p q l m e. elim (update_slot-cases t idx f i c g) [
    | inl (x, at_i, _, is_x) ↦ elim (update_slot-cases t idx f j d h) [
      | inl (_, at_j, _, _) ↦ at_i ∙ sym at_j
      | inr old ↦ absurd (new_rootfs j d old q m (sym e ∙ ap (λ y. y.rootfs) is_x ∙ (made x).1))
    ]
    | inr was ↦ elim (update_slot-cases t idx f j d h) [
      | inl (x, _, _, is_x) ↦
          absurd (new_rootfs i c was p l (e ∙ ap (λ y. y.rootfs) is_x ∙ (made x).1))
      | inr old ↦ v.roots i j c d was old p q l m e
    ]
  ];
  states = λ i c g p. elim (update_slot-cases t idx f i c g) [
    | inl (x, _, _, is_x) ↦ subst SlotState (sym is_x) (made x).2
    | inr was ↦ v.states i c was p
  ];
}
