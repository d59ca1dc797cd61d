-- ===== src/Billing/Groups.antt =====
-- The dashboard's groups against the rows of one event.
use usezombie.Prelude.{
  str_eq-other, ℕ, ◌+◌, ◌&&◌, ◌≡◌, refl, sym, ap, ◌∙◌, String, Bool, true, false, Option, none,
  some, List, [], ◌∷◌, find, str_eq, eq_iff, ltb, subst, if◌then◌else◌, Bool-cases, inl, inr,
}
use usezombie.Billing.Dashboard.{
  ChargeRow, GroupedEvent, new_group, add_charge, add_row, add_rows, charge, charge_receive,
  charge_stage,
}

abbrev pub group_of : String → List GroupedEvent → Option GroupedEvent
group_of id = find (λ g. str_eq g.event_id id)

-- What one row does to the group of an event.
abbrev pub step : String → ChargeRow → Option GroupedEvent → Option GroupedEvent
step id r none = if str_eq r.event_id id then some (add_charge r (new_group r)) else none
step id r (some g) = if str_eq r.event_id id then some (add_charge r g) else some g

kept :
    {A : Type 0} (f : GroupedEvent → A) (b : Bool) (x y : GroupedEvent) {a : A}
    → f x ≡ a
    → f y ≡ a
    → f (if b then x else y) ≡ a
kept f true x y h k = h
kept f false x y h k = k

add_charge-id : (r : ChargeRow) (g : GroupedEvent) → (add_charge r g).event_id ≡ g.event_id
unfolding add_charge
add_charge-id r g =
    kept (λ h. GroupedEvent.event_id h) (ltb r.recorded_at (charge r g).recorded_at) _ (charge r g)
      charged charged
  where
    charged : (charge r g).event_id ≡ g.event_id
    charged =
        kept (λ h. GroupedEvent.event_id h) (str_eq r.charge_type charge_receive) _ _ refl
          (kept (λ h. GroupedEvent.event_id h) (str_eq r.charge_type charge_stage) _ _ refl refl)

step-other :
    (id : String) (r : ChargeRow) (o : Option GroupedEvent)
    → str_eq r.event_id id ≡ false
    → step id r o ≡ o
step-other id r none h = rw h refl
step-other id r (some g) h = rw h refl

group_of-add_row :
    (id : String) (r : ChargeRow) (gs : List GroupedEvent)
    → group_of id (add_row r gs) ≡ step id r (group_of id gs)
unfolding add_row
group_of-add_row id r [] = rw (add_charge-id r (new_group r)) refl
group_of-add_row id r (g ∷ gs) = elim (Bool-cases (str_eq g.event_id r.event_id)) [
  | inl h ↦
      let same = (eq_iff g.event_id r.event_id).0 h in
      let own : str_eq g.event_id id ≡ str_eq r.event_id id = ap (λ s. str_eq s id) same in
      let charged : str_eq (add_charge r g).event_id id ≡ str_eq r.event_id id =
        ap (λ s. str_eq s id) (add_charge-id r g ∙ same) in
      elim (Bool-cases (str_eq r.event_id id)) [
        | inl j ↦ rw h (rw (charged, own, j) (rw j refl))
        | inr j ↦ rw h (rw (charged, own, j) (sym (step-other id r (group_of id gs) j)))
      ]
  | inr h ↦ elim (Bool-cases (str_eq g.event_id id)) [
    | inl j ↦ rw (h, j) (sym (step-other id r (some g) (str_eq-other g.event_id r.event_id id h j)))
    | inr j ↦ rw (h, j) (group_of-add_row id r gs)
  ]
]

abbrev pub steps : String → List ChargeRow → Option GroupedEvent → Option GroupedEvent
steps id [] o = o
steps id (r ∷ rs) o = steps id rs (step id r o)

group_of-add_rows :
    (id : String) (rs : List ChargeRow) (gs : List GroupedEvent)
    → group_of id (add_rows rs gs) ≡ steps id rs (group_of id gs)
unfolding add_rows
group_of-add_rows id [] gs = refl
group_of-add_rows id (r ∷ rs) gs =
    group_of-add_rows id rs (add_row r gs) ∙ ap (steps id rs) (group_of-add_row id r gs)

-- The amount of the last row of a kind that an event has.
abbrev pub last_credit : String → String → List ChargeRow → ℕ → ℕ
last_credit kind id [] known = known
last_credit kind id (r ∷ rs) known =
    last_credit kind id rs
      (if str_eq r.event_id id && str_eq r.charge_type kind then r.credit_deducted_nanos else known)

abbrev pub amount : (GroupedEvent → ℕ) → Option GroupedEvent → ℕ
amount f none = 0
amount f (some g) = f g

receive-charge :
    (r : ChargeRow) (g : GroupedEvent)
    → (add_charge r g).receive_nanos
      ≡ (if str_eq r.charge_type charge_receive then r.credit_deducted_nanos else g.receive_nanos)
unfolding add_charge
receive-charge r g =
    kept (λ h. GroupedEvent.receive_nanos h) (ltb r.recorded_at (charge r g).recorded_at) _
      (charge r g) charged charged
  where
    charged :
        (charge r g).receive_nanos
        ≡ (if str_eq r.charge_type charge_receive then r.credit_deducted_nanos else g.receive_nanos)
    charged = elim (Bool-cases (str_eq r.charge_type charge_receive)) [
      | inl h ↦ rw h refl
      | inr h ↦ rw h (
          kept (λ h. GroupedEvent.receive_nanos h) (str_eq r.charge_type charge_stage) _ _ refl
            refl)
    ]

stage-charge :
    (r : ChargeRow) (g : GroupedEvent)
    → (add_charge r g).stage_nanos
      ≡ (if str_eq r.charge_type charge_stage then r.credit_deducted_nanos else g.stage_nanos)
unfolding add_charge
stage-charge r g =
    kept (λ h. GroupedEvent.stage_nanos h) (ltb r.recorded_at (charge r g).recorded_at) _
      (charge r g) charged charged
  where
    charged :
        (charge r g).stage_nanos
        ≡ (if str_eq r.charge_type charge_stage then r.credit_deducted_nanos else g.stage_nanos)
    charged = elim (Bool-cases (str_eq r.charge_type charge_receive)) [
      | inl h ↦
          let other : str_eq r.charge_type charge_stage ≡ false =
            ap (λ s. str_eq s charge_stage) ((eq_iff r.charge_type charge_receive).0 h) in
          rw (h, other) refl
      | inr h ↦ rw h (elim (Bool-cases (str_eq r.charge_type charge_stage)) [
        | inl k ↦ rw k refl
        | inr k ↦ rw k refl
      ])
    ]

module _ (id : String) (r : ChargeRow) where
  receive-step :
      (o : Option GroupedEvent)
      → amount (λ g. g.receive_nanos) (step id r o) ≡ (
          if str_eq r.event_id id && str_eq r.charge_type charge_receive
          then r.credit_deducted_nanos
          else amount (λ g. g.receive_nanos) o)
  receive-step none = elim (Bool-cases (str_eq r.event_id id)) [
    | inl h ↦ rw h (receive-charge r (new_group r))
    | inr h ↦ rw h refl
  ]
  receive-step (some g) = elim (Bool-cases (str_eq r.event_id id)) [
    | inl h ↦ rw h (receive-charge r g)
    | inr h ↦ rw h refl
  ]

  stage-step :
      (o : Option GroupedEvent)
      → amount (λ g. g.stage_nanos) (step id r o) ≡ (
          if str_eq r.event_id id && str_eq r.charge_type charge_stage
          then r.credit_deducted_nanos
          else amount (λ g. g.stage_nanos) o)
  stage-step none = elim (Bool-cases (str_eq r.event_id id)) [
    | inl h ↦ rw h (stage-charge r (new_group r))
    | inr h ↦ rw h refl
  ]
  stage-step (some g) = elim (Bool-cases (str_eq r.event_id id)) [
    | inl h ↦ rw h (stage-charge r g)
    | inr h ↦ rw h refl
  ]

  total-step :
      (o : Option GroupedEvent)
      → amount (λ g. g.total_nanos) o
        ≡ amount (λ g. g.receive_nanos) o + amount (λ g. g.stage_nanos) o
      → amount (λ g. g.total_nanos) (step id r o)
        ≡ amount (λ g. g.receive_nanos) (step id r o) + amount (λ g. g.stage_nanos) (step id r o)
  unfolding add_charge
  total-step none t = elim (Bool-cases (str_eq r.event_id id)) [
    | inl h ↦ rw h refl
    | inr h ↦ rw h refl
  ]
  total-step (some g) t = elim (Bool-cases (str_eq r.event_id id)) [
    | inl h ↦ rw h refl
    | inr h ↦ rw h t
  ]

-- The amounts of an event after the rows.
HasCharges : String → List ChargeRow → Option GroupedEvent → Option GroupedEvent → Type 0
HasCharges id rows before o =
    (amount (λ g. g.receive_nanos) o
      ≡ last_credit charge_receive id rows (amount (λ g. g.receive_nanos) before))
    × (amount (λ g. g.stage_nanos) o
        ≡ last_credit charge_stage id rows (amount (λ g. g.stage_nanos) before))
    × (amount (λ g. g.total_nanos) o
        ≡ amount (λ g. g.receive_nanos) o + amount (λ g. g.stage_nanos) o)

steps-HasCharges :
    (id : String) (rows : List ChargeRow) (o : Option GroupedEvent)
    → amount (λ g. g.total_nanos) o
      ≡ amount (λ g. g.receive_nanos) o + amount (λ g. g.stage_nanos) o
    → HasCharges id rows o (steps id rows o)
unfolding HasCharges
steps-HasCharges id [] o t = (refl, refl, t)
steps-HasCharges id (r ∷ rs) o t =
    let (received, staged, total) = steps-HasCharges id rs (step id r o) (total-step id r o t) in
    (
      received ∙ ap (last_credit charge_receive id rs) (receive-step id r o),
      staged ∙ ap (last_credit charge_stage id rs) (stage-step id r o),
      total,
    )

-- Whatever the order of the rows, also with rows of several events in between: the group that the
-- loop makes of an event has the amount of the event's last row of the kind "receive", and of its
-- last row of the kind "stage", 0 where there is none, and their sum as the total.
pub add_rows_charges :
    (id : String) (rows : List ChargeRow)
    → (let o = group_of id (add_rows rows []) in
        (amount (λ g. g.receive_nanos) o ≡ last_credit charge_receive id rows 0)
        × (amount (λ g. g.stage_nanos) o ≡ last_credit charge_stage id rows 0)
        × (amount (λ g. g.total_nanos) o
            ≡ last_credit charge_receive id rows 0 + last_credit charge_stage id rows 0))
unfolding HasCharges
add_rows_charges id rows =
    let (received, staged, total) =
      subst (HasCharges id rows none) (sym (group_of-add_rows id rows []))
        (steps-HasCharges id rows none refl) in
    (received, staged, rw (← received, ← staged) total)
