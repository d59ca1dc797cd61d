-- ===== src/Billing/Dashboard.antt =====
-- ui/packages/app/app/(dashboard)/settings/billing/lib/groupCharges.ts. Amounts and times are
-- non-negative integers.
use usezombie.Prelude.{
  ℕ, ◌+◌, String, Bool, Option, none, List, [], ◌∷◌, if◌then◌else◌, str_eq, ltb, ◌==◌,
}

pub record ChargeRow : Type 0 where
  pub event_id : String
  pub zombie_id : String
  pub posture : String
  pub model : String
  pub charge_type : String
  pub credit_deducted_nanos : ℕ
  pub token_count_input : Option ℕ
  pub token_count_output : Option ℕ
  pub recorded_at : ℕ

pub record GroupedEvent : Type 0 where
  pub event_id : String
  pub zombie_id : String
  pub posture : String
  pub model : String
  pub recorded_at : ℕ
  pub receive_nanos : ℕ
  pub stage_nanos : ℕ
  pub total_nanos : ℕ
  pub token_count_input : Option ℕ
  pub token_count_output : Option ℕ

abbrev pub charge_receive : String
charge_receive = "receive"

abbrev pub charge_stage : String
charge_stage = "stage"

abbrev pub new_group : ChargeRow → GroupedEvent
new_group r = record {
  event_id = r.event_id;
  zombie_id = r.zombie_id;
  posture = r.posture;
  model = r.model;
  recorded_at = r.recorded_at;
  receive_nanos = 0;
  stage_nanos = 0;
  total_nanos = 0;
  token_count_input = none;
  token_count_output = none;
}

abbrev pub charge : ChargeRow → GroupedEvent → GroupedEvent
charge r g =
    if str_eq r.charge_type charge_receive
    then record g { receive_nanos = r.credit_deducted_nanos }
    else if str_eq r.charge_type charge_stage
    then record g {
      stage_nanos = r.credit_deducted_nanos;
      token_count_input = r.token_count_input;
      token_count_output = r.token_count_output;
    }
    else g

abbrev pub pin : ChargeRow → GroupedEvent → GroupedEvent
pin r g = if ltb r.recorded_at g.recorded_at then record g { recorded_at = r.recorded_at } else g

abbrev pub sum_up : GroupedEvent → GroupedEvent
sum_up g = record g { total_nanos = g.receive_nanos + g.stage_nanos }

-- The body of the loop, on the group of the row's event.
unfoldable pub add_charge : ChargeRow → GroupedEvent → GroupedEvent
add_charge r g = sum_up (pin r (charge r g))

-- The map is a list in the order of insertion, as `byEvent.values()` gives it.
unfoldable pub add_row : ChargeRow → List GroupedEvent → List GroupedEvent
unfolding add_charge
add_row r [] = add_charge r (new_group r) ∷ []
add_row r (g ∷ gs) =
    let later = add_row r gs in
    if str_eq g.event_id r.event_id then add_charge r g ∷ gs else g ∷ later

unfoldable pub add_rows : List ChargeRow → List GroupedEvent → List GroupedEvent
unfolding add_row
add_rows [] gs = gs
add_rows (r ∷ rs) gs = add_rows rs (add_row r gs)

-- `up_to a b` is `a.localeCompare(b) <= 0`.
module _ (up_to : String → String → Bool) where
  abbrev pub comes_first : GroupedEvent → GroupedEvent → Bool
  comes_first a b =
      if a.recorded_at == b.recorded_at
      then up_to a.event_id b.event_id
      else ltb b.recorded_at a.recorded_at

  unfoldable pub insert_group : GroupedEvent → List GroupedEvent → List GroupedEvent
  insert_group g [] = g ∷ []
  insert_group g (h ∷ hs) =
      let later = insert_group g hs in if comes_first g h then g ∷ h ∷ hs else h ∷ later

  unfoldable pub sort_groups : List GroupedEvent → List GroupedEvent
  unfolding insert_group
  sort_groups [] = []
  sort_groups (g ∷ gs) = insert_group g (sort_groups gs)

  unfoldable pub group_charges_by_event : List ChargeRow → List GroupedEvent
  unfolding add_rows sort_groups
  group_charges_by_event rows = sort_groups (add_rows rows [])
