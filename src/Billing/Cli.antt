-- ===== src/Billing/Cli.antt =====
-- agentsfleet/src/commands/billing.ts: the arguments, the grouping and the page of `billing show`.
-- Amounts and times are non-negative integers.
use usezombie.Prelude.{
  ℕ, suc, zero, ◌+◌, ◌*◌, String, Text, Bool, true, false, ◌||◌, Option, none, some, List, [], ◌∷◌,
  if◌then◌else◌, str_eq, ltb, leb, ◌==◌, is_empty,
}

pub record ChargeRow : Type 0 where
  pub event_id : Option String
  pub posture : Option String
  pub model : Option String
  pub recorded_at : Option ℕ
  pub charge_type : Option String
  pub credit_deducted_nanos : Option ℕ
  pub token_count_input : Option ℕ
  pub token_count_output : Option ℕ

pub record EventSummary : Type 0 where
  pub event_id : Option String
  pub posture : Option String
  pub model : Option String
  pub recorded_at : Option ℕ
  pub receive_nanos : ℕ
  pub stage_nanos : ℕ
  pub token_count_input : Option ℕ
  pub token_count_output : Option ℕ
  pub total_nanos : ℕ

abbrev pub default_limit : ℕ
default_limit = 10

abbrev pub max_limit : ℕ
max_limit = 100

pub data ArgumentError : Type 0 where
  bad_limit empty_cursor : ArgumentError

pub data Parsed (A : Type 0) : Type 0 where
  good : A → Parsed A
  bad : ArgumentError → Parsed A

-- `raw` is the integer that the option's parser made, if the option is given; `none` inside is a
-- negative one.
unfoldable pub parse_limit : Option (Option ℕ) → Parsed ℕ
parse_limit none = good default_limit
parse_limit (some none) = bad bad_limit
parse_limit (some (some n)) = if (n == 0) || ltb max_limit n then bad bad_limit else good n

unfoldable pub parse_cursor : Option Text → Parsed (Option Text)
parse_cursor none = good none
parse_cursor (some raw) = if is_empty raw then bad empty_cursor else good (some raw)

-- `byEvent.get(r.event_id)`: `undefined` is a key like any other.
abbrev pub same_key : Option String → Option String → Bool
same_key none none = true
same_key (some a) (some b) = str_eq a b
same_key _ _ = false

abbrev pub is_charge : String → Option String → Bool
is_charge kind none = false
is_charge kind (some t) = str_eq t kind

abbrev pub or_zero : Option ℕ → ℕ
or_zero none = 0
or_zero (some n) = n

abbrev pub new_summary : ChargeRow → EventSummary
new_summary r = record {
  event_id = r.event_id;
  posture = r.posture;
  model = r.model;
  recorded_at = r.recorded_at;
  receive_nanos = 0;
  stage_nanos = 0;
  token_count_input = none;
  token_count_output = none;
  total_nanos = 0;
}

abbrev pub charge : ChargeRow → EventSummary → EventSummary
charge r e =
    if is_charge "receive" r.charge_type
    then record e { receive_nanos = or_zero r.credit_deducted_nanos }
    else if is_charge "stage" r.charge_type
    then record e {
      stage_nanos = or_zero r.credit_deducted_nanos;
      token_count_input = r.token_count_input;
      token_count_output = r.token_count_output;
    }
    else e

abbrev pub earliest : Option ℕ → Option ℕ → Option ℕ
earliest none known = known
earliest (some at) none = some at
earliest (some at) (some known) = if ltb at known then some at else some known

abbrev pub sum_up : EventSummary → EventSummary
sum_up e = record e { total_nanos = e.receive_nanos + e.stage_nanos }

unfoldable pub add_charge : ChargeRow → EventSummary → EventSummary
add_charge r e =
    let charged = charge r e in
    sum_up (record charged { recorded_at = earliest r.recorded_at charged.recorded_at })

unfoldable pub add_row : ChargeRow → List EventSummary → List EventSummary
unfolding add_charge
add_row r [] = add_charge r (new_summary r) ∷ []
add_row r (e ∷ es) =
    let later = add_row r es in
    if same_key e.event_id r.event_id then add_charge r e ∷ es else e ∷ later

unfoldable pub add_rows : List ChargeRow → List EventSummary → List EventSummary
unfolding add_row
add_rows [] es = es
add_rows (r ∷ rs) es = add_rows rs (add_row r es)

unfoldable pub insert_summary : EventSummary → List EventSummary → List EventSummary
insert_summary e [] = e ∷ []
insert_summary e (f ∷ fs) =
    let later = insert_summary e fs in
    if leb (or_zero f.recorded_at) (or_zero e.recorded_at) then e ∷ f ∷ fs else f ∷ later

unfoldable pub sort_summaries : List EventSummary → List EventSummary
unfolding insert_summary
sort_summaries [] = []
sort_summaries (e ∷ es) = insert_summary e (sort_summaries es)

unfoldable pub group_rows_by_event : List ChargeRow → List EventSummary
unfolding add_rows sort_summaries
group_rows_by_event rows = sort_summaries (add_rows rows [])

-- `slice(0, limit)`
abbrev pub take : ℕ → List EventSummary → List EventSummary
take zero es = []
take (suc n) [] = []
take (suc n) (e ∷ es) = e ∷ take n es

-- How many rows `billing show` asks the server for.
abbrev pub row_limit : ℕ → ℕ
row_limit limit = limit * 2

-- The events that it shows of the rows of the answer; the cursor of the next page is the server's.
unfoldable pub shown_events : ℕ → List ChargeRow → List EventSummary
unfolding group_rows_by_event
shown_events limit rows = take limit (group_rows_by_event rows)

pub record ChargesResponse : Type 0 where
  pub items : Option (List ChargeRow)
  pub next_cursor : Option Text

abbrev pub rows_or_empty : Option (List ChargeRow) → List ChargeRow
rows_or_empty none = []
rows_or_empty (some rows) = rows

-- The events that `billing show` shows and the cursor that it passes on, for the server's answers to
-- requests for a number of rows from a cursor on.
unfoldable pub billing_show :
    (ℕ → Option Text → ChargesResponse) → ℕ → Option Text → List EventSummary × Option Text
unfolding shown_events
billing_show charges limit cursor =
    let res = charges (row_limit limit) cursor in
    (shown_events limit (rows_or_empty res.items), res.next_cursor)
