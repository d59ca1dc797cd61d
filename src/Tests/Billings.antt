-- ===== src/Tests/Billings.antt =====
-- The grouping of charges at concrete rows.
use usezombie.Prelude.{
  ℕ, ◌+◌, ◌≡◌, refl, String, true, none, some, List, [], ◌∷◌, map, length, Option, Text, codes, All,
}
use usezombie.Billing.Dashboard as Board
use usezombie.Billing.Cli as Cli
use usezombie.Billing.Groups.{group_of, amount, last_credit, add_rows_charges}
use usezombie.Billing.Hidden.{drop}
use usezombie.Billing.Dropped.{IsHidden, billing_show_drops}

abbrev dashboard_row : String → String → ℕ → ℕ → Board.ChargeRow
dashboard_row id kind nanos at = record {
  event_id = id;
  zombie_id = "z";
  posture = "platform";
  model = "m";
  charge_type = kind;
  credit_deducted_nanos = nanos;
  token_count_input = some 7;
  token_count_output = none;
  recorded_at = at;
}

abbrev mixed_rows : List Board.ChargeRow
mixed_rows =
    dashboard_row "b" "receive" 1 20
    ∷ dashboard_row "a" "stage" 30 12
    ∷ dashboard_row "a" "receive" 5 10
    ∷ dashboard_row "b" "stage" 4 25
    ∷ []

add_rows_charges_example :
    (amount (λ g. g.receive_nanos) (group_of "a" (Board.add_rows mixed_rows []))
      ≡ last_credit "receive" "a" mixed_rows 0)
    × (amount (λ g. g.stage_nanos) (group_of "a" (Board.add_rows mixed_rows []))
        ≡ last_credit "stage" "a" mixed_rows 0)
    × (amount (λ g. g.total_nanos) (group_of "a" (Board.add_rows mixed_rows []))
        ≡ last_credit "receive" "a" mixed_rows 0 + last_credit "stage" "a" mixed_rows 0)
add_rows_charges_example = add_rows_charges "a" mixed_rows

newest_first :
    map (λ g. Board.GroupedEvent.event_id g) (Board.group_charges_by_event (λ a b. true) mixed_rows)
    ≡ "b" ∷ "a" ∷ []
unfolding Board.group_charges_by_event
newest_first = refl

abbrev cli_row : String → ℕ → Cli.ChargeRow
cli_row id at = record {
  event_id = some id;
  posture = none;
  model = none;
  recorded_at = some at;
  charge_type = some "receive";
  credit_deducted_nanos = some 3;
  token_count_input = none;
  token_count_output = none;
}

abbrev received_only : List Cli.ChargeRow
received_only = cli_row "d" 4 ∷ cli_row "c" 3 ∷ cli_row "b" 2 ∷ cli_row "a" 1 ∷ []

-- Events of the page behind the first one.
abbrev received_later : List Cli.ChargeRow
received_later = cli_row "z" 0 ∷ []

abbrev page_of : Option Text → Cli.ChargesResponse
page_of none = record { items = some received_only; next_cursor = some (codes "c") }
page_of (some cursor) = record { items = some received_later; next_cursor = none }

abbrev charges : ℕ → Option Text → Cli.ChargesResponse
charges n cursor = page_of cursor

billing_show_drops_example :
    (length (drop 2 (Cli.group_rows_by_event received_only)) ≡ 2)
    × ((Cli.billing_show charges 2 none).1 ≡ some (codes "c"))
    × All
        (IsHidden
          (Cli.billing_show charges 2 none).0
          (Cli.billing_show charges 2 (Cli.billing_show charges 2 none).1).0)
        (drop 2 (Cli.group_rows_by_event received_only))
billing_show_drops_example =
    billing_show_drops charges 2 received_only received_later (codes "c") none refl refl
      (refl, (refl, (refl, (refl, (refl, tt))))) refl
