-- ===== src/Billing/Pages.antt =====
-- How many of the events of a page `billing show` shows.
use usezombie.Prelude.{
  ||_false, ℕ, zero, suc, ◌+◌, ◌≤◌, ◌≡◌, refl, ap, ◌∙◌, String, Bool, false, Option, List, [], ◌∷◌,
  ◌++◌, any, length, length-append, All, All-append, leb, arith, Bool-cases, inl, inr,
}
use usezombie.Billing.Cli.{
  ChargeRow, EventSummary, same_key, is_charge, new_summary, add_charge, add_row, add_rows,
  insert_summary, sort_summaries, group_rows_by_event, take, or_zero,
}

abbrev pub has_key : Option String → List ChargeRow → Bool
has_key k = any (λ r. same_key k r.event_id)

-- No two rows are of the same event.
abbrev pub IsDistinct : List ChargeRow → Type 0
IsDistinct [] = Unit
IsDistinct (r ∷ rs) = (has_key r.event_id rs ≡ false) × IsDistinct rs

pub add_charge-id : (r : ChargeRow) (e : EventSummary) → (add_charge r e).event_id ≡ e.event_id
unfolding add_charge
add_charge-id r e = elim (Bool-cases (is_charge "receive" r.charge_type)) [
  | inl h ↦ rw h refl
  | inr h ↦ rw h (elim (Bool-cases (is_charge "stage" r.charge_type)) [
    | inl k ↦ rw k refl
    | inr k ↦ rw k refl
  ])
]

module _ (r : ChargeRow) (rs : List ChargeRow) where
  add_row-new :
      (es : List EventSummary)
      → All (λ e. has_key e.event_id (r ∷ rs) ≡ false) es
      → add_row r es ≡ es ++ add_charge r (new_summary r) ∷ []
  unfolding add_row
  add_row-new [] h = refl
  add_row-new (e ∷ es) (h, hs) =
      let (this, later) = ||_false (same_key e.event_id r.event_id) (has_key e.event_id rs) h in
      rw this (ap (λ fs. e ∷ fs) (add_row-new es hs))

  All-rest :
      (es : List EventSummary)
      → All (λ e. has_key e.event_id (r ∷ rs) ≡ false) es
      → All (λ e. has_key e.event_id rs ≡ false) es
  All-rest [] h = tt
  All-rest (e ∷ es) (h, hs) =
      let (this, later) = ||_false (same_key e.event_id r.event_id) (has_key e.event_id rs) h in
      (later, All-rest es hs)

length-add_rows :
    (rows : List ChargeRow) (es : List EventSummary)
    → IsDistinct rows
    → All (λ e. has_key e.event_id rows ≡ false) es
    → length (add_rows rows es) ≡ length es + length rows
unfolding add_rows
length-add_rows [] es d h = omega arith
length-add_rows (r ∷ rs) es (new, d) h =
    let made = add_charge r (new_summary r) in
    let own : has_key made.event_id rs ≡ false =
      ap (λ k. has_key k rs) (add_charge-id r (new_summary r)) ∙ new in
    let longer = length-add_rows rs (es ++ made ∷ []) d (
      All-append (λ e. has_key e.event_id rs ≡ false) es (made ∷ []) (All-rest r rs es h)
        (own, tt)) in
    rw (add_row-new r rs es h) (omega (arith, longer, length-append es (made ∷ [])))

length-insert :
    (e : EventSummary) (es : List EventSummary) → length (insert_summary e es) ≡ suc (length es)
unfolding insert_summary
length-insert e [] = refl
length-insert e (f ∷ fs) = elim (Bool-cases (leb (or_zero f.recorded_at) (or_zero e.recorded_at))) [
  | inl h ↦ rw h refl
  | inr h ↦ rw h (ap suc (length-insert e fs))
]

length-sort : (es : List EventSummary) → length (sort_summaries es) ≡ length es
unfolding sort_summaries
length-sort [] = refl
length-sort (e ∷ es) = length-insert e (sort_summaries es) ∙ ap suc (length-sort es)

length-take : (n : ℕ) (es : List EventSummary) → n ≤ length es → length (take n es) ≡ n
length-take zero es h = refl
length-take (suc n) [] h = absurd (omega arith)
length-take (suc n) (e ∷ es) h = ap suc (length-take n es (omega arith))

-- If no two rows are of the same event, each makes an event.
pub length-group :
    (rows : List ChargeRow) → IsDistinct rows → length (group_rows_by_event rows) ≡ length rows
unfolding group_rows_by_event
length-group rows d = omega (arith, length-sort (add_rows rows []), length-add_rows rows [] d tt)
