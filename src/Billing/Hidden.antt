-- ===== src/Billing/Hidden.antt =====
-- The events of a page, and which of them are shown.
use usezombie.Prelude.{
  ||_false, ℕ, zero, suc, ◌≡◌, refl, ap, ◌∙◌, String, Bool, false, Option, none, some, List, [],
  ◌∷◌, any, leb, Bool-cases, inl, inr, str_eq-swap, ◌||◌,
}
use usezombie.Billing.Cli.{
  ChargeRow, EventSummary, same_key, new_summary, add_row, add_rows, insert_summary, sort_summaries,
  group_rows_by_event, shown_events, take, or_zero,
}
use usezombie.Billing.Pages.{has_key, add_charge-id}

abbrev pub shows : Option String → List EventSummary → Bool
shows k = any (λ e. same_key k e.event_id)

abbrev pub drop : ℕ → List EventSummary → List EventSummary
drop zero es = es
drop (suc n) [] = []
drop (suc n) (e ∷ es) = drop n es

unfoldable pub AreApart : List EventSummary → Type 0
AreApart [] = Unit
AreApart (e ∷ es) = (shows e.event_id es ≡ false) × AreApart es

||_both : (a b : Bool) → a ≡ false → b ≡ false → (a || b) ≡ false
||_both a b h k = rw (h, k) refl

pub same_key-swap : (a b : Option String) → same_key a b ≡ false → same_key b a ≡ false
same_key-swap none none h = h
same_key-swap none (some t) h = refl
same_key-swap (some s) none h = refl
same_key-swap (some s) (some t) h = str_eq-swap s t h

shows-add_row :
    (k : Option String) (r : ChargeRow) (es : List EventSummary)
    → same_key k r.event_id ≡ false
    → shows k es ≡ false
    → shows k (add_row r es) ≡ false
unfolding add_row
shows-add_row k r [] h n =
    ||_both _ false (ap (same_key k) (add_charge-id r (new_summary r)) ∙ h) refl
shows-add_row k r (e ∷ es) h n =
    let (this, later) = ||_false (same_key k e.event_id) (shows k es) n in
    elim (Bool-cases (same_key e.event_id r.event_id)) [
      | inl m ↦ rw m (||_both _ _ (ap (same_key k) (add_charge-id r e) ∙ this) later)
      | inr m ↦ rw m (||_both _ _ this (shows-add_row k r es h later))
    ]

shows-add_rows :
    (k : Option String) (rows : List ChargeRow) (es : List EventSummary)
    → has_key k rows ≡ false
    → shows k es ≡ false
    → shows k (add_rows rows es) ≡ false
unfolding add_rows
shows-add_rows k [] es h n = n
shows-add_rows k (r ∷ rs) es h n =
    let (this, later) = ||_false (same_key k r.event_id) (has_key k rs) h in
    shows-add_rows k rs (add_row r es) later (shows-add_row k r es this n)

shows-insert :
    (k : Option String) (e : EventSummary) (es : List EventSummary)
    → same_key k e.event_id ≡ false
    → shows k es ≡ false
    → shows k (insert_summary e es) ≡ false
unfolding insert_summary
shows-insert k e [] h n = ||_both _ false h refl
shows-insert k e (f ∷ fs) h n =
    let (this, later) = ||_false (same_key k f.event_id) (shows k fs) n in
    elim (Bool-cases (leb (or_zero f.recorded_at) (or_zero e.recorded_at))) [
      | inl m ↦ rw m (||_both _ _ h n)
      | inr m ↦ rw m (||_both _ _ this (shows-insert k e fs h later))
    ]

shows-sort :
    (k : Option String) (es : List EventSummary)
    → shows k es ≡ false
    → shows k (sort_summaries es) ≡ false
unfolding sort_summaries
shows-sort k [] n = n
shows-sort k (e ∷ es) n =
    let (this, later) = ||_false (same_key k e.event_id) (shows k es) n in
    shows-insert k e (sort_summaries es) this (shows-sort k es later)

shows-take :
    (k : Option String) (n : ℕ) (es : List EventSummary)
    → shows k es ≡ false
    → shows k (take n es) ≡ false
shows-take k zero es h = refl
shows-take k (suc n) [] h = refl
shows-take k (suc n) (e ∷ es) h =
    let (this, later) = ||_false (same_key k e.event_id) (shows k es) h in
    ||_both _ _ this (shows-take k n es later)

-- An event of which a page has no row is not on it.
pub shows-shown :
    (k : Option String) (limit : ℕ) (rows : List ChargeRow)
    → has_key k rows ≡ false
    → shows k (shown_events limit rows) ≡ false
unfolding shown_events group_rows_by_event
shows-shown k limit rows h = shows-take k limit _ (shows-sort k _ (shows-add_rows k rows [] h refl))

add_row-AreApart : (r : ChargeRow) (es : List EventSummary) → AreApart es → AreApart (add_row r es)
unfolding add_row AreApart
add_row-AreApart r [] d = (refl, tt)
add_row-AreApart r (e ∷ es) (new, d) = elim (Bool-cases (same_key e.event_id r.event_id)) [
  | inl m ↦ rw m (ap (λ k. shows k es) (add_charge-id r e) ∙ new, d)
  | inr m ↦ rw m (shows-add_row e.event_id r es m new, add_row-AreApart r es d)
]

pub add_rows-AreApart :
    (rows : List ChargeRow) (es : List EventSummary) → AreApart es → AreApart (add_rows rows es)
unfolding add_rows
add_rows-AreApart [] es d = d
add_rows-AreApart (r ∷ rs) es d = add_rows-AreApart rs (add_row r es) (add_row-AreApart r es d)

insert-AreApart :
    (e : EventSummary) (es : List EventSummary)
    → shows e.event_id es ≡ false
    → AreApart es
    → AreApart (insert_summary e es)
unfolding insert_summary AreApart
insert-AreApart e [] h d = (refl, tt)
insert-AreApart e (f ∷ fs) h (new, d) =
    let (this, later) = ||_false (same_key e.event_id f.event_id) (shows e.event_id fs) h in
    elim (Bool-cases (leb (or_zero f.recorded_at) (or_zero e.recorded_at))) [
      | inl m ↦ rw m (h, (new, d))
      | inr m ↦ rw m (
        shows-insert f.event_id e fs (same_key-swap e.event_id f.event_id this) new,
        insert-AreApart e fs later d,
      )
    ]

pub sort-AreApart : (es : List EventSummary) → AreApart es → AreApart (sort_summaries es)
unfolding sort_summaries AreApart
sort-AreApart [] d = tt
sort-AreApart (e ∷ es) (new, d) =
    insert-AreApart e (sort_summaries es) (shows-sort e.event_id es new) (sort-AreApart es d)
