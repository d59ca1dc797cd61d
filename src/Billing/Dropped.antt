-- ===== src/Billing/Dropped.antt =====
-- Events that no page of `billing show` shows.
use usezombie.Prelude.{
  ||_false, ℕ, zero, suc, ◌+◌, ◌≤◌, ◌≡◌, refl, sym, subst, String, Text, false, Option, none, some,
  List, [], ◌∷◌, ◌++◌, length, All, leb, arith, Bool-cases, inl, inr,
}
use usezombie.Billing.Cli.{
  ChargeRow, EventSummary, ChargesResponse, same_key, new_summary, add_row, add_rows,
  insert_summary, sort_summaries, group_rows_by_event, shown_events, billing_show, row_limit, take,
  or_zero,
}
use usezombie.Billing.Pages.{IsDistinct, has_key, add_charge-id, length-group}
use usezombie.Billing.Hidden.{
  shows, drop, AreApart, same_key-swap, shows-shown, add_rows-AreApart, sort-AreApart,
}

-- A property of ids holds of the events if it holds of the rows.
module _ (P : Option String → Type 0) where
  abbrev HasIds : List EventSummary → Type 0
  HasIds = All (λ e. P e.event_id)

  add_row-HasIds :
      (r : ChargeRow) (es : List EventSummary) → P r.event_id → HasIds es → HasIds (add_row r es)
  unfolding add_row
  add_row-HasIds r [] p h = (subst P (sym (add_charge-id r (new_summary r))) p, tt)
  add_row-HasIds r (e ∷ es) p (q, h) = elim (Bool-cases (same_key e.event_id r.event_id)) [
    | inl m ↦ rw m (subst P (sym (add_charge-id r e)) q, h)
    | inr m ↦ rw m (q, add_row-HasIds r es p h)
  ]

  add_rows-HasIds :
      (rows : List ChargeRow) (es : List EventSummary)
      → All (λ r. P r.event_id) rows
      → HasIds es
      → HasIds (add_rows rows es)
  unfolding add_rows
  add_rows-HasIds [] es p h = h
  add_rows-HasIds (r ∷ rs) es (p, ps) h =
      add_rows-HasIds rs (add_row r es) ps (add_row-HasIds r es p h)

  insert-HasIds :
      (e : EventSummary) (es : List EventSummary)
      → P e.event_id
      → HasIds es
      → HasIds (insert_summary e es)
  unfolding insert_summary
  insert-HasIds e [] p h = (p, tt)
  insert-HasIds e (f ∷ fs) p (q, h) =
      elim (Bool-cases (leb (or_zero f.recorded_at) (or_zero e.recorded_at))) [
        | inl m ↦ rw m (p, (q, h))
        | inr m ↦ rw m (q, insert-HasIds e fs p h)
      ]

  sort-HasIds : (es : List EventSummary) → HasIds es → HasIds (sort_summaries es)
  unfolding sort_summaries
  sort-HasIds [] h = tt
  sort-HasIds (e ∷ es) (p, h) = insert-HasIds e (sort_summaries es) p (sort-HasIds es h)

All-drop :
    (P : EventSummary → Type 0) (n : ℕ) (es : List EventSummary) → All P es → All P (drop n es)
All-drop P zero es h = h
All-drop P (suc n) [] h = tt
All-drop P (suc n) (e ∷ es) (p, h) = All-drop P n es h

All-both :
    (P Q R : EventSummary → Type 0) (es : List EventSummary)
    → ((e : EventSummary) → P e → Q e → R e)
    → All P es
    → All Q es
    → All R es
All-both P Q R [] f h k = tt
All-both P Q R (e ∷ es) f (p, h) (q, k) = (f e p q, All-both P Q R es f h k)

All-apart :
    (e : EventSummary) (es : List EventSummary)
    → shows e.event_id es ≡ false
    → All (λ f. same_key f.event_id e.event_id ≡ false) es
All-apart e [] h = tt
All-apart e (f ∷ fs) h =
    let (this, later) = ||_false (same_key e.event_id f.event_id) (shows e.event_id fs) h in
    (same_key-swap e.event_id f.event_id this, All-apart e fs later)

-- What is behind the first events is not among them.
drop-hidden :
    (n : ℕ) (es : List EventSummary)
    → AreApart es
    → All (λ e. shows e.event_id (take n es) ≡ false) (drop n es)
unfolding AreApart
drop-hidden zero es d = everywhere es
  where
    everywhere : (es : List EventSummary) → All (λ e. shows e.event_id [] ≡ false) es
    everywhere [] = tt
    everywhere (e ∷ es) = (refl, everywhere es)
drop-hidden (suc n) [] d = tt
drop-hidden (suc n) (e ∷ es) (new, d) =
    All-both (λ f. same_key f.event_id e.event_id ≡ false)
      (λ f. shows f.event_id (take n es) ≡ false) (λ f. shows f.event_id (e ∷ take n es) ≡ false)
      (drop n es) (λ f p q. rw (p, q) refl)
      (All-drop (λ f. same_key f.event_id e.event_id ≡ false) n es (All-apart e es new))
      (drop-hidden n es d)

-- The rows of one page are of other events than those of the next.
has_key-others :
    (rows more : List ChargeRow)
    → IsDistinct (rows ++ more)
    → All (λ r. has_key r.event_id more ≡ false) rows × IsDistinct rows
has_key-others [] more d = (tt, tt)
has_key-others (r ∷ rs) more (new, d) =
    let (others, own) = has_key-others rs more d in
    (((split rs new).1, others), ((split rs new).0, own))
  where
    split :
        (rs : List ChargeRow)
        → has_key r.event_id (rs ++ more) ≡ false
        → (has_key r.event_id rs ≡ false) × (has_key r.event_id more ≡ false)
    split [] h = (refl, h)
    split (q ∷ qs) h =
        let (this, later) =
          ||_false (same_key r.event_id q.event_id) (has_key r.event_id (qs ++ more)) h in
        let (here, there) = split qs later in (rw (this, here) refl, there)

length-drop : (n : ℕ) (es : List EventSummary) → n ≤ length es → length (drop n es) + n ≡ length es
length-drop zero es h = omega arith
length-drop (suc n) [] h = absurd (omega arith)
length-drop (suc n) (e ∷ es) h = let rest = length-drop n es (omega arith) in omega arith

-- Both pages lack the event.
abbrev pub IsHidden : List EventSummary → List EventSummary → EventSummary → Type 0
IsHidden this next e = (shows e.event_id this ≡ false) × (shows e.event_id next ≡ false)

shown_events-IsHidden :
    (limit : ℕ) (rows more : List ChargeRow)
    → IsDistinct (rows ++ more)
    → All
        (IsHidden (shown_events limit rows) (shown_events limit more))
        (drop limit (group_rows_by_event rows))
unfolding shown_events group_rows_by_event
shown_events-IsHidden limit rows more d =
    let (others, own) = has_key-others rows more d in
    let events = sort_summaries (add_rows rows []) in
    let apart : AreApart events =
      sort-AreApart (add_rows rows []) (add_rows-AreApart rows [] (unfold AreApart in tt)) in
    All-both (λ e. shows e.event_id (take limit events) ≡ false)
      (λ e. has_key e.event_id more ≡ false)
      (IsHidden (shown_events limit rows) (shown_events limit more)) (drop limit events)
      (λ e p q. (p, shows-shown e.event_id limit more q)) (drop-hidden limit events apart)
      (All-drop (λ e. has_key e.event_id more ≡ false) limit events
        (sort-HasIds (λ k. has_key k more ≡ false) (add_rows rows [])
          (add_rows-HasIds (λ k. has_key k more ≡ false) rows [] others tt)))

-- If the server answers with all the rows that were asked for and with a cursor, and none of these rows and
-- of those that it sends for that cursor are of the same event (as while the stages of the events are not
-- charged), then `limit` events of the first page's rows are shown neither on that page nor on the next one,
-- which the cursor that `billing show` passes on leads to.
pub billing_show_drops :
    (charges : ℕ → Option Text → ChargesResponse) (limit : ℕ) (rows more : List ChargeRow)
    (cursor : Text) (end : Option Text)
    → charges (row_limit limit) none ≡ record { items = some rows; next_cursor = some cursor }
    → charges (row_limit limit) (some cursor) ≡ record { items = some more; next_cursor = end }
    → IsDistinct (rows ++ more)
    → length rows ≡ row_limit limit
    → (let hidden = drop limit (group_rows_by_event rows) in
        let next_page = (billing_show charges limit none).1 in
        (length hidden ≡ limit)
        × (next_page ≡ some cursor)
        × All
            (IsHidden (billing_show charges limit none).0 (billing_show charges limit next_page).0)
            hidden)
unfolding billing_show
billing_show_drops charges limit rows more cursor end first second d full =
    let whole = length-group rows (has_key-others rows more d).1 in
    let behind = length-drop limit (group_rows_by_event rows) (omega arith) in
    rw (first, second) (omega arith, refl, shown_events-IsHidden limit rows more d)
