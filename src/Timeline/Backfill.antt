-- ===== src/Timeline/Backfill.antt =====
-- The backfill: its order, the events it keeps, and what a second backfill changes.
use usezombie.Prelude.{
  str_eq_refl, ℕ, ◌≤◌, String, ◌≡◌, refl, sym, ap, ◌∙◌, Bool, true, false, ◌||◌, List, [], ◌∷◌,
  ◌++◌, map, keep, not, leb, str_eq, eq_iff, arith, Bool-cases, inl, inr, All,
}
use mathlib.Core.List.{Perm}
use mathlib.Core.List.Perm
use usezombie.Timeline.{
  ZombieEvent, EventRow, has_id, row_to_event, insert_event, sort_events, merge_backfill,
}

-- Each event is at most as late as the ones behind it.
abbrev pub IsSorted : List ZombieEvent → Type 0
IsSorted [] = Unit
IsSorted (e ∷ es) = All (λ f. e.created_at ≤ f.created_at) es × IsSorted es

insert_event-All :
    (n : ℕ) (e : ZombieEvent) (es : List ZombieEvent)
    → n ≤ e.created_at
    → All (λ f. n ≤ f.created_at) es
    → All (λ f. n ≤ f.created_at) (insert_event e es)
unfolding insert_event
insert_event-All n e [] h hs = (h, tt)
insert_event-All n e (f ∷ fs) h (k, ks) = elim (Bool-cases (leb e.created_at f.created_at)) [
  | inl j ↦ rw j (h, (k, ks))
  | inr j ↦ rw j (k, insert_event-All n e fs h ks)
]

All-weaken :
    (m n : ℕ) (es : List ZombieEvent)
    → m ≤ n
    → All (λ f. n ≤ f.created_at) es
    → All (λ f. m ≤ f.created_at) es
All-weaken m n [] h hs = tt
All-weaken m n (f ∷ fs) h (k, ks) = (omega arith, All-weaken m n fs h ks)

insert_event-IsSorted :
    (e : ZombieEvent) (es : List ZombieEvent) → IsSorted es → IsSorted (insert_event e es)
unfolding insert_event
insert_event-IsSorted e [] hs = (tt, tt)
insert_event-IsSorted e (f ∷ fs) (h, hs) = elim (Bool-cases (leb e.created_at f.created_at)) [
  | inl j ↦
      let first : e.created_at ≤ f.created_at = ground arith in
      rw j ((first, All-weaken e.created_at f.created_at fs first h), (h, hs))
  | inr j ↦
      let later : f.created_at ≤ e.created_at = ground arith in
      rw j (insert_event-All f.created_at e fs later h, insert_event-IsSorted e fs hs)
]

sort_events-IsSorted : (es : List ZombieEvent) → IsSorted (sort_events es)
unfolding sort_events
sort_events-IsSorted [] = tt
sort_events-IsSorted (e ∷ es) = insert_event-IsSorted e (sort_events es) (sort_events-IsSorted es)

insert_event-Perm : (e : ZombieEvent) (es : List ZombieEvent) → Perm (insert_event e es) (e ∷ es)
unfolding insert_event
insert_event-Perm e [] = Perm.refl (e ∷ [])
insert_event-Perm e (f ∷ fs) = elim (Bool-cases (leb e.created_at f.created_at)) [
  | inl j ↦ rw j (Perm.refl (e ∷ f ∷ fs))
  | inr j ↦ rw j (Perm.trans (Perm.cons f (insert_event-Perm e fs)) (Perm.swap e f fs))
]

sort_events-Perm : (es : List ZombieEvent) → Perm (sort_events es) es
unfolding sort_events
sort_events-Perm [] = Perm.refl []
sort_events-Perm (e ∷ es) =
    Perm.trans (insert_event-Perm e (sort_events es)) (Perm.cons e (sort_events-Perm es))

-- The rows whose id the timeline does not have.
abbrev pub fresh : List ZombieEvent → List EventRow → List EventRow
fresh prev = keep (λ r. not (has_id r.event_id prev))

-- A backfill is in the order of time, and holds each event that the timeline had and each row whose
-- id the timeline did not have, as often as they occur there, and nothing else.
pub merge_backfill-IsSorted :
    (prev : List ZombieEvent) (rows : List EventRow)
    → IsSorted (merge_backfill prev rows)
      × Perm (merge_backfill prev rows) (map row_to_event (fresh prev rows) ++ prev)
unfolding merge_backfill
merge_backfill-IsSorted prev rows =
    let whole = map row_to_event (fresh prev rows) ++ prev in
    (sort_events-IsSorted whole, sort_events-Perm whole)

insert_event-first :
    (e : ZombieEvent) (es : List ZombieEvent)
    → All (λ f. e.created_at ≤ f.created_at) es
    → insert_event e es ≡ e ∷ es
unfolding insert_event
insert_event-first e [] hs = refl
insert_event-first e (f ∷ fs) (h, hs) =
    let first : leb e.created_at f.created_at ≡ true = ground arith in rw first refl

sort_events-sorted : (es : List ZombieEvent) → IsSorted es → sort_events es ≡ es
unfolding sort_events
sort_events-sorted [] hs = refl
sort_events-sorted (e ∷ es) (h, hs) = rw (sort_events-sorted es hs) (insert_event-first e es h)

||_left_comm : (a b c : Bool) → (a || (b || c)) ≡ (b || (a || c))
||_left_comm false b c = refl
||_left_comm true false c = refl
||_left_comm true true c = refl

has_id-insert :
    (id : String) (e : ZombieEvent) (es : List ZombieEvent)
    → has_id id (insert_event e es) ≡ (str_eq e.id id || has_id id es)
unfolding insert_event
has_id-insert id e [] = refl
has_id-insert id e (f ∷ fs) = elim (Bool-cases (leb e.created_at f.created_at)) [
  | inl j ↦ rw j refl
  | inr j ↦
      rw j
        (rw (has_id-insert id e fs) (||_left_comm (str_eq f.id id) (str_eq e.id id) (has_id id fs)))
]

has_id-sort : (id : String) (es : List ZombieEvent) → has_id id (sort_events es) ≡ has_id id es
unfolding sort_events
has_id-sort id [] = refl
has_id-sort id (e ∷ es) =
    has_id-insert id e (sort_events es) ∙ ap (λ b. str_eq e.id id || b) (has_id-sort id es)

||_assoc : (a b c : Bool) → (a || (b || c)) ≡ ((a || b) || c)
||_assoc false b c = refl
||_assoc true b c = refl

||_true : (a : Bool) → (a || true) ≡ true
||_true false = refl
||_true true = refl

||_cong : (a b c d : Bool) → (b || d) ≡ (c || d) → ((a || b) || d) ≡ ((a || c) || d)
||_cong false b c d h = h
||_cong true b c d h = refl

has_id-append :
    (id : String) (es fs : List ZombieEvent) → has_id id (es ++ fs) ≡ (has_id id es || has_id id fs)
has_id-append id [] fs = refl
has_id-append id (e ∷ es) fs =
    ap (λ b. str_eq e.id id || b) (has_id-append id es fs)
    ∙ ||_assoc (str_eq e.id id) (has_id id es) (has_id id fs)

fresh_lem :
    (id : String) (prev : List ZombieEvent) (rows : List EventRow)
    → (has_id id (map row_to_event (fresh prev rows)) || has_id id prev)
      ≡ (has_id id (map row_to_event rows) || has_id id prev)
unfolding row_to_event
fresh_lem id prev [] = refl
fresh_lem id prev (r ∷ rs) = elim (Bool-cases (has_id r.event_id prev)) [
  | inl h ↦ rw h (elim (Bool-cases (str_eq r.event_id id)) [
    | inl j ↦
        let has : has_id id prev ≡ true =
          ap (λ s. has_id s prev) (sym ((eq_iff r.event_id id).0 j)) ∙ h in
        rw (has, j) (||_true (has_id id (map row_to_event (fresh prev rs))))
    | inr j ↦ rw j (fresh_lem id prev rs)
  ])
  | inr h ↦ rw h (
      ||_cong (str_eq r.event_id id) (has_id id (map row_to_event (fresh prev rs)))
        (has_id id (map row_to_event rs)) (has_id id prev) (fresh_lem id prev rs))
]

-- The ids after a backfill are those of the rows and those that the timeline had.
pub has_id-merge :
    (id : String) (prev : List ZombieEvent) (rows : List EventRow)
    → has_id id (merge_backfill prev rows) ≡ (has_id id (map row_to_event rows) || has_id id prev)
unfolding merge_backfill
has_id-merge id prev rows =
    has_id-sort id (map row_to_event (fresh prev rows) ++ prev)
    ∙ has_id-append id (map row_to_event (fresh prev rows)) prev
    ∙ fresh_lem id prev rows

keep-none :
    (prev : List ZombieEvent) (rows : List EventRow)
    → All (λ r. has_id r.event_id prev ≡ true) rows
    → fresh prev rows ≡ []
keep-none prev [] hs = refl
keep-none prev (r ∷ rs) (h, hs) = rw h (keep-none prev rs hs)

All-later :
    (e : ZombieEvent) (es : List ZombieEvent) (rows : List EventRow)
    → All (λ r. has_id r.event_id es ≡ true) rows
    → All (λ r. has_id r.event_id (e ∷ es) ≡ true) rows
All-later e es [] hs = tt
All-later e es (r ∷ rs) (h, hs) = (rw h (||_true (str_eq e.id r.event_id)), All-later e es rs hs)

All-rows : (rows : List EventRow) → All (λ r. has_id r.event_id (map row_to_event rows) ≡ true) rows
unfolding row_to_event
All-rows [] = tt
All-rows (r ∷ rs) = (
  rw (str_eq_refl r.event_id) refl,
  All-later (row_to_event r) (map row_to_event rs) rs (All-rows rs),
)

All-merged :
    (prev : List ZombieEvent) (all rows : List EventRow)
    → All (λ r. has_id r.event_id (map row_to_event all) ≡ true) rows
    → All (λ r. has_id r.event_id (merge_backfill prev all) ≡ true) rows
All-merged prev all [] hs = tt
All-merged prev all (r ∷ rs) (h, hs) = (
  has_id-merge r.event_id prev all ∙ ap (λ b. b || has_id r.event_id prev) h,
  All-merged prev all rs hs,
)

merge_backfill-known :
    (prev : List ZombieEvent) (rows : List EventRow)
    → All (λ r. has_id r.event_id prev ≡ true) rows
    → IsSorted prev
    → merge_backfill prev rows ≡ prev
unfolding merge_backfill
merge_backfill-known prev rows hs sorted =
    rw (keep-none prev rows hs) (sort_events-sorted prev sorted)

-- A second backfill with the same rows changes nothing, whatever the timeline was before the first.
pub merge_backfill_idem :
    (prev : List ZombieEvent) (rows : List EventRow)
    → merge_backfill (merge_backfill prev rows) rows ≡ merge_backfill prev rows
merge_backfill_idem prev rows =
    merge_backfill-known (merge_backfill prev rows) rows (All-merged prev rows rows (All-rows rows))
      (merge_backfill-IsSorted prev rows).0
