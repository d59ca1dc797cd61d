-- ===== src/Registry/Exchange.antt =====
-- The ids of the messages that the user sends.
use usezombie.Prelude.{
  ℕ, suc, ◌≤◌, ◌≡◌, refl, sym, ap, ◌∙◌, subst, String, Text, false, Bool-cases, inl, inr, eq_iff,
  Option, some, List, [], ◌∷◌, ◌++◌, All, All-append, str_eq, arith,
}
use usezombie.Json.{Json}
use usezombie.Timeline.{
  ZombieEvent, LiveFrame, event_received, chunk, event_complete, other, has_id, change_first,
  apply_live_frame, apply_event_received, apply_chunk, apply_event_complete, add_text, complete,
}
use usezombie.Registry.State.{World, Entry, put, set_events}
use usezombie.Registry.Connections.{set_entry-own}
use usezombie.Registry.Operations.{on_frame}
use usezombie.Registry.Outbox.{
  temp_id, optimistic_event, append_optimistic, change_all, change_current, received_as, failed,
  reconcile_optimistic, mark_optimistic_failed,
}
use usezombie.Registry.TempId.{temp_id_inj}
use usezombie.Registry.Reconcile.{
  events_of, events_of-entry, append_optimistic-some, IsFramed, ignored, applied, on_frame-IsFramed,
}

-- No temporary id.
abbrev pub IsServerId : String → Type 0
IsServerId id = (n : ℕ) → id ≡ temp_id n → ⊥

abbrev pub IsServerFrame : LiveFrame → Type 0
IsServerFrame (event_received id actor) = IsServerId id
IsServerFrame (chunk id text) = IsServerId id
IsServerFrame (event_complete id status) = IsServerId id
IsServerFrame other = Unit

-- A temporary id has a number that was counted.
abbrev IsOld : ℕ → String → Type 0
IsOld c id = (n : ℕ) → id ≡ temp_id n → n ≤ c

AreOld : ℕ → List ZombieEvent → Type 0
AreOld c = All (λ e. IsOld c e.id)

server-IsOld : (c : ℕ) (id : String) → IsServerId id → IsOld c id
server-IsOld c id s n e = absurd (s n e)

AreOld-suc : (c : ℕ) (es : List ZombieEvent) → AreOld c es → AreOld (suc c) es
unfolding AreOld
AreOld-suc c [] h = tt
AreOld-suc c (e ∷ es) (h, hs) = ((λ n k. let below = h n k in omega arith), AreOld-suc c es hs)

AreOld-fresh : (c : ℕ) (es : List ZombieEvent) → AreOld c es → has_id (temp_id (suc c)) es ≡ false
unfolding AreOld
AreOld-fresh c [] h = refl
AreOld-fresh c (e ∷ es) (h, hs) = elim (Bool-cases (str_eq e.id (temp_id (suc c)))) [
  | inl k ↦ let below = h (suc c) ((eq_iff e.id (temp_id (suc c))).0 k) in absurd (omega arith)
  | inr k ↦ rw k (AreOld-fresh c es hs)
]

AreOld-first :
    (c : ℕ) (i : String) (g : ZombieEvent → ZombieEvent) (es : List ZombieEvent)
    → ((e : ZombieEvent) → IsOld c e.id → IsOld c (g e).id)
    → AreOld c es
    → AreOld c (change_first i g es)
unfolding AreOld change_first
AreOld-first c i g [] k h = tt
AreOld-first c i g (e ∷ es) k (h, hs) = elim (Bool-cases (str_eq e.id i)) [
  | inl m ↦ rw m (k e h, hs)
  | inr m ↦ rw m (h, AreOld-first c i g es k hs)
]

AreOld-all :
    (c : ℕ) (i : String) (g : ZombieEvent → ZombieEvent) (es : List ZombieEvent)
    → ((e : ZombieEvent) → IsOld c e.id → IsOld c (g e).id)
    → AreOld c es
    → AreOld c (change_all i g es)
unfolding AreOld
AreOld-all c i g [] k h = tt
AreOld-all c i g (e ∷ es) k (h, hs) = elim (Bool-cases (str_eq e.id i)) [
  | inl m ↦ rw m (k e h, AreOld-all c i g es k hs)
  | inr m ↦ rw m (h, AreOld-all c i g es k hs)
]

AreOld-last :
    (c : ℕ) (es : List ZombieEvent) (e : ZombieEvent)
    → AreOld c es
    → IsOld c e.id
    → AreOld c (es ++ e ∷ [])
unfolding AreOld
AreOld-last c es e h k = All-append (λ e. IsOld c e.id) es (e ∷ []) h (k, tt)

apply_live_frame-AreOld :
    (c : ℕ) (es : List ZombieEvent) (f : LiveFrame) (now : ℕ)
    → IsServerFrame f
    → AreOld c es
    → AreOld c (apply_live_frame es f now)
unfolding apply_live_frame apply_event_received apply_chunk apply_event_complete
apply_live_frame-AreOld c es (event_received i actor) now s h = elim (Bool-cases (has_id i es)) [
  | inl k ↦ rw k h
  | inr k ↦ rw k (AreOld-last c es _ h (server-IsOld c i s))
]
apply_live_frame-AreOld c es (chunk i text) now s h = elim (Bool-cases (has_id i es)) [
  | inl k ↦ rw k (AreOld-first c i (add_text text) es (λ e o. o) h)
  | inr k ↦ rw k (AreOld-last c es _ h (server-IsOld c i s))
]
apply_live_frame-AreOld c es (event_complete i status) now s h = elim (Bool-cases (has_id i es)) [
  | inl k ↦ rw k (AreOld-first c i (complete status) es (λ e o. o) h)
  | inr k ↦ rw k h
]
apply_live_frame-AreOld c es other now s h = h

-- What happens to the entry `a` while it is shown: it begins with events of the server, messages are appended,
-- confirmed with an id of the server or marked as failed, and frames arrive.
pub data Exchange (decode : Text → Option Json) (cast : Json → LiveFrame) (a : ℕ)
    : World → Type 0 where
  opened :
      (w : World)
      → w.current ≡ some a
      → All (λ e. IsServerId e.id) (w.entries a).snapshot.events
      → Exchange decode cast a w
  appended :
      {w : World} (text actor : Text) (now : ℕ)
      → Exchange decode cast a w
      → Exchange decode cast a (append_optimistic text actor now w).1
  framed :
      {w : World} (payload : Text) (now : ℕ)
      → Exchange decode cast a w
      → Exchange decode cast a (on_frame decode cast a payload now w)
  confirmed :
      {w : World} (temp real : String)
      → IsServerId real
      → Exchange decode cast a w
      → Exchange decode cast a (reconcile_optimistic temp real w)
  marked :
      {w : World} (temp : String)
      → Exchange decode cast a w
      → Exchange decode cast a (mark_optimistic_failed temp w)

AreOld-server : (c : ℕ) (es : List ZombieEvent) → All (λ e. IsServerId e.id) es → AreOld c es
unfolding AreOld
AreOld-server c [] h = tt
AreOld-server c (e ∷ es) (s, h) = (server-IsOld c e.id s, AreOld-server c es h)

record IsCounted (a : ℕ) (w : World) : Type 0 where
  here : w.current ≡ some a
  old : AreOld (w.entries a).temp_counter (w.entries a).snapshot.events

module _ (a : ℕ) (w : World) (counted : IsCounted a w) where
  put-IsCounted : (e : Entry) → AreOld e.temp_counter e.snapshot.events → IsCounted a (put a e w)
  put-IsCounted e h = record {
    here = counted.here;
    old =
        subst (λ f. AreOld (Entry.temp_counter f) (Entry.snapshot f).events)
          (sym (set_entry-own a e w.entries)) h;
  }

  append_optimistic-IsCounted :
      (text actor : Text) (now : ℕ) → IsCounted a (append_optimistic text actor now w).1
  append_optimistic-IsCounted text actor now =
      let c = (w.entries a).temp_counter in
      let es = (w.entries a).snapshot.events in
      let counted_up = record (w.entries a) { temp_counter = suc c } in
      let message = optimistic_event (temp_id (suc c)) text actor now in
      subst (λ p. IsCounted a p.1) (sym (append_optimistic-some w a counted.here text actor now))
        (put-IsCounted (set_events (λ prev. prev ++ message ∷ []) counted_up) (
          AreOld-last (suc c) es message (AreOld-suc c es counted.old)
            (λ n e. let same = temp_id_inj (suc c) n e in omega arith)))

  on_frame-IsCounted :
      (cast : Json → LiveFrame) (now : ℕ) {r : World}
      → ((v : Json) → IsServerFrame (cast v))
      → IsFramed cast w a now r
      → IsCounted a r
  on_frame-IsCounted cast now s ignored = counted
  on_frame-IsCounted cast now s (applied v) =
      put-IsCounted (set_events (λ prev. apply_live_frame prev (cast v) now) (w.entries a)) (
        apply_live_frame-AreOld (w.entries a).temp_counter (w.entries a).snapshot.events (cast v)
          now (s v) counted.old)

  change_current-IsCounted :
      (i : String) (g : ZombieEvent → ZombieEvent)
      → ((c : ℕ) (e : ZombieEvent) → IsOld c e.id → IsOld c (g e).id)
      → IsCounted a (change_current (change_all i g) w)
  unfolding change_current
  change_current-IsCounted i g k =
      let changed : change_current (change_all i g) w
          ≡ put a (set_events (change_all i g) (w.entries a)) w =
        simp (counted.here, change_current) in
      subst (IsCounted a) (sym changed) (
        put-IsCounted (set_events (change_all i g) (w.entries a)) (
          AreOld-all (w.entries a).temp_counter i g (w.entries a).snapshot.events
            (k (w.entries a).temp_counter) counted.old))

module _ (decode : Text → Option Json) (cast : Json → LiveFrame) (a : ℕ)
    (from_server : (v : Json) → IsServerFrame (cast v)) where
  Exchange-IsCounted : (w : World) → Exchange decode cast a w → IsCounted a w
  unfolding reconcile_optimistic mark_optimistic_failed
  Exchange-IsCounted _ (opened w here initial) = record {
    here = here;
    old = AreOld-server (w.entries a).temp_counter (w.entries a).snapshot.events initial;
  }
  Exchange-IsCounted _ (appended {w} text actor now x) =
      append_optimistic-IsCounted a w (Exchange-IsCounted w x) text actor now
  Exchange-IsCounted _ (framed {w} payload now x) =
      on_frame-IsCounted a w (Exchange-IsCounted w x) cast now from_server
        (on_frame-IsFramed decode cast a payload now w)
  Exchange-IsCounted _ (confirmed {w} temp real s x) =
      change_current-IsCounted a w (Exchange-IsCounted w x) temp (received_as real)
        (λ c e o. server-IsOld c real s)
  Exchange-IsCounted _ (marked {w} temp x) =
      change_current-IsCounted a w (Exchange-IsCounted w x) temp failed (λ c e o. o)

  -- The id of a new message is one that no event has.
  pub sent_id-fresh :
      (w : World) (text actor : Text) (now : ℕ)
      → Exchange decode cast a w
      → (w.current ≡ some a) × (has_id (append_optimistic text actor now w).0 (events_of w) ≡ false)
  sent_id-fresh w text actor now x =
      let counted = Exchange-IsCounted w x in
      let c = (w.entries a).temp_counter in
      (
        counted.here,
        ap (λ p. has_id p.0 (events_of w)) (append_optimistic-some w a counted.here text actor now)
            ∙ ap (has_id (temp_id (suc c))) (sym (events_of-entry w a counted.here))
            ∙ AreOld-fresh c (w.entries a).snapshot.events counted.old,
      )
