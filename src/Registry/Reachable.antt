-- ===== src/Registry/Reachable.antt =====
-- The states that the registry can reach.
use usezombie.Prelude.{
  ℕ, suc, ◌≡◌, refl, sym, String, Text, Option, none, List, [], ◌∷◌, ◌++◌, subst,
}
use mathlib.Core.List.{Memᴰ}
use usezombie.Json.{Json}
use usezombie.Timeline.{EventRow, LiveFrame, ZombieEvent}
use usezombie.Registry.State.{World, Entry, Source, Timer, put, set_events}
use usezombie.Registry.Operations.{
  on_open, on_frame, on_event_source_error, reconnect, idle_release, subscribe, release_subscriber,
  teardown,
}
use usezombie.Registry.Outbox.{append_optimistic, reconcile_optimistic, mark_optimistic_failed}
use usezombie.Registry.Connections.{IsSound, absent, present, put-IsSound}
use usezombie.Registry.Subscribers.{subscribe-IsSound, release-IsSound}
use usezombie.Registry.Callbacks.{
  IsSound-source, opened-IsSound, framed-IsSound, erred-IsSound, reconnect-IsSound,
  idle_release-IsSound,
}
use usezombie.Registry.Outbox.{
  change_current, temp_id, optimistic_event, change_all, received_as, failed,
}
use mathlib.Core.Option.{none-ne-some}

change_current-IsSound :
    (w : World) (n : ℕ) (next : List ZombieEvent → List ZombieEvent)
    → IsSound w n
    → IsSound (change_current next w) n
unfolding change_current
change_current-IsSound w n next (absent gone nobody ss rs is) =
    let same : change_current next w ≡ w = simp (gone, change_current) in
    subst (λ v. IsSound v n) (sym same) (absent gone nobody ss rs is)
change_current-IsSound w n next (present a here count connected held) =
    let changed : change_current next w ≡ put a (set_events next (w.entries a)) w =
      simp (here, change_current) in
    subst (λ v. IsSound v n) (sym changed)
      (put-IsSound w a n here count _ refl refl refl refl connected held)

append-IsSound :
    (w : World) (n : ℕ) (text actor : Text) (now : ℕ)
    → IsSound w n
    → IsSound (append_optimistic text actor now w).1 n
unfolding append_optimistic
append-IsSound w n text actor now (absent gone nobody ss rs is) =
    let same : (append_optimistic text actor now w).1 ≡ w = simp (gone, append_optimistic) in
    subst (λ v. IsSound v n) (sym same) (absent gone nobody ss rs is)
append-IsSound w n text actor now (present a here count connected held) =
    subst (λ v. IsSound v n) (sym appended_to)
      (put-IsSound w a n here count
        (set_events
          (λ prev. prev ++ optimistic_event (temp_id counted.temp_counter) text actor now ∷ [])
          counted)
        refl refl refl refl connected held)
  where
    counted : Entry
    counted = record (w.entries a) { temp_counter = suc (w.entries a).temp_counter }

    appended_to :
        (append_optimistic text actor now w).1
        ≡ put a
            (set_events
              (λ prev. prev ++ optimistic_event (temp_id counted.temp_counter) text actor now ∷ [])
              counted)
            w
    appended_to = simp (here, append_optimistic)

-- One step of the browser: a subscription or its release, an event of a source that is not closed,
-- a timer that fires, or a message that the user sends.
module _ (decode : Text → Option Json) (cast : Json → LiveFrame) where
  pub data Step (w : World) : ℕ → World → ℕ → Type 0 where
    subscribed :
        {n : ℕ} (workspace_id : String) (initial : List EventRow) (listener : ℕ)
        → Step w n (subscribe workspace_id initial listener w) (suc n)
    released : {n : ℕ} (listener : ℕ) → Step w (suc n) (release_subscriber listener w) n
    opened : {n : ℕ} (s : Source) → Memᴰ s w.sources → Step w n (on_open s.owner w) n
    framed :
        {n : ℕ} (s : Source) (payload : Text) (now : ℕ)
        → Memᴰ s w.sources
        → Step w n (on_frame decode cast s.owner payload now w) n
    erred : {n : ℕ} (s : Source) → Memᴰ s w.sources → Step w n (on_event_source_error s.owner w) n
    reconnected : {n : ℕ} (t : Timer) → Memᴰ t w.reconnects → Step w n (reconnect t w) n
    idled : {n : ℕ} (t : Timer) → Memᴰ t w.idles → Step w n (idle_release t w) n
    appended :
        {n : ℕ} (text actor : Text) (now : ℕ) → Step w n (append_optimistic text actor now w).1 n
    reconciled : {n : ℕ} (temp real : String) → Step w n (reconcile_optimistic temp real w) n
    marked : {n : ℕ} (temp : String) → Step w n (mark_optimistic_failed temp w) n

  Step-IsSound : {w v : World} {n m : ℕ} → Step w n v m → IsSound w n → IsSound v m
  unfolding reconcile_optimistic mark_optimistic_failed change_current
  Step-IsSound {w} (subscribed {n} workspace_id initial listener) sound =
      subscribe-IsSound w n workspace_id initial listener sound
  Step-IsSound {w} (released {n} listener) sound = release-IsSound w n listener sound
  Step-IsSound {w} (opened {n} s m) sound = opened-IsSound w n s (IsSound-source w n s m sound)
  Step-IsSound {w} (framed {n} s payload now m) sound =
      framed-IsSound w n s decode cast payload now sound (IsSound-source w n s m sound)
  Step-IsSound {w} (erred {n} s m) sound = erred-IsSound w n s (IsSound-source w n s m sound)
  Step-IsSound {w} (reconnected {n} t m) sound = reconnect-IsSound w n t m sound
  Step-IsSound {w} (idled {n} t m) sound = idle_release-IsSound w n t m sound
  Step-IsSound {w} (appended {n} text actor now) sound = append-IsSound w n text actor now sound
  Step-IsSound {w} (reconciled {n} temp real) sound =
      change_current-IsSound w n (change_all temp (received_as real)) sound
  Step-IsSound {w} (marked {n} temp) sound =
      change_current-IsSound w n (change_all temp failed) sound

  -- The states that follow from an empty registry, with the number of subscriptions not yet released.
  pub data Reachable : World → ℕ → Type 0 where
    start :
        (entries : ℕ → Entry) (fresh : ℕ)
        → Reachable
            (record {
              current = none;
              entries = entries;
              fresh = fresh;
              sources = [];
              reconnects = [];
              idles = [];
            })
            0
    next : {w v : World} {n m : ℕ} → Reachable w n → Step w n v m → Reachable v m

  -- Whatever the order of subscriptions, releases, stream events, timers and messages: the map holds
  -- an entry or nothing is pending at all; with an entry, `refCount` is the number of subscriptions
  -- that are not released, either one event source is open or one reconnect is pending, after two to
  -- fifteen seconds, each of them the entry's, and one idle timer is pending exactly if there is no
  -- subscription.
  pub Reachable-IsSound : {w : World} {n : ℕ} → Reachable w n → IsSound w n
  Reachable-IsSound (start entries fresh) = absent refl refl refl refl refl
  Reachable-IsSound (next r s) = Step-IsSound s (Reachable-IsSound r)

  -- In every state that the registry reaches with nobody subscribed, the idle timer that is pending,
  -- when it fires, leaves no entry, no event source and no timer.
  pub idle_release_closes :
      {w : World}
      → Reachable w 0
      → (t : Timer) → Memᴰ t w.idles
      → (let v = idle_release t w in
          (v.current ≡ none) × (v.sources ≡ []) × (v.reconnects ≡ []) × (v.idles ≡ []))
  unfolding idle_release teardown
  idle_release_closes {w} r t m = elim (idle_release-IsSound w 0 t m (Reachable-IsSound r)) [
    | absent gone nobody ss rs is ↦ (gone, ss, rs, is)
    | present a here count connected held ↦ absurd (none-ne-some a here)
  ]
