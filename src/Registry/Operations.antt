-- ===== src/Registry/Operations.antt =====
-- ui/packages/app/lib/streaming/zombie-stream-registry.ts: subscriptions, event sources and timers. A callback
-- is an operation on the entry it was made for.
use usezombie.Prelude.{
  ℕ, suc, ◌*◌, ◌^◌, min, ◌==◌, String, Text, not, Option, none, some, List, [], ◌∷◌, ◌++◌, keep,
  any, if◌then◌else◌,
}
use usezombie.Json.{Json, is_object, get, string?}
use usezombie.Timeline.{EventRow, LiveFrame, merge_backfill, apply_live_frame}
use usezombie.Registry.State.{
  suc_ℤ, pred_ℤ, is_positive, idle_release_ms, reconnect_backoff_base_ms, reconnect_backoff_cap_ms,
  reconnect_max_backoff_attempts, ZombieStreamSnapshot, Entry, Timer, World, set_entry, put, clear,
  close, set_events, set_status, pos, connecting, live, reconnecting,
}

abbrev pub open_source : ℕ → World → World
open_source a w = record w {
  entries = set_entry a (record (w.entries a) { event_source = some w.fresh }) w.entries;
  fresh = suc w.fresh;
  sources = record { handle = w.fresh; owner = a } ∷ w.sources;
}

unfoldable pub start_event_source : ℕ → World → World
start_event_source a w = elim ((w.entries a).event_source) [ some _ ↦ w | none ↦ open_source a w ]

-- `es.onopen`
unfoldable pub on_open : ℕ → World → World
on_open a w = put a (set_status live (record (w.entries a) { reconnect_attempts = 0 })) w

-- `decode` is `JSON.parse`, with `none` for an exception, and `cast` reads the fields that the type
-- LiveFrame declares.
unfoldable pub on_frame : (Text → Option Json) → (Json → LiveFrame) → ℕ → Text → ℕ → World → World
on_frame decode cast a payload now w = elim (decode payload) [
  | none ↦ w
  | some parsed ↦ elim (if is_object parsed then string? (get "kind" parsed) else none) [
    | none ↦ w
    | some _ ↦ put a (set_events (λ prev. apply_live_frame prev (cast parsed) now) (w.entries a)) w
  ]
]

unfoldable pub reconnect_delay : ℕ → ℕ
reconnect_delay attempts =
    min (reconnect_backoff_base_ms * 2 ^ min attempts reconnect_max_backoff_attempts)
      reconnect_backoff_cap_ms

-- The entry after an error, waiting for the timer `h`.
abbrev pub waiting : ℕ → Entry → Entry
waiting h e = record (set_status reconnecting e) {
  event_source = none;
  reconnect_attempts = suc e.reconnect_attempts;
  reconnect_timer = some h;
}

unfoldable pub on_event_source_error : ℕ → World → World
unfolding reconnect_delay
on_event_source_error a w = record w {
  sources = close (w.entries a).event_source w.sources;
  entries = set_entry a (waiting w.fresh (w.entries a)) w.entries;
  fresh = suc w.fresh;
  reconnects =
      record {
        handle = w.fresh;
        owner = a;
        delay = reconnect_delay (suc (w.entries a).reconnect_attempts);
      }
      ∷ w.reconnects;
}

-- The callback of a reconnect timer, which is no longer pending.
unfoldable pub reconnect : Timer → World → World
unfolding start_event_source
reconnect t w = start_event_source t.owner (
    put t.owner (record (w.entries t.owner) { reconnect_timer = none })
      (record w { reconnects = clear (some t.handle) w.reconnects }))

unfoldable pub teardown : ℕ → World → World
teardown a w = record w {
  reconnects = clear (w.entries a).reconnect_timer w.reconnects;
  idles = clear (w.entries a).idle_timer w.idles;
  sources = close (w.entries a).event_source w.sources;
  current = none;
}

-- The callback of an idle timer, which is no longer pending.
unfoldable pub idle_release : Timer → World → World
unfolding teardown
idle_release t w = teardown t.owner (record w { idles = clear (some t.handle) w.idles })

unfoldable pub create_entry : String → List EventRow → Entry
unfolding merge_backfill
create_entry workspace_id initial = record {
  workspace_id = workspace_id;
  snapshot = record { events = merge_backfill [] initial; connection_status = connecting };
  listeners = [];
  ref_count = pos 0;
  event_source = none;
  reconnect_timer = none;
  reconnect_attempts = 0;
  idle_timer = none;
  temp_counter = 0;
}

-- The entry that the map holds, made if there is none, and the state with it.
unfoldable pub ensure_entry : String → List EventRow → World → ℕ × World
unfolding create_entry start_event_source
ensure_entry workspace_id initial w = elim (w.current) [
  | some a ↦ (a, w)
  | none ↦ (
    w.fresh,
    start_event_source w.fresh (
        put w.fresh (create_entry workspace_id initial)
          (record w { current = some w.fresh; fresh = suc w.fresh })),
  )
]

-- `listeners.add(listener)` and `listeners.delete(listener)` on a set.
abbrev pub add_listener : ℕ → List ℕ → List ℕ
add_listener l ls = if any (λ k. k == l) ls then ls else ls ++ l ∷ []

abbrev pub delete_listener : ℕ → List ℕ → List ℕ
delete_listener l = keep (λ k. not (k == l))

-- The entry `a` with one more subscriber, its idle timer cleared.
unfoldable pub attach : ℕ → ℕ → World → World
attach a listener w =
    let e = w.entries a in
    put a
      (record e {
        idle_timer = none;
        ref_count = suc_ℤ e.ref_count;
        listeners = add_listener listener e.listeners;
      })
      (record w { idles = clear e.idle_timer w.idles })

unfoldable pub subscribe : String → List EventRow → ℕ → World → World
unfolding ensure_entry attach
subscribe workspace_id initial listener w =
    let made = ensure_entry workspace_id initial w in attach made.0 listener made.1

-- The entry `a` waits to be released: `setTimeout(() => teardown(entry, zombieId), ...)`.
abbrev pub arm_idle : ℕ → World → World
arm_idle a w = record w {
  entries = set_entry a (record (w.entries a) { idle_timer = some w.fresh }) w.entries;
  fresh = suc w.fresh;
  idles = record { handle = w.fresh; owner = a; delay = idle_release_ms } ∷ w.idles;
}

abbrev pub detach : ℕ → Entry → Entry
detach listener e = record e {
  listeners = delete_listener listener e.listeners;
  ref_count = pred_ℤ e.ref_count;
}

unfoldable pub release_subscriber : ℕ → World → World
release_subscriber listener w = elim (w.current) [
  | none ↦ w
  | some a ↦
      let detached = put a (detach listener (w.entries a)) w in
      if is_positive (detached.entries a).ref_count then detached else arm_idle a detached
]

-- `EMPTY_SNAPSHOT`
abbrev pub empty_snapshot : ZombieStreamSnapshot
empty_snapshot = record { events = []; connection_status = connecting }

unfoldable pub get_snapshot : World → ZombieStreamSnapshot
get_snapshot w = elim (w.current) [ none ↦ empty_snapshot | some a ↦ (w.entries a).snapshot ]
