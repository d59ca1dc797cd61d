-- ===== src/Registry/Callbacks.antt =====
-- Events of open sources, and timers that fire, keep the registry's connections sound.
use usezombie.Prelude.{
  ℕ, suc, ◌≡◌, ◌⊎◌, refl, sym, ap, ◌∙◌, Text, Option, none, some, List, [], ◌∷◌, if◌then◌else◌,
  subst, Option-cases, inl, inr,
}
use mathlib.Core.List.{Memᴰ}
use mathlib.Core.List.Memᴰ
use usezombie.Json.{Json, is_object, get, string?}
use usezombie.Timeline.{LiveFrame, apply_live_frame}
use usezombie.Registry.State.{
  World, Entry, Source, Timer, pos, put, clear, close, idle_release_ms, set_events,
}
use usezombie.Registry.Operations.{
  on_open, on_frame, on_event_source_error, reconnect, idle_release, reconnect_delay, teardown,
  waiting,
}
use usezombie.Registry.Connections.{
  IsConnected, streams, waits, IsHeld, in_use, leaves, IsSound, absent, present, set_entry-own,
  present_at, nothing_open, put-IsSound, start_event_source-none, clear-own, reconnect_delay-range,
}

-- An event source that is open belongs to the entry that the map holds.
pub data IsStreaming (w : World) (n : ℕ) (s : Source) : Type 0 where
  streaming :
      (a : ℕ)
      → s.owner ≡ a
      → w.current ≡ some a
      → (w.entries a).ref_count ≡ pos n
      → IsConnected a
          (w.entries a).event_source
          (w.entries a).reconnect_timer
          w.sources
          w.reconnects
      → close (w.entries a).event_source w.sources ≡ []
      → w.reconnects ≡ []
      → IsHeld a n (w.entries a).idle_timer w.idles
      → IsStreaming w n s

no_source : {A : Type 0} {x : A} {xs : List A} → xs ≡ [] → Memᴰ x xs → ⊥
no_source {x = x} e m = Memᴰ.not-nil (subst (λ ys. Memᴰ x ys) e m)

the_one : {A : Type 0} {x y : A} {xs : List A} → xs ≡ y ∷ [] → Memᴰ x xs → x ≡ y
the_one {x = x} e m = Memᴰ.eq_of_singleton (subst (λ ys. Memᴰ x ys) e m)

pub IsSound-source :
    (w : World) (n : ℕ) (s : Source) → Memᴰ s w.sources → IsSound w n → IsStreaming w n s
IsSound-source w n s m (absent gone nobody ss rs is) = absurd (no_source ss m)
IsSound-source w n s m (present a here count (waits h d s' t ss rs range) held) =
    absurd (no_source ss m)
IsSound-source w n s m (present a here count (streams h s' t ss rs) held) =
    streaming a (ap (λ x. Source.owner x) (the_one ss m)) here count connected
      (nothing_open connected).0 rs held
  where
    connected :
        IsConnected a
          (w.entries a).event_source
          (w.entries a).reconnect_timer
          w.sources
          w.reconnects
    connected = streams h s' t ss rs

on_frame-cases :
    (decode : Text → Option Json) (cast : Json → LiveFrame) (a : ℕ) (payload : Text) (now : ℕ)
    (w : World)
    → (on_frame decode cast a payload now w ≡ w)
      ⊎ ((parsed : Json) × (on_frame decode cast a payload now w
            ≡ put a (set_events (λ prev. apply_live_frame prev (cast parsed) now) (w.entries a)) w))
unfolding on_frame
on_frame-cases decode cast a payload now w = elim (Option-cases (decode payload)) [
  | inl unread ↦ inl (simp (unread, on_frame))
  | inr (parsed, e) ↦
      elim (Option-cases (if is_object parsed then string? (get "kind" parsed) else none)) [
        | inl no_kind ↦ inl (simp (e, no_kind, on_frame))
        | inr (kind, k) ↦ inr (parsed, simp (e, k, on_frame))
      ]
]

module _ (w : World) (n : ℕ) (s : Source) where
  pub opened-IsSound : IsStreaming w n s → IsSound (on_open s.owner w) n
  unfolding on_open
  opened-IsSound (streaming a own here count connected closed rs held) =
      subst (λ b. IsSound (on_open b w) n) (sym own)
        (put-IsSound w a n here count _ refl refl refl refl connected held)

  pub framed-IsSound :
      (decode : Text → Option Json) (cast : Json → LiveFrame) (payload : Text) (now : ℕ)
      → IsSound w n
      → IsStreaming w n s
      → IsSound (on_frame decode cast s.owner payload now w) n
  framed-IsSound decode cast payload now sound
        (streaming a own here count connected closed rs held) =
      subst (λ b. IsSound (on_frame decode cast b payload now w) n) (sym own)
        (elim (on_frame-cases decode cast a payload now w) [
          | inl e ↦ subst (λ v. IsSound v n) (sym e) sound
          | inr (parsed, e) ↦
              subst (λ v. IsSound v n) (sym e)
                (put-IsSound w a n here count _ refl refl refl refl connected held)
        ])

  pub erred-IsSound : IsStreaming w n s → IsSound (on_event_source_error s.owner w) n
  unfolding on_event_source_error
  erred-IsSound (streaming a own here count connected closed rs held) =
      subst (λ b. IsSound (on_event_source_error b w) n) (sym own)
        (present_at (waiting w.fresh (w.entries a)) (set_entry-own a _ w.entries) here count
          (waits w.fresh (reconnect_delay (suc (w.entries a).reconnect_attempts)) refl refl closed
            (ap {A = List Timer}
              (λ ts.
                record {
                  handle = w.fresh;
                  owner = a;
                  delay = reconnect_delay (suc (w.entries a).reconnect_attempts);
                }
                ∷ ts)
              rs)
            (reconnect_delay-range (w.entries a).reconnect_attempts))
          held)

pub reconnect-IsSound :
    (w : World) (n : ℕ) (t : Timer) → Memᴰ t w.reconnects → IsSound w n → IsSound (reconnect t w) n
unfolding reconnect
reconnect-IsSound w n t m (absent gone nobody ss rs is) = absurd (no_source rs m)
reconnect-IsSound w n t m (present a here count (streams h s' r ss rs) held) =
    absurd (no_source rs m)
reconnect-IsSound w n t m (present a here count (waits h d s' r ss rs range) held) =
    subst (λ t. IsSound (reconnect t w) n) (sym (the_one rs m))
      (subst (λ started. IsSound started n)
        (sym (start_event_source-none a freed (ap (λ e. Entry.event_source e) own ∙ s')))
        (present_at (record (freed.entries a) { event_source = some w.fresh })
          (set_entry-own a _ freed.entries) here (ap (λ e. Entry.ref_count e) own ∙ count)
          (streams w.fresh refl (ap (λ e. Entry.reconnect_timer e) own)
            (ap {A = List Source} (λ open_ones. record { handle = w.fresh; owner = a } ∷ open_ones)
              ss)
            (ap (clear (some h)) rs ∙ clear-own h a d))
          (subst (λ timer. IsHeld a n timer w.idles) (sym (ap (λ e. Entry.idle_timer e) own))
            held)))
  where
    freed : World
    freed =
        put a (record (w.entries a) { reconnect_timer = none })
          (record w { reconnects = clear (some h) w.reconnects })

    own : freed.entries a ≡ record (w.entries a) { reconnect_timer = none }
    own = set_entry-own a (record (w.entries a) { reconnect_timer = none }) w.entries

clear-none : (timer : Option ℕ) → clear timer [] ≡ []
clear-none none = refl
clear-none (some h) = refl

pub idle_release-IsSound :
    (w : World) (n : ℕ) (t : Timer) → Memᴰ t w.idles → IsSound w n → IsSound (idle_release t w) n
unfolding idle_release teardown
idle_release-IsSound w n t m (absent gone nobody ss rs is) = absurd (no_source is m)
idle_release-IsSound w n t m (present a here count connected (in_use k used timer is)) =
    absurd (no_source is m)
idle_release-IsSound w n t m (present a here count connected (leaves h unused timer is)) =
    let (closed, cleared) = nothing_open connected in
    subst (λ t. IsSound (idle_release t w) n) (sym (the_one is m))
      (absent refl unused closed cleared (
        ap (λ ts. clear (w.entries a).idle_timer ts)
          (ap (clear (some h)) is ∙ clear-own h a idle_release_ms)
        ∙ clear-none (w.entries a).idle_timer))
