-- ===== src/Registry/Subscribers.antt =====
-- Subscriptions and their release keep the registry's connections sound.
use usezombie.Prelude.{
  ℕ, zero, suc, ◌≡◌, refl, sym, ap, ◌∙◌, String, Option, none, some, List, [], ◌∷◌, arith,
  if◌then◌else◌, subst,
}
use usezombie.Timeline.{EventRow}
use usezombie.Registry.State.{
  World, Entry, Source, Timer, pos, pred_ℤ, is_positive, put, clear, idle_release_ms,
}
use usezombie.Registry.Operations.{
  subscribe, release_subscriber, start_event_source, open_source, ensure_entry, create_entry,
  attach, detach, arm_idle,
}
use usezombie.Registry.Connections.{
  IsConnected, streams, IsHeld, in_use, leaves, IsSound, absent, present, set_entry-own, present_at,
  nothing_idle, attach-IsSound, start_event_source-none,
}

-- The state with the entry that `subscribe` makes, before its event source is opened.
abbrev registered : String → List EventRow → World → World
registered workspace_id initial w =
    put w.fresh (create_entry workspace_id initial)
      (record w { current = some w.fresh; fresh = suc w.fresh })

registered-source :
    (workspace_id : String) (initial : List EventRow) (w : World)
    → ((registered workspace_id initial w).entries w.fresh).event_source ≡ none
unfolding create_entry
registered-source workspace_id initial w =
    ap (λ e. Entry.event_source e)
      (set_entry-own w.fresh (create_entry workspace_id initial) w.entries)

ensure_entry-none :
    (workspace_id : String) (initial : List EventRow) (w : World)
    → w.current ≡ none
    → ensure_entry workspace_id initial w
      ≡ (w.fresh, start_event_source w.fresh (registered workspace_id initial w))
unfolding ensure_entry
ensure_entry-none workspace_id initial w gone = rw (gone, ensure_entry) refl

ensure_entry-some :
    (workspace_id : String) (initial : List EventRow) (w : World) {a : ℕ}
    → w.current ≡ some a
    → ensure_entry workspace_id initial w ≡ (a, w)
unfolding ensure_entry
ensure_entry-some workspace_id initial w here = simp (here, ensure_entry)

pub subscribe-IsSound :
    (w : World) (n : ℕ) (workspace_id : String) (initial : List EventRow) (listener : ℕ)
    → IsSound w n
    → IsSound (subscribe workspace_id initial listener w) (suc n)
unfolding subscribe create_entry
subscribe-IsSound w n workspace_id initial listener (absent gone nobody ss rs is) =
    subst (λ made. IsSound (attach made.0 listener made.1) (suc n))
      (sym (ensure_entry-none workspace_id initial w gone))
      (subst (λ started. IsSound (attach w.fresh listener started) (suc n))
        (sym (start_event_source-none w.fresh made (registered-source workspace_id initial w)))
        (attach-IsSound opened w.fresh n refl
          (ap (λ e. Entry.ref_count e) entry ∙ ap pos (sym nobody)) listener
          (streams (suc w.fresh) (ap (λ e. Entry.event_source e) entry)
            (ap (λ e. Entry.reconnect_timer e) entry)
            (ap {A = List Source}
              (λ open_ones. record { handle = suc w.fresh; owner = w.fresh } ∷ open_ones) ss)
            rs)
          (ap (λ e. clear (Entry.idle_timer e) w.idles) entry ∙ is)))
  where
    made : World
    made = registered workspace_id initial w

    opened : World
    opened = open_source w.fresh made

    entry :
        opened.entries w.fresh
        ≡ record (create_entry workspace_id initial) { event_source = some (suc w.fresh) }
    entry =
        set_entry-own w.fresh (record (made.entries w.fresh) { event_source = some (suc w.fresh) })
          made.entries
        ∙ ap {A = Entry} (λ e. record e { event_source = some (suc w.fresh) })
            (set_entry-own w.fresh (create_entry workspace_id initial) w.entries)
subscribe-IsSound w n workspace_id initial listener (present a here count connected held) =
    subst (λ made. IsSound (attach made.0 listener made.1) (suc n))
      (sym (ensure_entry-some workspace_id initial w here))
      (attach-IsSound w a n here count listener connected (nothing_idle held))

release_subscriber-some :
    (listener : ℕ) (w : World) {a : ℕ}
    → w.current ≡ some a
    → release_subscriber listener w ≡ (
        let detached = put a (detach listener (w.entries a)) w in
        if is_positive (detached.entries a).ref_count then detached else arm_idle a detached)
unfolding release_subscriber
release_subscriber-some listener w here = simp (here, release_subscriber)

pub still-IsConnected :
    {a : ℕ} {s s' r r' : Option ℕ} {sources : List Source} {reconnects : List Timer}
    → s' ≡ s
    → r' ≡ r
    → IsConnected a s r sources reconnects
    → IsConnected a s' r' sources reconnects
still-IsConnected s r connected = rw (s, r) connected

no_idle :
    {a n : ℕ} {timer : Option ℕ} {idles : List Timer}
    → IsHeld a (suc n) timer idles
    → (timer ≡ none) × (idles ≡ [])
no_idle (in_use m used t is) = (t, is)
no_idle (leaves h unused t is) = absurd (omega arith)

detach-IsSound :
    (w : World) (a n : ℕ) (listener : ℕ)
    → w.current ≡ some a
    → (w.entries a).ref_count ≡ pos (suc n)
    → IsConnected a (w.entries a).event_source (w.entries a).reconnect_timer w.sources w.reconnects
    → IsHeld a (suc n) (w.entries a).idle_timer w.idles
    → (let detached = put a (detach listener (w.entries a)) w in
        IsSound (if is_positive (pos n) then detached else arm_idle a detached) n)
detach-IsSound w a (suc n) listener here count connected held =
    present_at (detach listener (w.entries a)) (set_entry-own a _ w.entries) here (ap pred_ℤ count)
      connected (in_use n refl (no_idle held).0 (no_idle held).1)
detach-IsSound w a zero listener here count connected held =
    let detached = put a (detach listener (w.entries a)) w in
    let own = set_entry-own a (detach listener (w.entries a)) w.entries in
    let idling = record (detached.entries a) { idle_timer = some w.fresh } in
    present_at idling (set_entry-own a idling detached.entries) here
      (ap (λ e. Entry.ref_count e) own ∙ ap pred_ℤ count)
      (still-IsConnected (ap (λ e. Entry.event_source e) own)
        (ap (λ e. Entry.reconnect_timer e) own) connected)
      (leaves w.fresh refl refl (
        ap {A = List Timer}
          (λ ts. record { handle = w.fresh; owner = a; delay = idle_release_ms } ∷ ts)
          (no_idle held).1))

pub release-IsSound :
    (w : World) (n : ℕ) (listener : ℕ)
    → IsSound w (suc n)
    → IsSound (release_subscriber listener w) n
release-IsSound w n listener (absent gone nobody ss rs is) = absurd (omega arith)
release-IsSound w n listener (present a here count connected held) =
    subst (λ v. IsSound v n) (sym (release_subscriber-some listener w here))
      (subst (λ c. IsSound (if is_positive c then detached else arm_idle a detached) n)
        (sym (
          ap (λ e. Entry.ref_count e) (set_entry-own a (detach listener (w.entries a)) w.entries)
          ∙ ap pred_ℤ count))
        (detach-IsSound w a n listener here count connected held))
  where
    detached : World
    detached = put a (detach listener (w.entries a)) w
