-- ===== src/Registry/Connections.antt =====
-- The registry's connections: which event sources and timers are pending, whatever happens.
use usezombie.Prelude.{
  ℕ, zero, min, suc, ◌≤◌, ◌≡◌, refl, sym, ap, ◌∙◌, ◌==◌, ==_iff, true, Option, none, some, List, [],
  ◌∷◌, arith, subst,
}
use usezombie.Registry.State.{
  World, Entry, Source, Timer, pos, suc_ℤ, put, set_entry, clear, close, idle_release_ms,
}
use usezombie.Registry.Operations.{reconnect_delay, start_event_source, open_source, attach}

-- The first reconnect waits two seconds, and none waits more than fifteen.
pub reconnect_delay-range :
    (n : ℕ) → (2000 ≤ reconnect_delay (suc n)) × (reconnect_delay (suc n) ≤ 15000)
unfolding reconnect_delay
reconnect_delay-range zero = (omega arith, omega arith)
reconnect_delay-range (suc zero) = (omega arith, omega arith)
reconnect_delay-range (suc (suc zero)) = (omega arith, omega arith)
reconnect_delay-range (suc (suc (suc zero))) = (omega arith, omega arith)
reconnect_delay-range (suc (suc (suc (suc n)))) =
    let full : min (suc (suc (suc (suc (suc n))))) 5 ≡ 5 = omega arith in
    rw full (omega arith, omega arith)

-- Either an event source is open, and it is the entry's, or a reconnect is pending, and it is the
-- entry's; and nothing else.
pub data IsConnected (a : ℕ) (source timer : Option ℕ) (sources : List Source)
    (reconnects : List Timer) : Type 0 where
  streams :
      (h : ℕ)
      → source ≡ some h
      → timer ≡ none
      → sources ≡ record { handle = h; owner = a } ∷ []
      → reconnects ≡ []
      → IsConnected a source timer sources reconnects
  waits :
      (h d : ℕ)
      → source ≡ none
      → timer ≡ some h
      → sources ≡ []
      → reconnects ≡ record { handle = h; owner = a; delay = d } ∷ []
      → (2000 ≤ d) × (d ≤ 15000)
      → IsConnected a source timer sources reconnects

-- The entry is to be released after the idle time exactly if it has no subscriber.
pub data IsHeld (a n : ℕ) (timer : Option ℕ) (idles : List Timer) : Type 0 where
  in_use : (m : ℕ) → n ≡ suc m → timer ≡ none → idles ≡ [] → IsHeld a n timer idles
  leaves :
      (h : ℕ)
      → n ≡ 0
      → timer ≡ some h
      → idles ≡ record { handle = h; owner = a; delay = idle_release_ms } ∷ []
      → IsHeld a n timer idles

-- `n` is the number of the subscriptions that are not released yet.
pub data IsSound (w : World) (n : ℕ) : Type 0 where
  absent :
      w.current ≡ none → n ≡ 0 → w.sources ≡ [] → w.reconnects ≡ [] → w.idles ≡ [] → IsSound w n
  present :
      (a : ℕ)
      → w.current ≡ some a
      → (w.entries a).ref_count ≡ pos n
      → IsConnected a
          (w.entries a).event_source
          (w.entries a).reconnect_timer
          w.sources
          w.reconnects
      → IsHeld a n (w.entries a).idle_timer w.idles
      → IsSound w n

pub set_entry-own : (a : ℕ) (e : Entry) (entries : ℕ → Entry) → set_entry a e entries a ≡ e
set_entry-own a e entries = let same : (a == a) ≡ true = (==_iff a a).1 refl in rw same refl

pub clear-own : (h a d : ℕ) → clear (some h) (record { handle = h; owner = a; delay = d } ∷ []) ≡ []
clear-own h a d = let same : (h == h) ≡ true = (==_iff h h).1 refl in rw same refl

pub close-own : (h a : ℕ) → close (some h) (record { handle = h; owner = a } ∷ []) ≡ []
close-own h a = let same : (h == h) ≡ true = (==_iff h h).1 refl in rw same refl

module _ {a : ℕ} {source timer : Option ℕ} {sources : List Source} {reconnects : List Timer} where
  pub nothing_open :
      IsConnected a source timer sources reconnects
      → (close source sources ≡ []) × (clear timer reconnects ≡ [])
  nothing_open (streams h s t ss rs) = (rw (s, ss) (close-own h a), rw (t, rs) refl)
  nothing_open (waits h d s t ss rs range) = (rw (s, ss) refl, rw (t, rs) (clear-own h a d))

pub nothing_idle :
    {a n : ℕ} {timer : Option ℕ} {idles : List Timer}
    → IsHeld a n timer idles
    → clear timer idles ≡ []
nothing_idle (in_use m used t is) = rw (t, is) refl
nothing_idle {a} (leaves h unused t is) = rw (t, is) (clear-own h a idle_release_ms)

-- What is known of an entry that was just written.
pub present_at :
    {w : World} {n a : ℕ} (e : Entry)
    → w.entries a ≡ e
    → w.current ≡ some a
    → e.ref_count ≡ pos n
    → IsConnected a e.event_source e.reconnect_timer w.sources w.reconnects
    → IsHeld a n e.idle_timer w.idles
    → IsSound w n
present_at {w} {n} {a} e entry here count connected held =
    present a here (ap (λ e. e.ref_count) entry ∙ count)
      (subst (λ e. IsConnected a e.event_source e.reconnect_timer w.sources w.reconnects)
        (sym entry) connected)
      (subst (λ e. IsHeld a n e.idle_timer w.idles) (sym entry) held)

module _ (w : World) (a n : ℕ) (here : w.current ≡ some a)
    (count : (w.entries a).ref_count ≡ pos n) where
  pub attach-IsSound :
      (listener : ℕ)
      → IsConnected a
          (w.entries a).event_source
          (w.entries a).reconnect_timer
          w.sources
          w.reconnects
      → clear (w.entries a).idle_timer w.idles ≡ []
      → IsSound (attach a listener w) (suc n)
  unfolding attach
  attach-IsSound listener connected cleared =
      present_at _ (set_entry-own a _ w.entries) here (ap suc_ℤ count) connected
        (in_use n refl refl cleared)

  -- A change of the entry that leaves its count, its event source and its timers.
  pub put-IsSound :
      (e : Entry)
      → e.ref_count ≡ (w.entries a).ref_count
      → e.event_source ≡ (w.entries a).event_source
      → e.reconnect_timer ≡ (w.entries a).reconnect_timer
      → e.idle_timer ≡ (w.entries a).idle_timer
      → IsConnected a
          (w.entries a).event_source
          (w.entries a).reconnect_timer
          w.sources
          w.reconnects
      → IsHeld a n (w.entries a).idle_timer w.idles
      → IsSound (put a e w) n
  put-IsSound e c s r i connected held =
      present_at e (set_entry-own a e w.entries) here (c ∙ count) (rw (s, r) connected) (rw i held)

pub start_event_source-none :
    (a : ℕ) (w : World)
    → (w.entries a).event_source ≡ none
    → start_event_source a w ≡ open_source a w
unfolding start_event_source
start_event_source-none a w h = rw (h, start_event_source) refl
