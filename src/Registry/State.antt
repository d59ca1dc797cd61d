-- ===== src/Registry/State.antt =====
-- ui/packages/app/lib/streaming/zombie-stream-registry.ts: the entries, the event sources and timers that are
-- pending, and the changes of an entry that the operations share.
use usezombie.Prelude.{
  ℕ, zero, suc, ◌==◌, String, Bool, true, false, not, Option, none, some, List, keep, if◌then◌else◌,
}
use usezombie.Timeline.{ZombieEvent}

-- `refCount` is a number that may fall below 0.
pub data ℤ : Type 0 where
  pos : ℕ → ℤ
  negsuc : ℕ → ℤ

abbrev pub suc_ℤ : ℤ → ℤ
suc_ℤ (pos n) = pos (suc n)
suc_ℤ (negsuc zero) = pos 0
suc_ℤ (negsuc (suc n)) = negsuc n

abbrev pub pred_ℤ : ℤ → ℤ
pred_ℤ (pos zero) = negsuc 0
pred_ℤ (pos (suc n)) = pos n
pred_ℤ (negsuc n) = negsuc (suc n)

abbrev pub is_positive : ℤ → Bool
is_positive (pos (suc n)) = true
is_positive _ = false

pub data ConnectionStatus : Type 0 where
  connecting live reconnecting : ConnectionStatus

abbrev pub status_optimistic : String
status_optimistic = "optimistic"

abbrev pub status_failed : String
status_failed = "failed"

abbrev pub idle_release_ms : ℕ
idle_release_ms = 30000

abbrev pub reconnect_backoff_base_ms : ℕ
reconnect_backoff_base_ms = 1000

abbrev pub reconnect_backoff_cap_ms : ℕ
reconnect_backoff_cap_ms = 15000

abbrev pub reconnect_max_backoff_attempts : ℕ
reconnect_max_backoff_attempts = 5

pub record ZombieStreamSnapshot : Type 0 where
  pub events : List ZombieEvent
  pub connection_status : ConnectionStatus

-- A listener is named by a number; `notify` only calls the listeners and leaves the entry as it is.
pub record Entry : Type 0 where
  pub workspace_id : String
  pub snapshot : ZombieStreamSnapshot
  pub listeners : List ℕ
  pub ref_count : ℤ
  pub event_source : Option ℕ
  pub reconnect_timer : Option ℕ
  pub reconnect_attempts : ℕ
  pub idle_timer : Option ℕ
  pub temp_counter : ℕ

-- An event source that is not closed, or a timer that has neither fired nor been cleared: its name,
-- the entry of its callback and, for a timer, its delay.
pub record Source : Type 0 where
  pub handle : ℕ
  pub owner : ℕ

pub record Timer : Type 0 where
  pub handle : ℕ
  pub owner : ℕ
  pub delay : ℕ

-- `current` is the entry that the map holds under the key; `fresh` is the next name.
pub record World : Type 0 where
  pub current : Option ℕ
  pub entries : ℕ → Entry
  pub fresh : ℕ
  pub sources : List Source
  pub reconnects : List Timer
  pub idles : List Timer

abbrev pub set_entry : ℕ → Entry → (ℕ → Entry) → (ℕ → Entry)
set_entry a e entries b = if b == a then e else entries b

abbrev pub put : ℕ → Entry → World → World
put a e w = record w { entries = set_entry a e w.entries }

-- `clearTimeout(timer)` on a list of pending timers, if there is a timer.
abbrev pub clear : Option ℕ → List Timer → List Timer
clear none ts = ts
clear (some h) ts = keep (λ t. not (t.handle == h)) ts

-- `eventSource?.close()`
abbrev pub close : Option ℕ → List Source → List Source
close none ss = ss
close (some h) ss = keep (λ s. not (s.handle == h)) ss

abbrev pub set_events : (List ZombieEvent → List ZombieEvent) → Entry → Entry
set_events next e = record e { snapshot = record (e.snapshot) { events = next e.snapshot.events } }

abbrev pub set_status : ConnectionStatus → Entry → Entry
set_status s e = record e { snapshot = record (e.snapshot) { connection_status = s } }
