-- ===== src/Registry/Outbox.antt =====
-- ui/packages/app/lib/streaming/zombie-stream-registry.ts: the events that are shown before the server has
-- confirmed them.
use usezombie.Prelude.{
  ℕ, zero, suc, ◌/◌, ◌%◌, ◌==◌, str_eq, String, Text, none, some, List, [], ◌∷◌, ◌++◌, map,
  if◌then◌else◌,
}
use Prim.Native.String.{◌++◌ as str_append}
use usezombie.Timeline.{ZombieEvent, user, status_received}
use usezombie.Registry.State.{status_optimistic, status_failed, World, put, set_events}

-- The decimal digits of a number; `fuel` bounds their count.
abbrev pub digit : ℕ → String
digit n =
    if n == 0
    then "0"
    else if n == 1
    then "1"
    else if n == 2
    then "2"
    else if n == 3
    then "3"
    else if n == 4
    then "4"
    else if n == 5
    then "5"
    else if n == 6
    then "6"
    else if n == 7
    then "7"
    else if n == 8
    then "8"
    else "9"

unfoldable pub digits : ℕ → ℕ → String → String
digits zero n rest = rest
digits (suc fuel) n rest =
    let longer = digits fuel (n / 10) (str_append (digit (n % 10)) rest) in
    if n / 10 == 0 then str_append (digit n) rest else longer

unfoldable pub temp_id : ℕ → String
unfolding digits
temp_id n = str_append "optim-" (digits (suc n) n "")

abbrev pub optimistic_event : String → Text → Text → ℕ → ZombieEvent
optimistic_event id text actor now = record {
  id = id;
  role = user;
  actor = actor;
  text = text;
  created_at = now;
  status = status_optimistic;
  request = none;
}

unfoldable pub append_optimistic : Text → Text → ℕ → World → String × World
unfolding temp_id
append_optimistic text actor now w = elim (w.current) [
  | none ↦ ("", w)
  | some a ↦
      let e = record (w.entries a) { temp_counter = suc (w.entries a).temp_counter } in
      let id = temp_id e.temp_counter in
      (id, put a (set_events (λ prev. prev ++ optimistic_event id text actor now ∷ []) e) w)
]

-- `prev.map((ev) => (ev.id === id ? change(ev) : ev))`
abbrev pub change_all : String → (ZombieEvent → ZombieEvent) → List ZombieEvent → List ZombieEvent
change_all id change = map (λ e. if str_eq e.id id then change e else e)

unfoldable pub change_current : (List ZombieEvent → List ZombieEvent) → World → World
change_current next w = elim (w.current) [
  | none ↦ w
  | some a ↦ put a (set_events next (w.entries a)) w
]

abbrev pub received_as : String → ZombieEvent → ZombieEvent
received_as id e = record e { id = id; status = status_received }

abbrev pub failed : ZombieEvent → ZombieEvent
failed e = record e { status = status_failed }

unfoldable pub reconcile_optimistic : String → String → World → World
unfolding change_current
reconcile_optimistic temp real = change_current (change_all temp (received_as real))

unfoldable pub mark_optimistic_failed : String → World → World
unfolding change_current
mark_optimistic_failed temp = change_current (change_all temp failed)
