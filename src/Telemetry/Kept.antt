-- ===== src/Telemetry/Kept.antt =====
-- What the telemetry keeps of an installation.
use usezombie.Prelude.{ℕ, ◌≡◌, String, Option, List, [], ◌∷◌}
use usezombie.Cli.Store.{
  File, missing, corrupt, blocked, holds, Write, stored, torn, refused, write_json, next_write,
  later_writes,
}
use usezombie.Telemetry.{
  ConsentState, TelemetryConfig, Telemetry, Call, resolve_identity, set_distinct_id, config_of,
  consent_or_granted,
}

-- The file holds this device and this consent.
abbrev Has : String → ConsentState → TelemetryConfig → Type 0
Has device consent c = (c.device_id ≡ device) × (c.consent ≡ consent)

abbrev FileHas : String → ConsentState → File TelemetryConfig → Type 0
FileHas device consent (holds c) = Has device consent c
FileHas device consent _ = ⊥

-- No write cuts the file.
abbrev pub NotTorn : List Write → Type 0
NotTorn [] = Unit
NotTorn (stored ∷ ws) = NotTorn ws
NotTorn (torn ∷ ws) = ⊥
NotTorn (refused ∷ ws) = NotTorn ws

abbrev pub IsKept : String → ConsentState → Telemetry → Type 0
IsKept device consent t = FileHas device consent t.config × NotTorn t.writes

-- A start of the client, and the saving or clearing of the user's id.
pub data Op : Type 0 where
  resolve : Call → Op
  set_distinct : Option String → Call → ℕ → Op

abbrev pub run : Op → Telemetry → Telemetry
run (resolve call) t = (resolve_identity call t).1
run (set_distinct id call later) t = set_distinct_id id call later t

abbrev pub run_all : List Op → Telemetry → Telemetry
run_all [] t = t
run_all (op ∷ ops) t = run_all ops (run op t)

module _ (device : String) (consent : ConsentState) where
  write-IsKept :
      (next : TelemetryConfig) (f : File TelemetryConfig) (ws : List Write)
      → Has device consent next
      → FileHas device consent f
      → NotTorn ws
      → FileHas device consent (write_json (next_write ws) next f) × NotTorn (later_writes ws)
  write-IsKept next f [] h k n = (h, tt)
  write-IsKept next f (stored ∷ ws) h k n = (h, n)
  write-IsKept next f (torn ∷ ws) h k n = absurd n
  write-IsKept next f (refused ∷ ws) h k n = (k, n)

  resolve-IsKept :
      (call : Call) (f : File TelemetryConfig) (ws : List Write)
      → IsKept device consent (record { config = f; writes = ws })
      → (let (identity, t) = resolve_identity call (record { config = f; writes = ws }) in
          (identity.device_id ≡ device) × IsKept device consent t)
  unfolding resolve_identity
  resolve-IsKept call (holds c) ws (h, n) = (h.0, write-IsKept _ (holds c) ws h h n)
  resolve-IsKept call missing ws (h, n) = absurd h
  resolve-IsKept call corrupt ws (h, n) = absurd h
  resolve-IsKept call blocked ws (h, n) = absurd h

  read-consent :
      (f : File TelemetryConfig)
      → FileHas device consent f
      → consent_or_granted (config_of f) ≡ consent
  read-consent (holds c) h = h.1
  read-consent missing h = absurd h
  read-consent corrupt h = absurd h
  read-consent blocked h = absurd h

  run-IsKept :
      (op : Op) (t : Telemetry) → IsKept device consent t → IsKept device consent (run op t)
  unfolding set_distinct_id
  run-IsKept (resolve call) t h = (resolve-IsKept call t.config t.writes h).1
  run-IsKept (set_distinct id call later) t h =
      let (same, (k, n)) = resolve-IsKept call t.config t.writes h in
      let after = (resolve_identity call t).1 in
      write-IsKept _ after.config after.writes (same, read-consent after.config k) k n

-- Once the file is written, and as long as it can be read and no write cuts it, whatever starts and
-- logins follow and however long apart, the file keeps the device id and the consent, so that a denied
-- consent stays denied.
pub run_all-IsKept :
    (device : String) (consent : ConsentState) (ops : List Op) (t : Telemetry)
    → IsKept device consent t
    → IsKept device consent (run_all ops t)
run_all-IsKept device consent [] t h = h
run_all-IsKept device consent (op ∷ ops) t h =
    run_all-IsKept device consent ops (run op t) (run-IsKept device consent op t h)
