-- ===== src/Telemetry.antt =====
-- agentsfleet/src/services/telemetry/identity.ts and consent.ts: the identity of an installation and
-- its consent. The clock and the random UUIDs of a call are given with it, and the outcome of each
-- write in advance.
pub mod Kept
use usezombie.Prelude.{
  ℕ, ◌-◌, ltb, String, Text, codes, trim, text_eq, is_empty, Bool, true, false, ◌||◌, Option, none,
  some, List, [], ◌∷◌, if◌then◌else◌,
}
use usezombie.Cli.Store.{
  File, missing, corrupt, blocked, holds, Write, write_json, next_write, later_writes,
}

pub data ConsentState : Type 0 where
  granted denied : ConsentState

pub record TelemetryConfig : Type 0 where
  pub consent : ConsentState
  pub device_id : String
  pub session_id : String
  pub session_last_active : ℕ
  pub distinct_id : Option String

-- The file telemetry.json, and what becomes of the next writes.
pub record Telemetry : Type 0 where
  pub config : File TelemetryConfig
  pub writes : List Write

abbrev pub session_timeout_ms : ℕ
session_timeout_ms = 1800000

abbrev pub is_one : Option Text → Bool
is_one none = false
is_one (some raw) = text_eq (trim raw) (codes "1")

-- Every failure is the same as no file.
abbrev pub config_of : File TelemetryConfig → Option TelemetryConfig
config_of missing = none
config_of corrupt = none
config_of blocked = none
config_of (holds config) = some config

abbrev pub read_telemetry_config : Telemetry → Option TelemetryConfig
read_telemetry_config t = config_of t.config

-- The outcome of the write is ignored.
abbrev pub write_telemetry_config : TelemetryConfig → Telemetry → Telemetry
write_telemetry_config next t = record {
  config = write_json (next_write t.writes) next t.config;
  writes = later_writes t.writes;
}

-- What a call meets: the time, and the UUIDs that it would take.
pub record Call : Type 0 where
  pub now : ℕ
  pub device_uuid : String
  pub session_uuid : String

pub record Identity : Type 0 where
  pub device_id : String
  pub session_id : String
  pub distinct_id : Option String
  pub is_first_run : Bool

abbrev pub is_session_expired : ℕ → TelemetryConfig → Bool
is_session_expired now config = ltb session_timeout_ms (now - config.session_last_active)

abbrev pub current_session : Call → TelemetryConfig → String
current_session call config =
    if is_session_expired call.now config then call.session_uuid else config.session_id

abbrev pub identity_from : Call → Option TelemetryConfig → Telemetry → Identity × Telemetry
identity_from call none t = (
  record {
    device_id = call.device_uuid;
    session_id = call.session_uuid;
    distinct_id = none;
    is_first_run = true;
  },
  write_telemetry_config
      (record {
        consent = granted;
        device_id = call.device_uuid;
        session_id = call.session_uuid;
        session_last_active = call.now;
        distinct_id = none;
      })
      t,
)
identity_from call (some config) t = (
  record {
    device_id = config.device_id;
    session_id = current_session call config;
    distinct_id = config.distinct_id;
    is_first_run = false;
  },
  write_telemetry_config
      (record config { session_id = current_session call config; session_last_active = call.now })
      t,
)

unfoldable pub resolve_identity : Call → Telemetry → Identity × Telemetry
resolve_identity call t = identity_from call (read_telemetry_config t) t

abbrev pub consent_or_granted : Option TelemetryConfig → ConsentState
consent_or_granted none = granted
consent_or_granted (some config) = config.consent

-- `saveDistinctId`, and with `none` `clearDistinctId`; `later` is the time of the second write.
unfoldable pub set_distinct_id : Option String → Call → ℕ → Telemetry → Telemetry
unfolding resolve_identity
set_distinct_id distinct_id call later t =
    let (identity, t') = resolve_identity call t in
    write_telemetry_config
      (record {
        consent = consent_or_granted (read_telemetry_config t');
        device_id = identity.device_id;
        session_id = identity.session_id;
        session_last_active = later;
        distinct_id = distinct_id;
      })
      t'

-- The two variables are ZOMBIE_TELEMETRY_DISABLED and DO_NOT_TRACK.
unfoldable pub get_effective_consent :
    Option TelemetryConfig → Option Text → Option Text → ConsentState
unfolding trim
get_effective_consent config telemetry_disabled do_not_track =
    if is_one telemetry_disabled
    then denied
    else if is_one do_not_track
    then denied
    else consent_or_granted config
