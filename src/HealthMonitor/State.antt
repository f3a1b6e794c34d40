-- ===== src/HealthMonitor/State.antt =====
-- The data of `HealthMonitor`. Clock readings, response times and durations are microseconds. The
-- metadata of a check, which no decision reads, are left out.
use claude_library.Prelude.{
  ℕ, String, ◌≡◌, ◌↔◌, Bool, true, false, Option, none, some, List, [], arith,
}
use claude_library.Prelude.Key.{Key}
use claude_library.Prelude.Dict.{Dict}

pub data HealthState : Type 0 where
  healthy degraded unhealthy unknown : HealthState

abbrev same_state : HealthState → HealthState → Bool
same_state healthy healthy = true
same_state degraded degraded = true
same_state unhealthy unhealthy = true
same_state unknown unknown = true
same_state _ _ = false

pub same_state_iff : (a b : HealthState) → (same_state a b ≡ true) ↔ (a ≡ b)
same_state_iff a b = ground arith

instance abbrev pub health_key : Key HealthState
health_key = record { beq = same_state; beq_iff = same_state_iff }

-- The text of a result, by what it shows.
pub data Message : Type 0 where
  not_found nothing_configured no_result fine failed : Message
  unexpected_status : ℕ → Message
  too_slow slow in_time timed_out : ℕ → Message
  connection_error check_error http_failed says : String → Message

pub record HealthCheckResult : Type 0 where
  pub name : String
  pub state : HealthState
  pub message : Message
  pub response_time : ℕ
  pub timestamp : ℕ

pub record HealthStatus : Type 0 where
  pub is_healthy : Bool
  pub state : HealthState
  pub checks : List HealthCheckResult

-- A check has a function or a URL, or neither; what they answer is not part of the configuration.
pub record HealthCheckConfig : Type 0 where
  pub name : String
  pub has_check_fn : Bool
  pub url : Option String
  pub timeout : ℕ
  pub expected_status_codes : List ℕ
  pub degraded_threshold : ℕ
  pub unhealthy_threshold : ℕ
  pub retry_count : ℕ

pub record AlertConfig : Type 0 where
  pub enabled : Bool
  pub has_alert_fn : Bool
  pub consecutive_failures_threshold : ℕ
  pub cooldown : ℕ

abbrev pub default_alerts : AlertConfig
default_alerts = record {
  enabled = true;
  has_alert_fn = false;
  consecutive_failures_threshold = 2;
  cooldown = 300000000;
}

-- The monitor. `http_available` is whether httpx could be imported.
pub record HealthMonitor : Type 0 where
  pub http_available : Bool
  pub checks : Dict String HealthCheckConfig
  pub results : Dict String HealthCheckResult
  pub alert_config : AlertConfig
  pub consecutive_failures : Dict String ℕ
  pub last_alert_time : Dict String ℕ
  pub running : Bool

unfoldable pub create : Bool → Option AlertConfig → HealthMonitor
create available given = record {
  http_available = available;
  checks = [];
  results = [];
  alert_config = elim given [ none ↦ default_alerts | some c ↦ c ];
  consecutive_failures = [];
  last_alert_time = [];
  running = false;
}
