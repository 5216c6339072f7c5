-- ===== src/ApiServer/CircuitBreaker.antt =====
-- `CircuitBreaker` and `ResilienceConfig` of crates/api-server/src/lib.rs. An `Instant` is a number
-- of milliseconds; the lock is never poisoned, since nothing panics while it is held.
pub mod Opening
pub mod Probe
use miya_api.Prelude.{
  ℕ, ◌+◌, ◌-◌, ltb, leb, max, Bool, true, false, ◌||◌, Option, none, some, Result, ok, err, Method,
  saturating_add, u32_max, if◌then◌else◌,
}
use miya_api.Provider.{ProviderError, circuit_open}

pub record ResilienceConfig : Type 0 where
  pub max_retries : ℕ
  pub base_delay : ℕ
  pub circuit_failure_threshold : ℕ
  pub circuit_cooldown : ℕ

pub record CircuitState : Type 0 where
  pub consecutive_failures : ℕ
  pub open_until : Option ℕ
  pub half_open_probe : Bool

abbrev pub closed : CircuitState
closed = record { consecutive_failures = 0; open_until = none; half_open_probe = false }

-- with the time of the circuit, if it is open
abbrev admit : ℕ → Option ℕ → Method CircuitState ProviderError (Unit {0})
admit now none s = (ok tt, s)
admit now (some open_until) s =
    if ltb now open_until
    then (err (circuit_open (open_until - now)), s)
    else if s.half_open_probe
    then (err (circuit_open 100), s)
    else (ok tt, record s { half_open_probe = true })

unfoldable pub before_request : ℕ → Method CircuitState ProviderError (Unit {0})
before_request now s = admit now s.open_until s

unfoldable pub record_success : CircuitState → CircuitState
record_success s = closed

unfoldable pub record_failure : ResilienceConfig → ℕ → CircuitState → CircuitState
record_failure config now s =
    let failures = saturating_add u32_max s.consecutive_failures 1 in
    if s.half_open_probe || leb (max config.circuit_failure_threshold 1) failures
    then record {
      consecutive_failures = failures;
      open_until = some (now + config.circuit_cooldown);
      half_open_probe = false;
    }
    else record s { consecutive_failures = failures }
