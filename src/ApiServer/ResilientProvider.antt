-- ===== src/ApiServer/ResilientProvider.antt =====
-- `ResilientProvider::invoke` and `provider_retry_delay` of crates/api-server/src/lib.rs: calls of
-- the inner provider with retries, under the circuit breaker. Between the admission of a request and
-- its end no other request reaches the circuit.
pub mod Delays
pub mod Attempts
use miya_api.Prelude.{
  ℕ, zero, suc, ◌+◌, ◌%◌, ◌^◌, min, Bool, true, false, Option, none, some, Result, ok, err, Method,
  saturating_add, saturating_mul, u64_max, if◌then◌else◌,
}
use miya_api.Provider.{ProviderRequest, ProviderResponse, ProviderError, retryable, retry_after_ms}
use miya_api.ApiServer.CircuitBreaker.{
  ResilienceConfig, CircuitState, before_request, record_success, record_failure,
}

-- The counters of `RuntimeMetrics` that a call changes; an `AtomicU64` wraps around.
pub record RuntimeMetrics : Type 0 where
  pub provider_attempts : ℕ
  pub provider_retries : ℕ
  pub provider_failures : ℕ
  pub circuit_rejections : ℕ

abbrev pub fetch_add : ℕ → ℕ → ℕ
fetch_add counter n = (counter + n) % 2 ^ 64

-- The circuit and the metrics, with the time and the number of calls of the inner provider so far.
pub record ResilientProvider : Type 0 where
  pub circuit : CircuitState
  pub metrics : RuntimeMetrics
  pub now : ℕ
  pub calls : ℕ

-- The inner provider: the reply to each call, and the milliseconds that it takes.
abbrev pub Inner : Type 0
Inner = ℕ → ProviderRequest → Result ProviderError ProviderResponse × ℕ

-- The delay that the exponent gives, before jitter and the limit.
unfoldable pub backoff : ResilienceConfig → ℕ → ℕ
backoff config attempt = saturating_mul u64_max config.base_delay (2 ^ min attempt 10)

-- `timestamp` is what `telemetry_timestamp_ms` reads.
unfoldable pub provider_retry_delay : ResilienceConfig → ProviderError → ℕ → ℕ → ℕ
unfolding backoff
provider_retry_delay config error attempt timestamp = elim (retry_after_ms error) [
  | some wait ↦ min wait 120_000
  | none ↦ min (saturating_add u64_max (backoff config attempt) (timestamp % 101)) 30_000
]

-- `clock` gives the wall clock's milliseconds at a time.
module _ (inner : Inner) (clock : ℕ → ℕ) (config : ResilienceConfig)
    (request : ProviderRequest) where
  unfoldable pub call_inner : Method ResilientProvider ProviderError ProviderResponse
  call_inner s = (
    (inner s.calls request).0,
    record s {
      metrics = record (s.metrics) { provider_attempts = fetch_add s.metrics.provider_attempts 1 };
      now = s.now + (inner s.calls request).1;
      calls = s.calls + 1;
    },
  )

  -- the end of the loop, with an answer or an error
  unfoldable pub settle :
      Result ProviderError ProviderResponse × ResilientProvider
      → Result ProviderError ProviderResponse × ResilientProvider
  settle (ok response, s) = (ok response, record s { circuit = record_success s.circuit })
  settle (err error, s) = (
    err error,
    record s {
      metrics = record (s.metrics) { provider_failures = fetch_add s.metrics.provider_failures 1 };
      circuit =
          if retryable error
          then record_failure config s.now s.circuit
          else record_success s.circuit;
    },
  )

  -- the sleep before the next attempt
  unfoldable pub wait_retry : ProviderError → ℕ → ResilientProvider → ResilientProvider
  unfolding provider_retry_delay
  wait_retry error attempt s = record s {
    metrics = record (s.metrics) { provider_retries = fetch_add s.metrics.provider_retries 1 };
    now = s.now + provider_retry_delay config error attempt (clock s.now);
  }

  -- The `loop`; `left` is how many retries are still allowed, `max_retries - attempt`.
  unfoldable pub invoke_loop : ℕ → ℕ → Method ResilientProvider ProviderError ProviderResponse
  unfolding call_inner settle wait_retry
  invoke_loop zero attempt s = settle (call_inner s)
  invoke_loop (suc left) attempt s = elim (call_inner s).0 [
    | ok response ↦ settle (ok response, (call_inner s).1)
    | err error ↦ elim (retryable error) [
      | true ↦ invoke_loop left (attempt + 1) (wait_retry error attempt (call_inner s).1)
      | false ↦ settle (err error, (call_inner s).1)
    ]
  ]

  -- after the circuit breaker's answer
  unfoldable pub admitted :
      ResilientProvider
      → Result ProviderError (Unit {0}) × CircuitState
      → Result ProviderError ProviderResponse × ResilientProvider
  unfolding invoke_loop
  admitted s (ok _, circuit) = invoke_loop config.max_retries 0 (record s { circuit = circuit })
  admitted s (err error, circuit) = (
    err error,
    record s {
      circuit = circuit;
      metrics = record (s.metrics) {
        circuit_rejections = fetch_add s.metrics.circuit_rejections 1;
      };
    },
  )

  unfoldable pub invoke : Method ResilientProvider ProviderError ProviderResponse
  unfolding admitted
  invoke s = admitted s (before_request s.now s.circuit)
