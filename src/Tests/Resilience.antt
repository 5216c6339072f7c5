-- ===== src/Tests/Resilience.antt =====
-- The circuit breaker and the retries at concrete requests.
use miya_api.Prelude.{
  ℕ, zero, suc, ◌+◌, ◌-◌, ◌≡◌, refl, true, false, none, some, [], ◌∷◌, ok, err, arith,
}
use miya_api.Provider.{ProviderError, transport, circuit_open, retryable, retry_after_ms}
use miya_api.ApiServer.CircuitBreaker.{
  ResilienceConfig, CircuitState, closed, before_request, record_success, record_failure,
}
use miya_api.ApiServer.CircuitBreaker.Opening.{failing, failing_refuses}
use miya_api.ApiServer.CircuitBreaker.Probe.{before_request_probe, probe_decides}
use miya_api.ApiServer.ResilientProvider.{ResilientProvider, Inner, invoke}
use miya_api.ApiServer.ResilientProvider.Attempts.{Ended, invoke-Ended}
use miya_api.Tests.Samples.{response}
use miya_api.Tests.Runs.{ask_root}

abbrev config : ResilienceConfig
config = record {
  max_retries = 2;
  base_delay = 250;
  circuit_failure_threshold = 3;
  circuit_cooldown = 30_000;
}

abbrev lost : ProviderError
lost = transport "p" "connection reset" true

-- the cooldown was over at 40
abbrev cooled : CircuitState
cooled = record { consecutive_failures = 3; open_until = some 40; half_open_probe = false }

abbrev probing : CircuitState
probing = record { consecutive_failures = 3; open_until = some 40; half_open_probe = true }

failing_refuses_example :
    before_request 90 (failing config closed (30 ∷ 20 ∷ 10 ∷ []))
    ≡ (err (circuit_open (30 + 30_000 - 90)), failing config closed (30 ∷ 20 ∷ 10 ∷ []))
failing_refuses_example =
    failing_refuses config 30 (20 ∷ 10 ∷ []) 90 (omega arith) (omega arith) (omega arith)

before_request_probe_example :
    (wait : ℕ) × (before_request 90 probing ≡ (err (circuit_open wait), probing))
before_request_probe_example = before_request_probe probing 40 90 refl refl

probe_decides_example :
    (before_request 50 cooled ≡ (ok tt, record cooled { half_open_probe = true }))
    × ((wait : ℕ) × (before_request 60 (before_request 50 cooled).1
          ≡ (err (circuit_open wait), (before_request 50 cooled).1)))
    × (before_request 70 (record_success (before_request 50 cooled).1) ≡ (ok tt, closed))
    × (before_request 70 (record_failure config 60 (before_request 50 cooled).1) ≡ (
      err (circuit_open (60 + 30_000 - 70)),
      record_failure config 60 (before_request 50 cooled).1,
    ))
probe_decides_example = probe_decides config cooled 40 50 60 70 refl refl (omega arith)

asks_nothing : retry_after_ms lost ≡ none
unfolding retry_after_ms
asks_nothing = refl

-- two failures, then an answer
abbrev flaky : Inner
flaky zero _ = (err lost, 5)
flaky (suc zero) _ = (err lost, 5)
flaky (suc (suc n)) _ = (ok (response [] []), 5)

abbrev fresh : CircuitState → ResilientProvider
fresh circuit = record {
  circuit = circuit;
  metrics = record {
    provider_attempts = 0;
    provider_retries = 0;
    provider_failures = 0;
    circuit_rejections = 0;
  };
  now = 90;
  calls = 0;
}

admitted_now : (before_request 90 closed).0 ≡ ok tt
unfolding before_request
admitted_now = refl

refused_now : (before_request 90 probing).0 ≡ err (circuit_open 100)
unfolding before_request
refused_now = refl

invoke-Ended_example :
    Ended flaky
      (λ now. now)
      config
      ask_root
      2
      (record (fresh closed) { circuit = (before_request 90 closed).1 })
      (invoke flaky (λ now. now) config ask_root (fresh closed))
invoke-Ended_example = invoke-Ended flaky (λ now. now) config ask_root (fresh closed) admitted_now

answered_third : (invoke flaky (λ now. now) config ask_root (fresh closed)).1.calls ≡ 3
unfolding invoke before_request retryable
answered_third = refl
