-- ===== src/ApiServer/ResilientProvider/Delays.antt =====
-- How long a retry waits.
use miya_api.Prelude.{ℕ, ◌+◌, ◌*◌, ◌%◌, ◌^◌, ◌≤◌, ◌≡◌, min, none, u64_max, saturating_add, arith}
use miya_api.Provider.{ProviderError, retry_after_ms}
use miya_api.ApiServer.CircuitBreaker.{ResilienceConfig}
use miya_api.ApiServer.ResilientProvider.{backoff, provider_retry_delay}

-- The limits of the machine integers do not show below half a minute.
capped :
    (x jitter : ℕ)
    → min (saturating_add u64_max (min x u64_max) jitter) 30_000 ≡ min (x + jitter) 30_000
capped x jitter = omega arith

module _ (config : ResilienceConfig) (error : ProviderError) (attempt timestamp : ℕ) where
  -- A retry waits for two minutes at most, whatever the provider asks for.
  pub provider_retry_delay_bound : provider_retry_delay config error attempt timestamp ≤ 120_000
  unfolding provider_retry_delay
  provider_retry_delay_bound = ground arith

  -- Where the provider asks for nothing, a retry waits for the base delay doubled for each earlier
  -- attempt, but not more than ten times, with less than 101 ms more, and for half a minute at most.
  pub provider_retry_delay_backoff :
      retry_after_ms error ≡ none
      → (jitter : ℕ) × (jitter ≤ 100)
        × (provider_retry_delay config error attempt timestamp
            ≡ min (config.base_delay * 2 ^ min attempt 10 + jitter) 30_000)
  unfolding provider_retry_delay backoff
  provider_retry_delay_backoff no_wait = (
    timestamp % 101,
    omega arith,
    rw (no_wait, provider_retry_delay)
        (capped (config.base_delay * 2 ^ min attempt 10) (timestamp % 101)),
  )
