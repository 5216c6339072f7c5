-- ===== src/ApiServer/CircuitBreaker/Opening.antt =====
-- When the circuit opens, and what it does while it is open.
use miya_api.Prelude.{
  ℕ, suc, ◌+◌, ◌-◌, ◌≤◌, ◌<◌, ◌≡◌, refl, ap, ◌∙◌, max, true, false, ok, leb, lt→ltb, none, some,
  List, [], ◌∷◌, length, err, u32_max, saturating_add, arith,
}
use miya_api.Provider.{circuit_open}
use miya_api.ApiServer.CircuitBreaker.{
  ResilienceConfig, CircuitState, closed, before_request, record_failure,
}

-- The state after failures at these times, the last first.
abbrev pub failing : ResilienceConfig → CircuitState → List ℕ → CircuitState
failing config s [] = s
failing config s (now ∷ times) = record_failure config now (failing config s times)

-- A closed circuit that has counted `n` failures in a row.
abbrev counted : ℕ → CircuitState
counted n = record { consecutive_failures = n; open_until = none; half_open_probe = false }

-- A circuit that opened at its `n`-th failure.
abbrev opened : ResilienceConfig → ℕ → ℕ → CircuitState
opened config n now = record {
  consecutive_failures = n;
  open_until = some (now + config.circuit_cooldown);
  half_open_probe = false;
}

module _ (config : ResilienceConfig) where
  record_failure-below :
      (now n : ℕ)
      → suc n < max config.circuit_failure_threshold 1
      → suc n ≤ u32_max
      → record_failure config now (counted n) ≡ counted (suc n)
  unfolding record_failure
  record_failure-below now n below small =
      let count : saturating_add u32_max n 1 ≡ suc n = omega arith in
      let test : leb (max config.circuit_failure_threshold 1) (saturating_add u32_max n 1) ≡ false =
        ground arith in
      rw test (ap counted count)

  record_failure-at :
      (now n : ℕ)
      → suc n ≡ max config.circuit_failure_threshold 1
      → suc n ≤ u32_max
      → record_failure config now (counted n) ≡ opened config (suc n) now
  unfolding record_failure
  record_failure-at now n reached small =
      let count : saturating_add u32_max n 1 ≡ suc n = omega arith in
      let test : leb (max config.circuit_failure_threshold 1) (saturating_add u32_max n 1) ≡ true =
        ground arith in
      rw test (ap (λ m. opened config m now) count)

  failing-counted :
      (times : List ℕ)
      → length times < max config.circuit_failure_threshold 1
      → length times ≤ u32_max
      → failing config closed times ≡ counted (length times)
  failing-counted [] below small = refl
  failing-counted (now ∷ times) below small =
      ap (record_failure config now) (failing-counted times (omega arith) (omega arith))
      ∙ record_failure-below now (length times) below small

  failing-opened :
      (now : ℕ) (times : List ℕ)
      → suc (length times) ≡ max config.circuit_failure_threshold 1
      → suc (length times) ≤ u32_max
      → failing config closed (now ∷ times) ≡ opened config (suc (length times)) now
  failing-opened now times reached small =
      ap (record_failure config now) (failing-counted times (omega arith) (omega arith))
      ∙ record_failure-at now (length times) reached small

  -- After fewer failures in a row than the threshold every request is admitted, and the circuit
  -- stays as it is.
  pub failing_admits :
      (times : List ℕ) (now : ℕ)
      → length times < max config.circuit_failure_threshold 1
      → length times ≤ u32_max
      → before_request now (failing config closed times) ≡ (ok tt, failing config closed times)
  unfolding before_request
  failing_admits times now below small = rw (failing-counted times below small) refl

  -- The failure that reaches the threshold opens the circuit: until the cooldown is over every
  -- request is refused with the time that is left, and the circuit stays as it is.
  pub failing_refuses :
      (opening : ℕ) (times : List ℕ) (now : ℕ)
      → suc (length times) ≡ max config.circuit_failure_threshold 1
      → suc (length times) ≤ u32_max
      → now < opening + config.circuit_cooldown
      → before_request now (failing config closed (opening ∷ times)) ≡ (
        err (circuit_open (opening + config.circuit_cooldown - now)),
        failing config closed (opening ∷ times),
      )
  unfolding before_request
  failing_refuses opening times now reached small early =
      rw
        (
          failing-opened opening times reached small,
          lt→ltb now (opening + config.circuit_cooldown) early,
        )
        refl
