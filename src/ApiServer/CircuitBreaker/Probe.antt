-- ===== src/ApiServer/CircuitBreaker/Probe.antt =====
-- One request at a time probes a circuit whose cooldown is over.
use miya_api.Prelude.{
  ℕ, ◌≤◌, ◌≡◌, ◌-◌, ◌+◌, refl, false, ltb, if◌then◌else◌, Bool-cases, inl, inr, true, false, some,
  ok, err, arith,
}
use miya_api.Provider.{circuit_open}
use miya_api.ApiServer.CircuitBreaker.{
  ResilienceConfig, CircuitState, closed, before_request, record_success, record_failure,
}

-- While a probe is out no request is admitted, whenever it comes, and nothing of the state changes:
-- only the end of the probe, a success or a failure, lets requests through again.
pub before_request_probe :
    (s : CircuitState) (open_until now : ℕ)
    → s.half_open_probe ≡ true
    → s.open_until ≡ some open_until
    → (wait : ℕ) × (before_request now s ≡ (err (circuit_open wait), s))
unfolding before_request
before_request_probe s open_until now probe opened = elim (Bool-cases (ltb now open_until)) [
  | inl early ↦ (open_until - now, rw (opened, early) refl)
  | inr late ↦ (100, rw (opened, late, probe) refl)
]

-- A request after the cooldown is let through as the probe of the circuit.
before_request_first :
    (s : CircuitState) (open_until now : ℕ)
    → s.half_open_probe ≡ false
    → s.open_until ≡ some open_until
    → open_until ≤ now
    → before_request now s ≡ (ok tt, record s { half_open_probe = true })
unfolding before_request
before_request_first s open_until now probe opened late =
    let test : ltb now open_until ≡ false = ground arith in rw (opened, test, probe) refl

-- After the cooldown the first request is admitted as the probe, and while it is out a later one is
-- refused whenever it comes. The end of the probe decides about the next request: after a success
-- it is admitted at any time, and the circuit is closed; after a failure it is refused for another
-- cooldown, with the time that is left, and then admitted as the next probe.
pub probe_decides :
    (config : ResilienceConfig) (s : CircuitState) (open_until now later next : ℕ)
    → s.half_open_probe ≡ false
    → s.open_until ≡ some open_until
    → open_until ≤ now
    → (before_request now s ≡ (ok tt, record s { half_open_probe = true }))
      × ((wait : ℕ) × (before_request later (before_request now s).1
            ≡ (err (circuit_open wait), (before_request now s).1)))
      × (before_request next (record_success (before_request now s).1) ≡ (ok tt, closed))
      × (before_request next (record_failure config later (before_request now s).1) ≡ (
          if ltb next (later + config.circuit_cooldown)
          then (
            err (circuit_open (later + config.circuit_cooldown - next)),
            record_failure config later (before_request now s).1,
          )
          else (
            ok tt,
            record (record_failure config later (before_request now s).1) {
              half_open_probe = true;
            },
          )))
unfolding record_success record_failure before_request
probe_decides config s open_until now later next probe opened late =
    let first = before_request_first s open_until now probe opened late in
    (
      first,
      rw first
          (before_request_probe (record s { half_open_probe = true }) open_until later refl opened),
      refl,
      rw first refl,
    )
