-- ===== src/ApiServer/ResilientProvider/Attempts.antt =====
-- How the attempts of one request end.
use miya_api.Prelude.{
  ℕ, zero, suc, ◌+◌, ◌≤◌, ◌≡◌, refl, ◌∙◌, ap, Bool, true, false, Result, ok, err, ◌⊎◌, inl, inr,
  Bool-cases, arith,
}
use miya_api.Provider.{ProviderRequest, ProviderResponse, ProviderError, retryable}
use miya_api.ApiServer.CircuitBreaker.{
  ResilienceConfig, CircuitState, closed, before_request, record_success, record_failure,
}
use miya_api.ApiServer.ResilientProvider.{
  ResilientProvider, Inner, call_inner, settle, wait_retry, invoke_loop, admitted, invoke,
}

Result-cases : {E A : Type 0} (x : Result E A) → ((a : A) × (x ≡ ok a)) ⊎ ((e : E) × (x ≡ err e))
Result-cases (ok a) = inl (a, refl)
Result-cases (err e) = inr (e, refl)

module _ (inner : Inner) (clock : ℕ → ℕ) (config : ResilienceConfig)
    (request : ProviderRequest) where
  -- After at most `left` retries: an answer is the inner provider's and closes the circuit; an error
  -- that could be retried comes after all retries and counts as one failure of the circuit; another
  -- error closes it.
  abbrev pub Failed : ℕ → ResilientProvider → ResilientProvider → Bool → Type 0
  Failed left s s' true =
      (s'.calls ≡ s.calls + (left + 1)) × (s'.circuit ≡ record_failure config s'.now s.circuit)
  Failed left s s' false = (s'.calls ≤ s.calls + (left + 1)) × (s'.circuit ≡ closed)

  abbrev pub Ended :
      ℕ → ResilientProvider → Result ProviderError ProviderResponse × ResilientProvider → Type 0
  Ended left s (ok response, s') =
      ((n : ℕ) × (s'.calls ≡ n + 1) × ((inner n request).0 ≡ ok response))
      × ((s'.calls ≤ s.calls + (left + 1)) × (s'.circuit ≡ closed))
  Ended left s (err error, s') = Failed left s s' (retryable error)

  -- What ends after another attempt ends with one call more.
  Failed-more :
      (left : ℕ) (s s' s'' : ResilientProvider) (b : Bool)
      → s'.calls ≡ s.calls + 1
      → s'.circuit ≡ s.circuit
      → Failed left s' s'' b
      → Failed (suc left) s s'' b
  Failed-more left s s' s'' true call same h =
      (omega (arith, call, h.0), h.1 ∙ ap (record_failure config s''.now) same)
  Failed-more left s s' s'' false call same h = (omega (arith, call, h.0), h.1)

  Ended-more :
      (left : ℕ) (s s' : ResilientProvider)
      (x : Result ProviderError ProviderResponse × ResilientProvider)
      → s'.calls ≡ s.calls + 1
      → s'.circuit ≡ s.circuit
      → Ended left s' x
      → Ended (suc left) s x
  Ended-more left s s' (ok response, s'') call same h = (h.0, (omega (arith, call, h.1.0), h.1.1))
  Ended-more left s s' (err error, s'') call same h =
      Failed-more left s s' s'' (retryable error) call same h

  -- the loop ends here with this error
  failed-here :
      (s : ResilientProvider) (error : ProviderError)
      → (inner s.calls request).0 ≡ err error
      → Ended 0 s (
          settle inner clock config request
            (err error, (call_inner inner clock config request s).1))
  unfolding settle call_inner record_success
  failed-here s error h = elim (Bool-cases (retryable error)) [
    | inl again ↦ rw again (omega arith, refl)
    | inr final ↦ rw final (omega arith, refl)
  ]

  module _ (left attempt : ℕ) (s : ResilientProvider) where
    loop_answered :
        (response : ProviderResponse)
        → (inner s.calls request).0 ≡ ok response
        → invoke_loop inner clock config request (suc left) attempt s
          ≡ settle inner clock config request
              (ok response, (call_inner inner clock config request s).1)
    unfolding invoke_loop call_inner
    loop_answered response h = rw (h, invoke_loop) refl

    loop_again :
        (error : ProviderError)
        → (inner s.calls request).0 ≡ err error
        → retryable error ≡ true
        → invoke_loop inner clock config request (suc left) attempt s
          ≡ invoke_loop inner clock config request left (attempt + 1) (
              wait_retry inner clock config request error attempt
                (call_inner inner clock config request s).1)
    unfolding invoke_loop call_inner
    loop_again error h again = rw (h, invoke_loop) (rw again refl)

    loop_refused :
        (error : ProviderError)
        → (inner s.calls request).0 ≡ err error
        → retryable error ≡ false
        → invoke_loop inner clock config request (suc left) attempt s
          ≡ settle inner clock config request
              (err error, (call_inner inner clock config request s).1)
    unfolding invoke_loop call_inner
    loop_refused error h final = rw (h, invoke_loop) (rw final (rw (final, settle) refl))

  invoke_loop-Ended :
      (left attempt : ℕ) (s : ResilientProvider)
      → Ended left s (invoke_loop inner clock config request left attempt s)
  unfolding invoke_loop settle call_inner record_success wait_retry
  invoke_loop-Ended zero attempt s = elim (Result-cases (inner s.calls request).0) [
    | inl (response, h) ↦ rw h ((s.calls, refl, h), (omega arith, refl))
    | inr (error, h) ↦ rw h (failed-here s error h)
  ]
  invoke_loop-Ended (suc left) attempt s = elim (Result-cases (inner s.calls request).0) [
    | inl (response, h) ↦
        rw (loop_answered left attempt s response h) ((s.calls, refl, h), (omega arith, refl))
    | inr (error, h) ↦ elim (Bool-cases (retryable error)) [
      | inl again ↦ rw (loop_again left attempt s error h again) (
          Ended-more left s
            (wait_retry inner clock config request error attempt
              (call_inner inner clock config request s).1)
            _ refl refl (invoke_loop-Ended left (attempt + 1) _))
      | inr final ↦ rw (loop_refused left attempt s error h final) (rw final (omega arith, refl))
    ]
  ]

  admitted-Ended :
      (s : ResilientProvider) (x : Result ProviderError (Unit {0}) × CircuitState)
      → x.0 ≡ ok tt
      → Ended config.max_retries
          (record s { circuit = x.1 })
          (admitted inner clock config request s x)
  unfolding admitted
  admitted-Ended s (ok _, circuit) h = invoke_loop-Ended config.max_retries 0 _
  admitted-Ended s (err error, circuit) h = absurd (ground arith)

  admitted_refused :
      (s : ResilientProvider) (x : Result ProviderError (Unit {0}) × CircuitState)
      (error : ProviderError)
      → x.0 ≡ err error
      → ((admitted inner clock config request s x).0 ≡ err error)
        × (((admitted inner clock config request s x).1.calls ≡ s.calls)
            × ((admitted inner clock config request s x).1.now ≡ s.now))
  unfolding admitted
  admitted_refused s (ok _, circuit) error h = absurd (ground arith)
  admitted_refused s (err e, circuit) error h = (cc, (refl, refl))

  -- A request that the circuit admits ends like its attempts: with an answer of the inner provider,
  -- which closes the circuit, after at most `max_retries` retries; with an error that may be retried
  -- only after all of them, which counts as one failure of the circuit; or with another error, which
  -- closes the circuit.
  pub invoke-Ended :
      (s : ResilientProvider)
      → (before_request s.now s.circuit).0 ≡ ok tt
      → Ended config.max_retries
          (record s { circuit = (before_request s.now s.circuit).1 })
          (invoke inner clock config request s)
  unfolding invoke
  invoke-Ended s admits = admitted-Ended s (before_request s.now s.circuit) admits

  -- A request that the circuit refuses makes no call and takes no time.
  pub invoke_refused :
      (s : ResilientProvider) (error : ProviderError)
      → (before_request s.now s.circuit).0 ≡ err error
      → ((invoke inner clock config request s).0 ≡ err error)
        × (((invoke inner clock config request s).1.calls ≡ s.calls)
            × ((invoke inner clock config request s).1.now ≡ s.now))
  unfolding invoke
  invoke_refused s error refused = admitted_refused s (before_request s.now s.circuit) error refused
