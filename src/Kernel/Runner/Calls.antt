-- ===== src/Kernel/Runner/Calls.antt =====
-- What a call of the provider does to the state of a run.
use miya_api.Prelude.{◌+◌, ◌≡◌, refl, [], ◌∷◌, ◌⊎◌, inl, inr, ok, err, Result, Method, continue}
use miya_api.Provider.{ProviderRequest, ProviderResponse}
use miya_api.Kernel.Error.{KernelError, provider, agent_timeout}
use miya_api.Kernel.Runner.{
  Run, Reply, answered, failed, timed_out, ModelProvider, ask, push_trace, trace_agent_input,
  trace_events_from_response, effective_timeout_ms, invoke_provider, reply_result, accumulate_usage,
}

module _ (model : ModelProvider) (f : ProviderResponse → ProviderResponse)
    (request : ProviderRequest) (run : Run) where
  -- the run with the call in its trace and its count
  abbrev pub called : Run
  called = record (push_trace (trace_agent_input request.task request.input_text ∷ []) run) {
    invocations = run.invocations + 1;
  }

  abbrev pub told : ProviderResponse → Run
  told r =
      push_trace (trace_events_from_response request.task (f r)) (accumulate_usage (f r) called)

  pub ask-answered :
      (r : ProviderResponse)
      → model run.invocations request ≡ answered r
      → ask model f request run ≡ (ok (f r), told r)
  unfolding ask invoke_provider reply_result
  ask-answered r h = rw (h, push_trace) refl

  -- A call answers or fails.
  pub ask-cases :
      ((r : ProviderResponse) × (model run.invocations request ≡ answered r)
        × (ask model f request run ≡ (ok (f r), told r)))
      ⊎ ((e : KernelError) × (ask model f request run ≡ (err e, called)))
  unfolding ask invoke_provider reply_result
  ask-cases = from (model run.invocations request) refl
    where
      from :
          (y : Reply)
          → model run.invocations request ≡ y
          → ((r : ProviderResponse) × (model run.invocations request ≡ answered r)
              × (ask model f request run ≡ (ok (f r), told r)))
            ⊎ ((e : KernelError) × (ask model f request run ≡ (err e, called)))
      from (answered r) h = inl (r, h, ask-answered r h)
      from (failed e) h = inr (provider e, rw h refl)
      from timed_out h =
          inr (agent_timeout request.task.task_id (effective_timeout_ms request), rw h refl)

  -- What holds of every end of a call holds of the call.
  pub ask-elim :
      (Q : Result KernelError ProviderResponse × Run → Type 0)
      → ((e : KernelError) → Q (err e, called))
      → ((r : ProviderResponse) → model run.invocations request ≡ answered r → Q (ok (f r), told r))
      → Q (ask model f request run)
  ask-elim Q failing answering = from ask-cases
    where
      from :
          ((r : ProviderResponse) × (model run.invocations request ≡ answered r)
              × (ask model f request run ≡ (ok (f r), told r)))
            ⊎ ((e : KernelError) × (ask model f request run ≡ (err e, called)))
          → Q (ask model f request run)
      from (inl (r, h, eq)) = rw eq (answering r h)
      from (inr (e, eq)) = rw eq (failing e)

  -- What holds of every end of a call and of what follows each answer holds of the whole.
  pub continue-ask :
      {B : Type 0} (Q : Result KernelError B × Run → Type 0)
      (g : ProviderResponse → Method Run KernelError B)
      → ((e : KernelError) → Q (err e, called))
      → ((r : ProviderResponse) → model run.invocations request ≡ answered r → Q (g (f r) (told r)))
      → Q (continue (ask model f request run) g)
  continue-ask Q g failing answering = ask-elim (λ x. Q (continue x g)) failing answering

-- Each call counts once, whatever comes of it.
pub told-invocations :
    (model : ModelProvider) (f : ProviderResponse → ProviderResponse) (request : ProviderRequest)
    (run : Run) (r : ProviderResponse)
    → (told model f request run r).invocations ≡ run.invocations + 1
unfolding accumulate_usage
told-invocations model f request run r = refl

pub told-working :
    (model : ModelProvider) (f : ProviderResponse → ProviderResponse) (request : ProviderRequest)
    (run : Run) (r : ProviderResponse)
    → (told model f request run r).working ≡ run.working
unfolding accumulate_usage
told-working model f request run r = refl
