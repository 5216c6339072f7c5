-- ===== src/Kernel/Planning/Calls.antt =====
-- How often the planner is called, and that choosing a plan changes no task.
use miya_api.Prelude.{
  ℕ, zero, suc, ◌+◌, ◌≤◌, ◌≡◌, refl, ◌∙◌, continue_state, Bool-cases, inl, inr, arith,
}
use miya_api.Protocol.Request.{NormalizedRequest}
use miya_api.Provider.{ProviderResponse}
use miya_api.Kernel.Policy.{KernelPolicy}
use miya_api.Kernel.Planner.{planner_coverage, should_repair_orchestration_plan}
use miya_api.Kernel.Runner.{Run, ModelProvider, Prompts}
use miya_api.Kernel.Runner.Calls.{continue-ask, told, told-invocations, told-working}
use miya_api.Kernel.Planning.{
  repair_plan, draft_plan, fill_plan, accept_plan, choose_plan, first_request, repair_request, cut,
}

module _ (model : ModelProvider) (prompts : Prompts) (policy : KernelPolicy)
    (request : NormalizedRequest) where
  -- At most `left` repairs are asked for, and the tasks, artifacts and tool calls stay.
  repair_plan_calls :
      (left attempt : ℕ) (response : ProviderResponse) (run : Run)
      → ((repair_plan model prompts policy request left attempt response run).1.invocations
          ≤ run.invocations + left)
        × ((repair_plan model prompts policy request left attempt response run).1.working
            ≡ run.working)
  unfolding repair_plan
  repair_plan_calls zero attempt response run = (omega arith, refl)
  repair_plan_calls (suc left) attempt response run =
      elim (Bool-cases (should_repair_orchestration_plan (planner_coverage response) policy)) [
        | inr stop ↦ rw stop (omega arith, refl)
        | inl go ↦ rw go (
            continue-ask model (cut policy)
              (repair_request model prompts policy request attempt response) run
              (λ x. (x.1.invocations ≤ run.invocations + suc left) × (x.1.working ≡ run.working))
              (repair_plan model prompts policy request left (attempt + 1))
              (λ e. (omega arith, refl))
              (λ r h.
                let (count, same) = repair_plan_calls left (attempt + 1) (cut policy r) (
                  told model (cut policy)
                    (repair_request model prompts policy request attempt response) run r) in
                (
                  omega (
                    arith,
                    told-invocations model (cut policy)
                        (repair_request model prompts policy request attempt response) run r,
                  ),
                  same
                      ∙ told-working model (cut policy)
                          (repair_request model prompts policy request attempt response) run r,
                )))
      ]

  draft_plan_calls :
      (run : Run)
      → ((draft_plan model prompts policy request run).1.invocations ≤ run.invocations + 4)
        × ((draft_plan model prompts policy request run).1.working ≡ run.working)
  unfolding draft_plan
  draft_plan_calls run =
      let first = first_request model prompts policy request in
      continue-ask model (cut policy) first run
        (λ x. (x.1.invocations ≤ run.invocations + 4) × (x.1.working ≡ run.working))
        (repair_plan model prompts policy request 3 1) (λ e. (omega arith, refl))
        (λ r h.
          let (count, same) =
            repair_plan_calls 3 1 (cut policy r) (told model (cut policy) first run r) in
          (
            omega (arith, told-invocations model (cut policy) first run r),
            same ∙ told-working model (cut policy) first run r,
          ))

  -- Choosing a plan takes one call and at most three repairs, and the tasks, artifacts and tool
  -- calls of the run stay as they are.
  pub choose_plan_calls :
      (run : Run)
      → ((choose_plan model prompts policy request run).1.invocations ≤ run.invocations + 4)
        × ((choose_plan model prompts policy request run).1.working ≡ run.working)
  unfolding choose_plan
  choose_plan_calls run =
      rw
        (continue_state (draft_plan model prompts policy request run) (λ response.
          accept_plan model prompts policy request
            (fill_plan model prompts policy request response)))
        (draft_plan_calls run)
