-- ===== src/Kernel/Planning/Outcomes.antt =====
-- What the planning phase leaves behind.
use miya_api.Prelude.{
  ℕ, ◌<◌, ◌≡◌, refl, sym, ap, ◌∙◌, subst, true, false, not, Bool, Option, none, some, List, [], ◌∷◌,
  is_empty, ◌⊎◌, inl, inr, Result, ok, err, continue, continue_inv, continue-ok, u16_max,
  Bool-cases, ltb, arith,
}
use miya_api.Protocol.Artifacts.{AgentArtifact, VerificationIssue}
use miya_api.Protocol.Request.{NormalizedRequest, isolation_key}
use miya_api.Provider.{ProviderResponse}
use miya_api.Kernel.Error.{KernelError}
use miya_api.Kernel.Policy.{KernelPolicy}
use miya_api.Kernel.Responses.{
  Working, apply_spawn_plan_response, answer_saw, plans_of, store_others,
}
use miya_api.Protocol.Tasks.{TaskGraph}
use miya_api.Kernel.Planner.{
  PlannerCoverage, cover, planner_coverage, should_repair_orchestration_plan,
}
use miya_api.Kernel.Responses.Limits.{WithinLimits, apply_spawn_plan_response-WithinLimits}
use miya_api.Kernel.Runner.{Run, ModelProvider, Prompts}
use miya_api.Kernel.Planning.{
  on_working, plan_reconciled, rejection, accept_plan, fill_plan, draft_plan, choose_plan,
  planning_issue, orchestrate,
}
use miya_api.Kernel.Planning.Calls.{choose_plan_calls}

-- A response that showed a plan has one among its artifacts.
saw_plan-plans_of :
    (c : PlannerCoverage) (artifacts : List AgentArtifact)
    → (cover c artifacts).saw_plan ≡ true
    → (c.saw_plan ≡ true) ⊎ (is_empty (plans_of artifacts) ≡ false)
unfolding cover plans_of
saw_plan-plans_of c [] h = inl h
saw_plan-plans_of c (AgentArtifact.spawn_plan i s plan ∷ rest) h = inr refl
saw_plan-plans_of c (AgentArtifact.text _ _ _ ∷ rest) h = saw_plan-plans_of c rest h
saw_plan-plans_of c (AgentArtifact.media _ ∷ rest) h = saw_plan-plans_of c rest h
saw_plan-plans_of c (AgentArtifact.tool_call _ ∷ rest) h = saw_plan-plans_of c rest h
saw_plan-plans_of c (AgentArtifact.tool_result _ ∷ rest) h = saw_plan-plans_of c rest h
saw_plan-plans_of c (AgentArtifact.verification _ _ _ ∷ rest) h = saw_plan-plans_of c rest h

accepted_plans :
    (policy : KernelPolicy) (response : ProviderResponse)
    → 1 < policy.limits.max_agents_per_request
    → should_repair_orchestration_plan (planner_coverage response) policy ≡ false
    → is_empty (plans_of response.artifacts) ≡ false
unfolding planner_coverage should_repair_orchestration_plan
accepted_plans policy response some_children h =
    elim (saw_plan-plans_of (record { saw_plan = false; child_count = 0 }) response.artifacts
      (ground (arith, h))) [ inl none_yet ↦ absurd (ground arith) | inr found ↦ found ]

-- The answer of an application that succeeded.
answer_saw-ok :
    (saw : Bool) (w : Working) (x : Result KernelError (Unit {0}) × TaskGraph) (b : Bool)
    → (answer_saw saw w x).0 ≡ ok b
    → saw ≡ b
answer_saw-ok saw w (ok u, g) b h = cc
answer_saw-ok saw w (err e, g) b h = absurd (ground arith)

module _ (model : ModelProvider) (prompts : Prompts) (policy : KernelPolicy)
    (request : NormalizedRequest) (small : policy.limits.max_agents_per_request < u16_max) where
  -- Whatever the planner answers, and whether the phase succeeds or not: the run stays within the
  -- request's limits, if that of the agents is below the greatest `u16`.
  pub orchestrate-WithinLimits :
      (run : Run)
      → WithinLimits policy run.working
      → WithinLimits policy (orchestrate model prompts policy request run).1.working
  unfolding orchestrate
  orchestrate-WithinLimits run h =
      continue_inv (λ (r : Run). WithinLimits policy r.working)
        (choose_plan model prompts policy request run) _
        (subst (WithinLimits policy) (sym (choose_plan_calls model prompts policy request run).1) h)
        (λ chosen run' h'.
          continue_inv (λ (r : Run). WithinLimits policy r.working)
            (on_working (apply_spawn_plan_response policy (isolation_key request) chosen.0) run') _
            (apply_spawn_plan_response-WithinLimits (λ _. none) policy (isolation_key request) small
              chosen.0 run'.working h')
            (λ _ run'' h''. h''))

  accept_plan-ok :
      (x y : ProviderResponse × ℕ)
      → accept_plan model prompts policy request x ≡ ok y
      → should_repair_orchestration_plan (planner_coverage y.0) policy ≡ false
  unfolding accept_plan
  accept_plan-ok x y h =
      elim (Bool-cases (should_repair_orchestration_plan (planner_coverage x.0) policy)) [
        | inl short ↦
            let whole : accept_plan model prompts policy request x
                ≡ err (rejection model prompts policy request x.0) =
              rw (short, accept_plan) refl in
            absurd cc
        | inr enough ↦
            let whole : accept_plan model prompts policy request x ≡ ok x =
              rw (enough, accept_plan) refl in
            let same : x ≡ y = cc in
            subst
              (λ (z : ProviderResponse × ℕ).
                should_repair_orchestration_plan (planner_coverage z.0) policy ≡ false)
              same enough
      ]

  -- a plan that was chosen is among the artifacts
  choose_plan-plans_of :
      (run : Run) (chosen : ProviderResponse × ℕ)
      → 1 < policy.limits.max_agents_per_request
      → (choose_plan model prompts policy request run).0 ≡ ok chosen
      → is_empty (plans_of chosen.0.artifacts) ≡ false
  unfolding choose_plan
  choose_plan-plans_of run chosen some_children h =
      let (r, _, eq) =
        continue-ok (draft_plan model prompts policy request run)
          (λ r run'. (
            accept_plan model prompts policy request (fill_plan model prompts policy request r),
            run',
          ))
          h in
      accepted_plans policy chosen.0 some_children (
        accept_plan-ok (fill_plan model prompts policy request r) chosen
          (sym (ap (λ (x : Result KernelError (ProviderResponse × ℕ) × Run). x.0) eq) ∙ h))

  applied_seen :
      (response : ProviderResponse) (run : Run) (seen : Bool)
      → is_empty (plans_of response.artifacts) ≡ false
      → (on_working (apply_spawn_plan_response policy (isolation_key request) response) run).0
        ≡ ok seen
      → seen ≡ true
  unfolding apply_spawn_plan_response
  applied_seen response run seen some_plan h =
      sym (
        answer_saw-ok (not (is_empty (plans_of response.artifacts)))
          (record (run.working) { store = store_others run.working.store response.artifacts }) _
          seen h)
      ∙ rw some_plan refl

  issue_seen :
      (added : ℕ) (seen : Bool) (issue : Option VerificationIssue)
      → seen ≡ true
      → planning_issue model prompts policy request added seen ≡ issue
      → (issue ≡ none) ⊎ ((added : ℕ) × (0 < added) × (issue ≡ some (plan_reconciled added)))
  unfolding planning_issue
  issue_seen added seen issue plan_seen h = elim (Bool-cases (ltb 0 added)) [
    | inl more ↦
        inr (added, ground (arith, more), sym h ∙ rw (plan_seen, planning_issue) (rw more refl))
    | inr same ↦ inl (sym h ∙ rw (plan_seen, planning_issue) (rw same refl))
  ]

  -- Where more than one child is configured and the phase succeeds, the report has no planning issue,
  -- or the one that says how many children were added: that a plan is missing is never reported,
  -- since such an answer is refused before.
  pub orchestrate_issue :
      (run : Run) (issue : Option VerificationIssue)
      → 1 < policy.limits.max_agents_per_request
      → (orchestrate model prompts policy request run).0 ≡ ok issue
      → (issue ≡ none) ⊎ ((added : ℕ) × (0 < added) × (issue ≡ some (plan_reconciled added)))
  unfolding orchestrate
  orchestrate_issue run issue some_children h =
      let (chosen, accepted, eq) = continue-ok (choose_plan model prompts policy request run) _ h in
      let applied : (continue
            (on_working (apply_spawn_plan_response policy (isolation_key request) chosen.0)
              (choose_plan model prompts policy request run).1)
            (λ seen run''.
              (ok (planning_issue model prompts policy request chosen.1 seen), run''))).0
          ≡ ok issue =
        sym (ap (λ (x : Result KernelError (Option VerificationIssue) × Run). x.0) eq) ∙ h in
      let (seen, answered, eq') =
        continue-ok
          (on_working (apply_spawn_plan_response policy (isolation_key request) chosen.0)
            (choose_plan model prompts policy request run).1)
          _ applied in
      let ended : ok (planning_issue model prompts policy request chosen.1 seen) ≡ ok issue =
        sym (ap (λ (x : Result KernelError (Option VerificationIssue) × Run). x.0) eq') ∙ applied in
      issue_seen chosen.1 seen issue
        (applied_seen chosen.0 (choose_plan model prompts policy request run).1 seen
          (choose_plan-plans_of run chosen some_children accepted) answered)
        cc
