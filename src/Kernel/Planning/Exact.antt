-- ===== src/Kernel/Planning/Exact.antt =====
-- A plan that is chosen has the configured number of children.
use miya_api.Prelude.{
  ℕ, zero, suc, ◌+◌, ◌-◌, OnOk, OnOk-ok, lt_or_ge, continue_value, ap, ◌∙◌, ◌≤◌, ◌<◌, ◌≡◌, refl,
  true, false, ok, err, Bool-cases, inl, inr, arith, u16_max,
}
use miya_api.Protocol.Request.{NormalizedRequest}
use miya_api.Provider.{ProviderResponse}
use miya_api.Kernel.Policy.{KernelPolicy}
use miya_api.Kernel.Planner.{planner_coverage, should_repair_orchestration_plan}
use miya_api.Kernel.Planner.Reconcile.{reconcile_total, reconcile_idle}
use miya_api.Kernel.Runner.{Run, ModelProvider, Prompts}
use miya_api.Kernel.Planning.{
  repair_plan, draft_plan, fill_plan, accept_plan, choose_plan, first_request, repair_request, cut,
  rejection,
}
use miya_api.Kernel.Planner.Coverage.{saw_plan-planner_coverage, normalize-child_count}
use miya_api.Kernel.Runner.Calls.{continue-ask, told}

-- A plan that needs no repair, where there is a number to reach.
abbrev pub Exact : KernelPolicy → ProviderResponse → Type 0
Exact policy r =
    ((planner_coverage r).saw_plan ≡ true)
    × ((planner_coverage r).child_count ≡ policy.limits.max_agents_per_request)

module _ (policy : KernelPolicy) (some_children : 1 < policy.limits.max_agents_per_request) where
  Exact-should_repair :
      (r : ProviderResponse)
      → Exact policy r
      → should_repair_orchestration_plan (planner_coverage r) policy ≡ false
  unfolding should_repair_orchestration_plan
  Exact-should_repair r (saw, count) = ground arith

  short-should_repair :
      (r : ProviderResponse)
      → (planner_coverage r).child_count < policy.limits.max_agents_per_request
      → should_repair_orchestration_plan (planner_coverage r) policy ≡ true
  unfolding should_repair_orchestration_plan
  short-should_repair r short = ground arith

  abbrev Bounded : ProviderResponse → Type 0
  Bounded r = (planner_coverage r).child_count ≤ policy.limits.max_agents_per_request

module _ (model : ModelProvider) (prompts : Prompts) (policy : KernelPolicy)
    (request : NormalizedRequest) (small : policy.limits.max_agents_per_request ≤ u16_max)
    (some_children : 1 < policy.limits.max_agents_per_request) where
  -- No draft plans more children than configured: each answer is cut.
  cut-Bounded : (r : ProviderResponse) → Bounded policy some_children (cut policy r)
  cut-Bounded r = omega (arith, normalize-child_count r policy (omega arith))

  repair_plan-Bounded :
      (left attempt : ℕ) (response : ProviderResponse) (run : Run)
      → Bounded policy some_children response
      → OnOk
          (Bounded policy some_children)
          (repair_plan model prompts policy request left attempt response run).0
  unfolding repair_plan
  repair_plan-Bounded zero attempt response run bound = bound
  repair_plan-Bounded (suc left) attempt response run bound =
      elim (Bool-cases (should_repair_orchestration_plan (planner_coverage response) policy)) [
        | inr stop ↦ rw stop bound
        | inl go ↦ rw go (
            continue-ask model (cut policy)
              (repair_request model prompts policy request attempt response) run
              (λ x. OnOk (Bounded policy some_children) x.0)
              (repair_plan model prompts policy request left (attempt + 1)) (λ e. tt)
              (λ r h.
                repair_plan-Bounded left (attempt + 1) (cut policy r)
                  (told model (cut policy)
                    (repair_request model prompts policy request attempt response) run r)
                  (cut-Bounded r)))
      ]

  draft_plan-Bounded :
      (run : Run)
      → OnOk (Bounded policy some_children) (draft_plan model prompts policy request run).0
  unfolding draft_plan
  draft_plan-Bounded run =
      continue-ask model (cut policy) (first_request model prompts policy request) run
        (λ x. OnOk (Bounded policy some_children) x.0)
        (repair_plan model prompts policy request 3 1) (λ e. tt)
        (λ r h.
          repair_plan-Bounded 3 1 (cut policy r)
            (told model (cut policy) (first_request model prompts policy request) run r)
            (cut-Bounded r))

  fill_plan_total :
      (r : ProviderResponse)
      → Bounded policy some_children r
      → 0 < (planner_coverage r).child_count
      → (r' : ProviderResponse) × (fill_plan model prompts policy request r
          ≡ (r', policy.limits.max_agents_per_request - (planner_coverage r).child_count))
        × Exact policy r'
  unfolding fill_plan
  fill_plan_total r bound some_child =
      elim (lt_or_ge (planner_coverage r).child_count policy.limits.max_agents_per_request) [
        | inl short ↦
            let (r', filled, exact) = reconcile_total r policy some_child short small in
            (
              r',
              rw (short-should_repair policy some_children r short, filled) refl,
              (saw_plan-planner_coverage r' (omega (arith, exact)), exact),
            )
        | inr enough ↦
            let exact : Exact policy r = (saw_plan-planner_coverage r some_child, omega arith) in
            (
              r,
              rw (Exact-should_repair policy some_children r exact)
                  (ap (λ n. (r, n)) (omega arith)),
              exact,
            )
      ]

  fill_plan_idle :
      (r : ProviderResponse)
      → (planner_coverage r).child_count ≡ 0
      → fill_plan model prompts policy request r ≡ (r, 0)
  unfolding fill_plan
  fill_plan_idle r none_planned =
      rw
        (
          short-should_repair policy some_children r (omega arith),
          reconcile_idle r policy (inl none_planned),
        )
        refl

  -- the phase's result, from the last draft
  choose_plan-draft :
      (run : Run) (draft : ProviderResponse)
      → (draft_plan model prompts policy request run).0 ≡ ok draft
      → (choose_plan model prompts policy request run).0
        ≡ accept_plan model prompts policy request (fill_plan model prompts policy request draft)
  unfolding choose_plan
  choose_plan-draft run draft h =
      continue_value (draft_plan model prompts policy request run)
        (λ r. accept_plan model prompts policy request (fill_plan model prompts policy request r)) h

  -- A last draft without any child is refused: there is no run with the root agent alone.
  pub choose_plan_refuses :
      (run : Run) (draft : ProviderResponse)
      → (draft_plan model prompts policy request run).0 ≡ ok draft
      → (planner_coverage draft).child_count ≡ 0
      → (choose_plan model prompts policy request run).0
        ≡ err (rejection model prompts policy request draft)
  unfolding accept_plan
  choose_plan_refuses run draft h none_planned =
      choose_plan-draft run draft h
      ∙ rw (fill_plan_idle draft none_planned)
          (rw (short-should_repair policy some_children draft (omega arith)) refl)

  -- A last draft with some child, after the repairs, is accepted: as it is or filled up, with the
  -- configured number of children and the number that was added.
  pub choose_plan_fills :
      (run : Run) (draft : ProviderResponse)
      → (draft_plan model prompts policy request run).0 ≡ ok draft
      → 0 < (planner_coverage draft).child_count
      → (r : ProviderResponse) × ((choose_plan model prompts policy request run).0
          ≡ ok (r, policy.limits.max_agents_per_request - (planner_coverage draft).child_count))
        × Exact policy r
  unfolding accept_plan
  choose_plan_fills run draft h some_child =
      let bound =
        OnOk-ok (Bounded policy some_children) (draft_plan model prompts policy request run).0 h
          (draft_plan-Bounded run) in
      let (r, filled, exact) = fill_plan_total draft bound some_child in
      (
        r,
        choose_plan-draft run draft h
            ∙ rw filled (rw (Exact-should_repair policy some_children r exact) refl),
        exact,
      )
