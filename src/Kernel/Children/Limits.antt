-- ===== src/Kernel/Children/Limits.antt =====
-- The limits of a request hold through the children's phase.
use miya_api.Prelude.{
  ℕ, ◌+◌, ◌<◌, String, Option, List, [], ◌∷◌, map, length, u16_max, usize_max, continue_inv, lift,
}
use miya_api.Protocol.Ids.{IsolationKey}
use miya_api.Protocol.Tasks.{SubtaskSpec, SpawnPlan}
use miya_api.Protocol.Request.{NormalizedRequest, isolation_key}
use miya_api.Provider.{ProviderResponse}
use miya_api.Kernel.Policy.{KernelPolicy}
use miya_api.Kernel.Responses.Limits.{WithinLimits, apply_provider_response-WithinLimits}
use miya_api.Kernel.Runner.{Run, Reply, Prompts, accumulate_usage}
use miya_api.Kernel.Children.{
  ChildRequest, ChildResult, collect_results, sort_by_index, child_result, seal_subagent_state,
  note_child, apply_child, apply_children, run_children,
}

module _ (prompts : Prompts) (policy : KernelPolicy) (request : NormalizedRequest)
    (encrypt : ℕ
      → IsolationKey
      → SubtaskSpec
      → ProviderResponse
      → String
      → Option (String × String))
    (plan_text : SpawnPlan → Option String) (small : policy.limits.max_agents_per_request < u16_max)
    (budget : policy.limits.max_total_tool_calls < usize_max) where
  abbrev Within : Run → Type 0
  Within run = WithinLimits policy run.working

  apply_child-WithinLimits :
      (r : ChildResult) (run : Run)
      → Within run
      → Within (apply_child prompts policy request encrypt plan_text r run).1
  unfolding apply_child accumulate_usage
  apply_child-WithinLimits r run h =
      let noted = note_child prompts policy request encrypt plan_text r run in
      continue_inv Within
        (lift
          (seal_subagent_state prompts policy request encrypt plan_text
            (length noted.encrypted_subagent_state) r.child.request.task r.response)
          noted)
        _ h
        (λ sealed run' h'.
          apply_provider_response-WithinLimits plan_text policy (isolation_key request) small
            r.child.request.task r.response run'.working h' budget)

  apply_children-WithinLimits :
      (results : List ChildResult) (run : Run)
      → Within run
      → Within (apply_children prompts policy request encrypt plan_text results run).1
  unfolding apply_children
  apply_children-WithinLimits [] run h = h
  apply_children-WithinLimits (r ∷ rest) run h =
      continue_inv Within (apply_child prompts policy request encrypt plan_text r run) _
        (apply_child-WithinLimits r run h) (λ _ run' h'. apply_children-WithinLimits rest run' h')

  -- Whatever the children answer, in whatever order, and whether the phase succeeds or not: the tool
  -- calls recorded stay within the request's budget and the child agents within its limit, if these
  -- are below the greatest `usize` and `u16`.
  pub run_children-WithinLimits :
      (reply : ChildRequest → Reply) (completed : List ChildRequest) (run : Run)
      → WithinLimits policy run.working
      → WithinLimits policy
          (run_children prompts policy request encrypt plan_text reply completed run).1.working
  unfolding run_children
  run_children-WithinLimits reply completed run h =
      continue_inv Within
        (lift (collect_results (map (child_result prompts policy request reply) completed))
          (record run { invocations = run.invocations + length completed }))
        _ h (λ results run' h'. apply_children-WithinLimits (sort_by_index results) run' h')
