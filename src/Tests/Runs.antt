-- ===== src/Tests/Runs.antt =====
-- Runs of the planning, synthesis and verification phases with scripted answers.
use miya_api.Prelude.{
  ℕ, zero, suc, ◌+◌, ◌<◌, ◌-◌, ◌=?◌, text_ord, two_digits, cmp_pair, if◌then◌else◌, ◌≡◌, refl, true,
  false, String, Option, none, some, [], ◌∷◌, ok, err, OnOk, arith, is_blank,
}
use miya_api.Protocol.Limits.{ReasoningEffort}
use miya_api.Protocol.Json.{Value}
use miya_api.Protocol.Artifacts.{AgentArtifact}
use miya_api.Protocol.Request.{NormalizedRequest, isolation_key}
use miya_api.Provider.{ProviderRequest, ProviderResponse, default_usage}
use miya_api.Kernel.Planner.{
  planner_coverage, should_repair_orchestration_plan, normalize_over_target_orchestration_plans,
}
use miya_api.Kernel.Runner.{
  Run, ModelProvider, Prompts, answered, ask, invoke_provider, reply_result, synthesize_text,
  internal_request,
}
use miya_api.Kernel.Planner.{reconcile_under_target_orchestration_plan}
use miya_api.Kernel.Responses.{apply_spawn_plan_response}
use miya_api.Kernel.ToolLedger.{call_count}
use miya_api.Kernel.ArtifactStore.{contains_ref}
use miya_api.Kernel.SpawnValidator.{agent_count, validate_and_apply}
use miya_api.BTreeMap.{get}
use miya_api.Protocol.Ids.{cmp_key}
use miya_api.Kernel.Responses.Limits.{WithinLimits}
use miya_api.Kernel.Planning.Outcomes.{orchestrate-WithinLimits}
use miya_api.Kernel.Planning.{orchestrate, plan_reconciled, draft_plan, choose_plan}
use miya_api.Kernel.Planning.Exact.{Exact, choose_plan_fills}
use miya_api.Kernel.Verification.{
  SemanticVerdict, semantic_verdict_from_artifacts, run_semantic_verification,
}
use miya_api.Kernel.Verification.Verdicts.{Sound, run_semantic_verification-Sound}
use miya_api.Kernel.Synthesis.{final_synthesis, no_final_text, synthesis_recovered, recovery}
use miya_api.Kernel.Synthesis.Retries.{Answer, Blank, final_synthesis-Answer, final_synthesis-blank}
use miya_api.Tests.Samples.{child, root, planned, policy, response, request, working, here}
use miya_api.Tests.Planning.{three_agents}

abbrev pub prompts : Prompts
prompts = record {
  flatten_text = λ _. "hi";
  system_instructions = λ _ _. [];
  planner_provider_options = λ options _. options;
  planner_input = λ _ _. "plan";
  planner_repair_input = λ _ _ _ _. "plan again";
  child_agent_input = λ _ task. task.objective;
  internal_agent_options = λ options _. options;
  min_output_options = λ options _. options;
  verifier_input = λ _ _ text. text;
  repair_input = λ _ _ text _. text;
  synthesis_input = λ _ _. "answer";
  error_text = λ _. "error";
  layout = λ text. text;
}

abbrev pub asked : NormalizedRequest
asked = request ReasoningEffort.low Value.null

abbrev pub start : Run
start = record {
  working = working;
  usage = default_usage;
  provider_call_count = 0;
  trace_events = [];
  encrypted_subagent_state = [];
  invocations = 0;
}

abbrev pub says : String → ProviderResponse
says t = response (AgentArtifact.text "t" here t ∷ []) []

-- no child in the first two answers, one after that
abbrev slow_planner : ModelProvider
slow_planner zero _ = answered (planned [])
slow_planner (suc zero) _ = answered (says "no plan")
slow_planner (suc (suc n)) _ = answered (planned (child "a" ∷ []))

one_child : 0 < (planner_coverage (planned (child "a" ∷ []))).child_count
unfolding planner_coverage
one_child = omega arith

no_child : (planner_coverage (says "no plan")).child_count ≡ 0
unfolding planner_coverage
no_child = refl

drafted :
    (draft_plan slow_planner prompts three_agents asked start).0 ≡ ok (planned (child "a" ∷ []))
unfolding draft_plan planner_coverage should_repair_orchestration_plan ask invoke_provider
    reply_result normalize_over_target_orchestration_plans
drafted = refl

choose_plan_fills_example :
    (r : ProviderResponse) × ((choose_plan slow_planner prompts three_agents asked start).0
      ≡ ok (r, 3 - (planner_coverage (planned (child "a" ∷ []))).child_count))
    × Exact three_agents r
choose_plan_fills_example =
    choose_plan_fills slow_planner prompts three_agents asked (omega arith) (omega arith) start
      (planned (child "a" ∷ [])) drafted one_child

abbrev idle_planner : ModelProvider
idle_planner _ _ = answered (says "no plan")

idle_draft : (draft_plan idle_planner prompts three_agents asked start).0 ≡ ok (says "no plan")
unfolding draft_plan planner_coverage should_repair_orchestration_plan ask invoke_provider
    reply_result normalize_over_target_orchestration_plans
idle_draft = refl

abbrev verdict : String → Option SemanticVerdict
verdict t =
    if t =? "yes"
    then some (record { passed = true; issues = []; covered_artifact_ids = [] })
    else if t =? "no"
    then some (record { passed = false; issues = []; covered_artifact_ids = [] })
    else none

-- the verifier rejects, a repair is made, the verifier accepts
abbrev strict_verifier : ModelProvider
strict_verifier zero _ = answered (says "no")
strict_verifier (suc zero) _ = answered (says "better")
strict_verifier (suc (suc n)) _ = answered (says "yes")

run_semantic_verification-Sound_example :
    Sound verdict strict_verifier prompts policy asked []
      (run_semantic_verification verdict strict_verifier prompts policy asked [] "draft" start).0
run_semantic_verification-Sound_example =
    run_semantic_verification-Sound verdict strict_verifier prompts policy asked [] "draft" start

approved :
    (run_semantic_verification verdict strict_verifier prompts policy asked [] "draft" start).0
    ≡ record { final_text = "better"; passed = true; issues = []; covered_artifact_ids = [] }
unfolding run_semantic_verification ask semantic_verdict_from_artifacts is_blank synthesize_text
approved = refl

-- blank at first
abbrev slow_synthesizer : ModelProvider
slow_synthesizer zero _ = answered (says " ")
slow_synthesizer (suc n) _ = answered (says "done")

abbrev silent : ModelProvider
silent _ _ = answered (says "")

final_synthesis-Answer_example :
    OnOk
      (λ (text, issue).
        (attempt : ℕ) × Answer slow_synthesizer prompts policy asked [] (text, attempt)
        × (ok (text, issue) ≡ recovery (text, attempt)))
      (final_synthesis slow_synthesizer prompts policy asked [] start).0
final_synthesis-Answer_example =
    final_synthesis-Answer slow_synthesizer prompts policy asked [] start

recovered :
    (final_synthesis slow_synthesizer prompts policy asked [] start).0
    ≡ ok ("done", some (synthesis_recovered 1))
unfolding final_synthesis ask is_blank synthesize_text
recovered = refl

silence : Blank silent prompts policy asked []
unfolding is_blank synthesize_text
silence n attempt = (says "", refl, refl)

final_synthesis-blank_example :
    ((final_synthesis silent prompts policy asked [] start).0 ≡ err (no_final_text 3))
    × ((final_synthesis silent prompts policy asked [] start).1.invocations ≡ 0 + 3)
final_synthesis-blank_example = final_synthesis-blank silent prompts policy asked [] start silence

-- a request to the root agent
abbrev pub ask_root : ProviderRequest
ask_root = internal_request prompts policy asked root "hi" [] Value.null

in_limits : WithinLimits three_agents working
unfolding call_count agent_count
in_limits = record { calls = omega arith; agents = omega arith }

orchestrate-WithinLimits_example :
    WithinLimits three_agents (orchestrate slow_planner prompts three_agents asked start).1.working
orchestrate-WithinLimits_example =
    orchestrate-WithinLimits slow_planner prompts three_agents asked (omega arith) start in_limits

filled_up :
    (orchestrate slow_planner prompts three_agents asked start).0 ≡ ok (some (plan_reconciled 2))
unfolding orchestrate ask should_repair_orchestration_plan planner_coverage
    normalize_over_target_orchestration_plans reconcile_under_target_orchestration_plan two_digits
    apply_spawn_plan_response validate_and_apply get cmp_key isolation_key contains_ref cmp_pair
filled_up = refl
