-- ===== src/Kernel/Verification.antt =====
-- `run_semantic_verification` of crates/agent-kernel/src/lib.rs: a verifier judges the candidate
-- answer, which is repaired while it is rejected and repairs are left.
pub mod Verdicts
pub mod Calls
use Prim.Native.String.{◌++◌ as concat}
use miya_api.Prelude.{
  ℕ, zero, suc, ◌+◌, Bool, true, false, String, Option, none, some, List, [], ◌∷◌, ◌++◌, is_empty,
  is_blank, decimal, saturating_add, u8_max, Result, ok, err, if◌then◌else◌,
}
use miya_api.Protocol.Ids.{TaskId}
use miya_api.Protocol.Tasks.{
  SubtaskSpec, AgentRole, ArtifactKind, Capability, CapabilitySet, insert_task,
}
use miya_api.Protocol.Artifacts.{AgentArtifact, VerificationIssue}
use miya_api.Protocol.Request.{NormalizedRequest}
use miya_api.Provider.{ProviderRequest, ProviderResponse}
use miya_api.Kernel.Error.{KernelError}
use miya_api.Kernel.Policy.{KernelPolicy}
use miya_api.Kernel.Runner.{Run, ModelProvider, Prompts, ask, synthesize_text, internal_request}

pub record SemanticVerdict : Type 0 where
  pub passed : Bool
  pub issues : List VerificationIssue
  pub covered_artifact_ids : List String

-- The ids are a `BTreeSet` in the source: only membership is asked of them.
pub record SemanticVerificationResult : Type 0 where
  pub final_text : String
  pub passed : Bool
  pub issues : List VerificationIssue
  pub covered_artifact_ids : List String

abbrev pub insert_run_task : SubtaskSpec → Run → Run
insert_run_task task run = record run {
  working = record (run.working) { graph = insert_task run.working.graph task };
}

-- A task of an agent that the kernel itself adds beside the plan.
abbrev pub internal_task :
    KernelPolicy → TaskId → AgentRole → String → ArtifactKind → CapabilitySet → SubtaskSpec
internal_task policy i role objective kind capabilities = record {
  task_id = i;
  parent_task_id = some "root";
  spawn_depth = 0;
  role = role;
  objective = objective;
  input_artifact_refs = [];
  expected_outputs = kind ∷ [];
  allowed_capabilities = capabilities;
  limits = record {
    max_tokens = policy.limits.max_tokens_per_agent;
    max_tool_calls = 0;
    timeout_ms = policy.limits.agent_timeout_ms;
  };
}

-- What follows a part that may return early, by `err`.
abbrev pub proceed :
    {A : Type 0}
    → Result SemanticVerificationResult A × Run
    → (A → Run → SemanticVerificationResult × Run)
    → SemanticVerificationResult × Run
proceed (ok a, run) f = f a run
proceed (err result, run) f = (result, run)

abbrev pub issue : String → String → VerificationIssue
issue code message = record { code = code; message = message }

-- The result of a candidate that did not pass.
abbrev pub failing : String → List VerificationIssue → List String → SemanticVerificationResult
failing candidate issues covered = record {
  final_text = candidate;
  passed = false;
  issues = issues;
  covered_artifact_ids = covered;
}

abbrev pub passing : String → List String → SemanticVerificationResult
passing candidate covered = record {
  final_text = candidate;
  passed = true;
  issues = [];
  covered_artifact_ids = covered;
}

-- `parse_verdict` is `semantic_json_object_candidate` and serde_json's parser.
module _ (parse_verdict : String → Option SemanticVerdict) where
  -- `find_map` over the artifacts: the first text that holds a verdict
  unfoldable pub semantic_verdict_from_artifacts : List AgentArtifact → Option SemanticVerdict
  semantic_verdict_from_artifacts [] = none
  semantic_verdict_from_artifacts (AgentArtifact.text i s t ∷ rest) = elim (parse_verdict t) [
    | none ↦ semantic_verdict_from_artifacts rest
    | some v ↦ some v
  ]
  semantic_verdict_from_artifacts (a ∷ rest) = semantic_verdict_from_artifacts rest

  abbrev pub semantic_verdict_from_response : ProviderResponse → Option SemanticVerdict
  semantic_verdict_from_response response = semantic_verdict_from_artifacts response.artifacts

  module _ (model : ModelProvider) (prompts : Prompts) (policy : KernelPolicy)
      (request : NormalizedRequest) (evidence : List AgentArtifact) where
    unfoldable pub verifier_task : ℕ → SubtaskSpec
    verifier_task repair_attempts =
        internal_task policy (concat "semantic-verifier-" (decimal repair_attempts))
          AgentRole.verifier
          "independently verify the candidate answer against the user request and worker evidence"
          ArtifactKind.verification (Capability.text ∷ Capability.verify ∷ [])

    unfoldable pub repair_task : ℕ → SubtaskSpec
    repair_task repair_attempts =
        internal_task policy (concat "semantic-repair-" (decimal repair_attempts))
          AgentRole.synthesizer
          "repair the candidate answer using bounded verifier feedback and existing evidence"
          ArtifactKind.text (Capability.text ∷ [])

    abbrev pub verifier_request : String → ℕ → ProviderRequest
    verifier_request candidate repair_attempts =
        internal_request prompts policy request (verifier_task repair_attempts)
          (prompts.verifier_input request evidence candidate) evidence
          (prompts.min_output_options request.provider_options policy.limits.max_tokens_per_agent)

    abbrev pub repair_request : String → ℕ → List VerificationIssue → ProviderRequest
    repair_request candidate repair_attempts issues =
        internal_request prompts policy request (repair_task repair_attempts)
          (prompts.repair_input request evidence candidate issues) evidence request.provider_options

    -- A candidate that did not pass has at least one issue.
    unfoldable pub issues_of : SemanticVerdict → List VerificationIssue
    issues_of verdict =
        if is_empty verdict.issues
        then issue "semantic_verification_failed"
            "semantic verifier rejected the candidate without issue details"
          ∷ []
        else verdict.issues

    judge :
        String
        → Option SemanticVerdict
        → Result SemanticVerificationResult (List VerificationIssue × List String)
    unfolding issues_of
    judge candidate none = err (
        failing candidate
          (issue "invalid_semantic_verdict"
              "semantic verifier did not return the required JSON verdict"
            ∷ [])
          [])
    judge candidate (some verdict) =
        if verdict.passed
        then err (passing candidate verdict.covered_artifact_ids)
        else ok (issues_of verdict, verdict.covered_artifact_ids)

    -- After the verifier's call: `err` is an early return, `ok` has the issues and the ids covered
    -- of a candidate that was rejected.
    unfoldable pub judged :
        String
        → Result KernelError ProviderResponse × Run
        → Result SemanticVerificationResult (List VerificationIssue × List String) × Run
    unfolding judge
    judged candidate (err e, run) = (
      err (failing candidate (issue "semantic_verifier_error" (prompts.error_text e) ∷ []) []),
      run,
    )
    judged candidate (ok response, run) =
        (judge candidate (semantic_verdict_from_response response), run)

    -- After the repair's call: an early return, or the next candidate.
    unfoldable pub repaired :
        String
        → List VerificationIssue × List String
        → Result KernelError ProviderResponse × Run
        → Result SemanticVerificationResult String × Run
    repaired candidate (issues, covered) (err e, run) = (
      err (
          failing candidate (issues ++ (issue "semantic_repair_error" (prompts.error_text e) ∷ []))
            covered),
      run,
    )
    repaired candidate (issues, covered) (ok response, run) = (
      (if is_blank (synthesize_text response.artifacts)
          then err (
              failing candidate
                (issues
                  ++ (issue "empty_semantic_repair" "semantic repair returned no candidate answer"
                      ∷ []))
                covered)
          else ok (prompts.layout (synthesize_text response.artifacts))),
      run,
    )

    abbrev pub verifier_call : ℕ → String → Run → Result KernelError ProviderResponse × Run
    verifier_call repair_attempts candidate run =
        ask model (λ r. r) (verifier_request candidate repair_attempts)
          (insert_run_task (verifier_task repair_attempts) run)

    abbrev pub repair_call :
        ℕ → String → List VerificationIssue → Run → Result KernelError ProviderResponse × Run
    repair_call repair_attempts candidate issues run =
        ask model (λ r. r) (repair_request candidate repair_attempts issues)
          (insert_run_task (repair_task repair_attempts) run)

    -- `left` is how many repairs are still allowed: `max_repair_attempts - repair_attempts`.
    unfoldable pub verify : ℕ → ℕ → String → Run → SemanticVerificationResult × Run
    unfolding judged repaired verifier_task repair_task
    verify zero repair_attempts candidate run =
        proceed (judged candidate (verifier_call repair_attempts candidate run))
          (λ rejected run'. (failing candidate rejected.0 rejected.1, run'))
    verify (suc left) repair_attempts candidate run =
        let next = saturating_add u8_max repair_attempts 1 in
        proceed (judged candidate (verifier_call repair_attempts candidate run)) (λ rejected run'.
          proceed (repaired candidate rejected (repair_call next candidate rejected.0 run'))
            (verify left next))

    unfoldable pub run_semantic_verification : String → Run → SemanticVerificationResult × Run
    unfolding verify
    run_semantic_verification = verify policy.semantic_verification.max_repair_attempts 0
