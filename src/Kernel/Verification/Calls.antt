-- ===== src/Kernel/Verification/Calls.antt =====
-- How many calls the semantic verification makes.
use miya_api.Prelude.{
  ℕ, zero, suc, ◌+◌, ◌*◌, ◌≤◌, ◌≡◌, refl, ap, ◌∙◌, String, Option, List, saturating_add, u8_max,
  Result, ok, err, arith,
}
use miya_api.Protocol.Artifacts.{AgentArtifact, VerificationIssue}
use miya_api.Protocol.Request.{NormalizedRequest}
use miya_api.Provider.{ProviderRequest, ProviderResponse}
use miya_api.Kernel.Error.{KernelError}
use miya_api.Kernel.Policy.{KernelPolicy}
use miya_api.Kernel.Runner.{Run, ModelProvider, Prompts, ask}
use miya_api.Kernel.Runner.Calls.{ask-elim, told-invocations}
use miya_api.Kernel.Verification.{
  SemanticVerdict, SemanticVerificationResult, judged, repaired, verifier_call, repair_call, verify,
  run_semantic_verification, verifier_request, repair_request, verifier_task, repair_task,
  insert_run_task,
}
use miya_api.Kernel.Verification.Verdicts.{Ends, proceed-Ends}

-- The parts after a call keep the state that the call left.
module _ (parse_verdict : String → Option SemanticVerdict) (model : ModelProvider)
    (prompts : Prompts) (policy : KernelPolicy) (request : NormalizedRequest)
    (evidence : List AgentArtifact) where
  judged_state :
      (candidate : String) (x : Result KernelError ProviderResponse × Run)
      → (judged parse_verdict model prompts policy request evidence candidate x).1 ≡ x.1
  unfolding judged
  judged_state candidate (ok response, run) = refl
  judged_state candidate (err e, run) = refl

  repaired_state :
      (candidate : String) (rejected : List VerificationIssue × List String)
      (x : Result KernelError ProviderResponse × Run)
      → (repaired parse_verdict model prompts policy request evidence candidate rejected x).1 ≡ x.1
  unfolding repaired
  repaired_state candidate rejected (ok response, run) = refl
  repaired_state candidate rejected (err e, run) = refl

-- A call counts once.
ask-invocations :
    (model : ModelProvider) (f : ProviderResponse → ProviderResponse) (request : ProviderRequest)
    (run : Run)
    → (ask model f request run).1.invocations ≡ run.invocations + 1
ask-invocations model f request run =
    ask-elim model f request run (λ x. x.1.invocations ≡ run.invocations + 1) (λ e. refl)
      (λ r _. told-invocations model f request run r)

-- A bound of the calls at both ends of a part.
Ends-invocations :
    {A : Type 0} (m n : ℕ) (x : Result SemanticVerificationResult A × Run)
    → x.1.invocations ≤ m
    → m ≤ n
    → Ends (λ y. y.1.invocations ≤ n) (λ _ run. run.invocations ≤ m) x
Ends-invocations m n (ok a, run) h k = h
Ends-invocations m n (err result, run) h k = omega arith

module _ (parse_verdict : String → Option SemanticVerdict) (model : ModelProvider)
    (prompts : Prompts) (policy : KernelPolicy) (request : NormalizedRequest)
    (evidence : List AgentArtifact) where
  judged_calls :
      (repair_attempts : ℕ) (candidate : String) (run : Run)
      → (judged parse_verdict model prompts policy request evidence candidate (
          verifier_call parse_verdict model prompts policy request evidence repair_attempts
            candidate run)).1.invocations
        ≡ run.invocations + 1
  judged_calls repair_attempts candidate run =
      ap (λ (r : Run). r.invocations)
        (judged_state parse_verdict model prompts policy request evidence candidate (
          verifier_call parse_verdict model prompts policy request evidence repair_attempts
            candidate run))
      ∙ ask-invocations model (λ r. r)
          (verifier_request parse_verdict model prompts policy request evidence candidate
            repair_attempts)
          (insert_run_task
            (verifier_task parse_verdict model prompts policy request evidence repair_attempts) run)

  repaired_calls :
      (next : ℕ) (candidate : String) (rejected : List VerificationIssue × List String) (run : Run)
      → (repaired parse_verdict model prompts policy request evidence candidate rejected (
          repair_call parse_verdict model prompts policy request evidence next candidate rejected.0
            run)).1.invocations
        ≡ run.invocations + 1
  repaired_calls next candidate rejected run =
      ap (λ (r : Run). r.invocations)
        (repaired_state parse_verdict model prompts policy request evidence candidate rejected (
          repair_call parse_verdict model prompts policy request evidence next candidate rejected.0
            run))
      ∙ ask-invocations model (λ r. r)
          (repair_request parse_verdict model prompts policy request evidence candidate next
            rejected.0)
          (insert_run_task (repair_task parse_verdict model prompts policy request evidence next)
            run)

  verify_calls :
      (left repair_attempts : ℕ) (candidate : String) (run : Run)
      → (verify parse_verdict model prompts policy request evidence left repair_attempts candidate
          run).1.invocations
        ≤ run.invocations + (2 * left + 1)
  unfolding verify
  verify_calls zero repair_attempts candidate run =
      proceed-Ends (λ y. y.1.invocations ≤ run.invocations + (2 * 0 + 1))
        (λ _ run'. run'.invocations ≤ run.invocations + 1)
        (judged parse_verdict model prompts policy request evidence candidate (
          verifier_call parse_verdict model prompts policy request evidence repair_attempts
            candidate run))
        _
        (Ends-invocations (run.invocations + 1) _ _
          (omega (arith, judged_calls repair_attempts candidate run)) (omega arith))
        (λ rejected run' h. h)
  verify_calls (suc left) repair_attempts candidate run =
      let next = saturating_add u8_max repair_attempts 1 in
      proceed-Ends (λ y. y.1.invocations ≤ run.invocations + (2 * suc left + 1))
        (λ _ run'. run'.invocations ≤ run.invocations + 1)
        (judged parse_verdict model prompts policy request evidence candidate (
          verifier_call parse_verdict model prompts policy request evidence repair_attempts
            candidate run))
        _
        (Ends-invocations (run.invocations + 1) _ _
          (omega (arith, judged_calls repair_attempts candidate run)) (omega arith))
        (λ rejected run' h.
          proceed-Ends (λ y. y.1.invocations ≤ run.invocations + (2 * suc left + 1))
            (λ _ run''. run''.invocations ≤ run.invocations + 2)
            (repaired parse_verdict model prompts policy request evidence candidate rejected (
              repair_call parse_verdict model prompts policy request evidence next candidate
                rejected.0 run'))
            _
            (Ends-invocations (run.invocations + 2) _ _
              (omega (arith, repaired_calls next candidate rejected run')) (omega arith))
            (λ next_candidate run'' h'. omega (arith, verify_calls left next next_candidate run'')))

  -- The verification makes one call, and at most two more for each repair that the policy allows.
  pub run_semantic_verification_calls :
      (candidate : String) (run : Run)
      → (run_semantic_verification parse_verdict model prompts policy request evidence candidate
          run).1.invocations
        ≤ run.invocations + (2 * policy.semantic_verification.max_repair_attempts + 1)
  unfolding run_semantic_verification
  run_semantic_verification_calls = verify_calls policy.semantic_verification.max_repair_attempts 0
