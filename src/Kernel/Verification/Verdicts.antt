-- ===== src/Kernel/Verification/Verdicts.antt =====
-- What the result of the semantic verification says of the answer, and how many calls it takes.
use miya_api.Prelude.{
  ℕ, zero, suc, ◌≡◌, refl, Bool, inl, inr, true, false, String, Option, some, List, [], ◌∷◌, ◌++◌,
  is_empty, is_blank, saturating_add, u8_max, Result, ok, err, Bool-cases, Option-cases,
}
use miya_api.Protocol.Artifacts.{AgentArtifact, VerificationIssue}
use miya_api.Protocol.Request.{NormalizedRequest}
use miya_api.Provider.{ProviderResponse}
use miya_api.Kernel.Policy.{KernelPolicy}
use miya_api.Kernel.Runner.{Run, ModelProvider, Prompts, answered, synthesize_text}
use miya_api.Kernel.Runner.Calls.{ask-elim}
use miya_api.Kernel.Verification.{
  SemanticVerdict, SemanticVerificationResult, proceed, failing, insert_run_task,
  semantic_verdict_from_response, verifier_task, repair_task, verifier_request, repair_request,
  issues_of, judge, judged, repaired, verifier_call, repair_call, verify, run_semantic_verification,
}

append-is_empty :
    (issues : List VerificationIssue) (i : VerificationIssue)
    → is_empty (issues ++ (i ∷ [])) ≡ false
append-is_empty [] i = refl
append-is_empty (j ∷ issues) i = refl

-- What holds at the two ends of a part: of the result it returns, or of what it hands on.
abbrev pub Ends :
    {A : Type 0}
    → (SemanticVerificationResult × Run → Type 0)
    → (A → Run → Type 0)
    → Result SemanticVerificationResult A × Run
    → Type 0
Ends E Q (err result, run) = E (result, run)
Ends E Q (ok a, run) = Q a run

pub proceed-Ends :
    {A : Type 0} (E : SemanticVerificationResult × Run → Type 0) (Q : A → Run → Type 0)
    (x : Result SemanticVerificationResult A × Run) (f : A → Run → SemanticVerificationResult × Run)
    → Ends E Q x
    → ((a : A) (run : Run) → Q a run → E (f a run))
    → E (proceed x f)
proceed-Ends E Q (err result, run) f h rest = h
proceed-Ends E Q (ok a, run) f h rest = rest a run h

module _ (parse_verdict : String → Option SemanticVerdict) (model : ModelProvider)
    (prompts : Prompts) (policy : KernelPolicy) (request : NormalizedRequest)
    (evidence : List AgentArtifact) where
  -- The verifier was asked about this text, and accepted it.
  abbrev pub Accepted : String → Type 0
  Accepted text =
      (n repair_attempts : ℕ) × (response : ProviderResponse) × (verdict : SemanticVerdict) × (model
          n
          (verifier_request parse_verdict model prompts policy request evidence text
            repair_attempts)
        ≡ answered response)
      × (semantic_verdict_from_response parse_verdict response ≡ some verdict)
      × (verdict.passed ≡ true)

  -- What a result says with each value of `passed`: an accepted text and no issue, or some issue.
  abbrev SoundAs : Bool → SemanticVerificationResult → Type 0
  SoundAs true result = Accepted result.final_text × (result.issues ≡ [])
  SoundAs false result = is_empty result.issues ≡ false

  abbrev pub Sound : SemanticVerificationResult → Type 0
  Sound result = SoundAs result.passed result

  abbrev SoundEnd : SemanticVerificationResult × Run → Type 0
  SoundEnd x = Sound x.0

  issues_of-is_empty :
      (verdict : SemanticVerdict)
      → is_empty (issues_of parse_verdict model prompts policy request evidence verdict) ≡ false
  unfolding issues_of
  issues_of-is_empty verdict = from verdict.issues refl
    where
      from :
          (issues : List VerificationIssue)
          → verdict.issues ≡ issues
          → is_empty (issues_of parse_verdict model prompts policy request evidence verdict) ≡ false
      from [] h = rw h refl
      from (i ∷ issues) h = rw h refl

  abbrev Rejected : List VerificationIssue × List String → Run → Type 0
  Rejected rejected run = is_empty rejected.0 ≡ false

  judge-Ends :
      (n repair_attempts : ℕ) (candidate : String) (response : ProviderResponse) (run : Run)
      → model n (
          verifier_request parse_verdict model prompts policy request evidence candidate
            repair_attempts)
        ≡ answered response
      → Ends SoundEnd Rejected (
        judge parse_verdict model prompts policy request evidence candidate
            (semantic_verdict_from_response parse_verdict response),
        run,
      )
  unfolding judge
  judge-Ends n repair_attempts candidate response run asked =
      elim (Option-cases (semantic_verdict_from_response parse_verdict response)) [
        | inl no_verdict ↦ rw no_verdict refl
        | inr (verdict, found) ↦ elim (Bool-cases verdict.passed) [
          | inl passed ↦
              rw (found, passed)
                ((n, repair_attempts, response, verdict, asked, found, passed), refl)
          | inr rejected ↦ rw (found, rejected) (issues_of-is_empty verdict)
        ]
      ]

  judged-Ends :
      (repair_attempts : ℕ) (candidate : String) (run : Run)
      → Ends SoundEnd Rejected (
          judged parse_verdict model prompts policy request evidence candidate (
            verifier_call parse_verdict model prompts policy request evidence repair_attempts
              candidate run))
  unfolding judged judge
  judged-Ends repair_attempts candidate run =
      ask-elim model (λ r. r)
        (verifier_request parse_verdict model prompts policy request evidence candidate
          repair_attempts)
        (insert_run_task
          (verifier_task parse_verdict model prompts policy request evidence repair_attempts) run)
        (λ x.
          Ends SoundEnd Rejected
            (judged parse_verdict model prompts policy request evidence candidate x))
        (λ e. refl)
        (λ response asked. judge-Ends run.invocations repair_attempts candidate response _ asked)

  repaired-Ends :
      (next : ℕ) (candidate : String) (rejected : List VerificationIssue × List String) (run : Run)
      → is_empty rejected.0 ≡ false
      → Ends SoundEnd
          (λ _ _. Unit {0})
          (repaired parse_verdict model prompts policy request evidence candidate rejected (
            repair_call parse_verdict model prompts policy request evidence next candidate
              rejected.0 run))
  unfolding repaired
  repaired-Ends next candidate rejected run some_issue =
      ask-elim model (λ r. r)
        (repair_request parse_verdict model prompts policy request evidence candidate next
          rejected.0)
        (insert_run_task (repair_task parse_verdict model prompts policy request evidence next) run)
        (λ x.
          Ends SoundEnd (λ _ _. Unit {0})
            (repaired parse_verdict model prompts policy request evidence candidate rejected x))
        (λ e. append-is_empty rejected.0 _)
        (λ response asked. elim (Bool-cases (is_blank (synthesize_text response.artifacts))) [
          | inl blank ↦ rw blank (append-is_empty rejected.0 _)
          | inr text ↦ rw text tt
        ])

  verify-Sound :
      (left repair_attempts : ℕ) (candidate : String) (run : Run)
      → Sound
          (verify parse_verdict model prompts policy request evidence left repair_attempts candidate
            run).0
  unfolding verify
  verify-Sound zero repair_attempts candidate run =
      proceed-Ends SoundEnd Rejected
        (judged parse_verdict model prompts policy request evidence candidate (
          verifier_call parse_verdict model prompts policy request evidence repair_attempts
            candidate run))
        (λ rejected run'. (failing candidate rejected.0 rejected.1, run'))
        (judged-Ends repair_attempts candidate run) (λ rejected run' h. h)
  verify-Sound (suc left) repair_attempts candidate run =
      proceed-Ends SoundEnd Rejected
        (judged parse_verdict model prompts policy request evidence candidate (
          verifier_call parse_verdict model prompts policy request evidence repair_attempts
            candidate run))
        _ (judged-Ends repair_attempts candidate run)
        (λ rejected run' h.
          proceed-Ends SoundEnd (λ _ _. Unit {0})
            (repaired parse_verdict model prompts policy request evidence candidate rejected (
              repair_call parse_verdict model prompts policy request evidence
                (saturating_add u8_max repair_attempts 1) candidate rejected.0 run'))
            _ (repaired-Ends (saturating_add u8_max repair_attempts 1) candidate rejected run' h)
            (λ next_candidate run'' _.
              verify-Sound left (saturating_add u8_max repair_attempts 1) next_candidate run''))

  -- A result that passed is of a text about which the verifier was asked and which it accepted, and
  -- it has no issue; a result that did not pass has some issue.
  pub run_semantic_verification-Sound :
      (candidate : String) (run : Run)
      → Sound
          (run_semantic_verification parse_verdict model prompts policy request evidence candidate
            run).0
  unfolding run_semantic_verification
  run_semantic_verification-Sound = verify-Sound policy.semantic_verification.max_repair_attempts 0
