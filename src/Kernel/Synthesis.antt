-- ===== src/Kernel/Synthesis.antt =====
-- The final synthesis of `run_inner` in crates/agent-kernel/src/lib.rs: the synthesizer is asked
-- again while its completion has no text.
pub mod Retries
use Prim.Native.String.{◌++◌ as concat}
use miya_api.Prelude.{
  ℕ, zero, suc, ◌+◌, ◌==◌, Bool, true, false, String, Option, none, some, List, [], ◌∷◌, is_blank,
  decimal, saturating_add, usize_max, Result, ok, err, Method, continue, if◌then◌else◌,
}
use miya_api.Protocol.Ids.{TaskId}
use miya_api.Protocol.Tasks.{SubtaskSpec, AgentRole, ArtifactKind, Capability}
use miya_api.Protocol.Artifacts.{AgentArtifact, VerificationIssue}
use miya_api.Protocol.Request.{NormalizedRequest}
use miya_api.Provider.{ProviderRequest, ProviderResponse, invalid_response}
use miya_api.Kernel.Error.{KernelError, provider, max_empty_synthesis_retry_attempts}
use miya_api.Kernel.Policy.{KernelPolicy}
use miya_api.Kernel.Runner.{Run, ModelProvider, Prompts, ask, synthesize_text, internal_request}
use miya_api.Kernel.Verification.{insert_run_task, internal_task}

unfoldable pub empty_synthesis_retry_input : String → ℕ → String
empty_synthesis_retry_input base_input attempt = concat base_input (
    concat "\n\nThe previous final-synthesis completion returned no final text. Retry " (
      concat (decimal attempt) (
        concat "/" (
          concat (decimal max_empty_synthesis_retry_attempts)
            ": produce a non-empty final answer now while preserving the exact same model settings, output limit, reasoning mode, evidence, and user constraints. Do not discuss this retry or expose hidden reasoning."))))

unfoldable pub no_final_text : ℕ → KernelError
no_final_text attempts = provider (
    invalid_response "orchestration_synthesizer" (
      concat "model returned no final text after "
        (concat (decimal attempts) " synthesis attempts")))

abbrev pub synthesis_recovered : ℕ → VerificationIssue
synthesis_recovered attempt = record {
  code = "empty_synthesis_recovered";
  message = concat "final synthesis produced text after " (
      concat (decimal attempt)
        " bounded empty-completion retry attempt(s) with unchanged model settings");
}

-- The final text, and the issue of the report if it took a retry.
abbrev pub recovery : String × ℕ → Result KernelError (String × Option VerificationIssue)
recovery (text, attempt) =
    ok (text, if attempt == 0 then none else some (synthesis_recovered attempt))

module _ (model : ModelProvider) (prompts : Prompts) (policy : KernelPolicy)
    (request : NormalizedRequest) (findings : List AgentArtifact) where
  unfoldable pub synth_task : ℕ → SubtaskSpec
  synth_task attempt =
      if attempt == 0
      then internal_task policy "synthesizer" AgentRole.synthesizer
          "synthesize a natural final answer for the user" ArtifactKind.text (Capability.text ∷ [])
      else internal_task policy (concat "synthesizer-empty-retry-" (decimal attempt))
          AgentRole.synthesizer
          "retry final synthesis after an empty model completion while preserving every user constraint"
          ArtifactKind.text (Capability.text ∷ [])

  unfoldable pub synth_input : ℕ → String
  unfolding empty_synthesis_retry_input
  synth_input attempt =
      if attempt == 0
      then prompts.synthesis_input request findings
      else empty_synthesis_retry_input (prompts.synthesis_input request findings) attempt

  abbrev pub synth_request : ℕ → ProviderRequest
  synth_request attempt =
      internal_request prompts policy request (synth_task attempt) (synth_input attempt) []
        request.provider_options

  abbrev pub synth_call : ℕ → Method Run KernelError ProviderResponse
  synth_call attempt run =
      ask model (λ r. r) (synth_request attempt) (insert_run_task (synth_task attempt) run)

  -- The text and the number of retries; `left` is how many retries are still allowed.
  unfoldable pub synthesize_final : ℕ → ℕ → Method Run KernelError (String × ℕ)
  unfolding synth_task synth_input no_final_text
  synthesize_final zero attempt run = continue (synth_call attempt run) (λ response run'.
      if is_blank (synthesize_text response.artifacts)
      then (err (no_final_text (attempt + 1)), run')
      else (ok (synthesize_text response.artifacts, attempt), run'))
  synthesize_final (suc left) attempt run = continue (synth_call attempt run) (λ response run'.
      elim (is_blank (synthesize_text response.artifacts)) [
        | true ↦ synthesize_final left (saturating_add usize_max attempt 1) run'
        | false ↦ (ok (synthesize_text response.artifacts, attempt), run')
      ])

  unfoldable pub final_synthesis : Method Run KernelError (String × Option VerificationIssue)
  unfolding synthesize_final
  final_synthesis run =
      continue (synthesize_final max_empty_synthesis_retry_attempts 0 run)
        (λ answer run'. (recovery answer, run'))
