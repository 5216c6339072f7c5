-- ===== src/Kernel/Synthesis/Retries.antt =====
-- The retries of the final synthesis: how many there are, and what they end with.
use miya_api.Prelude.{
  ℕ, zero, suc, ◌+◌, ◌≤◌, ◌≡◌, refl, ap, ◌∙◌, true, false, String, List, OnOk, OnOk-continue,
  continue_state, continue_error, ◌<◌, is_blank, saturating_add, usize_max, Result, ok, err,
  continue, Bool-cases, inl, inr, arith,
}
use miya_api.Protocol.Artifacts.{AgentArtifact}
use miya_api.Protocol.Request.{NormalizedRequest}
use miya_api.Provider.{ProviderResponse}
use miya_api.Kernel.Error.{KernelError}
use miya_api.Kernel.Policy.{KernelPolicy}
use miya_api.Kernel.Runner.{Run, ModelProvider, Prompts, answered, synthesize_text}
use miya_api.Kernel.Runner.Calls.{continue-ask, ask-answered, told, told-invocations}
use miya_api.Kernel.Verification.{insert_run_task}
use miya_api.Kernel.Synthesis.{
  synth_task, synth_request, synth_call, synthesize_final, no_final_text, final_synthesis, recovery,
}

module _ (model : ModelProvider) (prompts : Prompts) (policy : KernelPolicy)
    (request : NormalizedRequest) (findings : List AgentArtifact) where
  -- A text that is not blank and was answered to the synthesizer in its attempt with this number.
  abbrev pub Answer : String × ℕ → Type 0
  Answer (text, attempt) =
      (is_blank text ≡ false)
      × ((n : ℕ) × (response : ProviderResponse) × (model n
              (synth_request model prompts policy request findings attempt)
            ≡ answered response)
          × (text ≡ synthesize_text response.artifacts))

  synthesize_final-Answer :
      (left attempt : ℕ) (run : Run)
      → OnOk Answer (synthesize_final model prompts policy request findings left attempt run).0
  unfolding synthesize_final
  synthesize_final-Answer zero attempt run =
      continue-ask model (λ r. r) (synth_request model prompts policy request findings attempt)
        (insert_run_task (synth_task model prompts policy request findings attempt) run)
        (λ x. OnOk Answer x.0) _ (λ e. tt)
        (λ r h. elim (Bool-cases (is_blank (synthesize_text r.artifacts))) [
          | inl blank ↦ rw blank tt
          | inr text ↦ rw text (text, (run.invocations, r, h, refl))
        ])
  synthesize_final-Answer (suc left) attempt run =
      continue-ask model (λ r. r) (synth_request model prompts policy request findings attempt)
        (insert_run_task (synth_task model prompts policy request findings attempt) run)
        (λ x. OnOk Answer x.0) _ (λ e. tt)
        (λ r h. elim (Bool-cases (is_blank (synthesize_text r.artifacts))) [
          | inl blank ↦
              rw blank (synthesize_final-Answer left (saturating_add usize_max attempt 1) _)
          | inr text ↦ rw text (text, (run.invocations, r, h, refl))
        ])

  -- Where the synthesis succeeds, its text is not blank and is that of an answer of the provider to
  -- one of the attempts, with the issue that goes with the number of
  -- that attempt.
  pub final_synthesis-Answer :
      (run : Run)
      → OnOk
          (λ (text, issue).
            (attempt : ℕ) × Answer (text, attempt) × (ok (text, issue) ≡ recovery (text, attempt)))
          (final_synthesis model prompts policy request findings run).0
  unfolding final_synthesis
  final_synthesis-Answer run =
      OnOk-continue Answer _ (synthesize_final model prompts policy request findings 2 0 run) _
        (synthesize_final-Answer 2 0 run) (λ (text, attempt) _ answer. (attempt, answer, refl))

  -- the run after an answer to an attempt
  abbrev after : ℕ → Run → ProviderResponse → Run
  after attempt run r =
      told model (λ r'. r') (synth_request model prompts policy request findings attempt)
        (insert_run_task (synth_task model prompts policy request findings attempt) run) r

  after-invocations :
      (attempt : ℕ) (run : Run) (r : ProviderResponse)
      → (after attempt run r).invocations ≡ run.invocations + 1
  after-invocations attempt run r =
      told-invocations model (λ r'. r')
        (synth_request model prompts policy request findings attempt)
        (insert_run_task (synth_task model prompts policy request findings attempt) run) r

  synthesize_final_calls :
      (left attempt : ℕ) (run : Run)
      → (synthesize_final model prompts policy request findings left attempt run).1.invocations
        ≤ run.invocations + (left + 1)
  unfolding synthesize_final
  synthesize_final_calls zero attempt run =
      continue-ask model (λ r. r) (synth_request model prompts policy request findings attempt)
        (insert_run_task (synth_task model prompts policy request findings attempt) run)
        (λ x. x.1.invocations ≤ run.invocations + 1) _ (λ e. omega arith)
        (λ r h. elim (Bool-cases (is_blank (synthesize_text r.artifacts))) [
          | inl blank ↦ rw blank (omega (arith, after-invocations attempt run r))
          | inr text ↦ rw text (omega (arith, after-invocations attempt run r))
        ])
  synthesize_final_calls (suc left) attempt run =
      continue-ask model (λ r. r) (synth_request model prompts policy request findings attempt)
        (insert_run_task (synth_task model prompts policy request findings attempt) run)
        (λ x. x.1.invocations ≤ run.invocations + (suc left + 1)) _ (λ e. omega arith)
        (λ r h. elim (Bool-cases (is_blank (synthesize_text r.artifacts))) [
          | inl blank ↦ rw blank (
              omega (
                arith,
                after-invocations attempt run r,
                synthesize_final_calls left (saturating_add usize_max attempt 1)
                    (after attempt run r),
              ))
          | inr text ↦ rw text (omega (arith, after-invocations attempt run r))
        ])

  -- Every answer of the provider to the synthesizer is blank.
  abbrev pub Blank : Type 0
  Blank =
      (n attempt : ℕ)
      → (response : ProviderResponse) × (model n
            (synth_request model prompts policy request findings attempt)
          ≡ answered response)
        × (is_blank (synthesize_text response.artifacts) ≡ true)

  blank_call :
      (attempt : ℕ) (run : Run)
      → Blank
      → (r : ProviderResponse) × (is_blank (synthesize_text r.artifacts) ≡ true)
        × (synth_call model prompts policy request findings attempt run
            ≡ (ok r, after attempt run r))
  blank_call attempt run blank =
      let (r, h, text) = blank run.invocations attempt in
      (
        r,
        text,
        ask-answered model (λ r'. r') (synth_request model prompts policy request findings attempt)
            (insert_run_task (synth_task model prompts policy request findings attempt) run) r h,
      )

  synthesize_final-blank :
      (left attempt : ℕ) (run : Run)
      → attempt + left < usize_max
      → Blank
      → ((synthesize_final model prompts policy request findings left attempt run).0
          ≡ err (no_final_text (attempt + left + 1)))
        × ((synthesize_final model prompts policy request findings left attempt run).1.invocations
            ≡ run.invocations + (left + 1))
  unfolding synthesize_final
  synthesize_final-blank zero attempt run small blank =
      let (r, text, asked) = blank_call attempt run blank in
      rw asked (
        rw text (
          ap (λ n. err (no_final_text n)) (omega arith),
          omega (arith, after-invocations attempt run r),
        ))
  synthesize_final-blank (suc left) attempt run small blank =
      let (r, text, asked) = blank_call attempt run blank in
      let (answer, count) =
        synthesize_final-blank left (saturating_add usize_max attempt 1) (after attempt run r)
          (omega arith) blank in
      let number : saturating_add usize_max attempt 1 + left + 1 ≡ attempt + suc left + 1 =
        omega arith in
      rw asked (
        rw (text, continue)
          (
            answer ∙ ap (λ n. err (no_final_text n)) number,
            omega (arith, count, after-invocations attempt run r),
          ))

  module _ (run : Run) where
    abbrev tried : Result KernelError (String × ℕ) × Run
    tried = synthesize_final model prompts policy request findings 2 0 run

    -- the last step makes no call
    final_synthesis-invocations :
        (final_synthesis model prompts policy request findings run).1.invocations
        ≡ tried.1.invocations
    unfolding final_synthesis
    final_synthesis-invocations = ap (λ (r : Run). r.invocations) (continue_state tried recovery)

    -- The synthesis makes at most three calls.
    pub final_synthesis_calls :
        (final_synthesis model prompts policy request findings run).1.invocations
        ≤ run.invocations + 3
    final_synthesis_calls =
        omega (arith, final_synthesis-invocations, synthesize_final_calls 2 0 run)

    -- Where every answer to the synthesizer is blank, the synthesis makes three calls and fails with
    -- the error that says so.
    pub final_synthesis-blank :
        Blank
        → ((final_synthesis model prompts policy request findings run).0 ≡ err (no_final_text 3))
          × ((final_synthesis model prompts policy request findings run).1.invocations
              ≡ run.invocations + 3)
    unfolding final_synthesis
    final_synthesis-blank blank =
        let (answer, count) = synthesize_final-blank 2 0 run (omega arith) blank in
        (continue_error tried recovery answer, final_synthesis-invocations ∙ count)
