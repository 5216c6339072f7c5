-- ===== src/Tests/Parallel.antt =====
-- Children whose calls end in another order than that of their tasks.
use mathlib.Core.List.{Permᴰ}
use miya_api.Prelude.{◌≡◌, refl, none, some, List, [], ◌∷◌, map, ok, err, arith}
use miya_api.Protocol.Tasks.{SubtaskSpec}
use miya_api.Provider.{rejected}
use miya_api.Kernel.Error.{KernelError, provider}
use miya_api.Kernel.Runner.{Reply, answered, failed, reply_result}
use miya_api.Kernel.Children.{
  ChildRequest, ChildResult, collect_results, child_request, child_requests, child_result,
  run_children,
}
use miya_api.Kernel.Children.Completion.{run_children_order, run_children_fails}
use miya_api.Kernel.Children.Limits.{run_children-WithinLimits}
use miya_api.Kernel.Responses.Limits.{WithinLimits}
use miya_api.Kernel.ToolLedger.{call_count}
use miya_api.Kernel.SpawnValidator.{agent_count}
use miya_api.Tests.Samples.{child, policy, store, working}
use miya_api.Tests.Runs.{prompts, asked, start, says}

abbrev two_tasks : List SubtaskSpec
two_tasks = child "a" ∷ child "b" ∷ []

abbrev first_child : ChildRequest
first_child = child_request prompts policy asked store 0 (child "a")

abbrev second_child : ChildRequest
second_child = child_request prompts policy asked store 1 (child "b")

abbrev echo : ChildRequest → Reply
echo c = answered (says c.request.task.task_id)

abbrev refuse : ChildRequest → Reply
refuse c = failed (rejected "no")

reversed :
    Permᴰ (child_requests prompts policy asked store 0 two_tasks) (second_child ∷ first_child ∷ [])
unfolding child_requests
reversed = Permᴰ.swap refl refl

abbrev answers : List ChildResult
answers =
    record { child = first_child; response = says "a" }
    ∷ record { child = second_child; response = says "b" }
    ∷ []

answered_both :
    collect_results (
      map
        (child_result prompts policy asked echo)
        (child_requests prompts policy asked store 0 two_tasks))
    ≡ ok answers
unfolding collect_results child_result child_requests child_request reply_result
answered_both = refl

refused_both :
    collect_results (
      map
        (child_result prompts policy asked refuse)
        (child_requests prompts policy asked store 0 two_tasks))
    ≡ err (provider (rejected "no"))
unfolding collect_results child_result child_requests child_request reply_result
refused_both = refl

within : WithinLimits policy working
unfolding call_count agent_count
within = record { calls = omega arith; agents = omega arith }

run_children_order_example :
    run_children prompts policy asked
      (λ _ _ _ _ _. some ("00", "ff"))
      (λ _. none)
      echo
      (second_child ∷ first_child ∷ [])
      start
    ≡ run_children prompts policy asked
        (λ _ _ _ _ _. some ("00", "ff"))
        (λ _. none)
        echo
        (child_requests prompts policy asked store 0 two_tasks)
        start
run_children_order_example =
    run_children_order prompts policy asked echo (λ _ _ _ _ _. some ("00", "ff")) (λ _. none) store
      two_tasks (second_child ∷ first_child ∷ []) reversed answers start answered_both

run_children_fails_example :
    (e' : KernelError) × ((run_children prompts policy asked
        (λ _ _ _ _ _. some ("00", "ff"))
        (λ _. none)
        refuse
        (second_child ∷ first_child ∷ [])
        start).0
      ≡ err e')
    × ((run_children prompts policy asked
          (λ _ _ _ _ _. some ("00", "ff"))
          (λ _. none)
          refuse
          (second_child ∷ first_child ∷ [])
          start).1.working
        ≡ working)
run_children_fails_example =
    run_children_fails prompts policy asked refuse (λ _ _ _ _ _. some ("00", "ff")) (λ _. none)
      store two_tasks (second_child ∷ first_child ∷ []) reversed (provider (rejected "no")) start
      refused_both

run_children-WithinLimits_example :
    WithinLimits policy
      (run_children prompts policy asked
        (λ _ _ _ _ _. some ("00", "ff"))
        (λ _. none)
        echo
        (second_child ∷ first_child ∷ [])
        start).1.working
run_children-WithinLimits_example =
    run_children-WithinLimits prompts policy asked (λ _ _ _ _ _. some ("00", "ff")) (λ _. none)
      (omega arith) (omega arith) echo (second_child ∷ first_child ∷ []) start within
