-- ===== src/Tests/Jobs.antt =====
-- A job from its registration to its end, and the permits of a run of several agents.
use miya_api.Prelude.{
  total, ◌+◌, ◌*◌, ◌%◌, ◌^◌, ◌≤◌, ◌≡◌, refl, String, [], min, max, if◌then◌else◌, text_ord, arith,
}
use miya_api.BTreeMap.{get, contains_key}
use miya_api.ApiServer.JobRuntime.{
  Task, JobRuntime, Phase, registered, waiting, new, register, publish, start,
}
use miya_api.ApiServer.JobRuntime.Steps.{spawn_called, published, started, Reach, here, next}
use miya_api.ApiServer.JobRuntime.Exclusion.{of_key, works, Reach-exclusive}
use miya_api.ApiServer.Admission.{with_limit_and_parallelism, permit_weight, permit_weight_bounds}

abbrev job : Phase → Task
job phase = record { key = "batch"; token = 0; phase = phase }

-- the states of a runtime for two jobs, as one is spawned and starts
abbrev first : JobRuntime
first = (register "batch" (new 2)).1

abbrev second : JobRuntime
second = publish [] (job registered) [] first

abbrev third : JobRuntime
third = start [] (job waiting) [] second

runs : Reach (new 2) third
unfolding register publish start get
runs =
    next (next (next here (spawn_called "batch")) (published [] (job registered) [] (refl, refl)))
      (started [] (job waiting) [] (refl, refl) (omega arith))

Reach-exclusive_example :
    ((k : String) → total (of_key k) third.tasks ≡ (if contains_key k third.running then 1 else 0))
    × (total works third.tasks ≤ max 2 1)
    × (third.jobs_started ≡ (third.jobs_finished + total works third.tasks) % 2 ^ 64)
Reach-exclusive_example = Reach-exclusive 2 runs

permit_weight_bounds_example :
    (1 ≤ permit_weight (with_limit_and_parallelism 8 4) 10)
    × (permit_weight (with_limit_and_parallelism 8 4) 10 ≤ 8)
    × (min 10 (8 * max 4 1) ≤ permit_weight (with_limit_and_parallelism 8 4) 10 * max 4 1)
permit_weight_bounds_example = permit_weight_bounds 8 4 10 (omega arith) (omega arith)

three_permits : permit_weight (with_limit_and_parallelism 8 4) 10 ≡ 3
unfolding permit_weight with_limit_and_parallelism
three_permits = refl
