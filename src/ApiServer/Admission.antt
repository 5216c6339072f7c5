-- ===== src/ApiServer/Admission.antt =====
-- `OrchestrationAdmission` of crates/api-server/src/lib.rs: how many permits of its semaphore a run
-- of several agents takes.
use miya_api.Prelude.{
  ℕ, ◌+◌, ◌-◌, ◌*◌, ◌/◌, ◌≤◌, ◌≡◌, ◌⊎◌, refl, Option, none, some, unwrap_or, min, max, leb, u32_max,
  if◌then◌else◌, arith, lt_or_ge, inl, inr,
}

-- The semaphore has `limit` permits, where there is a limit.
pub record OrchestrationAdmission : Type 0 where
  pub limit : Option ℕ
  pub parallel_agents_per_slot : ℕ

abbrev pub disabled : OrchestrationAdmission
disabled = record { limit = none; parallel_agents_per_slot = 1 }

unfoldable pub with_limit_and_parallelism : ℕ → ℕ → OrchestrationAdmission
with_limit_and_parallelism limit parallel_agents_per_slot =
    if leb 1 limit
    then (record { limit = some limit; parallel_agents_per_slot = max parallel_agents_per_slot 1 })
    else disabled

unfoldable pub derived_orchestration_limit : Option ℕ → ℕ → Option ℕ
derived_orchestration_limit none max_parallel_agents = none
derived_orchestration_limit (some provider_limit) max_parallel_agents =
    some (max (provider_limit / max max_parallel_agents 1) 1)

-- `a.div_ceil(b)` for a positive `b`
abbrev pub div_ceil : ℕ → ℕ → ℕ
div_ceil a b = (a + b - 1) / b

-- the permits of `acquire_for_parallelism`, as a `u32`
unfoldable pub permit_weight : OrchestrationAdmission → ℕ → ℕ
permit_weight a requested_parallel_agents =
    let weight =
      max
        (min (div_ceil (max requested_parallel_agents 1) a.parallel_agents_per_slot)
          (unwrap_or a.limit 1))
        1 in
    if leb weight u32_max then weight else u32_max

div_ceil-mul : (r d : ℕ) → 1 ≤ d → r ≤ div_ceil r d * d
div_ceil-mul r d h = grind arith

div-mul : (p d : ℕ) → 1 ≤ d → p / d * d ≤ p
div-mul p d h = grind arith

covered : (r l q d : ℕ) → 1 ≤ l → r ≤ q * d → min r (l * d) ≤ max (min q l) 1 * d
covered r l q d h e = elim (lt_or_ge l q) [
  | inl more ↦ let weight : max (min q l) 1 ≡ l = omega arith in rw weight (omega arith)
  | inr less ↦ elim (lt_or_ge 0 q) [
    | inl some_slots ↦
        let weight : max (min q l) 1 ≡ q = omega arith in rw weight (omega (arith, e))
    | inr zero_slots ↦ grind arith
  ]
]

module _ (limit slot requested : ℕ) (positive : 1 ≤ limit) where
  at_most :
      (1 ≤ permit_weight (with_limit_and_parallelism limit slot) requested)
      × (permit_weight (with_limit_and_parallelism limit slot) requested ≤ limit)
  unfolding permit_weight with_limit_and_parallelism
  at_most = ground arith

  enough :
      limit ≤ u32_max
      → min requested (limit * max slot 1)
        ≤ permit_weight (with_limit_and_parallelism limit slot) requested * max slot 1
  unfolding permit_weight with_limit_and_parallelism
  enough small =
      let q = div_ceil (max requested 1) (max slot 1) in
      let same : permit_weight (with_limit_and_parallelism limit slot) requested
          ≡ max (min q limit) 1 =
        ground arith in
      rw same (
        covered requested limit q (max slot 1) positive
          (omega (arith, div_ceil-mul (max requested 1) (max slot 1) (omega arith))))

  -- Under a positive limit that a `u32` holds, a run takes one permit at least, and never more than
  -- the semaphore has; its permits are slots for all its agents, or all the slots there are.
  pub permit_weight_bounds :
      limit ≤ u32_max
      → (1 ≤ permit_weight (with_limit_and_parallelism limit slot) requested)
        × (permit_weight (with_limit_and_parallelism limit slot) requested ≤ limit)
        × (min requested (limit * max slot 1)
            ≤ permit_weight (with_limit_and_parallelism limit slot) requested * max slot 1)
  permit_weight_bounds small = (at_most.0, at_most.1, enough small)

-- The derived limit is one run at least, and keeps the agents of that many runs within the
-- provider's limit unless it is a single run.
pub derived_orchestration_limit_bound :
    (provider_limit agents : ℕ)
    → (limit : ℕ) × (derived_orchestration_limit (some provider_limit) agents ≡ some limit)
      × (1 ≤ limit)
      × ((limit * max agents 1 ≤ provider_limit) ⊎ (limit ≡ 1))
unfolding derived_orchestration_limit
derived_orchestration_limit_bound p agents = (
  max (p / max agents 1) 1,
  refl,
  omega arith,
  elim (lt_or_ge 0 (p / max agents 1)) [
    | inl several ↦
        let same : max (p / max agents 1) 1 ≡ p / max agents 1 = omega arith in
        inl (rw same (div-mul p (max agents 1) (omega arith)))
    | inr less ↦ inr (omega arith)
  ],
)
