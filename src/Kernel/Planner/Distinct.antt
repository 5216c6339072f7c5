-- ===== src/Kernel/Planner/Distinct.antt =====
-- Lists of task ids that differ from one another, when free ids are put into the middle.
use mathlib.Core.List.{append_assoc}
use miya_api.Prelude.{
  ◌≡◌, ◌≢◌, refl, sym, ap, ◌∙◌, subst, false, ◌||◌, List, [], ◌∷◌, ◌++◌, All, arith, ◌=?◌, =?_iff,
  text_ord,
}
use miya_api.Protocol.Ids.{TaskId}
use miya_api.Protocol.Tasks.{SubtaskSpec}
use miya_api.Kernel.Planner.{has_id, ids_of}
use miya_api.Kernel.SpawnValidator.Agents.{Distinct}

abbrev pub DistinctIds : List TaskId → Type 0
DistinctIds [] = Unit
DistinctIds (t ∷ ts) = (has_id t ts ≡ false) × DistinctIds ts

-- Each id is free when it is added to those before it.
abbrev pub FreshIn : List TaskId → List TaskId → Type 0
FreshIn ids [] = Unit
FreshIn ids (t ∷ ts) = (has_id t ids ≡ false) × FreshIn (t ∷ ids) ts

has_id-append : (t : TaskId) (a b : List TaskId) → has_id t (a ++ b) ≡ (has_id t a || has_id t b)
has_id-append t [] b = refl
has_id-append t (u ∷ a) b = ground (arith, has_id-append t a b)

FreshIn-same :
    (a b ts : List TaskId) → ((t : TaskId) → has_id t a ≡ has_id t b) → FreshIn a ts → FreshIn b ts
FreshIn-same a b [] same h = tt
FreshIn-same a b (t ∷ ts) same h = (
  sym (same t) ∙ h.0,
  FreshIn-same (t ∷ a) (t ∷ b) ts (λ u. ap (λ r. (t =? u) || r) (same u)) h.1,
)

DistinctIds-insert :
    (t : TaskId) (a b : List TaskId)
    → DistinctIds (a ++ b)
    → has_id t (a ++ b) ≡ false
    → DistinctIds (a ++ (t ∷ b))
DistinctIds-insert t [] b d h = (h, d)
DistinctIds-insert t (u ∷ a) b d h = ground (
  arith,
  DistinctIds-insert t a b,
  has_id-append u a b,
  has_id-append u a (t ∷ b),
  =?_iff t u,
  =?_iff u t,
)

-- Free ids put between two parts of a list of different ids leave all of them different.
pub DistinctIds-middle :
    (a ts b : List TaskId)
    → DistinctIds (a ++ b)
    → FreshIn (a ++ b) ts
    → DistinctIds (a ++ (ts ++ b))
DistinctIds-middle a [] b d h = d
DistinctIds-middle a (t ∷ ts) b d h = subst DistinctIds (append_assoc a (t ∷ []) (ts ++ b)) (
    DistinctIds-middle (a ++ (t ∷ [])) ts b
      (subst DistinctIds (sym (append_assoc a (t ∷ []) b)) (DistinctIds-insert t a b d h.0))
      (FreshIn-same (t ∷ (a ++ b)) ((a ++ (t ∷ [])) ++ b) ts moved h.1))
  where
    moved : (u : TaskId) → has_id u (t ∷ (a ++ b)) ≡ has_id u ((a ++ (t ∷ [])) ++ b)
    moved u =
        ground (
          arith,
          has_id-append u a b,
          has_id-append u (a ++ (t ∷ [])) b,
          has_id-append u a (t ∷ []),
        )

differ_of_free :
    (t : TaskId) (cs : List SubtaskSpec)
    → has_id t (ids_of cs) ≡ false
    → All (λ d. d.task_id ≢ t) cs
differ_of_free t [] h = tt
differ_of_free t (c ∷ cs) h =
    (λ e. ground (arith, =?_iff c.task_id t), differ_of_free t cs (ground arith))

pub Distinct-ids : (cs : List SubtaskSpec) → DistinctIds (ids_of cs) → Distinct cs
Distinct-ids [] h = tt
Distinct-ids (c ∷ cs) h = (differ_of_free c.task_id cs h.0, Distinct-ids cs h.1)
