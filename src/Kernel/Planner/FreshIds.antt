-- ===== src/Kernel/Planner/FreshIds.antt =====
-- The search for a task id that no child of the plan has.
use text.Mathlib.TextLemmas.{append_cancel_left}
use miya_api.Prelude.{
  ℕ, zero, suc, ◌+◌, ◌≤◌, ◌<◌, ◌≡◌, ◌≢◌, refl, sym, ◌∙◌, true, false, not, some, List, [], ◌∷◌,
  length, filter, arith, Bool-cases, inl, inr, ◌=?◌, =?_iff, text_ord, usize_max, two_digits,
  two_digits_injective, saturating_add,
}
use miya_api.Protocol.Ids.{TaskId}
use miya_api.Kernel.Planner.{candidate, fresh_id, has_id}

candidate_injective : (base : TaskId) (m n : ℕ) → candidate base m ≡ candidate base n → m ≡ n
unfolding candidate
candidate_injective base m n h = two_digits_injective m n (
    append_cancel_left "-independent-crosscheck-" (two_digits m) (two_digits n)
      (append_cancel_left base _ _ h))

-- the ids other than `t`
remove_id : TaskId → List TaskId → List TaskId
remove_id t = filter (λ u. not (u =? t))

has_id-remove_id :
    (t u : TaskId) (ids : List TaskId) → u ≢ t → has_id u (remove_id t ids) ≡ has_id u ids
unfolding remove_id
has_id-remove_id t u [] h = refl
has_id-remove_id t u (i ∷ ids) h =
    ground (arith, =?_iff i t, =?_iff i u, has_id-remove_id t u ids h)

length-remove_id-le : (t : TaskId) (ids : List TaskId) → length (remove_id t ids) ≤ length ids
unfolding remove_id
length-remove_id-le t [] = omega arith
length-remove_id-le t (i ∷ ids) = ground (arith, length-remove_id-le t ids)

length-remove_id-lt :
    (t : TaskId) (ids : List TaskId) → has_id t ids ≡ true → length (remove_id t ids) < length ids
unfolding remove_id
length-remove_id-lt t [] h = cc
length-remove_id-lt t (i ∷ ids) h =
    ground (arith, length-remove_id-lt t ids, length-remove_id-le t ids)

-- A candidate of a smaller suffix has no part in the search.
fresh_id-remove_id :
    (fuel : ℕ) (ids : List TaskId) (base : TaskId) (earlier suffix : ℕ)
    → earlier < suffix
    → suffix + fuel ≤ usize_max
    → fresh_id fuel (remove_id (candidate base earlier) ids) base suffix
      ≡ fresh_id fuel ids base suffix
unfolding fresh_id
fresh_id-remove_id zero ids base earlier suffix lt room = refl
fresh_id-remove_id (suc fuel) ids base earlier suffix lt room =
    let next : saturating_add usize_max suffix 1 ≡ suffix + 1 = omega arith in
    let differ : candidate base suffix ≢ candidate base earlier =
      λ e. absurd (omega (arith, candidate_injective base suffix earlier e)) in
    rw (has_id-remove_id (candidate base earlier) (candidate base suffix) ids differ, next)
      (rw (fresh_id-remove_id fuel ids base earlier (suffix + 1) (omega arith) (omega arith)) refl)

fresh_id_taken :
    (fuel : ℕ) (ids : List TaskId) (base : TaskId) (suffix : ℕ)
    → has_id (candidate base suffix) ids ≡ true
    → suffix + 1 ≤ usize_max
    → fresh_id (suc fuel) ids base suffix ≡ fresh_id fuel ids base (suffix + 1)
unfolding fresh_id
fresh_id_taken fuel ids base suffix taken room =
    let next : saturating_add usize_max suffix 1 ≡ suffix + 1 = omega arith in
    rw (taken, fresh_id, next)

-- With more fuel than ids the search ends, with an id of the pattern that is free.
pub fresh_id_total :
    (fuel : ℕ) (ids : List TaskId) (base : TaskId) (suffix : ℕ)
    → length ids < fuel
    → suffix + fuel ≤ usize_max
    → (m : ℕ) × (suffix ≤ m)
      × (fresh_id fuel ids base suffix ≡ some (candidate base m))
      × (has_id (candidate base m) ids ≡ false)
unfolding fresh_id
fresh_id_total zero ids base suffix short room = absurd (omega arith)
fresh_id_total (suc fuel) ids base suffix short room =
    elim (Bool-cases (has_id (candidate base suffix) ids)) [
      | inr free ↦ (suffix, omega arith, rw (free, fresh_id), free)
      | inl taken ↦
          let c = candidate base suffix in
          let (m, above, found, free) =
            fresh_id_total fuel (remove_id c ids) base (suffix + 1)
              (omega (arith, length-remove_id-lt c ids taken)) (omega arith) in
          let differ : candidate base m ≢ c =
            λ e. absurd (omega (arith, candidate_injective base m suffix e)) in
          (
            m,
            omega arith,
            fresh_id_taken fuel ids base suffix taken (omega arith)
                ∙ (sym (
                      fresh_id-remove_id fuel ids base suffix (suffix + 1) (omega arith)
                        (omega arith))
                    ∙ found),
            sym (has_id-remove_id c (candidate base m) ids differ) ∙ free,
          )
    ]
