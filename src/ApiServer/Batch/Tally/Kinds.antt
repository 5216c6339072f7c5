-- ===== src/ApiServer/Batch/Tally/Kinds.antt =====
-- The kinds of results of a batch's requests, and how many of each the tally counts.
use miya_api.Prelude.{
  total, ◌&&◌, if◌then◌else◌, ℕ, ◌+◌, ◌≤◌, ◌<◌, ◌≡◌, refl, String, none, some, List, [], ◌∷◌,
  length, ok, err, ◌∙◌, u64_max, leb, arith,
}
use miya_api.ApiServer.Batch.Tally.{ItemResult, Tally, tally_result, tally_results}

-- 1 for a request that is answered with a status of success
abbrev pub answered_well : ItemResult → ℕ
answered_well (id, none) = 0
answered_well (id, some (err e)) = 0
answered_well (id, some (ok r)) = if leb 200 r.status_code && leb r.status_code 299 then 1 else 0

-- 1 for a request that is answered with another status, or not dispatched
abbrev pub answered_badly : ItemResult → ℕ
answered_badly (id, none) = 0
answered_badly (id, some (err e)) = 1
answered_badly (id, some (ok r)) = if leb 200 r.status_code && leb r.status_code 299 then 0 else 1

-- 1 for a request that was cancelled
abbrev pub unanswered : ItemResult → ℕ
unanswered (id, none) = 1
unanswered (id, some r) = 0

-- Each result is of one of the three kinds.
pub total-kinds :
    (rs : List ItemResult)
    → total answered_well rs + total answered_badly rs + total unanswered rs ≡ length rs
total-kinds [] = refl
total-kinds ((id, none) ∷ rs) = omega (arith, total-kinds rs)
total-kinds ((id, some (err e)) ∷ rs) = omega (arith, total-kinds rs)
total-kinds ((id, some (ok r)) ∷ rs) = ground (arith, total-kinds rs)

-- The tally has counted results in numbers that a `u64` holds.
abbrev counted_so_far : Tally → ℕ
counted_so_far t = t.request_counts.completed + t.request_counts.failed + t.cancelled

-- The tally after some results of each kind.
abbrev pub Added : ℕ → ℕ → ℕ → Tally → Tally → Type 0
Added well badly missing t u =
    (u.request_counts.completed ≡ t.request_counts.completed + well)
    × (u.request_counts.failed ≡ t.request_counts.failed + badly)
    × (u.cancelled ≡ t.cancelled + missing)

tally_result-Added :
    (uuid : String) (r : ItemResult) (t : Tally)
    → counted_so_far t < u64_max
    → Added (answered_well r) (answered_badly r) (unanswered r) t (tally_result uuid r t)
unfolding tally_result
tally_result-Added uuid (id, none) t h = omega arith
tally_result-Added uuid (id, some (err e)) t h = omega arith
tally_result-Added uuid (id, some (ok r)) t h = ground arith

pub tally_results-Added :
    (uuid_at : ℕ → String) (rs : List ItemResult) (reads : ℕ) (t : Tally)
    → counted_so_far t + length rs ≤ u64_max
    → Added
        (total answered_well rs)
        (total answered_badly rs)
        (total unanswered rs)
        t
        (tally_results uuid_at rs reads t).1
unfolding tally_results
tally_results-Added uuid_at [] reads t h = omega arith
tally_results-Added uuid_at ((id, none) ∷ rs) reads t h =
    let one = tally_result-Added "" (id, none) t (omega arith) in
    let rest =
      tally_results-Added uuid_at rs reads (tally_result "" (id, none) t) (omega (arith, one)) in
    omega (arith, one, rest)
tally_results-Added uuid_at ((id, some r) ∷ rs) reads t h =
    let one = tally_result-Added (uuid_at reads) (id, some r) t (omega arith) in
    let kinds = total-kinds ((id, some r) ∷ []) in
    let rest =
      tally_results-Added uuid_at rs (reads + 1) (tally_result (uuid_at reads) (id, some r) t)
        (omega (arith, one, kinds)) in
    omega (arith, one, rest)

tally_result_total :
    (uuid : String) (r : ItemResult) (t : Tally)
    → (tally_result uuid r t).request_counts.total ≡ t.request_counts.total
unfolding tally_result
tally_result_total uuid (id, none) t = refl
tally_result_total uuid (id, some (ok result)) t = ground arith
tally_result_total uuid (id, some (err e)) t = refl

pub tally_results_total :
    (uuid_at : ℕ → String) (rs : List ItemResult) (reads : ℕ) (t : Tally)
    → (tally_results uuid_at rs reads t).1.request_counts.total ≡ t.request_counts.total
unfolding tally_results
tally_results_total uuid_at [] reads t = refl
tally_results_total uuid_at ((id, none) ∷ rs) reads t =
    tally_results_total uuid_at rs reads (tally_result "" (id, none) t)
    ∙ tally_result_total "" (id, none) t
tally_results_total uuid_at ((id, some r) ∷ rs) reads t =
    tally_results_total uuid_at rs (reads + 1) (tally_result (uuid_at reads) (id, some r) t)
    ∙ tally_result_total (uuid_at reads) (id, some r) t
