-- ===== src/ApiServer/JobRuntime/Exclusion.antt =====
-- What holds in every state of the job runtime: the tasks by key, the permits and the counters.
use miya_api.Prelude.{
  total, total-append, ℕ, ◌+◌, ◌%◌, ◌^◌, ◌<◌, ◌≤◌, ◌≡◌, refl, false, String, Option-cases, List, [],
  ◌∷◌, ◌++◌, inl, inr, max, text_ord, ◌=?◌, =?_iff, if◌then◌else◌, Bool-cases, arith, ap,
}
use miya_api.BTreeMap.{get, insert, contains_key, get-insert, get-remove}
use miya_api.ApiServer.JobRuntime.{
  Phase, registered, waiting, working, done, unpublished, Task, JobRuntime, new, register, publish,
  start, finish, unpublish, leave, cancel,
}
use miya_api.ApiServer.JobRuntime.Steps.{
  Step, spawn_called, published, started, finished, removed, left, cancel_called, Reach, here, next,
}

total-removed :
    (f : Task → ℕ) (front back : List Task) → total f (front ++ back) ≡ total f front + total f back
total-removed f [] back = omega arith
total-removed f (u ∷ front) back = omega (arith, total-removed f front back)

-- 1 for a task of the key
abbrev pub of_key : String → Task → ℕ
of_key k t = if t.key =? k then 1 else 0

-- 1 for a task that holds a permit
abbrev pub holds_in : Phase → ℕ
holds_in registered = 0
holds_in waiting = 0
holds_in working = 1
holds_in done = 1
holds_in unpublished = 1

abbrev pub holds : Task → ℕ
holds t = holds_in t.phase

-- 1 for a task whose worker runs
abbrev pub works_in : Phase → ℕ
works_in registered = 0
works_in waiting = 0
works_in working = 1
works_in done = 0
works_in unpublished = 0

abbrev pub works : Task → ℕ
works t = works_in t.phase

works-le-holds : (ts : List Task) → total works ts ≤ total holds ts
works-le-holds [] = omega arith
works-le-holds (t ∷ ts) = omega (arith, one t.phase, works-le-holds ts)
  where
    one : (p : Phase) → works_in p ≤ holds_in p
    one registered = omega arith
    one waiting = omega arith
    one working = omega arith
    one done = omega arith
    one unpublished = omega arith

pub record IsValid (limit : ℕ) (s : JobRuntime) : Type 0 where
  pub by_key : (k : String) → total (of_key k) s.tasks ≡ (if contains_key k s.running then 1 else 0)
  pub by_permit : total holds s.tasks + s.permits ≡ limit
  pub by_count : s.jobs_started ≡ (s.jobs_finished + total works s.tasks) % 2 ^ 64

module _ (limit : ℕ) (s : JobRuntime) (v : IsValid limit s) where
  register-IsValid : (key : String) → IsValid limit (register key s).1
  unfolding register
  register-IsValid key = elim (Bool-cases (contains_key key s.running)) [
    | inl there ↦ rw there v
    | inr free ↦ rw free (record {
      by_key = λ k. added free k;
      by_permit = omega (arith, v.by_permit);
      by_count = omega (arith, v.by_count);
    })
  ]
    where
      added :
          contains_key key s.running ≡ false
          → (k : String)
          → of_key k (record { key = key; token = s.next_token; phase = registered })
              + total (of_key k) s.tasks
            ≡ (if contains_key k (insert key tt s.running) then 1 else 0)
      added free k = elim (Bool-cases (key =? k)) [
        | inl same ↦
            let gone : contains_key k s.running ≡ false = rw (← (=?_iff key k).0 same) free in
            ground (arith, v.by_key k, get-insert key k tt s.running, gone, same)
        | inr other ↦ ground (arith, v.by_key k, get-insert key k tt s.running, other)
      ]

  cancel-IsValid : (key : String) → IsValid limit (cancel key s).1
  unfolding cancel
  cancel-IsValid key = elim (Option-cases (get key s.cancellations)) [
    | inl missing ↦ rw (missing, cancel) v
    | inr (token, found) ↦
        rw (found, cancel)
          (record { by_key = v.by_key; by_permit = v.by_permit; by_count = v.by_count })
  ]

  module _ (front : List Task) (t : Task) (back : List Task)
      (at : s.tasks ≡ front ++ (t ∷ back)) where
    moved_total :
        (f : Task → ℕ) (phase : Phase)
        → total f (front ++ (record t { phase = phase } ∷ back)) + f t
          ≡ total f s.tasks + f (record t { phase = phase })
    moved_total f phase = omega (
      arith,
      total-append f front (record t { phase = phase }) back,
      total-append f front t back,
      ap (total f) at,
    )

    left_total : (f : Task → ℕ) → total f (front ++ back) + f t ≡ total f s.tasks
    left_total f =
        omega (arith, total-removed f front back, total-append f front t back, ap (total f) at)

    publish-IsValid : t.phase ≡ registered → IsValid limit (publish front t back s)
    unfolding publish
    publish-IsValid e = record {
      by_key = λ k. omega (arith, moved_total (of_key k) waiting, v.by_key k);
      by_permit = omega (arith, moved_total holds waiting, v.by_permit, ap holds_in e);
      by_count = omega (arith, moved_total works waiting, v.by_count, ap works_in e);
    }

    start-IsValid : t.phase ≡ waiting → 0 < s.permits → IsValid limit (start front t back s)
    unfolding start
    start-IsValid e h = record {
      by_key = λ k. omega (arith, moved_total (of_key k) working, v.by_key k);
      by_permit = omega (arith, moved_total holds working, v.by_permit, ap holds_in e);
      by_count = omega (arith, moved_total works working, v.by_count, ap works_in e);
    }

    finish-IsValid : t.phase ≡ working → IsValid limit (finish front t back s)
    unfolding finish
    finish-IsValid e = record {
      by_key = λ k. omega (arith, moved_total (of_key k) done, v.by_key k);
      by_permit = omega (arith, moved_total holds done, v.by_permit, ap holds_in e);
      by_count = omega (arith, moved_total works done, v.by_count, ap works_in e);
    }

    unpublish-IsValid : t.phase ≡ done → IsValid limit (unpublish front t back s)
    unfolding unpublish
    unpublish-IsValid e = record {
      by_key = λ k. omega (arith, moved_total (of_key k) unpublished, v.by_key k);
      by_permit = omega (arith, moved_total holds unpublished, v.by_permit, ap holds_in e);
      by_count = omega (arith, moved_total works unpublished, v.by_count, ap works_in e);
    }

    leave-IsValid : t.phase ≡ unpublished → IsValid limit (leave front t back s)
    unfolding leave
    leave-IsValid e = record {
      by_key = λ k.
          ground (
            arith,
            left_total (of_key k),
            v.by_key k,
            get-remove t.key k s.running,
            =?_iff t.key k,
          );
      by_permit = omega (arith, left_total holds, v.by_permit, ap holds_in e);
      by_count = omega (arith, left_total works, v.by_count, ap works_in e);
    }

Step-IsValid : {limit : ℕ} {s u : JobRuntime} → IsValid limit s → Step s u → IsValid limit u
Step-IsValid {limit} {s} v (spawn_called key) = register-IsValid limit s v key
Step-IsValid {limit} {s} v (published front t back at) =
    publish-IsValid limit s v front t back at.0 at.1
Step-IsValid {limit} {s} v (started front t back at h) =
    start-IsValid limit s v front t back at.0 at.1 h
Step-IsValid {limit} {s} v (finished front t back at) =
    finish-IsValid limit s v front t back at.0 at.1
Step-IsValid {limit} {s} v (removed front t back at) =
    unpublish-IsValid limit s v front t back at.0 at.1
Step-IsValid {limit} {s} v (left front t back at) = leave-IsValid limit s v front t back at.0 at.1
Step-IsValid {limit} {s} v (cancel_called key) = cancel-IsValid limit s v key

Reach-IsValid : {limit : ℕ} {s u : JobRuntime} → IsValid limit s → Reach s u → IsValid limit u
Reach-IsValid v here = v
Reach-IsValid v (next r st) = Step-IsValid (Reach-IsValid v r) st

new-IsValid : (n : ℕ) → IsValid (max n 1) (new n)
unfolding get
new-IsValid n = record { by_key = λ k. refl; by_permit = omega arith; by_count = refl }

-- In every state that the job runtime reaches, at most one task has a key, and `running` has the
-- keys of the tasks; at most `max_concurrent` workers run, or one if that is zero; and the number
-- of started jobs is that of the finished ones and the running ones, as 64-bit counters.
pub Reach-exclusive :
    (max_concurrent : ℕ) {s : JobRuntime}
    → Reach (new max_concurrent) s
    → ((k : String) → total (of_key k) s.tasks ≡ (if contains_key k s.running then 1 else 0))
      × (total works s.tasks ≤ max max_concurrent 1)
      × (s.jobs_started ≡ (s.jobs_finished + total works s.tasks) % 2 ^ 64)
Reach-exclusive n {s} r =
    let v = Reach-IsValid (new-IsValid n) r in
    (v.by_key, omega (arith, v.by_permit, works-le-holds s.tasks), v.by_count)
