-- ===== src/ApiServer/JobRuntime.antt =====
-- `JobRuntime` of crates/api-server/src/lib.rs: background jobs by key, at most one of a key at a
-- time, under a semaphore. A job is a task of its own, so its steps and those of other tasks come in
-- any order. A job's worker does not panic, and at its end the task leaves the running jobs and drops
-- its permit in one step.
pub mod Steps
pub mod Exclusion
use miya_api.Prelude.{
  ℕ, zero, suc, ◌+◌, ◌-◌, ◌%◌, ◌^◌, Bool, true, false, not, String, Option, none, some, is_some,
  List, [], ◌∷◌, ◌++◌, max, text_ord, if◌then◌else◌,
}
use miya_api.BTreeMap.{BTreeMap, empty, get, insert, remove, contains_key}

-- Where the task of a job is in the body of `spawn`.
pub data Phase : Type 0 where
  -- the key is in `running`
  registered : Phase
  -- the token is in `cancellations`, and the task waits for a permit
  waiting : Phase
  -- the worker runs, with a permit
  working : Phase
  -- the worker is done, and the permit is held still
  done : Phase
  -- the token is out of `cancellations`
  unpublished : Phase

pub record Task : Type 0 where
  pub key : String
  pub token : ℕ
  pub phase : Phase

-- `running` and `cancellations` with the free permits of the semaphore, the counters of the jobs,
-- the tasks, and the tokens: the number of the next one, and those that were cancelled.
pub record JobRuntime : Type 0 where
  pub running : BTreeMap String (Unit {0})
  pub cancellations : BTreeMap String ℕ
  pub permits : ℕ
  pub jobs_started : ℕ
  pub jobs_finished : ℕ
  pub jobs_cancelled : ℕ
  pub tasks : List Task
  pub next_token : ℕ
  pub cancelled : List ℕ

abbrev pub new : ℕ → JobRuntime
new max_concurrent = record {
  running = empty;
  cancellations = empty;
  permits = max max_concurrent 1;
  jobs_started = 0;
  jobs_finished = 0;
  jobs_cancelled = 0;
  tasks = [];
  next_token = 0;
  cancelled = [];
}

abbrev pub fetch_add : ℕ → ℕ → ℕ
fetch_add counter n = (counter + n) % 2 ^ 64

-- `spawn` up to the release of `running`: whether the job is taken.
unfoldable pub register : String → JobRuntime → Bool × JobRuntime
register key s = if contains_key key s.running then (false, s) else (
  true,
  record s {
    running = insert key tt s.running;
    tasks = record { key = key; token = s.next_token; phase = registered } ∷ s.tasks;
    next_token = s.next_token + 1;
  },
)

-- The steps of a task, between the tasks before and after it.
module _ (front : List Task) (t : Task) (back : List Task) (s : JobRuntime) where
  abbrev pub moved : Phase → List Task
  moved phase = front ++ (record t { phase = phase } ∷ back)

  -- `cancellations.insert(key, cancellation)`
  unfoldable pub publish : JobRuntime
  publish = record s { cancellations = insert t.key t.token s.cancellations; tasks = moved waiting }

  -- `acquire_owned().await`, which takes a permit, and the count of the start
  unfoldable pub start : JobRuntime
  start = record s {
    permits = s.permits - 1;
    jobs_started = fetch_add s.jobs_started 1;
    tasks = moved working;
  }

  -- the end of `worker(cancellation).await`
  unfoldable pub finish : JobRuntime
  finish = record s { jobs_finished = fetch_add s.jobs_finished 1; tasks = moved done }

  -- `cancellations.remove(&key)`
  unfoldable pub unpublish : JobRuntime
  unpublish = record s { cancellations = remove t.key s.cancellations; tasks = moved unpublished }

  -- `running.remove(&key)`, and the end of the task, which drops the permit
  unfoldable pub leave : JobRuntime
  leave = record s {
    running = remove t.key s.running;
    permits = s.permits + 1;
    tasks = front ++ back;
  }

-- `cancel`: whether there was a token, which is cancelled.
unfoldable pub cancel : String → JobRuntime → Bool × JobRuntime
cancel key s = elim (get key s.cancellations) [
  | none ↦ (false, s)
  | some token ↦ (
    true,
    record s { cancelled = token ∷ s.cancelled; jobs_cancelled = fetch_add s.jobs_cancelled 1 },
  )
]
