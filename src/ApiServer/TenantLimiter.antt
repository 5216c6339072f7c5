-- ===== src/ApiServer/TenantLimiter.antt =====
-- `TenantConcurrencyLimiter` of crates/api-server/src/lib.rs: a semaphore for each tenant, made when
-- it is needed and forgotten when no request has it. The requests of all tenants interleave in any
-- order.
pub mod Bound
use miya_api.Prelude.{
  ℕ, ◌+◌, ◌<◌, ◌≡◌, leb, Bool, true, false, ◌==◌, String, Option, none, some, List, [], ◌∷◌, ◌++◌,
  any, filter, total, text_ord, if◌then◌else◌,
}
use miya_api.BTreeMap.{BTreeMap, empty, get, insert}

-- A request that has the semaphore of its tenant: it waits for a permit, or has one.
pub data Phase : Type 0 where
  waiting : Phase
  holding : Phase

pub record Request : Type 0 where
  pub tenant : String
  pub semaphore : ℕ
  pub phase : Phase

-- The weak pointers to the semaphores by tenant, and the requests that have strong ones. A
-- semaphore is its number; `next` is the number of the next one.
pub record TenantConcurrencyLimiter : Type 0 where
  pub max_per_tenant : Option ℕ
  pub semaphores : BTreeMap String ℕ
  pub requests : List Request
  pub next : ℕ

unfoldable pub with_max_per_tenant : ℕ → TenantConcurrencyLimiter
with_max_per_tenant max_per_tenant = record {
  max_per_tenant = if leb 1 max_per_tenant then some max_per_tenant else none;
  semaphores = empty;
  requests = [];
  next = 0;
}

-- `semaphore.strong_count() > 0`
unfoldable pub is_alive : ℕ → List Request → Bool
is_alive n requests = any (λ (r : Request). r.semaphore == n) requests

-- `acquire` up to the wait for a permit; without a limit there is nothing to wait for.
unfoldable pub acquire : String → TenantConcurrencyLimiter → TenantConcurrencyLimiter
acquire tenant s = elim s.max_per_tenant [
  | none ↦ s
  | some max_per_tenant ↦
      let retained = filter (λ (e : String × ℕ). is_alive e.1 s.requests) s.semaphores in
      elim (get tenant retained) [
        | some n ↦ record s {
          semaphores = retained;
          requests = record { tenant = tenant; semaphore = n; phase = waiting } ∷ s.requests;
        }
        | none ↦ record s {
          semaphores = insert tenant s.next retained;
          requests = record { tenant = tenant; semaphore = s.next; phase = waiting } ∷ s.requests;
          next = s.next + 1;
        }
      ]
]

abbrev pub holds_in : Phase → ℕ
holds_in waiting = 0
holds_in holding = 1

-- 1 for a request that has a permit of the semaphore
abbrev pub holds : ℕ → Request → ℕ
holds n r = if r.semaphore == n then holds_in r.phase else 0

-- The request `r` stands between the requests `front` and `back`.
abbrev pub At : List Request → Request → List Request → TenantConcurrencyLimiter → Type 0
At front r back s = s.requests ≡ front ++ (r ∷ back)

-- the step of a request that gets a permit
unfoldable pub grant :
    List Request → Request → List Request → TenantConcurrencyLimiter → TenantConcurrencyLimiter
grant front r back s = record s { requests = front ++ (record r { phase = holding } ∷ back) }

-- the end of a request, whether its wait is over by the timeout or its permit is dropped
unfoldable pub release :
    List Request → List Request → TenantConcurrencyLimiter → TenantConcurrencyLimiter
release front back s = record s { requests = front ++ back }

pub data Step (s : TenantConcurrencyLimiter) : TenantConcurrencyLimiter → Type 0 where
  acquire_called : (tenant : String) → Step s (acquire tenant s)
  -- the semaphore has `max_per_tenant` permits
  granted :
      (max_per_tenant : ℕ) (front : List Request) (r : Request) (back : List Request)
      → s.max_per_tenant ≡ some max_per_tenant
      → At front r back s
      → r.phase ≡ waiting
      → total (holds r.semaphore) s.requests < max_per_tenant
      → Step s (grant front r back s)
  released :
      (front : List Request) (r : Request) (back : List Request)
      → At front r back s
      → Step s (release front back s)

pub data Reach (s : TenantConcurrencyLimiter) : TenantConcurrencyLimiter → Type 0 where
  here : Reach s s
  next_step : {t u : TenantConcurrencyLimiter} → Reach s t → Step t u → Reach s u
