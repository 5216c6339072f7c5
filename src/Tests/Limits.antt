-- ===== src/Tests/Limits.antt =====
-- The limiter of tenants at one request.
use miya_api.Prelude.{total, ◌≤◌, refl, [], arith}
use miya_api.BTreeMap.{get}
use miya_api.ApiServer.TenantLimiter.{
  Request, waiting, TenantConcurrencyLimiter, with_max_per_tenant, acquire, grant, acquire_called,
  granted, Reach, here, next_step,
}
use miya_api.ApiServer.TenantLimiter.Bound.{holds_for, Reach-bounded}

-- the limiter after a request of a tenant came and got a permit
abbrev waits : Request
waits = record { tenant = "acme"; semaphore = 0; phase = waiting }

abbrev limiter : TenantConcurrencyLimiter
limiter = grant [] waits [] (acquire "acme" (with_max_per_tenant 2))

limiter-Reach : Reach (with_max_per_tenant 2) limiter
unfolding acquire with_max_per_tenant get
limiter-Reach =
    next_step (next_step here (acquire_called "acme"))
      (granted 2 [] waits [] refl refl refl (omega arith))

Reach-bounded_example : total (holds_for "acme") limiter.requests ≤ 2
Reach-bounded_example = Reach-bounded 2 (omega arith) limiter-Reach "acme"
