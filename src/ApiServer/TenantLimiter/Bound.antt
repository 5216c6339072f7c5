-- ===== src/ApiServer/TenantLimiter/Bound.antt =====
-- How many requests of a tenant have permits at the same time.
use miya_api.Prelude.{
  subst, ℕ, ◌≤◌, ◌<◌, ◌≡◌, refl, true, ◌==◌, String, Option-cases, none, some, List, [], ◌∷◌, ◌++◌,
  filter, All, total, total-append, text_ord, ◌=?◌, =?_iff, if◌then◌else◌, Bool-cases, inl, inr,
  arith, ap, sym, ◌∙◌,
}
use miya_api.BTreeMap.{BTreeMap, get, insert, get-insert, get-filter}
use miya_api.ApiServer.TenantLimiter.{
  waiting, holding, Request, TenantConcurrencyLimiter, with_max_per_tenant, is_alive, acquire,
  holds_in, holds, At, grant, release, Step, acquire_called, granted, released, Reach, here,
  next_step,
}

-- The semaphore of the request is the one of its tenant.
abbrev Listed : BTreeMap String ℕ → Request → Type 0
Listed m r = get r.tenant m ≡ some r.semaphore

pub record IsValid (limit : ℕ) (s : TenantConcurrencyLimiter) : Type 0 where
  pub config : s.max_per_tenant ≡ some limit
  pub listed : All (Listed s.semaphores) s.requests
  pub bounded : (n : ℕ) → total (holds n) s.requests ≤ limit

-- The semaphores of all requests are alive.
abbrev AllAlive : List Request → List Request → Type 0
AllAlive rs = All (λ (r : Request). is_alive r.semaphore rs ≡ true)

AllAlive-cons : (x : Request) (rs xs : List Request) → AllAlive rs xs → AllAlive (x ∷ rs) xs
unfolding is_alive
AllAlive-cons x rs [] h = tt
AllAlive-cons x rs (y ∷ xs) h = (ground (arith, h.0), AllAlive-cons x rs xs h.1)

all_alive : (rs : List Request) → AllAlive rs rs
unfolding is_alive
all_alive [] = tt
all_alive (x ∷ rs) = (ground (arith), AllAlive-cons x rs rs (all_alive rs))

-- Those that are alive are retained.
retained-Listed :
    (m : BTreeMap String ℕ) (all rs : List Request)
    → All (Listed m) rs
    → AllAlive all rs
    → All (Listed (filter (λ (e : String × ℕ). is_alive e.1 all) m)) rs
retained-Listed m all [] h k = tt
retained-Listed m all (r ∷ rs) h k = (
  get-filter (λ n. is_alive n all) r.tenant r.semaphore m h.0 k.0,
  retained-Listed m all rs h.1 k.1,
)

inserted-Listed :
    (m : BTreeMap String ℕ) (tenant : String) (n : ℕ) (rs : List Request)
    → get tenant m ≡ none
    → All (Listed m) rs
    → All (Listed (insert tenant n m)) rs
inserted-Listed m tenant n [] free h = tt
inserted-Listed m tenant n (r ∷ rs) free h = (
  elim (Bool-cases (tenant =? r.tenant)) [
    | inl same ↦
        let missing : get r.tenant m ≡ none = rw (← (=?_iff tenant r.tenant).0 same) free in
        absurd (cc (missing, h.0))
    | inr other ↦ rw (get-insert tenant r.tenant n m, other) h.0
  ],
  inserted-Listed m tenant n rs free h.1,
)

module _ (P : Request → Type 0) where
  All-replace :
      (front : List Request) (r q : Request) (back : List Request)
      → All P (front ++ (r ∷ back))
      → (P r → P q)
      → All P (front ++ (q ∷ back))
  All-replace [] r q back h f = (f h.0, h.1)
  All-replace (x ∷ front) r q back h f = (h.0, All-replace front r q back h.1 f)

  All-drop :
      (front : List Request) (r : Request) (back : List Request)
      → All P (front ++ (r ∷ back))
      → All P (front ++ back)
  All-drop [] r back h = h.1
  All-drop (x ∷ front) r back h = (h.0, All-drop front r back h.1)

total-drop :
    (f : Request → ℕ) (front : List Request) (r : Request) (back : List Request)
    → total f (front ++ back) ≤ total f (front ++ (r ∷ back))
total-drop f [] r back = omega arith
total-drop f (x ∷ front) r back = omega (arith, total-drop f front r back)

module _ (limit : ℕ) (s : TenantConcurrencyLimiter) (v : IsValid limit s) where
  acquire-IsValid : (tenant : String) → IsValid limit (acquire tenant s)
  unfolding acquire
  acquire-IsValid tenant =
      let retained = filter (λ (e : String × ℕ). is_alive e.1 s.requests) s.semaphores in
      let kept =
        retained-Listed s.semaphores s.requests s.requests v.listed (all_alive s.requests) in
      elim (Option-cases (get tenant retained)) [
        | inr (n, found) ↦
            rw (acquire, v.config, found)
              (record {
                config = v.config;
                listed = (found, kept);
                bounded = λ k. ground (arith, v.bounded k);
              })
        | inl free ↦
            rw (acquire, v.config, free)
              (record {
                config = v.config;
                listed = (
                  ground (arith, get-insert tenant tenant s.next retained, =?_iff tenant tenant),
                  inserted-Listed retained tenant s.next s.requests free kept,
                );
                bounded = λ k. ground (arith, v.bounded k);
              })
      ]

  grant-IsValid :
      (front : List Request) (r : Request) (back : List Request)
      → At front r back s
      → total (holds r.semaphore) s.requests < limit
      → r.phase ≡ waiting
      → IsValid limit (grant front r back s)
  unfolding grant
  grant-IsValid front r back at room idle =
      let there : All (Listed s.semaphores) (front ++ (r ∷ back)) = rw (← at) v.listed in
      record {
        config = v.config;
        listed =
            All-replace (Listed s.semaphores) front r (record r { phase = holding }) back there
              (λ h. h);
        bounded = λ k.
            let before = total-append (holds k) front r back in
            let after = total-append (holds k) front (record r { phase = holding }) back in
            let old = ap (λ rs. total (holds k) rs) at in
            elim (Bool-cases (r.semaphore == k)) [
              | inl same ↦
                  let free : total (holds k) s.requests < limit =
                    subst (λ n. total (holds n) s.requests < limit) (ground (arith, same)) room in
                  let one : holds k (record r { phase = holding }) ≤ 1 = rw same (omega arith) in
                  omega (arith, before, after, old, free, one)
              | inr other ↦ ground (arith, before, after, old, v.bounded k, other)
            ];
      }

  release-IsValid :
      (front : List Request) (r : Request) (back : List Request)
      → At front r back s
      → IsValid limit (release front back s)
  unfolding release
  release-IsValid front r back at =
      let there : All (Listed s.semaphores) (front ++ (r ∷ back)) = rw (← at) v.listed in
      record {
        config = v.config;
        listed = All-drop (Listed s.semaphores) front r back there;
        bounded = λ k. omega (
          arith,
          total-drop (holds k) front r back,
          ap (λ rs. total (holds k) rs) at,
          v.bounded k,
        );
      }

Step-IsValid :
    {limit : ℕ} {s u : TenantConcurrencyLimiter} → IsValid limit s → Step s u → IsValid limit u
Step-IsValid {limit} {s} v (acquire_called tenant) = acquire-IsValid limit s v tenant
Step-IsValid {limit} {s} v (granted m front r back c at idle room) =
    let same : some m ≡ some limit = sym c ∙ v.config in
    let less : total (holds r.semaphore) s.requests < limit = ground (arith, same, room) in
    grant-IsValid limit s v front r back at less idle
Step-IsValid {limit} {s} v (released front r back at) = release-IsValid limit s v front r back at

Reach-IsValid :
    {limit : ℕ} {s u : TenantConcurrencyLimiter} → IsValid limit s → Reach s u → IsValid limit u
Reach-IsValid v here = v
Reach-IsValid v (next_step r st) = Step-IsValid (Reach-IsValid v r) st

with_max_per_tenant-IsValid : (n : ℕ) → 1 ≤ n → IsValid n (with_max_per_tenant n)
unfolding with_max_per_tenant
with_max_per_tenant-IsValid n h = record {
  config = ground (arith, h);
  listed = tt;
  bounded = λ k. omega arith;
}

-- 1 for a request of the tenant that has a permit
abbrev pub holds_for : String → Request → ℕ
holds_for t r = if r.tenant =? t then holds_in r.phase else 0

-- The permits of a tenant without a semaphore.
no_permits :
    (t : String) (m : BTreeMap String ℕ) (rs : List Request)
    → get t m ≡ none
    → All (Listed m) rs
    → total (holds_for t) rs ≡ 0
no_permits t m [] free h = refl
no_permits t m (r ∷ rs) free h = elim (Bool-cases (r.tenant =? t)) [
  | inl same ↦
      let missing : get r.tenant m ≡ none = rw ((=?_iff r.tenant t).0 same) free in
      absurd (cc (missing, h.0))
  | inr other ↦ rw other (omega (arith, no_permits t m rs free h.1))
]

-- The permits of a tenant are permits of its semaphore.
permits_le :
    (t : String) (n : ℕ) (m : BTreeMap String ℕ) (rs : List Request)
    → get t m ≡ some n
    → All (Listed m) rs
    → total (holds_for t) rs ≤ total (holds n) rs
permits_le t n m [] has h = omega arith
permits_le t n m (r ∷ rs) has h = elim (Bool-cases (r.tenant =? t)) [
  | inl same ↦
      let own : some r.semaphore ≡ some n = sym h.0 ∙ (rw ((=?_iff r.tenant t).0 same) has) in
      ground (arith, own, same, permits_le t n m rs has h.1)
  | inr other ↦ rw other (omega (arith, permits_le t n m rs has h.1))
]

-- Under a positive limit, in every state that the limiter reaches, at most that many requests of
-- a tenant have permits, however the requests of all tenants interleave.
pub Reach-bounded :
    (max_per_tenant : ℕ) {s : TenantConcurrencyLimiter}
    → 1 ≤ max_per_tenant
    → Reach (with_max_per_tenant max_per_tenant) s
    → (tenant : String) → total (holds_for tenant) s.requests ≤ max_per_tenant
Reach-bounded n {s} h reach tenant =
    let v = Reach-IsValid (with_max_per_tenant-IsValid n h) reach in
    elim (Option-cases (get tenant s.semaphores)) [
      | inl free ↦ omega (arith, no_permits tenant s.semaphores s.requests free v.listed)
      | inr (k, has) ↦
          omega (arith, permits_le tenant k s.semaphores s.requests has v.listed, v.bounded k)
    ]
