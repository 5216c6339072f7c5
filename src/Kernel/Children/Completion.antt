-- ===== src/Kernel/Children/Completion.antt =====
-- The order in which the children's calls end does not show in the run.
use mathlib.Core.List.{Permᴰ}
use mathlib.Core.List.Permᴰ
use miya_api.Prelude.{
  ℕ, suc, ◌+◌, ◌≤◌, ◌≡◌, refl, sym, ap, ◌∙◌, subst, String, Option, List, [], ◌∷◌, map, length, All,
  Result, ok, err, arith,
}
use miya_api.Protocol.Ids.{IsolationKey}
use miya_api.Protocol.Tasks.{SubtaskSpec, SpawnPlan}
use miya_api.Protocol.Request.{NormalizedRequest}
use miya_api.Provider.{ProviderResponse}
use miya_api.Kernel.Error.{KernelError}
use miya_api.Kernel.ArtifactStore.{ArtifactStore}
use miya_api.Kernel.Policy.{KernelPolicy}
use miya_api.Kernel.Runner.{Run, Reply, Prompts, reply_result}
use miya_api.Kernel.Children.{
  ChildRequest, ChildResult, index_of, collect_results, sort_by_index, child_request,
  child_requests, child_result, apply_children, run_children,
}
use miya_api.Kernel.Children.Order.{
  DistinctIndices, Apart, sort_by_index-Permᴰ, collect_results-Permᴰ, collect_results-Split,
}

map-Permᴰ : {A B : Type 0} (f : A → B) {xs ys : List A} → Permᴰ xs ys → Permᴰ (map f xs) (map f ys)
map-Permᴰ f Permᴰ.nil = Permᴰ.nil
map-Permᴰ f (Permᴰ.cons e p) = Permᴰ.cons (ap f e) (map-Permᴰ f p)
map-Permᴰ f (Permᴰ.swap e e') = Permᴰ.swap (ap f e) (ap f e')
map-Permᴰ f (Permᴰ.trans p q) = Permᴰ.trans (map-Permᴰ f p) (map-Permᴰ f q)

length-Permᴰ : {A : Type 0} {xs ys : List A} → Permᴰ xs ys → length xs ≡ length ys
length-Permᴰ Permᴰ.nil = refl
length-Permᴰ (Permᴰ.cons e p) = ap suc (length-Permᴰ p)
length-Permᴰ (Permᴰ.swap e f) = refl
length-Permᴰ (Permᴰ.trans p q) = length-Permᴰ p ∙ length-Permᴰ q

module _ (prompts : Prompts) (policy : KernelPolicy) (request : NormalizedRequest)
    (reply : ChildRequest → Reply) where
  child_result-child :
      (c : ChildRequest) (r : ChildResult)
      → child_result prompts policy request reply c ≡ ok r
      → r.child ≡ c
  unfolding child_result
  child_result-child c r h = from (reply_result c.request (reply c)) refl
    where
      from :
          (x : Result KernelError ProviderResponse)
          → reply_result c.request (reply c) ≡ x
          → r.child ≡ c
      from (ok response) eq =
          let whole : child_result prompts policy request reply c
              ≡ ok (record { child = c; response = response }) =
            rw (eq, child_result) refl in
          let same : ◌≡◌ {A = ChildResult} (record { child = c; response = response }) r = cc in
          ap (λ (x : ChildResult). x.child) (sym same)
      from (err e) eq =
          let whole : child_result prompts policy request reply c ≡ err e =
            rw (eq, child_result) refl in
          absurd cc

  abbrev From : ℕ → ChildResult → Type 0
  From n r = n ≤ index_of r

  -- The results that come later have greater indices.
  later-Apart :
      (v : ChildResult) (n : ℕ) (l : List ChildResult)
      → index_of v ≡ n
      → All (From (n + 1)) l
      → All (Apart v) l
  later-Apart v n [] at h = tt
  later-Apart v n (x ∷ l) at h = (ground (arith, h.0), later-Apart v n l at h.1)

  earlier_From : (n : ℕ) (l : List ChildResult) → All (From (n + 1)) l → All (From n) l
  earlier_From n [] h = tt
  earlier_From n (x ∷ l) h = (omega (arith, h.0), earlier_From n l h.1)

  -- The results of an order of tasks have the indices of their tasks, which differ.
  abbrev Indexed : ℕ → List ChildResult → Type 0
  Indexed n results = All (From n) results × DistinctIndices results

  answers_distinct :
      (store : ArtifactStore) (n : ℕ) (tasks : List SubtaskSpec) (results : List ChildResult)
      → collect_results (
          map
            (child_result prompts policy request reply)
            (child_requests prompts policy request store n tasks))
        ≡ ok results
      → Indexed n results
  unfolding child_requests child_request collect_results
  answers_distinct store n [] results h =
      let none : [] ≡ results = cc in subst (Indexed n) none (tt, tt)
  answers_distinct store n (task ∷ rest) results h =
      let c = child_request prompts policy request store n task in
      let (v, others, first, following, whole) =
        collect_results-Split (child_result prompts policy request reply c)
          (map (child_result prompts policy request reply)
            (child_requests prompts policy request store (n + 1) rest))
          results h in
      let at : index_of v ≡ n = ap (λ (x : ChildRequest). x.index) (child_result-child c v first) in
      let (later, distinct) = answers_distinct store (n + 1) rest others following in
      subst (Indexed n) (sym whole) (
        (omega (arith, at), earlier_From n others later),
        (later-Apart v n others at later, distinct),
      )

  module _
      (encrypt : ℕ
        → IsolationKey
        → SubtaskSpec
        → ProviderResponse
        → String
        → Option (String × String))
      (plan_text : SpawnPlan → Option String) (store : ArtifactStore) (tasks : List SubtaskSpec)
      (completed : List ChildRequest)
      (order : Permᴰ (child_requests prompts policy request store 0 tasks) completed) where
    abbrev in_order : List ChildRequest
    in_order = child_requests prompts policy request store 0 tasks

    abbrev results_of : List ChildRequest → Result KernelError (List ChildResult)
    results_of children = collect_results (map (child_result prompts policy request reply) children)

    abbrev counted : List ChildRequest → Run → Run
    counted children run = record run { invocations = run.invocations + length children }

    -- all calls are answered
    run_children-ok :
        (children : List ChildRequest) (results : List ChildResult) (run : Run)
        → results_of children ≡ ok results
        → run_children prompts policy request encrypt plan_text reply children run
          ≡ apply_children prompts policy request encrypt plan_text
              (sort_by_index results)
              (counted children run)
    unfolding run_children
    run_children-ok children results run h = rw (h, run_children) refl

    -- Where every child's call is answered, the run after the phase is the same in whatever order
    -- the calls end: that of calls which end in the order of the tasks.
    pub run_children_order :
        (results : List ChildResult) (run : Run)
        → collect_results (
            map
              (child_result prompts policy request reply)
              (child_requests prompts policy request store 0 tasks))
          ≡ ok results
        → run_children prompts policy request encrypt plan_text reply completed run
          ≡ run_children prompts policy request encrypt plan_text reply
              (child_requests prompts policy request store 0 tasks)
              run
    run_children_order results run h =
        let (results', h', perm) =
          collect_results-Permᴰ results
            (map-Permᴰ (child_result prompts policy request reply) order) h in
        let sorted : sort_by_index results' ≡ sort_by_index results =
          sym (sort_by_index-Permᴰ perm (answers_distinct store 0 tasks results h).1) in
        let count : length completed ≡ length in_order = sym (length-Permᴰ order) in
        run_children-ok completed results' run h'
        ∙ (ap
              (λ l.
                apply_children prompts policy request encrypt plan_text l (counted completed run))
              sorted
            ∙ (ap
                  (λ n.
                    apply_children prompts policy request encrypt plan_text (sort_by_index results)
                      (record run { invocations = run.invocations + n }))
                  count
                ∙ sym (run_children-ok in_order results run h)))

    -- Where some child's call fails, the phase fails in whatever order the calls end, and no answer
    -- of a child is applied.
    pub run_children_fails :
        (e : KernelError) (run : Run)
        → collect_results (
            map
              (child_result prompts policy request reply)
              (child_requests prompts policy request store 0 tasks))
          ≡ err e
        → (e' : KernelError) × ((run_children prompts policy request encrypt plan_text reply
              completed run).0
            ≡ err e')
          × ((run_children prompts policy request encrypt plan_text reply completed run).1.working
              ≡ run.working)
    unfolding run_children
    run_children_fails e run h = from (results_of completed) refl
      where
        from :
            (x : Result KernelError (List ChildResult))
            → results_of completed ≡ x
            → (e' : KernelError) × ((run_children prompts policy request encrypt plan_text reply
                  completed run).0
                ≡ err e')
              × ((run_children prompts policy request encrypt plan_text reply completed
                    run).1.working
                  ≡ run.working)
        from (ok results) eq =
            let (values, h', perm) =
              collect_results-Permᴰ results
                (map-Permᴰ (child_result prompts policy request reply) (Permᴰ.symm order)) eq in
            absurd cc
        from (err e') eq = (e', rw (eq, run_children) refl, rw (eq, run_children) refl)
