-- ===== src/Kernel/ToolLedger/Resolution.antt =====
-- What recording a call or a result does to the list of unresolved calls.
use miya_api.Prelude.{
  ◌+◌, ◌≤◌, ◌≡◌, refl, true, not, none, List, [], ◌∷◌, filter, All, ◌=?◌, =?_iff, =?_refl,
  pair_test, pair_ord, text_ord, is_some, arith, ok, err, if◌then◌else◌,
}
use miya_api.BTreeMap.{BTreeMap, get, insert, adjust, get-insert, len-insert-le, len-adjust}
use miya_api.Protocol.Ids.{IsolationKey, ToolCallId, TaskId, key_ord}
use miya_api.Protocol.Artifacts.{ToolCallRecord, ToolResultRecord}
use miya_api.Kernel.Error.{unknown_tool_call}
use miya_api.Kernel.ToolLedger.{
  CallKey, ToolLedger, record_call, record_result, resolve, unresolved, unresolved_calls,
  unresolved_calls_for_task, call_count,
}

-- Each call stands at its own scope and id.
abbrev pub Keyed : BTreeMap CallKey ToolCallRecord → Type 0
Keyed = All (λ e. (e.0 ≡ (e.1.scope, e.1.tool_call_id)))

insert-Keyed :
    (call : ToolCallRecord) (m : BTreeMap CallKey ToolCallRecord)
    → Keyed m
    → Keyed (insert (call.scope, call.tool_call_id) call m)
unfolding insert
insert-Keyed call [] h = (refl, tt)
insert-Keyed call (e ∷ m) h = ground (arith, insert-Keyed call m h.1)

adjust-Keyed :
    (k : CallKey) (m : BTreeMap CallKey ToolCallRecord) → Keyed m → Keyed (adjust k resolve m)
unfolding adjust resolve
adjust-Keyed k [] h = tt
adjust-Keyed k (e ∷ m) h = ground (arith, adjust-Keyed k m h.1)

pub record_call-Keyed :
    (l : ToolLedger) (call : ToolCallRecord) → Keyed l.calls → Keyed (record_call l call).calls
unfolding record_call
record_call-Keyed l call h = insert-Keyed call l.calls h

pub record_result-Keyed :
    (l : ToolLedger) (r : ToolResultRecord) → Keyed l.calls → Keyed (record_result r l).1.calls
unfolding record_result
record_result-Keyed l r h = ground (arith, adjust-Keyed (r.scope, r.tool_call_id) l.calls h)

pub call_count-record_call-le :
    (l : ToolLedger) (call : ToolCallRecord) → call_count (record_call l call) ≤ call_count l + 1
unfolding record_call call_count
call_count-record_call-le l call = len-insert-le (call.scope, call.tool_call_id) call l.calls

pub call_count-record_result :
    (l : ToolLedger) (r : ToolResultRecord) → call_count (record_result r l).1 ≡ call_count l
unfolding record_result call_count
call_count-record_result l r = ground (arith, len-adjust (r.scope, r.tool_call_id) resolve l.calls)

-- A result for a call that is not there is refused, and nothing is written.
record_result_unknown :
    (l : ToolLedger) (r : ToolResultRecord)
    → get (r.scope, r.tool_call_id) l.calls ≡ none
    → record_result r l ≡ (err (unknown_tool_call r.scope r.tool_call_id), l)
unfolding record_result
record_result_unknown l r h = rw (h, record_result)

-- the calls of `s` other than `i`
abbrev pub without : ToolCallId → List ToolCallRecord → List ToolCallRecord
without i = filter (λ call. not (call.tool_call_id =? i))

-- The change that a result makes to its call does not matter once the result is recorded.
unresolved-adjust :
    (s : IsolationKey) (k : CallKey) (results : BTreeMap CallKey ToolResultRecord)
    (m : BTreeMap CallKey ToolCallRecord)
    → is_some (get k results) ≡ true
    → unresolved s results (adjust k resolve m) ≡ unresolved s results m
unfolding unresolved adjust
unresolved-adjust s k results [] h = refl
unresolved-adjust s k results (((a, i), call) ∷ m) h =
    ground (arith, =?_iff {A = CallKey} (a, i) k, =?_iff a s, unresolved-adjust s k results m h)

unresolved-insert :
    (s : IsolationKey) (r : ToolResultRecord) (results : BTreeMap CallKey ToolResultRecord)
    (m : BTreeMap CallKey ToolCallRecord)
    → Keyed m
    → unresolved s (insert (r.scope, r.tool_call_id) r results) m ≡ (
        if r.scope =? s
        then without r.tool_call_id (unresolved s results m)
        else unresolved s results m)
unfolding unresolved
unresolved-insert s r results [] h = ground arith
unresolved-insert s r results (((a, i), call) ∷ m) h = ground (
  arith,
  get-insert {K = CallKey} (r.scope, r.tool_call_id) (s, i) r results,
  pair_test r.scope s r.tool_call_id i,
  =?_iff r.tool_call_id i,
  =?_iff call.tool_call_id r.tool_call_id,
  unresolved-insert s r results m h.1,
)

-- A result that finds its call takes exactly that call off the unresolved calls of its scope, and
-- leaves those of every other scope as they were.
pub unresolved_calls-record_result :
    (l : ToolLedger) (r : ToolResultRecord) (s : IsolationKey)
    → Keyed l.calls
    → (record_result r l).0 ≡ ok tt
    → unresolved_calls (record_result r l).1 s ≡ (
        if r.scope =? s
        then without r.tool_call_id (unresolved_calls l s)
        else unresolved_calls l s)
unfolding record_result unresolved_calls
unresolved_calls-record_result l r s keyed found = ground (
  arith,
  unresolved-adjust s (r.scope, r.tool_call_id) (insert (r.scope, r.tool_call_id) r l.results)
      l.calls,
  get-insert {K = CallKey} (r.scope, r.tool_call_id) (r.scope, r.tool_call_id) r l.results,
  =?_refl {A = CallKey} (r.scope, r.tool_call_id),
  unresolved-insert s r l.results l.calls keyed,
)

-- What the unresolved calls of a task have in common.
abbrev pub IsOpenFor : ToolLedger → IsolationKey → TaskId → ToolCallRecord → Type 0
IsOpenFor l s task call =
    (call.scope ≡ s) × (call.task_id ≡ task) × (get (s, call.tool_call_id) l.results ≡ none)

unresolved-open :
    (l : ToolLedger) (s : IsolationKey) (task : TaskId) (m : BTreeMap CallKey ToolCallRecord)
    → Keyed m
    → All (IsOpenFor l s task) (filter (λ call. call.task_id =? task) (unresolved s l.results m))
unfolding unresolved
unresolved-open l s task [] h = tt
unresolved-open l s task (((a, i), call) ∷ m) h =
    ground (arith, =?_iff a s, =?_iff call.task_id task, unresolved-open l s task m h.1)

-- The unresolved calls of a task are calls of that task in the scope asked for, and none has a
-- result.
pub unresolved_calls_for_task-open :
    (l : ToolLedger) (s : IsolationKey) (task : TaskId)
    → Keyed l.calls
    → All (IsOpenFor l s task) (unresolved_calls_for_task l s task)
unfolding unresolved_calls_for_task
unresolved_calls_for_task-open l s task h = unresolved-open l s task l.calls h
