-- ===== src/Kernel/ToolLedger.antt =====
-- `ToolLedger` of crates/agent-kernel/src/lib.rs: the tool calls of a run and their results.
pub mod Resolution
use miya_api.Prelude.{
  ℕ, Bool, not, ◌&&◌, Option, none, some, List, [], ◌∷◌, filter, Ord, ◌=?◌, pair_ord, text_ord,
  is_some, saturating_add, u64_max, Result, ok, err, Method, if◌then◌else◌,
}
use miya_api.BTreeMap
use miya_api.BTreeMap.{BTreeMap}
use miya_api.Protocol.Ids.{IsolationKey, ToolCallId, TaskId, key_ord}
use miya_api.Protocol.Artifacts.{ToolCallRecord, ToolResultRecord, ToolCallStatus}
use miya_api.Kernel.Error.{KernelError, unknown_tool_call}

abbrev pub CallKey : Type 0
CallKey = IsolationKey × ToolCallId

pub record ToolLedger : Type 0 where
  pub calls : BTreeMap CallKey ToolCallRecord
  pub results : BTreeMap CallKey ToolResultRecord

pub new : ToolLedger
new = record { calls = BTreeMap.empty; results = BTreeMap.empty }

unfoldable pub record_call : ToolLedger → ToolCallRecord → ToolLedger
record_call l call = record l {
  calls = BTreeMap.insert (call.scope, call.tool_call_id) call l.calls;
}

unfoldable pub resolve : ToolCallRecord → ToolCallRecord
resolve call = record call {
  status = ToolCallStatus.resolved;
  resolved_at_ms = some (saturating_add u64_max call.created_at_ms 1);
}

unfoldable pub record_result : ToolResultRecord → Method ToolLedger KernelError (Unit {0})
unfolding resolve
record_result r l = elim (BTreeMap.get (r.scope, r.tool_call_id) l.calls) [
  | none ↦ (err (unknown_tool_call r.scope r.tool_call_id), l)
  | some call ↦ (
    ok tt,
    record l {
      calls = BTreeMap.adjust (r.scope, r.tool_call_id) resolve l.calls;
      results = BTreeMap.insert (r.scope, r.tool_call_id) r l.results;
    },
  )
]

-- The calls of a scope with no result, in the order of the keys.
unfoldable pub unresolved :
    IsolationKey
    → BTreeMap CallKey ToolResultRecord
    → BTreeMap CallKey ToolCallRecord
    → List ToolCallRecord
unresolved s results [] = []
unresolved s results (((call_scope, call_id), call) ∷ rest) =
    if call_scope =? s && not (BTreeMap.contains_key (s, call_id) results)
    then call ∷ unresolved s results rest
    else unresolved s results rest

unfoldable pub unresolved_calls : ToolLedger → IsolationKey → List ToolCallRecord
unfolding unresolved
unresolved_calls l s = unresolved s l.results l.calls

unfoldable pub unresolved_calls_for_task : ToolLedger → IsolationKey → TaskId → List ToolCallRecord
unfolding unresolved_calls
unresolved_calls_for_task l s task = filter (λ call. call.task_id =? task) (unresolved_calls l s)

unfoldable pub call_count : ToolLedger → ℕ
call_count l = BTreeMap.len l.calls
