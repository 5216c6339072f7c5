-- ===== src/Tests/Stores.antt =====
-- The durable store and the store of responses at two tenants.
use mathlib.Core.List.{Permᴰ}
use miya_api.Prelude.{
  ℕ, ◌≡◌, refl, true, ◌&&◌, String, none, some, List, [], ◌∷◌, All, ok, err, fail, text_ord, ◌=?◌,
  join, no_colon, if◌then◌else◌, all_chars,
}
use miya_api.BTreeMap.{BTreeMap, empty}
use miya_api.Protocol.Json.{null}
use miya_api.ApiServer.DurableStore.{memory, validate_component, get_json}
use miya_api.ApiServer.DurableStore.Objects.{
  Command, put, delete, updates, run_all, accepts, get_json-run_all,
}
use miya_api.ApiServer.ResponsesStore.{
  StoredOpenAiResponse, ResponsesStore, KvStore, get_response, list,
}
use miya_api.ApiServer.ResponsesStore
use miya_api.ApiServer.ResponsesStore.Tenants.{in_memory, get_response-put, get_response-put_colon}
use miya_api.ApiServer.ResponsesStore.Order.{NewestFirst, own, list-in_memory}
use miya_api.Tests.Digests.{digest, digest-no_colon, digest_injective}
use miya_api.Tests.Codecs.{number_codec, response_codec}

abbrev commands : List (Command ℕ)
commands =
    put "jobs" "acme" "one" 7
    ∷ put "jobs" "zed" "one" 8
    ∷ put "bad name" "acme" "two" 9
    ∷ delete "jobs" "zed" "one"
    ∷ []

names_accepted : accepts "jobs" "one" ≡ true
unfolding validate_component all_chars
names_accepted = refl

get_json-run_all_example :
    get_json digest "jobs" "acme" "one" (run_all digest commands memory)
    ≡ (ok (updates commands (λ n t i. none) "jobs" "acme" "one"), run_all digest commands memory)
get_json-run_all_example =
    get_json-run_all digest digest-no_colon digest_injective commands "jobs" "acme" "one"
      names_accepted

abbrev others : List (Command ℕ)
others = put "jobs" "zed" "one" 8 ∷ put "files" "acme" "one" 9 ∷ delete "jobs" "zed" "one" ∷ []

-- a key-value store that is not there
abbrev no_kv : KvStore ℕ
no_kv = record {
  put_value = λ n t i v. fail "no store";
  get_value = λ n t i k. err "no store";
  list_values = λ n t k. err "no store";
  delete_value = λ n t i. fail "no store";
}

abbrev answer : String → String → ℕ → StoredOpenAiResponse ℕ
answer tenant_id id created_at = record {
  tenant_id = tenant_id;
  id = id;
  created_at = created_at;
  response = null;
  conversation_messages = 1 ∷ [];
  input_items = [];
}

plain : all_chars no_colon "acme" ≡ true
unfolding all_chars
plain = refl

get_response-put_example :
    get_response no_kv "acme" "resp_1"
      (ResponsesStore.put no_kv (answer "acme" "resp_1" 5) (in_memory empty)).1
    ≡ (if (answer "acme" "resp_1" 5).tenant_id =? "acme"
          && (answer "acme" "resp_1" 5).id =? "resp_1"
        then ok (some (answer "acme" "resp_1" 5))
        else get_response no_kv "acme" "resp_1" (in_memory empty))
get_response-put_example =
    get_response-put no_kv (answer "acme" "resp_1" 5) empty "acme" "resp_1" plain plain

get_response-put_colon_example :
    get_response no_kv "acme"
      (join "eu" "resp_1")
      (ResponsesStore.put no_kv (answer (join "acme" "eu") "resp_1" 5) (in_memory empty)).1
    ≡ ok (some (answer (join "acme" "eu") "resp_1" 5))
get_response-put_colon_example =
    get_response-put_colon no_kv (answer (join "acme" "eu") "resp_1" 5) empty "acme" "eu" refl

abbrev two_answers : BTreeMap String (StoredOpenAiResponse ℕ)
two_answers = ("acme:a", answer "acme" "a" 3) ∷ ("acme:b", answer "acme" "b" 7) ∷ []

list-in_memory_example :
    (rs : List (StoredOpenAiResponse ℕ)) × (list no_kv "acme" (in_memory two_answers) ≡ ok rs)
    × Permᴰ rs (own "acme" two_answers)
    × All (λ (r : StoredOpenAiResponse ℕ). r.tenant_id ≡ "acme") rs
    × NewestFirst rs
list-in_memory_example = list-in_memory no_kv "acme" two_answers

-- The newest comes first.
newest_first :
    list no_kv "acme" (in_memory two_answers) ≡ ok (answer "acme" "b" 7 ∷ answer "acme" "a" 3 ∷ [])
unfolding list ResponsesStore.insert_stored
newest_first = refl
