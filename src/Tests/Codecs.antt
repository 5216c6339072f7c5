-- ===== src/Tests/Codecs.antt =====
-- Codecs of the stored records: a record is written as the pairs of its fields.
use miya_api.Prelude.{
  ℕ, ◌≡◌, refl, Bool, String, Option, none, some, List, [], ◌∷◌, Result, ok, err,
}
use miya_api.Protocol.Json.{Value, null, boolean, number, string, array, Values, nil, cons}
use miya_api.ApiServer.DurableStore.{Codec}
use miya_api.ApiServer.ResponsesStore.{StoredOpenAiResponse}
use miya_api.ApiServer.Batch.{StoredOpenAiFile, OpenAiBatchRecord}
use miya_api.ApiServer.Batch.Anthropic.{AnthropicBatchRecord}

-- A type whose values can be written and read back.
pub record Form (A : Type 0) : Type 0 where
  pub write : A → Value
  pub read : Value → Option A
  pub read-write : (a : A) → read (write a) ≡ some a

unfoldable pub read_number : Value → Option ℕ
read_number (number n) = some n
read_number v = none

unfoldable pub read_string : Value → Option String
read_string (string s) = some s
read_string v = none

unfoldable pub read_boolean : Value → Option Bool
read_boolean (boolean b) = some b
read_boolean v = none

instance abbrev pub number_form : Form ℕ
unfolding read_number
number_form = record { write = number; read = read_number; read-write = λ n. refl }

instance abbrev pub string_form : Form String
unfolding read_string
string_form = record { write = string; read = read_string; read-write = λ s. refl }

instance abbrev pub boolean_form : Form Bool
unfolding read_boolean
boolean_form = record { write = boolean; read = read_boolean; read-write = λ b. refl }

instance abbrev pub value_form : Form Value
value_form = record { write = λ v. v; read = some; read-write = λ v. refl }

module _ {A : Type 0} ⦃f : Form A⦄ where
  unfoldable pub write_option : Option A → Value
  write_option none = null
  write_option (some a) = array (cons (f.write a) nil)

  unfoldable pub read_some : Option A → Option (Option A)
  read_some none = none
  read_some (some a) = some (some a)

  unfoldable pub read_option : Value → Option (Option A)
  read_option null = some none
  read_option (array (cons v nil)) = read_some (f.read v)
  read_option v = none

  pub read_option-write_option : (o : Option A) → read_option (write_option o) ≡ some o
  unfolding read_option write_option read_some
  read_option-write_option none = refl
  read_option-write_option (some a) = rw (f.read-write a) refl

  instance abbrev pub option_form : Form (Option A)
  option_form = record {
    write = write_option;
    read = read_option;
    read-write = read_option-write_option;
  }

  unfoldable pub write_list : List A → Values
  write_list [] = nil
  write_list (a ∷ rest) = cons (f.write a) (write_list rest)

  unfoldable pub add_read : Option A → Option (List A) → Option (List A)
  add_read (some a) (some rest) = some (a ∷ rest)
  add_read (some a) none = none
  add_read none rest = none

  unfoldable pub read_values : Values → Option (List A)
  read_values nil = some []
  read_values (cons v vs) = add_read (f.read v) (read_values vs)

  unfoldable pub read_list : Value → Option (List A)
  read_list (array vs) = read_values vs
  read_list v = none

  pub read_values-write_list : (l : List A) → read_values (write_list l) ≡ some l
  unfolding read_values write_list add_read
  read_values-write_list [] = refl
  read_values-write_list (a ∷ rest) = rw (f.read-write a, read_values-write_list rest) refl

  instance abbrev pub list_form : Form (List A)
  unfolding read_list
  list_form = record {
    write = λ l. array (write_list l);
    read = read_list;
    read-write = read_values-write_list;
  }

module _ {A B : Type 0} ⦃f : Form A⦄ ⦃g : Form B⦄ where
  unfoldable pub pair_up : Option A → Option B → Option (A × B)
  pair_up (some a) (some b) = some (a, b)
  pair_up (some a) none = none
  pair_up none o = none

  unfoldable pub read_pair : Value → Option (A × B)
  read_pair (array (cons v (cons w nil))) = pair_up (f.read v) (g.read w)
  read_pair v = none

  pub read_pair-write :
      (a : A) (b : B) → read_pair (array (cons (f.write a) (cons (g.write b) nil))) ≡ some (a, b)
  unfolding read_pair pair_up
  read_pair-write a b = rw (f.read-write a, g.read-write b) refl

  instance abbrev pub pair_form : Form (A × B)
  pair_form = record {
    write = λ p. array (cons (f.write p.0) (cons (g.write p.1) nil));
    read = read_pair;
    read-write = λ p. read_pair-write p.0 p.1;
  }

-- A codec of records, by their fields.
module _ {A T : Type 0} ⦃f : Form A⦄ (fields : T → A) (make : A → T)
    (law : (x : T) → make (fields x) ≡ x) where
  unfoldable pub read_record : Option A → Result String T
  read_record none = err "not such a record"
  read_record (some a) = ok (make a)

  pub read_record-write :
      (x : T) (v : Value)
      → ◌≡◌ {A = Result String Value} (ok (f.write (fields x))) (ok v)
      → read_record (f.read v) ≡ ok x
  unfolding read_record
  read_record-write x v h =
      let same : v ≡ f.write (fields x) = cc in rw (same, f.read-write (fields x), law x) refl

  abbrev pub record_codec : Codec T
  record_codec = record {
    to_value = λ x. ok (f.write (fields x));
    from_value = λ v. read_record (f.read v);
    from_value-to_value = read_record-write;
  }

instance abbrev pub number_codec : Codec ℕ
number_codec = record_codec (λ (n : ℕ). n) (λ n. n) (λ n. refl)

abbrev pub StoredFileFields : Type 0
StoredFileFields =
    (String)
    × ((String)
        × ((ℕ) × ((ℕ) × ((String) × ((String) × ((String) × ((Option ℕ) × (Option String))))))))

abbrev pub stored_file_fields : StoredOpenAiFile → StoredFileFields
stored_file_fields r = (
  r.tenant_id,
  (
    r.id,
    (
      r.bytes,
      (r.created_at, (r.filename, (r.purpose, (r.status, (r.expires_at, r.status_details))))),
    ),
  ),
)

abbrev pub make_stored_file : StoredFileFields → StoredOpenAiFile
make_stored_file t = record {
  tenant_id = t.0;
  id = t.1.0;
  bytes = t.1.1.0;
  created_at = t.1.1.1.0;
  filename = t.1.1.1.1.0;
  purpose = t.1.1.1.1.1.0;
  status = t.1.1.1.1.1.1.0;
  expires_at = t.1.1.1.1.1.1.1.0;
  status_details = t.1.1.1.1.1.1.1.1;
}

instance abbrev pub stored_file_codec : Codec StoredOpenAiFile
stored_file_codec = record_codec stored_file_fields make_stored_file (λ r. refl)

abbrev pub BatchFields : Type 0
BatchFields =
    (String)
    × ((String)
        × ((String)
            × ((ℕ)
                × ((String)
                    × ((String)
                        × ((String)
                            × ((Option ℕ)
                                × ((Option ℕ)
                                    × ((Option ℕ)
                                        × ((Option String)
                                            × ((Option Value)
                                                × ((Option ℕ)
                                                    × ((Option ℕ)
                                                        × ((Option ℕ)
                                                            × ((Option ℕ)
                                                            × ((Option ℕ)
                                                            × ((Value)
                                                            × ((Option String)
                                                            × ((ℕ × (ℕ × ℕ))
                                                            × ((ℕ × ℕ) × (Bool)))))))))))))))))))))

abbrev pub batch_fields : OpenAiBatchRecord → BatchFields
batch_fields r = (
  r.tenant_id,
  (
    r.id,
    (
      r.completion_window,
      (
        r.created_at,
        (
          r.endpoint,
          (
            r.input_file_id,
            (
              r.status,
              (
                r.cancelled_at,
                (
                  r.cancelling_at,
                  (
                    r.completed_at,
                    (
                      r.error_file_id,
                      (
                        r.errors,
                        (
                          r.expired_at,
                          (
                            r.expires_at,
                            (
                              r.failed_at,
                              (
                                r.finalizing_at,
                                (
                                  r.in_progress_at,
                                  (
                                    r.metadata,
                                    (
                                      r.output_file_id,
                                      (
                                        (
                                          r.request_counts.total,
                                          (r.request_counts.completed, r.request_counts.failed),
                                        ),
                                        (
                                          (r.usage.input_tokens, r.usage.output_tokens),
                                          r.cancel_requested,
                                        ),
                                      ),
                                    ),
                                  ),
                                ),
                              ),
                            ),
                          ),
                        ),
                      ),
                    ),
                  ),
                ),
              ),
            ),
          ),
        ),
      ),
    ),
  ),
)

abbrev pub make_batch : BatchFields → OpenAiBatchRecord
make_batch t = record {
  tenant_id = t.0;
  id = t.1.0;
  completion_window = t.1.1.0;
  created_at = t.1.1.1.0;
  endpoint = t.1.1.1.1.0;
  input_file_id = t.1.1.1.1.1.0;
  status = t.1.1.1.1.1.1.0;
  cancelled_at = t.1.1.1.1.1.1.1.0;
  cancelling_at = t.1.1.1.1.1.1.1.1.0;
  completed_at = t.1.1.1.1.1.1.1.1.1.0;
  error_file_id = t.1.1.1.1.1.1.1.1.1.1.0;
  errors = t.1.1.1.1.1.1.1.1.1.1.1.0;
  expired_at = t.1.1.1.1.1.1.1.1.1.1.1.1.0;
  expires_at = t.1.1.1.1.1.1.1.1.1.1.1.1.1.0;
  failed_at = t.1.1.1.1.1.1.1.1.1.1.1.1.1.1.0;
  finalizing_at = t.1.1.1.1.1.1.1.1.1.1.1.1.1.1.1.0;
  in_progress_at = t.1.1.1.1.1.1.1.1.1.1.1.1.1.1.1.1.0;
  metadata = t.1.1.1.1.1.1.1.1.1.1.1.1.1.1.1.1.1.0;
  output_file_id = t.1.1.1.1.1.1.1.1.1.1.1.1.1.1.1.1.1.1.0;
  request_counts = record {
    total = t.1.1.1.1.1.1.1.1.1.1.1.1.1.1.1.1.1.1.1.0.0;
    completed = t.1.1.1.1.1.1.1.1.1.1.1.1.1.1.1.1.1.1.1.0.1.0;
    failed = t.1.1.1.1.1.1.1.1.1.1.1.1.1.1.1.1.1.1.1.0.1.1;
  };
  usage = record {
    input_tokens = t.1.1.1.1.1.1.1.1.1.1.1.1.1.1.1.1.1.1.1.1.0.0;
    output_tokens = t.1.1.1.1.1.1.1.1.1.1.1.1.1.1.1.1.1.1.1.1.0.1;
  };
  cancel_requested = t.1.1.1.1.1.1.1.1.1.1.1.1.1.1.1.1.1.1.1.1.1;
}

instance abbrev pub batch_codec : Codec OpenAiBatchRecord
batch_codec = record_codec batch_fields make_batch (λ r. refl)

abbrev pub ResponseFields : Type 0
ResponseFields = (String) × ((String) × ((ℕ) × ((Value) × ((List ℕ) × (List Value)))))

abbrev pub response_fields : StoredOpenAiResponse ℕ → ResponseFields
response_fields r =
    (r.tenant_id, (r.id, (r.created_at, (r.response, (r.conversation_messages, r.input_items)))))

abbrev pub make_response : ResponseFields → StoredOpenAiResponse ℕ
make_response t = record {
  tenant_id = t.0;
  id = t.1.0;
  created_at = t.1.1.0;
  response = t.1.1.1.0;
  conversation_messages = t.1.1.1.1.0;
  input_items = t.1.1.1.1.1;
}

instance abbrev pub response_codec : Codec (StoredOpenAiResponse ℕ)
response_codec = record_codec response_fields make_response (λ r. refl)

-- Every batch can be written.
pub batch_writable : (e : OpenAiBatchRecord) → (v : Value) × (batch_codec.to_value e ≡ ok v)
batch_writable e = (_, refl)

abbrev pub MessagesFields : Type 0
MessagesFields =
    String
    × (String
        × (ℕ
            × (ℕ
                × (Option ℕ
                    × (Option ℕ × (Option ℕ × (String × ((ℕ × (ℕ × (ℕ × (ℕ × ℕ)))) × Bool))))))))

abbrev pub messages_fields : AnthropicBatchRecord → MessagesFields
messages_fields r = (
  r.tenant_id,
  (
    r.id,
    (
      r.created_at,
      (
        r.expires_at,
        (
          r.ended_at,
          (
            r.cancel_initiated_at,
            (
              r.archived_at,
              (
                r.processing_status,
                (
                  (
                    r.request_counts.processing,
                    (
                      r.request_counts.succeeded,
                      (
                        r.request_counts.errored,
                        (r.request_counts.canceled, r.request_counts.expired),
                      ),
                    ),
                  ),
                  r.cancel_requested,
                ),
              ),
            ),
          ),
        ),
      ),
    ),
  ),
)

abbrev pub make_messages : MessagesFields → AnthropicBatchRecord
make_messages t = record {
  tenant_id = t.0;
  id = t.1.0;
  created_at = t.1.1.0;
  expires_at = t.1.1.1.0;
  ended_at = t.1.1.1.1.0;
  cancel_initiated_at = t.1.1.1.1.1.0;
  archived_at = t.1.1.1.1.1.1.0;
  processing_status = t.1.1.1.1.1.1.1.0;
  request_counts = record {
    processing = t.1.1.1.1.1.1.1.1.0.0;
    succeeded = t.1.1.1.1.1.1.1.1.0.1.0;
    errored = t.1.1.1.1.1.1.1.1.0.1.1.0;
    canceled = t.1.1.1.1.1.1.1.1.0.1.1.1.0;
    expired = t.1.1.1.1.1.1.1.1.0.1.1.1.1;
  };
  cancel_requested = t.1.1.1.1.1.1.1.1.1;
}

instance abbrev pub messages_codec : Codec AnthropicBatchRecord
messages_codec = record_codec messages_fields make_messages (λ r. refl)

-- Every batch of messages can be written.
pub messages_writable :
    (e : AnthropicBatchRecord) → (v : Value) × (messages_codec.to_value e ≡ ok v)
messages_writable e = (_, refl)
