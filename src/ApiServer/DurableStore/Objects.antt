-- ===== src/ApiServer/DurableStore/Objects.antt =====
-- What the store in memory answers after any sequence of writes and deletions, as a directory of
-- the objects by namespace, tenant and id answers it.
use miya_api.Prelude.{
  ◌≡◌, refl, Bool, true, ◌&&◌, String, Option, none, some, is_ok, List, [], ◌∷◌, Result,
  Result-cases, ok, err, inl, inr, all_chars, no_colon, text_ord, ◌=?◌, =?_refl, if◌then◌else◌,
  Bool-cases, sym, false, Method, arith,
}
use miya_api.BTreeMap.{get, insert, get-insert, get-remove}
use miya_api.Protocol.Json.{Value}
use miya_api.ApiServer.DurableStore.{
  Memory, memory, Codec, validate_component, validated, memory_key, put_json, get_json, delete_json,
  decoded,
}
use miya_api.ApiServer.DurableStore.Names.{IsValid, validate_component-IsValid, memory_key_test}

abbrev pub accepts : String → String → Bool
accepts n i = is_ok (validate_component "namespace" n) && is_ok (validate_component "id" i)

module _ {A : Type 0} (n i : String) (m : Method Memory String A) (s : Memory) where
  pub validated_ok :
      (u u' : Unit {0})
      → validate_component "namespace" n ≡ ok u
      → validate_component "id" i ≡ ok u'
      → validated n i m s ≡ m s
  unfolding validated
  validated_ok u u' q q' = rw (q, q', validated) refl

  -- A call with an invalid name leaves the store.
  pub validated_refused : accepts n i ≡ false → (validated n i m s).1 ≡ s
  unfolding validated
  validated_refused h = ground (arith, h)

pub accepts-valid :
    (n i : String)
    → accepts n i ≡ true
    → (u : Unit {0}) × (u' : Unit {0}) × (validate_component "namespace" n ≡ ok u)
      × (validate_component "id" i ≡ ok u')
accepts-valid n i h = both _ _ refl refl h
  where
    both :
        (r r' : Result String (Unit {0}))
        → r ≡ validate_component "namespace" n
        → r' ≡ validate_component "id" i
        → (is_ok (validate_component "namespace" n) && is_ok (validate_component "id" i)) ≡ true
        → (u : Unit {0}) × (u' : Unit {0}) × (validate_component "namespace" n ≡ ok u)
          × (validate_component "id" i ≡ ok u')
    both (ok u) (ok u') e e' h = (u, u', sym e, sym e')
    both (ok u) (err x) e e' h = absurd (ground (arith, e, e', h))
    both (err x) r' e e' h = absurd (ground (arith, e, h))

-- A write of an object with valid names that can be written is read back.
module _ {T : Type 0} ⦃codec : Codec T⦄ (tenant_hash : String → String) (n t i : String) (x : T)
    (s : Memory) where
  open codec use {to_value, from_value, from_value-to_value}

  written :
      (v : Value)
      → accepts n i ≡ true
      → to_value x ≡ ok v
      → put_json tenant_hash n t i x s
        ≡ (ok tt, record s { objects = insert (memory_key tenant_hash n t i) v s.objects })
  unfolding put_json
  written v a r =
      let (u, u', q, q') = accepts-valid n i a in rw (validated_ok n i _ s u u' q q', r) refl

  read_back :
      (v : Value)
      → accepts n i ≡ true
      → to_value x ≡ ok v
      → (get_json tenant_hash {T = T} n t i (put_json tenant_hash n t i x s).1).0 ≡ ok (some x)
  unfolding get_json
  read_back v a r =
      let (u, u', q, q') = accepts-valid n i a in
      let key = memory_key tenant_hash n t i in
      rw
        (
          written v a r,
          validated_ok n i _ (record s { objects = insert key v s.objects }) u u' q q',
        )
        (rw (get-insert key key v s.objects, =?_refl key, from_value-to_value x v r) refl)

  -- A write that succeeds has valid names and an object that can be written.
  put_json-ok :
      (u : Unit {0})
      → (put_json tenant_hash n t i x s).0 ≡ ok u
      → (accepts n i ≡ true) × ((v : Value) × (to_value x ≡ ok v))
  unfolding put_json validated
  put_json-ok u h =
      from (validate_component "namespace" n) (validate_component "id" i) (to_value x) refl refl
        refl h
    where
      from :
          (a b : Result String (Unit {0})) (c : Result String Value)
          → a ≡ validate_component "namespace" n
          → b ≡ validate_component "id" i
          → c ≡ to_value x
          → (put_json tenant_hash n t i x s).0 ≡ ok u
          → (accepts n i ≡ true) × ((v : Value) × (to_value x ≡ ok v))
      from (ok y) (ok z) (ok v) p q r h = (rw (← p, ← q) refl, (v, sym r))
      from (ok y) (ok z) (err e) p q r h = absurd (ground (arith, p, q, r, h))
      from (ok y) (err e) c p q r h = absurd (ground (arith, p, q, h))
      from (err e) b c p q r h = absurd (ground (arith, p, h))

  pub get_json-put_json :
      (u : Unit {0})
      → (put_json tenant_hash n t i x s).0 ≡ ok u
      → (get_json tenant_hash {T = T} n t i (put_json tenant_hash n t i x s).1).0 ≡ ok (some x)
  get_json-put_json u h = let (a, (v, r)) = put_json-ok u h in read_back v a r

  -- The write succeeds where the names are valid and the object can be written.
  pub put_json-accepted :
      (v : Value)
      → accepts n i ≡ true
      → to_value x ≡ ok v
      → (put_json tenant_hash n t i x s).0 ≡ ok tt
  put_json-accepted v a r = rw (written v a r) refl

-- A read leaves the store.
pub get_json_state :
    (T : Type 0) ⦃codec : Codec T⦄ (tenant_hash : String → String) (n t i : String) (s : Memory)
    → (get_json tenant_hash {T = T} n t i s).1 ≡ s
unfolding get_json
get_json_state T ⦃codec⦄ tenant_hash n t i s = elim (Bool-cases (accepts n i)) [
  | inr bad ↦ validated_refused n i _ s bad
  | inl good ↦
      let (u, u', q, q') = accepts-valid n i good in rw (validated_ok n i _ s u u' q q') refl
]

pub data Command (T : Type 0) : Type 0 where
  put : String → String → String → T → Command T
  delete : String → String → String → Command T

-- The objects by namespace, tenant and id.
abbrev pub Directory : Type 0 → Type 0
Directory T = String → String → String → Option T

abbrev pub same_name : String → String → String → String → String → String → Bool
same_name n t i n' t' i' = n =? n' && t =? t' && i =? i'

module _ {T : Type 0} ⦃codec : Codec T⦄ where
  open codec use {to_value, from_value, from_value-to_value}

  -- A directory after a command: one with an invalid name or an object that cannot be written
  -- changes nothing.
  abbrev pub update : Command T → Directory T → Directory T
  update (put n t i x) d n' t' i' =
      if accepts n i && is_ok (to_value x) && same_name n t i n' t' i' then some x else d n' t' i'
  update (delete n t i) d n' t' i' =
      if accepts n i && same_name n t i n' t' i' then none else d n' t' i'

  abbrev pub updates : List (Command T) → Directory T → Directory T
  updates [] d = d
  updates (c ∷ cs) d = updates cs (update c d)

  module _ (tenant_hash : String → String) where
    unfoldable pub run : Command T → Memory → Memory
    run (put n t i x) s = (put_json tenant_hash n t i x s).1
    run (delete n t i) s = (delete_json tenant_hash n t i s).1

    unfoldable pub run_all : List (Command T) → Memory → Memory
    run_all [] s = s
    run_all (c ∷ cs) s = run_all cs (run c s)

    -- The store answers at every valid name as the directory does.
    abbrev pub Represents : Memory → Directory T → Type 0
    Represents s d =
        (n t i : String)
        → IsValid n
        → decoded (get (memory_key tenant_hash n t i) s.objects) ≡ ok (d n t i)

    module _ (hex : (t : String) → all_chars no_colon (tenant_hash t) ≡ true)
        (distinct : (t t' : String) → tenant_hash t ≡ tenant_hash t' → t ≡ t') where
      put-Represents :
          (n t i : String) (x : T) (s : Memory) (d : Directory T)
          → accepts n i ≡ true
          → Represents s d
          → Represents (put_json tenant_hash n t i x s).1 (update (put n t i x) d)
      unfolding put_json
      put-Represents n t i x s d a h = λ n' t' i' v'.
          let (u, u', q, q') = accepts-valid n i a in
          let test =
            memory_key_test tenant_hash hex distinct n t i n' t' i'
              (validate_component-IsValid "namespace" n u q) v' in
          rw (validated_ok n i _ s u u' q q', a)
            (elim (Result-cases (to_value x)) [
              | inr (e, r) ↦ rw r (h n' t' i' v')
              | inl (v, r) ↦ rw r (
                  rw
                    (
                      get-insert (memory_key tenant_hash n t i) (memory_key tenant_hash n' t' i') v
                          s.objects,
                      test,
                    )
                    (elim (Bool-cases (same_name n t i n' t' i')) [
                      | inl same ↦ rw same (rw (from_value-to_value x v r) refl)
                      | inr other ↦ rw other (h n' t' i' v')
                    ]))
            ])

      delete-Represents :
          (n t i : String) (s : Memory) (d : Directory T)
          → accepts n i ≡ true
          → Represents s d
          → Represents (delete_json tenant_hash n t i s).1 (update (delete n t i) d)
      unfolding delete_json
      delete-Represents n t i s d a h = λ n' t' i' v'.
          let (u, u', q, q') = accepts-valid n i a in
          let test =
            memory_key_test tenant_hash hex distinct n t i n' t' i'
              (validate_component-IsValid "namespace" n u q) v' in
          rw
            (
              validated_ok n i _ s u u' q q',
              a,
              get-remove (memory_key tenant_hash n t i) (memory_key tenant_hash n' t' i') s.objects,
              test,
            )
            (elim (Bool-cases (same_name n t i n' t' i')) [
              | inl same ↦ rw same refl
              | inr other ↦ rw other (h n' t' i' v')
            ])

      run-Represents :
          (c : Command T) (s : Memory) (d : Directory T)
          → Represents s d
          → Represents (run c s) (update c d)
      unfolding run put_json delete_json
      run-Represents (put n t i x) s d h = elim (Bool-cases (accepts n i)) [
        | inl good ↦ put-Represents n t i x s d good h
        | inr bad ↦ λ n' t' i' v'. rw (bad, validated_refused n i _ s bad) (h n' t' i' v')
      ]
      run-Represents (delete n t i) s d h = elim (Bool-cases (accepts n i)) [
        | inl good ↦ delete-Represents n t i s d good h
        | inr bad ↦ λ n' t' i' v'. rw (bad, validated_refused n i _ s bad) (h n' t' i' v')
      ]

      run_all-Represents :
          (cs : List (Command T)) (s : Memory) (d : Directory T)
          → Represents s d
          → Represents (run_all cs s) (updates cs d)
      unfolding run_all
      run_all-Represents [] s d h = h
      run_all-Represents (c ∷ cs) s d h =
          run_all-Represents cs (run c s) (update c d) (run-Represents c s d h)

      -- After any writes and deletions on an empty store, a read with valid names gives the object
      -- that the same writes and deletions leave in a directory by namespace, tenant and id, where
      -- a command with an invalid name, or an object that cannot be written, changes nothing.
      -- The digests of tenants are distinct and have no colon.
      pub get_json-run_all :
          (cs : List (Command T)) (n t i : String)
          → accepts n i ≡ true
          → get_json tenant_hash n t i (run_all cs memory)
            ≡ (ok (updates cs (λ n' t' i'. none) n t i), run_all cs memory)
      unfolding get_json get
      get_json-run_all cs n t i a =
          let (u, u', q, q') = accepts-valid n i a in
          rw (validated_ok n i _ (run_all cs memory) u u' q q') (
            rw
              (run_all-Represents cs memory (λ n' t' i'. none) (λ n' t' i' v'. refl) n t i
                (validate_component-IsValid "namespace" n u q))
              refl)
