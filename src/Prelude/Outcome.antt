-- ===== src/Prelude/Outcome.antt =====
-- Rust's `Result`, and a method on `&mut self` that may fail: what was written before a failure
-- stays written, so the state comes back beside the error too.
use mathlib.Core.Path.{◌≡◌, refl, subst}
use mathlib.Core.Logic.{◌⊎◌, inl, inr}
use mathlib.Core.Bool.{Bool, true, false}

pub data Result {ℓ} (E A : Type ℓ) : Type ℓ where
  ok : A → Result E A
  err : E → Result E A

pub Result-cases {ℓ} :
    {E A : Type ℓ} (r : Result E A) → ((a : A) × (r ≡ ok a)) ⊎ ((e : E) × (r ≡ err e))
Result-cases (ok a) = inl (a, refl)
Result-cases (err e) = inr (e, refl)

abbrev pub is_ok {ℓ} : {E A : Type ℓ} → Result E A → Bool
is_ok (ok a) = true
is_ok (err e) = false

-- A method of an object with state `S`.
abbrev pub Method {ℓ} : Type ℓ → Type ℓ → Type ℓ → Type ℓ
Method S E A = S → Result E A × S

module _ {ℓ} {S E A : Type ℓ} where
  abbrev pub pure : A → Method S E A
  pure a s = (ok a, s)

  abbrev pub fail : E → Method S E A
  fail e s = (err e, s)

  -- `?` at a call that has no state of its own
  abbrev pub lift : Result E A → Method S E A
  lift r s = (r, s)

abbrev pub modify {ℓ} : {S E : Type ℓ} → (S → S) → Method S E (Unit {ℓ})
modify f s = (ok tt, f s)

-- What follows a call: the rest of the method, or the error.
abbrev pub continue {ℓ} : {S E A B : Type ℓ} → Result E A × S → (A → Method S E B) → Result E B × S
continue (ok a, s) f = f a s
continue (err e, s) f = (err e, s)

infixl 5 ◌>>=◌ ◌>>◌
abbrev pub ◌>>=◌ {ℓ} : {S E A B : Type ℓ} → Method S E A → (A → Method S E B) → Method S E B
◌>>=◌ m f s = continue (m s) f

abbrev pub ◌>>◌ {ℓ} : {S E B : Type ℓ} → Method S E (Unit {ℓ}) → Method S E B → Method S E B
m >> k = m >>= λ _. k

-- A predicate of the state that both parts keep is kept by their sequence.
pub continue_inv {ℓ κ} :
    {S E A B : Type ℓ} (P : S → Type κ) (x : Result E A × S) (f : A → Method S E B)
    → P x.1
    → ((a : A) (s : S) → P s → P (f a s).1)
    → P (continue x f).1
continue_inv P (ok a, s) f h keep = keep a s h
continue_inv P (err e, s) f h keep = h

-- A sequence succeeds when its first part does and the rest does from there.
pub continue-ok {ℓ} :
    {S E A B : Type ℓ} (x : Result E A × S) (f : A → Method S E B) {b : B}
    → (continue x f).0 ≡ ok b
    → (a : A) × (x.0 ≡ ok a) × (continue x f ≡ f a x.1)
continue-ok (ok a, s) f h = (a, refl, refl)
continue-ok (err e, s) f h = cc

-- A last step that only computes leaves the state.
pub continue_state {ℓ} :
    {S E A B : Type ℓ} (x : Result E A × S) (f : A → Result E B)
    → (continue x (λ a s. (f a, s))).1 ≡ x.1
continue_state (ok a, s) f = refl
continue_state (err e, s) f = refl

-- A predicate of the value, where there is one.
abbrev pub OnOk {ℓ κ} : {E A : Type ℓ} → (A → Type κ) → Result E A → Type κ
OnOk P (ok a) = P a
OnOk P (err e) = Unit

pub OnOk-ok {ℓ κ} :
    {E A : Type ℓ} (P : A → Type κ) (x : Result E A) {a : A} → x ≡ ok a → OnOk P x → P a
OnOk-ok P x h p = subst (OnOk P) h p

pub continue_value {ℓ} :
    {S E A B : Type ℓ} (x : Result E A × S) (f : A → Result E B) {a : A}
    → x.0 ≡ ok a
    → (continue x (λ a s. (f a, s))).0 ≡ f a
continue_value (ok b, s) f h = cc
continue_value (err e, s) f h = cc

pub OnOk-continue {ℓ κ} :
    {S E A B : Type ℓ} (P : A → Type κ) (Q : B → Type κ) (x : Result E A × S) (f : A → Method S E B)
    → OnOk P x.0
    → ((a : A) (s : S) → P a → OnOk Q (f a s).0)
    → OnOk Q (continue x f).0
OnOk-continue P Q (ok a, s) f h rest = rest a s h
OnOk-continue P Q (err e, s) f h rest = tt

pub continue_error {ℓ} :
    {S E A B : Type ℓ} (x : Result E A × S) (f : A → Result E B) {e : E}
    → x.0 ≡ err e
    → (continue x (λ a s. (f a, s))).0 ≡ err e
continue_error (ok a, s) f h = cc
continue_error (err e, s) f h = cc

-- What holds of the value and the state after a success.
abbrev pub Post {ℓ κ} : {S E A : Type ℓ} → (A → S → Type κ) → Result E A × S → Type κ
Post Q (ok a, s) = Q a s
Post Q (err e, s) = Unit

module _ {ℓ κ} {S E A : Type ℓ} (Q : A → S → Type κ) where
  pub Post-ok : (x : Result E A × S) {a : A} → x.0 ≡ ok a → Post Q x → Q a x.1
  Post-ok (ok b, s) h p = subst (λ r. Post Q (r, s)) h p
  Post-ok (err e, s) h p = absurd (cc)

  pub Post-of_ok : (x : Result E A × S) → ((a : A) → x.0 ≡ ok a → Q a x.1) → Post Q x
  Post-of_ok (ok b, s) h = h b refl
  Post-of_ok (err e, s) h = tt

  -- A sequence, where the first part leaves `P`.
  pub Post-continue :
      {B : Type ℓ} (P : B → S → Type κ) (x : Result E B × S) (f : B → Method S E A)
      → Post P x
      → ((b : B) (s : S) → P b s → Post Q (f b s))
      → Post Q (continue x f)
  Post-continue P (ok b, s) f p rest = rest b s p
  Post-continue P (err e, s) f p rest = tt

  -- A sequence, where nothing is known of the first part.
  pub Post-then :
      {B : Type ℓ} (x : Result E B × S) (f : B → Method S E A)
      → ((b : B) (s : S) → Post Q (f b s))
      → Post Q (continue x f)
  Post-then (ok b, s) f rest = rest b s
  Post-then (err e, s) f rest = tt

pub Post-map {ℓ κ μ} :
    {S E A : Type ℓ} (P : A → S → Type κ) (Q : A → S → Type μ) (x : Result E A × S)
    → ((a : A) (s : S) → P a s → Q a s)
    → Post P x
    → Post Q x
Post-map P Q (ok a, s) f p = f a s p
Post-map P Q (err e, s) f p = tt

-- A result with its state, from both parts.
pub outcome_path {ℓ} :
    {S E A : Type ℓ} (x : Result E A × S) {r : Result E A} {s : S} → x.0 ≡ r → x.1 ≡ s → x ≡ (r, s)
outcome_path (r, s) p q = cc
