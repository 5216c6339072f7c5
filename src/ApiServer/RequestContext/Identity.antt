-- ===== src/ApiServer/RequestContext/Identity.antt =====
-- The names of tenants that a request context can have.
use Prim.Native.String.{len}
use text.Mathlib.TextPositions.{len-append}
use miya_api.Prelude.{
  ℕ, ◌≤◌, ◌≡◌, refl, leb, Bool, true, false, ◌&&◌, ◌||◌, String, Option, none, some, unwrap_or,
  List, [], ◌∷◌, trim, text_is_empty, all_chars, all_chars-append, text_is_empty-append,
  all_chars_mono, trim-all_chars, Bool-cases, inl, inr, arith,
}
use miya_api.Protocol.Json.{Value, get, as_str}
use miya_api.ContextStore.{take_chars}
use miya_api.ApiServer.RequestContext.{
  HeaderMap, identity_char, default_tenant_id, find_map, or_else, and_then, hashed,
  identity_component, header_identity, metadata_identity, from_headers, with_metadata_overrides,
  tenant_of,
}

-- A name that `identity_component` leaves as it is.
abbrev pub IsIdentity : String → Type 0
IsIdentity t = (text_is_empty t ≡ false) × (len t ≤ 128) × (all_chars identity_char t ≡ true)

-- What is there is a name.
abbrev pub OnSome : Option String → Type 0
OnSome none = Unit
OnSome (some t) = IsIdentity t

OnSome-find_map :
    (f : String → Option String)
    → ((n : String) → OnSome (f n))
    → (ns : List String) → OnSome (find_map f ns)
OnSome-find_map f h [] = tt
OnSome-find_map f h (n ∷ ns) = from (f n) (h n) (OnSome-find_map f h ns)
  where
    from :
        (o : Option String)
        → OnSome o
        → OnSome (find_map f ns)
        → OnSome (elim o [ some t ↦ some t | none ↦ find_map f ns ])
    from none k rest = rest
    from (some t) k rest = k

OnSome-or_else : (o p : Option String) → OnSome o → OnSome p → OnSome (or_else o p)
OnSome-or_else none p h k = k
OnSome-or_else (some t) p h k = h

OnSome-and_then :
    {A : Type 0} (o : Option A) (f : A → Option String)
    → ((a : A) → OnSome (f a))
    → OnSome (and_then o f)
OnSome-and_then none f h = tt
OnSome-and_then (some a) f h = h a

abbrev pub is_hex : ℕ → Bool
is_hex c = (leb b'0' c && leb c b'9') || (leb b'a' c && leb c b'f')

-- The first 32 characters of a digest are at most 32 bytes, of hexadecimal digits.
abbrev pub IsHex : (String → String) → Type 0
IsHex sha256_hex =
    (v : String)
    → (len (take_chars 32 (sha256_hex v)) ≤ 32)
      × (all_chars is_hex (take_chars 32 (sha256_hex v)) ≡ true)

module _ (sha256_hex : String → String) where
  -- A name is its own identity.
  pub identity_component_fixed :
      (t : String) → IsIdentity t → identity_component sha256_hex t ≡ some t
  unfolding identity_component
  identity_component_fixed t (full, short, clean) =
      let test : (leb (len t) 128 && all_chars identity_char t) ≡ true =
        ground (arith, short, clean) in
      rw (trim-all_chars identity_char (λ c h. ground (arith, h)) t clean, full, test) refl

  module _ (hex : IsHex sha256_hex) where
    hashed-IsIdentity : (v : String) → IsIdentity (hashed sha256_hex v)
    unfolding all_chars
    hashed-IsIdentity v =
        let digest = take_chars 32 (sha256_hex v) in
        (
          text_is_empty-append "sha256-" digest refl,
          omega (arith, len-append "sha256-" digest, (hex v).0),
          all_chars-append identity_char "sha256-" digest refl
              (all_chars_mono is_hex identity_char (λ c h. ground (arith, h)) digest (hex v).1),
        )

    identity_component-IsIdentity : (v : String) → OnSome (identity_component sha256_hex v)
    unfolding identity_component
    identity_component-IsIdentity v = elim (Bool-cases (text_is_empty (trim v))) [
      | inl empty ↦ rw (identity_component, empty) tt
      | inr full ↦ elim (Bool-cases (leb (len (trim v)) 128 && all_chars identity_char (trim v))) [
        | inl clean ↦
            rw (identity_component, full, clean)
              (full, ground (arith, clean), ground (arith, clean))
        | inr unclean ↦ rw (identity_component, full, unclean) (hashed-IsIdentity (trim v))
      ]
    ]

    header_identity-IsIdentity :
        (headers : HeaderMap) (names : List String)
        → OnSome (header_identity sha256_hex headers names)
    unfolding header_identity
    header_identity-IsIdentity headers names =
        OnSome-find_map _
          (λ n.
            OnSome-and_then (headers n) (identity_component sha256_hex)
              identity_component-IsIdentity)
          names

    metadata_identity-IsIdentity :
        (metadata : Value) (names : List String)
        → OnSome (metadata_identity sha256_hex metadata names)
    unfolding metadata_identity
    metadata_identity-IsIdentity metadata names =
        OnSome-find_map _
          (λ n.
            OnSome-and_then (and_then (get n metadata) as_str) (identity_component sha256_hex)
              identity_component-IsIdentity)
          names

    chosen-IsIdentity : (o : Option String) → OnSome o → IsIdentity (unwrap_or o default_tenant_id)
    unfolding all_chars
    chosen-IsIdentity none h = (refl, omega arith, refl)
    chosen-IsIdentity (some t) h = h

    pub from_headers-IsIdentity :
        (headers : HeaderMap) → IsIdentity (tenant_of (from_headers sha256_hex headers))
    unfolding from_headers
    from_headers-IsIdentity headers = chosen-IsIdentity _ (header_identity-IsIdentity headers _)

    -- The tenant of a request is a name that `identity_component` leaves as it is, whatever its
    -- headers and its metadata are.
    pub tenant_of-IsIdentity :
        (headers : HeaderMap) (metadata : Value)
        → IsIdentity (
            tenant_of
              (with_metadata_overrides sha256_hex (from_headers sha256_hex headers) metadata))
    unfolding from_headers with_metadata_overrides
    tenant_of-IsIdentity headers metadata = chosen-IsIdentity _ (
        OnSome-or_else _ _ (metadata_identity-IsIdentity metadata _)
          (header_identity-IsIdentity headers _))
