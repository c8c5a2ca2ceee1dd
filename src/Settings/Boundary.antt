-- ===== src/Settings/Boundary.antt =====
-- What settings that the server starts with keep to.
use soffortmcp.Prelude.{
  ℕ, String, true, false, not, ◌||◌, Option, none, some, List, [], ◌∷◌, ◌++◌, ◌≡◌, ◌≢◌, refl, sym,
  ap, subst, ◌∙◌, arith, ◌==◌, string_eq, if◌then◌else◌, Bool-cases, inl, inr, is_nonempty, codes,
  concat, after_prefix, codes-concat, ok, bind-eq-ok, reject, reject_ok, value_error, ok-injective,
}
use mathlib.Core.List.{append_assoc}
use soffortmcp.Catalog.Sound.{prefix_split}
use soffortmcp.Settings.{
  Settings, Urls, canonical_mcp_url, is_within_limits, canonical_public_url, canonical_issuer,
  canonical_jwks_url, allowed_hosts, allowed_origins, is_missing, is_text, is_test, is_beneath,
  validate_deployment, validate_security_boundaries, settings,
}

-- The text is the URL, a slash, and more.
abbrev pub IsBeneath : String → String → Type 0
IsBeneath url text = (rest : List ℕ) × (codes text ≡ codes url ++ b'/' ∷ rest)

abbrev pub IsGiven : Option String → Type 0
IsGiven o = (s : String) × (o ≡ some s)

-- Outside tests.
pub record IsDeployed (urls : Urls) (s : Settings) : Type 0 where
  pub at_canonical_url : canonical_public_url s ≡ canonical_mcp_url
  pub issuer_scheme : urls.scheme (canonical_issuer s) ≡ "https"
  pub jwks_scheme : urls.scheme (canonical_jwks_url s) ≡ "https"
  pub has_database : IsGiven s.cosmos_endpoint
  pub has_identity : IsGiven s.azure_workload_client_id
  pub has_vault : IsGiven s.key_vault_url
  pub has_push_key : IsGiven s.apns_key_id

pub record IsSecure (urls : Urls) (s : Settings) : Type 0 where
  pub deployed : is_test s.environment ≡ false → IsDeployed urls s
  pub issuer : urls.hostname (canonical_issuer s) ≢ some "appleid.apple.com"
  pub no_secret : s.apple_private_key ≡ none
  pub access_scope : IsBeneath (canonical_public_url s) s.required_scope_uri
  pub mobile_scope : IsBeneath (canonical_public_url s) s.mobile_scope_uri
  pub clients : s.entra_ios_client_id ≢ s.entra_vscode_client_id
  pub hosts : allowed_hosts urls s ≢ []
  pub origins : allowed_origins urls s ≢ []

given : (o : Option String) → is_missing o ≡ false → IsGiven o
given none h = absurd (cc h)
given (some s) h = (s, refl)

absent : (o : Option String) → not (is_missing o) ≡ false → o ≡ none
absent none h = refl
absent (some s) h = absurd (cc h)

beneath : (url text : String) → not (is_beneath url text) ≡ false → IsBeneath url text
beneath url text h =
    let found = prefix_split (codes (concat url "/")) (codes text) (ground arith) in
    (
      _,
      found
          ∙ ap (λ l. l ++ after_prefix (codes (concat url "/")) (codes text)) (codes-concat url "/")
          ∙ append_assoc (codes url) (b'/' ∷ []) _,
    )

filled : (l : List String) → is_nonempty l ≡ true → l ≢ []
filled [] h = λ e. cc
filled (x ∷ l) h = λ e. cc

deployment-IsDeployed :
    (urls : Urls) (s : Settings) → validate_deployment urls s ≡ ok tt → IsDeployed urls s
unfolding validate_deployment
deployment-IsDeployed urls s h =
    let (_, url, h1) =
      bind-eq-ok (reject (not (canonical_public_url s == canonical_mcp_url)) value_error) _ h in
    let (_, schemes, h2) =
      bind-eq-ok
        (reject
          (not (urls.scheme (canonical_issuer s) == "https")
            || not (urls.scheme (canonical_jwks_url s) == "https"))
          value_error)
        _ h1 in
    let (_, database, h3) = bind-eq-ok (reject (is_missing s.cosmos_endpoint) value_error) _ h2 in
    let (_, identity, last) =
      bind-eq-ok (reject (is_missing s.azure_workload_client_id) value_error) _ h3 in
    let secure = reject_ok _ value_error schemes in
    let keys = reject_ok _ value_error last in
    record {
      at_canonical_url = ground (
        arith,
        reject_ok _ value_error url,
        string_eq.beq_iff (canonical_public_url s) canonical_mcp_url,
      );
      issuer_scheme =
          ground (arith, secure, string_eq.beq_iff (urls.scheme (canonical_issuer s)) "https");
      jwks_scheme =
          ground (arith, secure, string_eq.beq_iff (urls.scheme (canonical_jwks_url s)) "https");
      has_database = given s.cosmos_endpoint (reject_ok _ value_error database);
      has_identity = given s.azure_workload_client_id (reject_ok _ value_error identity);
      has_vault = given s.key_vault_url (ground arith);
      has_push_key = given s.apns_key_id (ground arith);
    }

not_host : (host : String) (o : Option String) → is_text host o ≡ false → o ≢ some host
not_host host none h = λ e. cc
not_host host (some s) h = λ e. ground (arith, h, string_eq.beq_iff s host, e)

boundaries-IsSecure :
    (urls : Urls) (s t : Settings)
    → validate_security_boundaries urls s ≡ ok t
    → (t ≡ s) × IsSecure urls s
unfolding validate_security_boundaries
boundaries-IsSecure urls s t h =
    let (_, deployed, h1) =
      bind-eq-ok (if is_test s.environment then ok tt else validate_deployment urls s) _ h in
    let (_, apple, h2) =
      bind-eq-ok
        (reject (is_text "appleid.apple.com" (urls.hostname (canonical_issuer s))) value_error) _
        h1 in
    let (_, secret, h3) =
      bind-eq-ok (reject (not (is_missing s.apple_private_key)) value_error) _ h2 in
    let (_, access, h4) =
      bind-eq-ok
        (reject (not (is_beneath (canonical_public_url s) s.required_scope_uri)) value_error) _
        h3 in
    let (_, mobile, h5) =
      bind-eq-ok (reject (not (is_beneath (canonical_public_url s) s.mobile_scope_uri)) value_error)
        _ h4 in
    let (_, clients, h6) =
      bind-eq-ok (reject (s.entra_ios_client_id == s.entra_vscode_client_id) value_error) _ h5 in
    let (_, lists, last) =
      bind-eq-ok
        (reject
          (not (is_nonempty (allowed_hosts urls s)) || not (is_nonempty (allowed_origins urls s)))
          value_error)
        _ h6 in
    let listed = reject_ok _ value_error lists in
    (
      sym (ok-injective last),
      record {
        deployed = λ outside. deployment-IsDeployed urls s (
            subst (λ b. (if b then ok tt else validate_deployment urls s) ≡ ok tt) outside
              deployed);
        issuer =
            not_host "appleid.apple.com" (urls.hostname (canonical_issuer s))
              (reject_ok _ value_error apple);
        no_secret = absent s.apple_private_key (reject_ok _ value_error secret);
        access_scope =
            beneath (canonical_public_url s) s.required_scope_uri (reject_ok _ value_error access);
        mobile_scope =
            beneath (canonical_public_url s) s.mobile_scope_uri (reject_ok _ value_error mobile);
        clients = λ same.
            let equal = (string_eq.beq_iff s.entra_ios_client_id s.entra_vscode_client_id).1 same in
            let differ = reject_ok _ value_error clients in cc;
        hosts = filled (allowed_hosts urls s) (ground arith);
        origins = filled (allowed_origins urls s) (ground arith);
      },
    )

-- Settings are taken as they are given, within the limits of their fields, and only inside the trust
-- boundary: outside tests at the canonical URL with HTTPS issuer and keys and with the Azure
-- resources; never with Apple as the issuer or its key; with scopes beneath the public URL, separate
-- clients, and some host and origin.
pub settings-IsSecure :
    (urls : Urls) (s t : Settings)
    → settings urls s ≡ ok t
    → (t ≡ s) × (is_within_limits s ≡ true) × IsSecure urls s
unfolding settings
settings-IsSecure urls s t h = elim (Bool-cases (is_within_limits s)) [
  | inl e ↦ let (same, secure) = boundaries-IsSecure urls s t (rw e at h) in (same, e, secure)
  | inr e ↦ absurd (let never = rw e at h in cc)
]
