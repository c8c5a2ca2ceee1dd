-- ===== src/Settings.antt =====
-- src/soffortbackend/settings.py: the fields of `Settings`, their limits, and the validator of the trust
-- boundary. A URL or a UUID is its text, a number of seconds with a fraction is in milliseconds.
pub mod Boundary
use soffortmcp.Prelude.{
  ℕ, String, Bool, true, false, not, ◌&&◌, ◌||◌, Option, none, some, List, [], ◌∷◌, map, ◌==◌,
  string_eq, ltb, leb, nat_beq, if◌then◌else◌, is_nonempty, length, len, codes, concat, is_prefix,
  all, contains, is_digit, in_range, Result, ok, err, bind, reject, value_error,
}
use soffortmcp.Prelude.Words.{split_at, is_word, rstrip_slash, distinct}

pub data Environment : Type 0 where
  development test production : Environment

pub record Settings : Type 0 where
  pub environment : Environment
  pub public_url : String
  pub entra_issuer : String
  pub entra_jwks_url : String
  pub entra_tenant_id : String
  pub entra_api_audience : String
  pub entra_vscode_client_id : String
  pub entra_ios_client_id : String
  pub required_scope_value : String
  pub required_scope_uri : String
  pub mobile_scope_value : String
  pub mobile_scope_uri : String
  pub cosmos_endpoint : Option String
  pub cosmos_database : String
  pub cosmos_container : String
  pub azure_workload_client_id : Option String
  pub key_vault_url : Option String
  pub disclosure_key_name : String
  pub apns_private_key_secret_name : String
  pub apns_private_key_secret_version : Option String
  pub apns_key_id : Option String
  pub apns_team_id : String
  pub apns_topic : String
  pub apns_environment : String
  pub approval_timeout_seconds : ℕ
  pub approval_poll_interval : ℕ
  pub allowed_hosts_csv : String
  pub allowed_origins_csv : String
  pub bind_host : String
  pub port : ℕ
  pub log_level : String
  pub jwks_default_ttl_seconds : ℕ
  pub jwks_refresh_cooldown_seconds : ℕ
  pub jwt_leeway_seconds : ℕ
  pub apple_private_key : Option String

-- What the validator asks of `str` and of `urlparse`.
pub record Urls : Type 0 where
  pub strip : String → String
  pub scheme : String → String
  pub hostname : String → Option String

abbrev pub canonical_mcp_url : String
canonical_mcp_url = "https://concentrey.com/mcp"

abbrev is_sized : ℕ → String → Bool
is_sized limit s = leb 1 (len s) && leb (len s) limit

abbrev is_apple_id : String → Bool
is_apple_id s = nat_beq (len s) 10 && all (λ c. in_range b'A' b'Z' c || is_digit c) (codes s)

abbrev is_apple_id? : Option String → Bool
is_apple_id? none = true
is_apple_id? (some s) = is_apple_id s

-- The constraints of the fields.
unfoldable pub is_within_limits : Settings → Bool
is_within_limits s =
    is_sized 255 s.entra_api_audience
    && leb 1 (len s.required_scope_value)
    && leb 1 (len s.required_scope_uri)
    && leb 1 (len s.mobile_scope_value)
    && leb 1 (len s.mobile_scope_uri)
    && is_sized 255 s.cosmos_database
    && is_sized 255 s.cosmos_container
    && is_sized 127 s.disclosure_key_name
    && is_sized 127 s.apns_private_key_secret_name
    && is_apple_id? s.apns_key_id
    && is_apple_id s.apns_team_id
    && is_sized 255 s.apns_topic
    && in_range 5 300 s.approval_timeout_seconds
    && in_range 50 5000 s.approval_poll_interval
    && in_range 1 65535 s.port
    && in_range 60 21600 s.jwks_default_ttl_seconds
    && in_range 5 300 s.jwks_refresh_cooldown_seconds
    && leb s.jwt_leeway_seconds 120
    && contains s.apns_environment ("sandbox" ∷ "production" ∷ [])
    && contains s.log_level ("DEBUG" ∷ "INFO" ∷ "WARNING" ∷ "ERROR" ∷ "CRITICAL" ∷ [])

unfoldable pub canonical_public_url : Settings → String
canonical_public_url s = rstrip_slash s.public_url

unfoldable pub canonical_issuer : Settings → String
canonical_issuer s = rstrip_slash s.entra_issuer

unfoldable pub canonical_jwks_url : Settings → String
canonical_jwks_url s = rstrip_slash s.entra_jwks_url

abbrev pub words_of_items : Urls → List String → List String
words_of_items urls [] = []
words_of_items urls (item ∷ l) =
    let rest = words_of_items urls l in
    if urls.strip item == "" then rest else urls.strip item ∷ rest

-- `_parse_csv`
unfoldable pub parse_csv : Urls → String → List String
parse_csv urls value = distinct (words_of_items urls (split_at (λ c. nat_beq c b',') value))

unfoldable pub allowed_hosts : Urls → Settings → List String
allowed_hosts urls s = parse_csv urls s.allowed_hosts_csv

unfoldable pub allowed_origins : Urls → Settings → List String
allowed_origins urls s = parse_csv urls s.allowed_origins_csv

abbrev pub is_missing : Option String → Bool
is_missing none = true
is_missing (some s) = false

abbrev pub is_text : String → Option String → Bool
is_text text none = false
is_text text (some s) = s == text

abbrev pub is_test : Environment → Bool
is_test test = true
is_test _ = false

-- text.startswith(f"{url}/")
abbrev pub is_beneath : String → String → Bool
is_beneath url text = is_prefix (codes (concat url "/")) (codes text)

-- The checks outside tests.
unfoldable pub validate_deployment : Urls → Settings → Result (Unit {0})
validate_deployment urls s =
    bind (reject (not (canonical_public_url s == canonical_mcp_url)) value_error) λ _.
      bind
        (reject
          (not (urls.scheme (canonical_issuer s) == "https")
            || not (urls.scheme (canonical_jwks_url s) == "https"))
          value_error)
        λ _. bind (reject (is_missing s.cosmos_endpoint) value_error) λ _.
          bind (reject (is_missing s.azure_workload_client_id) value_error)
            λ _. reject (is_missing s.key_vault_url || is_missing s.apns_key_id) value_error

unfoldable pub validate_security_boundaries : Urls → Settings → Result Settings
validate_security_boundaries urls s =
    bind (if is_test s.environment then ok tt else validate_deployment urls s) λ _.
      bind (reject (is_text "appleid.apple.com" (urls.hostname (canonical_issuer s))) value_error)
        λ _. bind (reject (not (is_missing s.apple_private_key)) value_error) λ _.
          bind (reject (not (is_beneath (canonical_public_url s) s.required_scope_uri)) value_error)
            λ _.
              bind
                (reject (not (is_beneath (canonical_public_url s) s.mobile_scope_uri)) value_error)
                λ _.
                  bind (reject (s.entra_ios_client_id == s.entra_vscode_client_id) value_error) λ _.
                    bind
                      (reject
                        (not (is_nonempty (allowed_hosts urls s))
                          || not (is_nonempty (allowed_origins urls s)))
                        value_error)
                      λ _. ok s

-- `Settings(...)`: the fields, then the validator
unfoldable pub settings : Urls → Settings → Result Settings
settings urls s =
    if is_within_limits s then validate_security_boundaries urls s else err value_error
