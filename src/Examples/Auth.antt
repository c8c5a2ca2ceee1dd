-- ===== src/Examples/Auth.antt =====
-- A deployment with one signing key, and a token of the phone application.
use soffortmcp.Prelude.{
  false, ℕ, ◌≤◌, true, none, some, [], ◌∷◌, ◌≡◌, ◌⊎◌, refl, ok, nat_beq, ◌+◌, ◌<◌, if◌then◌else◌,
  lookup, string_eq, insert, contains, all, is_prefix, len, filter,
}
use soffortmcp.Prelude.Json.{Value, null, str, arr, obj, cons, nil, field, end, pos, int}
use soffortmcp.Prelude.Words.{distinct}
use soffortmcp.Models.{AccessToken}
use soffortmcp.Settings.{
  Settings, Urls, production, settings, is_within_limits, validate_security_boundaries,
  validate_deployment, canonical_public_url, canonical_issuer, canonical_jwks_url, allowed_hosts,
  allowed_origins, parse_csv,
}
use soffortmcp.Settings.Boundary.{IsSecure, settings-IsSecure}
use soffortmcp.Auth.Jwks.{
  Client, JwksCache, Limits, new_cache, seconds, search_max_age, cache_ttl, usable_kid, add_key,
  parse_keys, read_response, fetch, refresh_locked, refresh, get_key,
}
use soffortmcp.Auth.Jwks.Cooldown.{IsLife, created, passes, refreshes, IsSpaced, refresh-IsSpaced}
use soffortmcp.Auth.Jwks.Lifetime.{get_key-IsFresh}
use soffortmcp.Auth.Verifier.{
  Jwt, is_malformed, text_member, header_kid, decode_options, authorized_party, client_kind_of,
  mcp_scopes, claim_scopes, token_of, accept, verified_claims, verify_token, max_token_length,
}
use soffortmcp.Auth.Verifier.Granted.{IsGranted}
use soffortmcp.Auth.Verifier.Claims.{IsSigned, verify_token-IsGranted}
use soffortmcp.Store.Conversions.{Document}
use soffortmcp.Approval.Service.{World, pause, interleave}
use soffortmcp.Examples.Cosmos.{python}

abbrev urls : Urls
urls = record { strip = λ s. s; scheme = λ s. "https"; hostname = λ s. some "login.example" }

abbrev deployed : Settings
deployed = record {
  environment = production;
  public_url = "https://concentrey.com/mcp/";
  entra_issuer = "https://login.example/v2.0";
  entra_jwks_url = "https://login.example/keys";
  entra_tenant_id = "tenant";
  entra_api_audience = "api";
  entra_vscode_client_id = "editor";
  entra_ios_client_id = "phone";
  required_scope_value = "soffortbackend.access";
  required_scope_uri = "https://concentrey.com/mcp/soffortbackend.access";
  mobile_scope_value = "soffortbackend.mobile";
  mobile_scope_uri = "https://concentrey.com/mcp/soffortbackend.mobile";
  cosmos_endpoint = some "https://cosmos.example";
  cosmos_database = "soffortbackend";
  cosmos_container = "approval";
  azure_workload_client_id = some "workload";
  key_vault_url = some "https://vault.example";
  disclosure_key_name = "permi-disclosure";
  apns_private_key_secret_name = "apns-private-key";
  apns_private_key_secret_version = none;
  apns_key_id = some "ABCDEF1234";
  apns_team_id = "TTP26ZNL9Q";
  apns_topic = "com.concentrey.app";
  apns_environment = "production";
  approval_timeout_seconds = 120;
  approval_poll_interval = 500;
  allowed_hosts_csv = "concentrey.com";
  allowed_origins_csv = "https://vscode.dev";
  bind_host = "0.0.0.0";
  port = 8000;
  log_level = "INFO";
  jwks_default_ttl_seconds = 3600;
  jwks_refresh_cooldown_seconds = 30;
  jwt_leeway_seconds = 30;
  apple_private_key = none;
}

deployed_run : settings urls deployed ≡ ok deployed
unfolding settings is_within_limits validate_security_boundaries validate_deployment
    canonical_public_url canonical_issuer canonical_jwks_url allowed_hosts allowed_origins parse_csv
    distinct contains all is_prefix filter
deployed_run = refl

settings-IsSecure_example :
    (deployed ≡ deployed) × (is_within_limits deployed ≡ true) × IsSecure urls deployed
settings-IsSecure_example = settings-IsSecure urls deployed deployed deployed_run

abbrev signing_key : Value
signing_key = obj (field "kid" (str "k") (field "kty" (str "RSA") end))

-- The endpoint answers after one second.
abbrev client : Client ℕ
client = record {
  get = λ at. (
    ok (record {
      raise_for_status = ok tt;
      json = ok (obj (field "keys" (arr (cons signing_key nil)) end));
      cache_control = "public, max-age=30";
    }),
    1000000,
  );
  from_dict = λ key. ok 7;
  is_space = λ c. nat_beq c b' ';
  digit = λ c. if nat_beq c b'3' then some 3 else if nat_beq c b'0' then some 0 else none;
}

abbrev limits : Limits
limits = record { default_ttl = 3600; refresh_cooldown = 30 }

abbrev cold : World (JwksCache ℕ)
cold = record { state = new_cache; clock = seconds 40; others = [] }

abbrev warm : World (JwksCache ℕ)
warm = record {
  state = record {
    keys = ("k", 7) ∷ [];
    expires_at = seconds 101;
    last_refresh_attempt = seconds 40;
    sent = record { forced = true; at = seconds 40; succeeded = true } ∷ [];
  };
  clock = seconds 41;
  others = [];
}

got : get_key client limits "k" cold ≡ (ok (some 7), warm)
unfolding get_key refresh refresh_locked fetch read_response parse_keys add_key usable_kid cache_ttl
    search_max_age pause interleave lookup insert
got = refl

get_key-IsFresh_example :
    (lookup "k" warm.state.keys ≡ some 7)
    × ((warm.clock < warm.state.expires_at)
        ⊎ ((lookup "k" cold.state.keys ≡ none)
            × (warm.clock < warm.state.last_refresh_attempt + seconds limits.refresh_cooldown)))
get_key-IsFresh_example = get_key-IsFresh client limits "k" 7 cold warm got

-- The start, an unfamiliar identifier five seconds later and another one forty seconds after that, and
-- an identifier whose key has expired when two more minutes have passed.
abbrev started : World (JwksCache ℕ)
started = (refresh_locked client limits true cold).1

abbrev probed : World (JwksCache ℕ)
probed =
    (refresh_locked client limits true (record started { clock = started.clock + seconds 5 })).1

abbrev probed_again : World (JwksCache ℕ)
probed_again =
    (refresh_locked client limits true (record probed { clock = probed.clock + seconds 40 })).1

abbrev expired : World (JwksCache ℕ)
expired =
    (refresh_locked client limits false
      (record probed_again { clock = probed_again.clock + seconds 120 })).1

started-IsLife : IsLife client limits started
started-IsLife = refreshes true cold (created (seconds 40) [])

probed-IsLife : IsLife client limits probed
probed-IsLife =
    refreshes true (record started { clock = started.clock + seconds 5 })
      (passes (seconds 5) started started-IsLife)

probed_again-IsLife : IsLife client limits probed_again
probed_again-IsLife =
    refreshes true (record probed { clock = probed.clock + seconds 40 })
      (passes (seconds 40) probed probed-IsLife)

expired-IsLife : IsLife client limits expired
expired-IsLife =
    refreshes false (record probed_again { clock = probed_again.clock + seconds 120 })
      (passes (seconds 120) probed_again probed_again-IsLife)

refresh-IsSpaced_example : IsSpaced (seconds 30) (
    record { forced = false; at = seconds 207; succeeded = true }
    ∷ record { forced = true; at = seconds 86; succeeded = true }
    ∷ record { forced = true; at = seconds 40; succeeded = true }
    ∷ [])
unfolding refresh_locked fetch read_response parse_keys add_key usable_kid cache_ttl search_max_age
    lookup insert
refresh-IsSpaced_example = refresh-IsSpaced client limits expired expired-IsLife

abbrev phone_claims : Document
phone_claims =
    ("tid", str "tenant")
    ∷ ("azp", str "phone")
    ∷ ("scp", str "soffortbackend.mobile")
    ∷ ("sub", str "s")
    ∷ ("oid", str "o")
    ∷ ("exp", int (pos 900))
    ∷ []

abbrev jwt : Jwt ℕ
jwt = record {
  get_unverified_header = λ token. ok (("alg", str "RS256") ∷ ("kid", str "k") ∷ []);
  decode = λ token key options at. ok phone_claims;
}

abbrev phone_token : AccessToken
phone_token = record {
  token = "a.b.c";
  client_id = "phone";
  scopes = "https://concentrey.com/mcp/soffortbackend.mobile" ∷ "soffortbackend.mobile" ∷ [];
  expires_at = pos 900;
  resource = "https://concentrey.com/mcp";
  subject = "o";
  claims = some (
      ("tid", str "tenant")
      ∷ ("oid", str "o")
      ∷ ("sub", str "s")
      ∷ ("ver", null)
      ∷ ("client_kind", str "ios")
      ∷ []);
}

verified :
    verify_token client limits jwt deployed python "a.b.c" cold ≡ (ok (some phone_token), warm)
unfolding verify_token is_malformed verified_claims header_kid text_member accept token_of
    authorized_party client_kind_of mcp_scopes claim_scopes decode_options canonical_public_url
    canonical_issuer get_key refresh refresh_locked fetch read_response parse_keys add_key
    usable_kid cache_ttl search_max_age pause interleave lookup insert contains filter
verified = refl

verify_token-IsGranted_example :
    (len "a.b.c" ≤ max_token_length)
    × (claims : Document) × IsSigned client limits jwt deployed "a.b.c" cold claims
    × IsGranted python client.is_space deployed claims "a.b.c" phone_token
verify_token-IsGranted_example =
    verify_token-IsGranted client limits jwt deployed python "a.b.c" phone_token cold warm refl
      verified
