-- ===== src/Auth/Verifier.antt =====
-- src/soffortbackend/auth.py, `EntraTokenVerifier`.
pub mod Granted
pub mod Claims
use soffortmcp.Prelude.{
  ℕ, ◌+◌, String, Bool, true, false, not, ◌&&◌, ◌||◌, Option, none, some, List, [], ◌∷◌, ◌++◌, ◌==◌,
  string_eq, ltb, nat_beq, if◌then◌else◌, lookup, insert, contains, len, codes, Failure, Result, ok,
  err, bind, value_error, type_error, transport_error, jwt_error,
}
use soffortmcp.Prelude.Exec.{Exec, pure, raise, lift, catch, continue, ◌>>=◌}
use soffortmcp.Prelude.Json.{Value, null, str, as_str}
use soffortmcp.Prelude.Words.{words_of, sorted_set}
use soffortmcp.Models.{AccessToken}
use soffortmcp.Settings.{Settings, canonical_issuer, canonical_public_url}
use soffortmcp.Store.Conversions.{Python, Document, text_of, int_of, is_truthy, get, get_or}
use soffortmcp.Auth.Jwks.{JwksCache, Client, Limits}
use soffortmcp.Auth.Jwks
use soffortmcp.Approval.Service.{World, now}

-- What `jwt.decode` is asked to check.
pub record DecodeOptions : Type 0 where
  pub algorithms : List String
  pub audience : String
  pub issuer : String
  pub leeway : ℕ
  pub require : List String

-- PyJWT: the header of a token, and its claims if it is valid under a key at an instant.
pub record Jwt (K : Type 0) : Type 0 where
  pub get_unverified_header : String → Result Document
  pub decode : String → K → DecodeOptions → ℕ → Result Document

abbrev pub max_token_length : ℕ
max_token_length = 16384

abbrev pub count : ℕ → List ℕ → ℕ
count c [] = 0
count c (d ∷ s) = let rest = count c s in if nat_beq c d then rest + 1 else rest

-- not token or len(token) > MAX_TOKEN_LENGTH or token.count(".") != 2
unfoldable pub is_malformed : String → Bool
is_malformed token =
    token == "" || ltb max_token_length (len token) || not (nat_beq (count b'.' (codes token)) 2)

-- The text of a member, if it is not empty.
unfoldable pub text_member : String → Document → Option String
text_member name d = elim (lookup name d) [
  | none ↦ none
  | some v ↦ elim (as_str v) [ none ↦ none | some s ↦ if s == "" then none else some s ]
]

abbrev pub is_member : String → Option Value → Bool
is_member text none = false
is_member text (some v) = elim (as_str v) [ none ↦ false | some s ↦ s == text ]

-- The key identifier of a header that names the algorithm.
unfoldable pub header_kid : Document → Option String
header_kid header =
    if is_member "RS256" (lookup "alg" header) then text_member "kid" header else none

unfoldable pub decode_options : Settings → DecodeOptions
decode_options settings = record {
  algorithms = "RS256" ∷ [];
  audience = settings.entra_api_audience;
  issuer = canonical_issuer settings;
  leeway = settings.jwt_leeway_seconds;
  require = "aud" ∷ "exp" ∷ "iat" ∷ "iss" ∷ "nbf" ∷ "sub" ∷ "oid" ∷ [];
}

-- claims.get("azp") or claims.get("appid")
unfoldable pub authorized_party : Document → Value
authorized_party claims =
    let azp = get_or null "azp" claims in
    let appid = get_or null "appid" claims in if is_truthy azp then azp else appid

-- authorized_clients.get(client)
unfoldable pub client_kind_of : Settings → String → Option String
client_kind_of settings client =
    lookup client
      (insert settings.entra_ios_client_id "ios" ((settings.entra_vscode_client_id, "vscode") ∷ []))

-- The scope URI of a permission that the claim has.
abbrev pub scope_of : String → String → List String → List String
scope_of value uri scopes = if contains value scopes then uri ∷ [] else []

-- sorted(mcp_scopes)
unfoldable pub mcp_scopes : Settings → List String → List String
mcp_scopes settings scopes = sorted_set (
    scope_of settings.required_scope_value settings.required_scope_uri scopes
    ++ (scope_of settings.mobile_scope_value settings.mobile_scope_uri scopes ++ scopes))

module _ (p : Python) (is_space : ℕ → Bool) (settings : Settings) where
  unfoldable pub claim_scopes : Document → List String
  claim_scopes claims = words_of is_space (text_of p (get_or (str "") "scp" claims))

  -- The access token of an authorised client.
  unfoldable pub token_of :
      String → Document → String → String → String → String → Result AccessToken
  token_of token claims client_id client_kind subject object_id = bind (get "exp" claims) λ exp.
      bind (int_of p exp) λ expires_at. ok (record {
        token = token;
        client_id = client_id;
        scopes = mcp_scopes settings (claim_scopes claims);
        expires_at = expires_at;
        resource = canonical_public_url settings;
        subject = object_id;
        claims = some (
            ("tid", str settings.entra_tenant_id)
            ∷ ("oid", str object_id)
            ∷ ("sub", str subject)
            ∷ ("ver", get_or null "ver" claims)
            ∷ ("client_kind", str client_kind)
            ∷ []);
      })

  -- The access token of the claims, if they name the tenant, a client and an account.
  unfoldable pub accept : String → Document → Result (Option AccessToken)
  accept token claims =
      if not (is_member settings.entra_tenant_id (lookup "tid" claims))
      then ok none
      else let client_id = text_of p (authorized_party claims) in
        elim (client_kind_of settings client_id) [
          | none ↦ ok none
          | some client_kind ↦ elim (text_member "sub" claims) [
            | none ↦ ok none
            | some subject ↦ elim (text_member "oid" claims) [
              | none ↦ ok none
              | some object_id ↦
                  bind (token_of token claims client_id client_kind subject object_id)
                    λ accepted. ok (some accepted)
            ]
          ]
        ]

module _ {K : Type 0} (client : Client K) (limits : Limits) (jwt : Jwt K)
    (settings : Settings) where
  abbrev pub decode_under : String → Option K → Exec (World (JwksCache K)) (Option Document)
  decode_under token none = pure none
  decode_under token (some key) = do
    at ← now
    claims ← lift (jwt.decode token key (decode_options settings) at)
    pure (some claims)

  abbrev pub decode_with : String → Option String → Exec (World (JwksCache K)) (Option Document)
  decode_with token none = pure none
  decode_with token (some key_id) = do
    key ← Jwks.get_key client limits key_id
    decode_under token key

  -- except jwt.PyJWTError, httpx.HTTPError, ValueError, TypeError
  abbrev pub reject_token : Failure → Exec (World (JwksCache K)) (Option Document)
  reject_token jwt_error = pure none
  reject_token transport_error = pure none
  reject_token value_error = pure none
  reject_token type_error = pure none
  reject_token e = raise e

  -- The verified claims of a token, or none
  unfoldable pub verified_claims : String → Exec (World (JwksCache K)) (Option Document)
  verified_claims token =
      catch
        (do header ← lift (jwt.get_unverified_header token); decode_with token (header_kid header))
        reject_token

  abbrev pub accept_found : Python → String → Option Document → Result (Option AccessToken)
  accept_found p token none = ok none
  accept_found p token (some claims) = accept p client.is_space settings token claims

  unfoldable pub verify_token : Python → String → Exec (World (JwksCache K)) (Option AccessToken)
  verify_token p token =
      if is_malformed token
      then pure none
      else verified_claims token >>= λ found. lift (accept_found p token found)
