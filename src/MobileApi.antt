-- ===== src/MobileApi.antt =====
-- src/soffortbackend/mobile_api.py: the phone's routes. The HTTP server, its JSON reader and the token
-- middleware are other people's code: a route takes the body that was read and the token that was found.
pub mod Deciding
pub mod Guard
pub mod Linking
pub mod Responses
pub mod Routes
pub mod Server
use soffortmcp.Prelude.{
  ℕ, String, Bool, true, false, not, ◌&&◌, ◌||◌, Option, none, some, List, [], ◌∷◌, map, leb, ltb,
  ◌==◌, string_eq, if◌then◌else◌, length, contains, same_set, len, Failure, Result, ok, err,
  value_error, store_conflict, http_error, cancelled, type_error, guard, reject, bind, or_raise,
}
use soffortmcp.Prelude.Exec.{Exec}
use soffortmcp.Prelude.Exec
use soffortmcp.Prelude.Json.{Value, ℤ, bool, str, arr, obj, null, as_str, as_list, as_dict}
use soffortmcp.Models.{
  Principal, AccessToken, from_access_token, partition_key, EnrollmentChallenge, Device,
  PropertyMetadata,
}
use soffortmcp.Catalog.{max_available_properties}
use soffortmcp.DeviceSecurity.{
  Crypto, PublicKey, Enrollment, name_of, is_text, canonical_uuid7, parse_public_jwk,
  require_fresh_issued_at, enrollment_message, jwk_thumbprint, verify_signature,
  validate_apns_token,
}
use soffortmcp.Disclosure.{member}
use soffortmcp.Approval.Service.{World, await, now}

infixl 5 ◌>>=◌ ◌>>◌
abbrev ◌>>=◌ {ℓ κ} : {A : Type ℓ} {B : Type κ} → Result A → (A → Result B) → Result B
◌>>=◌ = bind

abbrev ◌>>◌ {ℓ} : {B : Type ℓ} → Result (Unit {0}) → Result B → Result B
m >> k = m >>= λ _. k

abbrev pub Body : Type 0
Body = List (String × Value)

-- The settings that the routes read.
pub record MobileSettings : Type 0 where
  pub entra_ios_client_id : String
  pub mobile_scope_uri : String
  pub apns_environment : String

-- `_problem`, as status and code
pub record Problem : Type 0 where
  pub status : ℕ
  pub code : String

-- A response of a route, or a problem.
pub data Response (A : Type 0) : Type 0 where
  done : A → Response A
  problem : Problem → Response A

-- The `except` clauses of `_execute`. A cancellation is not an `Exception`.
abbrev pub respond : {A : Type 0} → Result A → Result (Response A)
respond (ok a) = ok (done a)
respond (err cancelled) = err cancelled
respond (err (http_error status code)) = ok (problem (record { status = status; code = code }))
respond (err value_error) = ok (problem (record { status = 400; code = "invalid_request" }))
respond (err store_conflict) = ok (problem (record { status = 409; code = "decision_conflict" }))
respond (err _) = ok (problem (record { status = 503; code = "service_unavailable" }))

abbrev invalid_token : Failure
invalid_token = http_error 401 "invalid_token"

unfoldable pub ios_principal : Option Principal → Result Principal
ios_principal none = err invalid_token
ios_principal (some p) = if p.client_kind == "ios" then ok p else err invalid_token

-- `_require_mobile_principal`, for the access token that the middleware found
unfoldable pub require_mobile_principal : MobileSettings → Option AccessToken → Result Principal
require_mobile_principal settings none = err invalid_token
require_mobile_principal settings (some token) = do
  guard (token.client_id == settings.entra_ios_client_id) (http_error 403 "unauthorized_client")
  guard (contains settings.mobile_scope_uri token.scopes) (http_error 403 "insufficient_scope")
  ios_principal (from_access_token token)

-- `_execute`, for the operation of a route: the routes run under it, with the token of the middleware.
unfoldable pub execute :
    {S A : Type 0}
    → MobileSettings
    → Option AccessToken
    → (Principal → Exec S A)
    → Exec S (Response A)
execute settings found operation w =
    let r = Exec.◌>>=◌ (Exec.lift (require_mobile_principal settings found)) operation w in
    (respond r.0, r.1)

-- `_require_exact_members`
unfoldable pub require_exact_members : Body → List String → Result (Unit {0})
require_exact_members body names = guard (same_set (map name_of body) names) value_error

unfoldable pub texts_of : List Value → Result (List String)
texts_of [] = ok []
texts_of (v ∷ l) = do text ← or_raise (as_str v) value_error; rest ← texts_of l; ok (text ∷ rest)

-- `_string_tuple`
unfoldable pub string_tuple : Value → Result (List String)
string_tuple value = do
  values ← or_raise (as_list value) value_error
  reject (ltb max_available_properties (length values)) value_error
  texts_of values

abbrev text_of : String → Body → Result String
text_of name item = member name item >>= λ v. or_raise (as_str v) value_error

-- The body of the loop of `_metadata_tuple`.
unfoldable pub metadata_item : Value → Result PropertyMetadata
metadata_item raw = do
  item ← or_raise (as_dict raw) value_error
  require_exact_members item ("key" ∷ "display_name" ∷ "value_type" ∷ "sensitivity" ∷ [])
  key ← text_of "key" item
  display_name ← text_of "display_name" item
  value_type ← text_of "value_type" item
  sensitivity ← text_of "sensitivity" item
  ok (record {
    key = key;
    display_name = display_name;
    value_type = value_type;
    sensitivity = sensitivity;
  })

unfoldable pub metadata_items : List Value → Result (List PropertyMetadata)
metadata_items [] = ok []
metadata_items (raw ∷ l) = do item ← metadata_item raw; rest ← metadata_items l; ok (item ∷ rest)

-- `_metadata_tuple`
unfoldable pub metadata_tuple : Value → Result (List PropertyMetadata)
metadata_tuple value = do
  values ← or_raise (as_list value) value_error
  reject (ltb max_available_properties (length values)) value_error
  metadata_items values

-- v is True
abbrev pub is_true : Value → Bool
is_true (bool b) = b
is_true _ = false

abbrev pub enrollment_members : List String
enrollment_members =
    "challenge_id" ∷ "public_jwk" ∷ "apns_token" ∷ "apns_environment" ∷ "notifications_enabled"
    ∷ "issued_at" ∷ "signature" ∷ []

unfoldable pub challenge_id_of : Body → Result String
challenge_id_of body = do
  require_exact_members body enrollment_members
  raw ← member "challenge_id" body
  canonical_uuid7 raw

-- The first test of `put_device` on the challenge that was read.
unfoldable pub usable_challenge : ℕ → Option EnrollmentChallenge → Result EnrollmentChallenge
usable_challenge at none = err (http_error 409 "enrollment_challenge_unavailable")
usable_challenge at (some challenge) =
    if challenge.consumed || leb challenge.expires_at at
    then err (http_error 409 "enrollment_challenge_unavailable")
    else ok challenge

-- The operations of the store that an enrollment calls.
pub record EnrollmentStore (S : Type 0) : Type 0 where
  pub get_challenge : String → String → ℕ → Exec S (Option EnrollmentChallenge)
  pub register_device : EnrollmentChallenge → Device → ℕ → Exec S Device

module _ (settings : MobileSettings) (crypto : Crypto) where
  abbrev pub enrollment_of :
      Principal → String → String → EnrollmentChallenge → List ℕ → ℤ → Enrollment
  enrollment_of principal device_id challenge_id challenge thumbprint issued_at = record {
    tenant_id = principal.tenant_id;
    object_id = principal.object_id;
    device_id = device_id;
    challenge_id = challenge_id;
    nonce = challenge.nonce;
    thumbprint = thumbprint;
    issued_at = issued_at;
  }

  -- The checks of `put_device` between the read of the challenge and the registration.
  unfoldable pub check_enrollment :
      Principal → ℕ → String → String → EnrollmentChallenge → Body → Result Device
  check_enrollment principal at device_id challenge_id challenge body = do
    raw_key ← member "public_jwk" body
    key ← parse_public_jwk crypto raw_key
    raw_issued_at ← member "issued_at" body
    issued_at ← require_fresh_issued_at at raw_issued_at
    thumbprint ← jwk_thumbprint crypto key.jwk
    signature ← member "signature" body
    verify_signature crypto key.jwk
        (enrollment_message
          (enrollment_of principal device_id challenge_id challenge thumbprint issued_at))
        signature
    environment ← member "apns_environment" body
    guard (is_text environment settings.apns_environment)
        (http_error 400 "unsupported_apns_environment")
    enabled ← member "notifications_enabled" body
    guard (is_true enabled) (http_error 400 "notifications_must_be_enabled")
    raw_token ← member "apns_token" body
    apns_token ← validate_apns_token raw_token
    ok (record {
      partition_key = partition_key principal;
      device_id = device_id;
      public_jwk = key.jwk;
      apns_token = apns_token;
      apns_environment = settings.apns_environment;
      notifications_enabled = true;
      updated_at = at;
    })

  -- `put_device`, for the identifier in the path and what `_read_object` returns or raises
  unfoldable pub put_device :
      {S : Type 0} → EnrollmentStore S → Principal → String → Result Body → Exec (World S) Device
  put_device store principal raw_id read =
      Exec.◌>>=◌ (Exec.lift (canonical_uuid7 (str raw_id))) λ device_id.
        Exec.◌>>=◌ (await (λ at s. (read, s))) λ body.
          Exec.◌>>=◌ (Exec.lift (challenge_id_of body)) λ challenge_id.
            Exec.◌>>=◌ (await (store.get_challenge (partition_key principal) challenge_id)) λ found.
              Exec.◌>>=◌ now λ at. Exec.◌>>=◌ (Exec.lift (usable_challenge at found)) λ challenge.
                Exec.◌>>=◌
                  (Exec.lift (check_enrollment principal at device_id challenge_id challenge body))
                  λ device.
                    Exec.◌>>=◌ (await (store.register_device challenge device))
                      λ _. Exec.pure device
