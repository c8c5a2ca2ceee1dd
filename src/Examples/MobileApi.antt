-- ===== src/Examples/MobileApi.antt =====
-- A phone that links itself.
use soffortmcp.Prelude.{
  ℕ, ◌⊎◌, String, true, some, [], ◌∷◌, ◌≡◌, refl, ok, contains, same_set, all, string_eq, lookup,
}
use soffortmcp.Prelude.Json.{pos, int, str, bool, obj, field, end}
use soffortmcp.Models.{Principal, AccessToken, partition_key, Device}
use soffortmcp.Store.Memory.{Memory, empty, get_challenge, register_device}
use soffortmcp.Approval.Service.{World, await, pause, interleave}
use soffortmcp.MobileApi.{
  Body, MobileSettings, EnrollmentStore, put_device, check_enrollment, usable_challenge,
  challenge_id_of, require_exact_members,
}
use soffortmcp.MobileApi.Server.{Api, device_put, Serves, Rejects, handle_cases}
use soffortmcp.MobileApi.Guard.{IsPhone, IsRefusal}
use soffortmcp.MobileApi.Linking.{IsLinked, put_device-IsLinked}
use soffortmcp.DeviceSecurity.{
  canonical_uuid7, is_uuid7_groups, split, parse_public_jwk, decode_b64url, require_fresh_issued_at,
  jwk_thumbprint, verify_signature, validate_apns_token,
}
use soffortmcp.Prelude.Encoding.{encode, decode, sextet, sextets, decode_sextets, letter}
use soffortmcp.Examples.Approval.{memory_service}
use soffortmcp.Examples.Routes.{route_store}
use soffortmcp.Examples.{alice, plain_unicode, plain_crypto, coordinate, challenge_one}

abbrev mobile_settings : MobileSettings
mobile_settings = record {
  entra_ios_client_id = "c";
  mobile_scope_uri = "m";
  apns_environment = "sandbox";
}

abbrev ios_token : AccessToken
ios_token = record {
  token = "";
  client_id = "c";
  scopes = "m" ∷ [];
  expires_at = pos 0;
  resource = "r";
  subject = "o";
  claims = some (("tid", str "t") ∷ ("oid", str "o") ∷ ("client_kind", str "ios") ∷ []);
}

abbrev phone_owner : Principal
phone_owner = record alice { client_kind = "ios" }

abbrev pub id_one : String
id_one = "00000000-0000-7000-8000-000000000000"

abbrev apns_token_one : String
apns_token_one = "0000000000000000000000000000000000000000000000000000000000000000"

abbrev enrollment_body : Body
enrollment_body =
    ("challenge_id", str id_one)
    ∷ (
      "public_jwk",
      obj (
          field "kty" (str "EC") (
            field "crv" (str "P-256")
              (field "x" (str coordinate) (field "y" (str coordinate) end)))),
    )
    ∷ ("apns_token", str apns_token_one)
    ∷ ("apns_environment", str "sandbox")
    ∷ ("notifications_enabled", bool true)
    ∷ ("issued_at", int (pos 0))
    ∷ ("signature", str "AQ")
    ∷ []

abbrev enrollment_store : EnrollmentStore Memory
enrollment_store = record {
  get_challenge = λ partition challenge_id now. get_challenge partition challenge_id;
  register_device = λ challenge device now. register_device now challenge device;
}

abbrev inviting : World Memory
inviting = record {
  state = record empty {
    challenges = (("t:o", id_one), record challenge_one { challenge_id = id_one }) ∷ [];
  };
  clock = 10;
  others = [];
}

abbrev linked : Device
linked = record {
  partition_key = partition_key phone_owner;
  device_id = id_one;
  public_jwk = ("kty", "EC") ∷ ("crv", "P-256") ∷ ("x", coordinate) ∷ ("y", coordinate) ∷ [];
  apns_token = apns_token_one;
  apns_environment = "sandbox";
  notifications_enabled = true;
  updated_at = 10;
}

linked_run :
    (put_device mobile_settings plain_crypto enrollment_store phone_owner id_one
      (ok enrollment_body)
      inviting).0
    ≡ ok linked
unfolding put_device await pause interleave canonical_uuid7 is_uuid7_groups split challenge_id_of
    require_exact_members same_set all contains lookup get_challenge usable_challenge
    check_enrollment parse_public_jwk decode_b64url encode decode sextet sextets decode_sextets
    letter require_fresh_issued_at jwk_thumbprint verify_signature validate_apns_token
    register_device partition_key
linked_run = refl

put_device-IsLinked_example :
    IsLinked mobile_settings plain_crypto enrollment_store phone_owner id_one
      (ok enrollment_body)
      inviting
      linked
put_device-IsLinked_example =
    put_device-IsLinked mobile_settings plain_crypto enrollment_store phone_owner id_one
      (ok enrollment_body) inviting linked linked_run

abbrev api_one : Api Memory
api_one = record {
  settings = mobile_settings;
  crypto = plain_crypto;
  unicode = plain_unicode;
  enrollment = enrollment_store;
  store = route_store;
  approvals = memory_service;
}

handle_cases_example :
    ((p : Principal) × IsPhone mobile_settings (some ios_token) p
      × Serves api_one (some ios_token) (device_put id_one (ok enrollment_body)) inviting p)
    ⊎ (((p : Principal) → ¬ IsPhone mobile_settings (some ios_token) p)
        × (status : ℕ) × (code : String) × IsRefusal status
        × Rejects api_one
            (some ios_token)
            (device_put id_one (ok enrollment_body))
            inviting
            status
            code)
handle_cases_example =
    handle_cases api_one (some ios_token) (device_put id_one (ok enrollment_body)) inviting
