-- ===== src/Examples/Devices.antt =====
-- Device proofs, handles and claims on concrete inputs.
use soffortmcp.Prelude.{
  some, [], ◌∷◌, ◌≡◌, ◌↔◌, ◌⊎◌, refl, arith, ok, err, value_error, contains, nat_eq, leb, string_eq,
  same_set, all, lookup,
}
use soffortmcp.Prelude.Decimal.{decimal, decimal_digits, digit}
use soffortmcp.Prelude.Json.{pos, int, str}
use soffortmcp.Prelude.Encoding.{encode, decode, sextet, sextets, decode_sextets, letter}
use soffortmcp.Models.{AccessToken, partition_key, from_access_token, text_claim}
use soffortmcp.Models.Correlation.{partition_key-injective}
use soffortmcp.Catalog.{parse_property_keys, validate_property_metadata}
use soffortmcp.Catalog.Sound.{
  IsRequestable, IsManifest, parse_property_keys_iff, validate_property_metadata_iff,
}
use soffortmcp.DeviceSecurity.{
  Consent, Enrollment, verify_signature, parse_public_jwk, decode_b64url, require_fresh_issued_at,
}
use soffortmcp.DeviceSecurity.Messages.{IsOneLine, decision_message-injective}
use soffortmcp.DeviceSecurity.Proofs.{
  IsCanonical, IsSigned, IsFresh, decode_b64url_iff, verify_signature-IsSigned,
  require_fresh_issued_at_iff,
}
use soffortmcp.Examples.{key_one, metadata_one, alice, plain_unicode, plain_crypto, phone}

abbrev consent_one : Consent
consent_one = record {
  tenant_id = "t";
  object_id = "o";
  device_id = "d";
  approval_id = "a";
  nonce = "n";
  tool_name = "request_properties";
  arguments_hash = "g";
  decision = "approved";
  result_hash = "h";
  issued_at = pos 5;
}

abbrev enrollment_one : Enrollment
enrollment_one = record {
  tenant_id = "t";
  object_id = "o";
  device_id = "d";
  challenge_id = "c";
  nonce = "n";
  thumbprint = [];
  issued_at = pos 5;
}

consent_one-IsOneLine : IsOneLine consent_one
unfolding contains decimal decimal_digits digit
consent_one-IsOneLine = record {
  lines =
      (refl, (refl, (refl, (refl, (refl, (refl, (refl, (refl, (refl, (refl, (refl, tt)))))))))));
}

decision_message-injective_example : consent_one ≡ consent_one
decision_message-injective_example =
    decision_message-injective consent_one consent_one consent_one-IsOneLine consent_one-IsOneLine
      refl

decode_b64url_iff_example :
    (decode_b64url (str "AQ") (λ n. leb n 96) ≡ ok (1 ∷ []))
    ↔ IsCanonical (str "AQ") (λ n. leb n 96) (1 ∷ [])
decode_b64url_iff_example = decode_b64url_iff (str "AQ") (λ n. leb n 96) (1 ∷ []) (omega arith, tt)

signed_run : verify_signature plain_crypto phone.public_jwk (1 ∷ []) (str "AQ") ≡ ok tt
unfolding verify_signature parse_public_jwk decode_b64url same_set all contains lookup encode decode
    sextet sextets decode_sextets letter
signed_run = refl

verify_signature-IsSigned_example : IsSigned plain_crypto phone.public_jwk (1 ∷ []) (str "AQ")
verify_signature-IsSigned_example =
    verify_signature-IsSigned plain_crypto phone.public_jwk (1 ∷ []) (str "AQ") signed_run

require_fresh_issued_at_iff_example :
    (require_fresh_issued_at 40000000 (int (pos 30)) ≡ ok (pos 30))
    ↔ ((int (pos 30) ≡ int (pos 30)) × IsFresh 40 (pos 30))
require_fresh_issued_at_iff_example = require_fresh_issued_at_iff 40000000 (int (pos 30)) (pos 30)

parse_property_keys_iff_example :
    ((parse_property_keys (key_one ∷ []) ≡ ok (key_one ∷ [])) ↔ IsRequestable (key_one ∷ []))
    × ((parse_property_keys (key_one ∷ []) ≡ ok (key_one ∷ []))
        ⊎ (parse_property_keys (key_one ∷ []) ≡ err value_error))
parse_property_keys_iff_example = parse_property_keys_iff (key_one ∷ [])

validate_property_metadata_iff_example :
    ((validate_property_metadata plain_unicode (metadata_one ∷ []) ≡ ok (metadata_one ∷ []))
      ↔ IsManifest plain_unicode (metadata_one ∷ []))
    × ((validate_property_metadata plain_unicode (metadata_one ∷ []) ≡ ok (metadata_one ∷ []))
        ⊎ (validate_property_metadata plain_unicode (metadata_one ∷ []) ≡ err value_error))
validate_property_metadata_iff_example =
    validate_property_metadata_iff plain_unicode (metadata_one ∷ [])

partition_key-injective_example :
    (alice.tenant_id ≡ alice.tenant_id) × (alice.object_id ≡ alice.object_id)
unfolding contains partition_key
partition_key-injective_example =
    partition_key-injective alice (record alice { client_id = "d" }) refl refl refl

abbrev pub token_one : AccessToken
token_one = record {
  token = "";
  client_id = "c";
  scopes = [];
  expires_at = pos 0;
  resource = "r";
  subject = "o";
  claims = some (("tid", str "t") ∷ ("oid", str "o") ∷ ("client_kind", str "vscode") ∷ []);
}

token_run : from_access_token token_one ≡ some alice
unfolding from_access_token text_claim lookup
token_run = refl
