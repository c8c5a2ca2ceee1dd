-- ===== src/Examples/Disclosure.antt =====
-- A disclosure of one property, and its report to the caller.
use soffortmcp.Prelude.{
  ℕ, ◌<◌, String, Bool, true, Option, none, some, List, [], ◌∷◌, map, ◌≡◌, refl, ok, All, contains,
  string_eq, all, same_set, has_duplicates, set_of, lookup, insert, insert_all, nat_beq, ◌==◌,
  if◌then◌else◌,
}
use mathlib.Core.List.{Nodup}
use soffortmcp.Prelude.{Nodup-of_has_duplicates}
use soffortmcp.Prelude.Json.{Value, int, pos, str, arr, obj, nil, cons, end, field}
use soffortmcp.Prelude.Encoding.{encode, decode, sextet, sextets, decode_sextets, letter}
use soffortmcp.Models.{Approval}
use soffortmcp.Models
use soffortmcp.DeviceSecurity.{Bytes, split}
use soffortmcp.Disclosure.{
  Platform, DisclosedProperty, decrypt, open_segments, check_header, decode_segment, json_object,
  has_repeated, require_exact, parse_time, approved_keys_hash, validate_plaintext, check_payload,
  validate_fields, validate_field, metadata_by_key,
}
use soffortmcp.Disclosure.Release.{IsBounded, decrypt_ok}
use soffortmcp.Tools.{request_result, CallToolResult, RequestPropertiesOutput}
use soffortmcp.Tools.Results.{pair_of, pair_of_output, request_result_text, request_result_values}
use soffortmcp.Examples.{key_one, metadata_one, approval_one}

abbrev sealed_header : Value
sealed_header = obj (
    field "alg" (str "RSA-OAEP-256") (
      field "enc" (str "A256GCM") (
        field "kid" (str "v") (
          field "typ" (str "permi-disclosure+jwe") (
            field "request_id" (str "a") (
              field "decision_id" (str "x")
                (field "approved_keys_hash" (str "") (field "expires_at" (str "later") end))))))))

abbrev sealed_payload : Value
sealed_payload = obj (
    field "schema_version" (int (pos 1)) (
      field "request_id" (str "a") (
        field "decision_id" (str "x") (
          field "approved_fields"
            (arr (
              cons
                (obj (
                  field "key" (str key_one)
                    (field "value_type" (str "email") (field "value" (str "v") end))))
                nil))
            (field "created_at" (str "now") (field "expires_at" (str "later") end))))))

-- One byte tells the header from the payload, and two texts are instants.
abbrev read_json : List ℕ → Option Value
read_json (b ∷ _) = if nat_beq b 1 then some sealed_header else some sealed_payload
read_json [] = none

abbrev read_time : String → Option (Bool × ℕ)
read_time t = if t == "later" then some (true, 50) else if t == "now" then some (true, 10) else none

abbrev bytes_32 : Bytes
bytes_32 =
    0 ∷ 0 ∷ 0 ∷ 0 ∷ 0 ∷ 0 ∷ 0 ∷ 0 ∷ 0 ∷ 0 ∷ 0 ∷ 0 ∷ 0 ∷ 0 ∷ 0 ∷ 0 ∷ 0 ∷ 0 ∷ 0 ∷ 0 ∷ 0 ∷ 0 ∷ 0 ∷ 0
    ∷ 0 ∷ 0 ∷ 0 ∷ 0 ∷ 0 ∷ 0 ∷ 0 ∷ 0 ∷ []

abbrev pub plain_platform : Platform
plain_platform = record {
  sha256 = λ b. [];
  loads = read_json;
  from_iso = read_time;
  unwrap = λ version key. some bytes_32;
  aes_gcm = λ key iv sealed associated. some (2 ∷ []);
}

abbrev pub sealed_approval : Approval
sealed_approval = record approval_one {
  status = Models.approved;
  decision_id = some "x";
  approved_keys = key_one ∷ [];
  property_metadata = metadata_one ∷ [];
  compact_jwe = some "AQ.AQ.AQ.AQ.AQ";
}

abbrev pub disclosed : List DisclosedProperty
disclosed = record { key = key_one; value = "v" } ∷ []

pub opened-run : decrypt plain_platform 20 sealed_approval ≡ ok disclosed
unfolding decrypt split open_segments decode_segment encode decode sextet sextets decode_sextets
    letter contains json_object has_repeated has_duplicates set_of require_exact same_set all
    check_header lookup approved_keys_hash parse_time validate_plaintext check_payload
    validate_fields validate_field metadata_by_key insert_all insert
opened-run = refl

decrypt_ok_example :
    (map (λ item. item.key) disclosed ≡ sealed_approval.approved_keys)
    × All IsBounded disclosed
    × (20 < sealed_approval.expires_at)
decrypt_ok_example = decrypt_ok plain_platform 20 sealed_approval disclosed opened-run

distinct : Nodup (key_one ∷ [])
unfolding has_duplicates set_of contains
distinct = Nodup-of_has_duplicates (key_one ∷ []) refl

request_result_values_example :
    (r : CallToolResult RequestPropertiesOutput) × (request_result sealed_approval disclosed ≡ ok r)
    × (map pair_of_output r.structured_content.properties ≡ map pair_of disclosed)
unfolding contains
request_result_values_example =
    request_result_values sealed_approval disclosed refl distinct distinct (refl, tt)

abbrev others : List DisclosedProperty
others = record { key = key_one; value = "w" } ∷ []

reported :
    (r : CallToolResult RequestPropertiesOutput) × (request_result sealed_approval disclosed ≡ ok r)
    × (map pair_of_output r.structured_content.properties ≡ map pair_of disclosed)
unfolding contains
reported = request_result_values sealed_approval disclosed refl distinct distinct (refl, tt)

others_reported :
    (r : CallToolResult RequestPropertiesOutput) × (request_result sealed_approval others ≡ ok r)
    × (map pair_of_output r.structured_content.properties ≡ map pair_of others)
unfolding contains
others_reported = request_result_values sealed_approval others refl distinct distinct (refl, tt)

request_result_text_example : reported.0.text ≡ others_reported.0.text
request_result_text_example =
    request_result_text sealed_approval disclosed others reported.0 others_reported.0 reported.1
      others_reported.1
