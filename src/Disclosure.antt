-- ===== src/Disclosure.antt =====
-- src/soffortbackend/disclosure.py: the hashes that a decision binds, and the checks on an encrypted
-- disclosure. JSON reading, ISO 8601 reading, SHA-256, Key Vault's RSA-OAEP and AES-GCM are other
-- people's code and enter as `Platform`.
pub mod Keys
pub mod Release
use Prim.Native.Char.{code}
use soffortmcp.Prelude.{
  concat, ℕ, ◌+◌, ◌*◌, ◌≤◌, String, Bool, true, false, not, ◌&&◌, ◌||◌, Option, none, some, List,
  [], ◌∷◌, ◌++◌, map, leb, ltb, nat_beq, ◌==◌, string_eq, nat_eq, codes_eq, if◌then◌else◌, length,
  all, contains, same_set, has_duplicates, codes, len, lookup, insert_all, Dict, Result, ok, err,
  disclosure_error, other_error, key_error, guard, reject, bind, or_raise,
}
use soffortmcp.Prelude.Json.{
  Value, Items, Fields, null, bool, int, float, str, arr, obj, nil, cons, end, field, as_str,
  as_list, as_dict, pos, members,
}
use soffortmcp.Prelude.Encoding.{utf8, encode, decode}
use soffortmcp.Prelude.JsonText.{dumps_text, dumps_texts, dumps_list, dumps_object}
use soffortmcp.Models.{Approval, PropertyMetadata}
use soffortmcp.DeviceSecurity.{Bytes, split, is_text, name_of}

pub record DisclosedProperty : Type 0 where
  pub key : String
  pub value : String

-- value.replace("Z", "+00:00")
abbrev pub with_offset : String → String
with_offset String.[] = String.[]
with_offset (String.◌∷◌ c s) =
    let rest = with_offset s in
    if nat_beq (code c) b'Z' then concat "+00:00" rest else String.◌∷◌ c rest

pub record Platform : Type 0 where
  pub sha256 : Bytes → Bytes
  -- json.loads of UTF-8 bytes, with repeated members kept; `none` if it raises
  pub loads : Bytes → Option Value
  -- datetime.fromisoformat: whether it has an offset, and the instant, which `astimezone` keeps; `none`
  -- if it raises
  pub from_iso : String → Option (Bool × ℕ)
  -- RSA-OAEP under a version of the disclosure key; `none` if the vault raises
  pub unwrap : String → Bytes → Option Bytes
  -- AESGCM(key).decrypt(iv, data, associated); `none` if authentication fails
  pub aes_gcm : Bytes → Bytes → Bytes → Bytes → Option Bytes

infixl 5 ◌>>=◌ ◌>>◌
abbrev ◌>>=◌ {ℓ κ} : {A : Type ℓ} {B : Type κ} → Result A → (A → Result B) → Result B
◌>>=◌ = bind

abbrev ◌>>◌ {ℓ} : {B : Type ℓ} → Result (Unit {0}) → Result B → Result B
m >> k = m >>= λ _. k

-- What a decision discloses, as it is hashed and signed.
pub record Manifest : Type 0 where
  pub available_keys : List String
  pub approved_keys : List String
  pub denied_keys : List String
  pub unavailable_keys : List String
  pub property_metadata : List PropertyMetadata
  pub compact_jwe : Option String

-- compact_jwe or ""
abbrev pub text_or_empty : Option String → String
text_or_empty none = ""
text_or_empty (some s) = s

unfoldable pub metadata_json : PropertyMetadata → List ℕ
metadata_json item = dumps_object (
    ("display_name", dumps_text false item.display_name)
    ∷ ("key", dumps_text false item.key)
    ∷ ("sensitivity", dumps_text false item.sensitivity)
    ∷ ("value_type", dumps_text false item.value_type)
    ∷ [])

-- v == 1, which holds of `True` and of `1.0` too
abbrev pub is_one : Value → Bool
is_one (int (pos n)) = nat_beq n 1
is_one (bool b) = b
is_one (float s) = s == "1.0"
is_one _ = false

-- v == t, for an optional text
abbrev pub is_optional_text : Value → Option String → Bool
is_optional_text null none = true
is_optional_text _ none = false
is_optional_text v (some s) = is_text v s

-- v == t, for a text given by its code points
abbrev pub is_codes : Value → List ℕ → Bool
is_codes v t = elim (as_str v) [ none ↦ false | some s ↦ codes s == t ]

-- d[name]
abbrev pub member : String → List (String × Value) → Result Value
member name d = or_raise (lookup name d) key_error

-- The hook of `_json_object` runs on every object of the document.
unfoldable mutual
  pub has_repeated : Value → Bool
  has_repeated (arr l) = has_repeated_item l
  has_repeated (obj l) = has_duplicates (map name_of (members l)) || has_repeated_field l
  has_repeated _ = false

  pub has_repeated_item : Items → Bool
  has_repeated_item nil = false
  has_repeated_item (cons v l) = has_repeated v || has_repeated_item l

  pub has_repeated_field : Fields → Bool
  has_repeated_field end = false
  has_repeated_field (field k v l) = has_repeated v || has_repeated_field l

unfoldable pub require_exact : List (String × Value) → List String → Result (Unit {0})
require_exact value names = guard (same_set (map name_of value) names) disclosure_error

-- `_decode`
unfoldable pub decode_segment : List ℕ → ℕ → Result Bytes
decode_segment value maximum = do
  reject (nat_beq (length value) 0 || contains b'=' value || ltb (maximum * 2) (length value))
      disclosure_error
  decoded ← or_raise (decode value) disclosure_error
  reject (ltb maximum (length decoded) || not (encode decoded == value)) disclosure_error
  ok decoded

abbrev pub header_members : List String
header_members =
    "alg" ∷ "enc" ∷ "kid" ∷ "typ" ∷ "request_id" ∷ "decision_id" ∷ "approved_keys_hash"
    ∷ "expires_at" ∷ []

abbrev pub payload_members : List String
payload_members =
    "schema_version" ∷ "request_id" ∷ "decision_id" ∷ "approved_fields" ∷ "created_at"
    ∷ "expires_at" ∷ []

abbrev pub field_members : List String
field_members = "key" ∷ "value_type" ∷ "value" ∷ []

-- {item.key: item for item in approval.property_metadata}
unfoldable pub metadata_by_key : List PropertyMetadata → Dict String PropertyMetadata
metadata_by_key l = insert_all (map (λ item. (item.key, item)) l) []

-- The body of the loop over the approved keys and the raw fields.
unfoldable pub validate_field :
    Dict String PropertyMetadata → String → Value → Result DisclosedProperty
validate_field by_key expected raw = do
  fields ← or_raise (as_dict raw) disclosure_error
  require_exact fields field_members
  metadata ← or_raise (lookup expected by_key) disclosure_error
  value ← member "value" fields
  key ← member "key" fields
  value_type ← member "value_type" fields
  guard (is_text key expected && is_text value_type metadata.value_type) disclosure_error
  text ← or_raise (as_str value) disclosure_error
  guard (leb 1 (len text) && leb (len text) 4096) disclosure_error
  ok (record { key = expected; value = text })

-- zip(..., strict=True); the lengths are equal when it is reached
unfoldable pub validate_fields :
    Dict String PropertyMetadata → List String → List Value → Result (List DisclosedProperty)
validate_fields by_key [] [] = ok []
validate_fields by_key (key ∷ keys) (raw ∷ raws) = do
  item ← validate_field by_key key raw
  rest ← validate_fields by_key keys raws
  ok (item ∷ rest)
validate_fields by_key _ _ = err disclosure_error

module _ (p : Platform) where
  unfoldable pub approved_keys_hash : List String → List ℕ
  approved_keys_hash keys = encode (
      p.sha256 (
        utf8 (
          dumps_object (("approved_keys", dumps_texts keys) ∷ ("schema_version", codes "1") ∷ []))))

  unfoldable pub result_manifest_hash : Manifest → List ℕ
  result_manifest_hash m =
      let jwe_hash = encode (p.sha256 (utf8 (codes (text_or_empty m.compact_jwe)))) in
      let metadata_hash =
        encode (p.sha256 (utf8 (dumps_list (map metadata_json m.property_metadata)))) in
      encode (
        p.sha256 (
          utf8 (
            dumps_object (
              ("approved_keys", dumps_texts m.approved_keys)
              ∷ ("available_keys", dumps_texts m.available_keys)
              ∷ ("compact_jwe_sha256", b'"' ∷ jwe_hash ++ b'"' ∷ [])
              ∷ ("denied_keys", dumps_texts m.denied_keys)
              ∷ ("property_metadata_sha256", b'"' ∷ metadata_hash ++ b'"' ∷ [])
              ∷ ("unavailable_keys", dumps_texts m.unavailable_keys)
              ∷ []))))

  unfoldable pub json_object : Bytes → Result (List (String × Value))
  json_object encoded = do
    value ← or_raise (p.loads encoded) disclosure_error
    reject (has_repeated value) disclosure_error
    or_raise (as_dict value) disclosure_error

  unfoldable pub parse_time : Value → Result ℕ
  parse_time value = do
    text ← or_raise (as_str value) disclosure_error
    (aware, instant) ← or_raise (p.from_iso (with_offset text)) disclosure_error
    guard aware disclosure_error
    ok instant

  -- `_validate_plaintext` as far as the field list.
  unfoldable pub check_payload : Approval → List (String × Value) → ℕ → Result (List Value)
  check_payload approval payload expires_at = do
    require_exact payload payload_members
    schema_version ← member "schema_version" payload
    request_id ← member "request_id" payload
    guard (is_one schema_version && is_text request_id approval.approval_id) disclosure_error
    decision_id ← member "decision_id" payload
    guard (is_optional_text decision_id approval.decision_id) disclosure_error
    payload_expires ← member "expires_at" payload
    payload_expires_at ← parse_time payload_expires
    guard (nat_beq payload_expires_at expires_at) disclosure_error
    payload_created ← member "created_at" payload
    created_at ← parse_time payload_created
    reject (ltb created_at approval.created_at || leb expires_at created_at) disclosure_error
    raw_fields ← member "approved_fields" payload
    fields ← or_raise (as_list raw_fields) disclosure_error
    guard (nat_beq (length fields) (length approval.approved_keys)) disclosure_error
    ok fields

  unfoldable pub validate_plaintext : Approval → Bytes → ℕ → Result (List DisclosedProperty)
  validate_plaintext approval encoded expires_at = do
    payload ← json_object encoded
    fields ← check_payload approval payload expires_at
    validate_fields (metadata_by_key approval.property_metadata) approval.approved_keys fields

  -- `decrypt`: the header, the bindings to the approval, the content key, and the plaintext.
  unfoldable pub check_header : ℕ → Approval → List (String × Value) → Result (String × ℕ)
  check_header now approval header = do
    require_exact header header_members
    alg ← member "alg" header
    enc ← member "enc" header
    guard (is_text alg "RSA-OAEP-256" && is_text enc "A256GCM") disclosure_error
    typ ← member "typ" header
    guard (is_text typ "permi-disclosure+jwe") disclosure_error
    request_id ← member "request_id" header
    decision_id ← member "decision_id" header
    guard
        (is_text request_id approval.approval_id
          && is_optional_text decision_id approval.decision_id)
        disclosure_error
    keys_hash ← member "approved_keys_hash" header
    guard (is_codes keys_hash (approved_keys_hash approval.approved_keys)) disclosure_error
    header_expires ← member "expires_at" header
    expires_at ← parse_time header_expires
    reject (ltb approval.expires_at expires_at || leb expires_at now) disclosure_error
    kid ← member "kid" header
    version ← or_raise (as_str kid) disclosure_error
    guard (leb 1 (len version) && leb (len version) 128) disclosure_error
    ok (version, expires_at)

  -- The header's version and expiry, and the plaintext under the unwrapped content key. A vault call
  -- that raises is `other_error`.
  unfoldable pub open_segments : ℕ → Approval → List (List ℕ) → Result (Bytes × ℕ)
  open_segments now approval
        (protected ∷ wrapped ∷ iv_segment ∷ ciphertext_segment ∷ tag_segment ∷ []) =
      do
        header_bytes ← decode_segment protected 4096
        header ← json_object header_bytes
        (version, expires_at) ← check_header now approval header
        encrypted_key ← decode_segment wrapped 512
        key ← or_raise (p.unwrap version encrypted_key) other_error
        guard (nat_beq (length key) 32) disclosure_error
        iv ← decode_segment iv_segment 12
        tag ← decode_segment tag_segment 16
        ciphertext ← decode_segment ciphertext_segment 65536
        plaintext ←
            or_raise (p.aes_gcm key iv (ciphertext ++ tag) (utf8 protected)) disclosure_error
        ok (plaintext, expires_at)
  open_segments now approval _ = err disclosure_error

  unfoldable pub decrypt : ℕ → Approval → Result (List DisclosedProperty)
  decrypt now approval = do
    compact ← or_raise approval.compact_jwe disclosure_error
    reject (ltb 96000 (len compact)) disclosure_error
    (plaintext, expires_at) ← open_segments now approval (split b'.' (codes compact))
    validate_plaintext approval plaintext expires_at
