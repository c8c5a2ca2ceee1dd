-- ===== src/DeviceSecurity.antt =====
-- src/soffortbackend/device_security.py: normalisation, identifiers, and the device proof. Bytes
-- and texts are lists of numbers; the P-256 curve and SHA-256 are `cryptography`'s and `hashlib`'s
-- and enter as `Crypto`.
pub mod Messages
pub mod Proofs
use soffortmcp.Prelude.{
  ℕ, ◌+◌, ◌-◌, ◌*◌, ◌/◌, ◌≤◌, String, Bool, true, false, not, ◌&&◌, ◌||◌, Option, none, some, List,
  [], ◌∷◌, ◌++◌, map, ◌≡◌, leb, ltb, nat_beq, ◌==◌, string_eq, nat_eq, codes_eq, if◌then◌else◌,
  length, all, any, contains, same_set, has_duplicates, codes, len, is_digit, is_lower, in_range,
  join, lookup, Dict, Result, ok, err, value_error, key_error, guard, reject, bind, or_raise, take,
}
use soffortmcp.Prelude.Json.{
  Value, as_str, as_dict, as_int, ℤ, pos, negsuc, str, null, obj, of_members,
}
use soffortmcp.Prelude.Encoding.{utf8, encode, decode}
use soffortmcp.Prelude.Decimal.{decimal}
use soffortmcp.Prelude.JsonText.{dumps_text, dumps_object}
use soffortmcp.Catalog.{Unicode, is_clean_label}

abbrev pub Bytes : Type 0
Bytes = List ℕ

-- What the program asks of `cryptography` and `hashlib`.
pub record Crypto : Type 0 where
  -- EllipticCurvePublicNumbers(x, y, SECP256R1()).public_key() accepts the point
  pub on_curve : Bytes → Bytes → Bool
  -- key.verify(signature, message, ECDSA(SHA256())) does not raise
  pub verifies : Bytes → Bytes → Bytes → Bytes → Bool
  -- hashlib.sha256(message).digest()
  pub sha256 : Bytes → Bytes

infixl 5 ◌>>=◌ ◌>>◌
abbrev ◌>>=◌ {ℓ κ} : {A : Type ℓ} {B : Type κ} → Result A → (A → Result B) → Result B
◌>>=◌ = bind

abbrev ◌>>◌ {ℓ} : {B : Type ℓ} → Result (Unit {0}) → Result B → Result B
m >> k = m >>= λ _. k

module _ (u : Unicode) where
  normalize_text : ℕ → Value → Result String
  normalize_text most value = do
    text ← or_raise (as_str value) value_error
    let normalized = u.nfc (u.strip text)
    guard (is_clean_label u most normalized) value_error
    ok normalized

  unfoldable pub normalize_display_name : Value → Result String
  unfolding normalize_text
  normalize_display_name = normalize_text 100

  unfoldable pub normalize_purpose : Value → Result String
  unfolding normalize_text
  normalize_purpose = normalize_text 200

abbrev pub is_hex : ℕ → Bool
is_hex c = is_digit c || in_range b'a' b'f' c

-- One group of `uuid.UUID.__str__`, and the text behind it.
abbrev is_hex_group : ℕ → List ℕ → Bool
is_hex_group n s = nat_beq (length s) n && all is_hex s

-- str(UUID(value)) == value and UUID(value).version == 7: five groups of lowercase hexadecimal
-- digits, the version digit 7, and one of the digits of the RFC 4122 variant.
unfoldable pub is_uuid7_groups : List (List ℕ) → Bool
is_uuid7_groups (a ∷ b ∷ (v ∷ c) ∷ (w ∷ d) ∷ e ∷ []) =
    is_hex_group 8 a
    && is_hex_group 4 b
    && nat_beq v b'7'
    && is_hex_group 3 c
    && contains w (b'8' ∷ b'9' ∷ b'a' ∷ b'b' ∷ [])
    && is_hex_group 3 d
    && is_hex_group 12 e
is_uuid7_groups _ = false

-- s.split(sep)
abbrev push_char : ℕ → List (List ℕ) → List (List ℕ)
push_char c [] = (c ∷ []) ∷ []
push_char c (g ∷ gs) = (c ∷ g) ∷ gs

unfoldable pub split : ℕ → List ℕ → List (List ℕ)
split sep [] = [] ∷ []
split sep (c ∷ s) = let rest = split sep s in if nat_beq c sep then [] ∷ rest else push_char c rest

unfoldable pub canonical_uuid7 : Value → Result String
canonical_uuid7 value = do
  text ← or_raise (as_str value) value_error
  guard (is_uuid7_groups (split b'-' (codes text))) value_error
  ok text

-- ^[0-9a-f]{64}$ under `fullmatch`
unfoldable pub validate_apns_token : Value → Result String
validate_apns_token value = do
  text ← or_raise (as_str value) value_error
  guard (nat_beq (len text) 64 && all is_hex (codes text)) value_error
  ok text

-- `_decode_b64url` with `expected_length` or `max_length`, the test on the decoded length
unfoldable pub decode_b64url : Value → (ℕ → Bool) → Result Bytes
decode_b64url value fits = do
  text ← or_raise (as_str value) value_error
  reject (nat_beq (len text) 0 || contains b'=' (codes text) || ltb 256 (len text)) value_error
  decoded ← or_raise (decode (codes text)) value_error
  guard (fits (length decoded)) value_error
  guard (encode decoded == codes text) value_error
  ok decoded

-- d.get(name), with Python's `None` for a missing name
abbrev pub get_or_null : String → List (String × Value) → Value
get_or_null name d = elim (lookup name d) [ none ↦ null | some v ↦ v ]

-- v == text
abbrev pub is_text : Value → String → Bool
is_text v text = elim (as_str v) [ none ↦ false | some s ↦ s == text ]

abbrev pub name_of {ℓ} : {V : Type ℓ} → String × V → String
name_of (name, v) = name

abbrev pub jwk_members : List String
jwk_members = "kty" ∷ "crv" ∷ "x" ∷ "y" ∷ []

abbrev text_member : String × String → String × Value
text_member (name, text) = (name, str text)

-- A public key: the JSON Web Key as it is stored, and the coordinates of the point.
pub record PublicKey : Type 0 where
  pub jwk : Dict String String
  pub x : Bytes
  pub y : Bytes

abbrev text_or_empty : Value → String
text_or_empty v = elim (as_str v) [ none ↦ "" | some s ↦ s ]

module _ (crypto : Crypto) where
  unfoldable pub parse_public_jwk : Value → Result PublicKey
  parse_public_jwk value = do
    raw ← or_raise (as_dict value) value_error
    guard (same_set (map name_of raw) jwk_members) value_error
    guard (is_text (get_or_null "kty" raw) "EC" && is_text (get_or_null "crv" raw) "P-256")
        value_error
    x ← decode_b64url (get_or_null "x" raw) (λ n. nat_beq n 32)
    y ← decode_b64url (get_or_null "y" raw) (λ n. nat_beq n 32)
    guard (crypto.on_curve x y) value_error
    ok (record {
      jwk =
          ("kty", "EC")
          ∷ ("crv", "P-256")
          ∷ ("x", text_or_empty (get_or_null "x" raw))
          ∷ ("y", text_or_empty (get_or_null "y" raw))
          ∷ [];
      x = x;
      y = y;
    })

  -- A JSON Web Key of texts as a value.
  abbrev pub jwk_value : Dict String String → Value
  jwk_value jwk = obj (of_members (map text_member jwk))

  unfoldable pub verify_signature : Dict String String → Bytes → Value → Result (Unit {0})
  verify_signature public_jwk message signature = do
    key ← parse_public_jwk (jwk_value public_jwk)
    decoded ← decode_b64url signature (λ n. leb n 96)
    guard (crypto.verifies key.x key.y decoded message) value_error

  unfoldable pub jwk_thumbprint : Dict String String → Result (List ℕ)
  jwk_thumbprint jwk = do
    crv ← or_raise (lookup "crv" jwk) key_error
    kty ← or_raise (lookup "kty" jwk) key_error
    x ← or_raise (lookup "x" jwk) key_error
    y ← or_raise (lookup "y" jwk) key_error
    let canonical = utf8 (
        dumps_object (
          ("crv", dumps_text true crv)
          ∷ ("kty", dumps_text true kty)
          ∷ ("x", dumps_text true x)
          ∷ ("y", dumps_text true y)
          ∷ []))
    ok (encode (crypto.sha256 canonical))

-- str(n)
abbrev pub int_text : ℤ → List ℕ
int_text (pos n) = codes (decimal n)
int_text (negsuc n) = b'-' ∷ codes (decimal (n + 1))

-- What an enrollment proof signs, line by line.
pub record Enrollment : Type 0 where
  pub tenant_id : String
  pub object_id : String
  pub device_id : String
  pub challenge_id : String
  pub nonce : String
  pub thumbprint : List ℕ
  pub issued_at : ℤ

abbrev pub newline : ℕ
newline = 10

abbrev pub enrollment_lines : Enrollment → List (List ℕ)
enrollment_lines m =
    codes "soffort-device-enrollment-v1"
    ∷ codes m.tenant_id
    ∷ codes m.object_id
    ∷ codes m.device_id
    ∷ codes m.challenge_id
    ∷ codes m.nonce
    ∷ m.thumbprint
    ∷ int_text m.issued_at
    ∷ []

unfoldable pub enrollment_message : Enrollment → Bytes
enrollment_message m = utf8 (join newline (enrollment_lines m))

-- What a consent decision signs, line by line.
pub record Consent : Type 0 where
  pub tenant_id : String
  pub object_id : String
  pub device_id : String
  pub approval_id : String
  pub nonce : String
  pub tool_name : String
  pub arguments_hash : String
  pub decision : String
  pub result_hash : String
  pub issued_at : ℤ

abbrev pub consent_lines : Consent → List (List ℕ)
consent_lines m =
    codes "soffort-consent-decision-v2"
    ∷ codes m.tenant_id
    ∷ codes m.object_id
    ∷ codes m.device_id
    ∷ codes m.approval_id
    ∷ codes m.nonce
    ∷ codes m.tool_name
    ∷ codes m.arguments_hash
    ∷ codes m.decision
    ∷ codes m.result_hash
    ∷ int_text m.issued_at
    ∷ []

unfoldable pub decision_message : Consent → Bytes
decision_message m = utf8 (join newline (consent_lines m))

-- abs(now - value) > most, for a clock that is not negative
abbrev pub is_outside : ℕ → ℕ → ℤ → Bool
is_outside most now (pos n) = ltb (n + most) now || ltb (now + most) n
is_outside most now (negsuc n) = ltb most (now + n + 1)

-- `now` is in microseconds, the proof's time in whole seconds.
unfoldable pub require_fresh_issued_at : ℕ → Value → Result ℤ
require_fresh_issued_at now value = do
  issued_at ← or_raise (as_int value) value_error
  reject (is_outside 30 (now / 1000000) issued_at) value_error
  ok issued_at
