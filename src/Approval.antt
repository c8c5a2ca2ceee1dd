-- ===== src/Approval.antt =====
-- src/soffortbackend/approval.py: what a phone may answer, and the service that asks it.
pub mod Partition
pub mod Service
pub mod Decide
pub mod Progress
pub mod Wait
pub mod Request
use soffortmcp.Prelude.{
  ℕ, String, Bool, true, false, not, ◌&&◌, ◌||◌, Option, none, some, List, [], ◌∷◌, ◌++◌, map, leb,
  ltb, nat_beq, ◌==◌, string_eq, texts_eq, if◌then◌else◌, length, any, filter, contains, same_set,
  has_duplicates, codes, is_nonempty, Result, ok, err, value_error, guard, reject, bind,
}
use soffortmcp.Models.{PropertyMetadata}
use soffortmcp.Catalog.{Unicode, is_clean_label, matches_property_key, sensitivity_values}
use soffortmcp.Disclosure.{Manifest}

abbrev pub list_tool : String
list_tool = "list_available_properties"

abbrev pub request_tool : String
request_tool = "request_properties"

abbrev pub allowed_types : List String
allowed_types =
    "text" ∷ "long_text" ∷ "identifier" ∷ "email" ∷ "phone" ∷ "url" ∷ "date" ∷ "date_time"
    ∷ "integer" ∷ "decimal" ∷ "boolean" ∷ "choice" ∷ "country_region" ∷ "money" ∷ "measurement" ∷ []

infixl 5 ◌>>=◌ ◌>>◌
abbrev ◌>>=◌ {ℓ κ} : {A : Type ℓ} {B : Type κ} → Result A → (A → Result B) → Result B
◌>>=◌ = bind

abbrev ◌>>◌ {ℓ} : {B : Type ℓ} → Result (Unit {0}) → Result B → Result B
m >> k = m >>= λ _. k

abbrev pub keys_of : List PropertyMetadata → List String
keys_of = map (λ item. item.key)

-- bool(text)
abbrev pub is_present : Option String → Bool
is_present none = false
is_present (some s) = not (s == "")

abbrev pub is_some : Option String → Bool
is_some none = false
is_some (some s) = true

-- bool != bool
abbrev pub differ : Bool → Bool → Bool
differ true b = not b
differ false b = b

-- any(key not matching) over the keys of one list
unfoldable pub has_bad_key : List String → Bool
has_bad_key = any (λ key. not (matches_property_key key))

-- The last part of `_validate_result`, for an approved request of values.
unfoldable pub validate_partition : List String → Manifest → Result (Unit {0})
validate_partition requested m = do
  let combined = m.approved_keys ++ (m.denied_keys ++ m.unavailable_keys)
  guard (not (has_duplicates combined) && same_set combined requested) value_error
  guard (filter (λ key. contains key m.approved_keys) requested == m.approved_keys) value_error
  guard
      (keys_of m.property_metadata
        == filter (λ key. not (contains key m.unavailable_keys)) requested)
      value_error
  reject (differ (is_nonempty m.approved_keys) (is_present m.compact_jwe)) value_error

-- An approved list of properties.
unfoldable pub validate_availability : Manifest → Result (Unit {0})
validate_availability m = do
  reject
      (is_nonempty m.approved_keys
        || is_nonempty m.denied_keys
        || is_nonempty m.unavailable_keys
        || is_some m.compact_jwe)
      value_error
  reject (ltb 1024 (length m.available_keys)) value_error
  guard (keys_of m.property_metadata == m.available_keys) value_error

-- A denial carries nothing.
unfoldable pub validate_denial : Manifest → Result (Unit {0})
validate_denial m =
    reject
      (is_nonempty m.available_keys
        || is_nonempty m.approved_keys
        || is_nonempty m.denied_keys
        || is_nonempty m.unavailable_keys
        || is_nonempty m.property_metadata
        || is_some m.compact_jwe)
      value_error

-- The three shapes of an answer.
unfoldable pub validate_shape : String → List String → String → Manifest → Result (Unit {0})
validate_shape tool_name requested decision m =
    if decision == "denied"
    then validate_denial m
    else if tool_name == list_tool
    then validate_availability m
    else validate_partition requested m

module _ (u : Unicode) where
  unfoldable pub is_valid_item : PropertyMetadata → Bool
  is_valid_item item =
      let display_name = u.nfc (u.strip item.display_name) in
      matches_property_key item.key
      && is_clean_label u 240 display_name
      && display_name == item.display_name
      && contains item.value_type allowed_types
      && contains item.sensitivity sensitivity_values

  unfoldable pub validate_metadata : List PropertyMetadata → Result (Unit {0})
  validate_metadata metadata = do
    reject (has_duplicates (keys_of metadata)) value_error
    reject (any (λ item. not (is_valid_item item)) metadata) value_error

  -- `_validate_result`, for the tool and the requested keys of the approval
  unfoldable pub validate_result : String → List String → String → Manifest → Result (Unit {0})
  validate_result tool_name requested decision m = do
    reject
        (has_duplicates m.available_keys
          || has_duplicates m.approved_keys
          || has_duplicates m.denied_keys
          || has_duplicates m.unavailable_keys)
        value_error
    reject
        (has_bad_key m.available_keys
          || has_bad_key m.approved_keys
          || has_bad_key m.denied_keys
          || has_bad_key m.unavailable_keys)
        value_error
    validate_metadata m.property_metadata
    validate_shape tool_name requested decision m
