-- ===== src/Catalog.antt =====
-- src/soffortbackend/catalog.py: validation of opaque property handles and of the value-free
-- manifest. Unicode normalisation, trimming and categories are CPython's and enter as `Unicode`.
pub mod Sound
use soffortmcp.Prelude.{
  ℕ, ◌-◌, String, Bool, true, false, not, ◌&&◌, ◌||◌, List, [], ◌∷◌, map, leb, nat_beq, length, all,
  any, contains, has_duplicates, set_of, codes, len, is_prefix, after_prefix, is_word, is_lower,
  Result, ok, err, value_error, guard, reject, bind, string_eq,
}
use soffortmcp.Models.{PropertyMetadata}

abbrev pub max_requested_properties : ℕ
max_requested_properties = 100

abbrev pub max_available_properties : ℕ
max_available_properties = 1024

-- What `str.strip` and `unicodedata` compute.
pub record Unicode : Type 0 where
  pub strip : String → String
  pub nfc : String → String
  -- unicodedata.category(character).startswith("C")
  pub is_control : ℕ → Bool

-- ^vault\.[A-Za-z0-9_-]{43}$ under `fullmatch`
unfoldable pub matches_property_key : String → Bool
matches_property_key key =
    let rest = after_prefix (codes "vault.") (codes key) in
    is_prefix (codes "vault.") (codes key) && nat_beq (length rest) 43 && all is_word rest

abbrev is_type_tail : ℕ → Bool
is_type_tail c = is_lower c || nat_beq c b'_'

abbrev matches_value_type_codes : List ℕ → Bool
matches_value_type_codes [] = false
matches_value_type_codes (c ∷ rest) = is_lower c && leb (length rest) 31 && all is_type_tail rest

-- ^[a-z][a-z_]{0,31}$ under `fullmatch`
unfoldable pub matches_value_type : String → Bool
matches_value_type value_type = matches_value_type_codes (codes value_type)

abbrev pub sensitivity_values : List String
sensitivity_values = "low" ∷ "moderate" ∷ "sensitive" ∷ "highly_sensitive" ∷ []

infixl 5 ◌>>=◌ ◌>>◌
abbrev ◌>>=◌ {ℓ κ} : {A : Type ℓ} {B : Type κ} → Result A → (A → Result B) → Result B
◌>>=◌ = bind

abbrev ◌>>◌ {ℓ} : {B : Type ℓ} → Result (Unit {0}) → Result B → Result B
m >> k = m >>= λ _. k

unfoldable pub parse_property_keys : List String → Result (List String)
parse_property_keys values = do
  guard (leb 1 (length values) && leb (length values) max_requested_properties) value_error
  guard (all matches_property_key values) value_error
  reject (has_duplicates values) value_error
  ok values

module _ (u : Unicode) where
  -- 1 <= len(label) <= most, and no character of a category C
  unfoldable pub is_clean_label : ℕ → String → Bool
  is_clean_label most label =
      leb 1 (len label) && leb (len label) most && not (any u.is_control (codes label))

  -- The body of the loop over the entries.
  unfoldable pub validate_entry : PropertyMetadata → Result (Unit {0})
  validate_entry item = do
    guard (is_clean_label 240 (u.nfc (u.strip item.display_name))) value_error
    guard (matches_value_type item.value_type) value_error
    guard (contains item.sensitivity sensitivity_values) value_error

  unfoldable pub validate_entries : List PropertyMetadata → Result (Unit {0})
  validate_entries [] = ok tt
  validate_entries (item ∷ rest) = validate_entry item >> validate_entries rest

  unfoldable pub validate_property_metadata : List PropertyMetadata → Result (List PropertyMetadata)
  validate_property_metadata properties = do
    reject (leb 1025 (length properties)) value_error
    let keys = map (λ item. item.key) properties
    reject (has_duplicates keys || any (λ key. not (matches_property_key key)) keys) value_error
    validate_entries properties
    ok properties
