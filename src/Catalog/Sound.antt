-- ===== src/Catalog/Sound.antt =====
-- What the validators of catalog.py accept, stated without the tests that they run.
use mathlib.Core.List.{Nodup}
use soffortmcp.Prelude.{
  ℕ, ◌≤◌, String, true, false, not, List, [], ◌∷◌, ◌++◌, map, ◌≡◌, refl, ◌↔◌, arith, length, All,
  contains, codes, len, is_prefix, after_prefix, is_word, ok, err, value_error, string_eq, all-All,
  All-all, any-All, All-any, Nodup-of_has_duplicates, has_duplicates_of_Nodup, inl, inr, All-map,
  ◌⊎◌,
}
use soffortmcp.Models.{PropertyMetadata}
use soffortmcp.Catalog.{
  Unicode, matches_property_key, matches_value_type, is_clean_label, parse_property_keys,
  validate_entry, validate_entries, validate_property_metadata, sensitivity_values,
}

-- An opaque handle: `vault.` and 43 characters of the URL-safe alphabet.
pub record IsHandle (key : String) : Type 0 where
  pub suffix : List ℕ
  pub spelled : codes key ≡ codes "vault." ++ suffix
  pub suffix_length : length suffix ≡ 43
  pub suffix_words : All (λ c. is_word c ≡ true) suffix

pub prefix_split : (p s : List ℕ) → is_prefix p s ≡ true → s ≡ p ++ after_prefix p s
unfolding is_prefix after_prefix
prefix_split [] s h = refl
prefix_split (c ∷ p) [] h = ground arith
prefix_split (c ∷ p) (d ∷ s) h = ground (arith, prefix_split p s)

is_prefix-append : (p s : List ℕ) → is_prefix p (p ++ s) ≡ true
unfolding is_prefix
is_prefix-append [] s = refl
is_prefix-append (c ∷ p) s = ground (arith, is_prefix-append p s)

after_prefix-append : (p s : List ℕ) → after_prefix p (p ++ s) ≡ s
unfolding after_prefix
after_prefix-append [] s = refl
after_prefix-append (c ∷ p) s = after_prefix-append p s

pub IsHandle-of_match : (key : String) → matches_property_key key ≡ true → IsHandle key
unfolding matches_property_key
IsHandle-of_match key h = record {
  suffix = after_prefix (codes "vault.") (codes key);
  spelled = prefix_split (codes "vault.") (codes key) (ground arith);
  suffix_length = ground arith;
  suffix_words = all-All is_word _ (ground arith);
}

pub match_of_IsHandle : (key : String) → IsHandle key → matches_property_key key ≡ true
unfolding matches_property_key
match_of_IsHandle key h = rw h.spelled (
    ground (
      arith,
      is_prefix-append (codes "vault.") h.suffix,
      after_prefix-append (codes "vault.") h.suffix,
      All-all is_word h.suffix h.suffix_words,
    ))

-- What a caller may ask for: between 1 and 100 handles, each once.
pub record IsRequestable (values : List String) : Type 0 where
  pub some_key : 1 ≤ length values
  pub few_keys : length values ≤ 100
  pub handles : All IsHandle values
  pub distinct : Nodup values

IsRequestable-of_parse :
    (values : List String) → parse_property_keys values ≡ ok values → IsRequestable values
unfolding parse_property_keys
IsRequestable-of_parse values h = record {
  some_key = ground arith;
  few_keys = ground arith;
  handles = All-map IsHandle-of_match values (all-All matches_property_key values (ground arith));
  distinct = Nodup-of_has_duplicates values (ground arith);
}

parse_of_IsRequestable :
    (values : List String) → IsRequestable values → parse_property_keys values ≡ ok values
unfolding parse_property_keys
parse_of_IsRequestable values h = ground (
  arith,
  All-all matches_property_key values (All-map match_of_IsHandle values h.handles),
  has_duplicates_of_Nodup values h.distinct,
)

parse_result :
    (values : List String)
    → (parse_property_keys values ≡ ok values) ⊎ (parse_property_keys values ≡ err value_error)
unfolding parse_property_keys
parse_result values = ground arith

-- `parse_property_keys` returns its input unchanged exactly if the input is between 1 and 100
-- handles without a duplicate, and raises `ValueError` otherwise.
pub parse_property_keys_iff :
    (values : List String)
    → ((parse_property_keys values ≡ ok values) ↔ IsRequestable values)
      × ((parse_property_keys values ≡ ok values) ⊎ (parse_property_keys values ≡ err value_error))
parse_property_keys_iff values =
    ((IsRequestable-of_parse values, parse_of_IsRequestable values), parse_result values)

abbrev pub metadata_keys : List PropertyMetadata → List String
metadata_keys = map (λ item. item.key)

module _ (u : Unicode) where
  -- A label of at most `most` characters, none of them a control or unassigned character.
  pub record IsLabel (most : ℕ) (label : String) : Type 0 where
    pub not_empty : 1 ≤ len label
    pub short : len label ≤ most
    pub visible : All (λ c. u.is_control c ≡ false) (codes label)

  pub IsLabel-of_clean :
      (most : ℕ) (label : String) → is_clean_label u most label ≡ true → IsLabel most label
  unfolding is_clean_label
  IsLabel-of_clean most label h = record {
    not_empty = ground arith;
    short = ground arith;
    visible = any-All u.is_control (codes label) (ground arith);
  }

  pub clean_of_IsLabel :
      (most : ℕ) (label : String) → IsLabel most label → is_clean_label u most label ≡ true
  unfolding is_clean_label
  clean_of_IsLabel most label h = ground (arith, All-any u.is_control (codes label) h.visible)

  -- One entry of the manifest: its trimmed and normalised name is a label, and its type and
  -- sensitivity are known words.
  pub record IsEntry (item : PropertyMetadata) : Type 0 where
    pub label : IsLabel 240 (u.nfc (u.strip item.display_name))
    pub type_word : matches_value_type item.value_type ≡ true
    pub level : contains item.sensitivity sensitivity_values ≡ true

  validate_entry_iff : (item : PropertyMetadata) → (validate_entry u item ≡ ok tt) ↔ IsEntry item
  unfolding validate_entry
  validate_entry_iff item = (
    λ h. record {
      label = IsLabel-of_clean 240 _ (ground arith);
      type_word = ground arith;
      level = ground arith;
    },
    λ h. ground (arith, clean_of_IsLabel 240 _ h.label),
  )

  entry_result :
      (item : PropertyMetadata)
      → (validate_entry u item ≡ ok tt) ⊎ (validate_entry u item ≡ err value_error)
  unfolding validate_entry
  entry_result item = ground arith

  entries_ok : (l : List PropertyMetadata) → validate_entries u l ≡ ok tt → All IsEntry l
  unfolding validate_entries
  entries_ok [] h = tt
  entries_ok (item ∷ l) h = elim (entry_result item) [
    | inl e ↦ ((validate_entry_iff item).0 e, entries_ok l (rw e at h))
    | inr e ↦ cc
  ]

  ok_entries : (l : List PropertyMetadata) → All IsEntry l → validate_entries u l ≡ ok tt
  unfolding validate_entries
  ok_entries [] h = refl
  ok_entries (item ∷ l) h = rw ((validate_entry_iff item).1 h.0) (ok_entries l h.1)

  -- A manifest that may be stored.
  pub record IsManifest (properties : List PropertyMetadata) : Type 0 where
    pub bounded : length properties ≤ 1024
    pub handles : All IsHandle (metadata_keys properties)
    pub distinct : Nodup (metadata_keys properties)
    pub entries : All IsEntry properties

  entries_result :
      (l : List PropertyMetadata)
      → (validate_entries u l ≡ ok tt) ⊎ (validate_entries u l ≡ err value_error)
  unfolding validate_entries
  entries_result [] = inl refl
  entries_result (item ∷ l) = ground (arith, entry_result item, entries_result l)

  IsManifest-of_validate :
      (properties : List PropertyMetadata)
      → validate_property_metadata u properties ≡ ok properties
      → IsManifest properties
  unfolding validate_property_metadata
  IsManifest-of_validate properties h = record {
    bounded = ground arith;
    handles =
        All-map (λ key k. IsHandle-of_match key (ground arith)) (metadata_keys properties)
          (any-All (λ key. not (matches_property_key key)) (metadata_keys properties)
            (ground arith));
    distinct = Nodup-of_has_duplicates (metadata_keys properties) (ground arith);
    entries = entries_ok properties (ground (arith, entries_result properties));
  }

  validate_of_IsManifest :
      (properties : List PropertyMetadata)
      → IsManifest properties
      → validate_property_metadata u properties ≡ ok properties
  unfolding validate_property_metadata
  validate_of_IsManifest properties h = ground (
    arith,
    has_duplicates_of_Nodup (metadata_keys properties) h.distinct,
    All-any (λ key. not (matches_property_key key)) (metadata_keys properties)
        (All-map {Q = λ key. not (matches_property_key key) ≡ false}
          (λ key k. rw (match_of_IsHandle key k)) (metadata_keys properties) h.handles),
    ok_entries properties h.entries,
  )

  validate_result :
      (properties : List PropertyMetadata)
      → (validate_property_metadata u properties ≡ ok properties)
        ⊎ (validate_property_metadata u properties ≡ err value_error)
  unfolding validate_property_metadata
  validate_result properties = ground (arith, entries_result properties)

  -- `validate_property_metadata` returns its input unchanged exactly if the input is a manifest: at
  -- most 1024 entries under distinct handles, with clean labels of at most 240 characters, type
  -- words and known sensitivities. Otherwise it raises `ValueError`.
  pub validate_property_metadata_iff :
      (properties : List PropertyMetadata)
      → ((validate_property_metadata u properties ≡ ok properties) ↔ IsManifest properties)
        × ((validate_property_metadata u properties ≡ ok properties)
            ⊎ (validate_property_metadata u properties ≡ err value_error))
  validate_property_metadata_iff properties = (
    (IsManifest-of_validate properties, validate_of_IsManifest properties),
    validate_result properties,
  )
