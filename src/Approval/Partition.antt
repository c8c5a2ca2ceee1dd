-- ===== src/Approval/Partition.antt =====
-- What an accepted answer says of the requested properties.
use mathlib.Core.List.{Nodup, Perm}
use soffortmcp.Prelude.{
  ◌≤◌, String, true, false, not, ◌||◌, none, List, [], ◌++◌, ◌≡◌, ◌≢◌, ◌⊎◌, inl, inr, arith, ◌==◌,
  string_eq, texts_eq, texts_beq, texts_beq_iff, eq_iff, length, filter, contains, same_set,
  has_duplicates, is_nonempty, ok, value_error, reject, bind-eq-ok, Nodup-of_has_duplicates,
  perm_of_same_set, Bool-cases,
}
use soffortmcp.Catalog.{Unicode}
use soffortmcp.Disclosure.{Manifest}
use soffortmcp.Approval.{
  list_tool, keys_of, is_present, has_bad_key, validate_partition, validate_availability,
  validate_denial, validate_shape, validate_metadata, validate_result,
}

-- An answer to a request of values: each requested property is approved, denied or unavailable, once;
-- the approved ones keep the order of the request; there is metadata for exactly those that the phone
-- has, in that order; and a ciphertext exactly if something is approved.
pub record IsPartition (requested : List String) (m : Manifest) : Type 0 where
  pub exhaustive :
      Nodup requested → Perm (m.approved_keys ++ (m.denied_keys ++ m.unavailable_keys)) requested
  pub once : Nodup (m.approved_keys ++ (m.denied_keys ++ m.unavailable_keys))
  pub ordered : filter (λ key. contains key m.approved_keys) requested ≡ m.approved_keys
  pub described :
      keys_of m.property_metadata ≡ filter (λ key. not (contains key m.unavailable_keys)) requested
  pub sealed : is_nonempty m.approved_keys ≡ is_present m.compact_jwe

partition_tests :
    (requested : List String) (m : Manifest)
    → validate_partition requested m ≡ ok tt
    → (has_duplicates (m.approved_keys ++ (m.denied_keys ++ m.unavailable_keys)) ≡ false)
      × (same_set (m.approved_keys ++ (m.denied_keys ++ m.unavailable_keys)) requested ≡ true)
      × (texts_beq (filter (λ key. contains key m.approved_keys) requested) m.approved_keys ≡ true)
      × (texts_beq
            (keys_of m.property_metadata)
            (filter (λ key. not (contains key m.unavailable_keys)) requested)
          ≡ true)
      × (is_nonempty m.approved_keys ≡ is_present m.compact_jwe)
unfolding validate_partition
partition_tests requested m h = ground arith

validate_partition-IsPartition :
    (requested : List String) (m : Manifest)
    → validate_partition requested m ≡ ok tt
    → IsPartition requested m
validate_partition-IsPartition requested m h =
    let (once, same, ordered, described, sealed) = partition_tests requested m h in
    record {
      exhaustive = λ d. perm_of_same_set _ requested (Nodup-of_has_duplicates _ once) d same;
      once = Nodup-of_has_duplicates _ once;
      ordered = (texts_beq_iff _ _).0 ordered;
      described = (texts_beq_iff _ _).0 described;
      sealed = sealed;
    }

-- The list of properties of an approved listing.
pub record IsListing (m : Manifest) : Type 0 where
  pub bounded : length m.available_keys ≤ 1024
  pub described : keys_of m.property_metadata ≡ m.available_keys
  pub undisclosed : (m.approved_keys ≡ []) × (m.denied_keys ≡ []) × (m.unavailable_keys ≡ [])
  pub unsealed : m.compact_jwe ≡ none

-- A denial carries no key, no metadata and no ciphertext.
pub record IsDenial (m : Manifest) : Type 0 where
  pub no_keys :
      (m.available_keys ≡ [])
      × (m.approved_keys ≡ [])
      × (m.denied_keys ≡ [])
      × (m.unavailable_keys ≡ [])
  pub no_metadata : m.property_metadata ≡ []
  pub unsealed : m.compact_jwe ≡ none

validate_denial-IsDenial : (m : Manifest) → validate_denial m ≡ ok tt → IsDenial m
unfolding validate_denial
validate_denial-IsDenial m h = ground arith

validate_availability-IsListing : (m : Manifest) → validate_availability m ≡ ok tt → IsListing m
unfolding validate_availability
validate_availability-IsListing m h = record {
  bounded = ground arith;
  described = (texts_beq_iff _ _).0 (ground arith);
  undisclosed = ground arith;
  unsealed = ground arith;
}

-- The shape that the decision and the tool ask for.
abbrev pub IsShaped : String → List String → String → Manifest → Type 0
IsShaped tool_name requested decision m =
    ((decision ≡ "denied") × IsDenial m)
    ⊎ (((decision ≢ "denied") × (tool_name ≡ list_tool) × IsListing m)
        ⊎ ((decision ≢ "denied") × (tool_name ≢ list_tool) × IsPartition requested m))

validate_shape-IsShaped :
    (tool_name : String) (requested : List String) (decision : String) (m : Manifest)
    → validate_shape tool_name requested decision m ≡ ok tt
    → IsShaped tool_name requested decision m
unfolding validate_shape
validate_shape-IsShaped tool_name requested decision m h =
    elim (Bool-cases (decision == "denied")) [
      | inl e ↦ inl ((eq_iff decision "denied").0 e, validate_denial-IsDenial m (rw e at h))
      | inr e ↦ elim (Bool-cases (tool_name == list_tool)) [
        | inl e' ↦ inr (
            inl (
              λ p. ground (arith, eq_iff decision "denied"),
              (eq_iff tool_name list_tool).0 e',
              validate_availability-IsListing m (rw (e, e') at h),
            ))
        | inr e' ↦ inr (
            inr (
              λ p. ground (arith, eq_iff decision "denied"),
              λ p. ground (arith, eq_iff tool_name list_tool),
              validate_partition-IsPartition requested m (rw (e, e') at h),
            ))
      ]
    ]

-- An accepted answer has no duplicate in any of its four lists and has the shape that its decision
-- and tool ask for: nothing at all for a denial; for a listing, at most 1024 keys with their metadata
-- in order; for a request of values, a partition of the requested keys.
pub validate_result-IsShaped :
    (u : Unicode) (tool_name : String) (requested : List String) (decision : String) (m : Manifest)
    → validate_result u tool_name requested decision m ≡ ok tt
    → Nodup m.available_keys
      × Nodup m.approved_keys
      × Nodup m.denied_keys
      × Nodup m.unavailable_keys
      × IsShaped tool_name requested decision m
unfolding validate_result
validate_result-IsShaped u tool_name requested decision m h =
    let (_, distinct, r1) =
      bind-eq-ok
        (reject
          (has_duplicates m.available_keys
            || has_duplicates m.approved_keys
            || has_duplicates m.denied_keys
            || has_duplicates m.unavailable_keys)
          value_error)
        _ h in
    let (_, _, r2) =
      bind-eq-ok
        (reject
          (has_bad_key m.available_keys
            || has_bad_key m.approved_keys
            || has_bad_key m.denied_keys
            || has_bad_key m.unavailable_keys)
          value_error)
        _ r1 in
    let (_, _, last) = bind-eq-ok (validate_metadata u m.property_metadata) _ r2 in
    (
      Nodup-of_has_duplicates m.available_keys (ground arith),
      Nodup-of_has_duplicates m.approved_keys (ground arith),
      Nodup-of_has_duplicates m.denied_keys (ground arith),
      Nodup-of_has_duplicates m.unavailable_keys (ground arith),
      validate_shape-IsShaped tool_name requested decision m last,
    )
