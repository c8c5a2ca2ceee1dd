-- ===== src/Store/Documents/RoundTrip.antt =====
-- Documents that are written and read back.
use soffortmcp.Prelude.{
  ℕ, String, false, Option, none, some, List, [], ◌∷◌, ◌++◌, map, ◌≡◌, refl, ap, ◌∙◌, ◌==◌,
  string_eq, if◌then◌else◌, lookup, ok,
}
use soffortmcp.Prelude.Json.{Value, str, items, members, of_items, of_members}
use soffortmcp.Models.{
  ApprovalStatus, PropertyMetadata, PropertyIndex, Profile, EnrollmentChallenge, Device, Approval,
  status_value, with_etag,
}
use soffortmcp.Models
use soffortmcp.Store.Conversions.{
  Python, Document, text_of, is_truthy, iso, datetime, optional_text_at, optional_time,
}
use soffortmcp.Store.Documents.{
  metadata_value, metadata_of_value, metadata_of_values, optional_value, optional_iso,
  status_of_text, approval_document, approval_from_document, entry_text, text_entry,
  profile_document, profile_from_document, challenge_document, challenge_from_document,
  device_document, device_from_document, property_index_document, property_index_from_document,
}

-- What CPython documents of timestamps: `fromisoformat` reads what `isoformat` wrote, also with the
-- offset of UTC spelled "Z" in between, and no timestamp is the empty text.
pub record ReadsTimes (p : Python) : Type 0 where
  pub reads : (t : ℕ) → p.fromisoformat (p.replace (iso p t) "Z" "+00:00") ≡ some t
  pub written : (t : ℕ) → (iso p t == "") ≡ false

items-of_items : (l : List Value) → items (of_items l) ≡ l
items-of_items [] = refl
items-of_items (v ∷ l) = ap (◌∷◌ v) (items-of_items l)

members-of_members : (l : List (String × Value)) → members (of_members l) ≡ l
members-of_members [] = refl
members-of_members ((k, v) ∷ l) = ap (◌∷◌ (k, v)) (members-of_members l)

status_of_text-status_value : (s : ApprovalStatus) → status_of_text (status_value s) ≡ ok s
unfolding status_of_text status_value lookup
status_of_text-status_value Models.pending = refl
status_of_text-status_value Models.approved = refl
status_of_text-status_value Models.denied = refl
status_of_text-status_value Models.cancelled = refl
status_of_text-status_value Models.expired = refl

-- An optional text that is not the empty text, which reads back as absent.
abbrev pub IsText : Option String → Type 0
IsText none = Unit {0}
IsText (some s) = (s == "") ≡ false

-- The optional texts of an approval are absent or not empty.
pub record IsStorable (a : Approval) : Type 0 where
  pub decided_by_device_id : IsText a.decided_by_device_id
  pub decision_id : IsText a.decision_id
  pub compact_jwe : IsText a.compact_jwe
  pub result_hash : IsText a.result_hash

module _ (p : Python) where
  text_of-str : (l : List String) → map (text_of p) (map str l) ≡ l
  text_of-str [] = refl
  text_of-str (s ∷ l) = ap (◌∷◌ s) (text_of-str l)

  texts_read : (l : List String) → map (text_of p) (items (of_items (map str l))) ≡ l
  texts_read l = ap (map (text_of p)) (items-of_items (map str l)) ∙ text_of-str l

  optional_text :
      (o : Option String)
      → IsText o
      → (if is_truthy (optional_value p o) then some (text_of p (optional_value p o)) else none) ≡ o
  optional_text none h = refl
  optional_text (some s) h = rw h refl

  metadata_of_value-metadata_value :
      (item : PropertyMetadata) → metadata_of_value p (metadata_value p item) ≡ ok item
  unfolding metadata_of_value lookup
  metadata_of_value-metadata_value item = refl

  metadata_of_values-map :
      (l : List PropertyMetadata) → metadata_of_values p (map (metadata_value p) l) ≡ ok l
  unfolding metadata_of_values
  metadata_of_values-map [] = refl
  metadata_of_values-map (item ∷ l) =
      rw (metadata_of_value-metadata_value item, metadata_of_values-map l) refl

  entry_text-text_entry :
      (l : List (String × String)) → map (entry_text p) (map (text_entry p) l) ≡ l
  entry_text-text_entry [] = refl
  entry_text-text_entry (e ∷ l) = ap (◌∷◌ e) (entry_text-text_entry l)

  jwk_read :
      (jwk : List (String × String))
      → map (entry_text p) (members (of_members (map (text_entry p) jwk))) ≡ jwk
  jwk_read jwk =
      ap (map (entry_text p)) (members-of_members (map (text_entry p) jwk))
      ∙ entry_text-text_entry jwk

  module _ (r : ReadsTimes p) where
    datetime-iso : (t : ℕ) → datetime p (str (iso p t)) ≡ ok t
    unfolding datetime
    datetime-iso t = rw (r.reads t) refl

    optional_time-iso : (o : Option ℕ) → optional_time p (optional_iso p o) ≡ ok o
    optional_time-iso none = refl
    optional_time-iso (some t) = rw (r.written t, datetime-iso t) refl

    metadata_read :
        (l : List PropertyMetadata)
        → metadata_of_values p (items (of_items (map (metadata_value p) l))) ≡ ok l
    metadata_read l = rw (items-of_items (map (metadata_value p) l)) (metadata_of_values-map l)

    -- A document that the container returns is the one that was written, with members of its own.
    pub profile_from_document-profile_document :
        (profile : Profile) (system : Document)
        → profile_from_document p (profile_document p profile ++ system) ≡ ok profile
    unfolding profile_from_document profile_document lookup
    profile_from_document-profile_document profile system =
        rw (datetime-iso profile.updated_at) refl

    pub challenge_from_document-challenge_document :
        (c : EnrollmentChallenge) (system : Document)
        → challenge_from_document p (challenge_document p c ++ system)
          ≡ ok (record c { etag = optional_text_at p "_etag" system })
    unfolding challenge_from_document challenge_document lookup
    challenge_from_document-challenge_document c system = rw (datetime-iso c.expires_at) refl

    pub device_from_document-device_document :
        (d : Device) (system : Document)
        → device_from_document p (device_document p d ++ system) ≡ ok d
    unfolding device_from_document device_document lookup
    device_from_document-device_document d system =
        rw (jwk_read d.public_jwk, datetime-iso d.updated_at) refl

    pub property_index_from_document-property_index_document :
        (index : PropertyIndex) (system : Document)
        → property_index_from_document p (property_index_document p index ++ system) ≡ ok index
    unfolding property_index_from_document property_index_document lookup
    property_index_from_document-property_index_document index system =
        rw (metadata_read index.properties, datetime-iso index.updated_at) refl

    -- Reading back the document of an approval whose optional texts are absent or not empty gives the
    -- approval with the etag of the container, whatever members of its own the container adds to it,
    -- if timestamps read back.
    pub approval_from_document-approval_document :
        (a : Approval) (system : Document)
        → IsStorable a
        → approval_from_document p (approval_document p a ++ system)
          ≡ ok (with_etag a (optional_text_at p "_etag" system))
    unfolding approval_from_document approval_document with_etag lookup
    approval_from_document-approval_document a system h =
        rw
          (
            texts_read a.requested_keys,
            datetime-iso a.created_at,
            datetime-iso a.expires_at,
            status_of_text-status_value a.status,
            optional_time-iso a.decided_at,
            texts_read a.available_keys,
            texts_read a.approved_keys,
            texts_read a.denied_keys,
            texts_read a.unavailable_keys,
            metadata_read a.property_metadata,
            optional_text a.decided_by_device_id h.decided_by_device_id,
            optional_text a.decision_id h.decision_id,
            optional_text a.compact_jwe h.compact_jwe,
            optional_text a.result_hash h.result_hash,
          )
          refl
