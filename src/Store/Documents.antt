-- ===== src/Store/Documents.antt =====
-- src/soffortbackend/store.py: the documents of the Cosmos DB store, written from the records and read
-- back. A document is a decoded JSON object.
pub mod RoundTrip
use soffortmcp.Prelude.{
  ℕ, zero, suc, ◌-◌, String, Bool, true, false, not, ◌||◌, Option, none, some, List, [], ◌∷◌, ◌++◌,
  map, nat_beq, ◌==◌, string_eq, if◌then◌else◌, is_prefix, length, codes, concat, lookup, Result,
  ok, err, bind, or_raise, store_unavailable, key_error, type_error, value_error, other_error,
}
use Prim.Native.String
use soffortmcp.Prelude.Decimal.{decimal}
use soffortmcp.Prelude.Json.{
  Value, ℤ, pos, negsuc, null, bool, int, float, str, arr, obj, nil, cons, end, field, items,
  members, of_items, of_members,
}
use soffortmcp.Models.{
  ApprovalStatus, Profile, EnrollmentChallenge, Device, PropertyMetadata, PropertyIndex, Approval,
  status_value,
}
use soffortmcp.Models
use soffortmcp.Store.Conversions.{
  ◌>>=◌, Python, Document, text_of, int_of, is_truthy, characters, names, iterate, get, subscript,
  get_or, iso, datetime, text_at, time_at, optional_text_at, optional_time, texts_of,
}

module _ (p : Python) where
  unfoldable pub profile_document : Profile → Document
  profile_document profile =
      ("id", str "profile")
      ∷ ("kind", str "profile")
      ∷ ("partition_key", str profile.partition_key)
      ∷ ("display_name", str profile.display_name)
      ∷ ("version", int profile.version)
      ∷ ("updated_at", str (iso p profile.updated_at))
      ∷ []

  unfoldable pub profile_from_document : Document → Result Profile
  profile_from_document d = do
    partition_key ← text_at p "partition_key" d
    display_name ← text_at p "display_name" d
    version ← get "version" d >>= int_of p
    updated_at ← time_at p "updated_at" d
    ok (record {
      partition_key = partition_key;
      display_name = display_name;
      version = version;
      updated_at = updated_at;
    })

  unfoldable pub challenge_document : EnrollmentChallenge → Document
  challenge_document c =
      ("id", str (concat "challenge:" c.challenge_id))
      ∷ ("kind", str "challenge")
      ∷ ("partition_key", str c.partition_key)
      ∷ ("challenge_id", str c.challenge_id)
      ∷ ("nonce", str c.nonce)
      ∷ ("expires_at", str (iso p c.expires_at))
      ∷ ("consumed", bool c.consumed)
      ∷ ("ttl", int (pos 300))
      ∷ []

  unfoldable pub challenge_from_document : Document → Result EnrollmentChallenge
  challenge_from_document d = do
    partition_key ← text_at p "partition_key" d
    challenge_id ← text_at p "challenge_id" d
    nonce ← text_at p "nonce" d
    expires_at ← time_at p "expires_at" d
    consumed ← get "consumed" d
    ok (record {
      partition_key = partition_key;
      challenge_id = challenge_id;
      nonce = nonce;
      expires_at = expires_at;
      consumed = is_truthy consumed;
      etag = optional_text_at p "_etag" d;
    })

  abbrev pub text_entry : String × String → String × Value
  text_entry (name, text) = (name, str text)

  abbrev pub entry_text : String × Value → String × String
  entry_text (name, v) = (name, text_of p v)

  -- `asdict(device)`, with the members that `update` overwrites or adds
  unfoldable pub device_document : Device → Document
  device_document d =
      ("partition_key", str d.partition_key)
      ∷ ("device_id", str d.device_id)
      ∷ ("public_jwk", obj (of_members (map text_entry d.public_jwk)))
      ∷ ("apns_token", str d.apns_token)
      ∷ ("apns_environment", str d.apns_environment)
      ∷ ("notifications_enabled", bool d.notifications_enabled)
      ∷ ("updated_at", str (iso p d.updated_at))
      ∷ ("id", str (concat "device:" d.device_id))
      ∷ ("kind", str "device")
      ∷ []

  -- value.items(), as texts
  abbrev pub jwk_of : Value → Result (List (String × String))
  jwk_of (obj l) = ok (map entry_text (members l))
  jwk_of _ = err other_error

  unfoldable pub device_from_document : Document → Result Device
  device_from_document d = do
    partition_key ← text_at p "partition_key" d
    device_id ← text_at p "device_id" d
    public_jwk ← get "public_jwk" d >>= jwk_of
    apns_token ← text_at p "apns_token" d
    apns_environment ← text_at p "apns_environment" d
    enabled ← get "notifications_enabled" d
    updated_at ← time_at p "updated_at" d
    ok (record {
      partition_key = partition_key;
      device_id = device_id;
      public_jwk = public_jwk;
      apns_token = apns_token;
      apns_environment = apns_environment;
      notifications_enabled = is_truthy enabled;
      updated_at = updated_at;
    })

  -- asdict(item)
  abbrev pub metadata_value : PropertyMetadata → Value
  metadata_value item = obj (
      of_members (
        ("key", str item.key)
        ∷ ("display_name", str item.display_name)
        ∷ ("value_type", str item.value_type)
        ∷ ("sensitivity", str item.sensitivity)
        ∷ []))

  abbrev pub subscript_text : String → Value → Result String
  subscript_text name v = subscript name v >>= λ w. ok (text_of p w)

  unfoldable pub metadata_of_value : Value → Result PropertyMetadata
  metadata_of_value item = do
    key ← subscript_text "key" item
    display_name ← subscript_text "display_name" item
    value_type ← subscript_text "value_type" item
    sensitivity ← subscript_text "sensitivity" item
    ok (record {
      key = key;
      display_name = display_name;
      value_type = value_type;
      sensitivity = sensitivity;
    })

  unfoldable pub metadata_of_values : List Value → Result (List PropertyMetadata)
  metadata_of_values [] = ok []
  metadata_of_values (v ∷ l) = do
    item ← metadata_of_value v
    rest ← metadata_of_values l
    ok (item ∷ rest)

  abbrev pub metadata_at : String → Document → Result (List PropertyMetadata)
  metadata_at name d = iterate (get_or (arr nil) name d) >>= metadata_of_values

  unfoldable pub property_index_document : PropertyIndex → Document
  property_index_document index =
      ("id", str "property-index")
      ∷ ("kind", str "property-index")
      ∷ ("partition_key", str index.partition_key)
      ∷ ("properties", arr (of_items (map metadata_value index.properties)))
      ∷ ("updated_at", str (iso p index.updated_at))
      ∷ []

  unfoldable pub property_index_from_document : Document → Result PropertyIndex
  property_index_from_document d = do
    partition_key ← text_at p "partition_key" d
    properties ← metadata_at "properties" d
    updated_at ← time_at p "updated_at" d
    ok (record { partition_key = partition_key; properties = properties; updated_at = updated_at })

  abbrev pub texts_value : List String → Value
  texts_value l = arr (of_items (map str l))

  abbrev pub optional_value : Option String → Value
  optional_value none = null
  optional_value (some s) = str s

  abbrev pub optional_iso : Option ℕ → Value
  optional_iso none = null
  optional_iso (some t) = str (iso p t)

  unfoldable pub approval_document : Approval → Document
  approval_document a =
      ("id", str (concat "approval:" a.approval_id))
      ∷ ("kind", str "approval")
      ∷ ("partition_key", str a.partition_key)
      ∷ ("approval_id", str a.approval_id)
      ∷ ("event_id", str a.event_id)
      ∷ ("nonce", str a.nonce)
      ∷ ("tool_name", str a.tool_name)
      ∷ ("arguments_hash", str a.arguments_hash)
      ∷ ("requester", str a.requester)
      ∷ ("purpose", str a.purpose)
      ∷ ("requested_keys", texts_value a.requested_keys)
      ∷ ("created_at", str (iso p a.created_at))
      ∷ ("expires_at", str (iso p a.expires_at))
      ∷ ("status", str (status_value a.status))
      ∷ ("decided_at", optional_iso a.decided_at)
      ∷ ("decided_by_device_id", optional_value a.decided_by_device_id)
      ∷ ("decision_id", optional_value a.decision_id)
      ∷ ("available_keys", texts_value a.available_keys)
      ∷ ("approved_keys", texts_value a.approved_keys)
      ∷ ("denied_keys", texts_value a.denied_keys)
      ∷ ("unavailable_keys", texts_value a.unavailable_keys)
      ∷ ("property_metadata", arr (of_items (map metadata_value a.property_metadata)))
      ∷ ("compact_jwe", optional_value a.compact_jwe)
      ∷ ("result_hash", optional_value a.result_hash)
      ∷ ("ttl", int (pos 300))
      ∷ []

-- ApprovalStatus(text)
unfoldable pub status_of_text : String → Result ApprovalStatus
status_of_text s =
    or_raise
      (lookup s (
        ("pending", Models.pending)
        ∷ ("approved", Models.approved)
        ∷ ("denied", Models.denied)
        ∷ ("cancelled", Models.cancelled)
        ∷ ("expired", Models.expired)
        ∷ []))
      value_error

module _ (p : Python) where
  unfoldable pub approval_from_document : Document → Result Approval
  approval_from_document d = do
    partition_key ← text_at p "partition_key" d
    approval_id ← text_at p "approval_id" d
    event_id ← text_at p "event_id" d
    nonce ← text_at p "nonce" d
    tool_name ← text_at p "tool_name" d
    arguments_hash ← text_at p "arguments_hash" d
    requester ← text_at p "requester" d
    purpose ← text_at p "purpose" d
    requested_keys ← get "requested_keys" d >>= texts_of p
    created_at ← time_at p "created_at" d
    expires_at ← time_at p "expires_at" d
    status ← text_at p "status" d >>= status_of_text
    decided_at ← optional_time p (get_or null "decided_at" d)
    available_keys ← texts_of p (get_or (arr nil) "available_keys" d)
    approved_keys ← texts_of p (get_or (arr nil) "approved_keys" d)
    denied_keys ← texts_of p (get_or (arr nil) "denied_keys" d)
    unavailable_keys ← texts_of p (get_or (arr nil) "unavailable_keys" d)
    property_metadata ← metadata_at p "property_metadata" d
    ok (record {
      partition_key = partition_key;
      approval_id = approval_id;
      event_id = event_id;
      nonce = nonce;
      tool_name = tool_name;
      arguments_hash = arguments_hash;
      requester = requester;
      purpose = purpose;
      requested_keys = requested_keys;
      created_at = created_at;
      expires_at = expires_at;
      status = status;
      decided_at = decided_at;
      decided_by_device_id = optional_text_at p "decided_by_device_id" d;
      decision_id = optional_text_at p "decision_id" d;
      available_keys = available_keys;
      approved_keys = approved_keys;
      denied_keys = denied_keys;
      unavailable_keys = unavailable_keys;
      property_metadata = property_metadata;
      compact_jwe = optional_text_at p "compact_jwe" d;
      result_hash = optional_text_at p "result_hash" d;
      etag = optional_text_at p "_etag" d;
    })
