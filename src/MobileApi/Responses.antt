-- ===== src/MobileApi/Responses.antt =====
-- src/soffortbackend/mobile_api.py: the reader of bodies, and the JSON that the routes answer with.
pub mod Reading
use soffortmcp.Prelude.{
  ℕ, ◌+◌, ◌-◌, String, Bool, true, false, not, ◌&&◌, Option, none, some, List, [], ◌∷◌, ◌++◌, map,
  ◌==◌, string_eq, ltb, leb, nat_beq, if◌then◌else◌, is_nonempty, length, codes, ascii_text, concat,
  Failure, Result, ok, err, bind, or_raise, reject, value_error, http_error,
}
use soffortmcp.Prelude.Json.{
  Value, null, bool, int, pos, str, arr, obj, items, members, of_items, of_members, as_dict,
}
use soffortmcp.Models.{Approval, Device, EnrollmentChallenge, PropertyIndex, status_value}
use soffortmcp.Settings.{Settings, canonical_public_url, canonical_issuer}
use soffortmcp.DeviceSecurity.{Bytes}
use soffortmcp.Disclosure.Keys.{DisclosureKey, as_json}
use soffortmcp.Approval.{request_tool}
use soffortmcp.Store.Conversions.{Python, iso}

abbrev pub Json : Type 0
Json = List (String × Value)

-- `str.isdigit`, `int` of a text, and `json.loads`.
pub record Reader : Type 0 where
  pub is_digit : String → Bool
  pub parse_int : String → Option ℕ
  pub loads : Bytes → Result Value

abbrev pub mobile_body_limit_bytes : ℕ
mobile_body_limit_bytes = 1048576

abbrev pub too_large : Failure
too_large = http_error 413 "request_too_large"

unfoldable pub check_length : Reader → Option String → Result (Unit {0})
check_length reader none = ok tt
check_length reader (some length_) =
    if not (reader.is_digit length_)
    then err too_large
    else bind (or_raise (reader.parse_int length_) value_error)
        λ n. reject (ltb mobile_body_limit_bytes n) too_large

-- The chunks of the stream, as far as they are read.
unfoldable pub collect : Bytes → List Bytes → Result Bytes
collect collected [] = ok collected
collect collected (chunk ∷ l) =
    let rest = collect (collected ++ chunk) l in
    if ltb mobile_body_limit_bytes (length (collected ++ chunk)) then err too_large else rest

unfoldable pub decode_object : Reader → Bytes → Result Json
decode_object reader collected =
    bind (reader.loads (if is_nonempty collected then collected else codes "{}"))
      λ decoded. or_raise (as_dict decoded) value_error

-- `_read_object`, for the header content-length and the chunks of the stream
unfoldable pub read_object : Reader → Option String → List Bytes → Result Json
read_object reader content_length chunks =
    bind (check_length reader content_length) λ _. bind (collect [] chunks) (decode_object reader)

abbrev pub texts : List String → Value
texts l = arr (of_items (map str l))

unfoldable pub resource_metadata : Settings → Json
resource_metadata settings =
    ("resource", str (canonical_public_url settings))
    ∷ ("authorization_servers", texts (canonical_issuer settings ∷ []))
    ∷ ("scopes_supported", texts (settings.mobile_scope_uri ∷ []))
    ∷ ("bearer_methods_supported", texts ("header" ∷ []))
    ∷ []

abbrev pub upper : ℕ → ℕ
upper c = if leb 97 c && leb c 122 then c - 32 else c

-- code.replace("_", " ").title(), for a code of lowercase words; whether a word begins
abbrev pub titled : Bool → List ℕ → List ℕ
titled begins [] = []
titled begins (c ∷ s) =
    let ends = nat_beq c b'_' in
    (if ends then b' ' else if begins then upper c else c) ∷ titled ends s

-- The body of `_problem`
unfoldable pub problem_body : ℕ → String → Json
problem_body status code =
    ("type", str (concat "https://concentrey.com/problems/" code))
    ∷ ("title", str (ascii_text (titled true (codes code))))
    ∷ ("status", int (pos status))
    ∷ ("code", str code)
    ∷ []

unfoldable pub requested_property : String → Value
requested_property key = obj (
    of_members (
      ("key", str key)
      ∷ ("display_name", str "Vault property")
      ∷ ("value_type", str "dynamic")
      ∷ ("sensitivity", str "unknown")
      ∷ []))

-- The disclosure key of a response, for what `current_key` returns or raises
unfoldable pub disclosure_key : Result DisclosureKey → Approval → Result Value
disclosure_key current approval =
    if approval.tool_name == request_tool
    then bind current (λ key. ok (obj (of_members (as_json key))))
    else ok null

module _ (p : Python) where
  -- `_approval_response`
  unfoldable pub approval_response : Result DisclosureKey → Approval → Result Json
  approval_response current approval = bind (disclosure_key current approval) λ key. ok (
      ("contract_version", int (pos 3))
      ∷ ("approval_id", str approval.approval_id)
      ∷ ("tool_name", str approval.tool_name)
      ∷ ("requester", str approval.requester)
      ∷ ("purpose", str approval.purpose)
      ∷ ("requested_properties", arr (of_items (map requested_property approval.requested_keys)))
      ∷ ("arguments_hash", str approval.arguments_hash)
      ∷ ("nonce", str approval.nonce)
      ∷ ("status", str (status_value approval.status))
      ∷ ("created_at", str (iso p approval.created_at))
      ∷ ("expires_at", str (iso p approval.expires_at))
      ∷ ("disclosure_key", key)
      ∷ [])

  unfoldable pub inbox_items : Result DisclosureKey → List Approval → Result (List Value)
  inbox_items current [] = ok []
  inbox_items current (item ∷ l) =
      bind (approval_response current item)
        λ response. bind (inbox_items current l) λ rest. ok (obj (of_members response) ∷ rest)

  -- The answer of `list_approvals`
  unfoldable pub inbox_response : Result DisclosureKey → List Approval → Result Json
  inbox_response current pending =
      bind (inbox_items current pending) λ l. ok (("requests", arr (of_items l)) ∷ [])

  unfoldable pub challenge_response : EnrollmentChallenge → Json
  challenge_response challenge =
      ("challenge_id", str challenge.challenge_id)
      ∷ ("nonce", str challenge.nonce)
      ∷ ("expires_at", str (iso p challenge.expires_at))
      ∷ []

  unfoldable pub device_response : Device → Json
  device_response device =
      ("device_id", str device.device_id)
      ∷ ("notifications_enabled", bool true)
      ∷ ("updated_at", str (iso p device.updated_at))
      ∷ []

  unfoldable pub index_response : PropertyIndex → Json
  index_response index =
      ("property_count", int (pos (length index.properties)))
      ∷ ("updated_at", str (iso p index.updated_at))
      ∷ []

  abbrev pub iso_or_null : Option ℕ → Value
  iso_or_null none = null
  iso_or_null (some at) = str (iso p at)

  unfoldable pub decision_response : Approval → Json
  decision_response approval =
      ("approval_id", str approval.approval_id)
      ∷ ("status", str (status_value approval.status))
      ∷ ("decided_at", iso_or_null approval.decided_at)
      ∷ []
