-- ===== src/MobileApi/Deciding.antt =====
-- `decide_approval`, the route that takes a phone's signed answer.
use soffortmcp.Prelude.{
  ℕ, ◌/◌, String, ◌&&◌, Option, none, some, List, [], ◌∷◌, ◌≡◌, leb, if◌then◌else◌, string_eq,
  contains, len, Result, ok, err, value_error, http_error, type_error, guard, bind, or_raise,
}
use soffortmcp.Prelude.Exec.{Exec}
use soffortmcp.Prelude.Exec
use soffortmcp.Prelude.Json.{Value, str, int, arr, obj, null, as_str, as_dict}
use soffortmcp.Models.{Principal, Approval}
use soffortmcp.DeviceSecurity.{canonical_uuid7, require_fresh_issued_at}
use soffortmcp.DeviceSecurity.Proofs.{IsFresh}
use soffortmcp.Disclosure.{Manifest, member}
use soffortmcp.Approval.Service.{Service, World, Answer, await, now, decide}
use soffortmcp.MobileApi.{Body, require_exact_members, string_tuple, metadata_tuple}

infixl 5 ◌>>=◌ ◌>>◌
abbrev ◌>>=◌ {ℓ κ} : {A : Type ℓ} {B : Type κ} → Result A → (A → Result B) → Result B
◌>>=◌ = bind

abbrev ◌>>◌ {ℓ} : {B : Type ℓ} → Result (Unit {0}) → Result B → Result B
m >> k = m >>= λ _. k

-- decision not in {"approved", "denied"}, which raises on a list or an object
unfoldable pub decision_text : Value → Result String
decision_text (str s) =
    if contains s ("approved" ∷ "denied" ∷ [])
    then ok s
    else err (http_error 400 "invalid_decision")
decision_text (arr l) = err type_error
decision_text (obj l) = err type_error
decision_text _ = err (http_error 400 "invalid_decision")

-- The ciphertext: absent, or a text of 1 to 96,000 characters.
unfoldable pub optional_jwe : Value → Result (Option String)
optional_jwe null = ok none
optional_jwe v = do
  text ← or_raise (as_str v) value_error
  guard (leb 1 (len text) && leb (len text) 96000) value_error
  ok (some text)

unfoldable pub hash_text : Value → Result String
hash_text v = do
  text ← or_raise (as_str v) value_error
  guard (leb 40 (len text) && leb (len text) 64) value_error
  ok text

abbrev decision_members : List String
decision_members =
    "device_id" ∷ "decision_id" ∷ "decision" ∷ "result" ∷ "result_hash" ∷ "issued_at" ∷ "signature"
    ∷ []

abbrev result_members : List String
result_members =
    "available_keys" ∷ "approved_keys" ∷ "denied_keys" ∷ "unavailable_keys" ∷ "property_metadata"
    ∷ "compact_jwe" ∷ []

-- The lists of the result, read as the arguments of `decide`.
unfoldable pub parse_manifest : Body → Option String → Result Manifest
parse_manifest result compact_jwe = do
  available_keys ← member "available_keys" result >>= string_tuple
  approved_keys ← member "approved_keys" result >>= string_tuple
  denied_keys ← member "denied_keys" result >>= string_tuple
  unavailable_keys ← member "unavailable_keys" result >>= string_tuple
  property_metadata ← member "property_metadata" result >>= metadata_tuple
  ok (record {
    available_keys = available_keys;
    approved_keys = approved_keys;
    denied_keys = denied_keys;
    unavailable_keys = unavailable_keys;
    property_metadata = property_metadata;
    compact_jwe = compact_jwe;
  })

-- What the body says before its time proof.
unfoldable pub parse_head : Body → Result (String × String × String)
parse_head body = do
  require_exact_members body decision_members
  device_id ← member "device_id" body >>= canonical_uuid7
  decision_id ← member "decision_id" body >>= canonical_uuid7
  decision ← member "decision" body >>= decision_text
  ok (device_id, decision_id, decision)

unfoldable pub parse_result : Body → Result (Body × Option String × String)
parse_result body = do
  raw ← member "result" body
  result ← or_raise (as_dict raw) value_error
  require_exact_members result result_members
  compact_jwe ← member "compact_jwe" result >>= optional_jwe
  result_hash ← member "result_hash" body >>= hash_text
  ok (result, compact_jwe, result_hash)

unfoldable pub parse_answer : ℕ → String → Body → Result Answer
parse_answer at approval_id body = do
  (device_id, decision_id, decision) ← parse_head body
  (result, compact_jwe, result_hash) ← parse_result body
  raw_issued_at ← member "issued_at" body
  issued_at ← require_fresh_issued_at at raw_issued_at
  manifest ← parse_manifest result compact_jwe
  signature ← member "signature" body
  ok (record {
    approval_id = approval_id;
    device_id = device_id;
    decision_id = decision_id;
    decision = decision;
    manifest = manifest;
    result_hash = result_hash;
    issued_at = issued_at;
    signature = signature;
  })

-- How the answer stands in the body, at an instant.
pub record IsRead (body : Body) (at : ℕ) (answer : Answer) : Type 0 where
  pub device_id : member "device_id" body ≡ ok (str answer.device_id)
  pub decision_id : member "decision_id" body ≡ ok (str answer.decision_id)
  pub decision : member "decision" body ≡ ok (str answer.decision)
  pub raw : Value
  pub result : Body
  pub sent_result : member "result" body ≡ ok raw
  pub is_object : as_dict raw ≡ some result
  pub manifest : parse_manifest result answer.manifest.compact_jwe ≡ ok answer.manifest
  pub result_hash : member "result_hash" body ≡ ok (str answer.result_hash)
  pub issued_at : member "issued_at" body ≡ ok (int answer.issued_at)
  pub fresh : IsFresh (at / 1000000) answer.issued_at
  pub signature : member "signature" body ≡ ok answer.signature

module _ {S : Type 0} (service : Service S) (principal : Principal) where
  -- The route, for the identifier in the path and what `_read_object` returns or raises.
  unfoldable pub decide_route : String → Result Body → Exec (World S) Approval
  decide_route raw_id read = Exec.◌>>=◌ (Exec.lift (canonical_uuid7 (str raw_id))) λ approval_id.
      Exec.◌>>=◌ (await (λ at s. (read, s))) λ body. Exec.◌>>=◌ now λ at.
        Exec.◌>>=◌ (Exec.lift (parse_answer at approval_id body))
          λ answer. decide service principal answer
