-- ===== src/Models.antt =====
-- src/soffortbackend/models.py: the records of the domain. A datetime is a number of microseconds
-- in UTC; `now` is the value of `datetime.now(UTC)` where the code reads it.
pub mod Correlation
use soffortmcp.Prelude.{
  ℕ, String, Bool, true, false, ◌&&◌, Option, none, some, List, [], Eq, ◌==◌, string_eq, leb,
  concat, len, lookup, Dict, if◌then◌else◌, ltb,
}
use soffortmcp.Prelude.Json.{Value, ℤ, as_str}

pub data ApprovalStatus : Type 0 where
  pending approved denied cancelled expired : ApprovalStatus

-- status is status'
abbrev pub is_status : ApprovalStatus → ApprovalStatus → Bool
is_status pending pending = true
is_status approved approved = true
is_status denied denied = true
is_status cancelled cancelled = true
is_status expired expired = true
is_status _ _ = false

-- status.value
unfoldable pub status_value : ApprovalStatus → String
status_value pending = "pending"
status_value approved = "approved"
status_value denied = "denied"
status_value cancelled = "cancelled"
status_value expired = "expired"

pub record Principal : Type 0 where
  pub tenant_id : String
  pub object_id : String
  pub client_id : String
  pub client_kind : String

unfoldable pub partition_key : Principal → String
partition_key p = concat p.tenant_id (concat ":" p.object_id)

-- The fields of the SDK's access token that the program writes and reads.
pub record AccessToken : Type 0 where
  pub token : String
  pub client_id : String
  pub scopes : List String
  pub expires_at : ℤ
  pub resource : String
  pub subject : String
  pub claims : Option (Dict String Value)

-- `claims.get(name)`, if it is a text that is not empty
unfoldable pub text_claim : Dict String Value → String → Option String
text_claim claims name = elim (lookup name claims) [
  | none ↦ none
  | some v ↦ elim (as_str v) [ none ↦ none | some s ↦ if s == "" then none else some s ]
]

abbrev pub claims_of : Option (Dict String Value) → Dict String Value
claims_of none = []
claims_of (some claims) = claims

unfoldable pub from_access_token : AccessToken → Option Principal
from_access_token token =
    let claims = claims_of token.claims in
    elim (text_claim claims "tid") [
      | none ↦ none
      | some tenant_id ↦ elim (text_claim claims "oid") [
        | none ↦ none
        | some object_id ↦ elim (text_claim claims "client_kind") [
          | none ↦ none
          | some client_kind ↦ some (record {
            tenant_id = tenant_id;
            object_id = object_id;
            client_id = token.client_id;
            client_kind = client_kind;
          })
        ]
      ]
    ]

pub record Profile : Type 0 where
  pub partition_key : String
  pub display_name : String
  pub version : ℤ
  pub updated_at : ℕ

pub record EnrollmentChallenge : Type 0 where
  pub partition_key : String
  pub challenge_id : String
  pub nonce : String
  pub expires_at : ℕ
  pub consumed : Bool
  pub etag : Option String

pub record Device : Type 0 where
  pub partition_key : String
  pub device_id : String
  pub public_jwk : Dict String String
  pub apns_token : String
  pub apns_environment : String
  pub notifications_enabled : Bool
  pub updated_at : ℕ

pub record PropertyMetadata : Type 0 where
  pub key : String
  pub display_name : String
  pub value_type : String
  pub sensitivity : String

pub record PropertyIndex : Type 0 where
  pub partition_key : String
  pub properties : List PropertyMetadata
  pub updated_at : ℕ

pub record Approval : Type 0 where
  pub partition_key : String
  pub approval_id : String
  pub event_id : String
  pub nonce : String
  pub tool_name : String
  pub arguments_hash : String
  pub requester : String
  pub purpose : String
  pub requested_keys : List String
  pub created_at : ℕ
  pub expires_at : ℕ
  pub status : ApprovalStatus
  pub decided_at : Option ℕ
  pub decided_by_device_id : Option String
  pub decision_id : Option String
  pub available_keys : List String
  pub approved_keys : List String
  pub denied_keys : List String
  pub unavailable_keys : List String
  pub property_metadata : List PropertyMetadata
  pub compact_jwe : Option String
  pub result_hash : Option String
  pub etag : Option String

-- approval.expired
abbrev pub is_expired : ℕ → Approval → Bool
is_expired now a = leb a.expires_at now

unfoldable pub with_etag : Approval → Option String → Approval
with_etag a etag = record a { etag = etag }

-- Equality of optional texts, as `==` on `str | None`.
abbrev pub option_beq : Option String → Option String → Bool
option_beq none none = true
option_beq (some s) (some t) = s == t
option_beq _ _ = false
