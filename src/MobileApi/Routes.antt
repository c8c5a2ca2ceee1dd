-- ===== src/MobileApi/Routes.antt =====
-- The routes that create a challenge, remove a device, publish the list of properties and show the
-- inbox, over the operations of the store that they call.
use soffortmcp.Prelude.{
  ℕ, ◌+◌, String, false, Option, none, List, [], ◌∷◌, Result, http_error, bind, or_raise,
}
use soffortmcp.Prelude.Exec.{Exec, pure, lift, ◌>>=◌, ◌>>◌}
use soffortmcp.Prelude.Json.{str}
use soffortmcp.Models.{
  Principal, partition_key, EnrollmentChallenge, PropertyMetadata, PropertyIndex, Approval,
}
use soffortmcp.Catalog.{Unicode, validate_property_metadata}
use soffortmcp.DeviceSecurity.{canonical_uuid7}
use soffortmcp.Disclosure.{member}
use soffortmcp.Approval.Service.{World, await, now}
use soffortmcp.MobileApi.{Body, require_exact_members, metadata_tuple}

pub record RouteStore (S : Type 0) : Type 0 where
  pub create_challenge : EnrollmentChallenge → ℕ → Exec S (Unit {0})
  pub delete_device : String → String → ℕ → Exec S (Unit {0})
  pub put_property_index : String → List PropertyMetadata → ℕ → Exec S PropertyIndex
  pub get_approval : String → String → ℕ → Exec S (Option Approval)
  pub list_pending_approvals : String → ℕ → Exec S (List Approval)

module _ {S : Type 0} (store : RouteStore S) (principal : Principal) where
  -- The identifier and the nonce are drawn outside; five minutes are 300,000,000 microseconds.
  unfoldable pub create_challenge_route : String → String → Exec (World S) EnrollmentChallenge
  create_challenge_route challenge_id nonce = do
    at ← now
    let challenge : EnrollmentChallenge = record {
      partition_key = partition_key principal;
      challenge_id = challenge_id;
      nonce = nonce;
      expires_at = at + 300000000;
      consumed = false;
      etag = none;
    }
    await (store.create_challenge challenge)
    pure challenge

  unfoldable pub delete_device_route : String → Exec (World S) (Unit {0})
  delete_device_route raw_id = do
    device_id ← lift (canonical_uuid7 (str raw_id))
    await (store.delete_device (partition_key principal) device_id)

  unfoldable pub get_approval_route : String → Exec (World S) Approval
  get_approval_route raw_id = do
    approval_id ← lift (canonical_uuid7 (str raw_id))
    found ← await (store.get_approval (partition_key principal) approval_id)
    lift (or_raise found (http_error 404 "approval_not_found"))

  unfoldable pub list_approvals_route : Exec (World S) (List Approval)
  list_approvals_route = await (store.list_pending_approvals (partition_key principal))

-- The properties that the body lists.
unfoldable pub parse_properties : Unicode → Body → Result (List PropertyMetadata)
parse_properties u body = bind (require_exact_members body ("properties" ∷ [])) λ _.
    bind (member "properties" body) λ raw. bind (metadata_tuple raw) (validate_property_metadata u)

module _ {S : Type 0} (store : RouteStore S) (principal : Principal) where
  -- For what `_read_object` returns or raises
  unfoldable pub put_property_index_route : Unicode → Result Body → Exec (World S) PropertyIndex
  put_property_index_route u read = do
    body ← await (λ at s. (read, s))
    properties ← lift (parse_properties u body)
    await (store.put_property_index (partition_key principal) properties)
