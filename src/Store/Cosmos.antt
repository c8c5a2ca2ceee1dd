-- ===== src/Store/Cosmos.antt =====
-- src/soffortbackend/store.py, `CosmosApprovalStore`, over the container that the SDK hands out. Each
-- call of the container is an await; a query is read in one.
pub mod FirstWriter
pub mod Answers
use soffortmcp.Prelude.{
  ℕ, String, Bool, true, false, not, ◌||◌, Option, none, some, List, [], ◌∷◌, map, nat_beq, filter,
  take, if◌then◌else◌, concat, Failure, Result, ok, err, bind, store_conflict, store_unavailable,
  cosmos_error,
}
use soffortmcp.Prelude.Exec.{Exec, pure, raise, lift, catch, ◌>>=◌, ◌>>◌}
use soffortmcp.Models.{
  ApprovalStatus, Profile, EnrollmentChallenge, Device, PropertyMetadata, PropertyIndex, Approval,
  is_status, is_expired,
}
use soffortmcp.Models
use soffortmcp.Store.Memory.{Decision, apply_decision, newest_first, next_version}
use soffortmcp.Store.Conversions.{Python, Document}
use soffortmcp.Store.Documents.{
  profile_document, profile_from_document, challenge_document, challenge_from_document,
  device_document, device_from_document, property_index_document, property_index_from_document,
  approval_document, approval_from_document,
}
use soffortmcp.Approval.Service.{World, await, now}

-- The container's operations. A `CosmosHttpResponseError` is `cosmos_error` with its status; a
-- conditional replacement takes the etag that must not have changed.
pub record Container (S : Type 0) : Type 0 where
  pub read_item : String → String → Exec S Document
  pub create_item : Document → Exec S Document
  pub replace_item : String → Document → String → Exec S Document
  pub upsert_item : Document → Exec S Document
  pub delete_item : String → String → Exec S (Unit {0})
  pub query_items : String → String → Exec S (List Document)

-- The attributes of the store that its methods read.
pub record Cosmos (S : Type 0) : Type 0 where
  pub python : Python
  pub container : Option (Container S)

module _ {S : Type 0} where
  abbrev pub is_ready : Option (Container S) → Bool
  is_ready none = false
  is_ready (some c) = true

  -- `start`, for the container of the database and what its `read` returns or raises
  unfoldable pub start : Container S → Result (Unit {0}) → Exec (Cosmos S) (Unit {0})
  start container (ok _) store = (ok tt, record store { container = some container })
  start container (err (cosmos_error status)) store = (err store_unavailable, store)
  start container (err e) store = (err e, store)

-- except CosmosHttpResponseError
unfoldable pub unavailable : {S A : Type 0} → Failure → Exec S A
unavailable (cosmos_error status) = raise store_unavailable
unavailable e = raise e

-- with StoreConflict for one status
unfoldable pub conflict_at : ℕ → {S A : Type 0} → Failure → Exec S A
conflict_at code (cosmos_error status) =
    raise (if nat_beq status code then store_conflict else store_unavailable)
conflict_at code e = raise e

-- except CosmosResourceNotFoundError: return default
unfoldable pub missing : {S A : Type 0} → A → Failure → Exec S A
missing default (cosmos_error status) =
    if nat_beq status 404 then pure default else raise store_unavailable
missing default e = raise e

-- The records of the documents, in order.
unfoldable pub records_of : {A : Type 0} → (Document → Result A) → List Document → Result (List A)
records_of read [] = ok []
records_of read (d ∷ l) = bind (read d) λ a. bind (records_of read l) λ rest. ok (a ∷ rest)

unfoldable pub optional_record :
    {A : Type 0} → (Document → Result A) → Option Document → Result (Option A)
optional_record read none = ok none
optional_record read (some d) = bind (read d) λ a. ok (some a)

module _ {S : Type 0} (store : Cosmos S) where
  open store use {python, container}

  -- await self._require_container().op(...)
  unfoldable pub call : {A : Type 0} → (Container S → Exec S A) → Exec (World S) A
  call op = elim container [ none ↦ raise store_unavailable | some c ↦ await (λ at. op c) ]

  -- `_read`
  unfoldable pub read : String → String → Exec (World S) (Option Document)
  read item_id partition =
      catch (do result ← call (λ c. c.read_item item_id partition); pure (some result))
        (missing none)

  unfoldable pub get_profile : String → Exec (World S) (Option Profile)
  get_profile partition = do
    document ← read "profile" partition
    lift (optional_record (profile_from_document python) document)

  unfoldable pub put_profile : String → String → Exec (World S) Profile
  put_profile partition name = do
    prior ← get_profile partition
    clock ← now
    let profile : Profile = record {
      partition_key = partition;
      display_name = name;
      version = next_version prior;
      updated_at = clock;
    }
    catch (do call (λ c. c.upsert_item (profile_document python profile)); pure profile) unavailable

  unfoldable pub create_challenge : EnrollmentChallenge → Exec (World S) (Unit {0})
  create_challenge challenge =
      catch (do call (λ c. c.create_item (challenge_document python challenge)); pure tt)
        (conflict_at 409)

  unfoldable pub get_challenge : String → String → Exec (World S) (Option EnrollmentChallenge)
  get_challenge partition challenge_id = do
    document ← read (concat "challenge:" challenge_id) partition
    lift (optional_record (challenge_from_document python) document)

  -- The writes of `register_device`, under the concurrency token of the challenge.
  unfoldable pub register_under :
      EnrollmentChallenge → Device → Option String → Exec (World S) Device
  register_under challenge device none = raise store_conflict
  register_under challenge device (some etag) =
      catch
        (do
          call (λ c.
              c.replace_item (concat "challenge:" challenge.challenge_id)
                (challenge_document python (record challenge { consumed = true })) etag)
          call (λ c. c.upsert_item (device_document python device))
          pure device)
        (conflict_at 412)

  unfoldable pub register_device : EnrollmentChallenge → Device → Exec (World S) Device
  register_device challenge device = register_under challenge device challenge.etag

  unfoldable pub get_device : String → String → Exec (World S) (Option Device)
  get_device partition device_id = do
    document ← read (concat "device:" device_id) partition
    lift (optional_record (device_from_document python) document)

  unfoldable pub list_active_devices : String → Exec (World S) (List Device)
  list_active_devices partition =
      catch
        (do
          found ← call (λ c.
              c.query_items
                "SELECT * FROM c WHERE c.kind = 'device' AND c.notifications_enabled = true"
                partition)
          lift (records_of (device_from_document python) found))
        unavailable

  unfoldable pub delete_device : String → String → Exec (World S) (Unit {0})
  delete_device partition device_id =
      catch (call (λ c. c.delete_item (concat "device:" device_id) partition)) (missing tt)

  unfoldable pub disable_found : Option Device → Exec (World S) (Unit {0})
  disable_found none = pure tt
  disable_found (some device) = do
    clock ← now
    catch
        (do
          call (λ c. c.upsert_item (
              device_document python
                (record device { notifications_enabled = false; updated_at = clock })))
          pure tt)
        unavailable

  unfoldable pub disable_device : String → String → Exec (World S) (Unit {0})
  disable_device partition device_id = do
    device ← get_device partition device_id
    disable_found device

  unfoldable pub get_property_index : String → Exec (World S) (Option PropertyIndex)
  get_property_index partition = do
    document ← read "property-index" partition
    lift (optional_record (property_index_from_document python) document)

  unfoldable pub put_property_index : String → List PropertyMetadata → Exec (World S) PropertyIndex
  put_property_index partition properties = do
    clock ← now
    let index : PropertyIndex = record {
      partition_key = partition;
      properties = properties;
      updated_at = clock;
    }
    catch (do call (λ c. c.upsert_item (property_index_document python index)); pure index)
        unavailable

  unfoldable pub create_approval : Approval → Exec (World S) (Unit {0})
  create_approval approval =
      catch (do call (λ c. c.create_item (approval_document python approval)); pure tt)
        (conflict_at 409)

  unfoldable pub get_approval : String → String → Exec (World S) (Option Approval)
  get_approval partition approval_id = do
    document ← read (concat "approval:" approval_id) partition
    lift (optional_record (approval_from_document python) document)

  unfoldable pub list_pending_approvals : String → Exec (World S) (List Approval)
  list_pending_approvals partition =
      catch
        (do
          found ← call (λ c.
              c.query_items "SELECT * FROM c WHERE c.kind = 'approval' AND c.status = 'pending'"
                partition)
          values ← lift (records_of (approval_from_document python) found)
          clock ← now
          pure (take 20 (newest_first (filter (λ item. not (is_expired clock item)) values))))
        unavailable

  -- The conditional write of `_replace_approval`, under the token of the prior approval.
  unfoldable pub replace_under : Approval → Approval → Option String → Exec (World S) Approval
  replace_under prior updated none = raise store_conflict
  replace_under prior updated (some etag) =
      catch
        (do
          result ← call (λ c.
              c.replace_item (concat "approval:" prior.approval_id)
                (approval_document python updated) etag)
          lift (approval_from_document python result))
        (conflict_at 412)

  unfoldable pub replace_approval : Approval → Approval → Exec (World S) Approval
  replace_approval prior updated = replace_under prior updated prior.etag

  abbrev pub is_absent : Option String → Bool
  is_absent none = true
  is_absent (some etag) = false

  unfoldable pub decide_approval : Approval → Decision → Exec (World S) Approval
  decide_approval approval decision = do
    clock ← now
    if is_absent approval.etag
          || not (is_status approval.status Models.pending)
          || is_expired clock approval
        then raise store_conflict
        else replace_approval approval (apply_decision approval decision none)

  unfoldable pub close_approval : Approval → ApprovalStatus → Exec (World S) Approval
  close_approval approval status =
      if not (is_status approval.status Models.pending)
      then pure approval
      else replace_approval approval (record approval { status = status; etag = none })
