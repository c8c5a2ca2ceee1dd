-- ===== src/Approval/Service.antt =====
-- src/soffortbackend/approval.py, `ApprovalService`, over the interface of the shared store. At each
-- await other tasks may run: a world holds what they will do, in turn, to the store and the clock.
use soffortmcp.Prelude.{
  ℕ, zero, suc, ◌+◌, String, Bool, true, not, ◌&&◌, ◌||◌, Option, none, some, List, [], ◌∷◌, ltb,
  ◌==◌, string_eq, codes_eq, if◌then◌else◌, is_nonempty, codes, ascii_text, Failure, Result, ok,
  err, value_error, store_conflict, approval_error, notification_unavailable, cancelled,
  phone_not_linked, notifications_unavailable, approval_timed_out, approval_unavailable,
  disclosure_invalid, guard, bind,
}
use soffortmcp.Prelude.Exec.{Exec, pure, raise, lift, catch, ◌>>=◌, ◌>>◌}
use soffortmcp.Prelude.Json.{Value, ℤ}
use soffortmcp.Prelude.Encoding.{utf8, encode}
use soffortmcp.Prelude.JsonText.{dumps_object, dumps_text, dumps_texts}
use soffortmcp.Models.{
  ApprovalStatus, is_status, Principal, partition_key, Device, Approval, is_expired, option_beq,
}
use soffortmcp.Models
use soffortmcp.Catalog.{Unicode}
use soffortmcp.DeviceSecurity.{Crypto, Consent, decision_message, verify_signature}
use soffortmcp.Disclosure.{Platform, Manifest, DisclosedProperty, result_manifest_hash}
use soffortmcp.Store.Memory.{Decision}
use soffortmcp.Notifications.{DeliveryResult}
use soffortmcp.Approval.{list_tool, request_tool, validate_result}

-- The operations of the store that the service calls, each at the instant of its clock.
pub record ApprovalStore (S : Type 0) : Type 0 where
  pub list_active_devices : String → ℕ → Exec S (List Device)
  pub get_device : String → String → ℕ → Exec S (Option Device)
  pub disable_device : String → String → ℕ → Exec S (Unit {0})
  pub create_approval : Approval → ℕ → Exec S (Unit {0})
  pub get_approval : String → String → ℕ → Exec S (Option Approval)
  pub decide_approval : Approval → Decision → ℕ → Exec S Approval
  pub close_approval : Approval → ApprovalStatus → ℕ → Exec S Approval

-- What the service is built with.
pub record Service (S : Type 0) : Type 0 where
  pub store : ApprovalStore S
  pub send_approval : Approval → List Device → Result DeliveryResult
  pub decrypt : ℕ → Approval → Result (List DisclosedProperty)
  pub unicode : Unicode
  pub crypto : Crypto
  pub platform : Platform
  pub timeout : ℕ
  pub poll_interval : ℕ

-- The shared store, the clock, and what other tasks do at the next awaits: each turns the store into
-- another and takes some time.
pub record World (S : Type 0) : Type 0 where
  pub state : S
  pub clock : ℕ
  pub others : List (S → S × ℕ)

module _ {S : Type 0} where
  unfoldable pub interleave : List (S → S × ℕ) → World S → World S
  interleave [] w = w
  interleave (f ∷ fs) w =
      let r = f w.state in record w { state = r.0; clock = w.clock + r.1; others = fs }

  unfoldable pub pause : World S → World S
  pause w = interleave w.others w

  -- await op(...)
  unfoldable pub await : {A : Type 0} → (ℕ → Exec S A) → Exec (World S) A
  await op w = let w' = pause w in let r = op w'.clock w'.state in (r.0, record w' { state = r.1 })

  -- datetime.now(UTC), time.monotonic()
  abbrev pub now : Exec (World S) ℕ
  now w = (ok w.clock, w)

  -- await asyncio.sleep(duration)
  unfoldable pub sleep : ℕ → Exec (World S) (Unit {0})
  sleep duration w = let w' = pause w in (ok tt, record w' { clock = w'.clock + duration })

-- except Exception: everything but a cancellation
abbrev pub swallow : Failure → Result (Unit {0})
swallow cancelled = err cancelled
swallow _ = ok tt

-- A signed answer, as the phone route hands it to `decide`.
pub record Answer : Type 0 where
  pub approval_id : String
  pub device_id : String
  pub decision_id : String
  pub decision : String
  pub manifest : Manifest
  pub result_hash : String
  pub issued_at : ℤ
  pub signature : Value

-- ApprovalStatus.APPROVED if decision == "approved" else ApprovalStatus.DENIED
abbrev pub desired_status : String → ApprovalStatus
desired_status decision = if decision == "approved" then Models.approved else Models.denied

-- The same answer was committed before.
abbrev pub is_replay : Approval → Answer → Bool
is_replay a r =
    is_status a.status (desired_status r.decision)
    && option_beq a.decision_id (some r.decision_id)
    && option_beq a.decided_by_device_id (some r.device_id)
    && option_beq a.result_hash (some r.result_hash)

abbrev pub consent_of : Principal → Approval → Answer → Consent
consent_of principal a r = record {
  tenant_id = principal.tenant_id;
  object_id = principal.object_id;
  device_id = r.device_id;
  approval_id = r.approval_id;
  nonce = a.nonce;
  tool_name = a.tool_name;
  arguments_hash = a.arguments_hash;
  decision = r.decision;
  result_hash = r.result_hash;
  issued_at = r.issued_at;
}

abbrev pub decision_of : ℕ → Answer → Decision
decision_of now r = record {
  status = desired_status r.decision;
  device_id = r.device_id;
  decision_id = r.decision_id;
  decided_at = now;
  available_keys = r.manifest.available_keys;
  approved_keys = r.manifest.approved_keys;
  denied_keys = r.manifest.denied_keys;
  unavailable_keys = r.manifest.unavailable_keys;
  property_metadata = r.manifest.property_metadata;
  compact_jwe = r.manifest.compact_jwe;
  result_hash = r.result_hash;
}

-- `_hash_arguments` of the value request, and of the empty arguments
unfoldable pub hash_arguments : Platform → Option (List String × String) → String
hash_arguments p none = ascii_text (encode (p.sha256 (utf8 (dumps_object []))))
hash_arguments p (some (properties, purpose)) = ascii_text (
    encode (
      p.sha256 (
        utf8 (
          dumps_object
            (("properties", dumps_texts properties) ∷ ("purpose", dumps_text true purpose) ∷ [])))))

-- What `uuid7` and `secrets` draw for one request.
pub record Fresh : Type 0 where
  pub approval_id : String
  pub event_id : String
  pub nonce : String

-- The arguments of `_request`.
pub record Question : Type 0 where
  pub tool_name : String
  pub purpose : String
  pub requested_keys : List String
  pub arguments : Option (List String × String)

module _ {S : Type 0} (service : Service S) where
  open service use {store}

  unfoldable pub best_effort_close : Approval → ApprovalStatus → Exec (World S) (Unit {0})
  best_effort_close approval status =
      catch (do await (store.close_approval approval status); pure tt) (λ e. lift (swallow e))

  -- The checks of `decide` between the reads and the write.
  unfoldable pub check_answer : Principal → Approval → Device → Answer → Result (Unit {0})
  check_answer principal a device r =
      bind (validate_result service.unicode a.tool_name a.requested_keys r.decision r.manifest) λ _.
        bind
          (guard (codes r.result_hash == result_manifest_hash service.platform r.manifest)
            value_error)
          λ _.
            verify_signature service.crypto device.public_jwk
              (decision_message (consent_of principal a r)) r.signature

  unfoldable pub decide_pending : Principal → Answer → Approval → Device → Exec (World S) Approval
  decide_pending principal r a device = do
    clock ← now
    if is_expired clock a
        then (do best_effort_close a Models.expired; raise store_conflict)
        else (do
          lift (check_answer principal a device r)
          await (store.decide_approval a (decision_of clock r)))

  unfoldable pub decide_found :
      Principal → Answer → Option Approval → Option Device → Exec (World S) Approval
  decide_found principal r (some a) (some device) =
      if not device.notifications_enabled
      then raise store_conflict
      else if not (is_status a.status Models.pending)
      then (if is_replay a r then pure a else raise store_conflict)
      else decide_pending principal r a device
  decide_found principal r _ _ = raise store_conflict

  unfoldable pub decide : Principal → Answer → Exec (World S) Approval
  decide principal r = do
    found ← await (store.get_approval (partition_key principal) r.approval_id)
    device ← await (store.get_device (partition_key principal) r.device_id)
    decide_found principal r found device

  -- The last look at the approval, once the deadline has passed.
  unfoldable pub on_latest : Option Approval → Exec (World S) Approval
  on_latest none = raise (approval_error approval_timed_out)
  on_latest (some latest) =
      if is_status latest.status Models.approved || is_status latest.status Models.denied
      then pure latest
      else (do best_effort_close latest Models.expired; raise (approval_error approval_timed_out))

  unfoldable pub after_deadline : Approval → Exec (World S) Approval
  after_deadline approval = do
    latest ← await (store.get_approval approval.partition_key approval.approval_id)
    on_latest latest

  -- One round's look at the approval; `rest` sleeps and goes on.
  unfoldable pub on_current : Option Approval → Exec (World S) Approval → Exec (World S) Approval
  on_current none rest = raise (approval_error approval_unavailable)
  on_current (some current) rest =
      if is_status current.status Models.approved || is_status current.status Models.denied
      then pure current
      else if is_status current.status Models.cancelled || is_status current.status Models.expired
      then raise (approval_error approval_timed_out)
      else rest

  -- The loop, with fuel.
  unfoldable pub wait_loop : ℕ → ℕ → Approval → Exec (World S) Approval
  wait_loop zero deadline approval = after_deadline approval
  wait_loop (suc fuel) deadline approval =
      let rest = wait_loop fuel deadline approval in
      do
        clock ← now
        if ltb clock deadline
            then (do
              current ← await (store.get_approval approval.partition_key approval.approval_id)
              on_current current (do sleep service.poll_interval; rest))
            else after_deadline approval

  unfoldable pub wait_for_decision : Approval → Exec (World S) Approval
  wait_for_decision approval = do
    clock ← now
    wait_loop service.timeout (clock + service.timeout) approval

  -- The `except` clauses of `_request`, where `approval` is what the local variable holds.
  unfoldable pub handle_failure : {A : Type 0} → Option Approval → Failure → Exec (World S) A
  handle_failure approval (approval_error code) = raise (approval_error code)
  handle_failure (some approval) cancelled = do
    best_effort_close approval Models.cancelled
    raise cancelled
  handle_failure none cancelled = raise cancelled
  handle_failure approval _ = raise (approval_error approval_unavailable)

  -- for device_id in ids: await disable_device(...)
  unfoldable pub disable_all : String → List String → Exec (World S) (Unit {0})
  disable_all partition [] = pure tt
  disable_all partition (device_id ∷ rest) = do
    await (store.disable_device partition device_id)
    disable_all partition rest

  unfoldable pub require_devices : Principal → Exec (World S) (List Device)
  require_devices principal = do
    devices ← await (store.list_active_devices (partition_key principal))
    if is_nonempty devices then pure devices else raise (approval_error phone_not_linked)

  unfoldable pub new_approval : Principal → Question → Fresh → ℕ → Approval
  new_approval principal q fresh at = record {
    partition_key = partition_key principal;
    approval_id = fresh.approval_id;
    event_id = fresh.event_id;
    nonce = fresh.nonce;
    tool_name = q.tool_name;
    arguments_hash = hash_arguments service.platform q.arguments;
    requester = "VS Code";
    purpose = q.purpose;
    requested_keys = q.requested_keys;
    created_at = at;
    expires_at = at + service.timeout;
    status = Models.pending;
    decided_at = none;
    decided_by_device_id = none;
    decision_id = none;
    available_keys = [];
    approved_keys = [];
    denied_keys = [];
    unavailable_keys = [];
    property_metadata = [];
    compact_jwe = none;
    result_hash = none;
    etag = none;
  }

  unfoldable pub or_unavailable : Option Approval → Exec (World S) Approval
  or_unavailable none = raise (approval_error approval_unavailable)
  or_unavailable (some a) = pure a

  unfoldable pub persist : Approval → Exec (World S) Approval
  persist approval = do
    await (store.create_approval approval)
    persisted ← await (store.get_approval approval.partition_key approval.approval_id)
    or_unavailable persisted

  -- except NotificationUnavailable
  unfoldable pub on_undelivered : Approval → Failure → Exec (World S) DeliveryResult
  on_undelivered approval notification_unavailable = do
    best_effort_close approval Models.cancelled
    raise (approval_error notifications_unavailable)
  on_undelivered approval e = raise e

  unfoldable pub notify_and_wait : Principal → Approval → List Device → Exec (World S) Approval
  notify_and_wait principal approval devices = do
    delivery ←
        catch (await (λ at s. (service.send_approval approval devices, s)))
          (on_undelivered approval)
    disable_all (partition_key principal) delivery.invalid_device_ids
    if is_nonempty delivery.accepted_device_ids then wait_for_decision approval else (do
      best_effort_close approval Models.cancelled
      raise (approval_error notifications_unavailable))

  -- `_request`: the handlers stand around the three stretches on which `approval` is unset, the new
  -- record, and the stored one.
  unfoldable pub request : Principal → Question → Fresh → Exec (World S) Approval
  request principal q fresh = do
    devices ← catch (require_devices principal) (handle_failure none)
    at ← now
    let approval = new_approval principal q fresh at
    persisted ← catch (persist approval) (handle_failure (some approval))
    catch (notify_and_wait principal persisted devices) (handle_failure (some persisted))

  unfoldable pub request_available_properties : Principal → Fresh → Exec (World S) Approval
  request_available_properties principal = request principal (record {
    tool_name = list_tool;
    purpose = "List the properties currently available in this Concentrey vault.";
    requested_keys = [];
    arguments = none;
  })

  -- except Exception around the decryption
  abbrev pub on_invalid : Failure → Exec (World S) (List DisclosedProperty)
  on_invalid cancelled = raise cancelled
  on_invalid _ = raise (approval_error disclosure_invalid)

  unfoldable pub disclose : Approval → Exec (World S) (Approval × List DisclosedProperty)
  disclose approval =
      if is_status approval.status Models.denied || not (is_nonempty approval.approved_keys)
      then pure (approval, [])
      else (do
        values ← catch (await (λ at s. (service.decrypt at approval, s))) on_invalid
        pure (approval, values))

  unfoldable pub request_properties :
      Principal → List String → String → Fresh → Exec (World S) (Approval × List DisclosedProperty)
  request_properties principal requested_keys purpose fresh = do
    approval ←
        request principal
          (record {
            tool_name = request_tool;
            purpose = purpose;
            requested_keys = requested_keys;
            arguments = some (requested_keys, purpose);
          })
          fresh
    disclose approval
