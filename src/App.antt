-- ===== src/App.antt =====
-- src/soffortbackend/app.py: the life cycle of the adapters, the two tools and the readiness probe.
pub mod Closing
pub mod Asking
use soffortmcp.Prelude.{
  ℕ, nat_beq, String, Bool, true, false, not, ◌&&◌, Option, none, some, List, [], ◌∷◌, ◌==◌,
  string_eq, if◌then◌else◌, Failure, Result, ok, err, cancelled, approval_error, ApprovalErrorCode,
  phone_not_linked, notifications_unavailable, approval_timed_out, approval_unavailable,
  disclosure_invalid,
}
use soffortmcp.Prelude.Exec.{Exec, pure, raise, lift, catch, ◌>>=◌, ◌>>◌}
use soffortmcp.Prelude.Json.{str}
use soffortmcp.Models.{
  Principal, AccessToken, from_access_token, partition_key, PropertyIndex, PropertyMetadata,
  Approval,
}
use soffortmcp.Catalog.{Unicode, parse_property_keys}
use soffortmcp.DeviceSecurity.{normalize_purpose}
use soffortmcp.Disclosure.{DisclosedProperty}
use soffortmcp.Approval.Service.{Service, World, Fresh, await}
use soffortmcp.Approval.Service
use soffortmcp.Tools.{
  CallToolResult, ListAvailablePropertiesOutput, RequestPropertiesOutput, list_result,
  request_result,
}
use soffortmcp.Tools

-- The adapters of the application.
pub data Adapter : Type 0 where
  verifier store push disclosure : Adapter

-- What their `start` and `close` return or raise.
pub record Adapters : Type 0 where
  pub start : Adapter → Result (Unit {0})
  pub close : Adapter → Result (Unit {0})

pub data Event : Type 0 where
  started closed : Adapter → Event
  served : Event

-- The flags of `lifespan`, and what happened, the last first: starts and closes that returned, and the
-- serving of requests.
pub record Lifespan : Type 0 where
  pub verifier_started : Bool
  pub store_started : Bool
  pub push_started : Bool
  pub disclosure_started : Bool
  pub events : List Event

abbrev pub nothing_started : Lifespan
nothing_started = record {
  verifier_started = false;
  store_started = false;
  push_started = false;
  disclosure_started = false;
  events = [];
}

abbrev pub note : Event → Lifespan → Lifespan
note e s = record s { events = e ∷ s.events }

-- try: m / finally: cleanup. A raise of the cleanup takes the place of the outcome.
abbrev pub finally_ : Exec Lifespan (Unit {0}) → Exec Lifespan (Unit {0}) → Exec Lifespan (Unit {0})
finally_ m cleanup s =
    let r = m s in let c = cleanup r.1 in elim c.0 [ ok _ ↦ (r.0, c.1) | err e ↦ (err e, c.1) ]

module _ (adapters : Adapters) where
  abbrev pub start_adapter : Adapter → (Lifespan → Lifespan) → Exec Lifespan (Unit {0})
  start_adapter a flag s = elim (adapters.start a) [
    | ok _ ↦ (ok tt, flag (note (started a) s))
    | err e ↦ (err e, s)
  ]

  -- if a_started: await a.close()
  abbrev pub close_if : Bool → Adapter → Exec Lifespan (Unit {0})
  close_if false a s = (ok tt, s)
  close_if true a s = elim (adapters.close a) [
    | ok _ ↦ (ok tt, note (closed a) s)
    | err e ↦ (err e, s)
  ]

  abbrev pub serve : Result (Unit {0}) → Exec Lifespan (Unit {0})
  serve outcome s = (outcome, note served s)

  unfoldable pub start_all : Result (Unit {0}) → Exec Lifespan (Unit {0})
  start_all outcome = do
    start_adapter verifier (λ s. record s { verifier_started = true })
    start_adapter store (λ s. record s { store_started = true })
    start_adapter push (λ s. record s { push_started = true })
    start_adapter disclosure (λ s. record s { disclosure_started = true })
    serve outcome

  unfoldable pub close_all : Exec Lifespan (Unit {0})
  close_all = do
    (λ s. close_if s.disclosure_started disclosure s)
    (λ s. close_if s.push_started push s)
    (λ s. close_if s.store_started store s)
    (λ s. close_if s.verifier_started verifier s)

  -- `lifespan`, where the served application ends with an outcome
  unfoldable pub lifespan : Result (Unit {0}) → Exec Lifespan (Unit {0})
  lifespan outcome = finally_ (start_all outcome) close_all

-- error.code.value
unfoldable pub error_value : ApprovalErrorCode → String
error_value phone_not_linked = "phone_not_linked"
error_value notifications_unavailable = "notifications_unavailable"
error_value approval_timed_out = "approval_timed_out"
error_value approval_unavailable = "approval_unavailable"
error_value disclosure_invalid = "disclosure_invalid"

abbrev unavailable : {A : Type 0} → Result A
unavailable = Tools.approval_error "approval_unavailable"

abbrev pub require_vscode : Option Principal → Result Principal
require_vscode none = unavailable
require_vscode (some principal) =
    if principal.client_kind == "vscode" then ok principal else unavailable

-- `vscode_principal`, for the access token of the request
unfoldable pub vscode_principal : Option AccessToken → Result Principal
vscode_principal none = unavailable
vscode_principal (some token) = require_vscode (from_access_token token)

abbrev pub properties_of : Option PropertyIndex → List PropertyMetadata
properties_of none = []
properties_of (some index) = index.properties

module _ {S : Type 0} where
  -- except Exception
  abbrev pub on_exception : {A : Type 0} → Failure → Exec (World S) A
  on_exception cancelled = raise cancelled
  on_exception e = lift unavailable

  -- `list_available_properties`, over the store's `get_property_index`
  unfoldable pub list_available_properties :
      (String → ℕ → Exec S (Option PropertyIndex))
      → Option AccessToken
      → Exec (World S) (CallToolResult ListAvailablePropertiesOutput)
  list_available_properties get_property_index token = do
    index ←
        catch
          (do
            principal ← lift (vscode_principal token)
            await (get_property_index (partition_key principal)))
          on_exception
    pure (list_result (properties_of index))

  -- except ApprovalError
  abbrev pub on_approval_error : {A : Type 0} → Failure → Exec (World S) A
  on_approval_error (approval_error code) = lift (Tools.approval_error (error_value code))
  on_approval_error e = raise e

  abbrev pub ask :
      Service S
      → Option AccessToken
      → List String
      → String
      → Fresh
      → Exec (World S) (Approval × List DisclosedProperty)
  ask service token requested purpose fresh = do
    principal ← lift (vscode_principal token)
    Service.request_properties service principal requested purpose fresh

  unfoldable pub request_properties :
      Service S
      → Option AccessToken
      → List String
      → String
      → Fresh
      → Exec (World S) (CallToolResult RequestPropertiesOutput)
  request_properties service token properties purpose fresh = do
    requested ← lift (parse_property_keys properties)
    normalized_purpose ← lift (normalize_purpose service.unicode (str purpose))
    answer ← catch (ask service token requested normalized_purpose fresh) on_approval_error
    lift (request_result answer.0 answer.1)

-- `readyz`: the status, and the text of its payload
unfoldable pub readyz : Bool → Bool → Bool → Bool → ℕ × String
readyz verifier_ready store_ready push_ready disclosure_ready =
    let status =
      if verifier_ready && store_ready && push_ready && disclosure_ready then 200 else 503 in
    (status, if nat_beq status 200 then "ready" else "not_ready")
