-- ===== src/Notifications.antt =====
-- src/soffortbackend/notifications.py: waking the linked phones through Apple's push service. The
-- vault, the HTTP client and the token encoder are other people's code and are parameters.
pub mod Answers
pub mod Sending
use soffortmcp.Prelude.{
  ℕ, ◌+◌, ◌/◌, String, Bool, true, false, not, ◌&&◌, ◌||◌, Option, none, some, List, [], ◌∷◌, ◌++◌,
  map, ltb, nat_beq, ◌==◌, string_eq, if◌then◌else◌, contains, codes, concat, is_prefix,
  is_nonempty, Result, ok, err, notification_unavailable,
}
use soffortmcp.Prelude.Exec.{Exec, pure, raise, lift, ◌>>=◌, ◌>>◌}
use soffortmcp.Prelude.Decimal.{decimal}
use soffortmcp.Prelude.Json.{Value, as_str}
use soffortmcp.Prelude.JsonText.{dumps_text, dumps_object}
use soffortmcp.Models.{Approval, Device}

pub record DeliveryResult : Type 0 where
  pub accepted_device_ids : List String
  pub invalid_device_ids : List String

-- FakeApprovalNotifier
pub record FakeNotifier : Type 0 where
  pub accept : Bool
  pub deliveries : List (Approval × List Device)

abbrev pub device_ids : List Device → List String
device_ids = map (λ device. device.device_id)

unfoldable pub fake_send_approval : Approval → List Device → Exec FakeNotifier DeliveryResult
fake_send_approval approval devices s = (
  ok (record {
    accepted_device_ids = if s.accept then device_ids devices else [];
    invalid_device_ids = [];
  }),
  record s { deliveries = s.deliveries ++ ((approval, devices) ∷ []) },
)

-- The settings that the notifier reads.
pub record ApnsSettings : Type 0 where
  pub apns_environment : String
  pub apns_key_id : Option String
  pub apns_team_id : String
  pub apns_topic : String

-- The attributes of APNsApprovalNotifier that change.
pub record Notifier : Type 0 where
  pub private_key : Option String
  pub provider_token : Option String
  pub provider_token_created_at : ℕ

-- self._private_key is not None
abbrev pub is_some : Option String → Bool
is_some none = false
is_some (some text) = true

abbrev pub is_ready : Notifier → Bool
is_ready s = is_some s.private_key

-- text in s
unfoldable pub is_infix : List ℕ → List ℕ → Bool
is_infix text [] = is_prefix text []
is_infix text (c ∷ s) = is_prefix text (c ∷ s) || is_infix text s

-- `start`, where the vault returns the value of the secret or raises
unfoldable pub start : Result (Option String) → Exec Notifier (Unit {0})
start (err e) s = (err notification_unavailable, s)
start (ok none) s = (err notification_unavailable, s)
start (ok (some secret)) s =
    if is_infix (codes "BEGIN PRIVATE KEY") (codes secret)
    then (ok tt, record s { private_key = some secret })
    else (err notification_unavailable, s)

unfoldable pub close : Exec Notifier (Unit {0})
close s = (ok tt, record s { private_key = none; provider_token = none })

-- What is posted.
pub record Push : Type 0 where
  pub url : String
  pub content : List ℕ
  pub authorization : String
  pub apns_topic : String
  pub apns_expiration : String
  pub apns_id : String
  pub apns_collapse_id : String

-- What a post comes to: a response with its status and the member "reason" of its JSON, if there is
-- one; an `httpx.HTTPError`; or another exception.
pub data Posted : Type 0 where
  responded : ℕ → Option Value → Posted
  http_failed : Posted
  raised : Posted

-- What became of one device: True, "invalid", "transient", or an exception that `gather` kept.
pub data Delivery : Type 0 where
  accepted invalid transient failed : Delivery

unfoldable pub host : String → String
host environment =
    if environment == "sandbox" then "api.sandbox.push.apple.com" else "api.push.apple.com"

unfoldable pub payload : Approval → List ℕ
payload approval = dumps_object (
    (
      "aps",
      dumps_object (
          (
            "alert",
            dumps_object (
                ("title", dumps_text true "Concentrey request")
                ∷ (
                  "body",
                  dumps_text true "Open Concentrey to review which information was requested.",
                )
                ∷ []),
          )
          ∷ ("sound", dumps_text true "default")
          ∷ []),
    )
    ∷ ("event_id", dumps_text true approval.event_id)
    ∷ ("event_type", dumps_text true "mcp_approval_requested")
    ∷ ("approval_id", dumps_text true approval.approval_id)
    ∷ [])

-- reason in {...}
unfoldable pub is_dead_token : Option Value → Bool
is_dead_token none = false
is_dead_token (some v) = elim (as_str v) [
  | none ↦ false
  | some reason ↦
      contains reason ("BadDeviceToken" ∷ "DeviceTokenNotForTopic" ∷ "Unregistered" ∷ [])
]

unfoldable pub classify : Posted → Delivery
classify http_failed = transient
classify raised = failed
classify (responded status reason) =
    if nat_beq status 200
    then accepted
    else if (nat_beq status 400 || nat_beq status 410) && is_dead_token reason
    then invalid
    else transient

-- `jwt.encode` of the team, the time and the key's identifier, under the private key
abbrev pub Encoder : Type 0
Encoder = String → ℕ → String → String → String

-- The token, if it may be used again at `now`.
unfoldable pub reusable : ℕ → ℕ → Option String → Option String
reusable now at none = none
reusable now at (some token) =
    if token == "" then none else if ltb now (at + 3000) then some token else none

-- The lists of the loop, in the order of the devices.
unfoldable pub ids_of : (Delivery → Bool) → List (Device × Delivery) → List String
ids_of p [] = []
ids_of p ((device, r) ∷ l) = let rest = ids_of p l in if p r then device.device_id ∷ rest else rest

abbrev pub is_accepted : Delivery → Bool
is_accepted accepted = true
is_accepted _ = false

abbrev pub is_invalid : Delivery → Bool
is_invalid invalid = true
is_invalid _ = false

unfoldable pub any_transient : List (Device × Delivery) → Bool
any_transient [] = false
any_transient ((device, r) ∷ l) = not (is_accepted r || is_invalid r) || any_transient l

-- The loop over the results.
unfoldable pub summary : List (Device × Delivery) → Result DeliveryResult
summary results =
    if not (is_nonempty (ids_of is_accepted results)) && any_transient results
    then err notification_unavailable
    else ok (record {
      accepted_device_ids = ids_of is_accepted results;
      invalid_device_ids = ids_of is_invalid results;
    })

module _ (settings : ApnsSettings) where
  open settings use {apns_key_id, apns_team_id, apns_topic, apns_environment}

  unfoldable pub push : String → Approval → Device → Push
  push token approval device = record {
    url =
        concat "https://"
          (concat (host device.apns_environment) (concat "/3/device/" device.apns_token));
    content = payload approval;
    authorization = concat "bearer " token;
    apns_topic = apns_topic;
    apns_expiration = decimal (approval.expires_at / 1000000);
    apns_id = approval.event_id;
    apns_collapse_id = approval.approval_id;
  }

  unfoldable pub send_one : (Push → Posted) → String → Approval → Device → Delivery
  send_one post token approval device =
      if device.apns_environment == apns_environment
      then classify (post (push token approval device))
      else invalid

  unfoldable pub new_token : Encoder → ℕ → Option String → Option String → Exec Notifier String
  new_token encode now (some key) (some key_id) s =
      let token = encode apns_team_id now key key_id in
      (ok token, record s { provider_token = some token; provider_token_created_at = now })
  new_token encode now _ _ s = (err notification_unavailable, s)

  -- `_get_provider_token`, under its lock, where `now` is in seconds
  unfoldable pub get_provider_token : Encoder → ℕ → Exec Notifier String
  get_provider_token encode now s =
      elim (reusable now s.provider_token_created_at s.provider_token) [
        | some token ↦ (ok token, s)
        | none ↦ new_token encode now s.private_key apns_key_id s
      ]

  unfoldable pub send_approval :
      Encoder → (Push → Posted) → ℕ → Approval → List Device → Exec Notifier DeliveryResult
  send_approval encode post now approval devices = do
    token ← get_provider_token encode now
    lift (summary (map (λ device. (device, send_one post token approval device)) devices))
